-- ===== src/Auth/Csrf/Forgery.antt =====
-- No forged form reaches a handler.
use Prim.Native.Char.{code}
use Prim.Native.String as Text
use skrun.Base.{
  ℕ, ◌≡◌, ◌⊎◌, inl, inr, refl, ap, String, true, false, Option, none, some, List, [], ◌∷◌, ◌++◌,
  ◌==◌, nat_eq, string_eq, get_or, arith, ==_iff, Bool-cases, Option-cases, ℕ_discrete,
}
use skrun.Network.Codes.{codes, strip}
use skrun.Db.{MemoryDb}
use skrun.Auth.{Crypto}
use skrun.Auth.Middleware.{
  Settings, unauthorized, session_id, session_user, by_bearer, authenticate,
}
use skrun.Auth.Csrf.{
  WebRequest, IsForged, CsrfLibrary, is_bearer, first_cookie, is_own_origin, csrf_guard,
  after_prefix, bearer_of, credentials, forbidden, behind_guard, serve_guarded,
}

after_prefix-codes :
    (p s : String) {r : String} → after_prefix p s ≡ some r → codes s ≡ codes p ++ codes r
unfolding after_prefix
after_prefix-codes Text.[] s e = ap codes (cc e)
after_prefix-codes (Text.◌∷◌ c p) Text.[] e = cc e
after_prefix-codes (Text.◌∷◌ c p) (Text.◌∷◌ d s) e = elim (Bool-cases (code c == code d)) [
  | inl y ↦
      let same : code c ≡ code d = (==_iff (code c) (code d)).0 y in
      let rest = after_prefix-codes p s (rw (after_prefix, y) at e) in cc (same, rest)
  | inr n ↦ cc (rw (after_prefix, n) at e)
]

-- What the authentication takes for a Bearer header, the guard does as well.
after_bearer :
    (header : String) {r : String}
    → after_prefix "Bearer " header ≡ some r
    → is_bearer header ≡ true
unfolding is_bearer strip ℕ_discrete
after_bearer header e = rw (after_prefix-codes "Bearer " header e) refl

no_token :
    (authorization : Option String)
    → is_bearer (get_or authorization "") ≡ false
    → bearer_of authorization ≡ none
unfolding bearer_of
no_token none plain = refl
no_token (some header) plain = elim (Option-cases (after_prefix "Bearer " header)) [
  | inl n ↦ rw (bearer_of, n) refl
  | inr (r, e) ↦ absurd (cc (after_bearer header e, plain))
]

no_session :
    (s : Settings) (cookies : List String)
    → (first_cookie cookies == "") ≡ true
    → session_id s cookies ≡ none
unfolding session_id
no_session s [] h = refl
no_session s (v ∷ vs) h = ground (arith, h)

no_bearer-refused :
    (c : Crypto) (s : Settings) (db : MemoryDb) (now : ℕ) (uuid : String)
    → (message : String) × (by_bearer c s db none now uuid ≡ (db, unauthorized message))
unfolding by_bearer
no_bearer-refused c s db now uuid = (_, refl)

nobody :
    (c : Crypto) (s : Settings) (db : MemoryDb) (req : WebRequest) (now : ℕ) (uuid : String)
    → session_id s req.session_cookies ≡ none
    → bearer_of req.authorization ≡ none
    → (message : String) × (authenticate c s db (credentials req) now uuid
        ≡ (db, unauthorized message))
unfolding authenticate session_user
nobody c s db req now uuid no_id no_bearer =
    let (message, refused) = no_bearer-refused c s db now uuid in
    (message, ground (arith, no_id, no_bearer, refused))

-- A form that another site makes a browser send, with whatever cookies, does not reach a handler behind the
-- authentication, as long as its Authorization header, when it has one, is not of the Bearer form: with a session cookie the guard
-- refuses it, and without one the authentication does, and the database stays as it is. The condition
-- on the library is the one that its record has: that it refuses such forms when it is asked.
pub forged_refused :
    (library : CsrfLibrary) (canonical_origin : Option String) (c : Crypto) (s : Settings)
    (db : MemoryDb) (req : WebRequest) (now : ℕ) (uuid : String)
    → IsForged (is_own_origin canonical_origin req) req
    → is_bearer (get_or req.authorization "") ≡ false
    → let served = serve_guarded library canonical_origin c s db req now uuid in
      (((first_cookie req.session_cookies == "") ≡ false) × (served ≡ forbidden))
      ⊎ ((first_cookie req.session_cookies == "") ≡ true)
        × (message : String) × (served ≡ behind_guard (db, unauthorized message))
unfolding serve_guarded csrf_guard
forged_refused library canonical_origin c s db req now uuid forged plain =
    elim (Bool-cases (first_cookie req.session_cookies == "")) [
      | inr cookie ↦
          let verdict = library.refuses (is_own_origin canonical_origin req) req forged in
          inl (cookie, rw (serve_guarded, csrf_guard, plain, cookie, verdict) refl)
      | inl bare ↦
          let (message, refused) =
            nobody c s db req now uuid (no_session s req.session_cookies bare)
              (no_token req.authorization plain) in
          inr (bare, message, rw (serve_guarded, csrf_guard, plain, bare, refused) refl)
    ]
