-- ===== src/Auth/Csrf.antt =====
-- packages/api/src/middleware/csrf.ts, the guard against forged forms, with what middleware/auth.ts reads of
-- the Authorization header, and the two in the order in which index.ts puts them. `csrf` of hono is the
-- record `CsrfLibrary`; the origin that externalBaseUrl derives is part of the request.
pub mod Forgery
use Prim.Native.Char.{code}
use Prim.Native.String as Text
use skrun.Base.{
  ℕ, ◌≡◌, ◌≢◌, String, Bool, true, false, Option, none, some, List, [], ◌∷◌, ◌==◌, nat_eq,
  string_eq, if◌then◌else◌, get_or,
}
use skrun.Network.Codes.{codes, strip, lower}
use skrun.RateLimit.Middleware.{is_space, trim}
use skrun.Db.{MemoryDb}
use skrun.Auth.{Crypto}
use skrun.Auth.Middleware.{Settings, Credentials, AuthAnswer, authenticate}

-- `unsafe_method`: the method is not one that only reads. `form_shaped`: the content type is one that
-- a form sends, or there is none.
pub record WebRequest : Type 0 where
  pub unsafe_method : Bool
  pub form_shaped : Bool
  pub sec_fetch_site : Option String
  pub origin : Option String
  pub derived_origin : String
  pub authorization : Option String
  pub session_cookies : List String

-- A form that another site makes the browser send: it is neither marked as of the same origin, nor names an
-- origin that the test accepts.
pub record IsForged (is_accepted : String → Bool) (req : WebRequest) : Type 0 where
  pub changes : req.unsafe_method ≡ true
  pub shaped : req.form_shaped ≡ true
  pub cross_site : req.sec_fetch_site ≢ some "same-origin"
  pub foreign : (o : String) → req.origin ≡ some o → is_accepted o ≡ false

-- The library's middleware with its option `origin`: whether it calls `next`. It refuses a form-shaped
-- request with neither `Sec-Fetch-Site: same-origin` nor an acceptable `Origin`.
pub record CsrfLibrary : Type 0 where
  pub calls_next : (String → Bool) → WebRequest → Bool
  pub refuses :
      (is_accepted : String → Bool) (req : WebRequest)
      → IsForged is_accepted req
      → calls_next is_accepted req ≡ false

abbrev pub starts_with_space : Option (List ℕ) → Bool
starts_with_space none = false
starts_with_space (some []) = false
starts_with_space (some (c ∷ s)) = is_space c

-- `/^Bearer\s/i`
unfoldable pub is_bearer : String → Bool
is_bearer header = starts_with_space (strip (codes "bearer") (lower (codes header)))

-- `getCookie`: the first of the values that carry the name.
abbrev pub first_cookie : List String → String
first_cookie [] = ""
first_cookie (v ∷ vs) = v

-- `origin === (opts.canonicalOrigin ?? ...)`
abbrev pub is_own_origin : Option String → WebRequest → String → Bool
is_own_origin canonical_origin req origin = origin == get_or canonical_origin req.derived_origin

-- The request goes on to the handlers behind the guard.
unfoldable pub csrf_guard : CsrfLibrary → Option String → WebRequest → Bool
csrf_guard library canonical_origin req =
    if is_bearer (get_or req.authorization "")
    then true
    else if first_cookie req.session_cookies == ""
    then true
    else library.calls_next (is_own_origin canonical_origin req) req

-- `startsWith` and `slice` in one: the rest of the text after a prefix.
unfoldable pub after_prefix : String → String → Option String
after_prefix Text.[] s = some s
after_prefix (Text.◌∷◌ c p) Text.[] = none
after_prefix (Text.◌∷◌ c p) (Text.◌∷◌ d s) = if code c == code d then after_prefix p s else none

abbrev pub trimmed : Option String → Option String
trimmed none = none
trimmed (some token) = some (trim token)

-- The token that the authentication reads of the header.
unfoldable pub bearer_of : Option String → Option String
bearer_of none = none
bearer_of (some header) = trimmed (after_prefix "Bearer " header)

abbrev pub credentials : WebRequest → Credentials
credentials req = record {
  session_cookies = req.session_cookies;
  bearer = bearer_of req.authorization;
}

-- The guard answers 403, or the authentication answers or calls the handler.
pub data GuardedAnswer : Type 0 where
  forbidden : GuardedAnswer
  behind_guard : MemoryDb × AuthAnswer → GuardedAnswer

unfoldable pub serve_guarded :
    CsrfLibrary
    → Option String
    → Crypto
    → Settings
    → MemoryDb
    → WebRequest
    → ℕ
    → String
    → GuardedAnswer
serve_guarded library canonical_origin c s db req now uuid =
    if csrf_guard library canonical_origin req
    then behind_guard (authenticate c s db (credentials req) now uuid)
    else forbidden
