-- ===== src/RateLimit/Forgery.antt =====
-- What a client gains by the headers that it makes up.
use skrun.Base.{
  ℕ, suc, ◌≡◌, ◌-◌, ◌≤◌, min, refl, ap, ◌∙◌, String, Bool, true, false, Option, none, some, List,
  [], ◌∷◌, ==_refl, nat_eq, string_eq, length, arith, map, All,
}
use skrun.JsMap
use skrun.JsMap.{Distinct}
use skrun.RateLimit.{MemoryRateLimiter, Entry, check}
use skrun.RateLimit.Window.{Hit, admitted, occurrences, Within, admitted_lem}
use skrun.RateLimit.Middleware.{Request, client_key, passed, limited, rate_limiter}

-- Two requests agree on what the limiter trusts: the address of the socket, and behind a proxy the header
-- that is named, or the two usual ones where none is.
abbrev pub SameSource : Bool → Option String → Request → Request → Type 0
SameSource false named r r' = r.remote ≡ r'.remote
SameSource true (some name) r r' = (r.remote ≡ r'.remote) × (r.header name ≡ r'.header name)
SameSource true none r r' =
    (r.remote ≡ r'.remote)
    × (r.header "x-forwarded-for" ≡ r'.header "x-forwarded-for")
    × (r.header "x-real-ip" ≡ r'.header "x-real-ip")

client_key_same :
    (trust : Bool) (named : Option String) (r r' : Request)
    → SameSource trust named r r'
    → client_key r trust named ≡ client_key r' trust named
unfolding client_key
client_key_same false named r r' h = cc h
client_key_same true (some name) r r' (h, g) = cc (h, g)
client_key_same true none r r' (h, g, k) = cc (h, g, k)

module _ (trust : Bool) (named : Option String) where
  -- The requests of a list that go on, one after the other.
  unfoldable pub let_through : MemoryRateLimiter → List Request → ℕ
  let_through l [] = 0
  let_through l (r ∷ rs) =
      let (l', answer) = rate_limiter trust named l r in
      let rest = let_through l' rs in
      elim answer [ passed result ↦ suc rest | limited result ↦ rest ]

  hit_of : Request → Hit
  hit_of r = record { key = client_key r trust named; at = r.at }

  abbrev pub Before : ℕ → List Request → Type 0
  Before reset [] = Unit
  Before reset (r ∷ rs) = (r.at ≤ reset) × Before reset rs

  hits_Within : (reset : ℕ) (rs : List Request) → Before reset rs → Within reset (map hit_of rs)
  unfolding hit_of
  hits_Within reset [] h = tt
  hits_Within reset (r ∷ rs) (h, hs) = (h, hits_Within reset rs hs)

  module _ (r0 : Request) where
    key : String
    key = client_key r0 trust named

    let_through-admitted :
        (l : MemoryRateLimiter) (rs : List Request)
        → All (SameSource trust named r0) rs
        → (let_through l rs ≡ admitted l key (map hit_of rs))
          × (occurrences key (map hit_of rs) ≡ length rs)
    unfolding let_through admitted rate_limiter hit_of key
    let_through-admitted l [] h = (refl, refl)
    let_through-admitted l (r ∷ rs) (h, hs) = ground (
      arith,
      client_key_same trust named r0 r h,
      ==_refl (client_key r0 trust named),
      let_through-admitted (check l (client_key r trust named) r.at).0 rs hs,
    )

    -- Of requests that agree on what the limiter trusts, and that come before the window of their
    -- counter is over, exactly as many go on as the counter leaves of the maximum, or all of them when
    -- they are fewer, whatever other headers they carry: without a trusted proxy no header gains
    -- anything, and behind one only the headers that it sets count.
    pub forged_headers :
        (l : MemoryRateLimiter) (rs : List Request) (entry : Entry)
        → Distinct l.hits
        → JsMap.get l.hits (client_key r0 trust named) ≡ some entry
        → All (SameSource trust named r0) rs
        → Before entry.reset_at rs
        → let_through l rs ≡ min (l.max - entry.count) (length rs)
    unfolding key
    forged_headers l rs entry d e same before =
        let (passed_count, all_count) = let_through-admitted l rs same in
        passed_count
        ∙ (admitted_lem (map hit_of rs) l key entry d e (hits_Within entry.reset_at rs before)
            ∙ ap (min (l.max - entry.count)) all_count)
