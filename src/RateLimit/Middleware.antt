-- ===== src/RateLimit/Middleware.antt =====
-- packages/api/src/middleware/rate-limit.ts: the limiter in front of a route, keyed by the address of the
-- client. The two variables of the environment are given parsed, `remote` is `none` where `getConnInfo`
-- throws or knows no address, and the text of the refusal is left out.
use Prim.Native.Char.{Char, code}
use Prim.Native.String as Text
use Prim.Native.String.{slice}
use text.Mathlib.Text.{find?}
use skrun.Base.{
  ℕ, String, Bool, true, false, ◌||◌, ◌&&◌, Option, none, some, ◌==◌, nat_eq, string_eq, leb,
  if◌then◌else◌, get_or,
}
use skrun.RateLimit.{MemoryRateLimiter, RateLimitResult, check}

-- What `trim` takes off.
abbrev pub is_space : ℕ → Bool
is_space c =
    (leb 9 c && leb c 13)
    || ((c == 32 || (c == 160 || c == 5760))
        || ((leb 8192 c && leb c 8202)
            || ((c == 8232 || c == 8233)
                || ((c == 8239 || c == 8287) || (c == 12288 || c == 65279)))))

unfoldable pub trim_start : String → String
trim_start Text.[] = ""
trim_start (Text.◌∷◌ c s) =
    let rest = trim_start s in if is_space (code c) then rest else Text.◌∷◌ c s

-- Whether nothing but spaces is left.
abbrev pub put_back : Char → String → String
put_back c s = if is_space (code c) && s == "" then "" else Text.◌∷◌ c s

unfoldable pub trim_end : String → String
trim_end Text.[] = ""
trim_end (Text.◌∷◌ c s) = put_back c (trim_end s)

abbrev pub trim : String → String
trim s = trim_end (trim_start s)

-- `split(",")[0]`
abbrev pub before_comma : String → String
before_comma s = elim (find? s ",") [ none ↦ s | some i ↦ slice s 0 i ]

pub record Request : Type 0 where
  pub header : String → Option String
  pub remote : Option String
  pub at : ℕ

-- A header's value, trimmed, or "" when it is not there.
abbrev pub posted : Option String → String
posted none = ""
posted (some value) = trim value

abbrev pub first_hop : Option String → String
first_hop none = ""
first_hop (some value) = trim (before_comma value)

abbrev pub or_else : String → String → String
or_else s other = if s == "" then other else s

unfoldable pub client_key : Request → Bool → Option String → String
client_key r false trusted_header = get_or r.remote "unknown"
client_key r true (some name) = or_else (posted (r.header name)) (get_or r.remote "unknown")
client_key r true none =
    or_else (first_hop (r.header "x-forwarded-for"))
      (or_else (posted (r.header "x-real-ip")) (get_or r.remote "unknown"))

-- The request goes on, or is answered with 429; both with the three headers of the result.
pub data LimiterAnswer : Type 0 where
  passed : RateLimitResult → LimiterAnswer
  limited : RateLimitResult → LimiterAnswer

unfoldable pub rate_limiter :
    Bool → Option String → MemoryRateLimiter → Request → MemoryRateLimiter × LimiterAnswer
rate_limiter trust_proxy trusted_header l r =
    let (l', result) = check l (client_key r trust_proxy trusted_header) r.at in
    (l', if result.success then passed result else limited result)
