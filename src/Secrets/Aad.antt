-- ===== src/Secrets/Aad.antt =====
-- The associated data names one agent, one provider and one version.
use skrun.Base.{ℕ, ◌/◌, ◌%◌, ◌<◌, ◌≡◌, refl, sym, ◌∙◌, String, [], ◌∷◌, ◌++◌, arith, length}
use mathlib.Core.List.{append_assoc}
use skrun.Storage.{Buffer}
use skrun.Secrets.{u32_le, prefixed, build_aad}

-- Four bytes hold a number below 2^32.
u32_le-injective : (m n : ℕ) → m < 4294967296 → n < 4294967296 → u32_le m ≡ u32_le n → m ≡ n
unfolding u32_le
u32_le-injective m n hm hn e =
    let e0 : m % 256 ≡ n % 256 = cc e in
    let e1 : (m / 256) % 256 ≡ (n / 256) % 256 = cc e in
    let e2 : (m / 65536) % 256 ≡ (n / 65536) % 256 = cc e in
    let e3 : (m / 16777216) % 256 ≡ (n / 16777216) % 256 = cc e in
    omega (arith, hm, hn, e0, e1, e2, e3)

append-injective :
    (xs ys r r' : Buffer) → length xs ≡ length ys → xs ++ r ≡ ys ++ r' → (xs ≡ ys) × (r ≡ r')
append-injective [] [] r r' h e = (refl, e)
append-injective [] (y ∷ ys) r r' h e = ground (arith, h)
append-injective (x ∷ xs) [] r r' h e = ground (arith, h)
append-injective (x ∷ xs) (y ∷ ys) r r' h e =
    let tails : xs ++ r ≡ ys ++ r' = cc e in
    let heads : x ≡ y = cc e in
    let lengths : length xs ≡ length ys = omega (arith, h) in
    let (same, rest) = append-injective xs ys r r' lengths tails in (cc (heads, same), rest)

length-u32_le : (n : ℕ) → length (u32_le n) ≡ 4
unfolding u32_le
length-u32_le n = refl

prefixed-injective :
    (xs ys r r' : Buffer)
    → length xs < 4294967296
    → length ys < 4294967296
    → prefixed xs ++ r ≡ prefixed ys ++ r'
    → (xs ≡ ys) × (r ≡ r')
prefixed-injective xs ys r r' hx hy e =
    let e' : u32_le (length xs) ++ (xs ++ r) ≡ u32_le (length ys) ++ (ys ++ r') =
      sym (append_assoc (u32_le (length xs)) xs r)
      ∙ (e ∙ append_assoc (u32_le (length ys)) ys r') in
    let same_size = length-u32_le (length xs) ∙ sym (length-u32_le (length ys)) in
    let (sizes, tails) =
      append-injective (u32_le (length xs)) (u32_le (length ys)) (xs ++ r) (ys ++ r') same_size
        e' in
    append-injective xs ys r r' (u32_le-injective (length xs) (length ys) hx hy sizes) tails

-- Two triples with the same associated data are the same: the agents' and the providers' bytes and the
-- versions agree, of texts and numbers that fit into four bytes.
pub build_aad-injective :
    (utf8 : String → Buffer) (agent_id agent_id' provider provider' : String) (version version' : ℕ)
    → length (utf8 agent_id) < 4294967296
    → length (utf8 agent_id') < 4294967296
    → length (utf8 provider) < 4294967296
    → length (utf8 provider') < 4294967296
    → version < 4294967296
    → version' < 4294967296
    → build_aad utf8 agent_id provider version ≡ build_aad utf8 agent_id' provider' version'
    → (utf8 agent_id ≡ utf8 agent_id') × (utf8 provider ≡ utf8 provider') × (version ≡ version')
unfolding build_aad
build_aad-injective utf8 a a' p p' v v' ha ha' hp hp' hv hv' e =
    let grouped =
      sym (append_assoc (prefixed (utf8 a)) (prefixed (utf8 p)) (u32_le v))
      ∙ (e ∙ append_assoc (prefixed (utf8 a')) (prefixed (utf8 p')) (u32_le v')) in
    let (agents, e1) =
      prefixed-injective (utf8 a) (utf8 a') (prefixed (utf8 p) ++ u32_le v)
        (prefixed (utf8 p') ++ u32_le v') ha ha' grouped in
    let (providers, e2) = prefixed-injective (utf8 p) (utf8 p') (u32_le v) (u32_le v') hp hp' e1 in
    (agents, providers, u32_le-injective v v' hv hv' e2)
