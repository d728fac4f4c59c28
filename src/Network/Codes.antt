-- ===== src/Network/Codes.antt =====
-- Texts as lists of code units, and what the patterns of network.ts need of them.
use Prim.Native.Char.{code}
use skrun.Base.{
  ℕ, ◌+◌, Bool, true, false, ◌&&◌, ◌||◌, Option, none, some, List, [], ◌∷◌, ◌==◌, nat_eq,
  if◌then◌else◌, leb, map, String,
}

abbrev pub codes : String → List ℕ
codes String.[] = []
codes (String.◌∷◌ c s) = code c ∷ codes s

abbrev pub is_upper : ℕ → Bool
is_upper c = leb b'A' c && leb c b'Z'

abbrev pub to_lower : ℕ → ℕ
to_lower c = if is_upper c then c + 32 else c

abbrev pub lower : List ℕ → List ℕ
lower s = map to_lower s

abbrev pub is_digit : ℕ → Bool
is_digit c = leb b'0' c && leb c b'9'

-- `[0-9a-f]` with the flag `i`.
abbrev pub is_hex_digit : ℕ → Bool
is_hex_digit c = is_digit c || leb b'a' (to_lower c) && leb (to_lower c) b'f'

-- The rest of the text after a prefix.
unfoldable pub strip : List ℕ → List ℕ → Option (List ℕ)
strip [] s = some s
strip (c ∷ p) [] = none
strip (c ∷ p) (d ∷ s) = if c == d then strip p s else none

unfoldable pub same : List ℕ → List ℕ → Bool
same [] [] = true
same [] (d ∷ s) = false
same (c ∷ p) [] = false
same (c ∷ p) (d ∷ s) = c == d && same p s

-- `String.prototype.endsWith`
unfoldable pub ends_with : List ℕ → List ℕ → Bool
unfolding same
ends_with suffix [] = same suffix []
ends_with suffix (d ∷ s) = same suffix (d ∷ s) || ends_with suffix s
