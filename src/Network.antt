-- ===== src/Network.antt =====
-- packages/runtime/src/security/network.ts: which hosts an agent may reach. A host name is the list of
-- its code units; `toLowerCase` is that of ASCII, of which the names that a URL parser gives are.
pub mod Codes
pub mod Private
pub mod Allowed
use skrun.Base.{
  ℕ, zero, suc, ◌+◌, Bool, true, false, not, ◌&&◌, ◌||◌, Option, none, some, List, [], ◌∷◌, ◌==◌,
  nat_eq, if◌then◌else◌, leb, ltb, length, any, map,
}
use skrun.Network.Codes.{codes, lower, same, strip, is_digit, is_hex_digit, ends_with}

-- `(1[6-9]|2\d|3[01])\.`
unfoldable pub second_of_172 : List ℕ → Bool
second_of_172 [] = false
second_of_172 (x ∷ []) = false
second_of_172 (x ∷ y ∷ []) = false
second_of_172 (x ∷ y ∷ z ∷ r) =
    z == b'.'
    && ((x == b'1' && (leb b'6' y && leb y b'9'))
        || ((x == b'2' && is_digit y) || (x == b'3' && (y == b'0' || y == b'1'))))

-- `([01]\d|2[0-7])\.`, after the first digit of a number from 100 on.
unfoldable pub after_one : List ℕ → Bool
after_one [] = false
after_one (y ∷ []) = false
after_one (y ∷ z ∷ []) = false
after_one (y ∷ z ∷ w ∷ r) =
    w == b'.'
    && (((y == b'0' || y == b'1') && is_digit z) || (y == b'2' && (leb b'0' z && leb z b'7')))

-- `(6[4-9]|[7-9]\d)\.`
unfoldable pub two_digits_of_100 : List ℕ → Bool
two_digits_of_100 [] = false
two_digits_of_100 (x ∷ []) = false
two_digits_of_100 (x ∷ y ∷ []) = false
two_digits_of_100 (x ∷ y ∷ z ∷ r) =
    z == b'.'
    && ((x == b'6' && (leb b'4' y && leb y b'9')) || ((leb b'7' x && leb x b'9') && is_digit y))

-- `(6[4-9]|[7-9]\d|1[01]\d|12[0-7])\.`
unfoldable pub second_of_100 : List ℕ → Bool
unfolding two_digits_of_100 after_one
second_of_100 [] = false
second_of_100 (x ∷ r) = two_digits_of_100 (x ∷ r) || (x == b'1' && after_one r)

-- `[0-9a-f]{2}:` with the flag `i`.
unfoldable pub two_hex_digits : List ℕ → Bool
two_hex_digits [] = false
two_hex_digits (x ∷ []) = false
two_hex_digits (x ∷ y ∷ []) = false
two_hex_digits (x ∷ y ∷ z ∷ r) = is_hex_digit x && (is_hex_digit y && z == b':')

-- `\[?`: the bracket of an IPv6 address in a URL.
unfoldable pub unbracket : List ℕ → List ℕ
unbracket [] = []
unbracket (c ∷ s) = if c == b'[' then s else c ∷ s

-- `\]?$`
unfoldable pub closes : List ℕ → Bool
closes [] = true
closes (c ∷ []) = c == b']'
closes (c ∷ d ∷ s) = false

-- What follows a prefix passes a test.
abbrev pub matches : Option (List ℕ) → (List ℕ → Bool) → Bool
matches none test = false
matches (some r) test = test r

abbrev pub anything : List ℕ → Bool
anything r = true

-- The patterns, one function to each; an anchored pattern with the flag `i` reads the name in lower case.
unfoldable pub private_ip_patterns : List (List ℕ → Bool)
unfolding strip same second_of_172 second_of_100 two_hex_digits unbracket closes
private_ip_patterns =
    (λ s. same (codes "localhost") (lower s))
    ∷ (λ s. matches (strip (codes "127.") s) anything)
    ∷ (λ s. matches (strip (codes "10.") s) anything)
    ∷ (λ s. matches (strip (codes "172.") s) second_of_172)
    ∷ (λ s. matches (strip (codes "192.168.") s) anything)
    ∷ (λ s. matches (strip (codes "169.254.") s) anything)
    ∷ (λ s. matches (strip (codes "0.") s) anything)
    ∷ (λ s. matches (strip (codes "100.") s) second_of_100)
    ∷ (λ s. matches (strip (codes "::1") (unbracket s)) closes)
    ∷ (λ s. matches (strip (codes "::") (unbracket s)) closes)
    ∷ (λ s. same (codes "0:0:0:0:0:0:0:0") s)
    ∷ (λ s. matches (strip (codes "::ffff:") (unbracket (lower s))) anything)
    ∷ (λ s. matches (strip (codes "fe80:") (lower s)) anything)
    ∷ (λ s. matches (strip (codes "[fe80:") (lower s)) anything)
    ∷ (λ s. matches (strip (codes "fc") (lower s)) two_hex_digits)
    ∷ (λ s. matches (strip (codes "[fc") (lower s)) two_hex_digits)
    ∷ (λ s. matches (strip (codes "fd") (lower s)) two_hex_digits)
    ∷ (λ s. matches (strip (codes "[fd") (lower s)) two_hex_digits)
    ∷ []

unfoldable pub is_private_host : List ℕ → Bool
unfolding private_ip_patterns
is_private_host hostname = any (λ pattern. pattern hostname) private_ip_patterns

-- On a host name and a pattern in lower case. `p.slice(1)` of a pattern that starts with `*.` is what
-- follows the star.
unfoldable pub match_lower : List ℕ → List ℕ → Bool
unfolding same ends_with
match_lower h [] = same h []
match_lower h (c ∷ []) = if c == b'*' then true else same h (c ∷ [])
match_lower h (c ∷ d ∷ p) =
    if c == b'*' && d == b'.'
    then ends_with (d ∷ p) h && ltb (length (d ∷ p)) (length h)
    else same h (c ∷ d ∷ p)

unfoldable pub match_host : List ℕ → List ℕ → Bool
unfolding match_lower
match_host hostname pattern = match_lower (lower hostname) (lower pattern)

unfoldable pub is_host_allowed : List ℕ → List (List ℕ) → Bool
is_host_allowed hostname allowed_hosts =
    if is_private_host hostname
    then false
    else if length allowed_hosts == 0
    then false
    else any (λ pattern. match_host hostname pattern) allowed_hosts
