-- ===== src/Network/Private.antt =====
-- The patterns of private addresses, on IPv4 addresses in dotted decimal.
use skrun.Base.{
  ℕ, ◌+◌, ◌/◌, ◌%◌, ◌<◌, ◌≡◌, refl, Bool, true, false, ◌&&◌, ◌||◌, List, [], ◌∷◌, ◌++◌, ◌==◌,
  nat_eq, if◌then◌else◌, leb, ltb, arith, inl, inr, ◌⊎◌,
}
use skrun.Network.Codes.{codes, strip, same, lower}
use skrun.Network.{
  matches, anything, second_of_172, second_of_100, is_private_host, unbracket, closes,
  two_hex_digits,
}

-- A number below 1000 in decimal.
abbrev pub octet : ℕ → List ℕ
octet n =
    if ltb n 10
    then (b'0' + n) ∷ []
    else if ltb n 100
    then (b'0' + n / 10) ∷ (b'0' + n % 10) ∷ []
    else (b'0' + n / 100) ∷ (b'0' + n / 10 % 10) ∷ (b'0' + n % 10) ∷ []

-- An IPv4 address as the resolver and a URL parser write it.
abbrev pub dotted : ℕ → ℕ → ℕ → ℕ → List ℕ
dotted a b c d = octet a ++ b'.' ∷ (octet b ++ b'.' ∷ (octet c ++ b'.' ∷ octet d))

-- RFC 1122 (this host, loopback), RFC 1918, RFC 3927 and RFC 6598: the blocks by their numbers.
abbrev pub is_reserved : ℕ → ℕ → Bool
is_reserved a b =
    a == 127
    || (a == 10
        || ((a == 172 && (leb 16 b && leb b 31))
            || ((a == 192 && b == 168)
                || ((a == 169 && b == 254) || (a == 0 || (a == 100 && (leb 64 b && leb b 127)))))))

module _ (a : ℕ) (rest : List ℕ) (small : a < 256) where
  begins_127 : matches (strip (codes "127.") (octet a ++ b'.' ∷ rest)) anything ≡ (a == 127)
  unfolding strip
  begins_127 = ground arith

  begins_10 : matches (strip (codes "10.") (octet a ++ b'.' ∷ rest)) anything ≡ (a == 10)
  unfolding strip
  begins_10 = ground arith

  begins_0 : matches (strip (codes "0.") (octet a ++ b'.' ∷ rest)) anything ≡ (a == 0)
  unfolding strip
  begins_0 = ground arith

  -- The patterns of names and of IPv6 addresses.
  not_localhost : same (codes "localhost") (lower (octet a ++ b'.' ∷ rest)) ≡ false
  unfolding same
  not_localhost = ground arith

  not_unspecified : same (codes "0:0:0:0:0:0:0:0") (octet a ++ b'.' ∷ rest) ≡ false
  unfolding same
  not_unspecified = ground arith

  not_v6 :
      (c : ℕ) (p : List ℕ) (test : List ℕ → Bool)
      → c ≡ b':' ⊎ c ≡ b'f' ⊎ c ≡ b'['
      → (matches (strip (c ∷ p) (octet a ++ b'.' ∷ rest)) test ≡ false)
        × (matches (strip (c ∷ p) (unbracket (octet a ++ b'.' ∷ rest))) test ≡ false)
        × (matches (strip (c ∷ p) (lower (octet a ++ b'.' ∷ rest))) test ≡ false)
        × (matches (strip (c ∷ p) (unbracket (lower (octet a ++ b'.' ∷ rest)))) test ≡ false)
  unfolding strip unbracket
  not_v6 c p test h = ground arith

module _ (a b : ℕ) (rest : List ℕ) (small : a < 256) (small' : b < 256) where
  begins_192_168 :
      matches (strip (codes "192.168.") (octet a ++ b'.' ∷ (octet b ++ b'.' ∷ rest))) anything
      ≡ (a == 192 && b == 168)
  unfolding strip
  begins_192_168 = ground arith

  begins_169_254 :
      matches (strip (codes "169.254.") (octet a ++ b'.' ∷ (octet b ++ b'.' ∷ rest))) anything
      ≡ (a == 169 && b == 254)
  unfolding strip
  begins_169_254 = ground arith

  begins_172 :
      matches (strip (codes "172.") (octet a ++ b'.' ∷ (octet b ++ b'.' ∷ rest))) second_of_172
      ≡ (a == 172 && (leb 16 b && leb b 31))
  unfolding strip second_of_172
  begins_172 = ground arith

  begins_100 :
      matches (strip (codes "100.") (octet a ++ b'.' ∷ (octet b ++ b'.' ∷ rest))) second_of_100
      ≡ (a == 100 && (leb 64 b && leb b 127))
  unfolding strip second_of_100
  begins_100 = ground arith

or_false : (x : Bool) → (x || false) ≡ x
or_false true = refl
or_false false = refl

-- An IPv4 address in dotted decimal is private exactly when its numbers lie in a reserved block:
-- 0.0.0.0/8, 10.0.0.0/8, 100.64.0.0/10, 127.0.0.0/8, 169.254.0.0/16, 172.16.0.0/12 or 192.168.0.0/16.
-- So no address of a block slips through the patterns, and no other IPv4 address is caught.
pub is_private_host-dotted :
    (a b c d : ℕ) → a < 256 → b < 256 → is_private_host (dotted a b c d) ≡ is_reserved a b
unfolding is_private_host
is_private_host-dotted a b c d ha hb =
    let tail = octet c ++ b'.' ∷ octet d in
    let rest = octet b ++ b'.' ∷ tail in
    let colon = not_v6 a rest ha b':' in
    let letter = not_v6 a rest ha b'f' in
    let bracket = not_v6 a rest ha b'[' in
    rw
      (
        not_localhost a rest ha,
        begins_127 a rest ha,
        begins_10 a rest ha,
        begins_172 a b tail ha hb,
        begins_192_168 a b tail ha hb,
        begins_169_254 a b tail ha hb,
        begins_0 a rest ha,
        begins_100 a b tail ha hb,
        (colon (codes ":1") closes (inl refl)).1,
        (colon (codes ":") closes (inl refl)).1,
        not_unspecified a rest ha,
        (colon (codes ":ffff:") anything (inl refl)).3,
        (letter (codes "e80:") anything (inr (inl refl))).2,
        (bracket (codes "fe80:") anything (inr (inr refl))).2,
        (letter (codes "c") two_hex_digits (inr (inl refl))).2,
        (bracket (codes "fc") two_hex_digits (inr (inr refl))).2,
        (letter (codes "d") two_hex_digits (inr (inl refl))).2,
        (bracket (codes "fd") two_hex_digits (inr (inr refl))).2,
        or_false,
      )
      refl
