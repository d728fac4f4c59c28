-- ===== src/Bundle/Paths.antt =====
-- Splitting at fewer separators, and where a name with no segment `..` leads.
use skrun.Base.{
  ℕ_discrete, ℕ, ◌<◌, length, ◌≡◌, refl, inl, inr, Bool, true, false, List, [], ◌∷◌, ◌++◌, nat_eq,
  any, arith, Bool-cases, if◌then◌else◌,
}
use mathlib.Core.List.{append_assoc}
use skrun.Network.Codes.{same}
use skrun.Network.Allowed.{same_iff}
use skrun.Bundle.{is_separator, split, dot_dot, FsPath, is_idle, walk, same_path, is_below}

split_shape :
    (separator : ℕ → Bool) (s : List ℕ)
    → (h : List ℕ) × (t : List (List ℕ)) × (split separator s ≡ h ∷ t)
unfolding split
split_shape separator [] = ([], [], refl)
split_shape separator (c ∷ s) =
    let (h, t, e) = split_shape separator s in
    elim (Bool-cases (separator c)) [
      | inl y ↦ ([], h ∷ t, ground (arith, y, e))
      | inr n ↦ (c ∷ h, t, ground (arith, n, e))
    ]

head_is : List ℕ → List (List ℕ) → Bool
head_is w [] = false
head_is w (h ∷ t) = same w h

tail_has : List ℕ → List (List ℕ) → Bool
tail_has v [] = false
tail_has v (h ∷ t) = any (same v) t

-- A text with no separator.
abbrev Plain : List ℕ → Type 0
Plain [] = Unit
Plain (c ∷ w) = (is_separator c ≡ false) × Plain w

module _ (separator : ℕ → Bool) (narrower : (c : ℕ) → separator c ≡ true → is_separator c ≡ true)
    (v : List ℕ) (v_plain : Plain v) where
  finer :
      (s w : List ℕ)
      → Plain w
      → (head_is w (split separator s) ≡ true → head_is w (split is_separator s) ≡ true)
        × (tail_has v (split separator s) ≡ true → tail_has v (split is_separator s) ≡ true)
  unfolding split head_is tail_has same
  finer [] w plain = (λ h. h, λ h. h)
  finer (c ∷ s) [] plain =
      let (h, t, e) = split_shape separator s in
      let (h', t', e') = split_shape is_separator s in
      ground (arith, e, e', narrower c, finer s v v_plain)
  finer (c ∷ s) (d ∷ w) plain =
      let (h, t, e) = split_shape separator s in
      let (h', t', e') = split_shape is_separator s in
      ground (arith, e, e', narrower c, finer s v v_plain, finer s w plain.1)

-- What the segments add to a path when none of them goes up.
unfoldable pub added : List (List ℕ) → FsPath
added [] = []
added (w ∷ ws) = if is_idle w then added ws else added ws ++ w ∷ []

pub walk-added :
    (ws : List (List ℕ)) (at : FsPath) → any (same dot_dot) ws ≡ false → walk at ws ≡ added ws ++ at
unfolding walk added
walk-added [] at h = refl
walk-added (w ∷ ws) at h =
    ground (arith, walk-added ws at, walk-added ws (w ∷ at), append_assoc (added ws) (w ∷ []) at)

same_path_refl : (p : FsPath) → same_path p p ≡ true
unfolding same_path
same_path_refl [] = refl
same_path_refl (w ∷ p) = ground (arith, (same_iff w w).1 refl, same_path_refl p)

pub is_below-append : (w : List ℕ) (b dir : FsPath) → is_below dir (w ∷ b ++ dir) ≡ true
unfolding is_below
is_below-append w [] dir = ground (arith, same_path_refl dir)
is_below-append w (x ∷ b) dir = ground (arith, is_below-append x b dir)

-- A name with no segment `..` for the source has none for a platform with fewer separators.
pub no_up :
    (separator : ℕ → Bool)
    → ((c : ℕ) → separator c ≡ true → is_separator c ≡ true)
    → (s : List ℕ) → any (same dot_dot) (split is_separator s) ≡ false
    → any (same dot_dot) (split separator s) ≡ false
unfolding head_is tail_has ℕ_discrete
no_up separator narrower s none_up =
    let (h, t, e) = split_shape separator s in
    let (h', t', e') = split_shape is_separator s in
    let plain : Plain dot_dot = (refl, (refl, tt)) in
    ground (arith, e, e', finer separator narrower dot_dot plain s dot_dot plain)

same_path-length : (p q : FsPath) → same_path p q ≡ true → length p ≡ length q
unfolding same_path
same_path-length [] [] h = refl
same_path-length [] (w ∷ q) h = cc
same_path-length (v ∷ p) [] h = cc
same_path-length (v ∷ p) (w ∷ q) h = ground (arith, h, same_path-length p q)

is_below-length : (dir p : FsPath) → is_below dir p ≡ true → length dir < length p
unfolding is_below
is_below-length dir [] h = cc
is_below-length dir (w ∷ p) h = ground (arith, h, same_path-length dir p, is_below-length dir p)

pub is_below_self : (dir : FsPath) → is_below dir dir ≡ false
is_below_self dir = elim (Bool-cases (is_below dir dir)) [
  | inl y ↦
      let longer = is_below-length dir dir y in
      let never : ⊥ = omega (arith, longer) in absurd never
  | inr n ↦ n
]
