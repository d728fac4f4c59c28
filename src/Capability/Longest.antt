-- ===== src/Capability/Longest.antt =====
-- The lookup of a model by the longest key that its name extends.
use Prim.Native.String.{count}
use skrun.Base.{
  ℕ, ◌≤◌, ◌≡◌, refl, String, Bool, true, false, ◌&&◌, Option, none, some, [], ◌∷◌, string_eq, ltb,
  if◌then◌else◌, All, inl, inr, ◌⊎◌, Bool-cases, Option-cases, subst, ==_refl, arith, is_inherited,
}
use skrun.JsMap
use skrun.JsMap.{JsMap, Distinct}
use skrun.Capability.{
  ModelCapabilities, Media, image, document, audio, takes, inherited_member, look_up, is_variant,
  is_better, best_match, get_model_capabilities,
}

-- The size of the key found so far, and zero before any.
abbrev IsAtMost : ℕ → Option (String × ModelCapabilities) → Type 0
IsAtMost n none = ⊥
IsAtMost n (some best) = n ≤ count best.0

-- The match beats every key of the list that the name extends.
abbrev pub IsLongest :
    String → JsMap String ModelCapabilities → Option (String × ModelCapabilities) → Type 0
IsLongest name m best =
    All
      (λ (e : String × ModelCapabilities).
        (is_variant name e.0 ≡ false) ⊎ IsAtMost (count e.0) best)
      m

abbrev chosen :
    String
    → String
    → ModelCapabilities
    → Option (String × ModelCapabilities)
    → Option (String × ModelCapabilities)
chosen name key caps best =
    if is_variant name key && is_better key best then some (key, caps) else best

chosen-grows :
    (name key : String) (caps : ModelCapabilities) (best : Option (String × ModelCapabilities))
    (n : ℕ)
    → IsAtMost n best
    → IsAtMost n (chosen name key caps best)
chosen-grows name key caps none n h = elim h [ ]
chosen-grows name key caps (some (j, w)) n h =
    elim (Bool-cases (is_variant name key && ltb (count j) (count key))) [
      | inl t ↦ rw t (ground (arith, t, h))
      | inr t ↦ rw t h
    ]

chosen-covers :
    (name key : String) (caps : ModelCapabilities) (best : Option (String × ModelCapabilities))
    → (is_variant name key ≡ false) ⊎ IsAtMost (count key) (chosen name key caps best)
chosen-covers name key caps best = elim (Bool-cases (is_variant name key)) [
  | inr t ↦ inl t
  | inl t ↦ inr (rw t (go best))
]
  where
    go :
        (b : Option (String × ModelCapabilities))
        → IsAtMost (count key) (if is_better key b then some (key, caps) else b)
    go none = omega arith
    go (some (j, w)) = elim (Bool-cases (ltb (count j) (count key))) [
      | inl t ↦ rw t (omega arith)
      | inr t ↦ rw t (ground (arith, t))
    ]

best_match-grows :
    (name : String) (m : JsMap String ModelCapabilities)
    (best : Option (String × ModelCapabilities)) (n : ℕ)
    → IsAtMost n best
    → IsAtMost n (best_match name m best)
unfolding best_match
best_match-grows name [] best n h = h
best_match-grows name ((key, caps) ∷ m) best n h =
    best_match-grows name m (chosen name key caps best) n (chosen-grows name key caps best n h)

best_match-IsLongest :
    (name : String) (m : JsMap String ModelCapabilities)
    (best : Option (String × ModelCapabilities))
    → IsLongest name m (best_match name m best)
unfolding best_match
best_match-IsLongest name [] best = tt
best_match-IsLongest name ((key, caps) ∷ m) best = (
  elim (chosen-covers name key caps best) [
    | inl t ↦ inl t
    | inr h ↦ inr (best_match-grows name m (chosen name key caps best) (count key) h)
  ],
  best_match-IsLongest name m (chosen name key caps best),
)

nothing_extends :
    (name : String) (m : JsMap String ModelCapabilities)
    → IsLongest name m none
    → All (λ (e : String × ModelCapabilities). is_variant name e.0 ≡ false) m
nothing_extends name [] h = tt
nothing_extends name ((key, caps) ∷ m) (inl t, h) = (t, nothing_extends name m h)
nothing_extends name ((key, caps) ∷ m) (inr t, h) = elim t [ ]

and_left : (a b : Bool) → a && b ≡ true → a ≡ true
and_left true b h = refl
and_left false b h = h

best_match-get :
    (name : String) (m : JsMap String ModelCapabilities)
    (best : Option (String × ModelCapabilities)) (e : String × ModelCapabilities)
    → Distinct m
    → best_match name m best ≡ some e
    → (best ≡ some e) ⊎ ((is_variant name e.0 ≡ true) × (JsMap.get m e.0 ≡ some e.1))
unfolding best_match JsMap.get
best_match-get name [] best e d h = inl h
best_match-get name ((key, caps) ∷ m) best e (fresh, d) h =
    elim (best_match-get name m (chosen name key caps best) e d h) [
      | inr (v, found) ↦ inr (v, ground (arith, found, fresh))
      | inl here ↦ elim (Bool-cases (is_variant name key && is_better key best)) [
        | inl t ↦
            let same : (key, caps) ≡ e = cc (rw t at here) in
            inr (
              subst
                (λ x. (is_variant name x.0 ≡ true) × (JsMap.get ((key, caps) ∷ m) x.0 ≡ some x.1))
                same (and_left (is_variant name key) (is_better key best) t, rw (==_refl key) refl))
        | inr t ↦ inl (rw t at here)
      ]
    ]

-- A model that the matrix lists has the capabilities listed for it. Another one with the name of a member of
-- `Object.prototype` is answered by that member, which takes no media. Any other has those of a listed key
-- that its name extends after a dash, such that no longer key of the matrix is one; and it has none when
-- its name extends no key.
pub get_model_capabilities_lem :
    (matrix : JsMap String ModelCapabilities) (name : String)
    → Distinct matrix
    → ((caps : ModelCapabilities) × (JsMap.get matrix name ≡ some caps)
        × (get_model_capabilities matrix name ≡ some caps))
      ⊎ ((JsMap.get matrix name ≡ none)
          × (is_inherited name ≡ true)
          × (caps : ModelCapabilities) × (get_model_capabilities matrix name ≡ some caps)
          × ((media : Media) → takes caps media ≡ false))
      ⊎ ((key : String) × (caps : ModelCapabilities) × (is_inherited name ≡ false)
          × (is_variant name key ≡ true)
          × (JsMap.get matrix key ≡ some caps)
          × (get_model_capabilities matrix name ≡ some caps)
          × All
              (λ (e : String × ModelCapabilities).
                (is_variant name e.0 ≡ false) ⊎ (count e.0 ≤ count key))
              matrix)
      ⊎ ((is_inherited name ≡ false)
          × (get_model_capabilities matrix name ≡ none)
          × All (λ (e : String × ModelCapabilities). is_variant name e.0 ≡ false) matrix)
unfolding get_model_capabilities look_up
get_model_capabilities_lem matrix name d = elim (Option-cases (JsMap.get matrix name)) [
  | inr (caps, e) ↦ inl (caps, e, rw (get_model_capabilities, look_up, e) refl)
  | inl e ↦ elim (Bool-cases (is_inherited name)) [
    | inl y ↦
        inr
          (inl (e, y, inherited_member, rw (get_model_capabilities, look_up, e, y) refl, takes_no))
    | inr plain ↦ elim (Option-cases (best_match name matrix none)) [
      | inl n ↦ inr (
          inr (
            inr (
              plain,
              rw (get_model_capabilities, look_up, e, plain, n) refl,
              nothing_extends name matrix
                  (subst (IsLongest name matrix) n (best_match-IsLongest name matrix none)),
            )))
      | inr ((key, caps), b) ↦ elim (best_match-get name matrix none (key, caps) d b) [
        | inl absurd ↦ cc absurd
        | inr (v, found) ↦ inr (
            inr (
              inl (
                key,
                caps,
                plain,
                v,
                found,
                rw (get_model_capabilities, look_up, e, plain, b) refl,
                subst (IsLongest name matrix) b (best_match-IsLongest name matrix none),
              )))
      ]
    ]
  ]
]
  where
    takes_no : (media : Media) → takes inherited_member media ≡ false
    takes_no image = refl
    takes_no document = refl
    takes_no audio = refl
