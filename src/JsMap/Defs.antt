-- ===== src/JsMap/Defs.antt =====
-- The operations of `Map` that the source calls.
use skrun.Base.{
  ◌≡◌, Bool, true, false, Option, none, some, List, [], ◌∷◌, map, Eq, ◌==◌, if◌then◌else◌,
}

abbrev pub JsMap {ℓ} : Type ℓ → Type ℓ → Type ℓ
JsMap K V = List (K × V)

module _ {ℓ} {K V : Type ℓ} where
  abbrev pub keys : JsMap K V → List K
  keys m = map (λ e. e.0) m

  abbrev pub values : JsMap K V → List V
  values m = map (λ e. e.1) m

  -- `for (const [key, v] of m) if (p(v)) m.delete(key)`: what is left.
  abbrev pub reject : (V → Bool) → JsMap K V → JsMap K V
  reject p [] = []
  reject p ((k, v) ∷ m) = if p v then reject p m else (k, v) ∷ reject p m

module _ {ℓ} {K V : Type ℓ} ⦃e : Eq K⦄ where
  unfoldable pub get : JsMap K V → K → Option V
  get [] k = none
  get ((j, v) ∷ m) k = if j == k then some v else get m k

  abbrev pub has : JsMap K V → K → Bool
  has m k = elim (get m k) [ none ↦ false | some _ ↦ true ]

  -- A key that is present keeps its place; a new one goes to the end.
  unfoldable pub set : JsMap K V → K → V → JsMap K V
  set [] k v = (k, v) ∷ []
  set ((j, w) ∷ m) k v = if j == k then (j, v) ∷ m else (j, w) ∷ set m k v

  unfoldable pub delete : JsMap K V → K → JsMap K V
  delete [] k = []
  delete ((j, w) ∷ m) k = if j == k then m else (j, w) ∷ delete m k

  -- A `Map` holds a key once.
  abbrev pub Distinct : JsMap K V → Type ℓ
  Distinct [] = Unit
  Distinct ((k, v) ∷ m) = (get m k ≡ none) × Distinct m
