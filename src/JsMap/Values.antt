-- ===== src/JsMap/Values.antt =====
-- What holds of every value of a `Map`, through its operations.
use skrun.Base.{◌≡◌, Bool, some, [], ◌∷◌, Eq, arith}
use skrun.JsMap.{JsMap, get, set, delete, reject}

module _ {ℓ} {K V : Type ℓ} (P : V → Type ℓ) where
  abbrev pub AllValues : JsMap K V → Type ℓ
  AllValues [] = Unit
  AllValues ((k, v) ∷ m) = P v × AllValues m

  pub reject-AllValues : (p : V → Bool) (m : JsMap K V) → AllValues m → AllValues (reject p m)
  reject-AllValues p [] h = tt
  reject-AllValues p ((k, v) ∷ m) (h, hs) = ground (arith, reject-AllValues p m hs)

module _ {ℓ} {K V : Type ℓ} ⦃e : Eq K⦄ (P : V → Type ℓ) where
  pub get-AllValues : (m : JsMap K V) (k : K) (v : V) → AllValues P m → get m k ≡ some v → P v
  unfolding get
  get-AllValues [] k v h found = cc
  get-AllValues ((j, w) ∷ m) k v (h, hs) found = ground (arith, get-AllValues m k v hs)

  pub set-AllValues :
      (m : JsMap K V) (k : K) (v : V) → AllValues P m → P v → AllValues P (set m k v)
  unfolding set
  set-AllValues [] k v h p = (p, tt)
  set-AllValues ((j, w) ∷ m) k v (h, hs) p = ground (arith, set-AllValues m k v hs p)

  pub delete-AllValues : (m : JsMap K V) (k : K) → AllValues P m → AllValues P (delete m k)
  unfolding delete
  delete-AllValues [] k h = tt
  delete-AllValues ((j, w) ∷ m) k (h, hs) = ground (arith, delete-AllValues m k hs)

module _ {ℓ} {K V : Type ℓ} ⦃e : Eq K⦄ where
  pub delete-set : (m : JsMap K V) (k : K) (v : V) → delete (set m k v) k ≡ delete m k
  unfolding set delete
  delete-set [] k v = ground arith
  delete-set ((j, w) ∷ m) k v = ground (arith, delete-set m k v)

  pub set-set : (m : JsMap K V) (k : K) (v w : V) → set (set m k v) k w ≡ set m k w
  unfolding set
  set-set [] k v w = ground arith
  set-set ((j, u) ∷ m) k v w = ground (arith, set-set m k v w)
