-- ===== src/JsMap/Laws.antt =====
-- What a read sees after a write, and that keys stay distinct.
use skrun.Base.{◌≡◌, refl, Bool, none, some, [], ◌∷◌, arith, Eq, ◌==◌, if◌then◌else◌, ◌≢◌}
use skrun.JsMap.Defs.{JsMap, get, set, delete, reject, Distinct}

module _ {ℓ} {K V : Type ℓ} ⦃e : Eq K⦄ where
  pub get-set :
      (m : JsMap K V) (k j : K) (v : V) → get (set m k v) j ≡ (if k == j then some v else get m j)
  unfolding get set
  get-set [] k j v = refl
  get-set ((i, w) ∷ m) k j v = ground (arith, get-set m k j v)

  pub get-set_self : (m : JsMap K V) (k : K) (v : V) → get (set m k v) k ≡ some v
  get-set_self m k v = ground (arith, get-set m k k v)

  pub get-set_ne : (m : JsMap K V) (k j : K) (v : V) → k ≢ j → get (set m k v) j ≡ get m j
  get-set_ne m k j v h = ground (arith, get-set m k j v)

  pub get-delete :
      (m : JsMap K V) (k j : K)
      → Distinct m
      → get (delete m k) j ≡ (if k == j then none else get m j)
  unfolding get delete
  get-delete [] k j d = ground arith
  get-delete ((i, w) ∷ m) k j (fresh, d) = ground (arith, get-delete m k j d)

  pub get-delete_self : (m : JsMap K V) (k : K) → Distinct m → get (delete m k) k ≡ none
  get-delete_self m k d = ground (arith, get-delete m k k d)

  pub get-delete_ne : (m : JsMap K V) (k j : K) → k ≢ j → get (delete m k) j ≡ get m j
  unfolding get delete
  get-delete_ne [] k j h = refl
  get-delete_ne ((i, w) ∷ m) k j h = ground (arith, get-delete_ne m k j h)

  pub delete_absent : (m : JsMap K V) (k : K) → get m k ≡ none → delete m k ≡ m
  unfolding get delete
  delete_absent [] k h = refl
  delete_absent ((i, w) ∷ m) k h = ground (arith, delete_absent m k)

  pub set-Distinct : (m : JsMap K V) (k : K) (v : V) → Distinct m → Distinct (set m k v)
  unfolding get set
  set-Distinct [] k v d = (refl, tt)
  set-Distinct ((i, w) ∷ m) k v (fresh, d) = ground (arith, get-set m k i v, set-Distinct m k v d)

  pub delete-Distinct : (m : JsMap K V) (k : K) → Distinct m → Distinct (delete m k)
  unfolding get delete
  delete-Distinct [] k d = tt
  delete-Distinct ((i, w) ∷ m) k (fresh, d) =
      ground (arith, get-delete m k i d, delete-Distinct m k d)

  get-reject_absent :
      (p : V → Bool) (m : JsMap K V) (k : K) → get m k ≡ none → get (reject p m) k ≡ none
  unfolding get
  get-reject_absent p [] k h = refl
  get-reject_absent p ((i, w) ∷ m) k h = ground (arith, get-reject_absent p m k)

  pub reject-Distinct : (p : V → Bool) (m : JsMap K V) → Distinct m → Distinct (reject p m)
  unfolding get
  reject-Distinct p [] d = tt
  reject-Distinct p ((i, w) ∷ m) (fresh, d) =
      ground (arith, get-reject_absent p m i fresh, reject-Distinct p m d)

  -- An entry survives exactly when the test does not pick it.
  pub get-reject :
      (p : V → Bool) (m : JsMap K V) (k : K)
      → Distinct m
      → get (reject p m) k ≡ elim (get m k) [ none ↦ none | some v ↦ if p v then none else some v ]
  unfolding get
  get-reject p [] k d = refl
  get-reject p ((i, w) ∷ m) k (fresh, d) =
      ground (arith, get-reject p m k d, get-reject_absent p m k)
