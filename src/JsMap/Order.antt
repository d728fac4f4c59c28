-- ===== src/JsMap/Order.antt =====
-- Size, and the order in which a `Map` is walked.
use skrun.Base.{◌+◌, ◌≤◌, ◌≡◌, refl, Bool, none, some, [], ◌∷◌, ◌++◌, arith, Eq, length}
use skrun.JsMap.Defs.{JsMap, get, set, delete, reject}

pub length-reject-le {ℓ} :
    {K V : Type ℓ} (p : V → Bool) (m : JsMap K V) → length (reject p m) ≤ length m
length-reject-le p [] = omega arith
length-reject-le p ((i, u) ∷ m) = ground (arith, length-reject-le p m)

module _ {ℓ} {K V : Type ℓ} ⦃e : Eq K⦄ where
  pub set_absent : (m : JsMap K V) (k : K) (v : V) → get m k ≡ none → set m k v ≡ m ++ (k, v) ∷ []
  unfolding get set
  set_absent [] k v h = refl
  set_absent ((i, w) ∷ m) k v h = ground (arith, set_absent m k v)

  pub length-set_absent :
      (m : JsMap K V) (k : K) (v : V) → get m k ≡ none → length (set m k v) ≡ length m + 1
  unfolding get set
  length-set_absent [] k v h = omega arith
  length-set_absent ((i, w) ∷ m) k v h = ground (arith, length-set_absent m k v)

  pub length-set_present :
      (m : JsMap K V) (k : K) (v w : V) → get m k ≡ some w → length (set m k v) ≡ length m
  unfolding get set
  length-set_present [] k v w h = cc
  length-set_present ((i, u) ∷ m) k v w h = ground (arith, length-set_present m k v w)

  pub length-delete_present :
      (m : JsMap K V) (k : K) (w : V) → get m k ≡ some w → length (delete m k) + 1 ≡ length m
  unfolding get delete
  length-delete_present [] k w h = cc
  length-delete_present ((i, u) ∷ m) k w h = ground (arith, length-delete_present m k w)

  pub length-delete-le : (m : JsMap K V) (k : K) → length (delete m k) ≤ length m
  unfolding delete
  length-delete-le [] k = omega arith
  length-delete-le ((i, u) ∷ m) k = ground (arith, length-delete-le m k)

  pub length-set-le : (m : JsMap K V) (k : K) (v : V) → length (set m k v) ≤ length m + 1
  unfolding set
  length-set-le [] k v = omega arith
  length-set-le ((i, u) ∷ m) k v = ground (arith, length-set-le m k v)
