-- ===== src/Cache/Ttl/Within.antt =====
-- Maps of entries that lie within another map, and what the steps of a `TTLCache` do to them.
use skrun.Base.{
  ℕ, ◌≡◌, Bool, some, [], ◌∷◌, arith, Eq, ◌==◌, ==_iff, Option-cases, Bool-cases, inl, inr,
}
use skrun.JsMap
use skrun.JsMap.{Distinct, JsMap}
use skrun.JsMap.Laws.{get-set, get-delete, get-reject}
use skrun.Cache.Ttl
use skrun.Cache.Ttl.{TtlCache, CacheEntry, is_expired}
use skrun.Cache.Ttl.Bound.{evict_lru_lem}

module _ {ℓ} {K V : Type ℓ} ⦃e : Eq K⦄ where
  -- Every entry of the first map is one of the second.
  abbrev pub Within : JsMap K (CacheEntry V) → JsMap K (CacheEntry V) → Type ℓ
  Within m n = (k : K) (x : CacheEntry V) → JsMap.get m k ≡ some x → JsMap.get n k ≡ some x

  pub set-Within :
      (m n : JsMap K (CacheEntry V)) (k : K) (x : CacheEntry V)
      → Within m n
      → Within (JsMap.set m k x) (JsMap.set n k x)
  set-Within m n k x h j y got = ground (arith, got, get-set m k j x, get-set n k j x, h j y)

  -- Putting an entry that the second map has into the first one.
  pub touch-Within :
      (m n : JsMap K (CacheEntry V)) (k : K) (x : CacheEntry V)
      → JsMap.get n k ≡ some x
      → Within m n
      → Within (JsMap.set m k x) n
  touch-Within m n k x here h j y got = elim (Bool-cases (k == j)) [
    | inl t ↦
        let same : k ≡ j = (==_iff k j).0 t in
        ground (arith, got, get-set m k j x, t, h j y, here, same)
    | inr f ↦ ground (arith, got, get-set m k j x, f, h j y)
  ]

  pub deleted-Within :
      (m n : JsMap K (CacheEntry V)) (k : K) → Distinct m → Within m n → Within (JsMap.delete m k) n
  deleted-Within m n k d h j y got = ground (arith, got, get-delete m k j d, h j y)

  pub delete-Within :
      (m n : JsMap K (CacheEntry V)) (k : K)
      → Distinct m
      → Distinct n
      → Within m n
      → Within (JsMap.delete m k) (JsMap.delete n k)
  delete-Within m n k d d' h j y got =
      ground (arith, got, get-delete m k j d, get-delete n k j d', h j y)

  pub reject-Within :
      (p : CacheEntry V → Bool) (m n : JsMap K (CacheEntry V))
      → Distinct m
      → Within m n
      → Within (JsMap.reject p m) n
  reject-Within p m n d h j y got = elim (Option-cases (JsMap.get m j)) [
    | inl none_there ↦ cc (rw (get-reject p m j d, none_there) at got)
    | inr (x, there) ↦
        let got' = rw (get-reject p m j d, there) at got in ground (arith, got', h j x there)
  ]

  pub make_room-Within :
      (cap : ℕ) (m n : JsMap K (CacheEntry V))
      → Distinct m
      → Within m n
      → Within (Ttl.make_room cap m).0 n
  unfolding Ttl.make_room JsMap.get
  make_room-Within cap [] n d h j y got = ground (arith, got, h j y)
  make_room-Within cap ((k, x) ∷ rest) n (fresh, d) h j y got = elim (Bool-cases (k == j)) [
    | inl t ↦
        let same : k ≡ j = (==_iff k j).0 t in
        ground (arith, got, evict_lru_lem (k, x) rest, h j y, t, same, fresh)
    | inr f ↦ ground (arith, got, evict_lru_lem (k, x) rest, h j y, f)
  ]
