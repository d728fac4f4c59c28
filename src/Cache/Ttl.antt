-- ===== src/Cache/Ttl.antt =====
-- packages/runtime/src/cache/ttl-cache.ts: a `Map` with a time to live and least-recently-used
-- eviction. `Date.now()` is the argument `now`, in milliseconds; the calls of `onEvict` are the list
-- that each method returns beside its result, in the order in which they are made.
pub mod Bound
pub mod Evictions
pub mod Reads
pub mod Within
pub mod Refinement
use skrun.Base.{
  ℕ, ◌-◌, ◌≡◌, Bool, true, false, Option, none, some, List, [], ◌∷◌, map, ltb, leb, Eq,
  if◌then◌else◌, length, ◌++◌,
}
use skrun.JsMap
use skrun.JsMap.{JsMap}

pub record CacheEntry {ℓ} (V : Type ℓ) : Type ℓ where
  pub value : V
  pub timestamp : ℕ

pub record TtlCache {ℓ} (K V : Type ℓ) : Type ℓ where
  pub map : JsMap K (CacheEntry V)
  pub ttl_ms : ℕ
  pub max_entries : ℕ

-- `now - entry.timestamp > ttlMs`; a clock that went back gives a negative age, which never passes.
abbrev pub is_expired {ℓ} : {V : Type ℓ} → ℕ → ℕ → CacheEntry V → Bool
is_expired ttl_ms now entry = ltb ttl_ms (now - entry.timestamp)

module _ {ℓ} {K V : Type ℓ} where
  -- The constructor.
  abbrev pub create : ℕ → ℕ → TtlCache K V
  create ttl_ms max_entries = record { map = []; ttl_ms = ttl_ms; max_entries = max_entries }

  abbrev pub size : TtlCache K V → ℕ
  size c = length c.map

  -- The arguments of an `onEvict` call for each entry of a map.
  abbrev pub evicted_all : JsMap K (CacheEntry V) → List (K × V)
  evicted_all m = map (λ (e : K × CacheEntry V). (e.0, e.1.value)) m

module _ {ℓ} {K V : Type ℓ} ⦃e : Eq K⦄ where
  unfoldable pub get : TtlCache K V → K → ℕ → TtlCache K V × Option V × List (K × V)
  get c key now = elim (JsMap.get c.map key) [
    | none ↦ (c, none, [])
    | some entry ↦
        if is_expired c.ttl_ms now entry
        then (record c { map = JsMap.delete c.map key }, none, (key, entry.value) ∷ [])
        else (record c { map = JsMap.set (JsMap.delete c.map key) key entry }, some entry.value, [])
  ]

  -- `if (existing) { delete; onEvict }`
  unfoldable pub drop_existing : JsMap K (CacheEntry V) → K → JsMap K (CacheEntry V) × List (K × V)
  drop_existing m key = elim (JsMap.get m key) [
    | none ↦ (m, [])
    | some existing ↦ (JsMap.delete m key, (key, existing.value) ∷ [])
  ]

  -- `keys().next().value`, its entry, and the deletion; nothing on an empty map.
  unfoldable pub evict_lru : JsMap K (CacheEntry V) → JsMap K (CacheEntry V) × List (K × V)
  unfolding drop_existing
  evict_lru [] = ([], [])
  evict_lru ((lru_key, first) ∷ rest) = drop_existing ((lru_key, first) ∷ rest) lru_key

  unfoldable pub make_room : ℕ → JsMap K (CacheEntry V) → JsMap K (CacheEntry V) × List (K × V)
  unfolding evict_lru
  make_room max_entries m = if leb max_entries (length m) then evict_lru m else (m, [])

  unfoldable pub set : TtlCache K V → K → V → ℕ → TtlCache K V × List (K × V)
  set c key value now =
      let (m, replaced) = drop_existing c.map key in
      let (m', lru) = make_room c.max_entries m in
      (
        record c { map = JsMap.set m' key (record { value = value; timestamp = now }) },
        replaced ++ lru,
      )

  unfoldable pub delete : TtlCache K V → K → TtlCache K V × Bool × List (K × V)
  delete c key = elim (JsMap.get c.map key) [
    | none ↦ (c, false, [])
    | some entry ↦ (record c { map = JsMap.delete c.map key }, true, (key, entry.value) ∷ [])
  ]

  unfoldable pub clear : TtlCache K V → TtlCache K V × List (K × V)
  clear c = (record c { map = [] }, evicted_all c.map)

  -- The loop of `sweep`: what stays, and the `onEvict` calls; their number is its result.
  unfoldable pub sweep_loop : ℕ → ℕ → JsMap K (CacheEntry V) → JsMap K (CacheEntry V) × List (K × V)
  sweep_loop ttl_ms now [] = ([], [])
  sweep_loop ttl_ms now ((key, entry) ∷ m) =
      let (kept, gone) = sweep_loop ttl_ms now m in
      if is_expired ttl_ms now entry
      then (kept, (key, entry.value) ∷ gone)
      else ((key, entry) ∷ kept, gone)

  unfoldable pub sweep : TtlCache K V → ℕ → TtlCache K V × ℕ × List (K × V)
  unfolding sweep_loop
  sweep c now =
      let (kept, gone) = sweep_loop c.ttl_ms now c.map in
      (record c { map = kept }, length gone, gone)
