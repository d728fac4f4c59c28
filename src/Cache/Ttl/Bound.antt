-- ===== src/Cache/Ttl/Bound.antt =====
-- The size bound of `TTLCache`, and that its keys stay distinct.
use skrun.Base.{ℕ, ◌+◌, ◌≤◌, ◌≡◌, refl, [], ◌∷◌, arith, Eq, Option-cases, inl, inr, length, max}
use skrun.JsMap
use skrun.JsMap.{Distinct, JsMap}
use skrun.JsMap.Laws.{delete_absent, set-Distinct, delete-Distinct, reject-Distinct}
use skrun.JsMap.Order.{length-reject-le, length-set-le, length-delete-le, length-delete_present}
use skrun.Cache.Ttl
use skrun.Cache.Ttl.{TtlCache, CacheEntry}

-- A capacity below one still holds the entry that was just stored.
pub record IsValid {ℓ} {K V : Type ℓ} ⦃e : Eq K⦄ (c : TtlCache K V) : Type ℓ where
  pub distinct : Distinct c.map
  pub bounded : length c.map ≤ max 1 c.max_entries

module _ {ℓ} {K V : Type ℓ} ⦃e : Eq K⦄ where
  pub create-IsValid :
      (ttl_ms max_entries : ℕ) → IsValid (Ttl.create {K = K} {V = V} ttl_ms max_entries)
  create-IsValid ttl_ms max_entries = record { distinct = tt; bounded = omega arith }

  pub get-IsValid :
      (c : TtlCache K V) (key : K) (now : ℕ) → IsValid c → IsValid (Ttl.get c key now).0
  unfolding Ttl.get
  get-IsValid c key now v = elim (Option-cases (JsMap.get c.map key)) [
    | inl e ↦ rw (e, Ttl.get) v
    | inr (entry, e) ↦
        rw (e, Ttl.get)
          (ground (
            arith,
            delete-Distinct c.map key v.distinct,
            set-Distinct (JsMap.delete c.map key) key entry (delete-Distinct c.map key v.distinct),
            length-delete_present c.map key entry e,
            length-set-le (JsMap.delete c.map key) key entry,
          ))
  ]

  pub drop_existing_lem :
      (m : JsMap K (CacheEntry V)) (key : K) → (Ttl.drop_existing m key).0 ≡ JsMap.delete m key
  unfolding Ttl.drop_existing
  drop_existing_lem m key = ground (arith, delete_absent m key)

  -- The first entry of a map is the least recently used one.
  pub evict_lru_lem :
      (lru : K × CacheEntry V) (rest : JsMap K (CacheEntry V))
      → Ttl.evict_lru (lru ∷ rest) ≡ (rest, (lru.0, lru.1.value) ∷ [])
  unfolding Ttl.evict_lru JsMap.get JsMap.delete
  evict_lru_lem (k, entry) rest = ground arith

  make_room_Room :
      (max_entries : ℕ) (m : JsMap K (CacheEntry V))
      → Distinct m
      → length m ≤ max 1 max_entries
      → Distinct (Ttl.make_room max_entries m).0
        × (length (Ttl.make_room max_entries m).0 + 1 ≤ max 1 max_entries)
  unfolding Ttl.make_room
  make_room_Room n [] d h = ground arith
  make_room_Room n (x ∷ rest) d h = ground (arith, evict_lru_lem x rest)

  pub set-IsValid :
      (c : TtlCache K V) (key : K) (value : V) (now : ℕ)
      → IsValid c
      → IsValid (Ttl.set c key value now).0
  unfolding Ttl.set
  set-IsValid c key value now v = rw (drop_existing_lem c.map key) (record {
    distinct = set-Distinct _ key _ room.0;
    bounded = omega (
      arith,
      length-set-le (Ttl.make_room c.max_entries (JsMap.delete c.map key)).0 key
          (record { value = value; timestamp = now }),
      room.1,
    );
  })
    where
      room :
          Distinct (Ttl.make_room c.max_entries (JsMap.delete c.map key)).0
          × (length (Ttl.make_room c.max_entries (JsMap.delete c.map key)).0 + 1
              ≤ max 1 c.max_entries)
      room =
          make_room_Room c.max_entries (JsMap.delete c.map key)
            (delete-Distinct c.map key v.distinct) (omega (arith, length-delete-le c.map key))

  pub delete-IsValid : (c : TtlCache K V) (key : K) → IsValid c → IsValid (Ttl.delete c key).0
  unfolding Ttl.delete
  delete-IsValid c key v =
      ground (arith, delete-Distinct c.map key v.distinct, length-delete-le c.map key)

  pub sweep_loop_lem :
      (ttl now : ℕ) (m : JsMap K (CacheEntry V))
      → (Ttl.sweep_loop ttl now m).0 ≡ JsMap.reject (Ttl.is_expired ttl now) m
  unfolding Ttl.sweep_loop
  sweep_loop_lem ttl now [] = refl
  sweep_loop_lem ttl now ((k, entry) ∷ m) = ground (arith, sweep_loop_lem ttl now m)

  pub sweep-IsValid : (c : TtlCache K V) (now : ℕ) → IsValid c → IsValid (Ttl.sweep c now).0
  unfolding Ttl.sweep
  sweep-IsValid c now v = rw (sweep_loop_lem c.ttl_ms now c.map) (record {
    distinct = reject-Distinct _ c.map v.distinct;
    bounded = omega (arith, length-reject-le (Ttl.is_expired c.ttl_ms now) c.map);
  })
