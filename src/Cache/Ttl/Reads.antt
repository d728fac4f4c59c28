-- ===== src/Cache/Ttl/Reads.antt =====
-- What a `TTLCache` still answers: a value within its time to live, and a recently used key.
use skrun.Base.{
  ℕ, ◌+◌, ◌-◌, ◌≤◌, ◌<◌, ◌≡◌, ◌≢◌, refl, none, some, [], ◌∷◌, ◌++◌, arith, Eq, Option-cases, inl,
  inr, List, Bool-cases, ◌==◌, ltb, length, length-append, if◌then◌else◌, All,
}
use skrun.JsMap
use skrun.JsMap.{Distinct, JsMap}
use skrun.JsMap.Laws.{get-set, get-delete_ne, get-delete_self, get-set_self}
use skrun.JsMap.Order.{set_absent, length-delete-le}
use skrun.Cache.Ttl
use skrun.Cache.Ttl.{TtlCache, CacheEntry}
use skrun.Cache.Ttl.Bound.{IsValid, drop_existing_lem, evict_lru_lem}
use skrun.Cache.Ttl.Evictions.{
  make_room_absent, drop_existing_absent, Call, gets, sets, deletes, step, run, step-IsValid,
}

module _ {ℓ} {K V : Type ℓ} ⦃e : Eq K⦄ where
  -- A read after a store of the same key gives the value as long as its age is within the time to
  -- live, and nothing after that.
  pub get-set_lem :
      (c : TtlCache K V) (k : K) (v : V) (stored_at now : ℕ)
      → (Ttl.get (Ttl.set c k v stored_at).0 k now).1
        ≡ (if ltb c.ttl_ms (now - stored_at) then none else some v)
  unfolding Ttl.set Ttl.get
  get-set_lem c k v stored_at now =
      rw (get-set_self (Ttl.make_room c.max_entries (Ttl.drop_existing c.map k).0).0 k, Ttl.get)
        (ground arith)

  -- How many entries stand behind the key: those that were used since it was.
  abbrev newer : JsMap K (CacheEntry V) → K → ℕ
  newer [] k = 0
  newer ((j, w) ∷ m) k = if j == k then length m else newer m k

  newer-append :
      (m : JsMap K (CacheEntry V)) (k j : K) (x entry : CacheEntry V)
      → JsMap.get m k ≡ some entry
      → newer (m ++ (j, x) ∷ []) k ≡ newer m k + 1
  unfolding JsMap.get
  newer-append [] k j x entry h = cc
  newer-append ((i, w) ∷ m) k j x entry h =
      ground (arith, newer-append m k j x entry, length-append m ((j, x) ∷ []))

  newer-delete :
      (m : JsMap K (CacheEntry V)) (k j : K) → j ≢ k → newer (JsMap.delete m j) k ≤ newer m k
  unfolding JsMap.delete
  newer-delete [] k j h = omega arith
  newer-delete ((i, w) ∷ m) k j h = ground (arith, newer-delete m k j h, length-delete-le m j)

  -- The last of the entries was used last.
  newer-append_last :
      (m : JsMap K (CacheEntry V)) (k : K) (x : CacheEntry V)
      → JsMap.get m k ≡ none
      → newer (m ++ (k, x) ∷ []) k ≡ 0
  unfolding JsMap.get
  newer-append_last [] k x h = ground arith
  newer-append_last ((i, w) ∷ m) k x h = ground (arith, newer-append_last m k x)

  record Held (m : JsMap K (CacheEntry V)) (k : K) (entry : CacheEntry V) (n : ℕ) : Type ℓ where
    found : JsMap.get m k ≡ some entry
    recent : newer m k ≤ n

  make_room-Held :
      (max_entries : ℕ) (m : JsMap K (CacheEntry V)) (k : K) (entry : CacheEntry V) (n : ℕ)
      → n + 1 < max_entries
      → Held m k entry n
      → Held (Ttl.make_room max_entries m).0 k entry n
  unfolding Ttl.make_room JsMap.get
  make_room-Held max_entries [] k entry n lt h = cc (h.found)
  make_room-Held max_entries ((i, w) ∷ m) k entry n lt h = ground (arith, evict_lru_lem (i, w) m)

  delete-Held :
      (m : JsMap K (CacheEntry V)) (k j : K) (entry : CacheEntry V) (n : ℕ)
      → j ≢ k
      → Held m k entry n
      → Held (JsMap.delete m j) k entry n
  delete-Held m k j entry n other h =
      ground (arith, get-delete_ne m j k other, newer-delete m k j other)

  append-Held :
      (m : JsMap K (CacheEntry V)) (k j : K) (x entry : CacheEntry V) (n : ℕ)
      → j ≢ k
      → JsMap.get m j ≡ none
      → Held m k entry n
      → Held (JsMap.set m j x) k entry (n + 1)
  append-Held m k j x entry n other absent h = record {
    found = ground (arith, get-set m j k x, h.found);
    recent =
        rw (set_absent m j x absent) (omega (arith, newer-append m k j x entry h.found, h.recent));
  }

  -- A call that is about another key.
  pub data IsOther (k : K) : Call K V → Type ℓ where
    other_get : {j : K} {now : ℕ} → j ≢ k → IsOther k (gets j now)
    other_set : {j : K} {v : V} {now : ℕ} → j ≢ k → IsOther k (sets j v now)
    other_delete : {j : K} → j ≢ k → IsOther k (deletes j)

  Held-mono :
      (m : JsMap K (CacheEntry V)) (k : K) (entry : CacheEntry V) (n : ℕ)
      → Held m k entry n
      → Held m k entry (n + 1)
  Held-mono m k entry n h = record { found = h.found; recent = omega arith }

  get-Held :
      (c : TtlCache K V) (j k : K) (now : ℕ) (entry : CacheEntry V) (n : ℕ)
      → Distinct c.map
      → j ≢ k
      → Held c.map k entry n
      → Held (Ttl.get c j now).0.map k entry (n + 1)
  unfolding Ttl.get
  get-Held c j k now entry n d other h = elim (Option-cases (JsMap.get c.map j)) [
    | inl e ↦ rw (e, Ttl.get) (Held-mono c.map k entry n h)
    | inr (x, e) ↦ elim (Bool-cases (Ttl.is_expired c.ttl_ms now x)) [
      | inl t ↦ rw (e, Ttl.get, t) (Held-mono (JsMap.delete c.map j) k entry n dropped)
      | inr t ↦
          rw (e, Ttl.get, t)
            (append-Held (JsMap.delete c.map j) k j x entry n other (get-delete_self c.map j d)
              dropped)
    ]
  ]
    where
      dropped : Held (JsMap.delete c.map j) k entry n
      dropped = delete-Held c.map k j entry n other h

  set-Held :
      (c : TtlCache K V) (j k : K) (v : V) (now : ℕ) (entry : CacheEntry V) (n : ℕ)
      → Distinct c.map
      → j ≢ k
      → n + 1 < c.max_entries
      → Held c.map k entry n
      → Held (Ttl.set c j v now).0.map k entry (n + 1)
  unfolding Ttl.set
  set-Held c j k v now entry n d other lt h =
      append-Held _ k j _ entry n other
        (make_room_absent c.max_entries _ j (drop_existing_absent c.map j d))
        (make_room-Held c.max_entries _ k entry n lt
          (rw (drop_existing_lem c.map j) (delete-Held c.map k j entry n other h)))

  step-Held :
      (c : TtlCache K V) {call : Call K V} (k : K) (entry : CacheEntry V) (n : ℕ)
      → Distinct c.map
      → IsOther k call
      → n + 1 < c.max_entries
      → Held c.map k entry n
      → Held (step c call).0.map k entry (n + 1)
  unfolding Ttl.delete
  step-Held c k entry n d (other_get {j} {now} o) lt h = get-Held c j k now entry n d o h
  step-Held c k entry n d (other_set {j} {v} {now} o) lt h = set-Held c j k v now entry n d o lt h
  step-Held c k entry n d (other_delete {j} o) lt h = elim (Option-cases (JsMap.get c.map j)) [
    | inl e ↦ rw (e, Ttl.delete) (Held-mono c.map k entry n h)
    | inr (x, e) ↦ rw (e, Ttl.delete) (Held-mono _ k entry n (delete-Held c.map k j entry n o h))
  ]

  step-max_entries :
      (c : TtlCache K V) (call : Call K V) → (step c call).0.max_entries ≡ c.max_entries
  unfolding Ttl.get Ttl.set Ttl.delete Ttl.clear Ttl.sweep
  step-max_entries c (gets k now) = ground arith
  step-max_entries c (deletes k) = ground arith
  step-max_entries c _ = refl

  run-Held :
      (c : TtlCache K V) (calls : List (Call K V)) (k : K) (entry : CacheEntry V) (n : ℕ)
      → IsValid c
      → All (IsOther k) calls
      → n + length calls < c.max_entries
      → Held c.map k entry n
      → (m : ℕ) × Held (run c calls).0.map k entry m
  run-Held c [] k entry n v o lt h = (n, h)
  run-Held c (call ∷ calls) k entry n v (o, os) lt h =
      run-Held (step c call).0 calls k entry (n + 1) (step-IsValid c call v) os
        (omega (arith, step-max_entries c call))
        (step-Held c k entry n v.distinct o (omega arith) h)

  touched-Held :
      (c : TtlCache K V) (k : K) (now : ℕ) (v : V)
      → Distinct c.map
      → (Ttl.get c k now).1 ≡ some v
      → (entry : CacheEntry V) × (entry.value ≡ v) × Held (Ttl.get c k now).0.map k entry 0
  unfolding Ttl.get
  touched-Held c k now v d h = elim (Option-cases (JsMap.get c.map k)) [
    | inl e ↦ cc (rw (e, Ttl.get) at h)
    | inr (x, e) ↦ elim (Bool-cases (Ttl.is_expired c.ttl_ms now x)) [
      | inl t ↦ cc (rw (e, Ttl.get, t) at h)
      | inr t ↦ (
        x,
        ground arith,
        rw (e, Ttl.get, t)
            (record {
              found = get-set_self (JsMap.delete c.map k) k x;
              recent =
                  rw (set_absent (JsMap.delete c.map k) k x absent)
                    (omega (arith, newer-append_last (JsMap.delete c.map k) k x absent));
            }),
      )
    ]
  ]
    where
      absent : JsMap.get (JsMap.delete c.map k) k ≡ none
      absent = get-delete_self c.map k d

  -- Least recently used: on a valid cache, a key that a `get` has just answered is still in the map
  -- after fewer than `maxEntries` calls of `get`, `set` and `delete` on other keys, whatever those
  -- calls evict.
  pub recently_used_stays :
      (c : TtlCache K V) (k : K) (now : ℕ) (v : V) (calls : List (Call K V))
      → IsValid c
      → (Ttl.get c k now).1 ≡ some v
      → All (IsOther k) calls
      → length calls < c.max_entries
      → (entry : CacheEntry V) × (entry.value ≡ v)
        × (JsMap.get (run (Ttl.get c k now).0 calls).0.map k ≡ some entry)
  recently_used_stays c k now v calls valid hit o lt =
      let (entry, same, held) = touched-Held c k now v valid.distinct hit in
      let (m, kept) =
        run-Held (Ttl.get c k now).0 calls k entry 0 (step-IsValid c (gets k now) valid) o
          (omega (arith, step-max_entries c (gets k now))) held in
      (entry, same, kept.found)
