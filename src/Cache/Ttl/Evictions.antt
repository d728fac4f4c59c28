-- ===== src/Cache/Ttl/Evictions.antt =====
-- The accounting of `onEvict` over any sequence of calls of a `TTLCache`.
use mathlib.Core.List.{
  append_assoc, perm_append_singleton, Perm, perm_middle, map-append, append-nil,
}
use mathlib.Core.List.Perm
use skrun.Base.{
  ℕ, ◌≡◌, none, some, [], ◌∷◌, ◌++◌, arith, Eq, Option-cases, inl, inr, List, length, Bool-cases,
  ◌==◌, ==_iff, leb,
}
use skrun.Base.Perms.{perm_account}
use skrun.JsMap
use skrun.JsMap.{Distinct, JsMap}
use skrun.JsMap.Laws.{get-delete_self}
use skrun.JsMap.Order.{set_absent}
use skrun.Cache.Ttl
use skrun.Cache.Ttl.{TtlCache, CacheEntry, evicted_all}
use skrun.Cache.Ttl.Bound.{
  IsValid, drop_existing_lem, evict_lru_lem, get-IsValid, set-IsValid, delete-IsValid,
  sweep-IsValid,
}

-- A call of a method, with the time at which it is made.
pub data Call {ℓ} (K V : Type ℓ) : Type ℓ where
  gets : K → ℕ → Call K V
  sets : K → V → ℕ → Call K V
  deletes : K → Call K V
  clears : Call K V
  sweeps : ℕ → Call K V

module _ {ℓ} {K V : Type ℓ} where
  abbrev pub entries : TtlCache K V → List (K × V)
  entries c = evicted_all c.map

  -- What a call puts into the cache.
  abbrev pub stored : Call K V → List (K × V)
  stored (sets k v now) = (k, v) ∷ []
  stored _ = []

  abbrev pub stored_all : List (Call K V) → List (K × V)
  stored_all [] = []
  stored_all (call ∷ calls) = stored call ++ stored_all calls

module _ {ℓ} {K V : Type ℓ} ⦃e : Eq K⦄ where
  -- The cache after a call, and the `onEvict` calls that it made.
  abbrev pub step : TtlCache K V → Call K V → TtlCache K V × List (K × V)
  step c (gets k now) = let r = Ttl.get c k now in (r.0, r.2)
  step c (sets k v now) = Ttl.set c k v now
  step c (deletes k) = let r = Ttl.delete c k in (r.0, r.2)
  step c clears = Ttl.clear c
  step c (sweeps now) = let r = Ttl.sweep c now in (r.0, r.2)

  abbrev pub run : TtlCache K V → List (Call K V) → TtlCache K V × List (K × V)
  run c [] = (c, [])
  run c (call ∷ calls) =
      let (c', now_evicted) = step c call in
      let (c'', later) = run c' calls in (c'', now_evicted ++ later)

  delete-perm :
      (m : JsMap K (CacheEntry V)) (k : K) (entry : CacheEntry V)
      → JsMap.get m k ≡ some entry
      → Perm (evicted_all m) ((k, entry.value) ∷ evicted_all (JsMap.delete m k))
  unfolding JsMap.get JsMap.delete
  delete-perm [] k entry h = cc
  delete-perm ((j, w) ∷ m) k entry h = elim (Bool-cases (j == k)) [
    | inl t ↦ rw t (Perm.cons' (ground (arith, ==_iff j k)) Perm.rfl)
    | inr t ↦ rw t (
        Perm.trans (Perm.cons (j, w.value) (delete-perm m k entry (ground arith)))
          (Perm.swap (k, entry.value) (j, w.value) _))
  ]

  drop_existing-perm :
      (m : JsMap K (CacheEntry V)) (k : K)
      → Perm (evicted_all m) ((Ttl.drop_existing m k).1 ++ evicted_all (Ttl.drop_existing m k).0)
  unfolding Ttl.drop_existing
  drop_existing-perm m k = elim (Option-cases (JsMap.get m k)) [
    | inl e ↦ rw (e, Ttl.drop_existing) Perm.rfl
    | inr (entry, e) ↦ rw (e, Ttl.drop_existing) (delete-perm m k entry e)
  ]

  make_room-perm :
      (n : ℕ) (m : JsMap K (CacheEntry V))
      → Perm (evicted_all m) ((Ttl.make_room n m).1 ++ evicted_all (Ttl.make_room n m).0)
  unfolding Ttl.make_room Ttl.evict_lru
  make_room-perm n [] = elim (Bool-cases (leb n 0)) [
    | inl t ↦ rw (t, Ttl.make_room) (Perm.refl [])
    | inr t ↦ rw (t, Ttl.make_room) (Perm.refl [])
  ]
  make_room-perm n (x ∷ rest) = elim (Bool-cases (leb n (length (x ∷ rest)))) [
    | inl t ↦ rw (t, Ttl.make_room, evict_lru_lem x rest) Perm.rfl
    | inr t ↦ rw (t, Ttl.make_room) Perm.rfl
  ]

  append-perm :
      (m : JsMap K (CacheEntry V)) (k : K) (entry : CacheEntry V)
      → JsMap.get m k ≡ none
      → Perm ((k, entry.value) ∷ evicted_all m) (evicted_all (JsMap.set m k entry))
  append-perm m k entry h =
      rw (set_absent m k entry h, map-append) (Perm.symm (perm_append_singleton _ _))

  get-perm :
      (c : TtlCache K V) (k : K) (now : ℕ)
      → Distinct c.map
      → Perm (entries c) ((Ttl.get c k now).2 ++ entries (Ttl.get c k now).0)
  unfolding Ttl.get
  get-perm c k now d = elim (Option-cases (JsMap.get c.map k)) [
    | inl e ↦ rw (e, Ttl.get) Perm.rfl
    | inr (entry, e) ↦ elim (Bool-cases (Ttl.is_expired c.ttl_ms now entry)) [
      | inl t ↦ rw (e, Ttl.get, t) (delete-perm c.map k entry e)
      | inr t ↦
          rw (e, Ttl.get, t)
            (Perm.trans (delete-perm c.map k entry e)
              (append-perm (JsMap.delete c.map k) k entry (get-delete_self c.map k d)))
    ]
  ]

  pub make_room_absent :
      (n : ℕ) (m : JsMap K (CacheEntry V)) (k : K)
      → JsMap.get m k ≡ none
      → JsMap.get (Ttl.make_room n m).0 k ≡ none
  unfolding Ttl.make_room Ttl.evict_lru JsMap.get
  make_room_absent n [] k h = ground arith
  make_room_absent n (x ∷ rest) k h = ground (arith, evict_lru_lem x rest)

  pub drop_existing_absent :
      (m : JsMap K (CacheEntry V)) (k : K)
      → Distinct m
      → JsMap.get (Ttl.drop_existing m k).0 k ≡ none
  drop_existing_absent m k d = rw (drop_existing_lem m k) (get-delete_self m k d)

  set-perm :
      (c : TtlCache K V) (k : K) (v : V) (now : ℕ)
      → Distinct c.map
      → Perm ((k, v) ∷ entries c) ((Ttl.set c k v now).1 ++ entries (Ttl.set c k v now).0)
  unfolding Ttl.set
  set-perm c k v now d =
      Perm.trans (Perm.cons (k, v) (Perm.trans dropped (Perm.append_left _ roomy))) (
        rw (← append_assoc)
          (Perm.trans (Perm.symm (perm_middle _ _)) (Perm.append_left _ inserted)))
    where
      m : JsMap K (CacheEntry V)
      m = (Ttl.drop_existing c.map k).0

      m' : JsMap K (CacheEntry V)
      m' = (Ttl.make_room c.max_entries m).0

      dropped : Perm (entries c) ((Ttl.drop_existing c.map k).1 ++ evicted_all m)
      dropped = drop_existing-perm c.map k

      roomy : Perm (evicted_all m) ((Ttl.make_room c.max_entries m).1 ++ evicted_all m')
      roomy = make_room-perm c.max_entries m

      inserted :
          Perm
            ((k, v) ∷ evicted_all m')
            (evicted_all (JsMap.set m' k (record { value = v; timestamp = now })))
      inserted =
          append-perm m' k (record { value = v; timestamp = now })
            (make_room_absent c.max_entries m k (drop_existing_absent c.map k d))

  delete_call-perm :
      (c : TtlCache K V) (k : K)
      → Perm (entries c) ((Ttl.delete c k).2 ++ entries (Ttl.delete c k).0)
  unfolding Ttl.delete
  delete_call-perm c k = elim (Option-cases (JsMap.get c.map k)) [
    | inl e ↦ rw (e, Ttl.delete) Perm.rfl
    | inr (entry, e) ↦ rw (e, Ttl.delete) (delete-perm c.map k entry e)
  ]

  sweep-perm :
      (ttl now : ℕ) (m : JsMap K (CacheEntry V))
      → Perm
          (evicted_all m)
          ((Ttl.sweep_loop ttl now m).1 ++ evicted_all (Ttl.sweep_loop ttl now m).0)
  unfolding Ttl.sweep_loop
  sweep-perm ttl now [] = Perm.refl []
  sweep-perm ttl now ((k, entry) ∷ m) = elim (Bool-cases (Ttl.is_expired ttl now entry)) [
    | inl t ↦ rw t (Perm.cons (k, entry.value) (sweep-perm ttl now m))
    | inr t ↦ rw t (
        Perm.trans (Perm.cons (k, entry.value) (sweep-perm ttl now m))
          (Perm.symm (perm_middle _ _)))
  ]

  step-perm :
      (c : TtlCache K V) (call : Call K V)
      → Distinct c.map
      → Perm (stored call ++ entries c) ((step c call).1 ++ entries (step c call).0)
  unfolding Ttl.clear Ttl.sweep
  step-perm c (gets k now) d = get-perm c k now d
  step-perm c (sets k v now) d = set-perm c k v now d
  step-perm c (deletes k) d = delete_call-perm c k
  step-perm c clears d = rw append-nil Perm.rfl
  step-perm c (sweeps now) d = sweep-perm c.ttl_ms now c.map

  -- Every call keeps the keys distinct and the size within the capacity (within one where the
  -- capacity is zero).
  pub step-IsValid : (c : TtlCache K V) (call : Call K V) → IsValid c → IsValid (step c call).0
  unfolding Ttl.clear
  step-IsValid c (gets k now) v = get-IsValid c k now v
  step-IsValid c (sets k x now) v = set-IsValid c k x now v
  step-IsValid c (deletes k) v = delete-IsValid c k v
  step-IsValid c clears v = record { distinct = tt; bounded = omega arith }
  step-IsValid c (sweeps now) v = sweep-IsValid c now v

  -- For every sequence of calls on a valid cache, the entries that were in it at the start and those
  -- stored since are, as a multiset, the arguments of the `onEvict` calls together with the entries
  -- still in the cache: each value that leaves is handed to `onEvict` exactly once, and no other is.
  pub run-perm :
      (c : TtlCache K V) (calls : List (Call K V))
      → IsValid c
      → Perm (stored_all calls ++ entries c) ((run c calls).1 ++ entries (run c calls).0)
  run-perm c [] v = Perm.rfl
  run-perm c (call ∷ calls) v =
      perm_account (stored call) (stored_all calls) _ _ _ _ _ (step-perm c call v.distinct)
        (run-perm (step c call).0 calls (step-IsValid c call v))
