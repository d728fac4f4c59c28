-- ===== src/Cache/Ttl/Refinement.antt =====
-- A `TTLCache` against a map that keeps everything.
use skrun.Base.{
  ℕ, ◌-◌, ◌≤◌, ◌≡◌, refl, ◌∙◌, some, List, [], ◌∷◌, arith, Eq, Option-cases, Bool-cases, inl, inr,
}
use skrun.JsMap
use skrun.JsMap.{Distinct, JsMap}
use skrun.JsMap.Laws.{delete-Distinct, set-Distinct, delete_absent}
use skrun.Cache.Ttl
use skrun.Cache.Ttl.{TtlCache, CacheEntry, is_expired}
use skrun.Cache.Ttl.Bound.{create-IsValid, IsValid, drop_existing_lem, sweep_loop_lem}
use skrun.Cache.Ttl.Within.{
  Within, set-Within, touch-Within, deleted-Within, delete-Within, reject-Within, make_room-Within,
}
use skrun.Cache.Ttl.Evictions.{Call, gets, sets, deletes, clears, sweeps, step, run, step-IsValid}

module _ {ℓ} {K V : Type ℓ} ⦃e : Eq K⦄ where
  -- The abstract map: every write stays until its key is written again, deleted or all is cleared.
  abbrev pub ideal_step : JsMap K (CacheEntry V) → Call K V → JsMap K (CacheEntry V)
  ideal_step m (gets k now) = m
  ideal_step m (sets k v now) = JsMap.set m k (record { value = v; timestamp = now })
  ideal_step m (deletes k) = JsMap.delete m k
  ideal_step m clears = []
  ideal_step m (sweeps now) = m

  abbrev pub ideal_run : JsMap K (CacheEntry V) → List (Call K V) → JsMap K (CacheEntry V)
  ideal_run m [] = m
  ideal_run m (call ∷ calls) = ideal_run (ideal_step m call) calls

  get-Within :
      (c : TtlCache K V) (n : JsMap K (CacheEntry V)) (k : K) (now : ℕ)
      → Distinct c.map
      → Within c.map n
      → Within (Ttl.get c k now).0.map n
  unfolding Ttl.get
  get-Within c n k now d h = elim (Option-cases (JsMap.get c.map k)) [
    | inl e' ↦ rw (Ttl.get, e') h
    | inr (x, e') ↦ elim (Bool-cases (is_expired c.ttl_ms now x)) [
      | inl t ↦ rw (Ttl.get, e', t) (deleted-Within c.map n k d h)
      | inr f ↦
          rw (Ttl.get, e', f)
            (touch-Within (JsMap.delete c.map k) n k x (h k x e') (deleted-Within c.map n k d h))
    ]
  ]

  set_call-Within :
      (c : TtlCache K V) (n : JsMap K (CacheEntry V)) (k : K) (v : V) (now : ℕ)
      → Distinct c.map
      → Within c.map n
      → Within (Ttl.set c k v now).0.map (JsMap.set n k (record { value = v; timestamp = now }))
  unfolding Ttl.set
  set_call-Within c n k v now d h =
      let m = JsMap.delete c.map k in
      rw (drop_existing_lem c.map k) (
        set-Within (Ttl.make_room c.max_entries m).0 n k (record { value = v; timestamp = now })
          (make_room-Within c.max_entries m n (delete-Distinct c.map k d)
            (deleted-Within c.map n k d h)))

  delete_call-Within :
      (c : TtlCache K V) (n : JsMap K (CacheEntry V)) (k : K)
      → Distinct c.map
      → Distinct n
      → Within c.map n
      → Within (Ttl.delete c k).0.map (JsMap.delete n k)
  unfolding Ttl.delete
  delete_call-Within c n k d d' h = elim (Option-cases (JsMap.get c.map k)) [
    | inl e' ↦
        let both = delete-Within c.map n k d d' h in
        rw (Ttl.delete, e') (rw (delete_absent c.map k e') at both)
    | inr (x, e') ↦ rw (Ttl.delete, e') (delete-Within c.map n k d d' h)
  ]

  step-Within :
      (c : TtlCache K V) (n : JsMap K (CacheEntry V)) (call : Call K V)
      → Distinct c.map
      → Distinct n
      → Within c.map n
      → Within (step c call).0.map (ideal_step n call)
  unfolding Ttl.clear Ttl.sweep JsMap.get
  step-Within c n (gets k now) d d' h = get-Within c n k now d h
  step-Within c n (sets k v now) d d' h = set_call-Within c n k v now d h
  step-Within c n (deletes k) d d' h = delete_call-Within c n k d d' h
  step-Within c n clears d d' h = λ k x got. got
  step-Within c n (sweeps now) d d' h =
      rw (sweep_loop_lem c.ttl_ms now c.map) (reject-Within (is_expired c.ttl_ms now) c.map n d h)

  ideal_step-Distinct :
      (n : JsMap K (CacheEntry V)) (call : Call K V) → Distinct n → Distinct (ideal_step n call)
  ideal_step-Distinct n (sets k v now) d = set-Distinct n k _ d
  ideal_step-Distinct n (deletes k) d = delete-Distinct n k d
  ideal_step-Distinct n clears d = tt
  ideal_step-Distinct n _ d = d

  run-Within :
      (c : TtlCache K V) (n : JsMap K (CacheEntry V)) (calls : List (Call K V))
      → IsValid c
      → Distinct n
      → Within c.map n
      → Within (run c calls).0.map (ideal_run n calls)
  run-Within c n [] v d h = h
  run-Within c n (call ∷ calls) v d h =
      run-Within (step c call).0 (ideal_step n call) calls (step-IsValid c call v)
        (ideal_step-Distinct n call d) (step-Within c n call v.distinct d h)

  step-ttl_ms : (c : TtlCache K V) (call : Call K V) → (step c call).0.ttl_ms ≡ c.ttl_ms
  unfolding Ttl.get Ttl.set Ttl.delete Ttl.clear Ttl.sweep
  step-ttl_ms c call = ground arith

  run-ttl_ms : (c : TtlCache K V) (calls : List (Call K V)) → (run c calls).0.ttl_ms ≡ c.ttl_ms
  run-ttl_ms c [] = refl
  run-ttl_ms c (call ∷ calls) = run-ttl_ms (step c call).0 calls ∙ step-ttl_ms c call

  answer_held :
      (c : TtlCache K V) (k : K) (now : ℕ) (v : V)
      → (Ttl.get c k now).1 ≡ some v
      → (x : CacheEntry V) × (JsMap.get c.map k ≡ some x)
        × (x.value ≡ v)
        × (now - x.timestamp ≤ c.ttl_ms)
  unfolding Ttl.get
  answer_held c k now v got = elim (Option-cases (JsMap.get c.map k)) [
    | inl e' ↦ cc (rw (Ttl.get, e') at got)
    | inr (x, e') ↦ elim (Bool-cases (is_expired c.ttl_ms now x)) [
      | inl t ↦ cc (rw (Ttl.get, e', t) at got)
      | inr f ↦ (x, e', cc (rw (Ttl.get, e', f) at got), ground (arith, f))
    ]
  ]

  -- After any sequence of calls on a new cache, of whatever capacity, what a read gives is the value
  -- that a map without bounds would hold for the key after the same calls, and it was written no
  -- longer ago than the time to live: eviction and expiry make reads miss, never make them wrong.
  pub get_refines :
      (ttl_ms max_entries : ℕ) (calls : List (Call K V)) (k : K) (now : ℕ) (v : V)
      → (Ttl.get (run (Ttl.create ttl_ms max_entries) calls).0 k now).1 ≡ some v
      → (x : CacheEntry V) × (JsMap.get (ideal_run [] calls) k ≡ some x)
        × (x.value ≡ v)
        × (now - x.timestamp ≤ ttl_ms)
  get_refines ttl_ms max_entries calls k now v got =
      let c = Ttl.create ttl_ms max_entries in
      let (x, held, same, young) = answer_held (run c calls).0 k now v got in
      (
        x,
        run-Within c [] calls (create-IsValid ttl_ms max_entries) tt (λ j y g. g) k x held,
        same,
        rw (run-ttl_ms c calls) at young,
      )
