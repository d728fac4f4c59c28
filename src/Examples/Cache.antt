-- ===== src/Examples/Cache.antt =====
-- The cache's theorems at a small cache.
use mathlib.Core.List.{Perm}
use skrun.Base.{
  ℕ, ◌-◌, ◌≤◌, ◌≡◌, ◌≢◌, refl, some, [], ◌∷◌, ◌++◌, nat_eq, ℕ_discrete, string_eq, List, arith,
}
use skrun.JsMap
use skrun.Cache.Ttl
use skrun.Cache.Ttl.{TtlCache, CacheEntry, create}
use skrun.Cache.Ttl.Bound.{create-IsValid}
use skrun.Cache.Ttl.Evictions.{Call, sets, run, run-perm, entries, stored_all}
use skrun.Cache.Ttl.Refinement.{ideal_run, get_refines}
use skrun.Cache.Ttl.Reads.{other_set, recently_used_stays}

abbrev small : TtlCache ℕ ℕ
small = create 100 2

abbrev busy : List (Call ℕ ℕ)
busy = sets 1 10 0 ∷ sets 2 20 1 ∷ sets 3 30 2 ∷ []

run-perm_example :
    Perm (stored_all busy ++ entries small) ((run small busy).1 ++ entries (run small busy).0)
run-perm_example = run-perm small busy (create-IsValid 100 2)

abbrev held : TtlCache ℕ ℕ
held = record small { map = (1, record { value = 10; timestamp = 0 }) ∷ [] }

two≢one : ◌≢◌ {A = ℕ} 2 1
two≢one e = omega (arith, e)

recently_used_stays_example :
    (entry : CacheEntry ℕ) × (entry.value ≡ 10)
    × (JsMap.get (run (Ttl.get held 1 5).0 (sets 2 20 6 ∷ [])).0.map 1 ≡ some entry)
unfolding Ttl.get JsMap.get ℕ_discrete
recently_used_stays_example =
    recently_used_stays held 1 5 10 (sets 2 20 6 ∷ [])
      (record { distinct = (refl, tt); bounded = omega arith }) refl (other_set two≢one, tt)
      (omega arith)

get_refines_example :
    (x : CacheEntry ℕ) × (JsMap.get (ideal_run [] busy) 3 ≡ some x)
    × (x.value ≡ 30)
    × (5 - x.timestamp ≤ 100)
unfolding Ttl.get Ttl.set Ttl.drop_existing Ttl.make_room Ttl.evict_lru JsMap.get JsMap.set
    JsMap.delete ℕ_discrete
get_refines_example = get_refines 100 2 busy 3 5 30 refl
