-- ===== src/Examples/Pool.antt =====
-- The pool's theorems at a pool of one ready machine.
use skrun.Base.{
  ◌≡◌, refl, false, none, some, [], ◌∷◌, string_eq, string_discrete, any, arith, contains,
}
use skrun.JsMap
use skrun.Pool.{
  PooledMachine, ready, claimed, RunnerPool, NewMachine, take_first, take_ready, deficit,
}
use skrun.Pool.Keyed.{IsPool, names}
use skrun.Pool.Claims.{taken, marked_ready, hand_outs, claimed_once}
use skrun.Pool.Upkeep.{booted, fill, LiveMachine, reconcile}
use skrun.Pool.Target.{fill_target}
use skrun.Pool.Reconcile.{reconcile_lem}

abbrev idle : PooledMachine
idle = record {
  machine_id = "m1";
  private_ip = "fdaa::1";
  claim_token = "t";
  image_tag = "v1";
  harness6pn = none;
  created_at = 0;
  process_id = some "p1";
  state = ready;
}

abbrev one : RunnerPool
one = record {
  options = record {
    size = 2;
    image_tag = "v2";
    harness6pn = none;
    max_idle_ms = 1000;
    max_run_timeout_ms = 100;
  };
  machines = ("m1", idle) ∷ [];
  fill_errors = 0;
  drains = 0;
  orphans_destroyed = 0;
  hits = 0;
  misses = 0;
}

one-IsPool : IsPool one
unfolding JsMap.get
one-IsPool = record { distinct = (refl, tt); keyed = (refl, tt) }

claimed_once_example :
    (any (names "m1") (hand_outs (take_ready one).0 (taken ∷ marked_ready "m1" ∷ taken ∷ []))
      ≡ false)
    × (any (names "m9") (hand_outs one (taken ∷ marked_ready "m1" ∷ taken ∷ [])) ≡ false)
unfolding take_ready take_first JsMap.get string_discrete
claimed_once_example =
    claimed_once one (record idle { state = claimed }) "m9" (taken ∷ marked_ready "m1" ∷ taken ∷ [])
      one-IsPool refl refl refl refl

abbrev lost : LiveMachine
lost = record { id = "m7"; name = "skrun-pool-m7"; state = "suspended"; touched_at = some 0 }

reconcile_example :
    (JsMap.get (reconcile one (some (lost ∷ [])) 2000).0.machines "m1" ≡ none)
    × (contains (reconcile one (some (lost ∷ [])) 2000).1 "m1" ≡ false)
unfolding JsMap.get string_discrete
reconcile_example = reconcile_lem one (lost ∷ []) 2000 "m1" one-IsPool

abbrev second : NewMachine
second = record {
  machine_id = "m2";
  private_ip = "fdaa::2";
  claim_token = "u";
  image_tag = "v2";
  harness6pn = none;
}

fill_target_example : deficit (fill one (booted second none ∷ []) 5).0 ≡ 0
unfolding JsMap.get string_discrete deficit
fill_target_example = fill_target (booted second none ∷ []) one 5 (refl, refl, tt) (omega arith)
