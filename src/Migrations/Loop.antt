-- ===== src/Migrations/Loop.antt =====
-- The loop that applies the migrations, and one that starts where another stopped.
use skrun.Base.{
  ◌+◌, ◌≡◌, refl, sym, String, true, false, Option, none, some, List, [], ◌∷◌, ◌++◌, string_eq,
  contains, ◌==◌, ==_iff, ==_refl, if◌then◌else◌, length, arith, Bool-cases, Option-cases, inl, inr,
  ◌≢◌, All, ◌∙◌, subst, ap,
}
use skrun.Migrations.{
  Migration, Database, RunResult, Outcome, done, migration_failed, insert_name, apply_loop,
  count_applied, count_skipped, names_or_none, is_absent,
}

-- Every migration is recorded.
abbrev pub AllRecorded : List String → List Migration → Type 0
AllRecorded names ms = All (λ (m : Migration). contains names m.name ≡ true) ms

-- No two files have one name.
abbrev pub DistinctNames : List Migration → Type 0
DistinctNames [] = Unit
DistinctNames (m ∷ ms) = All (λ (x : Migration). x.name ≢ m.name) ms × DistinctNames ms

-- The two sets of names hold the same of the migrations.
abbrev pub SameFor : List String → List String → List Migration → Type 0
SameFor a b ms = All (λ (m : Migration). contains a m.name ≡ contains b m.name) ms

-- What of the migrations is in the set that was read is in the table.
abbrev pub ReadFrom : List String → List String → List Migration → Type 0
ReadFrom a n ms = All (λ (m : Migration). contains a m.name ≡ true → contains n m.name ≡ true) ms

contains-append :
    (names : List String) (x y : String)
    → contains (names ++ x ∷ []) y ≡ (if y == x then true else contains names y)
contains-append [] x y = ground arith
contains-append (n ∷ names) x y = ground (arith, contains-append names x y)

contains-insert_name :
    (names : List String) (x y : String)
    → contains (insert_name names x) y ≡ (if y == x then true else contains names y)
unfolding insert_name
contains-insert_name names x y = ground (arith, contains-append names x y, ==_iff y x)

insert_name-SameFor :
    (a b : List String) (x : String) (ms : List Migration)
    → All (λ (m : Migration). m.name ≢ x) ms
    → SameFor a b ms
    → SameFor (insert_name a x) b ms
insert_name-SameFor a b x [] ne h = tt
insert_name-SameFor a b x (m ∷ ms) (ne, nes) (h, hs) =
    (ground (arith, contains-insert_name a x m.name), insert_name-SameFor a b x ms nes hs)

insert_name-sub :
    (a n : List String) (x : String) (ms : List Migration)
    → ReadFrom a n ms
    → ReadFrom a (insert_name n x) ms
insert_name-sub a n x [] h = tt
insert_name-sub a n x (m ∷ ms) (h, hs) =
    (λ k. ground (arith, h k, contains-insert_name n x m.name), insert_name-sub a n x ms hs)

module _ {Tables : Type 0} (exec : String → Tables → Option Tables) where
  -- A name that is recorded stays so.
  pub recorded_stays :
      (a : List String) (ms : List Migration) (t : Tables) (n : List String) (c : RunResult)
      (x : String)
      → contains n x ≡ true
      → contains (names_or_none (apply_loop exec a ms t n c).0.tracking) x ≡ true
  unfolding apply_loop
  recorded_stays a [] t n c x h = h
  recorded_stays a (m ∷ ms) t n c x h = elim (Bool-cases (contains a m.name)) [
    | inl e ↦ rw (apply_loop, e) (recorded_stays a ms t n (count_skipped c) x h)
    | inr e ↦ elim (Option-cases (exec m.sql t)) [
      | inl k ↦ rw (apply_loop, e, k) h
      | inr (t', k) ↦
          rw (apply_loop, e, k)
            (recorded_stays a ms t' (insert_name n m.name) (count_applied c) x
              (ground (arith, contains-insert_name n m.name x)))
    ]
  ]

  -- The loop reads the set only at the migrations, and the counts nowhere.
  apply_loop-SameFor :
      (a b : List String) (ms : List Migration) (t : Tables) (n : List String) (c d : RunResult)
      → SameFor a b ms
      → (apply_loop exec a ms t n c).0 ≡ (apply_loop exec b ms t n d).0
  unfolding apply_loop
  apply_loop-SameFor a b [] t n c d h = refl
  apply_loop-SameFor a b (m ∷ ms) t n c d (h, hs) = elim (Bool-cases (contains a m.name)) [
    | inl e ↦
        rw (apply_loop, e, sym h ∙ e)
          (apply_loop-SameFor a b ms t n (count_skipped c) (count_skipped d) hs)
    | inr e ↦ elim (Option-cases (exec m.sql t)) [
      | inl k ↦ rw (apply_loop, e, sym h ∙ e, k) refl
      | inr (t', k) ↦
          rw (apply_loop, e, sym h ∙ e, k)
            (apply_loop-SameFor a b ms t' (insert_name n m.name) (count_applied c) (count_applied d)
              hs)
    ]
  ]

  -- With every migration recorded, the loop counts them and does nothing else.
  pub apply_loop_idle :
      (a : List String) (ms : List Migration) (t : Tables) (n : List String) (c : RunResult)
      → AllRecorded a ms
      → apply_loop exec a ms t n c ≡ (
        record { tables = t; tracking = some n },
        done (record c { skipped = c.skipped + length ms }),
      )
  unfolding apply_loop
  apply_loop_idle a [] t n c h = ground arith
  apply_loop_idle a (m ∷ ms) t n c (h, hs) =
      ground (arith, h, apply_loop_idle a ms t n (count_skipped c) hs)

  -- The loop, step by step.
  loop_end :
      (a : List String) (t : Tables) (n : List String) (c : RunResult)
      → apply_loop exec a [] t n c ≡ (record { tables = t; tracking = some n }, done c)
  unfolding apply_loop
  loop_end a t n c = refl

  loop_skip :
      (a : List String) (m : Migration) (ms : List Migration) (t : Tables) (n : List String)
      (c : RunResult)
      → contains a m.name ≡ true
      → apply_loop exec a (m ∷ ms) t n c ≡ apply_loop exec a ms t n (count_skipped c)
  unfolding apply_loop
  loop_skip a m ms t n c e = rw (apply_loop, e) refl

  loop_fail :
      (a : List String) (m : Migration) (ms : List Migration) (t : Tables) (n : List String)
      (c : RunResult)
      → contains a m.name ≡ false
      → exec m.sql t ≡ none
      → apply_loop exec a (m ∷ ms) t n c
        ≡ (record { tables = t; tracking = some n }, migration_failed m.name)
  unfolding apply_loop
  loop_fail a m ms t n c e k = rw (apply_loop, e, k) refl

  loop_apply :
      (a : List String) (m : Migration) (ms : List Migration) (t t' : Tables) (n : List String)
      (c : RunResult)
      → contains a m.name ≡ false
      → exec m.sql t ≡ some t'
      → apply_loop exec a (m ∷ ms) t n c
        ≡ apply_loop exec a ms t' (insert_name n m.name) (count_applied c)
  unfolding apply_loop
  loop_apply a m ms t t' n c e k = rw (apply_loop, e, k) refl

  -- The loop leaves the tracking table there.
  pub loop_tracks :
      (a : List String) (ms : List Migration) (t : Tables) (n : List String) (c : RunResult)
      → is_absent (apply_loop exec a ms t n c).0.tracking ≡ false
  unfolding apply_loop
  loop_tracks a [] t n c = refl
  loop_tracks a (m ∷ ms) t n c = elim (Bool-cases (contains a m.name)) [
    | inl e ↦ rw (apply_loop, e) (loop_tracks a ms t n (count_skipped c))
    | inr e ↦ elim (Option-cases (exec m.sql t)) [
      | inl k ↦ rw (apply_loop, e, k) refl
      | inr (t', k) ↦
          rw (apply_loop, e, k) (loop_tracks a ms t' (insert_name n m.name) (count_applied c))
    ]
  ]

  -- Every migration is recorded, and was applied or skipped once.
  abbrev pub Ended : Database Tables → List Migration → RunResult → RunResult → Type 0
  Ended db ms c r =
      AllRecorded (names_or_none db.tracking) ms
      × (r.applied + r.skipped ≡ c.applied + c.skipped + length ms)
      × (r.backfilled ≡ c.backfilled)

  pub apply_loop_done :
      (a : List String) (ms : List Migration) (t : Tables) (n : List String) (c r : RunResult)
      → ReadFrom a n ms
      → (apply_loop exec a ms t n c).1 ≡ done r
      → Ended (apply_loop exec a ms t n c).0 ms c r
  apply_loop_done a [] t n c r sub e =
      let same : c ≡ r = cc (loop_end a t n c, e) in
      (tt, ground (arith, same), ground (arith, same))
  apply_loop_done a (m ∷ ms) t n c r (sub, subs) e = elim (Bool-cases (contains a m.name)) [
    | inl k ↦
        let (recorded, counts, filled) =
          apply_loop_done a ms t n (count_skipped c) r subs (rw (loop_skip a m ms t n c k) at e) in
        subst (λ (res : Database Tables × Outcome). Ended res.0 (m ∷ ms) c r)
          (sym (loop_skip a m ms t n c k))
          (
            (recorded_stays a ms t n (count_skipped c) m.name (sub k), recorded),
            omega (arith, counts),
            filled,
          )
    | inr k ↦ elim (Option-cases (exec m.sql t)) [
      | inl l ↦ cc (rw (loop_fail a m ms t n c k l) at e)
      | inr (t', l) ↦
          let n' = insert_name n m.name in
          let (recorded, counts, filled) =
            apply_loop_done a ms t' n' (count_applied c) r (insert_name-sub a n m.name ms subs)
              (rw (loop_apply a m ms t t' n c k l) at e) in
          subst (λ (res : Database Tables × Outcome). Ended res.0 (m ∷ ms) c r)
            (sym (loop_apply a m ms t t' n c k l))
            (
              (
                recorded_stays a ms t' n' (count_applied c) m.name
                    (ground (arith, contains-insert_name n m.name m.name, ==_refl m.name)),
                recorded,
              ),
              omega (arith, counts),
              filled,
            )
    ]
  ]

  -- The tables and the names after a loop that starts where another stopped.
  abbrev pub from : Database Tables → List Migration → RunResult → Database Tables
  from db ms d =
      (apply_loop exec (names_or_none db.tracking) ms db.tables (names_or_none db.tracking) d).0

module _ {Tables : Type 0} (first later : String → Tables → Option Tables) where
  -- A boot that failed at some migration, with a later one from where it stopped: the tables and the
  -- names are those of the later boot alone.
  pub resume :
      ((sql : String) (t t' : Tables) → first sql t ≡ some t' → later sql t ≡ some t')
      → (a : List String) (ms : List Migration) (t : Tables) (n : List String) (c d e : RunResult)
      → (x : String) → DistinctNames ms
      → SameFor n a ms
      → (apply_loop first a ms t n c).1 ≡ migration_failed x
      → from later (apply_loop first a ms t n c).0 ms d ≡ (apply_loop later a ms t n e).0
  resume extends a [] t n c d e x distinct same failed = cc (loop_end first a t n c, failed)
  resume extends a (m ∷ ms) t n c d e x (others, distinct) (h, hs) failed =
      elim (Bool-cases (contains a m.name)) [
        | inl k ↦
            let step = loop_skip first a m ms t n c k in
            let stopped = (apply_loop first a ms t n (count_skipped c)).0 in
            let there = recorded_stays first a ms t n (count_skipped c) m.name (h ∙ k) in
            subst
              (λ (res : Database Tables × Outcome).
                from later res.0 (m ∷ ms) d ≡ (apply_loop later a (m ∷ ms) t n e).0)
              (sym step)
              (ap (λ (res : Database Tables × Outcome). res.0)
                  (loop_skip later (names_or_none stopped.tracking) m ms stopped.tables
                    (names_or_none stopped.tracking) d there)
                ∙ resume extends a ms t n (count_skipped c) (count_skipped d) (count_skipped e) x
                    distinct hs (rw step at failed)
                ∙ sym (
                    ap (λ (res : Database Tables × Outcome). res.0)
                      (loop_skip later a m ms t n e k)))
        | inr k ↦ elim (Option-cases (first m.sql t)) [
          | inl l ↦
              subst
                (λ (res : Database Tables × Outcome).
                  from later res.0 (m ∷ ms) d ≡ (apply_loop later a (m ∷ ms) t n e).0)
                (sym (loop_fail first a m ms t n c k l))
                (apply_loop-SameFor later n a (m ∷ ms) t n d e (h, hs))
          | inr (t', l) ↦
              let n' = insert_name n m.name in
              let step = loop_apply first a m ms t t' n c k l in
              let stopped = (apply_loop first a ms t' n' (count_applied c)).0 in
              let there =
                recorded_stays first a ms t' n' (count_applied c) m.name
                  (ground (arith, contains-insert_name n m.name m.name, ==_refl m.name)) in
              subst
                (λ (res : Database Tables × Outcome).
                  from later res.0 (m ∷ ms) d ≡ (apply_loop later a (m ∷ ms) t n e).0)
                (sym step)
                (ap (λ (res : Database Tables × Outcome). res.0)
                    (loop_skip later (names_or_none stopped.tracking) m ms stopped.tables
                      (names_or_none stopped.tracking) d there)
                  ∙ resume extends a ms t' n' (count_applied c) (count_skipped d) (count_applied e)
                      x distinct (insert_name-SameFor n a m.name ms others hs) (rw step at failed)
                  ∙ sym (
                      ap (λ (res : Database Tables × Outcome). res.0)
                        (loop_apply later a m ms t t' n e k (extends m.sql t t' l))))
        ]
      ]
