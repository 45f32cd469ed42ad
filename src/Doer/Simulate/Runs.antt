-- ===== src/Doer/Simulate/Runs.antt =====
-- `ia_run_benchmark` of src/ia_benchmark.c on two drivers that simulate one another.
use ioarena.Base.{ℕ, zero, suc, ◌≡◌, ◌≢◌, refl, ap, inl, inr, Bool, Bool-cases, ◌∷◌, ltb}
use mathlib.Core.Path.{subst}
use ioarena.Bench.{Benchmark}
use ioarena.Kv.Fill.{Globals}
use ioarena.Doer.Driver.{Rc, success, not_found, failure, Driver, Conf, Call, Doer, note}
use ioarena.Doer.Turn.{Turn, bailout, again}
use ioarena.Doer.Run.{turn, run_loop, ia_run_benchmark}
use ioarena.Doer.Simulate.{Simulation, Agree, BothRun, BothRun-bind}
use ioarena.Doer.Simulate.Turns.{Loose, TurnAgree, loosen_idle, turn_single-Agree}
use ioarena.Doer.Simulate.Quads.{turn_crud-Agree, turn_batch-Agree}

module _ {C D : Type 0} {x : Driver C} {y : Driver D} where
  turn-Agree :
      (b : Benchmark) (s : Simulation x y b) (conf : Conf) (g : Globals) (allocated : Bool) (i : ℕ)
      (c : Doer C) (d : Doer D)
      → b ≢ Benchmark.ia_iterate
      → Agree s.Idle c d
      → BothRun (TurnAgree s conf g) (turn x conf g allocated b i c) (turn y conf g allocated b i d)
  unfolding turn
  turn-Agree Benchmark.ia_set s conf g allocated i c d ne h = turn_single-Agree s conf g i c d tt h
  turn-Agree Benchmark.ia_delete s conf g allocated i c d ne h =
      turn_single-Agree s conf g i c d tt h
  turn-Agree Benchmark.ia_get s conf g allocated i c d ne h = turn_single-Agree s conf g i c d tt h
  turn-Agree Benchmark.ia_crud s conf g allocated i c d ne h = turn_crud-Agree s conf g i c d h
  turn-Agree Benchmark.ia_batch s conf g allocated i c d ne h =
      turn_batch-Agree s conf g allocated i c d h
  turn-Agree Benchmark.ia_iterate s conf g allocated i c d ne h = absurd (ne refl)

module _ {C D : Type 0} {x : Driver C} {y : Driver D} {b : Benchmark} (s : Simulation x y b)
    (conf : Conf) (g : Globals) (allocated : Bool) where
  -- The same result of both, with doers that agree.
  abbrev pub EndAgree : Rc × Doer C → Rc × Doer D → Type 0
  EndAgree p q = (p.0 ≡ q.0) × Agree (Loose s conf g) p.1 q.1

  loop-Agree :
      (fuel : ℕ) (t : Turn) (c : Doer C) (d : Doer D)
      → b ≢ Benchmark.ia_iterate
      → TurnAgree s conf g (t, c) (t, d)
      → BothRun EndAgree
          (run_loop x conf g allocated b fuel t c)
          (run_loop y conf g allocated b fuel t d)
  unfolding run_loop
  loop-Agree fuel (bailout rc) c d ne h = (refl, h.1)
  loop-Agree fuel (again not_found i) c d ne h = (refl, h.1)
  loop-Agree fuel (again (failure code) i) c d ne h = (refl, h.1)
  loop-Agree zero (again success i) c d ne h = elim (Bool-cases (ltb i conf.count)) [
    | inl more ↦ rw (more, run_loop) tt
    | inr full ↦ rw (full, run_loop) (refl, h.1)
  ]
  loop-Agree (suc fuel) (again success i) c d ne h = elim (Bool-cases (ltb i conf.count)) [
    | inl more ↦
        rw (more, run_loop)
          (BothRun-bind (TurnAgree s conf g) EndAgree _ _ _ _
            (turn-Agree b s conf g allocated i c d ne (h.2 tt))
            (λ p q e.
              subst
                (λ t.
                  BothRun EndAgree (run_loop x conf g allocated b fuel p.0 p.1)
                    (run_loop y conf g allocated b fuel t q.1))
                e.0 (loop-Agree fuel p.0 p.1 q.1 ne (refl, e.1, e.2))))
    | inr full ↦ rw (full, run_loop) (refl, h.1)
  ]

  noted :
      (P : C → D → Type 0) (call : Call) (c : Doer C) (d : Doer D)
      → Agree P c d
      → Agree P (note call c) (note call d)
  noted P call c d h = record {
    contexts = h.contexts;
    gen_a = h.gen_a;
    gen_b = h.gen_b;
    calls = ap (λ t. call ∷ t) h.calls;
  }

  -- On two drivers that simulate one another for a benchmark other than iterate, with contexts related
  -- as idle and the same generators and calls before, `ia_run_benchmark` behaves in the same way: both
  -- runs return or neither does, and what they return are equal codes, equal generators, the same
  -- calls in the same order, and related contexts.
  pub run_benchmark-simulates :
      (c : Doer C) (d : Doer D)
      → b ≢ Benchmark.ia_iterate
      → Agree s.Idle c d
      → BothRun EndAgree
          (ia_run_benchmark x conf g allocated b c)
          (ia_run_benchmark y conf g allocated b d)
  unfolding ia_run_benchmark
  run_benchmark-simulates c d ne h =
      let start = noted s.Idle (Call.call_reset b) c d h in
      BothRun-bind EndAgree EndAgree _ _ _ _
        (loop-Agree conf.count (again success 0) _ _ ne
          (refl, loosen_idle s conf g _ _ start, λ more. start))
        (λ p q e. (e.0, noted (Loose s conf g) Call.call_merge p.1 q.1 e.1))
