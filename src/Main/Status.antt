-- ===== src/Main/Status.antt =====
-- The exit status of src/ia_main.c.
use ioarena.Base.{
  ℕ, ◌≡◌, ◌≢◌, ◌⊎◌, inl, inr, refl, ap, arith, true, false, Bool-cases, Option, none, some, List,
  [], ◌∷◌, ◌+◌, ◌==◌, length,
}
use mathlib.Core.Path.{subst}
use ioarena.Bench.{Benchmark}
use ioarena.Config.Parse.{IaConfig, Parse, ready, helped, failed}
use ioarena.Kv.Fill.{Globals}
use ioarena.Doer.Driver.{Rc, success, not_found, failure, and_then}
use ioarena.Doer.Turn.{minus_one}
use ioarena.Doer.Masks.{Mask, some_bit}
use ioarena.Doer.Init.{Ready}
use ioarena.Run.Covers.{given}
use ioarena.Run.Control.{
  Platform, Calls, Outcome, returns, exits, aborts, uneven, completes, after_checkpoint, together,
  run_end, everyone, failed_after, or_exit, or_return, run_main, run_waiting, run_left,
  spread_readers, spread_writers, run_doers, run_set_up, ia_run, set_rd, set_wr, union,
}
use ioarena.Run.Control.Closes.{AllFulfil}
use ioarena.Run.Control.Covers.{ia_run-does_all}
use ioarena.Histogram.State.{Global}
use ioarena.Histogram.State as State
use ioarena.Histogram.Merge.{Verdict, ia_histogram_checkpoint}
use ioarena.Main.{
  ExitStatus, exit_code, killed, unsettled, InitCalls, init_options, init_with, ia_init, status_of,
  after_run, go_or_done, main,
}

abbrev code_of : Rc → ExitStatus → Rc
code_of other (exit_code rc) = rc
code_of other killed = other
code_of other unsettled = other

-- An early return of `ia_run` is an error.
abbrev NoZero : Outcome → Type 0
NoZero o = (rc : Rc) → o ≡ returns rc → status_of rc ≢ success

or_exit-NoZero : (rc : Rc) (o : Outcome) → NoZero o → NoZero (or_exit rc o)
or_exit-NoZero success o h = h
or_exit-NoZero not_found o h = λ rc e. absurd (ground arith)
or_exit-NoZero (failure code) o h = λ rc e. absurd (ground arith)

completes-NoZero : (here : Option Ready) (doers : List Ready) → NoZero (completes here doers)
completes-NoZero here doers = λ rc e. absurd (ground arith)

returns-NoZero : (rc : Rc) → status_of rc ≢ success → NoZero (returns rc)
returns-NoZero rc ne = λ code e. subst (λ r. status_of r ≢ success) (ap (rc_of rc) e) ne
  where
    rc_of : Rc → Outcome → Rc
    rc_of other (returns code) = code
    rc_of other exits = other
    rc_of other aborts = other
    rc_of other uneven = other
    rc_of other (completes here doers) = other

or_return-NoZero : (rc : Rc) (o : Outcome) → rc ≢ failure 1 → NoZero o → NoZero (or_return rc o)
or_return-NoZero success o ne h = h
or_return-NoZero not_found o ne h = returns-NoZero not_found (λ e. ground arith)
or_return-NoZero (failure code) o ne h = returns-NoZero (failure code) (λ e. ne (ground arith))

together-NoZero :
    (count : ℕ) (doers : List Ready) (o : Outcome) → NoZero o → NoZero (together count doers o)
together-NoZero count doers o h = elim (Bool-cases (count == length doers + 1)) [
  | inl even ↦ rw even h
  | inr odd ↦ rw odd (λ rc e. absurd (ground arith))
]

after_checkpoint-NoZero :
    (r : State.Outcome (Verdict × Global)) (o : Outcome) → NoZero o → NoZero (after_checkpoint r o)
after_checkpoint-NoZero (State.returned r) o h = h
after_checkpoint-NoZero State.fatal o h = λ rc e. absurd (ground arith)
after_checkpoint-NoZero State.stuck o h = λ rc e. absurd (ground arith)

run_end-NoZero :
    (q : Calls) (here : Option Ready) (doers : List Ready) → NoZero (run_end q here doers)
unfolding run_end
run_end-NoZero q here doers = or_exit-NoZero (failed_after q.fulfil doers) _ (
    after_checkpoint-NoZero (ia_histogram_checkpoint q.clock 0 q.globals) _
      (completes-NoZero here doers))

run_main-NoZero :
    (q : Calls) (count : ℕ) (o : Option Ready) (doers : List Ready)
    → NoZero (run_main q count o doers)
unfolding run_main
run_main-NoZero q count none doers = λ rc e. absurd (ground arith)
run_main-NoZero q count (some here) doers = or_exit-NoZero q.rusage_start _ (
    together-NoZero count doers _ (
      or_exit-NoZero (q.fulfil here) _
        (or_exit-NoZero q.rusage_fihish _ (run_end-NoZero q (some here) doers))))

run_waiting-NoZero :
    (q : Calls) (count : ℕ) (doers : List Ready) → NoZero (run_waiting q count doers)
unfolding run_waiting
run_waiting-NoZero q count doers =
    or_exit-NoZero q.rusage_start _ (
      together-NoZero count doers _
        (or_exit-NoZero q.rusage_fihish _ (run_end-NoZero q none doers)))

module _ (p : Platform) (conf : IaConfig) (q : Calls) where
  run_left-NoZero :
      (g : Globals) (left : Mask) (doers : List Ready) → NoZero (run_left p conf g q left doers)
  unfolding run_left
  run_left-NoZero g left doers = elim (Bool-cases (some_bit left)) [
    | inl more ↦ rw more (run_main-NoZero q _ _ doers)
    | inr nothing ↦ rw nothing (run_waiting-NoZero q _ doers)
  ]

  run_set_up-NoZero :
      (o : Option Globals)
      → ((count : ℕ) → q.barrier_start count ≢ failure 1)
      → ((count : ℕ) → q.barrier_fihish count ≢ failure 1)
      → NoZero (run_set_up p conf q o)
  unfolding run_set_up run_doers
  run_set_up-NoZero none ne ne' = returns-NoZero _ (λ e. ground arith)
  run_set_up-NoZero (some g) ne ne' = or_return-NoZero (q.barrier_start _) _ (ne _) (
      or_return-NoZero (q.barrier_fihish _) _ (ne' _) (
        or_exit-NoZero (spread_readers p conf g q).0 _ (
          or_exit-NoZero (spread_writers p conf g q (spread_readers p conf g q).1).0 _
            (run_left-NoZero g _ _))))

  -- The settings are without benchmarks, or the run gets to its end.
  run-zero :
      ((count : ℕ) → q.barrier_start count ≢ failure 1)
      → ((count : ℕ) → q.barrier_fihish count ≢ failure 1)
      → (after_run conf (ia_run p conf q)).status ≡ exit_code success
      → ((b : Benchmark) → conf.benchmark_list b ≡ false)
        ⊎ ((here : Option Ready) × (doers : List Ready) × (ia_run p conf q ≡ completes here doers))
  unfolding ia_run
  run-zero ne ne' zero_status =
      elim (Bool-cases
        (some_bit (union (set_rd conf.benchmark_list) (set_wr conf.benchmark_list)))) [
          | inr nothing ↦ inl (λ b. none_asked conf.benchmark_list nothing b)
          | inl asked ↦
              inr (
                rw asked (ended _ (run_set_up-NoZero _ ne ne') (rw (asked, ia_run) at zero_status)))
        ]
    where
      ended :
          (o : Outcome)
          → NoZero o
          → (after_run conf o).status ≡ exit_code success
          → (here : Option Ready) × (doers : List Ready) × (o ≡ completes here doers)
      ended (returns rc) never h = absurd (never rc refl (ap (code_of (status_of rc)) h))
      ended exits never h = absurd (ground arith)
      ended aborts never h = absurd (ground arith)
      ended uneven never h = absurd (ground arith)
      ended (completes here doers) never h = (here, doers, refl)

      none_asked :
          (list : Mask)
          → some_bit (union (set_rd list) (set_wr list)) ≡ false
          → (b : Benchmark) → list b ≡ false
      none_asked list h b = ground arith

-- `ia_init` returns 0 or -1 once the settings are read.
options_rc :
    (option : List ℕ → Rc) (args : List (List ℕ)) (opened : Rc)
    → (init_options option args opened ≡ success) ⊎ (init_options option args opened ≡ minus_one)
unfolding init_options
options_rc option [] opened = ground arith
options_rc option (arg ∷ args) opened = either (option arg) _ (options_rc option args opened)
  where
    either :
        (rc rest : Rc)
        → (rest ≡ success) ⊎ (rest ≡ minus_one)
        → (and_then rc rest (λ code. minus_one) ≡ success)
          ⊎ (and_then rc rest (λ code. minus_one) ≡ minus_one)
    either success rest h = h
    either not_found rest h = inr refl
    either (failure code) rest h = inr refl

init_rc :
    (rusage rest : Rc)
    → (rest ≡ success) ⊎ (rest ≡ minus_one)
    → (and_then rusage rest (λ rc. minus_one) ≡ success)
      ⊎ (and_then rusage rest (λ rc. minus_one) ≡ minus_one)
init_rc success rest h = h
init_rc not_found rest h = inr refl
init_rc (failure code) rest h = inr refl

-- What the status 0 says: the settings, what `ia_init` has returned, and how the run has ended.
pub record Succeeded (p : Platform) (run : Calls) (parsed : Parse) (begun : Rc × Option IaConfig)
    : Type 0 where
  pub settings : IaConfig
  pub were_given : parsed ≡ ready settings
  pub initialised : begun.0 ≡ success
  pub driver_closed : (go_or_done p run begun).closed ≡ true
  pub nothing_or_all :
      ((b : Benchmark) → settings.benchmark_list b ≡ false)
      ⊎ ((here : Option Ready) × (doers : List Ready) × ((b : Benchmark)
            → given (everyone here doers) b ≡ settings.benchmark_list b)
          × AllFulfil run.fulfil (everyone here doers))

module _ (p : Platform) (run : Calls) where
  go-zero :
      (conf : IaConfig) (rc : Rc)
      → (rc ≡ success) ⊎ (rc ≡ minus_one)
      → (go_or_done p run (rc, some conf)).status ≡ exit_code success
      → (rc ≡ success)
        × ((after_run conf (ia_run p conf run)).status ≡ exit_code success)
        × ((go_or_done p run (rc, some conf)).closed ≡ true)
  unfolding go_or_done
  go-zero conf success h zero_status = (refl, zero_status, closes (ia_run p conf run) zero_status)
    where
      closes :
          (o : Outcome)
          → (after_run conf o).status ≡ exit_code success
          → (after_run conf o).closed ≡ true
      closes (returns rc) e = refl
      closes exits e = absurd (ground arith)
      closes aborts e = absurd (ground arith)
      closes uneven e = absurd (ground arith)
      closes (completes here doers) e = refl
  go-zero conf not_found h zero_status = absurd (ground arith)
  go-zero conf (failure code) h zero_status = absurd (ground arith)

  never_failed : (go_or_done p run (minus_one, none)).status ≡ exit_code success → ⊥
  unfolding go_or_done
  never_failed h = ground arith

  all_done :
      (conf : IaConfig)
      → ((b : Benchmark) → conf.benchmark_list b ≡ false)
        ⊎ ((here : Option Ready) × (doers : List Ready) × (ia_run p conf run
              ≡ completes here doers))
      → ((b : Benchmark) → conf.benchmark_list b ≡ false)
        ⊎ ((here : Option Ready) × (doers : List Ready) × ((b : Benchmark)
              → given (everyone here doers) b ≡ conf.benchmark_list b)
            × AllFulfil run.fulfil (everyone here doers))
  all_done conf (inl nothing) = inl nothing
  all_done conf (inr (here, doers, ended)) =
      let (given_all, well) = ia_run-does_all p conf run doers here ended in
      inr (here, doers, given_all, well)

  module _ (ne : (count : ℕ) → run.barrier_start count ≢ failure 1)
      (ne' : (count : ℕ) → run.barrier_fihish count ≢ failure 1) where
    init-zero :
        (q : InitCalls) (parsed : Parse)
        → (go_or_done p run (init_with q parsed)).status ≡ exit_code success
        → (parsed ≡ helped) ⊎ Succeeded p run parsed (init_with q parsed)
    unfolding init_with
    init-zero q helped h = inl refl
    init-zero q failed h = absurd (never_failed h)
    init-zero q (ready conf) h =
        let (init_ok, run_ok, closed) =
          go-zero conf _ (init_rc q.rusage _ (options_rc q.option conf.drv_opts q.opened)) h in
        inr (record {
          settings = conf;
          were_given = refl;
          initialised = init_ok;
          driver_closed = closed;
          nothing_or_all = all_done conf (run-zero p conf run ne ne' run_ok);
        })

    configured-zero :
        (rc : Rc) (q : InitCalls) (parsed : Parse)
        → (go_or_done p run (and_then rc (init_with q parsed) (λ code. (minus_one, none)))).status
          ≡ exit_code success
        → (parsed ≡ helped)
          ⊎ Succeeded p run parsed (and_then rc (init_with q parsed) (λ code. (minus_one, none)))
    configured-zero success q parsed h = init-zero q parsed h
    configured-zero not_found q parsed h = absurd (never_failed h)
    configured-zero (failure code) q parsed h = absurd (never_failed h)

-- Where `main` returns 0, but for runs whose barriers do not count as many threads as there are, either help was asked for, or `ia_init` has returned 0, the driver has been closed, and either no
-- benchmark is asked for, or the doers have together been given exactly the benchmarks that are, with 0
-- from `ia_doer_fulfil` for every one of them. It takes pthread_barrier_init not to return 1, which
-- `main` would take for the help. Barriers count others where -r or -w is negative; nothing is said of
-- such a run.
pub main-zero :
    (p : Platform) (run : Calls) (q : InitCalls) (parsed : Parse)
    → ((count : ℕ) → run.barrier_start count ≢ failure 1)
    → ((count : ℕ) → run.barrier_fihish count ≢ failure 1)
    → (main p run q parsed).status ≡ exit_code success
    → (parsed ≡ helped) ⊎ Succeeded p run parsed (ia_init q parsed)
unfolding main ia_init
main-zero p run q parsed ne ne' h = configured-zero p run ne ne' q.configinit q parsed h
