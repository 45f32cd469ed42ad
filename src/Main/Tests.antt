-- ===== src/Main/Tests.antt =====
-- The model of src/ia_main.c at concrete inputs.
use ioarena.Base.{ℕ, ◌+◌, ◌*◌, ◌<◌, ◌≡◌, ◌≢◌, ◌⊎◌, refl, arith, false}
use ioarena.Config.Parse.{ready, helped}
use ioarena.Kv.Gen.{kvgen_init}
use ioarena.Kv.Setup.{kvgen_setup, check_ksize, choose_width}
use ioarena.Doer.Driver.{success, failure}
use ioarena.Doer.Init.{init_with_a, init_with_b, ia_doer_init}
use ioarena.Run.{start_thread, spread_one, ia_spread}
use ioarena.Histogram.State.{ia_global_init}
use ioarena.Histogram.Merge.{ia_histogram_checkpoint, write_checkpoint}
use ioarena.Histogram.Sync.System.{no_global}
use ioarena.Run.Control.{
  spawns, failed_after, run_end, run_waiting, spread_readers, spread_writers, run_left, run_doers,
  run_set_up, ia_run,
}
use ioarena.Run.Control.Tests.{platform, settings, good_calls}
use ioarena.Main.{exit_code, InitCalls, init_options, init_with, ia_init, go_or_done, main}
use ioarena.Main.Status.{Succeeded, main-zero}
use ioarena.Main.Barrier.{
  Barrier, barrier_init, barrier_enter, System, arrive_with, Reach, starts, continues, arrives,
  resumes,
}
use ioarena.Main.Barrier.Rounds.{Reach-passes_in_rounds}

abbrev good_init : InitCalls
good_init = record {
  configinit = success;
  rusage = success;
  option = λ arg. success;
  opened = success;
}

not_one : success ≢ failure 1
not_one e = ground arith

zero_status : (main platform good_calls good_init (ready settings)).status ≡ exit_code success
unfolding main go_or_done ia_init init_with init_options ia_run run_set_up run_doers run_left
    run_waiting spread_readers spread_writers spawns ia_spread spread_one start_thread ia_doer_init
    init_with_a init_with_b kvgen_init failed_after run_end ia_histogram_checkpoint write_checkpoint
    ia_global_init no_global kvgen_setup check_ksize choose_width
zero_status = refl

main-zero_example :
    (ready settings ≡ helped)
    ⊎ Succeeded platform good_calls (ready settings) (ia_init good_init (ready settings))
main-zero_example =
    main-zero platform good_calls good_init (ready settings) (λ count. not_one) (λ count. not_one)
      zero_status

-- Three threads: the first two sleep, the third wakes them, and one of them has returned.
abbrev barrier_of : (canary : ℕ) → Barrier
barrier_of canary = record { threshold = 3; canary = canary }

abbrev system_at : (canary asleep awake arrived passed : ℕ) → System
system_at canary asleep awake arrived passed = record {
  barrier = barrier_of canary;
  asleep = asleep;
  awake = awake;
  arrived = arrived;
  passed = passed;
}

three_start : Reach false 3 (system_at 0 0 0 0 0)
unfolding barrier_init
three_start = starts (barrier_of 0) refl

two_sleep : Reach false 3 (system_at 2 2 0 2 0)
unfolding barrier_enter arrive_with
two_sleep =
    continues (continues three_start (arrives (system_at 0 0 0 0 0)))
      (arrives (system_at 1 1 0 1 0))

two_woken : Reach false 3 (system_at 0 0 2 3 1)
unfolding barrier_enter arrive_with
two_woken = continues two_sleep (arrives (system_at 2 2 0 2 0))

one_returned : Reach false 3 (system_at 0 0 1 3 2)
one_returned = continues two_woken (resumes (system_at 0 0 2 3 1) 1 refl)

Reach-passes_in_rounds_example :
    (rounds : ℕ) × (2 + 1 ≡ 3 * rounds) × (3 ≡ 3 * rounds + 0) × (0 < 3)
Reach-passes_in_rounds_example = Reach-passes_in_rounds 3 (system_at 0 0 1 3 2) one_returned
