-- ===== src/Run/Control.antt =====
-- `ia_run` of src/ia.c, with the threads that it starts. Each thread runs one doer between the two
-- barriers, so its part of the run is what `ia_doer_fulfil` returns for that doer. What is printed and
-- the figures on memory and disk are left out.
pub mod Closes
pub mod Covers
pub mod Completes
pub mod Bounds
pub mod Tests
use ioarena.Base.{
  ℕ, zero, suc, ◌+◌, Bool, true, false, not, ◌&&◌, ◌||◌, Option, none, some, List, [], ◌∷◌, ◌++◌,
  ◌^◌, if◌then◌else◌, ltb, ◌==◌, length, u32,
}
use ioarena.Bench.{Benchmark}
use ioarena.Config.Parse.{IaConfig}
use ioarena.Histogram.State.{Global}
use ioarena.Histogram.State as State
use ioarena.Histogram.Merge.{Verdict, ia_histogram_checkpoint}
use ioarena.Kv.Fill.{Globals}
use ioarena.Kv.Setup.{Request, kvgen_setup}
use ioarena.Doer.Driver.{Rc, success, not_found, failure, and_then}
use ioarena.Doer.Turn.{minus_one}
use ioarena.Doer.Masks.{Mask, meet, some_bit, bench_mask_2keyspace}
use ioarena.Doer.Init.{Ready, ia_doer_init}
use ioarena.Run.{Spawn, Spread, ia_spread}

-- The sets of benchmarks of the readers and of the writers.
abbrev pub only_reads : Benchmark → Bool
only_reads Benchmark.ia_set = false
only_reads Benchmark.ia_batch = false
only_reads Benchmark.ia_crud = false
only_reads Benchmark.ia_delete = false
only_reads Benchmark.ia_iterate = true
only_reads Benchmark.ia_get = true

abbrev pub set_rd : (benchmark_list : Mask) → Mask
set_rd benchmark_list b = benchmark_list b && only_reads b

abbrev pub set_wr : (benchmark_list : Mask) → Mask
set_wr benchmark_list b = benchmark_list b && not (only_reads b)

-- a | b
abbrev pub union : Mask → Mask → Mask
union a b c = a c || b c

-- An int, as a 32-bit word, where it is compared with a number that is not negative: what is negative
-- starts no threads and raises none of the numbers below.
abbrev pub at_least_0 : ℕ → ℕ
at_least_0 n = if ltb n (2 ^ 31) then n else 0

-- if (a->conf.rthr && set_rd == 0) a->conf.rthr = 0;
abbrev pub threads_for : Mask → ℕ → ℕ
threads_for set n = if some_bit set then n else 0

-- if (k < n) k = n;
abbrev pub raised_to : (n k : ℕ) → ℕ
raised_to n k = if ltb k (at_least_0 n) then n else k

abbrev pub key_nsectors : (rthr wthr : ℕ) → ℕ
key_nsectors rthr wthr = raised_to wthr (raised_to rthr 1)

abbrev pub key_nspaces : (set_wr : Mask) (wthr : ℕ) → ℕ
key_nspaces set_wr wthr =
    let n = raised_to wthr 1 in if meet set_wr bench_mask_2keyspace then n + n else n

-- The count of both barriers, as pthread_barrier_init takes it.
abbrev pub barrier_count : (rthr wthr : ℕ) → ℕ
barrier_count rthr wthr = u32 (rthr + wthr + 1)

-- What the calls of a run answer: pthread_barrier_init for either barrier, the calls for the n-th
-- reader and writer, those for the main thread's doer, ia_get_rusage before and after, and
-- `ia_doer_fulfil` for each doer; with the globals of src/ia_histogram.c once all doers have been
-- destroyed, and the time then.
pub record Calls : Type 0 where
  pub barrier_start : (count : ℕ) → Rc
  pub barrier_fihish : (count : ℕ) → Rc
  pub reader : ℕ → Spawn
  pub writer : ℕ → Spawn
  pub gen_a_memory : Bool
  pub gen_b_memory : Bool
  pub rusage_start : Rc
  pub rusage_fihish : Rc
  pub fulfil : Ready → Rc
  pub globals : Global
  pub clock : ℕ

-- What the calls for `count` threads answer, from the first one on.
unfoldable pub spawns : (ℕ → Spawn) → (count : ℕ) → List Spawn
spawns answer zero = []
spawns answer (suc count) = answer 0 ∷ spawns (λ n. answer (suc n)) count

-- How a run ends: `return rc`, or exit(EXIT_FAILURE) from `bailout`, or by ia_fatal, or `return 0` at the
-- end, with the doer of the main thread, if it has one, and those of the other threads. `uneven` is a run
-- whose barriers do not count as many threads as there are, where a number of threads is negative: then
-- the threads do not wait for one another, or wait for ever, and nothing is said of what follows.
pub data Outcome : Type 0 where
  returns : Rc → Outcome
  exits aborts uneven : Outcome
  completes : (here : Option Ready) (doers : List Ready) → Outcome

-- The doers of all threads.
abbrev pub everyone : Option Ready → List Ready → List Ready
everyone none doers = doers
everyone (some here) doers = here ∷ doers

-- `ioarena.failed` once all threads have run `ia_doer_thread`: the first of `doers` ends last.
unfoldable pub failed_after : (fulfil : Ready → Rc) → (doers : List Ready) → Rc
failed_after fulfil [] = success
failed_after fulfil (d ∷ ds) =
    let rest = failed_after fulfil ds in and_then (fulfil d) rest (λ rc. rc)

-- if (rc) goto bailout;
abbrev pub or_exit : Rc → Outcome → Outcome
or_exit rc o = and_then rc o (λ code. exits)

abbrev pub or_return : Rc → Outcome → Outcome
or_return rc o = and_then rc o returns

-- ia_histogram_checkpoint(0)
abbrev pub after_checkpoint : State.Outcome (Verdict × Global) → Outcome → Outcome
after_checkpoint (State.returned r) o = o
after_checkpoint State.fatal o = aborts
after_checkpoint State.stuck o = aborts

-- if (a->failed) goto bailout; and the end of `ia_run`
unfoldable pub run_end : Calls → (here : Option Ready) (doers : List Ready) → Outcome
run_end q here doers =
    or_exit (failed_after q.fulfil doers)
      (after_checkpoint (ia_histogram_checkpoint q.clock 0 q.globals) (completes here doers))

-- Between `ia_sync_start` and `ia_sync_fihish` all threads run their doers; `count` is what the barriers
-- count.
abbrev pub together : (count : ℕ) (doers : List Ready) → Outcome → Outcome
together count doers o = if count == length doers + 1 then o else uneven

-- From the doer of the main thread on.
unfoldable pub run_main : Calls → (count : ℕ) (here : Option Ready) (doers : List Ready) → Outcome
run_main q count none doers = exits
run_main q count (some here) doers = or_exit q.rusage_start (
    together count doers
      (or_exit (q.fulfil here) (or_exit q.rusage_fihish (run_end q (some here) doers))))

unfoldable pub run_waiting : Calls → (count : ℕ) (doers : List Ready) → Outcome
run_waiting q count doers =
    or_exit q.rusage_start (together count doers (or_exit q.rusage_fihish (run_end q none doers)))

-- The C library, as src/ia_kv.c uses it: the arithmetic on doubles, `rand_r` and the clock, and what
-- the memory of the substitution box holds at first.
pub record Platform : Type 0 where
  pub sector_start : ℕ → ℕ → ℕ → ℕ
  pub round : ℕ → ℕ
  pub log_gt : ℕ → ℕ → ℕ → Bool
  pub rand_r : ℕ → ℕ × ℕ
  pub now : ℕ
  pub sbox : List ℕ

abbrev pub setup : Platform → Request → Option Globals
setup p = kvgen_setup p.round p.log_gt p.rand_r p.now p.sbox

module _ (p : Platform) (conf : IaConfig) where
  -- The numbers of threads that `ia_run` leaves in the settings.
  abbrev pub rthr : ℕ
  rthr = threads_for (set_rd conf.benchmark_list) conf.rthr

  abbrev pub wthr : ℕ
  wthr = threads_for (set_wr conf.benchmark_list) conf.wthr

  -- The arguments of `ia_kvgen_setup`.
  abbrev pub request : Request
  request = record {
    printable = not conf.binary;
    ksize = conf.ksize;
    nspaces = key_nspaces (set_wr conf.benchmark_list) wthr;
    nsectors = key_nsectors rthr wthr;
    period = conf.count;
    seed = some conf.kvseed;
  }

  module _ (g : Globals) (q : Calls) where
    -- The two calls of `ia_spread`.
    unfoldable pub spread_readers : Rc × Spread
    spread_readers =
        ia_spread p.sector_start g conf.vsize conf.separate (set_rd conf.benchmark_list)
          (spawns q.reader (at_least_0 rthr))
          (record { nth = 0; rotator = set_rd conf.benchmark_list; key_space = 0; doers = [] })

    unfoldable pub spread_writers : Spread → Rc × Spread
    spread_writers st =
        ia_spread p.sector_start g conf.vsize conf.separate (set_wr conf.benchmark_list)
          (spawns q.writer (at_least_0 wthr))
          (record {
            nth = st.nth;
            rotator = set_wr conf.benchmark_list;
            key_space = st.key_space;
            doers = [];
          })

    -- if (set_wr | set_rd) ... else ...
    unfoldable pub run_left : (left : Mask) (doers : List Ready) → Outcome
    run_left left doers =
        if some_bit left
        then run_main q (barrier_count rthr wthr)
            (ia_doer_init p.sector_start g conf.vsize q.gen_a_memory q.gen_b_memory 0 left 0 0)
            doers
        else run_waiting q (barrier_count rthr wthr) doers

    -- From the first `ia_spread` on.
    unfoldable pub run_doers : Outcome
    run_doers =
        let r = spread_readers in
        let w = spread_writers r.1 in
        or_exit r.0
          (or_exit w.0 (run_left (union w.1.rotator r.1.rotator) (w.1.doers ++ r.1.doers)))

  -- Once the generator is set up.
  unfoldable pub run_set_up : Calls → Option Globals → Outcome
  run_set_up q none = returns minus_one
  run_set_up q (some g) =
      let count = barrier_count rthr wthr in
      or_return (q.barrier_start count) (or_return (q.barrier_fihish count) (run_doers g q))

  unfoldable pub ia_run : Calls → Outcome
  ia_run q =
      if some_bit (union (set_rd conf.benchmark_list) (set_wr conf.benchmark_list))
      then run_set_up q (setup p request)
      else returns success
