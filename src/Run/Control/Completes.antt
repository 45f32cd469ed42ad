-- ===== src/Run/Control/Completes.antt =====
-- A run of src/ia.c whose calls succeed gets to its end.
use ioarena.Base.{
  ℕ, zero, suc, ◌+◌, ◌≡◌, refl, sym, ap, ◌∙◌, arith, inl, inr, Bool, true, Bool-cases, Option, none,
  some, List, [], ◌∷◌, ◌<◌, ◌≤◌, ◌^◌, length, length-append, ==_iff,
}
use mathlib.Core.Path.{subst}
use ioarena.Bench.{Benchmark}
use ioarena.Config.Parse.{IaConfig}
use ioarena.Kv.Fill.{Globals}
use ioarena.Kv.Gen.{kvgen_init}
use ioarena.Doer.Driver.{Rc, success, and_then}
use ioarena.Doer.Masks.{Mask, meet, some_bit, bench_mask_2keyspace}
use ioarena.Doer.Init.{Ready, init_with_a, init_with_b, ia_doer_init}
use ioarena.Run.{Spawn, Spread, refill, next_mask, next_space, start_thread, spread_one, ia_spread}
use ioarena.Histogram.Sync.System.{Reach, Reach-last_checkpoint}
use ioarena.Run.Control.Bounds.{spread-length}
use ioarena.Run.Control.{
  Calls, spawns, Outcome, completes, run_end, together, barrier_count, at_least_0, threads_for,
  rthr, wthr, failed_after, union, or_exit, or_return, run_main, run_waiting, set_rd, set_wr,
  Platform, setup, request, spread_readers, spread_writers, run_left, run_doers, run_set_up, ia_run,
}

-- The calls for one thread succeed.
pub record Good (p : Spawn) : Type 0 where
  pub has_doer : p.doer_memory ≡ true
  pub has_gen_a : p.gen_a_memory ≡ true
  pub has_gen_b : p.gen_b_memory ≡ true
  pub starts : p.thread_rc ≡ success

-- And so do all others; the calls of src/ia_histogram.c bring the globals to where all doers have left,
-- each after a reset.
pub record AllGood (q : Calls) : Type 0 where
  pub barriers :
      (count : ℕ)
      → 0 < count
      → count < 2 ^ 31
      → (q.barrier_start count ≡ success) × (q.barrier_fihish count ≡ success)
  pub readers : (n : ℕ) → Good (q.reader n)
  pub writers : (n : ℕ) → Good (q.writer n)
  pub gens : (q.gen_a_memory ≡ true) × (q.gen_b_memory ≡ true)
  pub usages : (q.rusage_start ≡ success) × (q.rusage_fihish ≡ success)
  pub fulfils : (d : Ready) → q.fulfil d ≡ success
  pub histograms : Reach (record { global = q.globals; doers = []; left_behind = [] })

and_then-both : {A : Type 0} (rc : Rc) (a : A) (f : Rc → A) → rc ≡ success → and_then rc a f ≡ a
and_then-both rc a f h = rw h refl

failed_after-success :
    (fulfil : Ready → Rc) (ds : List Ready)
    → ((d : Ready) → fulfil d ≡ success)
    → failed_after fulfil ds ≡ success
unfolding failed_after
failed_after-success fulfil [] h = refl
failed_after-success fulfil (d ∷ ds) h =
    and_then-both (fulfil d) _ _ (h d) ∙ failed_after-success fulfil ds h

module _ (sector_start : ℕ → ℕ → ℕ → ℕ) (g : Globals) (vsize : ℕ) where
  doer_init-some :
      (gen_a_memory gen_b_memory : Bool) (nth : ℕ) (mask : Mask) (space sequence : ℕ)
      → gen_a_memory ≡ true
      → gen_b_memory ≡ true
      → (d : Ready) × (ia_doer_init sector_start g vsize gen_a_memory gen_b_memory nth mask space
            sequence
          ≡ some d)
  unfolding ia_doer_init init_with_a init_with_b kvgen_init
  doer_init-some gen_a_memory gen_b_memory nth mask space sequence ha hb =
      elim (Bool-cases (meet mask bench_mask_2keyspace)) [
        | inl two ↦ rw (ha, hb, two) (_, refl)
        | inr one ↦ rw (ha, one) (_, refl)
      ]

  module _ (separate : Bool) where
    start-success :
        (mask : Mask) (rc : Rc) (o : Option Ready) (d : Ready) (st : Spread)
        → rc ≡ success
        → o ≡ some d
        → (start_thread sector_start g vsize separate mask rc o st).0 ≡ success
    unfolding start_thread
    start-success mask rc o d st hr ho = rw (hr, ho) refl

    spread_one-success :
        (set : Mask) (p : Spawn) (st : Spread)
        → Good p
        → (spread_one sector_start g vsize separate set p st).0 ≡ success
    unfolding spread_one
    spread_one-success set p st good =
        let rotator = refill set st.rotator in
        let mask = next_mask separate rotator in
        let space = next_space mask st.key_space in
        let (d, made) =
          doer_init-some p.gen_a_memory p.gen_b_memory (st.nth + 1) mask space (st.nth + 1)
            good.has_gen_a good.has_gen_b in
        rw (good.has_doer) (start-success mask p.thread_rc _ d _ good.starts made)

    spread-success :
        (set : Mask) (answer : ℕ → Spawn) (n : ℕ) (st : Spread)
        → ((i : ℕ) → Good (answer i))
        → (ia_spread sector_start g vsize separate set (spawns answer n) st).0 ≡ success
    unfolding ia_spread spawns
    spread-success set answer zero st good = refl
    spread-success set answer (suc n) st good =
        ap (λ (x : Rc × Spread). x.0)
          (and_then-both _ _ _ (spread_one-success set (answer 0) st (good 0)))
        ∙ spread-success set (λ i. answer (suc i)) n _ (λ i. good (suc i))

-- The end of a run is reached.
abbrev Ends : Outcome → Type 0
Ends o = (here : Option Ready) × (doers : List Ready) × (o ≡ completes here doers)

or_exit-Ends : (rc : Rc) (o : Outcome) → rc ≡ success → Ends o → Ends (or_exit rc o)
or_exit-Ends rc o h (here, doers, e) = (here, doers, and_then-both rc o _ h ∙ e)

or_return-Ends : (rc : Rc) (o : Outcome) → rc ≡ success → Ends o → Ends (or_return rc o)
or_return-Ends rc o h (here, doers, e) = (here, doers, and_then-both rc o _ h ∙ e)

together-Ends :
    (count : ℕ) (doers : List Ready) (o : Outcome)
    → count ≡ length doers + 1
    → Ends o
    → Ends (together count doers o)
together-Ends count doers o even ends = rw ((==_iff count (length doers + 1)).1 even) ends

-- The numbers of threads are not negative, and their sum fits an int.
abbrev pub FewThreads : IaConfig → Type 0
FewThreads conf = conf.rthr + conf.wthr + 1 < 2 ^ 31

threads_for-le : (set : Mask) (n : ℕ) → threads_for set n ≤ n
threads_for-le set n = ground arith

count-eq :
    (r w n m : ℕ)
    → r + w + 1 < 2 ^ 31
    → n ≤ r
    → m ≤ w
    → barrier_count n m ≡ at_least_0 m + at_least_0 n + 1
count-eq r w n m few hn hm = ground arith

sizes :
    (r w n m : ℕ)
    → r + w + 1 < 2 ^ 31
    → n ≤ r
    → m ≤ w
    → (0 < barrier_count n m) × (barrier_count n m < 2 ^ 31)
sizes r w n m few hn hm = omega arith

module _ (p : Platform) (conf : IaConfig) (q : Calls) (good : AllGood q)
    (few : FewThreads conf) where
  closing-Ends : (here : Option Ready) (doers : List Ready) → Ends (run_end q here doers)
  unfolding run_end
  closing-Ends here doers =
      or_exit-Ends _ _ (failed_after-success q.fulfil doers good.fulfils)
        (rw (Reach-last_checkpoint q.globals q.clock [] good.histograms) (here, doers, refl))

  run_main-Ends :
      (count : ℕ) (o : Option Ready) (d : Ready) (doers : List Ready)
      → count ≡ length doers + 1
      → o ≡ some d
      → Ends (run_main q count o doers)
  unfolding run_main
  run_main-Ends count o d doers even made =
      subst (λ x. Ends (run_main q count x doers)) (sym made)
        (or_exit-Ends _ _ good.usages.0 (
          together-Ends count doers _ even (
            or_exit-Ends _ _ (good.fulfils d)
              (or_exit-Ends _ _ good.usages.1 (closing-Ends (some d) doers)))))

  run_waiting-Ends :
      (count : ℕ) (doers : List Ready) → count ≡ length doers + 1 → Ends (run_waiting q count doers)
  unfolding run_waiting
  run_waiting-Ends count doers even =
      or_exit-Ends _ _ good.usages.0 (
        together-Ends count doers _ even (or_exit-Ends _ _ good.usages.1 (closing-Ends none doers)))

  run_left-Ends :
      (g : Globals) (left : Mask) (doers : List Ready)
      → barrier_count (rthr p conf) (wthr p conf) ≡ length doers + 1
      → Ends (run_left p conf g q left doers)
  unfolding run_left
  run_left-Ends g left doers even = elim (Bool-cases (some_bit left)) [
    | inl more ↦
        let (d, made) =
          doer_init-some p.sector_start g conf.vsize q.gen_a_memory q.gen_b_memory 0 left 0 0
            good.gens.0 good.gens.1 in
        rw more (run_main-Ends _ _ d doers even made)
    | inr nothing ↦ rw nothing (run_waiting-Ends _ doers even)
  ]

  run_doers-Ends : (g : Globals) → Ends (run_doers p conf g q)
  unfolding run_doers spread_readers spread_writers
  run_doers-Ends g =
      let rd = set_rd conf.benchmark_list in
      let wr = set_wr conf.benchmark_list in
      let r = spread_readers p conf g q in
      let w = spread_writers p conf g q r.1 in
      let readers : r.0 ≡ success =
        spread-success p.sector_start g conf.vsize conf.separate rd q.reader _ _ good.readers in
      let writers : w.0 ≡ success =
        spread-success p.sector_start g conf.vsize conf.separate wr q.writer _ _ good.writers in
      let many_r =
        spread-length p.sector_start g conf.vsize conf.separate rd q.reader conf.rthr 0 0 readers in
      let many_w =
        spread-length p.sector_start g conf.vsize conf.separate wr q.writer conf.wthr r.1.nth
          r.1.key_space writers in
      or_exit-Ends _ _ readers (
        or_exit-Ends _ _ writers (
          run_left-Ends g _ _ (
            count-eq conf.rthr conf.wthr (rthr p conf) (wthr p conf) few
              (threads_for-le rd conf.rthr) (threads_for-le wr conf.wthr)
            ∙ omega (arith, many_r, many_w, length-append w.1.doers r.1.doers))))

  run_set_up-Ends : (o : Option Globals) (g : Globals) → o ≡ some g → Ends (run_set_up p conf q o)
  unfolding run_set_up
  run_set_up-Ends o g made =
      subst (λ x. Ends (run_set_up p conf q x)) (sym made)
        (or_return-Ends _ _ counts.0 (or_return-Ends _ _ counts.1 (run_doers-Ends g)))
    where
      count : ℕ
      count = barrier_count (rthr p conf) (wthr p conf)

      in_range : (0 < count) × (count < 2 ^ 31)
      in_range =
          sizes conf.rthr conf.wthr (rthr p conf) (wthr p conf) few
            (threads_for-le (set_rd conf.benchmark_list) conf.rthr)
            (threads_for-le (set_wr conf.benchmark_list) conf.wthr)

      counts : (q.barrier_start count ≡ success) × (q.barrier_fihish count ≡ success)
      counts = good.barriers count in_range.0 in_range.1

some_asked :
    (list : Mask) (b : Benchmark)
    → list b ≡ true
    → some_bit (union (set_rd list) (set_wr list)) ≡ true
some_asked list Benchmark.ia_set on = ground arith
some_asked list Benchmark.ia_batch on = ground arith
some_asked list Benchmark.ia_crud on = ground arith
some_asked list Benchmark.ia_delete on = ground arith
some_asked list Benchmark.ia_iterate on = ground arith
some_asked list Benchmark.ia_get on = ground arith

-- Where some benchmark is asked for, the generator's settings are accepted, the calls for memory,
-- threads, barriers and usage succeed, `ia_doer_fulfil` returns 0 for every doer and every doer is reset
-- before it is destroyed, `ia_run` gets to its end and returns 0, whatever the numbers of threads that
-- are not negative and whose sum fits an int: the barriers count every thread, and the last checkpoint
-- does not abort.
pub ia_run-completes :
    (p : Platform) (conf : IaConfig) (q : Calls) (g : Globals) (b : Benchmark)
    → AllGood q
    → FewThreads conf
    → conf.benchmark_list b ≡ true
    → setup p (request p conf) ≡ some g
    → (here : Option Ready) × (doers : List Ready) × (ia_run p conf q ≡ completes here doers)
unfolding ia_run
ia_run-completes p conf q g b good few asked accepted =
    rw (some_asked conf.benchmark_list b asked) (run_set_up-Ends p conf q good few _ g accepted)
