-- ===== src/Run/Control/Covers.antt =====
-- What a run of src/ia.c that returns 0 at its end has done.
use ioarena.Base.{
  ◌≡◌, inl, inr, ap, ◌∙◌, arith, Bool, Bool-cases, ◌||◌, not, Option, none, some, List, ◌&&◌,
}
use ioarena.Bench.{Benchmark}
use ioarena.Config.Parse.{IaConfig}
use ioarena.Kv.Fill.{Globals}
use ioarena.Doer.Driver.{success}
use ioarena.Doer.Masks.{Mask, some_bit}
use ioarena.Doer.Init.{Ready}
use ioarena.Run.Covers.{given, init-mask}
use ioarena.Run.Control.{
  only_reads, set_rd, set_wr, union, Calls, returns, completes, barrier_count, rthr, wthr, everyone,
  Platform, spread_readers, spread_writers, run_left, run_doers, run_set_up, ia_run,
}
use ioarena.Run.Control.Closes.{
  AllFulfil, Completes, Closes, or_exit-inv, or_return-inv, run_main-Closes, run_waiting-Closes,
  given-append, some_bit-none, spread-exact,
}

module _ (p : Platform) (conf : IaConfig) where
  run_left-Closes :
      (g : Globals) (q : Calls) (left : Mask) (threads ds : List Ready) (here : Option Ready)
      → Completes (run_left p conf g q left threads) here ds
      → Closes q left threads ds here
  unfolding run_left
  run_left-Closes g q left threads ds here h = elim (Bool-cases (some_bit left)) [
    | inl more ↦
        run_main-Closes q left _ _ threads ds here
          (λ d e.
            init-mask p.sector_start g conf.vsize q.gen_a_memory q.gen_b_memory 0 left 0 0 d e)
          (rw (more, run_left) at h)
    | inr nothing ↦
        run_waiting-Closes q left _ threads ds here (some_bit-none left nothing)
          (rw (nothing, run_left) at h)
  ]

  abbrev Done : Calls → List Ready → Option Ready → Type 0
  Done q ds here =
      ((b : Benchmark) → given (everyone here ds) b ≡ conf.benchmark_list b)
      × AllFulfil q.fulfil (everyone here ds)

  -- The benchmarks of readers and writers, left over or given, are those asked for.
  parts_together :
      (asked reads left_r given_r left_w given_w : Bool)
      → (left_r || given_r) ≡ (asked && reads)
      → (left_w || given_w) ≡ (asked && not reads)
      → ((left_w || left_r) || (given_w || given_r)) ≡ asked
  parts_together asked reads left_r given_r left_w given_w hr hw = ground arith

  run_doers-Done :
      (g : Globals) (q : Calls) (ds : List Ready) (here : Option Ready)
      → Completes (run_doers p conf g q) here ds
      → Done q ds here
  unfolding run_doers spread_readers spread_writers
  run_doers-Done g q ds here h =
      let r = spread_readers p conf g q in
      let w = spread_writers p conf g q r.1 in
      let (readers, h1) = or_exit-inv r.0 _ h in
      let (writers, h2) = or_exit-inv w.0 _ h1 in
      let closed = run_left-Closes g q _ _ ds here h2 in
      let rd = set_rd conf.benchmark_list in
      let wr = set_wr conf.benchmark_list in
      let exact_r =
        spread-exact p.sector_start g conf.vsize conf.separate rd q.reader conf.rthr 0 0 readers in
      let exact_w =
        spread-exact p.sector_start g conf.vsize conf.separate wr q.writer conf.wthr r.1.nth
          r.1.key_space writers in
      (
        λ b.
            closed.closes_given b
            ∙ ap (λ x. union w.1.rotator r.1.rotator b || x) (given-append w.1.doers r.1.doers b)
            ∙ parts_together (conf.benchmark_list b) (only_reads b) (r.1.rotator b)
                (given r.1.doers b) (w.1.rotator b) (given w.1.doers b) (exact_r b) (exact_w b),
        closed.closes_well,
      )

  run_set_up-Done :
      (o : Option Globals) (q : Calls) (ds : List Ready) (here : Option Ready)
      → Completes (run_set_up p conf q o) here ds
      → Done q ds here
  unfolding run_set_up
  run_set_up-Done none q ds here h = absurd (ground arith)
  run_set_up-Done (some g) q ds here h =
      let count = barrier_count (rthr p conf) (wthr p conf) in
      let (_, h1) = or_return-inv (q.barrier_start count) _ h in
      let (_, h2) = or_return-inv (q.barrier_fihish count) _ h1 in run_doers-Done g q ds here h2

  -- Where a run of `ia_run` whose barriers count as many threads as there are gets to its end and
  -- returns 0, its doers (those of the threads and, if it has one, that of the main thread) have
  -- together been given exactly the benchmarks that were asked for, whatever the numbers of threads, and
  -- `ia_doer_fulfil` has returned 0 for every one of them. Nothing is said of a run whose barriers count
  -- others, as they may where a number of threads is negative.
  pub ia_run-does_all :
      (q : Calls) (ds : List Ready) (here : Option Ready)
      → ia_run p conf q ≡ completes here ds
      → ((b : Benchmark) → given (everyone here ds) b ≡ conf.benchmark_list b)
        × AllFulfil q.fulfil (everyone here ds)
  unfolding ia_run
  ia_run-does_all q ds here h =
      elim (Bool-cases
        (some_bit (union (set_rd conf.benchmark_list) (set_wr conf.benchmark_list)))) [
          | inl asked ↦ run_set_up-Done _ q ds here (rw (asked, ia_run) at h)
          | inr nothing ↦ absurd (never (rw (nothing, ia_run) at h))
        ]
    where
      never : returns success ≡ completes here ds → ⊥
      never e = ground arith
