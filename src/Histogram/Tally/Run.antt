-- ===== src/Histogram/Tally/Run.antt =====
-- The calls of src/ia_histogram.c that one `ia_run_benchmark` of src/ia_benchmark.c makes.
use mathlib.Core.Path.{subst}
use ioarena.Base.{
  ℕ, suc, ◌+◌, ◌-◌, ◌^◌, ◌<◌, ◌≡◌, ◌≢◌, refl, ◌∙◌, Bool, Bool-cases, inl, inr, true, List, [], ◌∷◌,
  length, arith, ◌==◌,
}
use ioarena.Bench.{Benchmark}
use ioarena.Histogram.State.{
  IaHistogram, Global, Outcome, returned, ◌>>=◌, zeroed, ia_histogram_reset,
}
use ioarena.Histogram.Add.{ia_histogram_add}
use ioarena.Histogram.Merge.{sub64, ia_histogram_merge}
use ioarena.Histogram.Sync.{InSync}
use ioarena.Histogram.Sync.Steps.{InSync-place, merge-Keeps}
use ioarena.Histogram.Sync.System.{reset-place}
use ioarena.Histogram.Tally.{TalliedSince, Tallied}
use ioarena.Histogram.Tally.Merge.{OnReturn, Merged, merge_locked-Merged}
use ioarena.Histogram.Tally.Add.{Counted, no_buckets-total, add-counts_once}

-- One measurement: whether the lock is free, the clock of a checkpoint, the time, the time at which
-- the operation began, and the volume.
pub record Measurement : Type 0 where
  pub locks : Bool
  pub clock : ℕ
  pub now : ℕ
  pub t0 : ℕ
  pub volume : ℕ

-- The measurements in turn.
pub add_all : List Measurement → IaHistogram → Global → Outcome (IaHistogram × Global)
add_all [] d g = returned (d, g)
add_all (m ∷ ms) d g =
    ia_histogram_add m.locks m.clock m.now m.t0 m.volume d g >>= λ r. add_all ms r.0 r.1

-- `ia_histogram_reset`, the measurements, and `ia_histogram_merge`.
pub measure_run :
    (started : ℕ)
    → List Measurement
    → (clock ended : ℕ) → Benchmark
    → IaHistogram
    → Global
    → Outcome (IaHistogram × Global)
measure_run started ms clock ended b d g = add_all ms (ia_histogram_reset started b d) g >>= λ r.
    ia_histogram_merge true clock ended r.0 r.1

abbrev pub Timed : List Measurement → Type 0
Timed [] = Unit
Timed (m ∷ ms) = (m.now ≢ 0) × Timed ms

Counted-then :
    (a b : ℕ) (d d1 d2 : IaHistogram) (g g1 g2 : Global)
    → Counted a d g (d1, g1)
    → Counted b d1 g1 (d2, g2)
    → Counted (a + b) d g (d2, g2)
Counted-then a b d d1 d2 g g1 g2 c1 c2 = record {
  same_bench = c2.same_bench ∙ c1.same_bench;
  since = c2.since;
  tallied = rw c1.same_bench at c2.tallied;
  own = omega (arith, c1.own, c2.own);
  recorded =
      let c2_here : (g2.per_bench d.bench).acc.n + (d2.acc.n - d2.last.n)
          ≡ (g1.per_bench d.bench).acc.n + (d1.acc.n - d1.last.n) + b =
        rw c1.same_bench at c2.recorded in
      omega (arith, c1.recorded, c2_here);
}

add_all-Counted :
    (ms : List Measurement) (d : IaHistogram) (g : Global) (others : List IaHistogram)
    → Timed ms
    → InSync g (d ∷ others)
    → TalliedSince d
    → Tallied (g.per_bench d.bench)
    → d.acc.n + length ms < 2 ^ 64
    → (g.per_bench d.bench).acc.n + (d.acc.n - d.last.n) + length ms < 2 ^ 64
    → (r : IaHistogram × Global) × (add_all ms d g ≡ returned r)
      × Counted (length ms) d g r
      × InSync r.1 (r.0 ∷ others)
unfolding add_all
add_all-Counted [] d g others timed i td t small fits = (
  (d, g),
  refl,
  record { same_bench = refl; since = td; tallied = t; own = omega arith; recorded = omega arith },
  i,
)
add_all-Counted (m ∷ ms) d g others timed i td t small fits =
    let ((d1, g1), e1, c1, i1) =
      add-counts_once m.locks m.clock m.now m.t0 m.volume d g others timed.0 i td t (omega arith)
        (omega arith) in
    let t1 : Tallied (g1.per_bench d1.bench) = rw c1.same_bench c1.tallied in
    let fits1 : (g1.per_bench d1.bench).acc.n + (d1.acc.n - d1.last.n) + length ms < 2 ^ 64 =
      rw c1.same_bench (omega (arith, c1.recorded)) in
    let ((d2, g2), e2, c2, i2) =
      add_all-Counted ms d1 g1 others timed.1 i1 c1.since t1 (omega (arith, c1.own)) fits1 in
    let whole : 1 + length ms ≡ suc (length ms) = omega arith in
    ((d2, g2), rw e1 e2, rw whole at (Counted-then 1 (length ms) d d1 d2 g g1 g2 c1 c2), i2)

reset-TalliedSince :
    (now : ℕ) (b : Benchmark) (d : IaHistogram) → TalliedSince (ia_histogram_reset now b d)
unfolding ia_histogram_reset zeroed
reset-TalliedSince now b d = record {
  size = no_buckets-total.0;
  total = omega (arith, no_buckets-total.1);
}

merge-Merged :
    (clock now : ℕ) (d : IaHistogram) (g : Global)
    → TalliedSince d
    → Tallied (g.per_bench d.bench)
    → d.acc.n < 2 ^ 64
    → (g.per_bench d.bench).acc.n + (d.acc.n - d.last.n) < 2 ^ 64
    → OnReturn (Merged d g) (ia_histogram_merge true clock now d g)
unfolding ia_histogram_merge
merge-Merged clock now d g td t small fits = elim (Bool-cases (sub64 d.acc.n d.last.n == 0)) [
  | inl nothing ↦ rw nothing record {
    same_acc = refl;
    same_last = refl;
    same_buckets = refl;
    same_bench = refl;
    tallied = t;
    gained = ground (arith, nothing, td.total);
  }
  | inr some_new ↦ rw some_new (merge_locked-Merged clock now d g td t small fits)
]

-- One run of a benchmark, as `ia_run_benchmark` records it: `ia_histogram_reset`, any list of
-- measurements, each at a time that is not 0 and with or without a merge, and `ia_histogram_merge`.
-- For a doer in step with the others, none of which makes a call in between, and an enabled
-- benchmark whose buckets add up to its count, and if the counts stay below 2^64, the run returns
-- with the benchmark's count larger by exactly the number of measurements, its buckets add up to that
-- count, and the doers are in step.
pub measure_run-counts_all :
    (started : ℕ) (ms : List Measurement) (clock ended : ℕ) (b : Benchmark) (d : IaHistogram)
    (g : Global) (others : List IaHistogram)
    → Timed ms
    → ended ≢ 0
    → InSync g (d ∷ others)
    → Tallied (g.per_bench b)
    → (g.per_bench b).acc.n + length ms < 2 ^ 64
    → (d' : IaHistogram) × (g' : Global) × (measure_run started ms clock ended b d g
        ≡ returned (d', g'))
      × ((g'.per_bench b).acc.n ≡ (g.per_bench b).acc.n + length ms)
      × Tallied (g'.per_bench b)
      × InSync g' (d' ∷ others)
unfolding measure_run ia_histogram_reset zeroed
measure_run-counts_all started ms clock ended b d g others timed timed_end i t fits =
    let fresh : IaHistogram = ia_histogram_reset started b d in
    let i0 : InSync g (fresh ∷ others) =
      InSync-place g d fresh others (reset-place started b d) i in
    let ((d1, g1), e1, c1, i1) =
      add_all-Counted ms fresh g others timed i0 (reset-TalliedSince started b d) t (omega arith)
        (omega arith) in
    let (d2, g2, e2, i2) = merge-Keeps clock ended d1 g1 others timed_end i1 in
    let t1 : Tallied (g1.per_bench d1.bench) = rw c1.same_bench c1.tallied in
    let fits1 : (g1.per_bench d1.bench).acc.n + (d1.acc.n - d1.last.n) < 2 ^ 64 =
      rw c1.same_bench (omega (arith, c1.recorded)) in
    let m : Merged d1 g1 (d2, g2) =
      subst (OnReturn (Merged d1 g1)) e2
        (merge-Merged clock ended d1 g1 c1.since t1 (omega (arith, c1.own)) fits1) in
    let gained : (g2.per_bench b).acc.n ≡ (g1.per_bench b).acc.n + (d1.acc.n - d1.last.n) =
      rw c1.same_bench at m.gained in
    (d2, g2, rw e1 e2, omega (arith, gained, c1.recorded), rw c1.same_bench at m.tallied, i2)
