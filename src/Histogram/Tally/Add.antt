-- ===== src/Histogram/Tally/Add.antt =====
-- `ia_histogram_add` counts its measurement once.
use mathlib.Core.Path.{subst}
use ioarena.Base.{
  ℕ, ◌+◌, ◌-◌, ◌^◌, ◌<◌, ◌≡◌, ◌≢◌, refl, ◌∙◌, inl, inr, Bool, Bool-cases, List, ◌∷◌, length, leb,
  ◌==◌, ◌&&◌, u64, arith, length-set, length-replicate, get_or,
}
use ioarena.Histogram.Buckets.{st_histogram_count}
use ioarena.Histogram.Buckets.Search.{find_bucket-Encloses}
use ioarena.Histogram.State.{
  IaHistogram, Global, Outcome, returned, fatal, stuck, ◌>>=◌, no_buckets,
}
use ioarena.Histogram.Add.{observe, count_in, start_over, merge_if_due, ia_histogram_add}
use ioarena.Histogram.Merge.{sub64, interval_merge, ia_histogram_merge_locked}
use ioarena.Histogram.Sync.{InSync}
use ioarena.Histogram.Sync.Steps.{add-Keeps}
use ioarena.Histogram.Tally.{TalliedSince, Tallied}
use ioarena.Histogram.Tally.Sums.{sum, sum-count_in, sum-replicate_zero}
use ioarena.Histogram.Tally.Merge.{OnReturn, Merged, merge_locked-Merged}

-- The doer's histogram and its benchmark's have counted `more` measurements more between them.
pub record Counted (more : ℕ) (d : IaHistogram) (g : Global) (r : IaHistogram × Global)
    : Type 0 where
  pub same_bench : (r.0).bench ≡ d.bench
  pub since : TalliedSince (r.0)
  pub tallied : Tallied ((r.1).per_bench d.bench)
  pub own : (r.0).acc.n ≡ d.acc.n + more
  pub recorded :
      ((r.1).per_bench d.bench).acc.n + ((r.0).acc.n - (r.0).last.n)
      ≡ (g.per_bench d.bench).acc.n + (d.acc.n - d.last.n) + more

count_in-TalliedSince :
    (i now t0 volume : ℕ) (d : IaHistogram)
    → i < st_histogram_count
    → d.acc.n + 1 < 2 ^ 64
    → TalliedSince d
    → TalliedSince (count_in i (observe now t0 volume d))
unfolding count_in observe
count_in-TalliedSince i now t0 volume d h small t = record {
  size = length-set d.buckets i (u64 (get_or d.buckets i 0 + 1)) ∙ t.size;
  total =
      omega
        (arith, sum-count_in d.buckets i (omega (arith, t.size)) (omega (arith, t.total)), t.total);
}

pub no_buckets-total : (length no_buckets ≡ st_histogram_count) × (sum no_buckets ≡ 0)
unfolding no_buckets
no_buckets-total =
    (length-replicate {A = ℕ} st_histogram_count 0, sum-replicate_zero st_histogram_count)

-- A doer that counts nothing more, and merges if it is time.
merge_if_due-Counted :
    (locks : Bool) (clock now : ℕ) (d : IaHistogram) (g : Global)
    → TalliedSince d
    → Tallied (g.per_bench d.bench)
    → d.acc.n < 2 ^ 64
    → (g.per_bench d.bench).acc.n + (d.acc.n - d.last.n) < 2 ^ 64
    → OnReturn (Counted 0 d g) (merge_if_due locks clock now d g)
unfolding merge_if_due start_over
merge_if_due-Counted locks clock now d g td t small fits =
    elim (Bool-cases
      (leb interval_merge (sub64 now d.checkpoint_ns) && (d.merge_evo == g.merge_evo && locks))) [
        | inr later ↦ rw later record {
          same_bench = refl;
          since = td;
          tallied = t;
          own = omega arith;
          recorded = omega arith;
        }
        | inl due ↦ rw due (
            anew (ia_histogram_merge_locked clock now d g)
              (merge_locked-Merged clock now d g td t small fits))
      ]
  where
    anew :
        (r : Outcome (IaHistogram × Global))
        → OnReturn (Merged d g) r
        → OnReturn (Counted 0 d g) (r >>= λ q. returned (start_over now q.0, q.1))
    anew (returned (d', g')) m = record {
      same_bench = m.same_bench;
      since = record { size = no_buckets-total.0; total = omega (arith, no_buckets-total.1) };
      tallied = m.tallied;
      own = rw m.same_acc (omega arith);
      recorded = omega (arith, m.gained);
    }
    anew fatal m = tt
    anew stuck m = tt

add-Counted :
    (locks : Bool) (clock now t0 volume : ℕ) (d : IaHistogram) (g : Global)
    → TalliedSince d
    → Tallied (g.per_bench d.bench)
    → d.acc.n + 1 < 2 ^ 64
    → (g.per_bench d.bench).acc.n + (d.acc.n - d.last.n) + 1 < 2 ^ 64
    → OnReturn (Counted 1 d g) (ia_histogram_add locks clock now t0 volume d g)
unfolding ia_histogram_add count_in observe
add-Counted locks clock now t0 volume d g td t small fits =
    let (i, found, _, inside, _) = find_bucket-Encloses (sub64 now t0) (omega arith) in
    let counting : IaHistogram = count_in i (observe now t0 volume d) in
    let one_more : counting.acc.n ≡ d.acc.n + 1 = omega arith in
    rw (found, ia_histogram_add)
      (one (merge_if_due locks clock now counting g) i one_more (
        merge_if_due-Counted locks clock now counting g
          (count_in-TalliedSince i now t0 volume d inside small td) t (omega (arith, one_more))
          (omega (arith, one_more, td.total))))
  where
    one :
        (r : Outcome (IaHistogram × Global)) (i : ℕ)
        → (count_in i (observe now t0 volume d)).acc.n ≡ d.acc.n + 1
        → OnReturn (Counted 0 (count_in i (observe now t0 volume d)) g) r
        → OnReturn (Counted 1 d g) r
    one (returned r) i one_more c = record {
      same_bench = c.same_bench;
      since = c.since;
      tallied = c.tallied;
      own = omega (arith, c.own, one_more);
      recorded = omega (arith, c.recorded, one_more, td.total);
    }
    one fatal i one_more c = tt
    one stuck i one_more c = tt

-- For a doer among others with which it is in step, and counts that stay below 2^64,
-- `ia_histogram_add` at any time but 0 returns, whether it merges or not, and counts its measurement
-- exactly once: what the doer's benchmark and the doer since its last merge have counted is one
-- more, the buckets of both add up to their counts, and the doers stay in step.
pub add-counts_once :
    (locks : Bool) (clock now t0 volume : ℕ) (d : IaHistogram) (g : Global)
    (others : List IaHistogram)
    → now ≢ 0
    → InSync g (d ∷ others)
    → TalliedSince d
    → Tallied (g.per_bench d.bench)
    → d.acc.n + 1 < 2 ^ 64
    → (g.per_bench d.bench).acc.n + (d.acc.n - d.last.n) + 1 < 2 ^ 64
    → (r : IaHistogram × Global) × (ia_histogram_add locks clock now t0 volume d g ≡ returned r)
      × Counted 1 d g r
      × InSync r.1 (r.0 ∷ others)
add-counts_once locks clock now t0 volume d g others timed i td t small fits =
    let (d', g', e, i') = add-Keeps locks clock now t0 volume d g others timed i in
    (
      (d', g'),
      e,
      subst (OnReturn (Counted 1 d g)) e
          (add-Counted locks clock now t0 volume d g td t small fits),
      i',
    )
