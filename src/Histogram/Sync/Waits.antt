-- ===== src/Histogram/Sync/Waits.antt =====
-- Doers that wait for the others: see ia_histogram_merge_locked and ia_histogram_add of
-- src/ia_histogram.c.
use ioarena.Base.{
  ℕ, ◌≡◌, ◌+◌, ◌==◌, ◌&&◌, not, leb, refl, Bool, Bool-cases, true, false, inl, inr, arith,
}
use ioarena.Bench.{Benchmark}
use ioarena.Histogram.Buckets.Search.{find_bucket-Encloses}
use ioarena.Histogram.State.{IaHistogram, Global, returned, update}
use ioarena.Histogram.Add.{observe, count_in, merge_if_due, ia_histogram_add}
use ioarena.Histogram.Merge.{
  sub64, absorb, interval_merge, ia_histogram_merge_locked, ia_histogram_merge,
}

merge_if_due-waits :
    (locks : Bool) (clock now : ℕ) (d : IaHistogram) (g : Global)
    → (d.merge_evo == g.merge_evo) ≡ false
    → merge_if_due locks clock now d g ≡ returned (d, g)
unfolding merge_if_due
merge_if_due-waits locks clock now d g ahead =
    elim (Bool-cases (leb interval_merge (sub64 now d.checkpoint_ns))) [
      | inl due ↦ rw (due, ahead) refl
      | inr later ↦ rw later refl
    ]

merge-waits :
    (clock now : ℕ) (d : IaHistogram) (g : Global)
    → (d.merge_evo == g.merge_evo) ≡ false
    → (p : Benchmark → IaHistogram) × (ia_histogram_merge true clock now d g
        ≡ returned (d, record g { per_bench = p }))
unfolding ia_histogram_merge ia_histogram_merge_locked
merge-waits clock now d g ahead = elim (Bool-cases (sub64 d.acc.n d.last.n == 0)) [
  | inl nothing ↦ (g.per_bench, rw nothing refl)
  | inr some_new ↦
      elim (Bool-cases (not ((g.per_bench d.bench).enabled == 0) && not (d.acc.n == d.last.n))) [
        | inr idle ↦ (g.per_bench, rw (some_new, idle) refl)
        | inl merges ↦ (
          update g.per_bench d.bench (absorb (g.per_bench d.bench) d),
          rw (some_new, merges, ahead) refl,
        )
      ]
]

-- A doer that has merged into the coming checkpoint takes part in it no more until it is written: its
-- `ia_histogram_add` leaves all globals as they are, and its `ia_histogram_merge`, if it gets the
-- lock, changes no counter and writes no checkpoint.
pub merged_doer-waits :
    (locks : Bool) (clock now t0 volume : ℕ) (d : IaHistogram) (g : Global)
    → d.merge_evo ≡ g.merge_evo + 1
    → ((h : IaHistogram) × (ia_histogram_add locks clock now t0 volume d g ≡ returned (h, g))
        × (h.merge_evo ≡ d.merge_evo))
      × ((p : Benchmark → IaHistogram) × (ia_histogram_merge true clock now d g
            ≡ returned (d, record g { per_bench = p })))
unfolding ia_histogram_add count_in observe
merged_doer-waits locks clock now t0 volume d g merged =
    let (bucket, found, _, _, _) = find_bucket-Encloses (sub64 now t0) (omega arith) in
    let counting : IaHistogram = count_in bucket (observe now t0 volume d) in
    (
      (
        counting,
        rw (found, ia_histogram_add) (merge_if_due-waits locks clock now counting g ahead),
        refl,
      ),
      merge-waits clock now d g ahead,
    )
  where
    ahead : (d.merge_evo == g.merge_evo) ≡ false
    ahead = ground (arith, merged)
