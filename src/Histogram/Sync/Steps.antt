-- ===== src/Histogram/Sync/Steps.antt =====
-- Each operation of a doer keeps the counters in step, and none aborts.
use ioarena.Base.{
  ℕ, ◌+◌, ◌≤◌, ◌≡◌, ◌≢◌, inl, inr, refl, Bool, true, false, List, ◌∷◌, length, ltb, leb, ◌==◌, ◌&&◌,
  not, arith, Bool-cases, ltb→le, ==_iff,
}
use ioarena.Histogram.State.{
  IaHistogram, Global, returned, ◌>>=◌, update, ia_histogram_init, ia_histogram_destroy,
}
use ioarena.Histogram.Add.{observe, count_in, start_over, merge_if_due, ia_histogram_add}
use ioarena.Histogram.Buckets.Search.{find_bucket-Encloses}
use ioarena.Histogram.Merge.{
  sub64, interval_stat, settle, write_checkpoint, ia_histogram_checkpoint, absorb, advance_evo,
  ia_histogram_merge_locked, ia_histogram_merge, interval_merge,
}
use ioarena.Histogram.Sync.{InSync, Keeps}
use ioarena.Histogram.Sync.Counts.{ahead, ahead-le, Near-next, ahead-next}

-- The last doer to merge finds all others counted.
all_others :
    (d : IaHistogram) (g : Global) (others : List IaHistogram)
    → d.merge_evo ≡ g.merge_evo
    → InSync g (d ∷ others)
    → g.doers_active ≤ g.doers_merged + 1
    → (g.doers_active ≡ g.doers_merged + 1) × (ahead g.merge_evo others ≡ length others)
all_others d g others here i last = ground (arith, i.active, i.merged, ahead-le g.merge_evo others)

-- A doer that stands at the coming checkpoint takes part in it: the checkpoint does not abort.
checkpoint-Keeps :
    (clock now : ℕ) (d : IaHistogram) (g : Global) (others : List IaHistogram)
    → now ≢ 0
    → d.merge_evo ≡ g.merge_evo
    → InSync g (d ∷ others)
    → Keeps (ia_histogram_checkpoint clock now g >>= λ r. returned (advance_evo d r)) others
unfolding ia_histogram_checkpoint advance_evo write_checkpoint
checkpoint-Keeps clock now d g others timed here i =
    elim (Bool-cases (ltb (sub64 now g.checkpoint_ns) interval_stat)) [
      | inl early ↦ (d, g, rw (running, early) refl, i)
      | inr due ↦ elim (Bool-cases (ltb (g.doers_merged + 1) g.doers_active)) [
        | inl waits ↦ (
          record d { merge_evo = d.merge_evo + 1 },
          record g { doers_merged = g.doers_merged + 1 },
          rw (running, due, waits) refl,
          record {
            active = i.active;
            merged = ground (arith, i.merged);
            near = (inr (omega arith), i.near.1);
          },
        )
        | inr last ↦
            let (all, merged) = all_others d g others here i (ltb→le _ _ last) in
            let even : (g.doers_active == (g.doers_merged + 1)) ≡ true = (==_iff _ _).1 all in
            (
              record d { merge_evo = d.merge_evo + 1 },
              record g {
                checkpoint_ns = now;
                per_bench = λ b. settle (g.per_bench b);
                doers_merged = 0;
                merge_evo = g.merge_evo + 1;
              },
              rw (running, due, last, even) refl,
              record {
                active = i.active;
                merged = ground (
                  arith,
                  ahead-next g.merge_evo others (Near-next g.merge_evo others i.near.1 merged)
                      merged,
                );
                near = (inl (omega arith), Near-next g.merge_evo others i.near.1 merged);
              },
            )
      ]
    ]
  where
    running : (now == 0) ≡ false
    running = ground arith

merge_locked-Keeps :
    (clock now : ℕ) (d : IaHistogram) (g : Global) (others : List IaHistogram)
    → now ≢ 0
    → InSync g (d ∷ others)
    → Keeps (ia_histogram_merge_locked clock now d g) others
unfolding ia_histogram_merge_locked
merge_locked-Keeps clock now d g others timed i =
    elim (Bool-cases (not ((g.per_bench d.bench).enabled == 0) && not (d.acc.n == d.last.n))) [
      | inr idle ↦ (d, g, rw idle refl, i)
      | inl merges ↦ elim (Bool-cases (d.merge_evo == g.merge_evo)) [
        | inr ahead_already ↦ (d, merged_into, rw (merges, ahead_already) refl, same)
        | inl here ↦
            rw (merges, here)
              (checkpoint-Keeps clock now d merged_into others timed ((==_iff _ _).0 here) same)
      ]
    ]
  where
    merged_into : Global
    merged_into = record g {
      per_bench = update g.per_bench d.bench (absorb (g.per_bench d.bench) d);
    }

    same : InSync merged_into (d ∷ others)
    same = record { active = i.active; merged = i.merged; near = i.near }

-- A doer whose counted position is the same may take another's place.
pub InSync-place :
    (g : Global) (d d' : IaHistogram) (others : List IaHistogram)
    → d'.merge_evo ≡ d.merge_evo
    → InSync g (d ∷ others)
    → InSync g (d' ∷ others)
InSync-place g d d' others same i = record {
  active = i.active;
  merged = ground (arith, i.merged);
  near = (ground (arith, i.near.0), i.near.1);
}

pub merge-Keeps :
    (clock now : ℕ) (d : IaHistogram) (g : Global) (others : List IaHistogram)
    → now ≢ 0
    → InSync g (d ∷ others)
    → Keeps (ia_histogram_merge true clock now d g) others
unfolding ia_histogram_merge
merge-Keeps clock now d g others timed i = elim (Bool-cases (sub64 d.acc.n d.last.n == 0)) [
  | inl nothing ↦ (d, g, rw nothing refl, i)
  | inr some_new ↦ rw some_new (merge_locked-Keeps clock now d g others timed i)
]

merge_if_due-Keeps :
    (locks : Bool) (clock now : ℕ) (d : IaHistogram) (g : Global) (others : List IaHistogram)
    → now ≢ 0
    → InSync g (d ∷ others)
    → Keeps (merge_if_due locks clock now d g) others
unfolding merge_if_due start_over
merge_if_due-Keeps locks clock now d g others timed i =
    elim (Bool-cases
      (leb interval_merge (sub64 now d.checkpoint_ns) && (d.merge_evo == g.merge_evo && locks))) [
        | inr later ↦ (d, g, rw later refl, i)
        | inl due ↦
            let (d', g', e, i') = merge_locked-Keeps clock now d g others timed i in
            (
              start_over now d',
              g',
              rw (due, e) refl,
              InSync-place g' d' (start_over now d') others refl i',
            )
      ]

pub add-Keeps :
    (locks : Bool) (clock now t0 volume : ℕ) (d : IaHistogram) (g : Global)
    (others : List IaHistogram)
    → now ≢ 0
    → InSync g (d ∷ others)
    → Keeps (ia_histogram_add locks clock now t0 volume d g) others
unfolding ia_histogram_add count_in observe
add-Keeps locks clock now t0 volume d g others timed i =
    let (bucket, found, _, _, _) = find_bucket-Encloses (sub64 now t0) (omega arith) in
    rw (found, ia_histogram_add)
      (merge_if_due-Keeps locks clock now (count_in bucket (observe now t0 volume d)) g others timed
        (InSync-place g d (count_in bucket (observe now t0 volume d)) others refl i))

-- `ia_histogram_init` brings a doer that stands at the coming checkpoint.
pub init-InSync :
    (g : Global) (doers : List IaHistogram)
    → InSync g doers
    → InSync (ia_histogram_init g).1 ((ia_histogram_init g).0 ∷ doers)
unfolding ia_histogram_init
init-InSync g doers i = record {
  active = omega (arith, i.active);
  merged = ground (arith, i.merged);
  near = (inl refl, i.near);
}

-- `ia_histogram_destroy` of a doer that has run a benchmark takes it out of both counters.
pub destroy-InSync :
    (g : Global) (d : IaHistogram) (others : List IaHistogram)
    → d.enabled ≡ 42
    → InSync g (d ∷ others)
    → InSync (ia_histogram_destroy d g).1 others
unfolding ia_histogram_destroy
destroy-InSync g d others ran i = elim (Bool-cases (d.merge_evo == g.merge_evo + 1)) [
  | inl merged_already ↦
      rw (enabled, merged_already)
        record {
          active = omega (arith, i.active);
          merged = ground (arith, i.merged);
          near = i.near.1;
        }
  | inr here ↦
      rw (enabled, here)
        record {
          active = omega (arith, i.active);
          merged = ground (arith, i.merged);
          near = i.near.1;
        }
]
  where
    enabled : (d.enabled == 42) ≡ true
    enabled = (==_iff _ _).1 ran
