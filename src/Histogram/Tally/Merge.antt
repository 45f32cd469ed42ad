-- ===== src/Histogram/Tally/Merge.antt =====
-- A merge brings a benchmark what the doer has counted, all of it and no more.
use ioarena.Base.{
  ℕ, ◌+◌, ◌-◌, ◌^◌, ◌<◌, ◌≡◌, refl, sym, ◌∙◌, inl, inr, Bool-cases, ltb, ◌==◌, ◌&&◌, not, u64,
  arith,
}
use mathlib.Core.Path.{subst}
use ioarena.Bench.{Benchmark}
use ioarena.Histogram.State.{IaHistogram, Global, Outcome, returned, fatal, stuck, ◌>>=◌, update}
use ioarena.Histogram.Merge.{
  sub64, interval_stat, settle, write_checkpoint, ia_histogram_checkpoint, add_stat, absorb,
  advance_evo, ia_histogram_merge_locked,
}
use ioarena.Histogram.Tally.{TalliedSince, Tallied}
use ioarena.Histogram.Tally.Sums.{sum-add_buckets, length-add_buckets}

-- What holds of the result, if the call returns.
abbrev pub OnReturn : (IaHistogram × Global → Type 0) → Outcome (IaHistogram × Global) → Type 0
OnReturn P (returned r) = P r
OnReturn P fatal = Unit
OnReturn P stuck = Unit

-- The doer is as it was but for its position, and its benchmark has what the doer has counted.
pub record Merged (d : IaHistogram) (g : Global) (r : IaHistogram × Global) : Type 0 where
  pub same_acc : (r.0).acc ≡ d.acc
  pub same_last : (r.0).last ≡ d.last
  pub same_buckets : (r.0).buckets ≡ d.buckets
  pub same_bench : (r.0).bench ≡ d.bench
  pub tallied : Tallied ((r.1).per_bench d.bench)
  pub gained : ((r.1).per_bench d.bench).acc.n ≡ (g.per_bench d.bench).acc.n + (d.acc.n - d.last.n)

update_self : (f : Benchmark → IaHistogram) (b : Benchmark) (h : IaHistogram) → update f b h b ≡ h
update_self f b h = grind arith

settle-Tallied : (h : IaHistogram) → Tallied h → Tallied (settle h) × ((settle h).acc.n ≡ h.acc.n)
unfolding settle
settle-Tallied h t = elim (Bool-cases (h.enabled == 0)) [
  | inl off ↦ rw off (t, refl)
  | inr on ↦ rw on (record { size = t.size; total = t.total; on = t.on }, refl)
]

absorb-Tallied :
    (h d : IaHistogram)
    → Tallied h
    → TalliedSince d
    → d.acc.n < 2 ^ 64
    → h.acc.n + (d.acc.n - d.last.n) < 2 ^ 64
    → Tallied (absorb h d) × ((absorb h d).acc.n ≡ h.acc.n + (d.acc.n - d.last.n))
unfolding absorb add_stat
absorb-Tallied h d th td small fits =
    let gained : u64 (h.acc.n + sub64 d.acc.n d.last.n) ≡ h.acc.n + (d.acc.n - d.last.n) =
      omega (arith, td.total) in
    (
      record {
        size = cc (length-add_buckets h.buckets d.buckets, th.size);
        total = omega (
          arith,
          gained,
          sum-add_buckets h.buckets d.buckets (omega (arith, th.size, td.size))
              (omega (arith, th.total, td.total)),
          th.total,
          td.total,
        );
        on = th.on;
      },
      gained,
    )

module _ (d : IaHistogram) (g g' : Global) (t : Tallied (g'.per_bench d.bench))
    (gained : (g'.per_bench d.bench).acc.n
      ≡ (g.per_bench d.bench).acc.n + (d.acc.n - d.last.n)) where
  -- Counters, times and the doer's position may change.
  kept :
      (d' : IaHistogram) (g2 : Global)
      → d'.acc ≡ d.acc
      → d'.last ≡ d.last
      → d'.buckets ≡ d.buckets
      → d'.bench ≡ d.bench
      → g2.per_bench ≡ g'.per_bench
      → Merged d g (d', g2)
  kept d' g2 acc last buckets bench same = record {
    same_acc = acc;
    same_last = last;
    same_buckets = buckets;
    same_bench = bench;
    tallied = subst (λ p. Tallied (p d.bench)) (sym same) t;
    gained =
        subst (λ p. (p d.bench).acc.n ≡ (g.per_bench d.bench).acc.n + (d.acc.n - d.last.n))
          (sym same) gained;
  }

  write-Merged :
      (now merged : ℕ)
      → OnReturn (Merged d g) (
          write_checkpoint now (record g' { doers_merged = merged }) >>= λ r.
          returned (advance_evo d r))
  unfolding write_checkpoint advance_evo
  write-Merged now merged =
      let (settled, same) = settle-Tallied (g'.per_bench d.bench) t in
      elim (Bool-cases (g'.doers_active == merged)) [
        | inl even ↦ rw even record {
          same_acc = refl;
          same_last = refl;
          same_buckets = refl;
          same_bench = refl;
          tallied = settled;
          gained = same ∙ gained;
        }
        | inr odd ↦ rw odd tt
      ]

  -- The checkpoint keeps what the benchmarks have counted.
  checkpoint-Merged :
      (clock now : ℕ)
      → OnReturn
          (Merged d g)
          (ia_histogram_checkpoint clock now g' >>= λ r. returned (advance_evo d r))
  unfolding ia_histogram_checkpoint advance_evo
  checkpoint-Merged clock now = elim (Bool-cases (now == 0)) [
    | inl untimed ↦ rw untimed (write-Merged clock g'.doers_merged)
    | inr timed ↦ elim (Bool-cases (ltb (sub64 now g'.checkpoint_ns) interval_stat)) [
      | inl early ↦ rw (timed, early) (kept d g' refl refl refl refl refl)
      | inr due ↦ elim (Bool-cases (ltb (g'.doers_merged + 1) g'.doers_active)) [
        | inl waits ↦
            rw (timed, due, waits)
              (kept (record d { merge_evo = d.merge_evo + 1 })
                (record g' { doers_merged = g'.doers_merged + 1 }) refl refl refl refl refl)
        | inr last ↦ rw (timed, due, last) (write-Merged now (g'.doers_merged + 1))
      ]
    ]
  ]

pub merge_locked-Merged :
    (clock now : ℕ) (d : IaHistogram) (g : Global)
    → TalliedSince d
    → Tallied (g.per_bench d.bench)
    → d.acc.n < 2 ^ 64
    → (g.per_bench d.bench).acc.n + (d.acc.n - d.last.n) < 2 ^ 64
    → OnReturn (Merged d g) (ia_histogram_merge_locked clock now d g)
unfolding ia_histogram_merge_locked
merge_locked-Merged clock now d g td th small fits =
    elim (Bool-cases (not ((g.per_bench d.bench).enabled == 0) && not (d.acc.n == d.last.n))) [
      | inr idle ↦ rw idle (kept d g g th (ground (arith, th.on)) d g refl refl refl refl refl)
      | inl merges ↦ elim (Bool-cases (d.merge_evo == g.merge_evo)) [
        | inr elsewhere ↦
            rw (merges, elsewhere) (kept d g merged_into t n d merged_into refl refl refl refl refl)
        | inl here ↦ rw (merges, here) (checkpoint-Merged d g merged_into t n clock now)
      ]
    ]
  where
    absorbed : IaHistogram
    absorbed = absorb (g.per_bench d.bench) d

    merged_into : Global
    merged_into = record g { per_bench = update g.per_bench d.bench absorbed }

    is_absorbed : merged_into.per_bench d.bench ≡ absorbed
    is_absorbed = update_self g.per_bench d.bench absorbed

    t : Tallied (merged_into.per_bench d.bench)
    t = subst Tallied (sym is_absorbed) (absorb-Tallied (g.per_bench d.bench) d th td small fits).0

    n : (merged_into.per_bench d.bench).acc.n ≡ (g.per_bench d.bench).acc.n + (d.acc.n - d.last.n)
    n = rw is_absorbed (absorb-Tallied (g.per_bench d.bench) d th td small fits).1
