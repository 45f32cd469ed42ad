-- ===== src/Histogram/Merge.antt =====
-- `ia_histogram_checkpoint`, `ia_histogram_merge_locked` and `ia_histogram_merge` of
-- src/ia_histogram.c, but for the lines that they print.
use ioarena.Base.{
  ℕ, ◌+◌, ◌-◌, ◌^◌, ◌==◌, Bool, List, [], ◌∷◌, ltb, not, ◌&&◌, ◌||◌, u64, if◌then◌else◌,
}
use ioarena.Time
use ioarena.Histogram.State.{
  IaStat, IaHistogram, no_latency, Global, Outcome, returned, fatal, ◌>>=◌, update,
}

-- a - b of uintmax_t
abbrev pub sub64 : ℕ → ℕ → ℕ
sub64 a b = u64 (a + 2 ^ 64 - b)

abbrev pub interval_stat : ℕ
interval_stat = Time.s

abbrev pub interval_merge : ℕ
interval_merge = 10000000

-- What a checkpoint of an enabled benchmark does to it once its line is written.
unfoldable pub settle : IaHistogram → IaHistogram
settle h = if h.enabled == 0 then h else record h {
  whole_min = (if ltb h.min h.whole_min then h.min else h.whole_min);
  min = no_latency;
  whole_max = (if ltb h.whole_max h.max then h.max else h.whole_max);
  max = 0;
  last = h.acc;
}

-- The result -1, 0 or 1 of a checkpoint.
pub data Verdict : Type 0 where
  too_early counted written : Verdict

-- From the comparison of the counts for equality on, at the time `now`.
unfoldable pub write_checkpoint : (now : ℕ) → Global → Outcome (Verdict × Global)
write_checkpoint now g =
    if g.doers_active == g.doers_merged
    then returned (
      written,
      record g {
        checkpoint_ns = now;
        per_bench = λ b. settle (g.per_bench b);
        doers_merged = 0;
        merge_evo = g.merge_evo + 1;
      },
    )
    else fatal

-- `ia_histogram_checkpoint`; `clock` is the time that it asks for if `now` is 0.
unfoldable pub ia_histogram_checkpoint : (clock now : ℕ) → Global → Outcome (Verdict × Global)
ia_histogram_checkpoint clock now g =
    let counting = record g { doers_merged = g.doers_merged + 1 } in
    if now == 0
    then write_checkpoint clock g
    else if ltb (sub64 now g.checkpoint_ns) interval_stat
    then returned (too_early, g)
    else if ltb counting.doers_merged g.doers_active
    then returned (counted, counting)
    else write_checkpoint now counting

-- dst->buckets[i] += src->buckets[i]
unfoldable pub add_buckets : List ℕ → List ℕ → List ℕ
add_buckets [] ys = []
add_buckets (x ∷ xs) [] = x ∷ xs
add_buckets (x ∷ xs) (y ∷ ys) = u64 (x + y) ∷ add_buckets xs ys

-- dst->acc += src->acc - src->last, in each field
unfoldable pub add_stat : IaStat → IaStat → IaStat → IaStat
add_stat dst acc last = record {
  latency_sum_ns = u64 (dst.latency_sum_ns + sub64 acc.latency_sum_ns last.latency_sum_ns);
  latency_sum_square =
      u64 (dst.latency_sum_square + sub64 acc.latency_sum_square last.latency_sum_square);
  n = u64 (dst.n + sub64 acc.n last.n);
  volume_sum = u64 (dst.volume_sum + sub64 acc.volume_sum last.volume_sum);
}

-- The benchmark's histogram with what `src` has gathered since its last merge.
unfoldable pub absorb : (dst src : IaHistogram) → IaHistogram
unfolding add_stat
absorb dst src = record dst {
  acc = add_stat dst.acc src.acc src.last;
  buckets = add_buckets dst.buckets src.buckets;
  begin_ns =
      (if dst.begin_ns == 0 || ltb src.begin_ns dst.begin_ns then src.begin_ns else dst.begin_ns);
  end_ns = (if ltb dst.end_ns src.end_ns then src.end_ns else dst.end_ns);
  min = (if ltb src.min dst.min then src.min else dst.min);
  max = (if ltb dst.max src.max then src.max else dst.max);
}

-- if (... && ia_histogram_checkpoint(now) >= 0) src->merge_evo += 1
unfoldable pub advance_evo : IaHistogram → Verdict × Global → IaHistogram × Global
advance_evo src (too_early, g) = (src, g)
advance_evo src (counted, g) = (record src { merge_evo = src.merge_evo + 1 }, g)
advance_evo src (written, g) = (record src { merge_evo = src.merge_evo + 1 }, g)

-- `ia_histogram_merge_locked`
unfoldable pub ia_histogram_merge_locked :
    (clock now : ℕ) → IaHistogram → Global → Outcome (IaHistogram × Global)
ia_histogram_merge_locked clock now src g =
    let dst = g.per_bench src.bench in
    let g' = record g { per_bench = update g.per_bench src.bench (absorb dst src) } in
    if not (dst.enabled == 0) && not (src.acc.n == src.last.n)
    then (if src.merge_evo == g.merge_evo
        then (ia_histogram_checkpoint clock now g' >>= λ r. returned (advance_evo src r))
        else returned (src, g'))
    else returned (src, g)

-- `ia_histogram_merge` at the time `now`; `locks` tells whether `pthread_mutex_lock` succeeds.
unfoldable pub ia_histogram_merge :
    (locks : Bool) (clock now : ℕ) → IaHistogram → Global → Outcome (IaHistogram × Global)
ia_histogram_merge locks clock now src g =
    if sub64 src.acc.n src.last.n == 0
    then returned (src, g)
    else if locks
    then ia_histogram_merge_locked clock now src g
    else fatal
