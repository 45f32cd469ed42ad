-- ===== src/Histogram/Buckets/Search.antt =====
-- The search ends, and finds the one bucket whose bounds enclose the latency.
use native.Mathlib.Nat.{le_trans, le_of_eq, le_of_lt, le_refl, suc-add}
use ioarena.Base.{
  ℕ, zero, suc, ◌+◌, ◌-◌, ◌/◌, ◌^◌, ◌≤◌, ◌<◌, ◌≡◌, ◌⊎◌, inl, inr, refl, sym, ap, ◌∙◌, Bool, true,
  false, some, ltb, ◌==◌, if◌then◌else◌, arith, Bool-cases, ltb→lt, ltb→le, dec_lt,
}
use ioarena.Histogram.Buckets.{
  ia_histogram_buckets, st_histogram_count, bound, scan, search, find_bucket, printed_to,
}

-- The latency lies above the bound before bucket i and not above its own.
pub record Encloses (bound : ℕ → ℕ) (latency i : ℕ) : Type 0 where
  pub above : (i ≡ 0) ⊎ (bound (i - 1) < latency)
  pub within : latency ≤ bound i

module _ (bound : ℕ → ℕ) (latency : ℕ) where
  scan-Encloses :
      (rounds begin : ℕ)
      → (begin ≡ 0) ⊎ (bound (begin - 1) < latency)
      → latency ≤ bound (begin + rounds)
      → Encloses bound latency (scan bound latency rounds begin)
        × (scan bound latency rounds begin ≤ begin + rounds)
  unfolding scan
  scan-Encloses zero begin low high =
      let here : begin + 0 ≡ begin = omega arith in
      (record { above = low; within = rw here at high }, omega arith)
  scan-Encloses (suc rounds) begin low high =
      elim (Bool-cases (ltb (bound (begin + rounds)) latency)) [
        | inl found ↦
            let one_below : begin + suc rounds - 1 ≡ begin + rounds = omega arith in
            rw found
              (record { above = inr (rw one_below (ltb→lt _ _ found)); within = high }, omega arith)
        | inr further ↦
            let (encloses, le) = scan-Encloses rounds begin low (ltb→le _ _ further) in
            rw further (encloses, omega (arith, le))
      ]

  search-Encloses :
      (top : ℕ)
      → ((i : ℕ) → i < top → bound i ≤ bound (suc i))
      → (fuel begin end : ℕ) → begin < end
      → end ≤ top
      → end < begin + fuel
      → (begin ≡ 0) ⊎ (bound (begin - 1) < latency)
      → latency ≤ bound end
      → (i : ℕ) × (search bound latency fuel begin end ≡ some i)
        × Encloses bound latency i
        × (i ≤ end)
  unfolding search
  search-Encloses top sorted zero begin end lt le enough low high = absurd (omega arith)
  search-Encloses top sorted (suc fuel) begin end lt le enough low high =
      let mid = begin / 2 + end / 2 in
      elim (Bool-cases (mid == begin)) [
        | inl met ↦
            let whole : begin + (end - begin) ≡ end = omega arith in
            let (encloses, bounded) = scan-Encloses (end - begin) begin low (rw whole high) in
            (
              scan bound latency (end - begin) begin,
              rw (met, search) refl,
              encloses,
              omega (arith, bounded),
            )
        | inr apart ↦
            let inside : (begin < mid) × (mid < end) = ground arith in
            elim (Bool-cases (ltb (bound (mid - 1)) latency)) [
              | inl above ↦
                  let (i, e, encloses, bounded) =
                    search-Encloses top sorted fuel mid end inside.1 le (omega (arith, inside.0))
                      (inr (ltb→lt _ _ above)) high in
                  (i, rw (apart, search) (rw above e), encloses, bounded)
              | inr under ↦
                  let previous : suc (mid - 1) ≡ mid = omega (arith, inside.0) in
                  let step : bound (mid - 1) ≤ bound mid =
                    rw previous at (sorted (mid - 1) (omega (arith, inside))) in
                  let (i, e, encloses, bounded) =
                    search-Encloses top sorted fuel begin mid inside.0 (omega (arith, inside))
                      (omega (arith, inside)) low (le_trans (ltb→le _ _ under) step) in
                  (i, rw (apart, search) (rw under e), encloses, omega (arith, bounded, inside))
            ]
      ]

  mono :
      (top : ℕ)
      → ((i : ℕ) → i < top → bound i ≤ bound (suc i))
      → (n i : ℕ) → n + i ≤ top
      → bound i ≤ bound (n + i)
  mono top sorted zero i h = le_of_eq (ap bound (omega arith))
  mono top sorted (suc n) i h =
      le_trans (mono top sorted n i (omega arith)) (rw suc-add (sorted (n + i) (omega arith)))

  not_before :
      (top : ℕ)
      → ((i : ℕ) → i < top → bound i ≤ bound (suc i))
      → (i j : ℕ) → j ≤ top
      → Encloses bound latency i
      → Encloses bound latency j
      → ¬ (i < j)
  not_before top sorted i j hj ei ej h =
      let gap : j - 1 - i + i ≡ j - 1 = omega arith in
      let rises : bound i ≤ bound (j - 1) =
        rw gap at (mono top sorted (j - 1 - i) i (omega arith)) in
      omega (arith, ei.within, ej.above, rises)

  -- At most one bucket encloses a latency.
  Encloses-unique :
      (top : ℕ)
      → ((i : ℕ) → i < top → bound i ≤ bound (suc i))
      → (i j : ℕ) → i ≤ top
      → j ≤ top
      → Encloses bound latency i
      → Encloses bound latency j
      → i ≡ j
  Encloses-unique top sorted i j hi hj ei ej =
      omega (arith, not_before top sorted i j hj ei ej, not_before top sorted j i hi ej ei)

-- Whether the first n bounds rise strictly.
rising : ℕ → Bool
rising zero = true
rising (suc n) = if ltb (bound n) (bound (suc n)) then rising n else false

rising_at : (n i : ℕ) → rising n ≡ true → i < n → bound i < bound (suc i)
unfolding rising
rising_at zero i h below = absurd (omega arith)
rising_at (suc n) i h below = elim (dec_lt i n) [
  | yes earlier ↦ rising_at n i (ground arith) earlier
  | no latest ↦ let last : i ≡ n = omega arith in rw last (ltb→lt _ _ (ground arith))
]

abbrev last_bucket : ℕ
last_bucket = st_histogram_count - 1

bounds_rise : (i : ℕ) → i < last_bucket → bound i < bound (suc i)
unfolding rising bound ia_histogram_buckets
bounds_rise i h = rising_at last_bucket i refl h

last_bound : bound last_bucket ≡ 2 ^ 64 - 1
unfolding bound ia_histogram_buckets
last_bound = refl

-- For each 64-bit latency the search ends and finds a bucket of the table, the latency is not above
-- its bound and, but in bucket 0, above the bound before it, and no other bucket is so.
pub find_bucket-Encloses :
    (latency : ℕ)
    → latency < 2 ^ 64
    → (i : ℕ) × (find_bucket latency ≡ some i)
      × Encloses bound latency i
      × (i < st_histogram_count)
      × ((j : ℕ) → j < st_histogram_count → Encloses bound latency j → j ≡ i)
unfolding find_bucket
find_bucket-Encloses latency h =
    let (i, found, encloses, le) =
      search-Encloses bound latency last_bucket sorted st_histogram_count 0 last_bucket
        (omega arith) (omega arith) (omega arith) (inl refl) (omega (arith, last_bound)) in
    (
      i,
      found,
      encloses,
      omega (arith, le),
      λ j hj ej. Encloses-unique bound latency last_bucket sorted j i (omega arith) le ej encloses,
    )
  where
    sorted : (k : ℕ) → k < last_bucket → bound k ≤ bound (suc k)
    sorted k hk = le_of_lt (bounds_rise k hk)

-- A latency that equals the bound of a bucket is counted in that bucket, but lies above the range
-- that `ia_histogram_print` shows for it.
pub bound-printed_outside :
    (i : ℕ) → i < st_histogram_count → (find_bucket (bound i) ≡ some i) × (printed_to i < bound i)
unfolding printed_to
bound-printed_outside i h =
    let (j, found, _, _, only) = find_bucket-Encloses (bound i) below_top in
    (found ∙ ap some (sym (only i h own)), omega (arith, first, lowest))
  where
    sorted : (k : ℕ) → k < last_bucket → bound k ≤ bound (suc k)
    sorted k hk = le_of_lt (bounds_rise k hk)

    highest : bound i ≤ bound last_bucket
    highest =
        let gap : last_bucket - i + i ≡ last_bucket = omega arith in
        rw gap at (mono bound (bound i) last_bucket sorted (last_bucket - i) i (omega arith))

    lowest : bound 0 ≤ bound i
    lowest =
        let gap : i + 0 ≡ i = omega arith in
        rw gap at (mono bound (bound i) last_bucket sorted i 0 (omega arith))

    first : bound 0 ≡ 9
    first = unfold bound ia_histogram_buckets in refl

    below_top : bound i < 2 ^ 64
    below_top = omega (arith, highest, last_bound)

    own : Encloses bound (bound i) i
    own = record { above = below_own i h; within = le_refl (bound i) }
      where
        below_own : (k : ℕ) → k < st_histogram_count → (k ≡ 0) ⊎ (bound (k - 1) < bound k)
        below_own zero hk = inl refl
        below_own (suc k) hk =
            let back : suc k - 1 ≡ k = omega arith in inr (rw back (bounds_rise k (omega arith)))
