-- ===== src/Histogram/Tally/Sums.antt =====
-- Sums of the buckets of src/ia_histogram.c, none of which wraps.
use ioarena.Base.{
  ℕ, zero, suc, ◌+◌, ◌^◌, ◌<◌, ◌≡◌, refl, List, [], ◌∷◌, length, get_or, set, replicate, u64, arith,
}
use ioarena.Histogram.Merge.{add_buckets}

abbrev pub sum : List ℕ → ℕ
sum [] = 0
sum (x ∷ xs) = x + sum xs

pub sum-replicate_zero : (n : ℕ) → sum (replicate n 0) ≡ 0
sum-replicate_zero zero = refl
sum-replicate_zero (suc n) = omega (arith, sum-replicate_zero n)

pub sum-count_in :
    (xs : List ℕ) (i : ℕ)
    → i < length xs
    → sum xs + 1 < 2 ^ 64
    → sum (set xs i (u64 (get_or xs i 0 + 1))) ≡ sum xs + 1
sum-count_in [] i h fits = elim h [ ]
sum-count_in (x ∷ xs) zero h fits = omega arith
sum-count_in (x ∷ xs) (suc i) h fits = omega (arith, sum-count_in xs i (omega arith) (omega arith))

pub sum-add_buckets :
    (xs ys : List ℕ)
    → length xs ≡ length ys
    → sum xs + sum ys < 2 ^ 64
    → sum (add_buckets xs ys) ≡ sum xs + sum ys
unfolding add_buckets
sum-add_buckets [] [] same fits = refl
sum-add_buckets [] (y ∷ ys) same fits = absurd (omega arith)
sum-add_buckets (x ∷ xs) [] same fits = absurd (omega arith)
sum-add_buckets (x ∷ xs) (y ∷ ys) same fits =
    omega (arith, sum-add_buckets xs ys (omega arith) (omega arith))

pub length-add_buckets : (xs ys : List ℕ) → length (add_buckets xs ys) ≡ length xs
unfolding add_buckets
length-add_buckets [] ys = refl
length-add_buckets (x ∷ xs) [] = refl
length-add_buckets (x ∷ xs) (y ∷ ys) = omega (arith, length-add_buckets xs ys)
