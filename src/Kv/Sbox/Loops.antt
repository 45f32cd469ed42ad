-- ===== src/Kv/Sbox/Loops.antt =====
-- What the three loops of `kv_sbox_init` do to each entry, and that the table is an sbox.
use ioarena.Base.{
  ℕ, zero, suc, ◌+◌, ◌%◌, ◌^◌, ◌≤◌, ◌<◌, ◌≡◌, refl, sym, ap, ℕ_discrete, ◌∙◌, dec_lt, List, length,
  set, length-set, get_or-set_self, get_or-set_ne, u16, low_bits, bit_xor, arith, if◌then◌else◌,
  ◌==◌,
}
use native.Mathlib.Nat.{mod-eq_of_lt}
use ioarena.Base.Xor.{xor-lt, xor-xor_cancel, xor_comm}
use ioarena.Kv.Sbox.{
  sbox_size, at, fill_loop, exchange, shuffle_loop, fold_loop, kv_sbox_init, IsSbox,
}

length-fill_loop : (left i : ℕ) (s : List ℕ) → length (fill_loop left i s) ≡ length s
unfolding fill_loop
length-fill_loop zero i s = refl
length-fill_loop (suc left) i s =
    length-fill_loop left (i + 1) (set s i (u16 i)) ∙ length-set s i (u16 i)

fill_loop-below : (left i : ℕ) (s : List ℕ) (k : ℕ) → k < i → at (fill_loop left i s) k ≡ at s k
unfolding fill_loop
fill_loop-below zero i s k h = refl
fill_loop-below (suc left) i s k h =
    fill_loop-below left (i + 1) (set s i (u16 i)) k (omega arith)
    ∙ get_or-set_ne s i k (u16 i) 0 (omega arith)

-- After the first loop entry k is k.
at-fill_loop :
    (left i : ℕ) (s : List ℕ) (k : ℕ)
    → i + left ≤ length s
    → i + left ≤ 2 ^ 16
    → i ≤ k
    → k < i + left
    → at (fill_loop left i s) k ≡ k
unfolding fill_loop
at-fill_loop zero i s k h small p q = absurd (omega arith)
at-fill_loop (suc left) i s k h small p q = elim (dec_lt i k) [
  | yes above ↦
      at-fill_loop left (i + 1) (set s i (u16 i)) k (omega (arith, length-set s i (u16 i)))
        (omega arith) (omega arith) (omega arith)
  | no not_above ↦
      let k_is_i : k ≡ i = omega arith in
      fill_loop-below left (i + 1) (set s i (u16 i)) k (omega arith)
      ∙ rw k_is_i (get_or-set_self s i (u16 i) 0 (omega arith) ∙ omega arith)
]

-- The table is a permutation of its n indices.
record IsPerm (n : ℕ) (s : List ℕ) : Type 0 where
  size : length s ≡ n
  small : (i : ℕ) → i < n → at s i < n
  injective : (i j : ℕ) → i < n → j < n → at s i ≡ at s j → i ≡ j

-- The index whose entry lands at k when i and n are exchanged.
abbrev other : ℕ → ℕ → ℕ → ℕ
other i n k = if k == n then i else if k == i then n else k

left_cancel : (a b : ℕ) → bit_xor a (bit_xor a b) ≡ b
left_cancel a b =
    xor_comm a (bit_xor a b) ∙ ap (λ t. bit_xor t a) (xor_comm a b) ∙ xor-xor_cancel b a

-- The two values that `exchange` writes.
abbrev first : ℕ → ℕ → List ℕ → ℕ
first i n s = u16 (bit_xor (at s i) (bit_xor (at s i) (at s n)))

abbrev second : ℕ → ℕ → List ℕ → ℕ
second i n s = u16 (bit_xor (at (set s i (first i n s)) n) (bit_xor (at s i) (at s n)))

module _ (i n : ℕ) (s : List ℕ) (hi : i < length s) (hn : n < length s) (bi : at s i < 2 ^ 16)
    (bn : at s n < 2 ^ 16) where
  first_lem : first i n s ≡ at s n
  first_lem = ap u16 (left_cancel (at s i) (at s n)) ∙ mod-eq_of_lt bn

  kept_lem : at (set s i (first i n s)) n ≡ at s n
  kept_lem = elim (ℕ_discrete i n) [
    | yes e ↦
        ap (at (set s i (first i n s))) (sym e) ∙ get_or-set_self s i (first i n s) 0 hi ∙ first_lem
    | no ne ↦ get_or-set_ne s i n (first i n s) 0 ne
  ]

  second_lem : second i n s ≡ at s i
  second_lem =
      ap (λ t. u16 (bit_xor t (bit_xor (at s i) (at s n)))) kept_lem
      ∙ ap u16 (xor_comm (at s n) (bit_xor (at s i) (at s n)) ∙ xor-xor_cancel (at s i) (at s n))
      ∙ mod-eq_of_lt bi

  at-exchange : (k : ℕ) → at (exchange i n s) k ≡ at s (other i n k)
  unfolding exchange
  at-exchange k = elim (ℕ_discrete n k) [
    | yes e ↦
        ap (at (exchange i n s)) (sym e)
        ∙ get_or-set_self (set s i (first i n s)) n (second i n s) 0 (rw length-set hn)
        ∙ second_lem
        ∙ ground arith
    | no ne ↦
        get_or-set_ne (set s i (first i n s)) n k (second i n s) 0 ne ∙ elim (ℕ_discrete i k) [
          | yes e ↦
              ap (at (set s i (first i n s))) (sym e)
              ∙ get_or-set_self s i (first i n s) 0 hi
              ∙ first_lem
              ∙ ground arith
          | no ne' ↦ get_or-set_ne s i k (first i n s) 0 ne' ∙ ground arith
        ]
  ]

length-exchange : (i n : ℕ) (s : List ℕ) → length (exchange i n s) ≡ length s
unfolding exchange
length-exchange i n s =
    length-set (set s i (first i n s)) n (second i n s) ∙ length-set s i (first i n s)

exchange-IsPerm :
    (m i n : ℕ) (s : List ℕ) → m ≤ 2 ^ 16 → i < m → n < m → IsPerm m s → IsPerm m (exchange i n s)
exchange-IsPerm m i n s small hi hn p = record {
  size = length-exchange i n s ∙ p.size;
  small = λ k hk. rw moved (p.small (other i n k) (ground arith));
  injective = λ j k hj hk e. ground (
    arith,
    p.injective (other i n j) (other i n k) (ground arith) (ground arith)
        (sym (moved j) ∙ e ∙ moved k),
  );
}
  where
    moved : (k : ℕ) → at (exchange i n s) k ≡ at s (other i n k)
    moved =
        at-exchange i n s (omega (arith, p.size)) (omega (arith, p.size))
          (omega (arith, p.small i hi)) (omega (arith, p.small n hn))

shuffle_loop-IsPerm :
    (rand_r : ℕ → ℕ × ℕ) (left i seed : ℕ) (s : List ℕ)
    → i + left ≤ sbox_size
    → IsPerm sbox_size s
    → IsPerm sbox_size (shuffle_loop rand_r left i seed s)
unfolding shuffle_loop
shuffle_loop-IsPerm rand_r zero i seed s h p = p
shuffle_loop-IsPerm rand_r (suc left) i seed s h p =
    shuffle_loop-IsPerm rand_r left (i + 1) (rand_r seed).1
      (exchange i (low_bits ((rand_r seed).0 % 280583) 11) s) (omega arith)
      (exchange-IsPerm sbox_size i (low_bits ((rand_r seed).0 % 280583) 11) s (omega arith)
        (omega arith) (omega arith) p)

fold_loop-below : (left i : ℕ) (s : List ℕ) (k : ℕ) → k < i → at (fold_loop left i s) k ≡ at s k
unfolding fold_loop
fold_loop-below zero i s k h = refl
fold_loop-below (suc left) i s k h =
    fold_loop-below left (i + 1) (set s i (u16 (bit_xor (at s i) i))) k (omega arith)
    ∙ get_or-set_ne s i k (u16 (bit_xor (at s i) i)) 0 (omega arith)

-- After the last loop entry k is its old value, folded with k.
at-fold_loop :
    (left i : ℕ) (s : List ℕ) (k : ℕ)
    → i + left ≤ length s
    → i ≤ k
    → k < i + left
    → at (fold_loop left i s) k ≡ u16 (bit_xor (at s k) k)
unfolding fold_loop
at-fold_loop zero i s k h p q = absurd (omega arith)
at-fold_loop (suc left) i s k h p q = elim (dec_lt i k) [
  | yes above ↦
      at-fold_loop left (i + 1) (set s i (u16 (bit_xor (at s i) i))) k
        (omega (arith, length-set s i (u16 (bit_xor (at s i) i)))) (omega arith) (omega arith)
      ∙ ap (λ t. u16 (bit_xor t k)) (get_or-set_ne s i k (u16 (bit_xor (at s i) i)) 0 (omega arith))
  | no not_above ↦
      let k_is_i : k ≡ i = omega arith in
      fold_loop-below left (i + 1) (set s i (u16 (bit_xor (at s i) i))) k (omega arith)
      ∙ rw k_is_i (get_or-set_self s i (u16 (bit_xor (at s i) i)) 0 (omega arith))
]

filled-IsPerm : (s : List ℕ) → length s ≡ sbox_size → IsPerm sbox_size (fill_loop sbox_size 0 s)
filled-IsPerm s size = record {
  size = length-fill_loop sbox_size 0 s ∙ size;
  small = λ i h. omega (arith, filled i h);
  injective = λ i j hi hj e. sym (filled i hi) ∙ e ∙ filled j hj;
}
  where
    filled : (k : ℕ) → k < sbox_size → at (fill_loop sbox_size 0 s) k ≡ k
    filled k h =
        at-fill_loop sbox_size 0 s k (omega arith) (omega arith) (omega arith) (omega arith)

-- Folding a permutation with the indices gives an sbox.
folded-IsSbox : (t : List ℕ) → IsPerm sbox_size t → IsSbox (fold_loop sbox_size 0 t)
folded-IsSbox t p = record {
  small = λ i h. rw (folded i h) (small' i h);
  distinct = λ i j hi hj e. p.injective i j hi hj (sym (unfolded i hi) ∙ e ∙ unfolded j hj);
}
  where
    small' : (k : ℕ) → k < sbox_size → bit_xor (at t k) k < sbox_size
    small' k h = xor-lt 11 (at t k) k (p.small k h) h

    folded : (k : ℕ) → k < sbox_size → at (fold_loop sbox_size 0 t) k ≡ bit_xor (at t k) k
    folded k h =
        at-fold_loop sbox_size 0 t k (omega (arith, p.size)) (omega arith) (omega arith)
        ∙ mod-eq_of_lt (omega (arith, small' k h))

    unfolded : (k : ℕ) → k < sbox_size → bit_xor k (at (fold_loop sbox_size 0 t) k) ≡ at t k
    unfolded k h =
        ap (bit_xor k) (folded k h) ∙ xor_comm k (bit_xor (at t k) k) ∙ xor-xor_cancel (at t k) k

-- `kv_sbox_init` makes an sbox, whatever numbers `rand_r` gives and whatever the table of
-- `sbox_size` entries held before.
pub kv_sbox_init-IsSbox :
    (rand_r : ℕ → ℕ × ℕ) (seed : ℕ) (s : List ℕ)
    → length s ≡ sbox_size
    → IsSbox (kv_sbox_init rand_r seed s)
unfolding kv_sbox_init
kv_sbox_init-IsSbox rand_r seed s size =
    folded-IsSbox (shuffle_loop rand_r sbox_size 0 seed (fill_loop sbox_size 0 s)) (
      shuffle_loop-IsPerm rand_r sbox_size 0 seed (fill_loop sbox_size 0 s) (omega arith)
        (filled-IsPerm s size))
