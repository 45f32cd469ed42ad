-- ===== src/Kv/Sbox.antt =====
-- The substitution table of src/ia_kv.c: `sbox` and `kv_sbox_init`. `rand_r` belongs to the C
-- library and is a parameter: it takes the seed and gives a number and the new seed.
pub mod Loops
use ioarena.Base.{
  ℕ, zero, suc, ◌+◌, ◌%◌, ◌^◌, ◌<◌, ◌≡◌, List, length, get_or, set, u16, low_bits, bit_xor,
}

abbrev pub sbox_size : ℕ
sbox_size = 2048

abbrev pub at : List ℕ → ℕ → ℕ
at s i = get_or s i 0

-- for (; i < end; ++i) sbox[i] = i, with `end - i` rounds left
pub fill_loop : ℕ → ℕ → List ℕ → List ℕ
fill_loop zero i s = s
fill_loop (suc left) i s = fill_loop left (i + 1) (set s i (u16 i))

-- One round of the shuffle: two entries are exchanged by exclusive or.
pub exchange : ℕ → ℕ → List ℕ → List ℕ
exchange i n s =
    let x = bit_xor (at s i) (at s n) in
    let s' = set s i (u16 (bit_xor (at s i) x)) in set s' n (u16 (bit_xor (at s' n) x))

module _ (rand_r : ℕ → ℕ × ℕ) where
  pub shuffle_loop : ℕ → ℕ → ℕ → List ℕ → List ℕ
  shuffle_loop zero i seed s = s
  shuffle_loop (suc left) i seed s =
      let (r, seed') = rand_r seed in
      shuffle_loop left (i + 1) seed' (exchange i (low_bits (r % 280583) 11) s)

-- for (; i < end; ++i) sbox[i] ^= i
pub fold_loop : ℕ → ℕ → List ℕ → List ℕ
fold_loop zero i s = s
fold_loop (suc left) i s = fold_loop left (i + 1) (set s i (u16 (bit_xor (at s i) i)))

pub kv_sbox_init : (ℕ → ℕ × ℕ) → ℕ → List ℕ → List ℕ
kv_sbox_init rand_r seed s =
    fold_loop sbox_size 0 (shuffle_loop rand_r sbox_size 0 seed (fill_loop sbox_size 0 s))

-- What the rest of the generator needs of the table: entries are below the size, and the
-- substitution x ^ sbox[x] permutes the indices.
pub record IsSbox (s : List ℕ) : Type 0 where
  pub small : (i : ℕ) → i < sbox_size → at s i < sbox_size
  pub distinct :
      (i j : ℕ) → i < sbox_size → j < sbox_size → bit_xor i (at s i) ≡ bit_xor j (at s j) → i ≡ j
