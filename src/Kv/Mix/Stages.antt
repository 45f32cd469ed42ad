-- ===== src/Kv/Mix/Stages.antt =====
-- The stages of `kv_mod2n_injection` of src/ia_kv.c, each of which can be undone.
use native.Mathlib.Nat.{
  div-add-mod', pow-suc, add-mul-mod_self_right, mod-mod, mod-lt, one-le-pow, le_refl,
}
use ioarena.Base.{
  ℕ, zero, suc, ◌+◌, ◌*◌, ◌/◌, ◌^◌, ◌≤◌, ◌<◌, ◌≡◌, sym, ap, ap₂, ◌∙◌, low_bits, shl, shr, bit_xor,
  arith,
}
use ioarena.Base.Xor.{xor_step, xor-mod, mod-mod_pow, xor-lt, xor_right_cancel}
use ioarena.Kv.Mix.{stir}

-- y ^ (y >> 1) determines y: from the highest digit down.
shr_below : (n a b : ℕ) → a ≤ n → b ≤ n → bit_xor a (shr a 1) ≡ bit_xor b (shr b 1) → a ≡ b
shr_below zero a b p q e = omega arith
shr_below (suc n) a b p q e =
    let step_a = xor_step a (shr a 1) in
    let step_b = xor_step b (shr b 1) in
    let halves : a / 2 ≡ b / 2 =
      shr_below n (a / 2) (b / 2) (omega arith) (omega arith) (omega (arith, step_a, step_b)) in
    ground arith

-- What is shifted left by one at least needs one digit less.
low-shl :
    (j k a : ℕ) → low_bits (shl a (suc k)) (suc j) ≡ low_bits (shl (low_bits a j) (suc k)) (suc j)
low-shl j k a =
    ap (λ t. low_bits t (suc j)) split
    ∙ add-mul-mod_self_right (shl (low_bits a j) (suc k)) (a / 2 ^ j * 2 ^ k) (2 ^ suc j)
  where
    split : shl a (suc k) ≡ shl (low_bits a j) (suc k) + a / 2 ^ j * 2 ^ k * 2 ^ suc j
    split = omega (
      arith,
      ap (λ t. a * t) (pow-suc 2 k),
      ap (λ t. low_bits a j * t) (pow-suc 2 k),
      ap (λ t. a / 2 ^ j * 2 ^ k * t) (pow-suc 2 j),
      ap (λ t. t * 2 ^ k) (div-add-mod' a (2 ^ j)),
    )

-- (y ^ (y << k)) mod 2^n determines y mod 2^j for each j: from the lowest digit up.
shl_below :
    (n k a b : ℕ)
    → low_bits (bit_xor a (shl a (suc k))) n ≡ low_bits (bit_xor b (shl b (suc k))) n
    → (j : ℕ) → j ≤ n
    → low_bits a j ≡ low_bits b j
shl_below n k a b e zero h = omega arith
shl_below n k a b e (suc j) h =
    xor_right_cancel (low_bits (shl a (suc k)) (suc j)) (low_bits a (suc j)) (low_bits b (suc j)) (
      sym (xor-mod (suc j) a (shl a (suc k)))
      ∙ sym (mod-mod_pow n (suc j) _ h)
      ∙ ap (λ t. low_bits t (suc j)) e
      ∙ mod-mod_pow n (suc j) _ h
      ∙ xor-mod (suc j) b (shl b (suc k))
      ∙ ap (bit_xor (low_bits b (suc j))) (
          low-shl j k b
          ∙ ap (λ t. low_bits (shl t (suc k)) (suc j)) (sym (shl_below n k a b e j (omega arith)))
          ∙ sym (low-shl j k a)))

-- Multiplication sees the low digits only.
low-mul : (bits m z : ℕ) → low_bits (z * m) bits ≡ low_bits (low_bits z bits * m) bits
low-mul bits m z =
    ap (λ t. low_bits t bits) split
    ∙ add-mul-mod_self_right (low_bits z bits * m) (z / 2 ^ bits * m) (2 ^ bits)
  where
    split : z * m ≡ low_bits z bits * m + z / 2 ^ bits * m * 2 ^ bits
    split = omega (arith, ap (λ t. t * m) (div-add-mod' z (2 ^ bits)))

-- So does y ^ (y << k).
low-xor-shl :
    (bits k z : ℕ)
    → low_bits (bit_xor z (shl z k)) bits
      ≡ low_bits (bit_xor (low_bits z bits) (shl (low_bits z bits) k)) bits
low-xor-shl bits k z =
    xor-mod bits z (shl z k)
    ∙ ap₂ bit_xor (sym (mod-mod z (2 ^ bits))) (low-mul bits (2 ^ k) z)
    ∙ sym (xor-mod bits (low_bits z bits) (shl (low_bits z bits) k))

-- The first two lines of a case: the low bits of x, stirred to the right.
abbrev right_stirred : ℕ → ℕ → ℕ
right_stirred bits x = bit_xor (low_bits x bits) (shr (low_bits x bits) 1)

pub low_bits-lt : (bits x : ℕ) → low_bits x bits < 2 ^ bits
low_bits-lt bits x = mod-lt x (one-le-pow bits 2 (omega arith))

right_stirred-lt : (bits x : ℕ) → right_stirred bits x < 2 ^ bits
right_stirred-lt bits x =
    xor-lt bits (low_bits x bits) (shr (low_bits x bits) 1) (low_bits-lt bits x)
      (omega (arith, low_bits-lt bits x))

-- One case of the switch is injective on its low bits, if the factor has an inverse and the
-- variable is no narrower than they are.
module _ (word bits factor inverse left : ℕ) (wide : bits ≤ word)
    (inverts : (y : ℕ)
      → y < 2 ^ bits
      → low_bits (low_bits (y * factor) bits * inverse) bits ≡ y) where
  abbrev product : ℕ → ℕ
  product x = low_bits (right_stirred bits x * factor) bits

  stir_low :
      (x : ℕ)
      → stir word bits factor (suc left) x
        ≡ low_bits (bit_xor (product x) (shl (product x) (suc left))) bits
  unfolding stir
  stir_low x =
      mod-mod_pow word bits _ wide
      ∙ low-xor-shl bits (suc left) (low_bits (right_stirred bits x * factor) word)
      ∙ ap (λ z. low_bits (bit_xor z (shl z (suc left))) bits)
          (mod-mod_pow word bits (right_stirred bits x * factor) wide)

  product_injective : (x y : ℕ) → product x ≡ product y → low_bits x bits ≡ low_bits y bits
  product_injective x y e =
      shr_below (2 ^ bits) (low_bits x bits) (low_bits y bits) (omega (arith, low_bits-lt bits x))
        (omega (arith, low_bits-lt bits y))
        (sym (inverts (right_stirred bits x) (right_stirred-lt bits x))
          ∙ ap (λ t. low_bits (t * inverse) bits) e
          ∙ inverts (right_stirred bits y) (right_stirred-lt bits y))

  pub stir_injective :
      (x y : ℕ)
      → stir word bits factor (suc left) x ≡ stir word bits factor (suc left) y
      → low_bits x bits ≡ low_bits y bits
  stir_injective x y e = product_injective x y (
      sym (mod-mod (right_stirred bits x * factor) (2 ^ bits))
      ∙ shl_below bits left (product x) (product y) (sym (stir_low x) ∙ e ∙ stir_low y) bits
          (le_refl bits)
      ∙ mod-mod (right_stirred bits y * factor) (2 ^ bits))

pub inverts_2 : (y : ℕ) → y < 2 ^ 16 → low_bits (low_bits (y * 25693) 16 * 36853) 16 ≡ y
inverts_2 y h = omega arith

pub inverts_3 : (y : ℕ) → y < 2 ^ 24 → low_bits (low_bits (y * 5537317) 24 * 1928621) 24 ≡ y
inverts_3 y h = omega arith

pub inverts_4 : (y : ℕ) → y < 2 ^ 32 → low_bits (low_bits (y * 1923730889) 32 * 406707321) 32 ≡ y
inverts_4 y h = omega arith

pub inverts_5 :
    (y : ℕ) → y < 2 ^ 40 → low_bits (low_bits (y * 274992889273) 40 * 1078796253321) 40 ≡ y
inverts_5 y h = omega arith

pub inverts_6 :
    (y : ℕ) → y < 2 ^ 48 → low_bits (low_bits (y * 70375646670269) 48 * 31633225217429) 48 ≡ y
inverts_6 y h = omega arith

pub inverts_7 :
    (y : ℕ) → y < 2 ^ 56 → low_bits (low_bits (y * 23022548244171181) 56 * 70172996979737125) 56 ≡ y
inverts_7 y h = omega arith

pub inverts_8 :
    (y : ℕ)
    → y < 2 ^ 64
    → low_bits (low_bits (y * 4613509448041658233) 64 * 6994659384994251465) 64 ≡ y
inverts_8 y h = omega arith
