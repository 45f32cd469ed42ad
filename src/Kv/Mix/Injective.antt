-- ===== src/Kv/Mix/Injective.antt =====
-- `kv_mod2n_injection` is injective on the numbers of `8 * width` bits, for each width that
-- `ia_kvgen_setup` chooses: each stage can be undone.
use native.Mathlib.Nat.{mod-eq_of_lt, add-mul-mod_self_right, mod-add-mod, one-le-pow}
use ioarena.Base.{
  ℕ, zero, suc, ◌+◌, ◌-◌, ◌*◌, ◌%◌, ◌^◌, ◌≤◌, ◌<◌, ◌≡◌, sym, ap, ◌∙◌, List, u64, low_bits, bit_xor,
  arith,
}
use ioarena.Base.Xor.{xor-mod, mod-mod_pow, xor_right_cancel}
use ioarena.Kv.Sbox.{at, IsSbox}
use ioarena.Kv.Mix.{stir, stir_width, substitute, kv_mod2n_injection}
use ioarena.Kv.Mix.Stages.{
  inverts_6, inverts_2, inverts_3, inverts_8, inverts_4, inverts_5, inverts_7, stir_injective,
  low_bits-lt,
}

-- The widths that `ia_kvgen_setup` chooses.
abbrev pub IsWidth : ℕ → Type 0
IsWidth w = (2 ≤ w) × (w ≤ 8)

-- The switch is injective on `8 * w` bits.
stir_width_injective :
    (w x y : ℕ)
    → IsWidth w
    → stir_width w x ≡ stir_width w y
    → low_bits x (8 * w) ≡ low_bits y (8 * w)
unfolding stir_width
stir_width_injective zero x y h e = absurd (omega arith)
stir_width_injective (suc zero) x y h e = absurd (omega arith)
stir_width_injective (suc (suc zero)) x y h e =
    stir_injective 16 16 25693 36853 6 (omega arith) inverts_2 x y e
stir_width_injective (suc (suc (suc zero))) x y h e =
    stir_injective 32 24 5537317 1928621 11 (omega arith) inverts_3 x y e
stir_width_injective (suc (suc (suc (suc zero)))) x y h e =
    stir_injective 32 32 1923730889 406707321 14 (omega arith) inverts_4 x y e
stir_width_injective (suc (suc (suc (suc (suc zero))))) x y h e =
    stir_injective 64 40 274992889273 1078796253321 12 (omega arith) inverts_5 x y e
stir_width_injective (suc (suc (suc (suc (suc (suc zero)))))) x y h e =
    stir_injective 64 48 70375646670269 31633225217429 14 (omega arith) inverts_6 x y e
stir_width_injective (suc (suc (suc (suc (suc (suc (suc zero))))))) x y h e =
    stir_injective 64 56 23022548244171181 70172996979737125 3 (omega arith) inverts_7 x y e
stir_width_injective (suc (suc (suc (suc (suc (suc (suc (suc zero)))))))) x y h e =
    stir_injective 64 64 4613509448041658233 6994659384994251465 24 (omega arith) inverts_8 x y e
stir_width_injective (suc (suc (suc (suc (suc (suc (suc (suc (suc w))))))))) x y h e =
    absurd (omega arith)

substitute_low :
    (sbox : List ℕ) (b x : ℕ)
    → 11 ≤ b
    → low_bits (substitute sbox x) b ≡ bit_xor (low_bits x b) (low_bits (at sbox (low_bits x 11)) b)
unfolding substitute
substitute_low sbox b x h = xor-mod b x (at sbox (low_bits x 11))

-- The substitution is injective on the low b digits, if those hold the index into the table.
substitute_injective :
    (sbox : List ℕ)
    → IsSbox sbox
    → (b x y : ℕ) → 11 ≤ b
    → low_bits (substitute sbox x) b ≡ low_bits (substitute sbox y) b
    → low_bits x b ≡ low_bits y b
unfolding substitute
substitute_injective sbox s b x y h e =
    xor_right_cancel (low_bits (at sbox (low_bits x 11)) b) (low_bits x b) (low_bits y b) (
      sym (substitute_low sbox b x h)
      ∙ e
      ∙ substitute_low sbox b y h
      ∙ ap (λ t. bit_xor (low_bits y b) (low_bits (at sbox t) b)) (sym same_index))
  where
    low :
        (z : ℕ)
        → low_bits (substitute sbox z) b % 2 ^ 11
          ≡ bit_xor (low_bits z 11) (at sbox (low_bits z 11))
    low z =
        mod-mod_pow b 11 (substitute sbox z) h
        ∙ xor-mod 11 z (at sbox (low_bits z 11))
        ∙ ap (bit_xor (low_bits z 11)) (mod-eq_of_lt (s.small (low_bits z 11) (low_bits-lt 11 z)))

    same_index : low_bits x 11 ≡ low_bits y 11
    same_index =
        s.distinct (low_bits x 11) (low_bits y 11) (low_bits-lt 11 x) (low_bits-lt 11 y)
          (sym (low x) ∙ ap (λ t. t % 2 ^ 11) e ∙ low y)

-- Adding a constant modulo 2^64 is injective on the low b digits.
add_injective :
    (b c x y : ℕ)
    → b ≤ 64
    → low_bits (u64 (x + c)) b ≡ low_bits (u64 (y + c)) b
    → low_bits x b ≡ low_bits y b
add_injective b c x y h e = sym (undone x) ∙ ap (λ t. (t + rest) % 2 ^ b) sums ∙ undone y
  where
    rest : ℕ
    rest = c * (2 ^ b - 1)

    sums : (x + c) % 2 ^ b ≡ (y + c) % 2 ^ b
    sums = sym (mod-mod_pow 64 b (x + c) h) ∙ e ∙ mod-mod_pow 64 b (y + c) h

    whole : (z : ℕ) → z + c + rest ≡ z + c * 2 ^ b
    whole z =
        let positive : 2 ^ b ≡ 1 + (2 ^ b - 1) = omega (arith, one-le-pow b 2 (omega arith)) in
        omega (arith, ap (λ t. c * t) positive)

    undone : (z : ℕ) → ((z + c) % 2 ^ b + rest) % 2 ^ b ≡ z % 2 ^ b
    undone z =
        mod-add-mod (z + c) (2 ^ b) rest
        ∙ ap (λ t. t % 2 ^ b) (whole z)
        ∙ add-mul-mod_self_right z c (2 ^ b)

-- Two numbers below 2 ^ (8 * width) that `kv_mod2n_injection` takes to the same number are equal,
-- for each width from 2 to 8 and every sbox.
pub kv_mod2n_injection-injective :
    (sbox : List ℕ) (width x y : ℕ)
    → IsSbox sbox
    → IsWidth width
    → x < 2 ^ (8 * width)
    → y < 2 ^ (8 * width)
    → kv_mod2n_injection sbox width x ≡ kv_mod2n_injection sbox width y
    → x ≡ y
unfolding kv_mod2n_injection
kv_mod2n_injection-injective sbox width x y s w hx hy e =
    sym (mod-eq_of_lt hx)
    ∙ add_injective (8 * width) 10042331536242289283 x y (omega arith) (
        substitute_injective sbox s (8 * width) _ _ (omega arith)
          (stir_width_injective width _ _ w e))
    ∙ mod-eq_of_lt hy

-- What the switch returns has `8 * w` bits.
stir_width-lt : (w x : ℕ) → IsWidth w → stir_width w x < 2 ^ (8 * w)
unfolding stir_width stir
stir_width-lt zero x h = absurd (omega arith)
stir_width-lt (suc zero) x h = absurd (omega arith)
stir_width-lt (suc (suc zero)) x h = low_bits-lt 16 _
stir_width-lt (suc (suc (suc zero))) x h = low_bits-lt 24 _
stir_width-lt (suc (suc (suc (suc zero)))) x h = low_bits-lt 32 _
stir_width-lt (suc (suc (suc (suc (suc zero))))) x h = low_bits-lt 40 _
stir_width-lt (suc (suc (suc (suc (suc (suc zero)))))) x h = low_bits-lt 48 _
stir_width-lt (suc (suc (suc (suc (suc (suc (suc zero))))))) x h = low_bits-lt 56 _
stir_width-lt (suc (suc (suc (suc (suc (suc (suc (suc zero)))))))) x h = low_bits-lt 64 _
stir_width-lt (suc (suc (suc (suc (suc (suc (suc (suc (suc w))))))))) x h = absurd (omega arith)

pub kv_mod2n_injection-lt :
    (sbox : List ℕ) (width x : ℕ)
    → IsWidth width
    → kv_mod2n_injection sbox width x < 2 ^ (8 * width)
unfolding kv_mod2n_injection
kv_mod2n_injection-lt sbox width x w = stir_width-lt width _ w
