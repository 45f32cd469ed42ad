-- ===== src/Kv/Mix.antt =====
-- `kv_mod2n_injection` of src/ia_kv.c: the number of a pair is stirred within `8 * width` bits.
pub mod Stages
pub mod Injective
use ioarena.Base.{
  ℕ, zero, suc, ◌+◌, ◌*◌, ◌/◌, ◌%◌, ◌^◌, List, u64, low_bits, shl, shr, bit_xor, if◌then◌else◌,
  ◌==◌,
}
use ioarena.Kv.Sbox.{at}

-- One case of the switch: `y` is a variable of `word` bits that starts with the low `bits` bits of
-- `x`; then y ^= y >> 1; y *= factor; y ^= y << left; and the low `bits` bits are returned.
unfoldable pub stir : (word bits factor left x : ℕ) → ℕ
stir word bits factor left x =
    let y0 = low_bits x bits in
    let y1 = bit_xor y0 (shr y0 1) in
    let y2 = low_bits (y1 * factor) word in
    let y3 = low_bits (bit_xor y2 (shl y2 left)) word in low_bits y3 bits

-- The switch on `kv_globals.width`.
unfoldable pub stir_width : ℕ → ℕ → ℕ
stir_width w x =
    if w == 1
    then stir 8 8 113 2 x
    else if w == 2
    then stir 16 16 25693 7 x
    else if w == 3
    then stir 32 24 5537317 12 x
    else if w == 4
    then stir 32 32 1923730889 15 x
    else if w == 5
    then stir 64 40 274992889273 13 x
    else if w == 6
    then stir 64 48 70375646670269 15 x
    else if w == 7
    then stir 64 56 23022548244171181 4 x
    else stir 64 64 4613509448041658233 25 x

-- x ^= sbox[x & (SBOX_SIZE - 1)]
unfoldable pub substitute : List ℕ → ℕ → ℕ
substitute sbox x = bit_xor x (at sbox (low_bits x 11))

unfoldable pub kv_mod2n_injection : List ℕ → ℕ → ℕ → ℕ
kv_mod2n_injection sbox width x =
    stir_width width (substitute sbox (u64 (x + 10042331536242289283)))
