-- ===== src/Kv/Fill.antt =====
-- The bytes of a pair in src/ia_kv.c: the alphabet, `kvpair_bytes`, `remix4tail`, `kv_fill` and
-- `kv_pair`. The branches on `kv_globals.debug` are left out: DEBUG_KEYGEN is 0.
pub mod Length
use ioarena.Base.{
  ℕ, zero, suc, ◌+◌, ◌-◌, ◌*◌, ◌/◌, ◌%◌, ◌^◌, Bool, true, false, List, [], ◌∷◌, ◌++◌, get_or, u32,
  u64, low_bits, shl, shr, bit_xor, bit_or, if◌then◌else◌, ◌==◌, ltb, leb,
}
use ioarena.Base.Text.{codes}
use ioarena.Kv.Mix.{kv_mod2n_injection}

-- `kv_globals`, with the table `sbox` beside it.
pub record Globals : Type 0 where
  pub printable : Bool
  pub ksize : ℕ
  pub width : ℕ
  pub nsectors : ℕ
  pub period : ℕ
  pub sbox : List ℕ

unfoldable pub alphabet : List ℕ
alphabet = codes "@0123456789abcdefghijklmnopqrstuvwxyzABCDEFGHIJKLMNOPQRSTUVWXYZ_"

-- The next multiple of 8, as `(n + 7) & ~7` gives it.
abbrev pub align : ℕ → ℕ
align n = (n + 7) / 8 * 8

unfoldable pub kvpair_bytes : Globals → ℕ → ℕ
kvpair_bytes g vsize =
    if g.printable
    then g.ksize + (if ltb 0 vsize then vsize + 2 else 1)
    else align g.ksize + align vsize

-- Where the bytes behind a part of `size` bytes start.
unfoldable pub stride : Globals → ℕ → ℕ
stride g size = if g.printable then size + 1 else align size

unfoldable pub remix4tail : ℕ → ℕ
remix4tail point =
    bit_xor point (u64 (bit_or (u64 (shl point 47)) (shr point 17) + 7015912586649315971))

-- The `for` of `kv_fill` in printable form, by the characters to go: those and the last `*point`.
-- No call has none to go, as `length > 0` is asserted.
unfoldable pub fill_chars : (width togo acc left point : ℕ) → List ℕ × ℕ
fill_chars width zero acc left point = ([], point)
fill_chars width (suc zero) acc left point = (get_or alphabet (low_bits acc 6) 0 ∷ [], point)
fill_chars width (suc (suc togo)) acc left point =
    let acc' = shr acc 6 in
    let short = ltb (left - 6) 6 in
    let mixed = remix4tail (u64 (point + acc')) in
    let (cs, last) =
      fill_chars width (suc togo) (if short then mixed else acc')
        (if short then width * 8 else left - 6) (if short then mixed else point) in
    (get_or alphabet (low_bits acc 6) 0 ∷ cs, last)

-- What a call that may fail to return does: it returns, it overflows a signed number or a buffer, or it
-- is still running when the fuel is spent.
pub data Run {ℓ} (A : Type ℓ) : Type ℓ where
  done : A → Run A
  overflow running : Run A

infixl 5 ◌>>=◌
abbrev pub ◌>>=◌ {ℓ κ} : {A : Type ℓ} {B : Type κ} → Run A → (A → Run B) → Run B
done a >>= f = f a
overflow >>= f = overflow
running >>= f = running

-- The low bytes of a number, lowest first: `*p++ = htole64(*point)` writes eight.
unfoldable pub le_bytes : ℕ → ℕ → List ℕ
le_bytes zero p = []
le_bytes (suc n) p = p % 256 ∷ le_bytes n (p / 256)

-- do { *point = remix4tail(*point); left += left; } while (left < 64), with the new `left` and
-- `*point`. `left` is an int.
pub remix_loop : (fuel left point : ℕ) → Run (ℕ × ℕ)
remix_loop zero left point = running
remix_loop (suc fuel) left point = elim (leb (2 ^ 31) (left + left)) [
  | true ↦ overflow
  | false ↦ elim (ltb (left + left) 64) [
    | true ↦ remix_loop fuel (left + left) (remix4tail point)
    | false ↦ done (left + left, remix4tail point)
  ]
]

-- Six doublings take any positive `left` to 64.
abbrev pub remix_fuel : ℕ
remix_fuel = 6

-- The `for` of `kv_fill` in binary form. `length` is unsigned, so `length -= 8` wraps.
unfoldable pub fill_words : (fuel left len point : ℕ) → Run (List ℕ × ℕ)
fill_words zero left len point = running
fill_words (suc fuel) left len point = elim (u32 (len + 2 ^ 32 - 8) == 0) [
  | true ↦ done (le_bytes 8 point, point)
  | false ↦ remix_loop remix_fuel left point >>= λ next.
      fill_words fuel next.0 (u32 (len + 2 ^ 32 - 8)) next.1 >>= λ rest.
      done (le_bytes 8 point ++ rest.0, rest.1)
]

-- `kv_fill`: the bytes that it writes and the last `*point`.
unfoldable pub kv_fill : Globals → (point len : ℕ) → Run (List ℕ × ℕ)
kv_fill g point len =
    if g.printable
    then (let (cs, last) = fill_chars g.width len point (g.width * 8) point in
        done (cs ++ 0 ∷ [], last))
    else fill_words len (g.width * 8) len point

-- `kv_pair`: the bytes of a key and, with a `vsize`, of a value behind it.
unfoldable pub kv_pair : Globals → (vsize vage point : ℕ) → Run (List ℕ)
kv_pair g vsize vage point = kv_fill g (kv_mod2n_injection g.sbox g.width point) g.ksize >>= λ key.
    if ltb 0 vsize
    then (kv_fill g (remix4tail (u64 (key.1 + vage))) vsize >>= λ value. done (key.0 ++ value.0))
    else done key.0
