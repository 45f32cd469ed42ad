-- ===== src/Kv/Fill/Length.antt =====
-- When `kv_fill` and `kv_pair` of src/ia_kv.c return, and how many bytes they write.
use native.Mathlib.Nat.{mul-le-mul_left, mul-le-mul_right, one-le-pow, pow-suc, pow-le-pow_right}
use ioarena.Base.{
  ℕ, zero, suc, ◌+◌, ◌-◌, ◌*◌, ◌/◌, ◌%◌, ◌^◌, ◌≤◌, ◌<◌, ◌≡◌, ◌≢◌, ◌⊎◌, inl, inr, refl, ap, ◌∙◌,
  true, false, List, [], ◌∷◌, ◌++◌, length, length-append, arith, ◌==◌, ltb, u32, Bool-cases, u64,
  lt→ltb,
}
use ioarena.Kv.Fill.{
  Globals, kvpair_bytes, stride, remix4tail, fill_chars, Run, done, overflow, running, ◌>>=◌,
  le_bytes, remix_loop, remix_fuel, fill_words, kv_fill, kv_pair,
}
use ioarena.Kv.Mix.{kv_mod2n_injection}
use ioarena.Kv.Mix.Injective.{IsWidth}

pub length-fill_chars :
    (width togo acc left point : ℕ) → length (fill_chars width togo acc left point).0 ≡ togo
unfolding fill_chars
length-fill_chars width zero acc left point = refl
length-fill_chars width (suc zero) acc left point = refl
length-fill_chars width (suc (suc togo)) acc left point =
    ap suc (length-fill_chars width (suc togo) _ _ _)

length-le_bytes : (n p : ℕ) → length (le_bytes n p) ≡ n
unfolding le_bytes
length-le_bytes zero p = refl
length-le_bytes (suc n) p = ap suc (length-le_bytes n (p / 256))

-- Once `left` has reached 32 the inner loop makes one round.
remix_loop_once :
    (left point : ℕ)
    → 32 ≤ left
    → left < 2 ^ 30
    → remix_loop remix_fuel left point ≡ done (left + left, remix4tail point)
unfolding remix_loop
remix_loop_once left point h g = ground arith

-- From the width of the key the inner loop takes `left` to at least 64 and at most 128.
remix_loop_first :
    (w point : ℕ)
    → IsWidth w
    → (left' point' : ℕ) × (remix_loop remix_fuel (w * 8) point ≡ done (left', point'))
      × (64 ≤ left')
      × (left' ≤ 128)
unfolding remix_loop
remix_loop_first zero point h = absurd (omega arith)
remix_loop_first (suc zero) point h = absurd (omega arith)
remix_loop_first (suc (suc zero)) point h = (64, _, refl, omega arith, omega arith)
remix_loop_first (suc (suc (suc zero))) point h = (96, _, refl, omega arith, omega arith)
remix_loop_first (suc (suc (suc (suc zero)))) point h = (64, _, refl, omega arith, omega arith)
remix_loop_first (suc (suc (suc (suc (suc zero))))) point h =
    (80, _, refl, omega arith, omega arith)
remix_loop_first (suc (suc (suc (suc (suc (suc zero)))))) point h =
    (96, _, refl, omega arith, omega arith)
remix_loop_first (suc (suc (suc (suc (suc (suc (suc zero))))))) point h =
    (112, _, refl, omega arith, omega arith)
remix_loop_first (suc (suc (suc (suc (suc (suc (suc (suc zero)))))))) point h =
    (128, _, refl, omega arith, omega arith)
remix_loop_first (suc (suc (suc (suc (suc (suc (suc (suc (suc w))))))))) point h =
    absurd (omega arith)

-- What `kv_fill` and `kv_pair` owe: they return, and the bytes have the stated number.
abbrev pub Writes : Run (List ℕ × ℕ) → ℕ → Type 0
Writes r n = (bytes : List ℕ) × (last : ℕ) × (r ≡ done (bytes, last)) × (length bytes ≡ n)

-- A multiple of 8 is written word by word, as long as `left` can be doubled between the words.
fill_words-Writes :
    (k fuel left len point : ℕ)
    → k < fuel
    → 32 ≤ left
    → left * 2 ^ k < 2 ^ 31
    → len ≡ 8 * suc k
    → len ≤ 200
    → Writes (fill_words fuel left len point) len
unfolding fill_words
fill_words-Writes k zero left len point f h g e small = absurd (omega arith)
fill_words-Writes zero (suc fuel) left len point f h g e small =
    let last : (u32 (len + 2 ^ 32 - 8) == 0) ≡ true = ground arith in
    (le_bytes 8 point, point, rw (last, fill_words) refl, length-le_bytes 8 point ∙ omega arith)
fill_words-Writes (suc k) (suc fuel) left len point f h g e small =
    let more : (u32 (len + 2 ^ 32 - 8) == 0) ≡ false = ground arith in
    let doubles : left * 2 ^ suc k ≡ (left + left) * 2 ^ k =
      omega (arith, ap (λ t. left * t) (pow-suc 2 k)) in
    let positive : 1 ≤ 2 ^ k = one-le-pow k 2 (omega arith) in
    let bound : left < 2 ^ 30 = omega (arith, mul-le-mul_left (left + left) positive) in
    let (bytes, last, e', l) =
      fill_words-Writes k fuel (left + left) (u32 (len + 2 ^ 32 - 8)) (remix4tail point)
        (omega arith) (omega arith) (omega arith) (omega arith) (omega arith) in
    (
      le_bytes 8 point ++ bytes,
      last,
      rw (more, fill_words) (rw (remix_loop_once left point h bound) (rw e' refl)),
      length-append (le_bytes 8 point) bytes ∙ omega (arith, length-le_bytes 8 point),
    )

-- Inversion of a chain that returns.
pub >>=-eq-done {ℓ κ} :
    {A : Type ℓ} {B : Type κ} (m : Run A) (f : A → Run B) {b : B}
    → (m >>= f) ≡ done b
    → (a : A) × (m ≡ done a) × (f a ≡ done b)
>>=-eq-done (done a) f h = (a, refl, h)
>>=-eq-done overflow f h = cc
>>=-eq-done running f h = cc

-- A length that is no multiple of 8 wraps past zero, so the loop never ends by its test.
pub fill_words_never :
    (fuel left len point : ℕ) (r : List ℕ × ℕ)
    → len % 8 ≢ 0
    → fill_words fuel left len point ≢ done r
unfolding fill_words
fill_words_never zero left len point r h e = cc
fill_words_never (suc fuel) left len point r h e =
    let more : (u32 (len + 2 ^ 32 - 8) == 0) ≡ false = ground arith in
    let (next, _, e') =
      >>=-eq-done (remix_loop remix_fuel left point) _ (rw (more, fill_words) at e) in
    let (rest, e'', _) =
      >>=-eq-done (fill_words fuel next.0 (u32 (len + 2 ^ 32 - 8)) next.1) _ e' in
    fill_words_never fuel next.0 (u32 (len + 2 ^ 32 - 8)) next.1 rest (omega arith) e''

-- The same from the width of the key, where `left` starts.
fill_words_first :
    (w k fuel len point : ℕ)
    → IsWidth w
    → k < fuel
    → len ≡ 8 * suc k
    → len ≤ 200
    → Writes (fill_words fuel (w * 8) len point) len
unfolding fill_words
fill_words_first w k zero len point width f e small = absurd (omega arith)
fill_words_first w zero (suc fuel) len point width f e small =
    let last : (u32 (len + 2 ^ 32 - 8) == 0) ≡ true = ground arith in
    (le_bytes 8 point, point, rw (last, fill_words) refl, length-le_bytes 8 point ∙ omega arith)
fill_words_first w (suc k) (suc fuel) len point width f e small =
    let more : (u32 (len + 2 ^ 32 - 8) == 0) ≡ false = ground arith in
    let (left', point', first, low, high) = remix_loop_first w point width in
    let short : k ≤ 23 = omega arith in
    let room : 2 ^ k ≤ 2 ^ 23 = pow-le-pow_right (omega arith) short in
    let bound : left' * 2 ^ k < 2 ^ 31 =
      omega (arith, mul-le-mul_right (2 ^ k) high, mul-le-mul_left 128 room) in
    let (bytes, last, e', l) =
      fill_words-Writes k fuel left' (u32 (len + 2 ^ 32 - 8)) point' (omega arith) (omega arith)
        bound (omega arith) (omega arith) in
    (
      le_bytes 8 point ++ bytes,
      last,
      rw (more, fill_words) (rw first (rw e' refl)),
      length-append (le_bytes 8 point) bytes ∙ omega (arith, length-le_bytes 8 point),
    )

-- The lengths that `kv_fill` can write: in printable form any, in binary form a multiple of 8
-- small enough for `left`.
pub record IsFillable (g : Globals) (len : ℕ) : Type 0 where
  pub positive : 0 < len
  pub form : (g.printable ≡ true) ⊎ ((len % 8 ≡ 0) × (len ≤ 200))

pub size-le-stride : (g : Globals) (size : ℕ) → size ≤ stride g size
unfolding stride
size-le-stride g size = ground arith

-- `kv_fill` returns, and what it writes ends where the next part starts.
pub kv_fill-Writes :
    (g : Globals) (point len : ℕ)
    → IsWidth g.width
    → IsFillable g len
    → Writes (kv_fill g point len) (stride g len)
unfolding kv_fill stride
kv_fill-Writes g point len w h = elim (Bool-cases g.printable) [
  | inl text ↦
      let chars = fill_chars g.width len point (g.width * 8) point in
      rw text (
        chars.0 ++ 0 ∷ [],
        chars.1,
        refl,
        length-append chars.0 (0 ∷ [])
            ∙ omega (arith, length-fill_chars g.width len point (g.width * 8) point),
      )
  | inr binary ↦
      let whole : (len % 8 ≡ 0) × (len ≤ 200) = ground (arith, h.form) in
      let positive = h.positive in
      let (bytes, last, e, l) =
        fill_words_first g.width (len / 8 - 1) len len point w (omega arith) (omega arith)
          (omega arith) in
      rw binary (bytes, last, e, l ∙ omega arith)
]

-- `ia_kvgen_get` asserts it: for a width that setup chooses, a key that `kv_fill` can write and a
-- value that is empty or that it can write, `kv_pair` returns, with `kvpair_bytes` bytes.
pub kv_pair_returns :
    (g : Globals) (vsize vage point : ℕ)
    → IsWidth g.width
    → IsFillable g g.ksize
    → (vsize ≡ 0) ⊎ IsFillable g vsize
    → (bytes : List ℕ) × (kv_pair g vsize vage point ≡ done bytes)
      × (length bytes ≡ kvpair_bytes g vsize)
unfolding kv_pair kvpair_bytes stride
kv_pair_returns g vsize vage point w k v =
    let (key, last, e, l) =
      kv_fill-Writes g (kv_mod2n_injection g.sbox g.width point) g.ksize w k in
    elim v [
      | inl none_wanted ↦
          let skip : ltb 0 vsize ≡ false = ground arith in
          (key, rw (e, skip) refl, l ∙ ground arith)
      | inr fits ↦
          let wanted : ltb 0 vsize ≡ true = lt→ltb 0 vsize fits.positive in
          let (value, last', e', l') =
            kv_fill-Writes g (remix4tail (u64 (last + vage))) vsize w fits in
          (key ++ value, rw (e, wanted, e') refl, length-append key value ∙ ground arith)
    ]
