-- ===== src/Kv/Keys.antt =====
-- Which pairs of src/ia_kv.c have keys of their own: `kv_fill` writes a key from which the number
-- can be read back, for the binary form and for the printable one where the width of the numbers
-- is a whole count of characters.
mod Chars
use native.Mathlib.Nat.{pow-suc, pow-le-pow_right}
use ioarena.Base.{
  ℕ, zero, suc, ◌+◌, ◌-◌, ◌*◌, ◌/◌, ◌%◌, ◌^◌, ◌≤◌, ◌<◌, ◌≡◌, inl, inr, refl, sym, ap, ◌∙◌, Bool,
  true, false, List, [], ◌∷◌, ◌++◌, length, get_or, take, arith, if◌then◌else◌, ltb, ◌==◌,
  Bool-cases, dec_lt, low_bits, shr, take-append_le, take_prefix_eq, ==_iff, u32, u64,
}
use ioarena.Kv.Sbox.{IsSbox}
use ioarena.Kv.Mix.{kv_mod2n_injection}
use ioarena.Kv.Mix.Injective.{IsWidth, kv_mod2n_injection-lt, kv_mod2n_injection-injective}
use ioarena.Kv.Mix.Stages.{low_bits-lt}
use ioarena.Kv.Fill.{
  Globals, alphabet, remix4tail, fill_chars, le_bytes, fill_words, remix_loop, remix_fuel, kv_fill,
  kv_pair, Run, done,
}
use ioarena.Kv.Fill.Length.{
  IsFillable, kv_fill-Writes, size-le-stride, length-fill_chars, >>=-eq-done,
}
use ioarena.Kv.Keys.Chars.{fill_words-starts, le_bytes_injective, fill_chars_injective}

-- The keys from which the number can be read back.
pub data IsLegible (g : Globals) : Type 0 where
  chars_of_3 : g.printable ≡ true → g.width ≡ 3 → 4 ≤ g.ksize → IsLegible g
  chars_of_6 : g.printable ≡ true → g.width ≡ 6 → 8 ≤ g.ksize → IsLegible g
  words : g.printable ≡ false → g.width ≤ 8 → 8 ≤ g.ksize → IsLegible g

kv_fill_chars :
    (g : Globals) (m a b len : ℕ) (r s : List ℕ × ℕ)
    → g.printable ≡ true
    → g.width * 8 ≡ 6 * m
    → m ≤ len
    → a < 64 ^ m
    → b < 64 ^ m
    → kv_fill g a len ≡ done r
    → kv_fill g b len ≡ done s
    → take len r.0 ≡ take len s.0
    → a ≡ b
unfolding kv_fill
kv_fill_chars g m a b len r s text whole h ha hb er es e =
    fill_chars_injective g.width m len a b a b h ha hb
      (sym (chars a r er) ∙ take_prefix_eq m len r.0 s.0 h e ∙ chars b s es)
  where
    chars :
        (c : ℕ) (t : List ℕ × ℕ)
        → kv_fill g c len ≡ done t
        → take m t.0 ≡ take m (fill_chars g.width len c (6 * m) c).0
    chars c t et =
        let cs = (fill_chars g.width len c (g.width * 8) c).0 in
        let result : done (cs ++ 0 ∷ [], (fill_chars g.width len c (g.width * 8) c).1) ≡ done t =
          rw text at et in
        let bytes : t.0 ≡ cs ++ 0 ∷ [] = cc in
        ap (take m) bytes
        ∙ take-append_le m cs (0 ∷ [])
            (omega (arith, length-fill_chars g.width len c (g.width * 8) c))
        ∙ ap (λ left. take m (fill_chars g.width len c left c).0) whole

kv_fill_words :
    (g : Globals) (a b len : ℕ) (r s : List ℕ × ℕ)
    → g.printable ≡ false
    → 8 ≤ len
    → a < 256 ^ 8
    → b < 256 ^ 8
    → kv_fill g a len ≡ done r
    → kv_fill g b len ≡ done s
    → take len r.0 ≡ take len s.0
    → a ≡ b
unfolding kv_fill
kv_fill_words g a b len r s binary h ha hb er es e = le_bytes_injective 8 a b ha hb (
    sym (fill_words-starts len (g.width * 8) len a r (rw binary at er))
    ∙ take_prefix_eq 8 len r.0 s.0 h e
    ∙ fill_words-starts len (g.width * 8) len b s (rw binary at es))

-- The key of a pair is what `kv_fill` made of the stirred number.
kv_pair-key :
    (g : Globals) (vsize vage p : ℕ) (x : List ℕ)
    → IsWidth g.width
    → IsFillable g g.ksize
    → kv_pair g vsize vage p ≡ done x
    → (key : List ℕ × ℕ) × (kv_fill g (kv_mod2n_injection g.sbox g.width p) g.ksize ≡ done key)
      × (take g.ksize x ≡ take g.ksize key.0)
unfolding kv_pair
kv_pair-key g vsize vage p x w fits e =
    let number = kv_mod2n_injection g.sbox g.width p in
    let (bytes, last, written, size) = kv_fill-Writes g number g.ksize w fits in
    let (key, filled, rest) = >>=-eq-done (kv_fill g number g.ksize) _ e in
    let same : ◌≡◌ {A = Run (List ℕ × ℕ)} (done (bytes, last)) (done key) = sym written ∙ filled in
    let same_bytes : bytes ≡ key.0 = cc in
    let long : g.ksize ≤ length key.0 =
      omega (arith, ap length same_bytes, size, size-le-stride g g.ksize) in
    elim (Bool-cases (ltb 0 vsize)) [
      | inl wanted ↦
          let (value, _, both) =
            >>=-eq-done (kv_fill g (remix4tail (u64 (key.1 + vage))) vsize) _ (rw wanted at rest) in
          let joined : x ≡ key.0 ++ value.0 = cc in
          (key, filled, ap (take g.ksize) joined ∙ take-append_le g.ksize key.0 value.0 long)
      | inr skipped ↦
          let alone : done key.0 ≡ done x = rw skipped at rest in
          let same_key : x ≡ key.0 = cc in (key, filled, ap (take g.ksize) same_key)
    ]

legible_injective :
    (g : Globals) (a b : ℕ) (r s : List ℕ × ℕ)
    → IsLegible g
    → a < 2 ^ (8 * g.width)
    → b < 2 ^ (8 * g.width)
    → kv_fill g a g.ksize ≡ done r
    → kv_fill g b g.ksize ≡ done s
    → take g.ksize r.0 ≡ take g.ksize s.0
    → a ≡ b
legible_injective g a b r s (chars_of_3 text w h) ha hb er es e =
    kv_fill_chars g 4 a b g.ksize r s text (omega arith) h (rw w at ha) (rw w at hb) er es e
legible_injective g a b r s (chars_of_6 text w h) ha hb er es e =
    kv_fill_chars g 8 a b g.ksize r s text (omega arith) h (rw w at ha) (rw w at hb) er es e
legible_injective g a b r s (words binary w h) ha hb er es e =
    let narrow : 8 * g.width ≤ 64 = omega arith in
    let room : 2 ^ (8 * g.width) ≤ 2 ^ 64 = pow-le-pow_right (omega arith) narrow in
    kv_fill_words g a b g.ksize r s binary h (omega (arith, room)) (omega (arith, room)) er es e

-- Two numbers that fit the width and get the same key bytes, whatever values follow, are equal: in
-- binary form with keys of 8 bytes or more, and in printable form with numbers of 3 or 6 bytes and
-- keys of at least 4 or 8 characters.
pub kv_pair-keys_distinct :
    (g : Globals) (vsize vage p vsize' vage' q : ℕ) (x y : List ℕ)
    → IsWidth g.width
    → IsSbox g.sbox
    → IsFillable g g.ksize
    → IsLegible g
    → p < 2 ^ (8 * g.width)
    → q < 2 ^ (8 * g.width)
    → kv_pair g vsize vage p ≡ done x
    → kv_pair g vsize' vage' q ≡ done y
    → take g.ksize x ≡ take g.ksize y
    → p ≡ q
kv_pair-keys_distinct g vsize vage p vsize' vage' q x y w s fits legible hp hq ex ey e =
    let (key_x, fx, tx) = kv_pair-key g vsize vage p x w fits ex in
    let (key_y, fy, ty) = kv_pair-key g vsize' vage' q y w fits ey in
    kv_mod2n_injection-injective g.sbox g.width p q s w hp hq (
      legible_injective g _ _ key_x key_y legible (kv_mod2n_injection-lt g.sbox g.width p w)
        (kv_mod2n_injection-lt g.sbox g.width q w) fx fy (sym tx ∙ e ∙ ty))
