-- ===== src/Kv/Keys/Chars.antt =====
-- The characters and words that `kv_fill` of src/ia_kv.c writes give the number back.
use native.Mathlib.Nat.{pow-suc}
use ioarena.Base.{
  ℕ, zero, suc, ◌+◌, ◌-◌, ◌*◌, ◌/◌, ◌%◌, ◌^◌, ◌≤◌, ◌<◌, ◌≡◌, inl, inr, refl, sym, ap, ◌∙◌, Bool,
  true, false, List, [], ◌∷◌, ◌++◌, get_or, take, arith, if◌then◌else◌, ltb, ◌==◌, Bool-cases,
  dec_lt, low_bits, shr, ==_iff, u32,
}
use ioarena.Kv.Mix.Stages.{low_bits-lt}
use ioarena.Kv.Fill.{alphabet, fill_chars, le_bytes, fill_words, remix_loop, remix_fuel, done}
use ioarena.Kv.Fill.Length.{>>=-eq-done}

index_of : ℕ → List ℕ → ℕ
index_of c [] = 0
index_of c (x ∷ xs) = if c == x then 0 else suc (index_of c xs)

-- Whether each character up to the n-th is found first at its own place.
found_at_home : ℕ → Bool
found_at_home zero = index_of (get_or alphabet 0 0) alphabet == 0
found_at_home (suc n) =
    if index_of (get_or alphabet (suc n) 0) alphabet == suc n then found_at_home n else false

home : (n i : ℕ) → found_at_home n ≡ true → i ≤ n → index_of (get_or alphabet i 0) alphabet ≡ i
unfolding found_at_home
home zero i h below =
    let first : i ≡ 0 = omega arith in
    rw first ((==_iff (index_of (get_or alphabet 0 0) alphabet) 0).0 h)
home (suc n) i h below = elim (dec_lt i (suc n)) [
  | yes earlier ↦ home n i (ground arith) (omega arith)
  | no latest ↦
      let last : i ≡ suc n = omega arith in
      rw last ((==_iff (index_of (get_or alphabet (suc n) 0) alphabet) (suc n)).0 (ground arith))
]

index_of-alphabet : (i : ℕ) → i < 64 → index_of (get_or alphabet i 0) alphabet ≡ i
unfolding found_at_home index_of alphabet
index_of-alphabet i h = home 63 i refl (omega arith)

-- The 64 characters are distinct.
alphabet_injective : (i j : ℕ) → i < 64 → j < 64 → get_or alphabet i 0 ≡ get_or alphabet j 0 → i ≡ j
alphabet_injective i j hi hj e =
    sym (index_of-alphabet i hi) ∙ ap (λ c. index_of c alphabet) e ∙ index_of-alphabet j hj

take_tail : List ℕ → List ℕ
take_tail [] = []
take_tail (x ∷ xs) = xs

-- With two characters' worth of digits left the next round goes on with the same number.
fill_chars_more :
    (w m togo a p : ℕ)
    → (fill_chars w (suc (suc togo)) a (6 * suc (suc m)) p).0
      ≡ get_or alphabet (low_bits a 6) 0 ∷ (fill_chars w (suc togo) (shr a 6) (6 * suc m) p).0
unfolding fill_chars
fill_chars_more w m togo a p = rw (enough, next) refl
  where
    enough : ltb (6 * suc (suc m) - 6) 6 ≡ false
    enough = ground arith

    next : 6 * suc (suc m) - 6 ≡ 6 * suc m
    next = omega arith

fill_chars_head :
    (w m togo a p : ℕ)
    → take (suc m) (fill_chars w (suc togo) a (6 * suc m) p).0
      ≡ get_or alphabet (low_bits a 6) 0
        ∷ take m (take_tail (fill_chars w (suc togo) a (6 * suc m) p).0)
unfolding fill_chars take_tail
fill_chars_head w m zero a p = refl
fill_chars_head w m (suc togo) a p = refl

same_digit :
    (a b : ℕ) (xs ys : List ℕ)
    → get_or alphabet (low_bits a 6) 0 ∷ xs ≡ get_or alphabet (low_bits b 6) 0 ∷ ys
    → (low_bits a 6 ≡ low_bits b 6) × (xs ≡ ys)
same_digit a b xs ys e =
    (alphabet_injective (low_bits a 6) (low_bits b 6) (low_bits-lt 6 a) (low_bits-lt 6 b) (cc), cc)

-- The first m characters give a number of m characters back.
pub fill_chars_injective :
    (w m togo a b p q : ℕ)
    → m ≤ togo
    → a < 64 ^ m
    → b < 64 ^ m
    → take m (fill_chars w togo a (6 * m) p).0 ≡ take m (fill_chars w togo b (6 * m) q).0
    → a ≡ b
fill_chars_injective w zero togo a b p q h ha hb e = omega arith
fill_chars_injective w (suc m) zero a b p q h ha hb e = absurd (omega arith)
fill_chars_injective w (suc zero) (suc togo) a b p q h ha hb e = omega (
  arith,
  (same_digit a b _ _ (sym (fill_chars_head w 0 togo a p) ∙ e ∙ fill_chars_head w 0 togo b q)).0,
)
fill_chars_injective w (suc (suc m)) (suc zero) a b p q h ha hb e = absurd (omega arith)
fill_chars_injective w (suc (suc m)) (suc (suc togo)) a b p q h ha hb e =
    let (digit, others) = same_digit a b _ _ (
      sym (ap (take (suc (suc m))) (fill_chars_more w m togo a p))
      ∙ e
      ∙ ap (take (suc (suc m))) (fill_chars_more w m togo b q)) in
    let higher : shr a 6 ≡ shr b 6 =
      fill_chars_injective w (suc m) (suc togo) (shr a 6) (shr b 6) p q (omega arith)
        (omega (arith, pow-suc 64 (suc m))) (omega (arith, pow-suc 64 (suc m))) others in
    omega arith

pub le_bytes_injective :
    (n p q : ℕ) → p < 256 ^ n → q < 256 ^ n → le_bytes n p ≡ le_bytes n q → p ≡ q
unfolding le_bytes
le_bytes_injective zero p q hp hq e = omega arith
le_bytes_injective (suc n) p q hp hq e =
    let low : p % 256 ≡ q % 256 = cc in
    let others : le_bytes n (p / 256) ≡ le_bytes n (q / 256) = cc in
    let higher : p / 256 ≡ q / 256 =
      le_bytes_injective n (p / 256) (q / 256) (omega (arith, pow-suc 256 n))
        (omega (arith, pow-suc 256 n)) others in
    omega arith

word_alone : (p : ℕ) → take 8 (le_bytes 8 p) ≡ le_bytes 8 p
unfolding le_bytes
word_alone p = refl

word_first : (p : ℕ) (xs : List ℕ) → take 8 (le_bytes 8 p ++ xs) ≡ le_bytes 8 p
unfolding le_bytes
word_first p xs = refl

-- What is written in binary form starts with the number.
pub fill_words-starts :
    (fuel left len point : ℕ) (r : List ℕ × ℕ)
    → fill_words fuel left len point ≡ done r
    → take 8 r.0 ≡ le_bytes 8 point
unfolding fill_words
fill_words-starts zero left len point r e = cc
fill_words-starts (suc fuel) left len point r e = elim (Bool-cases (u32 (len + 2 ^ 32 - 8) == 0)) [
  | inl last ↦
      let result : done (le_bytes 8 point, point) ≡ done r = rw (last, fill_words) at e in
      let bytes : r.0 ≡ le_bytes 8 point = cc in ap (take 8) bytes ∙ word_alone point
  | inr more ↦
      let (next, _, e') =
        >>=-eq-done (remix_loop remix_fuel left point) _ (rw (more, fill_words) at e) in
      let (rest, _, result) =
        >>=-eq-done (fill_words fuel next.0 (u32 (len + 2 ^ 32 - 8)) next.1) _ e' in
      let bytes : r.0 ≡ le_bytes 8 point ++ rest.0 = cc in
      ap (take 8) bytes ∙ word_first point rest.0
]
