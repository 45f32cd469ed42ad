-- ===== src/Base/Bytes.antt =====
-- The test of equal byte strings.
use ioarena.Base.{ℕ, ◌≡◌, refl, ap₂, Bool, true, false, List, [], ◌∷◌, arith, ◌&&◌}
use ioarena.Base.Tests.{◌==◌}

unfoldable pub same_bytes : List ℕ → List ℕ → Bool
same_bytes [] [] = true
same_bytes (x ∷ xs) (y ∷ ys) = (x == y) && same_bytes xs ys
same_bytes [] (y ∷ ys) = false
same_bytes (x ∷ xs) [] = false

pub same_bytes_refl : (k : List ℕ) → same_bytes k k ≡ true
unfolding same_bytes
same_bytes_refl [] = refl
same_bytes_refl (x ∷ xs) = ground (arith, same_bytes_refl xs)

pub same_bytes→eq : (k q : List ℕ) → same_bytes k q ≡ true → k ≡ q
unfolding same_bytes
same_bytes→eq [] [] e = refl
same_bytes→eq (x ∷ xs) (y ∷ ys) e =
    let h : (x ≡ y) × (same_bytes xs ys ≡ true) = ground arith in
    ap₂ (λ t ts. t ∷ ts) h.0 (same_bytes→eq xs ys h.1)
same_bytes→eq [] (y ∷ ys) e = ground arith
same_bytes→eq (x ∷ xs) [] e = ground arith
