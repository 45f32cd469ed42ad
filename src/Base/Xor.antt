-- ===== src/Base/Xor.antt =====
-- Exclusive or at variables: its lowest digit, cancellation, bounds, and how it meets a remainder
-- by a power of two.
use Prim.Native.Nat.{
  ℕ, zero, suc, ◌+◌, ◌*◌, ◌/◌, ◌%◌, ◌^◌, ◌≤◌, ◌<◌, bit_xor, bit_xor-bitwise, digits, differ,
}
use mathlib.Core.Path.{◌≡◌, refl, sym, ap, ◌∙◌}
use native.Mathlib.Nat.{
  le_refl, pow-suc, mod-one, mod-lt, one-le-pow, div-add-mod', mul-add-mod_self_right, mod-eq_of_lt,
}
use native.Mathlib.Omega.{arith}

differ_lem : (x y : ℕ) → x < 2 → y < 2 → differ x y ≡ (x + y) % 2
differ_lem zero zero h k = refl
differ_lem zero (suc zero) h k = refl
differ_lem zero (suc (suc y)) h k = absurd (omega arith)
differ_lem (suc zero) zero h k = refl
differ_lem (suc zero) (suc zero) h k = refl
differ_lem (suc zero) (suc (suc y)) h k = absurd (omega arith)
differ_lem (suc (suc x)) y h k = absurd (omega arith)

abbrev xor_digits : ℕ → ℕ → ℕ → ℕ
xor_digits n a b = digits (λ b. b) differ n a b

-- The count of digits does not matter once it is enough.
xor_digits_enough : (n m a b : ℕ) → a ≤ n → a ≤ m → xor_digits n a b ≡ xor_digits m a b
xor_digits_enough zero zero a b p q = refl
xor_digits_enough zero (suc m) zero b p q = refl
xor_digits_enough zero (suc m) (suc a) b p q = absurd (omega arith)
xor_digits_enough (suc n) zero zero b p q = refl
xor_digits_enough (suc n) zero (suc a) b p q = absurd (omega arith)
xor_digits_enough (suc n) (suc m) zero b p q = refl
xor_digits_enough (suc n) (suc m) (suc a) b p q =
    rw (xor_digits_enough n m (suc a / 2) (b / 2) (omega arith) (omega arith))

pub zero-xor : (b : ℕ) → bit_xor 0 b ≡ b
zero-xor b = bit_xor-bitwise 0 b

-- One equation for the lowest digit.
pub xor_step : (a b : ℕ) → bit_xor a b ≡ bit_xor (a / 2) (b / 2) * 2 + (a % 2 + b % 2) % 2
xor_step zero b = omega (arith, zero-xor b, zero-xor (b / 2))
xor_step (suc a) b = omega (
  arith,
  bit_xor-bitwise (suc a) b,
  bit_xor-bitwise (suc a / 2) (b / 2),
  xor_digits_enough a (suc a / 2) (suc a / 2) (b / 2) (omega arith) (le_refl _),
  differ_lem (suc a % 2) (b % 2) (omega arith) (omega arith),
)

-- Facts about all digits go from the halves to the number; `n` bounds how often.
cancel_below : (n x c : ℕ) → x + c ≤ n → bit_xor (bit_xor x c) c ≡ x
cancel_below zero x c h =
    let x0 : x ≡ 0 = omega arith in let c0 : c ≡ 0 = omega arith in rw (x0, c0) refl
cancel_below (suc n) x c h =
    ground
      (arith, xor_step x c, xor_step (bit_xor x c) c, cancel_below n (x / 2) (c / 2) (omega arith))

pub xor-xor_cancel : (x c : ℕ) → bit_xor (bit_xor x c) c ≡ x
xor-xor_cancel x c = cancel_below (x + c) x c (le_refl _)

pub xor_right_cancel : (c x y : ℕ) → bit_xor x c ≡ bit_xor y c → x ≡ y
xor_right_cancel c x y e = sym (xor-xor_cancel x c) ∙ ap (λ t. bit_xor t c) e ∙ xor-xor_cancel y c

comm_below : (n x y : ℕ) → x + y ≤ n → bit_xor x y ≡ bit_xor y x
comm_below zero x y h =
    let x0 : x ≡ 0 = omega arith in let y0 : y ≡ 0 = omega arith in rw (x0, y0) refl
comm_below (suc n) x y h =
    omega (arith, xor_step x y, xor_step y x, comm_below n (x / 2) (y / 2) (omega arith))

pub xor_comm : (x y : ℕ) → bit_xor x y ≡ bit_xor y x
xor_comm x y = comm_below (x + y) x y (le_refl _)

-- A remainder by a power of two, by the lowest digit.
pub mod_step : (k x : ℕ) → x % 2 ^ suc k ≡ x / 2 % 2 ^ k * 2 + x % 2
mod_step k x =
    let below : x / 2 % 2 ^ k < 2 ^ k = mod-lt (x / 2) (one-le-pow k 2 (omega arith)) in
    let split : x ≡ x / 2 / 2 ^ k * 2 ^ suc k + (x / 2 % 2 ^ k * 2 + x % 2) =
      omega (arith, div-add-mod' (x / 2) (2 ^ k), ap (λ t. x / 2 / 2 ^ k * t) (pow-suc 2 k)) in
    ap (λ t. t % 2 ^ suc k) split
    ∙ mul-add-mod_self_right (x / 2 / 2 ^ k) (2 ^ suc k) _
    ∙ mod-eq_of_lt (omega (arith, pow-suc 2 k))

-- Exclusive or keeps below a power of two, and the low digits of the result come from the low digits.
pub xor-lt : (k x y : ℕ) → x < 2 ^ k → y < 2 ^ k → bit_xor x y < 2 ^ k
xor-lt zero x y h g =
    let x0 : x ≡ 0 = omega arith in
    let y0 : y ≡ 0 = omega arith in rw (x0, y0) (omega (arith, zero-xor 0))
xor-lt (suc k) x y h g = omega (
  arith,
  xor_step x y,
  pow-suc 2 k,
  xor-lt k (x / 2) (y / 2) (omega (arith, pow-suc 2 k)) (omega (arith, pow-suc 2 k)),
)

pub xor-mod : (k x y : ℕ) → bit_xor x y % 2 ^ k ≡ bit_xor (x % 2 ^ k) (y % 2 ^ k)
xor-mod zero x y =
    omega (arith, ap (λ t. bit_xor t (y % 1)) (mod-one x), ap (bit_xor 0) (mod-one y), zero-xor 0)
xor-mod (suc k) x y = ground (
  arith,
  xor_step x y,
  xor_step (x % 2 ^ suc k) (y % 2 ^ suc k),
  xor-mod k (x / 2) (y / 2),
  mod_step k x,
  mod_step k y,
  mod_step k (bit_xor x y),
)

-- The low digits of the low digits.
pub mod-mod_pow : (n j x : ℕ) → j ≤ n → x % 2 ^ n % 2 ^ j ≡ x % 2 ^ j
mod-mod_pow n zero x h = omega arith
mod-mod_pow zero (suc j) x h = absurd (omega arith)
mod-mod_pow (suc n) (suc j) x h =
    let half : x % 2 ^ suc n / 2 ≡ x / 2 % 2 ^ n = omega (arith, mod_step n x) in
    mod_step j (x % 2 ^ suc n)
    ∙ rw (half, mod-mod_pow n j (x / 2) (omega arith)) (omega (arith, mod_step n x, mod_step j x))
