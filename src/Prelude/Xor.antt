-- ===== src/Prelude/Xor.antt =====
-- Exclusive or at variables, from the digit recursion that the native operation stands for.
use Prim.Native.Nat.{
  ℕ, zero, suc, ◌+◌, ◌*◌, ◌/◌, ◌%◌, ◌≤◌, ◌<◌, ◌^◌, min, bit_and, bit_xor, digits, bit_and-bitwise,
  bit_xor-bitwise, differ,
}
use mathlib.Core.Path.{◌≡◌, refl}
use native.Mathlib.Nat.{pow-suc}
use native.Mathlib.Omega.{arith}

-- More fuel than the first number does not change the recursion.
module _ (z : ℕ → ℕ) (f : ℕ → ℕ → ℕ) where
  fuel_free : (n m a b : ℕ) → a ≤ n → a ≤ m → digits z f n a b ≡ digits z f m a b
  fuel_free zero zero a b p q = refl
  fuel_free zero (suc m) zero b p q = refl
  fuel_free zero (suc m) (suc a) b p q = absurd (omega arith)
  fuel_free (suc n) zero zero b p q = refl
  fuel_free (suc n) zero (suc a) b p q = absurd (omega arith)
  fuel_free (suc n) (suc m) zero b p q = refl
  fuel_free (suc n) (suc m) (suc a) b p q =
      omega (arith, fuel_free n m (suc a / 2) (b / 2) (omega arith) (omega arith))

xor_zero : (b : ℕ) → bit_xor 0 b ≡ b
xor_zero b = bit_xor-bitwise 0 b

differ_digits : (a b : ℕ) → a < 2 → b < 2 → differ a b ≡ (a + b) % 2
differ_digits zero zero h k = refl
differ_digits zero (suc zero) h k = refl
differ_digits zero (suc (suc b)) h k = absurd (omega arith)
differ_digits (suc zero) zero h k = refl
differ_digits (suc zero) (suc zero) h k = refl
differ_digits (suc zero) (suc (suc b)) h k = absurd (omega arith)
differ_digits (suc (suc a)) b h k = absurd (omega arith)

-- The lowest digit, and the others.
pub xor_digits : (a b : ℕ) → bit_xor a b ≡ bit_xor (a / 2) (b / 2) * 2 + (a % 2 + b % 2) % 2
xor_digits zero b = ground (arith, xor_zero b, xor_zero (b / 2))
xor_digits (suc a) b = omega (
  arith,
  bit_xor-bitwise (suc a) b,
  differ_digits (suc a % 2) (b % 2) (omega arith) (omega arith),
  bit_xor-bitwise (suc a / 2) (b / 2),
  fuel_free (λ y. y) differ a (suc a / 2) (suc a / 2) (b / 2) (omega arith) (omega arith),
)

-- Exclusive or with a fixed number loses nothing.
xor_cancel_below : (n a a' b : ℕ) → a ≤ n → a' ≤ n → bit_xor a b ≡ bit_xor a' b → a ≡ a'
xor_cancel_below zero a a' b h h' e = omega arith
xor_cancel_below (suc n) a a' b h h' e = ground (
  arith,
  xor_digits a b,
  xor_digits a' b,
  xor_cancel_below n (a / 2) (a' / 2) (b / 2) (omega arith) (omega arith),
)

pub xor_cancel : (a a' b : ℕ) → bit_xor a b ≡ bit_xor a' b → a ≡ a'
xor_cancel a a' b e = xor_cancel_below (a + a') a a' b (omega arith) (omega arith) e

xor_cancel_left_below : (n a b b' : ℕ) → b ≤ n → b' ≤ n → bit_xor a b ≡ bit_xor a b' → b ≡ b'
xor_cancel_left_below zero a b b' h h' e = omega arith
xor_cancel_left_below (suc n) a b b' h h' e = ground (
  arith,
  xor_digits a b,
  xor_digits a b',
  xor_cancel_left_below n (a / 2) (b / 2) (b' / 2) (omega arith) (omega arith),
)

pub xor_cancel_left : (a b b' : ℕ) → bit_xor a b ≡ bit_xor a b' → b ≡ b'
xor_cancel_left a b b' e = xor_cancel_left_below (b + b') a b b' (omega arith) (omega arith) e

-- The result is as wide as the wider number.
pub xor-lt : (k a b : ℕ) → a < 2 ^ k → b < 2 ^ k → bit_xor a b < 2 ^ k
xor-lt zero a b h h' = ground (arith, xor_zero b)
xor-lt (suc k) a b h h' = ground (arith, pow-suc 2 k, xor_digits a b, xor-lt k (a / 2) (b / 2))

-- A number with a higher top digit keeps it.
pub xor_high : (k a b : ℕ) → a < 2 ^ k → 2 ^ k ≤ b → 2 ^ k ≤ bit_xor a b
xor_high zero a b h h' = ground (arith, xor_zero b)
xor_high (suc k) a b h h' = ground (arith, pow-suc 2 k, xor_digits a b, xor_high k (a / 2) (b / 2))

and_zero_fuel : (n a : ℕ) → digits (λ y. 0) min n a 0 ≡ 0
and_zero_fuel zero a = refl
and_zero_fuel (suc n) zero = refl
and_zero_fuel (suc n) (suc a) = omega (arith, and_zero_fuel n (suc a / 2))

-- `a & 1` is the lowest digit.
pub and_one : (a : ℕ) → bit_and a 1 ≡ a % 2
and_one zero = refl
and_one (suc a) = omega (arith, bit_and-bitwise (suc a) 1, and_zero_fuel a (suc a / 2))
