-- ===== src/Common/Digits.antt =====
-- `&`, `|`, `^` on non-negative Python integers, one binary digit at a time. Shared lemmas.
use Prim.Native.Nat.{
  ℕ, zero, suc, ◌+◌, ◌*◌, ◌/◌, ◌%◌, ◌≤◌, min, max, bit_and, bit_or, bit_xor, digits, differ,
  bit_and-bitwise, bit_or-bitwise, bit_xor-bitwise,
}
use mathlib.Core.Path.{◌≡◌, refl}
use native.Mathlib.Omega.{arith}

-- More fuel than digits changes nothing, whatever the digit operation.
module _ (low : ℕ → ℕ) (op : ℕ → ℕ → ℕ) where
  no_digits : (n y : ℕ) → digits low op n 0 y ≡ low y
  no_digits zero y = refl
  no_digits (suc n) y = refl

  fuel_irrelevant : (y x n m : ℕ) → x ≤ n → x ≤ m → digits low op n x y ≡ digits low op m x y
  fuel_irrelevant y zero n m hn hm = rw (no_digits n y, no_digits m y)
  fuel_irrelevant y (suc x) zero m hn hm = absurd (omega arith)
  fuel_irrelevant y (suc x) (suc n) zero hn hm = absurd (omega arith)
  fuel_irrelevant y (suc x) (suc n) (suc m) hn hm =
      rw (fuel_irrelevant (y / 2) (suc x / 2) n m (omega arith) (omega arith))

pub and_step : (a b : ℕ) → bit_and a b ≡ 2 * bit_and (a / 2) (b / 2) + min (a % 2) (b % 2)
and_step zero b = simp bit_and-bitwise (omega arith)
and_step (suc a) b = omega (
  arith,
  bit_and-bitwise (suc a) b,
  bit_and-bitwise (suc a / 2) (b / 2),
  fuel_irrelevant (λ y. zero) min (b / 2) (suc a / 2) a (suc a / 2) (omega arith) (omega arith),
)

pub or_step : (a b : ℕ) → bit_or a b ≡ 2 * bit_or (a / 2) (b / 2) + max (a % 2) (b % 2)
or_step zero b = simp bit_or-bitwise (omega arith)
or_step (suc a) b = omega (
  arith,
  bit_or-bitwise (suc a) b,
  bit_or-bitwise (suc a / 2) (b / 2),
  fuel_irrelevant (λ y. y) max (b / 2) (suc a / 2) a (suc a / 2) (omega arith) (omega arith),
)

pub xor_step : (a b : ℕ) → bit_xor a b ≡ 2 * bit_xor (a / 2) (b / 2) + differ (a % 2) (b % 2)
xor_step zero b = simp bit_xor-bitwise (omega arith)
xor_step (suc a) b = omega (
  arith,
  bit_xor-bitwise (suc a) b,
  bit_xor-bitwise (suc a / 2) (b / 2),
  fuel_irrelevant (λ y. y) differ (b / 2) (suc a / 2) a (suc a / 2) (omega arith) (omega arith),
)
