-- ===== src/Base/Bits.antt =====
-- `|` of two fields that share no bit is their sum.
use Prim.Native.Nat.{
  ℕ, zero, suc, ◌+◌, ◌*◌, ◌/◌, ◌%◌, ◌^◌, ◌≤◌, ◌<◌, max, bit_or, digits, bit_or-bitwise,
}
use mathlib.Core.Path.{◌≡◌, refl, ap}
use native.Mathlib.Omega.{arith}
use native.Mathlib.Nat.{pow-suc}

abbrev or_digits : ℕ → ℕ → ℕ → ℕ
or_digits n a b = digits (λ y. y) max n a b

more_fuel : (n m a b : ℕ) → a ≤ n → a ≤ m → or_digits n a b ≡ or_digits m a b
more_fuel zero zero a b p q = refl
more_fuel zero (suc m) zero b p q = refl
more_fuel zero (suc m) (suc a) b p q = absurd (omega arith)
more_fuel (suc n) zero zero b p q = refl
more_fuel (suc n) zero (suc a) b p q = absurd (omega arith)
more_fuel (suc n) (suc m) zero b p q = refl
more_fuel (suc n) (suc m) (suc a) b p q =
    omega (arith, more_fuel n m (suc a / 2) (b / 2) (omega arith) (omega arith))

lowest_digit : (a b : ℕ) → bit_or a b ≡ bit_or (a / 2) (b / 2) * 2 + max (a % 2) (b % 2)
lowest_digit zero b = omega (arith, bit_or-bitwise 0 b, bit_or-bitwise 0 (b / 2))
lowest_digit (suc a) b = omega (
  arith,
  bit_or-bitwise (suc a) b,
  bit_or-bitwise (suc a / 2) (b / 2),
  more_fuel a (suc a / 2) (suc a / 2) (b / 2) (omega arith) (omega arith),
)

or_zero : (n a : ℕ) → a ≤ n → bit_or a 0 ≡ a
or_zero n zero h = refl
or_zero zero (suc a) h = absurd (omega arith)
or_zero (suc n) (suc a) h =
    omega (arith, lowest_digit (suc a) 0, or_zero n (suc a / 2) (omega arith))

double : (q k : ℕ) → q * 2 ^ suc k ≡ 2 * (q * 2 ^ k)
double q k = omega (arith, ap (λ (t : ℕ). q * t) (pow-suc 2 k))

pub bit_or-disjoint : (k q r : ℕ) → r < 2 ^ k → bit_or (q * 2 ^ k) r ≡ q * 2 ^ k + r
bit_or-disjoint zero q r h = ground (arith, or_zero q q (omega arith))
bit_or-disjoint (suc k) q r h = ground (
  arith,
  lowest_digit (q * 2 ^ suc k) r,
  double q k,
  pow-suc 2 k,
  bit_or-disjoint k q (r / 2) (omega arith),
)
