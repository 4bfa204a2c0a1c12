-- ===== src/Common/Or.antt =====
-- `|` of operands that share no digit is their sum: the loads of multi-byte words rest on this.
use Prim.Native.Nat.{ℕ, zero, suc, ◌+◌, ◌*◌, ◌/◌, ◌%◌, ◌^◌, ◌≤◌, ◌<◌}
use Prim.Native.Nat.{bit_or, bit_or-bitwise, digits, max}
use mathlib.Core.Path.{◌≡◌, refl, ap}
use native.Mathlib.Nat.{pow-suc}
use native.Mathlib.Omega.{arith}

abbrev or_digits : ℕ → ℕ → ℕ → ℕ
or_digits n a b = digits (λ y. y) max n a b

or_digits_stable : (n m a b : ℕ) → a ≤ n → a ≤ m → or_digits n a b ≡ or_digits m a b
or_digits_stable zero zero zero b p q = refl
or_digits_stable zero m (suc a) b p q = absurd (omega arith)
or_digits_stable n zero (suc a) b p q = absurd (omega arith)
or_digits_stable zero (suc m) zero b p q = refl
or_digits_stable (suc n) zero zero b p q = refl
or_digits_stable (suc n) (suc m) zero b p q = refl
or_digits_stable (suc n) (suc m) (suc a) b p q =
    ap (λ t. t * 2 + max (suc a % 2) (b % 2))
      (or_digits_stable n m (suc a / 2) (b / 2) (omega arith) (omega arith))

pub zero-bit_or : (b : ℕ) → bit_or 0 b ≡ b
zero-bit_or b = bit_or-bitwise 0 b

pub bit_or_step : (a b : ℕ) → bit_or a b ≡ bit_or (a / 2) (b / 2) * 2 + max (a % 2) (b % 2)
bit_or_step zero b = omega (arith, zero-bit_or b, zero-bit_or (b / 2))
bit_or_step (suc a) b = omega (
  arith,
  bit_or-bitwise (suc a) b,
  bit_or-bitwise (suc a / 2) (b / 2),
  or_digits_stable a (suc a / 2) (suc a / 2) (b / 2) (omega arith) (omega arith),
)

or_zero_below : (n a : ℕ) → a ≤ n → bit_or a 0 ≡ a
or_zero_below n zero p = refl
or_zero_below zero (suc a) p = absurd (omega arith)
or_zero_below (suc n) (suc a) p =
    omega (arith, bit_or_step (suc a) 0, or_zero_below n (suc a / 2) (omega arith))

pub bit_or-zero : (a : ℕ) → bit_or a 0 ≡ a
bit_or-zero a = or_zero_below a a (omega arith)

shift_suc : (q k : ℕ) → q * 2 ^ suc k ≡ q * 2 ^ k * 2
shift_suc q k = omega (arith, ap (λ (t : ℕ). q * t) (pow-suc 2 k))

-- The high operand on the left, or on the right.
pub bit_or_join :
    (k q r : ℕ)
    → r < 2 ^ k
    → (bit_or (q * 2 ^ k) r ≡ q * 2 ^ k + r) × (bit_or r (q * 2 ^ k) ≡ q * 2 ^ k + r)
bit_or_join zero q zero h = ground (arith, bit_or-zero (q * 1), zero-bit_or (q * 1))
bit_or_join zero q (suc r) h = absurd (omega arith)
bit_or_join (suc k) q r h = ground (
  arith,
  bit_or_step (q * 2 ^ suc k) r,
  bit_or_step r (q * 2 ^ suc k),
  shift_suc q k,
  bit_or_join k q (r / 2) (omega (arith, pow-suc 2 k)),
)
