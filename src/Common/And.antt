-- ===== src/Common/And.antt =====
-- Masks: `x & (2^k - 1)` is the remainder by `2^k`.
use Prim.Native.Nat.{ℕ, zero, suc, ◌+◌, ◌-◌, ◌*◌, ◌/◌, ◌%◌, ◌^◌, ◌≤◌, ◌<◌}
use Prim.Native.Nat.{bit_and, bit_and-bitwise, digits, min}
use mathlib.Core.Path.{◌≡◌, refl, sym, ap, ◌∙◌}
use native.Mathlib.Nat.{pow-suc, mod-lt, div-add-mod', one-le-pow}
use native.Mathlib.Omega.{arith}
use distributed_enclave.Common.Xor.{div_mod_fields, and_zero-digits}

abbrev and_digits : ℕ → ℕ → ℕ → ℕ
and_digits n a b = digits (λ y. zero) min n a b

and_digits_none : (n b : ℕ) → and_digits n 0 b ≡ 0
and_digits_none zero b = refl
and_digits_none (suc n) b = refl

-- Fuel from the first number on makes no difference.
and_digits_enough : (n m a b : ℕ) → a ≤ n → a ≤ m → and_digits n a b ≡ and_digits m a b
and_digits_enough n m zero b p q = and_digits_none n b ∙ sym (and_digits_none m b)
and_digits_enough zero m (suc a) b p q = absurd (omega arith)
and_digits_enough (suc n) zero (suc a) b p q = absurd (omega arith)
and_digits_enough (suc n) (suc m) (suc a) b p q =
    ap (λ rest. rest * 2 + min (suc a % 2) (b % 2))
      (and_digits_enough n m (suc a / 2) (b / 2) (omega arith) (omega arith))

lowest_and : (a b : ℕ) → bit_and a b ≡ bit_and (a / 2) (b / 2) * 2 + min (a % 2) (b % 2)
lowest_and zero b = omega (arith, bit_and-bitwise 0 b, bit_and-bitwise 0 (b / 2))
lowest_and (suc a) b =
    bit_and-bitwise (suc a) b
    ∙ ap (λ rest. rest * 2 + min (suc a % 2) (b % 2))
        (and_digits_enough a (suc a / 2) (suc a / 2) (b / 2) (omega arith) (omega arith)
          ∙ sym (bit_and-bitwise (suc a / 2) (b / 2)))

-- A remainder, digit by digit.
lowest_mod : (a p : ℕ) → 0 < p → a % (p * 2) ≡ a / 2 % p * 2 + a % 2
lowest_mod a p pos =
    let m = a / 2 in
    let split = div-add-mod' m p in
    let whole : a ≡ m / p * (p * 2) + (m % p * 2 + a % 2) =
      omega (arith, split, ap (λ (t : ℕ). t * 2) split) in
    ap (λ t. t % (p * 2)) whole
    ∙ (div_mod_fields (m / p) (m % p * 2 + a % 2) (p * 2) (omega (arith, mod-lt m pos))).1

bit_and-zero : (a : ℕ) → bit_and a 0 ≡ 0
bit_and-zero a = bit_and-bitwise a 0 ∙ and_zero-digits a a

pub bit_and-mask : (k a : ℕ) → bit_and a (2 ^ k - 1) ≡ a % 2 ^ k
bit_and-mask zero a = omega (arith, bit_and-zero a)
bit_and-mask (suc k) a =
    let p = 2 ^ k in
    let pos : 0 < p = one-le-pow k 2 (omega arith) in
    let twice : 2 ^ suc k ≡ p * 2 = omega (arith, pow-suc 2 k) in
    let half : (p * 2 - 1) / 2 ≡ p - 1 = omega (arith, pos) in
    let one : (p * 2 - 1) % 2 ≡ 1 = omega (arith, pos) in
    rw twice (
      lowest_and a (p * 2 - 1)
      ∙ rw (half, one, bit_and-mask k (a / 2)) (omega (arith, lowest_mod a p pos)))
