-- ===== src/Workload/Doubles.antt =====
-- The operations on `double` that the workloads use. The arithmetic is that of the hardware: a type
-- with these operations, and the facts of IEEE 754 that the checks rely on.
use distributed_enclave.Common.{ℕ, ◌+◌, ◌*◌, ◌^◌, ◌≤◌, ◌≡◌, Bool, true, false}

pub record Doubles (D : Type 0) : Type 0 where
  -- A number of type `size_t`, and a literal without a fraction.
  pub from_nat : ℕ → D
  pub d1_25 : D
  pub d0_5 : D
  pub d1e_9 : D
  pub add : D → D → D
  pub sub : D → D → D
  pub mul : D → D → D
  pub div : D → D → D
  pub fabs : D → D
  pub sqrt : D → D
  pub fmax : D → D → D
  pub isfinite : D → Bool
  pub eq : D → D → Bool
  pub gt : D → D → Bool

abbrev pub exact_max : ℕ
exact_max = 2 ^ 53

-- Whole numbers up to 2^53 are exact; a finite number equals itself and differs from itself by
-- nothing; a bound of the form 1e-9 * max(1, x) is not below 0.
pub record IsIeee (D : Type 0) (ops : Doubles D) : Type 0 where
  pub add_exact :
      (a b : ℕ)
      → a + b ≤ exact_max
      → ops.add (ops.from_nat a) (ops.from_nat b) ≡ ops.from_nat (a + b)
  pub mul_exact :
      (a b : ℕ)
      → a * b ≤ exact_max
      → ops.mul (ops.from_nat a) (ops.from_nat b) ≡ ops.from_nat (a * b)
  pub whole_finite : (n : ℕ) → n ≤ exact_max → ops.isfinite (ops.from_nat n) ≡ true
  pub eq_refl : (x : D) → ops.isfinite x ≡ true → ops.eq x x ≡ true
  pub sub_self : (x : D) → ops.isfinite x ≡ true → ops.sub x x ≡ ops.from_nat 0
  pub fabs_zero : ops.fabs (ops.from_nat 0) ≡ ops.from_nat 0
  pub tolerance :
      (x : D) → ops.gt (ops.from_nat 0) (ops.mul ops.d1e_9 (ops.fmax (ops.from_nat 1) x)) ≡ false
