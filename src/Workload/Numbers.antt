-- ===== src/Workload/Numbers.antt =====
-- Natural numbers in the place of doubles, for the runs.
use distributed_enclave.Common.{ℕ, ◌+◌, ◌-◌, ◌*◌, ◌/◌, refl, arith, true, ltb, ◌==◌, if◌then◌else◌}
use distributed_enclave.Workload.Doubles.{Doubles, IsIeee}
use distributed_enclave.Workload.Vmap.Session.{VmapFinite}

abbrev pub numbers : Doubles ℕ
numbers = record {
  from_nat = λ n. n;
  d1_25 = 1;
  d0_5 = 0;
  d1e_9 = 0;
  add = λ a b. a + b;
  sub = λ a b. a - b;
  mul = λ a b. a * b;
  div = λ a b. a / b;
  fabs = λ a. a;
  sqrt = λ a. a;
  fmax = λ a b. if ltb a b then b else a;
  isfinite = λ a. true;
  eq = λ a b. a == b;
  gt = λ a b. ltb b a;
}

pub numbers-IsIeee : IsIeee ℕ numbers
numbers-IsIeee = record {
  add_exact = λ a b h. refl;
  mul_exact = λ a b h. refl;
  whole_finite = λ n h. refl;
  eq_refl = λ x h. ground arith;
  sub_self = λ x h. omega arith;
  fabs_zero = refl;
  tolerance = λ x. ground arith;
}

pub numbers-VmapFinite : (count : ℕ) → VmapFinite numbers count
numbers-VmapFinite count = record { values = λ i. refl; total = refl }
