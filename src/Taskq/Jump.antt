-- ===== src/Taskq/Jump.antt =====
-- The master's jump against the worker's loop: `build_xorshift_jump` is a fast power of the linear
-- map of one step.
use distributed_enclave.Common.{ℕ, zero, suc, ◌+◌, ◌*◌, ◌/◌, ◌%◌, ◌^◌, ◌<◌, bit_and}
use distributed_enclave.Common.{◌≡◌, refl, sym, ap, ◌∙◌, arith, List, map, lt_wf}
use distributed_enclave.Common.{inl, inr, ◌⊎◌, ◌==◌, if◌then◌else◌}
use distributed_enclave.Common.Xor.{bit_and-one}
use distributed_enclave.Taskq.{
  xorshift64_step, run_iterations, linear_map_apply, linear_map_compose, unit_bits, jump_loop,
  build_xorshift_jump, half_shrinks,
}
use distributed_enclave.Taskq.Linear.{
  select, select-map, mod-two-cases, select-compose, select-unit_bits, linear_map_apply-select,
  xorshift64_step-IsLinear, xorshift64_step-lt,
}
use mathlib.Core.WellFounded.{Acc}
use mathlib.Core.Logic.{dif_pos, dif_neg}
use native.Mathlib.Decide.{dec_lt}
use native.Mathlib.Bridge.{le_prop}

ℕ-cases : (n : ℕ) → (n ≡ 0) ⊎ ((k : ℕ) × (n ≡ suc k))
ℕ-cases zero = inl refl
ℕ-cases (suc k) = inr (k, refl)

abbrev iterate : ℕ → (ℕ → ℕ) → ℕ → ℕ
iterate zero f v = v
iterate (suc n) f v = iterate n f (f v)

sum_suc : (m n : ℕ) → suc m + n ≡ suc (m + n)
sum_suc m n = omega arith

iterate-add : (m n : ℕ) (f : ℕ → ℕ) (v : ℕ) → iterate (m + n) f v ≡ iterate n f (iterate m f v)
iterate-add zero n f v = let e : zero + n ≡ n = omega arith in ap (λ k. iterate k f v) e
iterate-add (suc m) n f v = ap (λ k. iterate k f v) (sum_suc m n) ∙ iterate-add m n f (f v)

double_suc : (n : ℕ) → suc n * 2 ≡ suc (suc (n * 2))
double_suc n = omega arith

-- Twice the rounds of `f` are the rounds of `f` after `f`.
iterate-double : (n : ℕ) (f : ℕ → ℕ) (v : ℕ) → iterate (n * 2) f v ≡ iterate n (λ x. f (f x)) v
iterate-double zero f v = refl
iterate-double (suc n) f v = ap (λ k. iterate k f v) (double_suc n) ∙ iterate-double n f (f (f v))

iterate_congr :
    (n : ℕ) (f g : ℕ → ℕ) (v : ℕ) → ((x : ℕ) → f x ≡ g x) → iterate n f v ≡ iterate n g v
iterate_congr zero f g v same = refl
iterate_congr (suc n) f g v same = ap (iterate n f) (same v) ∙ iterate_congr n f g (g v) same

-- What one round of the loop does to the two maps.
next_jump : ℕ → List ℕ → List ℕ → List ℕ
next_jump n base jump = if bit_and n 1 == 1 then linear_map_compose base jump else jump

next_base : ℕ → List ℕ → List ℕ
next_base n base = if n / 2 == 0 then base else linear_map_compose base base

select-next_jump :
    (n : ℕ) (base jump : List ℕ) (v : ℕ)
    → select (next_jump n base jump) v ≡ iterate (n % 2) (select base) (select jump v)
unfolding next_jump
select-next_jump n base jump v = elim (mod-two-cases n) [
  | inl e ↦ rw (bit_and-one n, e) refl
  | inr e ↦ rw (bit_and-one n, e) (select-compose base jump v)
]

next_base_more :
    (n : ℕ) (base : List ℕ) (k : ℕ)
    → n / 2 ≡ suc k
    → next_base n base ≡ linear_map_compose base base
unfolding next_base
next_base_more n base k e = ground arith

iterate-next_base :
    (n : ℕ) (base : List ℕ) (x : ℕ)
    → iterate (n / 2) (select (next_base n base)) x ≡ iterate (n / 2 * 2) (select base) x
iterate-next_base n base x = elim (ℕ-cases (n / 2)) [
  | inl e ↦ rw e refl
  | inr (k, e) ↦
      rw (next_base_more n base k e, e)
        (iterate_congr (suc k) (select (linear_map_compose base base))
            (λ y. select base (select base y)) x (select-compose base base)
          ∙ sym (iterate-double (suc k) (select base) x))
]

-- The loop applies the base map `iterations` times behind the map that it has built so far.
jump_loop-iterate :
    (n : ℕ) (w : Acc ◌<◌ n) (base jump : List ℕ) (v : ℕ)
    → select (jump_loop n w base jump) v ≡ iterate n (select base) (select jump v)
unfolding jump_loop next_jump next_base
jump_loop-iterate n (Acc.intro _ smaller) base jump v = elim (dec_lt 0 n) [
  | yes p ↦ rw (dif_pos _ le_prop p) (
      let halves : n % 2 + n / 2 * 2 ≡ n = omega arith in
      jump_loop-iterate (n / 2) (smaller (n / 2) (half_shrinks n p)) (next_base n base)
        (next_jump n base jump) v
      ∙ iterate-next_base n base _
      ∙ ap (iterate (n / 2 * 2) (select base)) (select-next_jump n base jump v)
      ∙ sym (iterate-add (n % 2) (n / 2 * 2) (select base) (select jump v))
      ∙ ap (λ k. iterate k (select base) (select jump v)) halves)
  | no p ↦
      rw (dif_neg _ p)
        (let e : n ≡ 0 = omega arith in ap (λ k. iterate k (select base) (select jump v)) (sym e))
]

abbrev step_map : List ℕ
step_map = map xorshift64_step (unit_bits 64 0)

select-step_map : (v : ℕ) → v < 2 ^ 64 → select step_map v ≡ xorshift64_step v
select-step_map v h =
    sym (select-map xorshift64_step xorshift64_step-IsLinear (unit_bits 64 0) v)
    ∙ ap xorshift64_step (select-unit_bits 64 0 v h ∙ omega arith)

run_iterations-iterate : (n v : ℕ) → v < 2 ^ 64 → run_iterations n v ≡ iterate n (select step_map) v
unfolding run_iterations
run_iterations-iterate zero v h = refl
run_iterations-iterate (suc n) v h =
    run_iterations-iterate n (xorshift64_step v) (xorshift64_step-lt v h)
    ∙ ap (iterate n (select step_map)) (sym (select-step_map v h))

select-build_xorshift_jump :
    (n v : ℕ)
    → select (build_xorshift_jump n) v ≡ iterate n (select step_map) (select (unit_bits 64 0) v)
unfolding build_xorshift_jump
select-build_xorshift_jump n v = jump_loop-iterate n (lt_wf.apply n) step_map (unit_bits 64 0) v

-- For every count and every 64-bit token, the map that the master builds takes the token to the
-- one that the worker reaches by running the iterations.
pub build_xorshift_jump-run_iterations :
    (iterations token : ℕ)
    → token < 2 ^ 64
    → linear_map_apply (build_xorshift_jump iterations) token ≡ run_iterations iterations token
build_xorshift_jump-run_iterations n v h =
    linear_map_apply-select (build_xorshift_jump n) v
    ∙ select-build_xorshift_jump n v
    ∙ ap (iterate n (select step_map)) (select-unit_bits 64 0 v h ∙ omega arith)
    ∙ sym (run_iterations-iterate n v h)
