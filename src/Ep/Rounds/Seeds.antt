-- ===== src/Ep/Rounds/Seeds.antt =====
-- The states from which the workers' generators start.
use distributed_enclave.Common.{
  ℕ, ◌-◌, ◌/◌, ◌%◌, ◌≤◌, ◌<◌, ◌≡◌, refl, sym, ap, ◌∙◌, arith, bit_and, false, ◌==◌,
}
use native.Mathlib.Nat.{mul-le-mul_right, mul-le-mul_left}
use distributed_enclave.Common.Int.{pos}
use distributed_enclave.Common.Xor.{div_mod_fields}
use distributed_enclave.Common.And.{bit_and-mask}
use distributed_enclave.Ep.{initial_state, npb_modulus}
use distributed_enclave.Ep.Rounds.{seed_of}
use distributed_enclave.Workload.{max_runs}

initial_state-pos : (seed : ℕ) → 0 < seed → seed < npb_modulus → initial_state (pos seed) ≡ seed
unfolding initial_state
initial_state-pos seed some_bit small =
    let kept : bit_and seed (npb_modulus - 1) ≡ seed =
      bit_and-mask 46 seed ∙ omega (arith, small) in
    let not_zero : (seed == 0) ≡ false = ground arith in rw (initial_state, kept, not_zero) refl

seed_of_small :
    (nworkers run w : ℕ)
    → 1 ≤ run
    → run ≤ max_runs
    → w < nworkers
    → nworkers ≤ 128
    → (0 < seed_of nworkers run w) × (seed_of nworkers run w < npb_modulus)
seed_of_small nworkers run w some_run last known few = (
  omega (arith, known, some_run, mul-le-mul_right nworkers some_run),
  omega (arith, known, few, mul-le-mul_left run few, mul-le-mul_right 128 last),
)

-- Within the bounds of the options, the generators of two workers, or of two runs, start from
-- different states.
pub seed_of_distinct :
    (nworkers run run' w w' : ℕ)
    → nworkers ≤ 128
    → 1 ≤ run
    → run ≤ max_runs
    → w < nworkers
    → 1 ≤ run'
    → run' ≤ max_runs
    → w' < nworkers
    → initial_state (pos (seed_of nworkers run w)) ≡ initial_state (pos (seed_of nworkers run' w'))
    → (run ≡ run') × (w ≡ w')
seed_of_distinct nworkers run run' w w' few r₁ r₂ r₃ r₁' r₂' r₃' e =
    let (low, small) = seed_of_small nworkers run w r₁ r₂ r₃ few in
    let (low', small') = seed_of_small nworkers run' w' r₁' r₂' r₃' few in
    let same : seed_of nworkers run w ≡ seed_of nworkers run' w' =
      sym (initial_state-pos _ low small) ∙ e ∙ initial_state-pos _ low' small' in
    let (runs, workers) = div_mod_fields run w nworkers r₃ in
    let (runs', workers') = div_mod_fields run' w' nworkers r₃' in
    (
      sym runs ∙ ap (λ s. s / nworkers) same ∙ runs',
      sym workers ∙ ap (λ s. s % nworkers) same ∙ workers',
    )
