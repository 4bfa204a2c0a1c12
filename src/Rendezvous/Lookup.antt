-- ===== src/Rendezvous/Lookup.antt =====
-- The worker's lookup loop: how long it goes on, and what it takes for a port.
use distributed_enclave.Common.{
  ℕ, zero, suc, ◌+◌, ◌<◌, ◌≡◌, ◌≢◌, ◌≤◌, ◌⊎◌, ◌↔◌, ap, ◌∙◌, sym, arith, true, false, ◌==◌,
}
use distributed_enclave.Common.{none, some, Option-cases, Bool-cases, inl, inr}
use distributed_enclave.Receive.{MpiErrors, mpi_success}
use distributed_enclave.Rendezvous.{Looked, has_nul, starts_with_nul, lookup_round, lookup_loop}

later_round :
    (m : MpiErrors) (fuel : ℕ) (looked : ℕ → Looked) (round : ℕ)
    → lookup_round m (looked round) ≡ none
    → lookup_loop m (suc fuel) looked round ≡ lookup_loop m fuel looked (round + 1)
unfolding lookup_loop
later_round m fuel looked round e = ground arith

lookup_loop-from :
    (m : MpiErrors) (looked : ℕ → Looked) (n fuel round result : ℕ)
    → ((i : ℕ) → i < n → lookup_round m (looked (round + i)) ≡ none)
    → lookup_round m (looked (round + n)) ≡ some result
    → n < fuel
    → lookup_loop m fuel looked round ≡ some (result, round + n)
unfolding lookup_loop
lookup_loop-from m looked n zero round result failed found enough = absurd (omega arith)
lookup_loop-from m looked zero (suc fuel) round result failed found enough = ground (arith, found)
lookup_loop-from m looked (suc n) (suc fuel) round result failed found enough =
    let here : lookup_round m (looked round) ≡ none =
      ap (λ k. lookup_round m (looked k)) (omega arith) ∙ failed 0 (omega arith) in
    later_round m fuel looked round here
    ∙ lookup_loop-from m looked n fuel (round + 1) result
        (λ i h. ap (λ k. lookup_round m (looked k)) (omega arith) ∙ failed (suc i) (omega arith))
        (ap (λ k. lookup_round m (looked k)) (omega arith) ∙ found) (omega arith)
    ∙ ap (λ k. some (result, k)) (omega arith)

-- Rounds that end in a sleep are repeated, and the first one that does not gives the result: more
-- rounds of fuel than sleeps are enough.
pub lookup_loop-first :
    (m : MpiErrors) (looked : ℕ → Looked) (n fuel result : ℕ)
    → ((i : ℕ) → i < n → lookup_round m (looked i) ≡ none)
    → lookup_round m (looked n) ≡ some result
    → n < fuel
    → lookup_loop m fuel looked 0 ≡ some (result, n)
lookup_loop-first m looked n fuel result failed found enough =
    lookup_loop-from m looked n fuel 0 result
      (λ i h. ap (λ k. lookup_round m (looked k)) (omega arith) ∙ failed i h)
      (ap (λ k. lookup_round m (looked k)) (omega arith) ∙ found) enough
    ∙ ap (λ k. some (result, k)) (omega arith)

-- A failed lookup whose class says that there is no such name or no name service.
abbrev pub Absent : MpiErrors → Looked → Type 0
Absent m looked =
    (looked.lookup_result ≢ mpi_success)
    × (looked.class_result ≡ mpi_success)
    × ((looked.error_class ≡ m.mpi_err_name) ⊎ (looked.error_class ≡ m.mpi_err_service))

-- A successful lookup with a port that is not empty and is terminated.
abbrev pub Usable : Looked → Type 0
Usable looked =
    (looked.lookup_result ≡ mpi_success)
    × (starts_with_nul looked.port ≡ false)
    × (has_nul looked.port ≡ true)

module _ (m : MpiErrors) where
  Absent-round : (looked : Looked) → Absent m looked → lookup_round m looked ≡ none
  unfolding lookup_round
  Absent-round looked absent = ground arith

  round-Absent : (looked : Looked) → lookup_round m looked ≡ none → Absent m looked
  unfolding lookup_round
  round-Absent looked e = (ground arith, ground arith, ground arith)

  Usable-round : (looked : Looked) → Usable looked → lookup_round m looked ≡ some mpi_success
  unfolding lookup_round
  Usable-round looked usable = ground arith

  round-Usable :
      (looked : Looked)
      → m.mpi_err_port ≢ mpi_success
      → lookup_round m looked ≡ some mpi_success
      → Usable looked
  unfolding lookup_round
  round-Usable looked code e = (ground arith, ground arith, ground arith)

  module _ (looked : ℕ → Looked) (n : ℕ) where
    stops_here :
        (fuel round result : ℕ)
        → lookup_round m (looked round) ≡ some result
        → lookup_loop m (suc fuel) looked round ≡ some (result, round)
    unfolding lookup_loop
    stops_here fuel round result e = ground (arith, e)

    -- The rounds that a loop with success as its result went through.
    rounds_before :
        (fuel round : ℕ)
        → lookup_loop m fuel looked round ≡ some (mpi_success, n)
        → ((i : ℕ) → round ≤ i → i < n → lookup_round m (looked i) ≡ none)
          × (lookup_round m (looked n) ≡ some mpi_success)
    unfolding lookup_loop
    rounds_before zero round e = absurd (ground arith)
    rounds_before (suc fuel) round e = elim (Option-cases (lookup_round m (looked round))) [
      | inl sleeps ↦
          let (before, last) =
            rounds_before fuel (round + 1) (sym (later_round m fuel looked round sleeps) ∙ e) in
          (
            λ i low high. elim (Bool-cases (round == i)) [
              | inl here ↦ ap (λ k. lookup_round m (looked k)) (ground arith) ∙ sleeps
              | inr apart ↦ before i (ground arith) high
            ],
            last,
          )
      | inr (result, is) ↦
          let same : some (result, round) ≡ some (mpi_success, n) =
            sym (stops_here fuel round result is) ∙ e in
          let at : round ≡ n = cc in
          let success : result ≡ mpi_success = cc in
          (
            λ i low high. absurd (omega arith),
            ap (λ k. lookup_round m (looked k)) (sym at) ∙ is ∙ ap some success,
          )
    ]

-- When MPI_ERR_PORT is not the code of success and the rounds allowed are more than `n`: the loop ends
-- with success in round `n`, counted from 0, exactly when in each round before it the lookup failed
-- with a class that says that there is no such name or no name service, and in round `n` it succeeded
-- with a port that is not empty and is terminated.
pub lookup_loop_success_iff :
    (m : MpiErrors) (looked : ℕ → Looked) (n fuel : ℕ)
    → m.mpi_err_port ≢ mpi_success
    → n < fuel
    → (lookup_loop m fuel looked 0 ≡ some (mpi_success, n))
      ↔ (((i : ℕ) → i < n → Absent m (looked i)) × Usable (looked n))
lookup_loop_success_iff m looked n fuel code enough = (
  λ e.
      let (before, last) = rounds_before m looked n fuel 0 e in
      (
        λ i h. round-Absent m (looked i) (before i (omega arith) h),
        round-Usable m (looked n) code last,
      ),
  λ (absent, usable).
      lookup_loop-first m looked n fuel mpi_success (λ i h. Absent-round m (looked i) (absent i h))
        (Usable-round m (looked n) usable) enough,
)
