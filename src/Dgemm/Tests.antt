-- ===== src/Dgemm/Tests.antt =====
-- A product of two workers, with numbers in the place of doubles.
use distributed_enclave.Common.{
  none, Option, length, ◌*◌, ◌==◌, ◌<◌, if◌then◌else◌, Bool-cases, inl, inr,
}
use distributed_enclave.Common.{ℕ, ◌≡◌, refl, arith, true, List, [], ◌∷◌, some}
use native.Mathlib.Nat.{zero-div}
use distributed_enclave.Dgemm.{
  ppdpc_dgemm, bench_run, rows_from, dgemm_row, row_loop, add_row, scale,
}
use distributed_enclave.Dgemm.Rounds.{Tolerant, bench_answers, bench_run-ppdpc_dgemm}
use distributed_enclave.Dgemm.Programs.{
  bench_sizes, bench_complete, bench_worker, wants_command, bench_done,
}
use distributed_enclave.Dgemm.Programs.Runs.{enough_memory, honest_bench, all_rows, all_blocks}
use distributed_enclave.Dgemm.Programs.Session.{bench_session}
use distributed_enclave.Workload.Sends.{to_worker}
use distributed_enclave.Workload.Numbers.{numbers, numbers-IsIeee}

abbrev left : List ℕ
left = 1 ∷ 2 ∷ 3 ∷ 4 ∷ []

abbrev right : List ℕ
right = 5 ∷ 6 ∷ 7 ∷ 8 ∷ []

product_run : ppdpc_dgemm numbers left right 2 2 2 ≡ 19 ∷ 22 ∷ 43 ∷ 50 ∷ []
unfolding ppdpc_dgemm rows_from dgemm_row row_loop add_row
product_run = refl

exact : Tolerant numbers left right 2
exact = record {
  finite = λ row j. refl;
  nothing = λ x h. ground (arith, zero-div (scale numbers x));
}

bench_run-ppdpc_dgemm_example :
    bench_run numbers left right 2 2 true (bench_answers numbers left right 2 2 10 true)
    ≡ some (ppdpc_dgemm numbers left right 2 2 2)
bench_run-ppdpc_dgemm_example =
    bench_run-ppdpc_dgemm numbers left right 2 2 10 true true numbers-IsIeee exact (omega arith)
      refl refl

abbrev matrices : ℕ → Option (List ℕ × List ℕ)
matrices m = if m == 2 then some (left, right) else none

-- An entry of the product is a natural number, which is exact.
matrices_sound :
    (m : ℕ) (a b : List ℕ) → matrices m ≡ some (a, b) → (length b ≡ m * m) × Tolerant numbers a b m
matrices_sound m a b known = elim (Bool-cases (m == 2)) [
  | inr other ↦ absurd (ground (arith, other, known))
  | inl two ↦ (
    ground (arith, two, known),
    record { finite = λ row j. refl; nothing = λ x h. ground (arith, zero-div (scale numbers x)) },
  )
]

bench_session_example :
    let sending =
      bench_sizes numbers (honest_bench numbers 2 10 true true matrices) (2 ∷ 3 ∷ []) [] in
    (sending.1 ≡ bench_complete (all_rows numbers 2 10 true true matrices (2 ∷ 3 ∷ [])))
    × ((w : ℕ)
        → w < 2
        → bench_worker numbers enough_memory wants_command (to_worker w sending.0)
          ≡ (all_blocks numbers 2 10 true true matrices w (2 ∷ 3 ∷ []), bench_done))
bench_session_example =
    bench_session numbers numbers-IsIeee 2 10 true true matrices (omega arith) (omega arith)
      matrices_sound (2 ∷ 3 ∷ []) ((omega arith, omega arith), ((omega arith, omega arith), tt))
      (omega arith)

blocks_run : all_blocks numbers 2 1 true true matrices 1 (2 ∷ 3 ∷ []) ≡ (43 ∷ 50 ∷ []) ∷ []
unfolding rows_from dgemm_row row_loop add_row
blocks_run = refl
