-- ===== src/Cg/Tests.antt =====
-- A product over three workers, with numbers in the place of doubles.
use distributed_enclave.Common.{
  ℕ, zero, suc, ◌/◌, ◌%◌, ◌+◌, ◌*◌, ◌≤◌, ◌<◌, ◌≡◌, refl, arith, true, List, [], ◌∷◌, some, fill,
  ◌++◌, Option,
}
use distributed_enclave.Cg.{
  Doubles, Csr, ptr, generate_sparse_matrix, spmv_kernel, gather_rows, spmv_row, row_sum,
}
use distributed_enclave.Cg.Rounds.{cg_cmd, run_cg_master, run_cg_workload}
use distributed_enclave.Cg.Rounds.Sends.{power, part, part_answers}
use distributed_enclave.Cg.Rounds.Session.{cg_messages, cg_session}
use distributed_enclave.Cg.Rounds.Served.{repeated}
use distributed_enclave.Workload.{NpbCmd, workload_cg, Out, command, complete, Sending, served}
use distributed_enclave.Workload.Loops.{to_worker, rows_of}
use distributed_enclave.Workload.Numbers
use distributed_enclave.Cg.Gather.{gather_rows-spmv_kernel}

abbrev numbers : Doubles ℕ
numbers = record { zero_d = 0; add = λ a b. a + b; mul = λ a b. a * b }

abbrev matrix : Csr ℕ
matrix = record {
  row_ptr = fill (λ i. i * 2) 0 6;
  col_idx = 0 ∷ 1 ∷ 1 ∷ 2 ∷ 2 ∷ 3 ∷ 3 ∷ 4 ∷ 4 ∷ 0 ∷ [];
  val = 1 ∷ 2 ∷ 3 ∷ 4 ∷ 5 ∷ 6 ∷ 7 ∷ 8 ∷ 9 ∷ 1 ∷ [];
}

abbrev vector : List ℕ
vector = 1 ∷ 2 ∷ 3 ∷ 4 ∷ 5 ∷ []

abbrev counting : ℕ → ℕ
counting k = (k / 2 + 3 * k) % 7

matrix-Rising : (i : ℕ) → i < 5 → ptr matrix i ≤ ptr matrix (i + 1)
matrix-Rising zero h = omega arith
matrix-Rising (suc zero) h = omega arith
matrix-Rising (suc (suc zero)) h = omega arith
matrix-Rising (suc (suc (suc zero))) h = omega arith
matrix-Rising (suc (suc (suc (suc zero)))) h = omega arith
matrix-Rising (suc (suc (suc (suc (suc i))))) h = absurd (omega arith)

product_run : spmv_kernel numbers 5 matrix vector ≡ 5 ∷ 18 ∷ 39 ∷ 68 ∷ 46 ∷ []
unfolding spmv_kernel spmv_row row_sum
product_run = refl

gather_rows-spmv_kernel_example :
    gather_rows numbers 5 3 matrix vector 0 3 ≡ spmv_kernel numbers 5 matrix vector
gather_rows-spmv_kernel_example =
    gather_rows-spmv_kernel numbers matrix vector 5 3 matrix-Rising (omega arith)

abbrev small : Csr ℕ
small = record { row_ptr = 0 ∷ 2 ∷ 4 ∷ []; col_idx = 0 ∷ 1 ∷ 0 ∷ 1 ∷ []; val = 1 ∷ 3 ∷ 5 ∷ 7 ∷ [] }

small_generated : generate_sparse_matrix (λ k. k / 2) (λ r. 2 * r + 1) true 2 2 ≡ some small
unfolding generate_sparse_matrix
small_generated = refl

abbrev cg_cmds : ℕ → NpbCmd
cg_cmds w = cg_cmd true 2 2 2 3 2 w

abbrev cg_sending : Sending ℕ
cg_sending =
    run_cg_master Numbers.numbers 2 true 2 2 2 3 (some small)
      (λ run iter w. part_answers Numbers.numbers 2 small 2 iter w) []

cg_session_example :
    (cg_sending.1 ≡ complete (rows_of workload_cg 2 true 1 2))
    × ((w : ℕ)
        → w < 2
        → let messages = cg_messages Numbers.numbers 2 3 2 2 small w in
          (to_worker w cg_sending.0 ≡ some (command (cg_cmds w)) ∷ messages)
          × ((rest : List (Option (Out ℕ)))
              → run_cg_workload Numbers.numbers (cg_cmds w) true (messages ++ rest) ≡ (
                repeated 2 (
                    fill
                      (λ k. part Numbers.numbers 2 small 2 w (power Numbers.numbers 2 small k))
                      0
                      3),
                served rest,
              )))
cg_session_example =
    cg_session Numbers.numbers (λ k. k / 2) (λ r. 2 * r + 1) small 2 2 3 2 2 true small_generated
      (omega arith) (omega arith) (omega arith) (omega arith) (omega arith)
