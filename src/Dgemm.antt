-- ===== src/Dgemm.antt =====
-- The DGEMM benchmark: `ppdpc_dgemm` of src/dgemm_kernel.c, the commands, rounds and checks in `main` of
-- src/master_bench.c with its `verify_row`, and the worker's part in `main` of src/worker_bench.c. A matrix
-- is the list of its doubles, row by row. The handshake and the channel are those of the other programs.
pub mod Product
pub mod Rounds
pub mod Programs
mod Tests
use distributed_enclave.Common.{
  ℕ, zero, suc, ◌+◌, ◌-◌, ◌*◌, ◌/◌, ◌%◌, ◌^◌, Bool, true, false, not, ◌||◌, ◌&&◌, ltb, ◌==◌, length,
}
use distributed_enclave.Common.{
  List, [], ◌∷◌, ◌++◌, Option, none, some, if◌then◌else◌, fill, get_or,
}
use distributed_enclave.Workload.Doubles.{Doubles}

abbrev pub max_bench_matrix_dim : ℕ
max_bench_matrix_dim = 8192

abbrev pub max_bench_runs : ℕ
max_bench_runs = 1000

abbrev pub cmd_bench_size : ℕ
cmd_bench_size = 1

abbrev pub int_max : ℕ
int_max = 2 ^ 31 - 1

pub record BenchCmd : Type 0 where
  pub cmd : ℕ
  pub matrix_size : ℕ
  pub row_start : ℕ
  pub row_count : ℕ
  pub encrypt_data : ℕ
  pub num_runs : ℕ

-- What the master sends to worker `w` for a size.
unfoldable pub bench_size_cmd : ℕ → ℕ → Bool → ℕ → ℕ → BenchCmd
bench_size_cmd m nworkers encrypt num_runs w = record {
  cmd = cmd_bench_size;
  matrix_size = m;
  row_start = w * (m / nworkers);
  row_count = m / nworkers;
  encrypt_data = if encrypt then 1 else 0;
  num_runs = num_runs;
}

-- The worker's conditions on a command, and on the sizes of its buffers. The numbers are not negative.
unfoldable pub bench_cmd_ok : BenchCmd → Bool
bench_cmd_ok c =
    not (
      (c.matrix_size == 0)
      || (ltb max_bench_matrix_dim c.matrix_size
          || ((c.row_count == 0)
              || (ltb c.matrix_size c.row_count
                  || (ltb (c.matrix_size - c.row_count) c.row_start
                      || ((not (c.encrypt_data == 0) && not (c.encrypt_data == 1))
                          || ((c.num_runs == 0) || ltb max_bench_runs c.num_runs)))))))
    && not
        (ltb int_max (c.row_count * c.matrix_size) || ltb int_max (c.matrix_size * c.matrix_size))

module _ {D : Type 0} where
  -- `m` rows from row `i` on, one after the other.
  unfoldable pub rows_from : (ℕ → List D) → ℕ → ℕ → List D
  rows_from row i zero = []
  rows_from row i (suc left) = row i ++ rows_from row (i + 1) left

  module _ (ops : Doubles D) where
    abbrev pub entry : List D → ℕ → D
    entry x i = get_or x i (ops.from_nat 0)

    module _ (a b : List D) (inner_dimension columns : ℕ) where
      -- The innermost loop, on one row of `c`.
      unfoldable pub add_row : D → ℕ → List D → List D
      add_row value inner c =
          fill
            (λ column.
              ops.add (entry c column) (ops.mul value (entry b (inner * columns + column))))
            0 columns

      -- The middle loop from `inner` on.
      unfoldable pub row_loop : ℕ → ℕ → ℕ → List D → List D
      row_loop row zero inner c = c
      row_loop row (suc left) inner c =
          row_loop row left (inner + 1) (add_row (entry a (row * inner_dimension + inner)) inner c)

      -- A row of `c` is zero before the loops.
      unfoldable pub dgemm_row : ℕ → List D
      dgemm_row row = row_loop row inner_dimension 0 (fill (λ column. ops.from_nat 0) 0 columns)

    unfoldable pub ppdpc_dgemm : List D → List D → ℕ → ℕ → ℕ → List D
    ppdpc_dgemm a b rows inner_dimension columns =
        rows_from (dgemm_row a b inner_dimension columns) 0 rows

    -- `expected += A[row * M + k] * B[k * M + j]`, from `k` on.
    unfoldable pub expected_sum : List D → List D → ℕ → ℕ → ℕ → ℕ → ℕ → D → D
    expected_sum a b m row j zero k expected = expected
    expected_sum a b m row j (suc left) k expected =
        expected_sum a b m row j left (k + 1)
          (ops.add expected (ops.mul (entry a (row * m + k)) (entry b (k * m + j))))

    abbrev pub scale : D → D
    scale expected =
        if ops.gt (ops.fabs expected) (ops.from_nat 1) then ops.fabs expected else ops.from_nat 1

    -- `verify_row` from column `j` on.
    unfoldable pub verify_loop : List D → List D → List D → ℕ → ℕ → ℕ → ℕ → Bool
    verify_loop a b c m row zero j = true
    verify_loop a b c m row (suc left) j =
        let rest = verify_loop a b c m row left (j + 1) in
        let expected = expected_sum a b m row j m 0 (ops.from_nat 0) in
        let diff = ops.fabs (ops.sub expected (entry c (row * m + j))) in
        if ops.gt (ops.div diff (scale expected)) ops.d1e_9 then false else rest

    unfoldable pub verify_row : List D → List D → List D → ℕ → ℕ → Bool
    verify_row a b c m row = verify_loop a b c m row m 0

    -- One row of every worker from `w` on.
    unfoldable pub verify_workers : List D → List D → List D → ℕ → ℕ → ℕ → ℕ → Bool
    verify_workers a b c m q zero w = true
    verify_workers a b c m q (suc left) w =
        let rest = verify_workers a b c m q left (w + 1) in
        if not (verify_row a b c m (w * q + q / 2)) then false else rest

    -- The `A_block` that the master sends.
    unfoldable pub a_block : List D → ℕ → BenchCmd → List D
    a_block a m cmd = fill (λ i. entry a (cmd.row_start * m + i)) 0 (cmd.row_count * m)

    -- One run of the worker: `none` is MPI_Abort for a matrix of another size.
    unfoldable pub bench_worker_run : BenchCmd → List D → List D → Option (List D)
    bench_worker_run cmd block b =
        if not (length block == cmd.row_count * cmd.matrix_size)
          || not (length b == cmd.matrix_size * cmd.matrix_size)
        then none
        else some (ppdpc_dgemm block b cmd.row_count cmd.matrix_size cmd.matrix_size)

  -- The blocks of `C` from worker `w` on, with the tests of the times; `none` is MPI_Abort.
  unfoldable pub gather_blocks : ℕ → (ℕ → Option (List D × Bool)) → ℕ → ℕ → Option (List D)
  gather_blocks c_elems answers zero w = some []
  gather_blocks c_elems answers (suc left) w = elim (answers w) [
    | none ↦ none
    | some (block, time_ok) ↦
        (let rest = gather_blocks c_elems answers left (w + 1) in
          if not (length block == c_elems) || not time_ok
          then none
          else elim rest [ none ↦ none | some c ↦ some (block ++ c) ])
  ]

  -- The gathering and the checks of one run; `none` is MPI_Abort. `check` is `verify && run == num_runs`.
  unfoldable pub bench_run :
      Doubles D → List D → List D → ℕ → ℕ → Bool → (ℕ → Option (List D × Bool)) → Option (List D)
  bench_run ops a b m nworkers check answers =
      elim (gather_blocks (m / nworkers * m) answers nworkers 0) [
        | none ↦ none
        | some c ↦
            if check && not (verify_workers ops a b c m (m / nworkers) nworkers 0)
            then none
            else some c
      ]
