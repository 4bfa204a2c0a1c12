-- ===== src/Cg/Rounds.antt =====
-- The rounds of the CG workload: `main` of src/master_npb.c sends each worker its rows and then the
-- vector of each iteration; `main` of src/worker_npb.c returns its part of the product.
pub mod Sends
pub mod Served
pub mod Session
pub mod Within
use distributed_enclave.Common.{
  ℕ, zero, suc, ◌+◌, ◌-◌, ◌*◌, ◌/◌, ◌^◌, Bool, true, false, not, ◌||◌, ltb, leb, ◌==◌, length,
}
use distributed_enclave.Common.{
  List, [], ◌∷◌, ◌++◌, map, Option, none, some, if◌then◌else◌, get_or, fill, replicate,
}
use distributed_enclave.Wire.{npub_bytes, abytes}
use distributed_enclave.Cg.{Csr, int_max, row_start, row_count, row_slice, spmv_kernel}
use distributed_enclave.Cg
use distributed_enclave.Workload.{
  NpbCmd, zero_cmd, cmd_npb_start, workload_cg, NpbResult, record_if_room, Out, command, cg_rowptr,
  cg_colidx, cg_val, cg_x, complete, refused, Sending, after_sends, to_all, WorkerEnd, failed,
  waiting, Heard, answer, fails, other_tag, worker_loop,
}
use distributed_enclave.Workload.Doubles.{Doubles}

abbrev pub size_max : ℕ
size_max = 2 ^ 64 - 1

abbrev pub cg_cmd : Bool → ℕ → ℕ → ℕ → ℕ → ℕ → ℕ → NpbCmd
cg_cmd encrypt num_runs cg_n cg_nzpc cg_iters nworkers w = record zero_cmd {
  cmd = cmd_npb_start;
  workload = workload_cg;
  encrypt_data = encrypt;
  num_runs = num_runs;
  cg_rows = cg_n;
  cg_row_start = row_start cg_n nworkers w;
  cg_row_count = row_count cg_n nworkers w;
  cg_n = cg_n;
  cg_nzpc = cg_nzpc;
  cg_iters = cg_iters;
}

-- The largest number of bytes that `send_bulk` and `recv_bulk` take in one message.
abbrev pub bulk_limit : Bool → ℕ
bulk_limit encrypt = if encrypt then int_max - npub_bytes - abytes else int_max

abbrev pub bulk_fits : Bool → ℕ → Bool
bulk_fits encrypt bytes = leb bytes (bulk_limit encrypt)

module _ {D : Type 0} (ops : Doubles D) where
  abbrev pub cg_ops : Cg.Doubles D
  cg_ops = record { zero_d = ops.from_nat 0; add = ops.add; mul = ops.mul }

  -- `for (i = 0; i < cg_n; i++) norm += y[i] * y[i];`
  unfoldable pub norm_loop : D → List D → D
  norm_loop norm [] = norm
  norm_loop norm (y ∷ ys) = norm_loop (ops.add norm (ops.mul y y)) ys

  -- The update of `x` behind an iteration.
  unfoldable pub normalised : List D → List D → List D
  normalised x y =
      let norm = ops.sqrt (norm_loop (ops.from_nat 0) y) in
      if ops.gt norm (ops.from_nat 0) then map (λ yi. ops.div yi norm) y else x

  abbrev pub start_vector : ℕ → List D
  start_vector cg_n = replicate cg_n (ops.div (ops.from_nat 1) (ops.from_nat cg_n))

module _ {D : Type 0} where
  -- A bulk message and what follows it; `false` is MPI_Abort in `send_bulk`, after the sends listed.
  abbrev pub bulk_then : Bool → ℕ → ℕ × Out D → List (ℕ × Out D) × Bool → List (ℕ × Out D) × Bool
  bulk_then encrypt bytes send (sends, all_sent) =
      if bulk_fits encrypt bytes then (send ∷ sends, all_sent) else ([], false)

  abbrev pub command_then : ℕ × Out D → List (ℕ × Out D) × Bool → List (ℕ × Out D) × Bool
  command_then send (sends, all_sent) = (send ∷ sends, all_sent)

  -- The command and the rows of each worker, from worker `w` on: ints of 4 bytes, doubles of 8.
  unfoldable pub send_slices : Bool → (ℕ → NpbCmd) → ℕ → ℕ → Csr D → ℕ → ℕ → List (ℕ × Out D) × Bool
  send_slices encrypt cmd cg_n nworkers a zero w = ([], true)
  send_slices encrypt cmd cg_n nworkers a (suc left) w =
      let slice = row_slice a (row_start cg_n nworkers w) (row_count cg_n nworkers w) in
      command_then (w, command (cmd w))
        (bulk_then encrypt (4 * length slice.row_ptr) (w, cg_rowptr slice.row_ptr)
          (bulk_then encrypt (4 * length slice.col_idx) (w, cg_colidx slice.col_idx)
            (bulk_then encrypt (8 * length slice.val) (w, cg_val slice.val)
              (send_slices encrypt cmd cg_n nworkers a left (w + 1)))))

  -- The parts of `y` from worker `w` on: `none` is MPI_Abort. A part comes with the test of the time.
  unfoldable pub gather_parts :
      Bool → ℕ → ℕ → (ℕ → Option (List D × Bool)) → ℕ → ℕ → Option (List D)
  gather_parts encrypt cg_n nworkers answers zero w = some []
  gather_parts encrypt cg_n nworkers answers (suc left) w = elim (answers w) [
    | none ↦ none
    | some (part, time_ok) ↦
        (let rest = gather_parts encrypt cg_n nworkers answers left (w + 1) in
          if not (bulk_fits encrypt (8 * row_count cg_n nworkers w))
            || (not (length part == row_count cg_n nworkers w) || not time_ok)
          then none
          else elim rest [ none ↦ none | some y ↦ some (part ++ y) ])
  ]

abbrev pub after_slices : {D : Type 0} → List (ℕ × Out D) × Bool → Sending D → Sending D
after_slices (sends, false) next = (sends, refused)
after_slices (sends, true) next = after_sends sends next

abbrev pub before :
    {D : Type 0}
    → List (ℕ × Out D)
    → List (ℕ × Out D) × Option (List D)
    → List (ℕ × Out D) × Option (List D)
before sends (more, x) = (sends ++ more, x)

module _ {D : Type 0} (ops : Doubles D) where
  -- The loop over the iterations from `iter` on, for at least one worker: what is sent, and the last
  -- `x`. A vector that is too large ends the process at the first send.
  unfoldable pub cg_iterations :
      Bool
      → ℕ
      → ℕ
      → (ℕ → ℕ → Option (List D × Bool))
      → ℕ
      → ℕ
      → List D
      → List (ℕ × Out D) × Option (List D)
  cg_iterations encrypt cg_n nworkers answers zero iter x = ([], some x)
  cg_iterations encrypt cg_n nworkers answers (suc left) iter x =
      elim (bulk_fits encrypt (8 * length x)) [
        | false ↦ ([], none)
        | true ↦
            before (to_all nworkers (cg_x x))
              (elim (gather_parts encrypt cg_n nworkers (answers iter) nworkers 0) [
                | none ↦ ([], none)
                | some y ↦
                    cg_iterations encrypt cg_n nworkers answers left (iter + 1) (normalised ops x y)
              ])
      ]

  -- The loop over the runs from `run` on; `refused` is MPI_Abort.
  unfoldable pub cg_runs :
      ℕ → ℕ → ℕ → Bool → (ℕ → ℕ → ℕ → Option (List D × Bool)) → ℕ → ℕ → List NpbResult → Sending D
  cg_runs cg_n cg_iters nworkers encrypt answers zero run rows = ([], complete rows)
  cg_runs cg_n cg_iters nworkers encrypt answers (suc left) run rows =
      let (sends, last_x) =
        cg_iterations encrypt cg_n nworkers (answers run) cg_iters 0 (start_vector ops cg_n) in
      after_sends sends (elim last_x [
        | none ↦ ([], refused)
        | some x ↦
            cg_runs cg_n cg_iters nworkers encrypt answers left (run + 1)
              (record_if_room workload_cg nworkers encrypt run rows)
      ])

  -- From the generated matrix on; `none` is a matrix that was not generated.
  unfoldable pub run_cg_master :
      ℕ
      → Bool
      → ℕ
      → ℕ
      → ℕ
      → ℕ
      → Option (Csr D)
      → (ℕ → ℕ → ℕ → Option (List D × Bool))
      → List NpbResult
      → Sending D
  run_cg_master nworkers encrypt num_runs cg_n cg_nzpc cg_iters none answers rows = ([], refused)
  run_cg_master nworkers encrypt num_runs cg_n cg_nzpc cg_iters (some a) answers rows =
      after_slices
        (send_slices encrypt (cg_cmd encrypt num_runs cg_n cg_nzpc cg_iters nworkers) cg_n nworkers
          a nworkers 0)
        (cg_runs cg_n cg_iters nworkers encrypt answers num_runs 1 rows)

  -- The vector of an iteration, and the part that goes back.
  abbrev pub cg_respond : Bool → ℕ → ℕ → Csr D → ℕ → Out D → Heard (List D)
  cg_respond encrypt nrows cg_n slice run (cg_x x) =
      if not (length x == cg_n) || not (bulk_fits encrypt (8 * nrows))
      then fails
      else answer (spmv_kernel (cg_ops ops) nrows slice x)
  cg_respond encrypt nrows cg_n slice run _ = other_tag

  -- The receives of the worker's rows, the last one first. What is too large for `recv_bulk` is turned
  -- down before it is waited for.
  abbrev pub receive_val :
      NpbCmd → List ℕ → List ℕ → List (Option (Out D)) → List (List D) × WorkerEnd D
  receive_val cmd row_ptr col_idx [] = ([], waiting)
  receive_val cmd row_ptr col_idx (none ∷ messages) = ([], failed)
  receive_val cmd row_ptr col_idx (some (cg_val val) ∷ messages) =
      if not (length val == get_or row_ptr cmd.cg_row_count 0)
      then ([], failed)
      else if not (bulk_fits cmd.encrypt_data (8 * cmd.cg_n))
      then ([], failed)
      else worker_loop
          (cg_respond cmd.encrypt_data cmd.cg_row_count cmd.cg_n
            (record { row_ptr = row_ptr; col_idx = col_idx; val = val }))
          (cmd.num_runs * cmd.cg_iters) 1 messages
  receive_val cmd row_ptr col_idx (some _ ∷ messages) = ([], waiting)

  abbrev pub receive_colidx : NpbCmd → List ℕ → List (Option (Out D)) → List (List D) × WorkerEnd D
  receive_colidx cmd row_ptr [] = ([], waiting)
  receive_colidx cmd row_ptr (none ∷ messages) = ([], failed)
  receive_colidx cmd row_ptr (some (cg_colidx col_idx) ∷ messages) =
      if not (length col_idx == get_or row_ptr cmd.cg_row_count 0)
      then ([], failed)
      else if not (bulk_fits cmd.encrypt_data (8 * get_or row_ptr cmd.cg_row_count 0))
      then ([], failed)
      else receive_val cmd row_ptr col_idx messages
  receive_colidx cmd row_ptr (some _ ∷ messages) = ([], waiting)

  abbrev pub receive_rowptr : NpbCmd → List (Option (Out D)) → List (List D) × WorkerEnd D
  receive_rowptr cmd [] = ([], waiting)
  receive_rowptr cmd (none ∷ messages) = ([], failed)
  receive_rowptr cmd (some (cg_rowptr row_ptr) ∷ messages) =
      if not (length row_ptr == cmd.cg_row_count + 1)
        || ltb (size_max / 8) (get_or row_ptr cmd.cg_row_count 0)
      then ([], failed)
      else if not (bulk_fits cmd.encrypt_data (4 * get_or row_ptr cmd.cg_row_count 0))
      then ([], failed)
      else receive_colidx cmd row_ptr messages
  receive_rowptr cmd (some _ ∷ messages) = ([], waiting)

  -- `allocated` says that all mallocs succeed. The numbers of the command are not negative.
  unfoldable pub run_cg_workload :
      NpbCmd → Bool → List (Option (Out D)) → List (List D) × WorkerEnd D
  run_cg_workload cmd allocated messages =
      if (cmd.cg_n == 0)
        || ((cmd.cg_iters == 0)
            || ((cmd.num_runs == 0)
                || (ltb (size_max / 8) cmd.cg_row_count
                    || (ltb (size_max / 8) cmd.cg_n || ltb (size_max / 4) (cmd.cg_row_count + 1)))))
      then ([], failed)
      else if not allocated
      then ([], failed)
      else if not (bulk_fits cmd.encrypt_data (4 * (cmd.cg_row_count + 1)))
      then ([], failed)
      else receive_rowptr cmd messages
