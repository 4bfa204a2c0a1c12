-- ===== src/Cg/Rounds/Within.antt =====
-- What the worker leaves of its messages in the CG workload.
use distributed_enclave.Common.{ℕ, suc, ◌+◌, Bool, not, length, ◌*◌, ◌/◌, ◌||◌, ltb, ◌==◌}
use distributed_enclave.Common.{
  List, [], ◌∷◌, Option, none, some, true, false, if◌then◌else◌, get_or,
}
use distributed_enclave.Workload.{
  NpbCmd, Out, cg_rowptr, cg_colidx, cg_val, worker_loop, WorkerEnd, failed,
}
use distributed_enclave.Workload.Doubles.{Doubles}
use distributed_enclave.Cg.Rounds.{
  bulk_fits, run_cg_workload, size_max, cg_respond, receive_val, receive_colidx, receive_rowptr,
}
use distributed_enclave.Workload.Within.{Within, more_room, worker_loop-Within}

module _ {D : Type 0} (ops : Doubles D) where
  if-Within :
      (n : ℕ) (turned_down : Bool) (next : List (List D) × WorkerEnd D)
      → Within n next.1
      → Within n (if turned_down then ([], failed) else next).1
  if-Within n true next fits = tt
  if-Within n false next fits = fits

  receive_val-Within :
      (cmd : NpbCmd) (row_ptr col_idx : List ℕ) (messages : List (Option (Out D)))
      → Within (length messages) (receive_val ops cmd row_ptr col_idx messages).1
  receive_val-Within cmd row_ptr col_idx [] = tt
  receive_val-Within cmd row_ptr col_idx (none ∷ messages) = tt
  receive_val-Within cmd row_ptr col_idx (some (cg_val val) ∷ messages) =
      let respond =
        cg_respond ops cmd.encrypt_data cmd.cg_row_count cmd.cg_n
          (record { row_ptr = row_ptr; col_idx = col_idx; val = val }) in
      let vectors = worker_loop respond (cmd.num_runs * cmd.cg_iters) 1 messages in
      let n = length messages in
      if-Within (suc n) (not (length val == get_or row_ptr cmd.cg_row_count 0)) _ (
        if-Within (suc n) (not (bulk_fits cmd.encrypt_data (8 * cmd.cg_n))) vectors (
          more_room n vectors.1
            (worker_loop-Within respond (cmd.num_runs * cmd.cg_iters) 1 messages)))
  receive_val-Within cmd row_ptr col_idx (some _ ∷ messages) = tt

  receive_colidx-Within :
      (cmd : NpbCmd) (row_ptr : List ℕ) (messages : List (Option (Out D)))
      → Within (length messages) (receive_colidx ops cmd row_ptr messages).1
  receive_colidx-Within cmd row_ptr [] = tt
  receive_colidx-Within cmd row_ptr (none ∷ messages) = tt
  receive_colidx-Within cmd row_ptr (some (cg_colidx col_idx) ∷ messages) =
      let entries = get_or row_ptr cmd.cg_row_count 0 in
      let values = receive_val ops cmd row_ptr col_idx messages in
      let n = length messages in
      if-Within (suc n) (not (length col_idx == entries)) _ (
        if-Within (suc n) (not (bulk_fits cmd.encrypt_data (8 * entries))) values
          (more_room n values.1 (receive_val-Within cmd row_ptr col_idx messages)))
  receive_colidx-Within cmd row_ptr (some _ ∷ messages) = tt

  receive_rowptr-Within :
      (cmd : NpbCmd) (messages : List (Option (Out D)))
      → Within (length messages) (receive_rowptr ops cmd messages).1
  receive_rowptr-Within cmd [] = tt
  receive_rowptr-Within cmd (none ∷ messages) = tt
  receive_rowptr-Within cmd (some (cg_rowptr row_ptr) ∷ messages) =
      let entries = get_or row_ptr cmd.cg_row_count 0 in
      let columns = receive_colidx ops cmd row_ptr messages in
      let n = length messages in
      if-Within (suc n) (not (length row_ptr == cmd.cg_row_count + 1) || ltb (size_max / 8) entries)
        _
        (if-Within (suc n) (not (bulk_fits cmd.encrypt_data (4 * entries))) columns
          (more_room n columns.1 (receive_colidx-Within cmd row_ptr messages)))
  receive_rowptr-Within cmd (some _ ∷ messages) = tt

  pub run_cg_workload-Within :
      (cmd : NpbCmd) (allocated : Bool) (messages : List (Option (Out D)))
      → Within (length messages) (run_cg_workload ops cmd allocated messages).1
  unfolding run_cg_workload
  run_cg_workload-Within cmd allocated messages =
      let n = length messages in
      let bad =
        (cmd.cg_n == 0)
        || ((cmd.cg_iters == 0)
            || ((cmd.num_runs == 0)
                || (ltb (size_max / 8) cmd.cg_row_count
                    || (ltb (size_max / 8) cmd.cg_n
                        || ltb (size_max / 4) (cmd.cg_row_count + 1))))) in
      if-Within n bad _ (
        if-Within n (not allocated) _ (
          if-Within n (not (bulk_fits cmd.encrypt_data (4 * (cmd.cg_row_count + 1))))
            (receive_rowptr ops cmd messages) (receive_rowptr-Within cmd messages)))
