-- ===== src/Program/Worker.antt =====
-- The loop over the commands in `main` of src/worker_npb.c.
pub mod Steps
pub mod Fuel
pub mod Encrypted
use distributed_enclave.Common.{ℕ, zero, suc, Bool, true, false, not, ◌&&◌, ◌==◌}
use distributed_enclave.Common.{List, [], ◌∷◌, Option, none, some, if◌then◌else◌}
use distributed_enclave.Workload.{
  NpbCmd, cmd_npb_start, cmd_npb_done, workload_ep, workload_cg, workload_stream, workload_random,
  workload_vmap, workload_taskq, Out, command, ep_seed, WorkerEnd, served, failed, waiting,
}
use distributed_enclave.Workload.Doubles.{Doubles}
use distributed_enclave.Workload.Stream.{run_stream_workload}
use distributed_enclave.Workload.Vmap.{run_vmap_workload}
use distributed_enclave.Workload.Pointers.{serve_random_workload}
use distributed_enclave.Workload.Tasks.{serve_taskq_workload}
use distributed_enclave.Ep.Rounds.{ep_worker_loop}
use distributed_enclave.Cg.Rounds.{run_cg_workload}

-- What the worker finds outside the program: `bin` is the part of the EP kernel that is computed with
-- doubles, `allocated` says that the mallocs succeed, and `time_ok` is about the measurement of a run.
pub record Machine : Type 0 where
  pub bin : ℕ → ℕ → ℕ
  pub allocated : Bool
  pub time_ok : ℕ → Bool

-- How the loop ends. `still_waiting` is a receive for which nothing has come.
pub data LoopEnd : Type 0 where
  npb_done : LoopEnd
  receive_failed : LoopEnd
  plaintext_refused : LoopEnd
  workload_failed : LoopEnd
  invalid_command : LoopEnd
  still_waiting : LoopEnd
  out_of_fuel : LoopEnd

module _ {D : Type 0} (ops : Doubles D) (machine : Machine) where
  -- The part of the loop for the workload of a start command; `none` is an unknown workload.
  unfoldable pub workload_end : NpbCmd → List (Option (Out D)) → Option (WorkerEnd D)
  workload_end cmd messages =
      if cmd.workload == workload_ep
      then some (ep_worker_loop machine.bin cmd.ep_pairs cmd.num_runs messages).1
      else if cmd.workload == workload_cg
      then some (run_cg_workload ops cmd machine.allocated messages).1
      else if cmd.workload == workload_stream
      then some (run_stream_workload ops cmd machine.allocated machine.time_ok messages).2
      else if cmd.workload == workload_random
      then some (serve_random_workload cmd machine.allocated machine.time_ok messages).2
      else if cmd.workload == workload_vmap
      then some (run_vmap_workload ops cmd machine.allocated machine.time_ok messages).2
      else if cmd.workload == workload_taskq
      then some (serve_taskq_workload cmd machine.allocated messages).2
      else none

  abbrev pub carried_out : NpbCmd → List NpbCmd × LoopEnd → List NpbCmd × LoopEnd
  carried_out cmd (cmds, ending) = (cmd ∷ cmds, ending)

  -- The commands that are carried out, and the end. `skip` is the build with SKIP_ATTESTATION. A seed
  -- has the tag of a command and another size, so that its receive fails; the loop does not receive
  -- messages with other tags.
  unfoldable pub command_loop : Bool → ℕ → List (Option (Out D)) → List NpbCmd × LoopEnd
  command_loop skip zero messages = ([], out_of_fuel)
  command_loop skip (suc fuel) [] = ([], still_waiting)
  command_loop skip (suc fuel) (none ∷ messages) = ([], receive_failed)
  command_loop skip (suc fuel) (some (command cmd) ∷ messages) = elim (cmd.cmd == cmd_npb_done) [
    | true ↦ ([], npb_done)
    | false ↦ elim (not skip && ((cmd.cmd == cmd_npb_start) && not cmd.encrypt_data)) [
      | true ↦ ([], plaintext_refused)
      | false ↦ elim (if cmd.cmd == cmd_npb_start then workload_end cmd messages else none) [
        | none ↦ ([], invalid_command)
        | some (served rest) ↦ carried_out cmd (command_loop skip fuel rest)
        | some failed ↦ ([], workload_failed)
        | some waiting ↦ ([], still_waiting)
      ]
    ]
  ]
  command_loop skip (suc fuel) (some (ep_seed seed) ∷ messages) = ([], receive_failed)
  command_loop skip (suc fuel) (some _ ∷ messages) = ([], still_waiting)
