-- ===== src/Program/Master.antt =====
-- `main` of src/master_npb.c behind the enrollment: the check that all workers are there, the part for
-- the workload, and the shutdown.
pub mod Honest
pub mod Parts
pub mod Session
use distributed_enclave.Common.{ℕ, ◌*◌, ◌%◌, ◌^◌, Bool, true, false, not, ◌&&◌, ◌==◌}
use distributed_enclave.Common.{List, [], ◌∷◌, ◌++◌, Option, none, some, if◌then◌else◌}
use distributed_enclave.Config.{Config}
use distributed_enclave.Cg.{generate_sparse_matrix}
use distributed_enclave.Cg.Rounds.{run_cg_master}
use distributed_enclave.Ep.Rounds.{EpReply, run_ep_master}
use distributed_enclave.Taskq.Check.{Reply}
use distributed_enclave.Taskq.Scheduler.{Slot, Counts}
use distributed_enclave.Taskq.Worker.{TaskqCmd}
use distributed_enclave.Workload.{
  NpbCmd, zero_cmd, cmd_npb_done, workload_ep, workload_cg, workload_stream, workload_random,
  workload_vmap, workload_taskq, WorkloadReady, NpbResult, Out, command, complete, refused,
  exhausted, polling, Sending, to_all,
}
use distributed_enclave.Workload.Doubles.{Doubles}
use distributed_enclave.Workload.Stream.{StreamResult, run_stream_master}
use distributed_enclave.Workload.Vmap.{VmapResult, run_vmap_master}
use distributed_enclave.Workload.Pointers.{RandomResult, run_random_master}
use distributed_enclave.Workload.Tasks.{run_taskq_master}

-- What comes back from the workers: the reports, the answers by run and worker (for CG by run,
-- iteration and worker), and what the probes of a run of the task queue find.
pub record Peers (D : Type 0) : Type 0 where
  pub reports : ℕ → Option WorkloadReady
  pub ep_answers : ℕ → ℕ → Option EpReply
  pub cg_answers : ℕ → ℕ → ℕ → Option (List D × Bool)
  pub stream_answers : ℕ → ℕ → Option (StreamResult D)
  pub random_answers : ℕ → ℕ → Option RandomResult
  pub vmap_answers : ℕ → ℕ → Option (List D × VmapResult D)
  pub probes : ℕ → List Slot → Counts → ℕ → Option Reply

-- What the master finds outside the program: the numbers of rand() and what is made of one, whether
-- the mallocs succeed, and a bound for the passes of a run of the task queue.
pub record Surroundings (D : Type 0) : Type 0 where
  pub rand : ℕ → ℕ
  pub scaled : ℕ → D
  pub allocated : Bool
  pub passes : ℕ

-- `UINT64_C(100) * (uint64_t)nworkers`, if no number of tasks is given.
abbrev pub tasks_of : Config → ℕ → ℕ
tasks_of cfg nworkers =
    if (cfg.workload == workload_taskq) && (cfg.task_count == 0)
    then 100 * nworkers % 2 ^ 64
    else cfg.task_count

abbrev pub queue_of : Config → ℕ → TaskqCmd
queue_of cfg nworkers = record {
  task_count = tasks_of cfg nworkers;
  task_bytes = cfg.task_bytes;
  task_iters = cfg.task_iters;
  num_runs = cfg.num_runs;
}

-- `cmd.cmd = CMD_NPB_DONE;` in a command of zeros.
abbrev pub done_cmd : NpbCmd
done_cmd = record zero_cmd { cmd = cmd_npb_done }

-- How the master goes on: status 1 behind a partial enrollment, the output of a table, or MPI_Abort.
-- `still_polling` is a bound on passes that was too low.
pub data MasterExit : Type 0 where
  partial_enrollment : MasterExit
  to_output : List NpbResult → MasterExit
  aborted : MasterExit
  still_polling : MasterExit

module _ {D : Type 0} (ops : Doubles D) (around : Surroundings D) (peers : Peers D)
    (cfg : Config) where
  -- The chain of tests for the workload.
  unfoldable pub workload_part : ℕ → Sending D
  workload_part nworkers =
      if cfg.workload == workload_ep
      then run_ep_master nworkers cfg.encrypt cfg.num_runs cfg.ep_n peers.ep_answers []
      else if cfg.workload == workload_cg
      then run_cg_master ops nworkers cfg.encrypt cfg.num_runs cfg.cg_n cfg.cg_nzpc cfg.cg_iters
          (generate_sparse_matrix around.rand around.scaled around.allocated cfg.cg_n cfg.cg_nzpc)
          peers.cg_answers []
      else if cfg.workload == workload_stream
      then run_stream_master ops nworkers cfg.encrypt cfg.num_runs cfg.stream_array_mib
          cfg.stream_warmup peers.reports peers.stream_answers []
      else if cfg.workload == workload_random
      then run_random_master nworkers cfg.encrypt cfg.num_runs cfg.random_mib cfg.random_accesses
          cfg.random_warmup_accesses peers.reports peers.random_answers []
      else if cfg.workload == workload_vmap
      then run_vmap_master ops nworkers cfg.encrypt cfg.num_runs cfg.vmap_mib around.allocated
          peers.reports peers.vmap_answers []
      else if cfg.workload == workload_taskq
      then run_taskq_master nworkers cfg.encrypt (queue_of cfg nworkers) around.allocated
          peers.reports peers.probes around.passes []
      else ([], complete [])

  abbrev pub shutdown : ℕ → Sending D → List (ℕ × Out D) × MasterExit
  shutdown nworkers (sends, complete rows) =
      (sends ++ to_all nworkers (command done_cmd), to_output rows)
  shutdown nworkers (sends, refused) = (sends, aborted)
  shutdown nworkers (sends, exhausted) = (sends, aborted)
  shutdown nworkers (sends, polling) = (sends, still_polling)

  -- `nworkers` workers are enrolled.
  unfoldable pub after_enrollment : ℕ → List (ℕ × Out D) × MasterExit
  after_enrollment nworkers =
      if not (nworkers == cfg.target)
      then (to_all nworkers (command done_cmd), partial_enrollment)
      else shutdown nworkers (workload_part nworkers)
