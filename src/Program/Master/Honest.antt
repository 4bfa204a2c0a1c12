-- ===== src/Program/Master/Honest.antt =====
-- Workers that do what the worker's code does, on machines with enough memory.
use distributed_enclave.Common.{
  ℕ, ◌*◌, ◌/◌, ◌<◌, ◌≡◌, true, ◌==◌, List, ◌∷◌, ◌++◌, Option, none, some, if◌then◌else◌, map, fill,
}
use distributed_enclave.Common.Int.{pos}
use distributed_enclave.Cg.{Csr, generate_sparse_matrix}
use distributed_enclave.Cg.Rounds.{run_cg_workload}
use distributed_enclave.Cg.Rounds.Served.{repeated}
use distributed_enclave.Ep.{ep_compute}
use distributed_enclave.Ep.Rounds.{seed_of, ep_worker_loop}
use distributed_enclave.Workload.Pointers.{RandomResult, serve_random_workload}
use distributed_enclave.Workload.Stream.{run_stream_workload}
use distributed_enclave.Workload.Vmap.{run_vmap_workload}
use distributed_enclave.Workload.Tasks.{task_fields, serve_taskq_workload}
use distributed_enclave.Workload.Tasks.Session.{Assigned, run_messages, run_answers}
use distributed_enclave.Cg.Rounds.Sends.{part, power, part_answers}
use distributed_enclave.Config.{Config}
use distributed_enclave.Ep.Rounds.Session.{ep_answers}
use distributed_enclave.Program.Worker.{Machine, workload_end}
use distributed_enclave.Program.Master.{Peers, Surroundings, tasks_of, queue_of}
use distributed_enclave.Random.{mib_bytes}
use distributed_enclave.Taskq.Scheduler.Served.{served}
use distributed_enclave.Workload.{
  NpbCmd, cmd_npb_start, workload_ep, workload_cg, workload_stream, workload_random, workload_vmap,
  workload_taskq, send_workload_ready, Out, command, complete, Sending,
}
use distributed_enclave.Workload
use distributed_enclave.Workload.Doubles.{Doubles}
use distributed_enclave.Workload.Loops.{to_worker, rows_of}
use distributed_enclave.Workload.Pointers.Session.{random_answer}
use distributed_enclave.Workload.Stream.Session.{worker_result}
use distributed_enclave.Workload.Vmap.Session.{worker_reply}

-- The element count that a worker reports.
abbrev pub elements : Config → ℕ
elements cfg =
    if cfg.workload == workload_stream
    then cfg.stream_array_mib * mib_bytes / 8
    else if cfg.workload == workload_random
    then cfg.random_mib * mib_bytes / 4
    else if cfg.workload == workload_vmap
    then cfg.vmap_mib * mib_bytes / 8
    else cfg.task_bytes

module _ {D : Type 0} (ops : Doubles D) (bin : ℕ → ℕ → ℕ) (rand : ℕ → ℕ) (scaled : ℕ → D)
    (cfg : Config) where
  abbrev pub honest_machine : Machine
  honest_machine = record { bin = bin; allocated = true; time_ok = λ run. true }

  -- A pass for each task is enough.
  abbrev pub surroundings : Surroundings D
  surroundings = record {
    rand = rand;
    scaled = scaled;
    allocated = true;
    passes = tasks_of cfg cfg.target;
  }

  abbrev pub honest : 0 < cfg.task_bytes → Peers D
  honest some_bytes = record {
    reports =
        λ w. some (record { workload = cfg.workload; ok = true; element_count = elements cfg });
    ep_answers = ep_answers bin cfg.ep_n cfg.target;
    cg_answers = λ run iter w. elim (generate_sparse_matrix rand scaled true cfg.cg_n cfg.cg_nzpc) [
      | none ↦ none
      | some a ↦ part_answers ops cfg.cg_n a cfg.target iter w
    ];
    stream_answers = λ run w. some (worker_result ops (cfg.stream_array_mib * mib_bytes / 8) run);
    random_answers =
        λ run w. random_answer cfg.random_mib cfg.random_warmup_accesses cfg.random_accesses run;
    vmap_answers = λ run w. some (worker_reply ops (cfg.vmap_mib * mib_bytes / 8) run);
    probes = λ run. served (queue_of cfg cfg.target) run some_bytes;
  }

  -- What a worker does on the messages that belong to its command, whatever follows: the results that
  -- it returns, run by run or task by task, are those that the master takes, and nothing is left over.
  pub data Serves (w : ℕ) (cmd : NpbCmd) (messages : List (Option (Out D))) : Type 0 where
    serves_ep :
        cmd.workload ≡ workload_ep
        → ((rest : List (Option (Out D)))
            → ep_worker_loop bin cmd.ep_pairs cmd.num_runs (messages ++ rest) ≡ (
              fill (λ run. ep_compute bin cfg.ep_n (pos (seed_of cfg.target run w))) 1 cfg.num_runs,
              Workload.served rest,
            ))
        → Serves w cmd messages
    serves_cg :
        cmd.workload ≡ workload_cg
        → (a : Csr D) → generate_sparse_matrix rand scaled true cfg.cg_n cfg.cg_nzpc ≡ some a
        → ((rest : List (Option (Out D)))
            → run_cg_workload ops cmd true (messages ++ rest) ≡ (
              repeated cfg.num_runs (
                  fill
                    (λ k. part ops cfg.cg_n a cfg.target w (power ops cfg.cg_n a k))
                    0
                    cfg.cg_iters),
              Workload.served rest,
            ))
        → Serves w cmd messages
    serves_stream :
        cmd.workload ≡ workload_stream
        → ((rest : List (Option (Out D)))
            → run_stream_workload ops cmd true (λ run. true) (messages ++ rest) ≡ (
              send_workload_ready workload_stream true (cfg.stream_array_mib * mib_bytes / 8),
              fill (worker_result ops (cfg.stream_array_mib * mib_bytes / 8)) 1 cfg.num_runs,
              Workload.served rest,
            ))
        → Serves w cmd messages
    serves_random :
        cmd.workload ≡ workload_random
        → (results : List RandomResult)
        → map some results
          ≡ fill
              (random_answer cfg.random_mib cfg.random_warmup_accesses cfg.random_accesses)
              1
              cfg.num_runs
        → ((rest : List (Option (Out D)))
            → serve_random_workload cmd true (λ run. true) (messages ++ rest) ≡ (
              send_workload_ready workload_random true (cfg.random_mib * mib_bytes / 4),
              results,
              Workload.served rest,
            ))
        → Serves w cmd messages
    serves_vmap :
        cmd.workload ≡ workload_vmap
        → ((rest : List (Option (Out D)))
            → run_vmap_workload ops cmd true (λ run. true) (messages ++ rest) ≡ (
              send_workload_ready workload_vmap true (cfg.vmap_mib * mib_bytes / 8),
              fill (worker_reply ops (cfg.vmap_mib * mib_bytes / 8)) 1 cfg.num_runs,
              Workload.served rest,
            ))
        → Serves w cmd messages
    serves_taskq :
        cmd.workload ≡ workload_taskq
        → (tasks : List (List ℕ)) → Assigned (task_fields cmd) cfg.num_runs tasks
        → messages ≡ run_messages (task_fields cmd) 1 tasks
        → ((rest : List (Option (Out D)))
            → serve_taskq_workload cmd true (messages ++ rest) ≡ (
              send_workload_ready workload_taskq true cfg.task_bytes,
              run_answers (task_fields cmd) 1 tasks,
              Workload.served rest,
            ))
        → Serves w cmd messages

  -- The part for the workload comes to its end, and each worker carries out its command on what it is
  -- sent, whatever follows, and returns what the master takes.
  abbrev pub Cooperates : Sending D → Type 0
  Cooperates sending =
      (sending.1 ≡ complete (rows_of cfg.workload cfg.target cfg.encrypt 1 cfg.num_runs))
      × ((w : ℕ)
          → w < cfg.target
          → (cmd : NpbCmd) × (messages : List (Option (Out D))) × (to_worker w sending.0
              ≡ some (command cmd) ∷ messages)
            × (cmd.cmd ≡ cmd_npb_start)
            × (cmd.encrypt_data ≡ cfg.encrypt)
            × (cmd.workload ≡ cfg.workload)
            × ((rest : List (Option (Out D)))
                → workload_end ops honest_machine cmd (messages ++ rest)
                  ≡ some (Workload.served rest))
            × Serves w cmd messages)
