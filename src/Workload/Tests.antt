-- ===== src/Workload/Tests.antt =====
-- Runs of the workloads with two workers.
use distributed_enclave.Common.{
  ℕ, ◌*◌, ◌/◌, ◌<◌, ◌≤◌, ◌≡◌, arith, true, List, [], ◌∷◌, ◌++◌, Option, some, fill, map,
}
use distributed_enclave.Random.{mib_bytes}
use distributed_enclave.Workload.{
  NpbCmd, workload_stream, workload_random, workload_vmap, workload_taskq, WorkloadReady,
  send_workload_ready, Out, command, complete, Sending,
}
use distributed_enclave.Workload
use distributed_enclave.Workload.Loops.{to_worker, rows_of}
use distributed_enclave.Workload.Numbers.{numbers, numbers-IsIeee, numbers-VmapFinite}
use distributed_enclave.Workload.Pointers.{
  RandomResult, random_cmd, run_random_master, serve_random_workload,
}
use distributed_enclave.Workload.Pointers.Session.{random_answer, random_session}
use distributed_enclave.Workload.Stream.{stream_cmd, run_stream_master, run_stream_workload}
use distributed_enclave.Workload.Stream.Session.{worker_result, stream_session}
use distributed_enclave.Workload.Stream.Accepted.{StreamAccepted, run_stream_master_sound}
use distributed_enclave.Taskq.Scheduler.Served.{served}
use distributed_enclave.Taskq.Worker.{TaskqCmd}
use distributed_enclave.Workload.Tasks.{task_queue_cmd, run_taskq_master, serve_taskq_workload}
use distributed_enclave.Workload.Tasks.Session.{Assigned, run_messages, run_answers, taskq_session}
use distributed_enclave.Workload.Vmap.{vmap_cmd, run_vmap_master, run_vmap_workload}
use distributed_enclave.Workload.Vmap.Session.{worker_reply, vmap_session}

abbrev stream_ready : WorkloadReady
stream_ready = send_workload_ready workload_stream true (1 * mib_bytes / 8)

abbrev stream_sending : Sending ℕ
stream_sending =
    run_stream_master numbers 2 true 3 1 0 (λ w. some stream_ready)
      (λ run w. some (worker_result numbers (1 * mib_bytes / 8) run)) []

stream_session_example :
    (stream_sending.1 ≡ complete (rows_of workload_stream 2 true 1 3))
    × ((w : ℕ)
        → w < 2
        → (triggers : List (Option (Out ℕ))) × (to_worker w stream_sending.0
            ≡ some (command (stream_cmd true 3 1 0)) ∷ triggers)
          × ((rest : List (Option (Out ℕ)))
              → run_stream_workload numbers
                  (stream_cmd true 3 1 0)
                  true
                  (λ run. true)
                  (triggers ++ rest)
                ≡ (
                  stream_ready,
                  fill (worker_result numbers (1 * mib_bytes / 8)) 1 3,
                  Workload.served rest,
                )))
stream_session_example =
    stream_session numbers numbers-IsIeee 2 3 1 0 true (omega arith) (omega arith) (omega arith)

run_stream_master_sound_example :
    (rows_of workload_stream 2 true 1 3 ≡ [] ++ rows_of workload_stream 2 true 1 3)
    × ((run w : ℕ)
        → 1 ≤ run
        → run ≤ 3
        → w < 2
        → StreamAccepted numbers
            (numbers.mul 7 (1 * mib_bytes / 8))
            run
            (some (worker_result numbers (1 * mib_bytes / 8) run)))
run_stream_master_sound_example =
    run_stream_master_sound numbers 2 3 1 0 true (λ w. some stream_ready)
      (λ run w. some (worker_result numbers (1 * mib_bytes / 8) run)) []
      (rows_of workload_stream 2 true 1 3) (omega arith)
      (stream_session numbers numbers-IsIeee 2 3 1 0 true (omega arith) (omega arith)
        (omega arith)).0

abbrev random_ready : WorkloadReady
random_ready = send_workload_ready workload_random true (32 * mib_bytes / 4)

abbrev random_sending : Sending ℕ
random_sending =
    run_random_master 2 true 3 32 100 10 (λ w. some random_ready)
      (λ run w. random_answer 32 10 100 run) []

random_session_example :
    (random_sending.1 ≡ complete (rows_of workload_random 2 true 1 3))
    × ((w : ℕ)
        → w < 2
        → (triggers : List (Option (Out ℕ))) × (results : List RandomResult) × (to_worker w
              random_sending.0
            ≡ some (command (random_cmd true 3 32 100 10)) ∷ triggers)
          × (map some results ≡ fill (random_answer 32 10 100) 1 3)
          × ((rest : List (Option (Out ℕ)))
              → serve_random_workload
                  (random_cmd true 3 32 100 10)
                  true
                  (λ run. true)
                  (triggers ++ rest)
                ≡ (random_ready, results, Workload.served rest)))
random_session_example =
    random_session {D = ℕ} 2 3 32 100 10 true (omega arith) (omega arith) (omega arith)
      (omega arith)

abbrev vmap_ready : WorkloadReady
vmap_ready = send_workload_ready workload_vmap true (1 * mib_bytes / 8)

abbrev vmap_sending : Sending ℕ
vmap_sending =
    run_vmap_master numbers 2 true 3 1 true (λ w. some vmap_ready)
      (λ run w. some (worker_reply numbers (1 * mib_bytes / 8) run)) []

vmap_session_example :
    (vmap_sending.1 ≡ complete (rows_of workload_vmap 2 true 1 3))
    × ((w : ℕ)
        → w < 2
        → (inputs : List (Option (Out ℕ))) × (to_worker w vmap_sending.0
            ≡ some (command (vmap_cmd true 3 1)) ∷ inputs)
          × ((rest : List (Option (Out ℕ)))
              → run_vmap_workload numbers (vmap_cmd true 3 1) true (λ run. true) (inputs ++ rest)
                ≡ (
                  vmap_ready,
                  fill (worker_reply numbers (1 * mib_bytes / 8)) 1 3,
                  Workload.served rest,
                )))
vmap_session_example =
    vmap_session numbers numbers-IsIeee 2 3 1 true (omega arith) (omega arith) (omega arith)
      (numbers-VmapFinite (1 * mib_bytes / 8))

abbrev queue : TaskqCmd
queue = record { task_count = 5; task_bytes = 4; task_iters = 3; num_runs = 2 }

abbrev queue_ready : WorkloadReady
queue_ready = send_workload_ready workload_taskq true 4

abbrev queue_sending : Sending ℕ
queue_sending =
    run_taskq_master 2 true queue true (λ w. some queue_ready)
      (λ run. served queue run (omega arith)) 5 []

taskq_session_example :
    (queue_sending.1 ≡ complete (rows_of workload_taskq 2 true 1 2))
    × ((w : ℕ)
        → w < 2
        → (tasks : List (List ℕ)) × Assigned queue 2 tasks
          × (to_worker w queue_sending.0
              ≡ some (command (task_queue_cmd true queue)) ∷ run_messages {D = ℕ} queue 1 tasks)
          × ((rest : List (Option (Out ℕ)))
              → serve_taskq_workload
                  (task_queue_cmd true queue)
                  true
                  (run_messages {D = ℕ} queue 1 tasks ++ rest)
                ≡ (queue_ready, run_answers queue 1 tasks, Workload.served rest)))
taskq_session_example =
    taskq_session {D = ℕ} queue (omega arith) 2 true (omega arith) (omega arith) (omega arith)
      (omega arith) (omega arith)
