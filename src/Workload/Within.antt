-- ===== src/Workload/Within.antt =====
-- What a worker's function for a workload leaves is no more than what it was given.
use distributed_enclave.Common.{
  ℕ, zero, suc, ◌+◌, ◌≤◌, ◌≡◌, refl, arith, Bool, not, length, ◌/◌, ◌%◌, ◌||◌, ltb, ◌==◌,
}
use distributed_enclave.Common.{
  List, [], ◌∷◌, Option, none, some, Bool-cases, Option-cases, inl, inr, ◌⊎◌,
}
use distributed_enclave.Workload.{
  NpbCmd, Out, WorkerEnd, served, failed, waiting, Heard, answer, fails, other_tag, worker_loop,
}
use distributed_enclave.Workload.Doubles.{Doubles}
use distributed_enclave.Workload.Stream.{
  run_stream_workload, stream_respond, stream_min_mib, stream_max_mib,
}
use distributed_enclave.Workload.Vmap.{run_vmap_workload, vmap_respond, vmap_min_mib, vmap_max_mib}
use distributed_enclave.Workload.Pointers.{serve_random_workload, random_respond}
use distributed_enclave.Random.{checked_mib_bytes, run_random_workload}

heard_cases :
    {R : Type 0} (h : Heard R) → ((r : R) × (h ≡ answer r)) ⊎ ((h ≡ fails) ⊎ (h ≡ other_tag))
heard_cases (answer r) = inl (r, refl)
heard_cases fails = inr (inl refl)
heard_cases other_tag = inr (inr refl)

module _ {D : Type 0} where
  abbrev pub Within : ℕ → WorkerEnd D → Type 0
  Within n (served rest) = length rest ≤ n
  Within n failed = Unit {0}
  Within n waiting = Unit {0}

  pub more_room : (n : ℕ) (ending : WorkerEnd D) → Within n ending → Within (suc n) ending
  more_room n (served rest) within = omega (arith, within)
  more_room n failed within = tt
  more_room n waiting within = tt

  pub worker_loop-Within :
      {R : Type 0} (respond : ℕ → Out D → Heard R) (left run : ℕ) (messages : List (Option (Out D)))
      → Within (length messages) (worker_loop respond left run messages).1
  unfolding worker_loop
  worker_loop-Within respond zero run messages = omega arith
  worker_loop-Within respond (suc left) run [] = tt
  worker_loop-Within respond (suc left) run (none ∷ messages) = tt
  worker_loop-Within respond (suc left) run (some message ∷ messages) =
      elim (heard_cases (respond run message)) [
        | inl (result, is) ↦
            rw (worker_loop, is)
              (more_room (length messages) (worker_loop respond left (run + 1) messages).1
                (worker_loop-Within respond left (run + 1) messages))
        | inr (inl is) ↦ rw (worker_loop, is) tt
        | inr (inr is) ↦ rw (worker_loop, is) tt
      ]

  pub serve_random_workload-Within :
      (cmd : NpbCmd) (allocated : Bool) (time_ok : ℕ → Bool) (messages : List (Option (Out D)))
      → Within (length messages) (serve_random_workload cmd allocated time_ok messages).2
  unfolding serve_random_workload
  serve_random_workload-Within cmd allocated time_ok messages =
      elim (Option-cases (
        run_random_workload cmd.random_mib cmd.random_warmup_accesses cmd.random_accesses
          allocated)) [
            | inl is ↦ rw (serve_random_workload, is) tt
            | inr (p, is) ↦
                rw (serve_random_workload, is)
                  (worker_loop-Within (random_respond p cmd.random_accesses time_ok) cmd.num_runs 1
                    messages)
          ]

  module _ (ops : Doubles D) where
    pub run_stream_workload-Within :
        (cmd : NpbCmd) (allocated : Bool) (time_ok : ℕ → Bool) (messages : List (Option (Out D)))
        → Within (length messages) (run_stream_workload ops cmd allocated time_ok messages).2
    unfolding run_stream_workload
    run_stream_workload-Within cmd allocated time_ok messages =
        elim (Bool-cases
          (ltb cmd.stream_array_mib stream_min_mib || ltb stream_max_mib cmd.stream_array_mib)) [
            | inl is ↦ rw (run_stream_workload, is) tt
            | inr range ↦ elim (Option-cases (checked_mib_bytes cmd.stream_array_mib)) [
              | inl is ↦ rw (run_stream_workload, range, is) tt
              | inr (bytes, fits) ↦ elim (Bool-cases (not (bytes % 8 == 0) || not allocated)) [
                | inl is ↦ rw (run_stream_workload, range, fits, is) tt
                | inr is ↦
                    rw (run_stream_workload, range, fits, is)
                      (worker_loop-Within (stream_respond ops (bytes / 8) time_ok) cmd.num_runs 1
                        messages)
              ]
            ]
          ]

    pub run_vmap_workload-Within :
        (cmd : NpbCmd) (allocated : Bool) (time_ok : ℕ → Bool) (messages : List (Option (Out D)))
        → Within (length messages) (run_vmap_workload ops cmd allocated time_ok messages).2
    unfolding run_vmap_workload
    run_vmap_workload-Within cmd allocated time_ok messages =
        elim (Bool-cases (ltb cmd.vmap_mib vmap_min_mib || ltb vmap_max_mib cmd.vmap_mib)) [
          | inl is ↦ rw (run_vmap_workload, is) tt
          | inr range ↦ elim (Option-cases (checked_mib_bytes cmd.vmap_mib)) [
            | inl is ↦ rw (run_vmap_workload, range, is) tt
            | inr (bytes, fits) ↦ elim (Bool-cases (not (bytes % 8 == 0) || not allocated)) [
              | inl is ↦ rw (run_vmap_workload, range, fits, is) tt
              | inr is ↦
                  rw (run_vmap_workload, range, fits, is)
                    (worker_loop-Within (vmap_respond ops (bytes / 8) time_ok) cmd.num_runs 1
                      messages)
            ]
          ]
        ]
