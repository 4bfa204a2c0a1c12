-- ===== src/Program/Master/Session.antt =====
-- The master and its workers from the established sessions to the last command.
use distributed_enclave.Common.{
  ℕ, suc, ◌*◌, ◌/◌, ◌<◌, ◌≤◌, ◌≡◌, ◌≢◌, refl, ap, ◌∙◌, arith, Bool, true, false, not, ◌==◌, ◌&&◌,
  ◌||◌,
}
use distributed_enclave.Common.{List, [], ◌∷◌, ◌++◌, Option, some, inl, inr, ◌⊎◌}
use distributed_enclave.Wire.{Bytes}
use distributed_enclave.Config.{Config, configured, read_options, int64_max, int_max}
use distributed_enclave.Config.Ranges.{InRange, read_options-InRange}
use distributed_enclave.Program.Worker.{Machine, npb_done, workload_end, command_loop}
use distributed_enclave.Program.Master.{
  Peers, Surroundings, done_cmd, partial_enrollment, to_output, workload_part, after_enrollment,
  shutdown,
}
use distributed_enclave.Program.Master.Honest.{
  honest_machine, surroundings, honest, Serves, Cooperates,
}
use distributed_enclave.Program.Master.Parts.{
  ep_part, cg_part, stream_part, random_part, vmap_part, taskq_part,
}
use distributed_enclave.Cg.Rounds.{bulk_limit}
use distributed_enclave.Random.{mib_bytes}
use distributed_enclave.Workload.{
  NpbCmd, cmd_npb_start, workload_cg, Out, command, complete, Sending, to_all,
}
use distributed_enclave.Workload
use distributed_enclave.Workload.Doubles.{Doubles, IsIeee}
use distributed_enclave.Workload.Loops.{to_worker, to_worker-append, to_worker-to_all, rows_of}
use distributed_enclave.Workload.Vmap.Session.{VmapFinite}

module _ {D : Type 0} (ops : Doubles D) (machine : Machine) where
  done_ends :
      (skip : Bool) (fuel : ℕ)
      → command_loop ops machine skip (suc fuel) (some (command done_cmd) ∷ []) ≡ ([], npb_done)
  unfolding command_loop
  done_ends skip fuel = refl

  -- The loop over the commands on a command, what belongs to it, and the last command.
  one_command :
      (skip : Bool) (cmd : NpbCmd) (messages : List (Option (Out D)))
      → (skip || cmd.encrypt_data) ≡ true
      → cmd.cmd ≡ cmd_npb_start
      → ((rest : List (Option (Out D)))
          → workload_end ops machine cmd (messages ++ rest) ≡ some (Workload.served rest))
      → (fuel : ℕ)
      → command_loop ops machine skip
          (suc (suc fuel))
          (some (command cmd) ∷ messages ++ some (command done_cmd) ∷ [])
        ≡ (cmd ∷ [], npb_done)
  unfolding command_loop
  one_command skip cmd messages allowed start is_served fuel =
      let permitted : (not skip && ((cmd.cmd == cmd_npb_start) && not cmd.encrypt_data)) ≡ false =
        ground (arith, allowed) in
      let more : (cmd.cmd == 3) ≡ false = ground (arith, start) in
      let starts : (cmd.cmd == cmd_npb_start) ≡ true = ground (arith, start) in
      rw (command_loop, more, permitted, starts, is_served (some (command done_cmd) ∷ [])) refl

  -- When fewer workers are enrolled than asked for, the master sends no work, ends with status 1, and
  -- each enrolled worker leaves its loop over the commands by NPB_DONE with nothing carried out.
  pub after_enrollment_partial :
      (around : Surroundings D) (peers : Peers D) (cfg : Config) (nworkers : ℕ) (skip : Bool)
      (fuel : ℕ)
      → nworkers ≢ cfg.target
      → let ending = after_enrollment ops around peers cfg nworkers in
        (ending.1 ≡ partial_enrollment)
        × ((w : ℕ)
            → w < nworkers
            → command_loop ops machine skip (suc fuel) (to_worker w ending.0) ≡ ([], npb_done))
  unfolding after_enrollment
  after_enrollment_partial around peers cfg nworkers skip fuel fewer =
      let apart : (nworkers == cfg.target) ≡ false = ground (arith, fewer) in
      (
        rw (after_enrollment, apart) refl,
        λ w known.
            rw
              (
                after_enrollment,
                apart,
                to_worker-to_all {M = Out D} w nworkers (command done_cmd) known,
              )
              (done_ends skip fuel),
      )

module _ {D : Type 0} (ops : Doubles D) (ieee : IsIeee D ops) (bin : ℕ → ℕ → ℕ) (rand : ℕ → ℕ)
    (scaled : ℕ → D) where
  six : (k : ℕ) → 1 ≤ k → k ≤ 6 → (k ≡ 1) ⊎ ((k ≡ 2) ⊎ ((k ≡ 3) ⊎ ((k ≡ 4) ⊎ ((k ≡ 5) ⊎ (k ≡ 6)))))
  six k low high = ground arith

  parts_cooperate :
      (cfg : Config) (pos : 0 < cfg.task_bytes)
      → InRange cfg
      → cfg.cg_n * cfg.cg_nzpc ≤ int_max
      → (cfg.workload ≡ workload_cg → 8 * (cfg.cg_n * cfg.cg_nzpc) ≤ bulk_limit cfg.encrypt)
      → cfg.ep_n * cfg.target ≤ int64_max
      → VmapFinite ops (cfg.vmap_mib * mib_bytes / 8)
      → Cooperates ops bin rand scaled cfg (
          workload_part ops
            (surroundings ops bin rand scaled cfg)
            (honest ops bin rand scaled cfg pos)
            cfg
            cfg.target)
  parts_cooperate cfg pos r product fits pairs finite =
      elim (six cfg.workload (ground (arith, r)) (ground (arith, r))) [
        | inl is ↦ ep_part ops ieee bin rand scaled cfg r pos pairs is
        | inr (inl is) ↦ cg_part ops ieee bin rand scaled cfg r pos product fits is
        | inr (inr (inl is)) ↦ stream_part ops ieee bin rand scaled cfg r pos is
        | inr (inr (inr (inl is))) ↦ random_part ops ieee bin rand scaled cfg r pos is
        | inr (inr (inr (inr (inl is)))) ↦ vmap_part ops ieee bin rand scaled cfg r pos finite is
        | inr (inr (inr (inr (inr is)))) ↦ taskq_part ops ieee bin rand scaled cfg r pos is
      ]

  -- For every command line that the master accepts, when all workers are enrolled, run the same
  -- build, have enough memory and answer with what the definitions of the workloads say, and
  -- measured times are in order: the master comes to its output with one row for each run. Each
  -- worker is sent one command, for the chosen workload and encryption, the messages that belong to
  -- it, and NPB_DONE, and nothing else. On these messages the worker's code returns, run by run or
  -- task by task, exactly the results that the answers to the master are made of, leaves nothing
  -- over, and its loop over the commands carries out this command and ends by NPB_DONE. CG asks that
  -- the values of the whole matrix, 8 bytes for each of cg_n * cg_nzpc, fit into one bulk message
  -- (INT_MAX bytes, less 28 when encrypted), which the options do not check; VMAP asks that the
  -- doubles of its block and their sum are finite; each TASKQ worker has served its task by the time
  -- it is probed.
  pub after_enrollment_session :
      (skip : Bool) (args : List Bytes) (cfg : Config) (pos : 0 < cfg.task_bytes)
      → read_options skip args ≡ configured cfg
      → (cfg.workload ≡ workload_cg → 8 * (cfg.cg_n * cfg.cg_nzpc) ≤ bulk_limit cfg.encrypt)
      → VmapFinite ops (cfg.vmap_mib * mib_bytes / 8)
      → let ending =
          after_enrollment ops
            (surroundings ops bin rand scaled cfg)
            (honest ops bin rand scaled cfg pos)
            cfg
            cfg.target in
        (ending.1 ≡ to_output (rows_of cfg.workload cfg.target cfg.encrypt 1 cfg.num_runs))
        × ((w : ℕ)
            → w < cfg.target
            → (cmd : NpbCmd) × (messages : List (Option (Out D))) × (to_worker w ending.0
                ≡ some (command cmd) ∷ messages ++ some (command done_cmd) ∷ [])
              × (cmd.workload ≡ cfg.workload)
              × (cmd.encrypt_data ≡ cfg.encrypt)
              × Serves ops bin rand scaled cfg w cmd messages
              × ((fuel : ℕ)
                  → command_loop ops
                      (honest_machine ops bin rand scaled cfg)
                      skip
                      (suc (suc fuel))
                      (to_worker w ending.0)
                    ≡ (cmd ∷ [], npb_done)))
  unfolding after_enrollment
  after_enrollment_session skip args cfg pos accepted fits finite =
      let (r, product, pairs, sealed) = read_options-InRange skip args cfg accepted in
      let all_enrolled : (cfg.target == cfg.target) ≡ true = ground arith in
      let (ends, serves) = parts_cooperate cfg pos r product fits pairs finite in
      let sending : Sending D =
        workload_part ops (surroundings ops bin rand scaled cfg)
          (honest ops bin rand scaled cfg pos) cfg cfg.target in
      let whole : sending
          ≡ (sending.0, complete (rows_of cfg.workload cfg.target cfg.encrypt 1 cfg.num_runs)) =
        ap (λ e. (sending.0, e)) ends in
      let down =
        shutdown ops (surroundings ops bin rand scaled cfg) (honest ops bin rand scaled cfg pos) cfg
          cfg.target in
      (
        rw (after_enrollment, all_enrolled) (ap (λ s. (down s).1) whole),
        λ w known.
            let (cmd, messages, gets, start, encrypted, is_workload, is_served, results) =
              serves w known in
            let sent : to_worker w
                  (after_enrollment ops (surroundings ops bin rand scaled cfg)
                    (honest ops bin rand scaled cfg pos) cfg cfg.target).0
                ≡ some (command cmd) ∷ messages ++ some (command done_cmd) ∷ [] =
              rw (after_enrollment, all_enrolled)
                (ap (λ s. to_worker w (down s).0) whole
                  ∙ rw
                      (
                        to_worker-append w sending.0 (to_all cfg.target (command done_cmd)),
                        gets,
                        to_worker-to_all {M = Out D} w cfg.target (command done_cmd) known,
                      )
                      refl) in
            (
              cmd,
              messages,
              sent,
              is_workload,
              encrypted,
              results,
              λ fuel.
                  ap
                    (command_loop ops (honest_machine ops bin rand scaled cfg) skip
                      (suc (suc fuel)))
                    sent
                  ∙ one_command ops (honest_machine ops bin rand scaled cfg) skip cmd messages
                      (rw encrypted sealed) start is_served fuel,
            ),
      )
