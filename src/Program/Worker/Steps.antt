-- ===== src/Program/Worker/Steps.antt =====
-- One pass of the loop over the commands: it ends, or it carries the command out and goes on.
use distributed_enclave.Common.{ℕ, suc, ◌≡◌, ◌≢◌, refl, arith, Bool, false, not, ◌&&◌, ◌==◌}
use distributed_enclave.Common.{
  List, [], ◌∷◌, Option, none, some, Bool-cases, Option-cases, inl, inr, ◌⊎◌,
}
use distributed_enclave.Workload.{
  NpbCmd, cmd_npb_start, cmd_npb_done, Out, command, ep_seed, stream_run, random_run_trigger,
  vmap_input, cg_rowptr, cg_colidx, cg_val, cg_x, taskq_control, taskq_task, served, failed,
  waiting,
}
use distributed_enclave.Workload.Doubles.{Doubles}
use distributed_enclave.Program.Worker.{
  Machine, LoopEnd, npb_done, receive_failed, plaintext_refused, workload_failed, invalid_command,
  still_waiting, out_of_fuel, workload_end, carried_out, command_loop,
}

module _ {D : Type 0} (ops : Doubles D) (machine : Machine) where
  abbrev pub Ends : Bool → List (Option (Out D)) → Type 0
  Ends skip messages =
      (ending : LoopEnd) × (ending ≢ out_of_fuel)
      × ((fuel : ℕ) → command_loop ops machine skip (suc fuel) messages ≡ ([], ending))

  pub record Continues (skip : Bool) (messages : List (Option (Out D))) : Type 0 where
    pub cmd : NpbCmd
    pub behind : List (Option (Out D))
    pub rest : List (Option (Out D))
    pub is_command : messages ≡ some (command cmd) ∷ behind
    pub is_served : workload_end ops machine cmd behind ≡ some (served rest)
    pub is_start : cmd.cmd ≡ cmd_npb_start
    pub allowed : (not skip && not cmd.encrypt_data) ≡ false
    pub goes_on :
        (fuel : ℕ)
        → command_loop ops machine skip (suc fuel) messages
          ≡ carried_out ops machine cmd (command_loop ops machine skip fuel rest)

  command_step :
      (skip : Bool) (cmd : NpbCmd) (behind : List (Option (Out D)))
      → Ends skip (some (command cmd) ∷ behind) ⊎ Continues skip (some (command cmd) ∷ behind)
  unfolding command_loop
  command_step skip cmd behind = elim (Bool-cases (cmd.cmd == cmd_npb_done)) [
    | inl stop ↦ inl (npb_done, (λ p. cc), λ fuel. rw (command_loop, stop) refl)
    | inr more ↦
        elim (Bool-cases (not skip && ((cmd.cmd == cmd_npb_start) && not cmd.encrypt_data))) [
          | inl plain ↦
              inl (plaintext_refused, (λ p. cc), λ fuel. rw (command_loop, more, plain) refl)
          | inr allowed ↦ elim (Bool-cases (cmd.cmd == cmd_npb_start)) [
            | inr other ↦
                inl
                  (invalid_command, (λ p. cc), λ fuel. rw (command_loop, more, allowed, other) refl)
            | inl start ↦ elim (Option-cases (workload_end ops machine cmd behind)) [
              | inl unknown ↦ inl (
                invalid_command,
                (λ p. cc),
                λ fuel. rw (command_loop, more, allowed, start, unknown) refl,
              )
              | inr (served rest, is) ↦ inr (record {
                cmd = cmd;
                behind = behind;
                rest = rest;
                is_command = refl;
                is_served = is;
                is_start = ground arith;
                allowed = ground arith;
                goes_on = λ fuel. rw (command_loop, more, allowed, start, is) refl;
              })
              | inr (failed, is) ↦ inl (
                workload_failed,
                (λ p. cc),
                λ fuel. rw (command_loop, more, allowed, start, is) refl,
              )
              | inr (waiting, is) ↦ inl (
                still_waiting,
                (λ p. cc),
                λ fuel. rw (command_loop, more, allowed, start, is) refl,
              )
            ]
          ]
        ]
  ]

  pub command_loop-step :
      (skip : Bool) (messages : List (Option (Out D)))
      → Ends skip messages ⊎ Continues skip messages
  unfolding command_loop
  command_loop-step skip [] = inl (still_waiting, (λ p. cc), λ fuel. refl)
  command_loop-step skip (none ∷ messages) = inl (receive_failed, (λ p. cc), λ fuel. refl)
  command_loop-step skip (some (command cmd) ∷ messages) = command_step skip cmd messages
  command_loop-step skip (some (ep_seed s) ∷ messages) =
      inl (receive_failed, (λ p. cc), λ fuel. refl)
  command_loop-step skip (some (stream_run s) ∷ messages) =
      inl (still_waiting, (λ p. cc), λ fuel. refl)
  command_loop-step skip (some (random_run_trigger s) ∷ messages) =
      inl (still_waiting, (λ p. cc), λ fuel. refl)
  command_loop-step skip (some (vmap_input s) ∷ messages) =
      inl (still_waiting, (λ p. cc), λ fuel. refl)
  command_loop-step skip (some (cg_rowptr s) ∷ messages) =
      inl (still_waiting, (λ p. cc), λ fuel. refl)
  command_loop-step skip (some (cg_colidx s) ∷ messages) =
      inl (still_waiting, (λ p. cc), λ fuel. refl)
  command_loop-step skip (some (cg_val s) ∷ messages) = inl (still_waiting, (λ p. cc), λ fuel. refl)
  command_loop-step skip (some (cg_x s) ∷ messages) = inl (still_waiting, (λ p. cc), λ fuel. refl)
  command_loop-step skip (some (taskq_control s t) ∷ messages) =
      inl (still_waiting, (λ p. cc), λ fuel. refl)
  command_loop-step skip (some (taskq_task s) ∷ messages) =
      inl (still_waiting, (λ p. cc), λ fuel. refl)
