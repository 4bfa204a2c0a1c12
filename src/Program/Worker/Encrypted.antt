-- ===== src/Program/Worker/Encrypted.antt =====
-- The commands that a worker with attestation carries out.
use distributed_enclave.Common.{ℕ, zero, suc, ◌≡◌, arith, true, false, All, ◌≤◌}
use distributed_enclave.Common.{List, Option, some, inl, inr}
use distributed_enclave.Workload.{NpbCmd, cmd_npb_start, Out, WorkerEnd, served}
use distributed_enclave.Workload.Doubles.{Doubles}
use distributed_enclave.Program.Worker.Steps.{command_loop-step}
use distributed_enclave.Program.Worker.{Machine, workload_end, command_loop}

abbrev pub Encrypted : NpbCmd → Type 0
Encrypted cmd =
    (cmd.cmd ≡ cmd_npb_start) × (cmd.encrypt_data ≡ true) × (1 ≤ cmd.workload) × (cmd.workload ≤ 6)

module _ {D : Type 0} (ops : Doubles D) (machine : Machine) where
  known_workload :
      (cmd : NpbCmd) (messages : List (Option (Out D))) (ending : WorkerEnd D)
      → workload_end ops machine cmd messages ≡ some ending
      → (1 ≤ cmd.workload) × (cmd.workload ≤ 6)
  unfolding workload_end
  known_workload cmd messages ending is = (ground arith, ground arith)

  -- In the build with attestation, whatever a worker receives: every command that it carries out is a
  -- start command for one of the six workloads with encrypted data.
  pub command_loop-Encrypted :
      (fuel : ℕ) (messages : List (Option (Out D)))
      → All Encrypted (command_loop ops machine false fuel messages).0
  unfolding command_loop
  command_loop-Encrypted zero messages = tt
  command_loop-Encrypted (suc fuel) messages = elim (command_loop-step ops machine false messages) [
    | inl (ending, other, is) ↦ rw (is fuel) tt
    | inr c ↦
        (let bounds = known_workload c.cmd c.behind (served c.rest) c.is_served in
          rw (c.goes_on fuel) (
            (c.is_start, ground (arith, c.allowed), bounds.0, bounds.1),
            command_loop-Encrypted fuel c.rest,
          ))
  ]
