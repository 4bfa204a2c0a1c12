-- ===== src/Program/Worker/Fuel.antt =====
-- The loop over the commands ends: each command takes at least one message.
use distributed_enclave.Common.{
  ℕ, zero, suc, ◌+◌, ◌<◌, ◌≤◌, ◌≡◌, ◌≢◌, arith, Bool, true, false, ◌==◌, length, ◌∙◌, sym, ap,
}
use distributed_enclave.Common.{List, Option, none, some, if◌then◌else◌, inl, inr}
use mathlib.Core.Path.{subst}
use distributed_enclave.Workload.{
  NpbCmd, workload_ep, workload_cg, workload_stream, workload_random, workload_vmap, workload_taskq,
  Out, WorkerEnd,
}
use distributed_enclave.Workload.Doubles.{Doubles}
use distributed_enclave.Workload.Within.{
  Within, serve_random_workload-Within, run_stream_workload-Within, run_vmap_workload-Within,
}
use distributed_enclave.Workload.Tasks.Within.{serve_taskq_workload-Within}
use distributed_enclave.Ep.Rounds.Within.{ep_worker_loop-Within}
use distributed_enclave.Cg.Rounds.Within.{run_cg_workload-Within}
use distributed_enclave.Program.Worker.{
  Machine, out_of_fuel, workload_end, carried_out, command_loop,
}
use distributed_enclave.Program.Worker.Steps.{command_loop-step}

module _ {D : Type 0} (ops : Doubles D) (machine : Machine) where
  abbrev EndWithin : ℕ → Option (WorkerEnd D) → Type 0
  EndWithin n none = Unit {0}
  EndWithin n (some ending) = Within n ending

  end_within :
      (b : Bool) (n : ℕ) (x y : Option (WorkerEnd D))
      → EndWithin n x
      → EndWithin n y
      → EndWithin n (if b then x else y)
  end_within true n x y p q = p
  end_within false n x y p q = q

  workload_end-EndWithin :
      (cmd : NpbCmd) (messages : List (Option (Out D)))
      → EndWithin (length messages) (workload_end ops machine cmd messages)
  unfolding workload_end
  workload_end-EndWithin cmd messages =
      let n = length messages in
      end_within (cmd.workload == workload_ep) n _ _
        (ep_worker_loop-Within machine.bin cmd.ep_pairs cmd.num_runs messages)
        (end_within (cmd.workload == workload_cg) n _ _
          (run_cg_workload-Within ops cmd machine.allocated messages)
          (end_within (cmd.workload == workload_stream) n _ _
            (run_stream_workload-Within ops cmd machine.allocated machine.time_ok messages)
            (end_within (cmd.workload == workload_random) n _ _
              (serve_random_workload-Within cmd machine.allocated machine.time_ok messages)
              (end_within (cmd.workload == workload_vmap) n _ _
                (run_vmap_workload-Within ops cmd machine.allocated machine.time_ok messages)
                (end_within (cmd.workload == workload_taskq) n _ none
                  (serve_taskq_workload-Within cmd machine.allocated messages) tt)))))

  -- The loop over the commands ends by itself: with more fuel than messages, the fuel is not what ends
  -- it, and the commands carried out and the end are the same for each such fuel.
  pub command_loop_ends :
      (skip : Bool) (fuel more : ℕ) (messages : List (Option (Out D)))
      → length messages < fuel
      → ((command_loop ops machine skip fuel messages).1 ≢ out_of_fuel)
        × (command_loop ops machine skip (fuel + more) messages
            ≡ command_loop ops machine skip fuel messages)
  unfolding command_loop
  command_loop_ends skip zero more messages enough = ground arith
  command_loop_ends skip (suc fuel) more messages enough =
      let next : suc fuel + more ≡ suc (fuel + more) = omega arith in
      elim (command_loop-step ops machine skip messages) [
        | inl (ending, other, is) ↦ (
          rw (is fuel) other,
          ap (λ f. command_loop ops machine skip f messages) next
              ∙ is (fuel + more)
              ∙ sym (is fuel),
        )
        | inr c ↦
            let fewer : length c.rest ≤ length c.behind =
              subst (EndWithin (length c.behind)) c.is_served
                (workload_end-EndWithin c.cmd c.behind) in
            let all : length messages ≡ suc (length c.behind) = ap length c.is_command in
            let (ends, same) =
              command_loop_ends skip fuel more c.rest (omega (arith, enough, fewer, all)) in
            (
              rw (c.goes_on fuel) ends,
              ap (λ f. command_loop ops machine skip f messages) next
                  ∙ c.goes_on (fuel + more)
                  ∙ ap (carried_out ops machine c.cmd) same
                  ∙ sym (c.goes_on fuel),
            )
      ]
