-- ===== src/Program/Tests.antt =====
-- Runs of the two programs.
use distributed_enclave.Common.{
  ◌++◌, ℕ, suc, ◌*◌, ◌/◌, ◌<◌, ◌≡◌, refl, arith, Bool, true, false, List, [], ◌∷◌, Option, some,
  none, All, length,
}
use distributed_enclave.Common.{◌⊎◌, ◌==◌, if◌then◌else◌}
use distributed_enclave.Config.{
  Config, defaults, configured, read_options, parse_options, check_options, option_step, numeric,
  workload_option, parse_u64_arg, strtoull, skip_spaces, digits,
}
use distributed_enclave.Config.Names.{opt_master, opt_workload, word_taskq}
use distributed_enclave.Keys.{Fs}
use distributed_enclave.Program.Master.{after_enrollment, to_output, done_cmd}
use distributed_enclave.Program.Master.Honest.{Serves, honest_machine, honest, surroundings}
use distributed_enclave.Program.Master.Session.{after_enrollment_session}
use distributed_enclave.Program.Output.{Answers, csv_tmp, held, text_file, write_csv}
use distributed_enclave.Program.Output.Atomic.{OldOrNew, write_csv_atomic}
use distributed_enclave.Program.Worker.{
  Machine, npb_done, plaintext_refused, command_loop, workload_end,
}
use distributed_enclave.Program.Worker.Encrypted.{Encrypted, command_loop-Encrypted}
use distributed_enclave.Random.{mib_bytes}
use distributed_enclave.Ep.Rounds.{ep_cmd, ep_worker_loop}
use distributed_enclave.Wire.{Bytes}
use distributed_enclave.Workload.{NpbCmd, Out, command, ep_seed}
use distributed_enclave.Workload.Loops.{to_worker, rows_of}
use distributed_enclave.Workload.Numbers.{numbers, numbers-IsIeee, numbers-VmapFinite}

abbrev machine : Machine
machine = record { bin = λ a b. 0; allocated = true; time_ok = λ run. true }

-- A command of EP with a seed, and the last command.
abbrev messages : Bool → List (Option (Out ℕ))
messages encrypt =
    some (command (ep_cmd encrypt 1 2)) ∷ some (ep_seed 5) ∷ some (command done_cmd) ∷ []

encrypted_run :
    command_loop numbers machine false 4 (messages true) ≡ (ep_cmd true 1 2 ∷ [], npb_done)
unfolding command_loop workload_end ep_worker_loop
encrypted_run = refl

plaintext_run : command_loop numbers machine false 4 (messages false) ≡ ([], plaintext_refused)
unfolding command_loop
plaintext_run = refl

command_loop-Encrypted_example :
    All Encrypted (command_loop numbers machine false 4 (messages true)).0
command_loop-Encrypted_example = command_loop-Encrypted numbers machine 4 (messages true)

abbrev args : List Bytes
args = opt_workload ∷ word_taskq ∷ opt_master ∷ (b'4' ∷ []) ∷ []

abbrev chosen : Config
chosen = record defaults { workload = 6; target = 4 }

chosen_read : read_options false args ≡ configured chosen
unfolding read_options parse_options check_options option_step numeric workload_option parse_u64_arg
    strtoull skip_spaces digits
chosen_read = refl

abbrev some_bytes : 0 < chosen.task_bytes
some_bytes = omega arith

after_enrollment_session_example :
    let ending =
      after_enrollment numbers
        (surroundings numbers machine.bin (λ k. k) (λ r. r) chosen)
        (honest numbers machine.bin (λ k. k) (λ r. r) chosen some_bytes)
        chosen
        4 in
    (ending.1 ≡ to_output (rows_of 6 4 true 1 10))
    × ((w : ℕ)
        → w < 4
        → (cmd : NpbCmd) × (messages : List (Option (Out ℕ))) × (to_worker w ending.0
            ≡ some (command cmd) ∷ messages ++ some (command done_cmd) ∷ [])
          × (cmd.workload ≡ 6)
          × (cmd.encrypt_data ≡ true)
          × Serves numbers machine.bin (λ k. k) (λ r. r) chosen w cmd messages
          × ((fuel : ℕ)
              → command_loop numbers
                  (honest_machine numbers machine.bin (λ k. k) (λ r. r) chosen)
                  false
                  (suc (suc fuel))
                  (to_worker w ending.0)
                ≡ (cmd ∷ [], npb_done)))
after_enrollment_session_example =
    after_enrollment_session numbers numbers-IsIeee machine.bin (λ k. k) (λ r. r) false args chosen
      some_bytes chosen_read (λ is. omega arith)
      (numbers-VmapFinite (chosen.vmap_mib * mib_bytes / 8))

abbrev failing : Answers
failing = record {
  open_ok = true;
  stream_error = false;
  flush_ok = true;
  sync_ok = false;
  close_ok = true;
  rename_ok = true;
  remove_ok = false;
  reached = b'a' ∷ [];
}

abbrev csv : Bytes
csv = b'c' ∷ []

abbrev pid : Bytes
pid = b'7' ∷ []

abbrev text : Bytes
text = b'a' ∷ b'b' ∷ []

abbrev old : Fs
old path = if length path == 1 then some (text_file (b'o' ∷ [])) else none

write_csv_atomic_example :
    let (during, at_end, status) = write_csv failing old csv pid text in
    All (OldOrNew failing old csv pid text) during
    × (((status ≡ 0) × (at_end csv ≡ some (text_file text)) × (at_end (csv_tmp csv pid) ≡ none))
        ⊎ ((status ≡ 1)
            × (at_end csv ≡ old csv)
            × ((at_end (csv_tmp csv pid) ≡ none)
                ⊎ ((at_end (csv_tmp csv pid) ≡ old (csv_tmp csv pid))
                    ⊎ ((failing.remove_ok ≡ false)
                        × (at_end (csv_tmp csv pid) ≡ some (text_file (held failing text))))))))
write_csv_atomic_example = write_csv_atomic failing old csv pid text
