-- ===== src/Taskq/Agree.antt =====
-- Worker and master agree: the master accepts what a worker answers to a task that it was sent.
use distributed_enclave.Common.{
  fill, get_or-fill, ℕ, zero, suc, ◌+◌, ◌≤◌, ◌/◌, ◌-◌, ◌^◌, ◌*◌, ◌<◌, ◌≡◌, refl, ap, ◌∙◌, arith,
}
use distributed_enclave.Common.{List, true, some, get_or, bit_xor}
use distributed_enclave.Common.Xor.{bit_xor-lt}
use distributed_enclave.Taskq.{
  u64, u32, task_initial_token, task_input_byte, task_output_byte, run_iterations,
  build_xorshift_jump,
}
use distributed_enclave.Taskq.Jump.{build_xorshift_jump-run_iterations}
use distributed_enclave.Taskq.Messages.{
  TaskqTask, TaskqResult, send_taskq_work, samples_agree, expected_output,
}
use distributed_enclave.Taskq.Worker.{TaskqCmd, answered, serve, answer, compute_output}
use distributed_enclave.Taskq.Check.{Reply, reply_ok}

pub task_initial_token-lt : (task_id run : ℕ) → task_initial_token task_id run < 2 ^ 64
unfolding task_initial_token
task_initial_token-lt task_id run =
    let a = bit_xor 0x9e3779b97f4a7c15 (u64 (task_id * 0xbf58476d1ce4e5b9)) in
    let ha : a < 2 ^ 64 =
      bit_xor-lt 64 0x9e3779b97f4a7c15 (u64 (task_id * 0xbf58476d1ce4e5b9)) (omega arith)
        (omega arith) in
    ground (arith, bit_xor-lt 64 a (u64 (u32 run * 2 ^ 32)) ha (omega arith))

samples_agree-fill :
    (f g : ℕ → ℕ) (n : ℕ)
    → 0 < n
    → ((i : ℕ) → i < n → f i ≡ g i)
    → samples_agree g (fill f 0 n) n ≡ true
samples_agree-fill f g n pos same = ground (
  arith,
  get_or-fill f 0 n 0 0 pos,
  same 0 pos,
  get_or-fill f 0 n (n / 2) 0 (omega arith),
  same (n / 2) (omega arith),
  get_or-fill f 0 n (n - 1) 0 (omega arith),
  same (n - 1) (omega arith),
)

module _ (run task_id iterations n : ℕ) (pos : 0 < n) where
  abbrev token : ℕ
  token = run_iterations iterations (task_initial_token task_id run)

  abbrev input : List ℕ
  input = fill (task_input_byte task_id run) 0 n

  abbrev output : List ℕ
  output = compute_output input token task_id n

  abbrev result : TaskqResult
  result = record {
    run = run;
    verified = true;
    task_id = task_id;
    token = token;
    payload_bytes = n;
    time_ok = true;
  }

  output_byte :
      (i : ℕ)
      → i < n
      → task_output_byte (get_or input i 0) token task_id i ≡ expected_output task_id run token i
  output_byte i h =
      ap (λ b. task_output_byte b token task_id i)
        (get_or-fill (task_input_byte task_id run) 0 n i 0 h
          ∙ ap (task_input_byte task_id run) (omega arith))

  output_from :
      (i k : ℕ)
      → i + k ≤ n
      → fill (λ j. task_output_byte (get_or input j 0) token task_id j) i k
        ≡ fill (expected_output task_id run token) i k
  output_from i zero h = refl
  output_from i (suc k) h =
      rw (output_byte i (omega arith), output_from (i + 1) k (omega arith)) refl

  output_expected : output ≡ fill (expected_output task_id run token) 0 n
  output_expected = output_from 0 n (omega arith)

  output_agrees : samples_agree (expected_output task_id run token) output n ≡ true
  output_agrees = samples_agree-fill _ (expected_output task_id run token) n pos output_byte

  answer-sent :
      (task : TaskqTask)
      → task.task_id ≡ task_id
      → task.iterations ≡ iterations
      → task.payload_bytes ≡ n
      → answer run task input n true ≡ answered result output
  unfolding answer
  answer-sent task i k p =
      rw
        (
          i,
          k,
          p,
          samples_agree-fill (task_input_byte task_id run) (task_input_byte task_id run) n pos
              (λ i h. refl),
          output_agrees,
        )
        refl

  result_ok :
      reply_ok run n (build_xorshift_jump iterations) task_id (record {
        result_received = true;
        result = result;
        output_received = true;
        output = output;
      })
      ≡ true
  unfolding reply_ok
  result_ok =
      let same =
        build_xorshift_jump-run_iterations iterations (task_initial_token task_id run)
          (task_initial_token-lt task_id run) in
      rw same (ground (arith, output_agrees))

-- For a task that the master sends, with the payload size and iteration count of the command, the
-- worker answers, and the master's checks pass on the answer.
pub reply_ok-serve :
    (cmd : TaskqCmd) (run task_id : ℕ)
    → task_id < cmd.task_count
    → 0 < cmd.task_bytes
    → let (task, input) = send_taskq_work run task_id cmd.task_iters cmd.task_bytes in
      (result : TaskqResult) × (output : List ℕ) × (serve cmd run (some task) (some input) true
        ≡ answered result output)
      × (reply_ok run cmd.task_bytes (build_xorshift_jump cmd.task_iters) task_id (record {
        result_received = true;
        result = result;
        output_received = true;
        output = output;
      })
          ≡ true)
unfolding send_taskq_work serve
reply_ok-serve cmd run task_id known pos =
    let n = cmd.task_bytes in
    let answers = answer-sent run task_id cmd.task_iters n pos in
    (
      result run task_id cmd.task_iters n pos,
      output run task_id cmd.task_iters n pos,
      ground (arith, answers (send_taskq_work run task_id cmd.task_iters n).0 refl refl refl),
      result_ok run task_id cmd.task_iters n pos,
    )

-- The answer to a task, by its definition: the token after all iterations, and the output bytes that
-- the master expects.
abbrev pub task_answer : TaskqCmd → ℕ → ℕ → TaskqResult × List ℕ
task_answer cmd run task_id =
    let token = run_iterations cmd.task_iters (task_initial_token task_id run) in
    (
      record {
        run = run;
        verified = true;
        task_id = task_id;
        token = token;
        payload_bytes = cmd.task_bytes;
        time_ok = true;
      },
      fill (expected_output task_id run token) 0 cmd.task_bytes,
    )

-- The worker gives this answer to a task that the master sends.
pub serve-task_answer :
    (cmd : TaskqCmd) (run task_id : ℕ)
    → task_id < cmd.task_count
    → 0 < cmd.task_bytes
    → let (task, input) = send_taskq_work run task_id cmd.task_iters cmd.task_bytes in
      serve cmd run (some task) (some input) true
      ≡ answered (task_answer cmd run task_id).0 (task_answer cmd run task_id).1
unfolding send_taskq_work serve
serve-task_answer cmd run task_id known pos =
    let n = cmd.task_bytes in
    let answers = answer-sent run task_id cmd.task_iters n pos in
    ground (
      arith,
      answers (send_taskq_work run task_id cmd.task_iters n).0 refl refl refl,
      output_expected run task_id cmd.task_iters n pos,
    )

-- What an accepted answer is worth: it is about the task that was assigned, its token is the one
-- that running all iterations gives, and the three output bytes that are looked at are right.
pub reply_ok_sound :
    (run iterations n assigned_task : ℕ) (reply : Reply)
    → reply_ok run n (build_xorshift_jump iterations) assigned_task reply ≡ true
    → (reply.result.task_id ≡ assigned_task)
      × (reply.result.token ≡ run_iterations iterations (task_initial_token assigned_task run))
      × (samples_agree (expected_output assigned_task run reply.result.token) reply.output n ≡ true)
unfolding reply_ok
reply_ok_sound run iterations n assigned_task reply ok = ground (
  arith,
  build_xorshift_jump-run_iterations iterations (task_initial_token assigned_task run)
      (task_initial_token-lt assigned_task run),
)
