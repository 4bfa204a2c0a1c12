-- ===== src/Taskq.antt =====
-- The dynamic task queue. Here: the token that a task computes, and the linear map by which the
-- master checks it without running the iterations (src/master_npb.c and src/worker_npb.c).
pub mod Linear
pub mod Jump
pub mod Messages
pub mod Worker
pub mod Check
pub mod Agree
pub mod Rounds
pub mod Scheduler
mod Tests
use distributed_enclave.Common.{ℕ, zero, suc, ◌+◌, ◌-◌, ◌*◌, ◌/◌, ◌%◌, ◌^◌, ◌<◌, bit_and, bit_xor}
use distributed_enclave.Common.{List, [], ◌∷◌, map, Bool, ◌==◌, if◌then◌else◌, arith, lt_wf}
use mathlib.Core.Logic.{dite}
use mathlib.Core.WellFounded.{Acc}
use native.Mathlib.Decide.{dec_lt}

abbrev pub u8 : ℕ → ℕ
u8 n = n % 2 ^ 8

abbrev pub u32 : ℕ → ℕ
u32 n = n % 2 ^ 32

abbrev pub u64 : ℕ → ℕ
u64 n = n % 2 ^ 64

unfoldable pub xorshift64_step : ℕ → ℕ
xorshift64_step value =
    let a = bit_xor value (u64 (value * 2 ^ 13)) in
    let b = bit_xor a (a / 2 ^ 7) in bit_xor b (u64 (b * 2 ^ 17))

-- `run` is the `int` of the source, cast to `uint32_t`.
unfoldable pub task_initial_token : ℕ → ℕ → ℕ
task_initial_token task_id run =
    let token =
      bit_xor (bit_xor 0x9e3779b97f4a7c15 (u64 (task_id * 0xbf58476d1ce4e5b9)))
        (u64 (u32 run * 2 ^ 32)) in
    if token == 0 then 0xd1b54a32d192ed03 else token

unfoldable pub task_input_byte : ℕ → ℕ → ℕ → ℕ
task_input_byte task_id run index = u8 (u64 (u64 (task_id * 131) + u64 (u32 run * 17) + index))

unfoldable pub task_output_byte : ℕ → ℕ → ℕ → ℕ → ℕ
task_output_byte input token task_id index =
    let shift = bit_and index 7 * 8 in
    let mask = u8 (token / 2 ^ shift) in
    let lane = u8 (u64 (u64 (index * 29) + task_id)) in u8 (bit_xor (bit_xor input mask) lane)

-- The worker's loop: `token = xorshift64_step(token)`, `iterations` times.
unfoldable pub run_iterations : ℕ → ℕ → ℕ
run_iterations zero token = token
run_iterations (suc n) token = run_iterations n (xorshift64_step token)

-- The loop of `linear_map_apply`, over the entries from `bit` on.
apply_loop : List ℕ → ℕ → ℕ → ℕ → ℕ
apply_loop [] bit value result = result
apply_loop (m ∷ ms) bit value result =
    apply_loop ms (bit + 1) value
      (if bit_and (value / 2 ^ bit) 1 == 1 then bit_xor result m else result)

unfoldable pub linear_map_apply : List ℕ → ℕ → ℕ
unfolding apply_loop
linear_map_apply entries value = apply_loop entries 0 value 0

unfoldable pub linear_map_compose : List ℕ → List ℕ → List ℕ
linear_map_compose outer inner = map (linear_map_apply outer) inner

-- `UINT64_C(1) << bit` for `n` values of `bit` from `i` on.
unfoldable pub unit_bits : ℕ → ℕ → List ℕ
unit_bits zero i = []
unit_bits (suc n) i = 2 ^ i ∷ unit_bits n (i + 1)

pub half_shrinks : (n : ℕ) → 0 < n → n / 2 < n
half_shrinks n h = omega arith

-- `while (iterations != 0)`; the round ends when `iterations >>= 1` gives 0.
jump_loop : (iterations : ℕ) → Acc ◌<◌ iterations → List ℕ → List ℕ → List ℕ
jump_loop iterations (Acc.intro _ smaller) base jump =
    dite (dec_lt 0 iterations)
      (λ more.
        let jump' = if bit_and iterations 1 == 1 then linear_map_compose base jump else jump in
        let base' = if iterations / 2 == 0 then base else linear_map_compose base base in
        jump_loop (iterations / 2) (smaller _ (half_shrinks iterations more)) base' jump')
      (λ _. jump)

unfoldable pub build_xorshift_jump : ℕ → List ℕ
unfolding jump_loop lt_wf
build_xorshift_jump iterations =
    jump_loop iterations (lt_wf.apply iterations) (map xorshift64_step (unit_bits 64 0))
      (unit_bits 64 0)
