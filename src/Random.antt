-- ===== src/Random.antt =====
-- The random pointer chase of the worker: `run_random_workload` of src/worker_npb.c. An array is a
-- list; indexes and entries are below 2^32 because of the check of the element count.
pub mod Shuffle
pub mod Chase
mod Tests
use distributed_enclave.Common.{
  ℕ, zero, suc, ◌+◌, ◌-◌, ◌*◌, ◌/◌, ◌%◌, ◌^◌, Bool, true, false, not, ◌||◌, ltb, ◌==◌,
}
use distributed_enclave.Common.{
  List, [], ◌∷◌, Option, none, some, if◌then◌else◌, get_or, set, fill, replicate,
}
use distributed_enclave.Taskq.{xorshift64_step}

abbrev pub mib_bytes : ℕ
mib_bytes = 1024 * 1024

abbrev pub random_min_mib : ℕ
random_min_mib = 32

abbrev pub random_max_mib : ℕ
random_max_mib = 256

abbrev pub at : List ℕ → ℕ → ℕ
at xs i = get_or xs i 0

unfoldable pub checked_mib_bytes : ℕ → Option ℕ
checked_mib_bytes mib = if ltb ((2 ^ 64 - 1) / mib_bytes) mib then none else some (mib * mib_bytes)

unfoldable pub swap : List ℕ → ℕ → ℕ → List ℕ
swap order i other = set (set order i (at order other)) other (at order i)

-- `for (i = element_count - 1; i > 0; i--)`
unfoldable pub shuffle_loop : ℕ → ℕ → List ℕ → List ℕ
shuffle_loop zero rng order = order
shuffle_loop (suc i) rng order =
    let rng' = xorshift64_step rng in shuffle_loop i rng' (swap order (suc i) (rng' % (suc i + 1)))

unfoldable pub shuffled : ℕ → List ℕ
shuffled element_count =
    shuffle_loop (element_count - 1) 0x4d595df4d0f33173 (fill (λ i. i) 0 element_count)

abbrev pub next_position : ℕ → ℕ → ℕ
next_position element_count i = if i + 1 == element_count then 0 else i + 1

-- The loop that links each entry to the one behind it, from position `i` on.
unfoldable pub link_loop : ℕ → List ℕ → ℕ → ℕ → List ℕ → List ℕ
link_loop element_count order zero i links = links
link_loop element_count order (suc left) i links =
    link_loop element_count order left (i + 1)
      (set links (at order i) (at order (next_position element_count i)))

-- `if (order[i] == 0) zero_position = i;` in the same loop.
unfoldable pub zero_loop : List ℕ → ℕ → ℕ → ℕ → ℕ
zero_loop order zero i zero_position = zero_position
zero_loop order (suc left) i zero_position =
    zero_loop order left (i + 1) (if at order i == 0 then i else zero_position)

-- `token = links[token]`, `accesses` times.
unfoldable pub chase : List ℕ → ℕ → ℕ → ℕ
chase links zero token = token
chase links (suc accesses) token = chase links accesses (at links token)

-- What is kept for the runs.
pub record Prepared : Type 0 where
  pub element_count : ℕ
  pub links : List ℕ
  pub warm_token : ℕ
  pub expected_final_token : ℕ

-- From the element count to the report that the worker is ready; `none` is the report that it is
-- not. `links` holds zeros at first, which the source leaves open; every entry is written.
unfoldable pub prepare : ℕ → ℕ → ℕ → Option Prepared
prepare element_count warmup_accesses accesses =
    let order = shuffled element_count in
    let links = link_loop element_count order element_count 0 (replicate element_count 0) in
    let zero_position = zero_loop order element_count 0 0 in
    let warm_token = chase links warmup_accesses 0 in
    let warm_position = (zero_position + warmup_accesses % element_count) % element_count in
    let final_position = (warm_position + accesses % element_count) % element_count in
    if not (warm_token == at order warm_position)
    then none
    else some (record {
      element_count = element_count;
      links = links;
      warm_token = warm_token;
      expected_final_token = at order final_position;
    })

-- The checks of the command before that; `allocated` says that both mallocs succeeded.
unfoldable pub run_random_workload : ℕ → ℕ → ℕ → Bool → Option Prepared
run_random_workload random_mib warmup_accesses accesses allocated =
    if ltb random_mib random_min_mib || (ltb random_max_mib random_mib || accesses == 0)
    then none
    else elim (checked_mib_bytes random_mib) [
      | none ↦ none
      | some link_bytes ↦
          if not (link_bytes % 4 == 0)
          then none
          else if (link_bytes / 4 == 0) || ltb (2 ^ 32 - 1) (link_bytes / 4)
          then none
          else if not allocated
          then none
          else prepare (link_bytes / 4) warmup_accesses accesses
    ]

-- One run: the token that is reached, and whether it is the expected one.
unfoldable pub random_run : Prepared → ℕ → ℕ × Bool
random_run p accesses =
    let token = chase p.links accesses p.warm_token in (token, token == p.expected_final_token)
