-- ===== src/Random/Tests.antt =====
-- Runs of the pointer chase.
use distributed_enclave.Common.{ℕ, ◌+◌, ◌%◌, ◌≡◌, refl, arith, true, [], ◌∷◌, some}
use distributed_enclave.Random.{at, swap, shuffle_loop, shuffled, Prepared, prepare, random_run}
use distributed_enclave.Random.Chase.{prepare-random_run}
use distributed_enclave.Taskq.{xorshift64_step}

shuffled_run : shuffled 5 ≡ 4 ∷ 3 ∷ 1 ∷ 2 ∷ 0 ∷ []
unfolding shuffled shuffle_loop swap xorshift64_step
shuffled_run = refl

prepare-random_run_example :
    (p : Prepared) × (prepare 7 10 20 ≡ some p)
    × (p.element_count ≡ 7)
    × ((random_run p 20).1 ≡ true)
    × ((start : ℕ) × (at (shuffled 7) start ≡ 0)
        × ((random_run p 20).0 ≡ at (shuffled 7) (((start + 10) % 7 + 20) % 7)))
prepare-random_run_example = prepare-random_run 7 10 20 (omega arith)
