-- ===== src/Ep/Rounds/Session.antt =====
-- The master and the workers in the EP workload.
use distributed_enclave.Common.{
  ℕ, zero, suc, ◌+◌, ◌*◌, ◌≤◌, ◌<◌, ◌≡◌, refl, sym, ap, arith, Bool, true, false, leb, length, map,
  length-append,
}
use distributed_enclave.Common.{List, [], ◌∷◌, ◌++◌, Option, some, fill, length-fill}
use mathlib.Core.List.{append-nil, append_assoc}
use distributed_enclave.Common.Int.{ℤ, pos}
use distributed_enclave.Ep.{int64_max, ep_compute}
use distributed_enclave.Ep.Results.{honest, gather_results-ep_compute}
use distributed_enclave.Workload.{
  workload_ep, NpbResult, max_runs, max_results, record_if_room, Out, command, ep_seed, complete,
  Sending, to_all, served,
}
use distributed_enclave.Workload.Loops.{
  to_worker, to_worker-append, to_worker-to_all, to_worker-fill, rows_of,
}
use distributed_enclave.Ep.Rounds.{
  EpReply, ep_cmd, seed_of, received, gathered_run, ep_runs, run_ep_master, ep_worker_loop,
}

-- What a worker sends in a run, with finite sums and a time in order.
abbrev pub ep_reply : (ℕ → ℕ → ℕ) → ℕ → ℕ → EpReply
ep_reply bin ep_n seed = record {
  counts = map pos (ep_compute bin ep_n (pos seed));
  sums_finite = true;
  time_ok = true;
}

received-fill :
    (bin : ℕ → ℕ → ℕ) (ep_n nworkers run i n : ℕ)
    → received (fill (λ w. some (ep_reply bin ep_n (seed_of nworkers run w))) i n)
      ≡ some (map (honest bin ep_n) (fill (λ w. pos (seed_of nworkers run w)) i n))
unfolding received
received-fill bin ep_n nworkers run i zero = refl
received-fill bin ep_n nworkers run i (suc n) =
    rw (received, received-fill bin ep_n nworkers run (i + 1) n) refl

run_gathered :
    (bin : ℕ → ℕ → ℕ) (ep_n nworkers run : ℕ)
    → ep_n * nworkers ≤ int64_max
    → (sums : List ℕ) × (gathered_run ep_n
          (received (fill (λ w. some (ep_reply bin ep_n (seed_of nworkers run w))) 0 nworkers))
        ≡ some sums)
run_gathered bin ep_n nworkers run room =
    let seeds : List ℤ = fill (λ w. pos (seed_of nworkers run w)) 0 nworkers in
    let (sums, gathered) =
      gather_results-ep_compute bin ep_n seeds
        (rw (length-fill (λ w. pos (seed_of nworkers run w)) 0 nworkers) room) in
    (sums, rw (received-fill bin ep_n nworkers run 0 nworkers, gathered_run, gathered) refl)

abbrev pub ep_answers : (ℕ → ℕ → ℕ) → ℕ → ℕ → ℕ → ℕ → Option EpReply
ep_answers bin ep_n nworkers run w = some (ep_reply bin ep_n (seed_of nworkers run w))

module _ {D : Type 0} (bin : ℕ → ℕ → ℕ) (ep_n nworkers : ℕ) (encrypt : Bool)
    (room : ep_n * nworkers ≤ int64_max) where
  abbrev runs : ℕ → ℕ → List NpbResult → Sending D
  runs left run rows = ep_runs nworkers encrypt ep_n (ep_answers bin ep_n nworkers) left run rows

  ep_runs-complete :
      (left run : ℕ) (rows : List NpbResult)
      → length rows + left ≤ max_results
      → ((runs left run rows).1 ≡ complete (rows ++ rows_of workload_ep nworkers encrypt run left))
        × ((w : ℕ)
            → w < nworkers
            → to_worker w (runs left run rows).0
              ≡ fill (λ r. some (ep_seed (seed_of nworkers r w))) run left)
  unfolding ep_runs record_if_room
  ep_runs-complete zero run rows few = (ap complete (sym (append-nil rows)), λ w known. refl)
  ep_runs-complete (suc left) run rows few =
      let (sums, gathered) = run_gathered bin ep_n nworkers run room in
      let row : NpbResult = record {
        workload = workload_ep;
        num_workers = nworkers;
        encrypted = encrypt;
        run = run;
      } in
      let fits : leb max_results (length rows) ≡ false = ground arith in
      let scatter : List (ℕ × Out D) =
        fill (λ v. (v, ep_seed (seed_of nworkers run v))) 0 nworkers in
      let (ends, sends) =
        ep_runs-complete left (run + 1) (rows ++ row ∷ [])
          (omega (arith, length-append rows (row ∷ []))) in
      (
        rw (ep_runs, gathered, record_if_room, fits, ends)
            (ap complete
              (append_assoc rows (row ∷ []) (rows_of workload_ep nworkers encrypt (run + 1) left))),
        λ w known.
            rw
              (
                ep_runs,
                gathered,
                record_if_room,
                fits,
                to_worker-append w scatter (runs left (run + 1) (rows ++ row ∷ [])).0,
                to_worker-fill {M = Out D} w 0 nworkers (λ v. ep_seed (seed_of nworkers run v))
                    (omega arith) (omega arith),
                sends w known,
              )
              refl,
      )

  worker_part :
      (w left run : ℕ) (rest : List (Option (Out D)))
      → ep_worker_loop {D = D} bin ep_n left
          (fill (λ r. some (ep_seed (seed_of nworkers r w))) run left ++ rest)
        ≡ (fill (λ r. ep_compute bin ep_n (pos (seed_of nworkers r w))) run left, served rest)
  unfolding ep_worker_loop
  worker_part w zero run rest = refl
  worker_part w (suc left) run rest = rw (worker_part w left (run + 1) rest) refl

  -- In the EP workload, with a number of pairs that the options allow, at most `max_runs` runs, an empty
  -- table, finite sums of deviates and times in order: the master accepts what the workers compute and
  -- has one row for each run, in order. Worker `w` gets the command and the seed `run * nworkers + w`
  -- for each run, counts the pairs of these seeds, and is through.
  pub ep_session :
      (num_runs : ℕ)
      → num_runs ≤ max_runs
      → let sending : Sending D =
          run_ep_master nworkers encrypt num_runs ep_n (ep_answers bin ep_n nworkers) [] in
        (sending.1 ≡ complete (rows_of workload_ep nworkers encrypt 1 num_runs))
        × ((w : ℕ)
            → w < nworkers
            → (seeds : List (Option (Out D))) × (to_worker w sending.0
                ≡ some (command (ep_cmd encrypt num_runs ep_n)) ∷ seeds)
              × ((rest : List (Option (Out D)))
                  → ep_worker_loop bin ep_n num_runs (seeds ++ rest) ≡ (
                    fill (λ run. ep_compute bin ep_n (pos (seed_of nworkers run w))) 1 num_runs,
                    served rest,
                  )))
  unfolding run_ep_master
  ep_session num_runs few =
      let cmd = ep_cmd encrypt num_runs ep_n in
      let (ends, sends) = ep_runs-complete num_runs 1 [] (omega (arith, few)) in
      (
        ends,
        λ w known. (
          fill (λ r. some (ep_seed (seed_of nworkers r w))) 1 num_runs,
          rw
              (
                to_worker-append w (to_all {M = Out D} nworkers (command cmd))
                    (runs num_runs 1 []).0,
                to_worker-to_all {M = Out D} w nworkers (command cmd) known,
                sends w known,
              )
              refl,
          λ rest. worker_part w num_runs 1 rest,
        ),
      )
