-- ===== src/Ep/Rounds/Within.antt =====
-- What the worker leaves of its messages in the EP workload.
use distributed_enclave.Common.{ℕ, zero, suc, arith, length}
use distributed_enclave.Common.{List, [], ◌∷◌, Option, none, some}
use distributed_enclave.Workload.{Out, ep_seed}
use distributed_enclave.Ep.Rounds.{ep_worker_loop}
use distributed_enclave.Workload.Within.{Within, more_room}

module _ {D : Type 0} where
  pub ep_worker_loop-Within :
      (bin : ℕ → ℕ → ℕ) (ep_pairs left : ℕ) (messages : List (Option (Out D)))
      → Within (length messages) (ep_worker_loop bin ep_pairs left messages).1
  unfolding ep_worker_loop
  ep_worker_loop-Within bin ep_pairs zero messages = omega arith
  ep_worker_loop-Within bin ep_pairs (suc left) [] = tt
  ep_worker_loop-Within bin ep_pairs (suc left) (none ∷ messages) = omega arith
  ep_worker_loop-Within bin ep_pairs (suc left) (some (ep_seed seed) ∷ messages) =
      more_room (length messages) (ep_worker_loop bin ep_pairs left messages).1
        (ep_worker_loop-Within bin ep_pairs left messages)
  ep_worker_loop-Within bin ep_pairs (suc left) (some _ ∷ messages) = tt
