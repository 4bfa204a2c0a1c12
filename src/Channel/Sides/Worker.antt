-- ===== src/Channel/Sides/Worker.antt =====
-- The channel functions of src/worker_npb.c.
use distributed_enclave.Common.{ℕ, Bool}
use distributed_enclave.Wire.{Bytes}
use distributed_enclave.Receive.{MpiErrors, Arrival}
use distributed_enclave.Sodium.{Sodium}
use distributed_enclave.Channel
use distributed_enclave.Channel.{Channel, Sent, Received}

abbrev pub outgoing : ℕ
outgoing = 2

abbrev pub incoming : ℕ
incoming = 1

module _ (s : Sodium) where
  abbrev pub secure_send : Channel → Bytes → ℕ → Bool → Sent
  secure_send = Channel.secure_send s outgoing

  abbrev pub secure_recv : MpiErrors → Channel → ℕ → ℕ → Arrival → Received
  secure_recv m = Channel.secure_recv s m incoming

  abbrev pub workload_send_small : Channel → Bytes → ℕ → Bool → Bool → Sent
  workload_send_small = Channel.workload_send_small s outgoing

  abbrev pub workload_recv_small : MpiErrors → Channel → ℕ → ℕ → Bool → Arrival → Received
  workload_recv_small m = Channel.workload_recv_small s m incoming

  abbrev pub send_bulk : Channel → Bytes → ℕ → Bool → Bool → Bool → Sent
  send_bulk = Channel.send_bulk s outgoing

  abbrev pub recv_bulk : MpiErrors → Channel → ℕ → ℕ → Bool → Bool → Arrival → Received
  recv_bulk m = Channel.recv_bulk s m incoming
