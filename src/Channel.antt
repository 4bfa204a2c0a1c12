-- ===== src/Channel.antt =====
-- The authenticated channel between the central node and a worker: src/master_npb.c and
-- src/worker_npb.c. Both files have the same functions; they differ in the direction byte that each
-- side writes and expects. `Sides` names the functions of each file.
pub mod Sides
pub mod Frames
pub mod Transfer
pub mod Stream
mod Tests
use distributed_enclave.Common.{ℕ, ◌+◌, ◌-◌, ◌*◌, ◌^◌, ◌%◌, Bool, true, false, not, ltb, ◌==◌, ◌++◌}
use distributed_enclave.Common.{if◌then◌else◌, Option, none, some, length, drop, take}
use distributed_enclave.Common.Int.{ℤ, pos}
use distributed_enclave.Wire.{
  Bytes, npub_bytes, abytes, secure_max_plain, make_nonce, parse_nonce, build_aad,
}
use distributed_enclave.Receive.{MpiErrors, Arrival, npb_recv_exact, mpi_success, int_eq}
use distributed_enclave.Sodium.{Sodium}

-- One side of a channel: the keys of the two directions, the transcript hash that both sides bind
-- messages to, and the two counters.
pub record Channel : Type 0 where
  pub send_key : Bytes
  pub recv_key : Bytes
  pub channel_binding : Bytes
  pub send_nonce_ctr : ℕ
  pub recv_nonce_ctr : ℕ

-- What a send does: a frame leaves and the channel moves on, or the process aborts
-- (MPI_Abort, or `die_mpi` after a failed MPI_Send).
pub data Sent : Type 0 where
  sent : Bytes → Channel → Sent
  aborted : Sent

-- What a receive does: 0 with the plaintext, -1, or the end of the process in `die_mpi`.
pub data Received : Type 0 where
  accepted : Bytes → Channel → Received
  rejected : Received
  died : Received

abbrev pub uint64_max : ℕ
uint64_max = 2 ^ 64 - 1

abbrev pub int_max : ℕ
int_max = 2 ^ 31 - 1

-- `mpi_send_f`: `delivered` says that MPI_Send succeeded.
unfoldable pub mpi_send_f : Bool → Bytes → Channel → Sent
mpi_send_f delivered frame ch = if delivered then sent frame ch else aborted

-- `mpi_recv_f` into a buffer of `total` bytes; `none` is the end of the process.
unfoldable pub mpi_recv_f : MpiErrors → ℕ → Arrival → Option Bytes
mpi_recv_f m total a = if npb_recv_exact m (pos total) a == mpi_success then some a.bytes else none

module _ (s : Sodium) where
  -- Nonce, associated data, encryption and its checks: the part that all sends share.
  unfoldable pub seal : ℕ → Channel → ℕ → Bytes → Bool → Sent
  unfolding mpi_send_f
  seal direction ch tag plaintext delivered =
      let counter = ch.send_nonce_ctr in
      let nonce = make_nonce counter in
      let aad = build_aad ch.channel_binding direction tag (length plaintext) counter in
      elim (s.encrypt ch.send_key nonce aad plaintext) [
        | none ↦ aborted
        | some c ↦
            if length c == length plaintext + abytes
            then mpi_send_f delivered (nonce ++ c) (record ch { send_nonce_ctr = counter + 1 })
            else aborted
      ]

  -- Sequence check, associated data, decryption and its checks: the part that all receives share.
  unfoldable pub unseal : ℕ → Channel → ℕ → ℕ → Bytes → Received
  unseal direction ch tag plain_len buf = elim (parse_nonce buf) [
    | none ↦ rejected
    | some received_ctr ↦
        if received_ctr == ch.recv_nonce_ctr
        then (let aad = build_aad ch.channel_binding direction tag plain_len received_ctr in
            elim (s.decrypt ch.recv_key (take npub_bytes buf) aad
              (take (plain_len + abytes) (drop npub_bytes buf))) [
                | none ↦ rejected
                | some plaintext ↦
                    if length plaintext == plain_len
                    then accepted plaintext
                        (record ch { recv_nonce_ctr = (received_ctr + 1) % 2 ^ 64 })
                    else rejected
              ])
        else rejected
  ]

  -- Lengths are those of buffers, so the source's test for a negative length is never met.
  unfoldable pub secure_send : ℕ → Channel → Bytes → ℕ → Bool → Sent
  unfolding seal
  secure_send direction ch plaintext tag delivered =
      if ltb secure_max_plain (length plaintext)
      then aborted
      else if ch.send_nonce_ctr == uint64_max
      then aborted
      else seal direction ch tag plaintext delivered

  unfoldable pub secure_recv : MpiErrors → ℕ → Channel → ℕ → ℕ → Arrival → Received
  unfolding unseal mpi_recv_f
  secure_recv m direction ch plain_len tag a =
      if ltb secure_max_plain plain_len
      then rejected
      else elim (mpi_recv_f m (npub_bytes + plain_len + abytes) a) [
        | none ↦ died
        | some buf ↦
            if int_eq a.received_count (pos (npub_bytes + plain_len + abytes))
            then unseal direction ch tag plain_len buf
            else rejected
      ]

  unfoldable pub workload_send_small : ℕ → Channel → Bytes → ℕ → Bool → Bool → Sent
  unfolding secure_send mpi_send_f
  workload_send_small direction ch plaintext tag encrypt delivered =
      if encrypt
      then secure_send direction ch plaintext tag delivered
      else if ltb secure_max_plain (length plaintext)
      then aborted
      else mpi_send_f delivered plaintext ch

  unfoldable pub workload_recv_small : MpiErrors → ℕ → Channel → ℕ → ℕ → Bool → Arrival → Received
  unfolding secure_recv mpi_recv_f
  workload_recv_small m direction ch data_bytes tag encrypt a =
      if encrypt
      then secure_recv m direction ch data_bytes tag a
      else if ltb secure_max_plain data_bytes
      then rejected
      else elim (mpi_recv_f m data_bytes a) [
        | none ↦ died
        | some buf ↦ if int_eq a.received_count (pos data_bytes) then accepted buf ch else rejected
      ]

  -- `allocated` says that malloc of the frame buffer succeeded.
  unfoldable pub send_bulk : ℕ → Channel → Bytes → ℕ → Bool → Bool → Bool → Sent
  unfolding seal mpi_send_f
  send_bulk direction ch bulk tag encrypt allocated delivered =
      if ltb int_max (length bulk)
      then aborted
      else if not encrypt
      then mpi_send_f delivered bulk ch
      else if ltb (int_max - npub_bytes - abytes) (length bulk)
      then aborted
      else if ch.send_nonce_ctr == uint64_max
      then aborted
      else if not allocated
      then aborted
      else seal direction ch tag bulk delivered

  unfoldable pub recv_bulk : MpiErrors → ℕ → Channel → ℕ → ℕ → Bool → Bool → Arrival → Received
  unfolding unseal mpi_recv_f
  recv_bulk m direction ch data_bytes tag encrypt allocated a =
      if ltb int_max data_bytes
      then rejected
      else if not encrypt
      then elim (mpi_recv_f m data_bytes a) [
        | none ↦ died
        | some buf ↦ if int_eq a.received_count (pos data_bytes) then accepted buf ch else rejected
      ]
      else if ltb (int_max - npub_bytes - abytes) data_bytes
      then rejected
      else if not allocated
      then rejected
      else elim (mpi_recv_f m (npub_bytes + data_bytes + abytes) a) [
        | none ↦ died
        | some buf ↦
            if int_eq a.received_count (pos (npub_bytes + data_bytes + abytes))
            then unseal direction ch tag data_bytes buf
            else rejected
      ]
