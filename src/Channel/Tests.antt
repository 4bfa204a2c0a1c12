-- ===== src/Channel/Tests.antt =====
-- Runs of the channel with functions in the place of libsodium that meet its laws.
use distributed_enclave.Common.{
  List, [], ◌∷◌, ◌++◌, ◌≡◌, ◌≢◌, refl, arith, true, false, take, map, some, replicate,
}
use distributed_enclave.Wire.{
  Bytes, parse_nonce, make_nonce, store_u64_be_bytes, load_u64_be_bytes, npub_bytes,
}
use distributed_enclave.Sodium.Toy.{toy_sodium, toy_sodium-IsSodium}
use distributed_enclave.Receive.{MpiErrors, Arrival, npb_recv_exact}
use distributed_enclave.Channel.{Channel, accepted, secure_recv}
use distributed_enclave.Channel.Frames.{Aligned, after_recv, whole}
use distributed_enclave.Channel.Transfer.{secure_recv_replay}
use distributed_enclave.Channel.Stream.{
  Message, small, bulk, contents, transmit, transmit_delivers, sealed_frames, AllDistinct,
  sealed_frames-AllDistinct,
}

abbrev mpi_errors : MpiErrors
mpi_errors = record {
  mpi_err_count = 2;
  mpi_err_truncate = 15;
  mpi_err_arg = 13;
  mpi_err_port = 38;
  mpi_err_name = 33;
  mpi_err_service = 41;
}

abbrev sender : Channel
sender = record {
  send_key = replicate 32 1;
  recv_key = replicate 32 2;
  channel_binding = replicate 32 7;
  send_nonce_ctr = 4;
  recv_nonce_ctr = 0;
}

abbrev receiver : Channel
receiver = record {
  send_key = replicate 32 2;
  recv_key = replicate 32 1;
  channel_binding = replicate 32 7;
  send_nonce_ctr = 0;
  recv_nonce_ctr = 4;
}

both_Aligned : Aligned sender receiver
both_Aligned = record { same_key = refl; same_binding = refl; same_ctr = refl }

abbrev text : Bytes
text = 1 ∷ 2 ∷ 3 ∷ []

-- A sealed frame of three bytes with the number that the receiver expects.
abbrev arrival : Arrival
arrival = whole (make_nonce 4 ++ (text ++ replicate 16 0))

arrival_accepted :
    secure_recv toy_sodium mpi_errors 1 receiver 3 50 arrival ≡ accepted text (after_recv receiver)
unfolding secure_recv make_nonce parse_nonce npb_recv_exact store_u64_be_bytes load_u64_be_bytes
arrival_accepted = refl

secure_recv_replay_example :
    secure_recv toy_sodium mpi_errors 1 (after_recv receiver) 3 50 arrival ≢ accepted text receiver
secure_recv_replay_example =
    secure_recv_replay toy_sodium mpi_errors 1 receiver (after_recv receiver) (after_recv receiver)
      3 50 3 50 arrival text (omega arith) arrival_accepted (omega arith) text receiver

abbrev messages : List Message
messages = small text 50 true ∷ bulk (9 ∷ []) 51 false ∷ bulk text 52 true ∷ []

transmit_delivers_example :
    transmit toy_sodium mpi_errors 1 sender receiver messages ≡ some (map contents messages)
transmit_delivers_example =
    transmit_delivers toy_sodium toy_sodium-IsSodium mpi_errors 1 sender receiver messages
      both_Aligned (omega arith) (omega arith)

sealed_frames-AllDistinct_example :
    AllDistinct (map (take npub_bytes) (sealed_frames toy_sodium 1 sender messages))
sealed_frames-AllDistinct_example =
    sealed_frames-AllDistinct toy_sodium 1 sender messages (omega arith)
