-- ===== src/Attest/Payload.antt =====
-- The binding of a worker's key to the central node's context.
use distributed_enclave.Common.{◌≡◌, refl, sym, ◌∙◌, arith, true, length, [], ◌++◌}
use distributed_enclave.Wire.{Bytes}
use distributed_enclave.Sodium.{Sodium, IsSodium}
use distributed_enclave.Attest.{
  EaPayloadHdr, ea_media_type, ea_exporter_label, ea_payload_version, text_field, strncmp_equal,
  ea_aik_pub_hash, ea_binding_value, ea_compute_binding, ea_verify_payload, ea_build_payload,
}

texts_match :
    (strncmp_equal 64 (text_field ea_media_type) ea_media_type ≡ true)
    × (strncmp_equal 64 (text_field ea_exporter_label) ea_exporter_label ≡ true)
unfolding strncmp_equal
texts_match = (refl, refl)

module _ (s : Sodium) (law : IsSodium s) (context pub_key : Bytes) where
  -- The central node accepts the payload that a worker builds for the same context and key.
  pub ea_verify_payload-ea_build_payload :
      (evidence : Bytes)
      → ea_verify_payload s (ea_build_payload s context pub_key evidence) context pub_key ≡ true
  unfolding ea_verify_payload ea_build_payload ea_compute_binding
  ea_verify_payload-ea_build_payload evidence =
      let aik = ea_aik_pub_hash s pub_key in
      let binding = ea_binding_value s pub_key context in
      ground (
        arith,
        texts_match,
        (law.memcmp_iff aik aik refl).1 refl,
        (law.memcmp_iff binding binding refl).1 refl,
      )

  -- An accepted payload has the version of the protocol, and is bound to the key and the context
  -- of this session.
  pub ea_verify_payload-bound :
      (hdr : EaPayloadHdr)
      → length hdr.aik_pub_hash ≡ 32
      → length hdr.binding ≡ 64
      → ea_verify_payload s hdr context pub_key ≡ true
      → (hdr.version ≡ ea_payload_version)
        × (hdr.aik_pub_hash ≡ ea_aik_pub_hash s pub_key)
        × (hdr.binding ≡ ea_binding_value s pub_key context)
  unfolding ea_verify_payload ea_compute_binding ea_aik_pub_hash ea_binding_value
  ea_verify_payload-bound hdr n k ok =
      let aik : Bytes = s.generichash 32 [] pub_key in
      let binding : Bytes = s.generichash 64 [] (pub_key ++ context) in
      let same_aik =
        law.memcmp_iff aik hdr.aik_pub_hash (law.length-generichash 32 [] pub_key ∙ sym n) in
      let same_binding =
        law.memcmp_iff binding hdr.binding
          (law.length-generichash 64 [] (pub_key ++ context) ∙ sym k) in
      (ground arith, sym (same_aik.0 (ground arith)), sym (same_binding.0 (ground arith)))
