-- ===== src/Gts/Lower/RoundTrip.antt =====
-- wire/gts_handwritten.rs: the fields of a packet come back from the bytes that they are written to.
use smolgnet.Base.{
  ℕ, ◌+◌, ◌≡◌, refl, ◌∙◌, arith, bit_and, true, false, ltb, ◌!=◌, List, ◌∷◌, ◌++◌, length, ◌≤◌,
}
use smolgnet.Base.Results.{ok, ◌>>=◌}
use smolgnet.Base.Words.{IsU16, IsU32, shr}
use smolgnet.Base.Bytes.{to_be_bytes, from_be_bytes, from_be_bytes-to_be_bytes}
use smolgnet.Gts.{GtsType, type_from_wire}
use smolgnet.Gts.{
  ack_type, connect_ack_type, connect_type, data_end_type, data_type, datagram_type, reset_type,
  stream_ack_type, stream_close_ack_type, stream_close_type, stream_open_type,
  stream_reset_ack_type, stream_reset_type, tunnel_close_ack_type, tunnel_close_type,
}
use smolgnet.Gts.Lower.Parse.{parse_lower, parse_fields}
use smolgnet.Gts.Lower.Encode.{encode_lower}
use smolgnet.Gts.Lower.{GtsLowerPacket, lower_prefix_len}
use smolgnet.Gts.Lower.{
  connect, connect_ack, stream_open, stream_ack, data_packet, ack, datagram, stream_close,
  tunnel_close, reset, stream_reset,
}

-- The words of a packet are in range; its octets are whatever they are.
unfoldable pub IsLower : GtsLowerPacket → Type 0
IsLower (connect initiator_receive_tunnel initiator_reset_id profile initial_receive_credit) =
    IsU32 initiator_receive_tunnel × IsU32 initiator_reset_id × IsU16 profile
IsLower
      (connect_ack initiator_receive_tunnel responder_receive_tunnel responder_reset_id status
        initial_receive_credit reserved) =
    IsU32 initiator_receive_tunnel × IsU32 responder_receive_tunnel × IsU32 responder_reset_id
IsLower (stream_open tunnel_id stream_id profile initial_receive_credit reserved) =
    IsU32 tunnel_id × IsU16 profile
IsLower (stream_ack tunnel_id stream_id status initial_receive_credit reserved) = IsU32 tunnel_id
IsLower (data_packet tunnel_id stream_id sequence option_probe is_end) =
    IsU32 tunnel_id × IsU32 sequence × IsU16 option_probe
IsLower (ack tunnel_id stream_id ack_base receive_bitmap receive_credit reserved) =
    IsU32 tunnel_id × IsU32 ack_base × IsU32 receive_bitmap
IsLower (datagram tunnel_id stream_id probe0 probe1 probe2 probe3 probe4 probe5) = IsU32 tunnel_id
IsLower (stream_close tunnel_id stream_id final_sequence is_ack) =
    IsU32 tunnel_id × IsU32 final_sequence
IsLower (tunnel_close tunnel_id is_ack) = IsU32 tunnel_id
IsLower (reset tunnel_id reset_id reason) = IsU32 tunnel_id × IsU32 reset_id
IsLower (stream_reset tunnel_id stream_id reason reserved is_ack) = IsU32 tunnel_id

word4 : (v : ℕ) → IsU32 v → from_be_bytes (to_be_bytes 4 v) ≡ v
word4 v h = from_be_bytes-to_be_bytes 4 v (omega (arith, h))

word2 : (v : ℕ) → IsU16 v → from_be_bytes (to_be_bytes 2 v) ≡ v
word2 v h = from_be_bytes-to_be_bytes 2 v (omega (arith, h))

-- What the parser does when there are enough octets for the type in the first.
parse_lower-fields :
    (first : ℕ) (tail : List ℕ) (ty : GtsType) (prefix_len : ℕ)
    → (shr first 4 != 0) ≡ false
    → type_from_wire (bit_and first 0x0f) ≡ ok ty
    → lower_prefix_len ty ≡ ok prefix_len
    → 5 ≤ prefix_len
    → prefix_len + 4 ≤ length (first ∷ tail)
    → parse_lower (first ∷ tail) ≡ parse_fields (first ∷ tail) prefix_len ty
unfolding parse_lower
parse_lower-fields first tail ty prefix_len version known_type known_len some_len long =
    rw (enough5, version, known_type, known_len, enough) refl
  where
    enough5 : ltb (length (first ∷ tail)) 5 ≡ false
    enough5 = ground (arith, some_len, long)

    enough : ltb (length (first ∷ tail)) (prefix_len + 4) ≡ false
    enough = ground (arith, long)

-- What is encoded for a lower packet with its words in range is parsed back to it, whatever four octets or more come behind.
pub encode_lower-parse_lower :
    (lower : GtsLowerPacket) (rest : List ℕ)
    → IsLower lower
    → 4 ≤ length rest
    → (encode_lower lower >>= λ bytes. parse_lower (bytes ++ rest)) ≡ ok lower
unfolding encode_lower parse_fields to_be_bytes type_from_wire lower_prefix_len IsLower
encode_lower-parse_lower
      (connect initiator_receive_tunnel initiator_reset_id profile initial_receive_credit) rest
      (is_initiator_receive_tunnel, is_initiator_reset_id, is_profile) long =
    parse_lower-fields 1 _ connect_type 12 refl refl refl (omega arith) (omega (arith, long))
    ∙ (λ i. ok (
        connect (word4 initiator_receive_tunnel is_initiator_receive_tunnel i)
          (word4 initiator_reset_id is_initiator_reset_id i) (word2 profile is_profile i)
          initial_receive_credit))
encode_lower-parse_lower
      (connect_ack initiator_receive_tunnel responder_receive_tunnel responder_reset_id status
        initial_receive_credit reserved)
      rest (is_initiator_receive_tunnel, is_responder_receive_tunnel, is_responder_reset_id) long =
    parse_lower-fields 2 _ connect_ack_type 16 refl refl refl (omega arith) (omega (arith, long))
    ∙ (λ i. ok (
        connect_ack (word4 initiator_receive_tunnel is_initiator_receive_tunnel i)
          (word4 responder_receive_tunnel is_responder_receive_tunnel i)
          (word4 responder_reset_id is_responder_reset_id i) status initial_receive_credit
          reserved))
encode_lower-parse_lower (stream_open tunnel_id stream_id profile initial_receive_credit reserved)
      rest (is_tunnel_id, is_profile) long =
    parse_lower-fields 3 _ stream_open_type 10 refl refl refl (omega arith) (omega (arith, long))
    ∙ (λ i. ok (
        stream_open (word4 tunnel_id is_tunnel_id i) stream_id (word2 profile is_profile i)
          initial_receive_credit reserved))
encode_lower-parse_lower (stream_ack tunnel_id stream_id status initial_receive_credit reserved)
      rest is_tunnel_id long =
    parse_lower-fields 4 _ stream_ack_type 9 refl refl refl (omega arith) (omega (arith, long))
    ∙ (λ i. ok (
        stream_ack (word4 tunnel_id is_tunnel_id i) stream_id status initial_receive_credit
          reserved))
encode_lower-parse_lower (data_packet tunnel_id stream_id sequence option_probe false) rest
      (is_tunnel_id, is_sequence, is_option_probe) long =
    parse_lower-fields 5 _ data_type 12 refl refl refl (omega arith) (omega (arith, long)) ∙ (λ i.
      ok (
        data_packet (word4 tunnel_id is_tunnel_id i) stream_id (word4 sequence is_sequence i)
          (word2 option_probe is_option_probe i) false))
encode_lower-parse_lower (data_packet tunnel_id stream_id sequence option_probe true) rest
      (is_tunnel_id, is_sequence, is_option_probe) long =
    parse_lower-fields 7 _ data_end_type 12 refl refl refl (omega arith) (omega (arith, long))
    ∙ (λ i. ok (
        data_packet (word4 tunnel_id is_tunnel_id i) stream_id (word4 sequence is_sequence i)
          (word2 option_probe is_option_probe i) true))
encode_lower-parse_lower (ack tunnel_id stream_id ack_base receive_bitmap receive_credit reserved)
      rest (is_tunnel_id, is_ack_base, is_receive_bitmap) long =
    parse_lower-fields 6 _ ack_type 16 refl refl refl (omega arith) (omega (arith, long)) ∙ (λ i.
      ok (
        ack (word4 tunnel_id is_tunnel_id i) stream_id (word4 ack_base is_ack_base i)
          (word4 receive_bitmap is_receive_bitmap i) receive_credit reserved))
encode_lower-parse_lower (datagram tunnel_id stream_id probe0 probe1 probe2 probe3 probe4 probe5)
      rest is_tunnel_id long =
    parse_lower-fields 13 _ datagram_type 12 refl refl refl (omega arith) (omega (arith, long))
    ∙ (λ i. ok (
        datagram (word4 tunnel_id is_tunnel_id i) stream_id probe0 probe1 probe2 probe3 probe4
          probe5))
encode_lower-parse_lower (stream_close tunnel_id stream_id final_sequence false) rest
      (is_tunnel_id, is_final_sequence) long =
    parse_lower-fields 8 _ stream_close_type 10 refl refl refl (omega arith) (omega (arith, long))
    ∙ (λ i. ok (
        stream_close (word4 tunnel_id is_tunnel_id i) stream_id
          (word4 final_sequence is_final_sequence i) false))
encode_lower-parse_lower (stream_close tunnel_id stream_id final_sequence true) rest
      (is_tunnel_id, is_final_sequence) long =
    parse_lower-fields 9 _ stream_close_ack_type 10 refl refl refl (omega arith)
      (omega (arith, long))
    ∙ (λ i. ok (
        stream_close (word4 tunnel_id is_tunnel_id i) stream_id
          (word4 final_sequence is_final_sequence i) true))
encode_lower-parse_lower (tunnel_close tunnel_id false) rest is_tunnel_id long =
    parse_lower-fields 10 _ tunnel_close_type 5 refl refl refl (omega arith) (omega (arith, long))
    ∙ (λ i. ok (tunnel_close (word4 tunnel_id is_tunnel_id i) false))
encode_lower-parse_lower (tunnel_close tunnel_id true) rest is_tunnel_id long =
    parse_lower-fields 11 _ tunnel_close_ack_type 5 refl refl refl (omega arith)
      (omega (arith, long))
    ∙ (λ i. ok (tunnel_close (word4 tunnel_id is_tunnel_id i) true))
encode_lower-parse_lower (reset tunnel_id reset_id reason) rest (is_tunnel_id, is_reset_id) long =
    parse_lower-fields 12 _ reset_type 10 refl refl refl (omega arith) (omega (arith, long))
    ∙ (λ i. ok (reset (word4 tunnel_id is_tunnel_id i) (word4 reset_id is_reset_id i) reason))
encode_lower-parse_lower (stream_reset tunnel_id stream_id reason reserved false) rest is_tunnel_id
      long =
    parse_lower-fields 14 _ stream_reset_type 8 refl refl refl (omega arith) (omega (arith, long))
    ∙ (λ i. ok (stream_reset (word4 tunnel_id is_tunnel_id i) stream_id reason reserved false))
encode_lower-parse_lower (stream_reset tunnel_id stream_id reason reserved true) rest is_tunnel_id
      long =
    parse_lower-fields 15 _ stream_reset_ack_type 8 refl refl refl (omega arith)
      (omega (arith, long))
    ∙ (λ i. ok (stream_reset (word4 tunnel_id is_tunnel_id i) stream_id reason reserved true))
