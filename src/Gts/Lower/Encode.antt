-- ===== src/Gts/Lower/Encode.antt =====
-- wire/gts_handwritten.rs: `HandwrittenGtsLower::encode_lower`.
use smolgnet.Base.{ℕ, ◌+◌, not, ltb, leb, ◌==◌, List, [], ◌∷◌, length}
use smolgnet.Base.Results.{Result, ok, guard, ◌>>=◌, ◌>>◌, invalid_length}
use smolgnet.Base.Bytes.{to_be_bytes, write_at, zeros}
use smolgnet.Gts.{type_code}
use smolgnet.Gts.Lower.{
  GtsLowerPacket, packet_type, lower_prefix_len, connect, connect_ack, stream_open, stream_ack,
  data_packet, ack, datagram, stream_close, tunnel_close, reset, stream_reset,
}

-- What has been written, and the position behind it.
unfoldable pub put_u32 : List ℕ × ℕ → ℕ → Result (List ℕ × ℕ)
put_u32 out v = do
  guard (not (ltb (length out.0) (out.1 + 4))) invalid_length
  ok (write_at out.0 out.1 (to_be_bytes 4 v), out.1 + 4)

unfoldable pub put_u16 : List ℕ × ℕ → ℕ → Result (List ℕ × ℕ)
put_u16 out v = do
  guard (not (ltb (length out.0) (out.1 + 2))) invalid_length
  ok (write_at out.0 out.1 (to_be_bytes 2 v), out.1 + 2)

unfoldable pub put_u8 : List ℕ × ℕ → ℕ → Result (List ℕ × ℕ)
put_u8 out v = do
  guard (not (leb (length out.0) out.1)) invalid_length
  ok (write_at out.0 out.1 (v ∷ []), out.1 + 1)

-- The `match lower` of the encoder.
unfoldable pub put_fields : List ℕ × ℕ → GtsLowerPacket → Result (List ℕ × ℕ)
unfolding put_u32 put_u16 put_u8
put_fields out
      (connect initiator_receive_tunnel initiator_reset_id profile initial_receive_credit) =
    do
      out1 ← put_u32 out initiator_receive_tunnel
      out2 ← put_u32 out1 initiator_reset_id
      out3 ← put_u16 out2 profile
      put_u8 out3 initial_receive_credit
put_fields out
      (connect_ack initiator_receive_tunnel responder_receive_tunnel responder_reset_id status
        initial_receive_credit reserved) =
    do
      out1 ← put_u32 out initiator_receive_tunnel
      out2 ← put_u32 out1 responder_receive_tunnel
      out3 ← put_u32 out2 responder_reset_id
      out4 ← put_u8 out3 status
      out5 ← put_u8 out4 initial_receive_credit
      put_u8 out5 reserved
put_fields out (stream_open tunnel_id stream_id profile initial_receive_credit reserved) = do
  out1 ← put_u32 out tunnel_id
  out2 ← put_u8 out1 stream_id
  out3 ← put_u16 out2 profile
  out4 ← put_u8 out3 initial_receive_credit
  put_u8 out4 reserved
put_fields out (stream_ack tunnel_id stream_id status initial_receive_credit reserved) = do
  out1 ← put_u32 out tunnel_id
  out2 ← put_u8 out1 stream_id
  out3 ← put_u8 out2 status
  out4 ← put_u8 out3 initial_receive_credit
  put_u8 out4 reserved
put_fields out (data_packet tunnel_id stream_id sequence option_probe is_end) = do
  out1 ← put_u32 out tunnel_id
  out2 ← put_u8 out1 stream_id
  out3 ← put_u32 out2 sequence
  put_u16 out3 option_probe
put_fields out (ack tunnel_id stream_id ack_base receive_bitmap receive_credit reserved) = do
  out1 ← put_u32 out tunnel_id
  out2 ← put_u8 out1 stream_id
  out3 ← put_u32 out2 ack_base
  out4 ← put_u32 out3 receive_bitmap
  out5 ← put_u8 out4 receive_credit
  put_u8 out5 reserved
put_fields out (datagram tunnel_id stream_id probe0 probe1 probe2 probe3 probe4 probe5) = do
  out1 ← put_u32 out tunnel_id
  out2 ← put_u8 out1 stream_id
  out3 ← put_u8 out2 probe0
  out4 ← put_u8 out3 probe1
  out5 ← put_u8 out4 probe2
  out6 ← put_u8 out5 probe3
  out7 ← put_u8 out6 probe4
  put_u8 out7 probe5
put_fields out (stream_close tunnel_id stream_id final_sequence is_ack) = do
  out1 ← put_u32 out tunnel_id
  out2 ← put_u8 out1 stream_id
  put_u32 out2 final_sequence
put_fields out (tunnel_close tunnel_id is_ack) = do put_u32 out tunnel_id
put_fields out (reset tunnel_id reset_id reason) = do
  out1 ← put_u32 out tunnel_id
  out2 ← put_u32 out1 reset_id
  put_u8 out2 reason
put_fields out (stream_reset tunnel_id stream_id reason reserved is_ack) = do
  out1 ← put_u32 out tunnel_id
  out2 ← put_u8 out1 stream_id
  out3 ← put_u8 out2 reason
  put_u8 out3 reserved

unfoldable pub encode_lower : GtsLowerPacket → Result (List ℕ)
unfolding packet_type lower_prefix_len put_fields type_code
encode_lower lower = do
  len ← lower_prefix_len (packet_type lower)
  out ← put_fields (write_at (zeros len) 0 (type_code (packet_type lower) ∷ []), 1) lower
  guard (out.1 == length out.0) invalid_length
  ok out.0
