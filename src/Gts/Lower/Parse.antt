-- ===== src/Gts/Lower/Parse.antt =====
-- wire/gts_handwritten.rs: `HandwrittenGtsLower::parse_lower`.
use smolgnet.Base.{ℕ, ◌+◌, bit_and, true, false, not, ltb, leb, ◌!=◌, List, length, get_or}
use smolgnet.Base.Words.{shr}
use smolgnet.Base.Results.{Result, ok, err, guard, ◌>>=◌, ◌>>◌, invalid_length, unsupported}
use smolgnet.Base.Bytes.{from_be_bytes, slice}
use smolgnet.Gts.{GtsType, type_from_wire}
use smolgnet.Gts.{
  reserved_type, connect_type, connect_ack_type, stream_open_type, stream_ack_type, data_type,
  ack_type, data_end_type,
}
use smolgnet.Gts.{
  stream_close_type, stream_close_ack_type, tunnel_close_type, tunnel_close_ack_type, reset_type,
  datagram_type, stream_reset_type, stream_reset_ack_type,
}
use smolgnet.Gts.Lower.{
  GtsLowerPacket, lower_prefix_len, connect, connect_ack, stream_open, stream_ack, data_packet, ack,
  datagram, stream_close, tunnel_close, reset, stream_reset,
}

-- A value read, and the position behind it.
unfoldable pub read_u32 : List ℕ → ℕ → ℕ → Result (ℕ × ℕ)
read_u32 buf pos limit = do
  guard (not (ltb limit (pos + 4))) invalid_length
  ok (from_be_bytes (slice buf pos 4), pos + 4)

unfoldable pub read_u16 : List ℕ → ℕ → ℕ → Result (ℕ × ℕ)
read_u16 buf pos limit = do
  guard (not (ltb limit (pos + 2))) invalid_length
  ok (from_be_bytes (slice buf pos 2), pos + 2)

unfoldable pub read_u8 : List ℕ → ℕ → ℕ → Result (ℕ × ℕ)
read_u8 buf pos limit = do
  guard (not (leb limit pos)) invalid_length
  ok (get_or buf pos 0, pos + 1)

-- The `match ty` of the parser, from the first octet behind the type.
unfoldable pub parse_fields : List ℕ → ℕ → GtsType → Result GtsLowerPacket
unfolding read_u32 read_u16 read_u8
parse_fields buf limit connect_type = do
  initiator_receive_tunnel ← read_u32 buf 1 limit
  initiator_reset_id ← read_u32 buf initiator_receive_tunnel.1 limit
  profile ← read_u16 buf initiator_reset_id.1 limit
  initial_receive_credit ← read_u8 buf profile.1 limit
  ok (connect initiator_receive_tunnel.0 initiator_reset_id.0 profile.0 initial_receive_credit.0)
parse_fields buf limit connect_ack_type = do
  initiator_receive_tunnel ← read_u32 buf 1 limit
  responder_receive_tunnel ← read_u32 buf initiator_receive_tunnel.1 limit
  responder_reset_id ← read_u32 buf responder_receive_tunnel.1 limit
  status ← read_u8 buf responder_reset_id.1 limit
  initial_receive_credit ← read_u8 buf status.1 limit
  reserved ← read_u8 buf initial_receive_credit.1 limit
  ok (
      connect_ack initiator_receive_tunnel.0 responder_receive_tunnel.0 responder_reset_id.0
        status.0 initial_receive_credit.0 reserved.0)
parse_fields buf limit stream_open_type = do
  tunnel_id ← read_u32 buf 1 limit
  stream_id ← read_u8 buf tunnel_id.1 limit
  profile ← read_u16 buf stream_id.1 limit
  initial_receive_credit ← read_u8 buf profile.1 limit
  reserved ← read_u8 buf initial_receive_credit.1 limit
  ok (stream_open tunnel_id.0 stream_id.0 profile.0 initial_receive_credit.0 reserved.0)
parse_fields buf limit stream_ack_type = do
  tunnel_id ← read_u32 buf 1 limit
  stream_id ← read_u8 buf tunnel_id.1 limit
  status ← read_u8 buf stream_id.1 limit
  initial_receive_credit ← read_u8 buf status.1 limit
  reserved ← read_u8 buf initial_receive_credit.1 limit
  ok (stream_ack tunnel_id.0 stream_id.0 status.0 initial_receive_credit.0 reserved.0)
parse_fields buf limit data_type = do
  tunnel_id ← read_u32 buf 1 limit
  stream_id ← read_u8 buf tunnel_id.1 limit
  sequence ← read_u32 buf stream_id.1 limit
  option_probe ← read_u16 buf sequence.1 limit
  ok (data_packet tunnel_id.0 stream_id.0 sequence.0 option_probe.0 false)
parse_fields buf limit data_end_type = do
  tunnel_id ← read_u32 buf 1 limit
  stream_id ← read_u8 buf tunnel_id.1 limit
  sequence ← read_u32 buf stream_id.1 limit
  option_probe ← read_u16 buf sequence.1 limit
  ok (data_packet tunnel_id.0 stream_id.0 sequence.0 option_probe.0 true)
parse_fields buf limit ack_type = do
  tunnel_id ← read_u32 buf 1 limit
  stream_id ← read_u8 buf tunnel_id.1 limit
  ack_base ← read_u32 buf stream_id.1 limit
  receive_bitmap ← read_u32 buf ack_base.1 limit
  receive_credit ← read_u8 buf receive_bitmap.1 limit
  reserved ← read_u8 buf receive_credit.1 limit
  ok (ack tunnel_id.0 stream_id.0 ack_base.0 receive_bitmap.0 receive_credit.0 reserved.0)
parse_fields buf limit datagram_type = do
  tunnel_id ← read_u32 buf 1 limit
  stream_id ← read_u8 buf tunnel_id.1 limit
  probe0 ← read_u8 buf stream_id.1 limit
  probe1 ← read_u8 buf probe0.1 limit
  probe2 ← read_u8 buf probe1.1 limit
  probe3 ← read_u8 buf probe2.1 limit
  probe4 ← read_u8 buf probe3.1 limit
  probe5 ← read_u8 buf probe4.1 limit
  ok (datagram tunnel_id.0 stream_id.0 probe0.0 probe1.0 probe2.0 probe3.0 probe4.0 probe5.0)
parse_fields buf limit stream_close_type = do
  tunnel_id ← read_u32 buf 1 limit
  stream_id ← read_u8 buf tunnel_id.1 limit
  final_sequence ← read_u32 buf stream_id.1 limit
  ok (stream_close tunnel_id.0 stream_id.0 final_sequence.0 false)
parse_fields buf limit stream_close_ack_type = do
  tunnel_id ← read_u32 buf 1 limit
  stream_id ← read_u8 buf tunnel_id.1 limit
  final_sequence ← read_u32 buf stream_id.1 limit
  ok (stream_close tunnel_id.0 stream_id.0 final_sequence.0 true)
parse_fields buf limit tunnel_close_type = do
  tunnel_id ← read_u32 buf 1 limit
  ok (tunnel_close tunnel_id.0 false)
parse_fields buf limit tunnel_close_ack_type = do
  tunnel_id ← read_u32 buf 1 limit
  ok (tunnel_close tunnel_id.0 true)
parse_fields buf limit reset_type = do
  tunnel_id ← read_u32 buf 1 limit
  reset_id ← read_u32 buf tunnel_id.1 limit
  reason ← read_u8 buf reset_id.1 limit
  ok (reset tunnel_id.0 reset_id.0 reason.0)
parse_fields buf limit stream_reset_type = do
  tunnel_id ← read_u32 buf 1 limit
  stream_id ← read_u8 buf tunnel_id.1 limit
  reason ← read_u8 buf stream_id.1 limit
  reserved ← read_u8 buf reason.1 limit
  ok (stream_reset tunnel_id.0 stream_id.0 reason.0 reserved.0 false)
parse_fields buf limit stream_reset_ack_type = do
  tunnel_id ← read_u32 buf 1 limit
  stream_id ← read_u8 buf tunnel_id.1 limit
  reason ← read_u8 buf stream_id.1 limit
  reserved ← read_u8 buf reason.1 limit
  ok (stream_reset tunnel_id.0 stream_id.0 reason.0 reserved.0 true)
parse_fields buf limit reserved_type = err unsupported

unfoldable pub parse_lower : List ℕ → Result GtsLowerPacket
unfolding lower_prefix_len parse_fields type_from_wire
parse_lower buf = do
  guard (not (ltb (length buf) 5)) invalid_length
  guard (not (shr (get_or buf 0 0) 4 != 0)) unsupported
  ty ← type_from_wire (bit_and (get_or buf 0 0) 0x0f)
  prefix_len ← lower_prefix_len ty
  guard (not (ltb (length buf) (prefix_len + 4))) invalid_length
  parse_fields buf prefix_len ty
