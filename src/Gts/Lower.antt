-- ===== src/Gts/Lower.antt =====
-- wire/gts.rs: the fields of a packet that no profile is needed for.
pub mod Parse
pub mod Encode
pub mod RoundTrip
use smolgnet.Base.{
  ℕ, ◌+◌, ◌/◌, bit_and, Bool, true, false, not, ltb, leb, ◌!=◌, ◌==◌, List, [], ◌∷◌, ◌++◌, length,
  get_or, take, drop, if◌then◌else◌,
}
use smolgnet.Base.Words.{shr}
use smolgnet.Base.Results.{Result, ok, err, guard, ◌>>=◌, ◌>>◌, invalid_length, unsupported}
use smolgnet.Base.Bytes.{to_be_bytes, from_be_bytes, slice, write_at, zeros}
use smolgnet.Gts
use smolgnet.Gts.{GtsType, type_code, type_from_wire}
use smolgnet.Gts.{
  reserved_type, connect_type, connect_ack_type, stream_open_type, stream_ack_type, data_type,
  ack_type, data_end_type,
}
use smolgnet.Gts.{
  stream_close_type, stream_close_ack_type, tunnel_close_type, tunnel_close_ack_type, reset_type,
  datagram_type, stream_reset_type, stream_reset_ack_type,
}

-- The six octets that a datagram probes are six fields. A flag that tells two types apart comes last.
pub data GtsLowerPacket : Type 0 where
  connect :
      (initiator_receive_tunnel : ℕ) (initiator_reset_id : ℕ) (profile : ℕ)
      (initial_receive_credit : ℕ)
      → GtsLowerPacket
  connect_ack :
      (initiator_receive_tunnel : ℕ) (responder_receive_tunnel : ℕ) (responder_reset_id : ℕ)
      (status : ℕ) (initial_receive_credit : ℕ) (reserved : ℕ)
      → GtsLowerPacket
  stream_open :
      (tunnel_id : ℕ) (stream_id : ℕ) (profile : ℕ) (initial_receive_credit : ℕ) (reserved : ℕ)
      → GtsLowerPacket
  stream_ack :
      (tunnel_id : ℕ) (stream_id : ℕ) (status : ℕ) (initial_receive_credit : ℕ) (reserved : ℕ)
      → GtsLowerPacket
  data_packet :
      (tunnel_id : ℕ) (stream_id : ℕ) (sequence : ℕ) (option_probe : ℕ) (is_end : Bool)
      → GtsLowerPacket
  ack :
      (tunnel_id : ℕ) (stream_id : ℕ) (ack_base : ℕ) (receive_bitmap : ℕ) (receive_credit : ℕ)
      (reserved : ℕ)
      → GtsLowerPacket
  datagram :
      (tunnel_id : ℕ) (stream_id : ℕ) (probe0 : ℕ) (probe1 : ℕ) (probe2 : ℕ) (probe3 : ℕ)
      (probe4 : ℕ) (probe5 : ℕ)
      → GtsLowerPacket
  stream_close :
      (tunnel_id : ℕ) (stream_id : ℕ) (final_sequence : ℕ) (is_ack : Bool) → GtsLowerPacket
  tunnel_close : (tunnel_id : ℕ) (is_ack : Bool) → GtsLowerPacket
  reset : (tunnel_id : ℕ) (reset_id : ℕ) (reason : ℕ) → GtsLowerPacket
  stream_reset :
      (tunnel_id : ℕ) (stream_id : ℕ) (reason : ℕ) (reserved : ℕ) (is_ack : Bool) → GtsLowerPacket

unfoldable pub packet_type : GtsLowerPacket → GtsType
packet_type (connect initiator_receive_tunnel initiator_reset_id profile initial_receive_credit) =
    connect_type
packet_type
      (connect_ack initiator_receive_tunnel responder_receive_tunnel responder_reset_id status
        initial_receive_credit reserved) =
    connect_ack_type
packet_type (stream_open tunnel_id stream_id profile initial_receive_credit reserved) =
    stream_open_type
packet_type (stream_ack tunnel_id stream_id status initial_receive_credit reserved) =
    stream_ack_type
packet_type (data_packet tunnel_id stream_id sequence option_probe false) = data_type
packet_type (data_packet tunnel_id stream_id sequence option_probe true) = data_end_type
packet_type (ack tunnel_id stream_id ack_base receive_bitmap receive_credit reserved) = ack_type
packet_type (datagram tunnel_id stream_id probe0 probe1 probe2 probe3 probe4 probe5) = datagram_type
packet_type (stream_close tunnel_id stream_id final_sequence false) = stream_close_type
packet_type (stream_close tunnel_id stream_id final_sequence true) = stream_close_ack_type
packet_type (tunnel_close tunnel_id false) = tunnel_close_type
packet_type (tunnel_close tunnel_id true) = tunnel_close_ack_type
packet_type (reset tunnel_id reset_id reason) = reset_type
packet_type (stream_reset tunnel_id stream_id reason reserved false) = stream_reset_type
packet_type (stream_reset tunnel_id stream_id reason reserved true) = stream_reset_ack_type

unfoldable pub lower_prefix_len : GtsType → Result ℕ
lower_prefix_len connect_type = ok 12
lower_prefix_len connect_ack_type = ok 16
lower_prefix_len stream_open_type = ok 10
lower_prefix_len stream_ack_type = ok 9
lower_prefix_len data_type = ok 12
lower_prefix_len data_end_type = ok 12
lower_prefix_len ack_type = ok 16
lower_prefix_len datagram_type = ok 12
lower_prefix_len stream_close_type = ok 10
lower_prefix_len stream_close_ack_type = ok 10
lower_prefix_len tunnel_close_type = ok 5
lower_prefix_len tunnel_close_ack_type = ok 5
lower_prefix_len reset_type = ok 10
lower_prefix_len stream_reset_type = ok 8
lower_prefix_len stream_reset_ack_type = ok 8
lower_prefix_len reserved_type = err unsupported
