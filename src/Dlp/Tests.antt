-- ===== src/Dlp/Tests.antt =====
-- dlp.rs and dlp_v01.rs: the theorems at concrete links and packets.
use mathlib.Core.Bool.{xor}
use smolgnet.Dlp.Endpoint
use smolgnet.Dlp.Endpoint.Transmit
use smolgnet.Dlp.Endpoint.Transmit.Stream.{IsSent, emit_queue_flits-IsSent}
use smolgnet.Dlp.Endpoint.Transmit.Burst.{IsBurst, poll_tx_burst-IsBurst}
use smolgnet.Wire.Gdp.{
  class_bytes, class_code, header_len, addresses_len, type_to_wire, form, form_bit, crc8,
}
use smolgnet.Wire.Gdp.Packet
use smolgnet.Wire.Gdp.Header
use smolgnet.Wire.Crc.Crc8
use smolgnet.Base.Bytes.{to_be_bytes, from_be_bytes, read_be}
use smolgnet.Base.{◌≡◌, refl, ◌++◌, replicate, none, arith, ◌≤◌, ◌+◌, true, false, [], ◌∷◌}
use smolgnet.Base.Results.{ok, FailsWith}
use smolgnet.Wire.Gdp.{gts, tiny3, local_addresses, default_config}
use smolgnet.Wire.Gdp.Packet.{GdpPacket}
use smolgnet.Dlp.{DlpConfig, two, Flit, vc_count, flit_len, remaining_flits}
use smolgnet.Dlp.Link.{DlpLink, new, down, begin_recovery, complete_recovery, receive}
use smolgnet.Dlp.Link.{
  grant_peer_data_credit, queue_data_packet, poll_tx_burst, require_up, with_endpoint,
}
use smolgnet.Dlp.Endpoint.{DlpEndpoint}
use smolgnet.Dlp.Endpoint.Reachable.{created, stepped, granted, received, reachable-IsSound}
use smolgnet.Dlp.Endpoint.Invariant.{IsSound, occupied}
use smolgnet.Dlp.Endpoint.Receive
use smolgnet.Dlp.Endpoint.Receive.{lane_of}
use smolgnet.Dlp.Endpoint.Receive.Credit.{receive-IsOtherError, IsCharge, receive-IsCharge}
use smolgnet.Dlp.Link.CreditSafety.{
  Connection, IsConnected, started, advanced, delivery-IsOtherError,
}
use smolgnet.Dlp.Link.CreditSafety.{data_granted, data_queued, burst_sent, receiver_recovering}
use smolgnet.Dlp.Link.CreditSafety.{sender_recovering, receiver_recovered, sender_recovered}
use smolgnet.Dlp.Link.Cost.{sent}
use smolgnet.Wire.Gdp.Header.Errors.{IsOtherError}

-- Two virtual channels, and room for four data flits.
abbrev small_config : DlpConfig
small_config = record {
  gdp = default_config;
  local_prefix = 0x1234_0000_0000_0000;
  vc_mode = two;
  rx_buffer_flits = 4;
  control_window_flits = 32;
}

-- A packet of eleven bytes, which are three flits.
abbrev small_packet : GdpPacket
small_packet = record {
  header = record {
    version = 0;
    packet_type = gts;
    size_class = tiny3;
    hop_limit = 3;
    addresses = local_addresses 7 9 0x1234_0000_0000_0000;
  };
  payload = 1 ∷ 2 ∷ 3 ∷ [];
}

abbrev small_link : DlpLink
small_link = record {
  endpoint = record {
    cfg = default_config;
    local_prefix = 0x1234_0000_0000_0000;
    vc_mode = two;
    rx_buffer_flits = 4;
    control_window_flits = 32;
    data_tx_credit = 0;
    control_tx_credit = 0;
    data_credit_outstanding = 0;
    data_rx_in_use = 0;
    control_tx_queue = [];
    data_tx_queue = [];
    rx = replicate 4 none;
    desynchronized = replicate 4 false;
    next_data_vc = 1;
    link_up = false;
  };
  state = down;
  generation = 0;
}

new-small : new small_config ≡ ok small_link
unfolding new Endpoint.new Endpoint.set_link_up
new-small = refl

abbrev recovered_link : DlpLink
recovered_link = (complete_recovery (begin_recovery small_link).0).0

abbrev granted_links : DlpLink × DlpLink
granted_links = (grant_peer_data_credit (recovered_link, recovered_link) 3).0

abbrev queued_link : DlpLink
queued_link = (queue_data_packet granted_links.1 small_packet).0

-- The sender has sent two of the three flits.
abbrev sending : Connection
sending = record {
  receiver = granted_links.0;
  sender = (poll_tx_burst queued_link 2).0;
  wire = [] ++ sent (poll_tx_burst queued_link 2).1;
}

sending-IsConnected : IsConnected small_config small_config sending
sending-IsConnected =
    advanced
      (advanced
        (advanced
          (advanced
            (advanced
              (advanced (advanced (started new-small new-small) receiver_recovering)
                receiver_recovered)
              sender_recovering)
            sender_recovered)
          (data_granted 3))
        (data_queued small_packet))
      (burst_sent 2)

abbrev first_flit : Flit
first_flit = record { vcid = 1; word = 140527363 }

abbrev second_flit : Flit
second_flit = record { vcid = 1; word = 458761 }

sending-wire : sending.wire ≡ first_flit ∷ second_flit ∷ []
unfolding begin_recovery complete_recovery grant_peer_data_credit queue_data_packet poll_tx_burst
    sent require_up with_endpoint vc_count flit_len remaining_flits
    Endpoint.note_data_credit_granted Endpoint.set_link_up Endpoint.queue_data_packet
    Endpoint.queue_packet_on Endpoint.check_lane Endpoint.choose_data_vc
    Endpoint.grant_data_tx_credit Endpoint.available_rx_flits Endpoint.grantable_data_credit
    Transmit.poll_tx_burst Transmit.emit_queue_flits Transmit.flit_word Transmit.next_flit
    Packet.encode Packet.encode_into Packet.new class_bytes class_code header_len addresses_len
    type_to_wire form form_bit crc8 Header.encode_header_into Crc8.new Crc8.update_bit
    Crc8.update_bits Crc8.finalize to_be_bytes from_be_bytes read_be default_config xor
sending-wire = refl

delivery_example : FailsWith IsOtherError (receive sending.receiver first_flit).1
delivery_example =
    delivery-IsOtherError small_config small_config sending first_flit (second_flit ∷ [])
      (omega arith) (omega arith) sending-IsConnected sending-wire

abbrev small_endpoint : DlpEndpoint
small_endpoint = record small_link.endpoint { link_up = true }

new-small_endpoint : Endpoint.new small_config ≡ ok small_endpoint
unfolding Endpoint.new
new-small_endpoint = refl

-- A credit of one, and a flit for it that announces a class and is not the whole of its packet.
reachable_example :
    IsSound (Receive.receive (Endpoint.note_data_credit_granted small_endpoint 1).0 first_flit).0
reachable_example =
    reachable-IsSound small_config
      (Receive.receive (Endpoint.note_data_credit_granted small_endpoint 1).0 first_flit).0
      (omega arith)
      (stepped (stepped (created new-small_endpoint) (granted 1)) (received first_flit))

queued_link-up : queued_link.endpoint.link_up ≡ true
unfolding begin_recovery complete_recovery grant_peer_data_credit queue_data_packet require_up
    with_endpoint vc_count flit_len Endpoint.note_data_credit_granted Endpoint.set_link_up
    Endpoint.queue_data_packet Endpoint.queue_packet_on Endpoint.check_lane Endpoint.choose_data_vc
    Endpoint.grant_data_tx_credit Endpoint.available_rx_flits Endpoint.grantable_data_credit
    Packet.encode Packet.encode_into Packet.new class_bytes class_code header_len addresses_len
    type_to_wire form form_bit crc8 Header.encode_header_into Crc8.new Crc8.update_bit
    Crc8.update_bits Crc8.finalize to_be_bytes from_be_bytes read_be
queued_link-up = refl

abbrev paid_endpoint : DlpEndpoint
paid_endpoint = (Endpoint.note_data_credit_granted small_endpoint 1).0

paid_endpoint-IsSound : IsSound paid_endpoint
paid_endpoint-IsSound =
    reachable-IsSound small_config paid_endpoint (omega arith)
      (stepped (created new-small_endpoint) (granted 1))

paid_endpoint-credit :
    0 + occupied (lane_of first_flit.vcid) 1 ≤ paid_endpoint.data_credit_outstanding
unfolding occupied lane_of Endpoint.note_data_credit_granted Endpoint.grantable_data_credit
    Endpoint.available_rx_flits
paid_endpoint-credit = omega arith

receive_paid_example : FailsWith IsOtherError (Receive.receive paid_endpoint first_flit).1
unfolding occupied lane_of
receive_paid_example =
    receive-IsOtherError paid_endpoint first_flit paid_endpoint-IsSound paid_endpoint-credit

receive-IsCharge_example :
    IsCharge paid_endpoint.data_credit_outstanding
      (lane_of first_flit.vcid)
      (Receive.receive paid_endpoint first_flit)
receive-IsCharge_example = receive-IsCharge paid_endpoint first_flit

-- Two flits of a queue of one frame, with more credit than room.
emit_queue_flits_example :
    IsSent 2 queued_link.endpoint.data_tx_queue 3
      (Transmit.emit_queue_flits 2 queued_link.endpoint.data_tx_queue 3)
emit_queue_flits_example = emit_queue_flits-IsSent 2 queued_link.endpoint.data_tx_queue 3

poll_tx_burst_example :
    IsBurst 2 queued_link.endpoint (Transmit.poll_tx_burst queued_link.endpoint 2)
poll_tx_burst_example = poll_tx_burst-IsBurst queued_link.endpoint 1 queued_link-up
