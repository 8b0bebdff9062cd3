-- ===== src/Dlp/Endpoint/Reachable.antt =====
-- dlp.rs: the states that an endpoint reaches by any calls of its methods, in any order.
use smolgnet.Base.{ℕ, ◌≡◌, List, Bool}
use smolgnet.Base.Results.{ok}
use smolgnet.Base.Words.{IsU32}
use smolgnet.Wire.Gdp.Packet.{GdpPacket}
use smolgnet.Dlp.{LinkTraffic, DlpConfig, Flit, GnetFrame}
use smolgnet.Dlp.Endpoint.{DlpEndpoint, new, note_data_credit_granted, grant_data_tx_credit}
use smolgnet.Dlp.Endpoint.{grant_control_tx_credit, set_local_prefix, set_link_up}
use smolgnet.Dlp.Endpoint.{queue_packet_on, queue_control_packet, queue_data_packet}
use smolgnet.Dlp.Endpoint.Transmit.{poll_tx_frame, poll_tx_burst, poll_tx}
use smolgnet.Dlp.Endpoint.Transmit.Sound.{
  poll_tx_frame-IsSound, poll_tx_burst-IsSound, poll_tx-IsSound,
}
use smolgnet.Dlp.Endpoint.Receive.{receive, receive_frame, receive_burst, reset_vc}
use smolgnet.Dlp.Endpoint.Receive.Sound.{receive-IsSound}
use smolgnet.Dlp.Endpoint.Receive.Frames.{
  receive_frame-IsSound, receive_burst-IsSound, reset_vc-IsSound,
}
use smolgnet.Dlp.Endpoint.Invariant.{IsSound}
use smolgnet.Dlp.Endpoint.Operations.{new-IsSound, note_data_credit_granted-IsSound}
use smolgnet.Dlp.Endpoint.Operations.{grant_data_tx_credit-IsSound, grant_control_tx_credit-IsSound}
use smolgnet.Dlp.Endpoint.Operations.{set_local_prefix-IsSound, set_link_up-IsSound}
use smolgnet.Dlp.Endpoint.Operations.{
  queue_packet_on-IsSound, queue_control_packet-IsSound, queue_data_packet-IsSound,
}

-- A call, with any arguments and whatever it returns.
pub data EndpointStep : DlpEndpoint → DlpEndpoint → Type 0 where
  granted : {e : DlpEndpoint} (count : ℕ) → EndpointStep e (note_data_credit_granted e count).0
  data_credit : {e : DlpEndpoint} (count : ℕ) → EndpointStep e (grant_data_tx_credit e count)
  control_credit : {e : DlpEndpoint} (count : ℕ) → EndpointStep e (grant_control_tx_credit e count)
  prefix_set : {e : DlpEndpoint} (prefix : ℕ) → EndpointStep e (set_local_prefix e prefix)
  link_set : {e : DlpEndpoint} (up : Bool) → EndpointStep e (set_link_up e up)
  queued_on :
      {e : DlpEndpoint} (traffic : LinkTraffic) (vcid : ℕ) (packet : GdpPacket)
      → EndpointStep e (queue_packet_on e traffic vcid packet).0
  queued_control :
      {e : DlpEndpoint} (packet : GdpPacket) → EndpointStep e (queue_control_packet e packet).0
  queued_data :
      {e : DlpEndpoint} (packet : GdpPacket) → EndpointStep e (queue_data_packet e packet).0
  polled_frame : {e : DlpEndpoint} → EndpointStep e (poll_tx_frame e).0
  polled_burst : {e : DlpEndpoint} (room : ℕ) → EndpointStep e (poll_tx_burst e room).0
  polled_flit : {e : DlpEndpoint} → EndpointStep e (poll_tx e).0
  received : {e : DlpEndpoint} (flit : Flit) → EndpointStep e (receive e flit).0
  received_burst : {e : DlpEndpoint} (flits : List Flit) → EndpointStep e (receive_burst e flits).0
  received_frame : {e : DlpEndpoint} (frame : GnetFrame) → EndpointStep e (receive_frame e frame).0
  vc_reset : {e : DlpEndpoint} (vcid : ℕ) → EndpointStep e (reset_vc e vcid).0

pub data IsReachable (config : DlpConfig) : DlpEndpoint → Type 0 where
  created : {e : DlpEndpoint} → new config ≡ ok e → IsReachable config e
  stepped : {e e' : DlpEndpoint} → IsReachable config e → EndpointStep e e' → IsReachable config e'

step-IsSound : {e e' : DlpEndpoint} → EndpointStep e e' → IsSound e → IsSound e'
step-IsSound (granted count) v = note_data_credit_granted-IsSound _ count v
step-IsSound (data_credit count) v = grant_data_tx_credit-IsSound _ count v
step-IsSound (control_credit count) v = grant_control_tx_credit-IsSound _ count v
step-IsSound (prefix_set prefix) v = set_local_prefix-IsSound _ prefix v
step-IsSound (link_set up) v = set_link_up-IsSound _ up v
step-IsSound (queued_on traffic vcid packet) v = queue_packet_on-IsSound _ traffic vcid packet v
step-IsSound (queued_control packet) v = queue_control_packet-IsSound _ packet v
step-IsSound (queued_data packet) v = queue_data_packet-IsSound _ packet v
step-IsSound polled_frame v = poll_tx_frame-IsSound _ v
step-IsSound (polled_burst room) v = poll_tx_burst-IsSound _ room v
step-IsSound polled_flit v = poll_tx-IsSound _ v
step-IsSound (received flit) v = receive-IsSound _ flit v
step-IsSound (received_burst flits) v = receive_burst-IsSound flits _ v
step-IsSound (received_frame frame) v = receive_frame-IsSound _ frame v
step-IsSound (vc_reset vcid) v = reset_vc-IsSound _ vcid v

-- Whatever calls an endpoint has had since it was made for a buffer of a 32-bit size, it is sound:
-- the data flits in use are those of the open data segments, with the advertised credit still
-- outstanding they fit the buffer, each slot holds a segment of its channel's class, each queued
-- frame stands on a channel of its class, and the next data channel is one of the link's.
pub reachable-IsSound :
    (config : DlpConfig) (e : DlpEndpoint)
    → IsU32 config.rx_buffer_flits
    → IsReachable config e
    → IsSound e
reachable-IsSound config e word (created h) = new-IsSound config e word h
reachable-IsSound config e word (stepped {e = before} r step) =
    step-IsSound step (reachable-IsSound config before word r)
