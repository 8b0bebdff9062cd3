-- ===== src/Dlp/Endpoint.antt =====
-- dlp.rs: `DlpEndpoint`. A method that mutates the endpoint returns it beside its result.
pub mod Transmit
pub mod Receive
pub mod Invariant
pub mod Operations
pub mod Reachable
use smolgnet.Base.{
  ℕ, ◌+◌, ◌-◌, min, Bool, true, false, not, ◌&&◌, ◌||◌, List, [], ◌∷◌, ◌++◌, Option, none, some,
}
use smolgnet.Base.{ltb, leb, ◌==◌, if◌then◌else◌, replicate, bit_and, length}
use smolgnet.Base.Results.{Result, ok, err, guard, ◌>>=◌, ◌>>◌, ◌then_ok◌}
use smolgnet.Base.Results.{invalid_field, buffer_full, link_down}
use smolgnet.Base.Words.{sat_add32}
use smolgnet.Wire.Gdp.{GdpWireConfig, prefix_bits}
use smolgnet.Wire.Gdp.Packet.{GdpPacket}
use smolgnet.Wire.Gdp.Packet
use smolgnet.Dlp.{VcMode, vc_count, LinkTraffic, control_traffic, data_traffic, DlpConfig, TxFrame}
use smolgnet.Dlp.{RxSegment, control_vc, is_control, remaining_flits, flit_len}

pub record DlpEndpoint : Type 0 where
  pub cfg : GdpWireConfig
  pub local_prefix : ℕ
  pub vc_mode : VcMode
  pub rx_buffer_flits : ℕ
  pub control_window_flits : ℕ
  pub data_tx_credit : ℕ
  pub control_tx_credit : ℕ
  pub data_credit_outstanding : ℕ
  pub data_rx_in_use : ℕ
  pub control_tx_queue : List TxFrame
  pub data_tx_queue : List TxFrame
  pub rx : List (Option RxSegment)
  pub desynchronized : List Bool
  pub next_data_vc : ℕ
  pub link_up : Bool

unfoldable pub new : DlpConfig → Result DlpEndpoint
new config = do
  guard (not (config.rx_buffer_flits == 0 || config.control_window_flits == 0)) invalid_field
  ok (record {
    cfg = config.gdp;
    local_prefix = bit_and config.local_prefix prefix_bits;
    vc_mode = config.vc_mode;
    rx_buffer_flits = config.rx_buffer_flits;
    control_window_flits = config.control_window_flits;
    data_tx_credit = 0;
    control_tx_credit = 0;
    data_credit_outstanding = 0;
    data_rx_in_use = 0;
    control_tx_queue = [];
    data_tx_queue = [];
    rx = replicate 4 none;
    desynchronized = replicate 4 false;
    next_data_vc = 1;
    link_up = true;
  })

-- `saturating_sub` is the subtraction of ℕ.
unfoldable pub available_rx_flits : DlpEndpoint → ℕ
available_rx_flits e = e.rx_buffer_flits - e.data_rx_in_use

unfoldable pub grantable_data_credit : DlpEndpoint → ℕ
unfolding available_rx_flits
grantable_data_credit e = available_rx_flits e - e.data_credit_outstanding

unfoldable pub note_data_credit_granted : DlpEndpoint → ℕ → DlpEndpoint × Result (Unit {0})
unfolding grantable_data_credit
note_data_credit_granted e count =
    if ltb (grantable_data_credit e) count
    then (e, err buffer_full)
    else (record e { data_credit_outstanding = sat_add32 e.data_credit_outstanding count }, ok tt)

unfoldable pub grant_data_tx_credit : DlpEndpoint → ℕ → DlpEndpoint
grant_data_tx_credit e count = record e { data_tx_credit = sat_add32 e.data_tx_credit count }

unfoldable pub grant_control_tx_credit : DlpEndpoint → ℕ → DlpEndpoint
grant_control_tx_credit e count = record e {
  control_tx_credit = sat_add32 e.control_tx_credit count;
}

unfoldable pub set_local_prefix : DlpEndpoint → ℕ → DlpEndpoint
set_local_prefix e prefix = record e { local_prefix = bit_and prefix prefix_bits }

unfoldable pub set_link_up : DlpEndpoint → Bool → DlpEndpoint
set_link_up e true = record e { link_up = true }
set_link_up e false = record e {
  control_tx_queue = [];
  data_tx_queue = [];
  rx = replicate 4 none;
  desynchronized = replicate 4 false;
  data_tx_credit = 0;
  control_tx_credit = 0;
  data_credit_outstanding = 0;
  data_rx_in_use = 0;
  link_up = false;
}

unfoldable pub queue_flits : List TxFrame → ℕ
queue_flits [] = 0
queue_flits (f ∷ queue) = remaining_flits f + queue_flits queue

unfoldable pub queued_data_flits : DlpEndpoint → ℕ
queued_data_flits e = queue_flits e.data_tx_queue

unfoldable pub queued_control_flits : DlpEndpoint → ℕ
queued_control_flits e = queue_flits e.control_tx_queue

unfoldable pub queued_flits : DlpEndpoint → ℕ
queued_flits e = queue_flits e.control_tx_queue + queue_flits e.data_tx_queue

unfoldable pub choose_data_vc : DlpEndpoint → DlpEndpoint × ℕ
choose_data_vc e =
    let next = e.next_data_vc + 1 in
    (record e { next_data_vc = if leb (vc_count e.vc_mode) next then 1 else next }, e.next_data_vc)

abbrev is_control_traffic : LinkTraffic → Bool
is_control_traffic control_traffic = true
is_control_traffic data_traffic = false

-- The checks that `queue_packet_on` and `receive_frame` share.
unfoldable pub check_lane : DlpEndpoint → LinkTraffic → ℕ → Result (Unit {0})
check_lane e traffic vcid = do
  guard e.link_up link_down
  guard (ltb vcid (vc_count e.vc_mode)) invalid_field
  guard (not (is_control_traffic traffic && not (is_control vcid))) invalid_field
  guard (not (not (is_control_traffic traffic) && is_control vcid)) invalid_field

push_frame : DlpEndpoint → LinkTraffic → TxFrame → DlpEndpoint
push_frame e control_traffic frame = record e {
  control_tx_queue = e.control_tx_queue ++ frame ∷ [];
}
push_frame e data_traffic frame = record e { data_tx_queue = e.data_tx_queue ++ frame ∷ [] }

unfoldable pub queue_packet_on : DlpEndpoint → LinkTraffic → ℕ → GdpPacket → DlpEndpoint × Result ℕ
unfolding push_frame
queue_packet_on e traffic vcid packet = (e, check_lane e traffic vcid) then_ok λ e _.
    (e, Packet.encode packet e.cfg) then_ok λ e bytes.
    let frame : TxFrame = record {
      vcid = vcid;
      traffic = traffic;
      bytes = bytes;
      flit_offset = 0;
    } in
    (push_frame e traffic frame, ok (flit_len bytes))

unfoldable pub queue_control_packet : DlpEndpoint → GdpPacket → DlpEndpoint × Result ℕ
queue_control_packet e packet = queue_packet_on e control_traffic control_vc packet

-- The channel is chosen before the checks, and stays chosen if they fail.
unfoldable pub queue_data_packet : DlpEndpoint → GdpPacket → DlpEndpoint × Result ℕ
queue_data_packet e packet =
    let (e', vc) = choose_data_vc e in queue_packet_on e' data_traffic vc packet
