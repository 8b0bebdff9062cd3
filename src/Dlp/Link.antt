-- ===== src/Dlp/Link.antt =====
-- dlp_v01.rs: `DlpLink`, an endpoint behind the states of its link.
pub mod Cost
pub mod Cases
pub mod CreditSafety
use smolgnet.Base.{ℕ, Bool, true, false, List, Option}
use smolgnet.Base.Results.{Result, ok, err, guard, ◌>>=◌, ◌then_ok◌, link_down, invalid_state}
use smolgnet.Base.Words.{wrapping_suc32}
use smolgnet.Wire.Gdp.Packet.{GdpPacket}
use smolgnet.Dlp.{DlpConfig, Flit, GnetFrame}
use smolgnet.Dlp.Endpoint.{DlpEndpoint}
use smolgnet.Dlp.Endpoint
use smolgnet.Dlp.Endpoint.Transmit
use smolgnet.Dlp.Endpoint.Receive

pub data DlpLinkState : Type 0 where
  down recovering up : DlpLinkState

abbrev pub is_down : DlpLinkState → Bool
is_down down = true
is_down _ = false

abbrev pub is_recovering : DlpLinkState → Bool
is_recovering recovering = true
is_recovering _ = false

abbrev pub is_up : DlpLinkState → Bool
is_up up = true
is_up _ = false

pub record DlpLink : Type 0 where
  pub endpoint : DlpEndpoint
  pub state : DlpLinkState
  pub generation : ℕ

unfoldable pub new : DlpConfig → Result DlpLink
new config = do
  endpoint ← Endpoint.new config
  ok (record { endpoint = Endpoint.set_link_up endpoint false; state = down; generation = 0 })

unfoldable pub begin_recovery : DlpLink → DlpLink × Result (Unit {0})
begin_recovery l = (l, guard (is_down l.state) invalid_state) then_ok λ l _.
    (record l { endpoint = Endpoint.set_link_up l.endpoint true; state = recovering }, ok tt)

unfoldable pub complete_recovery : DlpLink → DlpLink × Result (Unit {0})
complete_recovery l =
    (l, guard (is_recovering l.state) invalid_state) then_ok λ l _. (record l { state = up }, ok tt)

unfoldable pub reset : DlpLink → DlpLink
reset l = record l {
  endpoint = Endpoint.set_link_up l.endpoint false;
  state = down;
  generation = wrapping_suc32 l.generation;
}

unfoldable pub require_up : DlpLink → Result (Unit {0})
require_up l = guard (is_up l.state) link_down

-- What a call of the endpoint leaves of the link.
unfoldable pub with_endpoint : {A : Type 0} → DlpLink → DlpEndpoint × Result A → DlpLink × Result A
with_endpoint l (e, r) = (record l { endpoint = e }, r)

unfoldable pub queue_data_packet : DlpLink → GdpPacket → DlpLink × Result ℕ
unfolding with_endpoint
queue_data_packet l packet =
    (l, require_up l) then_ok λ l _. with_endpoint l (Endpoint.queue_data_packet l.endpoint packet)

unfoldable pub queue_control_packet : DlpLink → GdpPacket → DlpLink × Result ℕ
unfolding with_endpoint
queue_control_packet l packet = (l, require_up l) then_ok λ l _.
    with_endpoint l (Endpoint.queue_control_packet l.endpoint packet)

unfoldable pub poll_tx : DlpLink → DlpLink × Result (Option Flit)
unfolding with_endpoint
poll_tx l = (l, require_up l) then_ok λ l _. with_endpoint l (Transmit.poll_tx l.endpoint)

unfoldable pub poll_tx_burst : DlpLink → ℕ → DlpLink × Result (List Flit)
unfolding with_endpoint
poll_tx_burst l room =
    (l, require_up l) then_ok λ l _. with_endpoint l (Transmit.poll_tx_burst l.endpoint room)

unfoldable pub poll_tx_frame : DlpLink → DlpLink × Result (Option GnetFrame)
unfolding with_endpoint
poll_tx_frame l =
    (l, require_up l) then_ok λ l _. with_endpoint l (Transmit.poll_tx_frame l.endpoint)

unfoldable pub receive : DlpLink → Flit → DlpLink × Result (Option GdpPacket)
unfolding with_endpoint
receive l flit = (l, require_up l) then_ok λ l _. with_endpoint l (Receive.receive l.endpoint flit)

unfoldable pub receive_frame : DlpLink → GnetFrame → DlpLink × Result GdpPacket
unfolding with_endpoint
receive_frame l frame =
    (l, require_up l) then_ok λ l _. with_endpoint l (Receive.receive_frame l.endpoint frame)

-- What a call of the receiver leaves of the pair.
beside_sender : {A : Type 0} → DlpLink → DlpLink × Result A → (DlpLink × DlpLink) × Result A
beside_sender sender (receiver, r) = ((receiver, sender), r)

-- The receiver and the sender after it. The receiver notes the grant before the sender has it.
unfoldable pub grant_peer_data_credit :
    DlpLink × DlpLink → ℕ → (DlpLink × DlpLink) × Result (Unit {0})
unfolding with_endpoint beside_sender
grant_peer_data_credit links count = (links, require_up links.0) then_ok λ links _.
    (links, require_up links.1) then_ok λ links _.
    beside_sender links.1
      (with_endpoint links.0 (Endpoint.note_data_credit_granted links.0.endpoint count))
    then_ok λ links _. (
      (links.0, record links.1 { endpoint = Endpoint.grant_data_tx_credit links.1.endpoint count }),
      ok tt,
    )

unfoldable pub grant_peer_control_credit : DlpLink → ℕ → DlpLink × Result (Unit {0})
grant_peer_control_credit sender count = (sender, require_up sender) then_ok λ sender _.
    (record sender { endpoint = Endpoint.grant_control_tx_credit sender.endpoint count }, ok tt)
