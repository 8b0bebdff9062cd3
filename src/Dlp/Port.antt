-- ===== src/Dlp/Port.antt =====
-- dlp_gdp.rs: `DlpGdpPort`, the boundary at which a router sees packets and no flits.
use smolgnet.Base.{ℕ, Bool, true, false, List, [], ◌∷◌, ◌++◌, Option, none, some}
use smolgnet.Base.Results.{Result, ok, ◌>>=◌, ◌then_ok◌}
use smolgnet.Wire.Gdp.{GdpType, gctl, gts, reserved}
use smolgnet.Wire.Gdp.Packet.{GdpPacket}
use smolgnet.Dlp.{DlpConfig, Flit, GnetFrame}
use smolgnet.Dlp.Link.{DlpLink}
use smolgnet.Dlp.Link

pub record DlpGdpPort : Type 0 where
  pub link : DlpLink
  pub received : List GdpPacket

unfoldable pub new : DlpConfig → Result DlpGdpPort
new config = do link ← Link.new config; ok (record { link = link; received = [] })

-- What a call of the link leaves of the port.
unfoldable pub with_link : {A : Type 0} → DlpGdpPort → DlpLink × Result A → DlpGdpPort × Result A
with_link p (l, r) = (record p { link = l }, r)

unfoldable pub begin_recovery : DlpGdpPort → DlpGdpPort × Result (Unit {0})
unfolding with_link
begin_recovery p = with_link p (Link.begin_recovery p.link)

unfoldable pub complete_recovery : DlpGdpPort → DlpGdpPort × Result (Unit {0})
unfolding with_link
complete_recovery p = with_link p (Link.complete_recovery p.link)

unfoldable pub reset : DlpGdpPort → DlpGdpPort
reset p = record { link = Link.reset p.link; received = [] }

accept : DlpGdpPort → Option GdpPacket → DlpGdpPort × Result Bool
accept p none = (p, ok false)
accept p (some packet) = (record p { received = p.received ++ packet ∷ [] }, ok true)

unfoldable pub physical_receive_flit : DlpGdpPort → Flit → DlpGdpPort × Result Bool
unfolding with_link accept
physical_receive_flit p flit = with_link p (Link.receive p.link flit) then_ok λ p got. accept p got

unfoldable pub physical_receive_frame : DlpGdpPort → GnetFrame → DlpGdpPort × Result (Unit {0})
unfolding with_link
physical_receive_frame p frame = with_link p (Link.receive_frame p.link frame) then_ok λ p packet.
    (record p { received = p.received ++ packet ∷ [] }, ok tt)

unfoldable pub physical_poll_tx_flit : DlpGdpPort → DlpGdpPort × Result (Option Flit)
unfolding with_link
physical_poll_tx_flit p = with_link p (Link.poll_tx p.link)

unfoldable pub physical_poll_tx_burst : DlpGdpPort → ℕ → DlpGdpPort × Result (List Flit)
unfolding with_link
physical_poll_tx_burst p room = with_link p (Link.poll_tx_burst p.link room)

unfoldable pub physical_poll_tx_frame : DlpGdpPort → DlpGdpPort × Result (Option GnetFrame)
unfolding with_link
physical_poll_tx_frame p = with_link p (Link.poll_tx_frame p.link)

unfoldable pub grant_peer_data_credit :
    DlpGdpPort × DlpGdpPort → ℕ → (DlpGdpPort × DlpGdpPort) × Result (Unit {0})
grant_peer_data_credit (receiver, sender) count =
    let (links, r) = Link.grant_peer_data_credit (receiver.link, sender.link) count in
    ((record receiver { link = links.0 }, record sender { link = links.1 }), r)

unfoldable pub grant_peer_control_credit : DlpGdpPort → ℕ → DlpGdpPort × Result (Unit {0})
unfolding with_link
grant_peer_control_credit sender count =
    with_link sender (Link.grant_peer_control_credit sender.link count)

unfoldable pub poll_gdp : DlpGdpPort → DlpGdpPort × Option GdpPacket
poll_gdp p = elim p.received [
  | [] ↦ (p, none)
  | packet ∷ rest ↦ (record p { received = rest }, some packet)
]

queue_by_type : DlpGdpPort → GdpType → GdpPacket → DlpGdpPort × Result ℕ
unfolding with_link
queue_by_type p gctl packet = with_link p (Link.queue_control_packet p.link packet)
queue_by_type p gts packet = with_link p (Link.queue_data_packet p.link packet)
queue_by_type p (reserved v) packet = with_link p (Link.queue_data_packet p.link packet)

unfoldable pub transmit_gdp : DlpGdpPort → GdpPacket → DlpGdpPort × Result (Unit {0})
unfolding queue_by_type
transmit_gdp p packet = queue_by_type p packet.header.packet_type packet then_ok λ p n. (p, ok tt)
