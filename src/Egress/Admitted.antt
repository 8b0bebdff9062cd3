-- ===== src/Egress/Admitted.antt =====
-- dlp.rs and dlp_v01.rs: the queue of a link as `queue_data_packet` leaves it.
use smolgnet.Base.{ℕ, ◌+◌, ◌≡◌, length, length-append}
use smolgnet.Base.Results.{Result, ok, err, ◌then_ok◌, Leaves}
use smolgnet.Wire.Gdp.Packet
use smolgnet.Wire.Gdp.Packet.{GdpPacket}
use smolgnet.Dlp.{data_traffic}
use smolgnet.Dlp.Endpoint
use smolgnet.Dlp.Endpoint.{DlpEndpoint, check_lane, queue_packet_on, choose_data_vc}
use smolgnet.Dlp.Link.{DlpLink, queue_data_packet, require_up, with_endpoint}

-- Only the step after a test says what is left.
try-Leaves {ℓ κ μ} :
    {S : Type ℓ} {A : Type κ} {B : Type μ} (P : S → B → Type 0) (s : S) (r : Result A)
    (k : S → A → S × Result B)
    → ((a : A) → Leaves P (λ s. Unit) (k s a))
    → Leaves P (λ s. Unit) ((s, r) then_ok k)
unfolding Leaves
try-Leaves P s (ok a) k h = h a
try-Leaves P s (err e) k h = tt

abbrev IsLonger : ℕ → DlpEndpoint → ℕ → Type 0
IsLonger before e flits = length e.data_tx_queue ≡ before + 1

queue_packet_on-IsLonger :
    (e : DlpEndpoint) (vcid : ℕ) (packet : GdpPacket)
    → Leaves
        (IsLonger (length e.data_tx_queue))
        (λ s. Unit)
        (queue_packet_on e data_traffic vcid packet)
unfolding queue_packet_on Leaves
queue_packet_on-IsLonger e vcid packet =
    try-Leaves (IsLonger (length e.data_tx_queue)) e (check_lane e data_traffic vcid) _ λ u.
      try-Leaves (IsLonger (length e.data_tx_queue)) e (Packet.encode packet e.cfg) _
        λ bytes. length-append e.data_tx_queue _

on_link :
    (before : ℕ) (l : DlpLink) (r : DlpEndpoint × Result ℕ)
    → Leaves (IsLonger before) (λ s. Unit) r
    → Leaves (λ l n. IsLonger before l.endpoint n) (λ s. Unit) (with_endpoint l r)
unfolding with_endpoint Leaves
on_link before l (e, ok n) h = h
on_link before l (e, err x) h = tt

pub queue_data_packet-length :
    (l : DlpLink) (packet : GdpPacket)
    → Leaves
        (λ l' n. length l'.endpoint.data_tx_queue ≡ length l.endpoint.data_tx_queue + 1)
        (λ s. Unit)
        (queue_data_packet l packet)
unfolding queue_data_packet Endpoint.queue_data_packet choose_data_vc
queue_data_packet-length l packet =
    try-Leaves (λ l' n. IsLonger (length l.endpoint.data_tx_queue) l'.endpoint n) l (require_up l) _
      λ u.
        on_link (length l.endpoint.data_tx_queue) l (Endpoint.queue_data_packet l.endpoint packet)
          (queue_packet_on-IsLonger (choose_data_vc l.endpoint).0 _ packet)
