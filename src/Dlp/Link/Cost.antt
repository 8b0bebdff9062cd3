-- ===== src/Dlp/Link/Cost.antt =====
-- dlp.rs: the data credit that a burst spends is at least the number of its data flits.
use smolgnet.Base.{
  ℕ, zero, suc, ◌+◌, ◌≤◌, ◌≡◌, refl, ap, sym, subst, ◌∙◌, arith, Bool, true, false, not,
}
use smolgnet.Base.{List, [], ◌∷◌, ◌++◌, length, All, inl, inr, Bool-cases, if_true, if◌then◌else◌}
use smolgnet.Base.Results.{Result, ok, err, link_down}
use smolgnet.Dlp.{Flit, TxFrame, remaining_flits}
use smolgnet.Dlp.Endpoint.{DlpEndpoint}
use smolgnet.Dlp.Endpoint.Receive.{lane_of}
use smolgnet.Dlp.Endpoint.Invariant.{IsSound, IsControlFrame, occupied}
use smolgnet.Dlp.Endpoint.Transmit.{poll_tx_burst}
use smolgnet.Dlp.Endpoint.Transmit.Stream.{pending, pending_flits, flits_from}
use smolgnet.Dlp.Endpoint.Transmit.Burst.{IsBurst, poll_tx_burst-IsBurst}

-- The flits of a sequence that the receiver counts against its data buffer.
unfoldable pub data_flits : List Flit → ℕ
data_flits [] = 0
data_flits (flit ∷ flits) = occupied (lane_of flit.vcid) 1 + data_flits flits

-- What a call of a sender puts on the wire.
unfoldable pub sent : Result (List Flit) → List Flit
sent (ok out) = out
sent (err x) = []

pub data_flits-nil : data_flits [] ≡ 0
unfolding data_flits
data_flits-nil = refl

pub data_flits-cons :
    (flit : Flit) (flits : List Flit)
    → data_flits (flit ∷ flits) ≡ occupied (lane_of flit.vcid) 1 + data_flits flits
unfolding data_flits
data_flits-cons flit flits = refl

pub data_flits-append : (a b : List Flit) → data_flits (a ++ b) ≡ data_flits a + data_flits b
unfolding data_flits
data_flits-append [] b = omega arith
data_flits-append (f ∷ a) b = omega (arith, data_flits-append a b)

data_flits-le : (flits : List Flit) → data_flits flits ≤ length flits
unfolding data_flits occupied
data_flits-le [] = omega arith
data_flits-le (f ∷ flits) = ground (arith, data_flits-le flits)

control-flits_from : (bytes : List ℕ) (offset n : ℕ) → data_flits (flits_from 0 bytes offset n) ≡ 0
unfolding data_flits flits_from occupied lane_of
control-flits_from bytes offset zero = refl
control-flits_from bytes offset (suc n) = omega (arith, control-flits_from bytes (offset + 1) n)

control-pending_flits :
    (queue : List TxFrame) → All IsControlFrame queue → data_flits (pending_flits queue) ≡ 0
unfolding pending_flits pending IsControlFrame data_flits
control-pending_flits [] h = refl
control-pending_flits (f ∷ queue) h = omega (
  arith,
  data_flits-append (pending f) (pending_flits queue),
  front,
  control-pending_flits queue h.1,
)
  where
    front : data_flits (pending f) ≡ 0
    front =
        ap (λ v. data_flits (flits_from v f.bytes f.flit_offset (remaining_flits f))) h.0.1
        ∙ control-flits_from f.bytes f.flit_offset (remaining_flits f)

IsBurst-cost :
    (room : ℕ) (e : DlpEndpoint) (r : DlpEndpoint × Result (List Flit))
    → IsSound e
    → IsBurst room e r
    → data_flits (sent r.1) + r.0.data_tx_credit ≤ e.data_tx_credit
unfolding IsSound sent data_flits
IsBurst-cost room e r v b = elim b.reported [
  | inl (h, spoke) ↦
      subst (λ x. data_flits (sent x) + r.0.data_tx_credit ≤ e.data_tx_credit) (sym h) spent
  | inr (h, nothing, waiting) ↦
      subst (λ x. data_flits (sent x) + r.0.data_tx_credit ≤ e.data_tx_credit) (sym h)
        (omega (arith, b.data_sent.paid))
]
  where
    control : data_flits b.control_out ≡ 0
    control = omega (
      arith,
      ap data_flits b.control_sent.in_order,
      data_flits-append b.control_out (pending_flits r.0.control_tx_queue),
      control-pending_flits e.control_tx_queue v.control_queue,
    )

    spent : data_flits (b.control_out ++ b.data_out) + r.0.data_tx_credit ≤ e.data_tx_credit
    spent = omega (
      arith,
      data_flits-append b.control_out b.data_out,
      control,
      data_flits-le b.data_out,
      b.data_sent.paid,
    )

nothing-sent : (b : Bool) → data_flits (sent (if b then err link_down else ok [])) ≡ 0
unfolding sent data_flits
nothing-sent true = refl
nothing-sent false = refl

pub poll_tx_burst-cost :
    (e : DlpEndpoint) (room : ℕ)
    → IsSound e
    → data_flits (sent (poll_tx_burst e room).1) + (poll_tx_burst e room).0.data_tx_credit
      ≤ e.data_tx_credit
unfolding poll_tx_burst
poll_tx_burst-cost e zero v = omega (arith, nothing-sent (not e.link_up))
poll_tx_burst-cost e (suc room) v = elim (Bool-cases e.link_up) [
  | inl up ↦ IsBurst-cost (suc room) e _ v (poll_tx_burst-IsBurst e room up)
  | inr down ↦ if_true C (not e.link_up) _ _ (ap not down) (omega (arith, nothing-sent true))
]
  where
    C : DlpEndpoint × Result (List Flit) → Type 0
    C r = data_flits (sent r.1) + r.0.data_tx_credit ≤ e.data_tx_credit
