-- ===== src/Dlp/Endpoint/Transmit/Sound.antt =====
-- dlp.rs: the transmitting operations keep the endpoint sound.
use smolgnet.Base.{ℕ, zero, suc, ◌-◌, ◌≤◌, arith, not, ◌&&◌}
use smolgnet.Base.{
  List, [], ◌∷◌, ◌++◌, Option, none, some, length, inl, inr, Bool-cases, All, ltb, ◌!=◌, is_empty,
}
use smolgnet.Base.Results.{Result, ok, err, Leaves, Leaves-if, Leaves-object, Leaves-of}
use smolgnet.Dlp.{Flit, TxFrame, GnetFrame, VcMode, flit_len}
use smolgnet.Dlp.Endpoint.{DlpEndpoint}
use smolgnet.Dlp.Endpoint.Invariant.{IsSound, IsControlFrame, IsDataFrame, IsSound-sender}
use smolgnet.Dlp.Endpoint.Transmit.{
  emit_queue_flits, poll_tx_burst, poll_tx, poll_tx_frame, Taken, pop_sendable_frame,
}
use smolgnet.Dlp.Endpoint.Transmit.{poll_data_frame, nothing_sent, report, or_else, after_sending}
use smolgnet.Dlp.Endpoint.Transmit.Stream.{sent_one, emit_queue_flits-cases, front_flit}

-- What holds of the frames of a queue holds of what a sender leaves of it, at no more credit.
unfoldable IsLeft : {A : Type 0} → (TxFrame → Type 0) → ℕ → Taken A → Type 0
IsLeft P credit r = All P r.0 × (r.1 ≤ credit)

IsLeft-pop_sendable_frame :
    (P : TxFrame → Type 0) (queue : List TxFrame) (credit : ℕ)
    → All P queue
    → IsLeft P credit (pop_sendable_frame queue credit)
unfolding IsLeft pop_sendable_frame
IsLeft-pop_sendable_frame P [] credit h = (tt, omega arith)
IsLeft-pop_sendable_frame P (f ∷ queue) credit h = elim (Bool-cases (f.flit_offset != 0)) [
  | inl begun ↦ rw begun (h, omega arith)
  | inr fresh ↦ elim (Bool-cases (ltb credit (flit_len f.bytes))) [
    | inl short ↦ rw (fresh, short) (h, omega arith)
    | inr covered ↦ rw (fresh, covered) (h.1, omega arith)
  ]
]

IsLeft-sent :
    (P : TxFrame → Type 0) (f : TxFrame) (credit : ℕ) (r : Taken (List Flit))
    → IsLeft P (credit - 1) r
    → IsLeft P credit (after_sending (front_flit f) r)
unfolding IsLeft after_sending
IsLeft-sent P f credit r h = (h.0, omega (arith, h.1))

-- A predicate of a frame that does not speak of its offset.
IsLeft-emit_queue_flits :
    (P : TxFrame → Type 0)
    → ((f : TxFrame) → P f → P (sent_one f))
    → (room : ℕ) (queue : List TxFrame) (credit : ℕ) → All P queue
    → IsLeft P credit (emit_queue_flits room queue credit)
unfolding IsLeft emit_queue_flits
IsLeft-emit_queue_flits P next zero queue credit h = (h, omega arith)
IsLeft-emit_queue_flits P next (suc room) [] credit h = (tt, omega arith)
IsLeft-emit_queue_flits P next (suc room) (f ∷ queue) credit h =
    emit_queue_flits-cases (IsLeft P credit) room f queue credit (λ z. (h, omega arith))
      (λ z. IsLeft-emit_queue_flits P next (suc room) queue credit h.1)
      (λ c z.
        IsLeft-sent P f credit (emit_queue_flits room queue (credit - 1))
          (IsLeft-emit_queue_flits P next room queue (credit - 1) h.1))
      (λ c z.
        IsLeft-sent P f credit (emit_queue_flits room (sent_one f ∷ queue) (credit - 1))
          (IsLeft-emit_queue_flits P next room (sent_one f ∷ queue) (credit - 1) (next f h.0, h.1)))

control_next : (f : TxFrame) → IsControlFrame f → IsControlFrame (sent_one f)
unfolding IsControlFrame
control_next f h = h

data_next : (mode : VcMode) (f : TxFrame) → IsDataFrame mode f → IsDataFrame mode (sent_one f)
unfolding IsDataFrame
data_next mode f h = h

IsSound-nothing_sent :
    {A : Type 0} (e : DlpEndpoint) (a : A) → IsSound e → IsSound (nothing_sent e a).0
unfolding nothing_sent Leaves
IsSound-nothing_sent e a v = Leaves-object IsSound (nothing_sent e a) (
    Leaves-if (λ s a'. IsSound s) IsSound (is_empty e.control_tx_queue && is_empty e.data_tx_queue)
      _ _ (λ _. v) (λ _. v))

IsSound-report : (e : DlpEndpoint) (out : List Flit) → IsSound e → IsSound (report e out).0
unfolding report
IsSound-report e [] v = IsSound-nothing_sent e [] v
IsSound-report e (flit ∷ out) v = v

IsSound-left :
    {A B : Type 0} (e : DlpEndpoint) (c : Taken A) (d : Taken B)
    → IsSound e
    → IsLeft IsControlFrame e.control_tx_credit c
    → IsLeft (IsDataFrame e.vc_mode) e.data_tx_credit d
    → IsSound (record e {
      control_tx_queue = c.0;
      control_tx_credit = c.1;
      data_tx_queue = d.0;
      data_tx_credit = d.1;
    })
unfolding IsSound IsLeft
IsSound-left e c d v hc hd =
    IsSound-sender e c.0 d.0 c.1 d.1 v (omega (arith, v.control_credit_word, hc.1))
      (omega (arith, v.data_credit_word, hd.1)) hc.0 hd.0

-- A burst keeps the endpoint sound.
pub poll_tx_burst-IsSound :
    (e : DlpEndpoint) (room : ℕ) → IsSound e → IsSound (poll_tx_burst e room).0
unfolding poll_tx_burst IsSound Leaves
poll_tx_burst-IsSound e zero v = v
poll_tx_burst-IsSound e (suc room) v = Leaves-object IsSound (poll_tx_burst e (suc room)) (
    Leaves-if (λ s out. IsSound s) IsSound (not e.link_up) _ _ (λ _. v)
      λ _. Leaves-of IsSound (report after (c.2 ++ d.2)) (
        IsSound-report after (c.2 ++ d.2) (
          IsSound-left e c d v
            (IsLeft-emit_queue_flits IsControlFrame control_next (suc room) e.control_tx_queue
              e.control_tx_credit v.control_queue)
            (IsLeft-emit_queue_flits (IsDataFrame e.vc_mode) (data_next e.vc_mode)
              (suc room - length c.2) e.data_tx_queue e.data_tx_credit v.data_queue))))
  where
    c : Taken (List Flit)
    c = emit_queue_flits (suc room) e.control_tx_queue e.control_tx_credit

    d : Taken (List Flit)
    d = emit_queue_flits (suc room - length c.2) e.data_tx_queue e.data_tx_credit

    after : DlpEndpoint
    after = record e {
      control_tx_queue = c.0;
      control_tx_credit = c.1;
      data_tx_queue = d.0;
      data_tx_credit = d.1;
    }

IsSound-or_else :
    (e : DlpEndpoint) (taken : Result (Option GnetFrame))
    (next : DlpEndpoint × Result (Option GnetFrame))
    → IsSound e
    → IsSound next.0
    → IsSound (or_else e taken next).0
unfolding or_else
IsSound-or_else e (ok (some frame)) next v w = v
IsSound-or_else e (ok none) next v w = w
IsSound-or_else e (err x) next v w = v

poll_data_frame-IsSound : (e : DlpEndpoint) → IsSound e → IsSound (poll_data_frame e).0
unfolding poll_data_frame IsSound IsLeft
poll_data_frame-IsSound e v = IsSound-or_else _ taken.2 _ left (IsSound-nothing_sent _ none left)
  where
    taken : Taken (Result (Option GnetFrame))
    taken = pop_sendable_frame e.data_tx_queue e.data_tx_credit

    left : IsSound (record e { data_tx_queue = taken.0; data_tx_credit = taken.1 })
    left =
        IsSound-left {A = Unit {0}} e (e.control_tx_queue, e.control_tx_credit, tt) taken v
          (v.control_queue, omega arith)
          (IsLeft-pop_sendable_frame (IsDataFrame e.vc_mode) e.data_tx_queue e.data_tx_credit
            v.data_queue)

-- Polling for a whole frame keeps the endpoint sound.
pub poll_tx_frame-IsSound : (e : DlpEndpoint) → IsSound e → IsSound (poll_tx_frame e).0
unfolding poll_tx_frame Leaves IsSound IsLeft
poll_tx_frame-IsSound e v = Leaves-object IsSound (poll_tx_frame e) (
    Leaves-if (λ s out. IsSound s) IsSound (not e.link_up) _ _ (λ _. v)
      λ _. Leaves-of IsSound _ (IsSound-or_else _ taken.2 _ left (poll_data_frame-IsSound _ left)))
  where
    taken : Taken (Result (Option GnetFrame))
    taken = pop_sendable_frame e.control_tx_queue e.control_tx_credit

    left : IsSound (record e { control_tx_queue = taken.0; control_tx_credit = taken.1 })
    left =
        IsSound-left {B = Unit {0}} e taken (e.data_tx_queue, e.data_tx_credit, tt) v
          (IsLeft-pop_sendable_frame IsControlFrame e.control_tx_queue e.control_tx_credit
            v.control_queue)
          (v.data_queue, omega arith)

pub poll_tx-IsSound : (e : DlpEndpoint) → IsSound e → IsSound (poll_tx e).0
unfolding poll_tx
poll_tx-IsSound e v = poll_tx_burst-IsSound e 1 v
