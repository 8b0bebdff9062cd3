-- ===== src/Dlp/Endpoint/Transmit.antt =====
-- dlp.rs: `DlpEndpoint`, sending. An output slice is the list of the flits written, at most `room`.
pub mod Stream
pub mod Burst
pub mod Sound
use smolgnet.Base.{ℕ, zero, suc, ◌+◌, ◌-◌, ◌*◌, ◌%◌, ◌^◌, Bool, true, false, ◌&&◌, ◌||◌, not}
use smolgnet.Base.{
  List, [], ◌∷◌, ◌++◌, Option, none, some, ltb, leb, ◌==◌, ◌!=◌, length, is_empty, if◌then◌else◌,
}
use smolgnet.Base.Results.{Result, ok, err, no_credit, invalid_state, link_down}
use smolgnet.Base.Bytes.{from_be_bytes, slice, zeros}
use smolgnet.Dlp.{Flit, GnetFrame, TxFrame, flit_len, remaining_flits}
use smolgnet.Dlp.Endpoint.{DlpEndpoint}

-- `word[..end - start].copy_from_slice(…)`: the bytes of the flit, filled up with zeros.
unfoldable pub flit_word : List ℕ → ℕ → ℕ
flit_word bytes offset =
    let part = slice bytes (offset * 4) 4 in from_be_bytes (part ++ zeros (4 - length part))

unfoldable pub next_flit : TxFrame → Option (Flit × TxFrame)
unfolding flit_word
next_flit f =
    if leb (flit_len f.bytes) f.flit_offset
    then none
    else some (
      record { vcid = f.vcid; word = flit_word f.bytes f.flit_offset },
      record f { flit_offset = f.flit_offset + 1 },
    )

unfoldable pub into_frame : TxFrame → Result GnetFrame
into_frame f =
    if f.flit_offset != 0
    then err invalid_state
    else ok (record { vcid = f.vcid; traffic = f.traffic; bytes = f.bytes })

-- A queue, its credit, and what the sender took from them.
abbrev pub Taken : Type 0 → Type 0
Taken A = List TxFrame × ℕ × A

-- `*credit -= needed` is under `needed <= *credit`.
unfoldable pub pop_sendable_frame : List TxFrame → ℕ → Taken (Result (Option GnetFrame))
unfolding into_frame
pop_sendable_frame [] credit = ([], credit, ok none)
pop_sendable_frame (front ∷ queue) credit =
    if front.flit_offset != 0
    then (front ∷ queue, credit, err invalid_state)
    else if ltb credit (flit_len front.bytes)
    then (front ∷ queue, credit, ok none)
    else (
      queue,
      credit - flit_len front.bytes,
      elim (into_frame front) [ ok frame ↦ ok (some frame) | err e ↦ err e ],
    )

-- The end of both `poll_tx_frame` and `poll_tx_burst`, where nothing was sent.
nothing_sent : {A : Type 0} → DlpEndpoint → A → DlpEndpoint × Result A
nothing_sent e none_sent =
    if is_empty e.control_tx_queue && is_empty e.data_tx_queue
    then (e, ok none_sent)
    else (e, err no_credit)

-- `if let Some(frame) = pop_sendable_frame(…)? { return Ok(Some(frame)) }`, and what follows it.
or_else :
    DlpEndpoint
    → Result (Option GnetFrame)
    → DlpEndpoint × Result (Option GnetFrame)
    → DlpEndpoint × Result (Option GnetFrame)
or_else e (ok (some frame)) next = (e, ok (some frame))
or_else e (ok none) next = next
or_else e (err x) next = (e, err x)

poll_data_frame : DlpEndpoint → DlpEndpoint × Result (Option GnetFrame)
unfolding pop_sendable_frame nothing_sent or_else
poll_data_frame e =
    let (queue, credit, taken) = pop_sendable_frame e.data_tx_queue e.data_tx_credit in
    let e' = record e { data_tx_queue = queue; data_tx_credit = credit } in
    or_else e' taken (nothing_sent e' none)

unfoldable pub poll_tx_frame : DlpEndpoint → DlpEndpoint × Result (Option GnetFrame)
unfolding pop_sendable_frame poll_data_frame or_else
poll_tx_frame e =
    if not e.link_up
    then (e, err link_down)
    else let (queue, credit, taken) = pop_sendable_frame e.control_tx_queue e.control_tx_credit in
      let e' = record e { control_tx_queue = queue; control_tx_credit = credit } in
      or_else e' taken (poll_data_frame e')

pub after_sending : Flit → Taken (List Flit) → Taken (List Flit)
after_sending flit (queue, credit, out) = (queue, credit, flit ∷ out)

-- The `while` loop: on the room left in the slice, and then on the queue.
unfoldable pub emit_queue_flits : ℕ → List TxFrame → ℕ → Taken (List Flit)
unfolding next_flit after_sending
emit_queue_flits zero queue credit = (queue, credit, [])
emit_queue_flits (suc room) [] credit = ([], credit, [])
emit_queue_flits (suc room) (front ∷ queue) credit = elim (credit == 0) [
  | true ↦ (front ∷ queue, credit, [])
  | false ↦ elim (next_flit front) [
    | none ↦ emit_queue_flits (suc room) queue credit
    | some (flit, front') ↦ elim (remaining_flits front' == 0) [
      | true ↦ after_sending flit (emit_queue_flits room queue (credit - 1))
      | false ↦ after_sending flit (emit_queue_flits room (front' ∷ queue) (credit - 1))
    ]
  ]
]

-- `if written != 0 { return Ok(written) }`, and what follows it.
report : DlpEndpoint → List Flit → DlpEndpoint × Result (List Flit)
unfolding nothing_sent
report e [] = nothing_sent e []
report e (flit ∷ rest) = (e, ok (flit ∷ rest))

-- The control queue first, then the data queue into what is left of the slice.
unfoldable pub poll_tx_burst : DlpEndpoint → ℕ → DlpEndpoint × Result (List Flit)
unfolding emit_queue_flits report
poll_tx_burst e zero = (e, if not e.link_up then err link_down else ok [])
poll_tx_burst e (suc room) =
    if not e.link_up
    then (e, err link_down)
    else let (cq, cc, control_out) =
        emit_queue_flits (suc room) e.control_tx_queue e.control_tx_credit in
      let (dq, dc, data_out) =
        emit_queue_flits (suc room - length control_out) e.data_tx_queue e.data_tx_credit in
      report
        (record e {
          control_tx_queue = cq;
          control_tx_credit = cc;
          data_tx_queue = dq;
          data_tx_credit = dc;
        })
        (control_out ++ data_out)

-- What a burst into a slice of one flit comes to.
first_flit : Result (List Flit) → Result (Option Flit)
first_flit (ok []) = ok none
first_flit (ok (flit ∷ rest)) = ok (some flit)
first_flit (err x) = err x

unfoldable pub poll_tx : DlpEndpoint → DlpEndpoint × Result (Option Flit)
unfolding poll_tx_burst first_flit
poll_tx e = let (e', sent) = poll_tx_burst e 1 in (e', first_flit sent)
