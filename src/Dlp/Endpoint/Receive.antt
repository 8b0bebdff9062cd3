-- ===== src/Dlp/Endpoint/Receive.antt =====
-- dlp.rs: `DlpEndpoint`, receiving. An index of the two arrays of four is a `Vcid` below the count.
pub mod Sound
pub mod Frames
pub mod Credit
use smolgnet.Base.{ℕ, zero, suc, ◌+◌, ◌-◌, ◌*◌, ◌/◌, ◌%◌, ◌^◌, bit_and, Bool, true, false, not}
use smolgnet.Base.{List, [], ◌∷◌, ◌++◌, Option, none, some, ltb, leb, ◌==◌, ◌!=◌, length, take}
use smolgnet.Base.{if◌then◌else◌, get_or, set}
use smolgnet.Base.Results.{Result, ok, err, guard, ◌>>=◌, ◌>>◌, ◌then_ok◌, link_down, invalid_field}
use smolgnet.Base.Results.{credit_violation, buffer_full, desynchronized, invalid_state}
use smolgnet.Base.Bytes.{to_be_bytes}
use smolgnet.Base.Words.{shr}
use smolgnet.Wire.Gdp.{GdpWireConfig, AddressForm, global_form, local_form, form_from_bit}
use smolgnet.Wire.Gdp.{class_from_wire, class_bytes}
use smolgnet.Wire.Gdp.Packet.{GdpPacket}
use smolgnet.Wire.Gdp.Packet
use smolgnet.Dlp.{Flit, GnetFrame, LinkTraffic, control_traffic, data_traffic, RxSegment, vc_count}
use smolgnet.Dlp.{flit_len, is_control}
use smolgnet.Dlp.Endpoint.{DlpEndpoint, available_rx_flits, check_lane}

-- `flits as u32`; `saturating_sub` is the subtraction of ℕ.
unfoldable pub release_data_segment : DlpEndpoint → ℕ → DlpEndpoint
release_data_segment e flits = record e { data_rx_in_use = e.data_rx_in_use - flits % 2 ^ 32 }

-- `if traffic == LinkTraffic::Data { self.release_data_segment(flits) }`.
pub release_if_data : DlpEndpoint → LinkTraffic → ℕ → DlpEndpoint
release_if_data e control_traffic flits = e
release_if_data e data_traffic flits = release_data_segment e flits

-- The admission of a whole frame.
admit_frame : DlpEndpoint → LinkTraffic → ℕ → DlpEndpoint × Result (Unit {0})
admit_frame e control_traffic flits = (e, ok tt)
admit_frame e data_traffic flits =
    if ltb e.data_credit_outstanding (flits % 2 ^ 32)
    then (e, err credit_violation)
    else if ltb (available_rx_flits e) (flits % 2 ^ 32)
    then (e, err buffer_full)
    else (
      record e {
        data_credit_outstanding = e.data_credit_outstanding - flits % 2 ^ 32;
        data_rx_in_use = e.data_rx_in_use + flits % 2 ^ 32;
      },
      ok tt,
    )

unfoldable pub receive_frame : DlpEndpoint → GnetFrame → DlpEndpoint × Result GdpPacket
unfolding release_if_data release_data_segment admit_frame available_rx_flits
receive_frame e frame = (e, check_lane e frame.traffic frame.vcid) then_ok λ e _.
    admit_frame e frame.traffic (flit_len frame.bytes) then_ok λ e _. (
      release_if_data e frame.traffic (flit_len frame.bytes),
      Packet.decode frame.bytes e.cfg e.local_prefix,
    )

unfoldable pub lane_of : ℕ → LinkTraffic
lane_of vcid = if is_control vcid then control_traffic else data_traffic

-- The admission of one flit.
admit_flit : DlpEndpoint → LinkTraffic → DlpEndpoint × Result (Unit {0})
admit_flit e control_traffic = (e, ok tt)
admit_flit e data_traffic =
    if e.data_credit_outstanding == 0
    then (e, err credit_violation)
    else if leb e.rx_buffer_flits e.data_rx_in_use
    then (e, err buffer_full)
    else (
      record e {
        data_credit_outstanding = e.data_credit_outstanding - 1;
        data_rx_in_use = e.data_rx_in_use + 1;
      },
      ok tt,
    )

form_len : AddressForm → ℕ
form_len global_form = 20
form_len local_form = 8

-- The segment that a first flit's word announces.
unfoldable pub announced_segment : GdpWireConfig → LinkTraffic → ℕ → Result RxSegment
unfolding form_len
announced_segment cfg traffic w = do
  size ← class_from_wire (bit_and (shr w 22) 0xf % 2 ^ 8)
  let total = form_len (form_from_bit cfg (bit_and (shr w 21) 1 != 0)) + class_bytes size
  ok (record {
    bytes = [];
    expected_bytes = total;
    expected_flits = (total + 3) / 4;
    received_flits = 0;
    traffic = traffic;
  })

desynchronize : DlpEndpoint → ℕ → DlpEndpoint
desynchronize e idx = record e { desynchronized = set e.desynchronized idx true }

place_segment : DlpEndpoint → LinkTraffic → ℕ → Result RxSegment → DlpEndpoint × Result RxSegment
unfolding release_if_data release_data_segment desynchronize
place_segment e traffic idx (ok segment) =
    (record e { rx = set e.rx idx (some segment) }, ok segment)
place_segment e traffic idx (err x) = (desynchronize (release_if_data e traffic 1) idx, err x)

-- `if self.rx[idx].is_none() { … }`, and the segment in the slot after it.
open_segment : DlpEndpoint → LinkTraffic → ℕ → ℕ → Option RxSegment → DlpEndpoint × Result RxSegment
unfolding place_segment
open_segment e traffic idx w (some segment) = (e, ok segment)
open_segment e traffic idx w none = place_segment e traffic idx (announced_segment e.cfg traffic w)

abbrev same_traffic : LinkTraffic → LinkTraffic → Bool
same_traffic control_traffic control_traffic = true
same_traffic data_traffic data_traffic = true
same_traffic _ _ = false

-- `extend_from_slice(&flit.data.to_be_bytes())`.
unfoldable pub append_word : RxSegment → ℕ → RxSegment
append_word segment w = record segment {
  bytes = segment.bytes ++ to_be_bytes 4 w;
  received_flits = segment.received_flits + 1;
}

-- The `match` on the decoded segment.
settle : DlpEndpoint → ℕ → Result GdpPacket → DlpEndpoint × Result (Option GdpPacket)
unfolding desynchronize
settle e idx (ok packet) = (e, ok (some packet))
settle e idx (err x) = (desynchronize e idx, err x)

-- The end of a segment: the slot is emptied, the buffer released, and the bytes are decoded.
finish_segment : DlpEndpoint → ℕ → RxSegment → DlpEndpoint × Result (Option GdpPacket)
unfolding release_if_data release_data_segment settle
finish_segment e idx segment =
    let e' =
      release_if_data (record e { rx = set e.rx idx none }) segment.traffic
        segment.received_flits in
    settle e' idx (Packet.decode (take segment.expected_bytes segment.bytes) e'.cfg e'.local_prefix)

-- `if s.received_flits < s.expected_flits { return Ok(None) }`, and what follows it.
advance : DlpEndpoint → ℕ → RxSegment → DlpEndpoint × Result (Option GdpPacket)
unfolding finish_segment
advance e idx s =
    if ltb s.received_flits s.expected_flits then (e, ok none) else finish_segment e idx s

add_flit : DlpEndpoint → LinkTraffic → ℕ → ℕ → RxSegment → DlpEndpoint × Result (Option GdpPacket)
unfolding append_word advance
add_flit e traffic idx w segment =
    if not (same_traffic segment.traffic traffic)
    then (e, err invalid_state)
    else let s = append_word segment w in advance (record e { rx = set e.rx idx (some s) }) idx s

unfoldable pub receive : DlpEndpoint → Flit → DlpEndpoint × Result (Option GdpPacket)
unfolding lane_of admit_flit open_segment add_flit
receive e flit =
    let idx = flit.vcid in
    let traffic = lane_of flit.vcid in
    if not e.link_up
    then (e, err link_down)
    else if leb (vc_count e.vc_mode) idx
    then (e, err invalid_field)
    else if get_or e.desynchronized idx false
    then (e, err desynchronized)
    else admit_flit e traffic then_ok λ e _.
        open_segment e traffic idx flit.word (get_or e.rx idx none) then_ok λ e segment.
        add_flit e traffic idx flit.word segment

-- What a burst has after one more flit, given what the rest of it comes to.
after_flit :
    DlpEndpoint
    → Result (Option GdpPacket)
    → DlpEndpoint × List GdpPacket × Result ℕ
    → DlpEndpoint × List GdpPacket × Result ℕ
after_flit e (err x) rest = (e, [], err x)
after_flit e (ok none) rest = rest
after_flit e (ok (some packet)) (e', packets, count) =
    (e', packet ∷ packets, elim count [ ok n ↦ ok (n + 1) | err x ↦ err x ])

-- The packets that a burst completes, in order, up to the first error.
unfoldable pub receive_burst : DlpEndpoint → List Flit → DlpEndpoint × List GdpPacket × Result ℕ
unfolding after_flit
receive_burst e [] = (e, [], ok 0)
receive_burst e (flit ∷ flits) =
    let (e', got) = receive e flit in after_flit e' got (receive_burst e' flits)

reset_segment : DlpEndpoint → Option RxSegment → DlpEndpoint
reset_segment e none = e
reset_segment e (some segment) = release_if_data e segment.traffic segment.received_flits

unfoldable pub reset_vc : DlpEndpoint → ℕ → DlpEndpoint × Result (Unit {0})
unfolding reset_segment release_if_data release_data_segment
reset_vc e vcid =
    if leb (vc_count e.vc_mode) vcid
    then (e, err invalid_field)
    else let e' = reset_segment (record e { rx = set e.rx vcid none }) (get_or e.rx vcid none) in
      (record e' { desynchronized = set e'.desynchronized vcid false }, ok tt)
