-- ===== src/Dlp/Endpoint/Receive/Frames.antt =====
-- dlp.rs: whole frames, bursts and resets keep the endpoint sound.
use smolgnet.Base.{ℕ, ◌+◌, ◌-◌, ◌%◌, ◌^◌, ◌<◌, ◌≡◌, refl, ap, sym, ◌∙◌, List, [], ◌∷◌, arith}
use smolgnet.Base.{Option, none, some, get_or, set, set-get_or, subst}
use smolgnet.Base.{ltb, leb}
use smolgnet.Base.Results.{Result, ok, err, Leaves, then_ok-Leaves, Leaves-if, Leaves-object}
use smolgnet.Dlp.{
  LinkTraffic, control_traffic, data_traffic, RxSegment, vc_count, Flit, GnetFrame, flit_len,
}
use smolgnet.Wire.Gdp.Packet.{GdpPacket}
use smolgnet.Dlp.Endpoint.{DlpEndpoint, available_rx_flits, check_lane}
use smolgnet.Dlp.Endpoint.Receive.{receive_frame, receive_burst, reset_vc, admit_frame}
use smolgnet.Dlp.Endpoint.Receive.{release_if_data, reset_segment, after_flit}
use smolgnet.Dlp.Endpoint.Receive.Sound.{
  receive-IsSound, IsSoundWith-desynchronized, IsSoundWith-emptied, IsSoundWith-release,
  IsSoundWith-release_word, vc_count-max,
}
use smolgnet.Dlp.Endpoint.Invariant.{occupied, IsSoundWith, IsSound}
use smolgnet.Dlp.Endpoint.Invariant.{IsSoundWith-receiver}

IsSoundWith-admit_frame :
    (e : DlpEndpoint) (traffic : LinkTraffic) (flits : ℕ)
    → IsSound e
    → Leaves
        (λ s u. IsSoundWith (0 + occupied traffic (flits % 2 ^ 32)) s)
        IsSound
        (admit_frame e traffic flits)
unfolding IsSound admit_frame occupied Leaves
IsSoundWith-admit_frame e control_traffic flits v = v
IsSoundWith-admit_frame e data_traffic flits v =
    Leaves-if P (IsSoundWith 0) (ltb e.data_credit_outstanding (flits % 2 ^ 32)) _ _ (λ _. v)
      λ credit.
        Leaves-if P (IsSoundWith 0) (ltb (available_rx_flits e) (flits % 2 ^ 32)) _ _ (λ _. v)
          λ _.
            IsSoundWith-receiver 0 (0 + flits % 2 ^ 32) e e.rx e.desynchronized
              (e.data_credit_outstanding - flits % 2 ^ 32) (e.data_rx_in_use + flits % 2 ^ 32) v
              v.rx_slots v.rx_lanes (omega (arith, v.rx_in_use))
              (ground (arith, v.credit_bounded, credit))
  where
    P : DlpEndpoint → Unit {0} → Type 0
    P s u = IsSoundWith (0 + flits % 2 ^ 32) s

IsSound-checked {ℓ} :
    {A : Type ℓ} (e : DlpEndpoint) (r : Result A)
    → IsSound e
    → Leaves (λ o p. IsSound o) IsSound (e, r)
unfolding Leaves
IsSound-checked e (ok a) v = v
IsSound-checked e (err x) v = v

receive_frame-Leaves :
    (e : DlpEndpoint) (frame : GnetFrame)
    → IsSound e
    → Leaves (λ o p. IsSound o) IsSound (receive_frame e frame)
unfolding receive_frame IsSound
receive_frame-Leaves e frame v =
    then_ok-Leaves (λ s u. IsSound s) P IsSound (e, check_lane e traffic frame.vcid) _
      (IsSound-checked e (check_lane e traffic frame.vcid) v)
      λ s u v'.
        then_ok-Leaves (λ o u'. IsSoundWith (0 + occupied traffic (flits % 2 ^ 32)) o) P IsSound
          (admit_frame s traffic flits) _ (IsSoundWith-admit_frame s traffic flits v')
          λ o u' w.
            IsSound-checked (release_if_data o traffic flits) _
              (IsSoundWith-release_word o traffic flits 0 w)
  where
    P : DlpEndpoint → GdpPacket → Type 0
    P o p = IsSound o

    traffic : LinkTraffic
    traffic = frame.traffic

    flits : ℕ
    flits = flit_len frame.bytes

-- A whole frame occupies the buffer while it is decoded, and leaves the account as it was, less the
-- credit that it used.
pub receive_frame-IsSound :
    (e : DlpEndpoint) (frame : GnetFrame) → IsSound e → IsSound (receive_frame e frame).0
receive_frame-IsSound e frame v =
    Leaves-object IsSound (receive_frame e frame) (receive_frame-Leaves e frame v)

IsSound-after_flit :
    (e : DlpEndpoint) (got : Result (Option GdpPacket))
    (rest : DlpEndpoint × List GdpPacket × Result ℕ)
    → IsSound e
    → IsSound rest.0
    → IsSound (after_flit e got rest).0
unfolding after_flit
IsSound-after_flit e (err x) rest v w = v
IsSound-after_flit e (ok none) rest v w = w
IsSound-after_flit e (ok (some packet)) rest v w = w

pub receive_burst-IsSound :
    (flits : List Flit) (e : DlpEndpoint) → IsSound e → IsSound (receive_burst e flits).0
unfolding receive_burst
receive_burst-IsSound [] e v = v
receive_burst-IsSound (flit ∷ flits) e v =
    IsSound-after_flit _ _ _ (receive-IsSound e flit v)
      (receive_burst-IsSound flits _ (receive-IsSound e flit v))

IsSoundWith-cleared :
    (e : DlpEndpoint) (idx : ℕ)
    → IsSound e
    → idx < 4
    → get_or e.rx idx none ≡ none
    → IsSound (record e { rx = set e.rx idx none })
unfolding IsSound
IsSoundWith-cleared e idx v below at =
    subst (λ rx. IsSoundWith 0 (record e { rx = rx }))
      (sym (ap (set e.rx idx) (sym at) ∙ set-get_or e.rx idx none)) v

IsSound-reset_segment :
    (e : DlpEndpoint) (vcid : ℕ) (slot : Option RxSegment)
    → IsSound e
    → vcid < 4
    → get_or e.rx vcid none ≡ slot
    → IsSound (reset_segment (record e { rx = set e.rx vcid none }) slot)
unfolding reset_segment IsSound
IsSound-reset_segment e vcid none v below at = IsSoundWith-cleared e vcid v below at
IsSound-reset_segment e vcid (some s) v below at =
    IsSoundWith-release _ s.traffic s.received_flits 0 (IsSoundWith-emptied e vcid s v below at)

pub reset_vc-IsSound : (e : DlpEndpoint) (vcid : ℕ) → IsSound e → IsSound (reset_vc e vcid).0
unfolding reset_vc Leaves IsSound
reset_vc-IsSound e vcid v = Leaves-object IsSound (reset_vc e vcid) (
    Leaves-if P IsSound (leb (vc_count e.vc_mode) vcid) _ _ (λ _. v)
      λ inside.
        IsSoundWith-desynchronized _ _ 0
          (IsSound-reset_segment e vcid _ v (ground (arith, vc_count-max e.vc_mode, inside)) refl))
  where
    P : DlpEndpoint → Unit {0} → Type 0
    P o u = IsSound o
