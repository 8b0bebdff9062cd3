-- ===== src/Dlp/Endpoint/Receive/Sound.antt =====
-- dlp.rs: the receiving operations keep the endpoint sound.
use smolgnet.Base.{ℕ, ◌+◌, ◌-◌, ◌%◌, ◌^◌, ◌≤◌, ◌<◌, ◌≡◌, refl, ap, subst, sym, ◌∙◌, List, arith}
use smolgnet.Base.{Option, none, some, length, get_or, set, length-set, Bool, true, false, inl, inr}
use smolgnet.Base.{get_or-set_same, ltb, leb, ◌==◌, Bool-cases, not}
use smolgnet.Base.Results.{Result, ok, err, Leaves, then_ok-Leaves, Leaves-if, Leaves-object}
use smolgnet.Dlp.{
  LinkTraffic, control_traffic, data_traffic, RxSegment, VcMode, two, four, vc_count, Flit,
}
use smolgnet.Wire.Gdp.Packet.{GdpPacket}
use smolgnet.Dlp.Endpoint.{DlpEndpoint}
use smolgnet.Dlp.Endpoint.Receive.{lane_of, receive, admit_flit}
use smolgnet.Dlp.Endpoint.Receive.{
  open_segment, add_flit, finish_segment, append_word, place_segment, settle, advance, same_traffic,
}
use smolgnet.Dlp.Endpoint.Receive.{release_if_data, release_data_segment, desynchronize}
use smolgnet.Dlp.Endpoint.Receive.{announced_segment}
use smolgnet.Dlp.Endpoint.Invariant.{occupied, held, held_flits, IsOnLane, IsSoundWith, IsSound}
use smolgnet.Dlp.Endpoint.Invariant.{
  held-none, held-fresh, held-append_word, held_flits-set, HasLanes-set, HasLanes-get_or,
  IsSoundWith-receiver,
}

-- Releasing flits that are in use for no segment.
pub IsSoundWith-release_word :
    (e : DlpEndpoint) (traffic : LinkTraffic) (flits n : ℕ)
    → IsSoundWith (n + occupied traffic (flits % 2 ^ 32)) e
    → IsSoundWith n (release_if_data e traffic flits)
unfolding release_if_data release_data_segment occupied
IsSoundWith-release_word e control_traffic flits n v =
    IsSoundWith-receiver (n + 0) n e e.rx e.desynchronized e.data_credit_outstanding
      e.data_rx_in_use v v.rx_slots v.rx_lanes (omega (arith, v.rx_in_use)) v.credit_bounded
IsSoundWith-release_word e data_traffic flits n v =
    IsSoundWith-receiver (n + flits % 2 ^ 32) n e e.rx e.desynchronized e.data_credit_outstanding
      (e.data_rx_in_use - flits % 2 ^ 32) v v.rx_slots v.rx_lanes (omega (arith, v.rx_in_use))
      (omega (arith, v.credit_bounded))

-- The flits of a segment are counted in a word, since they fit the buffer.
pub IsSoundWith-release :
    (e : DlpEndpoint) (traffic : LinkTraffic) (flits n : ℕ)
    → IsSoundWith (n + occupied traffic flits) e
    → IsSoundWith n (release_if_data e traffic flits)
unfolding occupied
IsSoundWith-release e control_traffic flits n v =
    IsSoundWith-release_word e control_traffic flits n v
IsSoundWith-release e data_traffic flits n v = IsSoundWith-release_word e data_traffic flits n (
    subst (λ k. IsSoundWith (n + k) e) {x = flits} {y = flits % 2 ^ 32}
      (omega (arith, v.rx_in_use, v.credit_bounded, v.buffer_word)) v)

IsSoundWith-admit_flit :
    (e : DlpEndpoint) (traffic : LinkTraffic)
    → IsSound e
    → Leaves (λ s u. IsSoundWith (0 + occupied traffic 1) s) IsSound (admit_flit e traffic)
unfolding IsSound admit_flit occupied Leaves
IsSoundWith-admit_flit e control_traffic v = v
IsSoundWith-admit_flit e data_traffic v = elim (Bool-cases (e.data_credit_outstanding == 0)) [
  | inl z ↦ rw z v
  | inr z ↦ elim (Bool-cases (leb e.rx_buffer_flits e.data_rx_in_use)) [
    | inl full ↦ rw (z, full) v
    | inr room ↦
        rw (z, room)
          (IsSoundWith-receiver 0 1 e e.rx e.desynchronized (e.data_credit_outstanding - 1)
            (e.data_rx_in_use + 1) v v.rx_slots v.rx_lanes (omega (arith, v.rx_in_use))
            (ground (arith, v.credit_bounded, z)))
  ]
]

-- The slot holds the segment, which is of the flit's class.
unfoldable IsOpen : LinkTraffic → ℕ → DlpEndpoint → RxSegment → Type 0
IsOpen traffic idx e s =
    IsSoundWith (0 + occupied traffic 1) e × (get_or e.rx idx none ≡ some s) × (s.traffic ≡ traffic)

pub IsSoundWith-desynchronized :
    (e : DlpEndpoint) (lost : List Bool) (n : ℕ)
    → IsSoundWith n e
    → IsSoundWith n (record e { desynchronized = lost })
IsSoundWith-desynchronized e lost n v =
    IsSoundWith-receiver n n e e.rx lost e.data_credit_outstanding e.data_rx_in_use v v.rx_slots
      v.rx_lanes v.rx_in_use v.credit_bounded

IsSoundWith-desynchronize :
    (e : DlpEndpoint) (idx n : ℕ) → IsSoundWith n e → IsSoundWith n (desynchronize e idx)
unfolding desynchronize
IsSoundWith-desynchronize e idx n v =
    IsSoundWith-desynchronized e (set e.desynchronized idx true) n v

-- A new segment has received nothing, and is of the class it was announced for.
announced_segment-fresh :
    (e : DlpEndpoint) (traffic : LinkTraffic) (w : ℕ) (s : RxSegment)
    → announced_segment e.cfg traffic w ≡ ok s
    → (s.received_flits ≡ 0) × (s.traffic ≡ traffic)
unfolding announced_segment
announced_segment-fresh e traffic w s h = ground arith

IsOpen-announced :
    (e : DlpEndpoint) (traffic : LinkTraffic) (idx : ℕ) (s : RxSegment)
    → IsSoundWith (0 + occupied traffic 1) e
    → idx < 4
    → traffic ≡ lane_of idx
    → get_or e.rx idx none ≡ none
    → (s.received_flits ≡ 0) × (s.traffic ≡ traffic)
    → IsOpen traffic idx (record e { rx = set e.rx idx (some s) }) s
unfolding IsOpen IsOnLane
IsOpen-announced e traffic idx s v below lane at fresh = (
  IsSoundWith-receiver n n e (set e.rx idx (some s)) e.desynchronized e.data_credit_outstanding
      e.data_rx_in_use v (length-set e.rx idx (some s) ∙ v.rx_slots)
      (HasLanes-set e.rx idx (some s) v.rx_lanes (fresh.1 ∙ lane))
      (omega (arith, counted, empty, was_none, v.rx_in_use)) v.credit_bounded,
  get_or-set_same e.rx idx (some s) none fits,
  fresh.1,
)
  where
    n : ℕ
    n = 0 + occupied traffic 1

    fits : idx < length e.rx
    fits = omega (arith, v.rx_slots)

    counted :
        held_flits (set e.rx idx (some s)) + held (get_or e.rx idx none)
        ≡ held_flits e.rx + held (some s)
    counted = held_flits-set e.rx idx (some s) fits

    was_none : held (get_or e.rx idx none) ≡ 0
    was_none = ap held at ∙ held-none

    empty : held (some s) ≡ 0
    empty = held-fresh s fresh.0

IsOpen-place_segment :
    (e : DlpEndpoint) (traffic : LinkTraffic) (idx w : ℕ) (r : Result RxSegment)
    → IsSoundWith (0 + occupied traffic 1) e
    → idx < 4
    → traffic ≡ lane_of idx
    → get_or e.rx idx none ≡ none
    → announced_segment e.cfg traffic w ≡ r
    → Leaves (IsOpen traffic idx) IsSound (place_segment e traffic idx r)
unfolding Leaves IsSound place_segment
IsOpen-place_segment e traffic idx w (ok s) v below lane at h =
    IsOpen-announced e traffic idx s v below lane at (announced_segment-fresh e traffic w s h)
IsOpen-place_segment e traffic idx w (err x) v below lane at h =
    IsSoundWith-desynchronize _ idx 0 (IsSoundWith-release e traffic 1 0 v)

IsOpen-open_segment :
    (e : DlpEndpoint) (traffic : LinkTraffic) (idx w : ℕ) (slot : Option RxSegment)
    → IsSoundWith (0 + occupied traffic 1) e
    → idx < 4
    → traffic ≡ lane_of idx
    → get_or e.rx idx none ≡ slot
    → Leaves (IsOpen traffic idx) IsSound (open_segment e traffic idx w slot)
unfolding Leaves IsOpen IsOnLane open_segment
IsOpen-open_segment e traffic idx w (some s) v below lane at =
    (v, at, subst (IsOnLane (lane_of idx)) at (HasLanes-get_or e.rx idx v.rx_lanes) ∙ sym lane)
IsOpen-open_segment e traffic idx w none v below lane at =
    IsOpen-place_segment e traffic idx w _ v below lane at refl

IsSound-settle :
    (e : DlpEndpoint) (idx : ℕ) (r : Result GdpPacket)
    → IsSound e
    → Leaves (λ o p. IsSound o) IsSound (settle e idx r)
unfolding Leaves settle IsSound
IsSound-settle e idx (ok p) v = v
IsSound-settle e idx (err x) v = IsSoundWith-desynchronize e idx 0 v

-- Emptying a slot leaves the flits of its segment in use.
pub IsSoundWith-emptied :
    (e : DlpEndpoint) (idx : ℕ) (s : RxSegment)
    → IsSound e
    → idx < 4
    → get_or e.rx idx none ≡ some s
    → IsSoundWith (0 + occupied s.traffic s.received_flits) (record e { rx = set e.rx idx none })
unfolding IsOnLane held IsSound
IsSoundWith-emptied e idx s v below at =
    IsSoundWith-receiver 0 _ e (set e.rx idx none) e.desynchronized e.data_credit_outstanding
      e.data_rx_in_use v (length-set e.rx idx none ∙ v.rx_slots)
      (HasLanes-set e.rx idx none v.rx_lanes tt)
      (omega (arith, counted, holds, held-none, v.rx_in_use)) v.credit_bounded
  where
    counted :
        held_flits (set e.rx idx none) + held (get_or e.rx idx none) ≡ held_flits e.rx + held none
    counted = held_flits-set e.rx idx none (omega (arith, v.rx_slots))

    holds : held (get_or e.rx idx none) ≡ occupied s.traffic s.received_flits
    holds = ap held at

IsSound-finish_segment :
    (e : DlpEndpoint) (idx : ℕ) (s : RxSegment)
    → IsSound e
    → idx < 4
    → get_or e.rx idx none ≡ some s
    → Leaves (λ o p. IsSound o) IsSound (finish_segment e idx s)
unfolding finish_segment IsSound
IsSound-finish_segment e idx s v below at =
    IsSound-settle _ idx _
      (IsSoundWith-release _ s.traffic s.received_flits 0 (IsSoundWith-emptied e idx s v below at))

IsSound-advance :
    (e : DlpEndpoint) (idx : ℕ) (s : RxSegment)
    → IsSound e
    → idx < 4
    → get_or e.rx idx none ≡ some s
    → Leaves (λ o p. IsSound o) IsSound (advance e idx s)
unfolding advance Leaves
IsSound-advance e idx s v below at = elim (Bool-cases (ltb s.received_flits s.expected_flits)) [
  | inl more ↦ rw more v
  | inr done ↦ rw done (IsSound-finish_segment e idx s v below at)
]

same_traffic-of : (a b : LinkTraffic) → a ≡ b → not (same_traffic a b) ≡ false
same_traffic-of control_traffic b h = rw (sym h) refl
same_traffic-of data_traffic b h = rw (sym h) refl

-- The flit of the open segment stands in the buffer.
IsSound-appended :
    (e : DlpEndpoint) (traffic : LinkTraffic) (idx w : ℕ) (s : RxSegment)
    → idx < 4
    → traffic ≡ lane_of idx
    → IsOpen traffic idx e s
    → IsSound (record e { rx = set e.rx idx (some (append_word s w)) })
unfolding IsOpen IsSound append_word IsOnLane
IsSound-appended e traffic idx w s below lane opened =
    IsSoundWith-receiver _ 0 e (set e.rx idx (some s')) e.desynchronized e.data_credit_outstanding
      e.data_rx_in_use v (length-set e.rx idx (some s') ∙ v.rx_slots)
      (HasLanes-set e.rx idx (some s') v.rx_lanes (opened.2 ∙ lane))
      (omega (arith, counted, before, after, v.rx_in_use)) v.credit_bounded
  where
    v : IsSoundWith (0 + occupied traffic 1) e
    v = opened.0

    s' : RxSegment
    s' = append_word s w

    counted :
        held_flits (set e.rx idx (some s')) + held (get_or e.rx idx none)
        ≡ held_flits e.rx + held (some s')
    counted = held_flits-set e.rx idx (some s') (omega (arith, v.rx_slots))

    before : held (get_or e.rx idx none) ≡ held (some s)
    before = ap held opened.1

    after : held (some s') ≡ held (some s) + occupied traffic 1
    after = held-append_word s traffic w opened.2

IsSound-add_flit :
    (e : DlpEndpoint) (traffic : LinkTraffic) (idx w : ℕ) (s : RxSegment)
    → idx < 4
    → traffic ≡ lane_of idx
    → IsOpen traffic idx e s
    → Leaves (λ o p. IsSound o) IsSound (add_flit e traffic idx w s)
unfolding IsOpen add_flit
IsSound-add_flit e traffic idx w s below lane opened =
    rw (same_traffic-of s.traffic traffic opened.2) (
      IsSound-advance _ idx _ (IsSound-appended e traffic idx w s below lane opened) below
        (get_or-set_same e.rx idx _ none (omega (arith, opened.0.rx_slots))))

pub vc_count-max : (mode : VcMode) → vc_count mode ≤ 4
unfolding vc_count
vc_count-max two = omega arith
vc_count-max four = omega arith

receive-Leaves :
    (e : DlpEndpoint) (flit : Flit) → IsSound e → Leaves (λ o p. IsSound o) IsSound (receive e flit)
unfolding receive Leaves
receive-Leaves e flit v =
    Leaves-if P IsSound (not e.link_up) _ _ (λ _. v)
      λ _.
        Leaves-if P IsSound (leb (vc_count e.vc_mode) flit.vcid) _ _ (λ _. v)
          λ inside.
            Leaves-if P IsSound (get_or e.desynchronized flit.vcid false) _ _ (λ _. v)
              λ _.
                then_ok-Leaves (λ s u. IsSoundWith (0 + occupied traffic 1) s) P IsSound
                  (admit_flit e traffic) _ (IsSoundWith-admit_flit e traffic v)
                  λ s u w.
                    then_ok-Leaves (IsOpen traffic flit.vcid) P IsSound _ _
                      (IsOpen-open_segment s traffic flit.vcid flit.word _ w (below inside) refl
                        refl)
                      (λ o segment opened.
                        IsSound-add_flit o traffic flit.vcid flit.word segment (below inside) refl
                          opened)
  where
    P : DlpEndpoint → Option GdpPacket → Type 0
    P o p = IsSound o

    traffic : LinkTraffic
    traffic = lane_of flit.vcid

    below : leb (vc_count e.vc_mode) flit.vcid ≡ false → flit.vcid < 4
    below inside = ground (arith, vc_count-max e.vc_mode)

-- The account of the receive buffer survives every flit, valid or not: the flits in use are those
-- of the open data segments, and with the credit still outstanding they fit the buffer.
pub receive-IsSound : (e : DlpEndpoint) (flit : Flit) → IsSound e → IsSound (receive e flit).0
receive-IsSound e flit v = Leaves-object IsSound (receive e flit) (receive-Leaves e flit v)
