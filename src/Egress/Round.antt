-- ===== src/Egress/Round.antt =====
-- egress_scheduler.rs: `schedule_round` never panics, and what it leaves of the scheduler.
use smolgnet.Base.{
  ℕ, zero, suc, ◌+◌, ◌-◌, ◌≡◌, ◌≢◌, ◌≤◌, refl, sym, ap, subst, ◌∙◌, arith, Bool, true, false,
}
use smolgnet.Base.{
  List, [], ◌∷◌, Option, none, some, length, is_empty, All, All-append, inl, inr, ◌⊎◌, Bool-cases,
}
use smolgnet.Base.{if_false, ◌!=◌}
use smolgnet.Base.Results.{ok, err, invalid_state, Result, Result-cases, Leaves}
use smolgnet.Wire.Gdp.Packet.{GdpPacket}
use smolgnet.Dlp.Endpoint.{queued_data_flits}
use smolgnet.Dlp.Link.{DlpLink, queue_data_packet}
use smolgnet.Egress.{
  EgressFlowId, same_flow, FlowQueue, Flows, RouterEgressScheduler, find_flow, put_flow, drop_flow,
}
use smolgnet.Egress.{present, readmit, admit, schedule_round, round_capacity, Round}
use smolgnet.Egress.Admitted.{queue_data_packet-length}
use smolgnet.Egress.Flows.{
  find_flow-put_same, find_flow-put_other, find_flow-drop_other, packets_of, total_packets,
  total_packets-put, total_packets-drop,
}
use smolgnet.Egress.Invariant.{HasWork, IsDistinct, IsDistinct-append, HasWork-kept, IsScheduled}

-- What is left for a round when the flow at the head presents a packet.
record IsPresented (s : RouterEgressScheduler) (id : EgressFlowId) (rest : List EgressFlowId)
    (packets : List GdpPacket) : Type 0 where
  counted : s.queued_packets ≡ suc (total_packets (present s id rest packets).flows)
  working : All (λ k. HasWork (find_flow s.flows k)) rest
  others : All (λ k. same_flow id k ≡ false) rest
  distinct : IsDistinct rest

present-IsPresented :
    (s : RouterEgressScheduler) (id : EgressFlowId) (rest : List EgressFlowId) (q : FlowQueue)
    (packet : GdpPacket) (packets : List GdpPacket)
    → IsScheduled s
    → s.ready ≡ id ∷ rest
    → find_flow s.flows id ≡ some q
    → q.packets ≡ packet ∷ packets
    → IsPresented s id rest packets
unfolding present IsDistinct packets_of
present-IsPresented s id rest q packet packets inv head found front = record {
  counted = omega (
    arith,
    inv.counted,
    total_packets-put s.flows id (record { packets = packets; scheduled = false }),
    ap packets_of found,
    ap length front,
  );
  working = work.1;
  others = once.0;
  distinct = once.1;
}
  where
    work : All (λ k. HasWork (find_flow s.flows k)) (id ∷ rest)
    work = subst (All (λ k. HasWork (find_flow s.flows k))) head inv.working

    once : IsDistinct (id ∷ rest)
    once = subst IsDistinct head inv.distinct

readmit-IsScheduled :
    (s : RouterEgressScheduler) (id : EgressFlowId) (rest : List EgressFlowId)
    (packets : List GdpPacket)
    → IsPresented s id rest packets
    → IsScheduled (readmit (present s id rest packets) id packets)
unfolding present readmit packets_of HasWork
readmit-IsScheduled s id rest [] p = record {
  counted = omega (
    arith,
    p.counted,
    total_packets-drop flows id,
    ap packets_of (find_flow-put_same s.flows id idle),
  );
  working =
      HasWork-kept s.flows (drop_flow flows id) id rest
        (λ k other.
          find_flow-drop_other flows id k other ∙ find_flow-put_other s.flows id k idle other)
        p.others p.working;
  distinct = p.distinct;
}
  where
    idle : FlowQueue
    idle = record { packets = []; scheduled = false }

    flows : Flows
    flows = put_flow s.flows id idle
readmit-IsScheduled s id rest (packet ∷ packets) p = record {
  counted = omega (
    arith,
    p.counted,
    total_packets-put flows id busy,
    ap packets_of (find_flow-put_same s.flows id idle),
  );
  working =
      All-append (λ k. HasWork (find_flow (put_flow flows id busy) k)) rest (id ∷ [])
        (HasWork-kept s.flows (put_flow flows id busy) id rest
          (λ k other.
            find_flow-put_other flows id k busy other ∙ find_flow-put_other s.flows id k idle other)
          p.others p.working)
        (subst HasWork (sym (find_flow-put_same flows id busy)) (refl, refl), tt);
  distinct = IsDistinct-append rest id p.distinct p.others;
}
  where
    idle : FlowQueue
    idle = record { packets = packet ∷ packets; scheduled = false }

    busy : FlowQueue
    busy = record { packets = packet ∷ packets; scheduled = true }

    flows : Flows
    flows = put_flow s.flows id idle

readmit-queued :
    (s : RouterEgressScheduler) (id : EgressFlowId) (rest : List EgressFlowId)
    (packets : List GdpPacket)
    → (readmit (present s id rest packets) id packets).queued_packets ≡ s.queued_packets - 1
unfolding present readmit
readmit-queued s id rest [] = refl
readmit-queued s id rest (packet ∷ packets) = refl

abbrev pub waiting : DlpLink → ℕ
waiting link = length link.endpoint.data_tx_queue

-- A round that started with the packets admitted so far, and has room for more: it did not panic. With
-- no error the scheduler is whole, the counter is down by what was admitted, the link's queue is
-- longer by as much, and that is all the room, or less when no flow is left ready. After a refused packet the counter is one above the packets that are left.
unfoldable pub IsRound : ℕ → ℕ → RouterEgressScheduler → DlpLink → Option Round → Type 0
IsRound room admitted s link none = ⊥
IsRound room admitted s link (some (s', link', ok n)) =
    IsScheduled s'
    × (s'.queued_packets + n ≡ s.queued_packets + admitted)
    × (n ≤ room + admitted)
    × ((n ≡ room + admitted) ⊎ (s'.ready ≡ []))
    × (waiting link' + admitted ≡ waiting link + n)
IsRound room admitted s link (some (s', link', err e)) =
    s'.queued_packets ≡ suc (total_packets s'.flows)

abbrev flow_queue : List GdpPacket → Bool → FlowQueue
flow_queue packets b = record { packets = packets; scheduled = b }

queue-front :
    (packets : List GdpPacket) (b : Bool)
    → is_empty packets ≡ false
    → b ≡ true
    → (packet : GdpPacket) × (later : List GdpPacket) × (some (flow_queue packets b)
        ≡ some (flow_queue (packet ∷ later) true))
queue-front [] b full on = absurd (ground (arith, full))
queue-front (packet ∷ later) b full on =
    (packet, later, ap (λ b. some (flow_queue (packet ∷ later) b)) on)

-- A flow with work has a packet at the head of its queue.
HasWork-front :
    (o : Option FlowQueue)
    → HasWork o
    → (packet : GdpPacket) × (packets : List GdpPacket) × (o
        ≡ some (flow_queue (packet ∷ packets) true))
unfolding HasWork
HasWork-front none work = absurd work
HasWork-front (some q) work = queue-front q.packets q.scheduled work.1 work.0

-- A round with less room to go, after one packet, is the rest of the round before it.
IsRound-step :
    (room admitted : ℕ) (s s' : RouterEgressScheduler) (link link' : DlpLink) (o : Option Round)
    → s.queued_packets ≡ suc s'.queued_packets
    → waiting link' ≡ waiting link + 1
    → IsRound room (admitted + 1) s' link' o
    → IsRound (suc room) admitted s link o
unfolding IsRound
IsRound-step room admitted s s' link link' none h longer r = r
IsRound-step room admitted s s' link link' (some (t, last, ok n)) h longer r = (
  r.0,
  omega (arith, h, r.1),
  omega (arith, r.2),
  elim r.3 [ inl full ↦ inl (omega (arith, full)) | inr drained ↦ inr drained ],
  omega (arith, longer, r.4),
)
IsRound-step room admitted s s' link link' (some (t, last, err e)) h longer r = r

-- The queue after a packet that was taken.
taken-longer :
    (link : DlpLink) (r : DlpLink × Result ℕ) (n : ℕ)
    → Leaves (λ l' n. waiting l' ≡ waiting link + 1) (λ s. Unit) r
    → r.1 ≡ ok n
    → waiting r.0 ≡ waiting link + 1
unfolding Leaves
taken-longer link (l', ok m) n h taken = h
taken-longer link (l', err e) n h taken = absurd (ground (arith, taken))

admit-IsRound :
    (room : ℕ) (flows : Flows) (ready : List EgressFlowId) (queued : ℕ) (link : DlpLink)
    (admitted : ℕ)
    → IsScheduled (record { flows = flows; ready = ready; queued_packets = queued })
    → IsRound room admitted
        (record { flows = flows; ready = ready; queued_packets = queued })
        link
        (admit room
          (record { flows = flows; ready = ready; queued_packets = queued })
          link
          admitted)
unfolding admit IsRound present
admit-IsRound zero flows ready queued link admitted inv =
    (inv, refl, omega arith, inl (omega arith), refl)
admit-IsRound (suc room) flows [] queued link admitted inv =
    (inv, refl, omega arith, inr refl, refl)
admit-IsRound (suc room) flows (id ∷ rest) queued link admitted inv =
    let s : RouterEgressScheduler = record {
      flows = flows;
      ready = id ∷ rest;
      queued_packets = queued;
    } in
    let (packet, packets, found) = HasWork-front (find_flow flows id) inv.working.0 in
    let p =
      present-IsPresented s id rest (flow_queue (packet ∷ packets) true) packet packets inv refl
        found refl in
    let s' = readmit (present s id rest packets) id packets in
    elim (Result-cases (queue_data_packet link packet).1) [
      | inl (n, taken) ↦
          rw (admit, found, taken)
            (IsRound-step room admitted s s' link (queue_data_packet link packet).0 _
              (omega (arith, p.counted, readmit-queued s id rest packets))
              (taken-longer link (queue_data_packet link packet) n
                (queue_data_packet-length link packet) taken)
              (admit-IsRound room s'.flows s'.ready s'.queued_packets
                (queue_data_packet link packet).0 (admitted + 1)
                (readmit-IsScheduled s id rest packets p)))
      | inr (e, refused) ↦ rw (admit, found, refused) p.counted
    ]

-- A round for a scheduler that is scheduled: it never panics. When the link still has data to send,
-- nothing changes and the answer is the error for it. When the link has none, with no error, the
-- scheduler stays scheduled, its counter is down by the number admitted, the link's data queue is that
-- many frames longer, and the number is that of the link's ordinary channels, or less when no flow is
-- left ready; and when the link refuses a packet, the
-- counter is one above the packets left.
pub schedule_round-IsRound :
    (s : RouterEgressScheduler) (link : DlpLink)
    → IsScheduled s
    → ((queued_data_flits link.endpoint ≢ 0)
        × (schedule_round s link ≡ some (s, link, err invalid_state)))
      ⊎ ((queued_data_flits link.endpoint ≡ 0)
          × IsRound (round_capacity link.endpoint.vc_mode) 0 s link (schedule_round s link))
unfolding schedule_round
schedule_round-IsRound s link inv = elim (Bool-cases (queued_data_flits link.endpoint != 0)) [
  | inl busy ↦ inl (nonzero _ busy, rw (schedule_round, busy) refl)
  | inr idle ↦ inr (
    empty _ idle,
    if_false (IsRound (round_capacity link.endpoint.vc_mode) 0 s link)
        (queued_data_flits link.endpoint != 0) _ _ idle
        (admit-IsRound (round_capacity link.endpoint.vc_mode) s.flows s.ready s.queued_packets link
          0 inv),
  )
]
  where
    nonzero : (n : ℕ) → (n != 0) ≡ true → n ≢ 0
    nonzero n h = ground (arith, h)

    empty : (n : ℕ) → (n != 0) ≡ false → n ≡ 0
    empty n h = ground (arith, h)
