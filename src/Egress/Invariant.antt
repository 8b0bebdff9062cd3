-- ===== src/Egress/Invariant.antt =====
-- egress_scheduler.rs: what holds of a scheduler between two rounds, and that its calls keep it.
use smolgnet.Base.{◌+◌, ◌≡◌, refl, sym, ap, subst, ◌∙◌, arith, true, false}
use smolgnet.Base.{
  List, [], ◌∷◌, ◌++◌, Option, none, some, length, length-append, is_empty, All, All-append, inl,
  inr, Bool-cases,
}
use smolgnet.Base.{if_true, if_false}
use smolgnet.Wire.Gdp.Packet.{GdpPacket}
use smolgnet.Egress.{
  EgressFlowId, same_flow, FlowQueue, Flows, RouterEgressScheduler, find_flow, put_flow,
}
use smolgnet.Egress.{flow_or_new, new, enqueue}
use smolgnet.Egress.Flows.{
  find_flow-put_same, find_flow-put_other, packets_of, total_packets, total_packets-put,
}

-- A flow that a round may select: scheduled, with a packet.
unfoldable pub HasWork : Option FlowQueue → Type 0
HasWork none = ⊥
HasWork (some q) = (q.scheduled ≡ true) × (is_empty q.packets ≡ false)

unfoldable pub IsDistinct : List EgressFlowId → Type 0
IsDistinct [] = Unit
IsDistinct (id ∷ ready) = All (λ k. same_flow id k ≡ false) ready × IsDistinct ready

-- The counter is the number of packets; each flow of the ready queue stands there once, is scheduled
-- and has a packet.
pub record IsScheduled (s : RouterEgressScheduler) : Type 0 where
  pub counted : s.queued_packets ≡ total_packets s.flows
  pub working : All (λ id. HasWork (find_flow s.flows id)) s.ready
  pub distinct : IsDistinct s.ready

same_flow-eq : (a b : EgressFlowId) → same_flow a b ≡ true → a ≡ b
same_flow-eq a b h =
    ap (λ x. record { source = x; destination = a.destination; transport = a.transport })
      (sources h)
    ∙ ap (λ x. record { source = b.source; destination = x; transport = a.transport })
        (destinations h)
    ∙ ap (λ x. record { source = b.source; destination = b.destination; transport = x })
        (transports h)
  where
    sources : same_flow a b ≡ true → a.source ≡ b.source
    sources h = ground (arith, h)

    destinations : same_flow a b ≡ true → a.destination ≡ b.destination
    destinations h = ground (arith, h)

    transports : same_flow a b ≡ true → a.transport ≡ b.transport
    transports h = ground (arith, h)

same_flow_sym : (a b : EgressFlowId) → same_flow a b ≡ false → same_flow b a ≡ false
same_flow_sym a b h = ground (arith, h)

pub IsDistinct-append :
    (ready : List EgressFlowId) (id : EgressFlowId)
    → IsDistinct ready
    → All (λ k. same_flow id k ≡ false) ready
    → IsDistinct (ready ++ id ∷ [])
unfolding IsDistinct
IsDistinct-append [] id d h = (tt, tt)
IsDistinct-append (x ∷ ready) id d h = (
  All-append (λ k. same_flow x k ≡ false) ready (id ∷ []) d.0 (same_flow_sym id x h.0, tt),
  IsDistinct-append ready id d.1 h.1,
)

-- Flows that find the same queues as before still have their work.
pub HasWork-kept :
    (flows flows' : Flows) (id : EgressFlowId) (ready : List EgressFlowId)
    → ((k : EgressFlowId) → same_flow id k ≡ false → find_flow flows' k ≡ find_flow flows k)
    → All (λ k. same_flow id k ≡ false) ready
    → All (λ k. HasWork (find_flow flows k)) ready
    → All (λ k. HasWork (find_flow flows' k)) ready
HasWork-kept flows flows' id [] same others work = tt
HasWork-kept flows flows' id (k ∷ ready) same others work = (
  subst HasWork (sym (same k others.0)) work.0,
  HasWork-kept flows flows' id ready same others.1 work.1,
)

busy : (o : Option FlowQueue) → (flow_or_new o).scheduled ≡ false → HasWork o → ⊥
unfolding HasWork
busy none h w = w
busy (some q) h w = ground (arith, h, w.0)

-- A flow that is not scheduled is none of those with work.
unscheduled-others :
    (flows : Flows) (id : EgressFlowId) (ready : List EgressFlowId)
    → (flow_or_new (find_flow flows id)).scheduled ≡ false
    → All (λ k. HasWork (find_flow flows k)) ready
    → All (λ k. same_flow id k ≡ false) ready
unscheduled-others flows id [] idle work = tt
unscheduled-others flows id (k ∷ ready) idle work = (
  elim (Bool-cases (same_flow id k)) [
    | inl same ↦ absurd (
        busy (find_flow flows id) idle
          (subst (λ j. HasWork (find_flow flows j)) (sym (same_flow-eq id k same)) work.0))
    | inr other ↦ other
  ],
  unscheduled-others flows id ready idle work.1,
)

-- The scheduler starts scheduled.
pub new-IsScheduled : IsScheduled new
unfolding new IsDistinct total_packets
new-IsScheduled = record { counted = refl; working = tt; distinct = tt }

is_empty-append_one :
    (packets : List GdpPacket) (packet : GdpPacket) → is_empty (packets ++ packet ∷ []) ≡ false
is_empty-append_one [] packet = refl
is_empty-append_one (x ∷ packets) packet = refl

packets_of-flow_or_new : (o : Option FlowQueue) → length (flow_or_new o).packets ≡ packets_of o
unfolding packets_of
packets_of-flow_or_new none = refl
packets_of-flow_or_new (some q) = refl

-- With one more packet for a flow, that flow has work, and so have those that had.
HasWork-put :
    (flows : Flows) (id : EgressFlowId) (q : FlowQueue) (ready : List EgressFlowId)
    → HasWork (some q)
    → All (λ k. HasWork (find_flow flows k)) ready
    → All (λ k. HasWork (find_flow (put_flow flows id q) k)) ready
HasWork-put flows id q [] new_work work = tt
HasWork-put flows id q (k ∷ ready) new_work work = (
  elim (Bool-cases (same_flow id k)) [
    | inl same ↦
        subst (λ j. HasWork (find_flow (put_flow flows id q) j)) (same_flow-eq id k same)
          (subst HasWork (sym (find_flow-put_same flows id q)) new_work)
    | inr other ↦ subst HasWork (sym (find_flow-put_other flows id k q other)) work.0
  ],
  HasWork-put flows id q ready new_work work.1,
)

-- A scheduled scheduler is one after a packet is enqueued for any flow.
pub enqueue-IsScheduled :
    (s : RouterEgressScheduler) (flow : EgressFlowId) (packet : GdpPacket)
    → IsScheduled s
    → IsScheduled (enqueue s flow packet)
unfolding enqueue HasWork
enqueue-IsScheduled s flow packet inv = elim (Bool-cases entry.scheduled) [
  | inl on ↦
      if_true P entry.scheduled _ _ on
        (record { counted = count; working = kept; distinct = inv.distinct })
  | inr off ↦ if_false P entry.scheduled _ _ off (record {
    counted = count;
    working =
        All-append (λ k. HasWork (find_flow flows' k)) s.ready (flow ∷ []) kept
          (subst HasWork (sym (find_flow-put_same s.flows flow entry')) new_work, tt);
    distinct =
        IsDistinct-append s.ready flow inv.distinct
          (unscheduled-others s.flows flow s.ready off inv.working);
  })
]
  where
    entry : FlowQueue
    entry = flow_or_new (find_flow s.flows flow)

    entry' : FlowQueue
    entry' = record { packets = entry.packets ++ packet ∷ []; scheduled = true }

    flows' : Flows
    flows' = put_flow s.flows flow entry'

    P : List EgressFlowId → Type 0
    P ready =
        IsScheduled
          (record { flows = flows'; ready = ready; queued_packets = s.queued_packets + 1 })

    new_work : HasWork (some entry')
    new_work = (refl, is_empty-append_one entry.packets packet)

    kept : All (λ k. HasWork (find_flow flows' k)) s.ready
    kept = HasWork-put s.flows flow entry' s.ready new_work inv.working

    count : s.queued_packets + 1 ≡ total_packets flows'
    count = omega (
      arith,
      inv.counted,
      total_packets-put s.flows flow entry',
      length-append entry.packets (packet ∷ []),
      packets_of-flow_or_new (find_flow s.flows flow),
    )
