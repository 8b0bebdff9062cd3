-- ===== src/Egress.antt =====
-- egress_scheduler.rs: `RouterEgressScheduler`. The map of the flows is the list of its entries, one
-- for each key; nothing reads their order. `none` is a panic: an `expect` that does not hold.
pub mod Flows
pub mod Invariant
pub mod Admitted
pub mod Round
mod Tests
use smolgnet.Base.{
  ℕ, zero, suc, ◌+◌, ◌-◌, Bool, true, false, ◌&&◌, List, [], ◌∷◌, ◌++◌, Option, none, some,
}
use smolgnet.Base.{◌==◌, ◌!=◌, if◌then◌else◌}
use smolgnet.Base.Results.{Result, ok, err, invalid_state}
use smolgnet.Wire.Gdp.Packet.{GdpPacket}
use smolgnet.Dlp.{VcMode, two, four}
use smolgnet.Dlp.Endpoint.{queued_data_flits}
use smolgnet.Dlp.Link.{DlpLink, queue_data_packet}

pub record EgressFlowId : Type 0 where
  pub source : ℕ
  pub destination : ℕ
  pub transport : ℕ

abbrev pub same_flow : EgressFlowId → EgressFlowId → Bool
same_flow a b =
    a.source == b.source && (a.destination == b.destination && a.transport == b.transport)

pub record FlowQueue : Type 0 where
  pub packets : List GdpPacket
  pub scheduled : Bool

abbrev pub Flows : Type 0
Flows = List (EgressFlowId × FlowQueue)

pub record RouterEgressScheduler : Type 0 where
  pub flows : Flows
  pub ready : List EgressFlowId
  pub queued_packets : ℕ

unfoldable pub new : RouterEgressScheduler
new = record { flows = []; ready = []; queued_packets = 0 }

-- `get_mut`, `entry` with `insert`, and `remove` of the map.
unfoldable pub find_flow : Flows → EgressFlowId → Option FlowQueue
find_flow [] id = none
find_flow ((key, q) ∷ flows) id =
    let later = find_flow flows id in if same_flow key id then some q else later

unfoldable pub put_flow : Flows → EgressFlowId → FlowQueue → Flows
put_flow [] id q = (id, q) ∷ []
put_flow ((key, old) ∷ flows) id q =
    let later = put_flow flows id q in
    if same_flow key id then (key, q) ∷ flows else (key, old) ∷ later

unfoldable pub drop_flow : Flows → EgressFlowId → Flows
drop_flow [] id = []
drop_flow ((key, q) ∷ flows) id =
    let later = drop_flow flows id in if same_flow key id then flows else (key, q) ∷ later

abbrev pub flow_or_new : Option FlowQueue → FlowQueue
flow_or_new none = record { packets = []; scheduled = false }
flow_or_new (some q) = q

unfoldable pub enqueue : RouterEgressScheduler → EgressFlowId → GdpPacket → RouterEgressScheduler
enqueue s flow packet =
    let entry = flow_or_new (find_flow s.flows flow) in
    record {
      flows =
          put_flow s.flows flow
            (record { packets = entry.packets ++ packet ∷ []; scheduled = true });
      ready = if entry.scheduled then s.ready else s.ready ++ flow ∷ [];
      queued_packets = s.queued_packets + 1;
    }

unfoldable pub round_capacity : VcMode → ℕ
round_capacity two = 1
round_capacity four = 3

-- The flow after its packet is admitted: back at the tail if it still has work, and gone if not.
unfoldable pub readmit :
    RouterEgressScheduler → EgressFlowId → List GdpPacket → RouterEgressScheduler
readmit s id [] = record s { flows = drop_flow s.flows id; queued_packets = s.queued_packets - 1 }
readmit s id (packet ∷ packets) = record s {
  flows = put_flow s.flows id (record { packets = packet ∷ packets; scheduled = true });
  ready = s.ready ++ id ∷ [];
  queued_packets = s.queued_packets - 1;
}

-- The scheduler without the packet that it presents to the link.
unfoldable pub present :
    RouterEgressScheduler
    → EgressFlowId
    → List EgressFlowId
    → List GdpPacket
    → RouterEgressScheduler
present s id rest packets = record s {
  flows = put_flow s.flows id (record { packets = packets; scheduled = false });
  ready = rest;
}

abbrev pub Round : Type 0
Round = RouterEgressScheduler × DlpLink × Result ℕ

-- The `while` loop, on the capacity that is left. A packet that the link refuses is not put back.
unfoldable pub admit : ℕ → RouterEgressScheduler → DlpLink → ℕ → Option Round
unfolding readmit present
admit zero s link admitted = some (s, link, ok admitted)
admit (suc room) s link admitted = elim s.ready [
  | [] ↦ some (s, link, ok admitted)
  | id ∷ rest ↦ elim (find_flow s.flows id) [
    | none ↦ none
    | some q ↦ elim q.packets [
      | [] ↦ none
      | packet ∷ packets ↦
          let presented = present s id rest packets in
          let (link', queued) = queue_data_packet link packet in
          elim queued [
            | err x ↦ some (presented, link', err x)
            | ok n ↦ admit room (readmit presented id packets) link' (admitted + 1)
          ]
    ]
  ]
]

unfoldable pub schedule_round : RouterEgressScheduler → DlpLink → Option Round
unfolding admit
schedule_round s link =
    if queued_data_flits link.endpoint != 0
    then some (s, link, err invalid_state)
    else admit (round_capacity link.endpoint.vc_mode) s link 0
