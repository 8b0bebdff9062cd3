-- ===== src/Egress/Flows.antt =====
-- egress_scheduler.rs: the flow map, and what an entry changes of it.
use smolgnet.Base.{ℕ, ◌+◌, ◌≡◌, refl, sym, ap, ◌∙◌, arith, true, false}
use smolgnet.Base.{[], ◌∷◌, Option, none, some, length, inl, inr, Bool-cases}
use smolgnet.Base.{if_true, if_false}
use smolgnet.Egress.{EgressFlowId, same_flow, FlowQueue, Flows, find_flow, put_flow, drop_flow}

pub find_flow-here :
    (key k : EgressFlowId) (old : FlowQueue) (flows : Flows)
    → same_flow key k ≡ true
    → find_flow ((key, old) ∷ flows) k ≡ some old
unfolding find_flow
find_flow-here key k old flows h = if_true (λ o. o ≡ some old) (same_flow key k) _ _ h refl

pub find_flow-later :
    (key k : EgressFlowId) (old : FlowQueue) (flows : Flows)
    → same_flow key k ≡ false
    → find_flow ((key, old) ∷ flows) k ≡ find_flow flows k
unfolding find_flow
find_flow-later key k old flows h =
    if_false (λ o. o ≡ find_flow flows k) (same_flow key k) _ _ h refl

pub find_flow-put_same :
    (flows : Flows) (id : EgressFlowId) (q : FlowQueue)
    → find_flow (put_flow flows id q) id ≡ some q
unfolding put_flow
find_flow-put_same [] id q = find_flow-here id id q [] (ground arith)
find_flow-put_same ((key, old) ∷ flows) id q = elim (Bool-cases (same_flow key id)) [
  | inl same ↦
      if_true (λ (f : Flows). find_flow f id ≡ some q) (same_flow key id) _ _ same
        (find_flow-here key id q flows same)
  | inr other ↦
      if_false (λ (f : Flows). find_flow f id ≡ some q) (same_flow key id) _ _ other
        (find_flow-later key id old (put_flow flows id q) other ∙ find_flow-put_same flows id q)
]

pub same_flow_trans :
    (a b c : EgressFlowId) → same_flow a b ≡ true → same_flow b c ≡ false → same_flow a c ≡ false
same_flow_trans a b c h g = ground (arith, h, g)

pub find_flow-put_other :
    (flows : Flows) (id k : EgressFlowId) (q : FlowQueue)
    → same_flow id k ≡ false
    → find_flow (put_flow flows id q) k ≡ find_flow flows k
unfolding put_flow
find_flow-put_other [] id k q h = find_flow-later id k q [] h
find_flow-put_other ((key, old) ∷ flows) id k q h = elim (Bool-cases (same_flow key id)) [
  | inl same ↦ if_true P (same_flow key id) _ _ same (
      find_flow-later key k q flows (same_flow_trans key id k same h)
      ∙ sym (find_flow-later key k old flows (same_flow_trans key id k same h)))
  | inr other ↦ if_false P (same_flow key id) _ _ other (elim (Bool-cases (same_flow key k)) [
    | inl here ↦
        find_flow-here key k old (put_flow flows id q) here
        ∙ sym (find_flow-here key k old flows here)
    | inr later ↦
        find_flow-later key k old (put_flow flows id q) later
        ∙ find_flow-put_other flows id k q h
        ∙ sym (find_flow-later key k old flows later)
  ])
]
  where
    P : Flows → Type 0
    P f = find_flow f k ≡ find_flow ((key, old) ∷ flows) k

pub find_flow-drop_other :
    (flows : Flows) (id k : EgressFlowId)
    → same_flow id k ≡ false
    → find_flow (drop_flow flows id) k ≡ find_flow flows k
unfolding drop_flow
find_flow-drop_other [] id k h = refl
find_flow-drop_other ((key, old) ∷ flows) id k h = elim (Bool-cases (same_flow key id)) [
  | inl same ↦
      if_true P (same_flow key id) _ _ same
        (sym (find_flow-later key k old flows (same_flow_trans key id k same h)))
  | inr other ↦ if_false P (same_flow key id) _ _ other (elim (Bool-cases (same_flow key k)) [
    | inl here ↦
        find_flow-here key k old (drop_flow flows id) here
        ∙ sym (find_flow-here key k old flows here)
    | inr later ↦
        find_flow-later key k old (drop_flow flows id) later
        ∙ find_flow-drop_other flows id k h
        ∙ sym (find_flow-later key k old flows later)
  ])
]
  where
    P : Flows → Type 0
    P f = find_flow f k ≡ find_flow ((key, old) ∷ flows) k

find_flow-empty : (id : EgressFlowId) → find_flow [] id ≡ none
unfolding find_flow
find_flow-empty id = refl

unfoldable pub packets_of : Option FlowQueue → ℕ
packets_of none = 0
packets_of (some q) = length q.packets

unfoldable pub total_packets : Flows → ℕ
total_packets [] = 0
total_packets (entry ∷ flows) = length entry.1.packets + total_packets flows

pub total_packets-put :
    (flows : Flows) (id : EgressFlowId) (q : FlowQueue)
    → total_packets (put_flow flows id q) + packets_of (find_flow flows id)
      ≡ total_packets flows + length q.packets
unfolding total_packets put_flow packets_of
total_packets-put [] id q = omega (arith, ap packets_of (find_flow-empty id))
total_packets-put ((key, old) ∷ flows) id q = elim (Bool-cases (same_flow key id)) [
  | inl same ↦
      if_true P (same_flow key id) _ _ same
        (omega (arith, ap packets_of (find_flow-here key id old flows same)))
  | inr other ↦ if_false P (same_flow key id) _ _ other (
      omega (
        arith,
        ap packets_of (find_flow-later key id old flows other),
        total_packets-put flows id q,
      ))
]
  where
    P : Flows → Type 0
    P f =
        total_packets f + packets_of (find_flow ((key, old) ∷ flows) id)
        ≡ total_packets ((key, old) ∷ flows) + length q.packets

pub total_packets-drop :
    (flows : Flows) (id : EgressFlowId)
    → total_packets (drop_flow flows id) + packets_of (find_flow flows id) ≡ total_packets flows
unfolding total_packets drop_flow packets_of
total_packets-drop [] id = omega (arith, ap packets_of (find_flow-empty id))
total_packets-drop ((key, old) ∷ flows) id = elim (Bool-cases (same_flow key id)) [
  | inl same ↦
      if_true P (same_flow key id) _ _ same
        (omega (arith, ap packets_of (find_flow-here key id old flows same)))
  | inr other ↦ if_false P (same_flow key id) _ _ other (
      omega (
        arith,
        ap packets_of (find_flow-later key id old flows other),
        total_packets-drop flows id,
      ))
]
  where
    P : Flows → Type 0
    P f =
        total_packets f + packets_of (find_flow ((key, old) ∷ flows) id)
        ≡ total_packets ((key, old) ∷ flows)
