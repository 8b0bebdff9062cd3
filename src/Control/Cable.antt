-- ===== src/Control/Cable.antt =====
-- dlp_control.rs: `DlpDirectCable`, which carries the frames and flits of two managed endpoints.
pub mod Rounds
use smolgnet.Base.{
  ℕ, zero, suc, ◌+◌, Bool, true, false, not, ◌&&◌, ◌||◌, List, Option, none, some, ◌==◌, leb,
  if◌then◌else◌,
}
use smolgnet.Base.Results.{Result, ok, err, guard, ◌then_ok◌, invalid_state, no_credit, buffer_full}
use smolgnet.Dlp.{Flit, is_control}
use smolgnet.Dlp.Endpoint.{grant_control_tx_credit}
use smolgnet.Endpoint.{LinkOps}
use smolgnet.Control.Managed.{is_down, is_credit_sync, is_up, DlpManagedEndpoint}
use smolgnet.Control.Managed.Queue.{poll_control, data_path_active}
use smolgnet.Control.Managed.Hello.{carrier_up}
use smolgnet.Control.Managed.Session.{receive_control}
use smolgnet.Control.Managed.Traffic.{
  bind_credit_peer, finish_credit_sync, managed_poll_tx_flit, managed_receive_flit,
}

-- The cable, and the two ends that every method of it is given.
pub record DlpDirectCable (E : Type 0) : Type 0 where
  pub carrier : Bool
  pub credit_bound : Bool
  pub a : DlpManagedEndpoint E
  pub b : DlpManagedEndpoint E

module _ {E : Type 0} where
  unfoldable pub cable_new : DlpManagedEndpoint E → DlpManagedEndpoint E → DlpDirectCable E
  cable_new a b = record { carrier = false; credit_bound = false; a = a; b = b }

  unfoldable pub both_up : DlpDirectCable E → Bool
  both_up c = is_up c.a.state && is_up c.b.state

  unfoldable pub both_ready_for_credit : DlpDirectCable E → Bool
  both_ready_for_credit c =
      (is_credit_sync c.a.state || is_up c.a.state) && (is_credit_sync c.b.state || is_up c.b.state)

  -- A method of one end, called by the cable.
  abbrev pub on_a :
      {A : Type 0}
      → DlpDirectCable E
      → DlpManagedEndpoint E × Result A
      → DlpDirectCable E × Result A
  on_a c (m, r) = (record c { a = m }, r)

  abbrev pub on_b :
      {A : Type 0}
      → DlpDirectCable E
      → DlpManagedEndpoint E × Result A
      → DlpDirectCable E × Result A
  on_b c (m, r) = (record c { b = m }, r)

module _ {E : Type 0} (ops : LinkOps E) where
  open ops use {dlp, set_dlp, link_local_address}

  -- `if let Some(frame) = a.poll_control() { b.receive_control(&frame)?; }`, and whether it did.
  unfoldable pub control_to_b :
      DlpDirectCable E → DlpManagedEndpoint E × Option (List ℕ) → DlpDirectCable E × Result Bool
  control_to_b c (a, none) = (record c { a = a }, ok false)
  control_to_b c (a, some frame) =
      on_b (record c { a = a }) (receive_control ops c.b frame) then_ok λ c _. (c, ok true)

  unfoldable pub control_to_a :
      DlpDirectCable E → DlpManagedEndpoint E × Option (List ℕ) → DlpDirectCable E × Result Bool
  control_to_a c (b, none) = (record c { b = b }, ok false)
  control_to_a c (b, some frame) =
      on_a (record c { b = b }) (receive_control ops c.a frame) then_ok λ c _. (c, ok true)

  unfoldable pub pump_control : DlpDirectCable E → DlpDirectCable E × Result Bool
  unfolding control_to_b control_to_a
  pump_control c = control_to_b c (poll_control c.a) then_ok λ c first.
      control_to_a c (poll_control c.b) then_ok λ c second. (c, ok (first || second))

  -- `sender.dlp_mut().grant_control_tx_credit(1)`, for a flit of the control channel.
  unfoldable pub repay : DlpManagedEndpoint E → Flit → DlpManagedEndpoint E
  repay m flit =
      if is_control flit.vcid
      then record m { endpoint = set_dlp m.endpoint (grant_control_tx_credit (dlp m.endpoint) 1) }
      else m

  -- The `match` on what the sender has to send: a want of credit is no progress.
  unfoldable pub pump_flit :
      DlpManagedEndpoint E × Result (Option Flit)
      → DlpManagedEndpoint E
      → ℕ
      → (DlpManagedEndpoint E × DlpManagedEndpoint E) × Result Bool
  unfolding repay
  pump_flit (sender, ok none) receiver now = ((sender, receiver), ok false)
  pump_flit (sender, err no_credit) receiver now = ((sender, receiver), ok false)
  pump_flit (sender, err e) receiver now = ((sender, receiver), err e)
  pump_flit (sender, ok (some flit)) receiver now =
      let (receiver', r) = managed_receive_flit ops receiver flit now in
      ((sender, receiver'), r) then_ok λ ends _. ((repay ends.0 flit, ends.1), ok true)

  unfoldable pub pump_data_direction :
      DlpManagedEndpoint E
      → DlpManagedEndpoint E
      → ℕ
      → (DlpManagedEndpoint E × DlpManagedEndpoint E) × Result Bool
  unfolding pump_flit
  pump_data_direction sender receiver now =
      if not (data_path_active sender) || not (data_path_active receiver)
      then ((sender, receiver), ok false)
      else pump_flit (managed_poll_tx_flit ops sender) receiver now

  unfoldable pub pump_data_once : DlpDirectCable E → ℕ → DlpDirectCable E × Result Bool
  unfolding pump_data_direction
  pump_data_once c now =
      let (there, first) = pump_data_direction c.a c.b now in
      (record c { a = there.0; b = there.1 }, first) then_ok λ c first.
      let (back, second) = pump_data_direction c.b c.a now in
      (record c { a = back.1; b = back.0 }, second) then_ok λ c second. (c, ok (first || second))

  -- The loop that exchanges control frames until both ends wait for credit.
  unfoldable pub negotiate_loop : ℕ → DlpDirectCable E → DlpDirectCable E × Result (Unit {0})
  unfolding pump_control
  negotiate_loop zero c = (c, ok tt)
  negotiate_loop (suc rounds) c = pump_control c then_ok λ c progress.
      elim (both_ready_for_credit c) [
        | true ↦ (c, ok tt)
        | false ↦ elim progress [ true ↦ negotiate_loop rounds c | false ↦ (c, err invalid_state) ]
      ]

  abbrev pub has_credit : DlpManagedEndpoint E → Bool
  has_credit m = not ((dlp m.endpoint).data_tx_credit == 0)

  -- The loop that exchanges flits until both ends have credit.
  unfoldable pub credit_loop : ℕ → DlpDirectCable E → DlpDirectCable E × Result (Unit {0})
  unfolding pump_data_once
  credit_loop zero c = (c, ok tt)
  credit_loop (suc rounds) c = elim (has_credit c.a && has_credit c.b) [
    | true ↦ (c, ok tt)
    | false ↦ pump_data_once c 0 then_ok λ c progress. elim progress [
      | true ↦ credit_loop rounds c
      | false ↦ (c, err invalid_state)
    ]
  ]

  unfoldable pub raise_a : DlpDirectCable E → DlpDirectCable E × Result (Unit {0})
  raise_a c = if is_down c.a.state then on_a c (carrier_up ops c.a) else (c, ok tt)

  unfoldable pub raise_b : DlpDirectCable E → DlpDirectCable E × Result (Unit {0})
  raise_b c = if is_down c.b.state then on_b c (carrier_up ops c.b) else (c, ok tt)

  unfoldable pub raise_carrier : DlpDirectCable E → DlpDirectCable E × Result (Unit {0})
  unfolding raise_a raise_b
  raise_carrier c =
      if c.carrier
      then (c, ok tt)
      else raise_a c then_ok λ c _. raise_b c then_ok λ c _. (record c { carrier = true }, ok tt)

  unfoldable pub negotiate_ends : DlpDirectCable E → DlpDirectCable E × Result (Unit {0})
  unfolding negotiate_loop
  negotiate_ends c =
      if both_ready_for_credit c
      then (c, ok tt)
      else negotiate_loop 512 (record c { credit_bound = false })

  unfoldable pub bind_a : DlpDirectCable E → DlpDirectCable E × Result (Unit {0})
  bind_a c =
      if is_credit_sync c.a.state
      then on_a c (bind_credit_peer ops c.a (link_local_address c.b.endpoint))
      else (c, ok tt)

  -- `b_peer` is read before `a` is bound.
  unfoldable pub bind_b :
      DlpDirectCable E → DlpManagedEndpoint E → DlpDirectCable E × Result (Unit {0})
  bind_b c a =
      if is_credit_sync c.b.state
      then on_b c (bind_credit_peer ops c.b (link_local_address a.endpoint))
      else (c, ok tt)

  unfoldable pub finish_a : DlpDirectCable E → DlpDirectCable E × Result (Unit {0})
  finish_a c = if is_credit_sync c.a.state then on_a c (finish_credit_sync ops c.a) else (c, ok tt)

  unfoldable pub finish_b : DlpDirectCable E → DlpDirectCable E × Result (Unit {0})
  finish_b c = if is_credit_sync c.b.state then on_b c (finish_credit_sync ops c.b) else (c, ok tt)

  unfoldable pub bind_credit : DlpDirectCable E → DlpDirectCable E × Result (Unit {0})
  unfolding bind_a bind_b finish_a finish_b credit_loop
  bind_credit c =
      if c.credit_bound
      then (c, ok tt)
      else let first = c.a in
        bind_a c then_ok λ c _. bind_b c first then_ok λ c _.
        credit_loop 512 (record c { credit_bound = true }) then_ok λ c _.
        (c, guard (has_credit c.a && has_credit c.b) no_credit) then_ok λ c _.
        finish_a c then_ok λ c _. finish_b c

  unfoldable pub attach : DlpDirectCable E → DlpDirectCable E × Result (Unit {0})
  unfolding raise_carrier negotiate_ends bind_credit
  attach c = raise_carrier c then_ok λ c _. negotiate_ends c then_ok λ c _.
      (c, guard (both_ready_for_credit c) invalid_state) then_ok λ c _.
      bind_credit c then_ok λ c _. (c, guard (both_up c) invalid_state)

  -- What a round of `pump` does when a control frame has moved.
  unfoldable pub reattach : DlpDirectCable E → DlpDirectCable E × Result (Unit {0})
  unfolding attach
  reattach c = if both_up c then (c, ok tt) else attach (record c { credit_bound = false })

  -- `if Self::pump_control(a, b)? { … }`: what has moved, and whether there was progress.
  unfoldable pub pump_control_part : DlpDirectCable E → ℕ → DlpDirectCable E × Result (ℕ × Bool)
  unfolding reattach
  pump_control_part c moved = pump_control c then_ok λ c control.
      if control
      then (reattach c then_ok λ c _. (c, ok (moved + 1, true)))
      else (c, ok (moved, false))

  -- `if Self::pump_data_once(a, b, now)? { … }`, after the part above.
  unfoldable pub pump_data_part :
      DlpDirectCable E → ℕ → ℕ → Bool → DlpDirectCable E × Result (ℕ × Bool)
  pump_data_part c now moved progress = pump_data_once c now then_ok λ c flits.
      if flits then (c, ok (moved + 1, true)) else (c, ok (moved, progress))

  -- The body of the loop of `pump` behind its test of the limit.
  unfoldable pub pump_round : DlpDirectCable E → ℕ → ℕ → DlpDirectCable E × Result (ℕ × Bool)
  unfolding pump_control_part pump_data_part
  pump_round c now moved =
      pump_control_part c moved then_ok λ c part. pump_data_part c now part.0 part.1

  -- The loop of `pump`, on fuel for its rounds. Without fuel the cable is as it was.
  unfoldable pub pump_loop : ℕ → DlpDirectCable E → ℕ → ℕ → ℕ → DlpDirectCable E × Result ℕ
  unfolding pump_round
  pump_loop zero c now max_transfers moved = (c, ok moved)
  pump_loop (suc fuel) c now max_transfers moved = elim (leb max_transfers moved) [
    | true ↦ (c, err buffer_full)
    | false ↦ pump_round c now moved then_ok λ c part. elim part.1 [
      | false ↦ (c, ok part.0)
      | true ↦ pump_loop fuel c now max_transfers part.0
    ]
  ]

  unfoldable pub pump : DlpDirectCable E → ℕ → ℕ → DlpDirectCable E × Result ℕ
  unfolding reattach pump_loop
  pump c now max_transfers =
      attach (if both_up c then c else record c { credit_bound = false }) then_ok λ c _.
      pump_loop (suc max_transfers) c now max_transfers 0
