-- ===== src/Control/Agreement/Line.antt =====
-- dlp_control.rs: two managed endpoints, the frames between them, and the states they reach.
use smolgnet.Base.{ℕ, ◌≡◌, List, [], ◌∷◌, Option, none, some}
use smolgnet.Base.Results.{ok}
use smolgnet.Wire.Gdp.{GdpAddress}
use smolgnet.Dlp.{Flit, GnetFrame}
use smolgnet.Endpoint.{EndpointConfig, LinkOps}
use smolgnet.Control.Managed.{DlpManagedEndpoint}
use smolgnet.Control.Managed.Queue.{poll_control}
use smolgnet.Control.Managed.Hello.{new, carrier_up, carrier_down, request_reset}
use smolgnet.Control.Managed.Session.{receive_control}
use smolgnet.Control.Managed.Traffic.{
  managed_poll_tx_flit, managed_poll_tx_frame, managed_receive_flit, managed_receive_frame,
  bind_credit_peer, finish_credit_sync,
}

-- The frames that have been sent one way. They stay: each may arrive later, again, or never.
pub record Line (E : Type 0) : Type 0 where
  pub a : DlpManagedEndpoint E
  pub b : DlpManagedEndpoint E
  pub to_a : List (List ℕ)
  pub to_b : List (List ℕ)

unfoldable pub sent : List (List ℕ) → Option (List ℕ) → List (List ℕ)
sent wire none = wire
sent wire (some bytes) = bytes ∷ wire

-- A frame of the wire.
pub data IsOn (bytes : List ℕ) : List (List ℕ) → Type 0 where
  last : {wire : List (List ℕ)} → IsOn bytes (bytes ∷ wire)
  earlier : {wire : List (List ℕ)} (other : List ℕ) → IsOn bytes wire → IsOn bytes (other ∷ wire)

module _ {E : Type 0} (ops : LinkOps E) where
  -- The calls of one end that bring it no control frame; `work` is any work of the endpoint itself.
  pub data LocalStep : DlpManagedEndpoint E → DlpManagedEndpoint E → Type 0 where
    raise : {m : DlpManagedEndpoint E} → LocalStep m (carrier_up ops m).0
    lower : {m : DlpManagedEndpoint E} → LocalStep m (carrier_down ops m)
    reset_link :
        {m : DlpManagedEndpoint E} (reason : ℕ) → LocalStep m (request_reset ops m reason).0
    send_flit : {m : DlpManagedEndpoint E} → LocalStep m (managed_poll_tx_flit ops m).0
    send_frame : {m : DlpManagedEndpoint E} → LocalStep m (managed_poll_tx_frame ops m).0
    take_flit :
        {m : DlpManagedEndpoint E} (flit : Flit) (now : ℕ)
        → LocalStep m (managed_receive_flit ops m flit now).0
    take_frame :
        {m : DlpManagedEndpoint E} (frame : GnetFrame) (now : ℕ)
        → LocalStep m (managed_receive_frame ops m frame now).0
    bind :
        {m : DlpManagedEndpoint E} (peer : GdpAddress) → LocalStep m (bind_credit_peer ops m peer).0
    finish : {m : DlpManagedEndpoint E} → LocalStep m (finish_credit_sync ops m).0
    work : {m : DlpManagedEndpoint E} (e : E) → LocalStep m (record m { endpoint = e })

  -- Two new ends, and any calls and deliveries after that.
  pub data Reachable : Line E → Type 0 where
    start :
        (a b : DlpManagedEndpoint E) (address_a address_b : GdpAddress)
        (config_a config_b : EndpointConfig) (burst_a burst_b : ℕ)
        → new ops address_a config_a burst_a ≡ ok a
        → new ops address_b config_b burst_b ≡ ok b
        → Reachable (record { a = a; b = b; to_a = []; to_b = [] })
    local_a :
        (s : Line E) (m : DlpManagedEndpoint E)
        → Reachable s
        → LocalStep s.a m
        → Reachable (record s { a = m })
    local_b :
        (s : Line E) (m : DlpManagedEndpoint E)
        → Reachable s
        → LocalStep s.b m
        → Reachable (record s { b = m })
    send_a :
        (s : Line E)
        → Reachable s
        → Reachable (record s { a = (poll_control s.a).0; to_b = sent s.to_b (poll_control s.a).1 })
    send_b :
        (s : Line E)
        → Reachable s
        → Reachable (record s { b = (poll_control s.b).0; to_a = sent s.to_a (poll_control s.b).1 })
    arrive_a :
        (s : Line E) (bytes : List ℕ)
        → Reachable s
        → IsOn bytes s.to_a
        → Reachable (record s { a = (receive_control ops s.a bytes).0 })
    arrive_b :
        (s : Line E) (bytes : List ℕ)
        → Reachable s
        → IsOn bytes s.to_b
        → Reachable (record s { b = (receive_control ops s.b bytes).0 })
