-- ===== src/Dynamic/Adjacency.antt =====
-- router_adjacency.rs: one link's neighbour, its hello messages and its hold time. A method that
-- changes the adjacency returns it beside its answer.
pub mod Hold
pub mod Handshake
use smolgnet.Base.{
  ℕ, ◌≡◌, Bool, true, false, not, ◌&&◌, ◌||◌, Option, none, some, leb, ◌==◌, if◌then◌else◌,
}
use smolgnet.Base.Results.{
  Result, ok, err, guard, ◌>>=◌, ◌>>◌, ◌then_ok◌, invalid_field, unsupported,
}
use smolgnet.Time.{Instant, saturating_duration_since}
use smolgnet.Dynamic.{RouterId, LinkId, RouteMetric}
use smolgnet.Dynamic.Messages.{RouterHello, RoutingGctlMessage, RoutingGctlBody, message}
use smolgnet.Dynamic.Messages.{router_hello, router_hello_ack, route_advertise, route_withdraw}

pub data NeighborState : Type 0 where
  down up : NeighborState

pub record RouterNeighbor : Type 0 where
  pub router_id : RouterId
  pub remote_link_id : LinkId
  pub metric : RouteMetric
  pub hold_time_ms : ℕ
  pub last_seen : Instant
  pub state : NeighborState

pub record RouterAdjacency : Type 0 where
  pub local_router_id : RouterId
  pub local_link_id : LinkId
  pub local_metric : RouteMetric
  pub local_hold_time_ms : ℕ
  pub neighbor : Option RouterNeighbor

unfoldable pub new : RouterId → LinkId → RouteMetric → ℕ → Result RouterAdjacency
new local_router_id local_link_id local_metric local_hold_time_ms = do
  guard (not (local_hold_time_ms == 0)) invalid_field
  ok (record {
    local_router_id = local_router_id;
    local_link_id = local_link_id;
    local_metric = local_metric;
    local_hold_time_ms = local_hold_time_ms;
    neighbor = none;
  })

abbrev pub neighbor_state : Option RouterNeighbor → NeighborState
neighbor_state (some neighbor) = neighbor.state
neighbor_state none = down

-- `RouterAdjacency::state`.
unfoldable pub adjacency_state : RouterAdjacency → NeighborState
adjacency_state a = neighbor_state a.neighbor

unfoldable pub local_hello : RouterAdjacency → RouterHello
local_hello a = record {
  router_id = a.local_router_id;
  link_id = a.local_link_id;
  hold_time_ms = a.local_hold_time_ms;
  metric = a.local_metric;
}

unfoldable pub hello : RouterAdjacency → ℕ → RoutingGctlMessage
unfolding local_hello
hello a transaction_id = message transaction_id (router_hello (local_hello a))

-- The peer of a hello, seen now.
unfoldable pub seen : Instant → RouterHello → RouterNeighbor
seen now peer = record {
  router_id = peer.router_id;
  remote_link_id = peer.link_id;
  metric = peer.metric;
  hold_time_ms = peer.hold_time_ms;
  last_seen = now;
  state = up;
}

unfoldable pub accept_peer :
    RouterAdjacency → Instant → RouterHello → RouterAdjacency × Result (Unit {0})
unfolding seen
accept_peer a now peer =
    (a, guard (not (peer.router_id == a.local_router_id || peer.hold_time_ms == 0)) invalid_field)
    then_ok λ a _. (record a { neighbor = some (seen now peer) }, ok tt)

-- `receive`, by the body of the message.
unfoldable pub receive_body :
    RouterAdjacency
    → Instant
    → ℕ
    → RoutingGctlBody
    → RouterAdjacency × Result (Option RoutingGctlMessage)
unfolding local_hello accept_peer
receive_body a now id (router_hello peer) = accept_peer a now peer then_ok λ a _.
    (a, ok (some (message id (router_hello_ack (local_hello a)))))
receive_body a now id (router_hello_ack peer) = accept_peer a now peer then_ok λ a _. (a, ok none)
receive_body a now id (route_advertise route) = (a, err unsupported)
receive_body a now id (route_withdraw route) = (a, err unsupported)

unfoldable pub receive :
    RouterAdjacency
    → Instant
    → RoutingGctlMessage
    → RouterAdjacency × Result (Option RoutingGctlMessage)
unfolding receive_body
receive a now m = receive_body a now m.transaction_id m.body

-- The hold time of a neighbour has run out.
abbrev pub is_overdue : RouterNeighbor → Instant → Bool
is_overdue neighbor now =
    leb neighbor.hold_time_ms (saturating_duration_since now neighbor.last_seen)

unfoldable pub expire_up :
    RouterAdjacency → Instant → RouterNeighbor → NeighborState → RouterAdjacency × Bool
unfolding saturating_duration_since
expire_up a now neighbor down = (a, false)
expire_up a now neighbor up =
    if is_overdue neighbor now
    then (record a { neighbor = some (record neighbor { state = down }) }, true)
    else (a, false)

unfoldable pub expire_known :
    RouterAdjacency → Instant → Option RouterNeighbor → RouterAdjacency × Bool
unfolding expire_up
expire_known a now none = (a, false)
expire_known a now (some neighbor) = expire_up a now neighbor neighbor.state

unfoldable pub expire : RouterAdjacency → Instant → RouterAdjacency × Bool
unfolding expire_known
expire a now = expire_known a now a.neighbor
