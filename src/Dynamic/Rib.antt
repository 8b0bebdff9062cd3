-- ===== src/Dynamic/Rib.antt =====
-- router_rib.rs: the routes that a router knows, the best of each prefix, and what it tells its
-- neighbours. The set and the map of the standard library, which are ordered by prefix, are lists in
-- that order.
pub mod Order
pub mod Select
pub mod Table
pub mod Removal
pub mod Reachable
pub mod Updates
pub mod Horizon
use smolgnet.Base.{
  ℕ, ◌+◌, Bool, true, false, not, ◌&&◌, ◌||◌, List, [], ◌∷◌, ◌++◌, Option, none, some, map, length,
}
use smolgnet.Base.{ltb, ◌==◌, ◌!=◌, if◌then◌else◌}
use mathlib.Core.Option
use smolgnet.Base.Results.{Result, ok, err, guard, ◌then_ok◌, invalid_field}
use smolgnet.Routing.{GdpPrefix, same_prefix}
use smolgnet.Dynamic.{RouterId, RouteMetric, RouteOrigin, connected, learned, static, escape}
use smolgnet.Dynamic.{same_origin, administrative_preference, metric_add}
use smolgnet.Dynamic.Messages.{RouteAdvertise, RouteWithdraw}

pub record RibRoute : Type 0 where
  pub prefix : GdpPrefix
  pub egress_port : ℕ
  pub origin : RouteOrigin
  pub metric : RouteMetric
  pub learned_from : Option RouterId

pub record SelectedRoute : Type 0 where
  pub prefix : GdpPrefix
  pub egress_port : ℕ
  pub origin : RouteOrigin
  pub metric : RouteMetric
  pub learned_from : Option RouterId

pub data RouteUpdate : Type 0 where
  advertise : RouteAdvertise → RouteUpdate
  withdraw : RouteWithdraw → RouteUpdate

pub record RouterRib : Type 0 where
  pub local_router_id : RouterId
  pub routes : List RibRoute

unfoldable pub new : RouterId → RouterRib
new local_router_id = record { local_router_id = local_router_id; routes = [] }

-- `retain` and `filter` with a Boolean test.
abbrev pub keep {ℓ} : {A : Type ℓ} → (A → Bool) → List A → List A
keep test [] = []
keep test (x ∷ xs) = if test x then x ∷ keep test xs else keep test xs

-- The first route that the test finds is replaced; else the route goes to the end.
unfoldable pub replace_or_push : (RibRoute → Bool) → RibRoute → List RibRoute → List RibRoute
replace_or_push test route [] = route ∷ []
replace_or_push test route (existing ∷ routes) =
    if test existing then route ∷ routes else existing ∷ replace_or_push test route routes

abbrev pub is_from : Option RouterId → RouterId → Bool
is_from none id = false
is_from (some from) id = from == id

abbrev pub is_none : Option RouterId → Bool
is_none none = true
is_none (some from) = false

-- A route to the prefix that was learned from the neighbour.
abbrev pub is_learned : GdpPrefix → RouterId → RibRoute → Bool
is_learned prefix from route =
    same_prefix route.prefix prefix
    && (same_origin route.origin learned && is_from route.learned_from from)

unfoldable pub upsert_local : RouterRib → RibRoute → RouterRib
upsert_local rib route = record rib {
  routes =
      replace_or_push
        (λ existing.
          same_prefix existing.prefix route.prefix
          && (same_origin existing.origin route.origin && is_none existing.learned_from))
        route rib.routes;
}

unfoldable pub add_connected : RouterRib → GdpPrefix → ℕ → RouterRib
unfolding upsert_local
add_connected rib prefix egress_port = upsert_local rib (record {
  prefix = prefix;
  egress_port = egress_port;
  origin = connected;
  metric = 0;
  learned_from = none;
})

unfoldable pub add_static : RouterRib → GdpPrefix → ℕ → RouteMetric → RouterRib
unfolding upsert_local
add_static rib prefix egress_port metric = upsert_local rib (record {
  prefix = prefix;
  egress_port = egress_port;
  origin = static;
  metric = metric;
  learned_from = none;
})

-- The origins that a neighbour may not advertise.
abbrev pub is_private : RouteOrigin → Bool
is_private connected = false
is_private learned = false
is_private static = true
is_private escape = true

abbrev pub learned_route : RouterId → ℕ → RouteAdvertise → RibRoute
learned_route from egress_port advertisement = record {
  prefix = advertisement.prefix;
  egress_port = egress_port;
  origin = learned;
  metric = advertisement.metric;
  learned_from = some from;
}

unfoldable pub receive_advertisement :
    RouterRib → RouterId → ℕ → RouteAdvertise → RouterRib × Result (Unit {0})
receive_advertisement rib from egress_port advertisement =
    (
      rib,
      guard
          (not (
            from == rib.local_router_id
            || (advertisement.advertiser != from || is_private advertisement.origin)))
          invalid_field,
    )
    then_ok λ rib _. (
      record rib {
        routes =
            replace_or_push (is_learned advertisement.prefix from)
              (learned_route from egress_port advertisement) rib.routes;
      },
      ok tt,
    )

unfoldable pub receive_withdrawal : RouterRib → RouterId → RouteWithdraw → RouterRib × Result Bool
receive_withdrawal rib from withdrawal =
    (rib, guard (not (from == rib.local_router_id || withdrawal.advertiser != from)) invalid_field)
    then_ok λ rib _.
        let kept = keep (λ route. not (is_learned withdrawal.prefix from route)) rib.routes in
        (record rib { routes = kept }, ok (length kept != length rib.routes))

-- The order of prefixes: by network, then by length.
abbrev pub prefix_lt : GdpPrefix → GdpPrefix → Bool
prefix_lt p q = ltb p.network q.network || (p.network == q.network && ltb p.prefix_len q.prefix_len)

-- `insert` into a set of prefixes.
unfoldable pub insert_prefix : GdpPrefix → List GdpPrefix → List GdpPrefix
insert_prefix p [] = p ∷ []
insert_prefix p (q ∷ set) =
    let later = insert_prefix p set in
    if same_prefix p q then q ∷ set else if prefix_lt p q then p ∷ q ∷ set else q ∷ later

unfoldable pub prefix_set : List GdpPrefix → List GdpPrefix
unfolding insert_prefix
prefix_set [] = []
prefix_set (p ∷ prefixes) = insert_prefix p (prefix_set prefixes)

abbrev pub is_from_neighbor : RouterId → RibRoute → Bool
is_from_neighbor neighbor route =
    same_origin route.origin learned && is_from route.learned_from neighbor

unfoldable pub remove_learned_from : RouterRib → RouterId → RouterRib × List GdpPrefix
unfolding prefix_set
remove_learned_from rib neighbor = (
  record rib { routes = keep (λ route. not (is_from_neighbor neighbor route)) rib.routes },
  prefix_set
      (map (λ (route : RibRoute). route.prefix) (keep (is_from_neighbor neighbor) rib.routes)),
)

-- `match (candidate.learned_from, current.learned_from)`.
abbrev pub learned_before : Option RouterId → Option RouterId → Bool
learned_before (some candidate) (some current) = ltb candidate current
learned_before none (some current) = true
learned_before candidate none = false

unfoldable pub route_better : RibRoute → RibRoute → Bool
route_better candidate current =
    let candidate_preference = administrative_preference candidate.origin in
    let current_preference = administrative_preference current.origin in
    if candidate_preference != current_preference
    then ltb candidate_preference current_preference
    else if candidate.metric != current.metric
    then ltb candidate.metric current.metric
    else learned_before candidate.learned_from current.learned_from

unfoldable pub selected : RibRoute → SelectedRoute
selected route = record {
  prefix = route.prefix;
  egress_port = route.egress_port;
  origin = route.origin;
  metric = route.metric;
  learned_from = route.learned_from;
}

abbrev pub Winners : Type 0
Winners = List (GdpPrefix × RibRoute)

-- `get` and `insert` of the map.
unfoldable pub get : GdpPrefix → Winners → Option RibRoute
get p [] = none
get p ((q, route) ∷ winners) = if same_prefix p q then some route else get p winners

unfoldable pub insert : GdpPrefix → RibRoute → Winners → Winners
insert p route [] = (p, route) ∷ []
insert p route ((q, other) ∷ winners) =
    let later = insert p route winners in
    if same_prefix p q
    then (p, route) ∷ winners
    else if prefix_lt p q
    then (p, route) ∷ (q, other) ∷ winners
    else (q, other) ∷ later

-- One round of the loop of `selected_routes`.
unfoldable pub consider : Winners → RibRoute → Option RibRoute → Winners
unfolding insert
consider winners route none = insert route.prefix route winners
consider winners route (some current) =
    if route_better route current then insert route.prefix route winners else winners

unfoldable pub winners_of : Winners → List RibRoute → Winners
unfolding get consider
winners_of winners [] = winners
winners_of winners (route ∷ routes) =
    winners_of (consider winners route (get route.prefix winners)) routes

unfoldable pub selected_routes : RouterRib → List SelectedRoute
unfolding winners_of selected
selected_routes rib =
    map (λ (entry : GdpPrefix × RibRoute). selected entry.1) (winners_of [] rib.routes)

unfoldable pub learned_fib : RouterRib → List SelectedRoute
unfolding selected_routes
learned_fib rib =
    keep (λ (route : SelectedRoute). same_origin route.origin learned) (selected_routes rib)

abbrev pub better_of : RibRoute → RibRoute → RibRoute
better_of current candidate = if route_better candidate current then candidate else current

-- `reduce`, from the routes before on.
unfoldable pub reduce_better : Option RibRoute → List RibRoute → Option RibRoute
reduce_better best [] = best
reduce_better none (route ∷ routes) = reduce_better (some route) routes
reduce_better (some best) (route ∷ routes) = reduce_better (some (better_of best route)) routes

abbrev pub is_to : GdpPrefix → RibRoute → Bool
is_to prefix route = same_prefix route.prefix prefix

-- The route that `selected_for_prefix` converts.
unfoldable pub best_for_prefix : List RibRoute → GdpPrefix → Option RibRoute
unfolding reduce_better
best_for_prefix routes prefix = reduce_better none (keep (is_to prefix) routes)

unfoldable pub selected_for_prefix : RouterRib → GdpPrefix → Option SelectedRoute
unfolding best_for_prefix selected
selected_for_prefix rib prefix = Option.map selected (best_for_prefix rib.routes prefix)

unfoldable pub route_is_advertisable_to : SelectedRoute → RouterId → Bool
route_is_advertisable_to route neighbor = elim route.origin [
  | connected ↦ true
  | learned ↦ not (is_from route.learned_from neighbor)
  | static ↦ false
  | escape ↦ false
]

unfoldable pub advertisement : RouterRib → SelectedRoute → RouteMetric → RouteAdvertise
advertisement rib route outgoing_metric = record {
  advertiser = rib.local_router_id;
  prefix = route.prefix;
  origin = route.origin;
  metric = metric_add route.metric outgoing_metric;
}

unfoldable pub advertisements_for : RouterRib → RouterId → RouteMetric → List RouteAdvertise
unfolding selected_routes route_is_advertisable_to advertisement
advertisements_for rib neighbor outgoing_metric =
    map (λ (route : SelectedRoute). advertisement rib route outgoing_metric)
      (keep (λ (route : SelectedRoute). route_is_advertisable_to route neighbor)
        (selected_routes rib))

-- The update for a prefix, by its selected route.
unfoldable pub update_for :
    RouterRib → RouterId → RouteMetric → GdpPrefix → Option SelectedRoute → RouteUpdate
unfolding route_is_advertisable_to advertisement
update_for rib neighbor outgoing_metric prefix none =
    withdraw (record { advertiser = rib.local_router_id; prefix = prefix })
update_for rib neighbor outgoing_metric prefix (some route) =
    if route_is_advertisable_to route neighbor
    then advertise (advertisement rib route outgoing_metric)
    else withdraw (record { advertiser = rib.local_router_id; prefix = prefix })

unfoldable pub updates_for : RouterRib → RouterId → RouteMetric → List GdpPrefix → List RouteUpdate
unfolding prefix_set update_for selected_for_prefix
updates_for rib neighbor outgoing_metric changed_prefixes =
    map
      (λ (prefix : GdpPrefix).
        update_for rib neighbor outgoing_metric prefix (selected_for_prefix rib prefix))
      (prefix_set changed_prefixes)
