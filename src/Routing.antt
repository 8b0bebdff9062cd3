-- ===== src/Routing.antt =====
-- routing.rs: prefixes and the table of fixed capacity. An address is a u64, an instant its
-- milliseconds. A table is the list of its slots; `len` is the counter that the code keeps.
pub mod Prefix
pub mod Lookup
pub mod Table
mod Tests
use smolgnet.Base.{
  ℕ, ◌+◌, ◌-◌, ◌^◌, min, bit_and, Bool, true, false, not, ◌&&◌, ◌||◌, List, [], ◌∷◌,
}
use smolgnet.Base.{Option, none, some, ltb, ◌==◌, if◌then◌else◌, replicate}
use smolgnet.Base.Words.{shl64}

pub record GdpPrefix : Type 0 where
  pub network : ℕ
  pub prefix_len : ℕ

-- The length is a u8 below 65 here: `64 - prefix_len` does not go below 0.
unfoldable pub prefix_mask : ℕ → ℕ
prefix_mask prefix_len = if prefix_len == 0 then 0 else shl64 (2 ^ 64 - 1) (64 - prefix_len)

-- `none` is `PrefixLengthError`.
unfoldable pub prefix_new : ℕ → ℕ → Option GdpPrefix
unfolding prefix_mask
prefix_new address prefix_len =
    if ltb 64 prefix_len
    then none
    else some
        (record { network = bit_and address (prefix_mask prefix_len); prefix_len = prefix_len })

unfoldable pub contains : GdpPrefix → ℕ → Bool
contains p address = bit_and address (prefix_mask p.prefix_len) == p.network

unfoldable pub default_prefix : GdpPrefix
default_prefix = record { network = 0; prefix_len = 0 }

abbrev pub same_prefix : GdpPrefix → GdpPrefix → Bool
same_prefix p q = p.network == q.network && p.prefix_len == q.prefix_len

pub record Route : Type 0 where
  pub prefix : GdpPrefix
  pub via_router : ℕ
  pub preferred_until : Option ℕ
  pub expires_at : Option ℕ

unfoldable pub route_new : GdpPrefix → ℕ → Route
route_new prefix via_router = record {
  prefix = prefix;
  via_router = via_router;
  preferred_until = none;
  expires_at = none;
}

unfoldable pub new_default : ℕ → Route
unfolding route_new
new_default via_router = route_new default_prefix via_router

abbrev pub is_default : Route → Bool
is_default route = route.prefix.prefix_len == 0

expires_before : Option ℕ → ℕ → Bool
expires_before none now = false
expires_before (some expires_at) now = ltb expires_at now

unfoldable pub is_expired : Route → ℕ → Bool
unfolding expires_before
is_expired route now = expires_before route.expires_at now

pub record RouteTable : Type 0 where
  pub routes : List (Option Route)
  pub len : ℕ

unfoldable pub table_new : ℕ → RouteTable
table_new capacity = record { routes = replicate capacity none; len = 0 }

-- The first empty slot takes the route; `none` is a full table.
unfoldable pub fill : List (Option Route) → Route → Option (List (Option Route))
fill [] route = none
fill (none ∷ routes) route = some (some route ∷ routes)
fill (some other ∷ routes) route = elim (fill routes route) [
  | none ↦ none
  | some filled ↦ some (some other ∷ filled)
]

-- Whether the table took the route stands beside it: `false` is `RouteTableFull`.
unfoldable pub add : RouteTable → Route → RouteTable × Bool
unfolding fill
add t route = elim (fill t.routes route) [
  | none ↦ (t, false)
  | some filled ↦ (record { routes = filled; len = t.len + 1 }, true)
]

unfoldable pub take_out : List (Option Route) → GdpPrefix → Option (Route × List (Option Route))
take_out [] prefix = none
take_out (none ∷ routes) prefix = elim (take_out routes prefix) [
  | none ↦ none
  | some (found, rest) ↦ some (found, none ∷ rest)
]
take_out (some route ∷ routes) prefix =
    let later = take_out routes prefix in
    if same_prefix route.prefix prefix
    then some (route, none ∷ routes)
    else elim later [ none ↦ none | some (found, rest) ↦ some (found, some route ∷ rest) ]

unfoldable pub remove : RouteTable → GdpPrefix → RouteTable × Option Route
unfolding take_out
remove t prefix = elim (take_out t.routes prefix) [
  | none ↦ (t, none)
  | some (found, rest) ↦ (record { routes = rest; len = t.len - 1 }, some found)
]

unfoldable pub remove_default_route : RouteTable → RouteTable × Option Route
remove_default_route t = remove t default_prefix

put_back : RouteTable → Option Route → RouteTable
unfolding add
put_back t none = t
put_back t (some old) = (add t old).0

-- The old default beside the table, or `none` for a full table, where the old one is put back.
unfoldable pub add_default_route : RouteTable → ℕ → RouteTable × Option (Option Route)
unfolding add put_back remove_default_route
add_default_route t via_router =
    let (without, old) = remove_default_route t in
    let (added, took) = add without (new_default via_router) in
    if took then (added, some old) else (put_back added old, none)

unfoldable pub find_default : List (Option Route) → Option Route
find_default [] = none
find_default (none ∷ routes) = find_default routes
find_default (some route ∷ routes) =
    let later = find_default routes in if is_default route then some route else later

unfoldable pub get_default_route : RouteTable → Option Route
get_default_route t = find_default t.routes

-- The test that the loop of `lookup` makes of a route.
unfoldable pub is_match : ℕ → ℕ → Route → Bool
is_match destination now route =
    not (is_expired route now || not (contains route.prefix destination))

is_longer : Route → Option Route → Bool
is_longer route none = true
is_longer route (some current) = ltb current.prefix.prefix_len route.prefix.prefix_len

unfoldable pub best_route : ℕ → ℕ → Option Route → List (Option Route) → Option Route
unfolding is_longer
best_route destination now best [] = best
best_route destination now best (none ∷ routes) = best_route destination now best routes
best_route destination now best (some route ∷ routes) =
    best_route destination now
      (if is_match destination now route && is_longer route best then some route else best) routes

via : Option Route → Option ℕ
via none = none
via (some route) = some route.via_router

unfoldable pub lookup : RouteTable → ℕ → ℕ → Option ℕ
unfolding via
lookup t destination now = via (best_route destination now none t.routes)

earlier : Option ℕ → Option ℕ → Option ℕ
earlier none b = b
earlier (some a) none = some a
earlier (some a) (some b) = some (min a b)

unfoldable pub earliest : List (Option Route) → Option ℕ
unfolding earlier
earliest [] = none
earliest (none ∷ routes) = earliest routes
earliest (some route ∷ routes) = earlier route.expires_at (earliest routes)

unfoldable pub next_expiry : RouteTable → Option ℕ
next_expiry t = earliest t.routes

unfoldable pub prune : List (Option Route) → ℕ → List (Option Route) × ℕ
prune [] now = ([], 0)
prune (none ∷ routes) now = let (rest, removed) = prune routes now in (none ∷ rest, removed)
prune (some route ∷ routes) now =
    let (rest, removed) = prune routes now in
    if is_expired route now then (none ∷ rest, removed + 1) else (some route ∷ rest, removed)

unfoldable pub prune_expired : RouteTable → ℕ → RouteTable × ℕ
unfolding prune
prune_expired t now =
    let (rest, removed) = prune t.routes now in
    (record { routes = rest; len = t.len - removed }, removed)
