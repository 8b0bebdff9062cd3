-- ===== src/Dynamic/Tests.antt =====
-- dynamic_routing.rs, router_adjacency.rs and router_rib.rs: the theorems at concrete routers.
use smolgnet.Base.{
  ◌≡◌, ◌≢◌, ◌↔◌, ◌⊎◌, refl, inl, arith, List, [], ◌∷◌, none, some, length, All, if◌then◌else◌,
}
use smolgnet.Base.Results.{ok, err, invalid_field}
use smolgnet.Routing.{GdpPrefix, prefix_new}
use smolgnet.Dynamic.{connected}
use smolgnet.Dynamic.Messages.{
  RouteAdvertise, RoutingGctlMessage, router_hello, route_advertise, message, encode, decode,
}
use smolgnet.Dynamic.Messages.RoundTrip.{IsBody, IsHello, decode-encode_message}
use smolgnet.Dynamic.Adjacency.{RouterAdjacency, seen, local_hello, hello, adjacency_state, up}
use smolgnet.Dynamic.Adjacency.Hold.{
  Event, heard, checked, run, IsOrdered, IsAlive, last_heard, expire-iff-IsAlive,
}
use smolgnet.Dynamic.Adjacency.Handshake.{deliver, deliver-hello}
use smolgnet.Dynamic.Rib.{
  RouterRib, new, add_connected, receive_advertisement, remove_learned_from, learned_route,
}
use smolgnet.Dynamic.Rib.{best_for_prefix, advertisements_for, updates_for, replace_or_push}
use smolgnet.Dynamic.Rib.Select.{Answers, best_for_prefix-Answers}
use smolgnet.Dynamic.Rib.Table.{IsTidy, IsStored, IsForeign, receive_advertisement-IsStored}
use smolgnet.Dynamic.Rib.Removal.{IsRemoved, mem_prefix, remove_learned_from-IsRemoved}
use smolgnet.Dynamic.Rib.Reachable.{start, next, connect, advertised, Reachable-IsTidy}
use smolgnet.Dynamic.Rib.Updates.{find_advert, find_update, update_of, find_update-updates_for}
use smolgnet.Dynamic.Rib.Horizon.{IsHidden, find_advert-IsHidden, advertisements_for-IsForeign}

abbrev first_prefix : GdpPrefix
first_prefix = record { network = 0x1234_0000_0000_0000; prefix_len = 16 }

abbrev first_advert : RouteAdvertise
first_advert = record { advertiser = 7; prefix = first_prefix; origin = connected; metric = 10 }

abbrev first_message : RoutingGctlMessage
first_message = message 99 (route_advertise first_advert)

first_message-IsBody : IsBody first_message.body
unfolding IsBody prefix_new
first_message-IsBody = record {
  router = (omega arith, omega arith);
  target = record { word = omega arith; made = refl };
  cost = omega arith;
}

decode-encode_message_example :
    (length (encode first_message) ≡ 32) × (decode (encode first_message) ≡ ok first_message)
decode-encode_message_example =
    decode-encode_message first_message (omega arith) first_message-IsBody

abbrev first_router : RouterAdjacency
first_router = record {
  local_router_id = 7;
  local_link_id = 1;
  local_metric = 100;
  local_hold_time_ms = 3000;
  neighbor = none;
}

abbrev second_router : RouterAdjacency
second_router = record {
  local_router_id = 8;
  local_link_id = 2;
  local_metric = 100;
  local_hold_time_ms = 2000;
  neighbor = none;
}

first_router-IsHello : IsHello (local_hello first_router)
unfolding local_hello
first_router-IsHello = record {
  router = (omega arith, omega arith);
  link = (omega arith, omega arith);
  hold = omega arith;
  cost = omega arith;
}

second_router-IsHello : IsHello (local_hello second_router)
unfolding local_hello
second_router-IsHello = record {
  router = (omega arith, omega arith);
  link = (omega arith, omega arith);
  hold = omega arith;
  cost = omega arith;
}

deliver-hello_example :
    (answer : RoutingGctlMessage) × (deliver second_router 50 (encode (hello first_router 3)) ≡ (
      record second_router { neighbor = some (seen 50 (local_hello first_router)) },
      ok (some answer),
    ))
    × (deliver first_router 60 (encode answer)
        ≡ (record first_router { neighbor = some (seen 60 (local_hello second_router)) }, ok none))
deliver-hello_example =
    deliver-hello first_router second_router 3 50 60 (omega arith) first_router-IsHello
      second_router-IsHello (omega arith) (omega arith) (omega arith)

-- A hello, a check in time, and a second hello.
abbrev history : List Event
history =
    heard 4000 (
      message 2
        (router_hello (record { router_id = 8; link_id = 2; hold_time_ms = 2000; metric = 1 })))
    ∷ checked 2500
    ∷ heard 1000 (
        message 1
          (router_hello (record { router_id = 8; link_id = 2; hold_time_ms = 2000; metric = 1 })))
    ∷ []

history-IsOrdered : IsOrdered 5000 history
unfolding IsOrdered
history-IsOrdered = omega arith

expire-iff-IsAlive_example :
    (adjacency_state (run first_router (checked 5000 ∷ history)) ≡ up)
    ↔ IsAlive (last_heard 7 history) 5000
expire-iff-IsAlive_example = expire-iff-IsAlive first_router 5000 history refl history-IsOrdered

-- A connected route, and one to the same prefix learned from router 7.
abbrev connected_rib : RouterRib
connected_rib = add_connected (new 9) first_prefix 1

abbrev two_routes : RouterRib
two_routes = (receive_advertisement connected_rib 7 2 first_advert).0

abbrev learned_rib : RouterRib
learned_rib = (receive_advertisement (new 9) 7 2 first_advert).0

Reachable-IsTidy_example : IsTidy connected_rib
Reachable-IsTidy_example = Reachable-IsTidy 9 (next start (connect first_prefix 1))

two_routes-IsTidy : IsTidy two_routes
two_routes-IsTidy =
    Reachable-IsTidy 9 (next (next start (connect first_prefix 1)) (advertised 7 2 first_advert))

best_for_prefix_example :
    Answers first_prefix two_routes.routes (best_for_prefix two_routes.routes first_prefix)
best_for_prefix_example = best_for_prefix-Answers two_routes.routes first_prefix

receive_advertisement_example :
    (IsForeign connected_rib 7 first_advert
      × ((receive_advertisement connected_rib 7 2 first_advert).1 ≡ ok tt)
      × IsTidy (receive_advertisement connected_rib 7 2 first_advert).0
      × IsStored connected_rib
          (receive_advertisement connected_rib 7 2 first_advert).0
          first_advert.prefix
          7
          (learned_route 7 2 first_advert ∷ []))
    ⊎ ((IsForeign connected_rib 7 first_advert → ⊥)
        × (receive_advertisement connected_rib 7 2 first_advert
            ≡ (connected_rib, err invalid_field)))
receive_advertisement_example =
    receive_advertisement-IsStored connected_rib 7 2 first_advert
      (Reachable-IsTidy 9 (next start (connect first_prefix 1)))

remove_learned_from_example : IsRemoved two_routes 7 (remove_learned_from two_routes 7)
remove_learned_from_example = remove_learned_from-IsRemoved two_routes 7 two_routes-IsTidy

find_update_example :
    find_update first_prefix (updates_for two_routes 8 100 (first_prefix ∷ [])) ≡ (
      if mem_prefix first_prefix (first_prefix ∷ [])
      then some (
          update_of two_routes 8 100 first_prefix
            (find_advert first_prefix (advertisements_for two_routes 8 100)))
      else none)
find_update_example = find_update-updates_for two_routes 8 100 (first_prefix ∷ []) first_prefix

learned_is_best :
    best_for_prefix learned_rib.routes first_prefix ≡ some (learned_route 7 2 first_advert)
unfolding best_for_prefix receive_advertisement new replace_or_push
learned_is_best = refl

learned-IsHidden : IsHidden (learned_route 7 2 first_advert) 7
unfolding IsHidden
learned-IsHidden = inl refl

find_advert_example : find_advert first_prefix (advertisements_for learned_rib 7 100) ≡ none
find_advert_example =
    find_advert-IsHidden learned_rib 7 100 first_prefix (learned_route 7 2 first_advert)
      learned_is_best learned-IsHidden

ids_differ : connected_rib.local_router_id ≢ (new 8).local_router_id
unfolding add_connected new
ids_differ = omega arith

advertisements_for_example :
    All (IsForeign (new 8) connected_rib.local_router_id) (advertisements_for connected_rib 8 100)
advertisements_for_example = advertisements_for-IsForeign connected_rib (new 8) 8 100 ids_differ
