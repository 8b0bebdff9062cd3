-- ===== src/Dynamic/Rib/Horizon.antt =====
-- router_rib.rs: what a router does not tell a neighbour, and that a neighbour accepts what it is told.
use smolgnet.Base.{
  ◌≡◌, ◌≢◌, ◌∙◌, ◌⊎◌, refl, arith, Bool, true, false, not, ◌&&◌, inl, inr, Bool-cases, All,
}
use smolgnet.Base.{List, [], ◌∷◌, Option, none, some, map}
use smolgnet.Routing.{GdpPrefix}
use smolgnet.Dynamic.{
  RouterId, RouteMetric, RouteOrigin, connected, learned, static, escape, same_origin,
}
use smolgnet.Dynamic.Rib.{
  RibRoute, SelectedRoute, RouterRib, keep, is_from, is_from_neighbor, selected, selected_routes,
}
use smolgnet.Dynamic.Rib.{
  best_for_prefix, selected_for_prefix, route_is_advertisable_to, advertisement, advertisements_for,
  update_for,
}
use smolgnet.Dynamic.Rib.Table.{IsForeign}
use smolgnet.Dynamic.Rib.Updates.{find_advert, find_advert-advertisements_for}

-- A route that may be told to no one, or not to this neighbour, who told of it.
unfoldable pub IsHidden : RibRoute → RouterId → Type 0
IsHidden route n =
    (is_from_neighbor n route ≡ true) ⊎ ((route.origin ≡ static) ⊎ (route.origin ≡ escape))

hidden-IsHidden :
    (route : RibRoute) (n : RouterId)
    → IsHidden route n
    → route_is_advertisable_to (selected route) n ≡ false
unfolding IsHidden route_is_advertisable_to selected
hidden-IsHidden route n (inl from) = by_origin route.origin route.learned_from from
  where
    by_origin :
        (o : RouteOrigin) (f : Option RouterId)
        → (same_origin o learned && is_from f n) ≡ true
        → elim o as (λ o. Bool) [
          | connected ↦ true
          | learned ↦ not (is_from f n)
          | static ↦ false
          | escape ↦ false
        ]
          ≡ false
    by_origin connected f h = ground (arith, h)
    by_origin learned f h = ground (arith, h)
    by_origin static f h = refl
    by_origin escape f h = refl
hidden-IsHidden route n (inr (inl e)) = rw e refl
hidden-IsHidden route n (inr (inr e)) = rw e refl

-- When the best route to a prefix was learned from a neighbour, or is a static or an escape route, the
-- advertisements for that neighbour have none for the prefix, not even a second best.
pub find_advert-IsHidden :
    (rib : RouterRib) (n : RouterId) (m : RouteMetric) (p : GdpPrefix) (route : RibRoute)
    → best_for_prefix rib.routes p ≡ some route
    → IsHidden route n
    → find_advert p (advertisements_for rib n m) ≡ none
unfolding selected_for_prefix update_for
find_advert-IsHidden rib n m p route best hidden =
    find_advert-advertisements_for rib n m p ∙ rw (best, hidden-IsHidden route n hidden) refl

advertisable-origin :
    (route : SelectedRoute) (n : RouterId)
    → route_is_advertisable_to route n ≡ true
    → (route.origin ≡ connected) ⊎ (route.origin ≡ learned)
unfolding route_is_advertisable_to
advertisable-origin route n h = by_origin route.origin h
  where
    by_origin :
        (o : RouteOrigin)
        → elim o as (λ o. Bool) [
          | connected ↦ true
          | learned ↦ not (is_from route.learned_from n)
          | static ↦ false
          | escape ↦ false
        ]
          ≡ true
        → (o ≡ connected) ⊎ (o ≡ learned)
    by_origin connected h = inl refl
    by_origin learned h = inr refl
    by_origin static h = absurd (ground (arith, h))
    by_origin escape h = absurd (ground (arith, h))

-- Every advertisement of a router is one that a router with another id accepts from it.
pub advertisements_for-IsForeign :
    (rib other : RouterRib) (n : RouterId) (m : RouteMetric)
    → rib.local_router_id ≢ other.local_router_id
    → All (IsForeign other rib.local_router_id) (advertisements_for rib n m)
unfolding advertisements_for IsForeign advertisement
advertisements_for-IsForeign rib other n m distinct = go (selected_routes rib)
  where
    go :
        (l : List SelectedRoute)
        → All (IsForeign other rib.local_router_id) (
            map
              (λ (route : SelectedRoute). advertisement rib route m)
              (keep (λ (route : SelectedRoute). route_is_advertisable_to route n) l))
    go [] = tt
    go (route ∷ l) = elim (Bool-cases (route_is_advertisable_to route n)) [
      | inl told ↦ rw told ((distinct, refl, advertisable-origin route n told), go l)
      | inr kept ↦ rw kept (go l)
    ]
