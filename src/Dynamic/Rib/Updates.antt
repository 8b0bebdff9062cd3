-- ===== src/Dynamic/Rib/Updates.antt =====
-- router_rib.rs: what a neighbour is told by all advertisements, and by the updates for prefixes.
use smolgnet.Base.{
  ◌≡◌, ◌∙◌, refl, sym, ap, ap₂, subst, arith, Bool, true, false, inl, inr, Bool-cases, All,
}
use smolgnet.Base.{List, [], ◌∷◌, Option, none, some, map, if◌then◌else◌}
use mathlib.Core.Option
use smolgnet.Routing.{GdpPrefix, same_prefix}
use smolgnet.Dynamic.{RouterId, RouteMetric}
use smolgnet.Dynamic.Messages.{RouteAdvertise}
use smolgnet.Dynamic.Rib.{
  RibRoute, SelectedRoute, RouterRib, RouteUpdate, advertise, withdraw, keep, Winners, get, insert,
  consider, winners_of, prefix_lt,
}
use smolgnet.Dynamic.Rib.{
  route_better, selected, selected_routes, best_for_prefix, selected_for_prefix,
  route_is_advertisable_to, advertisement,
}
use smolgnet.Dynamic.Rib.{advertisements_for, update_for, updates_for, prefix_set}
use smolgnet.Dynamic.Rib.Order.{same_prefix-eq}
use smolgnet.Dynamic.Rib.Select.{get-winners_of_nil, Answers, best_for_prefix-Answers}
use smolgnet.Dynamic.Rib.Removal.{mem_prefix, mem_prefix-set}

-- Keys in order, so each stands there once, and each route under its own prefix.
unfoldable pub IsSorted : Winners → Type 0
IsSorted [] = Unit
IsSorted (entry ∷ winners) =
    (entry.1.prefix ≡ entry.0)
    × All (λ (later : GdpPrefix × RibRoute). prefix_lt entry.0 later.0 ≡ true) winners
    × IsSorted winners

prefix_lt_trans :
    (p q r : GdpPrefix) → prefix_lt p q ≡ true → prefix_lt q r ≡ true → prefix_lt p r ≡ true
prefix_lt_trans p q r h k = ground (arith, h, k)

prefix_lt-of :
    (p q : GdpPrefix) → same_prefix p q ≡ false → prefix_lt p q ≡ false → prefix_lt q p ≡ true
prefix_lt-of p q h k = ground (arith, h, k)

above_later :
    (p q : GdpPrefix) (w : Winners)
    → prefix_lt p q ≡ true
    → All (λ (later : GdpPrefix × RibRoute). prefix_lt q later.0 ≡ true) w
    → All (λ (later : GdpPrefix × RibRoute). prefix_lt p later.0 ≡ true) w
above_later p q [] h a = tt
above_later p q (entry ∷ w) h a = (prefix_lt_trans p q entry.0 h a.0, above_later p q w h a.1)

insert-All :
    (P : GdpPrefix × RibRoute → Type 0) (p : GdpPrefix) (route : RibRoute) (w : Winners)
    → P (p, route)
    → All P w
    → All P (insert p route w)
unfolding insert
insert-All P p route [] h a = (h, tt)
insert-All P p route ((q, other) ∷ w) h a = elim (Bool-cases (same_prefix p q)) [
  | inl same ↦ rw (insert, same) (h, a.1)
  | inr apart ↦ elim (Bool-cases (prefix_lt p q)) [
    | inl before ↦ rw (insert, apart, before) (h, a)
    | inr after ↦ rw (insert, apart, after) (a.0, insert-All P p route w h a.1)
  ]
]

insert-IsSorted :
    (route : RibRoute) (w : Winners) → IsSorted w → IsSorted (insert route.prefix route w)
unfolding insert IsSorted
insert-IsSorted route [] s = (refl, tt, tt)
insert-IsSorted route ((q, other) ∷ w) s = elim (Bool-cases (same_prefix route.prefix q)) [
  | inl same ↦ rw (same) (
    refl,
    subst (λ p. All (λ (later : GdpPrefix × RibRoute). prefix_lt p later.0 ≡ true) w)
        (sym (same_prefix-eq route.prefix q same)) s.1,
    s.2,
  )
  | inr apart ↦ elim (Bool-cases (prefix_lt route.prefix q)) [
    | inl before ↦ rw (apart, before) (refl, (before, above_later route.prefix q w before s.1), s)
    | inr after ↦
        rw (apart, after)
          (
            s.0,
            insert-All (λ (later : GdpPrefix × RibRoute). prefix_lt q later.0 ≡ true) route.prefix
                route w (prefix_lt-of route.prefix q apart after) s.1,
            insert-IsSorted route w s.2,
          )
  ]
]

consider-IsSorted :
    (w : Winners) (route : RibRoute) (o : Option RibRoute)
    → IsSorted w
    → IsSorted (consider w route o)
unfolding consider
consider-IsSorted w route none s = insert-IsSorted route w s
consider-IsSorted w route (some best) s = elim (Bool-cases (route_better route best)) [
  | inl wins ↦ rw wins (insert-IsSorted route w s)
  | inr loses ↦ rw loses s
]

winners_of-IsSorted :
    (w : Winners) (routes : List RibRoute) → IsSorted w → IsSorted (winners_of w routes)
unfolding winners_of
winners_of-IsSorted w [] s = s
winners_of-IsSorted w (route ∷ routes) s =
    winners_of-IsSorted (consider w route (get route.prefix w)) routes
      (consider-IsSorted w route (get route.prefix w) s)

-- The first advertisement for a prefix, and the first update about one.
abbrev pub find_advert : GdpPrefix → List RouteAdvertise → Option RouteAdvertise
find_advert p [] = none
find_advert p (a ∷ adverts) = if same_prefix p a.prefix then some a else find_advert p adverts

abbrev pub subject : RouteUpdate → GdpPrefix
subject (advertise a) = a.prefix
subject (withdraw w) = w.prefix

abbrev pub find_update : GdpPrefix → List RouteUpdate → Option RouteUpdate
find_update p [] = none
find_update p (u ∷ updates) = if same_prefix p (subject u) then some u else find_update p updates

abbrev pub advert_of : RouteUpdate → Option RouteAdvertise
advert_of (advertise a) = some a
advert_of (withdraw w) = none

module _ (rib : RouterRib) (n : RouterId) (m : RouteMetric) where
  adverts : Winners → List RouteAdvertise
  adverts w =
      map (λ (route : SelectedRoute). advertisement rib route m)
        (keep (λ (route : SelectedRoute). route_is_advertisable_to route n)
          (map (λ (entry : GdpPrefix × RibRoute). selected entry.1) w))

  find_advert-above :
      (p : GdpPrefix) (w : Winners)
      → All (λ (later : GdpPrefix × RibRoute). prefix_lt p later.0 ≡ true) w
      → IsSorted w
      → find_advert p (adverts w) ≡ none
  unfolding adverts IsSorted advertisement selected
  find_advert-above p [] a s = refl
  find_advert-above p ((q, route) ∷ w) a s =
      elim (Bool-cases (route_is_advertisable_to (selected route) n)) [
        | inl told ↦ rw (told, other) (find_advert-above p w a.1 s.2)
        | inr kept ↦ rw kept (find_advert-above p w a.1 s.2)
      ]
    where
      other : same_prefix p route.prefix ≡ false
      other = subst (λ r. same_prefix p r ≡ false) (sym s.0) (ground (arith, a.0))

  find_advert-adverts :
      (p : GdpPrefix) (w : Winners)
      → IsSorted w
      → find_advert p (adverts w) ≡ advert_of (update_for rib n m p (Option.map selected (get p w)))
  unfolding adverts IsSorted advertisement selected get update_for
  find_advert-adverts p [] s = refl
  find_advert-adverts p ((q, route) ∷ w) s = elim (Bool-cases (same_prefix p q)) [
    | inl same ↦ elim (Bool-cases (route_is_advertisable_to (selected route) n)) [
      | inl told ↦ rw (same, told) (rw (at_prefix true same) refl)
      | inr kept ↦
          rw (same, kept)
            (find_advert-above p w
              (subst (λ q. All (λ (later : GdpPrefix × RibRoute). prefix_lt q later.0 ≡ true) w)
                (sym (same_prefix-eq p q same)) s.1)
              s.2)
    ]
    | inr apart ↦ elim (Bool-cases (route_is_advertisable_to (selected route) n)) [
      | inl told ↦ rw (told, apart) (rw (at_prefix false apart) (find_advert-adverts p w s.2))
      | inr kept ↦ rw (kept, apart) (find_advert-adverts p w s.2)
    ]
  ]
    where
      at_prefix : (b : Bool) → same_prefix p q ≡ b → same_prefix p route.prefix ≡ b
      at_prefix b h = subst (λ r. same_prefix p r ≡ b) (sym s.0) h

  pub find_advert-advertisements_for :
      (p : GdpPrefix)
      → find_advert p (advertisements_for rib n m)
        ≡ advert_of (update_for rib n m p (selected_for_prefix rib p))
  unfolding advertisements_for selected_routes adverts selected_for_prefix IsSorted
  find_advert-advertisements_for p =
      find_advert-adverts p (winners_of [] rib.routes) (winners_of-IsSorted [] rib.routes tt)
      ∙ ap (λ o. advert_of (update_for rib n m p (Option.map selected o)))
          (get-winners_of_nil rib.routes p)

  -- The update that tells a neighbour of an advertisement for the prefix, or of none.
  unfoldable pub update_of : GdpPrefix → Option RouteAdvertise → RouteUpdate
  update_of p none = withdraw (record { advertiser = rib.local_router_id; prefix = p })
  update_of p (some a) = advertise a

  update_for-advert_of :
      (p : GdpPrefix) (o : Option SelectedRoute)
      → update_for rib n m p o ≡ update_of p (advert_of (update_for rib n m p o))
  unfolding update_for update_of
  update_for-advert_of p none = refl
  update_for-advert_of p (some route) = elim (Bool-cases (route_is_advertisable_to route n)) [
    | inl told ↦ rw told refl
    | inr kept ↦ rw kept refl
  ]

  subject-update_for :
      (p : GdpPrefix) (o : Option RibRoute)
      → ((route : RibRoute) → o ≡ some route → route.prefix ≡ p)
      → subject (update_for rib n m p (Option.map selected o)) ≡ p
  unfolding update_for advertisement selected
  subject-update_for p none h = refl
  subject-update_for p (some route) h =
      elim (Bool-cases (route_is_advertisable_to (selected route) n)) [
        | inl told ↦ rw told (h route refl)
        | inr kept ↦ rw kept refl
      ]

  selected-prefix :
      (p : GdpPrefix) (route : RibRoute)
      → best_for_prefix rib.routes p ≡ some route
      → route.prefix ≡ p
  unfolding Answers
  selected-prefix p route h =
      (subst (Answers p rib.routes) h (best_for_prefix-Answers rib.routes p)).1

  find_update-map :
      (p : GdpPrefix) (l : List GdpPrefix)
      → find_update p (map (λ (q : GdpPrefix). update_for rib n m q (selected_for_prefix rib q)) l)
        ≡ (if mem_prefix p l then some (update_for rib n m p (selected_for_prefix rib p)) else none)
  unfolding selected_for_prefix
  find_update-map p [] = refl
  find_update-map p (q ∷ l) = elim (Bool-cases (same_prefix p q)) [
    | inl same ↦
        rw (subject-update_for q (best_for_prefix rib.routes q) (selected-prefix q), same)
          (ap (λ q. some (update_for rib n m q (selected_for_prefix rib q)))
            (sym (same_prefix-eq p q same)))
    | inr apart ↦
        rw (subject-update_for q (best_for_prefix rib.routes q) (selected-prefix q), apart)
          (find_update-map p l)
  ]

  -- The updates for a list of changed prefixes tell a neighbour for each of these what all the
  -- advertisements for it would tell, a withdrawal where these have no advertisement, and nothing for
  -- any other prefix.
  pub find_update-updates_for :
      (changed : List GdpPrefix) (p : GdpPrefix)
      → find_update p (updates_for rib n m changed) ≡ (
          if mem_prefix p changed
          then some (update_of p (find_advert p (advertisements_for rib n m)))
          else none)
  unfolding updates_for
  find_update-updates_for changed p =
      find_update-map p (prefix_set changed)
      ∙ ap₂ (λ b u. if b then some u else none) (mem_prefix-set p changed)
          (update_for-advert_of p (selected_for_prefix rib p)
            ∙ ap (update_of p) (sym (find_advert-advertisements_for p)))
