-- ===== src/Dynamic/Rib/Select.antt =====
-- router_rib.rs: the selected route of a prefix is the best one, and the map of winners has it.
use smolgnet.Base.{
  ◌≡◌, ◌∙◌, refl, sym, ap, subst, arith, Bool, true, false, ◌⊎◌, inl, inr, Bool-cases,
}
use smolgnet.Base.{List, [], ◌∷◌, Option, none, some, if◌then◌else◌, All}
use smolgnet.Routing.{GdpPrefix, same_prefix}
use smolgnet.Dynamic.Rib.{
  RibRoute, route_better, better_of, reduce_better, best_for_prefix, keep, is_to, Winners, get,
  insert, consider, winners_of,
}
use smolgnet.Dynamic.Rib.Order.{
  route_better_trans, route_better_negtrans, route_better_irrefl, same_prefix-eq, same_prefix_refl,
  same_prefix_sym,
}

-- The route stands in the list.
unfoldable pub Holds : RibRoute → List RibRoute → Type 0
Holds route [] = ⊥
Holds route (other ∷ routes) = (route ≡ other) ⊎ Holds route routes

-- What the better of two does not beat, neither of them beats.
better_of-unbeaten :
    (best other r : RibRoute)
    → route_better (better_of best other) r ≡ false
    → (route_better best r ≡ false) × (route_better other r ≡ false)
better_of-unbeaten best other r h = elim (Bool-cases (route_better other best)) [
  | inl wins ↦
      let other_unbeaten : route_better other r ≡ false =
        subst (λ b. route_better (if b then other else best) r ≡ false) wins h in
      (unbeaten_by wins other_unbeaten, other_unbeaten)
  | inr loses ↦
      let best_unbeaten : route_better best r ≡ false =
        subst (λ b. route_better (if b then other else best) r ≡ false) loses h in
      (best_unbeaten, route_better_negtrans other best r loses best_unbeaten)
]
  where
    unbeaten_by :
        route_better other best ≡ true → route_better other r ≡ false → route_better best r ≡ false
    unbeaten_by wins k = elim (Bool-cases (route_better best r)) [
      | inl more ↦ absurd (ground (arith, k, route_better_trans other best r wins more))
      | inr less ↦ less
    ]

better_of-Holds :
    (best other r : RibRoute) (routes : List RibRoute)
    → Holds r (better_of best other ∷ routes)
    → Holds r (best ∷ other ∷ routes)
unfolding Holds
better_of-Holds best other r routes h = elim (Bool-cases (route_better other best)) [
  | inl wins ↦ inr (subst (λ b. Holds r ((if b then other else best) ∷ routes)) wins h)
  | inr loses ↦ past (subst (λ b. Holds r ((if b then other else best) ∷ routes)) loses h)
]
  where
    past : Holds r (best ∷ routes) → Holds r (best ∷ other ∷ routes)
    past (inl e) = inl e
    past (inr k) = inr (inr k)

-- The best of a list: it stands there, and none of the list is better than it.
pub record IsBest (best : RibRoute) (routes : List RibRoute) : Type 0 where
  pub chosen : Holds best routes
  pub unbeaten : All (λ route. route_better route best ≡ false) routes

reduce_better-IsBest :
    (best : RibRoute) (routes : List RibRoute)
    → (r : RibRoute) × (reduce_better (some best) routes ≡ some r) × IsBest r (best ∷ routes)
unfolding reduce_better Holds
reduce_better-IsBest best [] =
    (best, refl, record { chosen = inl refl; unbeaten = (route_better_irrefl best, tt) })
reduce_better-IsBest best (other ∷ routes) =
    let (r, e, b) = reduce_better-IsBest (better_of best other) routes in
    let (first, second) = better_of-unbeaten best other r b.unbeaten.0 in
    (
      r,
      e,
      record {
        chosen = better_of-Holds best other r routes b.chosen;
        unbeaten = (first, (second, b.unbeaten.1));
      },
    )

-- `get` after `insert`.
pub get-insert :
    (p q : GdpPrefix) (route : RibRoute) (winners : Winners)
    → get p (insert q route winners) ≡ (if same_prefix p q then some route else get p winners)
unfolding get insert
get-insert p q route [] = refl
get-insert p q route ((j, other) ∷ winners) = ground (arith, get-insert p q route winners)

abbrev merge : Option RibRoute → RibRoute → RibRoute
merge none route = route
merge (some best) route = better_of best route

reduce_better-merge :
    (best : Option RibRoute) (route : RibRoute) (routes : List RibRoute)
    → reduce_better best (route ∷ routes) ≡ reduce_better (some (merge best route)) routes
unfolding reduce_better
reduce_better-merge none route routes = refl
reduce_better-merge (some best) route routes = refl

get-consider_same :
    (w : Winners) (route : RibRoute) (o : Option RibRoute)
    → get route.prefix w ≡ o
    → get route.prefix (consider w route o) ≡ some (merge o route)
unfolding consider
get-consider_same w route none e =
    get-insert route.prefix route.prefix route w ∙ rw (same_prefix_refl route.prefix) refl
get-consider_same w route (some best) e = elim (Bool-cases (route_better route best)) [
  | inl wins ↦
      rw wins
        (get-insert route.prefix route.prefix route w ∙ rw (same_prefix_refl route.prefix) refl)
  | inr loses ↦ rw loses e
]

get-consider_other :
    (p : GdpPrefix) (w : Winners) (route : RibRoute) (o : Option RibRoute)
    → same_prefix p route.prefix ≡ false
    → get p (consider w route o) ≡ get p w
unfolding consider
get-consider_other p w route none h = get-insert p route.prefix route w ∙ rw h refl
get-consider_other p w route (some best) h = elim (Bool-cases (route_better route best)) [
  | inl wins ↦ rw wins (get-insert p route.prefix route w ∙ rw h refl)
  | inr loses ↦ rw loses refl
]

get-winners_of :
    (p : GdpPrefix) (w : Winners) (routes : List RibRoute)
    → get p (winners_of w routes) ≡ reduce_better (get p w) (keep (is_to p) routes)
unfolding winners_of reduce_better
get-winners_of p w [] = refl
get-winners_of p w (route ∷ routes) = elim (Bool-cases (same_prefix route.prefix p)) [
  | inl same ↦ rw same (
      get-winners_of p (consider w route (get route.prefix w)) routes
      ∙ ap (λ o. reduce_better o (keep (is_to p) routes))
          (subst (λ p. get p (consider w route (get route.prefix w)) ≡ some (merge (get p w) route))
            (same_prefix-eq route.prefix p same)
            (get-consider_same w route (get route.prefix w) refl))
      ∙ sym (reduce_better-merge (get p w) route (keep (is_to p) routes)))
  | inr other ↦ rw other (
      get-winners_of p (consider w route (get route.prefix w)) routes
      ∙ ap (λ o. reduce_better o (keep (is_to p) routes))
          (get-consider_other p w route (get route.prefix w)
            (same_prefix_sym p route.prefix ∙ other)))
]

-- What a search for the best route to a prefix returns: `none` when no route is to it, and else a
-- route to it such that no other one to it is better.
unfoldable pub Answers : GdpPrefix → List RibRoute → Option RibRoute → Type 0
Answers p routes none = All (λ route. is_to p route ≡ false) routes
Answers p routes (some best) =
    Holds best routes
    × (best.prefix ≡ p)
    × All (λ route. is_to p route ≡ true → route_better route best ≡ false) routes

Holds-keep_cons :
    (test : RibRoute → Bool) (route r : RibRoute) (routes : List RibRoute)
    → (Holds r (keep test routes) → Holds r routes × (test r ≡ true))
    → Holds r (keep test (route ∷ routes))
    → Holds r (route ∷ routes) × (test r ≡ true)
unfolding Holds
Holds-keep_cons test route r routes rest h = elim (Bool-cases (test route)) [
  | inl kept ↦
      first kept
        (subst (λ b. Holds r (if b then route ∷ keep test routes else keep test routes)) kept h)
  | inr dropped ↦
      later
        (subst (λ b. Holds r (if b then route ∷ keep test routes else keep test routes)) dropped h)
]
  where
    later : Holds r (keep test routes) → Holds r (route ∷ routes) × (test r ≡ true)
    later k = (inr (rest k).0, (rest k).1)

    first :
        test route ≡ true
        → Holds r (route ∷ keep test routes)
        → Holds r (route ∷ routes) × (test r ≡ true)
    first kept (inl e) = (inl e, ap test e ∙ kept)
    first kept (inr k) = later k

pub Holds-keep :
    (test : RibRoute → Bool) (r : RibRoute) (routes : List RibRoute)
    → Holds r (keep test routes)
    → Holds r routes × (test r ≡ true)
unfolding Holds
Holds-keep test r [] h = absurd h
Holds-keep test r (route ∷ routes) h =
    Holds-keep_cons test route r routes (λ k. Holds-keep test r routes k) h

All-keep :
    (P : RibRoute → Type 0) (test : RibRoute → Bool) (routes : List RibRoute)
    → All P (keep test routes)
    → All (λ route. test route ≡ true → P route) routes
All-keep P test [] h = tt
All-keep P test (route ∷ routes) h = elim (Bool-cases (test route)) [
  | inl kept ↦
      let h' : All P (route ∷ keep test routes) =
        subst (λ b. All P (if b then route ∷ keep test routes else keep test routes)) kept h in
      ((λ t. h'.0), All-keep P test routes h'.1)
  | inr dropped ↦ (
    (λ t. absurd (ground (arith, t, dropped))),
    All-keep P test routes
        (subst (λ b. All P (if b then route ∷ keep test routes else keep test routes)) dropped h),
  )
]

All-none :
    (test : RibRoute → Bool) (routes : List RibRoute)
    → All (λ route. test route ≡ true → ⊥) routes
    → All (λ route. test route ≡ false) routes
All-none test [] h = tt
All-none test (route ∷ routes) h = (
  elim (Bool-cases (test route)) [ inl kept ↦ absurd (h.0 kept) | inr dropped ↦ dropped ],
  All-none test routes h.1,
)

best_of-Answers :
    (p : GdpPrefix) (routes kept : List RibRoute)
    → keep (is_to p) routes ≡ kept
    → Answers p routes (reduce_better none kept)
unfolding Answers reduce_better Holds
best_of-Answers p routes [] e =
    All-none (is_to p) routes
      (All-keep (λ route. ⊥) (is_to p) routes (subst (All (λ (route : RibRoute). ⊥)) (sym e) tt))
best_of-Answers p routes (route ∷ kept) e =
    let (r, found, best) = reduce_better-IsBest route kept in
    let (held, to) = Holds-keep (is_to p) r routes (subst (Holds r) (sym e) best.chosen) in
    subst (Answers p routes) (sym found) (
      held,
      same_prefix-eq r.prefix p to,
      All-keep (λ route. route_better route r ≡ false) (is_to p) routes
          (subst (All (λ route. route_better route r ≡ false)) (sym e) best.unbeaten),
    )

-- For every prefix the selected route is one to that prefix such that no route to it is better, and
-- there is none only when no route is to it.
pub best_for_prefix-Answers :
    (routes : List RibRoute) (p : GdpPrefix) → Answers p routes (best_for_prefix routes p)
unfolding best_for_prefix
best_for_prefix-Answers routes p = best_of-Answers p routes (keep (is_to p) routes) refl

-- The map that `selected_routes` builds has for every prefix the route that `selected_for_prefix`
-- searches for.
pub get-winners_of_nil :
    (routes : List RibRoute) (p : GdpPrefix)
    → get p (winners_of [] routes) ≡ best_for_prefix routes p
unfolding best_for_prefix get
get-winners_of_nil routes p = get-winners_of p [] routes
