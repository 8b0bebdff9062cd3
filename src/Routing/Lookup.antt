-- ===== src/Routing/Lookup.antt =====
-- routing.rs: `lookup` is a longest-prefix match.
use smolgnet.Base.{
  ℕ, ◌≤◌, ◌<◌, ◌≡◌, refl, sym, ap, subst, arith, true, false, ◌&&◌, List, [], ◌∷◌, ◌++◌,
}
use smolgnet.Base.{Option, none, some, All, ◌⊎◌, inl, inr, Bool-cases, if_true, if_false}
use smolgnet.Routing.{Route, RouteTable, is_match, is_longer, best_route, lookup, via}

-- A slot holds no match, or one of a length below (at most) a bound.
unfoldable pub IsShorter : ℕ → ℕ → ℕ → Option Route → Type 0
IsShorter destination now len none = Unit
IsShorter destination now len (some route) =
    (is_match destination now route ≡ false) ⊎ (route.prefix.prefix_len < len)

unfoldable pub IsNoLonger : ℕ → ℕ → ℕ → Option Route → Type 0
IsNoLonger destination now len none = Unit
IsNoLonger destination now len (some route) =
    (is_match destination now route ≡ false) ⊎ (route.prefix.prefix_len ≤ len)

-- The first of the longest matches: those before it are shorter, those after it no longer.
pub record IsLongestMatch (destination now : ℕ) (routes : List (Option Route)) (route : Route)
    : Type 0 where
  pub before : List (Option Route)
  pub after : List (Option Route)
  pub place : before ++ some route ∷ after ≡ routes
  pub matching : is_match destination now route ≡ true
  pub shorter_before : All (IsShorter destination now route.prefix.prefix_len) before
  pub no_longer_after : All (IsNoLonger destination now route.prefix.prefix_len) after

unfoldable pub HasNoMatch : ℕ → ℕ → Option Route → Type 0
HasNoMatch destination now none = Unit
HasNoMatch destination now (some route) = is_match destination now route ≡ false

-- What the loop has at its end, when it starts with `best`.
unfoldable IsOutcome : ℕ → ℕ → Option Route → List (Option Route) → Option Route → Type 0
IsOutcome destination now none routes none = All (HasNoMatch destination now) routes
IsOutcome destination now none routes (some route) = IsLongestMatch destination now routes route
IsOutcome destination now (some current) routes none = ⊥
IsOutcome destination now (some current) routes (some route) =
    ((route ≡ current) × All (IsNoLonger destination now current.prefix.prefix_len) routes)
    ⊎ (IsLongestMatch destination now routes route
        × (current.prefix.prefix_len < route.prefix.prefix_len))

-- A slot before the match that is not longer than what the loop had already.
IsLongestMatch-past :
    (destination now : ℕ) (slot : Option Route) (routes : List (Option Route)) (route : Route)
    → IsShorter destination now route.prefix.prefix_len slot
    → IsLongestMatch destination now routes route
    → IsLongestMatch destination now (slot ∷ routes) route
IsLongestMatch-past destination now slot routes route h m = record {
  before = slot ∷ m.before;
  after = m.after;
  place = ap (◌∷◌ slot) m.place;
  matching = m.matching;
  shorter_before = (h, m.shorter_before);
  no_longer_after = m.no_longer_after;
}

IsLongestMatch-here :
    (destination now : ℕ) (routes : List (Option Route)) (route : Route)
    → is_match destination now route ≡ true
    → All (IsNoLonger destination now route.prefix.prefix_len) routes
    → IsLongestMatch destination now (some route ∷ routes) route
IsLongestMatch-here destination now routes route h rest = record {
  before = [];
  after = routes;
  place = refl;
  matching = h;
  shorter_before = tt;
  no_longer_after = rest;
}

-- A slot that the loop passes without taking it.
IsOutcome-passed :
    (destination now : ℕ) (best : Option Route) (route : Route) (routes : List (Option Route))
    (r : Option Route)
    → (is_match destination now route && is_longer route best) ≡ false
    → IsOutcome destination now best routes r
    → IsOutcome destination now best (some route ∷ routes) r
unfolding IsOutcome IsNoLonger IsShorter HasNoMatch is_longer
IsOutcome-passed destination now none route routes none h o = (ground (arith, h), o)
IsOutcome-passed destination now none route routes (some r) h o =
    IsLongestMatch-past destination now (some route) routes r (inl (ground (arith, h))) o
IsOutcome-passed destination now (some current) route routes none h o = o
IsOutcome-passed destination now (some current) route routes (some r) h o = elim o [
  | inl (same, rest) ↦ inl (same, (ground (arith, h), rest))
  | inr (m, longer) ↦ inr (
    IsLongestMatch-past destination now (some route) routes r (ground (arith, h, longer)) m,
    longer,
  )
]

-- A slot that the loop takes.
IsOutcome-taken :
    (destination now : ℕ) (best : Option Route) (route : Route) (routes : List (Option Route))
    (r : Option Route)
    → (is_match destination now route && is_longer route best) ≡ true
    → IsOutcome destination now (some route) routes r
    → IsOutcome destination now best (some route ∷ routes) r
unfolding IsOutcome IsNoLonger IsShorter HasNoMatch is_longer
IsOutcome-taken destination now none route routes none h o = absurd o
IsOutcome-taken destination now none route routes (some r) h o = elim o [
  | inl (same, rest) ↦
      subst (IsLongestMatch destination now (some route ∷ routes)) (sym same)
        (IsLongestMatch-here destination now routes route (ground (arith, h)) rest)
  | inr (m, longer) ↦ IsLongestMatch-past destination now (some route) routes r (inr longer) m
]
IsOutcome-taken destination now (some current) route routes none h o = absurd o
IsOutcome-taken destination now (some current) route routes (some r) h o = elim o [
  | inl (same, rest) ↦ inr (
    subst (IsLongestMatch destination now (some route ∷ routes)) (sym same)
        (IsLongestMatch-here destination now routes route (ground (arith, h)) rest),
    subst (λ x. current.prefix.prefix_len < x.prefix.prefix_len) (sym same) (ground (arith, h)),
  )
  | inr (m, longer) ↦ inr (
    IsLongestMatch-past destination now (some route) routes r (inr longer) m,
    ground (arith, h, longer),
  )
]

IsOutcome-empty :
    (destination now : ℕ) (best : Option Route) (routes : List (Option Route)) (r : Option Route)
    → IsOutcome destination now best routes r
    → IsOutcome destination now best (none ∷ routes) r
unfolding IsOutcome HasNoMatch IsShorter IsNoLonger
IsOutcome-empty destination now none routes none o = (tt, o)
IsOutcome-empty destination now none routes (some r) o =
    IsLongestMatch-past destination now none routes r tt o
IsOutcome-empty destination now (some current) routes none o = o
IsOutcome-empty destination now (some current) routes (some r) o = elim o [
  | inl (same, rest) ↦ inl (same, (tt, rest))
  | inr (m, longer) ↦ inr (IsLongestMatch-past destination now none routes r tt m, longer)
]

best_route-IsOutcome :
    (destination now : ℕ) (routes : List (Option Route)) (best : Option Route)
    → IsOutcome destination now best routes (best_route destination now best routes)
unfolding best_route IsOutcome
best_route-IsOutcome destination now [] none = tt
best_route-IsOutcome destination now [] (some current) = inl (refl, tt)
best_route-IsOutcome destination now (none ∷ routes) best =
    IsOutcome-empty destination now best routes _ (best_route-IsOutcome destination now routes best)
best_route-IsOutcome destination now (some route ∷ routes) best =
    elim (Bool-cases (is_match destination now route && is_longer route best)) [
      | inl takes ↦
          if_true
            (λ b.
              IsOutcome destination now best (some route ∷ routes)
                (best_route destination now b routes))
            _ (some route) best takes
            (IsOutcome-taken destination now best route routes _ takes
              (best_route-IsOutcome destination now routes (some route)))
      | inr passes ↦
          if_false
            (λ b.
              IsOutcome destination now best (some route ∷ routes)
                (best_route destination now b routes))
            _ (some route) best passes
            (IsOutcome-passed destination now best route routes _ passes
              (best_route-IsOutcome destination now routes best))
    ]

-- What `lookup` answers: nothing if no route matches, and else the router of the longest match.
unfoldable pub Answers : ℕ → ℕ → List (Option Route) → Option ℕ → Type 0
Answers destination now routes none = All (HasNoMatch destination now) routes
Answers destination now routes (some router) =
    (route : Route) × (router ≡ route.via_router) × IsLongestMatch destination now routes route

-- `lookup` is a longest-prefix match over the unexpired routes that contain the destination: it
-- answers nothing exactly when no slot holds one, and else the router of the first slot, in slot
-- order, whose prefix is longest among them.
pub lookup-Answers :
    (t : RouteTable) (destination now : ℕ)
    → Answers destination now t.routes (lookup t destination now)
unfolding lookup via IsOutcome Answers
lookup-Answers t destination now = go _ (best_route-IsOutcome destination now t.routes none)
  where
    go :
        (r : Option Route)
        → IsOutcome destination now none t.routes r
        → Answers destination now t.routes (via r)
    go none o = o
    go (some route) o = (route, refl, o)
