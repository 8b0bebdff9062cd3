-- ===== src/Routing/Table.antt =====
-- routing.rs: the counter of a table is the number of its occupied slots, and no slot is made or lost.
use smolgnet.Base.{
  ℕ, zero, suc, ◌+◌, ◌-◌, ◌≤◌, ◌≡◌, refl, sym, arith, Bool, true, false, List, [], ◌∷◌,
}
use smolgnet.Base.{
  Option, none, some, length, length-replicate, inl, inr, ◌⊎◌, Bool-cases, replicate, if_true,
  if_false,
}
use smolgnet.Routing.{GdpPrefix, Route, RouteTable, table_new, fill, add, take_out, remove}
use smolgnet.Routing.{prune, prune_expired, is_expired, same_prefix}

unfoldable pub occupied_slots : List (Option Route) → ℕ
occupied_slots [] = 0
occupied_slots (none ∷ routes) = occupied_slots routes
occupied_slots (some route ∷ routes) = occupied_slots routes + 1

-- A table of a capacity whose counter is right.
pub record IsCounted (capacity : ℕ) (t : RouteTable) : Type 0 where
  pub slots : length t.routes ≡ capacity
  pub counted : t.len ≡ occupied_slots t.routes

occupied_slots-empty : (n : ℕ) → occupied_slots (replicate n none) ≡ 0
unfolding occupied_slots
occupied_slots-empty zero = refl
occupied_slots-empty (suc n) = occupied_slots-empty n

occupied_slots-le : (routes : List (Option Route)) → occupied_slots routes ≤ length routes
unfolding occupied_slots
occupied_slots-le [] = omega arith
occupied_slots-le (none ∷ routes) = omega (arith, occupied_slots-le routes)
occupied_slots-le (some route ∷ routes) = omega (arith, occupied_slots-le routes)

-- What filling a slot comes to: no room in a full table, else one slot more is occupied.
unfoldable IsFilled : List (Option Route) → Option (List (Option Route)) → Type 0
IsFilled routes none = occupied_slots routes ≡ length routes
IsFilled routes (some filled) =
    (length filled ≡ length routes) × (occupied_slots filled ≡ occupied_slots routes + 1)

fill-IsFilled : (routes : List (Option Route)) (route : Route) → IsFilled routes (fill routes route)
unfolding fill IsFilled occupied_slots
fill-IsFilled [] route = refl
fill-IsFilled (none ∷ routes) route = (refl, refl)
fill-IsFilled (some other ∷ routes) route = go (fill routes route) (fill-IsFilled routes route)
  where
    go :
        (r : Option (List (Option Route)))
        → IsFilled routes r
        → IsFilled
            (some other ∷ routes)
            (elim r [ none ↦ none | some filled ↦ some (some other ∷ filled) ])
    go none h = omega (arith, h)
    go (some filled) h = (omega (arith, h.0), omega (arith, h.1))

unfoldable IsTakenOut : List (Option Route) → Option (Route × List (Option Route)) → Type 0
IsTakenOut routes none = Unit
IsTakenOut routes (some (found, rest)) =
    (length rest ≡ length routes) × (occupied_slots rest + 1 ≡ occupied_slots routes)

take_out-IsTakenOut :
    (routes : List (Option Route)) (prefix : GdpPrefix) → IsTakenOut routes (take_out routes prefix)
unfolding take_out IsTakenOut occupied_slots
take_out-IsTakenOut [] prefix = tt
take_out-IsTakenOut (none ∷ routes) prefix =
    go (take_out routes prefix) (take_out-IsTakenOut routes prefix)
  where
    go :
        (r : Option (Route × List (Option Route)))
        → IsTakenOut routes r
        → IsTakenOut
            (none ∷ routes)
            (elim r [ none ↦ none | some (found, rest) ↦ some (found, none ∷ rest) ])
    go none h = tt
    go (some (found, rest)) h = (omega (arith, h.0), omega (arith, h.1))
take_out-IsTakenOut (some route ∷ routes) prefix =
    elim (Bool-cases (same_prefix route.prefix prefix)) [
      | inl same ↦ if_true (IsTakenOut (some route ∷ routes)) _ _ _ same (refl, refl)
      | inr other ↦
          if_false (IsTakenOut (some route ∷ routes)) _ _ _ other
            (go (take_out routes prefix) (take_out-IsTakenOut routes prefix))
    ]
  where
    go :
        (r : Option (Route × List (Option Route)))
        → IsTakenOut routes r
        → IsTakenOut
            (some route ∷ routes)
            (elim r [ none ↦ none | some (found, rest) ↦ some (found, some route ∷ rest) ])
    go none h = tt
    go (some (found, rest)) h = (omega (arith, h.0), omega (arith, h.1))

pub table_new-IsCounted : (capacity : ℕ) → IsCounted capacity (table_new capacity)
unfolding table_new
table_new-IsCounted capacity = record {
  slots = length-replicate capacity none;
  counted = sym (occupied_slots-empty capacity);
}

-- Adding a route keeps the counter right, and is refused only by a full table, which it leaves as it was.
pub add-IsCounted :
    (capacity : ℕ) (t : RouteTable) (route : Route)
    → IsCounted capacity t
    → IsCounted capacity (add t route).0
      × (((add t route).1 ≡ true) × ((add t route).0.len ≡ t.len + 1)
          ⊎ ((add t route).1 ≡ false) × ((add t route).0 ≡ t) × (t.len ≡ capacity))
unfolding add IsFilled
add-IsCounted capacity t route v = go (fill t.routes route) (fill-IsFilled t.routes route)
  where
    took : Option (List (Option Route)) → RouteTable × Bool
    took r = elim r [
      | none ↦ (t, false)
      | some filled ↦ (record { routes = filled; len = t.len + 1 }, true)
    ]

    go :
        (r : Option (List (Option Route)))
        → IsFilled t.routes r
        → IsCounted capacity (took r).0
          × (((took r).1 ≡ true) × ((took r).0.len ≡ t.len + 1)
              ⊎ ((took r).1 ≡ false) × ((took r).0 ≡ t) × (t.len ≡ capacity))
    go none h = (v, inr (refl, refl, omega (arith, h, v.counted, v.slots)))
    go (some filled) h = (
      record { slots = omega (arith, h.0, v.slots); counted = omega (arith, h.1, v.counted) },
      inl (refl, refl),
    )

-- Removing a route keeps the counter right.
pub remove-IsCounted :
    (capacity : ℕ) (t : RouteTable) (prefix : GdpPrefix)
    → IsCounted capacity t
    → IsCounted capacity (remove t prefix).0
unfolding remove IsTakenOut
remove-IsCounted capacity t prefix v =
    go (take_out t.routes prefix) (take_out-IsTakenOut t.routes prefix)
  where
    left : Option (Route × List (Option Route)) → RouteTable × Option Route
    left r = elim r [
      | none ↦ (t, none)
      | some (found, rest) ↦ (record { routes = rest; len = t.len - 1 }, some found)
    ]

    go :
        (r : Option (Route × List (Option Route)))
        → IsTakenOut t.routes r
        → IsCounted capacity (left r).0
    go none h = v
    go (some (found, rest)) h = record {
      slots = omega (arith, h.0, v.slots);
      counted = omega (arith, h.1, v.counted);
    }

prune-counts :
    (routes : List (Option Route)) (now : ℕ)
    → (length (prune routes now).0 ≡ length routes)
      × (occupied_slots (prune routes now).0 + (prune routes now).1 ≡ occupied_slots routes)
unfolding prune occupied_slots
prune-counts [] now = (refl, refl)
prune-counts (none ∷ routes) now =
    (omega (arith, (prune-counts routes now).0), omega (arith, (prune-counts routes now).1))
prune-counts (some route ∷ routes) now = elim (Bool-cases (is_expired route now)) [
  | inl gone ↦
      rw gone
        (omega (arith, (prune-counts routes now).0), omega (arith, (prune-counts routes now).1))
  | inr kept ↦
      rw kept
        (omega (arith, (prune-counts routes now).0), omega (arith, (prune-counts routes now).1))
]

-- Pruning keeps the counter right, and reports how many routes it removed.
pub prune_expired-IsCounted :
    (capacity : ℕ) (t : RouteTable) (now : ℕ)
    → IsCounted capacity t
    → IsCounted capacity (prune_expired t now).0
      × ((prune_expired t now).0.len + (prune_expired t now).1 ≡ t.len)
unfolding prune_expired
prune_expired-IsCounted capacity t now v = (
  record {
    slots = omega (arith, (prune-counts t.routes now).0, v.slots);
    counted = omega (arith, (prune-counts t.routes now).1, v.counted);
  },
  omega (arith, (prune-counts t.routes now).1, v.counted),
)
