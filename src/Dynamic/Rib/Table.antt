-- ===== src/Dynamic/Rib/Table.antt =====
-- router_rib.rs: the routes learned from neighbours, seen as one route at most for each prefix and
-- neighbour.
use smolgnet.Base.{
  ℕ, suc, ◌+◌, ◌≤◌, ◌≡◌, ◌≢◌, refl, sym, ap, subst, arith, Bool, true, false, not, ◌&&◌, ◌||◌, ◌⊎◌,
  inl, inr, Bool-cases,
}
use smolgnet.Base.{List, [], ◌∷◌, Option, none, some, length, if◌then◌else◌, ◌==◌, ◌!=◌}
use smolgnet.Base.Results.{ok, err, invalid_field}
use smolgnet.Routing.{GdpPrefix, same_prefix}
use smolgnet.Dynamic.{RouterId, RouteOrigin, connected, learned, static, escape}
use smolgnet.Dynamic.Messages.{RouteAdvertise, RouteWithdraw}
use smolgnet.Dynamic.Rib.{
  RibRoute, RouterRib, keep, replace_or_push, is_learned, is_from, is_private, learned_route,
}
use smolgnet.Dynamic.Rib.{receive_advertisement, receive_withdrawal}
use smolgnet.Dynamic.Rib.Order.{same_prefix-eq}

-- The routes to a prefix that were learned from a neighbour.
unfoldable pub view : RouterRib → GdpPrefix → RouterId → List RibRoute
view rib p n = keep (is_learned p n) rib.routes

unfoldable pub IsTidy : RouterRib → Type 0
IsTidy rib = (p : GdpPrefix) (n : RouterId) → length (view rib p n) ≤ 1

module _ (test other : RibRoute → Bool)
    (apart : (x : RibRoute) → test x ≡ true → other x ≡ false) where
  pub keep-replace_other :
      (route : RibRoute) (routes : List RibRoute)
      → other route ≡ false
      → keep other (replace_or_push test route routes) ≡ keep other routes
  unfolding replace_or_push
  keep-replace_other route [] h = rw h refl
  keep-replace_other route (x ∷ routes) h = elim (Bool-cases (test x)) [
    | inl found ↦ rw (found, h, apart x found) refl
    | inr next ↦
        rw next
          (ap (λ kept. if other x then x ∷ kept else kept) (keep-replace_other route routes h))
  ]

  pub keep-retain_other :
      (routes : List RibRoute) → keep other (keep (λ x. not (test x)) routes) ≡ keep other routes
  keep-retain_other [] = refl
  keep-retain_other (x ∷ routes) = elim (Bool-cases (test x)) [
    | inl found ↦ rw (found, apart x found) (keep-retain_other routes)
    | inr kept ↦
        rw kept (ap (λ kept. if other x then x ∷ kept else kept) (keep-retain_other routes))
  ]

nil_of_length : (xs : List RibRoute) → suc (length xs) ≤ 1 → xs ≡ []
nil_of_length [] h = refl
nil_of_length (x ∷ xs) h = absurd (omega (arith, h))

module _ (test : RibRoute → Bool) where
  keep-replace_same :
      (route : RibRoute) (routes : List RibRoute)
      → test route ≡ true
      → length (keep test routes) ≤ 1
      → keep test (replace_or_push test route routes) ≡ route ∷ []
  unfolding replace_or_push
  keep-replace_same route [] h one = rw h refl
  keep-replace_same route (x ∷ routes) h one = elim (Bool-cases (test x)) [
    | inl found ↦
        rw (found, h)
          (ap (◌∷◌ route) (
            nil_of_length (keep test routes) (
              subst (λ b. length (if b then x ∷ keep test routes else keep test routes) ≤ 1) found
                one)))
    | inr next ↦
        rw (next, next)
          (keep-replace_same route routes h (
            subst (λ b. length (if b then x ∷ keep test routes else keep test routes) ≤ 1) next
              one))
  ]

  keep-retain_same : (routes : List RibRoute) → keep test (keep (λ x. not (test x)) routes) ≡ []
  keep-retain_same [] = refl
  keep-retain_same (x ∷ routes) = elim (Bool-cases (test x)) [
    | inl found ↦ rw (found) (keep-retain_same routes)
    | inr kept ↦ rw (kept, kept) (keep-retain_same routes)
  ]

  length-retain :
      (routes : List RibRoute)
      → length (keep (λ x. not (test x)) routes) + length (keep test routes) ≡ length routes
  length-retain [] = omega arith
  length-retain (x ∷ routes) = elim (Bool-cases (test x)) [
    | inl found ↦ rw found (omega (arith, length-retain routes))
    | inr kept ↦ rw kept (omega (arith, length-retain routes))
  ]

-- Another prefix or another neighbour.
abbrev pub is_same : GdpPrefix → RouterId → GdpPrefix → RouterId → Bool
is_same p n q m = same_prefix q p && m == n

pub is_from-apart :
    (n m : RouterId) (from : Option RouterId)
    → is_from from n ≡ true
    → is_from from m ≡ true
    → (m == n) ≡ true
is_from-apart n m none h k = absurd (ground (arith, h))
is_from-apart n m (some from) h k = ground (arith, h, k)

is_learned-apart :
    (p q : GdpPrefix) (n m : RouterId) (x : RibRoute)
    → is_same p n q m ≡ false
    → is_learned p n x ≡ true
    → is_learned q m x ≡ false
is_learned-apart p q n m x h k = ground (arith, h, k, is_from-apart n m x.learned_from)

is_learned-route :
    (from : RouterId) (port : ℕ) (a : RouteAdvertise)
    → is_learned a.prefix from (learned_route from port a) ≡ true
is_learned-route from port a = ground arith

-- One view of the table is set, and all others are kept.
pub record IsStored (rib rib' : RouterRib) (p : GdpPrefix) (n : RouterId) (l : List RibRoute)
    : Type 0 where
  pub set_view : view rib' p n ≡ l
  pub kept_views :
      (q : GdpPrefix) (m : RouterId) → is_same p n q m ≡ false → view rib' q m ≡ view rib q m
  pub kept_id : rib'.local_router_id ≡ rib.local_router_id

IsStored-IsTidy :
    (rib rib' : RouterRib) (p : GdpPrefix) (n : RouterId) (l : List RibRoute)
    → length l ≤ 1
    → IsTidy rib
    → IsStored rib rib' p n l
    → IsTidy rib'
unfolding IsTidy
IsStored-IsTidy rib rib' p n l one tidy s q m = elim (Bool-cases (is_same p n q m)) [
  | inl same ↦
      subst (λ k. length (view rib' q k) ≤ 1) (neighbors same)
        (subst (λ r. length (view rib' r n) ≤ 1) (sym (same_prefix-eq q p (prefixes same)))
          (subst (λ v. length v ≤ 1) (sym s.set_view) one))
  | inr other ↦ subst (λ v. length v ≤ 1) (sym (s.kept_views q m other)) (tidy q m)
]
  where
    neighbors : is_same p n q m ≡ true → n ≡ m
    neighbors same = ground (arith, same)

    prefixes : is_same p n q m ≡ true → same_prefix q p ≡ true
    prefixes same = ground (arith, same)

-- Why an advertisement is refused.
unfoldable pub IsForeign : RouterRib → RouterId → RouteAdvertise → Type 0
IsForeign rib from a =
    (from ≢ rib.local_router_id)
    × (a.advertiser ≡ from)
    × ((a.origin ≡ connected) ⊎ (a.origin ≡ learned))

is_private-allowed : (o : RouteOrigin) → (o ≡ connected) ⊎ (o ≡ learned) → is_private o ≡ false
is_private-allowed o (inl e) = ap is_private e
is_private-allowed o (inr e) = ap is_private e

allowed_of : (o : RouteOrigin) → is_private o ≡ false → (o ≡ connected) ⊎ (o ≡ learned)
allowed_of connected h = inl refl
allowed_of learned h = inr refl
allowed_of static h = absurd (ground (arith, h))
allowed_of escape h = absurd (ground (arith, h))

IsForeign-accepted :
    (rib : RouterRib) (from : RouterId) (a : RouteAdvertise)
    → (from == rib.local_router_id || (a.advertiser != from || is_private a.origin)) ≡ false
    → IsForeign rib from a
unfolding IsForeign
IsForeign-accepted rib from a h = (
  other h,
  same h,
  allowed_of a.origin
      (allowed (from == rib.local_router_id) (a.advertiser != from) (is_private a.origin) h),
)
  where
    other :
        (from == rib.local_router_id || (a.advertiser != from || is_private a.origin)) ≡ false
        → from ≢ rib.local_router_id
    other h e = ground (arith, h, e)

    same :
        (from == rib.local_router_id || (a.advertiser != from || is_private a.origin)) ≡ false
        → a.advertiser ≡ from
    same h = ground (arith, h)

    allowed : (x y z : Bool) → (x || (y || z)) ≡ false → z ≡ false
    allowed x y z h = ground (arith, h)

IsForeign-refused :
    (rib : RouterRib) (from : RouterId) (a : RouteAdvertise)
    → (from == rib.local_router_id || (a.advertiser != from || is_private a.origin)) ≡ true
    → IsForeign rib from a
    → ⊥
unfolding IsForeign
IsForeign-refused rib from a h f =
    let p : is_private a.origin ≡ false = is_private-allowed a.origin f.2 in
    let first : (from == rib.local_router_id) ≡ false = apart f.0 in
    let second : (a.advertiser != from) ≡ false = together f.1 in
    absurd (ground (arith, h, first, second, p))
  where
    apart : from ≢ rib.local_router_id → (from == rib.local_router_id) ≡ false
    apart d = ground (arith, d)

    together : a.advertiser ≡ from → (a.advertiser != from) ≡ false
    together e = ground (arith, e)

-- An advertisement of another router for itself, for a connected or a learned route, becomes the one
-- route to its prefix from that router, with all else kept; any other is refused, with nothing changed.
pub receive_advertisement-IsStored :
    (rib : RouterRib) (from : RouterId) (port : ℕ) (a : RouteAdvertise)
    → IsTidy rib
    → (IsForeign rib from a
        × ((receive_advertisement rib from port a).1 ≡ ok tt)
        × IsTidy (receive_advertisement rib from port a).0
        × IsStored rib
            (receive_advertisement rib from port a).0
            a.prefix
            from
            (learned_route from port a ∷ []))
      ⊎ ((IsForeign rib from a → ⊥)
          × (receive_advertisement rib from port a ≡ (rib, err invalid_field)))
unfolding receive_advertisement view IsTidy
receive_advertisement-IsStored rib from port a tidy =
    elim (Bool-cases
      (from == rib.local_router_id || (a.advertiser != from || is_private a.origin))) [
        | inl refused ↦ rw refused (inr (IsForeign-refused rib from a refused, refl))
        | inr accepted ↦ rw accepted (
            inl (
              IsForeign-accepted rib from a accepted,
              refl,
              IsStored-IsTidy rib _ a.prefix from _ (omega arith) tidy stored,
              stored,
            ))
      ]
  where
    stored :
        IsStored rib
          (record rib {
            routes =
                replace_or_push (is_learned a.prefix from) (learned_route from port a) rib.routes;
          })
          a.prefix
          from
          (learned_route from port a ∷ [])
    stored = record {
      set_view =
          keep-replace_same (is_learned a.prefix from) (learned_route from port a) rib.routes
            (is_learned-route from port a) (tidy a.prefix from);
      kept_views = λ q m other.
          keep-replace_other (is_learned a.prefix from) (is_learned q m)
            (λ x found. is_learned-apart a.prefix q from m x other found)
            (learned_route from port a) rib.routes
            (is_learned-apart a.prefix q from m (learned_route from port a) other
              (is_learned-route from port a));
      kept_id = refl;
    }

-- A withdrawal by another router for itself clears the route to its prefix from that router, with all
-- else kept, and tells whether there was one; any other is refused, with nothing changed.
pub receive_withdrawal-IsStored :
    (rib : RouterRib) (from : RouterId) (w : RouteWithdraw)
    → IsTidy rib
    → ((from ≢ rib.local_router_id)
        × (w.advertiser ≡ from)
        × IsTidy (receive_withdrawal rib from w).0
        × IsStored rib (receive_withdrawal rib from w).0 w.prefix from []
        × ((receive_withdrawal rib from w).1 ≡ ok (length (view rib w.prefix from) != 0)))
      ⊎ (((from ≢ rib.local_router_id) × (w.advertiser ≡ from) → ⊥)
          × (receive_withdrawal rib from w ≡ (rib, err invalid_field)))
unfolding receive_withdrawal view IsTidy
receive_withdrawal-IsStored rib from w tidy =
    elim (Bool-cases (from == rib.local_router_id || w.advertiser != from)) [
      | inl refused ↦ rw refused (inr ((λ f. ground (arith, refused, f.0, f.1)), refl))
      | inr accepted ↦ rw accepted (
          inl (
            (λ e. ground (arith, accepted, e)),
            (ground (arith, accepted)),
            IsStored-IsTidy rib _ w.prefix from [] (omega arith) tidy cleared,
            cleared,
            ap (λ (b : Bool). ok b) counted,
          ))
    ]
  where
    cleared :
        IsStored rib
          (record rib { routes = keep (λ route. not (is_learned w.prefix from route)) rib.routes })
          w.prefix
          from
          []
    cleared = record {
      set_view = keep-retain_same (is_learned w.prefix from) rib.routes;
      kept_views = λ q m other.
          keep-retain_other (is_learned w.prefix from) (is_learned q m)
            (λ x found. is_learned-apart w.prefix q from m x other found) rib.routes;
      kept_id = refl;
    }

    counted :
        (length (keep (λ route. not (is_learned w.prefix from route)) rib.routes)
          != length rib.routes)
        ≡ (length (keep (is_learned w.prefix from) rib.routes) != 0)
    counted = ground (arith, length-retain (is_learned w.prefix from) rib.routes)
