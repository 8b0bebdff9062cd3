-- ===== src/Dynamic/Rib/Removal.antt =====
-- router_rib.rs: the routes of a neighbour that goes away, and the local routes.
use smolgnet.Base.{
  ◌≤◌, ◌≡◌, ◌∙◌, refl, sym, ap, subst, arith, Bool, true, false, not, ◌&&◌, ◌||◌, inl, inr,
  Bool-cases,
}
use smolgnet.Base.{List, [], ◌∷◌, Option, none, some, length, map, ◌==◌, ◌!=◌, ==_iff}
use smolgnet.Routing.{GdpPrefix, same_prefix}
use smolgnet.Dynamic.{RouterId, learned, same_origin}
use smolgnet.Dynamic.Rib.{RibRoute, RouterRib, keep, is_learned, is_from, is_none, is_from_neighbor}
use smolgnet.Dynamic.Rib.{insert_prefix, prefix_set, remove_learned_from, upsert_local}
use smolgnet.Dynamic.Rib.Order.{same_prefix_sym}
use smolgnet.Dynamic.Rib.Table.{view, IsTidy, keep-retain_other, keep-replace_other, is_from-apart}

-- A prefix stands in the set.
abbrev pub mem_prefix : GdpPrefix → List GdpPrefix → Bool
mem_prefix p [] = false
mem_prefix p (q ∷ set) = same_prefix p q || mem_prefix p set

pub mem_prefix-insert :
    (p q : GdpPrefix) (set : List GdpPrefix)
    → mem_prefix p (insert_prefix q set) ≡ (same_prefix p q || mem_prefix p set)
unfolding insert_prefix
mem_prefix-insert p q [] = refl
mem_prefix-insert p q (r ∷ set) = ground (arith, mem_prefix-insert p q set)

pub mem_prefix-set :
    (p : GdpPrefix) (l : List GdpPrefix) → mem_prefix p (prefix_set l) ≡ mem_prefix p l
unfolding prefix_set
mem_prefix-set p [] = refl
mem_prefix-set p (q ∷ l) =
    mem_prefix-insert p q (prefix_set l) ∙ ap (λ b. same_prefix p q || b) (mem_prefix-set p l)

prefix_of : RibRoute → GdpPrefix
prefix_of route = route.prefix

keep-retain_all :
    (test inner : RibRoute → Bool)
    → ((x : RibRoute) → inner x ≡ true → test x ≡ true)
    → (routes : List RibRoute) → keep inner (keep (λ x. not (test x)) routes) ≡ []
keep-retain_all test inner within [] = refl
keep-retain_all test inner within (x ∷ routes) = elim (Bool-cases (test x)) [
  | inl found ↦ rw found (keep-retain_all test inner within routes)
  | inr kept ↦ elim (Bool-cases (inner x)) [
    | inl also ↦ absurd (ground (arith, kept, within x also))
    | inr out ↦ rw (kept, out) (keep-retain_all test inner within routes)
  ]
]

is_learned-is_from_neighbor :
    (p : GdpPrefix) (n : RouterId) (x : RibRoute)
    → is_learned p n x ≡ true
    → is_from_neighbor n x ≡ true
is_learned-is_from_neighbor p n x h = ground (arith, h)

is_from_neighbor-apart :
    (q : GdpPrefix) (n m : RouterId) (x : RibRoute)
    → (m == n) ≡ false
    → is_from_neighbor n x ≡ true
    → is_learned q m x ≡ false
is_from_neighbor-apart q n m x other h = ground (arith, h, other, is_from-apart n m x.learned_from)

and_false : (b : Bool) → (b && false) ≡ false
and_false b = ground arith

mem_prefix-changed :
    (p : GdpPrefix) (n : RouterId) (routes : List RibRoute)
    → mem_prefix p (map (λ (route : RibRoute). route.prefix) (keep (is_from_neighbor n) routes))
      ≡ (length (keep (is_learned p n) routes) != 0)
mem_prefix-changed p n [] = ground arith
mem_prefix-changed p n (x ∷ routes) = elim (Bool-cases (is_from_neighbor n x)) [
  | inl from ↦ elim (Bool-cases (same_prefix x.prefix p)) [
    | inl same ↦ rw (from, same_prefix_sym p x.prefix, same) (ground arith)
    | inr other ↦ rw (from, same_prefix_sym p x.prefix, other) (mem_prefix-changed p n routes)
  ]
  | inr not_from ↦ rw (not_from, and_false (same_prefix x.prefix p)) (mem_prefix-changed p n routes)
]

-- When a neighbour goes away no route is left from it, those from others are kept, and exactly the
-- prefixes that had one are reported.
pub record IsRemoved (rib : RouterRib) (n : RouterId) (after : RouterRib × List GdpPrefix)
    : Type 0 where
  pub gone : (p : GdpPrefix) → view after.0 p n ≡ []
  pub kept : (p : GdpPrefix) (m : RouterId) → (m == n) ≡ false → view after.0 p m ≡ view rib p m
  pub reported : (p : GdpPrefix) → mem_prefix p after.1 ≡ (length (view rib p n) != 0)
  pub tidy : IsTidy after.0

pub remove_learned_from-IsRemoved :
    (rib : RouterRib) (n : RouterId) → IsTidy rib → IsRemoved rib n (remove_learned_from rib n)
unfolding remove_learned_from view IsTidy
remove_learned_from-IsRemoved rib n tidy = record {
  gone = gone;
  kept = kept;
  reported = λ p. mem_prefix-set p _ ∙ mem_prefix-changed p n rib.routes;
  tidy = λ p m. elim (Bool-cases (m == n)) [
    | inl same ↦
        subst
          (λ k.
            length
              (keep (is_learned p k) (keep (λ route. not (is_from_neighbor n route)) rib.routes))
            ≤ 1)
          (sym ((==_iff m n).0 same)) (subst (λ l. length l ≤ 1) (sym (gone p)) (omega arith))
    | inr other ↦ subst (λ l. length l ≤ 1) (sym (kept p m other)) (tidy p m)
  ];
}
  where
    gone :
        (p : GdpPrefix)
        → keep (is_learned p n) (keep (λ route. not (is_from_neighbor n route)) rib.routes) ≡ []
    gone p =
        keep-retain_all (is_from_neighbor n) (is_learned p n) (is_learned-is_from_neighbor p n)
          rib.routes

    kept :
        (p : GdpPrefix) (m : RouterId)
        → (m == n) ≡ false
        → keep (is_learned p m) (keep (λ route. not (is_from_neighbor n route)) rib.routes)
          ≡ keep (is_learned p m) rib.routes
    kept p m other =
        keep-retain_other (is_from_neighbor n) (is_learned p m)
          (λ x h. is_from_neighbor-apart p n m x other h) rib.routes

and_last : (a b c : Bool) → (a && (b && c)) ≡ true → c ≡ true
and_last a b c h = ground (arith, h)

unlearned :
    (x : RibRoute) (p : GdpPrefix) (n : RouterId)
    → is_none x.learned_from ≡ true
    → is_learned p n x ≡ false
unlearned x p n h = not_from x.learned_from h
  where
    not_from :
        (o : Option RouterId)
        → is_none o ≡ true
        → (same_prefix x.prefix p && (same_origin x.origin learned && is_from o n)) ≡ false
    not_from none h = ground arith
    not_from (some id) h = absurd (ground (arith, h))

-- A local route, one that no neighbour has told of, changes nothing of what was learned.
pub upsert_local-kept :
    (rib : RouterRib) (route : RibRoute)
    → route.learned_from ≡ none
    → (p : GdpPrefix) (n : RouterId) → view (upsert_local rib route) p n ≡ view rib p n
unfolding upsert_local view
upsert_local-kept rib route local p n =
    keep-replace_other
      (λ x.
        same_prefix x.prefix route.prefix
        && (same_origin x.origin route.origin && is_none x.learned_from))
      (is_learned p n) (λ x h. unlearned x p n (and_last _ _ _ h)) route rib.routes
      (unlearned route p n (ap is_none local))
