-- ===== src/Dynamic/Rib/Order.antt =====
-- router_rib.rs: which route is better is a strict order, by preference, metric and neighbour.
use smolgnet.Base.{
  ℕ, suc, ◌≡◌, ◌∙◌, refl, sym, ap, arith, Bool, true, false, Option, none, some, ltb, ◌!=◌,
  if◌then◌else◌,
}
use smolgnet.Routing.{GdpPrefix, same_prefix}
use smolgnet.Dynamic.{administrative_preference, RouterId}
use smolgnet.Dynamic.Rib.{RibRoute, route_better, learned_before}

-- A route's own neighbour comes before all others.
abbrev learned_rank : Option RouterId → ℕ
learned_rank none = 0
learned_rank (some id) = suc id

learned_before-rank :
    (a b : Option RouterId) → learned_before a b ≡ ltb (learned_rank a) (learned_rank b)
learned_before-rank none none = ground arith
learned_before-rank none (some b) = ground arith
learned_before-rank (some a) none = ground arith
learned_before-rank (some a) (some b) = ground arith

-- Three numbers are compared one after another.
before3 : ℕ → ℕ → ℕ → ℕ → ℕ → ℕ → Bool
before3 p m l p' m' l' = if p != p' then ltb p p' else if m != m' then ltb m m' else ltb l l'

before3_trans :
    (p m l p' m' l' p'' m'' l'' : ℕ)
    → before3 p m l p' m' l' ≡ true
    → before3 p' m' l' p'' m'' l'' ≡ true
    → before3 p m l p'' m'' l'' ≡ true
unfolding before3
before3_trans p m l p' m' l' p'' m'' l'' h k = ground (arith, h, k)

before3_negtrans :
    (p m l p' m' l' p'' m'' l'' : ℕ)
    → before3 p m l p' m' l' ≡ false
    → before3 p' m' l' p'' m'' l'' ≡ false
    → before3 p m l p'' m'' l'' ≡ false
unfolding before3
before3_negtrans p m l p' m' l' p'' m'' l'' h k = ground (arith, h, k)

before3_irrefl : (p m l : ℕ) → before3 p m l p m l ≡ false
unfolding before3
before3_irrefl p m l = ground arith

before3_of : RibRoute → RibRoute → Bool
unfolding before3
before3_of a b =
    before3 (administrative_preference a.origin) a.metric (learned_rank a.learned_from)
      (administrative_preference b.origin) b.metric (learned_rank b.learned_from)

route_better-before3 : (a b : RibRoute) → route_better a b ≡ before3_of a b
unfolding route_better before3_of
route_better-before3 a b = rw (learned_before-rank a.learned_from b.learned_from) refl

pub route_better_trans :
    (a b c : RibRoute) → route_better a b ≡ true → route_better b c ≡ true → route_better a c ≡ true
unfolding before3_of
route_better_trans a b c h k =
    route_better-before3 a c
    ∙ before3_trans (administrative_preference a.origin) a.metric (learned_rank a.learned_from)
        (administrative_preference b.origin) b.metric (learned_rank b.learned_from)
        (administrative_preference c.origin) c.metric (learned_rank c.learned_from)
        (sym (route_better-before3 a b) ∙ h) (sym (route_better-before3 b c) ∙ k)

-- What does not beat a route that does not beat a third one does not beat that one either.
pub route_better_negtrans :
    (a b c : RibRoute)
    → route_better a b ≡ false
    → route_better b c ≡ false
    → route_better a c ≡ false
unfolding before3_of
route_better_negtrans a b c h k =
    route_better-before3 a c
    ∙ before3_negtrans (administrative_preference a.origin) a.metric (learned_rank a.learned_from)
        (administrative_preference b.origin) b.metric (learned_rank b.learned_from)
        (administrative_preference c.origin) c.metric (learned_rank c.learned_from)
        (sym (route_better-before3 a b) ∙ h) (sym (route_better-before3 b c) ∙ k)

pub route_better_irrefl : (a : RibRoute) → route_better a a ≡ false
unfolding before3_of
route_better_irrefl a =
    route_better-before3 a a
    ∙ before3_irrefl (administrative_preference a.origin) a.metric (learned_rank a.learned_from)

pub same_prefix-eq : (p q : GdpPrefix) → same_prefix p q ≡ true → p ≡ q
same_prefix-eq p q h =
    ap (λ x. record { network = x; prefix_len = p.prefix_len }) (networks h)
    ∙ ap (λ x. record { network = q.network; prefix_len = x }) (lengths h)
  where
    networks : same_prefix p q ≡ true → p.network ≡ q.network
    networks h = ground (arith, h)

    lengths : same_prefix p q ≡ true → p.prefix_len ≡ q.prefix_len
    lengths h = ground (arith, h)

pub same_prefix_refl : (p : GdpPrefix) → same_prefix p p ≡ true
same_prefix_refl p = ground arith

pub same_prefix_sym : (p q : GdpPrefix) → same_prefix p q ≡ same_prefix q p
same_prefix_sym p q = ground arith
