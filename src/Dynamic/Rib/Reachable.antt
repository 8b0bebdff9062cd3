-- ===== src/Dynamic/Rib/Reachable.antt =====
-- router_rib.rs: the table after any calls of its methods.
use smolgnet.Base.{ℕ, ◌≤◌, ◌≡◌, refl, sym, subst, arith, inl, inr, length, none}
use smolgnet.Routing.{GdpPrefix}
use smolgnet.Dynamic.{RouterId, RouteMetric}
use smolgnet.Dynamic.Messages.{RouteAdvertise, RouteWithdraw}
use smolgnet.Dynamic.Rib.{RibRoute, RouterRib, new, add_connected, add_static, upsert_local}
use smolgnet.Dynamic.Rib.{receive_advertisement, receive_withdrawal, remove_learned_from}
use smolgnet.Dynamic.Rib.Table.{
  view, IsTidy, receive_advertisement-IsStored, receive_withdrawal-IsStored,
}
use smolgnet.Dynamic.Rib.Removal.{upsert_local-kept, remove_learned_from-IsRemoved}

pub data Change (rib : RouterRib) : RouterRib → Type 0 where
  connect : (p : GdpPrefix) (port : ℕ) → Change rib (add_connected rib p port)
  configure :
      (p : GdpPrefix) (port : ℕ) (metric : RouteMetric) → Change rib (add_static rib p port metric)
  advertised :
      (from : RouterId) (port : ℕ) (a : RouteAdvertise)
      → Change rib (receive_advertisement rib from port a).0
  withdrawn : (from : RouterId) (w : RouteWithdraw) → Change rib (receive_withdrawal rib from w).0
  detached : (neighbor : RouterId) → Change rib (remove_learned_from rib neighbor).0

pub data Reachable (id : RouterId) : RouterRib → Type 0 where
  start : Reachable id (new id)
  next : {rib rib' : RouterRib} → Reachable id rib → Change rib rib' → Reachable id rib'

upsert_local-IsTidy :
    (rib : RouterRib) (route : RibRoute)
    → route.learned_from ≡ none
    → IsTidy rib
    → IsTidy (upsert_local rib route)
unfolding IsTidy
upsert_local-IsTidy rib route local tidy p n =
    subst (λ l. length l ≤ 1) (sym (upsert_local-kept rib route local p n)) (tidy p n)

Change-IsTidy : {rib rib' : RouterRib} → Change rib rib' → IsTidy rib → IsTidy rib'
unfolding add_connected add_static
Change-IsTidy {rib = rib} (connect p port) tidy = upsert_local-IsTidy rib _ refl tidy
Change-IsTidy {rib = rib} (configure p port metric) tidy = upsert_local-IsTidy rib _ refl tidy
Change-IsTidy {rib = rib} (advertised from port a) tidy =
    elim (receive_advertisement-IsStored rib from port a tidy) [
      | inl stored ↦ stored.2
      | inr refused ↦ subst (λ r. IsTidy r.0) (sym refused.1) tidy
    ]
Change-IsTidy {rib = rib} (withdrawn from w) tidy =
    elim (receive_withdrawal-IsStored rib from w tidy) [
      | inl cleared ↦ cleared.2
      | inr refused ↦ subst (λ r. IsTidy r.0) (sym refused.1) tidy
    ]
Change-IsTidy {rib = rib} (detached n) tidy = (remove_learned_from-IsRemoved rib n tidy).tidy

-- After any local routes, advertisements, withdrawals and departures of neighbours, accepted or not, a
-- table holds at most one learned route for each prefix and neighbour.
pub Reachable-IsTidy : (id : RouterId) {rib : RouterRib} → Reachable id rib → IsTidy rib
unfolding IsTidy view new
Reachable-IsTidy id start p n = omega arith
Reachable-IsTidy id (next r c) p n = Change-IsTidy c (Reachable-IsTidy id r) p n
