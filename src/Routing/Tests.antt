-- ===== src/Routing/Tests.antt =====
-- routing.rs: the theorems at a table of four slots.
use smolgnet.Base.{
  ℕ, ◌≡◌, refl, arith, ◌/◌, ◌^◌, ◌+◌, ◌-◌, ◌==◌, true, false, [], ◌∷◌, Option, none, some, ◌⊎◌,
}
use smolgnet.Routing.{
  GdpPrefix, prefix_mask, Route, RouteTable, prefix_new, contains, lookup, add, remove,
  prune_expired,
}
use smolgnet.Routing.Prefix.{contains-prefix_new}
use smolgnet.Routing.Lookup.{Answers, lookup-Answers}
use smolgnet.Routing.Table.{
  IsCounted, add-IsCounted, remove-IsCounted, prune_expired-IsCounted, occupied_slots,
}

abbrev wide : GdpPrefix
wide = record { network = 0x1234_0000_0000_0000; prefix_len = 16 }

abbrev narrow : GdpPrefix
narrow = record { network = 0x1234_5600_0000_0000; prefix_len = 24 }

abbrev route_to : GdpPrefix → ℕ → Option ℕ → Route
route_to prefix router expires_at = record {
  prefix = prefix;
  via_router = router;
  preferred_until = none;
  expires_at = expires_at;
}

abbrev small_table : RouteTable
small_table = record {
  routes = some (route_to wide 2 none) ∷ none ∷ some (route_to narrow 3 (some 10)) ∷ none ∷ [];
  len = 2;
}

small_table-IsCounted : IsCounted 4 small_table
unfolding occupied_slots
small_table-IsCounted = record { slots = refl; counted = refl }

lookup_example :
    Answers 0x1234_5678_0000_0001 5 small_table.routes (lookup small_table 0x1234_5678_0000_0001 5)
lookup_example = lookup-Answers small_table 0x1234_5678_0000_0001 5

prefix_made : prefix_new 0x1234_5678_9abc_def0 16 ≡ some wide
unfolding prefix_new prefix_mask
prefix_made = refl

contains_example :
    contains wide 0x1234_ffff_0000_0000
    ≡ (0x1234_ffff_0000_0000 / 2 ^ (64 - 16) == 0x1234_5678_9abc_def0 / 2 ^ (64 - 16))
contains_example =
    contains-prefix_new 0x1234_5678_9abc_def0 16 0x1234_ffff_0000_0000 wide (omega arith)
      (omega arith) prefix_made

add_example :
    IsCounted 4 (add small_table (route_to wide 7 none)).0
    × (((add small_table (route_to wide 7 none)).1 ≡ true)
          × ((add small_table (route_to wide 7 none)).0.len ≡ small_table.len + 1)
        ⊎ ((add small_table (route_to wide 7 none)).1 ≡ false)
          × ((add small_table (route_to wide 7 none)).0 ≡ small_table)
          × (small_table.len ≡ 4))
add_example = add-IsCounted 4 small_table (route_to wide 7 none) small_table-IsCounted

remove_example : IsCounted 4 (remove small_table narrow).0
remove_example = remove-IsCounted 4 small_table narrow small_table-IsCounted

prune_example :
    IsCounted 4 (prune_expired small_table 11).0
    × ((prune_expired small_table 11).0.len + (prune_expired small_table 11).1 ≡ small_table.len)
prune_example = prune_expired-IsCounted 4 small_table 11 small_table-IsCounted
