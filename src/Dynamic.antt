-- ===== src/Dynamic.antt =====
-- dynamic_routing.rs: the types of the routing protocol. A router id, a link id and a metric are
-- their numbers.
pub mod Messages
pub mod Adjacency
pub mod Rib
mod Tests
use smolgnet.Base.{ℕ, zero, suc, ◌+◌, ◌-◌, ◌^◌, Bool, true, false, min, not, ◌==◌}
use smolgnet.Base.Results.{Result, ok, err, guard, ◌>>=◌, ◌>>◌, invalid_field}
use smolgnet.Base.Words.{sat_add32}

abbrev pub RouterId : Type 0
RouterId = ℕ

abbrev pub LinkId : Type 0
LinkId = ℕ

abbrev pub RouteMetric : Type 0
RouteMetric = ℕ

-- `RouterId::new` and `LinkId::new`.
unfoldable pub router_id_new : ℕ → Result RouterId
router_id_new value = do guard (not (value == 0)) invalid_field; ok value

unfoldable pub link_id_new : ℕ → Result LinkId
link_id_new value = do guard (not (value == 0)) invalid_field; ok value

pub data RouteOrigin : Type 0 where
  connected learned static escape : RouteOrigin

-- `self as u8`.
unfoldable pub origin_code : RouteOrigin → ℕ
origin_code connected = 0
origin_code learned = 1
origin_code static = 2
origin_code escape = 3

unfoldable pub origin_from_wire : ℕ → Result RouteOrigin
origin_from_wire zero = ok connected
origin_from_wire (suc zero) = ok learned
origin_from_wire (suc (suc zero)) = ok static
origin_from_wire (suc (suc (suc zero))) = ok escape
origin_from_wire (suc (suc (suc (suc value)))) = err invalid_field

unfoldable pub administrative_preference : RouteOrigin → ℕ
administrative_preference connected = 0
administrative_preference static = 10
administrative_preference learned = 100
administrative_preference escape = 255

abbrev pub same_origin : RouteOrigin → RouteOrigin → Bool
same_origin connected connected = true
same_origin learned learned = true
same_origin static static = true
same_origin escape escape = true
same_origin a b = false

abbrev pub default_link : RouteMetric
default_link = 100

abbrev pub metric_add : RouteMetric → RouteMetric → RouteMetric
metric_add a b = sat_add32 a b
