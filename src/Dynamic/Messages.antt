-- ===== src/Dynamic/Messages.antt =====
-- wire/gctl_routing.rs: the messages of the routing protocol. The fields of a message stand one after
-- another and fill its array, so its bytes are theirs in that order.
pub mod RoundTrip
use smolgnet.Base.{ℕ, ◌+◌, List, [], ◌∷◌, ◌++◌, Option, none, some, length, get_or, drop}
use smolgnet.Base.{Bool, true, false, not, ◌&&◌, ◌||◌, ◌==◌, ◌!=◌, if◌then◌else◌}
use smolgnet.Base.Results.{Result, ok, err, ok_or, guard, ◌>>=◌, ◌>>◌}
use smolgnet.Base.Results.{invalid_length, invalid_field, unsupported, non_canonical}
use smolgnet.Base.Bytes.{to_be_bytes, from_be_bytes, slice, zeros}
use smolgnet.Routing.{GdpPrefix, prefix_new}
use smolgnet.Dynamic.{RouterId, LinkId, RouteMetric, RouteOrigin, router_id_new, link_id_new}
use smolgnet.Dynamic.{origin_code, origin_from_wire}

pub record RouterHello : Type 0 where
  pub router_id : RouterId
  pub link_id : LinkId
  pub hold_time_ms : ℕ
  pub metric : RouteMetric

pub record RouteAdvertise : Type 0 where
  pub advertiser : RouterId
  pub prefix : GdpPrefix
  pub origin : RouteOrigin
  pub metric : RouteMetric

pub record RouteWithdraw : Type 0 where
  pub advertiser : RouterId
  pub prefix : GdpPrefix

pub data RoutingGctlBody : Type 0 where
  router_hello router_hello_ack : RouterHello → RoutingGctlBody
  route_advertise : RouteAdvertise → RoutingGctlBody
  route_withdraw : RouteWithdraw → RoutingGctlBody

pub record RoutingGctlMessage : Type 0 where
  pub transaction_id : ℕ
  pub body : RoutingGctlBody

-- `RoutingGctlMessage::router_hello`, `router_hello_ack`, `route_advertise` and `route_withdraw`.
abbrev pub message : ℕ → RoutingGctlBody → RoutingGctlMessage
message transaction_id body = record { transaction_id = transaction_id; body = body }

unfoldable pub encode_hello : RouterHello → List ℕ
encode_hello hello =
    to_be_bytes 8 hello.router_id
    ++ (to_be_bytes 8 hello.link_id
        ++ (to_be_bytes 4 hello.hold_time_ms ++ to_be_bytes 4 hello.metric))

unfoldable pub decode_hello : List ℕ → Result RouterHello
decode_hello body = do
  guard (length body == 24) invalid_length
  router_id ← router_id_new (from_be_bytes (slice body 0 8))
  link_id ← link_id_new (from_be_bytes (slice body 8 8))
  ok (record {
    router_id = router_id;
    link_id = link_id;
    hold_time_ms = from_be_bytes (slice body 16 4);
    metric = from_be_bytes (slice body 20 4);
  })

unfoldable pub encode_route_advertise : RouteAdvertise → List ℕ
encode_route_advertise route =
    to_be_bytes 8 route.advertiser
    ++ (to_be_bytes 8 route.prefix.network
        ++ (route.prefix.prefix_len
            ∷ origin_code route.origin
            ∷ 0
            ∷ 0
            ∷ to_be_bytes 4 route.metric))

-- The prefix on the wire: in range, and with no bit behind its length.
unfoldable pub decode_prefix : ℕ → ℕ → Result GdpPrefix
decode_prefix network prefix_len = do
  prefix ← ok_or (prefix_new network prefix_len) invalid_field
  guard (prefix.network == network) non_canonical
  ok prefix

unfoldable pub decode_route_advertise : List ℕ → Result RouteAdvertise
decode_route_advertise body = do
  guard (length body == 24) invalid_length
  guard (not (get_or body 18 0 != 0 || get_or body 19 0 != 0)) invalid_field
  advertiser ← router_id_new (from_be_bytes (slice body 0 8))
  prefix ← decode_prefix (from_be_bytes (slice body 8 8)) (get_or body 16 0)
  origin ← origin_from_wire (get_or body 17 0)
  ok (record {
    advertiser = advertiser;
    prefix = prefix;
    origin = origin;
    metric = from_be_bytes (slice body 20 4);
  })

unfoldable pub encode_route_withdraw : RouteWithdraw → List ℕ
encode_route_withdraw route =
    to_be_bytes 8 route.advertiser
    ++ (to_be_bytes 8 route.prefix.network ++ route.prefix.prefix_len ∷ zeros 7)

abbrev pub any_nonzero : List ℕ → Bool
any_nonzero [] = false
any_nonzero (byte ∷ bytes) = byte != 0 || any_nonzero bytes

unfoldable pub decode_route_withdraw : List ℕ → Result RouteWithdraw
decode_route_withdraw body = do
  guard (length body == 24) invalid_length
  guard (not (any_nonzero (slice body 17 7))) invalid_field
  advertiser ← router_id_new (from_be_bytes (slice body 0 8))
  prefix ← decode_prefix (from_be_bytes (slice body 8 8)) (get_or body 16 0)
  ok (record { advertiser = advertiser; prefix = prefix })

-- The constant and the bytes of a body.
unfoldable pub body_type : RoutingGctlBody → ℕ
body_type (router_hello hello) = 0x40
body_type (router_hello_ack hello) = 0x41
body_type (route_advertise route) = 0x42
body_type (route_withdraw route) = 0x43

unfoldable pub encode_body : RoutingGctlBody → List ℕ
unfolding encode_hello encode_route_advertise encode_route_withdraw
encode_body (router_hello hello) = encode_hello hello
encode_body (router_hello_ack hello) = encode_hello hello
encode_body (route_advertise route) = encode_route_advertise route
encode_body (route_withdraw route) = encode_route_withdraw route

unfoldable pub encode : RoutingGctlMessage → List ℕ
unfolding encode_body body_type
encode m = 1 ∷ body_type m.body ∷ 0 ∷ 0 ∷ (to_be_bytes 4 m.transaction_id ++ encode_body m.body)

unfoldable pub decode_body : ℕ → List ℕ → Result RoutingGctlBody
decode_body message_type body =
    if message_type == 0x40
    then (decode_hello body >>= λ hello. ok (router_hello hello))
    else if message_type == 0x41
    then (decode_hello body >>= λ hello. ok (router_hello_ack hello))
    else if message_type == 0x42
    then (decode_route_advertise body >>= λ route. ok (route_advertise route))
    else if message_type == 0x43
    then (decode_route_withdraw body >>= λ route. ok (route_withdraw route))
    else err unsupported

unfoldable pub decode : List ℕ → Result RoutingGctlMessage
decode buf = do
  guard (length buf == 32) invalid_length
  guard (get_or buf 0 0 == 1) unsupported
  guard (not (get_or buf 2 0 != 0 || get_or buf 3 0 != 0)) invalid_field
  let transaction_id = from_be_bytes (slice buf 4 4)
  body ← decode_body (get_or buf 1 0) (drop 8 buf)
  ok (record { transaction_id = transaction_id; body = body })
