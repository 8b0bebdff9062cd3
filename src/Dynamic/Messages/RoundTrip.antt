-- ===== src/Dynamic/Messages/RoundTrip.antt =====
-- wire/gctl_routing.rs: a message's bytes decode to it.
use smolgnet.Base.{ℕ, suc, ◌≡◌, ◌≢◌, refl, ◌∙◌, arith, some, ◌==◌, ==-refl, length}
use smolgnet.Base.Results.{Result, ok, guard, ◌>>=◌, ◌>>◌, invalid_length}
use smolgnet.Base.Words.{IsU32, IsU64}
use smolgnet.Base.Bytes.{to_be_bytes, from_be_bytes, from_be_bytes-to_be_bytes}
use smolgnet.Routing.{GdpPrefix, prefix_new}
use smolgnet.Dynamic.{RouteOrigin, connected, learned, static, escape, router_id_new, link_id_new}
use smolgnet.Dynamic.{origin_code, origin_from_wire}
use smolgnet.Dynamic.Messages.{
  RouterHello, RouteAdvertise, RouteWithdraw, RoutingGctlBody, RoutingGctlMessage,
}
use smolgnet.Dynamic.Messages.{router_hello, router_hello_ack, route_advertise, route_withdraw}
use smolgnet.Dynamic.Messages.{
  encode, decode, encode_hello, decode_hello, encode_route_advertise, decode_route_advertise,
}
use smolgnet.Dynamic.Messages.{
  encode_route_withdraw, decode_route_withdraw, encode_body, decode_body, decode_prefix, body_type,
}

pub record IsHello (hello : RouterHello) : Type 0 where
  pub router : IsU64 hello.router_id × (hello.router_id ≢ 0)
  pub link : IsU64 hello.link_id × (hello.link_id ≢ 0)
  pub hold : IsU32 hello.hold_time_ms
  pub cost : IsU32 hello.metric

-- A prefix that `GdpPrefix::new` makes of its own network and length.
pub record IsPrefix (prefix : GdpPrefix) : Type 0 where
  pub word : IsU64 prefix.network
  pub made : prefix_new prefix.network prefix.prefix_len ≡ some prefix

pub record IsAdvertise (route : RouteAdvertise) : Type 0 where
  pub router : IsU64 route.advertiser × (route.advertiser ≢ 0)
  pub target : IsPrefix route.prefix
  pub cost : IsU32 route.metric

pub record IsWithdraw (route : RouteWithdraw) : Type 0 where
  pub router : IsU64 route.advertiser × (route.advertiser ≢ 0)
  pub target : IsPrefix route.prefix

link_new-ok : (n : ℕ) → n ≢ 0 → link_id_new n ≡ ok n
unfolding link_id_new
link_new-ok n h = ground arith

id_new-ok : (n : ℕ) → n ≢ 0 → router_id_new n ≡ ok n
unfolding router_id_new
id_new-ok n h = ground arith

word8 : (v : ℕ) → IsU64 v → from_be_bytes (to_be_bytes 8 v) ≡ v
word8 v h = from_be_bytes-to_be_bytes 8 v (omega (arith, h))

word4 : (v : ℕ) → IsU32 v → from_be_bytes (to_be_bytes 4 v) ≡ v
word4 v h = from_be_bytes-to_be_bytes 4 v (omega (arith, h))

decode_hello-encode :
    (hello : RouterHello) → IsHello hello → decode_hello (encode_hello hello) ≡ ok hello
unfolding encode_hello decode_hello to_be_bytes
decode_hello-encode hello v =
    (λ i.
      parts (word8 hello.router_id v.router.0 i) (word8 hello.link_id v.link.0 i)
        (word4 hello.hold_time_ms v.hold i) (word4 hello.metric v.cost i))
    ∙ rw (id_new-ok hello.router_id v.router.1, link_new-ok hello.link_id v.link.1) refl
  where
    parts : ℕ → ℕ → ℕ → ℕ → Result RouterHello
    parts a b c d = do
      router_id ← router_id_new a
      link_id ← link_id_new b
      ok (record { router_id = router_id; link_id = link_id; hold_time_ms = c; metric = d })

origin_from_wire-code : (origin : RouteOrigin) → origin_from_wire (origin_code origin) ≡ ok origin
unfolding origin_from_wire origin_code
origin_from_wire-code connected = refl
origin_from_wire-code learned = refl
origin_from_wire-code static = refl
origin_from_wire-code escape = refl

decode_prefix-ok :
    (prefix : GdpPrefix)
    → IsPrefix prefix
    → decode_prefix prefix.network prefix.prefix_len ≡ ok prefix
unfolding decode_prefix
decode_prefix-ok prefix v = rw (v.made, ==-refl prefix.network) refl

decode_route_advertise-encode :
    (route : RouteAdvertise)
    → IsAdvertise route
    → decode_route_advertise (encode_route_advertise route) ≡ ok route
unfolding encode_route_advertise decode_route_advertise to_be_bytes
decode_route_advertise-encode route v =
    (λ i.
      parts (word8 route.advertiser v.router.0 i) (word8 route.prefix.network v.target.word i)
        (origin_from_wire-code route.origin i) (word4 route.metric v.cost i))
    ∙ rw (id_new-ok route.advertiser v.router.1, decode_prefix-ok route.prefix v.target) refl
  where
    parts : ℕ → ℕ → Result RouteOrigin → ℕ → Result RouteAdvertise
    parts a b o d = do
      advertiser ← router_id_new a
      prefix ← decode_prefix b route.prefix.prefix_len
      origin ← o
      ok (record { advertiser = advertiser; prefix = prefix; origin = origin; metric = d })

decode_route_withdraw-encode :
    (route : RouteWithdraw)
    → IsWithdraw route
    → decode_route_withdraw (encode_route_withdraw route) ≡ ok route
unfolding encode_route_withdraw decode_route_withdraw to_be_bytes
decode_route_withdraw-encode route v =
    (λ i. parts (word8 route.advertiser v.router.0 i) (word8 route.prefix.network v.target.word i))
    ∙ rw (id_new-ok route.advertiser v.router.1, decode_prefix-ok route.prefix v.target) refl
  where
    parts : ℕ → ℕ → Result RouteWithdraw
    parts a b = do
      advertiser ← router_id_new a
      prefix ← decode_prefix b route.prefix.prefix_len
      ok (record { advertiser = advertiser; prefix = prefix })

-- The fields of a body are in range, and its ids are ids.
unfoldable pub IsBody : RoutingGctlBody → Type 0
IsBody (router_hello hello) = IsHello hello
IsBody (router_hello_ack hello) = IsHello hello
IsBody (route_advertise route) = IsAdvertise route
IsBody (route_withdraw route) = IsWithdraw route

decode_body-encode :
    (body : RoutingGctlBody)
    → IsBody body
    → decode_body (body_type body) (encode_body body) ≡ ok body
unfolding decode_body encode_body body_type IsBody
decode_body-encode (router_hello hello) v = rw (decode_hello-encode hello v) refl
decode_body-encode (router_hello_ack hello) v = rw (decode_hello-encode hello v) refl
decode_body-encode (route_advertise route) v = rw (decode_route_advertise-encode route v) refl
decode_body-encode (route_withdraw route) v = rw (decode_route_withdraw-encode route v) refl

length-encode_body : (body : RoutingGctlBody) → length (encode_body body) ≡ 24
unfolding encode_body encode_hello encode_route_advertise encode_route_withdraw to_be_bytes
length-encode_body (router_hello hello) = refl
length-encode_body (router_hello_ack hello) = refl
length-encode_body (route_advertise route) = refl
length-encode_body (route_withdraw route) = refl

-- A message with its fields in range, ids that are not zero and a prefix without stray bits is 32
-- bytes long, and decoding the bytes gives the message.
pub decode-encode_message :
    (m : RoutingGctlMessage)
    → IsU32 m.transaction_id
    → IsBody m.body
    → (length (encode m) ≡ 32) × (decode (encode m) ≡ ok m)
unfolding encode decode to_be_bytes
decode-encode_message m id v = (
  omega (arith, length-encode_body m.body),
  λ i.
      parts (length-encode_body m.body i) (decode_body-encode m.body v i)
        (word4 m.transaction_id id i),
)
  where
    parts : ℕ → Result RoutingGctlBody → ℕ → Result RoutingGctlMessage
    parts n body id = do
      guard (suc (suc (suc (suc (suc (suc (suc (suc n))))))) == 32) invalid_length
      body' ← body
      ok (record { transaction_id = id; body = body' })
