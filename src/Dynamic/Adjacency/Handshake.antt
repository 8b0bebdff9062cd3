-- ===== src/Dynamic/Adjacency/Handshake.antt =====
-- router_adjacency.rs with wire/gctl_routing.rs: two routers that exchange a hello and its answer.
use smolgnet.Base.{ℕ, ◌≡◌, ◌≢◌, refl, sym, ◌∙◌, arith, false, ◌||◌, ◌==◌, Option, none, some, List}
use smolgnet.Base.Results.{Result, ok, err}
use smolgnet.Base.Words.{IsU32}
use smolgnet.Time.{Instant}
use smolgnet.Dynamic.Messages.{
  RouterHello, RoutingGctlMessage, router_hello, router_hello_ack, encode, decode, message,
}
use smolgnet.Dynamic.Messages.RoundTrip.{IsHello, IsBody, decode-encode_message}
use smolgnet.Dynamic.Adjacency.{
  RouterAdjacency, local_hello, hello, receive, receive_body, accept_peer, seen,
}

-- A message that arrives as bytes.
unfoldable pub deliver :
    RouterAdjacency → Instant → List ℕ → RouterAdjacency × Result (Option RoutingGctlMessage)
deliver a now bytes = elim (decode bytes) [ ok m ↦ receive a now m | err e ↦ (a, err e) ]

accept_peer-ok :
    (a : RouterAdjacency) (now : Instant) (peer : RouterHello)
    → peer.router_id ≢ a.local_router_id
    → peer.hold_time_ms ≢ 0
    → accept_peer a now peer ≡ (record a { neighbor = some (seen now peer) }, ok tt)
unfolding accept_peer
accept_peer-ok a now peer other hold = rw (accepted) refl
  where
    accepted : (peer.router_id == a.local_router_id || peer.hold_time_ms == 0) ≡ false
    accepted = ground (arith, other, hold)

deliver-encode :
    (a : RouterAdjacency) (now : Instant) (m : RoutingGctlMessage)
    → IsU32 m.transaction_id
    → IsBody m.body
    → deliver a now (encode m) ≡ receive a now m
unfolding deliver
deliver-encode a now m word v = rw (deliver, (decode-encode_message m word v).1) refl

-- Two routers with different ids, whose own parameters are in range and whose hold times are not zero:
-- when the second receives the bytes of the first one's hello, it answers with a message, and when the
-- first receives the bytes of that answer, which it does not answer, each has the other as its
-- neighbour, up, seen at the time of the message.
pub deliver-hello :
    (a b : RouterAdjacency) (id t u : ℕ)
    → IsU32 id
    → IsHello (local_hello a)
    → IsHello (local_hello b)
    → a.local_router_id ≢ b.local_router_id
    → a.local_hold_time_ms ≢ 0
    → b.local_hold_time_ms ≢ 0
    → (answer : RoutingGctlMessage) × (deliver b t (encode (hello a id))
        ≡ (record b { neighbor = some (seen t (local_hello a)) }, ok (some answer)))
      × (deliver a u (encode answer)
          ≡ (record a { neighbor = some (seen u (local_hello b)) }, ok none))
unfolding hello receive receive_body IsBody local_hello
deliver-hello a b id t u word va vb distinct ha hb = (
  message id (router_hello_ack (local_hello b)),
  deliver-encode b t (message id (router_hello (local_hello a))) word va
      ∙ rw (accept_peer-ok b t (local_hello a) distinct ha) refl,
  deliver-encode a u (message id (router_hello_ack (local_hello b))) word vb
      ∙ rw (accept_peer-ok a u (local_hello b) (λ e. distinct (sym e)) hb) refl,
)
