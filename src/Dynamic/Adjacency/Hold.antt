-- ===== src/Dynamic/Adjacency/Hold.antt =====
-- router_adjacency.rs: what the state says of the messages received so far. A history has its last
-- event first.
use smolgnet.Base.{ℕ, ◌-◌, ◌≤◌, ◌<◌, ◌≡◌, ◌≢◌, ◌↔◌, refl, sym, ap, subst, ◌∙◌, arith, Bool, ◌||◌}
use smolgnet.Base.{
  List, [], ◌∷◌, Option, none, some, inl, inr, Bool-cases, if◌then◌else◌, if_true, if_false, ◌==◌,
}
use smolgnet.Base.Results.{Result, ok, err, ◌then_ok◌}
use smolgnet.Time.{Instant, saturating_duration_since}
use smolgnet.Dynamic.{RouterId}
use smolgnet.Dynamic.Messages.{RouterHello, RoutingGctlMessage, RoutingGctlBody, message}
use smolgnet.Dynamic.Messages.{router_hello, router_hello_ack, route_advertise, route_withdraw}
use smolgnet.Dynamic.Adjacency.{NeighborState, RouterNeighbor, RouterAdjacency, down, up, seen}
use smolgnet.Dynamic.Adjacency.{
  adjacency_state, accept_peer, receive, receive_body, expire, expire_known, expire_up, is_overdue,
  local_hello,
}

pub data Event : Type 0 where
  heard : Instant → RoutingGctlMessage → Event
  checked : Instant → Event

abbrev pub time_of : Event → Instant
time_of (heard at m) = at
time_of (checked at) = at

abbrev pub apply : RouterAdjacency → Event → RouterAdjacency
apply a (heard at m) = (receive a at m).0
apply a (checked at) = (expire a at).0

unfoldable pub run : RouterAdjacency → List Event → RouterAdjacency
run a [] = a
run a (event ∷ events) = apply (run a events) event

-- No event is later than those before it in the list, and none later than now.
unfoldable pub IsOrdered : Instant → List Event → Type 0
IsOrdered now [] = Unit
IsOrdered now (event ∷ events) = (time_of event ≤ now) × IsOrdered (time_of event) events

-- The peer that a message introduces, unless it is the router itself or has no hold time.
abbrev pub valid_peer : RouterId → RouterHello → Option RouterHello
valid_peer local peer =
    if peer.router_id == local || peer.hold_time_ms == 0 then none else some peer

abbrev pub introduced : RouterId → RoutingGctlBody → Option RouterHello
introduced local (router_hello peer) = valid_peer local peer
introduced local (router_hello_ack peer) = valid_peer local peer
introduced local (route_advertise route) = none
introduced local (route_withdraw route) = none

abbrev pub latest :
    Instant → Option RouterHello → Option (Instant × RouterHello) → Option (Instant × RouterHello)
latest at none before = before
latest at (some peer) before = some (at, peer)

-- The last introduction of a history.
unfoldable pub last_heard : RouterId → List Event → Option (Instant × RouterHello)
last_heard local [] = none
last_heard local (heard at m ∷ events) =
    latest at (introduced local m.body) (last_heard local events)
last_heard local (checked at ∷ events) = last_heard local events

-- Its hold time has not run out.
unfoldable pub IsAlive : Option (Instant × RouterHello) → Instant → Type 0
IsAlive none now = ⊥
IsAlive (some (at, peer)) now = now - at < peer.hold_time_ms

-- The neighbour is the last one heard, and is down only when its hold time is over now.
unfoldable pub Remembers : Instant → Option (Instant × RouterHello) → Option RouterNeighbor → Type 0
Remembers now none n = n ≡ none
Remembers now (some (at, peer)) none = ⊥
Remembers now (some (at, peer)) (some n) =
    (at ≤ now)
    × (record n { state = up } ≡ seen at peer)
    × (n.state ≡ down → peer.hold_time_ms ≤ now - at)

some-ne-none {ℓ} : {A : Type ℓ} {a : A} → some a ≢ none
some-ne-none h = cc

Remembers-later :
    (now later : Instant) (o : Option (Instant × RouterHello)) (n : Option RouterNeighbor)
    → now ≤ later
    → Remembers now o n
    → Remembers later o n
unfolding Remembers
Remembers-later now later none n h r = r
Remembers-later now later (some (at, peer)) none h r = r
Remembers-later now later (some (at, peer)) (some n) h r =
    (omega (arith, h, r.0), r.1, λ d. omega (arith, h, r.2 d))

up-ne-down : up ≢ down
up-ne-down h = cc

Remembers-peer :
    (a : RouterAdjacency) (now : Instant) (peer : RouterHello) (o : Option (Instant × RouterHello))
    → Remembers now o a.neighbor
    → Remembers now
        (latest now (valid_peer a.local_router_id peer) o)
        (accept_peer a now peer).0.neighbor
unfolding accept_peer Remembers seen
Remembers-peer a now peer o r =
    elim (Bool-cases (peer.router_id == a.local_router_id || peer.hold_time_ms == 0)) [
      | inl bad ↦ rw bad r
      | inr good ↦ rw good (omega arith, refl, λ d. absurd (up-ne-down d))
    ]

-- What a method answers after `accept_peer` does not change what that left.
then_answer {ℓ κ μ} :
    {S : Type ℓ} {A : Type κ} {B : Type μ} (m : S × Result A) (answer : S → Result B)
    → (m then_ok λ s a. (s, answer s)).0 ≡ m.0
then_answer (s, ok a) answer = refl
then_answer (s, err e) answer = refl

accept_peer-local :
    (a : RouterAdjacency) (now : Instant) (peer : RouterHello)
    → (accept_peer a now peer).0.local_router_id ≡ a.local_router_id
unfolding accept_peer
accept_peer-local a now peer = ground arith

receive_body-Remembers :
    (a : RouterAdjacency) (now : Instant) (id : ℕ) (body : RoutingGctlBody)
    (o : Option (Instant × RouterHello))
    → Remembers now o a.neighbor
    → Remembers now
        (latest now (introduced a.local_router_id body) o)
        (receive_body a now id body).0.neighbor
      × ((receive_body a now id body).0.local_router_id ≡ a.local_router_id)
unfolding receive_body
receive_body-Remembers a now id (router_hello peer) o r =
    rw
      (then_answer (accept_peer a now peer)
        (λ a'. ok (some (message id (router_hello_ack (local_hello a'))))))
      (Remembers-peer a now peer o r, accept_peer-local a now peer)
receive_body-Remembers a now id (router_hello_ack peer) o r =
    rw (then_answer {B = Option RoutingGctlMessage} (accept_peer a now peer) (λ a'. ok none))
      (Remembers-peer a now peer o r, accept_peer-local a now peer)
receive_body-Remembers a now id (route_advertise route) o r = (r, refl)
receive_body-Remembers a now id (route_withdraw route) o r = (r, refl)

-- What an expiry leaves: the memory and the router's id as they were, and a state that tells whether
-- the last hello is alive.
unfoldable pub IsExpired :
    Instant → Option (Instant × RouterHello) → RouterId → RouterAdjacency → Type 0
IsExpired now o local a =
    Remembers now o a.neighbor
    × (a.local_router_id ≡ local)
    × ((adjacency_state a ≡ up) ↔ IsAlive o now)

expire_up-IsExpired :
    (a : RouterAdjacency) (now at : Instant) (peer : RouterHello) (n : RouterNeighbor)
    (s : NeighborState)
    → Remembers now (some (at, peer)) (some n)
    → a.neighbor ≡ some n
    → n.state ≡ s
    → IsExpired now (some (at, peer)) a.local_router_id (expire_up a now n s).0
unfolding expire_up IsExpired Remembers IsAlive adjacency_state saturating_duration_since seen
expire_up-IsExpired a now at peer n down r e h =
    rw e (
      r,
      refl,
      (λ u. absurd (up-ne-down (sym u ∙ h)), λ alive. absurd (omega (arith, alive, r.2 h))),
    )
expire_up-IsExpired a now at peer n up r e h = elim (Bool-cases (is_overdue n now)) [
  | inl over ↦
      if_true
        (λ (x : RouterAdjacency × Bool). IsExpired now (some (at, peer)) a.local_router_id x.0)
        (is_overdue n now) _ _ over
        (
          (r.0, r.1, λ d. ground (arith, over, held, last)),
          refl,
          (
            λ u. absurd (up-ne-down (sym u)),
            λ alive. absurd (ground (arith, over, held, last, alive)),
          ),
        )
  | inr fresh ↦
      if_false
        (λ (x : RouterAdjacency × Bool). IsExpired now (some (at, peer)) a.local_router_id x.0)
        (is_overdue n now) _ _ fresh
        (rw e (r, refl, (λ u. ground (arith, fresh, held, last), λ alive. h)))
]
  where
    held : n.hold_time_ms ≡ peer.hold_time_ms
    held = ap (λ (n : RouterNeighbor). n.hold_time_ms) r.1

    last : n.last_seen ≡ at
    last = ap (λ (n : RouterNeighbor). n.last_seen) r.1

expire_known-IsExpired :
    (a : RouterAdjacency) (now : Instant) (o : Option (Instant × RouterHello))
    (n : Option RouterNeighbor)
    → Remembers now o n
    → a.neighbor ≡ n
    → IsExpired now o a.local_router_id (expire_known a now n).0
unfolding expire_known IsExpired Remembers IsAlive adjacency_state
expire_known-IsExpired a now none none r e =
    rw e (refl, refl, (λ u. absurd (up-ne-down (sym u)), λ alive. absurd alive))
expire_known-IsExpired a now none (some n) r e = absurd (some-ne-none r)
expire_known-IsExpired a now (some (at, peer)) none r e = absurd r
expire_known-IsExpired a now (some (at, peer)) (some n) r e =
    expire_up-IsExpired a now at peer n n.state r e refl

expire-IsExpired :
    (a : RouterAdjacency) (now : Instant) (o : Option (Instant × RouterHello))
    → Remembers now o a.neighbor
    → IsExpired now o a.local_router_id (expire a now).0
unfolding expire
expire-IsExpired a now o r = expire_known-IsExpired a now o a.neighbor r refl

run-Remembers :
    (a : RouterAdjacency) (now : Instant) (events : List Event)
    → a.neighbor ≡ none
    → IsOrdered now events
    → Remembers now (last_heard a.local_router_id events) (run a events).neighbor
      × ((run a events).local_router_id ≡ a.local_router_id)
unfolding run last_heard IsOrdered Remembers IsExpired receive
run-Remembers a now [] fresh ordered = (fresh, refl)
run-Remembers a now (heard at m ∷ events) fresh ordered =
    let before = run-Remembers a at events fresh ordered.1 in
    let after =
      receive_body-Remembers (run a events) at m.transaction_id m.body
        (last_heard a.local_router_id events) before.0 in
    (
      Remembers-later at now _ _ ordered.0 (
          subst
            (λ id.
              Remembers at (latest at (introduced id m.body) (last_heard a.local_router_id events))
                (apply (run a events) (heard at m)).neighbor)
            before.1 after.0),
      after.1 ∙ before.1,
    )
run-Remembers a now (checked at ∷ events) fresh ordered =
    let before = run-Remembers a at events fresh ordered.1 in
    let after = expire-IsExpired (run a events) at (last_heard a.local_router_id events) before.0 in
    (Remembers-later at now _ _ ordered.0 after.0, after.1 ∙ before.1)

-- After any events, none later than the next, an adjacency that has just checked its neighbour is up
-- exactly when the last introduction by another router with a hold time is not older than that time.
pub expire-iff-IsAlive :
    (a : RouterAdjacency) (now : Instant) (events : List Event)
    → a.neighbor ≡ none
    → IsOrdered now events
    → (adjacency_state (run a (checked now ∷ events)) ≡ up)
      ↔ IsAlive (last_heard a.local_router_id events) now
unfolding run IsExpired
expire-iff-IsAlive a now events fresh ordered =
    (expire-IsExpired (run a events) now (last_heard a.local_router_id events)
      (run-Remembers a now events fresh ordered).0).2
