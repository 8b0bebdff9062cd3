-- ===== src/Storage/Tests.antt =====
-- storage.rs: the theorems at a ring of three slots that has gone round.
use smolgnet.Base.{ℕ, ◌≡◌, refl, arith, List, [], ◌∷◌, ◌++◌, replicate, some, ◌⊎◌, length}
use smolgnet.Base.Results.{ok, err, buffer_full}
use smolgnet.Storage.{RingBuffer, push_back, pop_front}
use smolgnet.Storage.Packets.{PacketBuffer, buffer_new, unused, enqueue, drop_front, peek}
use smolgnet.Storage.Ring.{IsQueue, Holds, IsPopped, push_back-IsQueue, pop_front-IsPopped}

-- The queue of 7 and 8, from the last slot on.
abbrev turned_ring : RingBuffer ℕ
turned_ring = record { storage = 8 ∷ 0 ∷ 7 ∷ []; head = 2; len = 2 }

abbrev two_items : List ℕ
two_items = 7 ∷ 8 ∷ []

turned_ring-IsQueue : IsQueue turned_ring two_items
unfolding Holds
turned_ring-IsQueue = record {
  counted = refl;
  bounded = omega arith;
  head_in = omega arith;
  held = (refl, (refl, tt));
}

push_back_example :
    (((push_back turned_ring 9).1 ≡ ok tt)
      × IsQueue (push_back turned_ring 9).0 (two_items ++ 9 ∷ []))
    ⊎ ((push_back turned_ring 9 ≡ (turned_ring, err buffer_full))
        × (length two_items ≡ length turned_ring.storage))
push_back_example = push_back-IsQueue turned_ring two_items 9 turned_ring-IsQueue

pop_front_example : IsPopped turned_ring two_items (pop_front turned_ring)
pop_front_example = pop_front-IsPopped turned_ring two_items turned_ring-IsQueue

-- Ten bytes for three packets. The first of two is taken out, and a third one goes round to end where
-- the second starts.
abbrev closed_ring : PacketBuffer ℕ
closed_ring =
    let empty = buffer_new (replicate 3 unused) (replicate 10 0) in
    let first = (enqueue empty 1 (1 ∷ 1 ∷ 1 ∷ 1 ∷ [])).0 in
    let second = (enqueue first 2 (2 ∷ 2 ∷ 2 ∷ 2 ∷ [])).0 in
    (enqueue (drop_front second).0 3 (3 ∷ 3 ∷ 3 ∷ 3 ∷ [])).0

-- The second packet is the oldest one, with its own bytes.
closed_ring_front : peek closed_ring ≡ some (2, 2 ∷ 2 ∷ 2 ∷ 2 ∷ [])
unfolding peek enqueue drop_front buffer_new unused
closed_ring_front = refl

-- The place of the next packet is that of the second one.
closed_ring_overlap :
    peek (enqueue closed_ring 4 (4 ∷ 4 ∷ 4 ∷ 4 ∷ [])).0 ≡ some (2, 4 ∷ 4 ∷ 4 ∷ 4 ∷ [])
unfolding peek enqueue drop_front buffer_new unused
closed_ring_overlap = refl
