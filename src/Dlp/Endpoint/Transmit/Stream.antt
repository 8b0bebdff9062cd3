-- ===== src/Dlp/Endpoint/Transmit/Stream.antt =====
-- dlp.rs: a transmit queue as the sequence of the flits that it still has to send.
use smolgnet.Base.{ℕ, zero, suc, ◌+◌, ◌-◌, ◌≤◌, ◌≡◌, refl, ap, sym, subst, ◌∙◌, arith, min, ◌==◌}
use smolgnet.Base.{List, [], ◌∷◌, ◌++◌, none, some, length, true, false, inl, inr, Bool-cases}
use smolgnet.Base.{length-append}
use smolgnet.Dlp.{Flit, TxFrame, remaining_flits}
use smolgnet.Dlp.Endpoint.{queue_flits}
use smolgnet.Dlp.Endpoint.Transmit.{flit_word, next_flit, emit_queue_flits, after_sending}

-- The flits of the words from an offset on.
unfoldable pub flits_from : ℕ → List ℕ → ℕ → ℕ → List Flit
flits_from vcid bytes offset zero = []
flits_from vcid bytes offset (suc n) =
    record { vcid = vcid; word = flit_word bytes offset } ∷ flits_from vcid bytes (offset + 1) n

unfoldable pub pending : TxFrame → List Flit
pending f = flits_from f.vcid f.bytes f.flit_offset (remaining_flits f)

unfoldable pub pending_flits : List TxFrame → List Flit
pending_flits [] = []
pending_flits (f ∷ queue) = pending f ++ pending_flits queue

abbrev pub sent_one : TxFrame → TxFrame
sent_one f = record f { flit_offset = f.flit_offset + 1 }

abbrev pub front_flit : TxFrame → Flit
front_flit f = record { vcid = f.vcid; word = flit_word f.bytes f.flit_offset }

pub length-flits_from :
    (vcid : ℕ) (bytes : List ℕ) (offset n : ℕ) → length (flits_from vcid bytes offset n) ≡ n
unfolding flits_from
length-flits_from vcid bytes offset zero = refl
length-flits_from vcid bytes offset (suc n) = ap suc (length-flits_from vcid bytes (offset + 1) n)

pub length-pending : (f : TxFrame) → length (pending f) ≡ remaining_flits f
unfolding pending
length-pending f = length-flits_from f.vcid f.bytes f.flit_offset (remaining_flits f)

pub length-pending_flits : (queue : List TxFrame) → length (pending_flits queue) ≡ queue_flits queue
unfolding pending_flits queue_flits
length-pending_flits [] = refl
length-pending_flits (f ∷ queue) = omega (
  arith,
  length-append (pending f) (pending_flits queue),
  length-pending f,
  length-pending_flits queue,
)

next_flit-none : (f : TxFrame) → remaining_flits f ≡ 0 → next_flit f ≡ none
unfolding next_flit remaining_flits
next_flit-none f h = ground arith

next_flit-some :
    (f : TxFrame) (n : ℕ)
    → remaining_flits f ≡ suc n
    → next_flit f ≡ some (front_flit f, sent_one f)
unfolding next_flit remaining_flits
next_flit-some f n h = ground arith

remaining_flits-sent_one : (f : TxFrame) → remaining_flits (sent_one f) ≡ remaining_flits f - 1
unfolding remaining_flits
remaining_flits-sent_one f = omega arith

pub pending-front :
    (f : TxFrame) (n : ℕ)
    → remaining_flits f ≡ suc n
    → pending f ≡ front_flit f ∷ pending (sent_one f)
unfolding pending flits_from
pending-front f n h = rw (h) (
    ap (λ k. front_flit f ∷ flits_from f.vcid f.bytes (f.flit_offset + 1) k) {x = n}
      {y = remaining_flits (sent_one f)} (omega (arith, h, remaining_flits-sent_one f)))

pub pending-done : (f : TxFrame) → remaining_flits f ≡ 0 → pending f ≡ []
unfolding pending flits_from
pending-done f h = rw h refl

-- What a loop over a queue with a budget of credits leaves: the flits are the first ones of the
-- queue, each costs one credit, and it stops only when the slice, the credit or the queue is used up.
pub record IsSent (room : ℕ) (queue : List TxFrame) (credit : ℕ) (r : List TxFrame × ℕ × List Flit)
    : Type 0 where
  pub in_order : r.2 ++ pending_flits r.0 ≡ pending_flits queue
  pub paid : length r.2 + r.1 ≡ credit
  pub greedy : length r.2 ≡ min room (min credit (queue_flits queue))

-- The front frame has nothing left, and is dropped.
IsSent-dropped :
    (room : ℕ) (f : TxFrame) (queue : List TxFrame) (credit : ℕ) (r : List TxFrame × ℕ × List Flit)
    → remaining_flits f ≡ 0
    → IsSent room queue credit r
    → IsSent room (f ∷ queue) credit r
unfolding pending_flits queue_flits
IsSent-dropped room f queue credit r h v = record {
  in_order = rw (pending-done f h) v.in_order;
  paid = v.paid;
  greedy = omega (arith, v.greedy, h);
}

-- The front frame sends a flit; `rest` is the queue after it, without the frame once it is done.
IsSent-sending :
    (room : ℕ) (f : TxFrame) (queue rest : List TxFrame) (credit n : ℕ)
    (r : List TxFrame × ℕ × List Flit)
    → remaining_flits f ≡ suc n
    → 1 ≤ credit
    → pending (sent_one f) ++ pending_flits queue ≡ pending_flits rest
    → IsSent room rest (credit - 1) r
    → IsSent (suc room) (f ∷ queue) credit (after_sending (front_flit f) r)
unfolding pending_flits queue_flits after_sending
IsSent-sending room f queue rest credit n r h credited stream v = record {
  in_order =
      ap (◌∷◌ (front_flit f)) (v.in_order ∙ sym stream)
      ∙ sym (ap (λ p. p ++ pending_flits queue) (pending-front f n h));
  paid = omega (arith, v.paid);
  greedy = omega (arith, v.greedy, h, shorter, credited);
}
  where
    shorter : queue_flits rest + 1 ≡ remaining_flits f + queue_flits queue
    shorter = omega (
      arith,
      h,
      ap length stream,
      length-append (pending (sent_one f)) (pending_flits queue),
      length-pending_flits rest,
      length-pending_flits queue,
      length-pending (sent_one f),
      remaining_flits-sent_one f,
    )

emit-dropped :
    (room : ℕ) (f : TxFrame) (queue : List TxFrame) (credit : ℕ)
    → (credit == 0) ≡ false
    → next_flit f ≡ none
    → emit_queue_flits (suc room) (f ∷ queue) credit ≡ emit_queue_flits (suc room) queue credit
unfolding emit_queue_flits
emit-dropped room f queue credit c h = rw (emit_queue_flits, c, h) refl

emit-last :
    (room : ℕ) (f : TxFrame) (queue : List TxFrame) (credit : ℕ)
    → (credit == 0) ≡ false
    → next_flit f ≡ some (front_flit f, sent_one f)
    → (remaining_flits (sent_one f) == 0) ≡ true
    → emit_queue_flits (suc room) (f ∷ queue) credit
      ≡ after_sending (front_flit f) (emit_queue_flits room queue (credit - 1))
unfolding emit_queue_flits
emit-last room f queue credit c h over = rw (emit_queue_flits, c, h, over) refl

emit-more :
    (room : ℕ) (f : TxFrame) (queue : List TxFrame) (credit : ℕ)
    → (credit == 0) ≡ false
    → next_flit f ≡ some (front_flit f, sent_one f)
    → (remaining_flits (sent_one f) == 0) ≡ false
    → emit_queue_flits (suc room) (f ∷ queue) credit
      ≡ after_sending (front_flit f) (emit_queue_flits room (sent_one f ∷ queue) (credit - 1))
unfolding emit_queue_flits
emit-more room f queue credit c h over = rw (emit_queue_flits, c, h, over) refl

emit-broke :
    (room : ℕ) (f : TxFrame) (queue : List TxFrame) (credit : ℕ)
    → (credit == 0) ≡ true
    → emit_queue_flits (suc room) (f ∷ queue) credit ≡ (f ∷ queue, credit, [])
unfolding emit_queue_flits
emit-broke room f queue credit c = rw (emit_queue_flits, c) refl

-- The four ways in which the loop goes on at a frame.
pub emit_queue_flits-cases {ℓ} :
    (Q : List TxFrame × ℕ × List Flit → Type ℓ) (room : ℕ) (f : TxFrame) (queue : List TxFrame)
    (credit : ℕ)
    → (credit ≡ 0 → Q (f ∷ queue, credit, []))
    → (remaining_flits f ≡ 0 → Q (emit_queue_flits (suc room) queue credit))
    → (1 ≤ credit
        → remaining_flits f ≡ 1
        → Q (after_sending (front_flit f) (emit_queue_flits room queue (credit - 1))))
    → (1 ≤ credit
        → 2 ≤ remaining_flits f
        → Q (
            after_sending (front_flit f) (emit_queue_flits room (sent_one f ∷ queue) (credit - 1))))
    → Q (emit_queue_flits (suc room) (f ∷ queue) credit)
emit_queue_flits-cases Q room f queue credit broke dropped last more =
    elim (Bool-cases (credit == 0)) [
      | inl z ↦ subst Q (sym (emit-broke room f queue credit z)) (broke (ground (arith, z)))
      | inr credited ↦ go _ refl credited
    ]
  where
    go :
        (n : ℕ)
        → remaining_flits f ≡ n
        → (credit == 0) ≡ false
        → Q (emit_queue_flits (suc room) (f ∷ queue) credit)
    go zero h credited =
        subst Q (sym (emit-dropped room f queue credit credited (next_flit-none f h))) (dropped h)
    go (suc zero) h credited =
        subst Q
          (sym (
            emit-last room f queue credit credited (next_flit-some f 0 h)
              (ground (arith, h, remaining_flits-sent_one f))))
          (last (ground (arith, credited)) h)
    go (suc (suc n)) h credited =
        subst Q
          (sym (
            emit-more room f queue credit credited (next_flit-some f (suc n) h)
              (ground (arith, h, remaining_flits-sent_one f))))
          (more (ground (arith, credited)) (omega (arith, h)))

-- The loop sends the queue's flits in order, one credit each, as many as the slice, the credit and
-- the queue allow.
pub emit_queue_flits-IsSent :
    (room : ℕ) (queue : List TxFrame) (credit : ℕ)
    → IsSent room queue credit (emit_queue_flits room queue credit)
unfolding emit_queue_flits queue_flits pending_flits
emit_queue_flits-IsSent zero queue credit = record {
  in_order = refl;
  paid = omega arith;
  greedy = omega arith;
}
emit_queue_flits-IsSent (suc room) [] credit = record {
  in_order = refl;
  paid = omega arith;
  greedy = omega arith;
}
emit_queue_flits-IsSent (suc room) (f ∷ queue) credit =
    emit_queue_flits-cases (IsSent (suc room) (f ∷ queue) credit) room f queue credit
      (λ z. record { in_order = refl; paid = omega arith; greedy = omega (arith, z) })
      (λ h.
        IsSent-dropped (suc room) f queue credit _ h
          (emit_queue_flits-IsSent (suc room) queue credit))
      (λ credited h.
        IsSent-sending room f queue queue credit 0 _ h credited
          (ap (λ p. p ++ pending_flits queue)
            (pending-done (sent_one f) (omega (arith, h, remaining_flits-sent_one f))))
          (emit_queue_flits-IsSent room queue (credit - 1)))
      (λ credited h.
        IsSent-sending room f queue (sent_one f ∷ queue) credit (remaining_flits f - 1) _
          (omega (arith, h)) credited refl
          (emit_queue_flits-IsSent room (sent_one f ∷ queue) (credit - 1)))
