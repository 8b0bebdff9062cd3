-- ===== src/Control/Cable/Rounds.antt =====
-- dlp_control.rs: the loop of `DlpDirectCable::pump` as the rounds it makes, with no fuel, and that it
-- ends.
use smolgnet.Base.{
  ℕ, zero, suc, ◌+◌, ◌<◌, ◌≤◌, ◌≡◌, refl, arith, Bool, leb, true, false, inl, inr, Bool-cases,
}
use smolgnet.Base.Results.{
  Result, Error, ok, err, buffer_full, ◌then_ok◌, Leaves, Leaves-of, Leaves-if, then_ok-Leaves,
}
use smolgnet.Endpoint.{LinkOps}
use smolgnet.Control.Cable.{
  DlpDirectCable, pump_control, pump_data_once, reattach, pump_control_part, pump_data_part,
  pump_round, pump_loop,
}

-- What has moved after a part of a round: a part that made progress has moved something.
abbrev HasMoved : ℕ → ℕ × Bool → Type 0
HasMoved moved (total, true) = moved < total
HasMoved moved (total, false) = moved ≤ total

HasMoved-data :
    (moved total : ℕ) (b : Bool) → HasMoved moved (total, b) → HasMoved moved (total + 1, true)
HasMoved-data moved total true h = omega (arith, h)
HasMoved-data moved total false h = omega (arith, h)

module _ {E : Type 0} (ops : LinkOps E) where
  -- The loop with `moved` so far comes to an end with this cable and this result.
  pub data Ends (now max_transfers : ℕ)
      : DlpDirectCable E → ℕ → DlpDirectCable E × Result ℕ → Type 0 where
    at_limit :
        {c : DlpDirectCable E} {moved : ℕ}
        → max_transfers ≤ moved
        → Ends now max_transfers c moved (c, err buffer_full)
    broken :
        {c c' : DlpDirectCable E} {moved : ℕ} {e : Error}
        → moved < max_transfers
        → pump_round ops c now moved ≡ (c', err e)
        → Ends now max_transfers c moved (c', err e)
    idle :
        {c c' : DlpDirectCable E} {moved total : ℕ}
        → moved < max_transfers
        → pump_round ops c now moved ≡ (c', ok (total, false))
        → Ends now max_transfers c moved (c', ok total)
    again :
        {c c' : DlpDirectCable E} {moved total : ℕ} {r : DlpDirectCable E × Result ℕ}
        → moved < max_transfers
        → pump_round ops c now moved ≡ (c', ok (total, true))
        → moved < total
        → Ends now max_transfers c' total r
        → Ends now max_transfers c moved r

  pump_control_part-HasMoved :
      (c : DlpDirectCable E) (moved : ℕ)
      → Leaves (λ c part. HasMoved moved part) (λ c. Unit) (pump_control_part ops c moved)
  unfolding pump_control_part Leaves
  pump_control_part-HasMoved c moved =
      then_ok-Leaves (λ c control. Unit) P Q (pump_control ops c) _
        (Leaves-of Q (pump_control ops c) tt)
        λ c control u.
          Leaves-if P Q control _ _
            (λ yes_frame.
              then_ok-Leaves (λ c v. Unit) P Q (reattach ops c) _ (Leaves-of Q (reattach ops c) tt)
                λ c v u. omega arith)
            λ no_frame. omega arith
    where
      P : DlpDirectCable E → ℕ × Bool → Type 0
      P c part = HasMoved moved part

      Q : DlpDirectCable E → Type 0
      Q c = Unit

  pump_data_part-HasMoved :
      (c : DlpDirectCable E) (now moved : ℕ) (part : ℕ × Bool)
      → HasMoved moved part
      → Leaves (λ c part. HasMoved moved part) (λ c. Unit) (pump_data_part ops c now part.0 part.1)
  unfolding pump_data_part Leaves
  pump_data_part-HasMoved c now moved (total, progress) h =
      then_ok-Leaves (λ c flits. Unit) P Q (pump_data_once ops c now) _
        (Leaves-of Q (pump_data_once ops c now) tt)
        λ c flits u.
          Leaves-if P Q flits _ _ (λ some_flit. HasMoved-data moved total progress h) λ no_flit. h
    where
      P : DlpDirectCable E → ℕ × Bool → Type 0
      P c part = HasMoved moved part

      Q : DlpDirectCable E → Type 0
      Q c = Unit

  pump_round-HasMoved :
      (c : DlpDirectCable E) (now moved : ℕ)
      → Leaves (λ c part. HasMoved moved part) (λ c. Unit) (pump_round ops c now moved)
  unfolding pump_round
  pump_round-HasMoved c now moved =
      then_ok-Leaves (λ c part. HasMoved moved part) _ _ (pump_control_part ops c moved) _
        (pump_control_part-HasMoved c moved) λ c part h. pump_data_part-HasMoved c now moved part h

  -- The loop ends as its first round says, if it ends as the loop after that round does.
  round-Ends :
      (next : DlpDirectCable E → ℕ → DlpDirectCable E × Result ℕ) (c : DlpDirectCable E)
      (now max_transfers moved : ℕ) (r : DlpDirectCable E × Result (ℕ × Bool))
      → moved < max_transfers
      → pump_round ops c now moved ≡ r
      → Leaves (λ c part. HasMoved moved part) (λ c. Unit) r
      → ((c' : DlpDirectCable E) (total : ℕ)
          → moved < total
          → Ends now max_transfers c' total (next c' total))
      → Ends now max_transfers c moved
          (r then_ok λ c part. elim part.1 [ false ↦ (c, ok part.0) | true ↦ next c part.0 ])
  unfolding Leaves
  round-Ends next c now max_transfers moved (c', err e) under is more go_on = broken under is
  round-Ends next c now max_transfers moved (c', ok (total, false)) under is more go_on =
      idle under is
  round-Ends next c now max_transfers moved (c', ok (total, true)) under is more go_on =
      again under is more (go_on c' total more)

  limit-Ends :
      (fuel : ℕ) (c : DlpDirectCable E) (now max_transfers moved : ℕ)
      → leb max_transfers moved ≡ true
      → Ends now max_transfers c moved (pump_loop ops (suc fuel) c now max_transfers moved)
  unfolding pump_loop
  limit-Ends fuel c now max_transfers moved over =
      rw (pump_loop, over) (at_limit (reached max_transfers moved over))
    where
      reached : (m n : ℕ) → leb m n ≡ true → m ≤ n
      reached m n h = ground (arith, h)

  enough-Ends :
      (fuel : ℕ) (c : DlpDirectCable E) (now max_transfers moved : ℕ)
      → max_transfers ≤ fuel + moved
      → Ends now max_transfers c moved (pump_loop ops (suc fuel) c now max_transfers moved)
  unfolding pump_loop
  enough-Ends zero c now max_transfers moved enough =
      limit-Ends zero c now max_transfers moved (at_most max_transfers moved enough)
    where
      at_most : (m n : ℕ) → m ≤ 0 + n → leb m n ≡ true
      at_most m n h = ground (arith, h)
  enough-Ends (suc fuel) c now max_transfers moved enough =
      elim (Bool-cases (leb max_transfers moved)) [
        | inl over ↦ limit-Ends (suc fuel) c now max_transfers moved over
        | inr under ↦
            rw (pump_loop, under)
              (round-Ends (λ c total. pump_loop ops (suc fuel) c now max_transfers total) c now
                max_transfers moved (pump_round ops c now moved) (below max_transfers moved under)
                refl (pump_round-HasMoved c now moved)
                λ c' total more.
                  enough-Ends fuel c' now max_transfers total (less fuel total more enough))
      ]
    where
      below : (m n : ℕ) → leb m n ≡ false → n < m
      below m n h = ground (arith, h)

      less : (f t : ℕ) → moved < t → max_transfers ≤ suc f + moved → max_transfers ≤ f + t
      less f t more enough = omega (arith, more, enough)

  -- The loop of `pump` always ends: with the fuel that `pump` gives it, what it comes to is what its
  -- rounds come to one after another, each of which but the last has moved something, up to an error, a
  -- round without progress, or the limit.
  pub pump_loop-Ends :
      (c : DlpDirectCable E) (now max_transfers : ℕ)
      → Ends now max_transfers c 0 (pump_loop ops (suc max_transfers) c now max_transfers 0)
  pump_loop-Ends c now max_transfers = enough-Ends max_transfers c now max_transfers 0 (omega arith)
