-- ===== src/Dlp/Endpoint/Receive/Credit.antt =====
-- dlp.rs: what a flit costs the receiver, and that a flit that was paid for is never refused for credit.
use smolgnet.Base.{ℕ, ◌+◌, ◌-◌, ◌≤◌, ◌≡◌, refl, arith, Bool, true, false, not}
use smolgnet.Base.{Option, none, some, get_or, ltb, leb, ◌==◌, if_false, if◌then◌else◌}
use smolgnet.Base.Results.{
  Result, ok, err, Error, Leaves, then_ok-Leaves, Leaves-if, err-Leaves, link_down, invalid_field,
  desynchronized,
}
use smolgnet.Base.Results.{FailsWith, then_ok-FailsWith, bind-FailsWith, ok-FailsWith}
use smolgnet.Wire.Gdp.Packet.{GdpPacket}
use smolgnet.Wire.Gdp.Header.Errors.{is_credit_error, IsOtherError, class_from_wire-IsOtherError}
use smolgnet.Wire.Gdp.Packet.Errors.{decode-IsOtherError}
use smolgnet.Dlp.{LinkTraffic, control_traffic, data_traffic, RxSegment, Flit, vc_count}
use smolgnet.Dlp.Endpoint.{DlpEndpoint}
use smolgnet.Dlp.Endpoint.Receive.{
  lane_of, receive, admit_flit, open_segment, place_segment, add_flit,
}
use smolgnet.Dlp.Endpoint.Receive.{
  advance, finish_segment, settle, release_if_data, release_data_segment,
}
use smolgnet.Dlp.Endpoint.Receive.{announced_segment, desynchronize, append_word, same_traffic}
use smolgnet.Dlp.Endpoint.Invariant.{IsSound, occupied}

-- A predicate of the credit that the receiver has advertised.
unfoldable HasCredit : (ℕ → Type 0) → DlpEndpoint → Type 0
HasCredit P s = P s.data_credit_outstanding

HasCredit-release :
    (P : ℕ → Type 0) (e : DlpEndpoint) (traffic : LinkTraffic) (flits : ℕ)
    → HasCredit P e
    → HasCredit P (release_if_data e traffic flits)
unfolding release_if_data release_data_segment HasCredit
HasCredit-release P e control_traffic flits h = h
HasCredit-release P e data_traffic flits h = h

HasCredit-open_segment :
    (P : ℕ → Type 0) (e : DlpEndpoint) (traffic : LinkTraffic) (idx w : ℕ) (slot : Option RxSegment)
    → HasCredit P e
    → Leaves (λ s a. HasCredit P s) (HasCredit P) (open_segment e traffic idx w slot)
unfolding open_segment place_segment desynchronize Leaves HasCredit
HasCredit-open_segment P e traffic idx w (some s) h = h
HasCredit-open_segment P e traffic idx w none h = placed _
  where
    placed :
        (r : Result RxSegment)
        → Leaves (λ s a. HasCredit P s) (HasCredit P) (place_segment e traffic idx r)
    placed (ok s) = h
    placed (err x) = HasCredit-release P e traffic 1 h

HasCredit-add_flit :
    (P : ℕ → Type 0) (e : DlpEndpoint) (traffic : LinkTraffic) (idx w : ℕ) (s : RxSegment)
    → HasCredit P e
    → Leaves (λ o a. HasCredit P o) (HasCredit P) (add_flit e traffic idx w s)
unfolding add_flit advance finish_segment settle Leaves HasCredit
HasCredit-add_flit P e traffic idx w s h =
    Leaves-if (λ o a. HasCredit P o) (HasCredit P) (not (same_traffic s.traffic traffic)) _ _
      (λ _. h)
      λ _.
        Leaves-if (λ o a. HasCredit P o) (HasCredit P)
          (ltb (append_word s w).received_flits (append_word s w).expected_flits) _ _ (λ _. h)
          λ _. settled _ _ (HasCredit-release P _ _ _ h)
  where
    settled :
        (o : DlpEndpoint) (r : Result GdpPacket)
        → HasCredit P o
        → Leaves (λ o a. HasCredit P o) (HasCredit P) (settle o idx r)
    settled o (ok p) h = h
    settled o (err x) h = h

-- What is left of `before` after a flit that was taken, and after one that was refused.
abbrev IsCharged : ℕ → LinkTraffic → ℕ → Type 0
IsCharged before traffic after = before ≡ after + occupied traffic 1

abbrev pub IsChargedAtMost : ℕ → LinkTraffic → ℕ → Type 0
IsChargedAtMost before traffic after = (after ≤ before) × (before ≤ after + occupied traffic 1)

-- The receiver afterwards: an accepted flit has cost exactly one credit or none, by its traffic.
unfoldable pub IsCharge : ℕ → LinkTraffic → DlpEndpoint × Result (Option GdpPacket) → Type 0
IsCharge before traffic (s, ok packet) = before ≡ s.data_credit_outstanding + occupied traffic 1
IsCharge before traffic (s, err e) = IsChargedAtMost before traffic s.data_credit_outstanding

charged_at_most :
    (before after : ℕ) (traffic : LinkTraffic)
    → IsCharged before traffic after
    → IsChargedAtMost before traffic after
charged_at_most before after traffic h = (omega (arith, h), omega (arith, h))

uncharged : (before : ℕ) (traffic : LinkTraffic) → IsChargedAtMost before traffic before
uncharged before traffic = (omega arith, omega arith)

Leaves-weaken {ℓ} :
    {A : Type ℓ} (P : DlpEndpoint → A → Type 0) (Q R : DlpEndpoint → Type 0)
    (m : DlpEndpoint × Result A)
    → ((s : DlpEndpoint) → Q s → R s)
    → Leaves P Q m
    → Leaves P R m
unfolding Leaves
Leaves-weaken P Q R (s, ok a) k h = h
Leaves-weaken P Q R (s, err e) k h = k s h

admit_flit-IsCharged :
    (e : DlpEndpoint) (traffic : LinkTraffic)
    → Leaves
        (λ s u. IsCharged e.data_credit_outstanding traffic s.data_credit_outstanding)
        (λ s. IsChargedAtMost e.data_credit_outstanding traffic s.data_credit_outstanding)
        (admit_flit e traffic)
unfolding admit_flit occupied Leaves
admit_flit-IsCharged e control_traffic = omega arith
admit_flit-IsCharged e data_traffic =
    Leaves-if P Q (e.data_credit_outstanding == 0) _ _ (λ _. (omega arith, omega arith))
      λ some_left.
        Leaves-if P Q (leb e.rx_buffer_flits e.data_rx_in_use) _ _ (λ _. (omega arith, omega arith))
          λ _. paid e.data_credit_outstanding some_left
  where
    P : DlpEndpoint → Unit {0} → Type 0
    P s u = e.data_credit_outstanding ≡ s.data_credit_outstanding + 1

    Q : DlpEndpoint → Type 0
    Q s =
        (s.data_credit_outstanding ≤ e.data_credit_outstanding)
        × (e.data_credit_outstanding ≤ s.data_credit_outstanding + 1)

    paid : (n : ℕ) → (n == 0) ≡ false → n ≡ n - 1 + 1
    paid n h = ground (arith, h)

-- A data flit that is accepted lowers the receiver's outstanding credit by exactly one, so it is
-- accepted only while some is outstanding; an accepted control flit leaves it; and a flit that is
-- refused lowers it by no more than an accepted one of its kind would.
pub receive-IsCharge :
    (e : DlpEndpoint) (flit : Flit)
    → IsCharge e.data_credit_outstanding (lane_of flit.vcid) (receive e flit)
unfolding receive HasCredit IsCharge Leaves
receive-IsCharge e flit = of_leaves (receive e flit) (
    Leaves-if P Q (not e.link_up) _ _ (refused link_down) λ _.
      Leaves-if P Q (leb (vc_count e.vc_mode) flit.vcid) _ _ (refused invalid_field) λ _.
        Leaves-if P Q (get_or e.desynchronized flit.vcid false) _ _ (refused desynchronized) λ _.
          then_ok-Leaves (λ s u. C s.data_credit_outstanding) P Q (admit_flit e lane) _
            (admit_flit-IsCharged e lane)
            λ s u c.
              then_ok-Leaves (λ o a. C o.data_credit_outstanding) P Q _ _
                (Leaves-weaken (λ o (a : RxSegment). HasCredit C o) (HasCredit C) Q
                  (open_segment s lane flit.vcid flit.word (get_or s.rx flit.vcid none)) weaker
                  (HasCredit-open_segment C s lane flit.vcid flit.word _ c))
                λ o segment d.
                  Leaves-weaken P (HasCredit C) Q (add_flit o lane flit.vcid flit.word segment)
                    weaker (HasCredit-add_flit C o lane flit.vcid flit.word segment d))
  where
    lane : LinkTraffic
    lane = lane_of flit.vcid

    C : ℕ → Type 0
    C = IsCharged e.data_credit_outstanding lane

    P : DlpEndpoint → Option GdpPacket → Type 0
    P s p = C s.data_credit_outstanding

    Q : DlpEndpoint → Type 0
    Q s = IsChargedAtMost e.data_credit_outstanding lane s.data_credit_outstanding

    weaker : (s : DlpEndpoint) → C s.data_credit_outstanding → Q s
    weaker s = charged_at_most e.data_credit_outstanding s.data_credit_outstanding lane

    refused : (x : Error) {b : Bool} → b ≡ true → Leaves P Q (e, err x)
    refused x b = err-Leaves P Q e x (uncharged e.data_credit_outstanding lane)

    of_leaves :
        (r : DlpEndpoint × Result (Option GdpPacket))
        → Leaves P Q r
        → IsCharge e.data_credit_outstanding lane r
    of_leaves (s, ok p) h = h
    of_leaves (s, err x) h = h

pub receive-HasCredit :
    (k : ℕ) (e : DlpEndpoint) (flit : Flit)
    → k + occupied (lane_of flit.vcid) 1 ≤ e.data_credit_outstanding
    → k ≤ (receive e flit).0.data_credit_outstanding
unfolding IsCharge
receive-HasCredit k e flit h = left (lane_of flit.vcid) h (receive e flit) (receive-IsCharge e flit)
  where
    left :
        (lane : LinkTraffic)
        → k + occupied lane 1 ≤ e.data_credit_outstanding
        → (r : DlpEndpoint × Result (Option GdpPacket)) → IsCharge e.data_credit_outstanding lane r
        → k ≤ r.0.data_credit_outstanding
    left lane h (s, ok p) c = omega (arith, h, c)
    left lane h (s, err x) c = omega (arith, h, c.1)

if_fails :
    (b : Bool) (m n : DlpEndpoint × Result (Option GdpPacket))
    → FailsWith IsOtherError m.1
    → FailsWith IsOtherError n.1
    → FailsWith IsOtherError (if b then m else n).1
if_fails true m n h k = h
if_fails false m n h k = k

admit_flit-IsOtherError :
    (e : DlpEndpoint) (traffic : LinkTraffic)
    → IsSound e
    → occupied traffic 1 ≤ e.data_credit_outstanding
    → FailsWith IsOtherError (admit_flit e traffic).1
unfolding admit_flit occupied FailsWith IsSound
admit_flit-IsOtherError e control_traffic v paid = tt
admit_flit-IsOtherError e data_traffic v paid =
    if_false F (e.data_credit_outstanding == 0) _ _ (ground (arith, paid)) (
      if_false F (leb e.rx_buffer_flits e.data_rx_in_use) _ _
        (ground (arith, paid, v.credit_bounded)) tt)
  where
    F : DlpEndpoint × Result (Unit {0}) → Type 0
    F r = FailsWith IsOtherError r.1

announced_segment-IsOtherError :
    (e : DlpEndpoint) (traffic : LinkTraffic) (w : ℕ)
    → FailsWith IsOtherError (announced_segment e.cfg traffic w)
unfolding announced_segment
announced_segment-IsOtherError e traffic w =
    bind-FailsWith IsOtherError _ _ (class_from_wire-IsOtherError _)
      λ size. ok-FailsWith IsOtherError _

open_segment-IsOtherError :
    (e : DlpEndpoint) (traffic : LinkTraffic) (idx w : ℕ) (slot : Option RxSegment)
    → FailsWith IsOtherError (open_segment e traffic idx w slot).1
unfolding open_segment place_segment FailsWith
open_segment-IsOtherError e traffic idx w (some s) = tt
open_segment-IsOtherError e traffic idx w none =
    placed _ (announced_segment-IsOtherError e traffic w)
  where
    placed :
        (r : Result RxSegment)
        → FailsWith IsOtherError r
        → FailsWith IsOtherError (place_segment e traffic idx r).1
    placed (ok s) h = tt
    placed (err x) h = h

add_flit-IsOtherError :
    (e : DlpEndpoint) (traffic : LinkTraffic) (idx w : ℕ) (s : RxSegment)
    → FailsWith IsOtherError (add_flit e traffic idx w s).1
unfolding add_flit advance finish_segment settle FailsWith IsOtherError is_credit_error
add_flit-IsOtherError e traffic idx w s = if_fails (not (same_traffic s.traffic traffic)) _ _ refl (
    if_fails (ltb (append_word s w).received_flits (append_word s w).expected_flits) _ _ tt
      (settled _ _ (decode-IsOtherError _ _ _)))
  where
    settled :
        (o : DlpEndpoint) (r : Result GdpPacket)
        → FailsWith IsOtherError r
        → FailsWith IsOtherError (settle o idx r).1
    settled o (ok p) h = tt
    settled o (err x) h = h

-- A sound receiver never refuses a flit for credit or for room if it has advertised credit for it:
-- a data flit then passes, whatever else is wrong with it.
pub receive-IsOtherError :
    (e : DlpEndpoint) (flit : Flit)
    → IsSound e
    → occupied (lane_of flit.vcid) 1 ≤ e.data_credit_outstanding
    → FailsWith IsOtherError (receive e flit).1
unfolding receive FailsWith IsOtherError is_credit_error
receive-IsOtherError e flit v paid = if_fails (not e.link_up) _ _ refl (
    if_fails (leb (vc_count e.vc_mode) flit.vcid) _ _ refl (
      if_fails (get_or e.desynchronized flit.vcid false) _ _ refl (
        then_ok-FailsWith IsOtherError (admit_flit e (lane_of flit.vcid)) _
          (admit_flit-IsOtherError e (lane_of flit.vcid) v paid)
          λ s u.
            then_ok-FailsWith IsOtherError _ _
              (open_segment-IsOtherError s (lane_of flit.vcid) flit.vcid flit.word _)
              λ o segment.
                add_flit-IsOtherError o (lane_of flit.vcid) flit.vcid flit.word segment)))
