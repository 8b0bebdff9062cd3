-- ===== src/Storage/Ring.antt =====
-- storage.rs: `RingBuffer` is a first-in first-out queue of at most its capacity.
use smolgnet.Base.{
  ℕ, zero, suc, ◌+◌, ◌-◌, ◌*◌, ◌%◌, ◌≤◌, ◌<◌, ◌≡◌, ◌≢◌, refl, sym, ap, subst, ◌∙◌, arith, true,
  false,
}
use smolgnet.Base.{
  List, [], ◌∷◌, ◌++◌, Option, none, some, length, get_elem?, set, is_empty, length-set,
  length-append,
}
use smolgnet.Base.{inl, inr, ◌⊎◌, Bool-cases, ltb, if_true, if_false, ◌==◌, ◌||◌}
use smolgnet.Base.Results.{Result, ok, err, buffer_full}
use native.Mathlib.Nat.{mod-eq_of_lt, mod-lt, add-mul-mod_self_left}
use smolgnet.Storage.{RingBuffer, new, clear, push_back, pop_front}

-- An index that has gone round at most once.
mod-lt_cap : (x c : ℕ) → x < c → x % c ≡ x
mod-lt_cap x c h = mod-eq_of_lt h

mod-past : (x c : ℕ) → x < c → (x + c) % c ≡ x
mod-past x c h =
    ap (λ y. y % c) {x = x + c} {y = x + c * 1} (omega arith)
    ∙ add-mul-mod_self_left x c 1
    ∙ mod-eq_of_lt h

-- The next index, with n more steps to go: both ways round are the same place.
mod-next : (h n c : ℕ) → h < c → n < c → ((h + 1) % c + n) % c ≡ (h + suc n) % c
mod-next h n c hc nc = elim (Bool-cases (h + 1 == c)) [
  | inl round ↦
      ap (λ y. (y % c + n) % c) {x = h + 1} {y = 0 + c} (ground (arith, round))
      ∙ ap (λ y. (y + n) % c) (mod-past 0 c (omega (arith, hc)))
      ∙ mod-lt_cap (0 + n) c (omega (arith, nc))
      ∙ omega arith
      ∙ sym (ap (λ y. y % c) {x = h + suc n} {y = n + c} (ground (arith, round)) ∙ mod-past n c nc)
  | inr before ↦
      ap (λ y. (y + n) % c) (mod-lt_cap (h + 1) c (ground (arith, hc, before)))
      ∙ ap (λ y. y % c) {x = h + 1 + n} {y = h + suc n} (omega arith)
]

-- Less than a whole turn away is another place.
mod-other : (h n c : ℕ) → h < c → suc n < c → (h + suc n) % c ≢ h
mod-other h n c hc nc e = elim (Bool-cases (ltb (h + suc n) c)) [
  | inl within ↦ ground (arith, within, e, mod-lt_cap (h + suc n) c)
  | inr past ↦ ground (arith, past, e, nc, hc, turned past)
]
  where
    turned : ltb (h + suc n) c ≡ false → (h + suc n) % c ≡ h + suc n - c
    turned past =
        ap (λ y. y % c) {x = h + suc n} {y = h + suc n - c + c} (ground (arith, past))
        ∙ mod-past (h + suc n - c) c (ground (arith, past, nc, hc))

module _ {ℓ} {A : Type ℓ} where
  -- The slots from an index on, going round at a capacity, hold the elements.
  unfoldable pub Holds : ℕ → List A → ℕ → List A → Type ℓ
  Holds cap storage head [] = Unit
  Holds cap storage head (x ∷ xs) =
      (get_elem? storage head ≡ some x) × Holds cap storage ((head + 1) % cap) xs

  pub record IsQueue (r : RingBuffer A) (xs : List A) : Type ℓ where
    pub counted : r.len ≡ length xs
    pub bounded : length xs ≤ length r.storage
    pub head_in : r.head ≤ length r.storage - 1
    pub held : Holds (length r.storage) r.storage r.head xs

  get_elem?-set_same :
      (s : List A) (i : ℕ) (v : A) → i < length s → get_elem? (set s i v) i ≡ some v
  get_elem?-set_same [] i v h = absurd (omega arith)
  get_elem?-set_same (x ∷ s) zero v h = refl
  get_elem?-set_same (x ∷ s) (suc i) v h = get_elem?-set_same s i v (omega arith)

  get_elem?-set_other :
      (s : List A) (i j : ℕ) (v : A) → i ≢ j → get_elem? (set s i v) j ≡ get_elem? s j
  get_elem?-set_other [] i j v h = refl
  get_elem?-set_other (x ∷ s) zero zero v h = absurd (h refl)
  get_elem?-set_other (x ∷ s) zero (suc j) v h = refl
  get_elem?-set_other (x ∷ s) (suc i) zero v h = refl
  get_elem?-set_other (x ∷ s) (suc i) (suc j) v h = get_elem?-set_other s i j v (λ e. h (ap suc e))

  Holds-push :
      (c : ℕ) (s : List A) (h : ℕ) (xs : List A) (v : A)
      → length s ≡ c
      → h < c
      → length xs < c
      → Holds c s h xs
      → Holds c (set s ((h + length xs) % c) v) h (xs ++ v ∷ [])
  unfolding Holds
  Holds-push c s h [] v hs hc hn held = (
    ap (λ i. get_elem? (set s i v) h) {x = (h + 0) % c} {y = h}
          (ap (λ y. y % c) {x = h + 0} {y = h} (omega arith) ∙ mod-lt_cap h c hc)
        ∙ get_elem?-set_same s h v (omega (arith, hs)),
    tt,
  )
  Holds-push c s h (x ∷ xs) v hs hc hn held = (
    get_elem?-set_other s ((h + suc (length xs)) % c) h v (mod-other h (length xs) c hc hn)
        ∙ held.0,
    subst (λ i. Holds c (set s i v) ((h + 1) % c) (xs ++ v ∷ []))
        (mod-next h (length xs) c hc (omega (arith, hn)))
        (Holds-push c s ((h + 1) % c) xs v hs (mod-lt _ (omega (arith, hc))) (omega (arith, hn))
          held.1),
  )

  pub new-IsQueue : (storage : List A) → IsQueue (new storage) []
  unfolding new Holds
  new-IsQueue storage = record {
    counted = refl;
    bounded = omega arith;
    head_in = omega arith;
    held = tt;
  }

  pub clear-IsQueue : (r : RingBuffer A) → IsQueue (clear r) []
  unfolding clear Holds
  clear-IsQueue r = record {
    counted = refl;
    bounded = omega arith;
    head_in = omega arith;
    held = tt;
  }

  -- Pushing onto a queue either puts the element behind the others, or is refused with the buffer
  -- as it was, when the queue has as many elements as there are slots.
  pub push_back-IsQueue :
      (r : RingBuffer A) (xs : List A) (v : A)
      → IsQueue r xs
      → (((push_back r v).1 ≡ ok tt) × IsQueue (push_back r v).0 (xs ++ v ∷ []))
        ⊎ ((push_back r v ≡ (r, err buffer_full)) × (length xs ≡ length r.storage))
  unfolding push_back
  push_back-IsQueue r xs v q = elim (Bool-cases (r.len == length r.storage || is_empty r.storage)) [
    | inl refused ↦ if_true P _ _ _ refused (inr (refl, full r.storage refused q.bounded))
    | inr room ↦ if_false P _ _ _ room (inl (refl, pushed (fits r.storage room q.bounded)))
  ]
    where
      P : RingBuffer A × Result (Unit {0}) → Type ℓ
      P p =
          ((p.1 ≡ ok tt) × IsQueue p.0 (xs ++ v ∷ []))
          ⊎ ((p ≡ (r, err buffer_full)) × (length xs ≡ length r.storage))

      full :
          (s : List A)
          → (r.len == length s || is_empty s) ≡ true
          → length xs ≤ length s
          → length xs ≡ length s
      full [] h b = omega (arith, b)
      full (x ∷ s) h b = ground (arith, h, q.counted)

      fits :
          (s : List A)
          → (r.len == length s || is_empty s) ≡ false
          → length xs ≤ length s
          → length xs < length s
      fits [] h b = absurd (ground (arith, h))
      fits (x ∷ s) h b = ground (arith, h, b, q.counted)

      pushed :
          length xs < length r.storage
          → IsQueue
              (record r {
                storage = set r.storage ((r.head + r.len) % length r.storage) v;
                len = r.len + 1;
              })
              (xs ++ v ∷ [])
      pushed h = record {
        counted = omega (arith, q.counted, length-append xs (v ∷ []));
        bounded = omega (
          arith,
          h,
          length-append xs (v ∷ []),
          length-set r.storage ((r.head + r.len) % length r.storage) v,
        );
        head_in =
            omega (arith, q.head_in, length-set r.storage ((r.head + r.len) % length r.storage) v);
        held =
            subst
              (λ c.
                Holds c (set r.storage ((r.head + r.len) % length r.storage) v) r.head
                  (xs ++ v ∷ []))
              (sym (length-set r.storage ((r.head + r.len) % length r.storage) v))
              (subst (λ i. Holds (length r.storage) (set r.storage i v) r.head (xs ++ v ∷ []))
                {x = (r.head + length xs) % length r.storage}
                {y = (r.head + r.len) % length r.storage}
                (ap (λ n. (r.head + n) % length r.storage) (sym q.counted))
                (Holds-push (length r.storage) r.storage r.head xs v refl
                  (omega (arith, q.head_in, h)) h q.held));
      }

  Holds-none : (c : ℕ) (s : List A) (h : ℕ) (xs : List A) → length xs ≡ 0 → Holds c s h xs
  unfolding Holds
  Holds-none c s h [] e = tt
  Holds-none c s h (x ∷ xs) e = absurd (omega (arith, e))

  -- What `pop_front` leaves: the queue without its first element, which it returns.
  unfoldable pub IsPopped : RingBuffer A → List A → RingBuffer A × Option A → Type ℓ
  IsPopped r [] p = p ≡ (r, none)
  IsPopped r (x ∷ xs) p = (p.1 ≡ some x) × IsQueue p.0 xs

  -- Popping an empty queue returns nothing and changes nothing; popping any other returns its first
  -- element and leaves the queue of the others. It never reads outside of the storage.
  pub pop_front-IsPopped :
      (r : RingBuffer A) (xs : List A) → IsQueue r xs → IsPopped r xs (pop_front r)
  unfolding pop_front IsPopped Holds
  pop_front-IsPopped r [] q =
      if_true (λ p. p ≡ (r, none)) (r.len == 0) _ _ (ground (arith, q.counted)) refl
  pop_front-IsPopped r (x ∷ xs) q =
      if_false (IsPopped r (x ∷ xs)) (r.len == 0) _ _ (ground (arith, q.counted)) (
        q.held.0,
        elim (Bool-cases (r.len - 1 == 0)) [
          | inl last ↦ if_true Q _ 0 ((r.head + 1) % length r.storage) last (
              rest 0 (omega arith)
                (Holds-none (length r.storage) r.storage 0 xs (ground (arith, last, q.counted))))
          | inr more ↦
              if_false Q _ 0 ((r.head + 1) % length r.storage) more
                (rest ((r.head + 1) % length r.storage) within q.held.1)
        ],
      )
    where
      Q : ℕ → Type ℓ
      Q h = IsQueue (record { storage = r.storage; head = h; len = r.len - 1 }) xs

      rest : (h : ℕ) → h ≤ length r.storage - 1 → Holds (length r.storage) r.storage h xs → Q h
      rest h inside held = record {
        counted = omega (arith, q.counted);
        bounded = omega (arith, q.bounded);
        head_in = inside;
        held = held;
      }

      within : (r.head + 1) % length r.storage ≤ length r.storage - 1
      within = omega (arith, mod-lt (r.head + 1) {m = length r.storage} (omega (arith, q.bounded)))
