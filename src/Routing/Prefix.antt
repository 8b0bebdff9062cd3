-- ===== src/Routing/Prefix.antt =====
-- routing.rs: a prefix contains the addresses that agree with it in its leading bits.
use smolgnet.Base.{
  ℕ, zero, suc, ◌+◌, ◌-◌, ◌*◌, ◌/◌, ◌%◌, ◌^◌, ◌≤◌, ◌≡◌, refl, sym, ap, ap₂, ◌∙◌, arith, bit_and,
}
use smolgnet.Base.{some, ◌==◌, Bool-cases, inl, inr, if_false, ==_iff}
use smolgnet.Base.Words.{IsU64, shl64}
use smolgnet.Base.Bits.{and_above, and_mask, and-zero}
use native.Mathlib.Nat.{div-lt_iff_lt-mul, mul-add-mod_self_left, mod-eq_of_lt, one-le-pow, pow-suc}
use smolgnet.Routing.{GdpPrefix, prefix_mask, prefix_new, contains}

-- A mask of all ones, shifted: the bits that leave the word at the top are those not kept.
shifted_ones : (p d n : ℕ) → n ≡ p + d → n * suc d % suc n ≡ p
shifted_ones p d n h =
    ap (λ x. x % suc n) {x = n * suc d} {y = suc n * d + p} (grind (arith, h))
    ∙ mul-add-mod_self_left (suc n) d p
    ∙ mod-eq_of_lt (omega (arith, h))

shifted_mask : (x y : ℕ) → 1 ≤ x → 1 ≤ y → y * x ≡ 2 ^ 64 → (2 ^ 64 - 1) * x % 2 ^ 64 ≡ (y - 1) * x
shifted_mask zero y hx hy h = absurd (omega arith)
shifted_mask (suc d) zero hx hy h = absurd (omega arith)
shifted_mask (suc d) (suc l) hx hy h =
    shifted_ones (l * suc d) d (2 ^ 64 - 1) (grind (arith, h))
    ∙ ap (λ y. y * suc d) {x = l} {y = suc l - 1} (omega arith)

pow_add : (a b : ℕ) → 2 ^ (a + b) ≡ 2 ^ a * 2 ^ b
pow_add zero b = ap (λ n. 2 ^ n) {x = 0 + b} {y = b} (omega arith) ∙ omega arith
pow_add (suc a) b =
    ap (λ n. 2 ^ n) {x = suc a + b} {y = suc (a + b)} (omega arith)
    ∙ grind (arith, pow-suc 2 (a + b), pow-suc 2 a, pow_add a b)

whole_word : (len k : ℕ) → len + k ≡ 64 → 2 ^ len * 2 ^ k ≡ 2 ^ 64
whole_word len k h = sym (pow_add len k) ∙ ap (λ n. 2 ^ n) {x = len + k} {y = 64} h

prefix_mask-eq : (len k : ℕ) → len + k ≡ 64 → 1 ≤ len → prefix_mask len ≡ (2 ^ len - 1) * 2 ^ k
unfolding prefix_mask
prefix_mask-eq len k h one =
    if_false (λ m. m ≡ (2 ^ len - 1) * 2 ^ k) (len == 0) 0 (shl64 (2 ^ 64 - 1) (64 - len))
      (ground (arith, one))
      (ap (λ j. shl64 (2 ^ 64 - 1) j) {x = 64 - len} {y = k} (omega (arith, h))
        ∙ shifted_mask (2 ^ k) (2 ^ len) (one-le-pow k 2 (omega arith))
            (one-le-pow len 2 (omega arith)) (whole_word len k h))

-- What is left under the mask: the leading bits, in their place.
masked : (a len k : ℕ) → IsU64 a → len + k ≡ 64 → bit_and a (prefix_mask len) ≡ a / 2 ^ k * 2 ^ k
unfolding prefix_mask
masked a zero k word h =
    and-zero a
    ∙ omega arith
    ∙ ap (λ q. q * 2 ^ k) {x = 0} {y = a / 2 ^ k}
        (omega (arith, word) ∙ ap (λ n. a / 2 ^ n) {x = 64} {y = k} (omega (arith, h)))
masked a (suc len) k word h =
    ap (bit_and a) (prefix_mask-eq (suc len) k h (omega arith))
    ∙ and_above k a (2 ^ suc len - 1)
    ∙ ap (λ q. q * 2 ^ k)
        (and_mask (suc len) (a / 2 ^ k)
          ∙ mod-eq_of_lt (
              (div-lt_iff_lt-mul {k = 2 ^ k} {x = a} {y = 2 ^ suc len}
                  (one-le-pow k 2 (omega arith))).1
                (omega (arith, word, whole_word (suc len) k h))))

scaled-injective : (q r d : ℕ) → 1 ≤ d → q * d ≡ r * d → q ≡ r
scaled-injective zero zero d h e = refl
scaled-injective zero (suc r) d h e = absurd (omega arith)
scaled-injective (suc q) zero d h e = absurd (omega arith)
scaled-injective (suc q) (suc r) d h e = ap suc (scaled-injective q r d h (omega (arith, e)))

==-scaled : (q r d : ℕ) → 1 ≤ d → (q * d == r * d) ≡ (q == r)
==-scaled q r d h = elim (Bool-cases (q == r)) [
  | inl same ↦ (==_iff (q * d) (r * d)).1 (ap (λ x. x * d) ((==_iff q r).0 same)) ∙ sym same
  | inr other ↦ ground (arith, other, scaled-injective q r d h)
]

-- A prefix made from an address and a length contains exactly the addresses that agree with that
-- address in the leading bits of that number, whatever its other bits are.
pub contains-prefix_new :
    (address len x : ℕ) (p : GdpPrefix)
    → IsU64 address
    → IsU64 x
    → prefix_new address len ≡ some p
    → contains p x ≡ (x / 2 ^ (64 - len) == address / 2 ^ (64 - len))
unfolding prefix_new contains
contains-prefix_new address len x p word xword h =
    ap₂ (λ m n. bit_and x (prefix_mask m) == n) made.0 made.1
    ∙ ap₂ ◌==◌ (masked x len (64 - len) xword (omega (arith, made.2)))
        (masked address len (64 - len) word (omega (arith, made.2)))
    ∙ ==-scaled (x / 2 ^ (64 - len)) (address / 2 ^ (64 - len)) (2 ^ (64 - len))
        (one-le-pow (64 - len) 2 (omega arith))
  where
    made : (p.prefix_len ≡ len) × (p.network ≡ bit_and address (prefix_mask len)) × (len ≤ 64)
    made = ground (arith, h)
