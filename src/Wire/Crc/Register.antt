-- ===== src/Wire/Crc/Register.antt =====
-- A shift register of any width and polynomial, of which the loops of wire/crc.rs are two.
-- `width` is one less than the number of bits.
use smolgnet.Base.{ℕ, zero, suc, ◌+◌, ◌*◌, ◌/◌, ◌%◌, ◌^◌, ◌<◌, bit_and, bit_xor, arith}
use smolgnet.Base.{
  Bool, true, false, ◌⊎◌, inl, inr, ◌≡◌, refl, sym, ap, ap₂, ◌∙◌, if◌then◌else◌, ◌!=◌,
}
use smolgnet.Base.Bits.{zero-xor, xor-zero, xor_self, xor-shl, xor-mod, xor-shr, xor_interchange}
use smolgnet.Base.Bits.{
  xor-parity, and_bit, xor_assoc, xor_add, xor-lt, and_mask, mod_double, half_pow, double_pow,
}
use mathlib.Core.Bool.{xor}
use native.Mathlib.Nat.{pow-suc, one-le-pow, mod-eq_of_lt, div-eq_of_lt, mod-lt, mod_self, div_self}

-- The bit above the lowest `n`.
pub mod_pow_suc : (n a : ℕ) → a % 2 ^ suc n ≡ a / 2 ^ n % 2 * 2 ^ n + a % 2 ^ n
mod_pow_suc zero a = omega arith
mod_pow_suc (suc n) a = ground (
  arith,
  mod_double (suc n) a,
  mod_double n a,
  mod_pow_suc n (a / 2),
  half_pow a n,
  double_pow (a / 2 ^ suc n % 2) n,
)

low_bit-cases : (a : ℕ) → (a % 2 ≡ 0) ⊎ (a % 2 ≡ 1)
low_bit-cases a = grind arith

module _ (width poly : ℕ) where
  -- One round of the table's loop: shift left, and add the polynomial if the top bit leaves.
  abbrev pub round : ℕ → ℕ
  round v =
      if bit_and v (2 ^ width) != 0
      then bit_xor (v * 2 ^ 1 % 2 ^ suc width) poly
      else v * 2 ^ 1 % 2 ^ suc width

  unfoldable pub rounds : ℕ → ℕ → ℕ
  rounds zero v = v
  rounds (suc n) v = rounds n (round v)

  -- One bit of a message, in the form of `update_bit`.
  abbrev pub feed : ℕ → Bool → ℕ
  feed v b =
      if xor (bit_and v (2 ^ width) != 0) b
      then bit_xor (v * 2 ^ 1 % 2 ^ suc width) poly
      else v * 2 ^ 1 % 2 ^ suc width

  -- The lowest `n` bits of `value`, the highest of them first.
  unfoldable pub feed_bits : ℕ → ℕ → ℕ → ℕ
  feed_bits v value zero = v
  feed_bits v value (suc n) = feed_bits (feed v (bit_and (value / 2 ^ n) 1 != 0)) value n

  top : ℕ → ℕ
  top v = v / 2 ^ width % 2

  top-cases : (v : ℕ) → (top v ≡ 0) ⊎ (top v ≡ 1)
  unfolding top
  top-cases v = grind arith

  test-top : (v : ℕ) → (bit_and v (2 ^ width) != 0) ≡ (top v != 0)
  unfolding top
  test-top v = ground (arith, and_bit width v, one-le-pow width 2)

  scaled :
      (t : ℕ)
      → ((t ≡ 0) ⊎ (t ≡ 1))
      → (x : ℕ) → (if t != 0 then bit_xor x poly else x) ≡ bit_xor x (t * poly)
  scaled t (inl e) x = ground (arith, xor-zero x)
  scaled t (inr e) x = ground arith

  round-eq : (v : ℕ) → round v ≡ bit_xor (v * 2 % 2 ^ suc width) (top v * poly)
  round-eq v = rw (test-top v) (scaled (top v) (top-cases v) _)

  top-xor : (a b : ℕ) → top (bit_xor a b) ≡ (top a + top b) % 2
  unfolding top
  top-xor a b = ap (λ (x : ℕ). x % 2) (xor-shr width a b) ∙ xor-parity _ _ ∙ omega arith

  times-xor :
      (s t : ℕ)
      → ((s ≡ 0) ⊎ (s ≡ 1))
      → ((t ≡ 0) ⊎ (t ≡ 1))
      → (s + t) % 2 * poly ≡ bit_xor (s * poly) (t * poly)
  times-xor s t (inl e) q = ground (arith, zero-xor (t * poly))
  times-xor s t (inr e) (inl f) = ground (arith, xor-zero poly)
  times-xor s t (inr e) (inr f) = ground (arith, xor_self poly)

  shift-xor :
      (a b : ℕ)
      → bit_xor a b * 2 % 2 ^ suc width ≡ bit_xor (a * 2 % 2 ^ suc width) (b * 2 % 2 ^ suc width)
  shift-xor a b =
      ap (λ (x : ℕ). x % 2 ^ suc width) (sym (xor-shl 1 a b)) ∙ xor-mod (suc width) (a * 2) (b * 2)

  -- A round is linear.
  pub round-xor : (a b : ℕ) → round (bit_xor a b) ≡ bit_xor (round a) (round b)
  round-xor a b =
      rw (round-eq (bit_xor a b), round-eq a, round-eq b, shift-xor a b, top-xor a b)
        (ap (bit_xor _) (times-xor _ _ (top-cases a) (top-cases b)) ∙ xor_interchange _ _ _ _)

  pub rounds-xor : (n a b : ℕ) → rounds n (bit_xor a b) ≡ bit_xor (rounds n a) (rounds n b)
  unfolding rounds
  rounds-xor zero a b = refl
  rounds-xor (suc n) a b = ap (rounds n) (round-xor a b) ∙ rounds-xor n (round a) (round b)

  -- Without a top bit a round is a shift.
  pub round_small : (v : ℕ) → v < 2 ^ width → round v ≡ v * 2
  unfolding top
  round_small v h = ground (
    arith,
    round-eq v,
    pow-suc 2 width,
    div-eq_of_lt {n = v} {m = 2 ^ width},
    mod-eq_of_lt {n = v * 2} {m = 2 ^ suc width},
    xor-zero (v * 2),
  )

  pub round_lt : (v : ℕ) → poly < 2 ^ suc width → round v < 2 ^ suc width
  round_lt v h =
      ground (arith, one-le-pow (suc width) 2, xor-lt (suc width) (v * 2 % 2 ^ suc width) poly)

  feed-round_bits :
      (t b : Bool) (x : ℕ)
      → (if xor t b then bit_xor x poly else x)
        ≡ bit_xor (if t then bit_xor x poly else x) (if b then poly else 0)
  unfolding xor
  feed-round_bits true true x =
      sym (xor_assoc x poly poly ∙ ap (bit_xor x) (xor_self poly) ∙ xor-zero x)
  feed-round_bits true false x = sym (xor-zero _)
  feed-round_bits false true x = refl
  feed-round_bits false false x = sym (xor-zero x)

  feed-round : (v : ℕ) (b : Bool) → feed v b ≡ bit_xor (round v) (if b then poly else 0)
  feed-round v b = feed-round_bits (bit_and v (2 ^ width) != 0) b _

  round_top : round (2 ^ width) ≡ poly
  unfolding top
  round_top = ground (
    arith,
    round-eq (2 ^ width),
    pow-suc 2 width,
    mod_self (2 ^ suc width),
    one-le-pow width 2,
    div_self {n = 2 ^ width},
    zero-xor poly,
  )

  -- A round on the bits of a message byte, moved up to the top of the register.
  round_message :
      (n p value : ℕ)
      → 2 ^ suc n * p ≡ 2 ^ suc width
      → round (value % 2 ^ suc n * p)
        ≡ bit_xor (if bit_and (value / 2 ^ n) 1 != 0 then poly else 0) (value % 2 ^ n * (2 * p))
  round_message n p value e = elim (low_bit-cases (value / 2 ^ n)) [
    | inl c ↦ ground (
      arith,
      c,
      and_mask 1 (value / 2 ^ n),
      mod_pow_suc n value,
      fits,
      round_small (value % 2 ^ n * p),
      zero-xor (value % 2 ^ n * (2 * p)),
    )
    | inr c ↦
        ap round (whole c)
        ∙ round-xor (2 ^ width) (value % 2 ^ n * p)
        ∙ ap₂ bit_xor (round_top ∙ ground (arith, c, and_mask 1 (value / 2 ^ n)))
            (round_small _ fits ∙ omega arith)
  ]
    where
      weight : 2 ^ n * p ≡ 2 ^ width
      weight = omega (arith, e, pow-suc 2 width, ap (λ (q : ℕ). q * p) (pow-suc 2 n))

      fits : value % 2 ^ n * p < 2 ^ width
      fits = grind (arith, weight, one-le-pow width 2, mod-lt value {m = 2 ^ n}, one-le-pow n 2)

      whole :
          value / 2 ^ n % 2 ≡ 1 → value % 2 ^ suc n * p ≡ bit_xor (2 ^ width) (value % 2 ^ n * p)
      whole c =
          omega (
            arith,
            weight,
            ap (λ (x : ℕ). x * p)
                (mod_pow_suc n value ∙ ap (λ (x : ℕ). x * 2 ^ n + value % 2 ^ n) c),
          )
          ∙ sym (xor_add width 1 _ fits)
          ∙ ap (λ (x : ℕ). bit_xor x (value % 2 ^ n * p)) (omega arith)

  -- Feeding bits one by one is adding them to the top of the register, and rounds without them.
  pub feed_bits-rounds :
      (n p v value : ℕ)
      → 2 ^ n * p ≡ 2 ^ suc width
      → feed_bits v value n ≡ rounds n (bit_xor v (value % 2 ^ n * p))
  unfolding feed_bits rounds
  feed_bits-rounds zero p v value e = ground (arith, xor-zero v)
  feed_bits-rounds (suc n) p v value e =
      feed_bits-rounds n (2 * p) _ value (omega (arith, e, ap (λ (q : ℕ). q * p) (pow-suc 2 n)))
      ∙ ap (rounds n) inner
    where
      inner :
          bit_xor (feed v (bit_and (value / 2 ^ n) 1 != 0)) (value % 2 ^ n * (2 * p))
          ≡ round (bit_xor v (value % 2 ^ suc n * p))
      inner =
          ap (λ (x : ℕ). bit_xor x (value % 2 ^ n * (2 * p))) (feed-round v _)
          ∙ xor_assoc (round v) _ _
          ∙ ap (bit_xor (round v)) (sym (round_message n p value e))
          ∙ sym (round-xor v _)

  -- Rounds that lose no bit.
  pub rounds_small : (n v : ℕ) → v * 2 ^ n < 2 ^ suc width → rounds n v ≡ v * 2 ^ n
  unfolding rounds
  rounds_small zero v h = omega arith
  rounds_small (suc n) v h =
      ap (rounds n) (
        round_small v (grind (arith, one-le-pow n 2, pow-suc 2 n, pow-suc 2 width, double_pow v n)))
      ∙ rounds_small n (v * 2) (omega (arith, double_pow v n))
      ∙ omega (arith, double_pow v n)
