-- ===== src/Base/Bits.antt =====
-- Laws of `&`, `|` and `^` at variables, from one equation for the lowest digit of each.
use Prim.Native.Nat.{ℕ, zero, suc, ◌+◌, ◌-◌, ◌*◌, ◌/◌, ◌%◌, ◌^◌, ◌≤◌, ◌<◌, min, max}
use Prim.Native.Nat.{bit_and, bit_or, bit_xor, digits, bitwise, differ}
use Prim.Native.Nat.{bit_and-bitwise, bit_or-bitwise, bit_xor-bitwise}
use mathlib.Core.Path.{◌≡◌, refl, ap, sym, ◌∙◌}
use native.Mathlib.Nat.{le_refl, pow-suc, one-le-pow, div-div-eq-div-mul}
use native.Mathlib.Nat.{mod-eq_of_lt, mod-lt, div-add-mod, add-mul-mod_self_left}
use native.Mathlib.Omega.{arith}

module _ (z : ℕ → ℕ) (f : ℕ → ℕ → ℕ) where
  -- More digits to go than the first number has change nothing.
  digits-enough : (a b k j : ℕ) → a ≤ k → a ≤ j → digits z f k a b ≡ digits z f j a b
  digits-enough zero b zero zero hk hj = refl
  digits-enough zero b zero (suc j) hk hj = refl
  digits-enough zero b (suc k) zero hk hj = refl
  digits-enough zero b (suc k) (suc j) hk hj = refl
  digits-enough (suc a) b zero j hk hj = absurd (omega arith)
  digits-enough (suc a) b (suc k) zero hk hj = absurd (omega arith)
  digits-enough (suc a) b (suc k) (suc j) hk hj =
      ap (λ (q : ℕ). q * 2 + f (suc a % 2) (b % 2))
        (digits-enough (suc a / 2) (b / 2) k j (omega arith) (omega arith))

  bitwise_step :
      (a b : ℕ)
      → bitwise z f (suc a) b ≡ bitwise z f (suc a / 2) (b / 2) * 2 + f (suc a % 2) (b % 2)
  bitwise_step a b =
      ap (λ (q : ℕ). q * 2 + f (suc a % 2) (b % 2))
        (digits-enough (suc a / 2) (b / 2) a (suc a / 2) (omega arith) (le_refl _))

pub or_step : (a b : ℕ) → bit_or a b ≡ bit_or (a / 2) (b / 2) * 2 + max (a % 2) (b % 2)
or_step zero b = simp bit_or-bitwise (omega arith)
or_step (suc a) b = simp bit_or-bitwise (bitwise_step (λ y. y) max a b)

pub and_step : (a b : ℕ) → bit_and a b ≡ bit_and (a / 2) (b / 2) * 2 + min (a % 2) (b % 2)
and_step zero b = simp bit_and-bitwise (omega arith)
and_step (suc a) b = simp bit_and-bitwise (bitwise_step (λ y. 0) min a b)

differ_parity : (a b : ℕ) → differ (a % 2) (b % 2) ≡ (a + b) % 2
differ_parity a b = cases (a % 2) (b % 2) (omega arith) (omega arith) ∙ omega arith
  where
    cases : (x y : ℕ) → x < 2 → y < 2 → differ x y ≡ (x + y) % 2
    cases zero y hx hy = omega arith
    cases (suc x) zero hx hy = omega arith
    cases (suc zero) (suc zero) hx hy = refl
    cases (suc zero) (suc (suc y)) hx hy = absurd (omega arith)
    cases (suc (suc x)) (suc y) hx hy = absurd (omega arith)

pub xor_step : (a b : ℕ) → bit_xor a b ≡ bit_xor (a / 2) (b / 2) * 2 + (a + b) % 2
xor_step zero b = simp bit_xor-bitwise (omega arith)
xor_step (suc a) b =
    simp bit_xor-bitwise (omega (arith, bitwise_step (λ y. y) differ a b, differ_parity (suc a) b))

-- A recursion on halves, with a bound on the numbers as fuel.
or-zero_fuel : (n a : ℕ) → a ≤ n → bit_or a 0 ≡ a
or-zero_fuel n zero h = refl
or-zero_fuel zero (suc a) h = absurd (omega arith)
or-zero_fuel (suc n) (suc a) h =
    omega (arith, or_step (suc a) 0, or-zero_fuel n (suc a / 2) (omega arith))

pub or-zero : (a : ℕ) → bit_or a 0 ≡ a
or-zero a = or-zero_fuel a a (le_refl _)

and-zero_fuel : (n a : ℕ) → a ≤ n → bit_and a 0 ≡ 0
and-zero_fuel n zero h = refl
and-zero_fuel zero (suc a) h = absurd (omega arith)
and-zero_fuel (suc n) (suc a) h =
    omega (arith, and_step (suc a) 0, and-zero_fuel n (suc a / 2) (omega arith))

pub and-zero : (a : ℕ) → bit_and a 0 ≡ 0
and-zero a = and-zero_fuel a a (le_refl _)

pub double_pow : (q k : ℕ) → q * 2 ^ suc k ≡ 2 * (q * 2 ^ k)
double_pow q k = omega (arith, ap (λ (p : ℕ). q * p) (pow-suc 2 k))

-- `|` of a number of whole multiples of 2^k and one below 2^k is their sum.
pub or_add : (k q b : ℕ) → b < 2 ^ k → bit_or (q * 2 ^ k) b ≡ q * 2 ^ k + b
or_add zero q b h = ground (arith, or-zero q)
or_add (suc k) q b h =
    ground (arith, or_step (q * 2 ^ suc k) b, double_pow q k, or_add k q (b / 2) (omega arith))

and_low : (k q b : ℕ) → b < 2 ^ k → bit_and (q * 2 ^ k + b) (2 ^ k - 1) ≡ b
and_low zero q b h = rw and-zero (omega arith)
and_low (suc k) q b h = ground (
  arith,
  and_step (q * 2 ^ suc k + b) (2 ^ suc k - 1),
  double_pow q k,
  pow-suc 2 k,
  and_low k q (b / 2) (omega arith),
)

-- The mask of k low ones is the remainder by 2^k.
pub and_mask : (k a : ℕ) → bit_and a (2 ^ k - 1) ≡ a % 2 ^ k
and_mask k a = ground (arith, one-le-pow k 2, and_low k (a / 2 ^ k) (a % 2 ^ k))

pub half_pow : (a k : ℕ) → a / 2 / 2 ^ k ≡ a / 2 ^ suc k
half_pow a k = div-div-eq-div-mul a 2 (2 ^ k) ∙ ap (λ (d : ℕ). a / d) (omega (arith, pow-suc 2 k))

-- A mask above k zero bits looks at what is left of a shift by k.
pub and_above : (k a c : ℕ) → bit_and a (c * 2 ^ k) ≡ bit_and (a / 2 ^ k) c * 2 ^ k
and_above zero a c = ground arith
and_above (suc k) a c = ground (
  arith,
  and_step a (c * 2 ^ suc k),
  double_pow c k,
  double_pow (bit_and (a / 2 ^ suc k) c) k,
  half_pow a k,
  and_above k (a / 2) c,
)

mod_one : (a : ℕ) → a % 1 ≡ 0
mod_one a = omega arith

-- The remainder by 2^(k+1), by its lowest digit.
pub mod_double : (k a : ℕ) → a % 2 ^ suc k ≡ a / 2 % 2 ^ k * 2 + a % 2
mod_double k a = rw split (
    mod-eq_of_lt
      (omega (arith, pow-suc 2 k, mod-lt (a / 2) {m = 2 ^ k} (omega (arith, one-le-pow k 2)))))
  where
    whole : a ≡ (a / 2 % 2 ^ k * 2 + a % 2) + 2 ^ suc k * (a / 2 / 2 ^ k)
    whole =
        omega
          (arith, div-add-mod (a / 2) (2 ^ k), ap (λ (p : ℕ). p * (a / 2 / 2 ^ k)) (pow-suc 2 k))

    split : a % 2 ^ suc k ≡ (a / 2 % 2 ^ k * 2 + a % 2) % 2 ^ suc k
    split = ap (λ (x : ℕ). x % 2 ^ suc k) whole ∙ add-mul-mod_self_left _ _ _

pub zero-xor : (b : ℕ) → bit_xor 0 b ≡ b
zero-xor b = bit_xor-bitwise 0 b

xor_comm_fuel : (n a b : ℕ) → a + b ≤ n → bit_xor a b ≡ bit_xor b a
xor_comm_fuel zero zero zero h = refl
xor_comm_fuel zero zero (suc b) h = absurd (omega arith)
xor_comm_fuel zero (suc a) b h = absurd (omega arith)
xor_comm_fuel (suc n) zero zero h = refl
xor_comm_fuel (suc n) zero (suc b) h =
    ground (arith, xor_step 0 (suc b), xor_step (suc b) 0, xor_comm_fuel n 0 (suc b / 2))
xor_comm_fuel (suc n) (suc a) b h =
    ground (arith, xor_step (suc a) b, xor_step b (suc a), xor_comm_fuel n (suc a / 2) (b / 2))

pub xor_comm : (a b : ℕ) → bit_xor a b ≡ bit_xor b a
xor_comm a b = xor_comm_fuel (a + b) a b (le_refl _)

pub xor-half : (a b : ℕ) → bit_xor a b / 2 ≡ bit_xor (a / 2) (b / 2)
xor-half a b = omega (arith, xor_step a b)

pub xor-parity : (a b : ℕ) → bit_xor a b % 2 ≡ (a + b) % 2
xor-parity a b = omega (arith, xor_step a b)

xor_assoc_fuel : (n a b c : ℕ) → a + b + c ≤ n → bit_xor (bit_xor a b) c ≡ bit_xor a (bit_xor b c)
xor_assoc_fuel zero zero b c h = rw (zero-xor b, zero-xor (bit_xor b c))
xor_assoc_fuel zero (suc a) b c h = absurd (omega arith)
xor_assoc_fuel (suc n) zero b c h = rw (zero-xor b, zero-xor (bit_xor b c))
xor_assoc_fuel (suc n) (suc a) b c h = ground (
  arith,
  xor_step (bit_xor (suc a) b) c,
  xor_step (suc a) (bit_xor b c),
  xor-half (suc a) b,
  xor-half b c,
  xor-parity (suc a) b,
  xor-parity b c,
  xor_assoc_fuel n (suc a / 2) (b / 2) (c / 2),
)

pub xor_assoc : (a b c : ℕ) → bit_xor (bit_xor a b) c ≡ bit_xor a (bit_xor b c)
xor_assoc a b c = xor_assoc_fuel (a + b + c) a b c (le_refl _)

-- Shifts and remainders by powers of two go through `^`.
pub xor-shl : (k a b : ℕ) → bit_xor (a * 2 ^ k) (b * 2 ^ k) ≡ bit_xor a b * 2 ^ k
xor-shl zero a b = ground arith
xor-shl (suc k) a b = ground (
  arith,
  xor_step (a * 2 ^ suc k) (b * 2 ^ suc k),
  double_pow a k,
  double_pow b k,
  double_pow (bit_xor a b) k,
  xor-shl k a b,
)

pub xor-shr : (k a b : ℕ) → bit_xor a b / 2 ^ k ≡ bit_xor (a / 2 ^ k) (b / 2 ^ k)
xor-shr zero a b = ground arith
xor-shr (suc k) a b = ground (
  arith,
  half_pow a k,
  half_pow b k,
  half_pow (bit_xor a b) k,
  xor-half a b,
  xor-shr k (a / 2) (b / 2),
)

pub xor-lt : (k a b : ℕ) → a < 2 ^ k → b < 2 ^ k → bit_xor a b < 2 ^ k
xor-lt zero zero b ha hb = rw (zero-xor b) hb
xor-lt zero (suc a) b ha hb = absurd (omega arith)
xor-lt (suc k) a b ha hb = ground (
  arith,
  pow-suc 2 k,
  xor_step a b,
  xor-lt k (a / 2) (b / 2) (omega (arith, pow-suc 2 k)) (omega (arith, pow-suc 2 k)),
)

pub xor-mod : (k a b : ℕ) → bit_xor a b % 2 ^ k ≡ bit_xor (a % 2 ^ k) (b % 2 ^ k)
xor-mod zero a b = ground (arith, zero-xor 0, mod_one a, mod_one b, mod_one (bit_xor a b))
xor-mod (suc k) a b = ground (
  arith,
  mod_double k (bit_xor a b),
  mod_double k a,
  mod_double k b,
  xor-half a b,
  xor_step a b,
  xor_step (a % 2 ^ suc k) (b % 2 ^ suc k),
  xor-mod k (a / 2) (b / 2),
)

pub xor-zero : (a : ℕ) → bit_xor a 0 ≡ a
xor-zero a = xor_comm a 0 ∙ zero-xor a

xor_self_fuel : (n a : ℕ) → a ≤ n → bit_xor a a ≡ 0
xor_self_fuel n zero h = refl
xor_self_fuel zero (suc a) h = absurd (omega arith)
xor_self_fuel (suc n) (suc a) h =
    omega (arith, xor_step (suc a) (suc a), xor_self_fuel n (suc a / 2) (omega arith))

pub xor_self : (a : ℕ) → bit_xor a a ≡ 0
xor_self a = xor_self_fuel a a (le_refl _)

pub xor_interchange :
    (a b c d : ℕ) → bit_xor (bit_xor a b) (bit_xor c d) ≡ bit_xor (bit_xor a c) (bit_xor b d)
xor_interchange a b c d =
    xor_assoc a b (bit_xor c d)
    ∙ ap (bit_xor a)
        (sym (xor_assoc b c d) ∙ ap (λ (x : ℕ). bit_xor x d) (xor_comm b c) ∙ xor_assoc c b d)
    ∙ sym (xor_assoc a c (bit_xor b d))

-- `^` of a number of whole multiples of 2^k and one below 2^k is their sum.
pub xor_add : (k q b : ℕ) → b < 2 ^ k → bit_xor (q * 2 ^ k) b ≡ q * 2 ^ k + b
xor_add zero q b h = ground (arith, xor-zero q)
xor_add (suc k) q b h =
    ground (arith, xor_step (q * 2 ^ suc k) b, double_pow q k, xor_add k q (b / 2) (omega arith))

-- The bit of weight 2^k.
pub and_bit : (k a : ℕ) → bit_and a (2 ^ k) ≡ a / 2 ^ k % 2 * 2 ^ k
and_bit k a =
    ap (bit_and a) (omega arith)
    ∙ and_above k a 1
    ∙ ap (λ (x : ℕ). x * 2 ^ k) (and_mask 1 (a / 2 ^ k))
