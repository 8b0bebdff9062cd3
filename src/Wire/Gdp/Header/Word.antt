-- ===== src/Wire/Gdp/Header/Word.antt =====
-- The first word of a GDP header: its fields side by side.
use smolgnet.Base.{ℕ, zero, suc, ◌+◌, ◌*◌, ◌%◌, ◌^◌, ◌<◌, bit_and, bit_or, arith}
use smolgnet.Base.{◌≡◌, ◌≢◌, refl, ap, ◌∙◌, ◌!=◌}
use smolgnet.Base.Bits.{or_add, and_mask}
use smolgnet.Base.Words.{IsU8, shl32, shr}
use smolgnet.Base.Results.{ok}
use smolgnet.Wire.Crc.Crc8
use smolgnet.Wire.Crc.Bitwise.{update_bits8-lt, update_bit8-lt}
use smolgnet.Wire.Gdp.{
  GdpType, GdpHeader, GdpWireConfig, GdpAddresses, SizeClass, gctl, gts, reserved,
}
use smolgnet.Wire.Gdp.{global_addresses, local_addresses, type_to_wire, type_from_wire, class_code}
use smolgnet.Wire.Gdp.{
  class_from_wire, form, form_bit, form_from_bit, crc8, type_of_code, crc8_addresses,
}
use smolgnet.Wire.Gdp.{
  empty, tiny3, ctrl32, ctrl64, msg128, msg192, msg256, msg384, medium512, medium768,
}
use smolgnet.Wire.Gdp.{bulk1k, bulk1280, legacy1500, xmtu2k, jumbo4k, jumbo8k}
use smolgnet.Wire.Gdp.Header.{bit_word}

-- Six fields that do not overlap, joined by `|`, are their sum.
pub pack_fields :
    (v t s f c hop : ℕ)
    → v < 4
    → t < 16
    → s < 16
    → f < 2
    → c < 256
    → hop < 256
    → bit_or
        (bit_or
          (bit_or (bit_or (bit_or (shl32 v 30) (shl32 t 26)) (shl32 s 22)) (shl32 f 21))
          (shl32 c 8))
        hop
      ≡ v * 2 ^ 30 + t * 2 ^ 26 + s * 2 ^ 22 + f * 2 ^ 21 + c * 2 ^ 8 + hop
pack_fields v t s f c hop hv ht hs hf hc hh = ground (
  arith,
  or_add 30 v (t * 2 ^ 26),
  or_add 26 (v * 2 ^ 4 + t) (s * 2 ^ 22),
  or_add 22 (v * 2 ^ 8 + t * 2 ^ 4 + s) (f * 2 ^ 21),
  or_add 21 (v * 2 ^ 9 + t * 2 ^ 5 + s * 2 + f) (c * 2 ^ 8),
  or_add 8 (v * 2 ^ 22 + t * 2 ^ 18 + s * 2 ^ 14 + f * 2 ^ 13 + c) hop,
)

-- The masks and shifts of the decoder take the fields out again.
pub unpack_fields :
    (v t s f c hop word : ℕ)
    → v < 4
    → t < 16
    → s < 16
    → f < 2
    → c < 256
    → hop < 256
    → word ≡ v * 2 ^ 30 + t * 2 ^ 26 + s * 2 ^ 22 + f * 2 ^ 21 + c * 2 ^ 8 + hop
    → (bit_and (shr word 30) 3 ≡ v)
      × (bit_and (shr word 26) 0x0f ≡ t)
      × (bit_and (shr word 22) 0x0f ≡ s)
      × (bit_and (shr word 21) 1 ≡ f)
      × (bit_and (shr word 8) 0xff ≡ c)
      × (bit_and word 0xff ≡ hop)
      × (bit_and word 0x0f ≡ hop % 16)
unpack_fields v t s f c hop word hv ht hs hf hc hh e = omega (
  arith,
  and_mask 2 (shr word 30),
  and_mask 4 (shr word 26),
  and_mask 4 (shr word 22),
  and_mask 1 (shr word 21),
  and_mask 8 (shr word 8),
  and_mask 8 word,
  and_mask 4 word,
)

-- A type whose code is its own: `Reserved` holds neither another type's code nor more than 4 bits.
abbrev pub IsCanonical : GdpType → Type 0
IsCanonical gctl = Unit {0}
IsCanonical gts = Unit {0}
IsCanonical (reserved v) = (v < 16) × (v ≢ 1) × (v ≢ 2)

pub type_to_wire-lt : (p : GdpType) → type_to_wire p < 16
unfolding type_to_wire
type_to_wire-lt gctl = omega arith
type_to_wire-lt gts = omega arith
type_to_wire-lt (reserved v) = omega (arith, and_mask 4 v)

type_of_code-reserved : (v : ℕ) → v ≢ 1 → v ≢ 2 → type_of_code v ≡ reserved v
unfolding type_of_code
type_of_code-reserved zero p q = refl
type_of_code-reserved (suc zero) p q = absurd (omega arith)
type_of_code-reserved (suc (suc zero)) p q = absurd (omega arith)
type_of_code-reserved (suc (suc (suc v))) p q = refl

-- The code of a type reads back as the type, as it stands and after the encoder's mask.
pub type_from_wire-type_to_wire :
    (p : GdpType) → IsCanonical p → type_from_wire (type_to_wire p) ≡ p
unfolding type_from_wire type_to_wire
type_from_wire-type_to_wire gctl h = refl
type_from_wire-type_to_wire gts h = refl
type_from_wire-type_to_wire (reserved v) (lt, p, q) =
    ap type_of_code same ∙ type_of_code-reserved v p q
  where
    same : bit_and (bit_and v 0x0f) 0x0f ≡ v
    same = omega (arith, and_mask 4 (bit_and v 0x0f), and_mask 4 v)

pub class_code-lt : (c : SizeClass) → class_code c < 16
unfolding class_code
class_code-lt c = ground arith

pub class_from_wire-class_code : (c : SizeClass) → class_from_wire (class_code c) ≡ ok c
unfolding class_from_wire class_code
class_from_wire-class_code = elim [
  | empty ↦ refl
  | tiny3 ↦ refl
  | ctrl32 ↦ refl
  | ctrl64 ↦ refl
  | msg128 ↦ refl
  | msg192 ↦ refl
  | msg256 ↦ refl
  | msg384 ↦ refl
  | medium512 ↦ refl
  | medium768 ↦ refl
  | bulk1k ↦ refl
  | bulk1280 ↦ refl
  | legacy1500 ↦ refl
  | xmtu2k ↦ refl
  | jumbo4k ↦ refl
  | jumbo8k ↦ refl
]

pub form_from_bit-form_bit :
    (cfg : GdpWireConfig) (a : GdpAddresses)
    → form_from_bit cfg (bit_word (form_bit cfg (form a)) != 0) ≡ form a
unfolding form_from_bit form_bit form
form_from_bit-form_bit cfg a = ground arith

crc8_addresses-lt : (c : ℕ) (a : GdpAddresses) → IsU8 c → IsU8 (crc8_addresses c a)
unfolding crc8_addresses
crc8_addresses-lt c (global_addresses destination source) hc =
    update_bits8-lt 64 _ source (update_bits8-lt 64 c destination hc)
crc8_addresses-lt c (local_addresses destination source prefix) hc =
    update_bits8-lt 16 _ source (update_bits8-lt 16 c destination hc)

pub crc8-lt : (h : GdpHeader) (cfg : GdpWireConfig) → IsU8 (crc8 h cfg)
unfolding crc8 Crc8.finalize
crc8-lt h cfg = crc8_addresses-lt _ h.addresses (update_bit8-lt _ _)
