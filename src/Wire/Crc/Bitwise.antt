-- ===== src/Wire/Crc/Bitwise.antt =====
-- The table-driven updates of wire/crc.rs against the bit-by-bit ones.
use smolgnet.Base.{ℕ, zero, suc, ◌+◌, ◌*◌, ◌/◌, ◌%◌, ◌^◌, ◌<◌, bit_xor, get_or, arith, All}
use smolgnet.Base.{Bool, List, [], ◌∷◌, ◌≡◌, refl, sym, ap, ap₂, ◌∙◌}
use smolgnet.Base.Bytes.{IsByte}
use smolgnet.Base.Words.{IsU8, IsU32, shl8, shl32, shr}
use smolgnet.Base.Bits.{xor-lt, xor-shl, xor_add, xor_assoc, xor_comm}
use smolgnet.Wire.Crc.Register.{round, rounds, feed, feed_bits, feed_bits-rounds, rounds-xor}
use smolgnet.Wire.Crc.Register.{rounds_small}
use smolgnet.Wire.Crc.Tables.{
  crc8_entry, crc32_entry, fill_table, make_crc8_table, make_crc32_table,
}
use smolgnet.Wire.Crc.Crc8
use smolgnet.Wire.Crc.Crc32

get_or-fill_table :
    (entry : ℕ → ℕ) (i left k : ℕ) → k < left → get_or (fill_table entry i left) k 0 ≡ entry (i + k)
unfolding fill_table
get_or-fill_table entry i zero k h = absurd (omega arith)
get_or-fill_table entry i (suc left) zero h = ap entry (omega arith)
get_or-fill_table entry i (suc left) (suc k) h =
    get_or-fill_table entry (i + 1) left k (omega arith) ∙ ap entry (omega arith)

crc8_entry-rounds : (bits crc : ℕ) → crc8_entry crc bits ≡ rounds 7 0x07 bits crc
unfolding crc8_entry rounds
crc8_entry-rounds zero crc = refl
crc8_entry-rounds (suc bits) crc = crc8_entry-rounds bits (round 7 0x07 crc)

crc32_entry-rounds : (bits crc : ℕ) → crc32_entry crc bits ≡ rounds 31 0x04c1_1db7 bits crc
unfolding crc32_entry rounds
crc32_entry-rounds zero crc = refl
crc32_entry-rounds (suc bits) crc = crc32_entry-rounds bits (round 31 0x04c1_1db7 crc)

update_bits8-feed_bits :
    (n value word : ℕ) → Crc8.update_bits value word n ≡ feed_bits 7 0x07 value word n
unfolding Crc8.update_bits Crc8.update_bit feed_bits
update_bits8-feed_bits zero value word = refl
update_bits8-feed_bits (suc n) value word = update_bits8-feed_bits n (feed 7 0x07 value _) word

update_bits32-feed_bits :
    (n value word : ℕ) → Crc32.update_bits value word n ≡ feed_bits 31 0x04c1_1db7 value word n
unfolding Crc32.update_bits Crc32.update_bit feed_bits
update_bits32-feed_bits zero value word = refl
update_bits32-feed_bits (suc n) value word =
    update_bits32-feed_bits n (feed 31 0x04c1_1db7 value _) word

-- One byte through the table is its eight bits one by one.
byte8 :
    (value b : ℕ)
    → IsU8 value
    → IsByte b
    → get_or make_crc8_table (bit_xor value b) 0 ≡ Crc8.update_bits value b 8
unfolding make_crc8_table
byte8 value b hv hb =
    get_or-fill_table (λ i. crc8_entry i 8) 0 256 (bit_xor value b) (xor-lt 8 value b hv hb)
    ∙ crc8_entry-rounds 8 (0 + bit_xor value b)
    ∙ ap (rounds 7 0x07 8) whole
    ∙ sym (feed_bits-rounds 7 0x07 8 1 value b (omega arith))
    ∙ sym (update_bits8-feed_bits 8 value b)
  where
    same : b ≡ b % 2 ^ 8 * 1
    same = omega arith

    whole : 0 + bit_xor value b ≡ bit_xor value (b % 2 ^ 8 * 1)
    whole = omega (arith, ap (bit_xor value) same)

split_byte :
    (value b : ℕ)
    → bit_xor value (b * 2 ^ 24) ≡ bit_xor (bit_xor (value / 2 ^ 24) b * 2 ^ 24) (value % 2 ^ 24)
split_byte value b =
    ap (λ (v : ℕ). bit_xor v (b * 2 ^ 24)) parts
    ∙ xor_assoc _ _ _
    ∙ ap (bit_xor (value / 2 ^ 24 * 2 ^ 24)) (xor_comm (value % 2 ^ 24) (b * 2 ^ 24))
    ∙ sym (xor_assoc _ _ _)
    ∙ ap (λ (v : ℕ). bit_xor v (value % 2 ^ 24)) (xor-shl 24 (value / 2 ^ 24) b)
  where
    parts : value ≡ bit_xor (value / 2 ^ 24 * 2 ^ 24) (value % 2 ^ 24)
    parts = omega (arith, xor_add 24 (value / 2 ^ 24) (value % 2 ^ 24) (omega arith))

byte32 :
    (value b : ℕ)
    → IsU32 value
    → IsByte b
    → bit_xor (shl32 value 8) (get_or make_crc32_table (bit_xor (shr value 24 % 2 ^ 8) b) 0)
      ≡ Crc32.update_bits value b 8
unfolding make_crc32_table
byte32 value b hv hb =
    ap (bit_xor (shl32 value 8)) (
      get_or-fill_table (λ i. crc32_entry (shl32 i 24) 8) 0 256 _
        (xor-lt 8 (shr value 24 % 2 ^ 8) b (omega arith) hb)
      ∙ crc32_entry-rounds 8 _)
    ∙ xor_comm _ _
    ∙ ap₂ bit_xor (ap (rounds 31 0x04c1_1db7 8) index)
        (low ∙ sym (rounds_small 31 0x04c1_1db7 8 (value % 2 ^ 24) (omega arith)))
    ∙ sym (rounds-xor 31 0x04c1_1db7 8 _ _)
    ∙ ap (rounds 31 0x04c1_1db7 8) (sym (split_byte value b) ∙ ap (bit_xor value) message)
    ∙ sym (feed_bits-rounds 31 0x04c1_1db7 8 (2 ^ 24) value b (omega arith))
    ∙ sym (update_bits32-feed_bits 8 value b)
  where
    same_top : shr value 24 % 2 ^ 8 ≡ value / 2 ^ 24
    same_top = omega arith

    low : shl32 value 8 ≡ value % 2 ^ 24 * 2 ^ 8
    low = omega arith

    message : b * 2 ^ 24 ≡ b % 2 ^ 8 * 2 ^ 24
    message = omega arith

    index : shl32 (0 + bit_xor (shr value 24 % 2 ^ 8) b) 24 ≡ bit_xor (value / 2 ^ 24) b * 2 ^ 24
    index = omega (
      arith,
      xor-lt 8 (shr value 24 % 2 ^ 8) b (omega arith) hb,
      ap (λ (x : ℕ). bit_xor x b) same_top,
    )

pub update_bit8-lt : (value : ℕ) (bit : Bool) → IsU8 (Crc8.update_bit value bit)
unfolding Crc8.update_bit
update_bit8-lt value bit = ground (arith, xor-lt 8 (shl8 value 1) 0x07)

pub update_bits8-lt : (n value word : ℕ) → IsU8 value → IsU8 (Crc8.update_bits value word n)
unfolding Crc8.update_bits
update_bits8-lt zero value word h = h
update_bits8-lt (suc n) value word h = update_bits8-lt n _ word (update_bit8-lt value _)

update_bit32-lt : (value : ℕ) (bit : Bool) → IsU32 (Crc32.update_bit value bit)
unfolding Crc32.update_bit
update_bit32-lt value bit = ground (arith, xor-lt 32 (shl32 value 1) 0x04c1_1db7)

update_bits32-lt : (n value word : ℕ) → IsU32 value → IsU32 (Crc32.update_bits value word n)
unfolding Crc32.update_bits
update_bits32-lt zero value word h = h
update_bits32-lt (suc n) value word h = update_bits32-lt n _ word (update_bit32-lt value _)

-- Each byte's eight bits in turn, the highest first: the reference.
unfoldable pub bits_of_bytes : (ℕ → ℕ → ℕ → ℕ) → ℕ → List ℕ → ℕ
bits_of_bytes update_bits value [] = value
bits_of_bytes update_bits value (b ∷ bytes) =
    bits_of_bytes update_bits (update_bits value b 8) bytes

-- From any 8-bit register and on bytes, the table-driven update of CRC-8-GNET is the bit-by-bit
-- update with each byte's eight bits, the highest first.
pub Crc8_update_bytes-bitwise :
    (bytes : List ℕ) (value : ℕ)
    → IsU8 value
    → All IsByte bytes
    → Crc8.update_bytes value bytes ≡ bits_of_bytes Crc8.update_bits value bytes
unfolding Crc8.update_bytes bits_of_bytes
Crc8_update_bytes-bitwise [] value hv h = refl
Crc8_update_bytes-bitwise (b ∷ bytes) value hv h =
    ap (λ (v : ℕ). Crc8.update_bytes v bytes) (byte8 value b hv h.0)
    ∙ Crc8_update_bytes-bitwise bytes _ (update_bits8-lt 8 value b hv) h.1

-- From any 32-bit register and on bytes, the table-driven update of CRC-32-GNET is the bit-by-bit
-- update with each byte's eight bits, the highest first.
pub Crc32_update_bytes-bitwise :
    (bytes : List ℕ) (value : ℕ)
    → IsU32 value
    → All IsByte bytes
    → Crc32.update_bytes value bytes ≡ bits_of_bytes Crc32.update_bits value bytes
unfolding Crc32.update_bytes bits_of_bytes
Crc32_update_bytes-bitwise [] value hv h = refl
Crc32_update_bytes-bitwise (b ∷ bytes) value hv h =
    ap (λ (v : ℕ). Crc32.update_bytes v bytes) (byte32 value b hv h.0)
    ∙ Crc32_update_bytes-bitwise bytes _ (update_bits32-lt 8 value b hv) h.1
