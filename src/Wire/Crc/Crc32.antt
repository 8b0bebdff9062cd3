-- ===== src/Wire/Crc/Crc32.antt =====
-- wire/crc.rs: `Crc32`, like `Crc8`.
use smolgnet.Base.{ℕ, zero, suc, ◌%◌, ◌^◌, bit_and, bit_xor, get_or}
use smolgnet.Base.{Bool, List, [], ◌∷◌, if◌then◌else◌, ◌!=◌}
use smolgnet.Base.Words.{shl32, shr}
use smolgnet.Wire.Crc.Tables.{make_crc32_table}
use mathlib.Core.Bool.{xor}

unfoldable pub new : ℕ
new = 0xffff_ffff

unfoldable pub update_bit : ℕ → Bool → ℕ
update_bit value bit =
    let top = bit_and value 0x8000_0000 != 0 in
    let shifted = shl32 value 1 in if xor top bit then bit_xor shifted 0x04c1_1db7 else shifted

unfoldable pub update_bits : ℕ → ℕ → ℕ → ℕ
update_bits value word zero = value
update_bits value word (suc i) = update_bits (update_bit value (bit_and (shr word i) 1 != 0)) word i

-- `as u8` keeps the lowest eight bits.
unfoldable pub update_bytes : ℕ → List ℕ → ℕ
update_bytes value [] = value
update_bytes value (b ∷ bytes) =
    let idx = bit_xor (shr value 24 % 2 ^ 8) b in
    update_bytes (bit_xor (shl32 value 8) (get_or make_crc32_table idx 0)) bytes

unfoldable pub finalize : ℕ → ℕ
finalize value = bit_xor value 0xffff_ffff
