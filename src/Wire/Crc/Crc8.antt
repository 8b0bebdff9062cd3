-- ===== src/Wire/Crc/Crc8.antt =====
-- wire/crc.rs: `Crc8`. The struct has the one field `value`, and a method that mutates it returns
-- its new value.
use smolgnet.Base.{ℕ, zero, suc, bit_and, bit_xor, get_or}
use smolgnet.Base.{Bool, List, [], ◌∷◌, if◌then◌else◌, ◌!=◌}
use smolgnet.Base.Words.{shl8, shr}
use smolgnet.Wire.Crc.Tables.{make_crc8_table}
use mathlib.Core.Bool.{xor}

unfoldable pub new : ℕ
new = 0

unfoldable pub update_bit : ℕ → Bool → ℕ
update_bit value bit =
    let top = bit_and value 0x80 != 0 in
    let shifted = shl8 value 1 in if xor top bit then bit_xor shifted 0x07 else shifted

-- `for i in (0..bits).rev()`.
unfoldable pub update_bits : ℕ → ℕ → ℕ → ℕ
update_bits value word zero = value
update_bits value word (suc i) = update_bits (update_bit value (bit_and (shr word i) 1 != 0)) word i

unfoldable pub update_bytes : ℕ → List ℕ → ℕ
update_bytes value [] = value
update_bytes value (b ∷ bytes) = update_bytes (get_or make_crc8_table (bit_xor value b) 0) bytes

unfoldable pub finalize : ℕ → ℕ
finalize value = value
