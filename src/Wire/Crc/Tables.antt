-- ===== src/Wire/Crc/Tables.antt =====
-- wire/crc.rs: the two tables of 256 entries.
use smolgnet.Base.{ℕ, zero, suc, ◌+◌, bit_and, bit_xor}
use smolgnet.Base.{List, [], ◌∷◌, if◌then◌else◌, ◌!=◌}
use smolgnet.Base.Words.{shl8, shl32}

-- The `while bit < 8` loop of a table entry, on the bits left.
unfoldable pub crc8_entry : ℕ → ℕ → ℕ
crc8_entry crc zero = crc
crc8_entry crc (suc bits) =
    crc8_entry (if bit_and crc 0x80 != 0 then bit_xor (shl8 crc 1) 0x07 else shl8 crc 1) bits

unfoldable pub crc32_entry : ℕ → ℕ → ℕ
crc32_entry crc zero = crc
crc32_entry crc (suc bits) =
    crc32_entry
      (if bit_and crc 0x8000_0000 != 0 then bit_xor (shl32 crc 1) 0x04c1_1db7 else shl32 crc 1) bits

-- The `while i < 256` loop, on the entries left.
unfoldable pub fill_table : (ℕ → ℕ) → ℕ → ℕ → List ℕ
fill_table entry i zero = []
fill_table entry i (suc left) = entry i ∷ fill_table entry (i + 1) left

unfoldable pub make_crc8_table : List ℕ
make_crc8_table = fill_table (λ i. crc8_entry i 8) 0 256

unfoldable pub make_crc32_table : List ℕ
make_crc32_table = fill_table (λ i. crc32_entry (shl32 i 24) 8) 0 256
