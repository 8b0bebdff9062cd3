-- ===== src/Wire/Crc.antt =====
-- wire/crc.rs: the one-call forms of the two CRCs.
pub mod Tables
pub mod Crc8
pub mod Crc32
pub mod Register
pub mod Bitwise
use smolgnet.Base.{ℕ, List}

unfoldable pub crc8_gnet : List ℕ → ℕ
crc8_gnet bytes = Crc8.finalize (Crc8.update_bytes Crc8.new bytes)

unfoldable pub crc32_gnet : List ℕ → ℕ
crc32_gnet bytes = Crc32.finalize (Crc32.update_bytes Crc32.new bytes)
