-- ===== src/Base/Words.antt =====
-- Machine words: a word is a number with its range stated beside it; `<<` drops what leaves the
-- word, `+` saturates or wraps where the source says so.
use Prim.Native.Nat.{ℕ, ◌+◌, ◌-◌, ◌*◌, ◌/◌, ◌%◌, ◌^◌, ◌<◌, min}

abbrev pub IsU8 : ℕ → Type 0
IsU8 v = v < 2 ^ 8

abbrev pub IsU16 : ℕ → Type 0
IsU16 v = v < 2 ^ 16

abbrev pub IsU32 : ℕ → Type 0
IsU32 v = v < 2 ^ 32

abbrev pub IsU64 : ℕ → Type 0
IsU64 v = v < 2 ^ 64

abbrev pub shl8 : ℕ → ℕ → ℕ
shl8 x k = x * 2 ^ k % 2 ^ 8

abbrev pub shl32 : ℕ → ℕ → ℕ
shl32 x k = x * 2 ^ k % 2 ^ 32

abbrev pub shl64 : ℕ → ℕ → ℕ
shl64 x k = x * 2 ^ k % 2 ^ 64

abbrev pub shr : ℕ → ℕ → ℕ
shr x k = x / 2 ^ k

-- `saturating_add` on u32 and u64; `saturating_sub` is the subtraction of ℕ.
abbrev pub sat_add32 : ℕ → ℕ → ℕ
sat_add32 a b = min (a + b) (2 ^ 32 - 1)

abbrev pub sat_add64 : ℕ → ℕ → ℕ
sat_add64 a b = min (a + b) (2 ^ 64 - 1)

-- `wrapping_add(1)` and `wrapping_sub` on u32.
abbrev pub wrapping_suc32 : ℕ → ℕ
wrapping_suc32 a = (a + 1) % 2 ^ 32

abbrev pub wrapping_sub32 : ℕ → ℕ → ℕ
wrapping_sub32 a b = (a + 2 ^ 32 - b) % 2 ^ 32
