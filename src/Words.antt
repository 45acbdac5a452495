-- ===== src/Words.antt =====
-- 64-bit words as the code computes with them. A `u64` is a number below 2^64; an `i64` (nix's
-- `c_long`) is kept as its bit pattern, again a number below 2^64, and an `i32` as a number below
-- 2^32. The wrap-around is written out.
pub mod Bits
pub mod Byte
pub mod Beside
use rustybug.Prelude.{ℕ, ◌+◌, ◌-◌, ◌*◌, ◌/◌, ◌%◌, ◌^◌, ltb, if◌then◌else◌}

abbrev pub u64_mod : ℕ
u64_mod = 2 ^ 64

-- `!x`
abbrev pub not_u64 : ℕ → ℕ
not_u64 x = 2 ^ 64 - 1 - x

-- `x << k`
abbrev pub shl : ℕ → ℕ → ℕ
shl x k = x * 2 ^ k % 2 ^ 64

-- `x >> k` on an `i64`: the sign bit is copied in from the left.
abbrev pub sar : ℕ → ℕ → ℕ
sar x k = if ltb x (2 ^ 63) then x / 2 ^ k else x / 2 ^ k + (2 ^ 64 - 2 ^ (64 - k))
