-- ===== src/Base/Words.antt =====
-- Casts to the unsigned integers of C, and the two bytes of a half word in memory order.
use Prim.Native.Nat.{ℕ, ◌+◌, ◌*◌, ◌/◌, ◌%◌, ◌^◌}

abbrev pub u8 : ℕ → ℕ
u8 n = n % 2 ^ 8

abbrev pub u16 : ℕ → ℕ
u16 n = n % 2 ^ 16

abbrev pub u32 : ℕ → ℕ
u32 n = n % 2 ^ 32

-- `x >> 8` cut to a byte, and `x` cut to a byte.
abbrev pub hi_byte : ℕ → ℕ
hi_byte x = u8 (x / 256)

abbrev pub lo_byte : ℕ → ℕ
lo_byte x = u8 x

-- A half word that stands in memory as `lo`, then `hi`.
abbrev pub half_word : ℕ → ℕ → ℕ
half_word lo hi = lo + 256 * hi
