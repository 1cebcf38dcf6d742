-- ===== src/Base/Words.antt =====
-- Unsigned machine words: a word is a native number, and each operation wraps at its width.
use Prim.Native.Nat.{ℕ, ◌+◌, ◌-◌, ◌%◌, ◌^◌}

abbrev pub u8 : ℕ → ℕ
u8 n = n % 2 ^ 8

abbrev pub u32 : ℕ → ℕ
u32 n = n % 2 ^ 32

abbrev pub u64 : ℕ → ℕ
u64 n = n % 2 ^ 64

-- `a - b` at 64 bits, for `b` below the modulus
abbrev pub sub64 : ℕ → ℕ → ℕ
sub64 a b = (a + 2 ^ 64 - b) % 2 ^ 64

-- `a - b` at 32 bits
abbrev pub sub32 : ℕ → ℕ → ℕ
sub32 a b = (a + 2 ^ 32 - b) % 2 ^ 32
