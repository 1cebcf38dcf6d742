-- ===== src/Base/Bits.antt =====
-- Facts about single bits of a byte, read off tables of all bytes.
use ao_os.Base.Tests.{◌==◌, ltb, if◌then◌else◌}
use Prim.Native.Nat.{ℕ, zero, suc, ◌-◌, ◌/◌, ◌%◌, ◌^◌, ◌<◌, bit_and, bit_or}
use mathlib.Core.Path.{◌≡◌, refl}
use mathlib.Core.Bool.{Bool, true, ◌&&◌, ◌||◌, not}
use native.Mathlib.Omega.{arith}

-- The test passes at every number from 0 to `bound - 1`.
unfoldable pub every : (p : ℕ → Bool) (bound : ℕ) → Bool
every p zero = true
every p (suc bound) = every p bound && p bound

pub every_lem : (p : ℕ → Bool) (bound : ℕ) → every p bound ≡ true → (i : ℕ) → i < bound → p i ≡ true
unfolding every
every_lem p zero passed i small = absurd (omega arith)
every_lem p (suc bound) passed i small = ground (arith, every_lem p bound (ground arith) i)

-- `(b >> k) & 1`
abbrev pub bit_at : ℕ → ℕ → Bool
bit_at b k = (b / 2 ^ k) % 2 == 1

-- `b |= 1 << k` and `b &= ~(1 << k)`, on a byte
abbrev pub with_bit : ℕ → ℕ → ℕ
with_bit b k = bit_or b (2 ^ k)

abbrev pub without_bit : ℕ → ℕ → ℕ
without_bit b k = bit_and b (255 - 2 ^ k)

abbrev same : Bool → Bool → Bool
same a b = if a then b else not b

same→eq : (a b : Bool) → same a b ≡ true → a ≡ b
same→eq a b h = ground arith

set_ok : ℕ → ℕ → ℕ → Bool
set_ok b k j = same (bit_at (with_bit b k) j) (j == k || bit_at b j)

clear_ok : ℕ → ℕ → ℕ → Bool
clear_ok b k j = same (bit_at (without_bit b k) j) (not (j == k) && bit_at b j)

over_bits : (ℕ → ℕ → ℕ → Bool) → Bool
over_bits p = every (λ b. every (λ k. every (λ j. p b k j) 8) 8) 256

over_bits_sound :
    (p : ℕ → ℕ → ℕ → Bool)
    → over_bits p ≡ true
    → (b k j : ℕ) → b < 256
    → k < 8
    → j < 8
    → p b k j ≡ true
unfolding over_bits
over_bits_sound p h b k j hb hk hj =
    let row = every_lem (λ b. every (λ k. every (λ j. p b k j) 8) 8) 256 h b hb in
    every_lem (λ j. p b k j) 8 (every_lem (λ k. every (λ j. p b k j) 8) 8 row k hk) j hj

set_table : over_bits set_ok ≡ true
unfolding over_bits every set_ok
set_table = refl

clear_table : over_bits clear_ok ≡ true
unfolding over_bits every clear_ok
clear_table = refl

pub bit_at-with_bit :
    (b k j : ℕ) → b < 256 → k < 8 → j < 8 → bit_at (with_bit b k) j ≡ (j == k || bit_at b j)
unfolding set_ok
bit_at-with_bit b k j hb hk hj = same→eq _ _ (over_bits_sound set_ok set_table b k j hb hk hj)

pub bit_at-without_bit :
    (b k j : ℕ)
    → b < 256
    → k < 8
    → j < 8
    → bit_at (without_bit b k) j ≡ (not (j == k) && bit_at b j)
unfolding clear_ok
bit_at-without_bit b k j hb hk hj =
    same→eq _ _ (over_bits_sound clear_ok clear_table b k j hb hk hj)

byte_ok : ℕ → ℕ → ℕ → Bool
byte_ok b k j = ltb (with_bit b k) 256 && ltb (without_bit b k) 256

byte_table : over_bits byte_ok ≡ true
unfolding over_bits every byte_ok
byte_table = refl

pub bit_bytes : (b k : ℕ) → b < 256 → k < 8 → (with_bit b k < 256) × (without_bit b k < 256)
unfolding byte_ok
bit_bytes b k hb hk = ground (arith, over_bits_sound byte_ok byte_table b k 0 hb hk (omega arith))
