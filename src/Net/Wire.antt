-- ===== src/Net/Wire.antt =====
-- Byte order, loads, stores and the Internet checksum of kernel/net/net.c. A frame is its bytes by
-- their offset; the loads and stores are those of a little-endian machine.
use ao_os.Base.{
  ℕ, zero, suc, ◌+◌, ◌-◌, ◌*◌, ◌/◌, ◌%◌, ◌^◌, ◌&&◌, leb, ltb, ◌==◌, if◌then◌else◌, u8, u32,
}

abbrev pub Frame : Type 0
Frame = ℕ → ℕ

abbrev pub u16 : ℕ → ℕ
u16 n = n % 2 ^ 16

abbrev pub bswap16 : ℕ → ℕ
bswap16 v = u16 (v * 256) + v / 256

abbrev pub bswap32 : ℕ → ℕ
bswap32 v =
    v % 256 * 2 ^ 24 + v / 2 ^ 8 % 256 * 2 ^ 16 + v / 2 ^ 16 % 256 * 2 ^ 8 + v / 2 ^ 24 % 256

-- `*(uint16_t*)(p + i)` and `*(uint32_t*)(p + i)`
unfoldable pub load16 : Frame → ℕ → ℕ
load16 f i = f i + 256 * f (i + 1)

unfoldable pub load32 : Frame → ℕ → ℕ
load32 f i = f i + 256 * f (i + 1) + 2 ^ 16 * f (i + 2) + 2 ^ 24 * f (i + 3)

abbrev pub store8 : Frame → ℕ → ℕ → Frame
store8 f i v j = if i == j then u8 v else f j

abbrev pub store16 : Frame → ℕ → ℕ → Frame
store16 f i v = store8 (store8 f i v) (i + 1) (v / 256)

abbrev pub store32 : Frame → ℕ → ℕ → Frame
store32 f i v = store16 (store16 f i v) (i + 2) (v / 2 ^ 16)

-- `memcpy(p + i, src + k, n)` from another frame
unfoldable pub copy : Frame → (i : ℕ) → Frame → (k n : ℕ) → Frame
copy f i src k n j = if leb i j && ltb j (i + n) then src (k + (j - i)) else f j

-- The first loop of `checksum`: `n` bytes from `i` on, two at a time.
unfoldable pub add_words : Frame → (i n sum : ℕ) → ℕ
add_words f i zero sum = sum
add_words f i (suc zero) sum = u32 (sum + f i * 256)
add_words f i (suc (suc n)) sum = add_words f (i + 2) n (u32 (sum + (f i * 256 + f (i + 1))))

-- The second loop. A sum of 32 bits takes two rounds at most.
unfoldable pub fold_carries : (fuel sum : ℕ) → ℕ
fold_carries zero sum = sum
fold_carries (suc fuel) sum =
    let rest = fold_carries fuel (sum % 2 ^ 16 + sum / 2 ^ 16) in
    if sum / 2 ^ 16 == 0 then sum else rest

unfoldable pub checksum : Frame → (i len : ℕ) → ℕ
checksum f i len = 2 ^ 16 - 1 - u16 (fold_carries 3 (add_words f i len 0))
