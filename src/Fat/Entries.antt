-- ===== src/Fat/Entries.antt =====
-- The entries of the allocation table, kernel/fs/fat.c: what `fat_get` and `fat_set_copy` do to the
-- table as a sequence of bytes.
use ao_os.Base.{
  ℕ, ◌+◌, ◌*◌, ◌/◌, ◌%◌, ◌^◌, ◌<◌, ◌≡◌, ap, ◌≢◌, inl, inr, arith, ◌==◌, if◌then◌else◌, Bool-cases,
  u8,
}
use ao_os.Fat.{FatType, fat12, fat16, fat32, word16, word32, pick12, put12, put32}

-- The table as bytes, from sector `base` on
abbrev pub Bytes : Type 0
Bytes = ℕ → ℕ

-- Where the entry of a cluster starts, in bytes
abbrev pub start : FatType → ℕ → ℕ
start fat12 c = c + c / 2
start fat16 c = c * 2
start fat32 c = c * 4

-- The entry of a cluster, read off the bytes of the table
abbrev pub entry : FatType → Bytes → (c : ℕ) → ℕ
entry fat12 b c = pick12 c (word16 (b (start fat12 c)) (b (start fat12 c + 1)))
entry fat16 b c = word16 (b (start fat16 c)) (b (start fat16 c + 1))
entry fat32 b c = word32 (λ j. b (start fat32 c + j)) 0 % 2 ^ 28

-- The part of a value that an entry holds
abbrev pub kept : FatType → ℕ → ℕ
kept fat12 v = v % 4096
kept fat16 v = v % 2 ^ 16
kept fat32 v = v % 2 ^ 28

-- The bytes of the entry of `c`, with a value in place of the old one
abbrev pub filled : FatType → Bytes → (c v : ℕ) → Bytes
filled fat12 b c v j =
    let i = start fat12 c in
    let new = put12 c (word16 (b i) (b (i + 1))) v in
    if j == i then u8 new else if j == i + 1 then u8 (new / 256) else b j
filled fat16 b c v j =
    let i = start fat16 c in if j == i then u8 v else if j == i + 1 then u8 (v / 256) else b j
filled fat32 b c v j =
    let i = start fat32 c in
    let new = put32 (word32 (λ k. b (i + k)) 0) v in
    if j == i
    then u8 new
    else if j == i + 1
    then u8 (new / 256)
    else if j == i + 2
    then u8 (new / 2 ^ 16)
    else if j == i + 3
    then u8 (new / 2 ^ 24)
    else b j

abbrev pub IsBytes : Bytes → Type 0
IsBytes b = (j : ℕ) → b j < 256

-- An entry that was filled holds the value.
pub entry-filled :
    (t : FatType) (b : Bytes) (c v : ℕ) → IsBytes b → entry t (filled t b c v) c ≡ kept t v
entry-filled fat12 b c v h =
    let i = start fat12 c in let h0 = h i in let h1 = h (i + 1) in ground (arith, h0, h1)
entry-filled fat16 b c v h = ground arith
entry-filled fat32 b c v h =
    let i = start fat32 c in
    let h0 = h i in
    let h1 = h (i + 1) in let h2 = h (i + 2) in let h3 = h (i + 3) in ground (arith, h0, h1, h2, h3)

-- And no other entry changes, also where two entries share a byte.
pub entry_other :
    (t : FatType) (b : Bytes) (c v k : ℕ)
    → IsBytes b
    → c ≢ k
    → entry t (filled t b c v) k ≡ entry t b k
entry_other fat12 b c v k h n =
    let i = start fat12 c in
    let j = start fat12 k in
    let h0 = h i in
    let h1 = h (i + 1) in
    let h2 = h j in
    let h3 = h (j + 1) in
    let ne : j ≢ i = λ e. n (omega (arith, e)) in
    elim (Bool-cases (j == i + 1)) [
      | inl t ↦
          let e : j ≡ i + 1 = ground (arith, t) in
          let even : c % 2 ≡ 0 = omega (arith, e) in
          let odd : k % 2 ≡ 1 = omega (arith, e) in
          let same : b j ≡ b (i + 1) = ap b e in ground (arith, e, even, odd, same, h0, h1, h3)
      | inr t ↦ elim (Bool-cases (i == j + 1)) [
        | inl u ↦
            let e : i ≡ j + 1 = ground (arith, u) in
            let odd : c % 2 ≡ 1 = omega (arith, e) in
            let even : k % 2 ≡ 0 = omega (arith, e) in
            let same : b i ≡ b (j + 1) = ap b e in ground (arith, e, even, odd, same, h0, h1, h2)
        | inr u ↦ ground (arith, ne, t, u)
      ]
    ]
entry_other fat16 b c v k h n = ground (arith, n)
entry_other fat32 b c v k h n = ground (arith, n)
