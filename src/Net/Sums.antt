-- ===== src/Net/Sums.antt =====
-- The Internet checksum, kernel/net/net.c: what it is, and what a checksum stored as the code stores
-- it is worth.
use ao_os.Base.{
  ℕ, zero, suc, ◌+◌, ◌-◌, ◌*◌, ◌/◌, ◌%◌, ◌^◌, ◌≤◌, ◌<◌, ◌≡◌, ◌↔◌, refl, sym, ◌∙◌, ap, inl, inr,
  true, arith, ◌==◌, if◌then◌else◌, Bool-cases, u32,
}
use ao_os.Net.Wire.{Frame, u16, bswap16, store16, add_words, fold_carries, checksum}

abbrev pub IsBytes : Frame → Type 0
IsBytes f = (j : ℕ) → f j < 256

-- The sum of the `n` big-endian words from `i` on.
unfoldable words_sum : Frame → (i n : ℕ) → ℕ
words_sum f i zero = 0
words_sum f i (suc n) = f i * 256 + f (i + 1) + words_sum f (i + 2) n

words_sum-le : (f : Frame) → IsBytes f → (i n : ℕ) → words_sum f i n ≤ n * 65535
unfolding words_sum
words_sum-le f b i zero = omega arith
words_sum-le f b i (suc n) = omega (arith, b i, b (i + 1), words_sum-le f b (i + 2) n)

double : ℕ → ℕ
double zero = zero
double (suc n) = suc (suc (double n))

double_lem : (n : ℕ) → double n ≡ 2 * n
unfolding double
double_lem zero = refl
double_lem (suc n) = omega (arith, double_lem n)

add_words-double :
    (f : Frame)
    → IsBytes f
    → (i n sum : ℕ) → sum + n * 65535 < 2 ^ 32
    → add_words f i (double n) sum ≡ sum + words_sum f i n
unfolding add_words words_sum double
add_words-double f b i zero sum h = omega arith
add_words-double f b i (suc n) sum h =
    let e : u32 (sum + (f i * 256 + f (i + 1))) ≡ sum + (f i * 256 + f (i + 1)) =
      omega (arith, h, b i, b (i + 1)) in
    let ih =
      add_words-double f b (i + 2) n (sum + (f i * 256 + f (i + 1)))
        (omega (arith, h, b i, b (i + 1))) in
    rw e (omega (arith, ih))

-- A sum of 32 bits is folded to its residue modulo 65535, which is 65535 and not 0 for a sum that
-- is not 0.
abbrev pub residue : ℕ → ℕ
residue s = if s == 0 then 0 else (s - 1) % 65535 + 1

fold_once : (s : ℕ) → residue (s % 2 ^ 16 + s / 2 ^ 16) ≡ residue s
fold_once s = ground arith

fold_small : (s : ℕ) → s < 2 ^ 16 → s ≡ residue s
fold_small s h = ground (arith, h)

fold_carries_lem : (s : ℕ) → s < 2 ^ 32 → fold_carries 3 s ≡ residue s
unfolding fold_carries
fold_carries_lem s h =
    let s1 = s % 2 ^ 16 + s / 2 ^ 16 in
    let s2 = s1 % 2 ^ 16 + s1 / 2 ^ 16 in
    let e1 = fold_once s in
    let e2 = fold_once s1 in
    let small : s2 < 2 ^ 16 = omega (arith, h) in
    let last : s2 / 2 ^ 16 == 0 ≡ true = ground (arith, small) in
    elim (Bool-cases (s / 2 ^ 16 == 0)) [
      | inl t ↦ rw t (fold_small s (ground (arith, t)))
      | inr f ↦ rw f (elim (Bool-cases (s1 / 2 ^ 16 == 0)) [
        | inl t ↦ rw t (fold_small s1 (ground (arith, t)) ∙ e1)
        | inr g ↦ rw (g, last) (fold_small s2 small ∙ e2 ∙ e1)
      ])
    ]

checksum-double :
    (f : Frame)
    → IsBytes f
    → (i n : ℕ) → n ≤ 32768
    → checksum f i (double n) ≡ 65535 - residue (words_sum f i n)
unfolding checksum
checksum-double f b i n small =
    let e = add_words-double f b i n 0 (omega (arith, small)) in
    let l = words_sum-le f b i n in
    let r = fold_carries_lem (words_sum f i n) (omega (arith, l, small)) in
    let z : 0 + words_sum f i n ≡ words_sum f i n = omega arith in
    ap (λ s. 65535 - u16 (fold_carries 3 s)) (e ∙ z) ∙ ap (λ s. 65535 - u16 s) r ∙ ground arith

-- A 16-bit value stored at a word of the range that was 0.
words_sum-outside :
    (f : Frame) (i n k v : ℕ) → (k + 2 ≤ i) → words_sum (store16 f k v) i n ≡ words_sum f i n
unfolding words_sum
words_sum-outside f i zero k v h = refl
words_sum-outside f i (suc n) k v h =
    let a : store16 f k v i ≡ f i = ground (arith, h) in
    let b : store16 f k v (i + 1) ≡ f (i + 1) = ground (arith, h) in
    rw (a, b)
      (ap (λ s. f i * 256 + f (i + 1) + s) (words_sum-outside f (i + 2) n k v (omega (arith, h))))

words_sum-store16 :
    (f : Frame) (i n m v : ℕ)
    → m < n
    → v < 2 ^ 16
    → f (i + 2 * m) ≡ 0
    → f (i + 2 * m + 1) ≡ 0
    → words_sum (store16 f (i + 2 * m) v) i n ≡ words_sum f i n + bswap16 v
unfolding words_sum
words_sum-store16 f i zero m v h s a b = absurd (omega (arith, h))
words_sum-store16 f i (suc n) zero v h s a b =
    let x : store16 f (i + 2 * 0) v i ≡ v % 256 = ground arith in
    let y : store16 f (i + 2 * 0) v (i + 1) ≡ v / 256 = ground (arith, s) in
    let a' : f i ≡ 0 = ap f (omega arith) ∙ a in
    let b' : f (i + 1) ≡ 0 = ap f (omega arith) ∙ b in
    let rest = words_sum-outside f (i + 2) n (i + 2 * 0) v (omega arith) in
    omega (arith, x, y, a', b', rest, s)
words_sum-store16 f i (suc n) (suc m) v h s a b =
    let at : i + 2 + 2 * m ≡ i + 2 * suc m = omega arith in
    let x : store16 f (i + 2 * suc m) v i ≡ f i = ground arith in
    let y : store16 f (i + 2 * suc m) v (i + 1) ≡ f (i + 1) = ground arith in
    let ih =
      words_sum-store16 f (i + 2) n m v (omega (arith, h)) s (ap f at ∙ a)
        (ap f (omega arith) ∙ b) in
    let ih' = ap (λ k. words_sum (store16 f k v) (i + 2) n) (sym at) ∙ ih in
    omega (arith, x, y, ih')

store16-IsBytes : (f : Frame) (k v : ℕ) → IsBytes f → v < 2 ^ 16 → IsBytes (store16 f k v)
store16-IsBytes f k v b h j = ground (arith, b j, h)

-- With `s` the sum of the words and `c` its checksum: what a reader finds if the two bytes of `c`
-- stand in the wrong order.
swapped_sum :
    (s c : ℕ) → c ≡ 65535 - residue s → (65535 - residue (s + bswap16 c) ≡ 0) ↔ (c % 256 ≡ c / 256)
swapped_sum s c e = (λ h. ground (arith, h, e), λ h. ground (arith, h, e))

-- Over a range of at most 32768 words whose checksum word is 0, the checksum of the range after
-- the checksum was stored in the native byte order is 0, as a receiver demands, exactly if the
-- two bytes of the stored checksum are equal.
pub stored_checksum :
    (f : Frame) (i n m : ℕ)
    → IsBytes f
    → n ≤ 32768
    → m < n
    → f (i + 2 * m) ≡ 0
    → f (i + 2 * m + 1) ≡ 0
    → let c = checksum f i (2 * n) in
      (checksum (store16 f (i + 2 * m) c) i (2 * n) ≡ 0) ↔ (c % 256 ≡ c / 256)
stored_checksum f i n m b small h p q =
    let c = checksum f i (2 * n) in
    let twice = double_lem n in
    let ec : c ≡ 65535 - residue (words_sum f i n) =
      ap (checksum f i) (sym twice) ∙ checksum-double f b i n small in
    let range : c < 2 ^ 16 = omega (arith, ec) in
    let g = store16 f (i + 2 * m) c in
    let eg : checksum g i (2 * n) ≡ 65535 - residue (words_sum f i n + bswap16 c) =
      ap (checksum g i) (sym twice)
      ∙ checksum-double g (store16-IsBytes f (i + 2 * m) c b range) i n small
      ∙ ap (λ s. 65535 - residue s) (words_sum-store16 f i n m c h range p q) in
    let (there, back) = swapped_sum (words_sum f i n) c ec in
    (λ z. there (sym eg ∙ z), λ z. eg ∙ back z)
