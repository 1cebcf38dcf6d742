-- ===== src/Pmm/Inv.antt =====
-- The invariant of the page allocator: the bitmap holds bytes, and `free_pages` is the number of
-- clear bits. Every operation keeps it.
use ao_os.Base.{
  ℕ, ◌+◌, ◌-◌, ◌*◌, ◌/◌, ◌%◌, ◌≤◌, ◌<◌, ◌≡◌, refl, Bool, true, false, ◌||◌, ◌&&◌, not, inl, inr,
  some, none, Option-cases, Bool-cases, arith, ◌==◌, leb, sub64, for_from, for_from_inv,
  count_below, count_below-le, count_below_drop, count_below_ext, ap, FoundAt, find_from-FoundAt,
}
use ao_os.Base.Bits.{bit_at-with_bit, bit_at-without_bit, bit_bytes}
use ao_os.Pmm.{
  Pmm, max_pages, page_size, low_pages, bitmap_set, bitmap_clear, bitmap_test, use_page, drop_page,
  end_used, end_free, mark_region_used, mark_region_free, free_page_from, alloc_page, free_page,
}

abbrev pub IsBytes : (ℕ → ℕ) → Type 0
IsBytes b = (i : ℕ) → b i < 256

module _ (b : ℕ → ℕ) (p : ℕ) (bytes : IsBytes b) where
  pub test-set : (q : ℕ) → bitmap_test (bitmap_set b p) q ≡ (p == q || bitmap_test b q)
  unfolding bitmap_test bitmap_set
  test-set q = ground (
    arith,
    bit_at-with_bit (b (p / 8)) (p % 8) (q % 8) (bytes (p / 8)) (omega arith) (omega arith),
  )

  pub test-clear : (q : ℕ) → bitmap_test (bitmap_clear b p) q ≡ (not (p == q) && bitmap_test b q)
  unfolding bitmap_test bitmap_clear
  test-clear q = ground (
    arith,
    bit_at-without_bit (b (p / 8)) (p % 8) (q % 8) (bytes (p / 8)) (omega arith) (omega arith),
  )

  pub set-IsBytes : IsBytes (bitmap_set b p)
  unfolding bitmap_set
  set-IsBytes i =
      ground (arith, bytes i, bit_bytes (b (p / 8)) (p % 8) (bytes (p / 8)) (omega arith))

  pub clear-IsBytes : IsBytes (bitmap_clear b p)
  unfolding bitmap_clear
  clear-IsBytes i =
      ground (arith, bytes i, bit_bytes (b (p / 8)) (p % 8) (bytes (p / 8)) (omega arith))

-- A page that the allocator may hand out, if it is not low memory.
abbrev pub is_free : Pmm → ℕ → Bool
is_free s p = not (bitmap_test s.page_bitmap p)

-- The number of clear bits among the first `MAX_PAGES`.
unfoldable pub clear_bits : (ℕ → ℕ) → ℕ
clear_bits b = count_below (λ p. not (bitmap_test b p)) max_pages

pub record IsValid (s : Pmm) : Type 0 where
  pub bytes : IsBytes s.page_bitmap
  pub counted : s.free_pages ≡ clear_bits s.page_bitmap

clear_bits-le : (b : ℕ → ℕ) → clear_bits b ≤ max_pages
unfolding clear_bits
clear_bits-le b = count_below-le _ max_pages

-- The count depends only on the bits.
pub clear_bits_ext :
    (b c : ℕ → ℕ) → ((q : ℕ) → bitmap_test b q ≡ bitmap_test c q) → clear_bits b ≡ clear_bits c
unfolding clear_bits
clear_bits_ext b c h = count_below_ext _ _ max_pages (λ q _. ap not (h q))

module _ (b : ℕ → ℕ) (p : ℕ) (bytes : IsBytes b) (inside : p < max_pages) where
  clear_bits-set : bitmap_test b p ≡ false → clear_bits b ≡ clear_bits (bitmap_set b p) + 1
  unfolding clear_bits
  clear_bits-set free =
      count_below_drop _ _ p max_pages inside (ground arith) (ground (arith, test-set b p bytes p))
        (λ j ne. ground (arith, test-set b p bytes j))

  clear_bits-clear : bitmap_test b p ≡ true → clear_bits (bitmap_clear b p) ≡ clear_bits b + 1
  unfolding clear_bits
  clear_bits-clear used =
      count_below_drop _ _ p max_pages inside (ground (arith, test-clear b p bytes p))
        (ground arith) (λ j ne. ground (arith, test-clear b p bytes j))

use_page-IsValid : (p : ℕ) {s : Pmm} → p < max_pages → IsValid s → IsValid (use_page p s)
unfolding use_page
use_page-IsValid p {s} inside v = elim (Bool-cases (bitmap_test s.page_bitmap p)) [
  | inl used ↦ rw used v
  | inr free ↦ rw free (record {
    bytes = set-IsBytes s.page_bitmap p v.bytes;
    counted = ground (arith, clear_bits-set s.page_bitmap p v.bytes inside);
  })
]

drop_page-IsValid : (p : ℕ) {s : Pmm} → p < max_pages → IsValid s → IsValid (drop_page p s)
unfolding drop_page
drop_page-IsValid p {s} inside v = elim (Bool-cases (bitmap_test s.page_bitmap p)) [
  | inr free ↦ rw free v
  | inl used ↦ rw used (record {
    bytes = clear-IsBytes s.page_bitmap p v.bytes;
    counted = ground (
      arith,
      clear_bits-clear s.page_bitmap p v.bytes inside,
      clear_bits-le (bitmap_clear s.page_bitmap p),
    );
  })
]

-- The loops of the two marking functions stay below `MAX_PAGES`.
for_pages-IsValid :
    (body : ℕ → Pmm → Pmm) (i e : ℕ)
    → ((p : ℕ) (s : Pmm) → p < max_pages → IsValid s → IsValid (body p s))
    → e ≤ max_pages
    → {s : Pmm} → IsValid s
    → IsValid (for_from body i (e - i) s)
for_pages-IsValid body i e keep small {s} v =
    for_from_inv (λ _ s'. IsValid s') body i (e - i) (i + (e - i)) refl
      (λ k s' a b w. keep k s' (omega arith) w) s v

pub mark_region_used-IsValid :
    (base length : ℕ) {s : Pmm} → IsValid s → IsValid (mark_region_used base length s)
unfolding mark_region_used
mark_region_used-IsValid base length v =
    for_pages-IsValid use_page _ (end_used base length) (λ p s. use_page-IsValid p) (ground arith) v

pub mark_region_free-IsValid :
    (base length : ℕ) {s : Pmm} → IsValid s → IsValid (mark_region_free base length s)
unfolding mark_region_free
mark_region_free-IsValid base length v =
    for_pages-IsValid drop_page _ (end_free base length) (λ p s. drop_page-IsValid p) (ground arith)
      v

pub free_page_from-FoundAt :
    (s : Pmm) (i : ℕ)
    → free_page_from s ≡ some i
    → FoundAt (is_free s) low_pages (max_pages - low_pages) i
unfolding free_page_from
free_page_from-FoundAt s i e = find_from-FoundAt _ _ _ i e

-- What an allocation does to a state in which the search stops at page `i`.
abbrev pub taken : Pmm → ℕ → Pmm
taken s i = record s { page_bitmap = bitmap_set s.page_bitmap i; free_pages = sub64 s.free_pages 1 }

pub alloc_page-some :
    (s : Pmm) (i : ℕ) → free_page_from s ≡ some i → alloc_page s ≡ (i * page_size, taken s i)
unfolding alloc_page
alloc_page-some s i e = rw (e, alloc_page)

pub alloc_page-none : (s : Pmm) → free_page_from s ≡ none → alloc_page s ≡ (0, s)
unfolding alloc_page
alloc_page-none s e = rw (e, alloc_page)

pub taken-IsValid : {s : Pmm} (i : ℕ) → free_page_from s ≡ some i → IsValid s → IsValid (taken s i)
taken-IsValid {s} i e v =
    let f : FoundAt (is_free s) low_pages (max_pages - low_pages) i =
      free_page_from-FoundAt s i e in
    record {
      bytes = set-IsBytes s.page_bitmap i v.bytes;
      counted = ground (
        arith,
        f.holds,
        f.below,
        v.counted,
        clear_bits-set s.page_bitmap i v.bytes,
        clear_bits-le s.page_bitmap,
      );
    }

pub alloc_page-IsValid : {s : Pmm} → IsValid s → IsValid (alloc_page s).1
alloc_page-IsValid {s} v = elim (Option-cases (free_page_from s)) [
  | inl e ↦ rw (alloc_page-none s e) v
  | inr (i, e) ↦ rw (alloc_page-some s i e) (taken-IsValid i e v)
]

pub free_page-IsValid : (addr : ℕ) {s : Pmm} → IsValid s → IsValid (free_page addr s)
unfolding free_page
free_page-IsValid addr {s} v = elim (Bool-cases (leb max_pages (addr / page_size))) [
  | inl out ↦ rw out v
  | inr inside ↦ rw inside (drop_page-IsValid (addr / page_size) (ground arith) v)
]
