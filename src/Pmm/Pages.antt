-- ===== src/Pmm/Pages.antt =====
-- What the operations of the page allocator do to single pages.
use ao_os.Base.{
  ℕ, ◌+◌, ◌-◌, ◌*◌, ◌/◌, ◌%◌, ◌^◌, ◌≤◌, ◌<◌, ◌≡◌, refl, ◌≢◌, ◌∙◌, sym, ◌⊎◌, Bool, true, false, ◌||◌,
  ◌&&◌, not, inl, inr, some, none, Option-cases, Bool-cases, arith, ◌==◌, ltb, leb, for_from,
  for_from_inv, FoundAt, find_from-none,
}
use ao_os.Pmm.{
  Pmm, max_memory, max_pages, page_size, low_pages, bitmap_test, use_page, drop_page, end_used,
  end_free, mark_region_used, mark_region_free, free_page_from, alloc_page, free_page,
}
use ao_os.Pmm.Inv.{
  IsBytes, IsValid, is_free, test-set, test-clear, set-IsBytes, clear-IsBytes, taken,
  free_page_from-FoundAt, taken-IsValid, alloc_page-some, alloc_page-none, clear_bits_ext,
  free_page-IsValid,
}

-- An allocation that succeeds: the address is that of a page at or above 1 MB that was free, every
-- page between 1 MB and it is in use, and exactly its bit changes.
pub record Allocated (s : Pmm) (r : ℕ × Pmm) (page : ℕ) : Type 0 where
  pub addr : r.0 ≡ page * page_size
  pub above_low : low_pages ≤ page
  pub below_max : page < max_pages
  pub was_free : bitmap_test s.page_bitmap page ≡ false
  pub lowest : (q : ℕ) → low_pages ≤ q → q < page → bitmap_test s.page_bitmap q ≡ true
  pub now : (q : ℕ) → bitmap_test r.1.page_bitmap q ≡ (page == q || bitmap_test s.page_bitmap q)

-- An allocation that fails: 0 is returned, nothing changes, and no page at or above 1 MB is free.
pub record Exhausted (s : Pmm) (r : ℕ × Pmm) : Type 0 where
  pub zero_addr : r.0 ≡ 0
  pub same : r.1 ≡ s
  pub all_used : (q : ℕ) → low_pages ≤ q → q < max_pages → bitmap_test s.page_bitmap q ≡ true

free_page_from-none :
    (s : Pmm)
    → free_page_from s ≡ none
    → (q : ℕ) → low_pages ≤ q
    → q < max_pages
    → bitmap_test s.page_bitmap q ≡ true
unfolding free_page_from
free_page_from-none s e q a b =
    ground (arith, find_from-none (is_free s) low_pages (max_pages - low_pages) e q a (omega arith))

taken-Allocated :
    (s : Pmm) (i : ℕ)
    → free_page_from s ≡ some i
    → IsBytes s.page_bitmap
    → Allocated s (i * page_size, taken s i) i
taken-Allocated s i e bytes =
    let f : FoundAt (is_free s) low_pages (max_pages - low_pages) i =
      free_page_from-FoundAt s i e in
    record {
      addr = refl;
      above_low = f.from;
      below_max = omega (arith, f.below);
      was_free = ground (arith, f.holds);
      lowest = λ q a b. ground (arith, f.first q a b);
      now = test-set s.page_bitmap i bytes;
    }

-- In a valid state pmm_alloc_page takes the lowest free page at or above 1 MB and that page
-- alone, or returns 0 and changes nothing because no such page is free.
pub alloc_page_lem :
    (s : Pmm)
    → IsValid s
    → ((page : ℕ) × Allocated s (alloc_page s) page) ⊎ Exhausted s (alloc_page s)
alloc_page_lem s v = elim (Option-cases (free_page_from s)) [
  | inl e ↦ inr (
      rw (alloc_page-none s e)
        (record { zero_addr = refl; same = refl; all_used = free_page_from-none s e }))
  | inr (i, e) ↦ inl (i, rw (alloc_page-some s i e) (taken-Allocated s i e v.bytes))
]

test-drop_page :
    (p : ℕ) (s : Pmm)
    → IsBytes s.page_bitmap
    → (q : ℕ)
    → bitmap_test (drop_page p s).page_bitmap q ≡ (not (p == q) && bitmap_test s.page_bitmap q)
unfolding drop_page
test-drop_page p s bytes q = elim (Bool-cases (bitmap_test s.page_bitmap p)) [
  | inl used ↦ rw used (test-clear s.page_bitmap p bytes q)
  | inr free ↦ rw free (ground (arith))
]

test-use_page :
    (p : ℕ) (s : Pmm)
    → IsBytes s.page_bitmap
    → (q : ℕ) → bitmap_test (use_page p s).page_bitmap q ≡ (p == q || bitmap_test s.page_bitmap q)
unfolding use_page
test-use_page p s bytes q = elim (Bool-cases (bitmap_test s.page_bitmap p)) [
  | inr free ↦ rw free (test-set s.page_bitmap p bytes q)
  | inl used ↦ rw used (ground arith)
]

-- In a valid state pmm_free_page frees the page that holds the address and no other, and does
-- nothing at an address at or above 4 GB.
test-free_page :
    (addr : ℕ) (s : Pmm)
    → IsValid s
    → (q : ℕ)
    → bitmap_test (free_page addr s).page_bitmap q
      ≡ (not (addr / page_size == q && ltb q max_pages) && bitmap_test s.page_bitmap q)
unfolding free_page
test-free_page addr s v q = ground (arith, test-drop_page (addr / page_size) s v.bytes q)

-- What freeing an allocated page does to the bits.
test-free_page-taken :
    (s : Pmm) (i : ℕ)
    → Allocated s (i * page_size, taken s i) i
    → IsValid (taken s i)
    → (q : ℕ)
    → bitmap_test (free_page (i * page_size) (taken s i)).page_bitmap q
      ≡ bitmap_test s.page_bitmap q
test-free_page-taken s i a v q = elim (Bool-cases (i == q)) [
  | inl same ↦
      ground (arith, test-free_page (i * page_size) (taken s i) v q, a.was_free, a.below_max)
  | inr other ↦ ground (arith, test-free_page (i * page_size) (taken s i) v q, a.now q)
]

abbrev pub Restored : Pmm → ℕ × Pmm → Type 0
Restored s (addr, s') =
    ((q : ℕ) → bitmap_test (free_page addr s').page_bitmap q ≡ bitmap_test s.page_bitmap q)
    × ((free_page addr s').free_pages ≡ s.free_pages)

-- In a valid state, freeing the page that an allocation returned gives back every bit of the
-- bitmap and the count of free pages.
free_page-alloc_page : (s : Pmm) → IsValid s → (alloc_page s).0 ≢ 0 → Restored s (alloc_page s)
free_page-alloc_page s v got = elim (Option-cases (free_page_from s)) [
  | inl e ↦ absurd (got (rw (alloc_page-none s e) refl))
  | inr (i, e) ↦
      let v' : IsValid (taken s i) = taken-IsValid i e v in
      let bits = test-free_page-taken s i (taken-Allocated s i e v.bytes) v' in
      rw (alloc_page-some s i e) (
        bits,
        (free_page-IsValid (i * page_size) v').counted ∙ clear_bits_ext _ _ bits ∙ sym v.counted,
      )
]

-- The loop of `mark_region_used` after its rounds for the pages from `i` up to `k`.
record UsedUpTo (s : Pmm) (i k : ℕ) (s' : Pmm) : Type 0 where
  bytes : IsBytes s'.page_bitmap
  bits :
      (q : ℕ) → bitmap_test s'.page_bitmap q ≡ (leb i q && ltb q k || bitmap_test s.page_bitmap q)

record FreeUpTo (s : Pmm) (i k : ℕ) (s' : Pmm) : Type 0 where
  bytes : IsBytes s'.page_bitmap
  bits :
      (q : ℕ)
      → bitmap_test s'.page_bitmap q ≡ (not (leb i q && ltb q k) && bitmap_test s.page_bitmap q)

use_page-IsBytes : (p : ℕ) (s : Pmm) → IsBytes s.page_bitmap → IsBytes (use_page p s).page_bitmap
unfolding use_page
use_page-IsBytes p s bytes = elim (Bool-cases (bitmap_test s.page_bitmap p)) [
  | inr free ↦ rw free (set-IsBytes s.page_bitmap p bytes)
  | inl used ↦ rw used bytes
]

drop_page-IsBytes : (p : ℕ) (s : Pmm) → IsBytes s.page_bitmap → IsBytes (drop_page p s).page_bitmap
unfolding drop_page
drop_page-IsBytes p s bytes = elim (Bool-cases (bitmap_test s.page_bitmap p)) [
  | inl used ↦ rw used (clear-IsBytes s.page_bitmap p bytes)
  | inr free ↦ rw free bytes
]

use_pages :
    (s : Pmm) (i e : ℕ)
    → IsBytes s.page_bitmap
    → UsedUpTo s i (i + (e - i)) (for_from use_page i (e - i) s)
use_pages s i e bytes =
    for_from_inv (UsedUpTo s i) use_page i (e - i) (i + (e - i)) refl
      (λ k s' a b u. record {
        bytes = use_page-IsBytes k s' u.bytes;
        bits = λ q. ground (arith, test-use_page k s' u.bytes q, u.bits q);
      })
      s (record { bytes = bytes; bits = λ q. ground arith })

drop_pages :
    (s : Pmm) (i e : ℕ)
    → IsBytes s.page_bitmap
    → FreeUpTo s i (i + (e - i)) (for_from drop_page i (e - i) s)
drop_pages s i e bytes =
    for_from_inv (FreeUpTo s i) drop_page i (e - i) (i + (e - i)) refl
      (λ k s' a b u. record {
        bytes = drop_page-IsBytes k s' u.bytes;
        bits = λ q. ground (arith, test-drop_page k s' u.bytes q, u.bits q);
      })
      s (record { bytes = bytes; bits = λ q. ground arith })

pub test-mark_region_used :
    (base length : ℕ) (s : Pmm)
    → IsBytes s.page_bitmap
    → (q : ℕ)
    → bitmap_test (mark_region_used base length s).page_bitmap q
      ≡ (leb (base / page_size) q && ltb q (end_used base length) || bitmap_test s.page_bitmap q)
unfolding mark_region_used
test-mark_region_used base length s bytes q =
    ground (arith, (use_pages s (base / page_size) (end_used base length) bytes).bits q)

pub test-mark_region_free :
    (base length : ℕ) (s : Pmm)
    → IsBytes s.page_bitmap
    → (q : ℕ)
    → bitmap_test (mark_region_free base length s).page_bitmap q ≡ (
        not (leb (base / page_size) q && ltb q (end_free base length))
        && bitmap_test s.page_bitmap q)
unfolding mark_region_free
test-mark_region_free base length s bytes q =
    ground (arith, (drop_pages s (base / page_size) (end_free base length) bytes).bits q)

-- Page `q` has a byte in the range `[base, base + length)`, or holds `base`.
abbrev pub touches : ℕ → ℕ → ℕ → Bool
touches base length q = ltb base ((q + 1) * page_size) && ltb (q * page_size) (base + length)

-- In a valid state mark_region_used marks exactly the pages below 4 GB that the range touches,
-- also those at its two ends that it covers in part, and leaves every other page as it was, if
-- the end of the range does not wrap at 64 bits.
mark_region_used-touches :
    (base length : ℕ) (s : Pmm)
    → IsValid s
    → base + length + page_size < 2 ^ 64
    → (q : ℕ)
    → bitmap_test (mark_region_used base length s).page_bitmap q
      ≡ (touches base length q && ltb q max_pages || bitmap_test s.page_bitmap q)
mark_region_used-touches base length s v fits q =
    ground (arith, test-mark_region_used base length s v.bytes q)

-- In a valid state, when a usable range below 4 GB starts inside a page and reaches the next
-- page, mark_region_free frees that page whole: the page is then free, although it starts below
-- the range.
pub mark_region_free_partial :
    (base length : ℕ) (s : Pmm)
    → IsValid s
    → base % page_size ≢ 0
    → (base / page_size + 1) * page_size ≤ base + length
    → base + length < max_memory
    → let page = base / page_size in
      (bitmap_test (mark_region_free base length s).page_bitmap page ≡ false)
      × (page * page_size < base)
mark_region_free_partial base length s v inside reach small =
    ground (arith, test-mark_region_free base length s v.bytes (base / page_size))
