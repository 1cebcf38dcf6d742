-- ===== src/Pmm/Boot.antt =====
-- `pmm_init`: what the allocator holds when the kernel has booted.
use ao_os.Base.{
  ℕ, ◌+◌, ◌-◌, ◌*◌, ◌/◌, ◌%◌, ◌^◌, ◌≤◌, ◌<◌, ◌≡◌, refl, sym, ◌⊎◌, inl, inr, true, false, ◌||◌, ◌&&◌,
  ◌≢◌, Bool-cases, List, [], ◌∷◌, arith, ◌==◌, ltb, leb, if◌then◌else◌, u64, sub64,
  count_below_none,
}
use ao_os.Base.Bits.{bit_at, every, every_lem}
use ao_os.Pmm.{
  Pmm, E820Entry, max_memory, max_pages, page_size, low_pages, bitmap_test, free_page, end_used,
  mark_region_used, mark_region_free, alloc_page, add_entry, add_entries, all_used, assume_32_mb,
  read_map, init,
}
use ao_os.Pmm.Inv.{
  IsValid, clear_bits, alloc_page-IsValid, free_page-IsValid, mark_region_used-IsValid,
  mark_region_free-IsValid,
}
use ao_os.Pmm.Pages.{
  Exhausted, alloc_page_lem, test-mark_region_used, test-mark_region_free, touches,
}

-- Every bit of the byte 255 is set.
all_used_bits : (q : ℕ) → bitmap_test all_used.page_bitmap q ≡ true
unfolding bitmap_test every
all_used_bits q = every_lem (bit_at 255) 8 refl (q % 8) (omega arith)

all_used-IsValid : (t m : ℕ) → IsValid (record all_used { total_pages = t; total_memory_bytes = m })
unfolding clear_bits
all_used-IsValid t m = record {
  bytes = λ i. omega arith;
  counted = sym (count_below_none _ max_pages (λ j _. rw all_used_bits refl));
}

-- Page `q` lies in the usable entry whole; or it is the page that the entry starts in the middle of,
-- and the entry holds it from there to its end.
abbrev pub Holds : E820Entry → ℕ → Type 0
Holds e q =
    (e.type ≡ 1)
    × ((e.base ≤ q * page_size)
        ⊎ ((e.base % page_size ≢ 0) × (q * page_size < e.base) × (e.base < (q + 1) * page_size)))
    × ((q + 1) * page_size ≤ e.base + e.length)

abbrev pub Usable : List E820Entry → ℕ → Type 0
Usable [] q = ⊥
Usable (e ∷ es) q = Holds e q ⊎ Usable es q

-- The length that is marked free: the part below `MAX_MEMORY`.
abbrev marked : E820Entry → ℕ
marked e = if ltb max_memory (u64 (e.base + e.length)) then max_memory - e.base else e.length

-- The state with the new memory size, before the entry's pages are marked.
abbrev resized : E820Entry → Pmm → Pmm
resized e s = record s {
  total_memory_bytes =
      (if ltb s.total_memory_bytes (u64 (e.base + e.length))
        then u64 (e.base + e.length)
        else s.total_memory_bytes);
}

resized-IsValid : (e : E820Entry) {s : Pmm} → IsValid s → IsValid (resized e s)
resized-IsValid e v = record { bytes = v.bytes; counted = v.counted }

add_entry_cases :
    (e : E820Entry) (s : Pmm)
    → (add_entry e s ≡ resized e s)
      ⊎ ((e.type ≡ 1)
          × (e.base < max_memory)
          × (add_entry e s ≡ mark_region_free e.base (marked e) (resized e s)))
unfolding add_entry
add_entry_cases e s = elim (Bool-cases (e.type == 1)) [
  | inr other ↦ inl (rw other refl)
  | inl usable ↦ elim (Bool-cases (ltb e.base max_memory)) [
    | inr high ↦ inl (rw (usable, high) refl)
    | inl low ↦ inr (ground arith, ground arith, rw (usable, low) refl)
  ]
]

add_entry-IsValid : (e : E820Entry) {s : Pmm} → IsValid s → IsValid (add_entry e s)
add_entry-IsValid e {s} v = elim (add_entry_cases e s) [
  | inl eq ↦ rw eq (resized-IsValid e v)
  | inr (_, _, eq) ↦ rw eq (mark_region_free-IsValid e.base (marked e) (resized-IsValid e v))
]

test-add_entry :
    (e : E820Entry) (s : Pmm)
    → IsValid s
    → (q : ℕ) → bitmap_test (add_entry e s).page_bitmap q ≡ false
    → (bitmap_test s.page_bitmap q ≡ false) ⊎ Holds e q
test-add_entry e s v q h = elim (add_entry_cases e s) [
  | inl eq ↦ inl (rw eq at h)
  | inr (usable, low, eq) ↦
      let h' : bitmap_test (mark_region_free e.base (marked e) (resized e s)).page_bitmap q
          ≡ false =
        rw eq at h in
      ground (arith, h', test-mark_region_free e.base (marked e) (resized e s) v.bytes q)
]

add_entries-IsValid : (es : List E820Entry) {s : Pmm} → IsValid s → IsValid (add_entries es s)
unfolding add_entries
add_entries-IsValid [] v = v
add_entries-IsValid (e ∷ es) v = add_entries-IsValid es (add_entry-IsValid e v)

test-add_entries :
    (es : List E820Entry) (s : Pmm)
    → IsValid s
    → (q : ℕ) → bitmap_test (add_entries es s).page_bitmap q ≡ false
    → (bitmap_test s.page_bitmap q ≡ false) ⊎ Usable es q
unfolding add_entries
test-add_entries [] s v q h = inl h
test-add_entries (e ∷ es) s v q h =
    elim (test-add_entries es (add_entry e s) (add_entry-IsValid e v) q h) [
      | inr later ↦ inr (inr later)
      | inl before ↦ elim (test-add_entry e s v q before) [
        | inl old ↦ inl old
        | inr holds ↦ inr (inl holds)
      ]
    ]

read_map-IsValid : (es : List E820Entry) → IsValid (read_map es)
unfolding read_map
read_map-IsValid es =
    let v = add_entries-IsValid es (all_used-IsValid 0 0) in
    record { bytes = v.bytes; counted = v.counted }

assume_32_mb-IsValid : IsValid assume_32_mb
unfolding assume_32_mb
assume_32_mb-IsValid = mark_region_free-IsValid _ _ (all_used-IsValid _ _)

test-read_map :
    (es : List E820Entry) (q : ℕ) → bitmap_test (read_map es).page_bitmap q ≡ false → Usable es q
unfolding read_map
test-read_map es q h = elim (test-add_entries es all_used (all_used-IsValid 0 0) q h) [
  | inl impossible ↦ absurd (cc (all_used_bits q))
  | inr usable ↦ usable
]

-- The map that `pmm_init` works from is valid.
from_map : ℕ → List E820Entry → Pmm
from_map count es = if count == 0 || ltb 128 count then assume_32_mb else read_map es

from_map-IsValid : (count : ℕ) (es : List E820Entry) → IsValid (from_map count es)
unfolding from_map
from_map-IsValid count es = elim (Bool-cases (count == 0 || ltb 128 count)) [
  | inl t ↦ rw t assume_32_mb-IsValid
  | inr f ↦ rw f (read_map-IsValid es)
]

module _ (count : ℕ) (es : List E820Entry) (kstart kend : ℕ) where
  -- After `pmm_init` the count of free pages is right, whatever the map holds.
  pub init-IsValid : IsValid (init count es kstart kend)
  unfolding init from_map
  init-IsValid =
      mark_region_used-IsValid kstart (sub64 kend kstart)
        (mark_region_used-IsValid 0 0x100000 (from_map-IsValid count es))

  from_map_lem : count ≢ 0 → count ≤ 128 → from_map count es ≡ read_map es
  unfolding from_map
  from_map_lem nonzero few = ground arith

  abbrev low_used : Pmm
  low_used = mark_region_used 0 0x100000 (from_map count es)

  low_used-IsValid : IsValid low_used
  low_used-IsValid = mark_region_used-IsValid 0 0x100000 (from_map-IsValid count es)

  test-init :
      (q : ℕ)
      → bitmap_test (init count es kstart kend).page_bitmap q ≡ false
      → (bitmap_test (from_map count es).page_bitmap q ≡ false)
        × (low_pages ≤ q)
        × ((leb (kstart / page_size) q && ltb q (end_used kstart (sub64 kend kstart))) ≡ false)
  unfolding init from_map
  test-init q h =
      let low = from_map-IsValid count es in
      ground (
        arith,
        test-mark_region_used kstart (sub64 kend kstart) low_used low_used-IsValid.bytes q,
        test-mark_region_used 0 0x100000 (from_map count es) low.bytes q,
      )

  -- A page that is free after boot is not low memory, lies in a usable entry of the map, and holds
  -- no byte of the kernel image.
  pub free_after_boot :
      count ≢ 0
      → count ≤ 128
      → kstart ≤ kend
      → kend + page_size < 2 ^ 64
      → (q : ℕ) → q < max_pages
      → bitmap_test (init count es kstart kend).page_bitmap q ≡ false
      → (low_pages ≤ q) × Usable es q × (touches kstart (kend - kstart) q ≡ false)
  free_after_boot nonzero few order fits q inside h =
      let (free, high, out) = test-init q h in
      (high, test-read_map es q (from_map-read free), ground (arith, out))
    where
      from_map-read :
          bitmap_test (from_map count es).page_bitmap q ≡ false
          → bitmap_test (read_map es).page_bitmap q ≡ false
      from_map-read free = rw (from_map_lem nonzero few) at free

  -- After pmm_init on a map of 1 to 128 entries, and a kernel image that does not wrap, the
  -- first pmm_alloc_page returns a page at or above 1 MB that has no byte of the kernel image
  -- and lies in a usable entry of the map whole, or, where the entry starts inside that page,
  -- from the start of the entry to the end of the page; or it fails because no page at or above
  -- 1 MB is free.
  pub first_alloc :
      count ≢ 0
      → count ≤ 128
      → kstart ≤ kend
      → kend + page_size < 2 ^ 64
      → ((page : ℕ) × ((alloc_page (init count es kstart kend)).0 ≡ page * page_size)
          × (low_pages ≤ page)
          × Usable es page
          × (touches kstart (kend - kstart) page ≡ false))
        ⊎ Exhausted (init count es kstart kend) (alloc_page (init count es kstart kend))
  first_alloc nonzero few order fits =
      elim (alloc_page_lem (init count es kstart kend) init-IsValid) [
        | inr full ↦ inr full
        | inl (page, a) ↦
            let (high, usable, out) =
              free_after_boot nonzero few order fits page a.below_max a.was_free in
            inl (page, a.addr, high, usable, out)
      ]

-- What the rest of the kernel asks of the allocator after boot.
pub data Call : Type 0 where
  alloc : Call
  free : (addr : ℕ) → Call
  reserve : (base length : ℕ) → Call

pub call : Call → Pmm → Pmm
call alloc s = (alloc_page s).1
call (free addr) s = free_page addr s
call (reserve base length) s = mark_region_used base length s

pub calls : List Call → Pmm → Pmm
calls [] s = s
calls (c ∷ cs) s = calls cs (call c s)

call-IsValid : (c : Call) {s : Pmm} → IsValid s → IsValid (call c s)
unfolding call
call-IsValid alloc v = alloc_page-IsValid v
call-IsValid (free addr) v = free_page-IsValid addr v
call-IsValid (reserve base length) v = mark_region_used-IsValid base length v

calls_keep : (cs : List Call) {s : Pmm} → IsValid s → IsValid (calls cs s)
unfolding calls
calls_keep [] v = v
calls_keep (c ∷ cs) v = calls_keep cs (call-IsValid c v)

-- From boot on, through any sequence of allocations, frees and reservations, free_pages is the
-- number of clear bits of the bitmap.
pub calls-IsValid :
    (count : ℕ) (es : List E820Entry) (kstart kend : ℕ) (cs : List Call)
    → IsValid (calls cs (init count es kstart kend))
calls-IsValid count es kstart kend cs = calls_keep cs (init-IsValid count es kstart kend)
