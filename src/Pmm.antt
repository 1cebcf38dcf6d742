-- ===== src/Pmm.antt =====
-- The physical page allocator, kernel/memory/pmm.c: one bit for each 4 KB page, 1 for used.
-- The children prove its invariant, what each operation does to single pages, and the boot.
pub mod Inv
pub mod Pages
pub mod Boot
mod Tests
use ao_os.Base.{
  ℕ, ◌+◌, ◌-◌, ◌*◌, ◌/◌, ◌%◌, ◌^◌, Bool, true, false, ◌||◌, Option, none, some, List, [], ◌∷◌, ltb,
  leb, ◌==◌, if◌then◌else◌, not, update, find_from, for_from, u64, sub64,
}
use ao_os.Base.Bits.{bit_at, with_bit, without_bit}

abbrev pub page_size : ℕ
page_size = 4096

-- MAX_MEMORY (4 GB) and MAX_PAGES
abbrev pub max_memory : ℕ
max_memory = 4 * 1024 * 1024 * 1024

abbrev pub max_pages : ℕ
max_pages = max_memory / page_size

-- The static variables of the file. `page_bitmap` is the array of bytes.
pub record Pmm : Type 0 where
  pub page_bitmap : ℕ → ℕ
  pub total_pages : ℕ
  pub free_pages : ℕ
  pub total_memory_bytes : ℕ

pub bitmap_set : (ℕ → ℕ) → ℕ → ℕ → ℕ
bitmap_set b page = update b (page / 8) (with_bit (b (page / 8)) (page % 8))

pub bitmap_clear : (ℕ → ℕ) → ℕ → ℕ → ℕ
bitmap_clear b page = update b (page / 8) (without_bit (b (page / 8)) (page % 8))

unfoldable pub bitmap_test : (ℕ → ℕ) → ℕ → Bool
bitmap_test b page = bit_at (b (page / 8)) (page % 8)

-- `if (end_page > MAX_PAGES) end_page = MAX_PAGES`
abbrev clamp : ℕ → ℕ
clamp e = if ltb max_pages e then max_pages else e

abbrev first_page : ℕ → ℕ
first_page base = base / page_size

-- The end page of each range; the sums wrap at 64 bits.
abbrev pub end_used : ℕ → ℕ → ℕ
end_used base length = clamp (u64 (base + length + page_size - 1) / page_size)

abbrev pub end_free : ℕ → ℕ → ℕ
end_free base length = clamp (u64 (base + length) / page_size)

pub use_page : ℕ → Pmm → Pmm
use_page p s = if bitmap_test s.page_bitmap p then s else record s {
  page_bitmap = bitmap_set s.page_bitmap p;
  free_pages = (if ltb 0 s.free_pages then s.free_pages - 1 else s.free_pages);
}

pub drop_page : ℕ → Pmm → Pmm
drop_page p s =
    if bitmap_test s.page_bitmap p
    then record s {
      page_bitmap = bitmap_clear s.page_bitmap p;
      free_pages = u64 (s.free_pages + 1);
    }
    else s

pub mark_region_used : ℕ → ℕ → Pmm → Pmm
mark_region_used base length s =
    for_from use_page (first_page base) (end_used base length - first_page base) s

pub mark_region_free : ℕ → ℕ → Pmm → Pmm
mark_region_free base length s =
    for_from drop_page (first_page base) (end_free base length - first_page base) s

-- One entry of the E820 map; only the type E820_USABLE is told apart.
pub record E820Entry : Type 0 where
  pub base : ℕ
  pub length : ℕ
  pub type : ℕ

abbrev pub e820_usable : ℕ
e820_usable = 1

-- The body of the loop over the entries.
pub add_entry : E820Entry → Pmm → Pmm
add_entry e s =
    let end = u64 (e.base + e.length) in
    let s' : Pmm = record s {
      total_memory_bytes = (if ltb s.total_memory_bytes end then end else s.total_memory_bytes);
    } in
    if e.type == e820_usable
    then (if ltb e.base max_memory
        then mark_region_free e.base (if ltb max_memory end then max_memory - e.base else e.length)
            s'
        else s')
    else s'

pub add_entries : List E820Entry → Pmm → Pmm
add_entries [] s = s
add_entries (e ∷ es) s = add_entries es (add_entry e s)

-- The state after the `memset` and the resets of `pmm_init`.
abbrev pub all_used : Pmm
all_used = record {
  page_bitmap = λ _. 255;
  total_pages = 0;
  free_pages = 0;
  total_memory_bytes = 0;
}

-- The two sources of the map: none found, so 32 MB are assumed, or the entries.
pub assume_32_mb : Pmm
assume_32_mb = mark_region_free 0x100000 (31 * 1024 * 1024) (record all_used {
  total_memory_bytes = 32 * 1024 * 1024;
  total_pages = 32 * 1024 * 1024 / page_size;
})

pub read_map : List E820Entry → Pmm
read_map es =
    let s = add_entries es all_used in
    record s { total_pages = clamp (s.total_memory_bytes / page_size) }

-- `entries` are the first `e820_count` entries that the boot loader left; `kstart` and `kend`
-- are the linker's `_kernel_start` and `_kernel_end`.
pub init : (e820_count : ℕ) (entries : List E820Entry) (kstart kend : ℕ) → Pmm
init e820_count entries kstart kend = mark_region_used kstart (sub64 kend kstart) (
    mark_region_used 0 0x100000
      (if e820_count == 0 || ltb 128 e820_count then assume_32_mb else read_map entries))

-- The first free page at or above 1 MB, as `pmm_alloc_page` looks for it.
abbrev pub low_pages : ℕ
low_pages = 0x100000 / page_size

pub free_page_from : Pmm → Option ℕ
free_page_from s =
    find_from (λ p. not (bitmap_test s.page_bitmap p)) low_pages (max_pages - low_pages)

-- The address of the page, 0 when memory is out.
pub alloc_page : Pmm → ℕ × Pmm
alloc_page s = elim (free_page_from s) [
  | none ↦ (0, s)
  | some i ↦ (
    i * page_size,
    record s { page_bitmap = bitmap_set s.page_bitmap i; free_pages = sub64 s.free_pages 1 },
  )
]

pub free_page : ℕ → Pmm → Pmm
free_page addr s = let page = addr / page_size in if leb max_pages page then s else drop_page page s
