-- ===== src/Pmm/Tests.antt =====
-- The page allocator on small inputs, and the theorems at concrete ones.
use ao_os.Base.{
  ℕ, ◌*◌, ◌≤◌, ◌<◌, ◌≡◌, refl, ◌≢◌, ◌⊎◌, false, List, [], ◌∷◌, arith, find_from, for_from,
}
use ao_os.Pmm.{
  Pmm, E820Entry, page_size, bitmap_test, bitmap_set, bitmap_clear, use_page, drop_page,
  mark_region_used, mark_region_free, free_page_from, alloc_page, add_entry, add_entries, read_map,
  init,
}
use ao_os.Pmm.Inv.{IsValid}
use ao_os.Pmm.Pages.{Exhausted, mark_region_free_partial, touches}
use ao_os.Pmm.Boot.{init-IsValid, Usable, first_alloc, alloc, free, reserve, calls, calls-IsValid}

-- 512 KB of usable memory from 2 MB on, and a kernel image at 2 MB that takes 8 KB of it.
abbrev memory_map : List E820Entry
memory_map = record { base = 0x200000; length = 0x8000; type = 1 } ∷ []

abbrev booted : Pmm
booted = init 1 memory_map 0x200000 0x201800

abbrev booted-IsValid : IsValid booted
booted-IsValid = init-IsValid 1 memory_map 0x200000 0x201800

-- What a run of the allocator computes with.
program : Unit {0}
unfolding init mark_region_used mark_region_free read_map add_entries add_entry use_page drop_page
    bitmap_test bitmap_set bitmap_clear for_from alloc_page free_page_from find_from
program = tt

booted_free_pages : booted.free_pages ≡ 6
unfolding program
booted_free_pages = refl

first_page_taken : (alloc_page booted).0 ≡ 0x202000
unfolding program
first_page_taken = refl

calls-IsValid_example :
    IsValid (
      calls (alloc ∷ free 0x202000 ∷ reserve 0x204000 1 ∷ []) (init 1 memory_map 0x200000 0x201800))
calls-IsValid_example =
    calls-IsValid 1 memory_map 0x200000 0x201800 (alloc ∷ free 0x202000 ∷ reserve 0x204000 1 ∷ [])

booted_has_memory : (alloc_page booted).0 ≢ 0
booted_has_memory = rw first_page_taken (omega arith)

mark_region_free_partial_example :
    (bitmap_test (mark_region_free 0x300800 0x1000 booted).page_bitmap 768 ≡ false)
    × (768 * page_size < 0x300800)
mark_region_free_partial_example =
    mark_region_free_partial 0x300800 0x1000 booted booted-IsValid (omega arith) (omega arith)
      (omega arith)

first_alloc_example :
    ((page : ℕ) × ((alloc_page booted).0 ≡ page * page_size)
      × (256 ≤ page)
      × Usable memory_map page
      × (touches 0x200000 0x1800 page ≡ false))
    ⊎ Exhausted booted (alloc_page booted)
first_alloc_example =
    first_alloc 1 memory_map 0x200000 0x201800 (omega arith) (omega arith) (omega arith)
      (omega arith)
