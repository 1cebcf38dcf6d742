-- ===== src/Heap/Tests.antt =====
-- A heap at 0x200000, and the theorems at concrete inputs.
use ao_os.Base.{◌≡◌, refl, ◌≢◌, true, false, [], ◌∷◌, arith}
use ao_os.Pmm.{Pmm}
use ao_os.Heap.{Block, Heap, heap_size, kmalloc, kfree, done, memory_init, find_free_block}
use ao_os.Heap.Layout.{Laid}
use ao_os.Heap.Valid.{IsValid}
use ao_os.Heap.Roundtrip.{kfree-kmalloc}
use ao_os.Heap.Allocation.{alloc, start, then_call, reach_heap-IsValid, Fresh, kmalloc-Fresh}

-- 100 bytes in use at the front, the rest free.
abbrev front : Block
front = record { addr = 0x200000; size = 112; is_free = false }

abbrev rest : Block
rest = record { addr = 0x200088; size = 0xfff60; is_free = true }

abbrev small_heap : Heap
small_heap = record {
  blocks = front ∷ rest ∷ [];
  heap_base = 0x200000;
  total_memory = heap_size;
  used_memory = 136;
}

small_heap-IsValid : IsValid small_heap
unfolding Laid
small_heap-IsValid = record {
  laid = (refl, (refl, refl));
  fits = omega arith;
  counted = refl;
  apart = refl;
}

got_something : (kmalloc 100 small_heap).0 ≢ 0
unfolding kmalloc find_free_block
got_something = omega arith

kfree-kmalloc_example :
    kfree (kmalloc 100 small_heap).0 (kmalloc 100 small_heap).1 ≡ done small_heap
kfree-kmalloc_example = kfree-kmalloc 100 small_heap small_heap-IsValid got_something

kmalloc-Fresh_example : Fresh 100 small_heap (kmalloc 100 small_heap).0
kmalloc-Fresh_example = kmalloc-Fresh 100 small_heap small_heap-IsValid (omega arith) got_something

abbrev pages : Pmm
pages = record { page_bitmap = λ i. 255; total_pages = 0; free_pages = 0; total_memory_bytes = 0 }

abbrev fresh_heap : Heap
fresh_heap = (memory_init 0x1ff800 pages).0

reach_heap-IsValid_example : IsValid (kmalloc 40 (kmalloc 100 fresh_heap).1).1
reach_heap-IsValid_example =
    reach_heap-IsValid 0x1ff800 pages (kmalloc 40 (kmalloc 100 fresh_heap).1).1 (omega arith)
      (then_call (then_call start (alloc 100) refl) (alloc 40) refl)
