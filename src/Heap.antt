-- ===== src/Heap.antt =====
-- The heap of the kernel, kernel/memory/memory.c. The chain of `next` pointers from `heap_start` on
-- is a list; a block is the header at `addr` and the `size` bytes behind it.
pub mod Layout
pub mod Merging
pub mod Valid
pub mod Roundtrip
pub mod Allocation
mod Tests
use ao_os.Base.{
  ℕ, zero, suc, ◌+◌, ◌-◌, ◌*◌, ◌/◌, ◌%◌, ◌^◌, Bool, true, false, ◌&&◌, ◌||◌, not, Option, none,
  some, List, [], ◌∷◌, ◌++◌, ltb, leb, ◌==◌, if◌then◌else◌, u64, sub64,
}
use ao_os.Pmm.{Pmm, mark_region_used}

abbrev pub heap_size : ℕ
heap_size = 0x100000

abbrev pub block_size : ℕ
block_size = 16

-- `sizeof(memory_block_t)`
abbrev pub header_size : ℕ
header_size = 24

-- `memory_block_t`
pub record Block : Type 0 where
  pub addr : ℕ
  pub size : ℕ
  pub is_free : Bool

pub record Heap : Type 0 where
  pub blocks : List Block
  pub heap_base : ℕ
  pub total_memory : ℕ
  pub used_memory : ℕ

-- `kernel_end` is the linker's `_kernel_end`.
unfoldable pub memory_init : (kernel_end : ℕ) → Pmm → Heap × Pmm
memory_init kernel_end p =
    let base = u64 (kernel_end + 0xfff) / 4096 * 4096 in
    (
      record {
        blocks = record { addr = base; size = heap_size - header_size; is_free = true } ∷ [];
        heap_base = base;
        total_memory = heap_size;
        used_memory = 0;
      },
      mark_region_used base heap_size p,
    )

unfoldable pub find_free_block : (size : ℕ) → List Block → Option Block
find_free_block size [] = none
find_free_block size (b ∷ bs) =
    let rest = find_free_block size bs in if b.is_free && leb size b.size then some b else rest

-- Whether `split_block` splits a block.
abbrev pub splits : (size : ℕ) → Block → Bool
splits size b = leb (u64 (size + header_size + block_size)) b.size

abbrev pub split_block : (size : ℕ) → Block → List Block
split_block size b =
    if splits size b
    then record b { size = size }
      ∷ record {
        addr = b.addr + header_size + size;
        size = b.size - size - header_size;
        is_free = true;
      }
      ∷ []
    else b ∷ []

-- The size of the first part.
abbrev pub split_size : (size : ℕ) → Block → ℕ
split_size size b = if splits size b then size else b.size

abbrev pub with_free : Bool → Block → Block
with_free f b = record b { is_free = f }

-- A change of the block at an address, which may leave two in its place.
unfoldable pub change_at : (addr : ℕ) → (Block → List Block) → List Block → List Block
change_at a f [] = []
change_at a f (b ∷ bs) = let rest = change_at a f bs in if b.addr == a then f b ++ bs else b ∷ rest

-- One round of `merge_free_blocks` looks at block `b` and the one behind it.
abbrev pub joined : Block → Block → Block
joined b c = record b { size = u64 (b.size + (header_size + c.size)) }

unfoldable pub merge_from : Block → List Block → List Block
merge_from b [] = b ∷ []
merge_from b (c ∷ bs) =
    let one = merge_from (joined b c) bs in
    let both = merge_from c bs in if b.is_free && c.is_free then one else b ∷ both

unfoldable pub merge_free_blocks : List Block → List Block
merge_free_blocks [] = []
merge_free_blocks (b ∷ bs) = merge_from b bs

abbrev pub align : ℕ → ℕ
align size = u64 (size + block_size - 1) / block_size * block_size

abbrev pub mark_first : List Block → List Block
mark_first [] = []
mark_first (b ∷ bs) = with_free false b ∷ bs

abbrev pub take_block : (size : ℕ) → Heap → Option Block → ℕ × Heap
take_block size h none = (0, h)
take_block size h (some b) = (
  b.addr + header_size,
  record h {
    blocks = change_at b.addr (λ c. mark_first (split_block size c)) h.blocks;
    used_memory = u64 (h.used_memory + (split_size size b + header_size));
  },
)

-- 0 is the null pointer.
unfoldable pub kmalloc : (size : ℕ) → Heap → ℕ × Heap
kmalloc size h =
    if size == 0 then (0, h) else take_block (align size) h (find_free_block (align size) h.blocks)

-- How `kfree` ends. In the last case the pointer is inside the heap but not behind the header of a
-- block, and the function takes other bytes for one.
pub data Freed : Type 0 where
  done : Heap → Freed
  invalid_pointer : Freed
  double_free : Freed
  no_block : Freed

unfoldable pub find_block : (addr : ℕ) → List Block → Option Block
find_block a [] = none
find_block a (b ∷ bs) = let rest = find_block a bs in if b.addr == a then some b else rest

abbrev pub free_block : Heap → Option Block → Freed
free_block h none = no_block
free_block h (some b) =
    if b.is_free
    then double_free
    else done (record h {
      blocks = merge_free_blocks (change_at b.addr (λ c. with_free true c ∷ []) h.blocks);
      used_memory = sub64 h.used_memory (b.size + header_size);
    })

unfoldable pub kfree : (ptr : ℕ) → Heap → Freed
kfree ptr h =
    let block = sub64 ptr header_size in
    if ptr == 0
    then done h
    else if ltb block h.heap_base || leb (h.heap_base + heap_size) block
    then invalid_pointer
    else free_block h (find_block block h.blocks)

memory_get_free : Heap → ℕ
memory_get_free h = sub64 h.total_memory h.used_memory
