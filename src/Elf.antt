-- ===== src/Elf.antt =====
-- The checks of the loader for ELF programs, kernel/exec/elf.c: the file header, the program headers
-- and the addresses of the segments. A file is its bytes by their offset in the buffer.
pub mod Segments
mod Tests
use ao_os.Base.{
  ℕ, ◌+◌, ◌*◌, ◌/◌, ◌^◌, Bool, true, false, ◌&&◌, ◌||◌, not, ltb, leb, ◌==◌, if◌then◌else◌, u64,
}
use ao_os.Net.Wire.{Frame, load16, load32}

abbrev pub load_buffer_size : ℕ
load_buffer_size = 131072

abbrev pub user_stack_base : ℕ
user_stack_base = 0x00800000

abbrev pub user_api_base : ℕ
user_api_base = 0x00090000

abbrev pub user_argv_base : ℕ
user_argv_base = 0x00091000

-- `v & ~4095`
abbrev pub page_down : ℕ → ℕ
page_down v = v / 4096 * 4096

abbrev pub page_up : ℕ → ℕ
page_up v = u64 (v + 4095) / 4096 * 4096

-- A range at `base` that leaves the page of `page` alone, as the source tests it
abbrev pub misses : (vaddr size page : ℕ) → Bool
misses vaddr size page = not (leb vaddr (page + 4096) && ltb page (u64 (vaddr + size)))

unfoldable pub valid_user_range : (vaddr size : ℕ) → Bool
valid_user_range vaddr size =
    if size == 0
    then true
    else leb 0x10000 vaddr
      && ltb vaddr user_stack_base
      && leb vaddr (u64 (vaddr + size))
      && leb (u64 (vaddr + size)) user_stack_base
      && misses vaddr size user_api_base
      && misses vaddr size user_argv_base

-- `*(uint64_t*)(p + i)`
abbrev pub load64 : Frame → ℕ → ℕ
load64 f i = load32 f i + 2 ^ 32 * load32 f (i + 4)

-- `elf64_header_t` at the start of the file
abbrev pub entry_at : Frame → ℕ
entry_at f = load64 f 24

abbrev pub phoff : Frame → ℕ
phoff f = load64 f 32

abbrev pub phentsize : Frame → ℕ
phentsize f = load16 f 54

abbrev pub phnum : Frame → ℕ
phnum f = load16 f 56

abbrev pub header_size : ℕ
header_size = 64

abbrev pub segment_size : ℕ
segment_size = 56

abbrev pub is_elf : Frame → Bool
is_elf f =
    (load32 f 0 == 0x464c457f)
    && (f 4 == 2)
    && (f 5 == 1)
    && (load16 f 16 == 2)
    && (load16 f 18 == 62)
    && (load32 f 20 == 1)

-- The checks of `elf_spawn` on the file header
unfoldable pub header_ok : Frame → (file_size : ℕ) → Bool
header_ok f file_size =
    leb header_size file_size
    && leb file_size load_buffer_size
    && is_elf f
    && (phentsize f == segment_size)
    && not (phnum f == 0)
    && leb (u64 (phoff f + phnum f * phentsize f)) file_size
    && valid_user_range (entry_at f) 1

-- The fields of `elf64_phdr_t` that are checked
pub record Segment : Type 0 where
  pub offset : ℕ
  pub vaddr : ℕ
  pub filesz : ℕ
  pub memsz : ℕ

-- The checks of `elf_spawn` on a segment to be loaded
unfoldable pub segment_ok : Segment → (file_size : ℕ) → Bool
segment_ok p file_size =
    leb p.filesz p.memsz
    && leb (u64 (p.offset + p.filesz)) file_size
    && valid_user_range p.vaddr p.memsz
