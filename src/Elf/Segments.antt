-- ===== src/Elf/Segments.antt =====
-- What the checks of kernel/exec/elf.c promise of a segment.
use ao_os.Base.{ℕ, ◌+◌, ◌^◌, ◌≤◌, ◌<◌, ◌≡◌, ◌⊎◌, true, ◌&&◌, arith, and_true, leb, u64}
use ao_os.Elf.{
  Segment, misses, valid_user_range, segment_ok, user_stack_base, user_api_base, user_argv_base,
}

-- No byte of the range is in the page of `page`.
abbrev pub Outside : (vaddr size page : ℕ) → Type 0
Outside vaddr size page = (a : ℕ) → vaddr ≤ a → a < vaddr + size → (a < page) ⊎ (page + 4096 ≤ a)

-- A range that may be loaded: between 64 KB and the stack, and outside the pages of the interface and of
-- the arguments
pub record Loadable (vaddr size : ℕ) : Type 0 where
  pub low : 0x10000 ≤ vaddr
  pub high : vaddr + size ≤ user_stack_base
  pub no_api : Outside vaddr size user_api_base
  pub no_argv : Outside vaddr size user_argv_base

misses-Outside :
    (vaddr size page : ℕ)
    → vaddr + size < 2 ^ 64
    → misses vaddr size page ≡ true
    → Outside vaddr size page
misses-Outside vaddr size page small h a l u = ground (arith, small, h, l, u)

valid_user_range-Loadable :
    (vaddr size : ℕ)
    → size < 2 ^ 64
    → 0 < size
    → valid_user_range vaddr size ≡ true
    → Loadable vaddr size
unfolding valid_user_range
valid_user_range-Loadable vaddr size small some_size h =
    let low : 0x10000 ≤ vaddr = ground (arith, some_size, h) in
    let below : vaddr < user_stack_base = ground (arith, some_size, h) in
    let no_wrap : vaddr ≤ u64 (vaddr + size) = ground (arith, some_size, h) in
    let high : u64 (vaddr + size) ≤ user_stack_base = ground (arith, some_size, h) in
    let api : misses vaddr size user_api_base ≡ true = ground (arith, some_size, h) in
    let argv : misses vaddr size user_argv_base ≡ true = ground (arith, some_size, h) in
    let exact : vaddr + size < 2 ^ 64 = omega (arith, no_wrap, small, below) in
    record {
      low = low;
      high = omega (arith, high, exact);
      no_api = misses-Outside vaddr size user_api_base exact api;
      no_argv = misses-Outside vaddr size user_argv_base exact argv;
    }

-- A segment of more than 0 and fewer than 2^64 bytes that elf_spawn accepts lies between 64 KB
-- and the user stack and has no byte in the pages of the interface and of the arguments, has at
-- most as many bytes in the file as in memory, and lies in the file, unless the end of its bytes
-- in the file wraps at 2^64.
pub segment_ok-Loadable :
    (p : Segment) (file_size : ℕ)
    → p.memsz < 2 ^ 64
    → 0 < p.memsz
    → segment_ok p file_size ≡ true
    → Loadable p.vaddr p.memsz
      × (p.filesz ≤ p.memsz)
      × ((p.offset + p.filesz ≤ file_size) ⊎ (2 ^ 64 ≤ p.offset + p.filesz))
unfolding segment_ok
segment_ok-Loadable p file_size small some_size h =
    let (h1, range) =
      and_true (leb p.filesz p.memsz && leb (u64 (p.offset + p.filesz)) file_size)
        (valid_user_range p.vaddr p.memsz) h in
    (
      valid_user_range-Loadable p.vaddr p.memsz small some_size range,
      ground (arith, h1),
      ground (arith, h1),
    )
