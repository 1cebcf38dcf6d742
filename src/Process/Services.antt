-- ===== src/Process/Services.antt =====
-- What process.c calls in the rest of the kernel: page frames, address spaces, the registers of the
-- processor, physical memory and the table of open files. The implementation of each is another
-- component (kernel/memory/pmm.c, kernel/memory/vmm.c, kernel/gdt.c, kernel/syscall.c).
use ao_os.Base.{ℕ, Bool, List}

-- The registers that `process_create` puts on a new kernel stack; all others are 0.
pub record Context : Type 0 where
  pub rip : ℕ
  pub cs : ℕ
  pub rflags : ℕ
  pub rsp : ℕ
  pub ss : ℕ

pub record Machine : Type 1 where
  pub World : Type 0
  pub get_cr3 : World → ℕ
  pub kernel_cr3 : World → ℕ
  pub set_cr3 : ℕ → World → World
  pub set_rsp0 : ℕ → World → World
  pub nx_supported : World → Bool
  pub create_address_space : World → ℕ × World
  pub destroy_address_space : ℕ → World → World
  pub alloc_page : World → ℕ × World
  pub free_page : ℕ → World → World
  pub user_range_ok : (cr3 virt size : ℕ) → World → Bool
  -- `true` is the result 0.
  pub map_page_in : (cr3 virt phys flags : ℕ) → World → Bool × World
  pub get_physical_in : (cr3 virt : ℕ) → World → ℕ
  -- Bytes to physical memory, `memcpy` and `memset` with 0.
  pub copy_to : (phys : ℕ) → List ℕ → World → World
  pub zero_at : (phys size : ℕ) → World → World
  -- A clean kernel stack with the context at its top; the address of the context is the result's.
  pub put_context : (slot : ℕ) → Context → World → ℕ × World
  pub stack_base : ℕ → ℕ
  pub close_process_fds : ℕ → World → World
