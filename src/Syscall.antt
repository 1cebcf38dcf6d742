-- ===== src/Syscall.antt =====
-- The system calls, kernel/syscall.c: their state, the checks of user pointers, and the table of open
-- files. What the calls do elsewhere in the kernel is the interface `Kernel`; the pointer checks are
-- those of `Vmm`. `Calls` has the calls themselves.
pub mod Calls
pub mod Closed
pub mod Confined
pub mod Files
mod Tests
use ao_os.Base.{
  ℕ, zero, suc, ◌+◌, ◌-◌, ◌*◌, ◌%◌, ◌^◌, Bool, true, false, ◌&&◌, ◌||◌, not, Option, none, some,
  List, [], ◌∷◌, ◌++◌, ltb, leb, ◌==◌, if◌then◌else◌, update, find_from, u8, u32, u64, sub32, take,
  length,
}
use ao_os.Base.Int.{ℤ, pos, negsuc}
use ao_os.Net.Wire.{copy}
use ao_os.Net.Text.{string_at}
use ao_os.Ramfs.{byte_at}
use ao_os.Vmm.{Words, user_range_ok, user_strlen}

abbrev pub max_str : ℕ
max_str = 4096

abbrev pub max_fd : ℕ
max_fd = 8

abbrev pub data_size : ℕ
data_size = 16384

-- A slot of `fd_table`
pub record Fd : Type 0 where
  pub name : List ℕ
  pub content : ℕ → ℕ
  pub size : ℕ
  pub at : ℕ
  pub is_used : Bool
  pub owner_pid : ℕ

-- The fields of the current `process_t` that the calls read
pub record Caller : Type 0 where
  pub pid : ℕ
  pub is_user : Bool
  pub cr3 : ℕ

-- What `process_waitpid` has done when it returns. When it has collected the process, it has given
-- back the handles of that process with `syscall_close_process_fds`, and its exit code is what
-- goes to the status pointer.
pub record Waited (W : Type 0) : Type 0 where
  pub code : ℤ
  pub collected : Option ℕ
  pub world : W

-- What syscall.c calls in the rest of the kernel.
pub record Kernel : Type 1 where
  pub World : Type 0
  pub writestring : List ℕ → World → World
  pub putchar : ℕ → World → World
  pub backspace : World → World
  pub clear : World → World
  pub setcolor : ℕ → World → World
  pub ticks : World → ℕ
  -- The code, what stands in the buffer, and the size.
  pub fs_read : List ℕ → (max_size : ℕ) → World → ℤ × (ℕ → ℕ) × ℕ × World
  pub exit : (code : ℕ) → World → World
  pub waitpid : (pid options : ℕ) → World → Waited World
  pub sleep : ℕ → World → World

-- The table of open files, the page tables, what the caller's address space shows, and the rest.
pub record Sys (W : Type 0) : Type 0 where
  pub fds : ℕ → Fd
  pub tables : Words
  pub bytes : ℕ → ℕ
  pub current : Option Caller
  pub world : W

-- A round of waiting for a key: whether the caller is the foreground process, and what
-- `keyboard_getchar` returns if it is asked.
pub record Poll : Type 0 where
  pub foreground : Bool
  pub char : ℕ

abbrev pub key : Poll → ℕ
key p = if p.foreground then p.char else 0

-- `(int)` of a 32-bit value
abbrev pub to_int : ℕ → ℤ
to_int n = if ltb n (2 ^ 31) then pos n else negsuc (2 ^ 32 - 1 - n)

-- The result of a call; a call that still waits for keys has none.
pub record Outcome (W : Type 0) : Type 0 where
  pub result : Option ℤ
  pub state : Sys W

abbrev pub cleared_fd : Fd → Fd
cleared_fd f = record f { is_used = false; at = 0; owner_pid = 0 }

abbrev pub is_of : (pid : ℕ) → Fd → Bool
is_of pid f = f.is_used && (f.owner_pid == pid)

abbrev pub close_fd : Fd → Fd
close_fd f = record f { is_used = false }

module _ {W : Type 0} where
  abbrev pub done : ℤ → Sys W → Outcome W
  done r s = record { result = some r; state = s }

  abbrev pub failed : Sys W → Outcome W
  failed s = done (negsuc 0) s

  -- The check of `vmm_user_range_ok` always comes to its end.
  abbrev pub range_ok : Caller → (addr len : ℕ) → Sys W → Bool
  range_ok p addr len s = elim (user_range_ok s.tables p.cr3 addr len) [
    | none ↦ false
    | some ok ↦ ok
  ]

  abbrev pub buf_ok_of : Option Caller → (addr len : ℕ) → Sys W → Bool
  buf_ok_of none addr len s = false
  buf_ok_of (some p) addr len s = p.is_user && range_ok p addr len s

  unfoldable pub user_buf_ok : (addr len : ℕ) → Sys W → Bool
  user_buf_ok addr len s = if len == 0 then true else buf_ok_of s.current addr len s

  abbrev pub str_len_of : Option Caller → (addr : ℕ) → Sys W → Option ℕ
  str_len_of none addr s = none
  str_len_of (some p) addr s =
      if p.is_user then user_strlen s.tables s.bytes p.cr3 addr max_str else none

  -- `none` is the result -1.
  unfoldable pub user_str_len : (addr : ℕ) → Sys W → Option ℕ
  user_str_len addr s = str_len_of s.current addr s

  -- The string that the check has found at `addr`
  abbrev pub user_string : (addr len : ℕ) → Sys W → List ℕ
  user_string addr len s = string_at s.bytes addr len

  -- `syscall_init`, which is `fd_table_init`
  unfoldable pub syscall_init : Sys W → Sys W
  syscall_init s = record s { fds = λ i. if ltb i max_fd then cleared_fd (s.fds i) else s.fds i }

  unfoldable pub close_process_fds : (pid : ℕ) → Sys W → Sys W
  close_process_fds pid s = record s {
    fds = λ i. if ltb i max_fd && is_of pid (s.fds i) then close_fd (s.fds i) else s.fds i;
  }

  abbrev pub set_fd : (i : ℕ) → Fd → Sys W → Sys W
  set_fd i f s = record s { fds = update s.fds i f }
