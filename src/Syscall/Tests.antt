-- ===== src/Syscall/Tests.antt =====
-- The theorems about the system calls at concrete inputs.
use ao_os.Base.{ℕ, refl, true, false, some, List, [], ◌∷◌, arith, ltb, ◌==◌, if◌then◌else◌}
use ao_os.Base.Int.{pos, negsuc}
use ao_os.Vmm.{Words}
use ao_os.Syscall.{Fd, Kernel}
use ao_os.Syscall.Calls.{State, call_of, syscall_dispatch}
use ao_os.Syscall.Closed.{Confined}
use ao_os.Syscall.Confined.{syscall_dispatch-Confined}
use ao_os.Syscall.Files.{Foreign, Spares, syscall_dispatch-Spares}

-- A kernel without files whose world is the list of the characters on the screen
abbrev kernel : Kernel
kernel = record {
  World = List ℕ;
  writestring = λ cs w. w;
  putchar = λ c w. c ∷ w;
  backspace = λ w. w;
  clear = λ w. [];
  setcolor = λ c w. w;
  ticks = λ w. 7;
  fs_read = λ name max w. (negsuc 0, λ j. 0, 0, w);
  exit = λ code w. w;
  waitpid = λ pid options w. record { code = pos 9; collected = some 9; world = w };
  sleep = λ n w. w;
}

-- Handle 2 is open, by process 5.
abbrev file : ℕ → Fd
file i = record {
  name = [];
  content = λ j. j;
  size = 100;
  at = 0;
  is_used = if ltb 2 i then false else ltb 1 i;
  owner_pid = 5;
}

abbrev one_page : Words
one_page a =
    if ltb a 0x2000
    then 0x2007
    else if ltb a 0x3000
    then 0x3007
    else if ltb a 0x4000
    then 0x4007
    else if a == 0x4000
    then 0x9007
    else 0

-- Process 3 calls. The first entry of the last table is the only one there, so that the
-- page 0x200000 is open and the one behind it is not.
abbrev machine : State kernel
machine = record {
  fds = file;
  tables = one_page;
  bytes = λ a. 0;
  current = some (record { pid = 3; is_user = true; cr3 = 0x1000 });
  world = [];
}

syscall_dispatch-Confined_example :
    Confined machine (
      syscall_dispatch kernel 5 0x200000 16 0
        (record { foreground = true; char = 65 } ∷ [])
        machine)
syscall_dispatch-Confined_example =
    syscall_dispatch-Confined kernel 5 0x200000 16 0 (record { foreground = true; char = 65 } ∷ [])
      machine (omega arith) (omega arith)

file-Foreign : Foreign machine 2
file-Foreign = record { used = refl; other = refl }

-- The caller waits for process 5, whose file is closed.
syscall_dispatch-Spares_example :
    Spares kernel (call_of 14) 5 machine 2 (syscall_dispatch kernel 14 5 0x200000 1 [] machine)
syscall_dispatch-Spares_example =
    syscall_dispatch-Spares kernel 14 5 0x200000 1 [] machine 2 file-Foreign
