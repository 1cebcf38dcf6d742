-- ===== src/Syscall/Calls.antt =====
-- The system calls of kernel/syscall.c, one function for each, and `syscall_dispatch`. The polls are
-- what the keyboard gives while a call waits for keys.
use ao_os.Base.{
  ℕ, zero, suc, ◌+◌, ◌-◌, ◌/◌, ◌%◌, ◌^◌, Bool, true, false, ◌&&◌, ◌||◌, not, Option, none, some,
  List, [], ◌∷◌, ◌++◌, ltb, leb, ◌==◌, if◌then◌else◌, update, find_from, u8, u32, u64, take, length,
}
use ao_os.Base.Int.{ℤ, pos, negsuc}
use ao_os.Net.Wire.{copy}
use ao_os.Ramfs.{byte_at}
use ao_os.Syscall.{
  Fd, Caller, Kernel, Sys, Poll, key, to_int, Outcome, done, failed, max_fd, data_size, user_buf_ok,
  user_str_len, user_string, close_fd, set_fd, Waited, close_process_fds,
}

-- `SYS_GETCHAR`: the first key that comes
unfoldable pub wait_key : List Poll → Option ℕ
wait_key [] = none
wait_key (p ∷ ps) = let rest = wait_key ps in if key p == 0 then rest else some (key p)

-- The line that `SYS_READLINE` has read so far: `i` characters, in the caller's memory, and whether
-- the line has ended.
pub record Line (W : Type 0) : Type 0 where
  pub i : ℕ
  pub bytes : ℕ → ℕ
  pub world : W
  pub ended : Bool

abbrev pub is_newline : ℕ → Bool
is_newline c = c == 10 || (c == 13)

abbrev pub is_printable : ℕ → Bool
is_printable c = leb 32 c && ltb c 128

-- The numbers of the system calls
pub data Call : Type 0 where
  print putchar clear getchar readline exit uptime sysinfo open_file read_file write close_file
        setcolor waitpid sleep unknown :
      Call

abbrev pub call_of : (num : ℕ) → Call
call_of num =
    if num == 1
    then print
    else if num == 2
    then putchar
    else if num == 3
    then clear
    else if num == 4
    then getchar
    else if num == 5
    then readline
    else if num == 6
    then exit
    else if num == 7
    then uptime
    else if num == 8
    then sysinfo
    else if num == 9
    then open_file
    else if num == 10
    then read_file
    else if num == 11
    then write
    else if num == 12
    then close_file
    else if num == 13
    then setcolor
    else if num == 14
    then waitpid
    else if num == 15
    then sleep
    else unknown

-- "AO-OS"
abbrev pub os_name : List ℕ
os_name = 65 ∷ 79 ∷ 45 ∷ 79 ∷ 83 ∷ []

-- KERNEL_VERSION_STRING
abbrev pub version : List ℕ
version = 50 ∷ 46 ∷ 48 ∷ 46 ∷ 48 ∷ []

-- `SYS_SYSINFO` without its NUL: the characters that fit
abbrev pub sysinfo_text : (max_len : ℕ) → List ℕ
sysinfo_text max_len =
    let name = take (max_len - 2) os_name in
    name ++ (32 ∷ take (max_len - 1 - (length name + 1)) version)

abbrev pub opened : (name : List ℕ) → (content : ℕ → ℕ) → (size pid : ℕ) → Fd
opened name content size pid = record {
  name = take 255 name;
  content = content;
  size = size;
  at = 0;
  is_used = true;
  owner_pid = pid;
}

abbrev pub owns : Option Caller → Fd → Bool
owns none f = false
owns (some p) f = f.owner_pid == p.pid

-- The bytes that a read of at most `len` delivers
abbrev pub read_len : (len : ℕ) → Fd → ℕ
read_len len f = if ltb (f.size - f.at) len then f.size - f.at else len

module _ (kernel : Kernel) where
  abbrev pub State : Type 0
  State = Sys kernel.World

  -- One key that is not 0
  abbrev pub line_key : (buf c : ℕ) → Line kernel.World → Line kernel.World
  line_key buf c l =
      if is_newline c
      then record l { world = kernel.putchar 10 l.world; ended = true }
      else if c == 8
      then if ltb 0 l.i then record l { i = l.i - 1; world = kernel.backspace l.world } else l
      else if is_printable c
      then record l {
        i = l.i + 1;
        bytes = update l.bytes (u64 (buf + l.i)) c;
        world = kernel.putchar c l.world;
      }
      else l

  abbrev pub line_full : (max_len : ℕ) → Line kernel.World → Bool
  line_full max_len l = l.ended || leb (max_len - 1) l.i

  -- The loop of `SYS_READLINE`; it still waits when the polls end before the line does.
  unfoldable pub read_keys :
      (buf max_len : ℕ) → List Poll → Line kernel.World → Bool × Line kernel.World
  read_keys buf max_len [] l = (line_full max_len l, l)
  read_keys buf max_len (p ∷ ps) l =
      let rest = read_keys buf max_len ps (if key p == 0 then l else line_key buf (key p) l) in
      if line_full max_len l then (true, l) else rest

  abbrev pub readline_end : (buf : ℕ) → Bool → Line kernel.World → State → Outcome kernel.World
  readline_end buf over l s =
      if over
      then done (to_int l.i)
          (record s { bytes = update l.bytes (u64 (buf + l.i)) 0; world = l.world })
      else record { result = none; state = record s { bytes = l.bytes; world = l.world } }

  unfoldable pub sys_readline : (buf max_len : ℕ) → List Poll → State → Outcome kernel.World
  sys_readline buf max_len ps s =
      let l : Line kernel.World = record {
        i = 0;
        bytes = s.bytes;
        world = s.world;
        ended = false;
      } in
      let r = read_keys buf max_len ps l in
      if buf == 0 || max_len == 0 || not (user_buf_ok buf max_len s)
      then failed s
      else readline_end buf r.0 r.1 s

  unfoldable pub sys_sysinfo : (buf max_len : ℕ) → State → Outcome kernel.World
  sys_sysinfo buf max_len s =
      let text = sysinfo_text max_len in
      if buf == 0 || ltb max_len 2 || not (user_buf_ok buf max_len s)
      then failed s
      else done (to_int (length text))
          (record s { bytes = copy s.bytes buf (byte_at text) 0 (length text + 1) })

  abbrev pub print_string : Option ℕ → (addr : ℕ) → State → Outcome kernel.World
  print_string none addr s = failed s
  print_string (some len) addr s =
      done (pos 0) (record s { world = kernel.writestring (user_string addr len s) s.world })

  unfoldable pub sys_print : (addr : ℕ) → State → Outcome kernel.World
  sys_print addr s = if addr == 0 then done (pos 0) s else print_string (user_str_len addr s) addr s

  -- What `fs_read` has returned. A read that fails leaves the slot free, with its buffer overwritten.
  abbrev pub open_read :
      ℤ
      → (i : ℕ) → (content : ℕ → ℕ) → (size : ℕ) → (name : List ℕ) → (pid : ℕ) → State
      → Outcome kernel.World
  open_read (pos zero) i content size name pid s =
      done (to_int i) (set_fd i (opened name content size pid) s)
  open_read (pos (suc k)) i content size name pid s =
      failed (set_fd i (record (s.fds i) { content = content }) s)
  open_read (negsuc k) i content size name pid s =
      failed (set_fd i (record (s.fds i) { content = content }) s)

  -- The body of the loop of `SYS_OPEN` at the first free slot
  abbrev pub open_at : (i : ℕ) → (name : List ℕ) → (pid : ℕ) → State → Outcome kernel.World
  open_at i name pid s =
      let r = kernel.fs_read name data_size s.world in
      open_read r.0 i r.1 r.2 name pid (record s { world = r.3 })

  abbrev pub is_free : State → ℕ → Bool
  is_free s i = not (s.fds i).is_used

  abbrev pub open_free : Option ℕ → (name : List ℕ) → (pid : ℕ) → State → Outcome kernel.World
  open_free none name pid s = failed s
  open_free (some i) name pid s = open_at i name pid s

  abbrev pub open_named : Option ℕ → Option Caller → (addr : ℕ) → State → Outcome kernel.World
  open_named none p addr s = failed s
  open_named (some len) none addr s = failed s
  open_named (some len) (some p) addr s =
      open_free (find_from (is_free s) 0 max_fd) (user_string addr len s) p.pid s

  unfoldable pub sys_open : (addr : ℕ) → State → Outcome kernel.World
  sys_open addr s =
      if addr == 0 then failed s else open_named (user_str_len addr s) s.current addr s

  -- The handle is one of the table, in use, and the caller's. `(int)fd < 0` is `fd` at or above 2^31.
  abbrev pub may_use : (fd : ℕ) → State → Bool
  may_use fd s = ltb fd max_fd && (s.fds fd).is_used && owns s.current (s.fds fd)

  unfoldable pub sys_read : (fd buf len : ℕ) → State → Outcome kernel.World
  sys_read fd buf len s =
      let f = s.fds fd in
      let n = read_len len f in
      if not (may_use fd s) || buf == 0 || not (user_buf_ok buf len s)
      then failed s
      else if leb f.size f.at
      then done (pos 0) s
      else done (to_int n) (record (set_fd fd (record f { at = u32 (f.at + n) }) s) {
        bytes = copy s.bytes buf f.content f.at n;
      })

  -- `for (i = 0; i < len; i++) terminal_putchar(buf[i])`
  unfoldable pub put_chars : (bytes : ℕ → ℕ) → (addr n : ℕ) → kernel.World → kernel.World
  put_chars bytes addr zero w = w
  put_chars bytes addr (suc n) w =
      put_chars bytes (u64 (addr + 1)) n (kernel.putchar (bytes addr) w)

  unfoldable pub sys_write : (buf len : ℕ) → State → Outcome kernel.World
  sys_write buf len s =
      if buf == 0 || not (user_buf_ok buf len s)
      then failed s
      else done (to_int len) (record s { world = put_chars s.bytes buf len s.world })

  unfoldable pub sys_close : (fd : ℕ) → State → Outcome kernel.World
  sys_close fd s =
      if may_use fd s then done (pos 0) (set_fd fd (close_fd (s.fds fd)) s) else failed s

  -- `*status = exit_code`, four bytes
  abbrev pub put_status : (status code : ℕ) → (bytes : ℕ → ℕ) → ℕ → ℕ
  put_status status code bytes =
      if status == 0 then bytes else copy bytes status (λ i. code / 256 ^ i % 256) 0 4

  -- The end of `process_waitpid`: a process that it has collected has no handles any more.
  abbrev pub waited_for :
      Option ℕ → (pid status : ℕ) → Waited kernel.World → State → Outcome kernel.World
  waited_for none pid status r s = done r.code (record s { world = r.world })
  waited_for (some exit_code) pid status r s = done r.code (record (close_process_fds pid s) {
    bytes = put_status status exit_code s.bytes;
    world = r.world;
  })

  unfoldable pub sys_waitpid : (pid status options : ℕ) → State → Outcome kernel.World
  sys_waitpid pid status options s =
      let r = kernel.waitpid pid (u32 options) s.world in
      if not (status == 0) && not (user_buf_ok status 4 s)
      then failed s
      else waited_for r.collected pid status r s

  unfoldable pub sys_getchar : List Poll → State → Outcome kernel.World
  sys_getchar ps s = record {
    result = elim (wait_key ps) [ none ↦ none | some c ↦ some (pos c) ];
    state = s;
  }

  -- What a call does only to the rest of the kernel
  abbrev pub on_world : kernel.World → State → Outcome kernel.World
  on_world w s = done (pos 0) (record s { world = w })

  -- The switch of `syscall_dispatch`
  abbrev pub run : Call → (arg1 arg2 arg3 : ℕ) → List Poll → State → Outcome kernel.World
  run print arg1 arg2 arg3 ps s = sys_print arg1 s
  run putchar arg1 arg2 arg3 ps s = on_world (kernel.putchar (u8 arg1) s.world) s
  run clear arg1 arg2 arg3 ps s = on_world (kernel.clear s.world) s
  run getchar arg1 arg2 arg3 ps s = sys_getchar ps s
  run readline arg1 arg2 arg3 ps s = sys_readline arg1 (u32 arg2) ps s
  run exit arg1 arg2 arg3 ps s = on_world (kernel.exit (u32 arg1) s.world) s
  run uptime arg1 arg2 arg3 ps s = done (to_int (u32 (kernel.ticks s.world))) s
  run sysinfo arg1 arg2 arg3 ps s = sys_sysinfo arg1 (u32 arg2) s
  run open_file arg1 arg2 arg3 ps s = sys_open arg1 s
  run read_file arg1 arg2 arg3 ps s = sys_read (u32 arg1) arg2 (u32 arg3) s
  run write arg1 arg2 arg3 ps s = sys_write arg1 (u32 arg2) s
  run close_file arg1 arg2 arg3 ps s = sys_close (u32 arg1) s
  run setcolor arg1 arg2 arg3 ps s = on_world (kernel.setcolor (u8 arg1) s.world) s
  run waitpid arg1 arg2 arg3 ps s = sys_waitpid arg1 arg2 arg3 s
  run sleep arg1 arg2 arg3 ps s = on_world (kernel.sleep arg1 s.world) s
  run unknown arg1 arg2 arg3 ps s = failed s

  unfoldable pub syscall_dispatch :
      (num arg1 arg2 arg3 : ℕ) → List Poll → State → Outcome kernel.World
  syscall_dispatch num arg1 arg2 arg3 ps s = run (call_of num) arg1 arg2 arg3 ps s
