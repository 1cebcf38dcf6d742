-- ===== src/Syscall/Confined.antt =====
-- What the system calls of kernel/syscall.c write to user memory: only bytes that the page tables open
-- to user code, whatever pointer the caller hands in.
use ao_os.Base.{
  ℕ, zero, suc, ◌+◌, ◌-◌, ◌/◌, ◌%◌, ◌^◌, inl, inr, Bool-cases, ◌≤◌, ◌<◌, ◌≡◌, refl, ◌∙◌, Bool, true,
  false, ◌&&◌, ◌||◌, not, Option, none, some, List, [], ◌∷◌, arith, ltb, leb, ◌==◌, if◌then◌else◌,
  if_holds, update, update_ne, find_from, u32, u64, take, length, length_take_le, length-append,
}
use ao_os.Base.Int.{ℤ, pos, negsuc}
use ao_os.Ramfs.{byte_at}
use ao_os.Net.Wire.{copy}
use ao_os.Syscall.{
  Caller, Kernel, Poll, key, to_int, Outcome, done, failed, max_fd, user_buf_ok, user_str_len,
  user_string, close_fd, set_fd, close_process_fds,
}
use ao_os.Syscall.Closed.{Confined, same-Confined, copied-Confined, user_buf_ok-outside}
use ao_os.Syscall.Calls.{
  open_read, print_string, State, Line, line_key, line_full, read_keys, readline_end, sys_readline,
  os_name, version, sysinfo_text, sys_sysinfo, sys_print, open_free, open_named, is_free, sys_open,
  may_use, read_len, sys_read, sys_write, sys_close, sys_waitpid, sys_getchar, Call, print, putchar,
  clear, getchar, readline, exit, uptime, sysinfo, open_file, read_file, write, close_file,
  setcolor, waitpid, sleep, unknown, call_of, run, syscall_dispatch, is_newline, is_printable,
  put_chars, put_status, waited_for,
}

module _ (kernel : Kernel) where
  sys_read-Confined :
      (fd buf len : ℕ) (s : State kernel)
      → buf + len + 4096 ≤ 2 ^ 64
      → Confined s (sys_read kernel fd buf len s)
  unfolding sys_read
  sys_read-Confined fd buf len s top =
      let f = s.fds fd in
      let n = read_len len f in
      let short : n ≤ len = ground arith in
      let delivered : Outcome kernel.World =
        done (to_int n) (record (set_fd fd (record f { at = u32 (f.at + n) }) s) {
          bytes = copy s.bytes buf f.content f.at n;
        }) in
      let open_read = if leb f.size f.at then done (pos 0) s else delivered in
      if_holds (Confined s) (not (may_use kernel fd s) || buf == 0 || not (user_buf_ok buf len s))
        (failed s) open_read (λ t. same-Confined s (failed s) refl)
        (λ t.
          let ok : user_buf_ok buf len s ≡ true = ground (arith, t) in
          if_holds (Confined s) (leb f.size f.at) (done (pos 0) s) delivered
            (λ u. same-Confined s (done (pos 0) s) refl)
            (λ u. copied-Confined s delivered buf len n f.content f.at top ok short refl))

  sysinfo_text-le : (max_len : ℕ) → 2 ≤ max_len → length (sysinfo_text max_len) + 1 ≤ max_len
  sysinfo_text-le max_len h =
      let name = take (max_len - 2) os_name in
      let rest = take (max_len - 1 - (length name + 1)) version in
      let l1 = length_take_le (max_len - 2) os_name in
      let l2 = length_take_le (max_len - 1 - (length name + 1)) version in
      let l3 = length-append name (32 ∷ rest) in omega (arith, l1, l2, l3, h)

  sys_sysinfo-Confined :
      (buf max_len : ℕ) (s : State kernel)
      → buf + max_len + 4096 ≤ 2 ^ 64
      → Confined s (sys_sysinfo kernel buf max_len s)
  unfolding sys_sysinfo
  sys_sysinfo-Confined buf max_len s top =
      let text = sysinfo_text max_len in
      let filled : Outcome kernel.World =
        done (to_int (length text))
          (record s { bytes = copy s.bytes buf (byte_at text) 0 (length text + 1) }) in
      if_holds (Confined s) (buf == 0 || ltb max_len 2 || not (user_buf_ok buf max_len s))
        (failed s) filled (λ t. same-Confined s (failed s) refl)
        (λ t.
          let ok : user_buf_ok buf max_len s ≡ true = ground (arith, t) in
          let some_room : 2 ≤ max_len = ground (arith, t) in
          copied-Confined s filled buf max_len (length text + 1) (byte_at text) 0 top ok
            (sysinfo_text-le max_len some_room) refl)

  -- The characters read so far are in front of the last byte of the buffer, which is kept for the NUL.
  record InLine (bytes : ℕ → ℕ) (buf max_len : ℕ) (l : Line kernel.World) : Type 0 where
    room : l.i + 1 ≤ max_len
    kept : (a : ℕ) → (buf ≤ a → max_len + buf ≤ a) → l.bytes a ≡ bytes a

  stored_elsewhere :
      (b : ℕ → ℕ) (buf max_len i c a : ℕ)
      → buf + max_len + 4096 ≤ 2 ^ 64
      → i < max_len
      → (buf ≤ a → max_len + buf ≤ a)
      → update b (u64 (buf + i)) c a ≡ b a
  stored_elsewhere b buf max_len i c a top l out =
      let e : u64 (buf + i) ≡ buf + i = omega (arith, top, l) in
      rw e (
        update_ne b (buf + i) a c
          (λ s. let far = out (omega (arith, s)) in omega (arith, s, far, l)))

  line_key-InLine :
      (b : ℕ → ℕ) (buf max_len c : ℕ) (l : Line kernel.World)
      → buf + max_len + 4096 ≤ 2 ^ 64
      → line_full kernel max_len l ≡ false
      → InLine b buf max_len l
      → InLine b buf max_len (line_key kernel buf c l)
  line_key-InLine b buf max_len c l top open_line h =
      let more : l.i + 1 < max_len = ground (arith, open_line) in
      let room = h.room in
      let holds = if_holds (InLine b buf max_len) in
      let ended = record l { world = kernel.putchar 10 l.world; ended = true } in
      let shorter = record l { i = l.i - 1; world = kernel.backspace l.world } in
      let longer = record l {
        i = l.i + 1;
        bytes = update l.bytes (u64 (buf + l.i)) c;
        world = kernel.putchar c l.world;
      } in
      let erased = if ltb 0 l.i then shorter else l in
      let typed = if is_printable c then longer else l in
      holds (is_newline c) ended (if c == 8 then erased else typed)
        (λ t. record { room = room; kept = h.kept })
        (λ t.
          holds (c == 8) erased typed
            (λ u.
              holds (ltb 0 l.i) shorter l
                (λ v. record { room = omega (arith, room); kept = h.kept }) (λ v. h))
            (λ u.
              holds (is_printable c) longer l
                (λ v. record {
                  room = omega (arith, more);
                  kept = λ a out.
                      stored_elsewhere l.bytes buf max_len l.i c a top (omega (arith, more)) out
                      ∙ h.kept a out;
                })
                (λ v. h)))

  read_keys-InLine :
      (b : ℕ → ℕ) (buf max_len : ℕ) (ps : List Poll) (l : Line kernel.World)
      → buf + max_len + 4096 ≤ 2 ^ 64
      → InLine b buf max_len l
      → InLine b buf max_len (read_keys kernel buf max_len ps l).1
  unfolding read_keys
  read_keys-InLine b buf max_len [] l top h = h
  read_keys-InLine b buf max_len (p ∷ ps) l top h =
      let l' = if key p == 0 then l else line_key kernel buf (key p) l in
      if_holds (λ (r : Bool × Line kernel.World). InLine b buf max_len r.1)
        (line_full kernel max_len l) (true, l) (read_keys kernel buf max_len ps l') (λ t. h)
        (λ t. read_keys-InLine b buf max_len ps l' top (
          if_holds (InLine b buf max_len) (key p == 0) l (line_key kernel buf (key p) l) (λ u. h)
            (λ u. line_key-InLine b buf max_len (key p) l top t h)))

  sys_readline-Confined :
      (buf max_len : ℕ) (ps : List Poll) (s : State kernel)
      → buf + max_len + 4096 ≤ 2 ^ 64
      → Confined s (sys_readline kernel buf max_len ps s)
  unfolding sys_readline
  sys_readline-Confined buf max_len ps s top =
      let l : Line kernel.World = record {
        i = 0;
        bytes = s.bytes;
        world = s.world;
        ended = false;
      } in
      let r = read_keys kernel buf max_len ps l in
      if_holds (Confined s) (buf == 0 || max_len == 0 || not (user_buf_ok buf max_len s)) (failed s)
        (readline_end kernel buf r.0 r.1 s) (λ t. same-Confined s (failed s) refl)
        (λ t.
          let ok : user_buf_ok buf max_len s ≡ true = ground (arith, t) in
          let start : InLine s.bytes buf max_len l = record {
            room = ground (arith, t);
            kept = λ a out. refl;
          } in
          let h = read_keys-InLine s.bytes buf max_len ps l top start in
          let room = h.room in
          if_holds (Confined s) r.0 _ _
            (λ u. record {
              kept = λ a c.
                  let out = user_buf_ok-outside buf max_len s a top ok c in
                  stored_elsewhere r.1.bytes buf max_len r.1.i 0 a top (omega (arith, room)) out
                  ∙ h.kept a out;
            })
            (λ u. record { kept = λ a c. h.kept a (user_buf_ok-outside buf max_len s a top ok c) }))

  open_read-Confined :
      (code : ℤ) (i : ℕ) (content : ℕ → ℕ) (size : ℕ) (name : List ℕ) (pid : ℕ)
      (s s' : State kernel)
      → s'.bytes ≡ s.bytes
      → Confined s (open_read kernel code i content size name pid s')
  open_read-Confined (pos zero) i content size name pid s s' e = same-Confined s _ e
  open_read-Confined (pos (suc k)) i content size name pid s s' e = same-Confined s _ e
  open_read-Confined (negsuc k) i content size name pid s s' e = same-Confined s _ e

  open_named-Confined :
      (len : Option ℕ) (c : Option Caller) (addr : ℕ) (s : State kernel)
      → Confined s (open_named kernel len c addr s)
  open_named-Confined none c addr s = same-Confined s _ refl
  open_named-Confined (some len) none addr s = same-Confined s _ refl
  open_named-Confined (some len) (some p) addr s = go (find_from (is_free kernel s) 0 max_fd)
    where
      go : (o : Option ℕ) → Confined s (open_free kernel o (user_string addr len s) p.pid s)
      go none = same-Confined s _ refl
      go (some i) = open_read-Confined _ i _ _ _ p.pid s _ refl

  sys_open-Confined : (addr : ℕ) (s : State kernel) → Confined s (sys_open kernel addr s)
  unfolding sys_open
  sys_open-Confined addr s =
      let o = open_named kernel (user_str_len addr s) s.current addr s in
      if_holds (Confined s) (addr == 0) (failed s) o (λ t. same-Confined s _ refl)
        (λ t. open_named-Confined (user_str_len addr s) s.current addr s)

  sys_print-Confined : (addr : ℕ) (s : State kernel) → Confined s (sys_print kernel addr s)
  unfolding sys_print
  sys_print-Confined addr s =
      if_holds (Confined s) (addr == 0) (done (pos 0) s)
        (print_string kernel (user_str_len addr s) addr s) (λ t. same-Confined s _ refl)
        (λ t. go (user_str_len addr s))
    where
      go : (o : Option ℕ) → Confined s (print_string kernel o addr s)
      go none = same-Confined s _ refl
      go (some len) = same-Confined s _ refl

  sys_write-Confined : (buf len : ℕ) (s : State kernel) → Confined s (sys_write kernel buf len s)
  unfolding sys_write
  sys_write-Confined buf len s =
      let written = record s { world = put_chars kernel s.bytes buf len s.world } in
      if_holds (Confined s) (buf == 0 || not (user_buf_ok buf len s)) (failed s)
        (done (to_int len) written) (λ t. same-Confined s _ refl) (λ t. same-Confined s _ refl)

  sys_close-Confined : (fd : ℕ) (s : State kernel) → Confined s (sys_close kernel fd s)
  unfolding sys_close
  sys_close-Confined fd s =
      if_holds (Confined s) (may_use kernel fd s) (done (pos 0) (set_fd fd (close_fd (s.fds fd)) s))
        (failed s) (λ t. same-Confined s _ refl) (λ t. same-Confined s _ refl)

  put_status-Confined :
      (status code : ℕ) (s : State kernel) (o : Outcome kernel.World)
      → status + 4 + 4096 ≤ 2 ^ 64
      → (not (status == 0) && not (user_buf_ok status 4 s)) ≡ false
      → o.state.bytes ≡ put_status kernel status code s.bytes
      → Confined s o
  put_status-Confined status code s o top t e = elim (Bool-cases (status == 0)) [
    | inl z ↦ same-Confined s o (e ∙ rw z refl)
    | inr n ↦
        let ok : user_buf_ok status 4 s ≡ true = ground (arith, n, t) in
        copied-Confined s o status 4 4 (λ i. code / 256 ^ i % 256) 0 top ok (omega arith)
          (e ∙ rw n refl)
  ]

  sys_waitpid-Confined :
      (pid status options : ℕ) (s : State kernel)
      → status + 4 + 4096 ≤ 2 ^ 64
      → Confined s (sys_waitpid kernel pid status options s)
  unfolding sys_waitpid close_process_fds
  sys_waitpid-Confined pid status options s top =
      let r = kernel.waitpid pid (u32 options) s.world in
      if_holds (Confined s) (not (status == 0) && not (user_buf_ok status 4 s)) (failed s)
        (waited_for kernel r.collected pid status r s) (λ t. same-Confined s _ refl)
        (λ t. elim r.collected as (λ c. Confined s (waited_for kernel c pid status r s)) [
          | none ↦ same-Confined s _ refl
          | some exit_code ↦ put_status-Confined status exit_code s _ top t refl
        ])

  getchar_same :
      (ps : List Poll) (s : State kernel) → (sys_getchar kernel ps s).state.bytes ≡ s.bytes
  unfolding sys_getchar
  getchar_same ps s = refl

  run-Confined :
      (c : Call) (arg1 arg2 arg3 : ℕ) (ps : List Poll) (s : State kernel)
      → arg1 + 2 ^ 32 + 4096 ≤ 2 ^ 64
      → arg2 + 2 ^ 32 + 4096 ≤ 2 ^ 64
      → Confined s (run kernel c arg1 arg2 arg3 ps s)
  run-Confined print a b c ps s h k = sys_print-Confined a s
  run-Confined putchar a b c ps s h k = same-Confined s _ refl
  run-Confined clear a b c ps s h k = same-Confined s _ refl
  run-Confined getchar a b c ps s h k = same-Confined s _ (getchar_same ps s)
  run-Confined readline a b c ps s h k = sys_readline-Confined a (u32 b) ps s (omega (arith, h))
  run-Confined exit a b c ps s h k = same-Confined s _ refl
  run-Confined uptime a b c ps s h k = same-Confined s _ refl
  run-Confined sysinfo a b c ps s h k = sys_sysinfo-Confined a (u32 b) s (omega (arith, h))
  run-Confined open_file a b c ps s h k = sys_open-Confined a s
  run-Confined read_file a b c ps s h k = sys_read-Confined (u32 a) b (u32 c) s (omega (arith, k))
  run-Confined write a b c ps s h k = sys_write-Confined a (u32 b) s
  run-Confined close_file a b c ps s h k = sys_close-Confined (u32 a) s
  run-Confined setcolor a b c ps s h k = same-Confined s _ refl
  run-Confined waitpid a b c ps s h k = sys_waitpid-Confined a b c s (omega (arith, k))
  run-Confined sleep a b c ps s h k = same-Confined s _ refl
  run-Confined unknown a b c ps s h k = same-Confined s _ refl

  -- Whatever the number and the arguments of a system call, the status that SYS_WAITPID hands
  -- out included, it leaves every byte of the address space alone that the rule of the processor
  -- closes to the user code of the caller, if the two pointer arguments lie at least 2^32 + 4096
  -- below 2^64.
  pub syscall_dispatch-Confined :
      (num arg1 arg2 arg3 : ℕ) (ps : List Poll) (s : State kernel)
      → arg1 + 2 ^ 32 + 4096 ≤ 2 ^ 64
      → arg2 + 2 ^ 32 + 4096 ≤ 2 ^ 64
      → Confined s (syscall_dispatch kernel num arg1 arg2 arg3 ps s)
  unfolding syscall_dispatch
  syscall_dispatch-Confined num arg1 arg2 arg3 ps s h k =
      run-Confined (call_of num) arg1 arg2 arg3 ps s h k
