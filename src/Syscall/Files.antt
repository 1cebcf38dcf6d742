-- ===== src/Syscall/Files.antt =====
-- The open files of kernel/syscall.c: who may use a handle, and what reading delivers.
use ao_os.Base.{
  ℕ, zero, suc, ◌+◌, ◌≡◌, refl, ◌∙◌, ap, subst, ◌≢◌, ◌⊎◌, inl, inr, arith, Bool-cases, Bool, true,
  false, ◌&&◌, ◌||◌, not, Option, none, some, List, ltb, leb, ◌==◌, if◌then◌else◌, if_holds,
  and_true, update_ne, find_from, find_from-FoundAt, u32,
}
use ao_os.Base.Int.{ℤ, pos, negsuc}
use ao_os.Net.Wire.{copy}
use ao_os.Syscall.{
  Fd, Caller, Kernel, Sys, Poll, to_int, Outcome, done, failed, max_fd, user_buf_ok, user_str_len,
  user_string, close_fd, set_fd, close_process_fds, is_of,
}
use ao_os.Syscall.Calls.{
  open_read, print_string, State, Line, read_keys, readline_end, sys_readline, sys_sysinfo,
  sys_print, open_free, open_named, opened, is_free, sys_open, may_use, owns, read_len, sys_read,
  sys_write, sys_close, sys_waitpid, sys_getchar, Call, print, putchar, clear, getchar, readline,
  exit, uptime, sysinfo, open_file, read_file, write, close_file, setcolor, waitpid, sleep, unknown,
  call_of, run, syscall_dispatch, waited_for,
}

-- The handle is open, and it is another process that has opened it.
pub record Foreign {W : Type 0} (s : Sys W) (i : ℕ) : Type 0 where
  pub used : (s.fds i).is_used ≡ true
  pub other : owns s.current (s.fds i) ≡ false

-- The call leaves the slot `i` as it is.
pub record Keeps {W : Type 0} (s : Sys W) (i : ℕ) (o : Outcome W) : Type 0 where
  pub slot : o.state.fds i ≡ s.fds i

or_false : (a b : Bool) → (a || b) ≡ false → (a ≡ false) × (b ≡ false)
or_false true b h = absurd (cc h)
or_false false b h = (refl, h)

not-false : (a : Bool) → not a ≡ false → a ≡ true
not-false true h = refl
not-false false h = absurd (cc h)

-- The slot holds a file of process `pid`, which the call has closed and else left as it was.
pub record Closes {W : Type 0} (s : Sys W) (pid i : ℕ) (o : Outcome W) : Type 0 where
  pub owner : (s.fds i).owner_pid ≡ pid
  pub slot : o.state.fds i ≡ record (s.fds i) { is_used = false }

module _ (kernel : Kernel) where
  set_fd-Keeps :
      (r : ℤ) (fd : ℕ) (f : Fd) (s s' : State kernel) (i : ℕ)
      → s'.fds ≡ s.fds
      → fd ≢ i
      → Keeps s i (done r (set_fd fd f s'))
  set_fd-Keeps r fd f s s' i e n = record {
    slot = update_ne s'.fds fd i f n ∙ ap (λ (t : ℕ → Fd). t i) e;
  }

  -- A handle that the caller may use is not foreign.
  may_use_ne :
      (fd : ℕ) (s : State kernel) (i : ℕ) → may_use kernel fd s ≡ true → Foreign s i → fd ≢ i
  may_use_ne fd s i h f e =
      let mine = (and_true (ltb fd max_fd && (s.fds fd).is_used) (owns s.current (s.fds fd)) h).1 in
      absurd (cc (subst (λ x. owns s.current (s.fds x) ≡ true) e mine, f.other))

  sys_read-Keeps :
      (fd buf len : ℕ) (s : State kernel) (i : ℕ)
      → Foreign s i
      → Keeps s i (sys_read kernel fd buf len s)
  unfolding sys_read
  sys_read-Keeps fd buf len s i f =
      let file = s.fds fd in
      let n = read_len len file in
      let moved : Fd = record file { at = u32 (file.at + n) } in
      let delivered : Outcome kernel.World =
        done (to_int n)
          (record (set_fd fd moved s) { bytes = copy s.bytes buf file.content file.at n }) in
      let open_read = if leb file.size file.at then done (pos 0) s else delivered in
      if_holds (Keeps s i) (not (may_use kernel fd s) || buf == 0 || not (user_buf_ok buf len s))
        (failed s) open_read (λ t. record { slot = refl })
        (λ t.
          let mine : may_use kernel fd s ≡ true =
            not-false _ (or_false _ (buf == 0) (or_false _ (not (user_buf_ok buf len s)) t).0).0 in
          if_holds (Keeps s i) (leb file.size file.at) (done (pos 0) s) delivered
            (λ u. record { slot = refl })
            (λ u. record { slot = update_ne s.fds fd i moved (may_use_ne fd s i mine f) }))

  sys_close-Keeps :
      (fd : ℕ) (s : State kernel) (i : ℕ) → Foreign s i → Keeps s i (sys_close kernel fd s)
  unfolding sys_close
  sys_close-Keeps fd s i f =
      if_holds (Keeps s i) (may_use kernel fd s) (done (pos 0) (set_fd fd (close_fd (s.fds fd)) s))
        (failed s)
        (λ t. set_fd-Keeps (pos 0) fd (close_fd (s.fds fd)) s s i refl (may_use_ne fd s i t f))
        (λ t. record { slot = refl })

  open_read-Keeps :
      (code : ℤ) (k : ℕ) (content : ℕ → ℕ) (size : ℕ) (name : List ℕ) (pid : ℕ)
      (s s' : State kernel) (i : ℕ)
      → s'.fds ≡ s.fds
      → k ≢ i
      → Keeps s i (open_read kernel code k content size name pid s')
  open_read-Keeps (pos zero) k content size name pid s s' i e n =
      set_fd-Keeps (to_int k) k (opened name content size pid) s s' i e n
  open_read-Keeps (pos (suc c)) k content size name pid s s' i e n =
      set_fd-Keeps (negsuc 0) k (record (s'.fds k) { content = content }) s s' i e n
  open_read-Keeps (negsuc c) k content size name pid s s' i e n =
      set_fd-Keeps (negsuc 0) k (record (s'.fds k) { content = content }) s s' i e n

  open_named-Keeps :
      (len : Option ℕ) (c : Option Caller) (addr : ℕ) (s : State kernel) (i : ℕ)
      → Foreign s i
      → Keeps s i (open_named kernel len c addr s)
  open_named-Keeps none c addr s i f = record { slot = refl }
  open_named-Keeps (some len) none addr s i f = record { slot = refl }
  open_named-Keeps (some len) (some p) addr s i f = go (find_from (is_free kernel s) 0 max_fd) refl
    where
      go :
          (o : Option ℕ)
          → find_from (is_free kernel s) 0 max_fd ≡ o
          → Keeps s i (open_free kernel o (user_string addr len s) p.pid s)
      go none e = record { slot = refl }
      go (some k) e =
          let found = find_from-FoundAt (is_free kernel s) 0 max_fd k e in
          let free = found.holds in
          open_read-Keeps _ k _ _ _ p.pid s _ i refl
            (λ same. absurd (cc (subst (λ x. is_free kernel s x ≡ true) same free, f.used)))

  sys_open-Keeps :
      (addr : ℕ) (s : State kernel) (i : ℕ) → Foreign s i → Keeps s i (sys_open kernel addr s)
  unfolding sys_open
  sys_open-Keeps addr s i f =
      let o = open_named kernel (user_str_len addr s) s.current addr s in
      if_holds (Keeps s i) (addr == 0) (failed s) o (λ t. record { slot = refl })
        (λ t. open_named-Keeps (user_str_len addr s) s.current addr s i f)

  sys_readline-Keeps :
      (buf max_len : ℕ) (ps : List Poll) (s : State kernel) (i : ℕ)
      → Keeps s i (sys_readline kernel buf max_len ps s)
  unfolding sys_readline
  sys_readline-Keeps buf max_len ps s i =
      let l : Line kernel.World = record {
        i = 0;
        bytes = s.bytes;
        world = s.world;
        ended = false;
      } in
      let r = read_keys kernel buf max_len ps l in
      if_holds (Keeps s i) (buf == 0 || max_len == 0 || not (user_buf_ok buf max_len s)) (failed s)
        (readline_end kernel buf r.0 r.1 s) (λ t. record { slot = refl })
        (λ t.
          if_holds (Keeps s i) r.0 _ _ (λ u. record { slot = refl }) (λ u. record { slot = refl }))

  sys_sysinfo-Keeps :
      (buf max_len : ℕ) (s : State kernel) (i : ℕ) → Keeps s i (sys_sysinfo kernel buf max_len s)
  unfolding sys_sysinfo
  sys_sysinfo-Keeps buf max_len s i =
      if_holds (Keeps s i) (buf == 0 || ltb max_len 2 || not (user_buf_ok buf max_len s)) (failed s)
        _ (λ t. record { slot = refl }) (λ t. record { slot = refl })

  sys_write-Keeps :
      (buf len : ℕ) (s : State kernel) (i : ℕ) → Keeps s i (sys_write kernel buf len s)
  unfolding sys_write
  sys_write-Keeps buf len s i =
      if_holds (Keeps s i) (buf == 0 || not (user_buf_ok buf len s)) (failed s) _
        (λ t. record { slot = refl }) (λ t. record { slot = refl })

  closed-Closes :
      (pid : ℕ) (s : State kernel) (i : ℕ) (o : Outcome kernel.World)
      → o.state.fds ≡ (close_process_fds pid s).fds
      → Keeps s i o ⊎ Closes s pid i o
  unfolding close_process_fds
  closed-Closes pid s i o e =
      let here = ap (λ (f : ℕ → Fd). f i) e in
      elim (Bool-cases (ltb i max_fd && is_of pid (s.fds i))) [
        | inr f ↦ inl (record { slot = here ∙ rw f refl })
        | inl t ↦ inr (record { owner = ground (arith, t); slot = here ∙ rw t refl })
      ]

  sys_waitpid-Closes :
      (pid status options : ℕ) (s : State kernel) (i : ℕ)
      → Keeps s i (sys_waitpid kernel pid status options s)
        ⊎ Closes s pid i (sys_waitpid kernel pid status options s)
  unfolding sys_waitpid
  sys_waitpid-Closes pid status options s i =
      let r = kernel.waitpid pid (u32 options) s.world in
      if_holds (λ o. Keeps s i o ⊎ Closes s pid i o)
        (not (status == 0) && not (user_buf_ok status 4 s)) (failed s)
        (waited_for kernel r.collected pid status r s) (λ t. inl (record { slot = refl }))
        (λ t.
          elim r.collected
            as (λ c.
              Keeps s i (waited_for kernel c pid status r s)
              ⊎ Closes s pid i (waited_for kernel c pid status r s)) [
                | none ↦ inl (record { slot = refl })
                | some exit_code ↦ closed-Closes pid s i _ refl
              ])

  sys_print-Keeps : (addr : ℕ) (s : State kernel) (i : ℕ) → Keeps s i (sys_print kernel addr s)
  unfolding sys_print
  sys_print-Keeps addr s i =
      if_holds (Keeps s i) (addr == 0) (done (pos 0) s)
        (print_string kernel (user_str_len addr s) addr s) (λ t. record { slot = refl })
        (λ t. go (user_str_len addr s))
    where
      go : (o : Option ℕ) → Keeps s i (print_string kernel o addr s)
      go none = record { slot = refl }
      go (some len) = record { slot = refl }

  getchar_fds : (ps : List Poll) (s : State kernel) → (sys_getchar kernel ps s).state.fds ≡ s.fds
  unfolding sys_getchar
  getchar_fds ps s = refl

  -- What a call does to a handle that is not the caller's
  abbrev pub Spares : Call → (arg1 : ℕ) → State kernel → (i : ℕ) → Outcome kernel.World → Type 0
  Spares c arg1 s i o = Keeps s i o ⊎ ((c ≡ waitpid) × Closes s arg1 i o)

  run-Spares :
      (c : Call) (arg1 arg2 arg3 : ℕ) (ps : List Poll) (s : State kernel) (i : ℕ)
      → Foreign s i
      → Spares c arg1 s i (run kernel c arg1 arg2 arg3 ps s)
  run-Spares print a b c ps s i f = inl (sys_print-Keeps a s i)
  run-Spares getchar a b c ps s i f =
      inl (record { slot = ap (λ (t : ℕ → Fd). t i) (getchar_fds ps s) })
  run-Spares readline a b c ps s i f = inl (sys_readline-Keeps a (u32 b) ps s i)
  run-Spares sysinfo a b c ps s i f = inl (sys_sysinfo-Keeps a (u32 b) s i)
  run-Spares open_file a b c ps s i f = inl (sys_open-Keeps a s i f)
  run-Spares read_file a b c ps s i f = inl (sys_read-Keeps (u32 a) b (u32 c) s i f)
  run-Spares write a b c ps s i f = inl (sys_write-Keeps a (u32 b) s i)
  run-Spares close_file a b c ps s i f = inl (sys_close-Keeps (u32 a) s i f)
  run-Spares waitpid a b c ps s i f = elim (sys_waitpid-Closes a b c s i) [
    | inl k ↦ inl k
    | inr k ↦ inr (refl, k)
  ]
  run-Spares putchar a b c ps s i f = inl (record { slot = refl })
  run-Spares clear a b c ps s i f = inl (record { slot = refl })
  run-Spares exit a b c ps s i f = inl (record { slot = refl })
  run-Spares uptime a b c ps s i f = inl (record { slot = refl })
  run-Spares setcolor a b c ps s i f = inl (record { slot = refl })
  run-Spares sleep a b c ps s i f = inl (record { slot = refl })
  run-Spares unknown a b c ps s i f = inl (record { slot = refl })

  -- A system call leaves the handle of an open file that another process than the caller has
  -- opened as it is; only SYS_WAITPID may close it, when it is a handle of the process that is
  -- waited for.
  pub syscall_dispatch-Spares :
      (num arg1 arg2 arg3 : ℕ) (ps : List Poll) (s : State kernel) (i : ℕ)
      → Foreign s i
      → Spares (call_of num) arg1 s i (syscall_dispatch kernel num arg1 arg2 arg3 ps s)
  unfolding syscall_dispatch
  syscall_dispatch-Spares num arg1 arg2 arg3 ps s i f =
      run-Spares (call_of num) arg1 arg2 arg3 ps s i f
