-- ===== src/Process/Calls.antt =====
-- Every call of the process API keeps the process table valid.
use ao_os.Base.{
  ℕ, ◌≤◌, ◌≡◌, refl, sym, subst, ◌∙◌, ap, ◌-◌, ◌≢◌, inl, inr, Bool, true, false, ◌&&◌, ◌||◌, Option,
  none, some, arith, ◌==◌, if◌then◌else◌, Bool-cases, for_from_inv,
}
use ao_os.Process.Services.{Machine}
use ao_os.Process.{
  unused, loading, ready, running, blocked, terminated, is, Process, Os, max_processes, process_get,
}
use ao_os.Process.Table.{is_iff}
use ao_os.Process.Inv.{Same}
use ao_os.Process.UserMemory.{set_slot, process_cleanup}
use ao_os.Process.Lifecycle.{
  with_state, process_activate, process_detach, process_exit, exit_slot, activate_slot, detach_slot,
  terminate_slot, process_terminate, process_sleep_ticks, sleep_slot, wake_waiter, wake_blocked,
  each_slot, block_on, unblock, collect, reap, process_reap_terminated,
}
use ao_os.Process.Slots.{
  IsAt, process_get-some, Keeps, Fits, set_slot-Keeps, Keeps-refl, Keeps-trans, each_slot-Keeps,
}

-- A change that keeps the process in its slot and does not set it running.
record Stays (p q : Process) : Type 0 where
  same : Same q p
  idle : is q.state running ≡ true → is p.state running ≡ true

Stays-Fits : (p q : Process) (b : Bool) → Stays p q → Fits p q b
Stays-Fits p q b w = record {
  keep = λ u. (sym w.same.unused ∙ u, w.same.pid);
  run = λ h. inr (w.idle h);
}

module _ {W : Type 0} (s : Os W) (c : ℕ) where
  stay-Keeps : (i : ℕ) (q : Process) → Stays (s.processes i) q → Keeps s (set_slot s i q) c
  stay-Keeps i q w = set_slot-Keeps s c i q (Stays-Fits _ q _ w) (λ e. w.same)

  -- A slot that is not the kernel's is freed.
  free-Keeps : (i : ℕ) (q : Process) → i ≢ 0 → q.state ≡ unused → Keeps s (set_slot s i q) c
  free-Keeps i q other e =
      set_slot-Keeps s c i q
        (record {
          keep = λ u. absurd (cc (u, ap (λ st. is st unused) e));
          run = λ h. absurd (cc (h, ap (λ st. is st running) e));
        })
        (λ z. absurd (other z))

  -- The loops that wake the waiting processes.
  waking-Keeps :
      (f : Process → Process)
      → ((p : Process) → Stays p (f p))
      → Keeps s (record s { processes = each_slot f s.processes }) c
  waking-Keeps f w =
      each_slot-Keeps s c f (λ p. Stays-Fits p (f p) false (w p)) (w (s.processes 0)).same

state-Stays :
    (p q : Process)
    → q.pid ≡ p.pid
    → is q.state unused ≡ false
    → is p.state unused ≡ false
    → is q.state running ≡ false
    → Stays p q
state-Stays p q e u v r = record {
  same = record { pid = e; unused = u ∙ sym v };
  idle = λ h. absurd (cc (h, r));
}

wake_waiter-Stays : (pid : ℕ) (p : Process) → Stays p (wake_waiter pid p)
wake_waiter-Stays pid p =
    elim (Bool-cases (is p.state blocked && (p.wait_target == 0 || p.wait_target == pid))) [
      | inr f ↦ rw f (record { same = record { pid = refl; unused = refl }; idle = λ h. h })
      | inl t ↦
          let e : p.state ≡ blocked = is_iff _ _ (ground arith) in
          rw t (state-Stays p _ refl refl (ap (λ st. is st unused) e) refl)
    ]

wake_blocked-Stays : (p : Process) → Stays p (wake_blocked p)
wake_blocked-Stays p = elim (Bool-cases (is p.state blocked)) [
  | inr f ↦ rw f (record { same = record { pid = refl; unused = refl }; idle = λ h. h })
  | inl t ↦
      let e : p.state ≡ blocked = is_iff _ _ t in
      rw t (state-Stays p _ refl refl (ap (λ st. is st unused) e) refl)
]

module _ {W : Type 0} (s : Os W) (c : ℕ) where
  -- An operation that acts only under a test.
  if-Keeps : (b : Bool) (t : Os W) → (b ≡ true → Keeps s t c) → Keeps s (if b then t else s) c
  if-Keeps true t k = k refl
  if-Keeps false t k = Keeps-refl s c

  unless-Keeps : (b : Bool) (t : Os W) → Keeps s t c → Keeps s (if b then s else t) c
  unless-Keeps true t k = Keeps-refl s c
  unless-Keeps false t k = k

  activate_slot-Keeps : (o : Option ℕ) → Keeps s (activate_slot s o) c
  activate_slot-Keeps none = Keeps-refl s c
  activate_slot-Keeps (some i) =
      let p = s.processes i in
      if-Keeps (is p.state loading) (set_slot s i (with_state p ready)) (λ t.
        stay-Keeps s c i (with_state p ready) (
          state-Stays p (with_state p ready) refl refl
            (ap (λ st. is st unused) (is_iff p.state loading t)) refl))

  pub process_activate-Keeps : (pid : ℕ) → Keeps s (process_activate pid s) c
  unfolding process_activate
  process_activate-Keeps pid = activate_slot-Keeps (process_get s.processes pid)

  detach_slot-Keeps : (o : Option ℕ) → Keeps s (detach_slot s o) c
  detach_slot-Keeps none = Keeps-refl s c
  detach_slot-Keeps (some i) =
      unless-Keeps _ _
        (stay-Keeps s c i _ (record { same = record { pid = refl; unused = refl }; idle = λ h. h }))

  pub process_detach-Keeps : (pid : ℕ) → Keeps s (process_detach pid s) c
  unfolding process_detach
  process_detach-Keeps pid = detach_slot-Keeps (process_get s.processes pid)

  terminate_slot-Keeps :
      (pid : ℕ) (o : Option ℕ) → process_get s.processes pid ≡ o → Keeps s (terminate_slot s o) c
  terminate_slot-Keeps pid none e = Keeps-refl s c
  terminate_slot-Keeps pid (some i) e =
      let at : IsAt s.processes pid i = process_get-some s.processes pid i e in
      let s' : Os W = set_slot s i (with_state (s.processes i) terminated) in
      unless-Keeps _ _ (
        Keeps-trans s s' _ c (stay-Keeps s c i _ (state-Stays _ _ refl refl at.in_use refl))
          (waking-Keeps s' c wake_blocked wake_blocked-Stays))

  pub process_terminate-Keeps : (pid : ℕ) → Keeps s (process_terminate pid s) c
  unfolding process_terminate
  process_terminate-Keeps pid = terminate_slot-Keeps pid _ refl

-- The calls of the current process, which is in slot `c`.
module _ {W : Type 0} (s : Os W) (c : ℕ) (here : s.current ≡ some c)
    (in_use : is (s.processes c).state unused ≡ false) where
  pub process_exit-Keeps : (code : ℕ) → Keeps s (process_exit code s) c
  unfolding process_exit
  process_exit-Keeps code =
      let s' : Os W =
        set_slot s c (record (s.processes c) { state = terminated; exit_code = code }) in
      subst (λ o. Keeps s (exit_slot code s o) c) (sym here)
        (unless-Keeps s c _ _ (
          Keeps-trans s s' _ c (stay-Keeps s c c _ (state-Stays _ _ refl refl in_use refl))
            (waking-Keeps s' c (wake_waiter (s.processes c).pid) (wake_waiter-Stays _))))

  pub process_sleep_ticks-Keeps : (n : ℕ) → Keeps s (process_sleep_ticks n s) c
  unfolding process_sleep_ticks
  process_sleep_ticks-Keeps n =
      subst (λ o. Keeps s (sleep_slot n s o) c) (sym here)
        (unless-Keeps s c _ _ (stay-Keeps s c c _ (state-Stays _ _ refl refl in_use refl)))

  pub block_on-Keeps : (pid : ℕ) → Keeps s (block_on pid s s.current) c
  block_on-Keeps pid =
      subst (λ o. Keeps s (block_on pid s o) c) (sym here)
        (stay-Keeps s c c _ (state-Stays _ _ refl refl in_use refl))

  pub unblock-Keeps : Keeps s (unblock s s.current) c
  unblock-Keeps =
      subst (λ o. Keeps s (unblock s o) c) (sym here)
        (set_slot-Keeps s c c _
          (record { keep = λ u. (in_use, refl); run = λ h. inl (ground arith) })
          (λ e. record { pid = refl; unused = sym in_use }))

-- The rest of the kernel does not matter for the table.
world_Keeps :
    {W : Type 0} (s t : Os W) (w : W) (c : ℕ) → Keeps s t c → Keeps s (record t { world = w }) c
world_Keeps s t w c k = record {
  current = k.current;
  kernel = k.kernel;
  counter = k.counter;
  time = k.time;
  on = k.on;
  slots = k.slots;
  only_running = k.only_running;
}

module _ (machine : Machine) (c : ℕ) where
  open machine use {World}

  pub process_cleanup-Keeps : (i : ℕ) (s : Os World) → Keeps s (process_cleanup machine i s) c
  unfolding process_cleanup
  process_cleanup-Keeps i s = unless-Keeps s c _ _ (
      world_Keeps s _ _ c (
        stay-Keeps s c i _ (record { same = record { pid = refl; unused = refl }; idle = λ h. h })))

  pub collect-Keeps : (t : ℕ) (s : Os World) → t ≢ 0 → Keeps s (collect machine t s).1 c
  unfolding collect
  collect-Keeps t s other = elim (Bool-cases (is (s.processes t).state unused)) [
    | inl u ↦ rw u (Keeps-refl s c)
    | inr f ↦ rw f (Keeps-trans s _ _ c (process_cleanup-Keeps t s) (free-Keeps _ c t _ other refl))
  ]

  reap-Keeps : (i : ℕ) (r : ℕ × Os World) → 1 ≤ i → Keeps r.1 (reap machine i r).1 c
  reap-Keeps i r pos =
      elim (Bool-cases (is (r.1.processes i).state terminated && (r.1.processes i).detached)) [
        | inr f ↦ rw f (Keeps-refl r.1 c)
        | inl t ↦ rw t (
            Keeps-trans r.1 _ _ c (process_cleanup-Keeps i r.1)
              (free-Keeps _ c i _ (omega arith) refl))
      ]

  pub process_reap_terminated-Keeps :
      (s : Os World) → Keeps s (process_reap_terminated machine s).1 c
  unfolding process_reap_terminated
  process_reap_terminated-Keeps s =
      for_from_inv (λ k r. Keeps s r.1 c) (reap machine) 1 (max_processes - 1) max_processes refl
        (λ k r a b w. Keeps-trans s r.1 _ c w (reap-Keeps k r a)) (0, s) (Keeps-refl s c)
