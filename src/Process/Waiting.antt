-- ===== src/Process/Waiting.antt =====
-- Exit and wait: what a parent learns of its child, and the window in which it waits forever.
use ao_os.Base.{
  ℕ, suc, ◌<◌, ◌≡◌, refl, sym, subst, ◌∙◌, ap, ◌≢◌, ◌⊎◌, inl, inr, true, false, ◌&&◌, ◌||◌, Option,
  none, some, arith, ◌==◌, update, update_self, update_ne, Bool-cases, Option-cases,
}
use ao_os.Process.Services.{Machine}
use ao_os.Process.{unused, ready, blocked, terminated, is, Process, Os, max_processes, process_get}
use ao_os.Process.Table.{is_iff}
use ao_os.Process.Inv.{IsValid}
use ao_os.Process.Fair.{ticks}
use ao_os.Process.Dormant.{blocked_forever}
use ao_os.Process.UserMemory.{set_slot, process_cleanup}
use ao_os.Process.Lifecycle.{
  freed, process_exit, exit_slot, wake_waiter, each_slot, Waited, alive, collected, Progress,
  returns, waits, block_on, target_done, collect, waitpid, wait_for, returned,
}
use ao_os.Process.Slots.{IsAt, process_get-some, each_slot_lem}
use ao_os.Process.Calls.{collect-Keeps}
use ao_os.Process.Reach.{other_slot, state_of}

-- The process is BLOCKED in a wait for process `pid`, or for any.
abbrev pub WaitsFor : (pid : ℕ) → Process → Type 0
WaitsFor pid p = (p.state ≡ blocked) × ((p.wait_target ≡ 0) ⊎ (p.wait_target ≡ pid))

-- A process before and after the end of process `pid`: if it waits, it becomes READY and waits for
-- nobody, with all else as it was; if it does not, it stays as it is.
abbrev pub Woken : (pid : ℕ) → (p q : Process) → Type 0
Woken pid p q =
    (WaitsFor pid p × (q ≡ record p { state = ready; wait_target = 0 }))
    ⊎ ((WaitsFor pid p → ⊥) × (q ≡ p))

wake_waiter-Woken : (pid : ℕ) (p : Process) → Woken pid p (wake_waiter pid p)
wake_waiter-Woken pid p =
    elim (Bool-cases (is p.state blocked && (p.wait_target == 0 || p.wait_target == pid))) [
      | inl t ↦
          let waits_for : WaitsFor pid p =
            (is_iff p.state blocked (ground (arith, t)), ground (arith, t)) in
          inl (waits_for, rw t refl)
      | inr f ↦
          inr (λ w. (let b = ap (λ st. is st blocked) w.0 in ground (arith, f, b, w.1)), rw f refl)
    ]

-- The process of slot `c` has ended with `code`.
pub record Exited {W : Type 0} (c code : ℕ) (s t : Os W) : Type 0 where
  pub state : (t.processes c).state ≡ terminated
  pub kept_code : (t.processes c).exit_code ≡ code
  pub kept_pid : (t.processes c).pid ≡ (s.processes c).pid
  pub others :
      (j : ℕ)
      → j < max_processes
      → c ≢ j
      → Woken (s.processes c).pid (s.processes j) (t.processes j)
  -- Nobody waits for it any more.
  pub none_waits :
      (j : ℕ)
      → j < max_processes
      → (t.processes j).state ≡ blocked
      → (t.processes j).wait_target ≢ (s.processes c).pid

waiter_gone :
    (pid : ℕ) (p : Process)
    → (wake_waiter pid p).state ≡ blocked
    → (wake_waiter pid p).wait_target ≢ pid
waiter_gone pid p =
    elim (Bool-cases (is p.state blocked && (p.wait_target == 0 || p.wait_target == pid))) [
      | inl t ↦ rw t (λ e. absurd (cc (ap (λ st. is st blocked) e)))
      | inr f ↦ rw f (λ e. let b = ap (λ st. is st blocked) e in λ h. ground (arith, h, b, f))
    ]

-- process_exit of a current process other than process 0 makes it TERMINATED with its exit code;
-- of the other slots, each process that was BLOCKED in a wait for it or for any process is READY
-- and waits for nobody, with all else as it was, and each other one stays as it is; nobody is
-- left BLOCKED in a wait for it.
pub process_exit-Exited :
    {W : Type 0} (s : Os W) (c code : ℕ)
    → s.current ≡ some c
    → c < max_processes
    → (s.processes c).pid ≢ 0
    → Exited c code s (process_exit code s)
unfolding process_exit
process_exit-Exited s c code here inside not_kernel =
    let p = s.processes c in
    let ended : Process = record p { state = terminated; exit_code = code } in
    let ps = update s.processes c ended in
    let slot : each_slot (wake_waiter p.pid) ps c ≡ ended =
      each_slot_lem (wake_waiter p.pid) ps c inside
      ∙ ap (wake_waiter p.pid) (update_self s.processes c ended) in
    let pass : ((s.processes c).pid == 0) ≡ false = ground arith in
    subst (λ o. Exited c code s (exit_slot code s o)) (sym here)
      (rw pass (record {
        state = ap (λ q. q.state) slot;
        kept_code = ap (λ q. q.exit_code) slot;
        kept_pid = ap (λ q. q.pid) slot;
        others = λ j b n.
            subst (Woken p.pid (s.processes j))
              (sym (
                each_slot_lem (wake_waiter p.pid) ps j b
                ∙ ap (wake_waiter p.pid) (update_ne s.processes c j ended n)))
              (wake_waiter-Woken p.pid (s.processes j));
        none_waits = λ j b e h.
            waiter_gone p.pid (ps j)
              (sym (ap (λ q. q.state) (each_slot_lem (wake_waiter p.pid) ps j b)) ∙ e)
              (sym (ap (λ q. q.wait_target) (each_slot_lem (wake_waiter p.pid) ps j b)) ∙ h);
      }))

-- The process has been collected: its slot is free, its number is gone, and others stay.
pub record Collected {W : Type 0} (pid t : ℕ) (s s' : Os W) : Type 0 where
  pub free : (s'.processes t).state ≡ unused
  pub gone : process_get s'.processes pid ≡ none
  pub others : (j : ℕ) → t ≢ j → s'.processes j ≡ s.processes j

module _ (machine : Machine) where
  open machine use {World}

  cleanup_others :
      (t j : ℕ) (s : Os World) → t ≢ j → (process_cleanup machine t s).processes j ≡ s.processes j
  unfolding process_cleanup
  cleanup_others t j s n = elim (Bool-cases ((s.processes t).pid == 0)) [
    | inl z ↦ rw z refl
    | inr f ↦ rw f (update_ne s.processes t j _ n)
  ]

  collect_in_use :
      (s : Os World) (t : ℕ)
      → is (s.processes t).state unused ≡ false
      → collect machine t s ≡ (
        collected (s.processes t).exit_code,
        set_slot
            (process_cleanup machine t s)
            t
            (freed ((process_cleanup machine t s).processes t)),
      )
  unfolding collect
  collect_in_use s t u = rw u refl

  collect-Collected :
      (s : Os World) (c pid t : ℕ)
      → IsValid s c
      → IsAt s.processes pid t
      → pid ≢ 0
      → ((collect machine t s).0 ≡ collected (s.processes t).exit_code)
        × Collected pid t s (collect machine t s).1
  collect-Collected s c pid t v at n =
      let s' = process_cleanup machine t s in
      let q = freed (s'.processes t) in
      let e : collect machine t s ≡ (collected (s.processes t).exit_code, set_slot s' t q) =
        collect_in_use s t at.in_use in
      let free : ((collect machine t s).1.processes t).state ≡ unused =
        ap (λ r. (r.1.processes t).state) e ∙ ap (λ p. p.state) (update_self s'.processes t q) in
      let k = collect-Keeps machine c t s (other_slot s c pid t v at n) in
      (
        ap (λ r. r.0) e,
        record {
          free = free;
          gone = elim (Option-cases (process_get (collect machine t s).1.processes pid)) [
            | inl g ↦ g
            | inr (i, g) ↦
                let at' = process_get-some (collect machine t s).1.processes pid i g in
                let (u, p) = k.slots i at'.in_range at'.in_use in
                let same : i ≡ t =
                  v.pids_unique i t at'.in_range at.in_range u at.in_use
                    (sym p ∙ at'.same ∙ sym at.same) in
                absurd (
                  cc (
                    at'.in_use,
                    ap (λ m. is ((collect machine t s).1.processes m).state unused) same,
                    ap (λ st. is st unused) free,
                  ))
          ];
          others = λ j m.
              ap (λ r. r.1.processes j) e ∙ update_ne s'.processes t j q m ∙ cleanup_others t j s m;
        },
      )

  -- What a wait with WNOHANG for the process of slot `t` returns: 0 while the process has not ended,
  -- else its exit code, and then the slot is free and no process has the number.
  abbrev pub Polled : (pid t : ℕ) → Os World → Progress World → Type 0
  Polled pid t s r =
      (((s.processes t).state ≢ terminated) × (r ≡ returns alive s))
      ⊎ (((s.processes t).state ≡ terminated)
          × ((s' : Os World) × (r ≡ returns (collected (s.processes t).exit_code) s')
              × Collected pid t s s'))

  returned-of : (r : Waited × Os World) (a : Waited) → r.0 ≡ a → returned machine r ≡ returns a r.1
  returned-of (b, s) a e = ap (λ x. returns x s) e

  polls :
      (s : Os World) (c pid t : ℕ)
      → IsValid s c
      → IsAt s.processes pid t
      → pid ≢ 0
      → Polled pid t s (wait_for machine pid true s (some t))
  polls s c pid t v at n =
      let z : (pid == 0) ≡ false = ground arith in
      elim (Bool-cases (is (s.processes t).state terminated)) [
        | inr f ↦ inl (rw (z, f) ((λ e. cc (f, ap (λ st. is st terminated) e)), refl))
        | inl d ↦
            let (code, w) = collect-Collected s c pid t v at n in
            inr (
              is_iff _ _ d,
              ((collect machine t s).1, rw (z, d) (returned-of (collect machine t s) _ code), w),
            )
      ]

  -- In a valid state, process_waitpid with WNOHANG for the process of slot t (not process 0)
  -- returns 0 and changes nothing while that process is not TERMINATED; when it is, the call
  -- returns its exit code, frees the slot, leaves every other slot alone, and no process has the
  -- number any more.
  pub waitpid-Polled :
      (s : Os World) (c pid t : ℕ)
      → IsValid s c
      → pid ≢ 0
      → process_get s.processes pid ≡ some t
      → Polled pid t s (waitpid machine pid true s)
  unfolding waitpid
  waitpid-Polled s c pid t v n e =
      subst (λ o. Polled pid t s (wait_for machine pid true s o)) (sym e)
        (polls s c pid t v (process_get-some s.processes pid t e) n)

  wait_for-blocks :
      (s s' : Os World) (pid t c : ℕ) (o : Option ℕ)
      → s.current ≡ some c
      → wait_for machine pid false s o ≡ waits t s'
      → s' ≡ set_slot s c (record (s.processes c) { wait_target = pid; state = blocked })
  unfolding state_of
  wait_for-blocks s s' pid t c none here e = absurd (cc e)
  wait_for-blocks s s' pid t c (some i) here e = elim (Bool-cases (pid == 0)) [
    | inl z ↦ absurd (cc (e, z))
    | inr f ↦
        let went : wait_for machine pid false s (some i) ≡ waits i (block_on pid s s.current) =
          rw f refl in
        ap state_of (sym e ∙ went) ∙ ap (block_on pid s) here
  ]

  -- A process_waitpid that blocks for a process that is already TERMINATED can lose its wakeup:
  -- if ticks come before the loop tests the target and another slot is ready, the caller is
  -- BLOCKED after any number of ticks and is not the current process again, although the target
  -- is done.
  pub lost_wakeup :
      (s s' : Os World) (rsps : ℕ → ℕ) (n c k pid t : ℕ)
      → s.current ≡ some c
      → c < max_processes
      → s.scheduling_enabled ≡ true
      → (s.processes t).state ≡ terminated
      → t ≢ c
      → k < max_processes
      → k ≢ c
      → (s.processes k).state ≡ ready
      → waitpid machine pid false s ≡ waits t s'
      → let s'' = ticks machine rsps (suc n) s' in
        ((s''.processes c).state ≡ blocked) × (s''.current ≢ some c) × (target_done t s' ≡ true)
  unfolding waitpid
  lost_wakeup s s' rsps n c k pid t here inside on ended other rival differ is_ready w =
      let e = wait_for-blocks s s' pid t c _ here w in
      let q : Process = record (s.processes c) { wait_target = pid; state = blocked } in
      let slot : (j : ℕ) → c ≢ j → s'.processes j ≡ s.processes j =
        λ j m. ap (λ r. r.processes j) e ∙ update_ne s.processes c j q m in
      let (asleep, away) = blocked_forever machine rsps n c k s' (record {
        current = ap (λ r. r.current) e ∙ here;
        on = ap (λ r. r.scheduling_enabled) e ∙ on;
        in_range = inside;
        is_blocked =
            ap (λ r. (r.processes c).state) e ∙ ap (λ p. p.state) (update_self s.processes c q);
        rival = rival;
        other = differ;
        is_ready = ap (λ p. p.state) (slot k (λ h. differ (sym h))) ∙ is_ready;
      }) in
      (
        asleep,
        away,
        ap (λ st. is st terminated || is st unused)
            (ap (λ p. p.state) (slot t (λ h. other (sym h))) ∙ ended),
      )
