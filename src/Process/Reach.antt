-- ===== src/Process/Reach.antt =====
-- Every sequence of ticks and calls of the process API from `process_init` on, and the invariant of
-- the process table.
use ao_os.Base.{
  ℕ, ◌+◌, ◌^◌, ◌<◌, ◌≡◌, refl, sym, subst, ◌∙◌, ap, ◌≢◌, inl, inr, Bool, true, false, Option, none,
  some, some-injective, List, arith, ◌==◌, if◌then◌else◌, Bool-cases,
}
use ao_os.Process.Services.{Machine}
use ao_os.Process.{
  unused, running, terminated, is, Os, time_quantum, process_get, schedule_tick, tick_timer,
  tick_of, tick_current,
}
use ao_os.Process.Fresh.{OnlyAt, map_user_page-OnlyAt}
use ao_os.Process.UserMemory.{map_user_page, write_user, zero_user}
use ao_os.Process.Inv.{IsValid, Same, schedule_tick-IsValid, moved-IsValid, timer-Same}
use ao_os.Process.Lifecycle.{
  process_activate, process_detach, process_exit, process_terminate, process_sleep_ticks, waitpid,
  wait_for, returned, waitpid_finish, collect, Progress, returns, waits, process_reap_terminated,
  scheduler_start, set_foreground,
}
use ao_os.Process.Create.{process_init, process_create}
use ao_os.Process.Creation.{process_create_lem, Fills-IsValid, process_init-IsValid}
use ao_os.Process.Slots.{IsAt, process_get-some, Keeps, Keeps-IsValid, Keeps-refl, Keeps-trans}
use ao_os.Process.Calls.{
  process_activate-Keeps, process_detach-Keeps, process_terminate-Keeps, process_exit-Keeps,
  process_sleep_ticks-Keeps, block_on-Keeps, unblock-Keeps, collect-Keeps,
  process_reap_terminated-Keeps,
}

-- The state a started call of `process_waitpid` leaves.
unfoldable pub state_of : {W : Type 0} → Progress W → Os W
state_of (returns r s) = s
state_of (waits t s) = s

-- A process outside slot 0 is found under a pid that is not 0.
pub other_slot :
    {W : Type 0} (s : Os W) (c pid i : ℕ) → IsValid s c → IsAt s.processes pid i → pid ≢ 0 → i ≢ 0
other_slot s c pid i v at n e = n (sym at.same ∙ ap (λ j. (s.processes j).pid) e ∙ v.kernel_pid)

-- The current process has a slot in use.
pub record HasCaller {W : Type 0} (s : Os W) : Type 0 where
  pub slot : ℕ
  pub current : s.current ≡ some slot
  pub in_use : is (s.processes slot).state unused ≡ false

caller :
    {W : Type 0} (s : Os W) (c : ℕ)
    → IsValid s c
    → HasCaller s
    → is (s.processes c).state unused ≡ false
caller s c v h =
    subst (λ k. is (s.processes k).state unused ≡ false)
      (some-injective _ _ (sym h.current ∙ v.current)) h.in_use

same-IsValid :
    {W : Type 0} (s t : Os W) (c : ℕ)
    → IsValid s c
    → t.current ≡ s.current
    → t.processes ≡ s.processes
    → t.next_pid ≡ s.next_pid
    → t.ticks_remaining ≡ s.ticks_remaining
    → IsValid t c
same-IsValid s t c v e f g h =
    moved-IsValid s t c c v (e ∙ v.current) v.in_range g (omega (arith, h, v.time_left))
      (λ j. record { pid = ap (λ ps. (ps j).pid) f; unused = ap (λ ps. is (ps j).state unused) f })
      (λ j b r. v.only_running j b (ap (λ ps. is (ps j).state running) (sym f) ∙ r))

-- A change of slot `i` that keeps its number and its state
OnlyAt-IsValid : {W : Type 0} (s t : Os W) (i c : ℕ) → OnlyAt i s t → IsValid s c → IsValid t c
OnlyAt-IsValid s t i c o v =
    moved-IsValid s t c c v (o.current ∙ v.current) v.in_range o.counter
      (omega (arith, o.time, v.time_left))
      (λ j. elim (Bool-cases (i == j)) [
        | inl e ↦
            subst (λ k. Same (t.processes k) (s.processes k)) (ground (arith, e))
              (record { pid = o.pid; unused = ap (λ st. is st unused) o.state })
        | inr e ↦ ground (arith, e, o.others j)
      ])
      (λ j b r. v.only_running j b (elim (Bool-cases (i == j)) [
        | inl e ↦
            let same : i ≡ j = ground (arith, e) in
            sym (
              ap (λ st. is st running)
                (subst (λ k. (t.processes k).state ≡ (s.processes k).state) same o.state))
            ∙ r
        | inr e ↦
            let ne : i ≢ j = ground (arith, e) in
            sym (ap (λ p. is p.state running) (o.others j ne)) ∙ r
      ]))

module _ (machine : Machine) where
  open machine use {World, stack_base, put_context, get_cr3, create_address_space}

  returned-state : (r : _ × Os World) → state_of (returned machine r) ≡ r.1
  unfolding state_of
  returned-state (a, s) = refl

  wait_for-Keeps :
      (s : Os World) (c pid : ℕ) (no_hang : Bool) (o : Option ℕ)
      → IsValid s c
      → is (s.processes c).state unused ≡ false
      → process_get s.processes pid ≡ o
      → Keeps s (state_of (wait_for machine pid no_hang s o)) c
  unfolding state_of
  wait_for-Keeps s c pid no_hang none v u e = Keeps-refl s c
  wait_for-Keeps s c pid no_hang (some t) v u e = elim (Bool-cases (pid == 0)) [
    | inl z ↦ rw z (Keeps-refl s c)
    | inr n ↦
        let other : t ≢ 0 =
          other_slot s c pid t v (process_get-some s.processes pid t e) (λ z. ground (arith, z)) in
        rw n (elim (Bool-cases no_hang) [
          | inr hang ↦ rw hang (block_on-Keeps s c v.current u pid)
          | inl h ↦ rw h (elim (Bool-cases (is (s.processes t).state terminated)) [
            | inr f ↦ rw f (Keeps-refl s c)
            | inl d ↦
                rw (d, returned-state (collect machine t s)) (collect-Keeps machine c t s other)
          ])
        ])
  ]

  waitpid-Keeps :
      (s : Os World) (c pid : ℕ) (no_hang : Bool)
      → IsValid s c
      → is (s.processes c).state unused ≡ false
      → Keeps s (state_of (waitpid machine pid no_hang s)) c
  unfolding waitpid
  waitpid-Keeps s c pid no_hang v u = wait_for-Keeps s c pid no_hang _ v u refl

  -- One event: a tick of the timer, or a call of the process API by the current process. A call
  -- that waits is split at its loop.
  pub data Step (s : Os World) : Os World → Type 0 where
    tick : (rsp : ℕ) → Step s (schedule_tick machine rsp s).1
    start : Step s (scheduler_start s)
    foreground : (pid : ℕ) → Step s (set_foreground pid s)
    create :
        (name : List ℕ) (entry : ℕ) (is_user : Bool)
        → s.next_pid + 1 < 2 ^ 64
        → Step s (process_create machine name entry is_user s).1
    map : (i virt flags : ℕ) → Step s (map_user_page machine i virt flags s).1
    write : (i virt : ℕ) (content : List ℕ) → Step s (write_user machine i virt content s).1
    clear : (i virt size : ℕ) → Step s (zero_user machine i virt size s).1
    activate : (pid : ℕ) → Step s (process_activate pid s)
    detach : (pid : ℕ) → Step s (process_detach pid s)
    terminate : (pid : ℕ) → Step s (process_terminate pid s)
    reap : Step s (process_reap_terminated machine s).1
    exit : (code : ℕ) → HasCaller s → Step s (process_exit code s)
    sleep : (n : ℕ) → HasCaller s → Step s (process_sleep_ticks n s)
    wait :
        (pid : ℕ) (no_hang : Bool) → HasCaller s → Step s (state_of (waitpid machine pid no_hang s))
    finish : (t : ℕ) → t ≢ 0 → HasCaller s → Step s (waitpid_finish machine t s).1

  -- From the boot on.
  pub data Reach (boot : Os World) : Os World → Type 0 where
    booted :
        (stack_top : ℕ)
        → boot.next_pid ≡ 1
        → boot.ticks_remaining ≡ time_quantum
        → Reach boot (process_init machine stack_top boot)
    then_step : {s t : Os World} → Reach boot s → Step s t → Reach boot t

  off-IsValid :
      (rsp c : ℕ) (s : Os World)
      → IsValid s c
      → s.scheduling_enabled ≡ false
      → IsValid (schedule_tick machine rsp s).1 c
  unfolding schedule_tick
  off-IsValid rsp c s v off =
      let w : IsValid (tick_timer s) c =
        moved-IsValid s (tick_timer s) c c v v.current v.in_range refl v.time_left
          (λ j. (timer-Same s j).0) (λ j b h. v.only_running j b (sym (timer-Same s j).1 ∙ h)) in
      subst (λ o. IsValid (tick_of machine rsp (tick_timer s) o).1 c) (sym v.current)
        (subst
          (λ b.
            IsValid (if b then tick_current machine rsp c (tick_timer s) else (rsp, tick_timer s)).1
              c)
          (sym off) w)

  create-IsValid :
      (name : List ℕ) (entry c : ℕ) (is_user : Bool) (s : Os World)
      → IsValid s c
      → s.next_pid + 1 < 2 ^ 64
      → IsValid (process_create machine name entry is_user s).1 c
  create-IsValid name entry c is_user s v small =
      elim (process_create_lem machine name entry is_user s) [
        | inl (i, f) ↦ Fills-IsValid is_user s _ i c v small f
        | inr full ↦ subst (λ r. IsValid r.1 c) (sym full.result) v
      ]

  waitpid_finish-Keeps :
      (t c : ℕ) (s : Os World)
      → t ≢ 0
      → s.current ≡ some c
      → is (s.processes c).state unused ≡ false
      → Keeps s (waitpid_finish machine t s).1 c
  unfolding waitpid_finish
  waitpid_finish-Keeps t c s n here u =
      Keeps-trans s _ _ c (unblock-Keeps s c here u) (collect-Keeps machine c t _ n)

  world-IsValid :
      (b : Bool) (r : Bool) (s : Os World) (w : World) (c : ℕ)
      → IsValid s c
      → let t : Bool × Os World = (if b then (false, s) else (r, record s { world = w })) in
        IsValid t.1 c
  world-IsValid true r s w c v = v
  world-IsValid false r s w c v = same-IsValid s _ c v refl refl refl refl

  write_user-IsValid :
      (i virt : ℕ) (content : List ℕ) (c : ℕ) (s : Os World)
      → IsValid s c
      → IsValid (write_user machine i virt content s).1 c
  unfolding write_user
  write_user-IsValid i virt content c s v = world-IsValid ((s.processes i).cr3 == 0) _ s _ c v

  zero_user-IsValid :
      (i virt size c : ℕ) (s : Os World)
      → IsValid s c
      → IsValid (zero_user machine i virt size s).1 c
  unfolding zero_user
  zero_user-IsValid i virt size c s v = world-IsValid ((s.processes i).cr3 == 0) _ s _ c v

  -- Every event keeps the table valid.
  pub step-IsValid : {s t : Os World} → Step s t → (c : ℕ) → IsValid s c → (n : ℕ) × IsValid t n
  unfolding scheduler_start set_foreground
  step-IsValid {s} (tick rsp) c v = elim (Bool-cases s.scheduling_enabled) [
    | inl on ↦ schedule_tick-IsValid machine rsp c s v on
    | inr off ↦ (c, off-IsValid rsp c s v off)
  ]
  step-IsValid {s} start c v = (c, same-IsValid s _ c v refl refl refl refl)
  step-IsValid {s} (foreground pid) c v = (c, same-IsValid s _ c v refl refl refl refl)
  step-IsValid {s} (create name entry is_user small) c v =
      (c, create-IsValid name entry c is_user s v small)
  step-IsValid {s} (map i virt flags) c v =
      (c, OnlyAt-IsValid s _ i c (map_user_page-OnlyAt machine i virt flags s) v)
  step-IsValid {s} (write i virt content) c v = (c, write_user-IsValid i virt content c s v)
  step-IsValid {s} (clear i virt size) c v = (c, zero_user-IsValid i virt size c s v)
  step-IsValid {s} (activate pid) c v = (c, Keeps-IsValid s _ c (process_activate-Keeps s c pid) v)
  step-IsValid {s} (detach pid) c v = (c, Keeps-IsValid s _ c (process_detach-Keeps s c pid) v)
  step-IsValid {s} (terminate pid) c v =
      (c, Keeps-IsValid s _ c (process_terminate-Keeps s c pid) v)
  step-IsValid {s} reap c v = (c, Keeps-IsValid s _ c (process_reap_terminated-Keeps machine c s) v)
  step-IsValid {s} (exit code h) c v =
      (c, Keeps-IsValid s _ c (process_exit-Keeps s c v.current (caller s c v h) code) v)
  step-IsValid {s} (sleep n h) c v =
      (c, Keeps-IsValid s _ c (process_sleep_ticks-Keeps s c v.current (caller s c v h) n) v)
  step-IsValid {s} (wait pid no_hang h) c v =
      (c, Keeps-IsValid s _ c (waitpid-Keeps s c pid no_hang v (caller s c v h)) v)
  step-IsValid {s} (finish t n h) c v =
      (c, Keeps-IsValid s _ c (waitpid_finish-Keeps t c s n v.current (caller s c v h)) v)

  -- From process_init on, through any sequence of timer ticks, calls of the process API and
  -- mappings, writes and clearings of user pages, the process table is valid for the slot that
  -- is then current: process numbers are unique and below next_pid, no slot but the current one
  -- is RUNNING, slot 0 stays the kernel's, and 1 to 5 ticks of the quantum are left; provided
  -- that next_pid was 1 and the quantum full at boot, that next_pid stays below 2^64, and that
  -- who exits, sleeps or waits stands in a slot in use and a wait that ends is not for slot 0.
  pub reach-IsValid : {boot s : Os World} → Reach boot s → (c : ℕ) × IsValid s c
  reach-IsValid (booted top one full) = (0, process_init-IsValid machine top _ one full)
  reach-IsValid (then_step before step) = let (c, v) = reach-IsValid before in step-IsValid step c v
