-- ===== src/Process/Inv.antt =====
-- The invariant of the process table, and that a tick keeps it.
use ao_os.Base.{
  ℕ, ◌+◌, ◌≤◌, ◌<◌, ◌≡◌, refl, sym, subst, ◌∙◌, ap, inl, inr, Bool, true, false, ◌&&◌, not, some,
  arith, ltb, leb, ◌==◌, if◌then◌else◌, u32, Bool-cases,
}
use ao_os.Process.Services.{Machine}
use ao_os.Process.{
  State, unused, ready, running, sleeping, is, Process, Processes, Os, max_processes, time_quantum,
  turn, saved, tick_timer, schedule_tick,
}
use ao_os.Process.Table.{is_iff, woken, wake_sleepers_lem}
use ao_os.Process.Tick.{GoesOn, Switches, Alone, schedule_tick-after_timer}

-- What the life cycle of a process may not change: who stands in which slot. A tick changes only
-- who runs.
abbrev used : Process → Bool
used p = not (is p.state unused)

-- Slot `c` is the current process.
pub record IsValid {W : Type 0} (s : Os W) (c : ℕ) : Type 0 where
  pub current : s.current ≡ some c
  pub in_range : c < max_processes
  -- No slot but the current one is in the state RUNNING.
  pub only_running : (i : ℕ) → i < max_processes → is (s.processes i).state running ≡ true → i ≡ c
  pub time_left : (0 < s.ticks_remaining) × (s.ticks_remaining ≤ time_quantum)
  pub kernel_used : is (s.processes 0).state unused ≡ false
  pub kernel_pid : (s.processes 0).pid ≡ 0
  pub pids_below :
      (i : ℕ)
      → i < max_processes
      → is (s.processes i).state unused ≡ false
      → (s.processes i).pid < s.next_pid
  pub pids_unique :
      (i j : ℕ)
      → i < max_processes
      → j < max_processes
      → is (s.processes i).state unused ≡ false
      → is (s.processes j).state unused ≡ false
      → (s.processes i).pid ≡ (s.processes j).pid
      → i ≡ j

-- The same process as before, in use or not as before.
pub record Same (p q : Process) : Type 0 where
  pub pid : p.pid ≡ q.pid
  pub unused : is p.state unused ≡ is q.state unused

woken-Same :
    (now : ℕ) (p : Process)
    → Same (woken now p) p × (is (woken now p).state running ≡ is p.state running)
unfolding woken
woken-Same now p = elim (Bool-cases (is p.state sleeping && leb p.wake_tick now)) [
  | inr no_wake ↦ rw no_wake (record { pid = refl; unused = refl }, refl)
  | inl wake ↦
      let e : p.state ≡ sleeping = is_iff _ _ (ground arith) in
      rw wake (
        record { pid = refl; unused = ap (λ st. is st unused) (sym e) },
        ap (λ st. is st running) (sym e),
      )
]

-- The sleepers are woken before anything else.
pub timer-Same :
    {W : Type 0} (s : Os W) (j : ℕ)
    → Same ((tick_timer s).processes j) (s.processes j)
      × (is ((tick_timer s).processes j).state running ≡ is (s.processes j).state running)
timer-Same s j =
    let now = u32 (s.ticks + 1) in
    let ws = woken-Same now (s.processes j) in
    rw (wake_sleepers_lem now s.processes j) (elim (Bool-cases (leb 1 j && ltb j max_processes)) [
      | inl t ↦ rw t ws
      | inr f ↦ rw f (record { pid = refl; unused = refl }, refl)
    ])

pub saved_lem :
    (rsp c : ℕ) (ps : Processes) (j : ℕ)
    → saved rsp c ps j ≡ (
        if c == j
        then record (ps j) {
          kernel_rsp = rsp;
          state = (if is (ps j).state running then ready else (ps j).state);
        }
        else ps j)
unfolding saved
saved_lem rsp c ps j = elim (Bool-cases (c == j)) [
  | inl same ↦ let e : c ≡ j = ground arith in rw (same, e) refl
  | inr other ↦ rw other refl
]

demoted_unused : (st : State) → is (if is st running then ready else st) unused ≡ is st unused
demoted_unused unused = refl
demoted_unused _ = refl

demoted_not_running : (st : State) → is (if is st running then ready else st) running ≡ false
demoted_not_running unused = refl
demoted_not_running _ = refl

saved-Same : (rsp c : ℕ) (ps : Processes) (j : ℕ) → Same (saved rsp c ps j) (ps j)
saved-Same rsp c ps j = rw (saved_lem rsp c ps j) (elim (Bool-cases (c == j)) [
  | inr other ↦ rw other (record { pid = refl; unused = refl })
  | inl same ↦ rw same (record { pid = refl; unused = demoted_unused (ps j).state })
])

-- After the current process is saved no slot is running, if only it was.
saved_none_running :
    (rsp c : ℕ) (ps : Processes) (j : ℕ)
    → (is (ps j).state running ≡ true → j ≡ c)
    → is (saved rsp c ps j).state running ≡ false
saved_none_running rsp c ps j only = rw (saved_lem rsp c ps j) (elim (Bool-cases (c == j)) [
  | inl same ↦ rw same (demoted_not_running (ps j).state)
  | inr other ↦ rw other (elim (Bool-cases (is (ps j).state running)) [
    | inr f ↦ f
    | inl t ↦ absurd (ground (arith, only t))
  ])
])

-- A state whose slots hold the same processes is valid for `n` if at most slot `n` is running.
module _ {W : Type 0} (s t : Os W) (c n : ℕ) where
  pub moved-IsValid :
      IsValid s c
      → t.current ≡ some n
      → n < max_processes
      → t.next_pid ≡ s.next_pid
      → (0 < t.ticks_remaining) × (t.ticks_remaining ≤ time_quantum)
      → ((j : ℕ) → Same (t.processes j) (s.processes j))
      → ((j : ℕ) → j < max_processes → is (t.processes j).state running ≡ true → j ≡ n)
      → IsValid t n
  moved-IsValid v now inside pid time same only = record {
    current = now;
    in_range = inside;
    only_running = only;
    time_left = time;
    kernel_used = (same 0).unused ∙ v.kernel_used;
    kernel_pid = (same 0).pid ∙ v.kernel_pid;
    pids_below =
        λ i b u. ground (arith, (same i).pid, v.pids_below i b (sym (same i).unused ∙ u), pid);
    pids_unique = λ i j b b' u u' e.
        v.pids_unique i j b b' (sym (same i).unused ∙ u) (sym (same j).unused ∙ u')
          (sym (same i).pid ∙ e ∙ (same j).pid);
  }

Same-trans : {p q r : Process} → Same p q → Same q r → Same p r
Same-trans a b = record { pid = a.pid ∙ b.pid; unused = a.unused ∙ b.unused }

switched-Same :
    (p q : Process) (b : Bool)
    → Same p q
    → (b ≡ true → is p.state unused ≡ false)
    → Same (if b then record p { state = running } else p) q
switched-Same p q true a h = record { pid = a.pid; unused = sym (h refl) ∙ a.unused }
switched-Same p q false a h = a

module _ {W : Type 0} (s : Os W) (c : ℕ) (v : IsValid s c) where
  timer_slot : (j : ℕ) → Same ((tick_timer s).processes j) (s.processes j)
  timer_slot j = (timer-Same s j).0

  timer_only :
      (j : ℕ) → j < max_processes → is ((tick_timer s).processes j).state running ≡ true → j ≡ c
  timer_only j b h = v.only_running j b (sym (timer-Same s j).1 ∙ h)

  -- The state before the choice: the current process is saved, nobody runs.
  saved_slot : (rsp j : ℕ) → Same (saved rsp c (tick_timer s).processes j) (s.processes j)
  saved_slot rsp j = Same-trans (saved-Same rsp c (tick_timer s).processes j) (timer_slot j)

  saved_idle :
      (rsp j : ℕ)
      → j < max_processes
      → is (saved rsp c (tick_timer s).processes j).state running ≡ false
  saved_idle rsp j b = saved_none_running rsp c (tick_timer s).processes j (timer_only j b)

  pub GoesOn-IsValid : (rsp : ℕ) (r : ℕ × Os W) → GoesOn rsp c (tick_timer s) r → IsValid r.1 c
  GoesOn-IsValid rsp r g =
      moved-IsValid s r.1 c c v (g.current ∙ v.current) v.in_range g.counter
        (omega (arith, g.time_left, g.counted, v.time_left)) (λ j. rw (g.table j) (timer_slot j))
        (λ j b h. timer_only j b (ap (λ p. is p.state running) (sym (g.table j)) ∙ h))

  pub Switches-IsValid :
      (rsp : ℕ) (r : ℕ × Os W) (i : ℕ) → Switches rsp c (tick_timer s) r i → IsValid r.1 (turn c i)
  Switches-IsValid rsp r i w =
      let ps = saved rsp c (tick_timer s).processes in
      moved-IsValid s r.1 c (turn c i) v w.current (omega arith) w.counter
        (omega (arith, w.time_left))
        (λ j. rw (w.table j) (
          switched-Same (ps j) (s.processes j) (turn c i == j) (saved_slot rsp j) (λ here.
            let e : turn c i ≡ j = ground arith in
            ap (λ st. is st unused) (subst (λ k. (ps k).state ≡ ready) e w.was_ready))))
        (λ j b h. elim (Bool-cases (turn c i == j)) [
          | inl here ↦ ground arith
          | inr other ↦
              let e : r.1.processes j ≡ ps j = rw other at (w.table j) in
              absurd (cc (saved_idle rsp j b, ap (λ p. is p.state running) e, h))
        ])

  Alone-IsValid : (rsp : ℕ) (r : ℕ × Os W) → Alone rsp c (tick_timer s) r → IsValid r.1 c
  Alone-IsValid rsp r a =
      moved-IsValid s r.1 c c v (a.current ∙ v.current) v.in_range a.counter
        (omega (arith, a.time_left, v.time_left)) (λ j. rw (a.table j) (saved_slot rsp j))
        (λ j b h. absurd (cc (saved_idle rsp j b, ap (λ p. is p.state running) (a.table j), h)))

-- A tick keeps the table valid, for the slot that is then current: one process at most is running,
-- process ids stay unique, and slot 0 stays the kernel's.
pub schedule_tick-IsValid :
    (machine : Machine) (rsp c : ℕ) (s : Os machine.World)
    → IsValid s c
    → s.scheduling_enabled ≡ true
    → (n : ℕ) × IsValid (schedule_tick machine rsp s).1 n
schedule_tick-IsValid machine rsp c s v on =
    let r = schedule_tick machine rsp s in
    elim (schedule_tick-after_timer machine rsp c s v.in_range v.current on) [
      | inl g ↦ (c, GoesOn-IsValid s c v rsp r g)
      | inr (inl (i, w)) ↦ (turn c i, Switches-IsValid s c v rsp r i w)
      | inr (inr a) ↦ (c, Alone-IsValid s c v rsp r a)
    ]
