-- ===== src/Process/Tick.antt =====
-- What `schedule_tick` does, on every branch.
use ao_os.Base.{
  ℕ, ◌+◌, ◌%◌, ◌^◌, u32, leb, ltb, ◌&&◌, ◌≤◌, ◌<◌, ◌≡◌, refl, sym, subst, ◌∙◌, ap, ◌≢◌, ◌⊎◌, inl,
  inr, true, false, Option, none, some, some-injective, arith, ◌==◌, if◌then◌else◌, Bool-cases,
  FoundAt, find_from-FoundAt, find_from-none,
}
use ao_os.Process.Services.{Machine}
use ao_os.Process.{
  State, ready, running, sleeping, is, Process, Processes, Os, max_processes, time_quantum,
  set_state, cannot_run, turn, next_ready, saved, choose, switch, count_down, tick_current,
  tick_timer, tick_of, schedule_tick,
}
use ao_os.Process.Table.{is_iff, woken, wake_sleepers_lem}

-- The turn of the current process ends at this tick.
abbrev pub MustSwitch : ℕ → Process → Type 0
MustSwitch t p = (cannot_run p.state ≡ true) ⊎ (t ≤ 1)

-- The slot holds a sleeper whose time has come at tick `now`. Slot 0, the kernel's, never sleeps.
abbrev pub Due : (now j : ℕ) → Process → Type 0
Due now j p = (1 ≤ j) × (j < max_processes) × (p.state ≡ sleeping) × (p.wake_tick ≤ now)

-- What every tick does first: the 32-bit counter goes up by one, and each sleeper whose time has
-- come is READY.
pub record Timed {W : Type 0} (s t : Os W) : Type 0 where
  pub clock : t.ticks ≡ (s.ticks + 1) % 2 ^ 32
  pub slots :
      (j : ℕ)
      → (Due t.ticks j (s.processes j)
          × (t.processes j ≡ record (s.processes j) { wake_tick = 0; state = ready }))
        ⊎ ((Due t.ticks j (s.processes j) → ⊥) × (t.processes j ≡ s.processes j))
  pub current : t.current ≡ s.current
  pub time_left : t.ticks_remaining ≡ s.ticks_remaining
  pub counter : t.next_pid ≡ s.next_pid
  pub on : t.scheduling_enabled ≡ s.scheduling_enabled
  pub foreground : t.foreground_pid ≡ s.foreground_pid
  pub world : t.world ≡ s.world

tick_timer-Timed : {W : Type 0} (s : Os W) → Timed s (tick_timer s)
unfolding woken
tick_timer-Timed s =
    let now = u32 (s.ticks + 1) in
    record {
      clock = refl;
      slots = λ j.
          let p = s.processes j in
          let slot = wake_sleepers_lem now s.processes j in
          elim (Bool-cases (leb 1 j && ltb j max_processes)) [
            | inr f ↦ inr (λ d. (ground (arith, f, d.0, d.1)), slot ∙ rw f refl)
            | inl t ↦ elim (Bool-cases (is p.state sleeping && leb p.wake_tick now)) [
              | inr g ↦ inr (
                λ d. (let z = ap (λ st. is st sleeping) d.2 in ground (arith, g, z, d.3)),
                slot ∙ rw (t, g) refl,
              )
              | inl u ↦
                  let asleep : p.state ≡ sleeping = is_iff p.state sleeping (ground (arith, u)) in
                  inl (
                    (ground (arith, t), ground (arith, t), asleep, ground (arith, u)),
                    slot ∙ rw (t, u) refl,
                  )
            ]
          ];
      current = refl;
      time_left = refl;
      counter = refl;
      on = refl;
      foreground = refl;
      world = refl;
    }

module _ {W : Type 0} (rsp c : ℕ) (s : Os W) (r : ℕ × Os W) where
  -- The turn goes on: one tick of it is used up and nothing else changes.
  pub record GoesOn : Type 0 where
    pub can_run : cannot_run (s.processes c).state ≡ false
    pub stack : r.0 ≡ rsp
    pub table : (j : ℕ) → r.1.processes j ≡ s.processes j
    pub current : r.1.current ≡ s.current
    pub counted : r.1.ticks_remaining + 1 ≡ s.ticks_remaining
    pub time_left : 0 < r.1.ticks_remaining
    pub counter : r.1.next_pid ≡ s.next_pid
    pub on : r.1.scheduling_enabled ≡ s.scheduling_enabled
    pub clock : r.1.ticks ≡ s.ticks

  -- The processor goes to the first slot in the round behind `c` that is ready, `i` places on. The
  -- stack pointer of `c` is saved, and the slot's own saved one is taken up.
  pub record Switches (i : ℕ) : Type 0 where
    pub must : MustSwitch s.ticks_remaining (s.processes c)
    pub from : 1 ≤ i
    pub to : i ≤ max_processes
    pub was_ready : (saved rsp c s.processes (turn c i)).state ≡ ready
    pub passed_over : (k : ℕ) → 1 ≤ k → k < i → (saved rsp c s.processes (turn c k)).state ≢ ready
    pub stack : r.0 ≡ (saved rsp c s.processes (turn c i)).kernel_rsp
    pub table :
        (j : ℕ)
        → r.1.processes j ≡ (
            if turn c i == j
            then record (saved rsp c s.processes j) { state = running }
            else saved rsp c s.processes j)
    pub current : r.1.current ≡ some (turn c i)
    pub time_left : r.1.ticks_remaining ≡ time_quantum
    pub counter : r.1.next_pid ≡ s.next_pid
    pub on : r.1.scheduling_enabled ≡ s.scheduling_enabled
    pub clock : r.1.ticks ≡ s.ticks

  -- No slot is ready: the current process, which cannot run either, waits on.
  pub record Alone : Type 0 where
    pub must : MustSwitch s.ticks_remaining (s.processes c)
    pub none_ready :
        (k : ℕ) → 1 ≤ k → k ≤ max_processes → (saved rsp c s.processes (turn c k)).state ≢ ready
    pub stack : r.0 ≡ rsp
    pub table : (j : ℕ) → r.1.processes j ≡ saved rsp c s.processes j
    pub current : r.1.current ≡ s.current
    pub time_left : (r.1.ticks_remaining ≡ s.ticks_remaining) ⊎ (r.1.ticks_remaining ≡ time_quantum)
    pub counter : r.1.next_pid ≡ s.next_pid
    pub on : r.1.scheduling_enabled ≡ s.scheduling_enabled
    pub clock : r.1.ticks ≡ s.ticks

  abbrev pub Ticked : Type 0
  Ticked = GoesOn ⊎ ((i : ℕ) × Switches i) ⊎ Alone

is_ready : (p q : Process) → p ≡ q → q.state ≡ ready → is p.state ready ≡ true
is_ready p q e h = ap (λ r. is r.state ready) e ∙ ap (λ st. is st ready) h

set_state_lem :
    (ps qs : Processes) (n : ℕ) (st : State)
    → ((j : ℕ) → ps j ≡ qs j)
    → (j : ℕ) → set_state ps n st j ≡ (if n == j then record (qs j) { state = st } else qs j)
set_state_lem ps qs n st h j = elim (Bool-cases (n == j)) [
  | inl same ↦
      let e : n ≡ j = ground arith in
      rw (same, e) (ap (λ (p : Process). record p { state = st }) (h j))
  | inr other ↦ rw other (h j)
]

module _ (machine : Machine) where
  open machine use {World}

  choose-Ticked :
      (rsp c : ℕ) (s t : Os World) (o : Option ℕ)
      → c < max_processes
      → MustSwitch s.ticks_remaining (s.processes c)
      → ((j : ℕ) → t.processes j ≡ saved rsp c s.processes j)
      → t.current ≡ s.current
      → t.next_pid ≡ s.next_pid
      → t.scheduling_enabled ≡ s.scheduling_enabled
      → t.ticks ≡ s.ticks
      → (t.ticks_remaining ≡ s.ticks_remaining) ⊎ (t.ticks_remaining ≡ time_quantum)
      → next_ready t.processes c ≡ o
      → Ticked rsp c s (choose machine rsp c t o)
  unfolding next_ready
  choose-Ticked rsp c s t (some i) inside must table current counter on clock time e =
      let f : FoundAt (λ i. is (t.processes (turn c i)).state ready) 1 max_processes i =
        find_from-FoundAt _ _ _ i e in
      inr (
        inl (
          i,
          record {
            must = must;
            from = f.from;
            to = omega (arith, f.below);
            was_ready = rw (← table (turn c i)) (is_iff _ _ f.holds);
            passed_over = λ k a b q. cc (f.first k a b, is_ready _ _ (table (turn c k)) q);
            stack = ap (λ p. p.kernel_rsp) (table (turn c i));
            table = set_state_lem t.processes (saved rsp c s.processes) (turn c i) running table;
            current = refl;
            time_left = refl;
            counter = counter;
            on = on;
            clock = clock;
          },
        ))
  choose-Ticked rsp c s t none inside must table current counter on clock time e =
      let missed =
        find_from-none (λ i. is (t.processes (turn c i)).state ready) 1 max_processes e in
      let here : turn c max_processes ≡ c = omega arith in
      let idle : is (t.processes c).state ready ≡ false =
        subst (λ k. is (t.processes k).state ready ≡ false) here
          (missed max_processes (omega arith) (omega arith)) in
      inr (
        inr (record {
          must = must;
          none_ready = λ k a b q. cc (missed k a (omega arith), is_ready _ _ (table (turn c k)) q);
          stack = refl;
          table = λ j. rw idle (table j);
          current = current;
          time_left = time;
          counter = counter;
          on = on;
          clock = clock;
        }))

  tick_current-Ticked :
      (rsp c : ℕ) (s : Os World) → c < max_processes → Ticked rsp c s (tick_current machine rsp c s)
  unfolding tick_current switch
  tick_current-Ticked rsp c s inside = elim (Bool-cases (cannot_run (s.processes c).state)) [
    | inl stuck ↦ rw stuck (
        choose-Ticked rsp c s _ _ inside (inl stuck) (λ j. refl) refl refl refl refl (inl refl)
          refl)
    | inr free ↦ elim (Bool-cases (count_down s.ticks_remaining == 0)) [
      | inl over ↦
          rw (free, over)
            (choose-Ticked rsp c s _ _ inside (inr (ground arith)) (λ j. refl) refl refl refl refl
              (inr refl) refl)
      | inr left ↦
          rw (free, left)
            (inl (record {
              can_run = free;
              stack = refl;
              table = λ j. refl;
              current = refl;
              counted = ground arith;
              time_left = ground arith;
              counter = refl;
              on = refl;
              clock = refl;
            }))
    ]
  ]

  tick_of-on :
      (rsp c : ℕ) (s : Os World) (o : Option ℕ)
      → o ≡ some c
      → s.scheduling_enabled ≡ true
      → tick_of machine rsp s o ≡ tick_current machine rsp c s
  tick_of-on rsp c s none e on = absurd (cc)
  tick_of-on rsp c s (some b) e on =
      simp on (ap (λ k. tick_current machine rsp k s) (some-injective b c e))

  -- A tick with scheduling on, from the state behind the timer on.
  pub schedule_tick-after_timer :
      (rsp c : ℕ) (s : Os World)
      → c < max_processes
      → s.current ≡ some c
      → s.scheduling_enabled ≡ true
      → Ticked rsp c (tick_timer s) (schedule_tick machine rsp s)
  unfolding schedule_tick
  schedule_tick-after_timer rsp c s inside here on =
      subst (Ticked rsp c (tick_timer s)) (sym (tick_of-on rsp c (tick_timer s) s.current here on))
        (tick_current-Ticked rsp c (tick_timer s) inside)

  -- A tick with scheduling on first adds one to the 32-bit tick counter and makes each sleeper
  -- READY whose time has come, with all else as it was; then the turn of the current slot goes
  -- on if it can run and has time left, otherwise the next ready slot of the round gets the
  -- processor with a full quantum, or the current slot stays current if no slot is ready.
  pub schedule_tick-Ticked :
      (rsp c : ℕ) (s : Os World)
      → c < max_processes
      → s.current ≡ some c
      → s.scheduling_enabled ≡ true
      → (t : Os World) × Timed s t × Ticked rsp c t (schedule_tick machine rsp s)
  schedule_tick-Ticked rsp c s inside here on =
      (tick_timer s, tick_timer-Timed s, schedule_tick-after_timer rsp c s inside here on)
