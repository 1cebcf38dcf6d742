-- ===== src/Process/Dormant.antt =====
-- Whom the scheduler never runs, and two ways in which that keeps a process from going on.
use ao_os.Base.{
  ℕ, zero, suc, ◌+◌, ◌^◌, ◌<◌, ◌≡◌, refl, sym, subst, ◌∙◌, ap, ◌≢◌, inl, inr, Bool, true, ◌&&◌, not,
  some, some-injective, arith, ltb, ◌==◌, if◌then◌else◌, u32, Bool-cases, ==_ne,
}
use ao_os.Process.Services.{Machine}
use ao_os.Process.{
  ready, running, blocked, sleeping, is, Process, Processes, Os, max_processes, turn, saved,
  cannot_run, tick_timer, schedule_tick,
}
use ao_os.Process.Table.{woken, wake_sleepers_lem}
use ao_os.Process.Tick.{GoesOn, Switches, Alone, schedule_tick-after_timer}
use ao_os.Process.Inv.{saved_lem}
use ao_os.Process.Fair.{ticks, save_keeps, timer_keeps, distance}

-- No tick makes such a process ready: it is not in the run queue, nor asleep with a time to wake
-- that the 32-bit tick counter can show.
abbrev pub is_dormant : Process → Bool
is_dormant p =
    not (is p.state ready)
    && not (is p.state running)
    && not (is p.state sleeping && ltb p.wake_tick (2 ^ 32))

woken-dormant : (now : ℕ) (p : Process) → now < 2 ^ 32 → is_dormant p ≡ true → woken now p ≡ p
unfolding woken
woken-dormant now p small h = ground arith

timer_leaves :
    {W : Type 0} (s : Os W) (j : ℕ)
    → is_dormant (s.processes j) ≡ true
    → (tick_timer s).processes j ≡ s.processes j
timer_leaves s j h = ground (
  arith,
  wake_sleepers_lem (u32 (s.ticks + 1)) s.processes j,
  woken-dormant (u32 (s.ticks + 1)) (s.processes j) (omega arith) h,
)

demoted_dormant :
    (p : Process) → is_dormant p ≡ true → (if is p.state running then ready else p.state) ≡ p.state
demoted_dormant p h = ground arith

saved_dormant :
    (rsp c : ℕ) (ps : Processes) (j : ℕ) (p : Process)
    → ps j ≡ p
    → is_dormant p ≡ true
    → (saved rsp c ps j).state ≡ p.state
saved_dormant rsp c ps j p e h =
    rw (saved_lem rsp c ps j, e)
      (elim (Bool-cases (c == j)) [
        | inl same ↦ rw same (demoted_dormant p h)
        | inr other ↦ rw other refl
      ])

-- Slot `j` sleeps on while another slot is current.
pub record Passed {W : Type 0} (s : Os W) (p : Process) (j : ℕ) : Type 0 where
  pub slot : s.processes j ≡ p
  pub dormant : is_dormant p ≡ true
  pub on : s.scheduling_enabled ≡ true
  pub elsewhere : (c : ℕ) × (s.current ≡ some c) × (c < max_processes) × (c ≢ j)

module _ {W : Type 0} (rsp c j : ℕ) (p : Process) (s : Os W) (r : ℕ × Os W)
    (slot : s.processes j ≡ p) (dormant : is_dormant p ≡ true) (on : s.scheduling_enabled ≡ true)
    (here : s.current ≡ some c) (inside : c < max_processes) where
  timer_slot : (tick_timer s).processes j ≡ p
  timer_slot = timer_leaves s j (ap is_dormant slot ∙ dormant) ∙ slot

  not_ready : p.state ≢ ready
  not_ready e = cc (dormant, ap (λ st. is st ready) e)

  saved_state : (saved rsp c (tick_timer s).processes j).state ≡ p.state
  saved_state = elim (Bool-cases (c == j)) [
    | inr other ↦
        ap (λ q. q.state) (save_keeps rsp c (tick_timer s).processes j (ground arith) ∙ timer_slot)
    | inl same ↦ saved_dormant rsp c (tick_timer s).processes j p timer_slot dormant
  ]

  saved_slot : c ≢ j → saved rsp c (tick_timer s).processes j ≡ p
  saved_slot ne = save_keeps rsp c (tick_timer s).processes j (λ e. ne (sym e)) ∙ timer_slot

  goes_on-Passed : c ≢ j → GoesOn rsp c (tick_timer s) r → Passed r.1 p j
  goes_on-Passed ne g = record {
    slot = g.table j ∙ timer_slot;
    dormant = dormant;
    on = g.on ∙ on;
    elsewhere = (c, g.current ∙ here, inside, ne);
  }

  alone-Passed : c ≢ j → Alone rsp c (tick_timer s) r → Passed r.1 p j
  alone-Passed ne a = record {
    slot = a.table j ∙ saved_slot ne;
    dormant = dormant;
    on = a.on ∙ on;
    elsewhere = (c, a.current ∙ here, inside, ne);
  }

  -- The slot that is chosen was ready, so it is not the dormant one.
  Switches-elsewhere : (i : ℕ) → Switches rsp c (tick_timer s) r i → turn c i ≢ j
  Switches-elsewhere i w e = not_ready (
      sym saved_state
      ∙ subst (λ k. (saved rsp c (tick_timer s).processes k).state ≡ ready) e w.was_ready)

  Switches-Passed : c ≢ j → (i : ℕ) → Switches rsp c (tick_timer s) r i → Passed r.1 p j
  Switches-Passed ne i w = record {
    slot = rw (==_ne (turn c i) j (Switches-elsewhere i w)) at (w.table j) ∙ saved_slot ne;
    dormant = dormant;
    on = w.on ∙ on;
    elsewhere = (turn c i, w.current, omega arith, Switches-elsewhere i w);
  }

tick-Passed :
    (machine : Machine) (rsp j : ℕ) (p : Process) (s : Os machine.World)
    → Passed s p j
    → Passed (schedule_tick machine rsp s).1 p j
tick-Passed machine rsp j p s w =
    let (c, here, inside, ne) = w.elsewhere in
    let r = schedule_tick machine rsp s in
    elim (schedule_tick-after_timer machine rsp c s inside here w.on) [
      | inl g ↦ goes_on-Passed rsp c j p s r w.slot w.dormant w.on here inside ne g
      | inr (inl (i, sw)) ↦ Switches-Passed rsp c j p s r w.slot w.dormant w.on here inside ne i sw
      | inr (inr a) ↦ alone-Passed rsp c j p s r w.slot w.dormant w.on here inside ne a
    ]

-- With scheduling on, a process that is not current and is UNUSED, LOADING, BLOCKED or
-- TERMINATED, or sleeps until 2^32 or later, which the 32-bit tick counter never shows, keeps
-- its slot unchanged and is never run through any number of ticks.
pub dormant_stays :
    (machine : Machine) (rsps : ℕ → ℕ) (n j : ℕ) (p : Process) (s : Os machine.World)
    → Passed s p j
    → Passed (ticks machine rsps n s) p j
unfolding ticks
dormant_stays machine rsps zero j p s w = w
dormant_stays machine rsps (suc n) j p s w =
    dormant_stays machine (λ i. rsps (suc i)) n j p _ (tick-Passed machine (rsps 0) j p s w)

-- The current process of slot `c` is BLOCKED, and slot `k` is ready to run.
pub record BlockedNow {W : Type 0} (s : Os W) (c k : ℕ) : Type 0 where
  pub current : s.current ≡ some c
  pub on : s.scheduling_enabled ≡ true
  pub in_range : c < max_processes
  pub is_blocked : (s.processes c).state ≡ blocked
  pub rival : k < max_processes
  pub other : k ≢ c
  pub is_ready : (s.processes k).state ≡ ready

abbrev with_stack : ℕ → Process → Process
with_stack rsp p = record p { kernel_rsp = rsp }

module _ {W : Type 0} (rsp c k : ℕ) (s : Os W) (r : ℕ × Os W) (b : BlockedNow s c k) where
  open b use {current, on, in_range, is_blocked, rival, other, is_ready}

  dormant_now : is_dormant (s.processes c) ≡ true
  dormant_now =
      ap
        (λ st.
          not (is st ready)
          && not (is st running)
          && not (is st sleeping && ltb (s.processes c).wake_tick (2 ^ 32)))
        is_blocked

  timer_current : (tick_timer s).processes c ≡ s.processes c
  timer_current = timer_leaves s c dormant_now

  saved_current : saved rsp c (tick_timer s).processes c ≡ with_stack rsp (s.processes c)
  saved_current =
      rw (saved_lem rsp c (tick_timer s).processes c, timer_current, is_blocked) (ground arith)

  rival_ready : (saved rsp c (tick_timer s).processes k).state ≡ ready
  rival_ready =
      ap (λ p. p.state)
        (save_keeps rsp c (tick_timer s).processes k other
          ∙ timer_keeps s k (ap (λ st. is st sleeping) is_ready))
      ∙ is_ready

  reached : turn c (distance c k) ≡ k
  reached = omega (arith, in_range, rival)

  stuck : cannot_run ((tick_timer s).processes c).state ≡ true
  stuck = ap (λ p. cannot_run p.state) timer_current ∙ ap cannot_run is_blocked

  switched :
      (i : ℕ) → Switches rsp c (tick_timer s) r i → Passed r.1 (with_stack rsp (s.processes c)) c
  switched i w =
      let ne : turn c i ≢ c = λ e. cc (
        w.was_ready,
        ap (λ q. (saved rsp c (tick_timer s).processes q).state) e,
        ap (λ p. p.state) saved_current,
        is_blocked,
      ) in
      record {
        slot = rw (==_ne (turn c i) c ne) at (w.table c) ∙ saved_current;
        dormant = dormant_now;
        on = w.on ∙ on;
        elsewhere = (turn c i, w.current, omega arith, ne);
      }

  not_alone : ¬ (Alone rsp c (tick_timer s) r)
  not_alone a = a.none_ready (distance c k) (omega (arith, in_range, rival, other)) (omega arith) (
      subst (λ q. (saved rsp c (tick_timer s).processes q).state ≡ ready) (sym reached) rival_ready)

leaves_the_processor :
    (machine : Machine) (rsp c k : ℕ) (s : Os machine.World)
    → BlockedNow s c k
    → Passed (schedule_tick machine rsp s).1 (with_stack rsp (s.processes c)) c
leaves_the_processor machine rsp c k s b =
    let r = schedule_tick machine rsp s in
    elim (schedule_tick-after_timer machine rsp c s b.in_range b.current b.on) [
      | inl g ↦ absurd (cc (stuck rsp c k s r b, g.can_run))
      | inr (inl (i, w)) ↦ switched rsp c k s r b i w
      | inr (inr a) ↦ absurd (not_alone rsp c k s r b a)
    ]

-- A current process that is BLOCKED loses the processor at the next tick, if another slot is ready,
-- and the timer alone never gives it back: the slot stays BLOCKED and another one is current.
pub blocked_forever :
    (machine : Machine) (rsps : ℕ → ℕ) (n c k : ℕ) (s : Os machine.World)
    → BlockedNow s c k
    → let s' = ticks machine rsps (suc n) s in
      ((s'.processes c).state ≡ blocked) × (s'.current ≢ some c)
unfolding ticks
blocked_forever machine rsps n c k s b =
    let w =
      dormant_stays machine (λ i. rsps (suc i)) n c (with_stack (rsps 0) (s.processes c)) _
        (leaves_the_processor machine (rsps 0) c k s b) in
    (
      ap (λ p. p.state) w.slot ∙ b.is_blocked,
      λ e. w.elsewhere.3 (some-injective _ _ (sym w.elsewhere.1 ∙ e)),
    )
