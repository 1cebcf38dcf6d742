-- ===== src/Process/Fair.antt =====
-- The round robin starves nobody: a slot that is ready gets the processor within a bound of ticks.
use ao_os.Base.{
  ℕ, zero, suc, ◌+◌, ◌-◌, ◌*◌, ◌%◌, ◌≤◌, ◌<◌, ◌≡◌, sym, subst, ◌∙◌, ap, ◌≢◌, ◌⊎◌, inl, inr, true,
  false, some, arith, ltb, ◌==◌, u32, Bool-cases,
}
use ao_os.Process.Services.{Machine}
use ao_os.Process.{
  ready, sleeping, is, Processes, Os, max_processes, time_quantum, turn, saved, tick_timer,
  schedule_tick,
}
use ao_os.Process.Table.{woken, wake_sleepers_lem}
use ao_os.Process.Tick.{GoesOn, Switches, Alone, schedule_tick-after_timer}
use ao_os.Process.Inv.{IsValid, saved_lem, GoesOn-IsValid, Switches-IsValid}

-- A run of the timer interrupt: the stack pointers of the interrupted code are `rsps 0`, `rsps 1`, …
unfoldable pub ticks : (machine : Machine) → (ℕ → ℕ) → ℕ → Os machine.World → Os machine.World
ticks machine rsps zero s = s
ticks machine rsps (suc n) s =
    ticks machine (λ i. rsps (suc i)) n (schedule_tick machine (rsps 0) s).1

-- A slot that is neither asleep nor chosen keeps its state through a tick.
pub timer_keeps :
    {W : Type 0} (s : Os W) (k : ℕ)
    → is (s.processes k).state sleeping ≡ false
    → (tick_timer s).processes k ≡ s.processes k
unfolding woken
timer_keeps s k awake = ground (arith, wake_sleepers_lem (u32 (s.ticks + 1)) s.processes k)

pub save_keeps : (rsp c : ℕ) (ps : Processes) (k : ℕ) → k ≢ c → saved rsp c ps k ≡ ps k
save_keeps rsp c ps k ne = ground (arith, saved_lem rsp c ps k)

-- How far slot `k` stands behind slot `c` in the round.
abbrev pub distance : ℕ → ℕ → ℕ
distance c k = (k + max_processes - c) % max_processes

-- An upper bound of the ticks until slot `k` is chosen.
abbrev pub patience : {W : Type 0} → Os W → ℕ → ℕ → ℕ
patience s c k = distance c k * time_quantum + s.ticks_remaining

-- Slot `k` waits for its turn while slot `c` has the processor.
pub record Waits {W : Type 0} (s : Os W) (c k : ℕ) : Type 0 where
  pub valid : IsValid s c
  pub on : s.scheduling_enabled ≡ true
  pub slot : k < max_processes
  pub other : k ≢ c
  pub is_ready : (s.processes k).state ≡ ready

module _ {W : Type 0} (rsp c k : ℕ) (s : Os W) (w : Waits s c k) where
  open w use {valid, on, slot, other, is_ready}

  abbrev Later : ℕ × Os W → Type 0
  Later r =
      (r.1.current ≡ some k) ⊎ ((c' : ℕ) × Waits r.1 c' k × (patience r.1 c' k < patience s c k))

  timer_slot : (tick_timer s).processes k ≡ s.processes k
  timer_slot = timer_keeps s k (ap (λ st. is st sleeping) is_ready)

  saved_slot : saved rsp c (tick_timer s).processes k ≡ s.processes k
  saved_slot = save_keeps rsp c (tick_timer s).processes k other ∙ timer_slot

  saved_ready : (saved rsp c (tick_timer s).processes k).state ≡ ready
  saved_ready = ap (λ p. p.state) saved_slot ∙ is_ready

  reached : turn c (distance c k) ≡ k
  reached = omega (arith, valid.in_range, slot)

  goes_on-Later : (r : ℕ × Os W) → GoesOn rsp c (tick_timer s) r → Later r
  goes_on-Later r g = inr (
    c,
    record {
      valid = GoesOn-IsValid s c valid rsp r g;
      on = g.on ∙ on;
      slot = slot;
      other = other;
      is_ready = ap (λ p. p.state) (g.table k ∙ timer_slot) ∙ is_ready;
    },
    omega (arith, g.counted),
  )

  -- The search stops at the latest at slot `k`.
  closer :
      (r : ℕ × Os W) (i : ℕ) → Switches rsp c (tick_timer s) r i → turn c i ≢ k → i < distance c k
  closer r i w away = elim (Bool-cases (ltb i (distance c k))) [
    | inl t ↦ ground arith
    | inr f ↦ elim (Bool-cases (i == distance c k)) [
      | inl same ↦
          absurd (away (ap (turn c) (let e : i ≡ distance c k = ground arith in e) ∙ reached))
      | inr differs ↦ absurd (
          w.passed_over (distance c k) (omega (arith, valid.in_range, slot, other)) (ground arith) (
            subst (λ j. (saved rsp c (tick_timer s).processes j).state ≡ ready) (sym reached)
              saved_ready))
    ]
  ]

  Switches-Later : (r : ℕ × Os W) (i : ℕ) → Switches rsp c (tick_timer s) r i → Later r
  Switches-Later r i w = elim (Bool-cases (turn c i == k)) [
    | inl here ↦ inl (w.current ∙ ap some (ground arith))
    | inr away ↦
        let near : i < distance c k = closer r i w (ground arith) in
        inr (
          turn c i,
          record {
            valid = Switches-IsValid s c valid rsp r i w;
            on = w.on ∙ on;
            slot = slot;
            other = λ e. ground arith;
            is_ready = ap (λ p. p.state) (rw away at (w.table k)) ∙ saved_ready;
          },
          omega (arith, valid.in_range, slot, w.from, w.time_left, valid.time_left),
        )
  ]

  alone-Later : (r : ℕ × Os W) → Alone rsp c (tick_timer s) r → Later r
  alone-Later r a = absurd (
      a.none_ready (distance c k) (omega (arith, valid.in_range, slot, other)) (omega arith) (
        subst (λ j. (saved rsp c (tick_timer s).processes j).state ≡ ready) (sym reached)
          saved_ready))

next_tick :
    (machine : Machine) (rsp c k : ℕ) (s : Os machine.World) (w : Waits s c k)
    → Later rsp c k s w (schedule_tick machine rsp s)
next_tick machine rsp c k s w =
    let r = schedule_tick machine rsp s in
    elim (schedule_tick-after_timer machine rsp c s w.valid.in_range w.valid.current w.on) [
      | inl g ↦ goes_on-Later rsp c k s w r g
      | inr (inl (i, sw)) ↦ Switches-Later rsp c k s w r i sw
      | inr (inr a) ↦ alone-Later rsp c k s w r a
    ]

runs_within :
    (machine : Machine) (fuel c k : ℕ) (rsps : ℕ → ℕ) (s : Os machine.World)
    → Waits s c k
    → patience s c k ≤ fuel
    → (n : ℕ) × (n ≤ fuel) × ((ticks machine rsps n s).current ≡ some k)
unfolding ticks
runs_within machine zero c k rsps s w small = absurd (omega (arith, w.valid.time_left))
runs_within machine (suc fuel) c k rsps s w small = elim (next_tick machine (rsps 0) c k s w) [
  | inl now ↦ (1, omega arith, now)
  | inr (c', w', less) ↦
      let (n, bound, later) =
        runs_within machine fuel c' k (λ i. rsps (suc i)) _ w' (omega arith) in
      (suc n, omega arith, later)
]

-- No starvation: in a valid state with scheduling on, a slot that is ready and not current
-- becomes the current one within 80 ticks, if only the timer acts on the table until then.
pub ready_runs :
    (machine : Machine) (c k : ℕ) (rsps : ℕ → ℕ) (s : Os machine.World)
    → Waits s c k
    → (n : ℕ) × (n ≤ 80) × ((ticks machine rsps n s).current ≡ some k)
ready_runs machine c k rsps s w =
    runs_within machine 80 c k rsps s w
      (omega (arith, w.valid.time_left, w.valid.in_range, w.slot, w.other))
