-- ===== src/Process.antt =====
-- The process table and the scheduler, kernel/process/process.c. This file holds the data, the
-- lookups and the scheduler; `Lifecycle` creates, ends and reaps processes and `UserMemory` fills
-- their address spaces. A pointer into the table is the index of its slot.
pub mod Services
pub mod Table
pub mod Tick
pub mod Inv
pub mod Fair
pub mod Dormant
pub mod UserMemory
pub mod Lifecycle
pub mod Create
pub mod Slots
pub mod Calls
pub mod Fresh
pub mod Outcomes
pub mod Creation
pub mod Reach
pub mod Waiting
pub mod Writing
mod Tests
use ao_os.Base.{
  ℕ, zero, suc, ◌+◌, ◌-◌, ◌*◌, ◌%◌, ◌/◌, ◌^◌, ◌≡◌, Bool, true, false, ◌&&◌, ◌||◌, not, Option, none,
  some, List, [], ltb, leb, ◌==◌, if◌then◌else◌, update, find_from, for_from, u32,
}
use Services.{Machine}

abbrev pub max_processes : ℕ
max_processes = 16

abbrev pub time_quantum : ℕ
time_quantum = 5

-- `process_state_t`
pub data State : Type 0 where
  unused loading ready running blocked sleeping terminated : State

abbrev pub is : State → State → Bool
is unused unused = true
is loading loading = true
is ready ready = true
is running running = true
is blocked blocked = true
is sleeping sleeping = true
is terminated terminated = true
is _ _ = false

-- `process_t`
pub record Process : Type 0 where
  pub pid : ℕ
  pub state : State
  pub name : List ℕ
  pub kernel_rsp : ℕ
  pub kernel_stack : ℕ
  pub kernel_stack_top : ℕ
  pub cr3 : ℕ
  pub is_user : Bool
  pub exit_code : ℕ
  pub detached : Bool
  pub wait_target : ℕ
  pub wake_tick : ℕ
  pub user_pages : ℕ → ℕ
  pub user_page_count : ℕ

abbrev pub Processes : Type 0
Processes = ℕ → Process

-- The static variables, the tick counter of timer.c, and the world that process.c acts on.
-- `current` is `none` until `process_init` has run.
pub record Os (W : Type 0) : Type 0 where
  pub processes : Processes
  pub current : Option ℕ
  pub next_pid : ℕ
  pub scheduling_enabled : Bool
  pub foreground_pid : ℕ
  pub ticks_remaining : ℕ
  pub ticks : ℕ
  pub world : W

abbrev pub set_state : Processes → ℕ → State → Processes
set_state ps i s = update ps i (record (ps i) { state = s })

pub process_get : Processes → ℕ → Option ℕ
process_get ps pid =
    find_from (λ i. not (is (ps i).state unused) && ((ps i).pid == pid)) 0 max_processes

process_is_running : Processes → ℕ → Bool
process_is_running ps pid = elim (process_get ps pid) [
  | none ↦ false
  | some i ↦ is (ps i).state running || is (ps i).state ready
]

-- The body of the loop of `wake_sleepers`.
pub wake_sleeper : ℕ → ℕ → Processes → Processes
wake_sleeper now i ps =
    if is (ps i).state sleeping && leb (ps i).wake_tick now
    then update ps i (record (ps i) { wake_tick = 0; state = ready })
    else ps

pub wake_sleepers : ℕ → Processes → Processes
wake_sleepers now ps = for_from (wake_sleeper now) 1 (max_processes - 1) ps

-- A process in one of these states cannot go on.
abbrev pub cannot_run : State → Bool
cannot_run s = is s terminated || is s blocked || is s sleeping

-- The round-robin search: the slots behind `start`, and at last `start` itself.
abbrev pub turn : ℕ → ℕ → ℕ
turn start i = (start + i) % max_processes

pub next_ready : Processes → ℕ → Option ℕ
next_ready ps start = find_from (λ i. is (ps (turn start i)).state ready) 1 max_processes

-- `PTE_ADDR_MASK` leaves the page-aligned bits 12 to 51.
abbrev pub addr_bits : ℕ → ℕ
addr_bits x = x / 4096 % 2 ^ 40

-- The current process saves its stack pointer; it may be chosen again.
pub saved : ℕ → ℕ → Processes → Processes
saved rsp c ps = update ps c (record (ps c) {
  kernel_rsp = rsp;
  state = (if is (ps c).state running then ready else (ps c).state);
})

abbrev pub count_down : ℕ → ℕ
count_down t = if ltb 0 t then t - 1 else t

-- `timer_tick` and `wake_sleepers`, which run at every tick.
abbrev pub tick_timer : {W : Type 0} → Os W → Os W
tick_timer s =
    let now = u32 (s.ticks + 1) in
    record s { ticks = now; processes = wake_sleepers now s.processes }

module _ (machine : Machine) where
  open machine use {World, get_cr3, set_cr3, set_rsp0}

  abbrev pub load_cr3 : ℕ → World → World
  load_cr3 cr3 w = if addr_bits (get_cr3 w) == addr_bits cr3 then w else set_cr3 cr3 w

  -- The switch to slot `n`.
  abbrev pub switch_to : ℕ → Os World → ℕ × Os World
  switch_to n s =
      let p = s.processes n in
      (
        p.kernel_rsp,
        record s {
          processes = set_state s.processes n running;
          current = some n;
          ticks_remaining = time_quantum;
          world = load_cr3 p.cr3 (set_rsp0 p.kernel_stack_top s.world);
        },
      )

  abbrev pub resume : ℕ → ℕ → Os World → ℕ × Os World
  resume rsp c s = (
    rsp,
    record s {
      processes =
          (if is (s.processes c).state ready then set_state s.processes c running else s.processes);
    },
  )

  abbrev pub choose : ℕ → ℕ → Os World → Option ℕ → ℕ × Os World
  choose rsp c s none = resume rsp c s
  choose rsp c s (some i) = switch_to (turn c i) s

  -- The part of `schedule_tick` behind the test of `need_switch`.
  pub switch : ℕ → ℕ → Os World → ℕ × Os World
  switch rsp c s =
      let s' : Os World = record s { processes = saved rsp c s.processes } in
      choose rsp c s' (next_ready s'.processes c)

  pub tick_current : ℕ → ℕ → Os World → ℕ × Os World
  tick_current rsp c s =
      if cannot_run (s.processes c).state
      then switch rsp c s
      else if count_down s.ticks_remaining == 0
      then switch rsp c (record s { ticks_remaining = time_quantum })
      else (rsp, record s { ticks_remaining = count_down s.ticks_remaining })

  abbrev pub tick_of : ℕ → Os World → Option ℕ → ℕ × Os World
  tick_of rsp s none = (rsp, s)
  tick_of rsp s (some c) = if s.scheduling_enabled then tick_current rsp c s else (rsp, s)

  -- The result is the stack pointer to go on with.
  pub schedule_tick : ℕ → Os World → ℕ × Os World
  schedule_tick rsp s = let s' : Os World = tick_timer s in tick_of rsp s' s'.current
