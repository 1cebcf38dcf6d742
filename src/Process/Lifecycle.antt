-- ===== src/Process/Lifecycle.antt =====
-- The life of a process, kernel/process/process.c: creation, activation, exit, waiting, sleeping,
-- termination and reaping. A call that blocks is split where it waits: its start, the test of its
-- loop, and what it does after the loop.
use ao_os.Base.{
  ℕ, ◌+◌, ◌-◌, ◌*◌, Bool, true, false, ◌&&◌, ◌||◌, Option, none, some, ◌==◌, if◌then◌else◌, update,
  for_from, u64,
}
use ao_os.Process.Services.{Machine}
use ao_os.Process.{
  State, unused, loading, ready, running, blocked, sleeping, terminated, is, Process, Processes, Os,
  max_processes, process_get, set_state,
}
use ao_os.Process.UserMemory.{set_slot, process_cleanup}

abbrev pub user_stack_base : ℕ
user_stack_base = 0x800000

abbrev pub user_stack_pages : ℕ
user_stack_pages = 4

abbrev pub user_stack_top : ℕ
user_stack_top = user_stack_base + user_stack_pages * 4096

abbrev pub user_api_base : ℕ
user_api_base = 0x90000

abbrev pub user_argv_base : ℕ
user_argv_base = 0x91000

abbrev pub kernel_stack_size : ℕ
kernel_stack_size = 8192

unfoldable pub set_foreground : {W : Type 0} → ℕ → Os W → Os W
set_foreground pid s = record s { foreground_pid = pid }

is_foreground : {W : Type 0} → ℕ → Os W → Bool
is_foreground pid s = s.foreground_pid == pid

unfoldable pub scheduler_start : {W : Type 0} → Os W → Os W
scheduler_start s = record s { scheduling_enabled = true }

-- The change of a slot that frees it.
abbrev pub freed : Process → Process
freed p = record p { state = unused; pid = 0 }

abbrev pub with_state : Process → State → Process
with_state p st = record p { state = st }

-- What follows the lookup of the process.
abbrev pub activate_slot : {W : Type 0} → Os W → Option ℕ → Os W
activate_slot s none = s
activate_slot s (some i) =
    if is (s.processes i).state loading then set_slot s i (with_state (s.processes i) ready) else s

unfoldable pub process_activate : {W : Type 0} → ℕ → Os W → Os W
process_activate pid s = activate_slot s (process_get s.processes pid)

abbrev pub detach_slot : {W : Type 0} → Os W → Option ℕ → Os W
detach_slot s none = s
detach_slot s (some i) =
    if (s.processes i).pid == 0
    then s
    else set_slot s i (record (s.processes i) { detached = true })

unfoldable pub process_detach : {W : Type 0} → ℕ → Os W → Os W
process_detach pid s = detach_slot s (process_get s.processes pid)

-- The bodies of the loops that wake the waiting processes, in `process_exit` and in
-- `process_terminate`.
abbrev pub wake_waiter : ℕ → Process → Process
wake_waiter pid p =
    if is p.state blocked && (p.wait_target == 0 || p.wait_target == pid)
    then record p { state = ready; wait_target = 0 }
    else p

abbrev pub wake_blocked : Process → Process
wake_blocked p = if is p.state blocked then record p { state = ready } else p

abbrev pub each : (Process → Process) → ℕ → Processes → Processes
each f i ps = update ps i (f (ps i))

unfoldable pub each_slot : (Process → Process) → Processes → Processes
each_slot f ps = for_from (each f) 0 max_processes ps

-- `process_exit` up to its final loop, which only waits for the scheduler.
abbrev pub exit_slot : {W : Type 0} → ℕ → Os W → Option ℕ → Os W
exit_slot code s none = s
exit_slot code s (some c) =
    let p = s.processes c in
    let ended = update s.processes c (record p { state = terminated; exit_code = code }) in
    if p.pid == 0 then s else record s { processes = each_slot (wake_waiter p.pid) ended }

unfoldable pub process_exit : {W : Type 0} → ℕ → Os W → Os W
process_exit code s = exit_slot code s s.current

abbrev pub terminate_slot : {W : Type 0} → Os W → Option ℕ → Os W
terminate_slot s none = s
terminate_slot s (some i) =
    if (s.processes i).pid == 0
    then s
    else record s { processes = each_slot wake_blocked (set_state s.processes i terminated) }

unfoldable pub process_terminate : {W : Type 0} → ℕ → Os W → Os W
process_terminate pid s = terminate_slot s (process_get s.processes pid)

-- `process_sleep_ticks` up to its loop.
abbrev pub sleep_slot : {W : Type 0} → ℕ → Os W → Option ℕ → Os W
sleep_slot n s none = s
sleep_slot n s (some c) =
    let p = s.processes c in
    if p.pid == 0 || n == 0
    then s
    else set_slot s c (record p { wake_tick = u64 (s.ticks + n); state = sleeping })

unfoldable pub process_sleep_ticks : {W : Type 0} → ℕ → Os W → Os W
process_sleep_ticks n s = sleep_slot n s s.current

-- The results of `process_waitpid`: -1; 0, when WNOHANG finds the process alive; the exit code,
-- which also goes through `status`.
pub data Waited : Type 0 where
  failed : Waited
  alive : Waited
  collected : (exit_code : ℕ) → Waited

-- How far the call gets at once: to its end, or into the waiting loop for the target's slot.
pub data Progress (W : Type 0) : Type 0 where
  returns : Waited → Os W → Progress W
  waits : (target : ℕ) → Os W → Progress W

abbrev pub block_on : {W : Type 0} → ℕ → Os W → Option ℕ → Os W
block_on pid s none = s
block_on pid s (some c) =
    set_slot s c (record (s.processes c) { wait_target = pid; state = blocked })

-- The loop of `process_waitpid` ends.
abbrev pub target_done : {W : Type 0} → ℕ → Os W → Bool
target_done t s = is (s.processes t).state terminated || is (s.processes t).state unused

abbrev pub unblock : {W : Type 0} → Os W → Option ℕ → Os W
unblock s none = s
unblock s (some c) = set_slot s c (record (s.processes c) { state = running; wait_target = 0 })

module _ (machine : Machine) where
  open machine use {World, get_cr3, create_address_space, nx_supported, put_context, stack_base}

  -- The end of `process_waitpid`: the target is collected and its slot is free.
  unfoldable pub collect : ℕ → Os World → Waited × Os World
  collect t s =
      let code = (s.processes t).exit_code in
      let s' = process_cleanup machine t s in
      if is (s.processes t).state unused
      then (failed, s)
      else (collected code, set_slot s' t (freed (s'.processes t)))

  abbrev pub returned : Waited × Os World → Progress World
  returned (r, s) = returns r s

  abbrev pub wait_for : (pid : ℕ) (no_hang : Bool) → Os World → Option ℕ → Progress World
  wait_for pid no_hang s none = returns failed s
  wait_for pid no_hang s (some t) =
      if pid == 0
      then returns failed s
      else if no_hang
      then (if is (s.processes t).state terminated then returned (collect t s) else returns alive s)
      else waits t (block_on pid s s.current)

  -- `no_hang` is `options & 1`.
  unfoldable pub waitpid : (pid : ℕ) (no_hang : Bool) → Os World → Progress World
  waitpid pid no_hang s = wait_for pid no_hang s (process_get s.processes pid)

  -- What follows the waiting loop.
  unfoldable pub waitpid_finish : (target : ℕ) → Os World → Waited × Os World
  waitpid_finish t s = collect t (unblock s s.current)

  abbrev pub reap : ℕ → ℕ × Os World → ℕ × Os World
  reap i (n, s) =
      let p = s.processes i in
      let s' = process_cleanup machine i s in
      if is p.state terminated && p.detached
      then (n + 1, set_slot s' i (record (freed (s'.processes i)) { detached = false }))
      else (n, s)

  unfoldable pub process_reap_terminated : Os World → ℕ × Os World
  process_reap_terminated s = for_from reap 1 (max_processes - 1) (0, s)
