-- ===== src/Process/Tests.antt =====
-- The process table on a small machine, and the theorems at concrete inputs.
use ao_os.Base.{
  ℕ, ◌+◌, ◌≤◌, ◌<◌, ◌≡◌, refl, sym, ◌∙◌, ◌≢◌, ◌⊎◌, true, false, none, some, [], arith, find_from,
  ◌*◌, update,
}
use ao_os.Process.Services.{Machine}
use ao_os.Process.{
  State, unused, ready, running, blocked, sleeping, terminated, is, Process, Os, process_get,
  schedule_tick,
}
use ao_os.Process.Inv.{IsValid}
use ao_os.Process.Tick.{Timed, Ticked, schedule_tick-Ticked}
use ao_os.Process.Fair.{ticks, Waits, ready_runs}
use ao_os.Process.Dormant.{Passed, dormant_stays}
use ao_os.Process.Lifecycle.{scheduler_start, process_exit, waitpid, waits, target_done}
use ao_os.Process.Create.{process_init, process_create}
use ao_os.Process.Creation.{Fills, IsFull, process_create_lem}
use ao_os.Process.Reach.{booted, then_step, tick, start, create, reach-IsValid}
use ao_os.Process.Waiting.{Exited, process_exit-Exited, Polled, waitpid-Polled, lost_wakeup}

-- Physical pages are handed out from 2 MB on; nothing else of the world is looked at.
record Small : Type 0 where
  cr3 : ℕ
  next_page : ℕ

abbrev small_machine : Machine
small_machine = record {
  World = Small;
  get_cr3 = λ w. w.cr3;
  kernel_cr3 = λ w. 4096;
  set_cr3 = λ cr3 w. record w { cr3 = cr3 };
  set_rsp0 = λ rsp w. w;
  nx_supported = λ w. true;
  create_address_space = λ w. (w.next_page, record w { next_page = w.next_page + 4096 });
  destroy_address_space = λ cr3 w. w;
  alloc_page = λ w. (w.next_page, record w { next_page = w.next_page + 4096 });
  free_page = λ page w. w;
  user_range_ok = λ cr3 virt size w. false;
  map_page_in = λ cr3 virt phys flags w. (true, w);
  get_physical_in = λ cr3 virt w. virt + 0x10_0000;
  copy_to = λ phys bytes w. w;
  zero_at = λ phys size w. w;
  put_context = λ slot context w. (context.rsp, w);
  stack_base = λ slot. 0x40000 + slot * 8192;
  close_process_fds = λ pid w. w;
}

abbrev blank : Process
blank = record {
  pid = 0;
  state = unused;
  name = [];
  kernel_rsp = 0;
  kernel_stack = 0;
  kernel_stack_top = 0;
  cr3 = 0;
  is_user = false;
  exit_code = 0;
  detached = false;
  wait_target = 0;
  wake_tick = 0;
  user_pages = λ i. 0;
  user_page_count = 0;
}

abbrev before : Os Small
before = record {
  processes = λ i. blank;
  current = none;
  next_pid = 1;
  scheduling_enabled = false;
  foreground_pid = 0;
  ticks_remaining = 5;
  ticks = 0;
  world = record { cr3 = 4096; next_page = 0x200000 };
}

abbrev at_boot : Os Small
at_boot = process_init small_machine 0x9000 before

abbrev two : Os Small
two = scheduler_start ((process_create small_machine [] 0x5000 false at_boot).1)

-- A process of the test table.
abbrev proc : (pid : ℕ) → State → (wait_target wake_tick : ℕ) → Process
proc pid st target until = record blank {
  pid = pid;
  state = st;
  wait_target = target;
  wake_tick = until;
}

-- Process 2 runs in slot 2; slots 0 and 1 and 3 are as given.
abbrev table : (p0 p1 p3 : Process) → State → Os Small
table p0 p1 p3 st = record before {
  processes = update (update (update (update (λ i. blank) 0 p0) 1 p1) 2 (proc 2 st 0 0)) 3 p3;
  current = some 2;
  next_pid = 4;
  scheduling_enabled = true;
}

abbrev ready_three : Os Small
ready_three = table (proc 0 ready 0 0) (proc 1 blocked 2 0) (proc 3 ready 0 0) running

schedule_tick-Ticked_example :
    (t : Os Small) × Timed ready_three t
    × Ticked 77 2 t (schedule_tick small_machine 77 ready_three)
schedule_tick-Ticked_example =
    schedule_tick-Ticked small_machine 77 2 ready_three (omega arith) refl refl

reach-IsValid_example : (c : ℕ) × IsValid (schedule_tick small_machine 7 two).1 c
unfolding process_init
reach-IsValid_example = reach-IsValid small_machine {boot = before} (
    then_step
      (then_step (then_step (booted 0x9000 refl refl) (create [] 0x5000 false (omega arith))) start)
      (tick 7))

process_create_lem_example :
    ((i : ℕ) × Fills false at_boot (process_create small_machine [] 0x5000 false at_boot) i)
    ⊎ IsFull at_boot (process_create small_machine [] 0x5000 false at_boot)
process_create_lem_example = process_create_lem small_machine [] 0x5000 false at_boot

process_exit-Exited_example : Exited 2 9 ready_three (process_exit 9 ready_three)
process_exit-Exited_example = process_exit-Exited ready_three 2 9 refl (omega arith) (omega arith)

abbrev late : Os Small
late = table (proc 0 ready 0 0) (proc 1 sleeping 0 0x1_0000_0000) (proc 3 ready 0 0) running

dormant_stays_example :
    Passed (ticks small_machine (λ i. i) 1000 late) (proc 1 sleeping 0 0x1_0000_0000) 1
dormant_stays_example =
    dormant_stays small_machine (λ i. i) 1000 1 (proc 1 sleeping 0 0x1_0000_0000) late
      (record {
        slot = refl;
        dormant = refl;
        on = refl;
        elsewhere = (2, refl, omega arith, omega arith);
      })

slot_pid :
    (p0 p1 p3 : Process)
    → p0.pid ≡ 0
    → p1.pid ≡ 1
    → p3.pid ≡ 3
    → (i : ℕ) → is ((table p0 p1 p3 running).processes i).state unused ≡ false
    → ((table p0 p1 p3 running).processes i).pid ≡ i
slot_pid p0 p1 p3 e0 e1 e3 i u = ground (arith, e0, e1, e3, u)

slot_below :
    (p0 p1 p3 : Process)
    → p0.pid ≡ 0
    → p1.pid ≡ 1
    → p3.pid ≡ 3
    → (i : ℕ) → ((table p0 p1 p3 running).processes i).pid < 4
slot_below p0 p1 p3 e0 e1 e3 i = ground (arith, e0, e1, e3)

-- Tables whose used slots are 0 to 3, with pid and slot the same, and whose slot 2 runs.
small_table :
    (p0 p1 p3 : Process)
    → p0.pid ≡ 0
    → p1.pid ≡ 1
    → p3.pid ≡ 3
    → is p0.state unused ≡ false
    → is p0.state running ≡ false
    → is p1.state running ≡ false
    → is p3.state running ≡ false
    → IsValid (table p0 p1 p3 running) 2
small_table p0 p1 p3 e0 e1 e3 u r0 r1 r3 = record {
  current = refl;
  in_range = omega arith;
  only_running = λ i b h. ground (arith, h, r0, r1, r3);
  time_left = (omega arith, omega arith);
  kernel_used = u;
  kernel_pid = e0;
  pids_below = λ i b h. slot_below p0 p1 p3 e0 e1 e3 i;
  pids_unique =
      λ i j b b' h h' e. sym (slot_pid p0 p1 p3 e0 e1 e3 i h) ∙ e ∙ slot_pid p0 p1 p3 e0 e1 e3 j h';
}

three-IsValid : IsValid ready_three 2
three-IsValid =
    small_table (proc 0 ready 0 0) (proc 1 blocked 2 0) (proc 3 ready 0 0) refl refl refl refl refl
      refl refl

abbrev ready_run : Waits ready_three 2 3
ready_run = record {
  valid = three-IsValid;
  on = refl;
  slot = omega arith;
  other = omega arith;
  is_ready = refl;
}

ready_runs_example :
    (n : ℕ) × (n ≤ 80) × ((ticks small_machine (λ i. 7) n ready_three).current ≡ some 3)
ready_runs_example = ready_runs small_machine 2 3 (λ i. 7) ready_three ready_run

-- Process 1 has ended when process 2 waits for it.
abbrev ended : Os Small
ended = table (proc 0 ready 0 0) (proc 1 terminated 0 0) (proc 3 ready 0 0) running

abbrev ended_wait : Os Small
ended_wait = record ended {
  processes =
      update ended.processes 2 (record (ended.processes 2) { wait_target = 1; state = blocked });
}

ended-IsValid : IsValid ended 2
ended-IsValid =
    small_table (proc 0 ready 0 0) (proc 1 terminated 0 0) (proc 3 ready 0 0) refl refl refl refl
      refl refl refl

found_one : process_get ended.processes 1 ≡ some 1
unfolding process_get find_from
found_one = refl

blocks_here : waitpid small_machine 1 false ended ≡ waits 1 ended_wait
unfolding waitpid process_get find_from
blocks_here = refl

lost_wakeup_example :
    let s'' = ticks small_machine (λ i. 7) 1000 ended_wait in
    ((s''.processes 2).state ≡ blocked) × (s''.current ≢ some 2) × (target_done 1 ended_wait ≡ true)
lost_wakeup_example =
    lost_wakeup small_machine ended ended_wait (λ i. 7) 999 2 3 1 1 refl (omega arith) refl refl
      (omega arith) (omega arith) (omega arith) refl blocks_here

waitpid-Polled_example : Polled small_machine 1 1 ended (waitpid small_machine 1 true ended)
waitpid-Polled_example =
    waitpid-Polled small_machine ended 2 1 1 ended-IsValid (omega arith) found_one
