-- ===== src/Process/Create.antt =====
-- `process_init` and `process_create` of kernel/process/process.c.
use ao_os.Base.{
  ℕ, ◌+◌, ◌-◌, ◌*◌, Bool, true, false, Option, none, some, List, [], ◌∷◌, ◌==◌, if◌then◌else◌,
  update, find_from, for_from, u64, bit_or, take,
}
use ao_os.Process.Services.{Machine, Context}
use ao_os.Process.{
  State, unused, loading, ready, running, is, Process, Processes, Os, max_processes,
}
use ao_os.Process.UserMemory.{
  set_slot, page_size, pte_writable, pte_nx, process_cleanup, map_user_page,
}
use ao_os.Process.Lifecycle.{
  freed, with_state, user_stack_base, user_stack_top, user_api_base, user_argv_base,
  kernel_stack_size,
}

-- SEL_USER_CS, SEL_USER_DS, SEL_KERNEL_CS and SEL_KERNEL_DS.
abbrev pub user_context : ℕ → Context
user_context entry = record {
  rip = entry;
  cs = 0x33;
  rflags = 0x202;
  rsp = user_stack_top;
  ss = 0x2b;
}

abbrev pub kernel_context : (entry stack_top : ℕ) → Context
kernel_context entry stack_top = record {
  rip = entry;
  cs = 0x08;
  rflags = 0x202;
  rsp = stack_top;
  ss = 0x10;
}

-- The stack pages, and the pages of the API and of the arguments.
abbrev pub user_pages_of : List ℕ
user_pages_of =
    user_stack_base
    ∷ (user_stack_base + page_size)
    ∷ (user_stack_base + 2 * page_size)
    ∷ (user_stack_base + 3 * page_size)
    ∷ user_api_base
    ∷ user_argv_base
    ∷ []

abbrev pub all_unused : Processes → Processes
all_unused ps = for_from (λ i qs. update qs i (freed (qs i))) 0 max_processes ps

-- "kernel"
abbrev pub kernel_name : List ℕ
kernel_name = 107 ∷ 101 ∷ 114 ∷ 110 ∷ 101 ∷ 108 ∷ []

unfoldable pub free_slot : Processes → Option ℕ
free_slot ps = find_from (λ i. is (ps i).state unused) 1 (max_processes - 1)

module _ (machine : Machine) where
  open machine use {World, get_cr3, create_address_space, nx_supported, put_context, stack_base}

  abbrev pub kernel_process : (stack_top : ℕ) → World → Process → Process
  kernel_process stack_top w p = record p {
    pid = 0;
    state = running;
    name = kernel_name;
    is_user = false;
    kernel_stack = 0;
    kernel_stack_top = stack_top;
    kernel_rsp = 0;
    cr3 = get_cr3 w;
    exit_code = 0;
    detached = false;
    wait_target = 0;
    wake_tick = 0;
    user_page_count = 0;
  }

  -- `stack_top` is the boot stack of boot.asm.
  unfoldable pub process_init : (stack_top : ℕ) → Os World → Os World
  process_init stack_top s =
      let ps = all_unused s.processes in
      record s {
        processes = update ps 0 (kernel_process stack_top s.world (ps 0));
        current = some 0;
      }

  -- The pages are mapped one after the other, up to the first failure.
  unfoldable pub map_pages : ℕ → (flags : ℕ) → List ℕ → Os World → Bool × Os World
  map_pages i flags [] s = (true, s)
  map_pages i flags (addr ∷ addrs) s =
      let (done, s') = map_user_page machine i addr flags s in
      let rest = map_pages i flags addrs s' in if done then rest else (false, s')

  abbrev pub data_flags : World → ℕ
  data_flags w = bit_or pte_writable (if nx_supported w then pte_nx else 0)

  -- Slot `i` with its name, number and address space. A `cr3` of 0 means that none was made.
  abbrev pub named : (i : ℕ) (name : List ℕ) (is_user : Bool) → Os World → ℕ × World → Os World
  named i name is_user s (cr3, w) = record s {
    processes = update s.processes i (record (s.processes i) {
      pid = s.next_pid;
      name = take 31 name;
      is_user = is_user;
      cr3 = cr3;
    });
    next_pid = u64 (s.next_pid + 1);
    world = w;
  }

  -- The rest of the fields, and the first context on the kernel stack.
  abbrev pub ready_stack : (i entry : ℕ) (is_user : Bool) → Os World → ℕ × Os World
  ready_stack i entry is_user s =
      let top = stack_base i + kernel_stack_size in
      let (rsp, w) =
        put_context i (if is_user then user_context entry else kernel_context entry top) s.world in
      (
        rsp,
        record s {
          processes = update s.processes i (record (s.processes i) {
            exit_code = 0;
            detached = false;
            wait_target = 0;
            wake_tick = 0;
            user_page_count = 0;
            kernel_stack = stack_base i;
            kernel_stack_top = top;
          });
          world = w;
        },
      )

  -- The slot is given back when a page is missing.
  abbrev pub give_up : ℕ → Os World → Os World
  give_up i s =
      let s' = process_cleanup machine i s in set_slot s' i (with_state (s'.processes i) unused)

  abbrev pub complete : (i rsp : ℕ) → State → Os World → Os World
  complete i rsp st s = set_slot s i (record (s.processes i) { kernel_rsp = rsp; state = st })

  abbrev pub mapped : (i rsp : ℕ) → Bool × Os World → Option ℕ × Os World
  mapped i rsp (true, s) = (some i, complete i rsp loading s)
  mapped i rsp (false, s) = (none, give_up i s)

  abbrev pub set_up : (i entry : ℕ) (is_user : Bool) → Os World → Option ℕ × Os World
  set_up i entry is_user s =
      let (rsp, s') = ready_stack i entry is_user s in
      if (s.processes i).cr3 == 0
      then (none, s)
      else if is_user
      then mapped i rsp (map_pages i (data_flags s'.world) user_pages_of s')
      else (some i, complete i rsp ready s')

  abbrev pub create_in :
      (name : List ℕ) (entry : ℕ) (is_user : Bool) → Os World → Option ℕ → Option ℕ × Os World
  create_in name entry is_user s none = (none, s)
  create_in name entry is_user s (some i) =
      let space : ℕ × World =
        (if is_user then create_address_space s.world else (get_cr3 s.world, s.world)) in
      set_up i entry is_user (named i name is_user s space)

  -- `none` is the null pointer.
  unfoldable pub process_create :
      (name : List ℕ) (entry : ℕ) (is_user : Bool) → Os World → Option ℕ × Os World
  process_create name entry is_user s = create_in name entry is_user s (free_slot s.processes)
