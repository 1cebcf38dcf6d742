-- ===== src/Process/Creation.antt =====
-- `process_create` and `process_init` as a whole.
use ao_os.Base.{
  ℕ, ◌+◌, ◌-◌, ◌^◌, ◌≤◌, ◌<◌, ◌≡◌, refl, sym, subst, ◌∙◌, ap, ◌≢◌, ◌⊎◌, inl, inr, Bool, true, false,
  Option, none, some, List, arith, ◌==◌, if◌then◌else◌, update, u64, Bool-cases, FoundAt,
  find_from-FoundAt, find_from-none, update_self, update_ne, for_from_inv,
}
use ao_os.Process.Services.{Machine}
use ao_os.Process.{State, unused, running, is, Process, Processes, Os, max_processes, time_quantum}
use ao_os.Process.Table.{is_iff}
use ao_os.Process.Inv.{IsValid}
use ao_os.Process.Lifecycle.{freed}
use ao_os.Process.Create.{
  process_create, free_slot, create_in, named, process_init, all_unused, kernel_process,
}
use ao_os.Process.Outcomes.{Outcome, user_created, kernel_created, refused, set_up-Made}
use ao_os.Process.Slots.{update_elim}

-- The call took slot `i` for a process with the next number and left every other slot alone; the
-- process waits to be loaded (a user process) or for its turn (a kernel thread), or the slot is free
-- again and the call returned the null pointer.
pub record Fills {W : Type 0} (is_user : Bool) (s : Os W) (r : Option ℕ × Os W) (i : ℕ)
    : Type 0 where
  pub in_range : (1 ≤ i) × (i < max_processes)
  pub was_free : (s.processes i).state ≡ unused
  pub current : r.1.current ≡ s.current
  pub counter : r.1.next_pid ≡ u64 (s.next_pid + 1)
  pub time : r.1.ticks_remaining ≡ s.ticks_remaining
  pub pid : (r.1.processes i).pid ≡ s.next_pid
  pub others : (j : ℕ) → i ≢ j → r.1.processes j ≡ s.processes j
  pub outcome : Outcome i is_user r.0 (r.1.processes i).state

-- No slot was free, and nothing happened.
pub record IsFull {W : Type 0} (s : Os W) (r : Option ℕ × Os W) : Type 0 where
  pub result : r ≡ (none, s)
  pub in_use : (j : ℕ) → 1 ≤ j → j < max_processes → is (s.processes j).state unused ≡ false

module _ (machine : Machine) (name : List ℕ) (entry : ℕ) (is_user : Bool) where
  open machine use {World, create_address_space, get_cr3}

  space : Os World → ℕ × World
  space s = if is_user then create_address_space s.world else (get_cr3 s.world, s.world)

  create_in-Fills :
      (s : Os World) (o : Option ℕ)
      → free_slot s.processes ≡ o
      → ((i : ℕ) × Fills is_user s (create_in machine name entry is_user s o) i)
        ⊎ IsFull s (create_in machine name entry is_user s o)
  unfolding free_slot space
  create_in-Fills s none e = inr (record {
    result = refl;
    in_use =
        λ j a b. find_from-none (λ i. is (s.processes i).state unused) _ _ e j a (omega (arith, b));
  })
  create_in-Fills s (some i) e =
      let f : FoundAt (λ i. is (s.processes i).state unused) 1 (max_processes - 1) i =
        find_from-FoundAt _ _ _ i e in
      let free : (s.processes i).state ≡ unused = is_iff _ _ f.holds in
      let s' : Os World = named machine i name is_user s (space s) in
      let q : Process = s'.processes i in
      let made =
        set_up-Made machine i entry is_user s'
          (update_elim (λ p. p.state ≡ unused) s.processes i i _ (λ _. free) free) in
      let sets = made.sets in
      inl (
        i,
        record {
          in_range = (omega (arith, f.from), omega (arith, f.below));
          was_free = free;
          current = sets.current;
          counter = sets.counter;
          time = sets.time;
          pid = sets.pid ∙ ap (λ p. p.pid) (update_self s.processes i _);
          others = λ j n. sets.others j n ∙ update_ne s.processes i j _ n;
          outcome = made.outcome;
        },
      )

  -- process_create takes a free slot other than 0, gives it the next process number and leaves
  -- every other slot alone: the process is then LOADING (a user process) or READY (a kernel
  -- thread), or the slot is free again and the result is the null pointer; or it finds no free
  -- slot, changes nothing and returns the null pointer.
  pub process_create_lem :
      (s : Os World)
      → ((i : ℕ) × Fills is_user s (process_create machine name entry is_user s) i)
        ⊎ IsFull s (process_create machine name entry is_user s)
  unfolding process_create
  process_create_lem s = create_in-Fills s _ refl

Outcome-idle :
    (i : ℕ) (is_user : Bool) (o : Option ℕ) (st : State)
    → Outcome i is_user o st
    → is st running ≡ false
Outcome-idle i is_user _ _ (user_created e) = refl
Outcome-idle i is_user _ _ (kernel_created e) = refl
Outcome-idle i is_user _ _ refused = refl

module _ {W : Type 0} (is_user : Bool) (s : Os W) (r : Option ℕ × Os W) (i c : ℕ) (v : IsValid s c)
    (small : s.next_pid + 1 < 2 ^ 64) (f : Fills is_user s r i) where
  here : (j : ℕ) → (i == j) ≡ true → i ≡ j
  here j h = ground arith

  away : (j : ℕ) → (i == j) ≡ false → i ≢ j
  away j h = ground arith

  not_kernel : i ≢ 0
  not_kernel = omega (arith, f.in_range)

  next : r.1.next_pid ≡ s.next_pid + 1
  next = f.counter ∙ omega (arith, small)

  old_use :
      (j : ℕ)
      → i ≢ j
      → is (r.1.processes j).state unused ≡ false
      → is (s.processes j).state unused ≡ false
  old_use j n u = ap (λ p. is p.state unused) (sym (f.others j n)) ∙ u

  old_pid :
      (j : ℕ)
      → j < max_processes
      → i ≢ j
      → is (r.1.processes j).state unused ≡ false
      → (r.1.processes j).pid < s.next_pid
  old_pid j b n u =
      subst (λ p. p.pid < s.next_pid) (sym (f.others j n)) (v.pids_below j b (old_use j n u))

  -- A creation keeps the table valid as long as the process numbers do not wrap.
  pub Fills-IsValid : IsValid r.1 c
  Fills-IsValid = record {
    current = f.current ∙ v.current;
    in_range = v.in_range;
    only_running = λ j b h. elim (Bool-cases (i == j)) [
      | inl same ↦ absurd (
          cc (
            Outcome-idle i is_user r.0 _ f.outcome,
            h,
            ap (λ k. is (r.1.processes k).state running) (here j same),
          ))
      | inr n ↦ v.only_running j b (ap (λ p. is p.state running) (sym (f.others j (away j n))) ∙ h)
    ];
    time_left = omega (arith, f.time, v.time_left);
    kernel_used = ap (λ p. is p.state unused) (f.others 0 not_kernel) ∙ v.kernel_used;
    kernel_pid = ap (λ p. p.pid) (f.others 0 not_kernel) ∙ v.kernel_pid;
    pids_below = λ j b u. elim (Bool-cases (i == j)) [
      | inl same ↦ omega (arith, ap (λ k. (r.1.processes k).pid) (here j same), f.pid, next)
      | inr n ↦ let old = old_pid j b (away j n) u in omega (arith, old, next)
    ];
    pids_unique = λ j k b b' u u' e. elim (Bool-cases (i == j)) [
      | inl same ↦ elim (Bool-cases (i == k)) [
        | inl same' ↦ sym (here j same) ∙ here k same'
        | inr n ↦ absurd (
            omega (
              arith,
              old_pid k b' (away k n) u',
              ap (λ m. (r.1.processes m).pid) (here j same),
              f.pid,
              e,
            ))
      ]
      | inr n ↦ elim (Bool-cases (i == k)) [
        | inl same ↦ absurd (
            omega (
              arith,
              old_pid j b (away j n) u,
              ap (λ m. (r.1.processes m).pid) (here k same),
              f.pid,
              e,
            ))
        | inr n' ↦ v.pids_unique j k b b' (old_use j (away j n) u) (old_use k (away k n') u') (
            sym (ap (λ p. p.pid) (f.others j (away j n)))
            ∙ e
            ∙ ap (λ p. p.pid) (f.others k (away k n')))
      ]
    ];
  }

record FreedUpTo (ps : Processes) (k : ℕ) (qs : Processes) : Type 0 where
  slots : (j : ℕ) → j < k → (qs j).state ≡ unused

freed_next :
    (ps : Processes) (k : ℕ) (qs : Processes)
    → FreedUpTo ps k qs
    → FreedUpTo ps (k + 1) (update qs k (freed (qs k)))
freed_next ps k qs h = record {
  slots = λ m u. elim (Bool-cases (k == m)) [
    | inl same ↦ rw same refl
    | inr n ↦ rw n (h.slots m (ground arith))
  ];
}

all_unused_lem : (ps : Processes) (j : ℕ) → j < max_processes → (all_unused ps j).state ≡ unused
all_unused_lem ps j b =
    let w =
      for_from_inv (FreedUpTo ps) (λ i qs. update qs i (freed (qs i))) 0 max_processes max_processes
        refl (λ k qs l u h. freed_next ps k qs h) ps
        (record { slots = λ m u. absurd (omega arith) }) in
    w.slots j b

-- Only slot 0 is in use.
init_slot :
    (ps : Processes) (p : Process) (j : ℕ)
    → j < max_processes
    → (0 ≡ j) ⊎ ((update (all_unused ps) 0 p j).state ≡ unused)
init_slot ps p j b = elim (Bool-cases (0 == j)) [
  | inl same ↦ inl (ground arith)
  | inr n ↦ inr (rw n (all_unused_lem ps j b))
]

-- At boot the table holds the kernel's process alone, which runs, and is valid.
pub process_init-IsValid :
    (machine : Machine) (stack_top : ℕ) (s : Os machine.World)
    → s.next_pid ≡ 1
    → s.ticks_remaining ≡ time_quantum
    → IsValid (process_init machine stack_top s) 0
unfolding process_init
process_init-IsValid machine stack_top s one full =
    let p : Process = kernel_process machine stack_top s.world (all_unused s.processes 0) in
    let only : (j : ℕ)
        → j < max_processes
        → is (update (all_unused s.processes) 0 p j).state unused ≡ false
        → 0 ≡ j =
      λ j b u. elim (init_slot s.processes p j b) [
        | inl e ↦ e
        | inr e ↦ absurd (cc (u, ap (λ st. is st unused) e))
      ] in
    record {
      current = refl;
      in_range = omega arith;
      only_running = λ j b h. elim (init_slot s.processes p j b) [
        | inl e ↦ sym e
        | inr e ↦ absurd (cc (h, ap (λ st. is st running) e))
      ];
      time_left = omega (arith, full);
      kernel_used = refl;
      kernel_pid = refl;
      pids_below = λ j b u.
          subst (λ k. (update (all_unused s.processes) 0 p k).pid < s.next_pid) (only j b u)
            (omega (arith, one));
      pids_unique = λ j k b b' u u' e. sym (only j b u) ∙ only k b' u';
    }
