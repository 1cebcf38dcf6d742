-- ===== src/Process/Slots.antt =====
-- What a lookup finds, and what an operation on the slots may do without breaking the table.
use ao_os.Base.{
  ℕ, ◌+◌, ◌<◌, ◌≡◌, refl, sym, subst, ◌∙◌, ap, ◌⊎◌, inl, inr, Bool, true, false, ◌&&◌, not, some,
  arith, ltb, ◌==◌, if◌then◌else◌, update, Bool-cases, for_from_inv, FoundAt, find_from-FoundAt,
}
use ao_os.Process.{unused, running, is, Process, Processes, Os, max_processes, process_get}
use ao_os.Process.Inv.{IsValid, Same}
use ao_os.Process.UserMemory.{set_slot}
use ao_os.Process.Lifecycle.{each, each_slot}

-- The slot `i` is in use by process `pid`.
pub record IsAt (ps : Processes) (pid i : ℕ) : Type 0 where
  pub in_range : i < max_processes
  pub in_use : is (ps i).state unused ≡ false
  pub same : (ps i).pid ≡ pid

pub process_get-some : (ps : Processes) (pid i : ℕ) → process_get ps pid ≡ some i → IsAt ps pid i
unfolding process_get
process_get-some ps pid i e =
    let f : FoundAt (λ i. not (is (ps i).state unused) && ((ps i).pid == pid)) 0 max_processes i =
      find_from-FoundAt _ _ _ i e in
    record {
      in_range = omega (arith, f.below);
      in_use = ground (arith, f.holds);
      same = ground (arith, f.holds);
    }

record EachUpTo (f : Process → Process) (ps : Processes) (k : ℕ) (ps' : Processes) : Type 0 where
  slots : (j : ℕ) → ps' j ≡ (if ltb j k then f (ps j) else ps j)

each_next :
    (f : Process → Process) (ps ps' : Processes) (k : ℕ)
    → EachUpTo f ps k ps'
    → EachUpTo f ps (k + 1) (each f k ps')
each_next f ps ps' k w = record {
  slots = λ j. elim (Bool-cases (k == j)) [
    | inr other ↦ ground (arith, w.slots j)
    | inl same ↦
        let e : k ≡ j = ground arith in
        let old : ps' k ≡ ps j = rw e (ground (arith, w.slots j)) in ground (arith, ap f old)
  ];
}

-- The loop over all slots applies the change to each.
pub each_slot_lem :
    (f : Process → Process) (ps : Processes) (j : ℕ)
    → j < max_processes
    → each_slot f ps j ≡ f (ps j)
unfolding each_slot
each_slot_lem f ps j b =
    let start : EachUpTo f ps 0 ps = record { slots = λ j. ground arith } in
    let done =
      for_from_inv (EachUpTo f ps) (each f) 0 max_processes max_processes refl
        (λ k ps' a b w. each_next f ps ps' k w) ps start in
    ground (arith, done.slots j)

-- The operation leaves the table valid: it does not change who is current, the kernel's slot keeps
-- its process, a slot in use was in use by the same process, and no further slot is running.
pub record Keeps {W : Type 0} (s t : Os W) (c : ℕ) : Type 0 where
  pub current : t.current ≡ s.current
  pub kernel : Same (t.processes 0) (s.processes 0)
  pub counter : t.next_pid ≡ s.next_pid
  pub time : t.ticks_remaining ≡ s.ticks_remaining
  pub on : t.scheduling_enabled ≡ s.scheduling_enabled
  pub slots :
      (j : ℕ)
      → j < max_processes
      → is (t.processes j).state unused ≡ false
      → (is (s.processes j).state unused ≡ false) × ((t.processes j).pid ≡ (s.processes j).pid)
  pub only_running :
      (j : ℕ)
      → j < max_processes
      → is (t.processes j).state running ≡ true
      → (j ≡ c) ⊎ (is (s.processes j).state running ≡ true)

pub Keeps-IsValid : {W : Type 0} (s t : Os W) (c : ℕ) → Keeps s t c → IsValid s c → IsValid t c
Keeps-IsValid s t c k v = record {
  current = k.current ∙ v.current;
  in_range = v.in_range;
  only_running = λ i b h. elim (k.only_running i b h) [ inl e ↦ e | inr r ↦ v.only_running i b r ];
  time_left = omega (arith, k.time, v.time_left);
  kernel_used = k.kernel.unused ∙ v.kernel_used;
  kernel_pid = k.kernel.pid ∙ v.kernel_pid;
  pids_below =
      λ i b u. let (u', e) = k.slots i b u in ground (arith, v.pids_below i b u', k.counter);
  pids_unique = λ i j b b' u u' e.
      let (w, p) = k.slots i b u in
      let (w', p') = k.slots j b' u' in v.pids_unique i j b b' w w' (sym p ∙ e ∙ p');
}

-- A change of one process that keeps the table valid, with `is_current` for the current slot.
pub record Fits (p q : Process) (is_current : Bool) : Type 0 where
  pub keep : is q.state unused ≡ false → (is p.state unused ≡ false) × (q.pid ≡ p.pid)
  pub run : is q.state running ≡ true → (is_current ≡ true) ⊎ (is p.state running ≡ true)

Fits-refl : (p : Process) (b : Bool) → Fits p p b
Fits-refl p b = record { keep = λ u. (u, refl); run = λ h. inr h }

-- A property of the entry `j` of an updated table.
pub update_elim {κ} :
    (P : Process → Type κ) (ps : Processes) (i j : ℕ) (q : Process)
    → (i ≡ j → P q)
    → P (ps j)
    → P (update ps i q j)
update_elim P ps i j q here away = elim (Bool-cases (i == j)) [
  | inl same ↦ rw same (here (ground arith))
  | inr other ↦ rw other away
]

-- Only slot `i` changes, and the kernel's slot keeps its process.
pub set_slot-Keeps :
    {W : Type 0} (s : Os W) (c i : ℕ) (q : Process)
    → Fits (s.processes i) q (i == c)
    → (i ≡ 0 → Same q (s.processes i))
    → Keeps s (set_slot s i q) c
set_slot-Keeps s c i q f k = record {
  current = refl;
  counter = refl;
  time = refl;
  on = refl;
  kernel =
      update_elim (λ p. Same p (s.processes 0)) s.processes i 0 q
        (λ e. subst (λ j. Same q (s.processes j)) e (k e)) (record { pid = refl; unused = refl });
  slots = λ j b.
      update_elim
        (λ p.
          is p.state unused ≡ false
          → (is (s.processes j).state unused ≡ false) × (p.pid ≡ (s.processes j).pid))
        s.processes i j q
        (λ e.
          subst
            (λ m.
              is q.state unused ≡ false
              → (is (s.processes m).state unused ≡ false) × (q.pid ≡ (s.processes m).pid))
            e f.keep)
        (λ u. (u, refl));
  only_running = λ j b.
      update_elim
        (λ p. is p.state running ≡ true → (j ≡ c) ⊎ (is (s.processes j).state running ≡ true))
        s.processes i j q
        (λ e.
          subst
            (λ m. is q.state running ≡ true → (m ≡ c) ⊎ (is (s.processes m).state running ≡ true)) e
            (λ h. elim (f.run h) [ inl g ↦ inl (ground arith) | inr g ↦ inr g ]))
        (λ h. inr h);
}

pub Keeps-refl : {W : Type 0} (s : Os W) (c : ℕ) → Keeps s s c
Keeps-refl s c = record {
  current = refl;
  counter = refl;
  time = refl;
  on = refl;
  kernel = record { pid = refl; unused = refl };
  slots = λ j b u. (u, refl);
  only_running = λ j b h. inr h;
}

pub Keeps-trans : {W : Type 0} (s t r : Os W) (c : ℕ) → Keeps s t c → Keeps t r c → Keeps s r c
Keeps-trans s t r c a b = record {
  current = b.current ∙ a.current;
  counter = b.counter ∙ a.counter;
  time = b.time ∙ a.time;
  on = b.on ∙ a.on;
  kernel = record { pid = b.kernel.pid ∙ a.kernel.pid; unused = b.kernel.unused ∙ a.kernel.unused };
  slots = λ j l u. let (u', e) = b.slots j l u in let (u'', e') = a.slots j l u' in (u'', e ∙ e');
  only_running =
      λ j l h. elim (b.only_running j l h) [ inl e ↦ inl e | inr h' ↦ a.only_running j l h' ];
}

-- The loop over the slots applies a change that fits every process.
pub each_slot-Keeps :
    {W : Type 0} (s : Os W) (c : ℕ) (f : Process → Process)
    → ((p : Process) → Fits p (f p) false)
    → Same (f (s.processes 0)) (s.processes 0)
    → Keeps s (record s { processes = each_slot f s.processes }) c
each_slot-Keeps s c f fits same = record {
  current = refl;
  counter = refl;
  time = refl;
  on = refl;
  kernel = rw (each_slot_lem f s.processes 0 (omega arith)) same;
  slots = λ j b. rw (each_slot_lem f s.processes j b) (fits (s.processes j)).keep;
  only_running = λ j b.
      rw (each_slot_lem f s.processes j b)
        (λ h. elim ((fits (s.processes j)).run h) [ inl g ↦ absurd (cc) | inr g ↦ inr g ]);
}
