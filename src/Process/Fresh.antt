-- ===== src/Process/Fresh.antt =====
-- What `process_create` does to the table: it fills one free slot with a process of a fresh number.
use ao_os.Base.{
  ℕ, ◌-◌, ◌%◌, ◌≡◌, refl, sym, ◌∙◌, ◌≢◌, inl, inr, Bool, true, false, ◌||◌, not, List, [], ◌∷◌, leb,
  ◌==◌, if◌then◌else◌, update, Bool-cases,
}
use ao_os.Process.Services.{Machine}
use ao_os.Process.{unused, Process, Os}
use ao_os.Process.UserMemory.{
  page_size, max_user_pages, process_cleanup, map_user_page, fresh_page, enter_page,
}
use ao_os.Process.Create.{ready_stack, map_pages, give_up}
use ao_os.Process.Slots.{update_elim}

-- Only slot `i` and the world change, and slot `i` keeps its number and its state.
pub record OnlyAt {W : Type 0} (i : ℕ) (s t : Os W) : Type 0 where
  pub current : t.current ≡ s.current
  pub counter : t.next_pid ≡ s.next_pid
  pub time : t.ticks_remaining ≡ s.ticks_remaining
  pub pid : (t.processes i).pid ≡ (s.processes i).pid
  pub state : (t.processes i).state ≡ (s.processes i).state
  pub others : (j : ℕ) → i ≢ j → t.processes j ≡ s.processes j

pub OnlyAt-trans : {W : Type 0} (i : ℕ) (s t r : Os W) → OnlyAt i s t → OnlyAt i t r → OnlyAt i s r
OnlyAt-trans i s t r a b = record {
  current = b.current ∙ a.current;
  counter = b.counter ∙ a.counter;
  time = b.time ∙ a.time;
  pid = b.pid ∙ a.pid;
  state = b.state ∙ a.state;
  others = λ j n. b.others j n ∙ a.others j n;
}

-- A change of the world alone.
pub world-OnlyAt : {W : Type 0} (i : ℕ) (s : Os W) (w : W) → OnlyAt i s (record s { world = w })
world-OnlyAt i s w = record {
  current = refl;
  counter = refl;
  time = refl;
  pid = refl;
  state = refl;
  others = λ j n. refl;
}

slot-OnlyAt :
    {W : Type 0} (i : ℕ) (s : Os W) (q : Process) (w : W)
    → q.pid ≡ (s.processes i).pid
    → q.state ≡ (s.processes i).state
    → OnlyAt i s (record s { processes = update s.processes i q; world = w })
slot-OnlyAt i s q w e f = record {
  current = refl;
  counter = refl;
  time = refl;
  pid = update_elim (λ p. p.pid ≡ (s.processes i).pid) s.processes i i q (λ _. e) refl;
  state = update_elim (λ p. p.state ≡ (s.processes i).state) s.processes i i q (λ _. f) refl;
  others = λ j n. update_elim (λ p. p ≡ s.processes j) s.processes i j q (λ h. absurd (n h)) refl;
}

if-OnlyAt :
    {W : Type 0} {A : Type 0} (i : ℕ) (s : Os W) (b : Bool) (x y : A × Os W)
    → OnlyAt i s x.1
    → OnlyAt i s y.1
    → OnlyAt i s (if b then x else y).1
if-OnlyAt i s true x y a c = a
if-OnlyAt i s false x y a c = c

module _ (machine : Machine) (i : ℕ) where
  open machine use {World, alloc_page, user_range_ok, create_address_space, get_cr3}

  enter_page-OnlyAt :
      (s : Os World) (phys : ℕ) (r : Bool × World) → OnlyAt i s (enter_page machine i s phys r).1
  enter_page-OnlyAt s phys (false, w) = world-OnlyAt i s _
  enter_page-OnlyAt s phys (true, w) = slot-OnlyAt i s _ w refl refl

  fresh_page-OnlyAt :
      (virt flags : ℕ) (s : Os World) (r : ℕ × World)
      → OnlyAt i s (fresh_page machine i virt flags s r).1
  fresh_page-OnlyAt virt flags s (phys, w) =
      if-OnlyAt i s (phys == 0) _ _ (world-OnlyAt i s w) (enter_page-OnlyAt s phys _)

  pub map_user_page-OnlyAt :
      (virt flags : ℕ) (s : Os World) → OnlyAt i s (map_user_page machine i virt flags s).1
  unfolding map_user_page
  map_user_page-OnlyAt virt flags s =
      let p = s.processes i in
      let r : Bool × Os World = fresh_page machine i virt flags s (alloc_page s.world) in
      let full : Bool × Os World =
        (if leb max_user_pages p.user_page_count then (false, s) else r) in
      let present : Bool = user_range_ok p.cr3 (virt - virt % page_size) 1 s.world in
      let same : OnlyAt i s s = world-OnlyAt i s s.world in
      if-OnlyAt i s (not p.is_user || p.cr3 == 0) (false, s) (if present then (true, s) else full)
        same
        (if-OnlyAt i s present (true, s) full same
          (if-OnlyAt i s (leb max_user_pages p.user_page_count) (false, s) r same
            (fresh_page-OnlyAt virt flags s (alloc_page s.world))))

  pub map_pages-OnlyAt :
      (flags : ℕ) (addrs : List ℕ) (s : Os World) → OnlyAt i s (map_pages machine i flags addrs s).1
  unfolding map_pages
  map_pages-OnlyAt flags [] s = world-OnlyAt i s s.world
  map_pages-OnlyAt flags (a ∷ addrs) s =
      let r = map_user_page machine i a flags s in
      let first = map_user_page-OnlyAt a flags s in
      if-OnlyAt i s r.0 _ _ (OnlyAt-trans i s r.1 _ first (map_pages-OnlyAt flags addrs r.1)) first

  cleanup-OnlyAt : (s : Os World) → OnlyAt i s (process_cleanup machine i s)
  unfolding process_cleanup
  cleanup-OnlyAt s = elim (Bool-cases ((s.processes i).pid == 0)) [
    | inl z ↦ rw z (world-OnlyAt i s s.world)
    | inr n ↦ rw n (slot-OnlyAt i s _ _ refl refl)
  ]

  pub ready_stack-OnlyAt :
      (entry : ℕ) (is_user : Bool) (s : Os World)
      → OnlyAt i s (ready_stack machine i entry is_user s).1
  ready_stack-OnlyAt entry is_user s = slot-OnlyAt i s _ _ refl refl

  -- What is left of a creation: slot `i` holds process `pid`, or is free again.
  pub give_up-OnlyAt :
      (s : Os World) → (s.processes i).state ≡ unused → OnlyAt i s (give_up machine i s)
  give_up-OnlyAt s free =
      let s' = process_cleanup machine i s in
      let w = cleanup-OnlyAt s in
      OnlyAt-trans i s s' _ w (slot-OnlyAt i s' _ s'.world refl (sym (w.state ∙ free)))
