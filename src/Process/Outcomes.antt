-- ===== src/Process/Outcomes.antt =====
-- The ways in which `process_create` ends, once it has a slot.
use ao_os.Base.{
  ℕ, ◌≡◌, refl, sym, subst, ◌∙◌, ap, ◌≢◌, Bool, true, false, Option, none, some, ◌==◌,
  if◌then◌else◌, update_self,
}
use ao_os.Process.Services.{Machine}
use ao_os.Process.{State, unused, loading, ready, Process, Os}
use ao_os.Process.Create.{set_up, ready_stack, mapped, complete, data_flags, user_pages_of}
use ao_os.Process.Slots.{update_elim}
use ao_os.Process.Fresh.{
  OnlyAt, OnlyAt-trans, world-OnlyAt, map_pages-OnlyAt, ready_stack-OnlyAt, give_up-OnlyAt,
}

-- The same, but the state of slot `i` may change.
pub record Sets {W : Type 0} (i : ℕ) (s t : Os W) : Type 0 where
  pub current : t.current ≡ s.current
  pub counter : t.next_pid ≡ s.next_pid
  pub time : t.ticks_remaining ≡ s.ticks_remaining
  pub pid : (t.processes i).pid ≡ (s.processes i).pid
  pub others : (j : ℕ) → i ≢ j → t.processes j ≡ s.processes j

Sets-after : {W : Type 0} (i : ℕ) (s t r : Os W) → OnlyAt i s t → Sets i t r → Sets i s r
Sets-after i s t r a b = record {
  current = b.current ∙ a.current;
  counter = b.counter ∙ a.counter;
  time = b.time ∙ a.time;
  pid = b.pid ∙ a.pid;
  others = λ j n. b.others j n ∙ a.others j n;
}

Sets-OnlyAt : {W : Type 0} (i : ℕ) (s t : Os W) → OnlyAt i s t → Sets i s t
Sets-OnlyAt i s t a = record {
  current = a.current;
  counter = a.counter;
  time = a.time;
  pid = a.pid;
  others = a.others;
}

complete-Sets :
    (machine : Machine) (i rsp : ℕ) (st : State) (s : Os machine.World)
    → Sets i s (complete machine i rsp st s)
      × (((complete machine i rsp st s).processes i).state ≡ st)
complete-Sets machine i rsp st s =
    let q : Process = record (s.processes i) { kernel_rsp = rsp; state = st } in
    (
      record {
        current = refl;
        counter = refl;
        time = refl;
        pid = update_elim (λ p. p.pid ≡ (s.processes i).pid) s.processes i i q (λ _. refl) refl;
        others =
            λ j n. update_elim (λ p. p ≡ s.processes j) s.processes i j q (λ h. absurd (n h)) refl;
      },
      ap (λ p. p.state) (update_self s.processes i q),
    )

-- The outcomes: the new process waits to be loaded or for its turn, or the slot is still free.
pub data Outcome (i : ℕ) (is_user : Bool) : Option ℕ → State → Type 0 where
  user_created : is_user ≡ true → Outcome i is_user (some i) loading
  kernel_created : is_user ≡ false → Outcome i is_user (some i) ready
  refused : Outcome i is_user none unused

module _ (machine : Machine) (i entry : ℕ) (is_user : Bool) where
  open machine use {World, nx_supported}

  pub record Made (s : Os World) (r : Option ℕ × Os World) : Type 0 where
    pub sets : Sets i s r.1
    pub outcome : Outcome i is_user r.0 (r.1.processes i).state

  mapped-Made :
      (rsp : ℕ) (s : Os World) (r : Bool × Os World)
      → is_user ≡ true
      → (s.processes i).state ≡ unused
      → OnlyAt i s r.1
      → Made s (mapped machine i rsp r)
  mapped-Made rsp s (true, t) u free w =
      let (sets, st) = complete-Sets machine i rsp loading t in
      record {
        sets = Sets-after i s t _ w sets;
        outcome = subst (Outcome i is_user (some i)) (sym st) (user_created u);
      }
  mapped-Made rsp s (false, t) u free w =
      let g = give_up-OnlyAt machine i t (w.state ∙ free) in
      record {
        sets = Sets-after i s t _ w (Sets-OnlyAt i t _ g);
        outcome = subst (Outcome i is_user none) (sym (g.state ∙ w.state ∙ free)) refused;
      }

  choose-Made :
      (s : Os World) (b : Bool) (x y : Option ℕ × Os World)
      → (b ≡ true → Made s x)
      → (b ≡ false → Made s y)
      → Made s (if b then x else y)
  choose-Made s true x y f g = f refl
  choose-Made s false x y f g = g refl

  pub set_up-Made :
      (s : Os World) → (s.processes i).state ≡ unused → Made s (set_up machine i entry is_user s)
  set_up-Made s free =
      let w = ready_stack-OnlyAt machine i entry is_user s in
      let (rsp, s') = ready_stack machine i entry is_user s in
      choose-Made s ((s.processes i).cr3 == 0) (none, s) _
        (λ _. record {
          sets = Sets-OnlyAt i s s (world-OnlyAt i s s.world);
          outcome = subst (Outcome i is_user none) (sym free) refused;
        })
        (λ _.
          choose-Made s is_user _ _
            (λ u. mapped-Made rsp s _ u free (
              OnlyAt-trans i s s' _ w
                (map_pages-OnlyAt machine i (data_flags machine s'.world) user_pages_of s')))
            (λ k.
              let (sets, st) = complete-Sets machine i rsp ready s' in
              record {
                sets = Sets-after i s s' _ w sets;
                outcome = subst (Outcome i is_user (some i)) (sym st) (kernel_created k);
              }))
