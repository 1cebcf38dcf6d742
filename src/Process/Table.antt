-- ===== src/Process/Table.antt =====
-- The invariant of the process table, and what a tick does to single slots.
use ao_os.Base.{
  ℕ, ◌+◌, ◌-◌, ◌≤◌, ◌≡◌, refl, ap, inl, inr, true, ◌&&◌, arith, ltb, leb, ◌==◌, if◌then◌else◌,
  Bool-cases, for_from_inv,
}
use ao_os.Process.{
  State, unused, loading, ready, running, blocked, sleeping, terminated, is, Process, Processes,
  max_processes, wake_sleeper, wake_sleepers,
}

pub is_iff : (a b : State) → is a b ≡ true → a ≡ b
is_iff unused unused h = refl
is_iff loading loading h = refl
is_iff ready ready h = refl
is_iff running running h = refl
is_iff blocked blocked h = refl
is_iff sleeping sleeping h = refl
is_iff terminated terminated h = refl
is_iff _ _ h = absurd (cc)

-- What the timer does to a slot: nothing but wake a sleeper whose time has come.
unfoldable pub woken : ℕ → Process → Process
woken now p =
    if is p.state sleeping && leb p.wake_tick now
    then record p { wake_tick = 0; state = ready }
    else p

-- One round of the loop changes one slot.
wake_sleeper_lem :
    (now k : ℕ) (ps : Processes) (j : ℕ)
    → wake_sleeper now k ps j ≡ (if k == j then woken now (ps j) else ps j)
unfolding wake_sleeper woken
wake_sleeper_lem now k ps j = elim (Bool-cases (k == j)) [
  | inr other ↦ ground arith
  | inl same ↦ let e : k ≡ j = ground arith in rw e (ground arith)
]

record WokenUpTo (now : ℕ) (ps : Processes) (k : ℕ) (ps' : Processes) : Type 0 where
  slots : (j : ℕ) → ps' j ≡ (if leb 1 j && ltb j k then woken now (ps j) else ps j)

woken_next :
    (now k : ℕ) (ps ps' : Processes)
    → 1 ≤ k
    → WokenUpTo now ps k ps'
    → WokenUpTo now ps (k + 1) (wake_sleeper now k ps')
woken_next now k ps ps' a w = record {
  slots = λ j. elim (Bool-cases (k == j)) [
    | inr other ↦ ground (arith, wake_sleeper_lem now k ps' j, w.slots j)
    | inl same ↦
        let old : ps' j ≡ ps j = ground (arith, w.slots j) in
        ground (arith, wake_sleeper_lem now k ps' j, ap (woken now) old)
  ];
}

-- `wake_sleepers` leaves slot 0 and wakes the sleepers of the other slots.
pub wake_sleepers_lem :
    (now : ℕ) (ps : Processes) (j : ℕ)
    → wake_sleepers now ps j ≡ (if leb 1 j && ltb j max_processes then woken now (ps j) else ps j)
unfolding wake_sleepers
wake_sleepers_lem now ps j =
    let start : WokenUpTo now ps 1 ps = record { slots = λ j. ground arith } in
    (for_from_inv (WokenUpTo now ps) (wake_sleeper now) 1 (max_processes - 1) max_processes refl
        (λ k ps' a b w. woken_next now k ps ps' a w) ps start).slots
      j
