-- ===== src/Syscall/Closed.antt =====
-- The check of user pointers of kernel/syscall.c against the page tables: a range that it accepts has no
-- byte that is closed to user code.
use ao_os.Base.{
  ℕ, ◌+◌, ◌^◌, ◌≤◌, ◌<◌, ◌≡◌, refl, sym, ◌∙◌, ap, inl, inr, Bool, true, false, Option, none, some,
  arith, ltb, leb, ◌==◌, Bool-cases, and_true,
}
use ao_os.Net.Wire.{copy}
use ao_os.Vmm.{user_range_ok}
use ao_os.Vmm.Checks.{Decides, accepts, rejects, AllBytesOpen, UserMay, user_range_ok-Decides}
use ao_os.Syscall.{Caller, Sys, Outcome, range_ok, buf_ok_of, user_buf_ok}

accepted : (P : Type 0) (o : Option Bool) → Decides P o → o ≡ some true → P
accepted P _ (accepts p) e = p
accepted P _ (rejects n) e = absurd (cc e)

copy_elsewhere :
    (d : ℕ → ℕ) (i : ℕ) (src : ℕ → ℕ) (k n j : ℕ) → (i ≤ j → n + i ≤ j) → copy d i src k n j ≡ d j
unfolding copy
copy_elsewhere d i src k n j h = elim (Bool-cases (leb i j)) [
  | inl t ↦ let l = h (ground (arith, t)) in ground (arith, l)
  | inr t ↦ ground (arith, t)
]

module _ {W : Type 0} where
  range_ok-Open :
      (p : Caller) (addr len : ℕ) (s : Sys W)
      → addr + len + 4096 ≤ 2 ^ 64
      → range_ok p addr len s ≡ true
      → AllBytesOpen s.tables p.cr3 addr len
  range_ok-Open p addr len s top h =
      accepted (AllBytesOpen s.tables p.cr3 addr len) (user_range_ok s.tables p.cr3 addr len)
        (user_range_ok-Decides s.tables p.cr3 addr len top)
        (go (user_range_ok s.tables p.cr3 addr len) h)
    where
      go : (o : Option Bool) → (elim o [ none ↦ false | some ok ↦ ok ]) ≡ true → o ≡ some true
      go none e = absurd (cc e)
      go (some ok) e = ap (λ (b : Bool). some b) e

  -- By the rule of the processor, the user code of the caller cannot reach the byte.
  pub Closed : Sys W → (a : ℕ) → Type 0
  Closed s a = (p : Caller) → s.current ≡ some p → UserMay s.tables p.cr3 a → ⊥

  -- A closed byte is outside every range that the check accepts.
  pub user_buf_ok-outside :
      (addr len : ℕ) (s : Sys W) (a : ℕ)
      → addr + len + 4096 ≤ 2 ^ 64
      → user_buf_ok addr len s ≡ true
      → Closed s a
      → addr ≤ a
      → len + addr ≤ a
  unfolding user_buf_ok Closed
  user_buf_ok-outside addr len s a top h closed l = elim (Bool-cases (ltb a (addr + len))) [
    | inr out ↦ ground (arith, out)
    | inl inside ↦
        let below : a < addr + len = ground (arith, inside) in
        let some_len : (len == 0) ≡ false = ground (arith, below, l) in
        absurd (go s.current refl (sym (rw some_len refl) ∙ h) below)
  ]
    where
      go : (c : Option Caller) → s.current ≡ c → buf_ok_of c addr len s ≡ true → a < addr + len → ⊥
      go none e ok below = absurd (cc ok)
      go (some p) e ok below =
          let r : range_ok p addr len s ≡ true =
            (and_true p.is_user (range_ok p addr len s) ok).1 in
          let open_here = (range_ok-Open p addr len s top r).1 a l below in
          absurd (closed p e open_here)

  -- The call leaves every byte alone that the caller's own code could not reach.
  pub record Confined (s : Sys W) (o : Outcome W) : Type 0 where
    pub kept : (a : ℕ) → Closed s a → o.state.bytes a ≡ s.bytes a

  pub same-Confined : (s : Sys W) (o : Outcome W) → o.state.bytes ≡ s.bytes → Confined s o
  same-Confined s o e = record { kept = λ a c. ap (λ (b : ℕ → ℕ). b a) e }

  -- A copy of at most `len` bytes to a range that was checked
  pub copied-Confined :
      (s : Sys W) (o : Outcome W) (addr len n : ℕ) (src : ℕ → ℕ) (k : ℕ)
      → addr + len + 4096 ≤ 2 ^ 64
      → user_buf_ok addr len s ≡ true
      → n ≤ len
      → o.state.bytes ≡ copy s.bytes addr src k n
      → Confined s o
  copied-Confined s o addr len n src k top ok short e = record {
    kept = λ a c.
        ap (λ (b : ℕ → ℕ). b a) e
        ∙ copy_elsewhere s.bytes addr src k n a (λ l.
          let far = user_buf_ok-outside addr len s a top ok c l in omega (arith, far, short));
  }
