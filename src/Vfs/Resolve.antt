-- ===== src/Vfs/Resolve.antt =====
-- Which mount a path leads to, `resolve` of kernel/fs/vfs.c.
use ao_os.Base.{
  ℕ, ◌+◌, ◌≤◌, ◌<◌, ◌≡◌, refl, sym, ap, subst, ◌⊎◌, inl, inr, true, false, ◌&&◌, none, some, List,
  arith, ltb, ◌==◌, if_holds, Bool-cases, for_from_inv, length,
}
use ao_os.Vfs.{Vfs, is_absolute, Best, leads, try_mount, best_mount, subpath, resolved, resolve}

module _ {W : Type 0} (v : Vfs W) (path : List ℕ) where
  abbrev len_at : ℕ → ℕ
  len_at i = length (v.mounts i).path

  -- Of the first `n` slots, slot `k` has the longest path that leads to `path`, and is the first one.
  pub record Longest (n k : ℕ) : Type 0 where
    pub below : k < n
    pub suits : leads v path k ≡ true
    pub most : (j : ℕ) → j < n → leads v path j ≡ true → len_at j ≤ len_at k
    pub first : (j : ℕ) → j < k → leads v path j ≡ true → len_at j < len_at k

  abbrev None : ℕ → Type 0
  None n = (j : ℕ) → j < n → leads v path j ≡ false

  abbrev Seen : (n : ℕ) → Best → Type 0
  Seen n b =
      ((b ≡ record { best = none; len = 0 }) × None n)
      ⊎ ((k : ℕ) × (b ≡ record { best = some k; len = len_at k }) × Longest n k)

  kept-Longest :
      (i k : ℕ)
      → (leads v path i && ltb (len_at k) (len_at i)) ≡ false
      → Longest i k
      → Longest (i + 1) k
  kept-Longest i k h l = record {
    below = let b = l.below in omega (arith, b);
    suits = l.suits;
    most = λ j b t. elim (Bool-cases (j == i)) [
      | inl e ↦
          let same : j ≡ i = ground (arith, e) in
          let t' = subst (λ x. leads v path x ≡ true) same t in
          subst (λ x. len_at x ≤ len_at k) (sym same) (ground (arith, h, t'))
      | inr o ↦ l.most j (ground (arith, o, b)) t
    ];
    first = l.first;
  }

  new-Longest :
      (i k : ℕ) → leads v path i ≡ true → len_at k < len_at i → Longest i k → Longest (i + 1) i
  new-Longest i k t h l = record {
    below = omega arith;
    suits = t;
    most = λ j b u. elim (Bool-cases (j == i)) [
      | inl e ↦
          let same : j ≡ i = ground (arith, e) in
          subst (λ x. len_at j ≤ len_at x) same (omega arith)
      | inr o ↦ let m = l.most j (ground (arith, o, b)) u in omega (arith, m, h)
    ];
    first = λ j b u. let m = l.most j b u in omega (arith, m, h);
  }

  only-Longest : (i : ℕ) → leads v path i ≡ true → None i → Longest (i + 1) i
  only-Longest i t n = record {
    below = omega arith;
    suits = t;
    most = λ j b u. elim (Bool-cases (j == i)) [
      | inl e ↦
          let same : j ≡ i = ground (arith, e) in
          subst (λ x. len_at j ≤ len_at x) same (omega arith)
      | inr o ↦ absurd (cc (n j (ground (arith, o, b)), u))
    ];
    first = λ j b u. absurd (cc (n j b, u));
  }

  none-Seen : (i : ℕ) → None i → Seen (i + 1) (try_mount v path i (record { best = none; len = 0 }))
  none-Seen i n =
      if_holds (Seen (i + 1)) (leads v path i && true) _ _
        (λ t.
          let t' : leads v path i ≡ true = ground (arith, t) in inr (i, refl, only-Longest i t' n))
        (λ t. inl (
          refl,
          λ j b. elim (Bool-cases (j == i)) [
            | inl e ↦
                let same : j ≡ i = ground (arith, e) in
                subst (λ x. leads v path x ≡ false) (sym same) (ground (arith, t))
            | inr o ↦ n j (ground (arith, o, b))
          ],
        ))

  some-Seen :
      (i k : ℕ)
      → Longest i k
      → Seen (i + 1) (try_mount v path i (record { best = some k; len = len_at k }))
  some-Seen i k l =
      if_holds (Seen (i + 1)) (leads v path i && ltb (len_at k) (len_at i)) _ _
        (λ t. inr (i, refl, new-Longest i k (ground (arith, t)) (ground (arith, t)) l))
        (λ t. inr (k, refl, kept-Longest i k t l))

  try_mount-Seen : (i : ℕ) (b : Best) → Seen i b → Seen (i + 1) (try_mount v path i b)
  try_mount-Seen i b (inl (e, n)) =
      subst (λ x. Seen (i + 1) (try_mount v path i x)) (sym e) (none-Seen i n)
  try_mount-Seen i b (inr (k, e, l)) =
      subst (λ x. Seen (i + 1) (try_mount v path i x)) (sym e) (some-Seen i k l)

  best_mount-Seen : Seen v.mount_count (best_mount v path)
  best_mount-Seen =
      for_from_inv Seen (try_mount v path) 0 v.mount_count v.mount_count (omega arith)
        (λ k s a b h. try_mount-Seen k s h) (record { best = none; len = 0 })
        (inl (refl, λ j b. absurd (omega (arith, b))))

-- What `resolve` finds, by the code's own test `leads`.
pub resolve_lem :
    {W : Type 0} (v : Vfs W) (path : List ℕ)
    → is_absolute path ≡ true
    → ((resolve v path ≡ (none, path)) × ((j : ℕ) → j < v.mount_count → leads v path j ≡ false))
      ⊎ ((k : ℕ) × Longest v path v.mount_count k
          × (resolve v path ≡ ((v.mounts k).ops, subpath (length (v.mounts k).path) path)))
unfolding resolve
resolve_lem v path a = elim (best_mount-Seen v path) [
  | inl (e, n) ↦ inl (go e, n)
  | inr (k, e, l) ↦
      let some_mount : (v.mount_count == 0) ≡ false = let b = l.below in ground (arith, b) in
      inr (k, l, rw (some_mount, a) (ap (resolved v path) e))
]
  where
    go : best_mount v path ≡ record { best = none; len = 0 } → resolve v path ≡ (none, path)
    go e = elim (Bool-cases (v.mount_count == 0)) [
      | inl t ↦ rw t refl
      | inr t ↦ rw (t, a) (ap (resolved v path) e)
    ]
