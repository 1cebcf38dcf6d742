-- ===== src/Vfs/Paths.antt =====
-- `resolve` of kernel/fs/vfs.c against what a path is: a mount leads to its own path and to the paths
-- below it, and what is left is what stands behind the mount's path and its slash.
use ao_os.Base.{
  ℕ, suc, ◌+◌, ◌≤◌, ◌<◌, ◌≡◌, refl, sym, ◌∙◌, ap, subst, ◌≢◌, ◌⊎◌, inl, inr, true, false, ◌&&◌,
  none, List, [], ◌∷◌, ◌++◌, arith, ◌==◌, Bool-cases, and_true, length, length-append,
}
use ao_os.Ramfs.{byte_at}
use ao_os.Vfs.{Vfs, slash, is_absolute, is_prefix, is_sep, leads, drop_chars, subpath, resolve}
use ao_os.Vfs.Resolve.{resolve_lem}

-- The mounted path `m` leads to `path`, with `rest` left below it: the root to every absolute path,
-- another to itself with nothing left, and to what follows it behind a slash.
abbrev pub LeadsTo : (m path rest : List ℕ) → Type 0
LeadsTo m path rest =
    ((length m ≡ 1) × (path ≡ slash ∷ rest))
    ⊎ ((length m ≢ 1) × (((path ≡ m) × (rest ≡ [])) ⊎ (path ≡ m ++ (slash ∷ rest))))

-- No character of the path is the NUL that ends it.
abbrev pub IsString : List ℕ → Type 0
IsString path = (i : ℕ) → i < length path → byte_at path i ≢ 0

append_nil : (m : List ℕ) → m ++ [] ≡ m
append_nil [] = refl
append_nil (c ∷ cs) = ap (λ (x : List ℕ). c ∷ x) (append_nil cs)

prefix_split : (m path : List ℕ) → is_prefix m path ≡ true → path ≡ m ++ drop_chars (length m) path
prefix_split [] path h = refl
prefix_split (c ∷ cs) [] h = absurd (cc h)
prefix_split (c ∷ cs) (d ∷ ds) h =
    let (e, rest) = and_true (c == d) (is_prefix cs ds) h in
    let same : d ≡ c = ground (arith, e) in
    ap (λ (x : List ℕ). d ∷ x) (prefix_split cs ds rest)
    ∙ ap (λ x. x ∷ (cs ++ drop_chars (length cs) ds)) same

is_prefix-append : (m r : List ℕ) → is_prefix m (m ++ r) ≡ true
is_prefix-append [] r = refl
is_prefix-append (c ∷ cs) r = let h = is_prefix-append cs r in ground (arith, h)

byte_at-append : (m r : List ℕ) → byte_at (m ++ r) (length m) ≡ byte_at r 0
byte_at-append [] r = refl
byte_at-append (c ∷ cs) r = byte_at-append cs r

drop_chars-append : (m r : List ℕ) → drop_chars (length m + 1) (m ++ r) ≡ drop_chars 1 r
drop_chars-append [] r = refl
drop_chars-append (c ∷ cs) r =
    ap (λ n. drop_chars n (c ∷ (cs ++ r))) {y = suc (length cs + 1)} (omega arith)
    ∙ drop_chars-append cs r

-- What stands behind a mount that is not the root
behind :
    (m r : List ℕ)
    → length m ≢ 1
    → IsString (m ++ r)
    → is_sep (byte_at (m ++ r) (length m)) ≡ true
    → LeadsTo m (m ++ r) (subpath (length m) (m ++ r))
behind m [] long string sep =
    let one : (length m == 1) ≡ false = ground (arith, long) in
    inr (long, inl (append_nil m, rw one (drop_chars-append m [])))
behind m (c ∷ cs) long string sep =
    let one : (length m == 1) ≡ false = ground (arith, long) in
    let here = byte_at-append m (c ∷ cs) in
    let len = length-append m (c ∷ cs) in
    let not_nul = string (length m) (omega (arith, len)) in
    let is_slash : c ≡ slash = ground (arith, sep, here, not_nul) in
    let left : subpath (length m) (m ++ (c ∷ cs)) ≡ cs = rw one (drop_chars-append m (c ∷ cs)) in
    inr (
      long,
      inr (ap (λ x. m ++ (x ∷ cs)) is_slash ∙ ap (λ (x : List ℕ). m ++ (slash ∷ x)) (sym left)),
    )

module _ {W : Type 0} (v : Vfs W) (path : List ℕ) (absolute : is_absolute path ≡ true)
    (string : IsString path) where
  abbrev path_of : ℕ → List ℕ
  path_of j = (v.mounts j).path

  root_path : (m : List ℕ) → length m ≡ 1 → LeadsTo m path (subpath (length m) path)
  root_path m one = go path absolute
    where
      go : (p : List ℕ) → is_absolute p ≡ true → LeadsTo m p (subpath (length m) p)
      go [] a = absurd (cc a)
      go (c ∷ cs) a =
          let is_slash : c ≡ slash = ground (arith, a) in
          let left : subpath (length m) (c ∷ cs) ≡ cs = rw one refl in
          inl (one, ap (λ x. x ∷ cs) is_slash ∙ ap (λ (x : List ℕ). slash ∷ x) (sym left))

  -- The code's test finds the rest,
  leads-LeadsTo :
      (j : ℕ) → leads v path j ≡ true → LeadsTo (path_of j) path (subpath (length (path_of j)) path)
  leads-LeadsTo j h = elim (Bool-cases (length (path_of j) == 1)) [
    | inl t ↦ root_path (path_of j) (ground (arith, t))
    | inr t ↦
        let m = path_of j in
        let both : (is_prefix m path && is_sep (byte_at path (length m))) ≡ true =
          ground (arith, t, h) in
        let (pre, sep) = and_true (is_prefix m path) (is_sep (byte_at path (length m))) both in
        let split = prefix_split m path pre in
        let r = drop_chars (length m) path in
        subst (λ p. LeadsTo m p (subpath (length m) p)) (sym split)
          (behind m r (ground (arith, t)) (subst IsString split string)
            (subst (λ p. is_sep (byte_at p (length m)) ≡ true) split sep))
  ]

  -- and accepts every mount that leads to the path.
  LeadsTo-leads : (j : ℕ) (r : List ℕ) → LeadsTo (path_of j) path r → leads v path j ≡ true
  LeadsTo-leads j r (inl (one, e)) = ground (arith, one)
  LeadsTo-leads j r (inr (long, inl (e, _))) =
      let m = path_of j in
      let whole : path ≡ m ++ [] = e ∙ sym (append_nil m) in
      let pre : is_prefix m path ≡ true =
        subst (λ p. is_prefix m p ≡ true) (sym whole) (is_prefix-append m []) in
      let end : byte_at path (length m) ≡ 0 =
        ap (λ p. byte_at p (length m)) whole ∙ byte_at-append m [] in
      rw (pre, end) (ground (arith, long))
  LeadsTo-leads j r (inr (long, inr e)) =
      let m = path_of j in
      let pre : is_prefix m path ≡ true =
        subst (λ p. is_prefix m p ≡ true) (sym e) (is_prefix-append m (slash ∷ r)) in
      let sep : byte_at path (length m) ≡ slash =
        ap (λ p. byte_at p (length m)) e ∙ byte_at-append m (slash ∷ r) in
      rw (pre, sep) (ground (arith, long))

  -- Of all mounts, the one in slot `k` has the longest path that leads to `path`, with `rest` left;
  -- of several of that length it is the first.
  pub record LongestPath (k : ℕ) (rest : List ℕ) : Type 0 where
    pub below : k < v.mount_count
    pub suits : LeadsTo (path_of k) path rest
    pub most :
        (j : ℕ) (r : List ℕ)
        → j < v.mount_count
        → LeadsTo (path_of j) path r
        → length (path_of j) ≤ length (path_of k)
    pub first :
        (j : ℕ) (r : List ℕ)
        → j < k
        → LeadsTo (path_of j) path r
        → length (path_of j) < length (path_of k)

  -- For an absolute path without a NUL, resolve finds no mount and then no mounted path leads to
  -- it, or finds the first of the longest mounted paths that lead to it, with the rest behind
  -- it; a mount path of one character, the root, leads to every path with what follows its
  -- slash, another mount path to itself with nothing left and to what continues it with a slash
  -- and the rest.
  pub resolve-Longest :
      ((resolve v path ≡ (none, path))
        × ((j : ℕ) (r : List ℕ) → j < v.mount_count → LeadsTo (path_of j) path r → ⊥))
      ⊎ ((k : ℕ) × (rest : List ℕ) × LongestPath k rest
          × (resolve v path ≡ ((v.mounts k).ops, rest)))
  resolve-Longest = elim (resolve_lem v path absolute) [
    | inl (e, unfit) ↦ inl (e, λ j r b l. cc (unfit j b, LeadsTo-leads j r l))
    | inr (k, l, e) ↦ inr (
      k,
      subpath (length (path_of k)) path,
      record {
        below = l.below;
        suits = leads-LeadsTo k l.suits;
        most = λ j r b h. l.most j b (LeadsTo-leads j r h);
        first = λ j r b h. l.first j b (LeadsTo-leads j r h);
      },
      e,
    )
  ]
