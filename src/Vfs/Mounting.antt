-- ===== src/Vfs/Mounting.antt =====
-- Mounting and unmounting, `vfs_mount` and `vfs_umount` of kernel/fs/vfs.c.
use ao_os.Base.{
  ℕ, suc, ◌+◌, ◌-◌, ◌≤◌, ◌<◌, ◌≡◌, refl, sym, ◌∙◌, ap, subst, inl, inr, true, false, Option, none,
  some, List, [], ◌∷◌, arith, ltb, leb, ◌==◌, Bool-cases, update, update_self, update_ne,
  find_from-FoundAt, find_from-none, find_from-first, for_from, take, length, take_of_length_le,
}
use ao_os.Base.Int.{ℤ, pos, negsuc}
use ao_os.Ramfs.{byte_at, same_name}
use ao_os.Ramfs.Roundtrip.{same_name_refl}
use ao_os.Vfs.{
  Ops, Mount, Vfs, max_mounts, path_size, slash, is_absolute, is_prefix, trimmed, has_path,
  find_mount, set_mount, mount_at, vfs_mount, remove_mount, vfs_umount, leads, resolve, empty_mount,
  subpath, drop_chars,
}
use ao_os.Vfs.Resolve.{Longest, resolve_lem}

-- The path is stored as it is: it is absolute and short, and ends in no slash.
pub record IsPlain (path : List ℕ) : Type 0 where
  pub absolute : is_absolute path ≡ true
  pub short : length path < path_size
  pub whole : trimmed path (length path) ≡ length path

is_prefix_refl : (m : List ℕ) → is_prefix m m ≡ true
is_prefix_refl [] = refl
is_prefix_refl (c ∷ cs) = let h = is_prefix_refl cs in ground (arith, h)

is_prefix-le : (m path : List ℕ) → is_prefix m path ≡ true → length m ≤ length path
is_prefix-le [] path h = omega arith
is_prefix-le (c ∷ cs) [] h = absurd (cc h)
is_prefix-le (c ∷ cs) (d ∷ ds) h =
    let l = is_prefix-le cs ds (ground (arith, h)) in omega (arith, l)

is_prefix-whole :
    (m path : List ℕ) → is_prefix m path ≡ true → length path ≤ length m → same_name m path ≡ true
is_prefix-whole [] [] h l = refl
is_prefix-whole [] (d ∷ ds) h l = absurd (omega (arith, l))
is_prefix-whole (c ∷ cs) [] h l = absurd (cc h)
is_prefix-whole (c ∷ cs) (d ∷ ds) h l =
    let r = is_prefix-whole cs ds (ground (arith, h)) (omega (arith, l)) in ground (arith, h, r)

byte_at-length : (path : List ℕ) → byte_at path (length path) ≡ 0
byte_at-length [] = refl
byte_at-length (c ∷ cs) = byte_at-length cs

drop_chars_all : (path : List ℕ) → drop_chars (suc (length path)) path ≡ []
drop_chars_all [] = refl
drop_chars_all (c ∷ cs) = drop_chars_all cs

module _ {W : Type 0} where
  vfs_mount-IsPlain :
      (path : List ℕ) (ops : Ops W) (v : Vfs W)
      → IsPlain path
      → vfs_mount path ops v ≡ mount_at (find_mount v path) path ops v
  unfolding vfs_mount
  vfs_mount-IsPlain path ops v h =
      let a = h.absolute in
      let s : leb path_size (length path) ≡ false = let l = h.short in ground (arith, l) in
      let whole = h.whole in
      let name : take (trimmed path (length path)) path ≡ path =
        rw whole (take_of_length_le (length path) path (omega arith)) in
      rw (a, s, name) refl

  -- The mount that `vfs_mount` has added
  abbrev added : (path : List ℕ) → Ops W → Vfs W → Vfs W
  added path ops v = record (set_mount v.mount_count path ops v) { mount_count = v.mount_count + 1 }

  new_mount :
      (path : List ℕ) (ops : Ops W) (v : Vfs W)
      → IsPlain path
      → find_mount v path ≡ none
      → v.mount_count < max_mounts
      → vfs_mount path ops v ≡ (pos 0, added path ops v)
  new_mount path ops v h e room =
      let full : leb max_mounts v.mount_count ≡ false = ground (arith, room) in
      vfs_mount-IsPlain path ops v h ∙ rw (e, full) refl

  find_mount-added :
      (path : List ℕ) (ops : Ops W) (v : Vfs W)
      → find_mount v path ≡ none
      → find_mount (added path ops v) path ≡ some v.mount_count
  find_mount-added path ops v e =
      let c = v.mount_count in
      let v' = added path ops v in
      find_from-first (has_path v' path) (c + 1) c (omega arith)
        (rw (update_self v.mounts c (record { path = path; ops = some ops })) (same_name_refl path))
        (λ j l.
          let kept =
            update_ne v.mounts c j (record { path = path; ops = some ops }) (omega (arith, l)) in
          rw kept (find_from-none (has_path v path) 0 c e j (omega arith) (omega (arith, l))))

  remove_last :
      (v : Vfs W) (c : ℕ)
      → v.mount_count ≡ c + 1
      → remove_mount c v ≡ record { mounts = update v.mounts c empty_mount; mount_count = c }
  unfolding remove_mount for_from
  remove_last v c e =
      let last : v.mount_count - 1 ≡ c = omega (arith, e) in
      let nothing : c - c ≡ 0 = omega arith in rw (last, nothing) refl

  -- Unmounting a path that was just mounted succeeds and gives back the table of mounts of
  -- before, if the path is absolute, shorter than 32 characters, ends in no slash, is not the
  -- root and was not mounted, and a slot was free.
  pub vfs_umount-vfs_mount :
      (path : List ℕ) (ops : Ops W) (v : Vfs W)
      → IsPlain path
      → same_name path (slash ∷ []) ≡ false
      → find_mount v path ≡ none
      → v.mount_count < max_mounts
      → let r = vfs_umount path (vfs_mount path ops v).1 in
        (r.0 ≡ pos 0)
        × (r.1.mount_count ≡ v.mount_count)
        × ((i : ℕ) → i < v.mount_count → r.1.mounts i ≡ v.mounts i)
  unfolding vfs_umount
  vfs_umount-vfs_mount path ops v h other e room =
      let c = v.mount_count in
      let v' = added path ops v in
      let w : Vfs W = record { mounts = update v'.mounts c empty_mount; mount_count = c } in
      let absolute = h.absolute in
      let removed : vfs_umount path v' ≡ (pos 0, w) =
        rw (absolute, other, find_mount-added path ops v e)
          (ap (λ (x : Vfs W). (pos 0, x)) (remove_last v' c refl)) in
      let both : vfs_umount path (vfs_mount path ops v).1 ≡ (pos 0, w) =
        ap (λ (r : ℤ × Vfs W). vfs_umount path r.1) (new_mount path ops v h e room) ∙ removed in
      let kept : (i : ℕ) → i < c → w.mounts i ≡ v.mounts i = λ i l.
        update_ne v'.mounts c i empty_mount (omega (arith, l))
        ∙ update_ne v.mounts c i (record { path = path; ops = some ops }) (omega (arith, l)) in
      (
        ap (λ (r : ℤ × Vfs W). r.0) both,
        ap (λ (r : ℤ × Vfs W). r.1.mount_count) both,
        λ i l. ap (λ (r : ℤ × Vfs W). r.1.mounts i) both ∙ kept i l,
      )

  -- The slot that `vfs_mount` writes, and that no slot before it has the path.
  record Mounted (path : List ℕ) (ops : Ops W) (v : Vfs W) : Type 0 where
    slot : ℕ
    inside : slot < v.mount_count
    holds : v.mounts slot ≡ record { path = path; ops = some ops }
    before : (j : ℕ) → j < slot → has_path v path j ≡ false

  mount_at-Mounted :
      (path : List ℕ) (ops : Ops W) (v : Vfs W) (o : Option ℕ)
      → find_mount v path ≡ o
      → (mount_at o path ops v).0 ≡ pos 0
      → Mounted path ops (mount_at o path ops v).1
  mount_at-Mounted path ops v (some i) e ok =
      let f = find_from-FoundAt (has_path v path) 0 v.mount_count i e in
      let entry : Mount W = record { path = path; ops = some ops } in
      record {
        slot = i;
        inside = let b = f.below in omega (arith, b);
        holds = update_self v.mounts i entry;
        before =
            λ j l. rw (update_ne v.mounts i j entry (omega (arith, l))) (f.first j (omega arith) l);
      }
  mount_at-Mounted path ops v none e ok = elim (Bool-cases (leb max_mounts v.mount_count)) [
    | inl t ↦ absurd (refused t ok)
    | inr t ↦
        subst (λ (r : ℤ × Vfs W). Mounted path ops r.1) (sym (step t))
          (record {
            slot = v.mount_count;
            inside = omega arith;
            holds = update_self v.mounts v.mount_count entry;
            before = λ j l. rw (update_ne v.mounts v.mount_count j entry (omega (arith, l))) (
                find_from-none (has_path v path) 0 v.mount_count e j (omega arith)
                  (omega (arith, l)));
          })
  ]
    where
      entry : Mount W
      entry = record { path = path; ops = some ops }

      refused : leb max_mounts v.mount_count ≡ true → (mount_at none path ops v).0 ≡ pos 0 → ⊥
      refused t h =
          let e' : mount_at none path ops v ≡ (negsuc 0, v) = rw t refl in
          let e0 = sym (ap (λ (r : ℤ × Vfs W). r.0) e') ∙ h in absurd (cc e0)

      step :
          leb max_mounts v.mount_count ≡ false
          → mount_at none path ops v ≡ (pos 0, added path ops v)
      step t = rw t refl

  leads_self :
      (v : Vfs W) (path : List ℕ) (k : ℕ) → (v.mounts k).path ≡ path → leads v path k ≡ true
  leads_self v path k e =
      let p = is_prefix_refl path in let z = byte_at-length path in rw (e, p, z) (ground arith)

  Longest-slot :
      (path : List ℕ) (ops : Ops W) (v : Vfs W) (k : ℕ)
      → 1 < length path
      → (m : Mounted path ops v) → Longest v path v.mount_count k
      → k ≡ m.slot
  Longest-slot path ops v k long m l =
      let s = m.slot in
      let at_slot : (v.mounts s).path ≡ path = ap (λ (x : Mount W). x.path) m.holds in
      let len_s : length (v.mounts s).path ≡ length path = ap (λ (x : List ℕ). length x) at_slot in
      let suits_s = leads_self v path s at_slot in
      let most = l.most s m.inside suits_s in
      let suits = l.suits in
      let prefix : is_prefix (v.mounts k).path path ≡ true =
        ground (arith, suits, most, len_s, long) in
      let short = is_prefix-le (v.mounts k).path path prefix in
      let same = is_prefix-whole (v.mounts k).path path prefix (omega (arith, most, len_s)) in
      elim (Bool-cases (ltb k s)) [
        | inl t ↦ absurd (cc (same, m.before k (ground (arith, t))))
        | inr t ↦ elim (Bool-cases (ltb s k)) [
          | inl u ↦
              let less = l.first s (ground (arith, u)) suits_s in
              absurd (omega (arith, less, short, len_s))
          | inr u ↦ ground (arith, t, u)
        ]
      ]

  -- After a vfs_mount that succeeds, of an absolute path of 2 to 31 characters that ends in no
  -- slash, the path resolves to the file system just mounted, with nothing left of the path.
  pub resolve-vfs_mount :
      (path : List ℕ) (ops : Ops W) (v : Vfs W)
      → IsPlain path
      → 1 < length path
      → (vfs_mount path ops v).0 ≡ pos 0
      → resolve (vfs_mount path ops v).1 path ≡ (some ops, [])
  resolve-vfs_mount path ops v h long ok =
      let e = vfs_mount-IsPlain path ops v h in
      let m =
        mount_at-Mounted path ops v (find_mount v path) refl
          (sym (ap (λ (r : ℤ × Vfs W). r.0) e) ∙ ok) in
      ap (λ (r : ℤ × Vfs W). resolve r.1 path) e
      ∙ found (mount_at (find_mount v path) path ops v).1 m
    where
      found : (v' : Vfs W) → Mounted path ops v' → resolve v' path ≡ (some ops, [])
      found v' m = elim (resolve_lem v' path h.absolute) [
        | inl (e, n) ↦ absurd (
            cc
              (n m.slot m.inside, leads_self v' path m.slot (ap (λ (x : Mount W). x.path) m.holds)))
        | inr (k, l, e) ↦
            let s : k ≡ m.slot = Longest-slot path ops v' k long m l in
            let at_k : v'.mounts k ≡ record { path = path; ops = some ops } =
              ap v'.mounts s ∙ m.holds in
            let several : (length path == 1) ≡ false = ground (arith, long) in
            let one_more : length path + 1 ≡ suc (length path) = omega arith in
            e
            ∙ ap (λ (x : Mount W). (x.ops, subpath (length x.path) path)) at_k
            ∙ ap (λ (x : List ℕ). (some ops, x)) (rw (several, one_more) (drop_chars_all path))
      ]
