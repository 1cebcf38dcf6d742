-- ===== src/Vfs.antt =====
-- The mount table of kernel/fs/vfs.c. Paths are lists of characters without their NUL. The file
-- systems are tables of functions over a world `W`, which the source keeps in their own modules.
pub mod Resolve
pub mod Paths
pub mod Mounting
mod Tests
use ao_os.Base.{
  ℕ, zero, suc, ◌+◌, ◌-◌, Bool, true, false, ◌&&◌, ◌||◌, not, Option, none, some, List, [], ◌∷◌,
  ltb, leb, ◌==◌, if◌then◌else◌, update, find_from, for_from, take, length,
}
use ao_os.Base.Int.{ℤ, pos, negsuc}
use ao_os.Ramfs.{byte_at, same_name}
use ao_os.Net.Wire.{Frame}
use ao_os.Net.Text.{Text, append_str, start_text, terminated, space, newline}

-- `fs_file_info_t`, as far as the mount table hands it on
abbrev pub FileInfo : Type 0
FileInfo = List ℕ

-- `vfs_ops_t`. An operation that is not there is `none`; a result is the code and the new world.
pub record Ops (W : Type 0) : Type 0 where
  pub name : List ℕ
  pub create : Option (List ℕ → List ℕ → W → ℤ × W)
  pub read : Option (List ℕ → (max_size : ℕ) → W → ℤ × List ℕ × W)
  pub delete : Option (List ℕ → W → ℤ × W)
  pub list : Option (W → ℤ × List FileInfo × W)
  pub mkdir : Option (List ℕ → W → ℤ × W)
  pub rmdir : Option (List ℕ → W → ℤ × W)
  pub chdir : Option (List ℕ → W → ℤ × W)
  pub getcwd : Option (W → List ℕ)
  pub disk_info : Option (W → ℕ × ℕ × ℕ)

abbrev pub max_mounts : ℕ
max_mounts = 8

-- `sizeof(mounts[0].path)`
abbrev pub path_size : ℕ
path_size = 32

-- `mount_t`
pub record Mount (W : Type 0) : Type 0 where
  pub path : List ℕ
  pub ops : Option (Ops W)

-- The static variables.
pub record Vfs (W : Type 0) : Type 0 where
  pub mounts : ℕ → Mount W
  pub mount_count : ℕ

abbrev pub slash : ℕ
slash = 47

-- Behind the end of a path `byte_at` reads the NUL.
abbrev pub is_sep : ℕ → Bool
is_sep c = c == slash || (c == 0)

-- `path[0] == '/'`
abbrev pub is_absolute : List ℕ → Bool
is_absolute path = byte_at path 0 == slash

-- `strncmp(path, m, strlen(m)) == 0`
abbrev pub is_prefix : List ℕ → List ℕ → Bool
is_prefix [] path = true
is_prefix (c ∷ cs) [] = false
is_prefix (c ∷ cs) (d ∷ ds) = c == d && is_prefix cs ds

-- `while (len > 1 && path[len - 1] == '/') len--`
unfoldable pub trimmed : List ℕ → (len : ℕ) → ℕ
trimmed path zero = 0
trimmed path (suc zero) = 1
trimmed path (suc (suc k)) =
    let rest = trimmed path (suc k) in if byte_at path (suc k) == slash then rest else suc (suc k)

-- `append`, which is `append_str` of kernel/net/net.c again
abbrev pub append : (max : ℕ) → List ℕ → Text → Text
append max s t = append_str max s t

-- `best` and `best_len` of `resolve`; `none` is -1.
pub record Best : Type 0 where
  pub best : Option ℕ
  pub len : ℕ

abbrev pub better : Best → (len : ℕ) → Bool
better b len = elim b.best [ none ↦ true | some k ↦ ltb b.len len ]

abbrev pub drop_chars : (n : ℕ) → List ℕ → List ℕ
drop_chars zero s = s
drop_chars (suc n) [] = []
drop_chars (suc n) (c ∷ cs) = drop_chars n cs

-- The path below a mount of `len` characters
abbrev pub subpath : (len : ℕ) → List ℕ → List ℕ
subpath len path = drop_chars (if len == 1 then 1 else len + 1) path

module _ {W : Type 0} where
  abbrev pub empty_mount : Mount W
  empty_mount = record { path = []; ops = none }

  unfoldable pub vfs_init : Vfs W
  vfs_init = record { mounts = λ i. empty_mount; mount_count = 0 }

  abbrev pub has_path : Vfs W → List ℕ → ℕ → Bool
  has_path v path i = same_name (v.mounts i).path path

  abbrev pub find_mount : Vfs W → List ℕ → Option ℕ
  find_mount v path = find_from (has_path v path) 0 v.mount_count

  abbrev pub set_mount : (i : ℕ) → (path : List ℕ) → Ops W → Vfs W → Vfs W
  set_mount i path ops v = record v {
    mounts = update v.mounts i (record { path = path; ops = some ops });
  }

  -- `vfs_mount` from its loop on
  abbrev pub mount_at : Option ℕ → List ℕ → Ops W → Vfs W → ℤ × Vfs W
  mount_at (some i) path ops v = (pos 0, set_mount i path ops v)
  mount_at none path ops v =
      if leb max_mounts v.mount_count
      then (negsuc 0, v)
      else (pos 0, record (set_mount v.mount_count path ops v) { mount_count = v.mount_count + 1 })

  unfoldable pub vfs_mount : List ℕ → Ops W → Vfs W → ℤ × Vfs W
  vfs_mount path ops v =
      let name = take (trimmed path (length path)) path in
      if not (is_absolute path) || leb path_size (length path)
      then (negsuc 0, v)
      else mount_at (find_mount v name) name ops v

  abbrev pub vfs_mount_root : Ops W → Vfs W → ℤ × Vfs W
  vfs_mount_root ops v = vfs_mount (slash ∷ []) ops v

  -- The mounts behind slot `i` move down by one, and the last slot is cleared.
  unfoldable pub remove_mount : (i : ℕ) → Vfs W → Vfs W
  remove_mount i v =
      let last = v.mount_count - 1 in
      let moved = for_from (λ j ms. update ms j (ms (j + 1))) i (last - i) v.mounts in
      record { mounts = update moved last empty_mount; mount_count = last }

  unfoldable pub vfs_umount : List ℕ → Vfs W → ℤ × Vfs W
  vfs_umount path v =
      if not (is_absolute path) || same_name path (slash ∷ [])
      then (negsuc 0, v)
      else elim (find_mount v path) [ none ↦ (negsuc 0, v) | some i ↦ (pos 0, remove_mount i v) ]

  abbrev pub type_name : Option (Ops W) → List ℕ
  type_name none = 110 ∷ 111 ∷ 110 ∷ 101 ∷ []
  type_name (some ops) = ops.name

  abbrev pub append_mount : (max : ℕ) → Mount W → Text → Text
  append_mount max m t =
      let t' = append max space (append max m.path t) in
      append max newline (append max (type_name m.ops) t')

  unfoldable pub vfs_get_mounts : Frame → (max : ℕ) → Vfs W → Option Text
  vfs_get_mounts buffer max v =
      let t = for_from (λ i. append_mount max (v.mounts i)) 0 v.mount_count (start_text buffer) in
      if max == 0 then none else some (terminated max t)

  -- Slot `i` has a path that leads to `path`: every absolute path starts at the root.
  abbrev pub leads : Vfs W → List ℕ → (i : ℕ) → Bool
  leads v path i =
      let m = (v.mounts i).path in
      (length m == 1) || (is_prefix m path && is_sep (byte_at path (length m)))

  -- The body of the loop of `resolve`
  abbrev pub try_mount : Vfs W → List ℕ → (i : ℕ) → Best → Best
  try_mount v path i b =
      let len = length (v.mounts i).path in
      if leads v path i && better b len then record { best = some i; len = len } else b

  abbrev pub best_mount : Vfs W → List ℕ → Best
  best_mount v path = for_from (try_mount v path) 0 v.mount_count (record { best = none; len = 0 })

  abbrev pub resolved : Vfs W → List ℕ → Best → Option (Ops W) × List ℕ
  resolved v path b = elim b.best [
    | none ↦ (none, path)
    | some i ↦ ((v.mounts i).ops, subpath b.len path)
  ]

  unfoldable pub resolve : Vfs W → List ℕ → Option (Ops W) × List ℕ
  resolve v path =
      if v.mount_count == 0
      then (none, path)
      else if is_absolute path
      then resolved v path (best_mount v path)
      else ((v.mounts 0).ops, path)

  pub vfs_get_root_type : Vfs W → List ℕ
  vfs_get_root_type v = if ltb 0 v.mount_count then type_name (v.mounts 0).ops else type_name none

  unfoldable pub vfs_create : List ℕ → List ℕ → Vfs W → W → ℤ × W
  vfs_create path content v w =
      let r = resolve v path in
      elim r.0 [
        | none ↦ (negsuc 0, w)
        | some ops ↦ elim ops.create [ none ↦ (negsuc 0, w) | some f ↦ f r.1 content w ]
      ]

  unfoldable pub vfs_delete : List ℕ → Vfs W → W → ℤ × W
  vfs_delete path v w =
      let r = resolve v path in
      elim r.0 [
        | none ↦ (negsuc 0, w)
        | some ops ↦ elim ops.delete [ none ↦ (negsuc 0, w) | some f ↦ f r.1 w ]
      ]

  unfoldable pub vfs_mkdir : List ℕ → Vfs W → W → ℤ × W
  vfs_mkdir path v w =
      let r = resolve v path in
      elim r.0 [
        | none ↦ (negsuc 0, w)
        | some ops ↦ elim ops.mkdir [ none ↦ (negsuc 0, w) | some f ↦ f r.1 w ]
      ]

  unfoldable pub vfs_rmdir : List ℕ → Vfs W → W → ℤ × W
  vfs_rmdir path v w =
      let r = resolve v path in
      elim r.0 [
        | none ↦ (negsuc 0, w)
        | some ops ↦ elim ops.rmdir [ none ↦ (negsuc 0, w) | some f ↦ f r.1 w ]
      ]

  unfoldable pub vfs_chdir : List ℕ → Vfs W → W → ℤ × W
  vfs_chdir path v w =
      let r = resolve v path in
      elim r.0 [
        | none ↦ (negsuc 0, w)
        | some ops ↦ elim ops.chdir [ none ↦ (negsuc 0, w) | some f ↦ f r.1 w ]
      ]

  unfoldable pub vfs_read : List ℕ → (max_size : ℕ) → Vfs W → W → ℤ × List ℕ × W
  vfs_read path max_size v w =
      let r = resolve v path in
      elim r.0 [
        | none ↦ (negsuc 0, [], w)
        | some ops ↦ elim ops.read [ none ↦ (negsuc 0, [], w) | some f ↦ f r.1 max_size w ]
      ]

  -- The listing is that of the first mount.
  unfoldable pub vfs_list : Vfs W → W → ℤ × List FileInfo × W
  vfs_list v w = elim (resolve v []).0 [
    | none ↦ (negsuc 0, [], w)
    | some ops ↦ elim ops.list [ none ↦ (negsuc 0, [], w) | some f ↦ f w ]
  ]

  -- `mounts[0].ops` when there is a mount
  abbrev pub root_ops : Vfs W → Option (Ops W)
  root_ops v = if ltb 0 v.mount_count then (v.mounts 0).ops else none

  pub vfs_getcwd : Vfs W → W → List ℕ
  vfs_getcwd v w = elim (root_ops v) [
    | none ↦ slash ∷ []
    | some ops ↦ elim ops.getcwd [ none ↦ slash ∷ [] | some f ↦ f w ]
  ]

  pub vfs_get_disk_info : Vfs W → W → ℕ × ℕ × ℕ
  vfs_get_disk_info v w = elim (root_ops v) [
    | none ↦ (0, 0, 0)
    | some ops ↦ elim ops.disk_info [ none ↦ (0, 0, 0) | some f ↦ f w ]
  ]
