-- ===== src/Vfs/Tests.antt =====
-- The theorems about the mount table at concrete inputs.
use ao_os.Base.{ℕ, zero, suc, ◌<◌, ◌≡◌, refl, ◌⊎◌, find_from, none, some, List, [], ◌∷◌, arith}
use ao_os.Base.Int.{pos}
use ao_os.Vfs.{Ops, Vfs, find_mount, trimmed, vfs_mount, vfs_umount, resolve}
use ao_os.Vfs.Paths.{LeadsTo, IsString, LongestPath, resolve-Longest}
use ao_os.Vfs.Mounting.{IsPlain, vfs_umount-vfs_mount, resolve-vfs_mount}

-- A file system without operations
abbrev no_ops : (name : List ℕ) → Ops ℕ
no_ops name = record {
  name = name;
  create = none;
  read = none;
  delete = none;
  list = none;
  mkdir = none;
  rmdir = none;
  chdir = none;
  getcwd = none;
  disk_info = none;
}

abbrev root : Vfs ℕ
root = record {
  mounts = λ i. record { path = 47 ∷ []; ops = some (no_ops (1 ∷ [])) };
  mount_count = 1;
}

-- "/mnt"
abbrev mnt : List ℕ
mnt = 47 ∷ 109 ∷ 110 ∷ 116 ∷ []

-- "/mnt/a"
abbrev mnt_a : List ℕ
mnt_a = 47 ∷ 109 ∷ 110 ∷ 116 ∷ 47 ∷ 97 ∷ []

mnt-IsPlain : IsPlain mnt
unfolding trimmed
mnt-IsPlain = record { absolute = refl; short = omega arith; whole = refl }

mounted : (vfs_mount mnt (no_ops []) root).0 ≡ pos 0
unfolding vfs_mount trimmed find_from
mounted = refl

not_mounted : find_mount root mnt ≡ none
unfolding find_from
not_mounted = refl

mnt_a-IsString : IsString mnt_a
mnt_a-IsString zero l e = absurd (omega (arith, e))
mnt_a-IsString (suc zero) l e = absurd (omega (arith, e))
mnt_a-IsString (suc (suc zero)) l e = absurd (omega (arith, e))
mnt_a-IsString (suc (suc (suc zero))) l e = absurd (omega (arith, e))
mnt_a-IsString (suc (suc (suc (suc zero)))) l e = absurd (omega (arith, e))
mnt_a-IsString (suc (suc (suc (suc (suc zero))))) l e = absurd (omega (arith, e))
mnt_a-IsString (suc (suc (suc (suc (suc (suc i)))))) l e = absurd (omega (arith, l))

resolve-Longest_example :
    ((resolve root mnt_a ≡ (none, mnt_a))
      × ((j : ℕ) (r : List ℕ) → j < root.mount_count → LeadsTo (root.mounts j).path mnt_a r → ⊥))
    ⊎ ((k : ℕ) × (rest : List ℕ) × LongestPath root mnt_a refl mnt_a-IsString k rest
        × (resolve root mnt_a ≡ ((root.mounts k).ops, rest)))
resolve-Longest_example = resolve-Longest root mnt_a refl mnt_a-IsString

vfs_umount-vfs_mount_example :
    let r = vfs_umount mnt (vfs_mount mnt (no_ops []) root).1 in
    (r.0 ≡ pos 0)
    × (r.1.mount_count ≡ root.mount_count)
    × ((i : ℕ) → i < root.mount_count → r.1.mounts i ≡ root.mounts i)
vfs_umount-vfs_mount_example =
    vfs_umount-vfs_mount mnt (no_ops []) root mnt-IsPlain refl not_mounted (omega arith)

resolve-vfs_mount_example : resolve (vfs_mount mnt (no_ops []) root).1 mnt ≡ (some (no_ops []), [])
resolve-vfs_mount_example = resolve-vfs_mount mnt (no_ops []) root mnt-IsPlain (omega arith) mounted
