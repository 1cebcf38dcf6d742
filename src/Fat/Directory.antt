-- ===== src/Fat/Directory.antt =====
-- The directories of kernel/fs/fat.c: entries of 32 bytes, where they are on the disk, and their short
-- names.
use ao_os.Base.{
  ℕ, zero, suc, ◌+◌, ◌-◌, ◌*◌, ◌/◌, ◌%◌, ◌^◌, Bool, true, false, ◌&&◌, ◌||◌, not, Option, none,
  some, List, [], ◌∷◌, ltb, leb, ◌==◌, if◌then◌else◌, u32, bit_and,
}
use ao_os.Net.Wire.{copy}
use ao_os.Fat.Disk.{Sector, Blocks}
use ao_os.Fat.{
  FatType, fat32, Volume, Dev, word16, store16, is_eoc, cluster_sector, fat_get, free_chain,
}

-- `fat_dir_entry_t`: its 32 bytes
abbrev pub DirEntry : Type 0
DirEntry = ℕ → ℕ

abbrev pub dir_entry_size : ℕ
dir_entry_size = 32

abbrev pub max_dir_entries : ℕ
max_dir_entries = 512

abbrev pub attr : DirEntry → ℕ
attr e = e 11

abbrev pub entry_cluster : FatType → DirEntry → ℕ
entry_cluster fat32 e = word16 (e 26) (e 27) + word16 (e 20) (e 21) * 2 ^ 16
entry_cluster _ e = word16 (e 26) (e 27)

abbrev pub set_entry_cluster : FatType → DirEntry → (c : ℕ) → DirEntry
set_entry_cluster fat32 e c = store16 (store16 e 26 c) 20 (c / 2 ^ 16)
set_entry_cluster _ e c = store16 (store16 e 26 c) 20 0

-- The static variables that the directories need besides the volume
pub record Root : Type 0 where
  pub root_entries : ℕ
  pub root_cluster : ℕ

abbrev pub is_fat32 : FatType → Bool
is_fat32 fat32 = true
is_fat32 _ = false

-- A letter of a short name
abbrev pub upper : ℕ → ℕ
upper c = if leb 97 c && leb c 122 then c - 32 else c

abbrev pub dot : ℕ
dot = 46

-- At most `n` characters up to the dot, padded with blanks
abbrev pub base_name : (n : ℕ) → List ℕ → ℕ → ℕ
base_name zero s j = 32
base_name (suc n) [] j = 32
base_name (suc n) (c ∷ cs) zero = if c == dot then 32 else upper c
base_name (suc n) (c ∷ cs) (suc j) = let rest = base_name n cs j in if c == dot then 32 else rest

-- What follows the first dot
abbrev pub after_dot : List ℕ → List ℕ
after_dot [] = []
after_dot (c ∷ cs) = let rest = after_dot cs in if c == dot then cs else rest

abbrev pub extension : (n : ℕ) → List ℕ → ℕ → ℕ
extension zero s j = 32
extension (suc n) [] j = 32
extension (suc n) (c ∷ cs) zero = upper c
extension (suc n) (c ∷ cs) (suc j) = extension n cs j

-- The 11 bytes of the short name
abbrev pub make_sfn : List ℕ → ℕ → ℕ
make_sfn input j = if ltb j 8 then base_name 8 input j else extension 3 (after_dot input) (j - 8)

-- The first `n` bytes agree.
unfoldable pub same_bytes : (n : ℕ) → (f g : ℕ → ℕ) → Bool
same_bytes zero f g = true
same_bytes (suc n) f g = (f n == g n) && same_bytes n f g

abbrev pub name_match : DirEntry → List ℕ → Bool
name_match e name = same_bytes 11 e (make_sfn name)

-- The loop of `find_entry` passes over deleted entries, long names and labels.
abbrev pub is_skipped : DirEntry → Bool
is_skipped e = e 0 == 0xe5 || (attr e == 0x0f) || not (bit_and (attr e) 0x08 == 0)

-- Where an entry is: a sector and an offset in it
pub record Location : Type 0 where
  pub sector : ℕ
  pub offset : ℕ

module _ (blocks : Blocks) where
  -- `skip` steps along the chain
  unfoldable pub skip_clusters : Volume → (skip c : ℕ) → Dev blocks → Option ℕ × Dev blocks
  skip_clusters v zero c d = (some c, d)
  skip_clusters v (suc skip) c d =
      let r = fat_get blocks v c d in
      let rest = skip_clusters v skip r.0 r.1 in
      if is_eoc v.type r.0 || ltb r.0 2 then (none, r.1) else rest

  abbrev pub within_cluster :
      Volume → (within : ℕ) → Option ℕ × Dev blocks → Option Location × Dev blocks
  within_cluster v within (none, d) = (none, d)
  within_cluster v within (some c, d) = (
    some (record {
      sector = u32 (cluster_sector v c + within / 16);
      offset = within % 16 * dir_entry_size;
    }),
    d,
  )

  -- The root directory of FAT12 and FAT16 has its own sectors.
  abbrev pub root_location : Volume → Root → (index : ℕ) → Option Location
  root_location v root index =
      if leb root.root_entries index
      then none
      else some (record {
        sector = u32 (v.reserved_sectors + v.fat_count * v.fat_size + index / 16);
        offset = index % 16 * dir_entry_size;
      })

  unfoldable pub dir_location :
      Volume → Root → (dir index : ℕ) → Dev blocks → Option Location × Dev blocks
  dir_location v root dir index d =
      let per_cluster = u32 (v.sectors_per_cluster * 16) in
      let c = if dir == 0 then root.root_cluster else dir in
      if (dir == 0) && not (is_fat32 v.type)
      then (root_location v root index, d)
      else within_cluster v (index % per_cluster) (skip_clusters v (index / per_cluster) c d)

  abbrev pub entry_read : (offset : ℕ) → Option Sector × Dev blocks → Option DirEntry × Dev blocks
  entry_read offset (none, d) = (none, d)
  entry_read offset (some s, d) = (some (λ j. s (offset + j)), d)

  abbrev pub located_read : Option Location × Dev blocks → Option DirEntry × Dev blocks
  located_read (none, d) = (none, d)
  located_read (some l, d) = entry_read l.offset (blocks.read l.sector d)

  unfoldable pub dir_read :
      Volume → Root → (dir index : ℕ) → Dev blocks → Option DirEntry × Dev blocks
  dir_read v root dir index d = located_read (dir_location v root dir index d)

  abbrev pub entry_write : Location → DirEntry → Option Sector × Dev blocks → Bool × Dev blocks
  entry_write l e (none, d) = (false, d)
  entry_write l e (some s, d) = blocks.write l.sector (copy s l.offset e 0 dir_entry_size) d

  abbrev pub located_write : DirEntry → Option Location × Dev blocks → Bool × Dev blocks
  located_write e (none, d) = (false, d)
  located_write e (some l, d) = entry_write l e (blocks.read l.sector d)

  unfoldable pub dir_write :
      Volume → Root → (dir index : ℕ) → DirEntry → Dev blocks → Bool × Dev blocks
  dir_write v root dir index e d = located_write e (dir_location v root dir index d)

  -- The loop of `find_entry` over `n` entries from `index` on: the entry and its index
  unfoldable pub find_from_index :
      Volume
      → Root
      → (dir : ℕ) → List ℕ
      → (index n : ℕ) → Dev blocks
      → Option (DirEntry × ℕ) × Dev blocks
  find_from_index v root dir name index zero d = (none, d)
  find_from_index v root dir name index (suc n) d =
      let r = dir_read v root dir index d in
      let rest = find_from_index v root dir name (index + 1) n r.1 in
      elim r.0 [
        | none ↦ (none, r.1)
        | some e ↦
            if e 0 == 0
            then (none, r.1)
            else if not (is_skipped e) && name_match e name
            then (some (e, index), r.1)
            else rest
      ]

  unfoldable pub find_entry :
      Volume → Root → (dir : ℕ) → List ℕ → Dev blocks → Option (DirEntry × ℕ) × Dev blocks
  find_entry v root dir name d = find_from_index v root dir name 0 max_dir_entries d

  -- `fat_delete` on the entry that was found. The chain is freed on fuel.
  abbrev pub delete_found :
      (fuel : ℕ)
      → Volume
      → Root
      → (dir : ℕ) → Option (DirEntry × ℕ) × Dev blocks
      → Option (Bool × Dev blocks)
  delete_found fuel v root dir (none, d) = some (false, d)
  delete_found fuel v root dir (some (e, i), d) =
      let gone : DirEntry = λ j. if j == 0 then 0xe5 else e j in
      if bit_and (attr e) 0x10 == 0
      then (elim (free_chain blocks fuel v (entry_cluster v.type e) d) [
        | none ↦ none
        | some d' ↦ some (dir_write v root dir i gone d')
      ])
      else some (false, d)

  unfoldable pub fat_delete :
      (fuel : ℕ) → Volume → Root → (dir : ℕ) → List ℕ → Dev blocks → Option (Bool × Dev blocks)
  fat_delete fuel v root dir name d = delete_found fuel v root dir (find_entry v root dir name d)
