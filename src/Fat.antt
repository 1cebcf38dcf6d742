-- ===== src/Fat.antt =====
-- The FAT file systems, kernel/fs/fat.c: the entries of the allocation table for FAT12, FAT16 and
-- FAT32, the allocation of clusters, the chains, and the short names. Sectors are read and written
-- through the interface `Blocks`, which kernel/drivers/storage/block_cache.c implements.
pub mod Disk
pub mod Entries
pub mod Table
pub mod Roundtrip
pub mod Directory
pub mod Entry
pub mod Cached
mod Tests
use ao_os.Base.{
  ℕ, zero, suc, ◌+◌, ◌-◌, ◌*◌, ◌/◌, ◌%◌, ◌^◌, Bool, true, false, ◌&&◌, ◌||◌, not, Option, none,
  some, List, [], ◌∷◌, ltb, leb, ◌==◌, if◌then◌else◌, update, u8, u32, sub32,
}
use ao_os.Ramfs.{byte_at}
use Disk.{Sector, Blocks}

-- `fat_type_t`
pub data FatType : Type 0 where
  fat12 fat16 fat32 : FatType

-- The fields of the boot sector and the static variables that the table functions read
pub record Volume : Type 0 where
  pub type : FatType
  pub reserved_sectors : ℕ
  pub sectors_per_cluster : ℕ
  pub fat_count : ℕ
  pub fat_size : ℕ
  pub first_data : ℕ
  pub cluster_count : ℕ
  pub fsinfo_sector : ℕ
  pub backup_boot_sector : ℕ

abbrev pub sector_size : ℕ
sector_size = 512

abbrev pub eoc_value : FatType → ℕ
eoc_value fat12 = 0xfff
eoc_value fat16 = 0xffff
eoc_value fat32 = 0x0fffffff

abbrev pub first_eoc : FatType → ℕ
first_eoc fat12 = 0xff8
first_eoc fat16 = 0xfff8
first_eoc fat32 = 0x0ffffff8

abbrev pub is_eoc : FatType → ℕ → Bool
is_eoc t c = leb (first_eoc t) c

abbrev pub valid_data_cluster : Volume → ℕ → Bool
valid_data_cluster v c = leb 2 c && ltb c (u32 (v.cluster_count + 2))

abbrev pub cluster_sector : Volume → ℕ → ℕ
cluster_sector v c = u32 (v.first_data + sub32 c 2 * v.sectors_per_cluster)

-- `offset`: where the entry of a cluster starts in the table, in bytes
abbrev pub entry_offset : FatType → ℕ → ℕ
entry_offset fat12 c = u32 (c + c / 2)
entry_offset fat16 c = u32 (c * 2)
entry_offset fat32 c = u32 (c * 4)

abbrev pub word16 : (lo hi : ℕ) → ℕ
word16 lo hi = lo + 256 * hi

-- `*(uint32_t*)&sec[i]`
abbrev pub word32 : Sector → ℕ → ℕ
word32 s i = s i + 256 * s (i + 1) + 2 ^ 16 * s (i + 2) + 2 ^ 24 * s (i + 3)

-- `cluster & 1 ? v >> 4 : v & 0xFFF`
abbrev pub pick12 : (cluster v : ℕ) → ℕ
pick12 c v = if c % 2 == 1 then v / 16 else v % 4096

-- `cluster & 1 ? (old & 0x000F) | (value << 4) : (old & 0xF000) | (value & 0xFFF)` in 16 bits
abbrev pub put12 : (cluster old value : ℕ) → ℕ
put12 c old value =
    if c % 2 == 1 then old % 16 + value * 16 % 2 ^ 16 else old / 4096 * 4096 + value % 4096

-- `(old & 0xF0000000) | (value & 0x0FFFFFFF)`
abbrev pub put32 : (old value : ℕ) → ℕ
put32 old value = old / 2 ^ 28 * 2 ^ 28 + value % 2 ^ 28

abbrev pub store16 : Sector → (i v : ℕ) → Sector
store16 s i v = update (update s i (u8 v)) (i + 1) (u8 (v / 256))

abbrev pub store32 : Sector → (i v : ℕ) → Sector
store32 s i v = store16 (store16 s i v) (i + 2) (v / 2 ^ 16)

module _ (blocks : Blocks) where
  abbrev pub Dev : Type 0
  Dev = blocks.Dev

  -- The entry of a FAT12 whose second byte is in the next sector, which `fat_get` reads into one byte
  abbrev pub get_split : (cluster lo : ℕ) → Option Sector × Dev → ℕ × Dev
  get_split c lo (none, d) = (eoc_value fat12, d)
  get_split c lo (some next, d) = blocks.overrun c lo next d

  abbrev pub get_entry : FatType → (cluster sector at : ℕ) → Sector → Dev → ℕ × Dev
  get_entry fat12 c sector i sec d =
      if i == 511
      then get_split c (sec i) (blocks.read (u32 (sector + 1)) d)
      else (pick12 c (word16 (sec i) (sec (i + 1))), d)
  get_entry fat16 c sector i sec d = (word16 (sec i) (sec (i + 1)), d)
  get_entry fat32 c sector i sec d = (word32 sec i % 2 ^ 28, d)

  abbrev pub get_read : Volume → (cluster sector at : ℕ) → Option Sector × Dev → ℕ × Dev
  get_read v c sector i (none, d) = (eoc_value v.type, d)
  get_read v c sector i (some sec, d) = get_entry v.type c sector i sec d

  unfoldable pub fat_get : Volume → (cluster : ℕ) → Dev → ℕ × Dev
  fat_get v c d =
      let offset = entry_offset v.type c in
      let sector = u32 (v.reserved_sectors + offset / sector_size) in
      get_read v c sector (offset % sector_size) (blocks.read sector d)

  -- The second half of a FAT12 entry goes to the next sector, which is written first.
  abbrev pub set_split : (cluster value sector at : ℕ) → Sector → Option Sector × Dev → Bool × Dev
  set_split c value sector i sec (none, d) = (false, d)
  set_split c value sector i sec (some next, d) =
      let new = put12 c (word16 (sec i) (next 0)) value in
      let w = blocks.write (u32 (sector + 1)) (update next 0 (u8 (new / 256))) d in
      let last = blocks.write sector (update sec i (u8 new)) w.1 in
      if w.0 then last else (false, w.1)

  abbrev pub set_entry : FatType → (cluster value sector at : ℕ) → Sector → Dev → Bool × Dev
  set_entry fat12 c value sector i sec d =
      if i == 511
      then set_split c value sector i sec (blocks.read (u32 (sector + 1)) d)
      else blocks.write sector (store16 sec i (put12 c (word16 (sec i) (sec (i + 1))) value)) d
  set_entry fat16 c value sector i sec d = blocks.write sector (store16 sec i value) d
  set_entry fat32 c value sector i sec d =
      blocks.write sector (store32 sec i (put32 (word32 sec i) value)) d

  abbrev pub set_read : FatType → (cluster value sector at : ℕ) → Option Sector × Dev → Bool × Dev
  set_read t c value sector i (none, d) = (false, d)
  set_read t c value sector i (some sec, d) = set_entry t c value sector i sec d

  -- `true` is the result 0.
  unfoldable pub fat_set_copy : FatType → (base cluster value : ℕ) → Dev → Bool × Dev
  fat_set_copy t base c value d =
      let offset = entry_offset t c in
      let sector = u32 (base + offset / sector_size) in
      set_read t c value sector (offset % sector_size) (blocks.read sector d)

  -- The copies from number `i` on
  unfoldable pub set_copies : Volume → (cluster value i n : ℕ) → Dev → Bool × Dev
  set_copies v c value i zero d = (true, d)
  set_copies v c value i (suc n) d =
      let r = fat_set_copy v.type (u32 (v.reserved_sectors + i * v.fat_size)) c value d in
      let rest = set_copies v c value (i + 1) n r.1 in if r.0 then rest else (false, r.1)

  unfoldable pub fat_set : Volume → (cluster value : ℕ) → Dev → Bool × Dev
  fat_set v c value d = set_copies v c value 0 v.fat_count d

  -- `checked_next`: the next cluster and whether the chain ends with it, or nothing for a chain that is
  -- broken.
  abbrev pub checked_value : Volume → ℕ × Dev → Option (ℕ × Bool) × Dev
  checked_value v r =
      if is_eoc v.type r.0
      then (some (r.0, true), r.1)
      else if valid_data_cluster v r.0
      then (some (r.0, false), r.1)
      else (none, r.1)

  unfoldable pub checked_next : Volume → (c : ℕ) → Dev → Option (ℕ × Bool) × Dev
  checked_next v c d = if valid_data_cluster v c then checked_value v (fat_get v c d) else (none, d)

  abbrev pub fsinfo_ok : Sector → Bool
  fsinfo_ok s =
      (word32 s 0 == 0x41615252) && (word32 s 484 == 0x61417272) && (word32 s 508 == 0xaa550000)

  -- `delta` is added in 32 bits: -1 is 2^32 - 1.
  abbrev pub fsinfo_changed : Volume → (delta next_free : ℕ) → Sector → Sector
  fsinfo_changed v delta next_free s =
      let free_count = word32 s 488 in
      let s' = if free_count == 0xffffffff then s else store32 s 488 (u32 (free_count + delta)) in
      store32 s' 492 (if ltb next_free (u32 (v.cluster_count + 2)) then next_free else 2)

  abbrev pub fsinfo_read : Volume → (sector delta next_free : ℕ) → Option Sector × Dev → Dev
  fsinfo_read v sector delta next_free (none, d) = d
  fsinfo_read v sector delta next_free (some s, d) =
      if fsinfo_ok s then (blocks.write sector (fsinfo_changed v delta next_free s) d).1 else d

  unfoldable pub fsinfo_adjust_sector : Volume → (sector delta next_free : ℕ) → Dev → Dev
  fsinfo_adjust_sector v sector delta next_free d =
      if leb v.reserved_sectors sector
      then d
      else fsinfo_read v sector delta next_free (blocks.read sector d)

  abbrev pub is_set : ℕ → Bool
  is_set n = not (n == 0 || (n == 0xffff))

  abbrev pub fsinfo_adjust32 : Volume → (delta next_free : ℕ) → Dev → Dev
  fsinfo_adjust32 v delta next_free d =
      let d' = fsinfo_adjust_sector v v.fsinfo_sector delta next_free d in
      if is_set v.fsinfo_sector
      then (if is_set v.backup_boot_sector
          then fsinfo_adjust_sector v (v.backup_boot_sector + 1) delta next_free d'
          else d')
      else d

  abbrev pub fsinfo_of : FatType → Volume → (delta next_free : ℕ) → Dev → Dev
  fsinfo_of fat32 v delta next_free d = fsinfo_adjust32 v delta next_free d
  fsinfo_of _ v delta next_free d = d

  abbrev pub fsinfo_adjust : Volume → (delta next_free : ℕ) → Dev → Dev
  fsinfo_adjust v delta next_free d = fsinfo_of v.type v delta next_free d

  -- The sectors of a new cluster, from number `s` on, are filled with zeros.
  unfoldable pub zero_sectors : (first s n : ℕ) → Dev → Bool × Dev
  zero_sectors first s zero d = (true, d)
  zero_sectors first s (suc n) d =
      let r = blocks.write (u32 (first + s)) (λ j. 0) d in
      let rest = zero_sectors first (s + 1) n r.1 in if r.0 then rest else (false, r.1)

  -- The free cluster `c` is taken.
  abbrev pub take_cluster : Volume → (c : ℕ) → Dev → ℕ × Dev
  take_cluster v c d =
      let r = fat_set v c (eoc_value v.type) d in
      let z = zero_sectors (cluster_sector v c) 0 v.sectors_per_cluster r.1 in
      if r.0
      then (if z.0 then (c, fsinfo_adjust v (2 ^ 32 - 1) (u32 (c + 1)) z.1) else (0, z.1))
      else (0, r.1)

  -- The loop of `alloc_cluster` over `n` clusters from `c` on; 0 when none is free
  unfoldable pub alloc_from : Volume → (c n : ℕ) → Dev → ℕ × Dev
  alloc_from v c zero d = (0, d)
  alloc_from v c (suc n) d =
      let r = fat_get v c d in
      let rest = alloc_from v (c + 1) n r.1 in if r.0 == 0 then take_cluster v c r.1 else rest

  unfoldable pub alloc_cluster : Volume → Dev → ℕ × Dev
  alloc_cluster v d = alloc_from v 2 v.cluster_count d

  -- The loop of `free_chain`. On fuel: with write errors a chain that is a cycle is never left.
  unfoldable pub free_chain : (fuel : ℕ) → Volume → (c : ℕ) → Dev → Option Dev
  free_chain zero v c d = none
  free_chain (suc fuel) v c d =
      let r = fat_get v c d in
      let d' = fsinfo_adjust v 1 c (fat_set v c 0 r.1).1 in
      let rest = free_chain fuel v r.0 d' in
      if valid_data_cluster v c
      then (if is_eoc v.type r.0 || ltb r.0 2 then some d' else rest)
      else some d
