-- ===== src/Fat/Tests.antt =====
-- The theorems about the allocation table and the root directory, on a disk of zeros.
use ao_os.Base.{
  if◌then◌else◌, ◌==◌, ℕ, ◌%◌, ◌≡◌, ◌≢◌, ◌⊎◌, refl, sym, ap, true, some, some-injective, arith,
  update, update_self, update_ne,
}
use ao_os.Fat.Disk.{Sector, Blocks}
use ao_os.Fat.{fat12, Volume, fat_get, fat_set_copy}
use ao_os.Fat.Entries.{kept}
use ao_os.Fat.Directory.{DirEntry, Root, dir_location, dir_write}
use ao_os.Fat.Entry.{Reads, dir_read-dir_write}
use ao_os.Fat.Roundtrip.{Readable, IsSplit, fat_get-fat_set_copy}

abbrev bytes_of : Sector → Sector
bytes_of s j = s j % 256

-- A disk in memory, which never fails
abbrev memory : Blocks
memory = record {
  Dev = ℕ → Sector;
  IsSound = λ d. Unit {0};
  overrun = λ c lo next d. (0, d);
  read_IsSound = λ k d l g. tt;
  write_IsSound = λ k s d l g ok. tt;
  content = λ d k j. d k j % 256;
  content_byte = λ d k j. omega arith;
  read = λ k d. (some (λ j. d k j % 256), d);
  write = λ k s d. (true, update d k s);
  read_content = λ k d s l g e. sym (some-injective (λ j. d k j % 256) s e);
  read_keeps = λ k d i l g. refl;
  write_content = λ k s d _ _ ok j l b.
      let e = ap (λ (x : Sector). x j) (update_self d k s) in omega (arith, e, b);
  write_keeps = λ k s d i l g ok n. ap bytes_of (update_ne d k i s n);
}

abbrev floppy : Volume
floppy = record {
  type = fat12;
  reserved_sectors = 1;
  sectors_per_cluster = 1;
  fat_count = 2;
  fat_size = 9;
  first_data = 33;
  cluster_count = 2847;
  fsinfo_sector = 0;
  backup_boot_sector = 0;
}

memory-Readable : Readable memory
memory-Readable k d e = absurd (cc e)

-- Cluster 341 has its entry in two sectors.
written : (d : ℕ → Sector) → (fat_set_copy memory fat12 1 341 342 d).0 ≡ true
unfolding fat_set_copy
written d = refl

abbrev across : ℕ
across = 341

abbrev before : ℕ
before = 340

fat_get-fat_set_copy_example :
    let d' = (fat_set_copy memory fat12 1 across 342 (λ k j. 0)).1 in
    (IsSplit fat12 across ⊎ ((fat_get memory floppy across d').0 ≡ kept fat12 342))
    × ((across ≡ before)
        ⊎ IsSplit fat12 before
        ⊎ ((fat_get memory floppy before d').0 ≡ (fat_get memory floppy before (λ k j. 0)).0))
fat_get-fat_set_copy_example =
    fat_get-fat_set_copy memory floppy across before 342 (λ k j. 0) memory-Readable tt (omega arith)
      (omega arith) (omega arith) (written (λ k j. 0))

abbrev root : Root
root = record { root_entries = 224; root_cluster = 0 }

-- An entry of the size 1 at cluster 2
abbrev file : DirEntry
file j = if j == 0 then 65 else if j == 26 then 2 else if j == 28 then 1 else 32

abbrev zeros : ℕ → Sector
zeros k j = 0

file_written : (dir_write memory floppy root 0 17 file zeros).0 ≡ true
unfolding dir_write dir_location
file_written = refl

abbrev entry_17 : ℕ
entry_17 = 17

abbrev after_write : ℕ → Sector
after_write = (dir_write memory floppy root 0 17 file zeros).1

dir_read-dir_write_example :
    Reads memory memory-Readable floppy root refl (omega arith) after_write 17 file
    × (entry_17 ≢ 18
        → (f : DirEntry) → Reads memory memory-Readable floppy root refl (omega arith) zeros 18 f
        → Reads memory memory-Readable floppy root refl (omega arith) after_write 18 f)
dir_read-dir_write_example =
    dir_read-dir_write memory memory-Readable floppy root refl (omega arith) 17 18 file zeros
      (omega arith) (omega arith) tt (λ j. ground arith) file_written
