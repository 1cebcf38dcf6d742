-- ===== src/BlockCache/Tests.antt =====
-- The cache over a small disk in memory, which shows that the laws of `Ata` can hold, and the
-- theorems at concrete inputs.
use ao_os.Base.{
  ℕ, ◌≡◌, refl, ◌≢◌, Bool, true, false, Option, some, [], ◌∷◌, arith, if◌then◌else◌, update,
  find_from,
}
use ao_os.BlockCache.Driver.{Ata, Sector}
use ao_os.BlockCache.{
  State, invalidate, find_entry, choose_from, choose_victim, read_sector, write_sector,
}
use ao_os.BlockCache.Search.{IsHit}
use ao_os.BlockCache.Coherent.{
  IsCoherent, invalidate-IsCoherent, Transparent, read_sector-Transparent, Stored, Takes,
  write_sector-Stored, cached_read, read_after_failed_write,
}

-- A disk whose writes may fail after the data went through, as when the flush times out.
record RamDisk : Type 0 where
  content : ℕ → Sector
  broken : Bool

ram_read : ℕ → RamDisk → Option Sector × RamDisk
ram_read lba d = (some (d.content lba), d)

ram_write : ℕ → Sector → RamDisk → Bool × RamDisk
ram_write lba s d =
    (if d.broken then false else true, record d { content = update d.content lba s })

ram_read_content :
    (lba : ℕ) (d : RamDisk) (s : Sector) → (ram_read lba d).0 ≡ some s → s ≡ d.content lba
unfolding ram_read
ram_read_content lba d s e = cc

ram_write_content : (lba : ℕ) (s : Sector) (d : RamDisk) → (ram_write lba s d).1.content lba ≡ s
unfolding ram_write
ram_write_content lba s d = ground arith

ram_write_keeps :
    (lba : ℕ) (s : Sector) (d : RamDisk) (k : ℕ)
    → lba ≢ k
    → (ram_write lba s d).1.content k ≡ d.content k
unfolding ram_write
ram_write_keeps lba s d k ne = ground arith

ram_read_keeps : (lba : ℕ) (d : RamDisk) (k : ℕ) → (ram_read lba d).1.content k ≡ d.content k
unfolding ram_read
ram_read_keeps lba d k = refl

abbrev ram : Ata
ram = record {
  Dev = RamDisk;
  sector_at = λ d. d.content;
  read = ram_read;
  write = ram_write;
  read_content = λ lba d s _ e. ram_read_content lba d s e;
  read_keeps = ram_read_keeps;
}

abbrev disk : Bool → RamDisk
disk broken = record { content = λ lba. lba ∷ []; broken = broken }

-- The cache after a first read of sector 5.
abbrev warm : Bool → State ram
warm broken = (read_sector ram 5 true (invalidate, disk broken)).1

-- What a run of the cache computes with.
program : Unit {0}
unfolding read_sector write_sector find_entry choose_victim choose_from invalidate find_from
    ram_read ram_write
program = tt

warm-IsHit : (broken : Bool) → IsHit (warm broken).0.entries 5 0
unfolding program
warm-IsHit broken = record { in_range = omega arith; valid = refl; same = refl }

warm-IsCoherent : (broken : Bool) → IsCoherent ram (warm broken)
warm-IsCoherent broken =
    (read_sector-Transparent ram 5 true (invalidate, disk broken) (omega arith)
      (invalidate-IsCoherent ram (disk broken))).coherent

read_twice : (read_sector ram 5 true (warm false)).0 ≡ some (5 ∷ [])
unfolding program
read_twice = refl

write_works : (write_sector ram 5 (some (7 ∷ [])) (warm false)).0 ≡ true
unfolding program
write_works = refl

write_fails : (write_sector ram 5 (some (7 ∷ [])) (warm true)).0 ≡ false
unfolding program
write_fails = refl

read_sector-Transparent_example :
    Transparent ram (warm false) 6 (read_sector ram 6 true (warm false))
read_sector-Transparent_example =
    read_sector-Transparent ram 6 true (warm false) (omega arith) (warm-IsCoherent false)

drive_ok : Takes ram 5 (7 ∷ []) (warm false).1 (write_sector ram 5 (some (7 ∷ [])) (warm false)).1.1
unfolding program
drive_ok = (
  ram_write_content 5 (7 ∷ []) (warm false).1,
  λ k _ ne. ram_write_keeps 5 (7 ∷ []) (warm false).1 k ne,
)

write_sector-Stored_example :
    Stored ram (warm false) 5 (7 ∷ []) (write_sector ram 5 (some (7 ∷ [])) (warm false)).1
write_sector-Stored_example =
    write_sector-Stored ram 5 (7 ∷ []) (warm false) (omega arith) (warm-IsCoherent false) drive_ok
      write_works

-- The drive below the cache is exchanged for one that holds other contents.
abbrev other_drive : RamDisk
other_drive = record { content = λ lba. 9 ∷ []; broken = false }

cached_read_example :
    ((read_sector ram 5 true ((warm false).0, other_drive)).0 ≡ some ((warm false).1.content 5))
    × ((read_sector ram 5 true ((warm false).0, other_drive)).1.1 ≡ other_drive)
cached_read_example =
    cached_read ram 5 (warm false).0 (warm false).1 other_drive 0 (warm-IsHit false)
      (warm-IsCoherent false)

read_after_failed_write_example :
    (read_sector ram 5 true (write_sector ram 5 (some (7 ∷ [])) (warm true)).1).0
    ≡ some ((warm true).1.content 5)
read_after_failed_write_example =
    read_after_failed_write ram 5 (7 ∷ []) (warm true) 0 (warm-IsHit true) (warm-IsCoherent true)
      write_fails
