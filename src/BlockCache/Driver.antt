-- ===== src/BlockCache/Driver.antt =====
-- What the cache relies on of the disk driver, kernel/drivers/storage/ata.c: `ata_read_sector`
-- and `ata_write_sector`. The ports of the controller are the device, which a call may change.
use ao_os.Base.{ℕ, ◌^◌, ◌<◌, ◌≡◌, Bool, Option, some, List}

-- The 512 bytes of a sector. The cache only moves them.
abbrev pub Sector : Type 0
Sector = List ℕ

-- The driver programs 28 bits of the sector number.
abbrev pub lba_limit : ℕ
lba_limit = 2 ^ 28

pub record Ata : Type 1 where
  pub Dev : Type 0
  -- What the selected drive holds.
  pub sector_at : Dev → ℕ → Sector
  -- A write reports success (`true`) when no wait has timed out; it does not look at the error bits
  -- behind the transfer, so what the drive holds then is left open.
  -- The buffer is written only by a read that succeeds.
  pub read : ℕ → Dev → Option Sector × Dev
  pub write : ℕ → Sector → Dev → Bool × Dev
  pub read_content :
      (lba : ℕ) (d : Dev) (s : Sector)
      → lba < lba_limit
      → (read lba d).0 ≡ some s
      → s ≡ sector_at d lba
  pub read_keeps : (lba : ℕ) (d : Dev) (k : ℕ) → sector_at (read lba d).1 k ≡ sector_at d k
