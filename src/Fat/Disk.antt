-- ===== src/Fat/Disk.antt =====
-- What kernel/fs/fat.c relies on of kernel/drivers/storage/block_cache.c: sectors of 512 bytes that are
-- read and written by their number.
use ao_os.Base.{ℕ, ◌^◌, ◌<◌, ◌≡◌, ◌≢◌, Bool, true, Option, some}

-- A sector is its bytes by their offset, of which 512 count.
abbrev pub Sector : Type 0
Sector = ℕ → ℕ

-- The driver below programs 28 bits of the sector number.
abbrev pub sector_limit : ℕ
sector_limit = 2 ^ 28

-- The laws hold from a sound state on (the cache agrees with the drive), which a write that fails
-- may end. `Cached` has them for the sector cache.
pub record Blocks : Type 1 where
  pub Dev : Type 0
  pub IsSound : Dev → Type 0
  pub content : Dev → ℕ → Sector
  pub content_byte : (d : Dev) (k j : ℕ) → content d k j < 256
  pub read : ℕ → Dev → Option Sector × Dev
  pub write : ℕ → Sector → Dev → Bool × Dev
  -- What `fat_get` returns, and leaves, after it has read the 512 bytes of a sector into its one byte
  -- `next`: the stack behind that byte is overwritten, so nothing is known of it.
  pub overrun : (cluster lo : ℕ) → Sector → Dev → ℕ × Dev
  pub read_IsSound : (k : ℕ) (d : Dev) → k < sector_limit → IsSound d → IsSound (read k d).1
  pub read_content :
      (k : ℕ) (d : Dev) (s : Sector)
      → k < sector_limit
      → IsSound d
      → (read k d).0 ≡ some s
      → s ≡ content d k
  pub read_keeps :
      (k : ℕ) (d : Dev) (i : ℕ)
      → k < sector_limit
      → IsSound d
      → content (read k d).1 i ≡ content d i
  pub write_IsSound :
      (k : ℕ) (s : Sector) (d : Dev)
      → k < sector_limit
      → IsSound d
      → (write k s d).0 ≡ true
      → IsSound (write k s d).1
  pub write_content :
      (k : ℕ) (s : Sector) (d : Dev)
      → k < sector_limit
      → IsSound d
      → (write k s d).0 ≡ true
      → (j : ℕ) → j < 512
      → s j < 256
      → content (write k s d).1 k j ≡ s j
  pub write_keeps :
      (k : ℕ) (s : Sector) (d : Dev) (i : ℕ)
      → k < sector_limit
      → IsSound d
      → (write k s d).0 ≡ true
      → k ≢ i
      → content (write k s d).1 i ≡ content d i
