-- ===== src/BlockCache.antt =====
-- The sector cache, kernel/drivers/storage/block_cache.c: 32 entries, write-through, the oldest
-- entry replaced first. The disk driver below it (kernel/drivers/storage/ata.c) is the interface
-- `Ata`. The children prove what the search functions find and that the cache is transparent.
pub mod Driver
pub mod Search
pub mod Coherent
mod Tests
use ao_os.Base.{
  ℕ, zero, suc, ◌+◌, ◌%◌, ◌^◌, Bool, true, false, ◌&&◌, Option, none, some, List, [], ltb, ◌==◌,
  if◌then◌else◌, update, find_from, u32,
}
use Driver.{Ata, Sector}

abbrev pub block_cache_size : ℕ
block_cache_size = 32

-- `cache_entry_t`
pub record Entry : Type 0 where
  pub valid : Bool
  pub lba : ℕ
  pub age : ℕ
  pub content : Sector

abbrev pub Entries : Type 0
Entries = ℕ → Entry

-- The two static variables.
pub record Cache : Type 0 where
  pub entries : Entries
  pub clock_tick : ℕ

-- `memset(cache, 0, sizeof(cache))`
abbrev pub blank : Entry
blank = record { valid = false; lba = 0; age = 0; content = [] }

pub invalidate : Cache
invalidate = record { entries = λ _. blank; clock_tick = 1 }

pub find_entry : Entries → ℕ → Option ℕ
find_entry c lba = find_from (λ i. (c i).valid && ((c i).lba == lba)) 0 block_cache_size

-- The loop of `choose_victim`, with `n` rounds left.
pub choose_from : Entries → (i n victim : ℕ) → ℕ
choose_from c i zero victim = victim
choose_from c i (suc n) victim =
    let rest = choose_from c (i + 1) n (if ltb (c i).age (c victim).age then i else victim) in
    if (c i).valid then rest else i

pub choose_victim : Entries → ℕ
choose_victim c = choose_from c 0 block_cache_size 0

-- `cache[i].age = clock_tick++`
abbrev pub touch : Cache → ℕ → Cache
touch c i = record {
  entries = update c.entries i (record (c.entries i) { age = c.clock_tick });
  clock_tick = u32 (c.clock_tick + 1);
}

-- The entry `i` comes to hold sector `lba`.
abbrev pub fill : Cache → ℕ → ℕ → Sector → Cache
fill c i lba sector = record {
  entries =
      update c.entries i (record { valid = true; lba = lba; age = c.clock_tick; content = sector });
  clock_tick = u32 (c.clock_tick + 1);
}

module _ (ata : Ata) where
  open ata use {Dev, read, write}

  abbrev pub State : Type 0
  State = Cache × Dev

  -- `none` is the result -1; a sector is what the buffer receives.
  abbrev pub load : ℕ → Cache → Option Sector × Dev → Option Sector × State
  load lba c (none, d) = (none, (c, d))
  load lba c (some s, d) = (some s, (fill c (choose_victim c.entries) lba s, d))

  abbrev pub serve : ℕ → Cache → Dev → Option ℕ → Option Sector × State
  serve lba c d (some i) = (some (c.entries i).content, (touch c i, d))
  serve lba c d none = load lba c (read lba d)

  pub read_sector : (lba : ℕ) (has_buffer : Bool) → State → Option Sector × State
  read_sector lba has_buffer (c, d) =
      if has_buffer then serve lba c d (find_entry c.entries lba) else (none, (c, d))

  -- The entry that a write goes to.
  abbrev pub slot : Entries → Option ℕ → ℕ
  slot c (some i) = i
  slot c none = choose_victim c

  abbrev pub store : ℕ → Sector → Cache → Bool × Dev → Bool × State
  store lba s c (false, d) = (false, (c, d))
  store lba s c (true, d) = (true, (fill c (slot c.entries (find_entry c.entries lba)) lba s, d))

  -- `true` is the result 0. The buffer may be a null pointer.
  pub write_sector : (lba : ℕ) (buffer : Option Sector) → State → Bool × State
  write_sector lba none (c, d) = (false, (c, d))
  write_sector lba (some s) (c, d) = store lba s c (write lba s d)
