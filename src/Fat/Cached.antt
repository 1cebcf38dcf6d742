-- ===== src/Fat/Cached.antt =====
-- The sectors that kernel/fs/fat.c reads and writes, through kernel/drivers/storage/block_cache.c: the
-- sector cache of `BlockCache` over a drive that stores what it reports as written has the laws of
-- `Blocks`.
use ao_os.Base.{
  ℕ, zero, suc, ◌+◌, ◌<◌, ◌≡◌, refl, sym, ◌∙◌, ap, subst, ◌⊎◌, ◌^◌, inl, inr, Bool, true, Option,
  none, some, some-injective, List, [], ◌∷◌, arith, ltb, if◌then◌else◌, Bool-cases,
}
use ao_os.Ramfs.{byte_at}
use ao_os.BlockCache.Driver.{Ata, lba_limit}
use ao_os.BlockCache.{State, read_sector, write_sector}
use ao_os.BlockCache.Coherent.{
  IsCoherent, Takes, read_sector-Transparent, write_sector-Stored, write_sector-device,
}
use ao_os.Fat.Disk.{Sector, Blocks}
use ao_os.Fat.{Volume, fat_get, fat_set_copy}
use ao_os.Fat.Entries.{kept}
use ao_os.Fat.Roundtrip.{Readable, IsSplit, fat_get-fat_set_copy}

-- The bytes of a buffer from offset `i` on
abbrev bytes_from : Sector → (i n : ℕ) → List ℕ
bytes_from s i zero = []
bytes_from s i (suc n) = s i ∷ bytes_from s (i + 1) n

byte_at-bytes_from : (s : Sector) (i n j : ℕ) → j < n → byte_at (bytes_from s i n) j ≡ s (i + j)
byte_at-bytes_from s i zero j h = absurd (omega (arith, h))
byte_at-bytes_from s i (suc n) zero h = ap s (omega arith)
byte_at-bytes_from s i (suc n) (suc j) h =
    byte_at-bytes_from s (i + 1) n j (omega (arith, h)) ∙ ap s (omega arith)

-- A drive of bytes that has stored every sector whose write it reports as done.
record IsReliable (ata : Ata) : Type 0 where
  bytes : (d : ata.Dev) (k j : ℕ) → byte_at (ata.sector_at d k) j < 256
  stores :
      (k : ℕ) (s : List ℕ) (d : ata.Dev)
      → k < lba_limit
      → (ata.write k s d).0 ≡ true
      → Takes ata k s d (ata.write k s d).1

module _ (ata : Ata) (reliable : IsReliable ata) where
  abbrev sector : List ℕ → Sector
  sector l j = byte_at l j

  abbrev on_drive : (below : Bool) → ata.Dev → ℕ → Sector
  on_drive below d k j = if below then byte_at (ata.sector_at d k) j else 0

  -- What the drive holds, below the limit of its sector numbers
  abbrev shown : State ata → ℕ → Sector
  shown s k = on_drive (ltb k lba_limit) s.1 k

  abbrev sector_read : Option (List ℕ) → Option Sector
  sector_read none = none
  sector_read (some l) = some (sector l)

  abbrev cached_read : ℕ → State ata → Option Sector × State ata
  cached_read k s = let r = read_sector ata k true s in (sector_read r.0, r.1)

  abbrev cached_write : ℕ → Sector → State ata → Bool × State ata
  cached_write k s st = write_sector ata k (some (bytes_from s 0 512)) st

  shown_byte : (s : State ata) (k j : ℕ) → shown s k j < 256
  shown_byte s k j = elim (Bool-cases (ltb k lba_limit)) [
    | inl t ↦ rw t (reliable.bytes s.1 k j)
    | inr f ↦ rw f (omega arith)
  ]

  -- The drive shows the same where it holds the same.
  shown_same :
      (s s' : State ata) (k : ℕ)
      → (k < lba_limit → ata.sector_at s'.1 k ≡ ata.sector_at s.1 k)
      → shown s' k ≡ shown s k
  shown_same s s' k h = elim (Bool-cases (ltb k lba_limit)) [
    | inl t ↦ rw t (ap (λ (l : List ℕ). sector l) (h (ground (arith, t))))
    | inr f ↦ rw f refl
  ]

  shown_here : (s : State ata) (k : ℕ) → k < lba_limit → shown s k ≡ sector (ata.sector_at s.1 k)
  shown_here s k h = let t : ltb k lba_limit ≡ true = ground (arith, h) in rw t refl

  read_content :
      (k : ℕ) (st : State ata) (s : Sector)
      → k < lba_limit
      → IsCoherent ata st
      → (cached_read k st).0 ≡ some s
      → s ≡ shown st k
  read_content k st s l g e = go (read_sector ata k true st).0 refl e
    where
      go :
          (o : Option (List ℕ))
          → (read_sector ata k true st).0 ≡ o
          → sector_read o ≡ some s
          → s ≡ shown st k
      go none x y = absurd (cc y)
      go (some c) x y =
          sym (some-injective (sector c) s y)
          ∙ ap (λ (z : List ℕ). sector z) ((read_sector-Transparent ata k true st l g).content c x)
          ∙ sym (shown_here st k l)

  stored :
      (k : ℕ) (s : Sector) (st : State ata)
      → k < lba_limit
      → (cached_write k s st).0 ≡ true
      → Takes ata k (bytes_from s 0 512) st.1 (cached_write k s st).1.1
  stored k s st l ok =
      let (dev, res) = write_sector-device ata k (bytes_from s 0 512) st in
      subst (Takes ata k (bytes_from s 0 512) st.1) (sym dev)
        (reliable.stores k (bytes_from s 0 512) st.1 l (sym res ∙ ok))

  -- `overrun` stands for what a stack that was overwritten makes of `fat_get`.
  abbrev cached : ((cluster lo : ℕ) → Sector → State ata → ℕ × State ata) → Blocks
  cached overrun = record {
    Dev = State ata;
    IsSound = IsCoherent ata;
    content = shown;
    content_byte = shown_byte;
    read = cached_read;
    write = cached_write;
    overrun = overrun;
    read_IsSound = λ k d l g. (read_sector-Transparent ata k true d l g).coherent;
    read_content = read_content;
    read_keeps = λ k d i l g.
        shown_same d (read_sector ata k true d).1 i
          (λ b. (read_sector-Transparent ata k true d l g).unchanged i);
    write_IsSound = λ k s d l g ok.
        (write_sector-Stored ata k (bytes_from s 0 512) d l g (stored k s d l ok) ok).coherent;
    write_content = λ k s d l g ok j h b.
        ap (λ (x : Sector). x j) (shown_here (cached_write k s d).1 k l)
        ∙ ap (λ (x : List ℕ). byte_at x j) (stored k s d l ok).0
        ∙ byte_at-bytes_from s 0 512 j h
        ∙ ap s (omega arith);
    write_keeps = λ k s d i l g ok n.
        shown_same d (cached_write k s d).1 i (λ b. (stored k s d l ok).1 i b n);
  }

  -- The round trip of the allocation table, through the cache and a drive whose reads do not fail
  fat_get-through_cache :
      (overrun : (cluster lo : ℕ) → Sector → State ata → ℕ × State ata) (v : Volume) (c k value : ℕ)
      (s : State ata)
      → Readable (cached overrun)
      → IsCoherent ata s
      → c < 2 ^ 28
      → k < 2 ^ 28
      → v.reserved_sectors < 2 ^ 27
      → (fat_set_copy (cached overrun) v.type v.reserved_sectors c value s).0 ≡ true
      → let s' = (fat_set_copy (cached overrun) v.type v.reserved_sectors c value s).1 in
        IsSplit v.type c ⊎ ((fat_get (cached overrun) v c s').0 ≡ kept v.type value)
  fat_get-through_cache overrun v c k value s readable g hc hk fits ok =
      (fat_get-fat_set_copy (cached overrun) v c k value s readable g hc hk fits ok).0
