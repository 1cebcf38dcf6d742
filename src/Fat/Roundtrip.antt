-- ===== src/Fat/Roundtrip.antt =====
-- Reading an entry of the allocation table after writing one, kernel/fs/fat.c.
use ao_os.Base.{
  ℕ, ◌+◌, ◌/◌, ◌%◌, ◌^◌, ◌<◌, ◌≡◌, refl, sym, ◌∙◌, ap, subst, ◌≢◌, ◌⊎◌, inl, inr, Bool-cases, Bool,
  true, false, Option, none, some, arith, ◌==◌, if◌then◌else◌, if_holds, update, u8, u32,
}
use std.Path.{fun_ext}
use ao_os.Fat.Disk.{Sector, Blocks, sector_limit}
use ao_os.Fat.{
  FatType, fat12, fat16, fat32, Volume, entry_offset, word16, word32, pick12, put12, get_entry,
  get_read, fat_get, set_split, set_entry, set_read, fat_set_copy,
}
use ao_os.Fat.Entries.{Bytes, start, entry, kept, filled, entry-filled, entry_other}
use ao_os.Fat.Table.{
  table, table-IsBytes, Filled, set12-Filled, set16-Filled, set32-Filled, split12-Filled,
  read-table, at_byte,
}

offset-start : (t : FatType) (c : ℕ) → c < 2 ^ 28 → entry_offset t c ≡ start t c
offset-start fat12 c h = omega (arith, h)
offset-start fat16 c h = omega (arith, h)
offset-start fat32 c h = omega (arith, h)

start_small : (t : FatType) (c : ℕ) → c < 2 ^ 28 → start t c < 2 ^ 30
start_small fat12 c h = omega (arith, h)
start_small fat16 c h = omega (arith, h)
start_small fat32 c h = omega (arith, h)

module _ (blocks : Blocks) (base c : ℕ) (in_table : c < 2 ^ 28) (on_disk : base < 2 ^ 27) where
  abbrev sector_of : FatType → ℕ
  sector_of t = base + start t c / 512

  sector_fits : (t : FatType) → u32 (base + start t c / 512) ≡ sector_of t
  sector_fits t = let s = start_small t c in_table in omega (arith, s, on_disk)

  set_copy-read :
      (t : FatType) (v : ℕ) (d : blocks.Dev)
      → fat_set_copy blocks t base c v d
        ≡ set_read blocks t c v (sector_of t) (start t c % 512) (blocks.read (sector_of t) d)
  unfolding fat_set_copy
  set_copy-read t v d =
      let e0 = offset-start t c in_table in let e1 = sector_fits t in rw (e0, e1) refl

  in_reach : (t : FatType) → base + (start t c / 512 + 1) < sector_limit
  in_reach t = let s = start_small t c in_table in omega (arith, s, on_disk)

  here_in_reach : (t : FatType) → sector_of t < sector_limit
  here_in_reach t = let l = in_reach t in omega (arith, l)

  next_sector : (t : FatType) → u32 (sector_of t + 1) ≡ base + (start t c / 512 + 1)
  next_sector t = let s = start_small t c in_table in omega (arith, s, on_disk)

  abbrev first_write : (k : ℕ) → blocks.Dev → (v : ℕ) → (s next : Sector) → Bool × blocks.Dev
  first_write k d v s next =
      blocks.write k (update next 0 (u8 (put12 c (word16 (s 511) (next 0)) v / 256))) d

  -- Both writes, with the number of the second sector as an argument
  abbrev split_write : (k : ℕ) → blocks.Dev → (v : ℕ) → (s next : Sector) → Bool × blocks.Dev
  split_write k d v s next =
      let w = first_write k d v s next in
      if w.0
      then blocks.write (sector_of fat12) (update s 511 (u8 (put12 c (word16 (s 511) (next 0)) v)))
          w.1
      else (false, w.1)

  -- The end of a write across two sectors
  split-Filled :
      (v : ℕ) (d d1 : blocks.Dev) (s : Sector) (r : Option Sector × blocks.Dev)
      → let o = start fat12 c in
        o % 512 ≡ 511
        → blocks.IsSound d
        → blocks.read (base + o / 512) d ≡ (some s, d1)
        → blocks.read (base + (o / 512 + 1)) d1 ≡ r
        → (set_split blocks c v (sector_of fat12) 511 s r).0 ≡ true
        → Filled blocks base fat12 c v d (set_split blocks c v (sector_of fat12) 511 s r).1
  split-Filled v d d1 s (none, d2) h g e e' = λ ok. absurd (cc ok)
  split-Filled v d d1 s (some next, d2) h g e e' =
      subst
        (λ k.
          (split_write k d2 v s next).0 ≡ true
          → Filled blocks base fat12 c v d (split_write k d2 v s next).1)
        (sym (next_sector fat12))
        (if_holds (λ (r : Bool × blocks.Dev). r.0 ≡ true → Filled blocks base fat12 c v d r.1)
          (first_write (base + (start fat12 c / 512 + 1)) d2 v s next).0 _ _
          (λ first ok.
            split12-Filled blocks base c v d d1 d2 s next h (in_reach fat12) g e e' first ok)
          (λ f ok. absurd (cc ok)))

  set12-cases :
      (v : ℕ) (d d1 : blocks.Dev) (s : Sector)
      → let o = start fat12 c in
        blocks.IsSound d
        → blocks.read (base + o / 512) d ≡ (some s, d1)
        → (set_entry blocks fat12 c v (sector_of fat12) (o % 512) s d1).0 ≡ true
        → Filled blocks base fat12 c v d
            (set_entry blocks fat12 c v (sector_of fat12) (o % 512) s d1).1
  set12-cases v d d1 s g e =
      let o = start fat12 c in
      if_holds (λ (r : Bool × blocks.Dev). r.0 ≡ true → Filled blocks base fat12 c v d r.1)
        (o % 512 == 511) _ _
        (λ t.
          let h : o % 512 ≡ 511 = ground (arith, t) in
          let r = blocks.read (u32 (sector_of fat12 + 1)) d1 in
          let e' = ap (λ k. blocks.read k d1) (sym (next_sector fat12)) in
          subst
            (λ i.
              (set_split blocks c v (sector_of fat12) i s r).0 ≡ true
              → Filled blocks base fat12 c v d (set_split blocks c v (sector_of fat12) i s r).1)
            (sym h) (split-Filled v d d1 s r h g e e'))
        (λ t ok.
          set12-Filled blocks base c v d d1 s (ground (arith, t)) (here_in_reach fat12) g e ok)

  read-Filled :
      (t : FatType) (v : ℕ) (d : blocks.Dev) (r : Option Sector × blocks.Dev)
      → blocks.IsSound d
      → blocks.read (sector_of t) d ≡ r
      → (set_read blocks t c v (sector_of t) (start t c % 512) r).0 ≡ true
      → Filled blocks base t c v d (set_read blocks t c v (sector_of t) (start t c % 512) r).1
  read-Filled t v d (none, d1) g e ok = absurd (cc ok)
  read-Filled fat12 v d (some s, d1) g e ok = set12-cases v d d1 s g e ok
  read-Filled fat16 v d (some s, d1) g e ok =
      set16-Filled blocks base c v d d1 s (here_in_reach fat16) g e ok
  read-Filled fat32 v d (some s, d1) g e ok =
      set32-Filled blocks base c v d d1 s (here_in_reach fat32) g e ok

  fat_set_copy-Filled :
      (t : FatType) (v : ℕ) (d : blocks.Dev)
      → blocks.IsSound d
      → (fat_set_copy blocks t base c v d).0 ≡ true
      → Filled blocks base t c v d (fat_set_copy blocks t base c v d).1
  fat_set_copy-Filled t v d g ok =
      let e = set_copy-read t v d in
      subst (λ (r : Bool × blocks.Dev). Filled blocks base t c v d r.1) (sym e)
        (read-Filled t v d (blocks.read (sector_of t) d) g refl
          (sym (ap (λ (r : Bool × blocks.Dev). r.0) e) ∙ ok))

  -- A device that has taken all writes is sound again.
  abbrev Sound : Bool × blocks.Dev → Type 0
  Sound r = r.0 ≡ true → blocks.IsSound r.1

  split-Sound :
      (v i : ℕ) (s : Sector) (r : Option Sector × blocks.Dev)
      → (r.0 ≢ none → blocks.IsSound r.1)
      → Sound (set_split blocks c v (sector_of fat12) i s r)
  split-Sound v i s (none, d) g = λ ok. absurd (cc ok)
  split-Sound v i s (some next, d) g =
      let new = put12 c (word16 (s i) (next 0)) v in
      let k = u32 (sector_of fat12 + 1) in
      let l : k < sector_limit = let r = in_reach fat12 in omega (arith, r) in
      let first = update next 0 (u8 (new / 256)) in
      let w = blocks.write k first d in
      if_holds Sound w.0 (blocks.write (sector_of fat12) (update s i (u8 new)) w.1) (false, w.1)
        (λ a ok.
          blocks.write_IsSound (sector_of fat12) (update s i (u8 new)) w.1 (here_in_reach fat12)
            (blocks.write_IsSound k first d l (g (λ e. cc e)) a) ok)
        (λ a ok. absurd (cc ok))

  entry-Sound :
      (t : FatType) (v : ℕ) (s : Sector) (d : blocks.Dev)
      → blocks.IsSound d
      → Sound (set_entry blocks t c v (sector_of t) (start t c % 512) s d)
  entry-Sound fat12 v s d g =
      let i = start fat12 c % 512 in
      let k = u32 (sector_of fat12 + 1) in
      let l : k < sector_limit = let r = in_reach fat12 in omega (arith, r) in
      if_holds Sound (i == 511) _ _
        (λ t. split-Sound v i s (blocks.read k d) (λ n. blocks.read_IsSound k d l g))
        (λ t ok. blocks.write_IsSound (sector_of fat12) _ d (here_in_reach fat12) g ok)
  entry-Sound fat16 v s d g =
      λ ok. blocks.write_IsSound (sector_of fat16) _ d (here_in_reach fat16) g ok
  entry-Sound fat32 v s d g =
      λ ok. blocks.write_IsSound (sector_of fat32) _ d (here_in_reach fat32) g ok

  fat_set_copy-Sound :
      (t : FatType) (v : ℕ) (d : blocks.Dev)
      → blocks.IsSound d
      → Sound (fat_set_copy blocks t base c v d)
  fat_set_copy-Sound t v d g =
      subst Sound (sym (set_copy-read t v d))
        (go (blocks.read (sector_of t) d) (blocks.read_IsSound (sector_of t) d (here_in_reach t) g))
    where
      go :
          (r : Option Sector × blocks.Dev)
          → blocks.IsSound r.1
          → Sound (set_read blocks t c v (sector_of t) (start t c % 512) r)
      go (none, d1) h = λ ok. absurd (cc ok)
      go (some s, d1) h = entry-Sound t v s d1 h

-- No read of a sector fails.
abbrev pub Readable : Blocks → Type 0
Readable blocks = (k : ℕ) (d : blocks.Dev) → (blocks.read k d).0 ≢ none

-- The two bytes of the entry lie in different sectors, which only a FAT12 has.
abbrev pub IsSplit : FatType → (c : ℕ) → Type 0
IsSplit t c = start t c % 512 ≡ 511

module _ (blocks : Blocks) (readable : Readable blocks) (base c : ℕ) (in_table : c < 2 ^ 28)
    (on_disk : base < 2 ^ 27) where
  -- The bytes of the table in the sector that was read
  get_bytes :
      (t : FatType) (d d1 : blocks.Dev) (s : Sector) (k : ℕ)
      → blocks.IsSound d
      → blocks.read (base + start t c / 512) d ≡ (some s, d1)
      → start t c % 512 + k < 512
      → s (start t c % 512 + k) ≡ table blocks base d (start t c + k)
  get_bytes t d d1 s k g e h =
      let (same, sector) =
        read-table blocks base (start t c / 512) d d1 s
          (here_in_reach blocks base c in_table on_disk t) g e in
      at_byte blocks base (table blocks base d1) s (start t c) k sector h
      ∙ ap (λ (b : Bytes). b (start t c + k)) same

  get_first :
      (t : FatType) (d d1 : blocks.Dev) (s : Sector)
      → blocks.IsSound d
      → blocks.read (base + start t c / 512) d ≡ (some s, d1)
      → s (start t c % 512) ≡ table blocks base d (start t c)
  get_first t d d1 s g e =
      let i = start t c % 512 in
      ap s {y = i + 0} (omega arith)
      ∙ get_bytes t d d1 s 0 g e (omega arith)
      ∙ ap (table blocks base d) (omega arith)

  get_entry-entry :
      (t : FatType) (d d1 : blocks.Dev) (s : Sector)
      → start t c % 512 ≢ 511
      → blocks.IsSound d
      → blocks.read (base + start t c / 512) d ≡ (some s, d1)
      → (get_entry blocks t c (base + start t c / 512) (start t c % 512) s d1).0
        ≡ entry t (table blocks base d) c
  get_entry-entry fat12 d d1 s n g e =
      let i = start fat12 c % 512 in
      if_holds (λ (r : ℕ × blocks.Dev). r.0 ≡ entry fat12 (table blocks base d) c) (i == 511) _ _
        (λ t. absurd (n (ground (arith, t))))
        (λ t.
          let lo = get_first fat12 d d1 s g e in
          let hi = get_bytes fat12 d d1 s 1 g e (ground (arith, t)) in
          ap (λ x. pick12 c (word16 x (s (i + 1)))) lo
          ∙ ap (λ x. pick12 c (word16 (table blocks base d (start fat12 c)) x)) hi)
  get_entry-entry fat16 d d1 s n g e =
      let lo = get_first fat16 d d1 s g e in
      let hi = get_bytes fat16 d d1 s 1 g e (omega arith) in omega (arith, lo, hi)
  get_entry-entry fat32 d d1 s n g e =
      let b0 = get_bytes fat32 d d1 s 0 g e (omega arith) in
      let b0' : s (start fat32 c % 512) ≡ table blocks base d (start fat32 c + 0) =
        get_first fat32 d d1 s g e ∙ ap (table blocks base d) (omega arith) in
      let b1 = get_bytes fat32 d d1 s 1 g e (omega arith) in
      let b2 = get_bytes fat32 d d1 s 2 g e (omega arith) in
      let b3 = get_bytes fat32 d d1 s 3 g e (omega arith) in
      let all : word32 s (start fat32 c % 512)
          ≡ word32 (λ j. table blocks base d (start fat32 c + j)) 0 =
        omega (arith, b0', b1, b2, b3) in
      ap (λ x. x % 2 ^ 28) all

  pub fat_get-entry :
      (v : Volume) (d : blocks.Dev)
      → v.reserved_sectors ≡ base
      → start v.type c % 512 ≢ 511
      → blocks.IsSound d
      → (fat_get blocks v c d).0 ≡ entry v.type (table blocks base d) c
  unfolding fat_get
  fat_get-entry v d e n g =
      let e0 = offset-start v.type c in_table in
      let e1 = sector_fits blocks base c in_table on_disk v.type in
      rw (e, e0, e1) (go (blocks.read (base + start v.type c / 512) d) refl)
    where
      go :
          (r : Option Sector × blocks.Dev)
          → blocks.read (base + start v.type c / 512) d ≡ r
          → (get_read blocks v c (base + start v.type c / 512) (start v.type c % 512) r).0
            ≡ entry v.type (table blocks base d) c
      go (none, d1) e = absurd (
          readable (base + start v.type c / 512) d (ap (λ (r : Option Sector × blocks.Dev). r.0) e))
      go (some s, d1) e = get_entry-entry v.type d d1 s n g e

-- From a sound state of a disk whose reads do not fail, after a fat_set_copy of the first table
-- that succeeds, fat_get of the cluster gives the value in the 12, 16 or 28 bits of an entry,
-- and of every other cluster what it gave before, also where entries of FAT12 share a byte or
-- the entry written lies across two sectors; except that nothing is said of fat_get for an entry
-- that lies across two sectors; for cluster numbers below 2^28 and fewer than 2^27 reserved
-- sectors.
pub fat_get-fat_set_copy :
    (blocks : Blocks) (v : Volume) (c k value : ℕ) (d : blocks.Dev)
    → Readable blocks
    → blocks.IsSound d
    → c < 2 ^ 28
    → k < 2 ^ 28
    → v.reserved_sectors < 2 ^ 27
    → (fat_set_copy blocks v.type v.reserved_sectors c value d).0 ≡ true
    → let d' = (fat_set_copy blocks v.type v.reserved_sectors c value d).1 in
      (IsSplit v.type c ⊎ ((fat_get blocks v c d').0 ≡ kept v.type value))
      × ((c ≡ k) ⊎ IsSplit v.type k ⊎ ((fat_get blocks v k d').0 ≡ (fat_get blocks v k d).0))
fat_get-fat_set_copy blocks v c k value d readable sound hc hk on_disk ok =
    let base = v.reserved_sectors in
    let t = v.type in
    let d' = (fat_set_copy blocks t base c value d).1 in
    let sound' = fat_set_copy-Sound blocks base c hc on_disk t value d sound ok in
    let bytes = table-IsBytes blocks base d in
    let written : table blocks base d' ≡ filled t (table blocks base d) c value =
      fun_ext (fat_set_copy-Filled blocks base c hc on_disk t value d sound ok) in
    (
      elim (Bool-cases (start t c % 512 == 511)) [
        | inl s ↦ inl (ground (arith, s))
        | inr w ↦ inr (
            fat_get-entry blocks readable base c hc on_disk v d' refl (ground (arith, w)) sound'
            ∙ ap (λ (b : Bytes). entry t b c) written
            ∙ entry-filled t (table blocks base d) c value bytes)
      ],
      elim (Bool-cases (c == k)) [
        | inl same ↦ inl (ground (arith, same))
        | inr n ↦ elim (Bool-cases (start t k % 512 == 511)) [
          | inl s ↦ inr (inl (ground (arith, s)))
          | inr w ↦
              let whole : start t k % 512 ≢ 511 = ground (arith, w) in
              inr (
                inr (
                  fat_get-entry blocks readable base k hk on_disk v d' refl whole sound'
                  ∙ ap (λ (b : Bytes). entry t b k) written
                  ∙ entry_other t (table blocks base d) c value k bytes (ground (arith, n))
                  ∙ sym (fat_get-entry blocks readable base k hk on_disk v d refl whole sound)))
        ]
      ],
    )
