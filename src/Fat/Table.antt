-- ===== src/Fat/Table.antt =====
-- The allocation table on the disk, kernel/fs/fat.c: `fat_set_copy` writes an entry and leaves the
-- others alone, `fat_get` reads it back.
use ao_os.Base.{
  ℕ, ◌+◌, ◌*◌, ◌/◌, ◌%◌, ◌^◌, ◌<◌, ◌≡◌, sym, ◌∙◌, ap, subst, ◌≢◌, inl, inr, true, Option, some,
  arith, ◌==◌, if◌then◌else◌, Bool-cases, update, u8,
}
use std.Path.{fun_ext}
use ao_os.Fat.Disk.{Sector, Blocks, sector_limit}
use ao_os.Fat.{
  FatType, fat12, fat16, fat32, word16, word32, put12, put32, store16, store32, set_entry,
}
use ao_os.Fat.Entries.{Bytes, start, filled, IsBytes}

update-IsBytes : (s : Sector) (i v : ℕ) → IsBytes s → IsBytes (update s i (u8 v))
update-IsBytes s i v b j = let h = b j in ground (arith, h)

store16-IsBytes : (s : Sector) (i v : ℕ) → IsBytes s → IsBytes (store16 s i v)
store16-IsBytes s i v b =
    update-IsBytes (update s i (u8 v)) (i + 1) (v / 256) (update-IsBytes s i v b)

store32-IsBytes : (s : Sector) (i v : ℕ) → IsBytes s → IsBytes (store32 s i v)
store32-IsBytes s i v b =
    store16-IsBytes (store16 s i v) (i + 2) (v / 2 ^ 16) (store16-IsBytes s i v b)

-- Two or four bytes of a table replaced
abbrev filled16 : Bytes → (o v : ℕ) → Bytes
filled16 b o v j = if j == o then u8 v else if j == o + 1 then u8 (v / 256) else b j

abbrev filled32 : Bytes → (o v : ℕ) → Bytes
filled32 b o v j =
    if j == o
    then u8 v
    else if j == o + 1
    then u8 (v / 256)
    else if j == o + 2
    then u8 (v / 2 ^ 16)
    else if j == o + 3
    then u8 (v / 2 ^ 24)
    else b j

-- One sector of a table, rewritten from the byte `o` on, against the whole table
one_sector16 :
    (b : Bytes) (s : Sector) (o v j : ℕ)
    → o % 512 < 511
    → ((k : ℕ) → k < 512 → s k ≡ b (512 * (o / 512) + k))
    → (if j / 512 == o / 512 then store16 s (o % 512) v (j % 512) else b j)
      ≡ (if j == o then u8 v else if j == o + 1 then u8 (v / 256) else b j)
one_sector16 b s o v j h e = elim (Bool-cases (j / 512 == o / 512)) [
  | inl t ↦
      let q : j / 512 ≡ o / 512 = ground (arith, t) in
      let same = e (j % 512) (omega arith) ∙ ap b {y = j} (omega (arith, q)) in
      ground (arith, q, same, h)
  | inr t ↦ ground (arith, t, h)
]

one_sector32 :
    (b : Bytes) (s : Sector) (o v j : ℕ)
    → o % 4 ≡ 0
    → ((k : ℕ) → k < 512 → s k ≡ b (512 * (o / 512) + k))
    → (if j / 512 == o / 512 then store32 s (o % 512) v (j % 512) else b j) ≡ (
        if j == o
        then u8 v
        else if j == o + 1
        then u8 (v / 256)
        else if j == o + 2
        then u8 (v / 2 ^ 16)
        else if j == o + 3
        then u8 (v / 2 ^ 24)
        else b j)
one_sector32 b s o v j h e = elim (Bool-cases (j / 512 == o / 512)) [
  | inl t ↦
      let q : j / 512 ≡ o / 512 = ground (arith, t) in
      let same = e (j % 512) (omega arith) ∙ ap b {y = j} (omega (arith, q)) in
      ground (arith, q, same, h)
  | inr t ↦ ground (arith, t, h)
]

-- The two sectors of a FAT12 entry that lies across their border
two_sectors :
    (b : Bytes) (s next : Sector) (o v j : ℕ)
    → o % 512 ≡ 511
    → ((k : ℕ) → k < 512 → s k ≡ b (512 * (o / 512) + k))
    → ((k : ℕ) → k < 512 → next k ≡ b (512 * (o / 512 + 1) + k))
    → (if j / 512 == o / 512
        then update s 511 (u8 v) (j % 512)
        else if j / 512 == o / 512 + 1
        then update next 0 (u8 (v / 256)) (j % 512)
        else b j)
      ≡ filled16 b o v j
two_sectors b s next o v j h e e' = elim (Bool-cases (j / 512 == o / 512)) [
  | inl t ↦
      let q : j / 512 ≡ o / 512 = ground (arith, t) in
      let same = e (j % 512) (omega arith) ∙ ap b {y = j} (omega (arith, q)) in
      ground (arith, q, same, h)
  | inr t ↦ elim (Bool-cases (j / 512 == o / 512 + 1)) [
    | inl u ↦
        let q : j / 512 ≡ o / 512 + 1 = ground (arith, u) in
        let same = e' (j % 512) (omega arith) ∙ ap b {y = j} (omega (arith, q)) in
        ground (arith, t, q, same, h)
    | inr u ↦ ground (arith, t, u, h)
  ]
]

module _ (blocks : Blocks) (base : ℕ) where
  -- The table that starts at sector `base`
  abbrev pub table : blocks.Dev → Bytes
  table d j = blocks.content d (base + j / 512) (j % 512)

  pub table-IsBytes : (d : blocks.Dev) → IsBytes (table d)
  table-IsBytes d j = blocks.content_byte d (base + j / 512) (j % 512)

  sector-table :
      (d : blocks.Dev) (q k : ℕ) → k < 512 → blocks.content d (base + q) k ≡ table d (512 * q + k)
  sector-table d q k h =
      let e0 : q ≡ (512 * q + k) / 512 = omega (arith, h) in
      let e1 : k ≡ (512 * q + k) % 512 = omega (arith, h) in
      ap (λ x. blocks.content d (base + x) k) e0
      ∙ ap (λ x. blocks.content d (base + (512 * q + k) / 512) x) e1

  table-read :
      (k : ℕ) (d : blocks.Dev) (j : ℕ)
      → k < sector_limit
      → blocks.IsSound d
      → table (blocks.read k d).1 j ≡ table d j
  table-read k d j l g =
      ap (λ (s : Sector). s (j % 512)) (blocks.read_keeps k d (base + j / 512) l g)

  -- A read keeps the device sound.
  pub read-IsSound :
      (k : ℕ) (d d1 : blocks.Dev) (o : Option Sector)
      → k < sector_limit
      → blocks.IsSound d
      → blocks.read k d ≡ (o, d1)
      → blocks.IsSound d1
  read-IsSound k d d1 o l g e =
      subst blocks.IsSound (ap (λ (r : Option Sector × blocks.Dev). r.1) e)
        (blocks.read_IsSound k d l g)

  table-write :
      (q : ℕ) (s : Sector) (d : blocks.Dev)
      → base + q < sector_limit
      → blocks.IsSound d
      → IsBytes s
      → (blocks.write (base + q) s d).0 ≡ true
      → (j : ℕ)
      → table (blocks.write (base + q) s d).1 j ≡ (if j / 512 == q then s (j % 512) else table d j)
  table-write q s d l g b ok j = elim (Bool-cases (j / 512 == q)) [
    | inl t ↦
        let e : j / 512 ≡ q = ground (arith, t) in
        rw t (
          ap (λ x. blocks.content (blocks.write (base + q) s d).1 (base + x) (j % 512)) e
          ∙ blocks.write_content (base + q) s d l g ok (j % 512) (omega arith) (b (j % 512)))
    | inr t ↦
        let n : base + q ≢ base + j / 512 =
          λ e. (let e' : j / 512 ≡ q = omega (arith, e) in ground (arith, t, e')) in
        rw t (
          ap (λ (x : Sector). x (j % 512))
            (blocks.write_keeps (base + q) s d (base + j / 512) l g ok n))
  ]

  -- What a read that succeeds gives is the sector of the table.
  pub read-table :
      (q : ℕ) (d d1 : blocks.Dev) (s : Sector)
      → base + q < sector_limit
      → blocks.IsSound d
      → blocks.read (base + q) d ≡ (some s, d1)
      → (table d1 ≡ table d) × ((k : ℕ) → k < 512 → s k ≡ table d1 (512 * q + k))
  read-table q d d1 s l g e =
      let e1 : (blocks.read (base + q) d).1 ≡ d1 = ap (λ (r : Option Sector × blocks.Dev). r.1) e in
      let e0 = ap (λ (r : Option Sector × blocks.Dev). r.0) e in
      let kept_table : table d1 ≡ table d =
        fun_ext (λ j. subst (λ x. table x j ≡ table d j) e1 (table-read (base + q) d j l g)) in
      let is_content = blocks.read_content (base + q) d s l g e0 in
      (
        kept_table,
        λ k h.
            ap (λ (x : Sector). x k) is_content
            ∙ sector-table d q k h
            ∙ ap (λ (x : Bytes). x (512 * q + k)) (sym kept_table),
      )

  read-IsBytes :
      (q : ℕ) (d d1 : blocks.Dev) (s : Sector)
      → base + q < sector_limit
      → blocks.IsSound d
      → blocks.read (base + q) d ≡ (some s, d1)
      → IsBytes s
  read-IsBytes q d d1 s l g e j =
      let is_content =
        blocks.read_content (base + q) d s l g (ap (λ (r : Option Sector × blocks.Dev). r.0) e) in
      subst (λ (x : Sector). x j < 256) (sym is_content) (blocks.content_byte d (base + q) j)

  -- The bytes of the table after the call are the old ones with the entry filled.
  abbrev pub Filled : FatType → (c v : ℕ) → (d d' : blocks.Dev) → Type 0
  Filled t c v d d' = (j : ℕ) → table d' j ≡ filled t (table d) c v j

  pub at_byte :
      (b : Bytes) (s : Sector) (o k : ℕ)
      → ((i : ℕ) → i < 512 → s i ≡ b (512 * (o / 512) + i))
      → o % 512 + k < 512
      → s (o % 512 + k) ≡ b (o + k)
  at_byte b s o k e h = e (o % 512 + k) h ∙ ap b (omega arith)

  pub set16-Filled :
      (c v : ℕ) (d d1 : blocks.Dev) (s : Sector)
      → let o = start fat16 c in
        base + o / 512 < sector_limit
        → blocks.IsSound d
        → blocks.read (base + o / 512) d ≡ (some s, d1)
        → (set_entry blocks fat16 c v (base + o / 512) (o % 512) s d1).0 ≡ true
        → Filled fat16 c v d (set_entry blocks fat16 c v (base + o / 512) (o % 512) s d1).1
  set16-Filled c v d d1 s l g e ok j =
      let o = start fat16 c in
      let (same, sector) = read-table (o / 512) d d1 s l g e in
      let bytes = read-IsBytes (o / 512) d d1 s l g e in
      let g1 = read-IsSound (base + o / 512) d d1 (some s) l g e in
      table-write (o / 512) (store16 s (o % 512) v) d1 l g1 (store16-IsBytes s (o % 512) v bytes) ok
        j
      ∙ one_sector16 (table d1) s o v j (omega arith) sector
      ∙ ap (λ (b : Bytes). filled fat16 b c v j) same

  pub set32-Filled :
      (c v : ℕ) (d d1 : blocks.Dev) (s : Sector)
      → let o = start fat32 c in
        base + o / 512 < sector_limit
        → blocks.IsSound d
        → blocks.read (base + o / 512) d ≡ (some s, d1)
        → (set_entry blocks fat32 c v (base + o / 512) (o % 512) s d1).0 ≡ true
        → Filled fat32 c v d (set_entry blocks fat32 c v (base + o / 512) (o % 512) s d1).1
  set32-Filled c v d d1 s l g e ok j =
      let o = start fat32 c in
      let (same, sector) = read-table (o / 512) d d1 s l g e in
      let bytes = read-IsBytes (o / 512) d d1 s l g e in
      let g1 = read-IsSound (base + o / 512) d d1 (some s) l g e in
      let old : word32 s (o % 512) ≡ word32 (λ k. table d1 (o + k)) 0 =
        let e0 : s (o % 512) ≡ table d1 (o + 0) =
          sector (o % 512) (omega arith) ∙ ap (table d1) (omega arith) in
        let e1 = at_byte (table d1) s o 1 sector (omega arith) in
        let e2 = at_byte (table d1) s o 2 sector (omega arith) in
        let e3 = at_byte (table d1) s o 3 sector (omega arith) in omega (arith, e0, e1, e2, e3) in
      let new = put32 (word32 s (o % 512)) v in
      table-write (o / 512) (store32 s (o % 512) new) d1 l g1
        (store32-IsBytes s (o % 512) new bytes) ok j
      ∙ one_sector32 (table d1) s o new j (omega arith) sector
      ∙ ap (λ x. filled32 (table d1) o x j) (ap (λ x. put32 x v) old)
      ∙ ap (λ (b : Bytes). filled fat32 b c v j) same

  pub set12-Filled :
      (c v : ℕ) (d d1 : blocks.Dev) (s : Sector)
      → let o = start fat12 c in
        o % 512 < 511
        → base + o / 512 < sector_limit
        → blocks.IsSound d
        → blocks.read (base + o / 512) d ≡ (some s, d1)
        → let w =
            blocks.write
              (base + o / 512)
              (store16 s (o % 512) (put12 c (word16 (s (o % 512)) (s (o % 512 + 1))) v))
              d1 in
          w.0 ≡ true → Filled fat12 c v d w.1
  set12-Filled c v d d1 s h l g e ok j =
      let o = start fat12 c in
      let (same, sector) = read-table (o / 512) d d1 s l g e in
      let bytes = read-IsBytes (o / 512) d d1 s l g e in
      let g1 = read-IsSound (base + o / 512) d d1 (some s) l g e in
      let e0 : s (o % 512) ≡ table d1 o =
        sector (o % 512) (omega arith) ∙ ap (table d1) (omega arith) in
      let e1 : s (o % 512 + 1) ≡ table d1 (o + 1) =
        at_byte (table d1) s o 1 sector (omega (arith, h)) in
      let old : word16 (s (o % 512)) (s (o % 512 + 1)) ≡ word16 (table d1 o) (table d1 (o + 1)) =
        omega (arith, e0, e1) in
      let new = put12 c (word16 (s (o % 512)) (s (o % 512 + 1))) v in
      table-write (o / 512) (store16 s (o % 512) new) d1 l g1
        (store16-IsBytes s (o % 512) new bytes) ok j
      ∙ one_sector16 (table d1) s o new j h sector
      ∙ ap (λ x. filled16 (table d1) o x j) (ap (λ x. put12 c x v) old)
      ∙ ap (λ (b : Bytes). filled fat12 b c v j) same

  -- The entry lies across two sectors: the second one is written first.
  pub split12-Filled :
      (c v : ℕ) (d d1 d2 : blocks.Dev) (s next : Sector)
      → let o = start fat12 c in
        let q = o / 512 in
        let new = put12 c (word16 (s 511) (next 0)) v in
        let w = blocks.write (base + (q + 1)) (update next 0 (u8 (new / 256))) d2 in
        let w' = blocks.write (base + q) (update s 511 (u8 new)) w.1 in
        o % 512 ≡ 511
        → base + (q + 1) < sector_limit
        → blocks.IsSound d
        → blocks.read (base + q) d ≡ (some s, d1)
        → blocks.read (base + (q + 1)) d1 ≡ (some next, d2)
        → w.0 ≡ true
        → w'.0 ≡ true
        → Filled fat12 c v d w'.1
  split12-Filled c v d d1 d2 s next h l' g e e' ok ok' j =
      let o = start fat12 c in
      let q = o / 512 in
      let l : base + q < sector_limit = omega (arith, l') in
      let g1 = read-IsSound (base + q) d d1 (some s) l g e in
      let g2 = read-IsSound (base + (q + 1)) d1 d2 (some next) l' g1 e' in
      let (same, sector) = read-table q d d1 s l g e in
      let (same', sector') = read-table (q + 1) d1 d2 next l' g1 e' in
      let sector2 : (k : ℕ) → k < 512 → s k ≡ table d2 (512 * q + k) =
        λ k l. sector k l ∙ ap (λ (b : Bytes). b (512 * q + k)) (sym same') in
      let e0 : s 511 ≡ table d2 o = sector2 511 (omega arith) ∙ ap (table d2) (omega (arith, h)) in
      let e1 : next 0 ≡ table d2 (o + 1) =
        sector' 0 (omega arith) ∙ ap (table d2) (omega (arith, h)) in
      let old : word16 (s 511) (next 0) ≡ word16 (table d2 o) (table d2 (o + 1)) =
        omega (arith, e0, e1) in
      let new = put12 c (word16 (s 511) (next 0)) v in
      let bytes = update-IsBytes s 511 new (read-IsBytes q d d1 s l g e) in
      let bytes' = update-IsBytes next 0 (new / 256) (read-IsBytes (q + 1) d1 d2 next l' g1 e') in
      let first = table-write (q + 1) (update next 0 (u8 (new / 256))) d2 l' g2 bytes' ok j in
      let w = blocks.write (base + (q + 1)) (update next 0 (u8 (new / 256))) d2 in
      let g3 = blocks.write_IsSound (base + (q + 1)) (update next 0 (u8 (new / 256))) d2 l' g2 ok in
      table-write q (update s 511 (u8 new)) w.1 l g3 bytes ok' j
      ∙ ap (λ x. if j / 512 == q then update s 511 (u8 new) (j % 512) else x) first
      ∙ two_sectors (table d2) s next o new j h sector2 sector'
      ∙ ap (λ x. filled16 (table d2) o x j) (ap (λ x. put12 c x v) old)
      ∙ ap (λ (b : Bytes). filled fat12 b c v j) (same' ∙ same)
