-- ===== src/Fat/Entry.antt =====
-- Writing and reading an entry of the root directory, kernel/fs/fat.c: `dir_write` and `dir_read` on
-- FAT12 and FAT16, where the root has its own sectors.
use ao_os.Base.{
  ℕ, ◌+◌, ◌-◌, ◌*◌, ◌/◌, ◌%◌, ◌^◌, ◌<◌, ◌≡◌, refl, sym, ◌∙◌, ap, subst, ◌≢◌, inl, inr, Bool, true,
  false, Option, none, some, some-injective, arith, leb, ◌==◌, if◌then◌else◌, Bool-cases, ==_refl,
  u32,
}
use ao_os.Net.Wire.{copy}
use ao_os.Fat.Disk.{Sector, Blocks, sector_limit}
use ao_os.Fat.{Volume}
use ao_os.Fat.Roundtrip.{Readable}
use ao_os.Fat.Directory.{
  DirEntry, Root, is_fat32, Location, dir_location, entry_read, located_read, dir_read, entry_write,
  located_write, dir_write,
}

module _ (blocks : Blocks) (readable : Readable blocks) (v : Volume) (root : Root)
    (small_root : is_fat32 v.type ≡ false)
    (on_disk : v.reserved_sectors + v.fat_count * v.fat_size + root.root_entries < 2 ^ 28) where
  abbrev base : ℕ
  base = v.reserved_sectors + v.fat_count * v.fat_size

  -- What the sectors of the root show of entry `k`
  abbrev view : blocks.Dev → (k : ℕ) → DirEntry
  view d k j = blocks.content d (base + k / 16) (k % 16 * 32 + j)

  location : (k : ℕ) → Location
  location k = record { sector = base + k / 16; offset = k % 16 * 32 }

  in_reach : (k : ℕ) → k < root.root_entries → base + k / 16 < sector_limit
  in_reach k h = omega (arith, h, on_disk)

  dir_location_lem :
      (k : ℕ) (d : blocks.Dev)
      → k < root.root_entries
      → dir_location blocks v root 0 k d ≡ (some (location k), d)
  unfolding dir_location location
  dir_location_lem k d h =
      let inside : leb root.root_entries k ≡ false = ground (arith, h) in
      let e : u32 (base + k / 16) ≡ base + k / 16 = omega (arith, h, on_disk) in
      rw (small_root, inside, e) refl

  -- The entry `k` reads as the 32 bytes of `f`.
  abbrev pub Reads : blocks.Dev → (k : ℕ) → DirEntry → Type 0
  Reads d k f =
      (e : DirEntry) × (((dir_read blocks v root 0 k d).0 ≡ some e)
        × ((j : ℕ) → j < 32 → e j ≡ f j))

  dir_read-Reads :
      (k : ℕ) (d : blocks.Dev) → k < root.root_entries → blocks.IsSound d → Reads d k (view d k)
  unfolding dir_read location
  dir_read-Reads k d h g = go (blocks.read (base + k / 16) d) refl
    where
      go :
          (r : Option Sector × blocks.Dev)
          → blocks.read (base + k / 16) d ≡ r
          → Reads d k (view d k)
      go (none, d1) e =
          absurd (readable (base + k / 16) d (ap (λ (r : Option Sector × blocks.Dev). r.0) e))
      go (some s, d1) e =
          let is_content =
            blocks.read_content (base + k / 16) d s (in_reach k h) g
              (ap (λ (r : Option Sector × blocks.Dev). r.0) e) in
          (
            λ j. s (k % 16 * 32 + j),
            (
              ap (λ x. (located_read blocks x).0) (dir_location_lem k d h)
                  ∙ ap (λ (r : Option Sector × blocks.Dev). (entry_read blocks (k % 16 * 32) r).0)
                      e,
              λ j l. ap (λ (x : Sector). x (k % 16 * 32 + j)) is_content,
            ),
          )

  copy_byte :
      (s : Sector) (e : DirEntry) (i k j : ℕ)
      → j < 32
      → i / 16 ≡ k / 16
      → copy s (i % 16 * 32) e 0 32 (k % 16 * 32 + j)
        ≡ (if k == i then e j else s (k % 16 * 32 + j))
  unfolding copy
  copy_byte s e i k j h same = elim (Bool-cases (k == i)) [
    | inl t ↦
        let eq : k ≡ i = ground (arith, t) in
        let at_j : e (0 + (k % 16 * 32 + j - i % 16 * 32)) ≡ e j = ap e (omega (arith, eq)) in
        ground (arith, t, eq, at_j, h)
    | inr t ↦ ground (arith, t, same, h)
  ]

  -- The entries after a write: the new one at `i`, the others as before.
  write-view :
      (i : ℕ) (e : DirEntry) (d d1 : blocks.Dev) (s : Sector)
      → base + i / 16 < sector_limit
      → blocks.IsSound d
      → ((j : ℕ) → e j < 256)
      → blocks.read (base + i / 16) d ≡ (some s, d1)
      → (blocks.write (base + i / 16) (copy s (i % 16 * 32) e 0 32) d1).0 ≡ true
      → (k j : ℕ) → j < 32
      → view (blocks.write (base + i / 16) (copy s (i % 16 * 32) e 0 32) d1).1 k j
        ≡ (if k == i then e j else view d k j)
  write-view i e d d1 s reach g bytes r ok k j h =
      let n = base + i / 16 in
      let d' = (blocks.write n (copy s (i % 16 * 32) e 0 32) d1).1 in
      let d1_is : (blocks.read n d).1 ≡ d1 = ap (λ (x : Option Sector × blocks.Dev). x.1) r in
      let is_content =
        blocks.read_content n d s reach g (ap (λ (x : Option Sector × blocks.Dev). x.0) r) in
      let old : (m : ℕ) → blocks.content d1 m ≡ blocks.content d m = λ m.
        subst (λ x. blocks.content x m ≡ blocks.content d m) d1_is
          (blocks.read_keeps n d m reach g) in
      let g1 : blocks.IsSound d1 = subst blocks.IsSound d1_is (blocks.read_IsSound n d reach g) in
      elim (Bool-cases (i / 16 == k / 16)) [
        | inl t ↦
            let q : i / 16 ≡ k / 16 = ground (arith, t) in
            let s_bytes : s (k % 16 * 32 + j) < 256 =
              subst (λ (x : Sector). x (k % 16 * 32 + j) < 256) (sym is_content)
                (blocks.content_byte d n (k % 16 * 32 + j)) in
            let c = copy_byte s e i k j h q in
            let e_byte = bytes j in
            let small : copy s (i % 16 * 32) e 0 32 (k % 16 * 32 + j) < 256 =
              ground (arith, c, e_byte, s_bytes) in
            let new : blocks.content d' n (k % 16 * 32 + j)
                ≡ copy s (i % 16 * 32) e 0 32 (k % 16 * 32 + j) =
              blocks.write_content n (copy s (i % 16 * 32) e 0 32) d1 reach g1 ok (k % 16 * 32 + j)
                (omega (arith, h)) small in
            let at_n : base + i / 16 ≡ base + k / 16 = omega (arith, q) in
            let s_is : s (k % 16 * 32 + j) ≡ view d k j =
              ap (λ (x : Sector). x (k % 16 * 32 + j)) is_content
              ∙ ap (λ m. blocks.content d m (k % 16 * 32 + j)) at_n in
            ap (λ m. blocks.content d' m (k % 16 * 32 + j)) (sym at_n)
            ∙ new
            ∙ c
            ∙ ap (λ x. if k == i then e j else x) s_is
        | inr t ↦
            let other : (k == i) ≡ false = ground (arith, t) in
            let ne : n ≢ base + k / 16 =
              λ x. (let q : i / 16 ≡ k / 16 = omega (arith, x) in ground (arith, t, q)) in
            rw other (
              ap (λ (x : Sector). x (k % 16 * 32 + j))
                (blocks.write_keeps n (copy s (i % 16 * 32) e 0 32) d1 (base + k / 16) reach g1 ok
                    ne
                  ∙ old (base + k / 16)))
      ]

  dir_write-view :
      (i : ℕ) (e : DirEntry) (d : blocks.Dev)
      → i < root.root_entries
      → blocks.IsSound d
      → ((j : ℕ) → e j < 256)
      → (dir_write blocks v root 0 i e d).0 ≡ true
      → (k j : ℕ) → j < 32
      → view (dir_write blocks v root 0 i e d).1 k j ≡ (if k == i then e j else view d k j)
  unfolding dir_write location
  dir_write-view i e d h g bytes ok k j l =
      let placed : dir_write blocks v root 0 i e d
          ≡ entry_write blocks (location i) e (blocks.read (base + i / 16) d) =
        ap (λ x. located_write blocks e x) (dir_location_lem i d h) in
      ap (λ (r : Bool × blocks.Dev). view r.1 k j) placed
      ∙ go (blocks.read (base + i / 16) d) refl
          (sym (ap (λ (r : Bool × blocks.Dev). r.0) placed) ∙ ok)
    where
      go :
          (r : Option Sector × blocks.Dev)
          → blocks.read (base + i / 16) d ≡ r
          → (entry_write blocks (location i) e r).0 ≡ true
          → view (entry_write blocks (location i) e r).1 k j ≡ (if k == i then e j else view d k j)
      go (none, d1) x t = absurd (cc t)
      go (some s, d1) x t = write-view i e d d1 s (in_reach i h) g bytes x t k j l

  dir_write-Sound :
      (i : ℕ) (e : DirEntry) (d : blocks.Dev)
      → i < root.root_entries
      → blocks.IsSound d
      → (dir_write blocks v root 0 i e d).0 ≡ true
      → blocks.IsSound (dir_write blocks v root 0 i e d).1
  unfolding dir_write location
  dir_write-Sound i e d h g =
      subst (λ (r : Bool × blocks.Dev). r.0 ≡ true → blocks.IsSound r.1)
        (sym (ap (λ x. located_write blocks e x) (dir_location_lem i d h)))
        (go (blocks.read (base + i / 16) d)
          (blocks.read_IsSound (base + i / 16) d (in_reach i h) g))
    where
      go :
          (r : Option Sector × blocks.Dev)
          → blocks.IsSound r.1
          → (entry_write blocks (location i) e r).0 ≡ true
          → blocks.IsSound (entry_write blocks (location i) e r).1
      go (none, d1) s t = absurd (cc t)
      go (some s, d1) g1 t = blocks.write_IsSound (base + i / 16) _ d1 (in_reach i h) g1 t

  -- In the root directory of a FAT12 or FAT16, from a sound state of a disk whose reads do not
  -- fail and whose root lies below sector 2^28, after a dir_write that succeeds dir_read of the
  -- index gives the 32 bytes that were written, and every other entry of the root reads as
  -- before.
  pub dir_read-dir_write :
      (i k : ℕ) (e : DirEntry) (d : blocks.Dev)
      → i < root.root_entries
      → k < root.root_entries
      → blocks.IsSound d
      → ((j : ℕ) → e j < 256)
      → (dir_write blocks v root 0 i e d).0 ≡ true
      → let d' = (dir_write blocks v root 0 i e d).1 in
        Reads d' i e × (i ≢ k → (f : DirEntry) → Reads d k f → Reads d' k f)
  dir_read-dir_write i k e d hi hk g bytes ok =
      let d' = (dir_write blocks v root 0 i e d).1 in
      let g' = dir_write-Sound i e d hi g ok in
      let (x, (ex, fx)) = dir_read-Reads i d' hi g' in
      let (y, (ey, fy)) = dir_read-Reads k d' hk g' in
      let (z, (ez, fz)) = dir_read-Reads k d hk g in
      let at_i : (i == i) ≡ true = ==_refl i in
      (
        (x, (ex, λ j l. fx j l ∙ dir_write-view i e d hi g bytes ok i j l ∙ rw at_i refl)),
        λ n f old.
            let other : (k == i) ≡ false = ground (arith, n) in
            let (w, (ew, fw)) = old in
            let same : z ≡ w = some-injective z w (sym ez ∙ ew) in
            (
              y,
              (
                ey,
                λ j l.
                    fy j l
                    ∙ dir_write-view i e d hi g bytes ok k j l
                    ∙ rw other (sym (fz j l) ∙ ap (λ (b : DirEntry). b j) same ∙ fw j l),
              ),
            ),
      )
