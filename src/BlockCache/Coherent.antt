-- ===== src/BlockCache/Coherent.antt =====
-- The cache against the disk: every entry in use agrees with the sector that it stands for, so a
-- read through the cache gives what the drive holds.
use ao_os.Base.{
  ℕ, ◌<◌, ◌≡◌, refl, sym, subst, ◌∙◌, ◌≢◌, ap, inl, inr, Bool, true, false, Option, none, some,
  arith, ◌==◌, Bool-cases, update_ne,
}
use ao_os.BlockCache.Driver.{Ata, Sector, lba_limit}
use ao_os.BlockCache.{
  Cache, State, block_cache_size, invalidate, find_entry, choose_victim, touch, fill, load, serve,
  read_sector, slot, store, write_sector,
}
use ao_os.BlockCache.Search.{IsHit, find_entry-some, find_entry-none, choose_victim_lem}

slot-lt :
    (ata : Ata) (c : Cache) (lba : ℕ) (o : Option ℕ)
    → find_entry c.entries lba ≡ o
    → slot ata c.entries o < block_cache_size
slot-lt ata c lba none e = (choose_victim_lem c.entries).0
slot-lt ata c lba (some i) e = (find_entry-some c.entries lba i e).in_range

module _ (ata : Ata) where
  open ata use {Dev, sector_at, read, write, read_content, read_keeps}

  pub record IsCoherent (s : State ata) : Type 0 where
    pub agrees :
        (i : ℕ)
        → i < block_cache_size
        → (s.0.entries i).valid ≡ true
        → (s.0.entries i).content ≡ sector_at s.1 (s.0.entries i).lba
    pub in_reach :
        (i : ℕ)
        → i < block_cache_size
        → (s.0.entries i).valid ≡ true
        → (s.0.entries i).lba < lba_limit
    pub unique :
        (i j : ℕ)
        → i < block_cache_size
        → j < block_cache_size
        → (s.0.entries i).valid ≡ true
        → (s.0.entries j).valid ≡ true
        → (s.0.entries i).lba ≡ (s.0.entries j).lba
        → i ≡ j

  pub invalidate-IsCoherent : (d : Dev) → IsCoherent (invalidate, d)
  unfolding invalidate
  invalidate-IsCoherent d = record {
    agrees = λ i b v. cc;
    in_reach = λ i b v. cc;
    unique = λ i j b b' v v' e. cc;
  }

  touch-IsCoherent : (c : Cache) (d : Dev) (i : ℕ) → IsCoherent (c, d) → IsCoherent (touch c i, d)
  touch-IsCoherent c d i h = record {
    agrees = λ j b v. ground (arith, h.agrees j);
    in_reach = λ j b v. ground (arith, h.in_reach j);
    unique = λ j k b b' v v' e. ground (arith, h.unique j k);
  }

  -- The entry `i` may be filled with sector `lba` if no other entry holds it, and if the new
  -- contents and the entries that stay agree with the device.
  fill-IsCoherent :
      (c : Cache) (d d' : Dev) (i lba : ℕ) (s : Sector)
      → IsCoherent (c, d)
      → lba < lba_limit
      → s ≡ sector_at d' lba
      → ((j : ℕ)
          → j < block_cache_size
          → i ≢ j
          → (c.entries j).valid ≡ true
          → (c.entries j).lba ≢ lba)
      → ((k : ℕ) → k < lba_limit → lba ≢ k → sector_at d' k ≡ sector_at d k)
      → IsCoherent (fill c i lba s, d')
  fill-IsCoherent c d d' i lba s h small e other keeps = record {
    agrees = λ j b v. elim (Bool-cases (i == j)) [
      | inl same ↦ ground (arith, e)
      | inr differs ↦
          let v' : (c.entries j).valid ≡ true = ground arith in
          ground (
            arith,
            h.agrees j b v',
            keeps (c.entries j).lba (h.in_reach j b v') (λ q. other j b (ground arith) v' (sym q)),
          )
    ];
    in_reach = λ j b v. ground (arith, h.in_reach j);
    unique = λ j k b b' v v' e. ground (arith, h.unique j k, other j, other k);
  }

  -- Where a sector goes that is not in the cache, or the entry that holds it: no other entry does.
  slot_only :
      (c : Cache) (d : Dev) (lba : ℕ) (o : Option ℕ)
      → find_entry c.entries lba ≡ o
      → IsCoherent (c, d)
      → (j : ℕ) → j < block_cache_size
      → slot ata c.entries o ≢ j
      → (c.entries j).valid ≡ true
      → (c.entries j).lba ≢ lba
  slot_only c d lba none e h j b ne v same =
      find_entry-none c.entries lba e j (record { in_range = b; valid = v; same = same })
  slot_only c d lba (some i) e h j b ne v same =
      let hit = find_entry-some c.entries lba i e in
      ne (h.unique i j hit.in_range b hit.valid v (hit.same ∙ sym same))

  -- What a read through the cache gives: with a sector, that of the drive; in any case the cache
  -- still agrees with the drive, and the drive holds what it held.
  pub record Transparent (s : State ata) (lba : ℕ) (r : Option Sector × State ata) : Type 0 where
    pub content : (sector : Sector) → r.0 ≡ some sector → sector ≡ sector_at s.1 lba
    pub coherent : IsCoherent r.1
    pub unchanged : (k : ℕ) → sector_at r.1.1 k ≡ sector_at s.1 k

  same_drive :
      (c : Cache) (d d' : Dev)
      → ((k : ℕ) → sector_at d' k ≡ sector_at d k)
      → IsCoherent (c, d)
      → IsCoherent (c, d')
  same_drive c d d' keeps h = record {
    agrees = λ j b v. h.agrees j b v ∙ sym (keeps (c.entries j).lba);
    in_reach = h.in_reach;
    unique = h.unique;
  }

  load-Transparent :
      (lba : ℕ) (c : Cache) (d : Dev) (r : Option Sector × Dev)
      → read lba d ≡ r
      → find_entry c.entries lba ≡ none
      → lba < lba_limit
      → IsCoherent (c, d)
      → Transparent (c, d) lba (load ata lba c r)
  load-Transparent lba c d (none, d') e miss small h =
      let keeps : (k : ℕ) → sector_at d' k ≡ sector_at d k = λ k. rw e at (read_keeps lba d k) in
      record { content = λ sector q. cc; coherent = same_drive c d d' keeps h; unchanged = keeps }
  load-Transparent lba c d (some s, d') e miss small h =
      let keeps : (k : ℕ) → sector_at d' k ≡ sector_at d k = λ k. rw e at (read_keeps lba d k) in
      let got : s ≡ sector_at d lba = read_content lba d s small (ap (λ r. r.0) e) in
      record {
        content = λ sector q. cc got;
        coherent =
            fill-IsCoherent c d d' (choose_victim c.entries) lba s h small (got ∙ sym (keeps lba))
              (slot_only c d lba none miss h) (λ k _ _. keeps k);
        unchanged = keeps;
      }

  serve-Transparent :
      (lba : ℕ) (c : Cache) (d : Dev) (o : Option ℕ)
      → find_entry c.entries lba ≡ o
      → lba < lba_limit
      → IsCoherent (c, d)
      → Transparent (c, d) lba (serve ata lba c d o)
  serve-Transparent lba c d none e small h = load-Transparent lba c d (read lba d) refl e small h
  serve-Transparent lba c d (some i) e small h =
      let hit = find_entry-some c.entries lba i e in
      record {
        content = λ sector q. cc (h.agrees i hit.in_range hit.valid, ap (sector_at d) hit.same);
        coherent = touch-IsCoherent c d i h;
        unchanged = λ k. refl;
      }

  -- With a cache that agrees with the drive and a sector number below 2^28, a read through the
  -- cache that returns a sector returns what the drive holds, keeps the agreement, and leaves
  -- the contents of the drive alone.
  pub read_sector-Transparent :
      (lba : ℕ) (has_buffer : Bool) (s : State ata)
      → lba < lba_limit
      → IsCoherent s
      → Transparent s lba (read_sector ata lba has_buffer s)
  unfolding read_sector
  read_sector-Transparent lba true (c, d) small h =
      serve-Transparent lba c d (find_entry c.entries lba) refl small h
  read_sector-Transparent lba false (c, d) small h = record {
    content = λ sector q. cc;
    coherent = h;
    unchanged = λ k. refl;
  }

  serve_hit :
      (lba : ℕ) (c : Cache) (d d' : Dev) (o : Option ℕ)
      → find_entry c.entries lba ≡ o
      → (i : ℕ) → IsHit c.entries lba i
      → IsCoherent (c, d)
      → ((serve ata lba c d' o).0 ≡ some (sector_at d lba)) × ((serve ata lba c d' o).1.1 ≡ d')
  serve_hit lba c d d' none e i hit h = absurd (find_entry-none c.entries lba e i hit)
  serve_hit lba c d d' (some j) e i hit h =
      let found = find_entry-some c.entries lba j e in
      (cc (h.agrees j found.in_range found.valid, found.same), refl)

  -- A read of a cached sector does not ask the device: whatever device stands below the cache by
  -- then, it returns what the cache was filled from, and leaves the device as it is.
  pub cached_read :
      (lba : ℕ) (c : Cache) (d d' : Dev) (i : ℕ)
      → IsHit c.entries lba i
      → IsCoherent (c, d)
      → ((read_sector ata lba true (c, d')).0 ≡ some (sector_at d lba))
        × ((read_sector ata lba true (c, d')).1.1 ≡ d')
  unfolding read_sector
  cached_read lba c d d' i hit h = serve_hit lba c d d' (find_entry c.entries lba) refl i hit h

  store-device :
      (lba : ℕ) (sector : Sector) (c : Cache) (r : Bool × Dev)
      → (store ata lba sector c r).1.1 ≡ r.1
  store-device lba sector c (false, d) = refl
  store-device lba sector c (true, d) = refl

  -- A write through the cache leaves the device that the driver leaves, with its result.
  pub write_sector-device :
      (lba : ℕ) (sector : Sector) (s : State ata)
      → ((write_sector ata lba (some sector) s).1.1 ≡ (write lba sector s.1).1)
        × ((write_sector ata lba (some sector) s).0 ≡ (write lba sector s.1).0)
  unfolding write_sector
  write_sector-device lba sector (c, d) =
      (store-device lba sector c (write lba sector d), go (write lba sector d))
    where
      go : (r : Bool × Dev) → (store ata lba sector c r).0 ≡ r.0
      go (false, d') = refl
      go (true, d') = refl

  -- The drive has taken the sector and kept the others.
  abbrev pub Takes : (lba : ℕ) → Sector → (d d' : Dev) → Type 0
  Takes lba sector d d' =
      (sector_at d' lba ≡ sector)
      × ((k : ℕ) → k < lba_limit → lba ≢ k → sector_at d' k ≡ sector_at d k)

  -- What the cache is after a write that reports success.
  pub record Stored (s : State ata) (lba : ℕ) (sector : Sector) (s' : State ata) : Type 0 where
    -- It agrees with the drive.
    pub coherent : IsCoherent s'
    -- A read returns the sector without asking the device, whatever device that is by then.
    pub read_back :
        (d : Dev)
        → ((read_sector ata lba true (s'.0, d)).0 ≡ some sector)
          × ((read_sector ata lba true (s'.0, d)).1.1 ≡ d)
    -- One entry has been filled, the others are as before.
    pub one_entry :
        (i : ℕ) × IsHit s'.0.entries lba i × ((j : ℕ) → i ≢ j → s'.0.entries j ≡ s.0.entries j)

  store-Stored :
      (lba : ℕ) (sector : Sector) (c : Cache) (d : Dev) (r : Bool × Dev)
      → lba < lba_limit
      → IsCoherent (c, d)
      → Takes lba sector d r.1
      → (store ata lba sector c r).0 ≡ true
      → Stored (c, d) lba sector (store ata lba sector c r).1
  store-Stored lba sector c d (false, d') small h takes done = absurd (cc done)
  store-Stored lba sector c d (true, d') small h takes done =
      let o = find_entry c.entries lba in
      let i = slot ata c.entries o in
      let coherent : IsCoherent (fill c i lba sector, d') =
        fill-IsCoherent c d d' i lba sector h small (sym takes.0) (slot_only c d lba o refl h)
          takes.1 in
      let hit : IsHit (fill c i lba sector).entries lba i = record {
        in_range = slot-lt ata c lba o refl;
        valid = ground arith;
        same = ground arith;
      } in
      record {
        coherent = coherent;
        read_back = λ e.
            let (got, kept) = cached_read lba (fill c i lba sector) d' e i hit coherent in
            (got ∙ ap (λ (x : Sector). some x) takes.0, kept);
        one_entry = (i, hit, λ j n. update_ne c.entries i j _ n);
      }

  -- With a cache that agrees with the drive and a sector number below 2^28, after a write that
  -- reports success, if the drive has then taken the sector and kept the others
  -- (ata_write_sector does not check this), the cache agrees with the drive again, a read gives
  -- the sector back without asking the device, and all entries of the cache but one are as
  -- before.
  pub write_sector-Stored :
      (lba : ℕ) (sector : Sector) (s : State ata)
      → lba < lba_limit
      → IsCoherent s
      → Takes lba sector s.1 (write_sector ata lba (some sector) s).1.1
      → (write_sector ata lba (some sector) s).0 ≡ true
      → Stored s lba sector (write_sector ata lba (some sector) s).1
  unfolding write_sector
  write_sector-Stored lba sector (c, d) small h takes done =
      store-Stored lba sector c d (write lba sector d) small h
        (subst (Takes lba sector d) (store-device lba sector c (write lba sector d)) takes) done

  store_failed :
      (lba : ℕ) (sector : Sector) (c : Cache) (d : Dev) (r : Bool × Dev)
      → (store ata lba sector c r).0 ≡ false
      → (store ata lba sector c r).1.0 ≡ c
  store_failed lba sector c d (false, d') e = refl
  store_failed lba sector c d (true, d') e = absurd (cc)

  -- With a cache that agrees with the drive and holds the sector, a write that fails leaves the
  -- cache as it was: a read then returns the old contents of the sector, whatever the failed
  -- write has left on the disk.
  pub read_after_failed_write :
      (lba : ℕ) (sector : Sector) (s : State ata) (i : ℕ)
      → IsHit s.0.entries lba i
      → IsCoherent s
      → (write_sector ata lba (some sector) s).0 ≡ false
      → (read_sector ata lba true (write_sector ata lba (some sector) s).1).0
        ≡ some (sector_at s.1 lba)
  unfolding write_sector
  read_after_failed_write lba sector (c, d) i hit h failed =
      let r = write lba sector d in
      let same = store_failed lba sector c d r failed in
      let s' = (store ata lba sector c r).1 in
      subst (λ c'. (read_sector ata lba true (c', s'.1)).0 ≡ some (sector_at d lba)) (sym same)
        (cached_read lba c d s'.1 i hit h).0
