-- ===== src/BlockCache/Search.antt =====
-- What `find_entry` and `choose_victim` find.
use ao_os.Base.{
  ℕ, zero, suc, ◌+◌, ◌≤◌, ◌<◌, ◌≡◌, refl, ◌⊎◌, inl, inr, true, false, ◌&&◌, none, some, arith, ltb,
  ◌==◌, if◌then◌else◌, Bool-cases, FoundAt, find_from-FoundAt, find_from-none,
}
use ao_os.BlockCache.{Entries, block_cache_size, find_entry, choose_from, choose_victim}

-- The entry `i` holds the sector.
pub record IsHit (c : Entries) (lba i : ℕ) : Type 0 where
  pub in_range : i < block_cache_size
  pub valid : (c i).valid ≡ true
  pub same : (c i).lba ≡ lba

pub find_entry-some : (c : Entries) (lba i : ℕ) → find_entry c lba ≡ some i → IsHit c lba i
unfolding find_entry
find_entry-some c lba i e =
    let f : FoundAt (λ i. (c i).valid && ((c i).lba == lba)) 0 block_cache_size i =
      find_from-FoundAt _ _ _ i e in
    record {
      in_range = omega (arith, f.below);
      valid = ground (arith, f.holds);
      same = ground (arith, f.holds);
    }

pub find_entry-none :
    (c : Entries) (lba : ℕ) → find_entry c lba ≡ none → (i : ℕ) → ¬ (IsHit c lba i)
unfolding find_entry
find_entry-none c lba e i h = ground (
  arith,
  find_from-none _ 0 block_cache_size e i (omega arith) (omega (arith, h.in_range)),
  h.valid,
  h.same,
)

-- The first entry from `i` on that is not in use.
record IsUnused (c : Entries) (i n r : ℕ) : Type 0 where
  from : i ≤ r
  below : r < i + n
  unused : (c r).valid ≡ false

-- All entries from `i` on are in use, and `r` is the oldest of them and of the victim so far.
record IsOldest (c : Entries) (i n victim r : ℕ) : Type 0 where
  place : (r ≡ victim) ⊎ ((i ≤ r) × (r < i + n))
  le_victim : (c r).age ≤ (c victim).age
  used : (j : ℕ) → i ≤ j → j < i + n → (c j).valid ≡ true
  oldest : (j : ℕ) → i ≤ j → j < i + n → (c r).age ≤ (c j).age

Chosen : Entries → (i n victim r : ℕ) → Type 0
Chosen c i n victim r = IsUnused c i n r ⊎ IsOldest c i n victim r

choose_next :
    (c : Entries) (i n victim v' r : ℕ)
    → (c i).valid ≡ true
    → (v' ≡ i) × ((c i).age < (c victim).age) ⊎ (v' ≡ victim) × ((c victim).age ≤ (c i).age)
    → Chosen c (i + 1) n v' r
    → Chosen c i (suc n) victim r
unfolding Chosen
choose_next c i n victim v' r used pick (inl u) =
    inl (record { from = omega (arith, u.from); below = omega (arith, u.below); unused = u.unused })
choose_next c i n victim v' r used pick (inr o) = inr (record {
  place = ground (arith, o.place);
  le_victim = ground (arith, o.le_victim);
  used = λ j a b. elim (Bool-cases (i == j)) [
    | inl same ↦ ground arith
    | inr other ↦ o.used j (ground arith) (omega arith)
  ];
  oldest = λ j a b. elim (Bool-cases (i == j)) [
    | inl same ↦ ground (arith, o.le_victim)
    | inr other ↦ o.oldest j (ground arith) (omega arith)
  ];
})

choose_from-Chosen : (c : Entries) (i n victim : ℕ) → Chosen c i n victim (choose_from c i n victim)
unfolding choose_from Chosen
choose_from-Chosen c i zero victim = inr (record {
  place = inl refl;
  le_victim = omega arith;
  used = λ j a b. absurd (omega arith);
  oldest = λ j a b. absurd (omega arith);
})
choose_from-Chosen c i (suc n) victim = elim (Bool-cases (c i).valid) [
  | inr unused ↦
      rw unused (inl (record { from = omega arith; below = omega arith; unused = unused }))
  | inl used ↦
      let v' = if ltb (c i).age (c victim).age then i else victim in
      rw used
        (choose_next c i n victim v' _ used (ground arith) (choose_from-Chosen c (i + 1) n v'))
]

-- choose_victim picks an entry of the table: one that is not in use, or, when all are in use,
-- one of the least age.
pub choose_victim_lem :
    (c : Entries)
    → let v = choose_victim c in
      (v < block_cache_size)
      × (((c v).valid ≡ false)
          ⊎ ((j : ℕ) → j < block_cache_size → ((c j).valid ≡ true) × ((c v).age ≤ (c j).age)))
unfolding choose_victim Chosen
choose_victim_lem c = elim (choose_from-Chosen c 0 block_cache_size 0) [
  | inl u ↦ (omega (arith, u.below), inl u.unused)
  | inr o ↦ (
    omega (arith, o.place),
    inr (λ j b. (o.used j (omega arith) (omega arith), o.oldest j (omega arith) (omega arith))),
  )
]
