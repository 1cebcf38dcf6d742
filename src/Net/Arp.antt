-- ===== src/Net/Arp.antt =====
-- The address cache of kernel/net/net.c: what is learnt is found, and no address stands twice.
use ao_os.Base.{
  ℕ, zero, suc, ◌+◌, ◌≤◌, ◌<◌, ◌≡◌, refl, sym, ◌∙◌, ap, subst, ◌≢◌, ◌⊎◌, inl, inr, Bool, true,
  false, ◌&&◌, Option, none, some, arith, ◌==◌, if◌then◌else◌, Bool-cases, and_true, ==_refl,
  update, update_self, update_ne, FoundAt, find_from-first, sub64,
}
use ao_os.Net.Wire.{Frame, copy}
use ao_os.Net.{
  Net, ArpEntry, arp_slots, arp_ttl_ticks, count_valid, is_expired, aged, expire_arp, has_ip,
  arp_lookup, first_free, put_slot, or_first, put_entry, arp_cache_put,
}

-- What the search of `arp_cache_put` stops at: the first slot of the address, or a slot that no search
-- for the address would find.
abbrev Chosen : (ℕ → ArpEntry) → (ip i n : ℕ) → Option ℕ → Option ℕ → Type 0
Chosen c ip i n slot r =
    ((k : ℕ) × (r ≡ some k) × FoundAt (has_ip c ip) i n k)
    ⊎ (((j : ℕ) → i ≤ j → j < i + n → has_ip c ip j ≡ false)
        × ((k : ℕ) → r ≡ some k → (k < i + n) ⊎ (slot ≡ some k)))

first_free-cases :
    (c : ℕ → ArpEntry) (i : ℕ) (slot : Option ℕ) (k : ℕ)
    → first_free c i slot ≡ some k
    → (k ≡ i) ⊎ (slot ≡ some k)
first_free-cases c i none k e = elim (Bool-cases (c i).valid) [
  | inl t ↦ absurd (ground (arith, e, t))
  | inr f ↦ inl (ground (arith, e, f))
]
first_free-cases c i (some m) k e = inr e

put_slot-skip :
    (c : ℕ → ArpEntry) (ip i n : ℕ) (slot : Option ℕ)
    → has_ip c ip i ≡ false
    → put_slot c ip i (suc n) slot ≡ put_slot c ip (i + 1) n (first_free c i slot)
unfolding put_slot
put_slot-skip c ip i n slot f = rw f refl

put_slot-Chosen :
    (c : ℕ → ArpEntry) (ip i n : ℕ) (slot : Option ℕ)
    → Chosen c ip i n slot (put_slot c ip i n slot)
unfolding put_slot
put_slot-Chosen c ip i zero slot = inr (λ j a b. absurd (omega arith), λ k e. inr e)
put_slot-Chosen c ip i (suc n) slot = elim (Bool-cases (has_ip c ip i)) [
  | inl t ↦ inl (
    i,
    rw t refl,
    record {
      from = omega arith;
      below = omega arith;
      holds = t;
      first = λ j a b. absurd (omega (arith, a, b));
    },
  )
  | inr f ↦ elim (put_slot-Chosen c ip (i + 1) n (first_free c i slot)) [
    | inl (k, e, found) ↦ inl (
      k,
      rw f e,
      record {
        from = omega (arith, found.from);
        below = omega (arith, found.below);
        holds = found.holds;
        first = λ j a b. elim (Bool-cases (i == j)) [
          | inl same ↦ subst (λ x. has_ip c ip x ≡ false) (ground (arith, same)) f
          | inr other ↦ found.first j (ground (arith, a, other)) b
        ];
      },
    )
    | inr (all, bound) ↦ inr (
      λ j a b. elim (Bool-cases (i == j)) [
        | inl same ↦ subst (λ x. has_ip c ip x ≡ false) (ground (arith, same)) f
        | inr other ↦ all j (ground (arith, a, other)) (omega (arith, b))
      ],
      λ k e. elim (bound k (sym (put_slot-skip c ip i n slot f) ∙ e)) [
        | inl l ↦ inl (omega (arith, l))
        | inr e' ↦ elim (first_free-cases c i slot k e') [
          | inl k_i ↦ inl (omega (arith, k_i))
          | inr e'' ↦ inr e''
        ]
      ],
    )
  ]
]

abbrev slot_of : (ℕ → ArpEntry) → (ip : ℕ) → ℕ
slot_of c ip = or_first (put_slot c ip 0 arp_slots none)

-- The slot that `arp_cache_put` writes.
record Slot (c : ℕ → ArpEntry) (ip k : ℕ) : Type 0 where
  inside : k < arp_slots
  unseen : (j : ℕ) → j < k → has_ip c ip j ≡ false
  free : (has_ip c ip k ≡ true) ⊎ ((j : ℕ) → j < arp_slots → has_ip c ip j ≡ false)

slot_of-Slot : (c : ℕ → ArpEntry) (ip : ℕ) → Slot c ip (slot_of c ip)
slot_of-Slot c ip = elim (put_slot-Chosen c ip 0 arp_slots none) [
  | inl (k, e, found) ↦
      subst (λ o. Slot c ip (or_first o)) (sym e)
        (record {
          inside = found.below;
          unseen = λ j l. found.first j (omega arith) l;
          free = inl found.holds;
        })
  | inr (all, bound) ↦ go all bound (put_slot c ip 0 arp_slots none) refl
]
  where
    go :
        ((j : ℕ) → 0 ≤ j → j < arp_slots → has_ip c ip j ≡ false)
        → ((k : ℕ) → put_slot c ip 0 arp_slots none ≡ some k → (k < arp_slots) ⊎ (none ≡ some k))
        → (o : Option ℕ) → put_slot c ip 0 arp_slots none ≡ o
        → Slot c ip (or_first o)
    go all bound none e = record {
      inside = omega arith;
      unseen = λ j l. absurd (omega (arith, l));
      free = inr (λ j l. all j (omega arith) l);
    }
    go all bound (some k) e = elim (bound k e) [
      | inl l ↦ record {
        inside = l;
        unseen = λ j b. all j (omega arith) (omega (arith, l, b));
        free = inr (λ j b. all j (omega arith) b);
      }
      | inr o ↦ absurd (cc o)
    ]

-- An entry that is still valid after the old ones were dropped was not changed.
aged-valid : (now : ℕ) (e : ArpEntry) → (aged now e).valid ≡ true → aged now e ≡ e
aged-valid now e h = elim (Bool-cases (is_expired now e)) [
  | inl t ↦ absurd (go (is_expired now e) t h)
  | inr f ↦ rw f refl
]
  where
    go : (b : Bool) → b ≡ true → (if b then record e { valid = false } else e).valid ≡ true → ⊥
    go true t h' = absurd (cc h')
    go false t h' = absurd (cc t)

-- No address stands in two slots, and the count of entries is right.
pub record Cached (c : ℕ → ArpEntry) (entries : ℕ) : Type 0 where
  pub single :
      (ip i j : ℕ)
      → i < arp_slots
      → j < arp_slots
      → has_ip c ip i ≡ true
      → has_ip c ip j ≡ true
      → i ≡ j
  pub counted : entries ≡ count_valid c

pub record IsCached (n : Net) : Type 0 where
  pub cache : Cached n.arp_cache n.arp_entries

put_other :
    (c : ℕ → ArpEntry) (e : ArpEntry) (k ip j : ℕ)
    → k ≢ j
    → has_ip (update c k e) ip j ≡ has_ip c ip j
put_other c e k ip j h = rw (update_ne c k j e h) refl

put_self :
    (c : ℕ → ArpEntry) (e : ArpEntry) (k ip : ℕ)
    → has_ip (update c k e) ip k ≡ (e.valid && (e.ip == ip))
put_self c e k ip = rw (update_self c k e) refl

has_ip-aged :
    (c : ℕ → ArpEntry) (now ip j : ℕ)
    → has_ip (λ i. aged now (c i)) ip j ≡ true
    → has_ip c ip j ≡ true
has_ip-aged c now ip j h =
    let v = (and_true (aged now (c j)).valid ((aged now (c j)).ip == ip) h).0 in
    subst (λ e. (e.valid && (e.ip == ip)) ≡ true) (aged-valid now (c j) v) h

-- The new entry and an entry of the same address are one.
put_single :
    (c : ℕ → ArpEntry) (e : ArpEntry) (k ip j : ℕ)
    → Slot c e.ip k
    → ((i j : ℕ)
        → i < arp_slots
        → j < arp_slots
        → has_ip c ip i ≡ true
        → has_ip c ip j ≡ true
        → i ≡ j)
    → j < arp_slots
    → has_ip (update c k e) ip k ≡ true
    → has_ip (update c k e) ip j ≡ true
    → k ≡ j
put_single c e k ip j slot single b h h' = elim (Bool-cases (k == j)) [
  | inl same ↦ ground (arith, same)
  | inr other ↦
      let ne : k ≢ j = ground (arith, other) in
      let old : has_ip c ip j ≡ true = sym (put_other c e k ip j ne) ∙ h' in
      let new = (and_true e.valid (e.ip == ip) (sym (put_self c e k ip) ∙ h)).1 in
      let same : e.ip ≡ ip = ground (arith, new) in
      elim slot.free [
        | inl held ↦ single k j slot.inside b (subst (λ x. has_ip c x k ≡ true) same held) old
        | inr none_held ↦ absurd (cc (subst (λ x. has_ip c x j ≡ false) same (none_held j b), old))
      ]
]

pub arp_cache_put-IsCached :
    (ip : ℕ) (f : Frame) (k now : ℕ) (n : Net) → IsCached n → IsCached (arp_cache_put ip f k now n)
unfolding arp_cache_put
arp_cache_put-IsCached ip f k now n h =
    let s = slot_of n.arp_cache ip in
    let e = put_entry ip f k now (n.arp_cache s) in
    let slot = slot_of-Slot n.arp_cache ip in
    let c' = update n.arp_cache s e in
    let put = λ (x : ℕ) (j : ℕ). put_single n.arp_cache e s x j slot (h.cache.single x) in
    record {
      cache = record {
        single = λ x i j bi bj hi hj. elim (Bool-cases (s == i)) [
          | inl t ↦
              let si : s ≡ i = ground (arith, t) in
              sym si ∙ put x j bj (subst (λ m. has_ip c' x m ≡ true) (sym si) hi) hj
          | inr t ↦ elim (Bool-cases (s == j)) [
            | inl u ↦
                let sj : s ≡ j = ground (arith, u) in
                sym (put x i bi (subst (λ m. has_ip c' x m ≡ true) (sym sj) hj) hi) ∙ sj
            | inr u ↦
                h.cache.single x i j bi bj
                  (sym (put_other n.arp_cache e s x i (ground (arith, t))) ∙ hi)
                  (sym (put_other n.arp_cache e s x j (ground (arith, u))) ∙ hj)
          ]
        ];
        counted = refl;
      };
    }

expire_arp-IsCached : (now : ℕ) (n : Net) → IsCached n → IsCached (expire_arp now n)
unfolding expire_arp
expire_arp-IsCached now n h = record {
  cache = record {
    single = λ ip i j bi bj hi hj.
        h.cache.single ip i j bi bj (has_ip-aged n.arp_cache now ip i hi)
          (has_ip-aged n.arp_cache now ip j hj);
    counted = refl;
  };
}

aged_fresh : (now : ℕ) (e : ArpEntry) → sub64 now e.updated ≤ arp_ttl_ticks → aged now e ≡ e
aged_fresh now e h = let f : is_expired now e ≡ false = ground (arith, h) in rw f refl

-- A lookup of an address in the state that arp_cache_put of it has just left, at a time that is
-- at most 6000 ticks later in 64-bit arithmetic, finds a slot with the six bytes of the hardware
-- address that was put; every other slot is then what expire_arp at that time makes of the cache
-- of before.
pub arp_lookup-arp_cache_put :
    (ip : ℕ) (f : Frame) (k now now' : ℕ) (n : Net)
    → sub64 now' now ≤ arp_ttl_ticks
    → (i : ℕ) × (((arp_lookup ip now' (arp_cache_put ip f k now n)).0 ≡ some i)
        × ((j : ℕ)
            → j < 6
            → ((arp_lookup ip now' (arp_cache_put ip f k now n)).1.arp_cache i).mac j ≡ f (k + j))
        × ((j : ℕ)
            → i ≢ j
            → (arp_lookup ip now' (arp_cache_put ip f k now n)).1.arp_cache j
              ≡ (expire_arp now' n).arp_cache j))
unfolding arp_lookup arp_cache_put expire_arp copy
arp_lookup-arp_cache_put ip f k now now' n fresh =
    let c = n.arp_cache in
    let s = slot_of c ip in
    let e = put_entry ip f k now (c s) in
    let slot = slot_of-Slot c ip in
    let c' : ℕ → ArpEntry = λ i. aged now' (update c s e i) in
    let self : c' s ≡ e = ap (aged now') (update_self c s e) ∙ aged_fresh now' e fresh in
    let hit : has_ip c' ip s ≡ true = ap (λ x. x.valid && (x.ip == ip)) self ∙ ==_refl ip in
    let before : (j : ℕ) → j < s → has_ip c' ip j ≡ false = λ j l.
      elim (Bool-cases (has_ip c' ip j)) [
        | inr o ↦ o
        | inl o ↦
            let old = has_ip-aged (update c s e) now' ip j o in
            let at_c = sym (put_other c e s ip j (omega (arith, l))) ∙ old in
            absurd (cc (at_c, slot.unseen j l))
      ] in
    (
      s,
      (
        find_from-first (has_ip c' ip) arp_slots s slot.inside hit before,
        λ j l. ap (λ x. x.mac j) self ∙ ground (arith, l),
        λ j o. ap (aged now') (update_ne c s j e o),
      ),
    )
