-- ===== src/Heap/Valid.antt =====
-- The invariant of the heap, and that every call keeps it.
use ao_os.Base.{
  ℕ, ◌+◌, ◌-◌, ◌≤◌, ◌<◌, ◌^◌, ◌≡◌, refl, sym, ◌∙◌, ap, subst, ◌⊎◌, inl, inr, Bool, true, false,
  ◌&&◌, not, some, List, [], ◌∷◌, ◌++◌, arith, ◌==◌, if◌then◌else◌, Bool-cases, Option-cases, u64,
}
use ao_os.Heap.{
  Block, Heap, header_size, heap_size, splits, split_block, split_size, mark_first, find_free_block,
  change_at, align, take_block, kmalloc,
}
use ao_os.Heap.Layout.{
  Laid, Laid-le, Laid-append, append-Laid, used_of, used_of-append, spaced, Stands,
  find_free_block-some, change_at_lem,
}
use ao_os.Heap.Merging.{spaced-before}

pub record IsValid (h : Heap) : Type 0 where
  -- The blocks fill the heap, which does not wrap at 64 bits.
  pub laid : Laid h.heap_base h.blocks (h.heap_base + heap_size)
  pub fits : h.heap_base + heap_size < 2 ^ 64
  -- The counter is the sum of the blocks in use with their headers.
  pub counted : h.used_memory ≡ used_of h.blocks
  -- No two neighbours are free.
  pub apart : spaced false h.blocks ≡ true

pub used_of-le : (bs : List Block) (a e : ℕ) → Laid a bs e → a + used_of bs ≤ e
unfolding Laid
used_of-le [] a e h = omega (arith, h)
used_of-le (b ∷ bs) a e h = ground (arith, used_of-le bs _ e h.1)

-- The parts of a chain around one block.
pub record Around (h : Heap) (xs ys : List Block) (b : Block) : Type 0 where
  pub start : ℕ
  pub left : Laid h.heap_base xs start
  pub here : b.addr ≡ start
  pub right : Laid (start + header_size + b.size) ys (h.heap_base + heap_size)
  pub used :
      h.used_memory ≡ used_of xs + ((if b.is_free then 0 else b.size + header_size) + used_of ys)
  pub before_apart : spaced false (xs ++ (b ∷ [])) ≡ true
  pub behind_apart : spaced b.is_free ys ≡ true
  pub limit : start + header_size + b.size ≤ h.heap_base + heap_size
  pub above : h.heap_base ≤ start

pub IsValid-Around :
    (h : Heap) (xs ys : List Block) (b : Block)
    → IsValid h
    → h.blocks ≡ xs ++ (b ∷ ys)
    → Around h xs ys b
unfolding Laid
IsValid-Around h xs ys b v e =
    let laid = subst (λ bs. Laid h.heap_base bs (h.heap_base + heap_size)) e v.laid in
    let (m, l, r) = Laid-append xs (b ∷ ys) h.heap_base _ laid in
    let (p, q) = spaced-before false xs ys b (ap (spaced false) (sym e) ∙ v.apart) in
    record {
      start = m;
      left = l;
      here = r.0;
      right = r.1;
      used = v.counted ∙ ap used_of e ∙ used_of-append xs (b ∷ ys);
      before_apart = p;
      behind_apart = q;
      limit = Laid-le ys _ _ r.1;
      above = Laid-le xs _ _ l;
    }

-- Another chain in place of one block and what follows it.
module _ (h : Heap) (xs ys : List Block) (b : Block) (a : Around h xs ys b) where
  pub put-Laid :
      (zs : List Block)
      → Laid a.start zs (h.heap_base + heap_size)
      → Laid h.heap_base (xs ++ zs) (h.heap_base + heap_size)
  put-Laid zs = append-Laid xs zs h.heap_base a.start _ a.left

pub spaced-put :
    (f : Bool) (xs zs : List Block) (b c : Block)
    → spaced f (xs ++ (b ∷ [])) ≡ true
    → (c.is_free && not b.is_free) ≡ false
    → spaced c.is_free zs ≡ true
    → spaced f (xs ++ (c ∷ zs)) ≡ true
spaced-put f [] zs b c p q r = ground arith
spaced-put f (x ∷ xs) zs b c p q r =
    ground (arith, spaced-put x.is_free xs zs b c (ground arith) q r)

spaced-weaken : (f : Bool) (ys : List Block) → spaced f ys ≡ true → spaced false ys ≡ true
spaced-weaken f [] h = refl
spaced-weaken f (y ∷ ys) h = ground arith

pub split_room :
    (size : ℕ) (b : Block)
    → splits size b ≡ true
    → b.size ≤ heap_size
    → size ≤ b.size
    → size + header_size + 16 ≤ b.size
split_room size b t s l = ground (arith, t, s, l)

used_after :
    (h : Heap) (xs ys : List Block) (b : Block)
    → Around h xs ys b
    → h.heap_base + heap_size < 2 ^ 64
    → used_of xs + (header_size + b.size + used_of ys) ≤ heap_size
used_after h xs ys b a small =
    omega (arith, used_of-le xs _ _ a.left, used_of-le ys _ _ a.right, a.above)

-- The block's place is taken by the block in use and, if there is room, a free one behind it.
taken_chain :
    (h : Heap) (xs ys : List Block) (b : Block) (size : ℕ)
    → Around h xs ys b
    → b.is_free ≡ true
    → size ≤ b.size
    → h.heap_base + heap_size < 2 ^ 64
    → let zs = mark_first (split_block size b) ++ ys in
      Laid h.heap_base (xs ++ zs) (h.heap_base + heap_size)
      × (u64 (h.used_memory + (split_size size b + header_size)) ≡ used_of (xs ++ zs))
      × (spaced false (xs ++ zs) ≡ true)
unfolding Laid
taken_chain h xs ys b size a free fits small =
    let room : splits size b ≡ true → size + header_size + 16 ≤ b.size =
      λ t. split_room size b t (omega (arith, a.limit, a.above)) fits in
    elim (Bool-cases (splits size b)) [
      | inl t ↦
          let c : Block = record b { size = size; is_free = false } in
          let r : Block = record {
            addr = b.addr + header_size + size;
            size = b.size - size - header_size;
            is_free = true;
          } in
          rw t (
            put-Laid h xs ys b a (c ∷ r ∷ ys) (
              a.here,
              (
                omega (arith, a.here),
                subst (λ k. Laid k ys (h.heap_base + heap_size)) (omega (arith, room t)) a.right,
              ),
            ),
            ground (
              arith,
              used_after h xs ys b a small,
              used_of-append xs (c ∷ r ∷ ys),
              a.used,
              free,
              room t,
            ),
            spaced-put false xs (r ∷ ys) b c a.before_apart refl
                (ground (arith, a.behind_apart, free)),
          )
      | inr f ↦
          let c : Block = record b { is_free = false } in
          rw f (
            put-Laid h xs ys b a (c ∷ ys) (a.here, a.right),
            ground (arith, used_after h xs ys b a small, used_of-append xs (c ∷ ys), a.used, free),
            spaced-put false xs ys b c a.before_apart refl
                (spaced-weaken b.is_free ys a.behind_apart),
          )
    ]

-- What a successful `kmalloc` has found and what it leaves.
pub record Taken (size : ℕ) (h h' : Heap) (b : Block) : Type 0 where
  pub place : Stands h.blocks b
  pub was_free : b.is_free ≡ true
  pub fits : size ≤ b.size
  pub blocks : h'.blocks ≡ place.before ++ (mark_first (split_block size b) ++ place.behind)
  pub used : h'.used_memory ≡ u64 (h.used_memory + (split_size size b + header_size))
  pub base : h'.heap_base ≡ h.heap_base
  pub total : h'.total_memory ≡ h.total_memory

take_block-Taken :
    (size : ℕ) (h : Heap) (b : Block)
    → IsValid h
    → find_free_block size h.blocks ≡ some b
    → Taken size h (take_block size h (some b)).1 b
take_block-Taken size h b v e =
    let (w, free, fits) = find_free_block-some size h.blocks b e in
    let laid = subst (λ bs. Laid h.heap_base bs (h.heap_base + heap_size)) w.place v.laid in
    record {
      place = w;
      was_free = free;
      fits = fits;
      blocks =
          ap (change_at b.addr (λ c. mark_first (split_block size c))) w.place
          ∙ change_at_lem (λ c. mark_first (split_block size c)) w.before w.behind b _ _ laid;
      used = refl;
      base = refl;
      total = refl;
    }

Taken-IsValid : (size : ℕ) (h h' : Heap) (b : Block) → IsValid h → Taken size h h' b → IsValid h'
Taken-IsValid size h h' b v w =
    let xs = w.place.before in
    let ys = w.place.behind in
    let around = IsValid-Around h xs ys b v w.place.place in
    let (l, u, s) = taken_chain h xs ys b size around w.was_free w.fits v.fits in
    record {
      laid =
          subst (λ k. Laid k h'.blocks (k + heap_size)) (sym w.base)
            (subst (λ bs. Laid h.heap_base bs (h.heap_base + heap_size)) (sym w.blocks) l);
      fits = omega (arith, w.base, v.fits);
      counted = w.used ∙ u ∙ ap used_of (sym w.blocks);
      apart = ap (spaced false) w.blocks ∙ s;
    }

-- The allocation fails, or takes a free block that is large enough.
pub kmalloc-Taken :
    (size : ℕ) (h : Heap)
    → IsValid h
    → (((kmalloc size h).0 ≡ 0) × ((kmalloc size h).1 ≡ h))
      ⊎ ((b : Block) × ((kmalloc size h).0 ≡ b.addr + header_size)
          × Taken (align size) h (kmalloc size h).1 b)
unfolding kmalloc
kmalloc-Taken size h v = elim (Bool-cases (size == 0)) [
  | inl z ↦ rw z (inl (refl, refl))
  | inr n ↦ rw n (elim (Option-cases (find_free_block (align size) h.blocks)) [
    | inl e ↦ rw e (inl (refl, refl))
    | inr (b, e) ↦ rw e (inr (b, refl, take_block-Taken (align size) h b v e))
  ])
]

pub kmalloc-IsValid : (size : ℕ) (h : Heap) → IsValid h → IsValid (kmalloc size h).1
kmalloc-IsValid size h v = elim (kmalloc-Taken size h v) [
  | inl (z, same) ↦ subst IsValid (sym same) v
  | inr (b, p, w) ↦ Taken-IsValid (align size) h _ b v w
]
