-- ===== src/Heap/Roundtrip.antt =====
-- `kfree`: it keeps the invariant, and undoes `kmalloc`.
use ao_os.Base.{
  ℕ, ◌+◌, ◌-◌, ◌≤◌, ◌<◌, ◌^◌, ◌≡◌, refl, sym, ◌∙◌, ap, subst, ◌≢◌, inl, inr, Bool, true, false,
  ◌||◌, Option, none, some, List, [], ◌∷◌, ◌++◌, arith, leb, ltb, ◌==◌, if◌then◌else◌, Bool-cases,
  u64, sub64,
}
use ao_os.Heap.{
  Block, Heap, header_size, heap_size, splits, split_block, split_size, mark_first, with_free,
  find_block, change_at, merge_from, merge_free_blocks, align, kmalloc, Freed, done,
  invalid_pointer, double_free, free_block, kfree,
}
use ao_os.Heap.Layout.{
  Laid, used_of, used_of-append, spaced, Stands, find_block-some, find_block_lem, change_at_lem,
}
use ao_os.Heap.Merging.{
  merge_from-Laid, merge_from-used_of, merge_from-spaced, merge_from-same, merge_free_blocks-append,
}
use ao_os.Heap.Valid.{
  IsValid, Around, IsValid-Around, put-Laid, used_of-le, split_room, spaced-put, Taken,
  kmalloc-Taken, kmalloc-IsValid,
}

merge_free_blocks-Laid :
    (bs : List Block) (a e : ℕ) → Laid a bs e → e < 2 ^ 64 → Laid a (merge_free_blocks bs) e
unfolding merge_free_blocks
merge_free_blocks-Laid [] a e h small = h
merge_free_blocks-Laid (b ∷ bs) a e h small = merge_from-Laid b bs a e h small

merge_free_blocks-used_of : (bs : List Block) → used_of (merge_free_blocks bs) ≡ used_of bs
unfolding merge_free_blocks
merge_free_blocks-used_of [] = refl
merge_free_blocks-used_of (b ∷ bs) = merge_from-used_of b bs

merge_free_blocks-spaced : (bs : List Block) → spaced false (merge_free_blocks bs) ≡ true
unfolding merge_free_blocks
merge_free_blocks-spaced [] = refl
merge_free_blocks-spaced (b ∷ bs) = merge_from-spaced false b bs refl

-- The state after `kfree` of the block `b` in use.
abbrev without : Heap → Block → Heap
without h b = record h {
  blocks = merge_free_blocks (change_at b.addr (λ c. with_free true c ∷ []) h.blocks);
  used_memory = sub64 h.used_memory (b.size + header_size);
}

change_freed :
    (h : Heap) (xs ys : List Block) (b : Block)
    → IsValid h
    → h.blocks ≡ xs ++ (b ∷ ys)
    → change_at b.addr (λ c. with_free true c ∷ []) h.blocks ≡ xs ++ (with_free true b ∷ ys)
change_freed h xs ys b v e =
    let laid = subst (λ bs. Laid h.heap_base bs (h.heap_base + heap_size)) e v.laid in
    ap (change_at b.addr (λ c. with_free true c ∷ [])) e
    ∙ change_at_lem (λ c. with_free true c ∷ []) xs ys b _ _ laid

count_after :
    (h : Heap) (xs ys : List Block) (b : Block)
    → IsValid h
    → Around h xs ys b
    → b.is_free ≡ false
    → sub64 h.used_memory (b.size + header_size) ≡ used_of xs + used_of ys
count_after h xs ys b v a in_use =
    let e : h.used_memory ≡ used_of xs + (b.size + header_size + used_of ys) =
      ground (arith, a.used, in_use) in
    omega (arith, e, used_of-le xs _ _ a.left, used_of-le ys _ _ a.right, v.fits, a.above)

without-IsValid :
    (h : Heap) (b : Block)
    → IsValid h
    → Stands h.blocks b
    → b.is_free ≡ false
    → IsValid (without h b)
unfolding Laid
without-IsValid h b v w in_use =
    let xs = w.before in
    let ys = w.behind in
    let a = IsValid-Around h xs ys b v w.place in
    let c = with_free true b in
    let e = change_freed h xs ys b v w.place in
    let blocks : List Block = change_at b.addr (λ c. with_free true c ∷ []) h.blocks in
    record {
      laid =
          merge_free_blocks-Laid blocks _ _
            (subst (λ bs. Laid h.heap_base bs (h.heap_base + heap_size)) (sym e)
              (put-Laid h xs ys b a (c ∷ ys) (a.here, a.right)))
            v.fits;
      fits = v.fits;
      counted =
          let total : used_of (merge_free_blocks blocks) ≡ used_of xs + used_of (c ∷ ys) =
            merge_free_blocks-used_of blocks ∙ ap used_of e ∙ used_of-append xs (c ∷ ys) in
          omega (arith, count_after h xs ys b v a in_use, total);
      apart = merge_free_blocks-spaced blocks;
    }

abbrev state_or : Heap → Freed → Heap
state_or h (done h') = h'
state_or h _ = h

done-injective : (h h' : Heap) → done h ≡ done h' → h ≡ h'
done-injective h h' e = ap (state_or h) e

abbrev is_done : Freed → Bool
is_done (done h) = true
is_done _ = false

freed_twice : (h : Heap) (b : Block) → b.is_free ≡ true → free_block h (some b) ≡ double_free
freed_twice h b t = ground arith

freed_in_use :
    (h : Heap) (b : Block) → b.is_free ≡ false → free_block h (some b) ≡ done (without h b)
freed_in_use h b f = simp f refl

kfree_null : (ptr : ℕ) (h : Heap) → (ptr == 0) ≡ true → kfree ptr h ≡ done h
unfolding kfree
kfree_null ptr h z = rw z refl

abbrev outside : ℕ → Heap → Bool
outside block h = ltb block h.heap_base || leb (h.heap_base + heap_size) block

kfree-outside :
    (ptr : ℕ) (h : Heap)
    → (ptr == 0) ≡ false
    → outside (sub64 ptr header_size) h ≡ true
    → kfree ptr h ≡ invalid_pointer
unfolding kfree
kfree-outside ptr h n out = rw (n, out) refl

kfree_inside :
    (ptr : ℕ) (h : Heap)
    → (ptr == 0) ≡ false
    → outside (sub64 ptr header_size) h ≡ false
    → kfree ptr h ≡ free_block h (find_block (sub64 ptr header_size) h.blocks)
unfolding kfree
kfree_inside ptr h n out = rw (n, out) refl

free_block-IsValid :
    (a : ℕ) (h h' : Heap) (o : Option Block)
    → IsValid h
    → find_block a h.blocks ≡ o
    → free_block h o ≡ done h'
    → IsValid h'
free_block-IsValid a h h' none v f e = absurd (cc (ap is_done e))
free_block-IsValid a h h' (some b) v f e = elim (Bool-cases b.is_free) [
  | inl t ↦ absurd (cc (ap is_done (sym (freed_twice h b t) ∙ e)))
  | inr in_use ↦
      let (w, at) = find_block-some a h.blocks b f in
      subst IsValid (done-injective (without h b) h' (sym (freed_in_use h b in_use) ∙ e))
        (without-IsValid h b v w in_use)
]

-- Every `kfree` that comes to its end keeps the invariant.
pub kfree-IsValid : (ptr : ℕ) (h h' : Heap) → IsValid h → kfree ptr h ≡ done h' → IsValid h'
unfolding kfree
kfree-IsValid ptr h h' v e = elim (Bool-cases (ptr == 0)) [
  | inl z ↦ subst IsValid (done-injective h h' (sym (kfree_null ptr h z) ∙ e)) v
  | inr n ↦
      elim (Bool-cases (
        ltb (sub64 ptr header_size) h.heap_base
        || leb (h.heap_base + heap_size) (sub64 ptr header_size))) [
          | inl out ↦ absurd (cc (ap is_done (sym (kfree-outside ptr h n out) ∙ e)))
          | inr inside ↦
              free_block-IsValid (sub64 ptr header_size) h h'
                (find_block (sub64 ptr header_size) h.blocks) v refl
                (sym (kfree_inside ptr h n inside) ∙ e)
        ]
]

-- The chain with the block's two parts, both free, is merged into the chain with the block.
block_eq :
    (b : Block) (s : ℕ)
    → s ≡ b.size
    → b.is_free ≡ true
    → b ≡ (record b { size = s; is_free = true })
block_eq b s e f = rw (e, ← f) refl

first_part : (size : ℕ) (b : Block) → Block
first_part size b = record b { size = split_size size b; is_free = false }

rest_part : (size : ℕ) (b : Block) → List Block
rest_part size b =
    if splits size b
    then record {
      addr = b.addr + header_size + size;
      size = b.size - size - header_size;
      is_free = true;
    }
      ∷ []
    else []

split_parts :
    (size : ℕ) (b : Block) → mark_first (split_block size b) ≡ first_part size b ∷ rest_part size b
unfolding first_part rest_part
split_parts size b = elim (Bool-cases (splits size b)) [ inl t ↦ rw t refl | inr f ↦ rw f refl ]

merge_parts :
    (size : ℕ) (b : Block) (ys : List Block)
    → size ≤ b.size
    → b.size ≤ heap_size
    → b.is_free ≡ true
    → spaced b.is_free ys ≡ true
    → merge_from (with_free true (first_part size b)) (rest_part size b ++ ys) ≡ b ∷ ys
unfolding first_part rest_part merge_from
merge_parts size b ys fits small free apart = elim (Bool-cases (splits size b)) [
  | inl t ↦
      let e =
        block_eq b (u64 (size + (header_size + (b.size - size - header_size))))
          (omega (arith, split_room size b t small fits, small)) free in
      simp (t, ← e) (merge_from-same b ys apart)
  | inr f ↦ let e = block_eq b b.size refl free in simp (f, ← e) (merge_from-same b ys apart)
]

used_of-rest_part :
    (size : ℕ) (b : Block) (ys : List Block) → used_of (rest_part size b ++ ys) ≡ used_of ys
unfolding rest_part
used_of-rest_part size b ys = elim (Bool-cases (splits size b)) [
  | inl t ↦ rw t (omega arith)
  | inr f ↦ rw f refl
]

heap_eq :
    (h : Heap) (bs : List Block) (base total used : ℕ)
    → bs ≡ h.blocks
    → base ≡ h.heap_base
    → total ≡ h.total_memory
    → used ≡ h.used_memory
    → (record { blocks = bs; heap_base = base; total_memory = total; used_memory = used }) ≡ h
heap_eq h bs base total used e f g k = rw (e, f, g, k) refl

module _ (size : ℕ) (h h' : Heap) (b : Block) (v : IsValid h) (v' : IsValid h')
    (w : Taken size h h' b) where
  xs : List Block
  xs = w.place.before

  ys : List Block
  ys = w.place.behind

  first : Block
  first = first_part size b

  chain : h'.blocks ≡ xs ++ (first ∷ (rest_part size b ++ ys))
  unfolding xs ys first
  chain = w.blocks ∙ ap (λ zs. w.place.before ++ (zs ++ w.place.behind)) (split_parts size b)

  restored : without h' first ≡ h
  unfolding xs ys first first_part
  restored =
      let a = IsValid-Around h xs ys b v w.place.place in
      let a' = IsValid-Around h' xs (rest_part size b ++ ys) first v' chain in
      let free = with_free true first in
      let blocks =
        ap merge_free_blocks (change_freed h' xs (rest_part size b ++ ys) first v' chain)
        ∙ merge_free_blocks-append xs (rest_part size b ++ ys) free
            (spaced-put false xs [] b free a.before_apart (ground (arith, w.was_free)) refl)
        ∙ ap (λ zs. xs ++ zs)
            (merge_parts size b ys w.fits (omega (arith, a.limit, a.above)) w.was_free
              a.behind_apart)
        ∙ sym w.place.place in
      let used : sub64 h'.used_memory (first.size + header_size) ≡ h.used_memory = ground (
        arith,
        count_after h' xs (rest_part size b ++ ys) first v' a' refl,
        used_of-rest_part size b ys,
        a.used,
        w.was_free,
      ) in
      heap_eq h _ _ _ _ blocks w.base w.total used

  found : find_block b.addr h'.blocks ≡ some first
  unfolding xs ys first first_part
  found =
      let laid = subst (λ bs. Laid h'.heap_base bs (h'.heap_base + heap_size)) chain v'.laid in
      ap (find_block b.addr) chain ∙ find_block_lem xs (rest_part size b ++ ys) first _ _ laid

  freed : kfree (b.addr + header_size) h' ≡ done h
  unfolding xs ys first first_part
  freed =
      let a = IsValid-Around h xs ys b v w.place.place in
      let back : sub64 (b.addr + header_size) header_size ≡ b.addr =
        omega (arith, a.here, a.limit, v.fits) in
      let inside : outside (sub64 (b.addr + header_size) header_size) h' ≡ false =
        ground (arith, back, a.here, a.above, a.limit, w.base) in
      kfree_inside (b.addr + header_size) h' (ground arith) inside
      ∙ ap (λ k. free_block h' (find_block k h'.blocks)) back
      ∙ ap (free_block h') found
      ∙ freed_in_use h' first refl
      ∙ ap done restored

-- In a valid heap, kfree of the pointer that kmalloc has just returned gives back the very heap
-- of before: the same blocks, counters and base.
pub kfree-kmalloc :
    (size : ℕ) (h : Heap)
    → IsValid h
    → (kmalloc size h).0 ≢ 0
    → kfree (kmalloc size h).0 (kmalloc size h).1 ≡ done h
kfree-kmalloc size h v got = elim (kmalloc-Taken size h v) [
  | inl (z, same) ↦ absurd (got z)
  | inr (b, p, w) ↦
      ap (λ q. kfree q (kmalloc size h).1) p
      ∙ freed (align size) h (kmalloc size h).1 b v (kmalloc-IsValid size h v) w
]
