-- ===== src/Heap/Merging.antt =====
-- `merge_free_blocks`: the chain keeps its layout and the bytes in use, and no two neighbours are
-- free behind it.
use ao_os.Base.{
  ℕ, ◌+◌, ◌<◌, ◌^◌, ◌≡◌, refl, ap, subst, inl, inr, Bool, true, false, ◌&&◌, List, [], ◌∷◌, ◌++◌,
  arith, if◌then◌else◌, Bool-cases,
}
use ao_os.Heap.{Block, header_size, joined, merge_from, merge_free_blocks}
use ao_os.Heap.Layout.{Laid, Laid-le, used_of, spaced}

joined-size :
    (b c : Block) (bs : List Block) (a e : ℕ)
    → Laid a (b ∷ c ∷ bs) e
    → e < 2 ^ 64
    → (joined b c).size ≡ b.size + (header_size + c.size)
unfolding Laid
joined-size b c bs a e h small = omega (arith, small, Laid-le bs _ e h.1.1)

joined-Laid :
    (b c : Block) (bs : List Block) (a e : ℕ)
    → Laid a (b ∷ c ∷ bs) e
    → e < 2 ^ 64
    → Laid a (joined b c ∷ bs) e
unfolding Laid
joined-Laid b c bs a e h small =
    let s = joined-size b c bs a e h small in
    (h.0, subst (λ k. Laid k bs e) (omega (arith, s)) h.1.1)

pub merge_from-Laid :
    (b : Block) (bs : List Block) (a e : ℕ)
    → Laid a (b ∷ bs) e
    → e < 2 ^ 64
    → Laid a (merge_from b bs) e
unfolding merge_from Laid
merge_from-Laid b [] a e h small = h
merge_from-Laid b (c ∷ bs) a e h small = elim (Bool-cases (b.is_free && c.is_free)) [
  | inl t ↦ rw t (merge_from-Laid (joined b c) bs a e (joined-Laid b c bs a e h small) small)
  | inr f ↦ rw f (h.0, merge_from-Laid c bs _ e h.1 small)
]

pub merge_from-used_of :
    (b : Block) (bs : List Block) → used_of (merge_from b bs) ≡ used_of (b ∷ bs)
unfolding merge_from
merge_from-used_of b [] = refl
merge_from-used_of b (c ∷ bs) = elim (Bool-cases (b.is_free && c.is_free)) [
  | inl t ↦ rw t (ground (arith, t, merge_from-used_of (joined b c) bs))
  | inr f ↦
      rw f (ap (λ n. (if b.is_free then 0 else b.size + header_size) + n) (merge_from-used_of c bs))
]

pub merge_from-spaced :
    (before : Bool) (b : Block) (bs : List Block)
    → (before && b.is_free) ≡ false
    → spaced before (merge_from b bs) ≡ true
unfolding merge_from
merge_from-spaced before b [] h = ground arith
merge_from-spaced before b (c ∷ bs) h = elim (Bool-cases (b.is_free && c.is_free)) [
  | inl t ↦ rw t (merge_from-spaced before (joined b c) bs h)
  | inr f ↦ rw f (ground (arith, merge_from-spaced b.is_free c bs f))
]

-- Nothing to merge.
pub merge_from-same :
    (b : Block) (bs : List Block) → spaced b.is_free bs ≡ true → merge_from b bs ≡ b ∷ bs
unfolding merge_from
merge_from-same b [] h = refl
merge_from-same b (c ∷ bs) h =
    let f : (b.is_free && c.is_free) ≡ false = ground arith in
    rw f (ap (λ r. b ∷ r) (merge_from-same c bs (ground arith)))

-- The chain before block `c` stays as it is when it is spaced up to `c`.
merge_from-append :
    (x : Block) (xs ys : List Block) (c : Block)
    → spaced x.is_free (xs ++ (c ∷ [])) ≡ true
    → merge_from x (xs ++ (c ∷ ys)) ≡ x ∷ (xs ++ merge_from c ys)
unfolding merge_from
merge_from-append x [] ys c h = let f : (x.is_free && c.is_free) ≡ false = ground arith in rw f refl
merge_from-append x (y ∷ xs) ys c h =
    let f : (x.is_free && y.is_free) ≡ false = ground arith in
    rw f (ap (λ r. x ∷ r) (merge_from-append y xs ys c (ground arith)))

pub merge_free_blocks-append :
    (xs ys : List Block) (c : Block)
    → spaced false (xs ++ (c ∷ [])) ≡ true
    → merge_free_blocks (xs ++ (c ∷ ys)) ≡ xs ++ merge_from c ys
unfolding merge_free_blocks
merge_free_blocks-append [] ys c h = refl
merge_free_blocks-append (x ∷ xs) ys c h = merge_from-append x xs ys c (ground arith)

pub spaced-before :
    (f : Bool) (xs ys : List Block) (c : Block)
    → spaced f (xs ++ (c ∷ ys)) ≡ true
    → (spaced f (xs ++ (c ∷ [])) ≡ true) × (spaced c.is_free ys ≡ true)
spaced-before f [] ys c h = (ground arith, ground arith)
spaced-before f (x ∷ xs) ys c h =
    let (l, r) = spaced-before x.is_free xs ys c (ground arith) in (ground arith, r)
