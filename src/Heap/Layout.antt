-- ===== src/Heap/Layout.antt =====
-- The chain of blocks as a layout of the heap, and where a search or a change falls in it.
use ao_os.Base.{
  ℕ, ◌+◌, ◌≤◌, ◌≡◌, refl, sym, ◌∙◌, ap, subst, inl, inr, Bool, true, false, ◌&&◌, not, some,
  some-injective, List, [], ◌∷◌, ◌++◌, arith, leb, ◌==◌, if◌then◌else◌, Bool-cases,
}
use ao_os.Heap.{Block, header_size, find_free_block, find_block, change_at}

-- The blocks fill the bytes from `a` to `e`, each behind the one before.
unfoldable pub Laid : ℕ → List Block → ℕ → Type 0
Laid a [] e = a ≡ e
Laid a (b ∷ bs) e = (b.addr ≡ a) × Laid (a + header_size + b.size) bs e

-- The bytes of the blocks in use, headers included.
abbrev pub used_of : List Block → ℕ
used_of [] = 0
used_of (b ∷ bs) = (if b.is_free then 0 else b.size + header_size) + used_of bs

-- No two neighbours are free; `before` says whether the block before is.
abbrev pub spaced : (before : Bool) → List Block → Bool
spaced f [] = true
spaced f (b ∷ bs) = not (f && b.is_free) && spaced b.is_free bs

-- Where a block stands in the chain.
pub record Stands (bs : List Block) (b : Block) : Type 0 where
  pub before : List Block
  pub behind : List Block
  pub place : bs ≡ before ++ (b ∷ behind)

Stands-later : (c b : Block) (bs : List Block) → Stands bs b → Stands (c ∷ bs) b
Stands-later c b bs w = record {
  before = c ∷ w.before;
  behind = w.behind;
  place = ap (λ x. c ∷ x) w.place;
}

pub find_free_block-some :
    (size : ℕ) (bs : List Block) (b : Block)
    → find_free_block size bs ≡ some b
    → Stands bs b × (b.is_free ≡ true) × (size ≤ b.size)
unfolding find_free_block
find_free_block-some size [] b e = absurd (cc e)
find_free_block-some size (c ∷ bs) b e = elim (Bool-cases (c.is_free && leb size c.size)) [
  | inl t ↦
      let same : c ≡ b = some-injective c b (sym (rw t refl) ∙ e) in
      subst (λ x. Stands (c ∷ bs) x × (x.is_free ≡ true) × (size ≤ x.size)) same
        (record { before = []; behind = bs; place = refl }, ground arith, ground arith)
  | inr f ↦
      let (w, r, l) = find_free_block-some size bs b (sym (rw f refl) ∙ e) in
      (Stands-later c b bs w, r, l)
]

pub find_block-some :
    (a : ℕ) (bs : List Block) (b : Block) → find_block a bs ≡ some b → Stands bs b × (b.addr ≡ a)
unfolding find_block
find_block-some a [] b e = absurd (cc e)
find_block-some a (c ∷ bs) b e = elim (Bool-cases (c.addr == a)) [
  | inl t ↦
      let same : c ≡ b = some-injective c b (sym (rw t refl) ∙ e) in
      subst (λ x. Stands (c ∷ bs) x × (x.addr ≡ a)) same
        (record { before = []; behind = bs; place = refl }, ground arith)
  | inr f ↦ let (w, r) = find_block-some a bs b (sym (rw f refl) ∙ e) in (Stands-later c b bs w, r)
]

-- The chain up to a block, and from it on.
pub Laid-append :
    (xs ys : List Block) (a e : ℕ) → Laid a (xs ++ ys) e → (m : ℕ) × Laid a xs m × Laid m ys e
unfolding Laid
Laid-append [] ys a e h = (a, refl, h)
Laid-append (x ∷ xs) ys a e h =
    let (m, l, r) = Laid-append xs ys (a + header_size + x.size) e h.1 in (m, (h.0, l), r)

pub append-Laid : (xs ys : List Block) (a m e : ℕ) → Laid a xs m → Laid m ys e → Laid a (xs ++ ys) e
unfolding Laid
append-Laid [] ys a m e l r = subst (λ k. Laid k ys e) (sym l) r
append-Laid (x ∷ xs) ys a m e l r = (l.0, append-Laid xs ys _ m e l.1 r)

pub Laid-le : (xs : List Block) (a e : ℕ) → Laid a xs e → a ≤ e
unfolding Laid
Laid-le [] a e h = omega (arith, h)
Laid-le (x ∷ xs) a e h = omega (arith, Laid-le xs _ e h.1)

pub used_of-append : (xs ys : List Block) → used_of (xs ++ ys) ≡ used_of xs + used_of ys
used_of-append [] ys = omega arith
used_of-append (x ∷ xs) ys = ground (arith, used_of-append xs ys)

stands_above : (xs ys : List Block) (b : Block) (a e : ℕ) → Laid a (xs ++ (b ∷ ys)) e → a ≤ b.addr
unfolding Laid
stands_above [] ys b a e h = omega (arith, h.0)
stands_above (x ∷ xs) ys b a e h = omega (arith, stands_above xs ys b _ e h.1)

-- The blocks of the chain that stand before a block have other addresses.
pub change_at_lem :
    (f : Block → List Block) (xs ys : List Block) (b : Block) (a e : ℕ)
    → Laid a (xs ++ (b ∷ ys)) e
    → change_at b.addr f (xs ++ (b ∷ ys)) ≡ xs ++ (f b ++ ys)
unfolding change_at Laid
change_at_lem f [] ys b a e h = let t : (b.addr == b.addr) ≡ true = ground arith in rw t refl
change_at_lem f (x ∷ xs) ys b a e h =
    let n : (x.addr == b.addr) ≡ false = ground (arith, stands_above xs ys b _ e h.1, h.0) in
    rw n (ap (λ r. x ∷ r) (change_at_lem f xs ys b _ e h.1))

pub find_block_lem :
    (xs ys : List Block) (b : Block) (a e : ℕ)
    → Laid a (xs ++ (b ∷ ys)) e
    → find_block b.addr (xs ++ (b ∷ ys)) ≡ some b
unfolding find_block Laid
find_block_lem [] ys b a e h = let t : (b.addr == b.addr) ≡ true = ground arith in rw t refl
find_block_lem (x ∷ xs) ys b a e h =
    let n : (x.addr == b.addr) ≡ false = ground (arith, stands_above xs ys b _ e h.1, h.0) in
    rw n (find_block_lem xs ys b _ e h.1)
