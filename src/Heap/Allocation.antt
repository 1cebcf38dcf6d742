-- ===== src/Heap/Allocation.antt =====
-- What a client of the heap relies on: sequences of calls, and the bytes that `kmalloc` gives.
use ao_os.Base.{
  ℕ, ◌+◌, ◌≤◌, ◌<◌, ◌^◌, ◌≡◌, refl, sym, ◌∙◌, ap, subst, ◌≢◌, ◌⊎◌, inl, inr, true, false, Option,
  none, some, some-injective, List, [], ◌∷◌, ◌++◌, arith,
}
use ao_os.Pmm.{Pmm}
use ao_os.Heap.{
  Block, Heap, header_size, heap_size, kmalloc, Freed, done, invalid_pointer, double_free, no_block,
  kfree, memory_init,
}
use ao_os.Heap.Layout.{Laid, Laid-le}
use ao_os.Heap.Valid.{IsValid, IsValid-Around, kmalloc-Taken, kmalloc-IsValid}
use ao_os.Heap.Roundtrip.{kfree-IsValid}

-- One call of the API.
pub data Call : Type 0 where
  alloc : (size : ℕ) → Call
  free : (ptr : ℕ) → Call

abbrev pub ended : Freed → Option Heap
ended (done h) = some h
ended _ = none

abbrev pub call : Call → Heap → Option Heap
call (alloc size) h = some (kmalloc size h).1
call (free ptr) h = ended (kfree ptr h)

-- The states that sequences of calls lead to from a heap on, as long as no `kfree` panics.
pub data Reach (h : Heap) : Heap → Type 0 where
  start : Reach h h
  then_call : {h' h'' : Heap} → Reach h h' → (c : Call) → call c h' ≡ some h'' → Reach h h''

memory_init-IsValid :
    (kernel_end : ℕ) (p : Pmm)
    → kernel_end + 0x1000 + heap_size < 2 ^ 64
    → IsValid (memory_init kernel_end p).0
unfolding memory_init Laid
memory_init-IsValid kernel_end p small = record {
  laid = (refl, omega arith);
  fits = omega (arith, small);
  counted = refl;
  apart = refl;
}

ended_done : (r : Freed) (h : Heap) → ended r ≡ some h → r ≡ done h
ended_done (done h') h e = ap done (some-injective h' h e)
ended_done invalid_pointer h e = absurd (cc e)
ended_done double_free h e = absurd (cc e)
ended_done no_block h e = absurd (cc e)

call-IsValid : (c : Call) (h h' : Heap) → IsValid h → call c h ≡ some h' → IsValid h'
call-IsValid (alloc size) h h' v e =
    subst IsValid (some-injective (kmalloc size h).1 h' e) (kmalloc-IsValid size h v)
call-IsValid (free ptr) h h' v e = kfree-IsValid ptr h h' v (ended_done (kfree ptr h) h' e)

Reach-IsValid : (h h' : Heap) → IsValid h → Reach h h' → IsValid h'
Reach-IsValid h _ v start = v
Reach-IsValid h h'' v (then_call {h'} r c e) = call-IsValid c h' h'' (Reach-IsValid h h' v r) e

-- From memory_init on, as long as no kfree panics or meets a pointer to no block, any sequence
-- of kmalloc and kfree leaves a valid heap: the blocks fill the heap without gap or overlap, no
-- two neighbours are free, and used_memory is the size of the blocks in use with their headers;
-- if the heap ends below 2^64.
pub reach_heap-IsValid :
    (kernel_end : ℕ) (p : Pmm) (h : Heap)
    → kernel_end + 0x1000 + heap_size < 2 ^ 64
    → Reach (memory_init kernel_end p).0 h
    → IsValid h
reach_heap-IsValid kernel_end p h small =
    Reach-IsValid (memory_init kernel_end p).0 h (memory_init-IsValid kernel_end p small)

-- A block of the chain.
pub In : Block → List Block → Type 0
In b [] = true ≡ false
In b (c ∷ bs) = (c ≡ b) ⊎ In b bs

In-Stands : (xs ys : List Block) (b : Block) → In b (xs ++ (b ∷ ys))
unfolding In
In-Stands [] ys b = inl refl
In-Stands (x ∷ xs) ys b = inr (In-Stands xs ys b)

abbrev pub end_of : Block → ℕ
end_of b = b.addr + header_size + b.size

In-bounds :
    (bs : List Block) (b : Block) (a e : ℕ) → Laid a bs e → In b bs → (a ≤ b.addr) × (end_of b ≤ e)
unfolding In Laid
In-bounds [] b a e l h = absurd (cc h)
In-bounds (c ∷ bs) b a e l (inl same) =
    subst (λ x. (a ≤ x.addr) × (end_of x ≤ e)) same
      (omega (arith, l.0), omega (arith, l.0, Laid-le bs _ e l.1))
In-bounds (c ∷ bs) b a e l (inr h) = let (p, q) = In-bounds bs b _ e l.1 h in (omega (arith, p), q)

-- Two blocks of a chain are the same or have no byte in common.
apart_or_same :
    (bs : List Block) (b c : Block) (a e : ℕ)
    → Laid a bs e
    → In b bs
    → In c bs
    → (b ≡ c) ⊎ ((end_of b ≤ c.addr) ⊎ (end_of c ≤ b.addr))
unfolding In Laid
apart_or_same [] b c a e l h k = absurd (cc h)
apart_or_same (d ∷ bs) b c a e l (inl h) (inl k) = inl (sym h ∙ k)
apart_or_same (d ∷ bs) b c a e l (inl h) (inr k) =
    let (p, q) = In-bounds bs c _ e l.1 k in
    inr (inl (subst (λ x. end_of x ≤ c.addr) h (omega (arith, p, l.0))))
apart_or_same (d ∷ bs) b c a e l (inr h) (inl k) =
    let (p, q) = In-bounds bs b _ e l.1 h in
    inr (inr (subst (λ x. end_of x ≤ b.addr) k (omega (arith, p, l.0))))
apart_or_same (d ∷ bs) b c a e l (inr h) (inr k) = apart_or_same bs b c _ e l.1 h k

-- The bytes that an allocation gives: they lie in the heap, and no block in use has any of them.
pub record Fresh (size : ℕ) (h : Heap) (ptr : ℕ) : Type 0 where
  pub inside : (h.heap_base + header_size ≤ ptr) × (ptr + size ≤ h.heap_base + heap_size)
  pub unshared :
      (c : Block) → In c h.blocks → c.is_free ≡ false → (end_of c ≤ ptr) ⊎ (ptr + size ≤ c.addr)

-- In a valid heap, kmalloc of a size of at most 2^64 - 16 that returns a pointer gives that many
-- bytes inside the heap behind a header, none of which belongs to a block in use or its header.
pub kmalloc-Fresh :
    (size : ℕ) (h : Heap)
    → IsValid h
    → size + 16 ≤ 2 ^ 64
    → (kmalloc size h).0 ≢ 0
    → Fresh size h (kmalloc size h).0
kmalloc-Fresh size h v small got = elim (kmalloc-Taken size h v) [
  | inl (z, same) ↦ absurd (got z)
  | inr (b, p, w) ↦
      let a = IsValid-Around h w.place.before w.place.behind b v w.place.place in
      let enough : size ≤ b.size = omega (arith, w.fits, small) in
      let mine : In b h.blocks =
        subst (In b) (sym w.place.place) (In-Stands w.place.before w.place.behind b) in
      subst (Fresh size h) (sym p) (record {
        inside = (omega (arith, a.here, a.above), omega (arith, a.here, a.limit, enough));
        unshared = λ c k in_use. elim (apart_or_same h.blocks b c _ _ v.laid mine k) [
          | inl e ↦ absurd (cc (w.was_free, in_use, ap (λ x. x.is_free) e))
          | inr (inl q) ↦ inr (omega (arith, q, enough))
          | inr (inr q) ↦ inl (omega (arith, q))
        ];
      })
]
