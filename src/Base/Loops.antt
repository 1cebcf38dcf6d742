-- ===== src/Base/Loops.antt =====
-- C arrays as functions of the index, and the loops that the kernel runs over them: the search
-- `for (i = s; i < s + n; i++) if (p(i)) ...`, the update loop, and the number of indices that
-- satisfy a test.
use Prim.Native.Nat.{ℕ, zero, suc, ◌+◌, ◌≤◌, ◌<◌}
use mathlib.Core.Path.{◌∙◌, ap, subst, ◌≡◌, refl}
use mathlib.Core.Logic.{◌≢◌, inl, inr}
use mathlib.Core.Bool.{Bool, true, false}
use mathlib.Core.Option.{Option, none, some}
use native.Mathlib.Omega.{arith}
use ao_os.Base.Tests.{ltb, ◌==◌, if◌then◌else◌, Bool-cases, Option-cases}

abbrev pub update {ℓ} : {A : Type ℓ} → (ℕ → A) → ℕ → A → ℕ → A
update f i v j = if i == j then v else f j

pub update_self {ℓ} : {A : Type ℓ} (f : ℕ → A) (i : ℕ) (v : A) → update f i v i ≡ v
update_self f i v = ground arith

pub update_ne {ℓ} : {A : Type ℓ} (f : ℕ → A) (i j : ℕ) (v : A) → i ≢ j → update f i v j ≡ f j
update_ne f i j v h = ground arith

-- The first of the `n` indices from `i` on that passes the test.
unfoldable pub find_from : (ℕ → Bool) → ℕ → ℕ → Option ℕ
find_from p i zero = none
find_from p i (suc n) = let rest = find_from p (i + 1) n in if p i then some i else rest

-- What a search that stops at `k` has seen.
pub record FoundAt (p : ℕ → Bool) (i n k : ℕ) : Type 0 where
  pub from : i ≤ k
  pub below : k < i + n
  pub holds : p k ≡ true
  pub first : (j : ℕ) → i ≤ j → j < k → p j ≡ false

pub find_from-FoundAt : (p : ℕ → Bool) (i n k : ℕ) → find_from p i n ≡ some k → FoundAt p i n k
unfolding find_from
find_from-FoundAt p i zero k e = absurd (ground arith)
find_from-FoundAt p i (suc n) k e = elim (Bool-cases (p i)) [
  | inl t ↦ record {
    from = ground arith;
    below = ground arith;
    holds = ground arith;
    first = λ j a b. absurd (ground arith);
  }
  | inr f ↦
      let r : FoundAt p (i + 1) n k = find_from-FoundAt p (i + 1) n k (ground arith) in
      record {
        from = omega (arith, r.from);
        below = omega (arith, r.below);
        holds = r.holds;
        first = λ j a b. elim (Bool-cases (i == j)) [
          | inl same ↦ ground arith
          | inr other ↦ r.first j (ground arith) b
        ];
      }
]

pub find_from-none :
    (p : ℕ → Bool) (i n : ℕ) → find_from p i n ≡ none → (j : ℕ) → i ≤ j → j < i + n → p j ≡ false
unfolding find_from
find_from-none p i zero e j a b = absurd (omega arith)
find_from-none p i (suc n) e j a b = elim (Bool-cases (p i)) [
  | inl t ↦ absurd (ground arith)
  | inr f ↦ elim (Bool-cases (i == j)) [
    | inl same ↦ ground arith
    | inr other ↦ find_from-none p (i + 1) n (ground arith) j (ground arith) (omega arith)
  ]
]

-- A search finds something when there is something to find.
find_from_total :
    (p : ℕ → Bool) (i n j : ℕ)
    → i ≤ j
    → j < i + n
    → p j ≡ true
    → (k : ℕ) × (find_from p i n ≡ some k)
find_from_total p i n j a b t = elim (Option-cases (find_from p i n)) [
  | inl e ↦ absurd (ground (arith, find_from-none p i n e j a b))
  | inr (k, e) ↦ (k, e)
]

-- A search stops at an index that passes the test when none before it does.
pub find_from-first :
    (p : ℕ → Bool) (n k : ℕ)
    → k < n
    → p k ≡ true
    → ((j : ℕ) → j < k → p j ≡ false)
    → find_from p 0 n ≡ some k
find_from-first p n k b h before =
    let (m, e) = find_from_total p 0 n k (omega arith) (omega (arith, b)) h in
    let f : FoundAt p 0 n m = find_from-FoundAt p 0 n m e in
    let same : m ≡ k = elim (Bool-cases (ltb m k)) [
      | inl l ↦ absurd (cc (before m (ground (arith, l)), f.holds))
      | inr o ↦ elim (Bool-cases (ltb k m)) [
        | inl l ↦ absurd (cc (f.first k (omega arith) (ground (arith, l)), h))
        | inr o' ↦ ground (arith, o, o')
      ]
    ] in
    e ∙ ap some same

-- for (p = i; p < i + n; p++) s = body(p, s)
unfoldable pub for_from {ℓ} : {S : Type ℓ} → (ℕ → S → S) → ℕ → ℕ → S → S
for_from body i zero s = s
for_from body i (suc n) s = for_from body (i + 1) n (body i s)

-- A property that each round hands on holds at the end `j`. The loop stops there by an equation.
pub for_from_inv {ℓ κ} :
    {S : Type ℓ} (P : ℕ → S → Type κ) (body : ℕ → S → S) (i n j : ℕ)
    → j ≡ i + n
    → ((k : ℕ) (s : S) → i ≤ k → k < j → P k s → P (k + 1) (body k s))
    → (s : S) → P i s
    → P j (for_from body i n s)
unfolding for_from
for_from_inv P body i zero j e keep s h = subst (λ k. P k s) (omega arith) h
for_from_inv P body i (suc n) j e keep s h =
    for_from_inv P body (i + 1) n j (omega arith) (λ k s' a b. keep k s' (omega arith) b) (body i s)
      (keep i s (omega arith) (omega arith) h)

-- How many of the indices below `n` pass the test.
unfoldable pub count_below : (ℕ → Bool) → ℕ → ℕ
count_below p zero = 0
count_below p (suc n) = count_below p n + (if p n then 1 else 0)

pub count_below-le : (p : ℕ → Bool) (n : ℕ) → count_below p n ≤ n
unfolding count_below
count_below-le p zero = omega arith
count_below-le p (suc n) = ground (arith, count_below-le p n)

pub count_below_ext :
    (p q : ℕ → Bool) (n : ℕ) → ((j : ℕ) → j < n → p j ≡ q j) → count_below p n ≡ count_below q n
unfolding count_below
count_below_ext p q zero h = refl
count_below_ext p q (suc n) h =
    ground (arith, h n (omega arith), count_below_ext p q n (λ j b. h j (omega arith)))

-- Two tests that differ at one index only, where the first passes.
pub count_below_drop :
    (p q : ℕ → Bool) (i n : ℕ)
    → i < n
    → p i ≡ true
    → q i ≡ false
    → ((j : ℕ) → i ≢ j → p j ≡ q j)
    → count_below p n ≡ count_below q n + 1
unfolding count_below
count_below_drop p q i zero a b c h = absurd (omega arith)
count_below_drop p q i (suc n) a b c h = elim (Bool-cases (i == n)) [
  | inl e ↦ ground (arith, count_below_ext p q n (λ j l. h j (ground arith)))
  | inr e ↦ ground (arith, h n, count_below_drop p q i n (ground arith) b c h)
]

pub count_below_none :
    (p : ℕ → Bool) (n : ℕ) → ((j : ℕ) → j < n → p j ≡ false) → count_below p n ≡ 0
unfolding count_below
count_below_none p zero h = refl
count_below_none p (suc n) h =
    ground (arith, h n (omega arith), count_below_none p n (λ j b. h j (omega arith)))
