-- ===== src/Vmm/Checks.antt =====
-- `vmm_user_range_ok`, kernel/memory/vmm.c: it ends, and accepts exactly the ranges whose pages are
-- all open to user code.
use ao_os.Base.{
  ℕ, zero, suc, ◌+◌, ◌-◌, ◌*◌, ◌/◌, ◌%◌, ◌≢◌, ◌⊎◌, refl, not, if◌then◌else◌, ◌≤◌, ◌<◌, ◌^◌, ◌≡◌,
  sym, ◌∙◌, ap, inl, inr, Bool, true, false, Option, some, arith, ltb, ◌==◌, Bool-cases, u64,
}
use ao_os.Vmm.{Words, is_open, is_huge, page_size, page_of, user_page_ok, pages_ok, user_range_ok}

-- The rule of the processor for an access by user code, at any address: the tables are walked from
-- cr3, each level by nine bits of the address, and every entry on the way must be present (bit 0)
-- and open to user code (bit 2); an entry of the third level with bit 7 maps 2 MB and ends the walk.
abbrev pub table_of : (e : ℕ) → ℕ
table_of e = e / 2 ^ 12 % 2 ^ 40 * 2 ^ 12

abbrev pub Passes : (e : ℕ) → Type 0
Passes e = (e % 2 ≡ 1) × (e / 2 ^ 2 % 2 ≡ 1)

abbrev pub level4 : Words → (cr3 a : ℕ) → ℕ
level4 m cr3 a = m (table_of cr3 + 8 * (a / 2 ^ 39 % 512))

abbrev pub level3 : Words → (cr3 a : ℕ) → ℕ
level3 m cr3 a = m (table_of (level4 m cr3 a) + 8 * (a / 2 ^ 30 % 512))

abbrev pub level2 : Words → (cr3 a : ℕ) → ℕ
level2 m cr3 a = m (table_of (level3 m cr3 a) + 8 * (a / 2 ^ 21 % 512))

abbrev pub level1 : Words → (cr3 a : ℕ) → ℕ
level1 m cr3 a = m (table_of (level2 m cr3 a) + 8 * (a / 2 ^ 12 % 512))

pub record UserMay (m : Words) (cr3 a : ℕ) : Type 0 where
  pub tables : table_of cr3 ≢ 0
  pub at4 : Passes (level4 m cr3 a)
  pub at3 : Passes (level3 m cr3 a)
  pub at2 : Passes (level2 m cr3 a)
  pub at1 : (level2 m cr3 a / 2 ^ 7 % 2 ≡ 1) ⊎ Passes (level1 m cr3 a)

is_open-Passes : (e : ℕ) → is_open e ≡ true → Passes e
is_open-Passes e h = (ground (arith, h), ground (arith, h))

Passes-is_open : (e : ℕ) → Passes e → is_open e ≡ true
Passes-is_open e h = ground (arith, h.0, h.1)

-- The walk of `vmm_user_page_ok`, by its four entries
abbrev walk : (root e4 e3 e2 e1 : ℕ) → Bool
walk root e4 e3 e2 e1 =
    if root == 0
    then false
    else if not (is_open e4)
    then false
    else if not (is_open e3)
    then false
    else if not (is_open e2)
    then false
    else if is_huge e2
    then true
    else is_open e1

chain_true :
    (z o4 o3 o2 h o1 : Bool)
    → (if z
        then false
        else if not o4
        then false
        else if not o3
        then false
        else if not o2
        then false
        else if h
        then true
        else o1)
      ≡ true
    → (z ≡ false) × (o4 ≡ true) × (o3 ≡ true) × (o2 ≡ true) × ((h ≡ true) ⊎ (o1 ≡ true))
chain_true true o4 o3 o2 h o1 e = absurd (cc e)
chain_true false false o3 o2 h o1 e = absurd (cc e)
chain_true false true false o2 h o1 e = absurd (cc e)
chain_true false true true false h o1 e = absurd (cc e)
chain_true false true true true true o1 e = (refl, refl, refl, refl, inl refl)
chain_true false true true true false o1 e = (refl, refl, refl, refl, inr e)

true-walk :
    (root e4 e3 e2 e1 : ℕ)
    → (root == 0) ≡ false
    → is_open e4 ≡ true
    → is_open e3 ≡ true
    → is_open e2 ≡ true
    → (is_huge e2 ≡ true) ⊎ (is_open e1 ≡ true)
    → walk root e4 e3 e2 e1 ≡ true
true-walk root e4 e3 e2 e1 z h4 h3 h2 (inl h) = rw (z, h4, h3, h2, h) refl
true-walk root e4 e3 e2 e1 z h4 h3 h2 (inr h) = elim (Bool-cases (is_huge e2)) [
  | inl b ↦ rw (z, h4, h3, h2, b) refl
  | inr b ↦ rw (z, h4, h3, h2, b) h
]

pub user_page_ok-UserMay : (m : Words) (cr3 a : ℕ) → user_page_ok m cr3 a ≡ true → UserMay m cr3 a
unfolding user_page_ok
user_page_ok-UserMay m cr3 a h =
    let (r, h4, h3, h2, h1) =
      chain_true (table_of cr3 == 0) (is_open (level4 m cr3 a)) (is_open (level3 m cr3 a))
        (is_open (level2 m cr3 a)) (is_huge (level2 m cr3 a)) (is_open (level1 m cr3 a)) h in
    record {
      tables = ground (arith, r);
      at4 = is_open-Passes _ h4;
      at3 = is_open-Passes _ h3;
      at2 = is_open-Passes _ h2;
      at1 = elim h1 [ inl b ↦ inl (ground (arith, b)) | inr b ↦ inr (is_open-Passes _ b) ];
    }

pub UserMay-user_page_ok : (m : Words) (cr3 a : ℕ) → UserMay m cr3 a → user_page_ok m cr3 a ≡ true
unfolding user_page_ok
UserMay-user_page_ok m cr3 a u =
    true-walk (table_of cr3) (level4 m cr3 a) (level3 m cr3 a) (level2 m cr3 a) (level1 m cr3 a)
      (let n = u.tables in ground (arith, n)) (Passes-is_open _ u.at4) (Passes-is_open _ u.at3)
      (Passes-is_open _ u.at2)
      (elim u.at1 [ inl b ↦ inl (ground (arith, b)) | inr b ↦ inr (Passes-is_open _ b) ])

-- The check gives the same answer for every byte of a page.
pub page_of-same : (m : Words) (cr3 a : ℕ) → user_page_ok m cr3 (page_of a) ≡ user_page_ok m cr3 a
unfolding user_page_ok
page_of-same m cr3 a =
    let i4 : page_of a / 2 ^ 39 % 512 ≡ a / 2 ^ 39 % 512 = omega arith in
    let i3 : page_of a / 2 ^ 30 % 512 ≡ a / 2 ^ 30 % 512 = omega arith in
    let i2 : page_of a / 2 ^ 21 % 512 ≡ a / 2 ^ 21 % 512 = omega arith in
    let i1 : page_of a / 2 ^ 12 % 512 ≡ a / 2 ^ 12 % 512 = omega arith in rw (i4, i3, i2, i1) refl

-- Every page from `page` on that starts below `end` is open.
abbrev pub AllOpen : Words → (cr3 page end : ℕ) → Type 0
AllOpen m cr3 page end =
    (k : ℕ) → page + k * page_size < end → user_page_ok m cr3 (page + k * page_size) ≡ true

-- A test that ends, with what its answer says.
pub data Decides (P : Type 0) : Option Bool → Type 0 where
  accepts : P → Decides P (some true)
  rejects : (P → true ≡ false) → Decides P (some false)

Decides-iff : {P Q : Type 0} (o : Option Bool) → (P → Q) → (Q → P) → Decides P o → Decides Q o
Decides-iff _ f g (accepts p) = accepts (f p)
Decides-iff _ f g (rejects n) = rejects (λ q. n (g q))

open_all :
    (m : Words) (cr3 page end : ℕ)
    → user_page_ok m cr3 page ≡ true
    → AllOpen m cr3 (page + page_size) end
    → AllOpen m cr3 page end
open_all m cr3 page end first all zero l = ap (λ a. user_page_ok m cr3 a) (omega arith) ∙ first
open_all m cr3 page end first all (suc k) l =
    ap (λ a. user_page_ok m cr3 a) (omega arith) ∙ all k (omega (arith, l))

pages_ok-Decides :
    (fuel : ℕ) (m : Words) (cr3 page end : ℕ)
    → end + page_size ≤ 2 ^ 64
    → end + page_size ≤ page + fuel * page_size
    → page < end + page_size
    → Decides (AllOpen m cr3 page end) (pages_ok fuel m cr3 page end)
unfolding pages_ok
pages_ok-Decides zero m cr3 page end top enough start = absurd (omega (arith, enough, start))
pages_ok-Decides (suc fuel) m cr3 page end top enough start = elim (Bool-cases (ltb page end)) [
  | inr past ↦ rw past (accepts (λ k l. absurd (ground (arith, past, l))))
  | inl below ↦ elim (Bool-cases (user_page_ok m cr3 page)) [
    | inr shut ↦
        rw (below, shut)
          (rejects (λ all.
            sym (ap (λ a. user_page_ok m cr3 a) (omega arith) ∙ all 0 (ground (arith, below)))
            ∙ shut))
    | inl open_page ↦
        let next : u64 (page + page_size) ≡ page + page_size = ground (arith, below, top) in
        rw (below, open_page, next)
          (Decides-iff _ (open_all m cr3 page end open_page)
            (λ all k l.
              ap (λ a. user_page_ok m cr3 a) (omega arith) ∙ all (k + 1) (omega (arith, l)))
            (pages_ok-Decides fuel m cr3 (page + page_size) end top (omega (arith, enough))
              (ground (arith, below))))
  ]
]

-- There is a byte, and user code may reach every byte of the range.
abbrev pub AllBytesOpen : Words → (cr3 virt size : ℕ) → Type 0
AllBytesOpen m cr3 virt size = (1 ≤ size) × ((a : ℕ) → virt ≤ a → a < virt + size → UserMay m cr3 a)

bytes-pages :
    (m : Words) (cr3 virt size : ℕ)
    → AllOpen m cr3 (page_of virt) (virt + size)
    → (a : ℕ) → virt ≤ a
    → a < virt + size
    → user_page_ok m cr3 (page_of a) ≡ true
bytes-pages m cr3 virt size all a l u =
    let k = a / page_size - virt / page_size in
    ap (user_page_ok m cr3) (omega (arith, l)) ∙ all k (omega (arith, l, u))

pages-bytes :
    (m : Words) (cr3 virt size : ℕ)
    → 1 ≤ size
    → ((a : ℕ) → virt ≤ a → a < virt + size → user_page_ok m cr3 (page_of a) ≡ true)
    → AllOpen m cr3 (page_of virt) (virt + size)
pages-bytes m cr3 virt size some_byte all zero l =
    ap (user_page_ok m cr3) (omega arith) ∙ all virt (omega arith) (omega (arith, some_byte))
pages-bytes m cr3 virt size some_byte all (suc k) l =
    let a = page_of virt + suc k * page_size in
    ap (user_page_ok m cr3) (omega arith) ∙ all a (omega arith) l

pub user_range_ok-Decides :
    (m : Words) (cr3 virt size : ℕ)
    → virt + size + page_size ≤ 2 ^ 64
    → Decides (AllBytesOpen m cr3 virt size) (user_range_ok m cr3 virt size)
unfolding user_range_ok
user_range_ok-Decides m cr3 virt size top = elim (Bool-cases (size == 0)) [
  | inl z ↦ rw z (rejects (λ p. absurd (ground (arith, z, p.0))))
  | inr n ↦
      let one : 1 ≤ size = ground (arith, n) in
      let e : u64 (virt + size) ≡ virt + size = omega (arith, top) in
      let o : ltb (virt + size) virt ≡ false = ground arith in
      rw (n, e, o)
        (Decides-iff _
          (λ all. (
            one,
            λ a l u.
                user_page_ok-UserMay m cr3 a
                  (sym (page_of-same m cr3 a) ∙ bytes-pages m cr3 virt size all a l u),
          ))
          (λ p.
            pages-bytes m cr3 virt size one
              (λ a l u. page_of-same m cr3 a ∙ UserMay-user_page_ok m cr3 a (p.1 a l u)))
          (pages_ok-Decides (size / page_size + 3) m cr3 (page_of virt) (virt + size)
            (omega (arith, top)) (omega arith) (omega arith)))
]
