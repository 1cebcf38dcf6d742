-- ===== src/Vmm/Strings.antt =====
-- `vmm_user_strlen`, kernel/memory/vmm.c: a length that it returns is the length of a string whose
-- every byte user code may read.
use ao_os.Base.{
  ℕ, zero, suc, ◌+◌, ◌≤◌, ◌<◌, ◌^◌, ◌≡◌, refl, sym, ◌∙◌, ap, subst, ◌≢◌, inl, inr, Bool, true,
  false, Option, none, some, some-injective, arith, ◌==◌, if◌then◌else◌, Bool-cases, u64,
}
use ao_os.Vmm.Checks.{UserMay, user_page_ok-UserMay, page_of-same}
use ao_os.Vmm.{Words, page_of, user_page_ok, strlen_from, user_strlen}

-- The string at `virt + i` ends at `virt + len`, within the rounds left, and can be read.
record Scanned (m : Words) (bytes : ℕ → ℕ) (cr3 virt i limit len : ℕ) : Type 0 where
  in_limit : (i ≤ len) × (len < limit)
  ends : bytes (virt + len) ≡ 0
  no_end : (k : ℕ) → i ≤ k → k < len → bytes (virt + k) ≢ 0
  open_pages : (k : ℕ) → i ≤ k → k ≤ len → user_page_ok m cr3 (page_of (virt + k)) ≡ true

-- The first NUL from `virt` on stands at `virt + len`, below the limit, and user code may reach every
-- byte up to and including it.
pub record Readable (m : Words) (bytes : ℕ → ℕ) (cr3 virt limit len : ℕ) : Type 0 where
  pub in_limit : len < limit
  pub ends : bytes (virt + len) ≡ 0
  pub no_end : (k : ℕ) → k < len → bytes (virt + k) ≢ 0
  pub may_read : (k : ℕ) → k ≤ len → UserMay m cr3 (virt + k)

answered :
    (b : Bool) (x : Option ℕ) (len : ℕ)
    → (if b then x else none) ≡ some len
    → (b ≡ true) × (x ≡ some len)
answered true x len e = (refl, e)
answered false x len e = absurd (cc e)

page_eq : (a p : ℕ) → (page_of a == p) ≡ true → page_of a ≡ p
page_eq a p h = ground arith

module _ (m : Words) (bytes : ℕ → ℕ) (cr3 virt : ℕ) where
  -- One more byte in front.
  longer :
      (i limit len : ℕ)
      → bytes (virt + i) ≢ 0
      → user_page_ok m cr3 (page_of (virt + i)) ≡ true
      → Scanned m bytes cr3 virt (i + 1) limit len
      → Scanned m bytes cr3 virt i limit len
  longer i limit len more first r = record {
    in_limit = omega (arith, r.in_limit);
    ends = r.ends;
    no_end = λ k a b. elim (Bool-cases (k == i)) [
      | inl e ↦ subst (λ j. bytes (virt + j) ≢ 0) (ground (arith, e)) more
      | inr n ↦ r.no_end k (ground (arith, n, a)) b
    ];
    open_pages = λ k a b. elim (Bool-cases (k == i)) [
      | inl e ↦
          subst (λ j. user_page_ok m cr3 (page_of (virt + j)) ≡ true) (ground (arith, e)) first
      | inr n ↦ r.open_pages k (ground (arith, n, a)) b
    ];
  }

  module _ (n i page : ℕ) (here : u64 (virt + i) ≡ virt + i) where
    shut_page :
        user_page_ok m cr3 page ≡ true
        → user_page_ok m cr3 (page_of (virt + i)) ≡ false
        → strlen_from (suc n) m bytes cr3 virt i page ≡ none
    unfolding strlen_from
    shut_page ok shut = elim (Bool-cases (page_of (virt + i) == page)) [
      | inl same ↦ absurd (cc (ok, shut, ap (user_page_ok m cr3) (page_eq (virt + i) page same)))
      | inr other ↦ rw (here, other, shut) refl
    ]

    -- A round whose page is open.
    open_round :
        user_page_ok m cr3 (page_of (virt + i)) ≡ true
        → strlen_from (suc n) m bytes cr3 virt i page ≡ (
            if bytes (virt + i) == 0
            then some i
            else strlen_from n m bytes cr3 virt (i + 1) (page_of (virt + i)))
    unfolding strlen_from
    open_round first = elim (Bool-cases (page_of (virt + i) == page)) [
      | inl same ↦ rw (here, same) refl
      | inr other ↦ rw (here, other, first) refl
    ]

  strlen_from-Scanned :
      (n i page limit len : ℕ)
      → user_page_ok m cr3 page ≡ true
      → virt + limit ≤ 2 ^ 64
      → i + n ≡ limit
      → strlen_from n m bytes cr3 virt i page ≡ some len
      → Scanned m bytes cr3 virt i limit len
  unfolding strlen_from
  strlen_from-Scanned zero i page limit len ok top sum e = absurd (cc e)
  strlen_from-Scanned (suc n) i page limit len ok top sum e =
      let here : u64 (virt + i) ≡ virt + i = omega (arith, top, sum) in
      elim (Bool-cases (user_page_ok m cr3 (page_of (virt + i)))) [
        | inr shut ↦ absurd (cc (shut_page n i page here ok shut, e))
        | inl first ↦ elim (Bool-cases (bytes (virt + i) == 0)) [
          | inl nul ↦
              let l : i ≡ len =
                some-injective i len (sym (open_round n i page here first ∙ rw nul refl) ∙ e) in
              record {
                in_limit = omega (arith, l, sum);
                ends = ap (λ k. bytes (virt + k)) (sym l) ∙ ground (arith, nul);
                no_end = λ k a b. absurd (omega (arith, a, b, l));
                open_pages = λ k a b.
                    subst (λ j. user_page_ok m cr3 (page_of (virt + j)) ≡ true)
                      (omega (arith, a, b, l)) first;
              }
          | inr more ↦ longer i limit len (ground (arith, more)) first (
              strlen_from-Scanned n (i + 1) (page_of (virt + i)) limit len first top
                (omega (arith, sum)) (sym (open_round n i page here first ∙ rw more refl) ∙ e))
        ]
      ]

-- When vmm_user_strlen returns a length, and the limit does not reach past 2^64, the length is
-- below the limit, the string has its first NUL there, and the rule of the processor lets user
-- code reach every byte up to and including the NUL.
pub user_strlen-Readable :
    (m : Words) (bytes : ℕ → ℕ) (cr3 virt max_len len : ℕ)
    → virt + max_len ≤ 2 ^ 64
    → user_strlen m bytes cr3 virt max_len ≡ some len
    → Readable m bytes cr3 virt max_len len
unfolding user_strlen
user_strlen-Readable m bytes cr3 virt max_len len top e =
    let (ok, r) = answered (user_page_ok m cr3 (page_of virt)) _ len e in
    let scan =
      strlen_from-Scanned m bytes cr3 virt max_len 0 (page_of virt) max_len len ok top (omega arith)
        r in
    record {
      in_limit = scan.in_limit.1;
      ends = scan.ends;
      no_end = λ k l. scan.no_end k (omega arith) l;
      may_read = λ k l.
          user_page_ok-UserMay m cr3 (virt + k)
            (sym (page_of-same m cr3 (virt + k)) ∙ scan.open_pages k (omega arith) l);
    }
