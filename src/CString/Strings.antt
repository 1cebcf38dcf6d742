-- ===== src/CString/Strings.antt =====
-- `strlen`, `strcmp` and `strncmp` against the lists of characters that the memory holds.
use ao_os.Base.{
  ℕ, zero, suc, ◌+◌, ◌<◌, ◌≡◌, refl, subst, inl, inr, ◌∙◌, ap, ◌↔◌, some, List, [], ◌∷◌, arith,
  ◌==◌, length, take, Bool-cases,
}
use ao_os.Base.Int.{ℤ, pos, sub_ℕ, sub_ℕ-eq-zero}
use ao_os.CString.{Memory, IsString, strlen_from, strlen, strcmp, strncmp}

strlen_from-length :
    (fuel : ℕ) (m : Memory) (p len : ℕ) (s : List ℕ)
    → IsString m (p + len) s
    → length s < fuel
    → strlen_from fuel m p len ≡ some (len + length s)
unfolding strlen_from
strlen_from-length zero m p len s h f = absurd (omega arith)
strlen_from-length (suc fuel) m p len [] h f = ground arith
strlen_from-length (suc fuel) m p len (c ∷ s) h f = ground (
  arith,
  strlen_from-length fuel m p (len + 1) s (subst (λ q. IsString m q s) (omega arith) h.2)
      (omega arith),
)

-- `strlen` of a string returns its length, with any fuel above it.
pub strlen-length :
    (fuel : ℕ) (m : Memory) (p : ℕ) (s : List ℕ)
    → IsString m p s
    → length s < fuel
    → strlen fuel m p ≡ some (length s)
unfolding strlen
strlen-length fuel m p s h f =
    strlen_from-length fuel m p 0 s (subst (λ q. IsString m q s) (omega arith) h) f
    ∙ ap some (omega arith)

-- strcmp ends on two strings, with fuel above the length of the first, and returns 0 exactly for
-- two equal ones.
strcmp-eq-zero :
    (fuel : ℕ) (m : Memory) (p q : ℕ) (s t : List ℕ)
    → IsString m p s
    → IsString m q t
    → length s < fuel
    → (r : ℤ) × (strcmp fuel m p q ≡ some r) × ((r ≡ pos 0) ↔ (s ≡ t))
unfolding strcmp
strcmp-eq-zero zero m p q s t hs ht f = absurd (omega arith)
strcmp-eq-zero (suc fuel) m p q [] [] hs ht f = (pos 0, ground arith, (λ _. refl, λ _. refl))
strcmp-eq-zero (suc fuel) m p q [] (d ∷ t) hs ht f =
    (sub_ℕ 0 d, ground arith, (λ e. absurd (ground arith), λ e. absurd (cc)))
strcmp-eq-zero (suc fuel) m p q (c ∷ s) [] hs ht f =
    (sub_ℕ c 0, ground arith, (λ e. absurd (ground arith), λ e. absurd (cc)))
strcmp-eq-zero (suc fuel) m p q (c ∷ s) (d ∷ t) hs ht f = elim (Bool-cases (c == d)) [
  | inl same ↦
      let (r, e, iff) = strcmp-eq-zero fuel m (p + 1) (q + 1) s t hs.2 ht.2 (omega arith) in
      (r, ground arith, (λ z. ground (arith, iff.0 z), λ z. iff.1 (cc)))
  | inr differs ↦ (
    sub_ℕ c d,
    ground arith,
    (λ z. absurd (ground (arith, (sub_ℕ-eq-zero c d).0 z)), λ z. absurd (ground arith)),
  )
]

-- strncmp of two strings returns 0 exactly if they agree in their first n characters.
strncmp-eq-zero :
    (n : ℕ) (m : Memory) (p q : ℕ) (s t : List ℕ)
    → IsString m p s
    → IsString m q t
    → (strncmp n m p q ≡ pos 0) ↔ (take n s ≡ take n t)
unfolding strncmp
strncmp-eq-zero zero m p q s t hs ht = (λ _. refl, λ _. refl)
strncmp-eq-zero (suc n) m p q [] [] hs ht = (λ _. refl, λ _. ground arith)
strncmp-eq-zero (suc n) m p q [] (d ∷ t) hs ht = (λ e. absurd (ground arith), λ e. absurd (cc))
strncmp-eq-zero (suc n) m p q (c ∷ s) [] hs ht = (λ e. absurd (ground arith), λ e. absurd (cc))
strncmp-eq-zero (suc n) m p q (c ∷ s) (d ∷ t) hs ht = elim (Bool-cases (c == d)) [
  | inl same ↦
      let iff = strncmp-eq-zero n m (p + 1) (q + 1) s t hs.2 ht.2 in
      (λ z. ground (arith, iff.0 (ground arith)), λ z. ground (arith, iff.1 (cc)))
  | inr differs ↦ (
    λ z. absurd (ground (arith, (sub_ℕ-eq-zero c d).0 (ground arith))),
    λ z. absurd (ground arith),
  )
]
