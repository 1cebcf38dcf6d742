-- ===== src/CString/Copies.antt =====
-- `memcpy`, `memset`, `strcpy` and `strcat`: what each byte of memory holds afterwards.
use ao_os.Base.{
  ℕ, zero, suc, ◌+◌, ◌-◌, ◌≤◌, ◌<◌, ◌≡◌, subst, ◌∙◌, ap, ◌⊎◌, inl, inr, Bool, ◌&&◌, some, List, [],
  ◌∷◌, ◌++◌, arith, ltb, leb, ◌==◌, if◌then◌else◌, length, Bool-cases, update, u8,
}
use ao_os.CString.Strings.{strlen-length}
use ao_os.CString.{Memory, IsString, strcpy, strcat, fill, memset, memcpy}

-- Address `j` is one of the `n` from `p` on.
abbrev pub within : ℕ → ℕ → ℕ → Bool
within p n j = leb p j && ltb j (p + n)

-- memcpy copies the bytes that stood at the source, and changes nothing else, if the two ranges
-- do not overlap or the destination does not start above the source.
memcpy_lem :
    (n : ℕ) (m : Memory) (d s : ℕ)
    → (d ≤ s) ⊎ (s + n ≤ d)
    → (j : ℕ) → memcpy n m d s j ≡ (if within d n j then m (s + (j - d)) else m j)
unfolding memcpy
memcpy_lem zero m d s apart j = ground arith
memcpy_lem (suc n) m d s apart j =
    let m1 = update m d (m s) in
    let ih : memcpy n m1 (d + 1) (s + 1) j
        ≡ (if within (d + 1) n j then m1 (s + 1 + (j - (d + 1))) else m1 j) =
      memcpy_lem n m1 (d + 1) (s + 1) (ground arith) j in
    elim (Bool-cases (within (d + 1) n j)) [
      | inl rest ↦
          let e : s + 1 + (j - (d + 1)) ≡ s + (j - d) = ground arith in
          ground (arith, ih, apart, ap m e)
      | inr out ↦ elim (Bool-cases (d == j)) [
        | inl here ↦ let e : s ≡ s + (j - d) = ground arith in ground (arith, ih, ap m e)
        | inr away ↦ ground (arith, ih)
      ]
    ]

pub fill_lem :
    (n : ℕ) (m : Memory) (p v : ℕ) (j : ℕ) → fill n m p v j ≡ (if within p n j then v else m j)
unfolding fill
fill_lem zero m p v j = ground arith
fill_lem (suc n) m p v j = ground (arith, fill_lem n (update m p v) (p + 1) v j)

-- memset fills the range with the low byte of the value and changes nothing else.
memset_lem :
    (m : Memory) (p v n : ℕ) (j : ℕ) → memset m p v n j ≡ (if within p n j then u8 v else m j)
unfolding memset
memset_lem m p v n j = fill_lem n m p (u8 v) j

-- A write outside a string leaves it a string.
pub IsString-update :
    (m : Memory) (p : ℕ) (s : List ℕ) (a v : ℕ)
    → (a < p) ⊎ (p + length s < a)
    → IsString m p s
    → IsString (update m a v) p s
IsString-update m p [] a v out h = ground arith
IsString-update m p (c ∷ s) a v out (e, ne, h) =
    (ground arith, ne, IsString-update m (p + 1) s a v (ground arith) h)

-- What `strcpy` leaves: the string at the destination, and every other byte as it was.
pub record Copied (m : Memory) (d : ℕ) (s : List ℕ) (m' : Memory) : Type 0 where
  pub string : IsString m' d s
  pub others : (j : ℕ) → (j < d) ⊎ (d + length s < j) → m' j ≡ m j

-- strcpy ends with any fuel above the length, and copies the string with its NUL and changes no
-- other byte, if the two ranges do not overlap.
strcpy-Copied :
    (fuel : ℕ) (m : Memory) (d p : ℕ) (s : List ℕ)
    → IsString m p s
    → length s < fuel
    → (d + length s < p) ⊎ (p + length s < d)
    → (m' : Memory) × (strcpy fuel m d p ≡ some m') × Copied m d s m'
unfolding strcpy
strcpy-Copied zero m d p s h f apart = absurd (omega arith)
strcpy-Copied (suc fuel) m d p [] h f apart =
    (update m d (m p), ground arith, record { string = ground arith; others = λ j o. ground arith })
strcpy-Copied (suc fuel) m d p (c ∷ s) (e, ne, h) f apart =
    let m1 = update m d (m p) in
    let (m', r, copied) =
      strcpy-Copied fuel m1 (d + 1) (p + 1) s (IsString-update m (p + 1) s d (m p) (ground arith) h)
        (omega arith) (ground arith) in
    (
      m',
      ground arith,
      record {
        string = (ground (arith, copied.others d), ne, copied.string);
        others = λ j o. ground (arith, copied.others j);
      },
    )

-- The string of the first characters, up to any place in it.
IsString-append :
    (m : Memory) (p : ℕ) (s t : List ℕ)
    → IsString m (p + length s) t
    → (m0 : Memory) → IsString m0 p s
    → ((j : ℕ) → p ≤ j → j < p + length s → m j ≡ m0 j)
    → IsString m p (s ++ t)
IsString-append m p [] t h m0 h0 same = subst (λ q. IsString m q t) (omega arith) h
IsString-append m p (c ∷ s) t h m0 (e, ne, h0) same = (
  same p (omega arith) (omega arith) ∙ e,
  ne,
  IsString-append m (p + 1) s t (subst (λ q. IsString m q t) (omega arith) h) m0 h0
      (λ j a b. same j (omega arith) (omega arith)),
)

-- strcat ends with fuel above both lengths, and leaves the two strings joined at the destination
-- and every byte but those of the second string and its NUL as it was, if the source does not
-- overlap what the destination grows to.
strcat-append :
    (fuel : ℕ) (m : Memory) (d p : ℕ) (s t : List ℕ)
    → IsString m d s
    → IsString m p t
    → length s < fuel
    → length t < fuel
    → (d + length s + length t < p) ⊎ (p + length t < d)
    → (m' : Memory) × (strcat fuel m d p ≡ some m')
      × IsString m' d (s ++ t)
      × ((j : ℕ) → (j < d + length s) ⊎ (d + length s + length t < j) → m' j ≡ m j)
unfolding strcat
strcat-append fuel m d p s t hs ht fs ft apart =
    let (m', r, copied) = strcpy-Copied fuel m (d + length s) p t ht ft (ground arith) in
    (
      m',
      rw (strlen-length fuel m d s hs fs) r,
      IsString-append m' d s t copied.string m hs (λ j a b. copied.others j (inl (omega arith))),
      copied.others,
    )
