-- ===== src/CString/Padding.antt =====
-- `strncpy`: an exact copy of `n` bytes from a long string, and the padding after a short one.
use ao_os.Base.{
  ℕ, zero, suc, ◌+◌, ◌≤◌, ◌<◌, ◌≡◌, refl, ◌⊎◌, List, [], ◌∷◌, arith, length, ==_ne, update,
}
use ao_os.CString.{Memory, IsString, strncpy, memcpy}
use ao_os.CString.Copies.{IsString-update, fill_lem}

-- From a string of at least n characters, that does not overlap the destination, strncpy leaves
-- the memory that memcpy of n bytes leaves, so it writes no NUL of its own.
strncpy-eq-memcpy :
    (n : ℕ) (m : Memory) (d p : ℕ) (s : List ℕ)
    → IsString m p s
    → n ≤ length s
    → (d + n ≤ p) ⊎ (p + length s < d)
    → strncpy n m d p ≡ memcpy n m d p
unfolding strncpy memcpy
strncpy-eq-memcpy zero m d p s h f apart = refl
strncpy-eq-memcpy (suc n) m d p [] h f apart = absurd (omega arith)
strncpy-eq-memcpy (suc n) m d p (c ∷ s) (e, ne, h) f apart =
    let m1 = update m d (m p) in
    let h1 = IsString-update m (p + 1) s d (m p) (ground arith) h in
    ground (arith, strncpy-eq-memcpy n m1 (d + 1) (p + 1) s h1 (omega arith) (ground arith))

-- What `strncpy` leaves of a short string: the string, NULs up to and including the byte after the
-- `n`-th, and every other byte as it was.
pub record Padded (m : Memory) (d n : ℕ) (s : List ℕ) (m' : Memory) : Type 0 where
  pub string : IsString m' d s
  pub zeros : (j : ℕ) → d + length s ≤ j → j ≤ d + n → m' j ≡ 0
  pub others : (j : ℕ) → (j < d) ⊎ (d + n < j) → m' j ≡ m j

-- From a string shorter than n, that does not overlap the destination, strncpy writes n + 1
-- bytes: the string, and NULs up to and including the byte at dest + n, which lies past the n
-- bytes of the destination; it changes no other byte.
pub strncpy-Padded :
    (n : ℕ) (m : Memory) (d p : ℕ) (s : List ℕ)
    → IsString m p s
    → length s < n
    → (d + n < p) ⊎ (p + length s < d)
    → Padded m d n s (strncpy n m d p)
unfolding strncpy
strncpy-Padded zero m d p s h f apart = absurd (omega arith)
strncpy-Padded (suc n) m d p [] h f apart =
    let m1 = update m d (m p) in
    rw h record {
      string = ground (arith, fill_lem (suc n) m1 (d + 1) 0 d);
      zeros = λ j a b. ground (arith, fill_lem (suc n) m1 (d + 1) 0 j);
      others = λ j o. ground (arith, fill_lem (suc n) m1 (d + 1) 0 j);
    }
strncpy-Padded (suc n) m d p (c ∷ s) (e, ne, h) f apart =
    let m1 = update m d (m p) in
    let h1 = IsString-update m (p + 1) s d (m p) (ground arith) h in
    let q = strncpy-Padded n m1 (d + 1) (p + 1) s h1 (omega arith) (ground arith) in
    rw (==_ne (m p) 0 (ground arith)) (record {
      string = (ground (arith, q.others d), ne, q.string);
      zeros = λ j a b. ground (arith, q.zeros j);
      others = λ j o. ground (arith, q.others j);
    })
