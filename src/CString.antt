-- ===== src/CString.antt =====
-- The kernel's own string.h, kernel/lib/string.c, over flat byte memory: a pointer is an address.
-- `strlen`, `strcmp`, `strcpy` and `strcat` stop at a NUL only, so they take fuel; the children
-- show how much is enough. The functions that write return the memory after them.
pub mod Strings
pub mod Copies
pub mod Padding
mod Tests
use ao_os.Base.{
  ℕ, zero, suc, ◌+◌, ◌%◌, ◌^◌, ◌≡◌, ◌≢◌, Bool, ◌&&◌, not, Option, none, some, List, [], ◌∷◌, ◌==◌,
  if◌then◌else◌, update, u8, ◌>>=◌,
}
use ao_os.Base.Int.{ℤ, pos, sub_ℕ}

abbrev pub Memory : Type 0
Memory = ℕ → ℕ

-- The memory holds the characters of `s` and then a NUL from address `p` on.
abbrev pub IsString : Memory → ℕ → List ℕ → Type 0
IsString m p [] = m p ≡ 0
IsString m p (c ∷ s) = (m p ≡ c) × (c ≢ 0) × IsString m (p + 1) s

pub strlen_from : (fuel : ℕ) → Memory → (str len : ℕ) → Option ℕ
strlen_from zero m str len = none
strlen_from (suc fuel) m str len =
    let rest = strlen_from fuel m str (len + 1) in if m (str + len) == 0 then some len else rest

pub strlen : (fuel : ℕ) → Memory → ℕ → Option ℕ
strlen fuel m str = strlen_from fuel m str 0

pub strcmp : (fuel : ℕ) → Memory → (s1 s2 : ℕ) → Option ℤ
strcmp zero m s1 s2 = none
strcmp (suc fuel) m s1 s2 =
    let rest = strcmp fuel m (s1 + 1) (s2 + 1) in
    if not (m s1 == 0) && (m s1 == m s2) then rest else some (sub_ℕ (m s1) (m s2))

pub strncmp : (n : ℕ) → Memory → (s1 s2 : ℕ) → ℤ
strncmp zero m s1 s2 = pos 0
strncmp (suc n) m s1 s2 =
    let rest = strncmp n m (s1 + 1) (s2 + 1) in
    if not (m s1 == 0) && (m s1 == m s2) then rest else sub_ℕ (m s1) (m s2)

pub strcpy : (fuel : ℕ) → Memory → (dest src : ℕ) → Option Memory
strcpy zero m dest src = none
strcpy (suc fuel) m dest src =
    let m' = update m dest (m src) in
    let rest = strcpy fuel m' (dest + 1) (src + 1) in if m src == 0 then some m' else rest

-- `while (n--) *dest++ = value`
pub fill : (n : ℕ) → Memory → (dest value : ℕ) → Memory
fill zero m dest value = m
fill (suc n) m dest value = fill n (update m dest value) (dest + 1) value

-- The copying loop leaves `n` as it is at the round that copies the NUL.
pub strncpy : (n : ℕ) → Memory → (dest src : ℕ) → Memory
strncpy zero m dest src = m
strncpy (suc n) m dest src =
    let m' = update m dest (m src) in
    let rest = strncpy n m' (dest + 1) (src + 1) in
    if m src == 0 then fill (suc n) m' (dest + 1) 0 else rest

-- `dest` is moved to the end of its string, and the copy starts there.
pub strcat : (fuel : ℕ) → Memory → (dest src : ℕ) → Option Memory
strcat fuel m dest src = do len ← strlen fuel m dest; strcpy fuel m (dest + len) src

pub memset : Memory → (ptr value num : ℕ) → Memory
memset m ptr value num = fill num m ptr (u8 value)

pub memcpy : (n : ℕ) → Memory → (dest src : ℕ) → Memory
memcpy zero m dest src = m
memcpy (suc n) m dest src = memcpy n (update m dest (m src)) (dest + 1) (src + 1)
