-- ===== src/CString/Tests.antt =====
-- The string functions on a small memory, and the theorems at it.
use ao_os.Base.{ℕ, ◌≡◌, refl, inr, some, List, [], ◌∷◌, arith, ◌==◌, if◌then◌else◌}
use ao_os.CString.{Memory, IsString, strlen_from, strlen, strncpy, fill}
use ao_os.CString.Padding.{Padded, strncpy-Padded}

-- "ab" at 100, "abc" at 200, and ones elsewhere.
abbrev memory : Memory
memory j =
    if j == 100
    then 97
    else if j == 101
    then 98
    else if j == 102
    then 0
    else if j == 200
    then 97
    else if j == 201
    then 98
    else if j == 202
    then 99
    else if j == 203
    then 0
    else 1

abbrev ab : List ℕ
ab = 97 ∷ 98 ∷ []

abbrev abc : List ℕ
abc = 97 ∷ 98 ∷ 99 ∷ []

at_100 : IsString memory 100 ab
at_100 = omega arith

at_200 : IsString memory 200 abc
at_200 = omega arith

strlen_runs : strlen 10 memory 200 ≡ some 3
unfolding strlen strlen_from
strlen_runs = refl

-- With `n` 3 the fourth byte of the destination is written.
strncpy_overruns : (memory 303 ≡ 1) × (strncpy 3 memory 300 100 303 ≡ 0)
unfolding strncpy fill
strncpy_overruns = (refl, refl)

strncpy-Padded_example : Padded memory 300 3 ab (strncpy 3 memory 300 100)
strncpy-Padded_example = strncpy-Padded 3 memory 300 100 ab at_100 (omega arith) (inr (omega arith))
