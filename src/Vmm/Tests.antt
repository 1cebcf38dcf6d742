-- ===== src/Vmm/Tests.antt =====
-- Tables whose every entry is open and leads to the table at 0x1000, and the theorems on them.
use ao_os.Base.{ℕ, ◌≡◌, ◌≢◌, ltb, refl, some, arith, ◌==◌, if◌then◌else◌}
use ao_os.Vmm.{Words, user_page_ok, user_strlen, strlen_from, get_physical_in}
use ao_os.Vmm.Unmap.{LastApart, unmap_page_in, get_physical_in-unmap_page_in}
use ao_os.Vmm.Strings.{Readable, user_strlen-Readable}

abbrev looped : Words
looped = λ a. 0x1007

-- A string of three characters at 2.
abbrev letters : ℕ → ℕ
letters a = if a == 5 then 0 else 65

physical : get_physical_in looped 0x1000 0x5123 ≡ 0x1123
unfolding get_physical_in
physical = refl

three_letters : user_strlen looped letters 0x1000 2 100 ≡ some 3
unfolding user_strlen strlen_from user_page_ok
three_letters = refl

user_strlen-Readable_example : Readable looped letters 0x1000 2 100 3
user_strlen-Readable_example =
    user_strlen-Readable looped letters 0x1000 2 100 3 (omega arith) three_letters

-- A table at 0x1000 for each level, and the page 0x9000 below them
abbrev four_levels : Words
four_levels a =
    if ltb a 0x2000
    then 0x2007
    else if ltb a 0x3000
    then 0x3007
    else if ltb a 0x4000
    then 0x4007
    else 0x9007

last-LastApart : LastApart four_levels 0x1000 0x5000
last-LastApart = record {
  from4 = λ e. absurd (omega (arith, e));
  from3 = λ e. absurd (omega (arith, e));
  from2 = λ e. absurd (omega (arith, e));
}

abbrev page : ℕ
page = 0x9000

unmapped_page : (unmap_page_in four_levels 0x1000 0x5000).0 ≡ page
unfolding unmap_page_in
unmapped_page = refl

was_mapped : (unmap_page_in four_levels 0x1000 0x5000).0 ≢ 0
was_mapped e = absurd (omega (arith, e, unmapped_page))

get_physical_in-unmap_page_in_example :
    get_physical_in (unmap_page_in four_levels 0x1000 0x5000).1 0x1000 0x5000 ≡ 0
get_physical_in-unmap_page_in_example =
    get_physical_in-unmap_page_in four_levels 0x1000 0x5000 last-LastApart was_mapped
