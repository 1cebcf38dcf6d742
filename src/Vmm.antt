-- ===== src/Vmm.antt =====
-- The walks of the page tables that check and translate addresses, kernel/memory/vmm.c. The kernel
-- sees physical memory at its own addresses, so a table is the words of memory from its address on.
pub mod Checks
pub mod Strings
pub mod Unmap
mod Tests
use ao_os.Base.{
  ℕ, zero, suc, ◌+◌, ◌*◌, ◌/◌, ◌%◌, ◌^◌, Bool, true, false, ◌&&◌, ◌||◌, not, Option, none, some,
  ltb, ◌==◌, if◌then◌else◌, u64,
}

-- Words of 8 bytes by their address.
abbrev pub Words : Type 0
Words = ℕ → ℕ

abbrev pub page_size : ℕ
page_size = 4096

-- `x & PTE_ADDR_MASK`
abbrev pub masked : ℕ → ℕ
masked x = x / 4096 % 2 ^ 40 * 4096

-- `PTE_PRESENT`, `PTE_USER` and `PTE_HUGE`
abbrev pub is_present : ℕ → Bool
is_present e = e % 2 == 1

abbrev pub is_user : ℕ → Bool
is_user e = e / 4 % 2 == 1

abbrev pub is_huge : ℕ → Bool
is_huge e = e / 128 % 2 == 1

abbrev pub pml4_index : ℕ → ℕ
pml4_index a = a / 2 ^ 39 % 512

abbrev pub pdpt_index : ℕ → ℕ
pdpt_index a = a / 2 ^ 30 % 512

abbrev pub pd_index : ℕ → ℕ
pd_index a = a / 2 ^ 21 % 512

abbrev pub pt_index : ℕ → ℕ
pt_index a = a / 2 ^ 12 % 512

-- `table[idx]`
abbrev pub entry : Words → (table idx : ℕ) → ℕ
entry m table idx = m (table + 8 * idx)

-- 0 means that nothing is mapped.
unfoldable pub get_physical_in : Words → (cr3 virt : ℕ) → ℕ
get_physical_in m cr3 virt =
    let e4 = entry m (masked cr3) (pml4_index virt) in
    let e3 = entry m (masked e4) (pdpt_index virt) in
    let e2 = entry m (masked e3) (pd_index virt) in
    let e1 = entry m (masked e2) (pt_index virt) in
    if masked cr3 == 0
    then 0
    else if not (is_present e4)
    then 0
    else if not (is_present e3)
    then 0
    else if not (is_present e2)
    then 0
    else if is_huge e2
    then masked e2 + virt % 2 ^ 21
    else if not (is_present e1)
    then 0
    else masked e1 + virt % 2 ^ 12

-- `(e & (PTE_PRESENT | PTE_USER)) == (PTE_PRESENT | PTE_USER)`
abbrev pub is_open : ℕ → Bool
is_open e = is_present e && is_user e

unfoldable pub user_page_ok : Words → (cr3 virt : ℕ) → Bool
user_page_ok m cr3 virt =
    let e4 = entry m (masked cr3) (pml4_index virt) in
    let e3 = entry m (masked e4) (pdpt_index virt) in
    let e2 = entry m (masked e3) (pd_index virt) in
    let e1 = entry m (masked e2) (pt_index virt) in
    if masked cr3 == 0
    then false
    else if not (is_open e4)
    then false
    else if not (is_open e3)
    then false
    else if not (is_open e2)
    then false
    else if is_huge e2
    then true
    else is_open e1

-- The page of an address.
abbrev pub page_of : ℕ → ℕ
page_of a = a / page_size * page_size

-- The loop of `vmm_user_range_ok`; `none` when the fuel runs out.
unfoldable pub pages_ok : (fuel : ℕ) → Words → (cr3 page end : ℕ) → Option Bool
pages_ok zero m cr3 page end = none
pages_ok (suc fuel) m cr3 page end =
    let rest = pages_ok fuel m cr3 (u64 (page + page_size)) end in
    if ltb page end then (if user_page_ok m cr3 page then rest else some false) else some true

unfoldable pub user_range_ok : Words → (cr3 virt size : ℕ) → Option Bool
user_range_ok m cr3 virt size =
    let end = u64 (virt + size) in
    if size == 0
    then some false
    else if ltb end virt
    then some false
    else pages_ok (size / page_size + 3) m cr3 (page_of virt) end

-- The loop of `vmm_user_strlen` from round `i` on, with `n` rounds left; `bytes` is what the address
-- space shows and `page` the page checked last. `none` is the result -1.
unfoldable pub strlen_from : (n : ℕ) → Words → (bytes : ℕ → ℕ) → (cr3 virt i page : ℕ) → Option ℕ
strlen_from zero m bytes cr3 virt i page = none
strlen_from (suc n) m bytes cr3 virt i page =
    let addr = u64 (virt + i) in
    let rest = strlen_from n m bytes cr3 virt (i + 1) (page_of addr) in
    let here = (if bytes addr == 0 then some i else rest) in
    if page_of addr == page then here else if user_page_ok m cr3 (page_of addr) then here else none

unfoldable pub user_strlen : Words → (bytes : ℕ → ℕ) → (cr3 virt max_len : ℕ) → Option ℕ
user_strlen m bytes cr3 virt max_len =
    if user_page_ok m cr3 (page_of virt)
    then strlen_from max_len m bytes cr3 virt 0 (page_of virt)
    else none
