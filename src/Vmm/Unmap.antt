-- ===== src/Vmm/Unmap.antt =====
-- Taking a mapping away, `vmm_unmap_page_in` of kernel/memory/vmm.c.
use ao_os.Base.{
  ℕ, ◌+◌, ◌*◌, ◌%◌, ◌^◌, ◌≡◌, refl, sym, ◌∙◌, ap, subst, ◌≢◌, Bool, true, false, not, arith, ◌==◌,
  if◌then◌else◌, if_holds, update, update_self, update_ne,
}
use ao_os.Vmm.{
  Words, masked, is_present, is_huge, pml4_index, pdpt_index, pd_index, pt_index, entry,
  get_physical_in,
}

-- The address of the last word of the walk
abbrev pub pt_word : Words → (cr3 virt : ℕ) → ℕ
pt_word m cr3 virt =
    let e4 = entry m (masked cr3) (pml4_index virt) in
    let e3 = entry m (masked e4) (pdpt_index virt) in
    let e2 = entry m (masked e3) (pd_index virt) in masked e2 + 8 * pt_index virt

-- The result is the address of the page that was mapped, 0 for none. The translations that the
-- processor keeps are not part of the memory.
unfoldable pub unmap_page_in : Words → (cr3 virt : ℕ) → ℕ × Words
unmap_page_in m cr3 virt =
    let v = masked virt in
    let e4 = entry m (masked cr3) (pml4_index v) in
    let e3 = entry m (masked e4) (pdpt_index v) in
    let e2 = entry m (masked e3) (pd_index v) in
    let p = pt_word m cr3 v in
    if masked cr3 == 0
    then (0, m)
    else if not (is_present e4)
    then (0, m)
    else if not (is_present e3)
    then (0, m)
    else if not (is_present e2)
    then (0, m)
    else if is_huge e2
    then (0, m)
    else (masked (m p), update m p 0)

abbrev pub unmap_page : (kernel_pml4 : ℕ) → Words → (virt : ℕ) → ℕ × Words
unmap_page kernel_pml4 m virt = unmap_page_in m kernel_pml4 virt

pml4_index-masked : (virt : ℕ) → pml4_index (masked virt) ≡ pml4_index virt
pml4_index-masked virt = omega arith

pdpt_index-masked : (virt : ℕ) → pdpt_index (masked virt) ≡ pdpt_index virt
pdpt_index-masked virt = omega arith

pd_index-masked : (virt : ℕ) → pd_index (masked virt) ≡ pd_index virt
pd_index-masked virt = omega arith

pt_index-masked : (virt : ℕ) → pt_index (masked virt) ≡ pt_index virt
pt_index-masked virt = omega arith

-- The last word of the walk is none of the three before it.
pub record LastApart (m : Words) (cr3 virt : ℕ) : Type 0 where
  pub from4 : pt_word m cr3 virt ≢ masked cr3 + 8 * pml4_index virt
  pub from3 :
      pt_word m cr3 virt ≢ masked (entry m (masked cr3) (pml4_index virt)) + 8 * pdpt_index virt
  pub from2 :
      pt_word m cr3 virt
      ≢ masked (entry m (masked (entry m (masked cr3) (pml4_index virt))) (pdpt_index virt))
        + 8 * pd_index virt

-- `get_physical_in` from the entries that it reads
abbrev outcome : (root e4 e3 e2 e1 virt : ℕ) → ℕ
outcome root e4 e3 e2 e1 virt =
    if root == 0
    then 0
    else if not (is_present e4)
    then 0
    else if not (is_present e3)
    then 0
    else if not (is_present e2)
    then 0
    else if is_huge e2
    then masked e2 + virt % 2 ^ 21
    else if not (is_present e1)
    then 0
    else masked e1 + virt % 2 ^ 12

outcome_zero : (root e4 e3 e2 virt : ℕ) → is_huge e2 ≡ false → outcome root e4 e3 e2 0 virt ≡ 0
outcome_zero root e4 e3 e2 virt h =
    let zero_if = if_holds (λ (x : ℕ). x ≡ 0) in
    zero_if (root == 0) 0 _ (λ t. refl)
      (λ t.
        zero_if (not (is_present e4)) 0 _ (λ t. refl)
          (λ t.
            zero_if (not (is_present e3)) 0 _ (λ t. refl)
              (λ t.
                zero_if (not (is_present e2)) 0 _ (λ t. refl)
                  (λ t.
                    zero_if (is_huge e2) (masked e2 + virt % 2 ^ 21) 0 (λ u. absurd (cc (u, h)))
                      (λ u. refl)))))

module _ (m : Words) (cr3 virt : ℕ) where
  abbrev entry4 : Words → ℕ
  entry4 w = entry w (masked cr3) (pml4_index virt)

  abbrev entry3 : Words → ℕ
  entry3 w = entry w (masked (entry4 w)) (pdpt_index virt)

  abbrev entry2 : Words → ℕ
  entry2 w = entry w (masked (entry3 w)) (pd_index virt)

  abbrev entry1 : Words → ℕ
  entry1 w = entry w (masked (entry2 w)) (pt_index virt)

  get_physical-outcome :
      (w : Words)
      → get_physical_in w cr3 virt
        ≡ outcome (masked cr3) (entry4 w) (entry3 w) (entry2 w) (entry1 w) virt
  unfolding get_physical_in
  get_physical-outcome w = refl

  -- What a walk finds after the last word was cleared
  cleared_walk :
      LastApart m cr3 virt
      → is_huge (entry2 m) ≡ false
      → get_physical_in (update m (pt_word m cr3 virt) 0) cr3 virt ≡ 0
  cleared_walk a h =
      let p = pt_word m cr3 virt in
      let w : Words = update m p 0 in
      let q4 : entry4 w ≡ entry4 m = update_ne m p (masked cr3 + 8 * pml4_index virt) 0 a.from4 in
      let q3 : entry3 w ≡ entry3 m =
        ap (λ x. entry w (masked x) (pdpt_index virt)) q4
        ∙ update_ne m p (masked (entry4 m) + 8 * pdpt_index virt) 0 a.from3 in
      let q2 : entry2 w ≡ entry2 m =
        ap (λ x. entry w (masked x) (pd_index virt)) q3
        ∙ update_ne m p (masked (entry3 m) + 8 * pd_index virt) 0 a.from2 in
      let q1 : entry1 w ≡ 0 = ap (λ x. entry w (masked x) (pt_index virt)) q2 ∙ update_self m p 0 in
      get_physical-outcome w
      ∙ ap (λ x. outcome (masked cr3) (entry4 w) (entry3 w) (entry2 w) x virt) q1
      ∙ outcome_zero (masked cr3) (entry4 w) (entry3 w) (entry2 w) virt (ap is_huge q2 ∙ h)

  unmap_as : unmap_page_in m cr3 virt ≡ (
      if masked cr3 == 0
      then (0, m)
      else if not (is_present (entry4 m))
      then (0, m)
      else if not (is_present (entry3 m))
      then (0, m)
      else if not (is_present (entry2 m))
      then (0, m)
      else if is_huge (entry2 m)
      then (0, m)
      else (masked (m (pt_word m cr3 virt)), update m (pt_word m cr3 virt) 0))
  unfolding unmap_page_in
  unmap_as =
      rw
        (pml4_index-masked virt, pdpt_index-masked virt, pd_index-masked virt, pt_index-masked virt)
        refl

  abbrev Unmapped : ℕ × Words → Type 0
  Unmapped r = r.0 ≢ 0 → get_physical_in r.1 cr3 virt ≡ 0

  guarded :
      (b : Bool) (y : ℕ × Words) → (b ≡ false → Unmapped y) → Unmapped (if b then (0, m) else y)
  guarded true y h z = absurd (z refl)
  guarded false y h z = h refl z

  -- After a vmm_unmap_page_in that returns a page, the address translates to nothing, if the
  -- word that it clears is none of the three words before it in the walk.
  pub get_physical_in-unmap_page_in :
      LastApart m cr3 virt
      → (unmap_page_in m cr3 virt).0 ≢ 0
      → get_physical_in (unmap_page_in m cr3 virt).1 cr3 virt ≡ 0
  get_physical_in-unmap_page_in a n =
      let p = pt_word m cr3 virt in
      let y1 : ℕ × Words = (masked (m p), update m p 0) in
      let y2 : ℕ × Words = if is_huge (entry2 m) then (0, m) else y1 in
      let y3 : ℕ × Words = if not (is_present (entry2 m)) then (0, m) else y2 in
      let y4 : ℕ × Words = if not (is_present (entry3 m)) then (0, m) else y3 in
      let y5 : ℕ × Words = if not (is_present (entry4 m)) then (0, m) else y4 in
      let cleared : Unmapped y2 = guarded (is_huge (entry2 m)) y1 (λ f z. cleared_walk a f) in
      let h3 : Unmapped y3 = guarded (not (is_present (entry2 m))) y2 (λ f. cleared) in
      let h4 : Unmapped y4 = guarded (not (is_present (entry3 m))) y3 (λ f. h3) in
      let h5 : Unmapped y5 = guarded (not (is_present (entry4 m))) y4 (λ f. h4) in
      subst Unmapped (sym unmap_as) (guarded (masked cr3 == 0) y5 (λ f. h5)) n
