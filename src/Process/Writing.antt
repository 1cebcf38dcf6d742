-- ===== src/Process/Writing.antt =====
-- The copies into user memory come to an end: `process_write_user` and `process_zero_user`.
use ao_os.Base.{
  ℕ, zero, suc, ◌+◌, ◌-◌, ◌≤◌, ◌<◌, ◌≡◌, refl, ◌≢◌, inl, inr, Bool-cases, true, false, List, [],
  ◌∷◌, arith, ◌==◌, drop, length,
}
use ao_os.Process.Services.{Machine}
use ao_os.Process.{Os}
use ao_os.Process.UserMemory.{piece, write_pages, write_user, zero_pages, zero_user}

length-drop {ℓ} : {A : Type ℓ} (n : ℕ) (xs : List A) → length (drop n xs) ≡ length xs - n
length-drop zero xs = omega arith
length-drop (suc n) [] = omega arith
length-drop (suc n) (x ∷ xs) = ground (arith, length-drop n xs)

-- Each round covers a byte at least.
piece-positive : (virt size : ℕ) → 1 ≤ size → 1 ≤ piece virt size
piece-positive virt size h = ground (arith, h)

the_size : (size : ℕ) → (size == 0) ≡ false → 1 ≤ size
the_size size h = ground arith

module _ (machine : Machine) (cr3 : ℕ) where
  open machine use {World, get_physical_in}

  -- Every address is mapped.
  abbrev pub AllMapped : Type 0
  AllMapped = (virt : ℕ) (w : World) → get_physical_in cr3 virt w ≢ 0

  write_pages-done :
      (fuel virt : ℕ) (content : List ℕ) (w : World)
      → AllMapped
      → length content < fuel
      → (write_pages machine fuel cr3 virt content w).0 ≡ true
  unfolding write_pages
  write_pages-done zero virt content w m h = absurd (omega (arith, h))
  write_pages-done (suc fuel) virt [] w m h = refl
  write_pages-done (suc fuel) virt (b ∷ content) w m h =
      let left = b ∷ content in
      let n = piece virt (length left) in
      let f : (get_physical_in cr3 virt w == 0) ≡ false = ground (arith, m virt w) in
      rw f (
        write_pages-done fuel (virt + n) (drop n left) _ m
          (omega (arith, h, length-drop n left, piece-positive virt (length left) (ground arith))))

  zero_pages-done :
      (fuel virt size : ℕ) (w : World)
      → AllMapped
      → size < fuel
      → (zero_pages machine fuel cr3 virt size w).0 ≡ true
  unfolding zero_pages
  zero_pages-done zero virt size w m h = absurd (omega (arith, h))
  zero_pages-done (suc fuel) virt size w m h =
      let n = piece virt size in
      let f : (get_physical_in cr3 virt w == 0) ≡ false = ground (arith, m virt w) in
      elim (Bool-cases (size == 0)) [
        | inl z ↦ rw z refl
        | inr p ↦
            rw (p, f)
              (zero_pages-done fuel (virt + n) (size - n) _ m
                (omega (arith, h, piece-positive virt size (ground arith), the_size size p)))
      ]

-- Where every address is mapped, process_write_user and process_zero_user of a process that has
-- an address space come to their end, with the number of bytes as fuel, and report success.
write_user-done :
    (machine : Machine) (i virt size : ℕ) (content : List ℕ) (s : Os machine.World)
    → (s.processes i).cr3 ≢ 0
    → AllMapped machine (s.processes i).cr3
    → ((write_user machine i virt content s).0 ≡ true)
      × ((zero_user machine i virt size s).0 ≡ true)
unfolding write_user zero_user
write_user-done machine i virt size content s n m =
    let f : ((s.processes i).cr3 == 0) ≡ false = ground arith in
    (
      rw f (write_pages-done machine (s.processes i).cr3 _ virt content s.world m (omega arith)),
      rw f (zero_pages-done machine (s.processes i).cr3 _ virt size s.world m (omega arith)),
    )
