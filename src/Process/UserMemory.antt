-- ===== src/Process/UserMemory.antt =====
-- The part of process.c that fills address spaces: the pages of a process and their release.
use ao_os.Base.{
  ℕ, zero, suc, ◌+◌, ◌-◌, ◌%◌, Bool, true, false, ◌&&◌, ◌||◌, not, List, [], ◌∷◌, leb, ◌==◌,
  if◌then◌else◌, update, for_from, bit_or, min, take, drop, length,
}
use ao_os.Process.Services.{Machine}
use ao_os.Process.{Process, Os}

abbrev pub page_size : ℕ
page_size = 4096

abbrev pub max_user_pages : ℕ
max_user_pages = 256

abbrev pub pte_writable : ℕ
pte_writable = 2

abbrev pub pte_user : ℕ
pte_user = 4

abbrev pub pte_nx : ℕ
pte_nx = 0x8000_0000_0000_0000

abbrev pub set_slot : {W : Type 0} → Os W → ℕ → Process → Os W
set_slot s i p = record s { processes = update s.processes i p }

-- The length of the piece that lies in the page of `virt`.
abbrev pub piece : (virt size : ℕ) → ℕ
piece virt size = min size (page_size - virt % page_size)

module _ (machine : Machine) where
  open machine use {
    World, kernel_cr3, destroy_address_space, alloc_page, free_page, user_range_ok, map_page_in,
    get_physical_in, copy_to, zero_at, close_process_fds,
  }

  -- `for (i = 0; i < user_page_count; i++)`: each page that is there goes back.
  abbrev pub release : ℕ → (ℕ → ℕ) × World → (ℕ → ℕ) × World
  release i (pages, w) = (update pages i 0, if pages i == 0 then w else free_page (pages i) w)

  pub cleanup_pages : Process → World → (ℕ → ℕ) × World
  cleanup_pages p w = for_from release 0 p.user_page_count (p.user_pages, w)

  abbrev drop_space : ℕ → World → World
  drop_space cr3 w =
      if not (cr3 == 0) && not (cr3 == kernel_cr3 w) then destroy_address_space cr3 w else w

  -- The process is in slot `i`; the kernel's (pid 0) is never cleaned up.
  unfoldable pub process_cleanup : ℕ → Os World → Os World
  process_cleanup i s =
      let p = s.processes i in
      let (pages, w) = cleanup_pages p (close_process_fds p.pid s.world) in
      if p.pid == 0 then s else record s {
        processes =
            update s.processes i (record p { user_pages = pages; user_page_count = 0; cr3 = 0 });
        world = drop_space p.cr3 w;
      }

  -- The last step of `process_map_user_page`: the new frame is entered into the tables.
  abbrev pub enter_page : ℕ → Os World → ℕ → Bool × World → Bool × Os World
  enter_page i s phys (false, w) = (false, record s { world = free_page phys w })
  enter_page i s phys (true, w) =
      let p = s.processes i in
      let p' : Process = record p {
        user_pages = update p.user_pages p.user_page_count phys;
        user_page_count = p.user_page_count + 1;
      } in
      (true, record s { processes = update s.processes i p'; world = w })

  abbrev pub fresh_page : ℕ → (virt flags : ℕ) → Os World → ℕ × World → Bool × Os World
  fresh_page i virt flags s (phys, w) =
      let cr3 = (s.processes i).cr3 in
      if phys == 0
      then (false, record s { world = w })
      else enter_page i s phys
          (map_page_in cr3 virt phys (bit_or flags pte_user) (zero_at phys page_size w))

  -- `true` is the result 0.
  unfoldable pub map_user_page : ℕ → (virt flags : ℕ) → Os World → Bool × Os World
  map_user_page i virt flags s =
      let p = s.processes i in
      if not p.is_user || p.cr3 == 0
      then (false, s)
      else if user_range_ok p.cr3 (virt - virt % page_size) 1 s.world
      then (true, s)
      else if leb max_user_pages p.user_page_count
      then (false, s)
      else fresh_page i virt flags s (alloc_page s.world)

  -- The loop of `process_write_user`; the bytes left are `content`.
  unfoldable pub write_pages : (fuel cr3 virt : ℕ) → List ℕ → World → Bool × World
  write_pages zero cr3 virt content w = (false, w)
  write_pages (suc fuel) cr3 virt [] w = (true, w)
  write_pages (suc fuel) cr3 virt (b ∷ content) w =
      let left = b ∷ content in
      let n = piece virt (length left) in
      let phys = get_physical_in cr3 virt w in
      let rest = write_pages fuel cr3 (virt + n) (drop n left) (copy_to phys (take n left) w) in
      if phys == 0 then (false, w) else rest

  -- The fuel is the number of bytes: each round writes one at least.
  unfoldable pub write_user : ℕ → (virt : ℕ) → List ℕ → Os World → Bool × Os World
  write_user i virt content s =
      let cr3 = (s.processes i).cr3 in
      let (done, w) = write_pages (suc (length content)) cr3 virt content s.world in
      if cr3 == 0 then (false, s) else (done, record s { world = w })

  unfoldable pub zero_pages : (fuel cr3 virt size : ℕ) → World → Bool × World
  zero_pages zero cr3 virt size w = (false, w)
  zero_pages (suc fuel) cr3 virt size w =
      let n = piece virt size in
      let phys = get_physical_in cr3 virt w in
      let rest = zero_pages fuel cr3 (virt + n) (size - n) (zero_at phys n w) in
      if size == 0 then (true, w) else if phys == 0 then (false, w) else rest

  unfoldable pub zero_user : ℕ → (virt size : ℕ) → Os World → Bool × Os World
  zero_user i virt size s =
      let cr3 = (s.processes i).cr3 in
      let (done, w) = zero_pages (suc size) cr3 virt size s.world in
      if cr3 == 0 then (false, s) else (done, record s { world = w })
