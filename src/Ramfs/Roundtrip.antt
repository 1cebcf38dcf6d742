-- ===== src/Ramfs/Roundtrip.antt =====
-- What is created is what is read, kernel/fs/ramfs.c.
use ao_os.Base.{
  ℕ, suc, ◌+◌, ◌-◌, ◌≤◌, ◌<◌, ◌≡◌, refl, ◌∙◌, ap, Bool, true, false, ◌&&◌, not, Option, none, some,
  List, [], ◌∷◌, arith, ltb, if◌then◌else◌, update, update_self, update_ne, length,
  take_of_length_le, find_from, FoundAt, find_from-FoundAt, find_from-none, find_from-first,
}
use ao_os.Ramfs.{
  File, Ramfs, max_files, max_filename, max_filesize, same_name, has_name, lookup, byte_at, written,
  create_new, create_at, ramfs_create, too_large, found, bytes_from, read_at, ramfs_read,
}

pub same_name_refl : (cs : List ℕ) → same_name cs cs ≡ true
same_name_refl [] = refl
same_name_refl (c ∷ cs) = ground (arith, same_name_refl cs)

same_name_eq : (cs ds : List ℕ) → same_name cs ds ≡ true → cs ≡ ds
same_name_eq [] [] h = refl
same_name_eq [] (d ∷ ds) h = absurd (cc h)
same_name_eq (c ∷ cs) [] h = absurd (cc h)
same_name_eq (c ∷ cs) (d ∷ ds) h =
    let e : c ≡ d = ground arith in let r = same_name_eq cs ds (ground arith) in cc

-- The bytes of an array that holds the list from `i` on.
bytes_from_lem :
    (d : ℕ → ℕ) (cs : List ℕ) (i : ℕ)
    → ((j : ℕ) → j < length cs → d (i + j) ≡ byte_at cs j)
    → bytes_from d i (length cs) ≡ cs
bytes_from_lem d [] i h = refl
bytes_from_lem d (c ∷ cs) i h =
    let first : d i ≡ c = ap d (omega arith) ∙ h 0 (omega arith) in
    let rest =
      bytes_from_lem d cs (i + 1) (λ j l. ap d (omega arith) ∙ h (suc j) (omega (arith, l))) in
    cc

written_lem : (old : ℕ → ℕ) (cs : List ℕ) → bytes_from (written old cs) 0 (length cs) ≡ cs
written_lem old cs = bytes_from_lem (written old cs) cs 0 (λ j l. ground (arith, l))

-- The lookup stops at a slot of that name when no slot before it has the name.
lookup-first :
    (s : Ramfs) (name : List ℕ) (i : ℕ)
    → i < max_files
    → has_name s name i ≡ true
    → ((j : ℕ) → j < i → has_name s name j ≡ false)
    → lookup s name ≡ some i
lookup-first s name i b h before = find_from-first (has_name s name) max_files i b h before

-- What a lookup of the name reads after slot `i` was given the content.
read_back :
    (s : Ramfs) (name content : List ℕ) (i max_size : ℕ) (f : File)
    → i < max_files
    → f.is_used ≡ true
    → f.name ≡ name
    → f.size ≡ length content
    → bytes_from f.content 0 (length content) ≡ content
    → length content ≤ max_size
    → ((j : ℕ) → j < i → has_name s name j ≡ false)
    → (n : ℕ)
    → ramfs_read name max_size (record { files = update s.files i f; file_count = n })
      ≡ found content
unfolding ramfs_read
read_back s name content i max_size f b used named sized stored fits before n =
    let t : Ramfs = record { files = update s.files i f; file_count = n } in
    let here : t.files i ≡ f = update_self s.files i f in
    let hit : has_name t name i ≡ true =
      ap (λ g. g.is_used && same_name g.name name) here
      ∙ ap (λ u. u && same_name f.name name) used
      ∙ ap (λ m. same_name m name) named
      ∙ same_name_refl name in
    let first : lookup t name ≡ some i = lookup-first t name i b hit (λ j l.
      ap (λ g. g.is_used && same_name g.name name) (update_ne s.files i j f (omega (arith, l)))
      ∙ before j l) in
    let small : ltb max_size (length content) ≡ false = ground (arith, fits) in
    ap (read_at t max_size) first
    ∙ ap
        (λ g.
          if ltb max_size g.size then too_large g.size else found (bytes_from g.content 0 g.size))
        here
    ∙ ap (λ k. if ltb max_size k then too_large k else found (bytes_from f.content 0 k)) sized
    ∙ rw small (ap found stored)

unless_big :
    (s : Ramfs) (r : Bool × Ramfs) (P : Ramfs → Type 0) (b : Bool)
    → (r.0 ≡ true → P r.1)
    → (if b then (false, s) else r).0 ≡ true
    → P (if b then (false, s) else r).1
unless_big s r P true f done = absurd (cc done)
unless_big s r P false f done = f done

module _ (name content : List ℕ) (max_size : ℕ) (s : Ramfs) (short : length name < max_filename)
    (fits : length content ≤ max_size) where
  new-read :
      (o : Option ℕ)
      → lookup s name ≡ none
      → find_from (λ i. not (s.files i).is_used) 0 max_files ≡ o
      → (create_new s name content o).0 ≡ true
      → ramfs_read name max_size (create_new s name content o).1 ≡ found content
  new-read none e f done = absurd (cc done)
  new-read (some i) e f done =
      let w : FoundAt (λ i. not (s.files i).is_used) 0 max_files i =
        find_from-FoundAt _ 0 max_files i f in
      read_back s name content i max_size _ (omega (arith, w.below)) refl
        (take_of_length_le (max_filename - 1) name (omega (arith, short))) refl
        (written_lem (s.files i).content content) fits
        (λ j l.
          find_from-none (has_name s name) 0 max_files e j (omega arith)
            (omega (arith, l, w.below)))
        (s.file_count + 1)

  at-read :
      (o : Option ℕ)
      → lookup s name ≡ o
      → (create_at s name content o).0 ≡ true
      → ramfs_read name max_size (create_at s name content o).1 ≡ found content
  at-read none e done = new-read _ e refl done
  at-read (some i) e done =
      let w : FoundAt (has_name s name) 0 max_files i =
        find_from-FoundAt (has_name s name) 0 max_files i e in
      read_back s name content i max_size _ (omega (arith, w.below)) (ground (arith, w.holds))
        (same_name_eq (s.files i).name name (ground (arith, w.holds))) refl
        (written_lem (λ j. 0) content) fits (λ j l. w.first j (omega arith) l) s.file_count

  -- After a ramfs_create that succeeds, of a name shorter than 32 bytes, ramfs_read of that name
  -- into a buffer that is large enough returns the content, whether the file is new or replaces
  -- one of that name.
  pub ramfs_read-ramfs_create :
      (ramfs_create name content s).0 ≡ true
      → ramfs_read name max_size (ramfs_create name content s).1 ≡ found content
  unfolding ramfs_create
  ramfs_read-ramfs_create =
      unless_big s (create_at s name content (lookup s name))
        (λ t. ramfs_read name max_size t ≡ found content) (ltb max_filesize (length content))
        (at-read _ refl)
