-- ===== src/Ramfs.antt =====
-- The RAM file system, kernel/fs/ramfs.c. Names and contents come in as lists of bytes; a name has no
-- NUL, so that the stored name is a list too.
pub mod Roundtrip
mod Tests
use ao_os.Base.{
  ℕ, zero, suc, ◌+◌, ◌-◌, Bool, true, false, ◌&&◌, not, Option, none, some, List, [], ◌∷◌, ltb,
  ◌==◌, if◌then◌else◌, update, find_from, take, length,
}

abbrev pub max_files : ℕ
max_files = 16

abbrev pub max_filename : ℕ
max_filename = 32

abbrev pub max_filesize : ℕ
max_filesize = 512

-- `ramfs_file_t`
pub record File : Type 0 where
  pub name : List ℕ
  pub content : ℕ → ℕ
  pub size : ℕ
  pub is_used : Bool

pub record Ramfs : Type 0 where
  pub files : ℕ → File
  pub file_count : ℕ

abbrev pub no_file : File
no_file = record { name = []; content = λ j. 0; size = 0; is_used = false }

ramfs_init : Ramfs
ramfs_init = record { files = λ i. no_file; file_count = 0 }

-- `strcmp(a, b) == 0`
abbrev pub same_name : List ℕ → List ℕ → Bool
same_name [] [] = true
same_name [] (d ∷ ds) = false
same_name (c ∷ cs) [] = false
same_name (c ∷ cs) (d ∷ ds) = c == d && same_name cs ds

-- The test of the loops that look a name up.
abbrev pub has_name : Ramfs → List ℕ → ℕ → Bool
has_name s name i = (s.files i).is_used && same_name (s.files i).name name

abbrev pub lookup : Ramfs → List ℕ → Option ℕ
lookup s name = find_from (has_name s name) 0 max_files

-- `content` written from the start of the array on, and a NUL behind it where there is room.
abbrev pub byte_at : List ℕ → ℕ → ℕ
byte_at [] j = 0
byte_at (c ∷ cs) zero = c
byte_at (c ∷ cs) (suc j) = byte_at cs j

abbrev pub written : (ℕ → ℕ) → List ℕ → ℕ → ℕ
written old content j =
    if ltb j (length content)
    then byte_at content j
    else if j == length content && ltb j max_filesize
    then 0
    else old j

abbrev pub replaced : Ramfs → ℕ → List ℕ → Ramfs
replaced s i content = record s {
  files =
      update s.files i
        (record (s.files i) { content = written (λ j. 0) content; size = length content });
}

abbrev pub added : Ramfs → ℕ → (name content : List ℕ) → Ramfs
added s i name content = record s {
  files = update s.files i (record {
    name = take (max_filename - 1) name;
    content = written (s.files i).content content;
    size = length content;
    is_used = true;
  });
  file_count = s.file_count + 1;
}

abbrev pub create_new : Ramfs → (name content : List ℕ) → Option ℕ → Bool × Ramfs
create_new s name content none = (false, s)
create_new s name content (some i) = (true, added s i name content)

abbrev pub create_at : Ramfs → (name content : List ℕ) → Option ℕ → Bool × Ramfs
create_at s name content none =
    create_new s name content (find_from (λ i. not (s.files i).is_used) 0 max_files)
create_at s name content (some i) = (true, replaced s i content)

-- `true` is the result 0; `size` is the length of the content.
unfoldable pub ramfs_create : (name content : List ℕ) → Ramfs → Bool × Ramfs
ramfs_create name content s =
    if ltb max_filesize (length content)
    then (false, s)
    else create_at s name content (lookup s name)

-- The results of `ramfs_read`: no such file; a file larger than the buffer, with its size; the bytes.
pub data Read : Type 0 where
  not_found : Read
  too_large : (size : ℕ) → Read
  found : List ℕ → Read

abbrev pub bytes_from : (ℕ → ℕ) → (start n : ℕ) → List ℕ
bytes_from d i zero = []
bytes_from d i (suc n) = d i ∷ bytes_from d (i + 1) n

abbrev pub read_at : Ramfs → (max_size : ℕ) → Option ℕ → Read
read_at s max_size none = not_found
read_at s max_size (some i) =
    if ltb max_size (s.files i).size
    then too_large (s.files i).size
    else found (bytes_from (s.files i).content 0 (s.files i).size)

unfoldable pub ramfs_read : (name : List ℕ) (max_size : ℕ) → Ramfs → Read
ramfs_read name max_size s = read_at s max_size (lookup s name)

abbrev pub delete_at : Ramfs → Option ℕ → Bool × Ramfs
delete_at s none = (false, s)
delete_at s (some i) =
    (true, record s { files = update s.files i no_file; file_count = s.file_count - 1 })

unfoldable pub ramfs_delete : (name : List ℕ) → Ramfs → Bool × Ramfs
ramfs_delete name s = delete_at s (lookup s name)
