-- ===== src/Ramfs/Tests.antt =====
-- Two files on an empty RAM disk, and the theorem at a concrete input.
use ao_os.Base.{◌≡◌, refl, true, [], ◌∷◌, arith, find_from}
use ao_os.Ramfs.{Ramfs, no_file, ramfs_create, ramfs_read, ramfs_delete, found, not_found}
use ao_os.Ramfs.Roundtrip.{ramfs_read-ramfs_create}

abbrev empty : Ramfs
empty = record { files = λ i. no_file; file_count = 0 }

abbrev two_files : Ramfs
two_files = (ramfs_create (98 ∷ []) (1 ∷ 2 ∷ []) (ramfs_create (97 ∷ []) (7 ∷ []) empty).1).1

deleted : ramfs_read (97 ∷ []) 512 (ramfs_delete (97 ∷ []) two_files).1 ≡ not_found
unfolding ramfs_read ramfs_create ramfs_delete find_from
deleted = refl

created : (ramfs_create (97 ∷ []) (3 ∷ 4 ∷ 5 ∷ []) two_files).0 ≡ true
unfolding ramfs_create find_from
created = refl

ramfs_read-ramfs_create_example :
    ramfs_read (97 ∷ []) 512 (ramfs_create (97 ∷ []) (3 ∷ 4 ∷ 5 ∷ []) two_files).1
    ≡ found (3 ∷ 4 ∷ 5 ∷ [])
ramfs_read-ramfs_create_example =
    ramfs_read-ramfs_create (97 ∷ []) (3 ∷ 4 ∷ 5 ∷ []) 512 two_files (omega arith) (omega arith)
      created
