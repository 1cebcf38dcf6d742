-- ===== src/Elf/Tests.antt =====
-- The theorem about the segments at a concrete input.
use ao_os.Base.{◌+◌, ◌-◌, ◌^◌, ◌≤◌, ◌≡◌, refl, ◌⊎◌, true, arith}
use ao_os.Elf.{Segment, valid_user_range, segment_ok}
use ao_os.Elf.Segments.{Loadable, segment_ok-Loadable}

abbrev text : Segment
text = record { offset = 0x1000; vaddr = 0x200000; filesz = 0x300; memsz = 0x400 }

text_ok : segment_ok text 0x2000 ≡ true
unfolding segment_ok valid_user_range
text_ok = refl

-- A segment that starts 16 bytes before the file
abbrev before_file : Segment
before_file = record { offset = 2 ^ 64 - 16; vaddr = 0x200000; filesz = 0x300; memsz = 0x400 }

before_file_ok : segment_ok before_file 0x2000 ≡ true
unfolding segment_ok valid_user_range
before_file_ok = refl

segment_ok-Loadable_example :
    Loadable text.vaddr text.memsz
    × (text.filesz ≤ text.memsz)
    × ((text.offset + text.filesz ≤ 0x2000) ⊎ (2 ^ 64 ≤ text.offset + text.filesz))
segment_ok-Loadable_example = segment_ok-Loadable text 0x2000 (omega arith) (omega arith) text_ok
