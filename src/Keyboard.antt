-- ===== src/Keyboard.antt =====
-- The keyboard: the translation of scancodes, kernel/drivers/input/scancode.c, and the ring buffer
-- between the interrupt and the readers, kernel/drivers/input/keyboard.c. The port I/O of the
-- controller is outside; the scancode that the interrupt reads is an argument.
pub mod Queue
pub mod Decode
mod Tests
use ao_os.Base.{
  ℕ, zero, suc, ◌+◌, ◌-◌, ◌%◌, ◌/◌, Bool, true, false, ◌&&◌, ◌||◌, not, List, [], ◌∷◌, ltb, leb,
  ◌==◌, if◌then◌else◌, update,
}

-- `shift_pressed`, `ctrl_pressed` and `extended_key`.
pub record Modifiers : Type 0 where
  pub shift_pressed : Bool
  pub ctrl_pressed : Bool
  pub extended_key : Bool

abbrev pub at : List ℕ → ℕ → ℕ
at [] i = 0
at (c ∷ cs) zero = c
at (c ∷ cs) (suc i) = at cs i

abbrev pub scancode_to_ascii : List ℕ
scancode_to_ascii =
    0 ∷ 27 ∷ 49 ∷ 50 ∷ 51 ∷ 52 ∷ 53 ∷ 54 ∷ 55 ∷ 56 ∷ 57 ∷ 48 ∷ 45 ∷ 61 ∷ 8 ∷ 9 ∷ 113 ∷ 119 ∷ 101
    ∷ 114 ∷ 116 ∷ 121 ∷ 117 ∷ 105 ∷ 111 ∷ 112 ∷ 91 ∷ 93 ∷ 10 ∷ 0 ∷ 97 ∷ 115 ∷ 100 ∷ 102 ∷ 103 ∷ 104
    ∷ 106 ∷ 107 ∷ 108 ∷ 59 ∷ 39 ∷ 96 ∷ 0 ∷ 92 ∷ 122 ∷ 120 ∷ 99 ∷ 118 ∷ 98 ∷ 110 ∷ 109 ∷ 44 ∷ 46 ∷ 47
    ∷ 0 ∷ 42 ∷ 0 ∷ 32 ∷ []

abbrev pub scancode_to_ascii_shift : List ℕ
scancode_to_ascii_shift =
    0 ∷ 27 ∷ 33 ∷ 64 ∷ 35 ∷ 36 ∷ 37 ∷ 94 ∷ 38 ∷ 42 ∷ 40 ∷ 41 ∷ 95 ∷ 43 ∷ 8 ∷ 9 ∷ 81 ∷ 87 ∷ 69 ∷ 82
    ∷ 84 ∷ 89 ∷ 85 ∷ 73 ∷ 79 ∷ 80 ∷ 123 ∷ 125 ∷ 10 ∷ 0 ∷ 65 ∷ 83 ∷ 68 ∷ 70 ∷ 71 ∷ 72 ∷ 74 ∷ 75 ∷ 76
    ∷ 58 ∷ 34 ∷ 126 ∷ 0 ∷ 124 ∷ 90 ∷ 88 ∷ 67 ∷ 86 ∷ 66 ∷ 78 ∷ 77 ∷ 60 ∷ 62 ∷ 63 ∷ 0 ∷ 42 ∷ 0 ∷ 32
    ∷ []

-- `sizeof(scancode_to_ascii)`
abbrev pub table_size : ℕ
table_size = 58

-- The switch over the keys with the prefix 0xE0: KEY_UP, KEY_DOWN, KEY_LEFT, KEY_RIGHT, KEY_PAGEUP
-- and KEY_PAGEDOWN.
abbrev pub extended_code : ℕ → ℕ
extended_code code =
    if code == 0x48
    then 0x80
    else if code == 0x50
    then 0x81
    else if code == 0x4b
    then 0x82
    else if code == 0x4d
    then 0x83
    else if code == 0x49
    then 0x84
    else if code == 0x51
    then 0x85
    else 0

abbrev pub with_ctrl : Bool → ℕ → ℕ
with_ctrl ctrl ch =
    if ctrl && leb 97 ch && leb ch 122
    then ch - 97 + 1
    else if ctrl && leb 65 ch && leb ch 90
    then ch - 65 + 1
    else ch

abbrev pub plain : ℕ → Modifiers → ℕ
plain code m =
    if ltb code table_size
    then with_ctrl m.ctrl_pressed
        (at (if m.shift_pressed then scancode_to_ascii_shift else scancode_to_ascii) code)
    else 0

-- `code` is a byte.
unfoldable pub translate_scancode : ℕ → Modifiers → ℕ × Modifiers
translate_scancode code m =
    if code == 0xe0
    then (0, record m { extended_key = true })
    else if code == 0x2a || code == 0x36
    then (0, record m { shift_pressed = true })
    else if code == 0xaa || code == 0xb6
    then (0, record m { shift_pressed = false })
    else if code == 0x1d
    then (0, record m { ctrl_pressed = true })
    else if code == 0x9d
    then (0, record m { ctrl_pressed = false })
    else if leb 0x80 code
    then (0, record m { extended_key = false })
    else if m.extended_key
    then (extended_code code, record m { extended_key = false })
    else (plain code m, m)

abbrev pub kb_buffer_size : ℕ
kb_buffer_size = 256

pub record Keyboard : Type 0 where
  pub kb_buffer : ℕ → ℕ
  pub kb_head : ℕ
  pub kb_tail : ℕ
  pub modifiers : Modifiers

-- The character goes into the buffer if there is room.
abbrev pub put : ℕ → Keyboard → Keyboard
put ch k =
    let next = (k.kb_head + 1) % kb_buffer_size in
    if next == k.kb_tail
    then k
    else record k { kb_buffer = update k.kb_buffer k.kb_head ch; kb_head = next }

unfoldable pub keyboard_irq_handler : ℕ → Keyboard → Keyboard
keyboard_irq_handler code k =
    let (ch, m) = translate_scancode code k.modifiers in
    let k' : Keyboard = record k { modifiers = m } in if ch == 0 then k' else put ch k'

unfoldable pub keyboard_getchar : Keyboard → ℕ × Keyboard
keyboard_getchar k =
    if k.kb_tail == k.kb_head
    then (0, k)
    else (k.kb_buffer k.kb_tail, record k { kb_tail = (k.kb_tail + 1) % kb_buffer_size })

-- `keyboard_init` empties the buffer; the rest of it talks to the controller.
unfoldable pub keyboard_init : Keyboard → Keyboard
keyboard_init k = record k { kb_head = 0; kb_tail = 0 }
