-- ===== src/Keyboard/Decode.antt =====
-- The translation of scancodes, kernel/drivers/input/scancode.c.
use ao_os.Base.{ℕ, ◌≡◌, Bool, true, ◌&&◌, ◌||◌, not, arith, ltb, ◌==◌}
use ao_os.Keyboard.{Modifiers, translate_scancode, extended_code}

-- A code of a key that is not shift and not control.
abbrev pub is_plain_key : ℕ → Bool
is_plain_key code = ltb code 0x80 && not (code == 0x2a || code == 0x36 || code == 0x1d)

-- After the two codes of the right control key, 0xE0 and 0x1D, the next key that is neither
-- shift nor control is read as an extended key, whatever the modifiers were: unless it has the
-- code of an arrow or a page key, it gives no character.
pub right_ctrl :
    (code : ℕ) (m : Modifiers)
    → is_plain_key code ≡ true
    → (translate_scancode code (translate_scancode 0x1d (translate_scancode 0xe0 m).1).1).0
      ≡ extended_code code
unfolding translate_scancode
right_ctrl code m h = ground arith
