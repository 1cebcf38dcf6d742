-- ===== src/Keyboard/Tests.antt =====
-- Keys on a concrete keyboard, and the theorems at concrete inputs.
use ao_os.Base.{◌≡◌, refl, false, [], ◌∷◌}
use ao_os.Keyboard.{Modifiers, Keyboard, translate_scancode, extended_code, keyboard_init}
use ao_os.Keyboard.Queue.{key, read, run, run_queue, run-eq-run_queue}
use ao_os.Keyboard.Decode.{right_ctrl}

abbrev released : Modifiers
released = record { shift_pressed = false; ctrl_pressed = false; extended_key = false }

abbrev keyboard : Keyboard
keyboard = record { kb_buffer = λ i. 0; kb_head = 7; kb_tail = 9; modifiers = released }

-- "a", shift and "b".
typed :
    (run
      (key 0x1e ∷ key 0x9e ∷ key 0x2a ∷ key 0x30 ∷ read ∷ read ∷ read ∷ [])
      (keyboard_init keyboard)).0
    ≡ 97 ∷ 66 ∷ 0 ∷ []
unfolding run keyboard_init ao_os.Keyboard.keyboard_irq_handler ao_os.Keyboard.keyboard_getchar
    translate_scancode
typed = refl

run-eq-run_queue_example :
    (run (key 0x1e ∷ key 0x2a ∷ read ∷ key 0x30 ∷ read ∷ []) (keyboard_init keyboard)).0
    ≡ run_queue (key 0x1e ∷ key 0x2a ∷ read ∷ key 0x30 ∷ read ∷ []) released []
run-eq-run_queue_example =
    run-eq-run_queue (key 0x1e ∷ key 0x2a ∷ read ∷ key 0x30 ∷ read ∷ []) keyboard

right_ctrl_example :
    (translate_scancode 0x2e (translate_scancode 0x1d (translate_scancode 0xe0 released).1).1).0
    ≡ extended_code 0x2e
right_ctrl_example = right_ctrl 0x2e released refl
