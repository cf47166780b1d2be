-- ===== src/Tests/Keyboard.antt =====
-- The keyboard at concrete inputs.
use kusa_os.Base.{◌≤◌, ◌≡◌, ◌⊎◌, true, false, [], ◌∷◌}
use kusa_os.Keyboard.{Keyboard, done, waits, init_keyboard, left_over}
use kusa_os.Keyboard.Read.{keyboard_read}
use kusa_os.Keyboard.Ends.{keyboard_read-ends}

-- The code of 'a' is there, with the left shift key held.
abbrev shifted : Keyboard
shifted = record (init_keyboard (λ p. 30) []) {
  kb_in = record { p_head = 1; p_tail = 0; count = 1; buf = λ p. 30 };
  held = record {
    shift_l = true;
    shift_r = false;
    alt_l = false;
    alt_r = false;
    ctrl_l = false;
    ctrl_r = false;
  };
}

-- The first two bytes of PrintScreen, and the third to come
abbrev partly : Keyboard
partly = record (init_keyboard (λ p. 224) (42 ∷ [])) {
  kb_in = record { p_head = 1; p_tail = 0; count = 1; buf = λ p. 224 };
}

keyboard_read-ends_example :
    ((s' : Keyboard) × (keyboard_read false partly ≡ done s') × (left_over s' ≤ left_over partly))
    ⊎ (keyboard_read false partly ≡ waits)
keyboard_read-ends_example = keyboard_read-ends false partly
