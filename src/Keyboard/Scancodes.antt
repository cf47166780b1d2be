-- ===== src/Keyboard/Scancodes.antt =====
-- keyboard_read() of kernel/keyboard.c up to the key: the sequences behind 0xE1 and 0xE0, and the
-- table of the keys.
use kusa_os.Base.{
  ℕ, ◌%◌, Bool, true, false, not, ◌&&◌, ◌||◌, List, [], ◌∷◌, ltb, leb, ◌==◌, if◌then◌else◌,
}
use kusa_os.Keyboard.{Keyboard, Scan, Outcome, done, ◌then◌, get_byte_from_kb_buf, set_locks}
use kusa_os.Keyboard.Keymap.{keymap, keyrow}

abbrev pub printscreen : ℕ
printscreen = 285

abbrev pub pausebreak : ℕ
pausebreak = 286

-- The loop over the bytes of Pause behind the first, which the first other byte ends
unfoldable pub match_pause : List ℕ → Keyboard → Outcome (Bool × Keyboard)
unfolding get_byte_from_kb_buf
match_pause [] s = done (true, s)
match_pause (c ∷ cs) s =
    get_byte_from_kb_buf s then λ r. if r.0 == c then match_pause cs r.1 else done (false, r.1)

abbrev pub scanned : ℕ → Bool → ℕ → Bool → Keyboard → Scan
scanned scan_code code_with_E0 key make board = record {
  scan_code = scan_code;
  code_with_E0 = code_with_E0;
  key = key;
  make = make;
  board = board;
}

-- The rest of PrintScreen, whose last byte is `last` and which makes `make` the value `is_pressed`
abbrev pub print_screen : ℕ → Bool → ℕ → Bool → Keyboard → Outcome Scan
print_screen last is_pressed key make s = get_byte_from_kb_buf s then λ r.
    if r.0 == 0xE0
    then (get_byte_from_kb_buf r.1 then λ t. done (
        if t.0 == last
        then scanned t.0 true printscreen is_pressed t.1
        else scanned t.0 true key make t.1))
    else done (scanned r.0 false key make r.1)

abbrev pub after_E0 : ℕ → Bool → Keyboard → Outcome Scan
after_E0 key make s = get_byte_from_kb_buf s then λ r.
    if r.0 == 0x2A
    then print_screen 0x37 true key make r.1
    else if r.0 == 0xB7
    then print_screen 0xAA false key make r.1
    else done (scanned r.0 true key make r.1)

abbrev pub pause_bytes : List ℕ
pause_bytes = 0x1D ∷ 0x45 ∷ 0xE1 ∷ 0x9D ∷ 0xC5 ∷ []

unfoldable pub parse : ℕ → Bool → Keyboard → Outcome Scan
unfolding match_pause
parse key make s = get_byte_from_kb_buf s then λ r.
    if r.0 == 0xE1
    then (match_pause pause_bytes r.1 then λ m.
        done (scanned r.0 false (if m.0 then pausebreak else key) make m.1))
    else if r.0 == 0xE0
    then after_E0 key make r.1
    else done (scanned r.0 false key make r.1)

-- The column of the table: with caps lock a letter changes its case.
abbrev pub caps : Keyboard → ℕ → Bool
caps s plain =
    let shift = s.held.shift_l || s.held.shift_r in
    if s.locks.caps_lock && (leb 97 plain && leb plain 122) then not shift else shift

abbrev pub in_column : Keyboard → Bool → ℕ × ℕ × ℕ → ℕ
in_column s code_with_E0 row = if code_with_E0 then row.2 else if caps s row.0 then row.1 else row.0

-- The switch over the keys that are held or locked; ALT_R sets alt_l.
abbrev pub hold : Keyboard → ℕ → Bool → Keyboard
hold s key make =
    if key == 264
    then record s { held = record (s.held) { shift_l = make } }
    else if key == 265
    then record s { held = record (s.held) { shift_r = make } }
    else if key == 266
    then record s { held = record (s.held) { ctrl_l = make } }
    else if key == 267
    then record s { held = record (s.held) { ctrl_r = make } }
    else if (key == 268) || (key == 269)
    then record s { held = record (s.held) { alt_l = make } }
    else s

abbrev pub lock : Keyboard → ℕ → Bool → Keyboard
lock s key make =
    if not make
    then s
    else if key == 270
    then set_locks s (record (s.locks) { caps_lock = not s.locks.caps_lock })
    else if key == 271
    then set_locks s (record (s.locks) { num_lock = not s.locks.num_lock })
    else if key == 272
    then set_locks s (record (s.locks) { scroll_lock = not s.locks.scroll_lock })
    else s

-- A byte from 0x80 on is the break of a key.
abbrev pub is_make : Scan → Bool
is_make c = ltb (c.scan_code % 256) 128

unfoldable pub read_key : Scan → ℕ
unfolding keyrow
read_key c = in_column c.board c.code_with_E0 (keyrow (c.scan_code % 128) keymap)

abbrev pub pressed : Scan → ℕ → Bool → Scan
pressed c key make = record c {
  key = key;
  make = make;
  board = lock (hold c.board key make) key make;
}

unfoldable pub classify : Scan → Scan
classify c =
    if (c.key == pausebreak) || (c.key == printscreen)
    then c
    else pressed c (read_key c) (is_make c)
