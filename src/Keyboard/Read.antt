-- ===== src/Keyboard/Read.antt =====
-- keyboard_read() of kernel/keyboard.c: the number pad, the flags, and the loop.
use Prim.Native.Nat.{bit_or}
use kusa_os.Base.{
  ℕ, zero, suc, ◌+◌, ◌-◌, Bool, true, false, ◌&&◌, [], ◌∷◌, ◌++◌, leb, ◌==◌, if◌then◌else◌,
}
use kusa_os.Keyboard.{Keyboard, Held, Scan, Outcome, done, out_of_fuel, ◌then◌, left_over}
use kusa_os.Keyboard.Scancodes.{parse, classify}

-- PAD_SLASH to PAD_9 are 300 to 315.
abbrev pub is_pad : ℕ → Bool
is_pad key = leb 300 key && leb key 315

-- The number pad without num lock: '.' and '0' to '9' as keys of the cursor
abbrev pub as_cursor : ℕ → ℕ
as_cursor key =
    if key == 313
    then 289
    else if key == 307
    then 290
    else if key == 315
    then 291
    else if key == 309
    then 292
    else if key == 306
    then 287
    else if key == 314
    then 293
    else if key == 308
    then 294
    else if key == 310
    then 295
    else if key == 312
    then 296
    else if key == 305
    then 288
    else key

abbrev pub as_number : ℕ → ℕ
as_number key =
    if leb 306 key && leb key 315 then key - 306 + 48 else if key == 305 then 46 else key

-- The keys '/', '*', '-', '+' and Enter of the pad, and the others
abbrev pub pad_key : Bool → ℕ → ℕ
pad_key num_lock key =
    if key == 300
    then 47
    else if key == 301
    then 42
    else if key == 302
    then 45
    else if key == 303
    then 43
    else if key == 304
    then 259
    else if num_lock
    then as_number key
    else as_cursor key

abbrev pub flag : Bool → ℕ → ℕ → ℕ
flag on mask key = if on then bit_or key mask else key

-- FLAG_SHIFT_L to FLAG_PAD
abbrev pub with_flags : Held → Bool → ℕ → ℕ
with_flags h pad key = flag pad 0x8000 (
    flag h.alt_r 0x4000 (
      flag h.alt_l 0x2000 (
        flag h.ctrl_r 0x1000
          (flag h.ctrl_l 0x800 (flag h.shift_r 0x400 (flag h.shift_l 0x200 key))))))

-- The key that in_process() is given; the local variable `key` keeps it.
abbrev pub delivered : Keyboard → ℕ → ℕ
delivered s key =
    if is_pad key
    then with_flags s.held true (pad_key s.locks.num_lock key)
    else with_flags s.held false key

abbrev pub put_in : Scan → ℕ → Scan
put_in c key = record c {
  key = key;
  board = record (c.board) { keys = c.board.keys ++ (key ∷ []) };
}

unfoldable pub deliver : Scan → Scan
deliver c = if c.make then put_in c (delivered c.board c.key) else c

-- The loop; `make` has no value before the first turn.
unfoldable pub read_from : ℕ → ℕ → Bool → Keyboard → Outcome Keyboard
read_from zero key make s = out_of_fuel
read_from (suc f) key make s = elim (s.kb_in.count == 0) [
  | true ↦ done s
  | false ↦
      parse key make s then λ c. let d = deliver (classify c) in read_from f d.key d.make d.board
]

unfoldable pub keyboard_read : Bool → Keyboard → Outcome Keyboard
unfolding read_from
keyboard_read make s = read_from (suc (left_over s)) 0 make s
