-- ===== src/Tty/Keys.antt =====
-- in_process() of kernel/tty.c: what is done with a key that keyboard_read() has recognised, for
-- the terminal `tty`, whose console has the same number.
use mathlib.Core.Path.{subst}
use native.Mathlib.Decide.{ℕ_discrete}
use kusa_os.Base.{
  update_eq, update_ne, ℕ, ◌+◌, ◌/◌, ◌%◌, ◌<◌, ◌≡◌, sym, arith, Bool, Bool-cases, true, false, inl,
  inr, not, ◌&&◌, ◌||◌, leb, ◌==◌, if◌then◌else◌,
}
use kusa_os.Kernel.Signed.{ℤ, pos, negsuc, sub_ℕ}
use kusa_os.Console.{Console, Direction, scr_up, scr_dn, scroll_screen}
use kusa_os.Console.Scroll.{IsConsole, scroll_screen-IsConsole}
use kusa_os.Console.Screens.Start.{select_console-same}
use kusa_os.Console.Screens.{Screens, video, scroll, select_console}
use kusa_os.Tty.{Buffer, put_key}
use kusa_os.Tty.Ring.{IsBuffer, put_key-keys}

-- The terminal's buffer and the screens
pub record Desk : Type 0 where
  pub buffer : Buffer
  pub screens : Screens

-- `key & flag`, for a flag that is a power of two
abbrev pub has_flag : ℕ → ℕ → Bool
has_flag key flag = not (key / flag % 2 == 0)

abbrev pub has_shift : ℕ → Bool
has_shift key = has_flag key 0x200 || has_flag key 0x400

abbrev pub has_alt : ℕ → Bool
has_alt key = has_flag key 0x2000 || has_flag key 0x4000

abbrev pub to_buffer : Desk → ℕ → Desk
to_buffer d key = record d { buffer = put_key d.buffer key }

abbrev pub to_console : Desk → ℤ → Desk
to_console d n = record d { screens = select_console d.screens n }

abbrev pub scroll_by : Desk → ℕ → ℕ → Direction → Desk
scroll_by d tty key dir =
    if has_shift key then record d { screens = scroll d.screens tty dir } else d

-- Page up and page down go round the three consoles.
abbrev pub console_after : ℕ → ℤ
console_after n = if n == 2 then pos 0 else pos (n + 1)

abbrev pub console_before : ℕ → ℤ
console_before n = if n == 0 then pos 2 else sub_ℕ n 1

-- The switch: Enter, Backspace, Up, Down, Page Up and Page Down, and F1 (273) to F12
abbrev pub special : Desk → ℕ → ℕ → ℕ → Desk
special d tty key raw_code =
    if raw_code == 259
    then to_buffer d 10
    else if raw_code == 260
    then to_buffer d 8
    else if raw_code == 293
    then scroll_by d tty key scr_dn
    else if raw_code == 294
    then scroll_by d tty key scr_up
    else if raw_code == 291
    then to_console d (console_after d.screens.current_console)
    else if raw_code == 292
    then to_console d (console_before d.screens.current_console)
    else if leb 273 raw_code && (leb raw_code 284 && has_alt key)
    then to_console d (sub_ℕ raw_code 273)
    else d

unfoldable pub in_process : Desk → ℕ → ℕ → Desk
unfolding put_key select_console
in_process d tty key = if has_flag key 0x100 then special d tty key (key % 512) else to_buffer d key

-- A terminal's buffer, and the screens with one of the three consoles as the current one and each
-- console in order
pub record IsDesk (d : Desk) : Type 0 where
  pub buffer : IsBuffer d.buffer
  pub current : d.screens.current_console < 3
  pub consoles : (n : ℕ) → IsConsole (d.screens.console_table n)

if-IsDesk : (b : Bool) (x y : Desk) → IsDesk x → IsDesk y → IsDesk (if b then x else y)
if-IsDesk true x y h k = h
if-IsDesk false x y h k = k

module _ (d : Desk) (h : IsDesk d) where
  to_buffer-IsDesk : (key : ℕ) → IsDesk (to_buffer d key)
  to_buffer-IsDesk key = record {
    buffer = (put_key-keys d.buffer key h.buffer).0;
    current = h.current;
    consoles = h.consoles;
  }

  select_console-current : (z : ℤ) → (select_console d.screens z).current_console < 3
  unfolding select_console
  select_console-current (negsuc n) = h.current
  select_console-current (pos n) = elim (Bool-cases (leb 3 n)) [
    | inl e ↦ rw (e, select_console) h.current
    | inr e ↦ rw (e, select_console) (below e)
  ]
    where
      below : leb 3 n ≡ false → n < 3
      below e = ground arith

  to_console-IsDesk : (z : ℤ) → IsDesk (to_console d z)
  unfolding select_console
  to_console-IsDesk (negsuc n) = h
  to_console-IsDesk (pos n) = record {
    buffer = h.buffer;
    current = select_console-current (pos n);
    consoles = λ m. subst IsConsole (sym (select_console-same d.screens n m)) (h.consoles m);
  }

  scroll_by-IsDesk : (tty key : ℕ) (dir : Direction) → IsDesk (scroll_by d tty key dir)
  scroll_by-IsDesk tty key dir =
      if-IsDesk (has_shift key) (record d { screens = scroll d.screens tty dir }) d
        (record {
          buffer = h.buffer;
          current = h.current;
          consoles = λ m. elim (ℕ_discrete tty m) [
            | yes e ↦
                subst IsConsole (sym (update_eq d.screens.console_table tty m c e))
                  (scroll_screen-IsConsole (video d.screens tty) dir (h.consoles tty)).0
            | no e ↦
                subst IsConsole (sym (update_ne d.screens.console_table tty m c e)) (h.consoles m)
          ];
        })
        h
    where
      c : Console
      c = (scroll_screen (video d.screens tty) dir).con

  -- Whatever key is pressed, in_process() leaves the terminal's buffer in order, one of the three
  -- consoles as the current one, and each console's screen inside its part of the video memory.
  pub in_process-IsDesk : (tty key : ℕ) → IsDesk (in_process d tty key)
  unfolding in_process
  in_process-IsDesk tty key =
      if-IsDesk (has_flag key 0x100) (special d tty key raw) (to_buffer d key)
        (if-IsDesk (raw == 259) _ _ (to_buffer-IsDesk 10) (
          if-IsDesk (raw == 260) _ _ (to_buffer-IsDesk 8) (
            if-IsDesk (raw == 293) _ _ (scroll_by-IsDesk tty key scr_dn) (
              if-IsDesk (raw == 294) _ _ (scroll_by-IsDesk tty key scr_up) (
                if-IsDesk (raw == 291) _ _
                  (to_console-IsDesk (console_after d.screens.current_console))
                  (if-IsDesk (raw == 292) _ _
                    (to_console-IsDesk (console_before d.screens.current_console))
                    (if-IsDesk (leb 273 raw && (leb raw 284 && has_alt key)) _ _
                      (to_console-IsDesk (sub_ℕ raw 273)) h)))))))
        (to_buffer-IsDesk key)
    where
      raw : ℕ
      raw = key % 512
