-- ===== src/Console.antt =====
-- A console of kernel/console.c: out_char(), clear_screen(), scroll_screen(), flush() and w_copy().
-- Positions are in words from the start of the video memory, `mem` is that memory in bytes, and
-- `Crt` is the controller's registers. Fields are unsigned; a difference that would wrap is
-- written out as a test.
pub mod Scroll
pub mod Show
pub mod Output
pub mod Screens
pub mod Stuck
use kusa_os.Base.{
  ℕ, zero, suc, ◌+◌, ◌-◌, ◌*◌, ◌/◌, ◌%◌, Bool, true, false, not, ◌&&◌, ◌||◌, Result, ok, err, Fault,
  assert, ◌>>=◌, ◌>>◌, ltb, leb, ◌==◌, update, if◌then◌else◌,
}
use kusa_os.Kernel.{nr_consoles}
use kusa_os.Kernel.Memory.{phys_copy}

abbrev pub scr_width : ℕ
scr_width = 80

-- SCR_SIZE, 25 lines
abbrev pub scr_size : ℕ
scr_size = 2000

-- DEFAULT_CHAR_COLOR, white on black
abbrev pub default_char_color : ℕ
default_char_color = 7

pub record Console : Type 0 where
  pub crtc_start : ℕ
  pub orig : ℕ
  pub con_size : ℕ
  pub cursor : ℕ
  pub is_full : Bool

-- The cursor and the start address, each in a high and a low byte
pub record Crt : Type 0 where
  pub cursor_h : ℕ
  pub cursor_l : ℕ
  pub start_addr_h : ℕ
  pub start_addr_l : ℕ

-- A console, whether it is the current one, the video memory and the controller
pub record Video : Type 0 where
  pub con : Console
  pub is_current : Bool
  pub mem : ℕ → ℕ
  pub crt : Crt

-- set_cursor() and set_video_start_addr()
abbrev pub set_crt : Console → Crt
set_crt c = record {
  cursor_h = c.cursor / 256 % 256;
  cursor_l = c.cursor % 256;
  start_addr_h = c.crtc_start / 256 % 256;
  start_addr_l = c.crtc_start % 256;
}

unfoldable pub flush : Video → Video
flush v = if v.is_current then record v { crt = set_crt v.con } else v

-- `len` words from `pos` on
unfoldable pub clear_screen : ℕ → ℕ → (ℕ → ℕ) → ℕ → ℕ
clear_screen zero pos mem = mem
clear_screen (suc len) pos mem =
    clear_screen len (pos + 1) (update (update mem (pos * 2) 32) (pos * 2 + 1) default_char_color)

abbrev pub w_copy : ℕ → ℕ → ℕ → (ℕ → ℕ) → ℕ → ℕ
w_copy dst src size mem = phys_copy (size * 2) (dst * 2) (src * 2) mem

-- The line of the cursor, and the oldest line, as offsets in the console
abbrev pub newest : Console → ℕ
newest c = (c.cursor - c.orig) / scr_width * scr_width

abbrev pub oldest : Console → ℕ
oldest c = if c.is_full then (newest c + scr_width) % c.con_size else 0

abbrev pub scr_top : Console → ℕ
scr_top c = c.crtc_start - c.orig

abbrev pub line_up : Console → Console
line_up c = record c { crtc_start = c.crtc_start - scr_width }

abbrev pub line_down : Console → Console
line_down c = record c { crtc_start = c.crtc_start + scr_width }

-- scroll_screen() in the direction SCR_DN
unfoldable pub scroll_dn : Console → Console
scroll_dn c =
    if not c.is_full && ltb 0 (scr_top c)
    then line_up c
    else if c.is_full && not (scr_top c == oldest c)
    then (if leb (c.con_size - scr_size) (c.cursor - c.orig)
        then (if c.crtc_start == c.orig then c else line_up c)
        else if c.crtc_start == c.orig
        then record c { crtc_start = c.orig + (c.con_size - scr_size) }
        else line_up c)
    else c

-- scroll_screen() in the direction SCR_UP
unfoldable pub scroll_up : Console → Console
scroll_up c =
    if not c.is_full && leb (scr_top c + scr_size) (newest c)
    then line_down c
    else if c.is_full && not (scr_top c + scr_size - scr_width == newest c)
    then (if scr_top c + scr_size == c.con_size
        then record c { crtc_start = c.orig }
        else line_down c)
    else c

pub data Direction : Type 0 where
  scr_up scr_dn : Direction

abbrev pub scrolled : Console → Direction → Console
scrolled c scr_up = scroll_up c
scrolled c scr_dn = scroll_dn c

unfoldable pub scroll_screen : Video → Direction → Video
unfolding flush
scroll_screen v dir = flush (record v { con = scrolled v.con dir })

-- `con->cursor - con->orig < con->con_size`, of unsigned numbers
abbrev pub is_inside : Console → Bool
is_inside c = leb c.orig c.cursor && ltb (c.cursor - c.orig) c.con_size

-- The switch of out_char(); '\n' is 10 and '\b' is 8.
unfoldable pub put_char : Video → ℕ → Video
put_char v ch =
    if ch == 10
    then record v {
      con = record (v.con) {
        cursor = v.con.orig + scr_width * ((v.con.cursor - v.con.orig) / scr_width + 1);
      };
    }
    else if ch == 8
    then (if ltb v.con.orig v.con.cursor
        then record v {
          con = record (v.con) { cursor = v.con.cursor - 1 };
          mem =
              update (update v.mem (v.con.cursor * 2 - 2) 32) (v.con.cursor * 2 - 1)
                default_char_color;
        }
        else v)
    else record v {
      con = record (v.con) { cursor = v.con.cursor + 1 };
      mem = update (update v.mem (v.con.cursor * 2) ch) (v.con.cursor * 2 + 1) default_char_color;
    }

-- Where the console is full, its last lines are moved to its start.
unfoldable pub wrap_lines : Video → Video
wrap_lines v =
    let c = v.con in
    let x = (c.cursor - c.orig) % scr_width in
    let y = (c.cursor - c.orig) / scr_width in
    let moved =
      w_copy c.orig (c.orig + (y + 1) * scr_width - scr_size) (scr_size - scr_width) v.mem in
    let cursor = c.orig + (scr_size - scr_width) + x in
    record v {
      con = record c { crtc_start = c.orig; cursor = cursor; is_full = true };
      mem = clear_screen scr_width cursor moved;
    }

-- The cursor is on the screen.
abbrev pub is_shown : Console → Bool
is_shown c = ltb c.cursor (c.crtc_start + scr_size) && leb c.crtc_start c.cursor

-- The loop of out_char()
unfoldable pub show_cursor : ℕ → Video → Result Video
show_cursor zero v = err Fault.spins
show_cursor (suc f) v = elim (is_shown v.con) [
  | true ↦ ok v
  | false ↦
      let v' = scroll_screen v scr_up in
      show_cursor f (record v' { mem = clear_screen scr_width v'.con.cursor v'.mem })
]

-- out_char() up to the loop: the character, and the end of the console
unfoldable pub place : Video → ℕ → Video
unfolding put_char wrap_lines
place v ch =
    let v1 = put_char v ch in
    if leb v1.con.con_size (v1.con.cursor - v1.con.orig) then wrap_lines v1 else v1

unfoldable pub out_char : ℕ → Video → ℕ → Result Video
unfolding place show_cursor
out_char f v ch = do
  assert (is_inside v.con)
  let placed = place v ch
  assert (is_inside placed.con)
  shown ← show_cursor f placed
  ok (flush shown)
