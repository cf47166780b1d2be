-- ===== src/Console/Scroll.antt =====
-- scroll_screen() of kernel/console.c, and the loop of out_char() that scrolls to the cursor.
use kusa_os.Base.{◌+◌, ◌-◌, ◌%◌, ◌≤◌, ◌<◌, ◌≡◌, arith, true, false, ◌==◌, if◌then◌else◌}
use kusa_os.Console.{
  Console, Video, Direction, scr_up, scr_dn, scroll_up, scroll_dn, scroll_screen, flush,
}

-- The screen shows whole lines of the console, and the cursor is in the console; as long as the
-- console has not been full, the cursor is not above the screen.
pub record IsConsole (c : Console) : Type 0 where
  pub size : c.con_size ≡ 5440
  pub low : c.orig ≤ c.crtc_start
  pub line : (c.crtc_start - c.orig) % 80 ≡ 0
  pub high : c.crtc_start ≤ c.orig + 3440
  pub start : c.orig ≤ c.cursor
  pub end : c.cursor < c.orig + 5440
  pub above : c.is_full ≡ false → c.crtc_start ≤ c.cursor

pub scroll_up-IsConsole : (c : Console) → IsConsole c → IsConsole (scroll_up c)
unfolding scroll_up
scroll_up-IsConsole c h = ground arith

pub scroll_dn-IsConsole : (c : Console) → IsConsole c → IsConsole (scroll_dn c)
unfolding scroll_dn
scroll_dn-IsConsole c h = ground arith

-- One step upwards: not full, the next line below is shown; full, the lines go round.
pub scroll_up-below :
    (c : Console)
    → IsConsole c
    → c.crtc_start + 2000 ≤ c.cursor
    → scroll_up c ≡ record c { crtc_start = c.crtc_start + 80 }
unfolding scroll_up
scroll_up-below c h below = ground arith

pub scroll_up-round :
    (c : Console)
    → IsConsole c
    → c.is_full ≡ true
    → c.cursor < c.crtc_start
    → scroll_up c ≡ record c {
      crtc_start = if c.crtc_start == c.orig + 3440 then c.orig else c.crtc_start + 80;
    }
unfolding scroll_up
scroll_up-round c h full past = ground arith

-- Scrolling the screen of a console in either direction leaves it on whole lines of the console,
-- with the cursor where it was.
pub scroll_screen-IsConsole :
    (v : Video) (dir : Direction)
    → IsConsole v.con
    → IsConsole (scroll_screen v dir).con
      × ((scroll_screen v dir).con.cursor ≡ v.con.cursor)
      × ((scroll_screen v dir).mem ≡ v.mem)
unfolding scroll_screen flush scroll_up scroll_dn
scroll_screen-IsConsole v scr_up h = ground arith
scroll_screen-IsConsole v scr_dn h = ground arith
