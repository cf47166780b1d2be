-- ===== src/Tests/Console.antt =====
-- A console at concrete inputs.
use kusa_os.Base.{ℕ, ◌≡◌, ◌<◌, refl, arith, true, false, ok, err, Fault, inl}
use kusa_os.Console.{Console, Video, set_crt, out_char}
use kusa_os.Console.Scroll.{IsConsole}
use kusa_os.Console.Output.{IsPrinted, out_char-IsPrinted}
use kusa_os.Console.Stuck.{out_char-spins}
use kusa_os.Console.Screens.{Screens, init_console, print_all, init_screens, tty_do_write, chars}
use kusa_os.Console.Screens.Ready.{IsReady}
use kusa_os.Console.Screens.Start.{init_screens-IsReady}
use kusa_os.Console.Screens.Writing.{tty_do_write-print_all}

-- The last character of the first screen of the second console
abbrev screen_end : Console
screen_end = record {
  crtc_start = 5461;
  orig = 5461;
  con_size = 5440;
  cursor = 7460;
  is_full = false;
}

abbrev at_end : Video
at_end = record { con = screen_end; is_current = true; mem = λ _. 0; crt = set_crt screen_end }

screen_end-IsConsole : IsConsole screen_end
screen_end-IsConsole = record {
  size = refl;
  low = omega arith;
  line = refl;
  high = omega arith;
  start = omega arith;
  end = omega arith;
  above = λ _. omega arith;
}

out_char-IsPrinted_example : (v' : Video) × (out_char 120 at_end 65 ≡ ok v') × IsPrinted at_end v'
out_char-IsPrinted_example =
    out_char-IsPrinted at_end 65 screen_end-IsConsole refl (λ e. ground (arith, e))

-- One line further, with the cursor at the top left
abbrev further : Console
further = record { crtc_start = 5541; orig = 5461; con_size = 5440; cursor = 5541; is_full = false }

abbrev at_top : Video
at_top = record { con = further; is_current = true; mem = λ _. 0; crt = set_crt further }

out_char-spins_example : out_char 1000 at_top 8 ≡ err Fault.spins
out_char-spins_example =
    out_char-spins at_top
      (record {
        size = refl;
        low = omega arith;
        line = refl;
        high = omega arith;
        start = omega arith;
        end = omega arith;
        above = λ _. omega arith;
      })
      refl refl (omega arith) 1000

abbrev screens : Screens
screens = record {
  console_table = λ n. init_console n 160;
  current_console = 0;
  mem = λ _. 0;
  crt = set_crt screen_end;
  disp_pos = 160;
}

second : IsReady screens 1
second = record {
  con = record {
    size = refl;
    low = omega arith;
    line = refl;
    high = omega arith;
    start = omega arith;
    end = omega arith;
    above = λ _. omega arith;
  };
  shown = refl;
  orig = refl;
}

init_screens-IsReady_example :
    (s' : Screens) × (init_screens screens ≡ ok s')
    × ((n : ℕ) → n < 3 → IsReady s' n)
    × (s'.current_console ≡ 0)
init_screens-IsReady_example = init_screens-IsReady screens (omega arith)

tty_do_write-print_all_example :
    tty_do_write 64 (λ a. a) screens 1 97 3 ≡ print_all screens 1 (chars 3 (λ a. a) 97)
tty_do_write-print_all_example =
    tty_do_write-print_all 64 (λ a. a) screens 1 97 3 (inl (omega arith))
