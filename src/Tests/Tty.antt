-- ===== src/Tests/Tty.antt =====
-- A terminal at concrete inputs.
use kusa_os.Base.{refl, ◌+◌, ◌≡◌, ◌∷◌, [], arith}
use kusa_os.Tty.{Tty, Line, Buffer, tty_dev_write, tty_do_read}
use kusa_os.Tty.Ring.{IsBuffer, keys, echo_all, tty_dev_write-keys}
use kusa_os.Console.{set_crt}
use kusa_os.Console.Screens.{Screens, init_console}
use kusa_os.Tty.Keys.{Desk, in_process, IsDesk, in_process-IsDesk}
use kusa_os.Tty.Request.{IsServing, tty_do_read-IsServing}

-- Three keys, the first in the last slot
abbrev typed : Buffer
typed = record { ibuf = λ i. i + 65; ibuf_head = 2; ibuf_tail = 255; ibuf_cnt = 3 }

typed-IsBuffer : IsBuffer typed
typed-IsBuffer = record { tail = omega arith; head = omega arith; bound = omega arith }

abbrev line : Line
line = record {
  tty_caller = 3;
  tty_procnr = 12;
  tty_req_buf = 4096;
  tty_left_cnt = 2;
  tty_trans_cnt = 0;
  mem = λ _. 0;
  echoed = [];
  resumed = [];
}

abbrev terminal : Tty
terminal = record { buffer = typed; line = line }

tty_dev_write-keys_example :
    ((tty_dev_write terminal).line ≡ echo_all terminal.line (keys terminal.buffer))
    × ((tty_dev_write terminal).buffer.ibuf_cnt ≡ 0)
    × IsBuffer (tty_dev_write terminal).buffer
tty_dev_write-keys_example = tty_dev_write-keys terminal typed-IsBuffer

tty_do_read-IsServing_example :
    IsServing 2 8192 line.mem (echo_all (tty_do_read line 3 12 8192 2) (72 ∷ 8 ∷ 73 ∷ 74 ∷ 75 ∷ []))
tty_do_read-IsServing_example = tty_do_read-IsServing line 3 12 8192 2 (72 ∷ 8 ∷ 73 ∷ 74 ∷ 75 ∷ [])

abbrev screens : Screens
screens = record {
  console_table = λ n. init_console n 160;
  current_console = 2;
  mem = λ _. 0;
  crt = set_crt (init_console 2 160);
  disp_pos = 160;
}

abbrev desk : Desk
desk = record { buffer = typed; screens = screens }

desk-IsDesk : IsDesk desk
desk-IsDesk = record {
  buffer = typed-IsBuffer;
  current = omega arith;
  consoles = λ n. record {
    size = refl;
    low = omega arith;
    line = ground arith;
    high = omega arith;
    start = ground arith;
    end = ground arith;
    above = λ _. ground arith;
  };
}

-- Page Up on the last console
in_process-IsDesk_example : IsDesk (in_process desk 2 291)
in_process-IsDesk_example = in_process-IsDesk desk desk-IsDesk 2 291
