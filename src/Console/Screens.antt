-- ===== src/Console/Screens.antt =====
-- The consoles and who writes to them: console_table and current_console, init_screen() and
-- select_console() of kernel/console.c, and init_tty(), the start of task_tty() and tty_do_write()
-- of kernel/tty.c. The strings printed are lists, and a buffer is a function of its address.
pub mod Ready
pub mod Start
pub mod Writing
use kusa_os.Base.{
  ℕ, zero, suc, ◌+◌, ◌-◌, ◌*◌, ◌/◌, Bool, true, false, List, [], ◌∷◌, Result, ok, err, Fault, ◌>>=◌,
  ◌>>◌, ltb, leb, ◌==◌, update, if◌then◌else◌, ◌%◌,
}
use kusa_os.Kernel.{nr_consoles}
use kusa_os.Kernel.Signed.{ℤ, pos, negsuc}
use kusa_os.Kernel.Memory.{phys_copy}
use kusa_os.Console.{
  Console, Crt, Video, Direction, set_crt, flush, scroll_screen, out_char, scr_width,
}

-- V_MEM_SIZE >> 1, and a third of it
abbrev pub v_mem_size : ℕ
v_mem_size = 16384

abbrev pub size_per_con : ℕ
size_per_con = v_mem_size / nr_consoles

pub record Screens : Type 0 where
  pub console_table : ℕ → Console
  pub current_console : ℕ
  pub mem : ℕ → ℕ
  pub crt : Crt
  pub disp_pos : ℕ

-- A console as out_char() sees it: is_current_console() compares it with the current one.
abbrev pub video : Screens → ℕ → Video
video s n = record {
  con = s.console_table n;
  is_current = n == s.current_console;
  mem = s.mem;
  crt = s.crt;
}

abbrev pub store : Screens → ℕ → Video → Screens
store s n v = record s { console_table = update s.console_table n v.con; mem = v.mem; crt = v.crt }

unfoldable pub print : Screens → ℕ → ℕ → Result Screens
unfolding out_char
print s n ch = do v ← out_char 120 (video s n) ch; ok (store s n v)

unfoldable pub print_all : Screens → ℕ → List ℕ → Result Screens
unfolding print
print_all s n [] = ok s
print_all s n (ch ∷ chs) = do s' ← print s n ch; print_all s' n chs

abbrev pub scroll : Screens → ℕ → Direction → Screens
scroll s n dir = store s n (scroll_screen (video s n) dir)

-- The console that init_screen() starts with; the first goes on where the loader wrote.
abbrev pub init_console : ℕ → ℕ → Console
init_console nr_tty disp_pos = record {
  crtc_start = nr_tty * size_per_con;
  orig = nr_tty * size_per_con;
  con_size = size_per_con / scr_width * scr_width;
  cursor = if nr_tty == 0 then disp_pos / 2 else nr_tty * size_per_con;
  is_full = false;
}

-- "[TTY #?]\n"
abbrev pub prompt : ℕ → List ℕ
prompt nr_tty = 91 ∷ 84 ∷ 84 ∷ 89 ∷ 32 ∷ 35 ∷ (nr_tty + 48) ∷ 93 ∷ 10 ∷ []

-- set_cursor() writes the first two registers only.
abbrev pub set_cursor : Crt → ℕ → Crt
set_cursor crt position = record crt { cursor_h = position / 256 % 256; cursor_l = position % 256 }

abbrev pub fresh : Screens → ℕ → Screens
fresh s nr_tty = record s {
  console_table = update s.console_table nr_tty (init_console nr_tty s.disp_pos);
}

-- The first line of a console; the first has what the loader wrote.
abbrev pub greeted : Screens → ℕ → Result Screens
greeted s nr_tty = elim (nr_tty == 0) [
  | true ↦ ok (record s { disp_pos = 0 })
  | false ↦ print_all s nr_tty (prompt nr_tty)
]

unfoldable pub init_screen : Screens → ℕ → Result Screens
unfolding print_all
init_screen s nr_tty = do
  shown ← greeted (fresh s nr_tty) nr_tty
  ok (record shown { crt = set_cursor shown.crt ((shown.console_table nr_tty).cursor) })

unfoldable pub select_console : Screens → ℤ → Screens
unfolding flush
select_console s (negsuc n) = s
select_console s (pos n) =
    if leb nr_consoles n
    then s
    else let chosen = record s { current_console = n } in store chosen n (flush (video chosen n))

-- init_screen() for each terminal, and select_console(0)
unfoldable pub init_screens : Screens → Result Screens
init_screens s = do
  s0 ← init_screen s 0
  s1 ← init_screen s0 1
  s2 ← init_screen s1 2
  ok (select_console s2 (pos 0))

-- The chars at an address
unfoldable pub chars : ℕ → (ℕ → ℕ) → ℕ → List ℕ
chars zero mem p = []
chars (suc n) mem p = mem p ∷ chars n mem (p + 1)

-- TTY_OUT_BUF_LEN
abbrev pub tty_out_buf_len : ℕ
tty_out_buf_len = 2

-- The loop of tty_do_write(): the text goes through `buf`, a buffer of two bytes in the memory
-- `user`, which is not the video memory.
unfoldable pub write_chunks : ℕ → ℕ → (ℕ → ℕ) → Screens → ℕ → ℕ → ℕ → Result Screens
unfolding print_all chars phys_copy
write_chunks zero buf user s n p i = err Fault.spins
write_chunks (suc f) buf user s n p i = elim (i == 0) [
  | true ↦ ok s
  | false ↦
      let bytes = if ltb tty_out_buf_len i then tty_out_buf_len else i in
      let copied = phys_copy bytes buf p user in
      print_all s n (chars bytes copied buf) >>= λ s'.
      write_chunks f buf copied s' n (p + bytes) (i - bytes)
]

unfoldable pub tty_do_write : ℕ → (ℕ → ℕ) → Screens → ℕ → ℕ → ℕ → Result Screens
unfolding write_chunks
tty_do_write buf user s n p cnt = write_chunks (suc cnt) buf user s n p cnt
