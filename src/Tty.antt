-- ===== src/Tty.antt =====
-- A terminal of kernel/tty.c: put_key(), tty_dev_write(), tty_do_read() and init_tty(). Its input
-- buffer is `Ring`, with indices for the two pointers; the request that it serves is `Line`. `mem`
-- is the memory, `echoed` what out_char() is given and `resumed` the RESUME_PROC messages, as
-- process and count, each in order. The count of a request is not negative.
pub mod Ring
pub mod Request
pub mod Keys
use kusa_os.Base.{
  ℕ, zero, suc, ◌+◌, ◌-◌, ◌%◌, Bool, true, false, not, ◌&&◌, ◌||◌, List, [], ◌∷◌, ◌++◌, ltb, leb,
  ◌==◌, update, if◌then◌else◌,
}

-- TTY_IN_BYTES
abbrev pub tty_in_bytes : ℕ
tty_in_bytes = 256

pub record Buffer : Type 0 where
  pub ibuf : ℕ → ℕ
  pub ibuf_head : ℕ
  pub ibuf_tail : ℕ
  pub ibuf_cnt : ℕ

pub record Line : Type 0 where
  pub tty_caller : ℕ
  pub tty_procnr : ℕ
  pub tty_req_buf : ℕ
  pub tty_left_cnt : ℕ
  pub tty_trans_cnt : ℕ
  pub mem : ℕ → ℕ
  pub echoed : List ℕ
  pub resumed : List (ℕ × ℕ)

pub record Tty : Type 0 where
  pub buffer : Buffer
  pub line : Line

-- A pointer into `ibuf` after it is incremented
abbrev pub next_slot : ℕ → ℕ
next_slot i = if i + 1 == tty_in_bytes then 0 else i + 1

abbrev pub init_buffer : (ℕ → ℕ) → Buffer
init_buffer ibuf = record { ibuf = ibuf; ibuf_head = 0; ibuf_tail = 0; ibuf_cnt = 0 }

unfoldable pub put_key : Buffer → ℕ → Buffer
put_key b key =
    if ltb b.ibuf_cnt tty_in_bytes
    then record b {
      ibuf = update b.ibuf b.ibuf_head key;
      ibuf_head = next_slot b.ibuf_head;
      ibuf_cnt = b.ibuf_cnt + 1;
    }
    else b

-- The first lines of the loop of tty_dev_write()
abbrev pub drop_key : Buffer → Buffer
drop_key b = record b { ibuf_tail = next_slot b.ibuf_tail; ibuf_cnt = b.ibuf_cnt - 1 }

-- ' ' is 32, '~' is 126, '\b' is 8 and '\n' is 10.
abbrev pub is_printable : ℕ → Bool
is_printable ch = leb 32 ch && leb ch 126

abbrev pub type_char : Line → ℕ → Line
type_char l ch =
    if is_printable ch
    then record l {
      echoed = l.echoed ++ (ch ∷ []);
      mem = update l.mem (l.tty_req_buf + l.tty_trans_cnt) ch;
      tty_trans_cnt = l.tty_trans_cnt + 1;
      tty_left_cnt = l.tty_left_cnt - 1;
    }
    else if (ch == 8) && not (l.tty_trans_cnt == 0)
    then record l {
      echoed = l.echoed ++ (ch ∷ []);
      tty_trans_cnt = l.tty_trans_cnt - 1;
      tty_left_cnt = l.tty_left_cnt + 1;
    }
    else l

abbrev pub finish_line : Line → ℕ → Line
finish_line l ch =
    if (ch == 10) || (l.tty_left_cnt == 0)
    then record l {
      echoed = l.echoed ++ (10 ∷ []);
      resumed = l.resumed ++ ((l.tty_procnr, l.tty_trans_cnt) ∷ []);
      tty_left_cnt = 0;
    }
    else l

-- What tty_dev_write() does with a key; a char is its low byte.
unfoldable pub echo_key : Line → ℕ → Line
echo_key l key =
    if l.tty_left_cnt == 0 then l else finish_line (type_char l (key % 256)) (key % 256)

-- The loop of tty_dev_write()
unfoldable pub write_from : ℕ → Tty → Tty
write_from zero t = t
write_from (suc f) t = elim (t.buffer.ibuf_cnt == 0) [
  | true ↦ t
  | false ↦ write_from f (record {
    buffer = drop_key t.buffer;
    line = echo_key t.line (t.buffer.ibuf t.buffer.ibuf_tail);
  })
]

unfoldable pub tty_dev_write : Tty → Tty
unfolding write_from
tty_dev_write t = write_from t.buffer.ibuf_cnt t

-- `buf` is the linear address of the caller's buffer.
abbrev pub tty_do_read : Line → ℕ → ℕ → ℕ → ℕ → Line
tty_do_read l source procnr buf cnt = record l {
  tty_caller = source;
  tty_procnr = procnr;
  tty_req_buf = buf;
  tty_left_cnt = cnt;
  tty_trans_cnt = 0;
}
