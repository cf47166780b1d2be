-- ===== src/Keyboard/Plain.antt =====
-- keyboard_read() of kernel/keyboard.c on the code of a key that stands for a character.
use kusa_os.Base.{
  ℕ, suc, ◌%◌, ◌<◌, ◌≡◌, refl, ap, ◌∙◌, arith, Bool, true, false, ◌&&◌, [], ◌∷◌, ◌++◌, ltb, leb,
  ◌==◌, ==_iff, lt→ltb, ne→==, if◌then◌else◌,
}
use kusa_os.Keyboard.{
  Keyboard, Scan, Outcome, done, ◌then◌, left_over, number, get_byte_from_kb_buf, take_byte,
}
use kusa_os.Keyboard.Keymap.{keymap, keyrow}
use kusa_os.Keyboard.Scancodes.{parse, classify, hold, lock, in_column, read_key, scanned}
use kusa_os.Keyboard.Read.{deliver, delivered, with_flags, put_in, read_from, keyboard_read}

hold-plain : (s : Keyboard) (key : ℕ) (make : Bool) → key < 256 → hold s key make ≡ s
hold-plain s key make h = ground (arith, h)

lock-plain : (s : Keyboard) (key : ℕ) (make : Bool) → key < 256 → lock s key make ≡ s
lock-plain s key make h = ground (arith, h)

delivered-plain :
    (s : Keyboard) (key : ℕ) → key < 256 → delivered s key ≡ with_flags s.held false key
delivered-plain s key h = rw (pad) refl
  where
    pad : leb 300 key && leb key 315 ≡ false
    pad = ground (arith, h)

module _ (s : Keyboard) (one : s.kb_in.count ≡ 1)
    (make_code : s.kb_in.buf s.kb_in.p_tail < 128) where
  t : Keyboard
  t = (take_byte s).1

  b : ℕ
  b = s.kb_in.buf s.kb_in.p_tail

  -- The key of the byte
  unfoldable pub plain_key : ℕ
  plain_key = in_column s false (keyrow (s.kb_in.buf s.kb_in.p_tail) keymap)

  get-one : get_byte_from_kb_buf s ≡ done (take_byte s)
  unfolding get_byte_from_kb_buf
  get-one = rw (some_bytes) refl
    where
      some_bytes : (s.kb_in.count == 0) ≡ false
      some_bytes = ground (arith, one)

  parse-plain : (make : Bool) → parse 0 make s ≡ done (scanned b false 0 make t)
  unfolding parse t b
  parse-plain make =
      rw
        (
          get-one,
          ne→== (s.kb_in.buf s.kb_in.p_tail) 0xE1 (omega (arith, make_code)),
          ne→== (s.kb_in.buf s.kb_in.p_tail) 0xE0 (omega (arith, make_code)),
        )
        refl

  classify-plain :
      (make : Bool)
      → plain_key < 256
      → classify (scanned b false 0 make t) ≡ scanned b false plain_key true t
  unfolding classify plain_key read_key t b
  classify-plain make h =
      rw (small, is_low)
        (ap (λ g. scanned (s.kb_in.buf s.kb_in.p_tail) false k true g)
          (ap (λ g. lock g k true) (hold-plain (take_byte s).1 k true h)
            ∙ lock-plain (take_byte s).1 k true h))
    where
      k : ℕ
      k = in_column s false (keyrow (s.kb_in.buf s.kb_in.p_tail) keymap)

      small : s.kb_in.buf s.kb_in.p_tail % 128 ≡ s.kb_in.buf s.kb_in.p_tail
      small = omega (arith, make_code)

      is_low : ltb (s.kb_in.buf s.kb_in.p_tail % 256) 128 ≡ true
      is_low = lt→ltb (s.kb_in.buf s.kb_in.p_tail % 256) 128 (omega (arith, make_code))

  deliver-plain :
      plain_key < 256
      → deliver (scanned b false plain_key true t)
        ≡ put_in (scanned b false plain_key true t) (with_flags s.held false plain_key)
  unfolding deliver t
  deliver-plain h = ap (put_in (scanned b false plain_key true t)) (delivered-plain t plain_key h)

  -- What is left once the byte is taken
  ended :
      (f key : ℕ) (make : Bool) (u : Keyboard)
      → u.kb_in.count ≡ 0
      → read_from (suc f) key make u ≡ done u
  unfolding read_from
  ended f key make u e = rw ((==_iff u.kb_in.count 0).1 e, read_from) refl

  turned :
      (f : ℕ) (make : Bool)
      → read_from (suc f) 0 make s ≡ (
          parse 0 make s then λ c.
          read_from f
            (deliver (classify c)).key
            (deliver (classify c)).make
            (deliver (classify c)).board)
  unfolding read_from
  turned f make = rw (some_bytes, read_from) refl
    where
      some_bytes : (s.kb_in.count == 0) ≡ false
      some_bytes = ground (arith, one)

  -- Where the buffer holds one byte, the code of a key that is pressed, and the table has a
  -- character for it in the column that the shift keys and caps lock choose, keyboard_read() takes
  -- the byte and hands in_process() that character with the flags of the keys that are held.
  pub keyboard_read-plain :
      (make : Bool)
      → plain_key < 256
      → keyboard_read make s
        ≡ done
            (record ((take_byte s).1) { keys = s.keys ++ (with_flags s.held false plain_key ∷ []) })
  unfolding keyboard_read t b
  keyboard_read-plain make h =
      turned (left_over s) make
      ∙ ap (λ o. o then λ c. turn (deliver (classify c))) (parse-plain make)
      ∙ ap (λ c. turn (deliver c)) (classify-plain make h)
      ∙ ap turn (deliver-plain h)
      ∙ ap (λ l. read_from l last.key true last.board) left
      ∙ ended (number s.arriving) last.key true last.board (omega (arith, one))
    where
      turn : Scan → Outcome Keyboard
      turn d = read_from (left_over s) d.key d.make d.board

      last : Scan
      last =
          put_in (scanned (s.kb_in.buf s.kb_in.p_tail) false plain_key true (take_byte s).1)
            (with_flags s.held false plain_key)

      left : left_over s ≡ suc (number s.arriving)
      left = omega (arith, one)
