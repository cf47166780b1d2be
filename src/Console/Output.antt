-- ===== src/Console/Output.antt =====
-- out_char() of kernel/console.c.
use mathlib.Core.Path.{subst}
use kusa_os.Base.{
  ℕ, ◌+◌, ◌-◌, ◌*◌, ◌≤◌, ◌<◌, ◌≡◌, refl, sym, ap, ◌∙◌, ◌⊎◌, inl, inr, arith, true, false,
  Bool-cases, ok, err, leb,
}
use kusa_os.Kernel.Memory.{phys_copy-outside}
use kusa_os.Console.{
  Console, Video, flush, show_cursor, is_shown, is_inside, set_crt, put_char, wrap_lines, place,
  out_char,
}
use kusa_os.Console.Scroll.{IsConsole}
use kusa_os.Console.Show.{
  IsShown, show_cursor-still, show_cursor-IsShown, to_go-bound, clear_screen-outside, flush-con,
  flush-mem, flush-current, flush-registers,
}

-- A console that has never been full must not erase at the top left of a screen that has been
-- scrolled on.
abbrev pub CanPrint : Console → ℕ → Type 0
CanPrint c ch = ch ≡ 8 → c.is_full ≡ false → (c.crtc_start < c.cursor) ⊎ (c.cursor ≡ c.orig)

place-IsConsole :
    (v : Video) (ch : ℕ) → IsConsole v.con → CanPrint v.con ch → IsConsole (place v ch).con
unfolding place put_char wrap_lines
place-IsConsole v ch h can = ground arith

place-fits :
    (v : Video) (ch : ℕ)
    → IsConsole v.con
    → is_shown v.con ≡ true
    → (is_shown (place v ch).con ≡ true)
      ⊎ ((place v ch).con.cursor + 80 ≤ (place v ch).con.orig + 5440)
unfolding place put_char wrap_lines
place-fits v ch h shown = ground arith

place-same :
    (v : Video) (ch : ℕ)
    → ((place v ch).con.orig ≡ v.con.orig) × ((place v ch).is_current ≡ v.is_current)
unfolding place put_char wrap_lines
place-same v ch = ground arith

-- A byte outside the console's 5440 words
abbrev pub IsElsewhere : Console → ℕ → Type 0
IsElsewhere c i = (i < c.orig * 2) ⊎ (c.orig * 2 + 10880 ≤ i)

put_char-elsewhere :
    (v : Video) (ch i : ℕ) → IsConsole v.con → IsElsewhere v.con i → (put_char v ch).mem i ≡ v.mem i
unfolding put_char
put_char-elsewhere v ch i h away = ground arith

put_char-orig : (v : Video) (ch : ℕ) → (put_char v ch).con.orig ≡ v.con.orig
unfolding put_char
put_char-orig v ch = ground arith

wrap_lines-elsewhere : (v : Video) (i : ℕ) → IsElsewhere v.con i → (wrap_lines v).mem i ≡ v.mem i
unfolding wrap_lines
wrap_lines-elsewhere v i away =
    clear_screen-outside 80 _ _ i (omega arith) ∙ phys_copy-outside _ _ _ _ i (omega arith)

place-elsewhere :
    (v : Video) (ch i : ℕ) → IsConsole v.con → IsElsewhere v.con i → (place v ch).mem i ≡ v.mem i
unfolding place
place-elsewhere v ch i h away = elim (Bool-cases (leb c.con_size (c.cursor - c.orig))) [
  | inl e ↦
      rw (e, place)
        (wrap_lines-elsewhere (put_char v ch) i
            (subst (λ o. (i < o * 2) ⊎ (o * 2 + 10880 ≤ i)) (sym (put_char-orig v ch)) away)
          ∙ put_char-elsewhere v ch i h away)
  | inr e ↦ rw (e, place) (put_char-elsewhere v ch i h away)
]
  where
    c : Console
    c = (put_char v ch).con

-- What out_char() leaves: a console with its cursor on the screen, the controller's registers
-- set where it is the current console, and every byte outside its own part of the video memory.
pub record IsPrinted (v v' : Video) : Type 0 where
  pub con : IsConsole v'.con
  pub shown : is_shown v'.con ≡ true
  pub orig : v'.con.orig ≡ v.con.orig
  pub is_current : v'.is_current ≡ v.is_current
  pub registers : v.is_current ≡ true → v'.crt ≡ set_crt v'.con
  pub elsewhere : (i : ℕ) → IsElsewhere v.con i → v'.mem i ≡ v.mem i

inside : (c : Console) → IsConsole c → is_inside c ≡ true
inside c h = ground arith

-- The loop clears a line only where that line is inside the console.
show_cursor-elsewhere :
    (v v' : Video)
    → IsConsole v.con
    → show_cursor 120 v ≡ ok v'
    → IsShown v v'
    → (is_shown v.con ≡ true) ⊎ (v.con.cursor + 80 ≤ v.con.orig + 5440)
    → (i : ℕ) → IsElsewhere v.con i
    → v'.mem i ≡ v.mem i
show_cursor-elsewhere v v' h returns at (inl shown) i away =
    ap (λ o. elim o [ ok w ↦ w.mem i | err _ ↦ 0 ]) (sym returns ∙ show_cursor-still 119 v shown)
show_cursor-elsewhere v v' h returns at (inr fits) i away =
    at.kept i (omega (arith, h.start, h.end))

-- Printing a character on a console whose cursor is on the screen, where a console that has never
-- been full is not asked to erase above its screen, returns within 120 rounds of the loop. It
-- leaves a console with its cursor on the screen, the registers of the controller set where it is
-- the current console, and every byte of the video memory outside the console's 5440 words as it
-- was.
pub out_char-IsPrinted :
    (v : Video) (ch : ℕ)
    → IsConsole v.con
    → is_shown v.con ≡ true
    → CanPrint v.con ch
    → (v' : Video) × (out_char 120 v ch ≡ ok v') × IsPrinted v v'
unfolding out_char
out_char-IsPrinted v ch h shown can =
    let (w', returns, at) = show_cursor-IsShown 120 w console (to_go-bound w.con console) in
    (flush w', rw (inside v.con h, inside w.con console, returns) refl, printed w' returns at)
  where
    w : Video
    w = place v ch

    console : IsConsole w.con
    console = place-IsConsole v ch h can

    same : (w.con.orig ≡ v.con.orig) × (w.is_current ≡ v.is_current)
    same = place-same v ch

    printed : (w' : Video) → show_cursor 120 w ≡ ok w' → IsShown w w' → IsPrinted v (flush w')
    printed w' returns at = record {
      con = subst IsConsole (sym (flush-con w')) at.con;
      shown = ap is_shown (flush-con w') ∙ at.shown;
      orig = ap (λ c. c.orig) (flush-con w') ∙ at.orig ∙ same.0;
      is_current = flush-current w' ∙ at.is_current ∙ same.1;
      registers = λ current. flush-registers w' (at.is_current ∙ same.1 ∙ current);
      elsewhere = λ i away.
          ap (λ m. m i) (flush-mem w')
          ∙ show_cursor-elsewhere w w' console returns at (place-fits v ch h shown) i
              (subst (λ o. (i < o * 2) ⊎ (o * 2 + 10880 ≤ i)) (sym same.0) away)
          ∙ place-elsewhere v ch i h away;
    }
