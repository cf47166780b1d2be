-- ===== src/Console/Stuck.antt =====
-- out_char() of kernel/console.c where its loop cannot reach the cursor.
use kusa_os.Base.{ℕ, zero, suc, ◌-◌, ◌<◌, ◌≡◌, refl, sym, ap, ◌∙◌, arith, true, false, err, Fault}
use kusa_os.Console.{
  Video, scroll_up, show_cursor, is_shown, place, put_char, wrap_lines, out_char, is_inside,
}
use kusa_os.Console.Scroll.{IsConsole}
use kusa_os.Console.Show.{round, round-con}

show_cursor-spins :
    (f : ℕ) (v : Video)
    → is_shown v.con ≡ false
    → scroll_up v.con ≡ v.con
    → show_cursor f v ≡ err Fault.spins
unfolding show_cursor
show_cursor-spins zero v past still = refl
show_cursor-spins (suc f) v past still =
    rw (past, show_cursor)
      (show_cursor-spins f (round v) (ap is_shown (round-con v ∙ still) ∙ past)
        (ap scroll_up (round-con v ∙ still) ∙ still ∙ sym (round-con v ∙ still)))

module _ (v : Video) (h : IsConsole v.con) (first : v.con.is_full ≡ false)
    (top : v.con.cursor ≡ v.con.crtc_start) (on : v.con.orig < v.con.crtc_start) where
  erased : (place v 8).con ≡ record (v.con) { cursor = v.con.cursor - 1 }
  unfolding place put_char wrap_lines
  erased = ground (arith, h.size, h.end, top, on)

  stays :
      scroll_up (record (v.con) { cursor = v.con.cursor - 1 })
      ≡ record (v.con) { cursor = v.con.cursor - 1 }
  unfolding scroll_up
  stays = ground (arith, first, top, on)

  -- The loop of out_char() does not end, however many rounds it is given, where '\b' is printed at
  -- the top left of the screen of a console that has been scrolled on and has never been full.
  pub out_char-spins : (f : ℕ) → out_char f v 8 ≡ err Fault.spins
  unfolding out_char
  out_char-spins f = rw (start, inside, show_cursor-spins f (place v 8) past still) refl
    where
      start : is_inside v.con ≡ true
      start = ground (arith, h.size, h.start, h.end)

      inside : is_inside (place v 8).con ≡ true
      inside = ap is_inside erased ∙ ground (arith, h.size, h.end, top, on)

      past : is_shown (place v 8).con ≡ false
      past = ap is_shown erased ∙ ground (arith, top, on)

      still : scroll_up (place v 8).con ≡ (place v 8).con
      still = ap scroll_up erased ∙ stays ∙ sym erased
