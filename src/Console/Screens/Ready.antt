-- ===== src/Console/Screens/Ready.antt =====
-- Printing on one of the consoles of kernel/console.c, and the start of the consoles.
use mathlib.Core.Path.{subst}
use kusa_os.Base.{
  ℕ, ◌+◌, ◌*◌, ◌<◌, ◌≤◌, ◌≡◌, ◌≢◌, refl, sym, ap, ◌∙◌, ◌⊎◌, arith, Bool, true, not, ◌&&◌, List, [],
  ◌∷◌, ok, ◌==◌, update_ne, update_self,
}
use kusa_os.Console.{Video, is_shown}
use kusa_os.Console.Scroll.{IsConsole}
use kusa_os.Console.Output.{CanPrint, IsPrinted, out_char-IsPrinted}
use kusa_os.Console.Screens.{Screens, video, store, print, print_all}

-- A console in its third of the video memory with its cursor on the screen
pub record IsReady (s : Screens) (n : ℕ) : Type 0 where
  pub con : IsConsole (s.console_table n)
  pub shown : is_shown (s.console_table n) ≡ true
  pub orig : (s.console_table n).orig ≡ n * 5461

-- What printing on console `n` leaves: the console, the others, and the memory of the others
pub record IsWritten (s s' : Screens) (n : ℕ) : Type 0 where
  pub ready : IsReady s' n
  pub others : (m : ℕ) → m ≢ n → s'.console_table m ≡ s.console_table m
  pub current : s'.current_console ≡ s.current_console
  pub disp_pos : s'.disp_pos ≡ s.disp_pos
  pub elsewhere : (i : ℕ) → (i < n * 10922) ⊎ (n * 10922 + 10880 ≤ i) → s'.mem i ≡ s.mem i

print-IsWritten :
    (s : Screens) (n ch : ℕ)
    → IsReady s n
    → CanPrint (s.console_table n) ch
    → (s' : Screens) × (print s n ch ≡ ok s') × IsWritten s s' n
unfolding print
print-IsWritten s n ch h can =
    let (v, returns, at) = out_char-IsPrinted (video s n) ch h.con h.shown can in
    (store s n v, rw returns refl, written v at)
  where
    written : (v : Video) → IsPrinted (video s n) v → IsWritten s (store s n v) n
    written v at = record {
      ready = record {
        con = subst IsConsole (sym (update_self s.console_table n v.con)) at.con;
        shown = ap is_shown (update_self s.console_table n v.con) ∙ at.shown;
        orig = ap (λ c. c.orig) (update_self s.console_table n v.con) ∙ at.orig ∙ h.orig;
      };
      others = λ m ne. update_ne s.console_table n m v.con (λ e. ne (sym e));
      current = refl;
      disp_pos = refl;
      elsewhere = λ i away. at.elsewhere i (omega (arith, h.orig));
    }

-- No character of the list is '\b'.
abbrev pub no_erase : List ℕ → Bool
no_erase [] = true
no_erase (ch ∷ chs) = not (ch == 8) && no_erase chs

-- Printing a text without '\b' on a console whose cursor is on the screen returns; the cursor is
-- on the screen again, and the other consoles, the current console and the video memory outside
-- the console's region are as they were.
pub print_all-IsWritten :
    (s : Screens) (n : ℕ) (chs : List ℕ)
    → IsReady s n
    → no_erase chs ≡ true
    → (s' : Screens) × (print_all s n chs ≡ ok s') × IsWritten s s' n
unfolding print_all
print_all-IsWritten s n [] h none_of = (
  s,
  refl,
  record {
    ready = h;
    others = λ _ _. refl;
    current = refl;
    disp_pos = refl;
    elsewhere = λ _ _. refl;
  },
)
print_all-IsWritten s n (ch ∷ chs) h none_of =
    let (s1, returns, at) = print-IsWritten s n ch h (λ e. elim (kept.0 e) [ ]) in
    let (s2, finally, after) = print_all-IsWritten s1 n chs at.ready kept.1 in
    (
      s2,
      rw returns finally,
      record {
        ready = after.ready;
        others = λ m ne. after.others m ne ∙ at.others m ne;
        current = after.current ∙ at.current;
        disp_pos = after.disp_pos ∙ at.disp_pos;
        elsewhere = λ i away. after.elsewhere i away ∙ at.elsewhere i away;
      },
    )
  where
    kept : (ch ≢ 8) × (no_erase chs ≡ true)
    kept = ground (arith, none_of)
