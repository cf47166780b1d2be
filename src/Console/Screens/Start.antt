-- ===== src/Console/Screens/Start.antt =====
-- init_screen() and select_console() of kernel/console.c, as task_tty() calls them.
use mathlib.Core.Path.{subst}
use kusa_os.Base.{
  ℕ, zero, suc, ◌<◌, ◌≡◌, ◌≢◌, refl, sym, ap, ◌∙◌, inl, inr, arith, true, false, ok, leb, ◌==◌,
  update, update_ne, update_self, update-same, Bool-cases,
}
use kusa_os.Kernel.Signed.{pos}
use kusa_os.Console.{is_shown}
use kusa_os.Console.Scroll.{IsConsole}
use kusa_os.Console.Show.{flush-con}
use kusa_os.Console.Screens.{
  Screens, video, fresh, greeted, print_all, init_console, set_cursor, init_screen, init_screens,
  select_console, prompt,
}
use kusa_os.Console.Screens.Ready.{IsReady, no_erase, print_all-IsWritten}

fresh-IsReady : (s : Screens) (n : ℕ) → s.disp_pos < 4000 → IsReady (fresh s n) n
fresh-IsReady s n h = record {
  con = subst IsConsole (sym at) (record {
    size = refl;
    low = omega arith;
    line = ground arith;
    high = omega arith;
    start = ground arith;
    end = ground arith;
    above = λ _. ground arith;
  });
  shown = ap is_shown at ∙ ground arith;
  orig = ap (λ c. c.orig) at;
}
  where
    at : update s.console_table n (init_console n s.disp_pos) n ≡ init_console n s.disp_pos
    at = update_self s.console_table n (init_console n s.disp_pos)

-- What init_screen() leaves
record IsStarted (s s' : Screens) (n : ℕ) : Type 0 where
  ready : IsReady s' n
  others : (m : ℕ) → m ≢ n → s'.console_table m ≡ s.console_table m
  disp_pos : s'.disp_pos < 4000

prompt-keeps : (n : ℕ) → no_erase (prompt n) ≡ true
prompt-keeps n = ground arith

greeted-first :
    (s : Screens) (n : ℕ) → (n == 0) ≡ true → greeted s n ≡ ok (record s { disp_pos = 0 })
greeted-first s n e = rw (e, greeted) refl

greeted-other : (s : Screens) (n : ℕ) → (n == 0) ≡ false → greeted s n ≡ print_all s n (prompt n)
greeted-other s n e = rw (e, greeted) refl

init_screen-IsStarted :
    (s : Screens) (n : ℕ)
    → s.disp_pos < 4000
    → (s' : Screens) × (init_screen s n ≡ ok s') × IsStarted s s' n
unfolding init_screen
init_screen-IsStarted s n h = elim (Bool-cases (n == 0)) [
  | inl e ↦ (
    record (fresh s n) {
      disp_pos = 0;
      crt = set_cursor s.crt (((fresh s n).console_table n).cursor);
    },
    rw (greeted-first (fresh s n) n e) refl,
    record {
      ready = record { con = r.con; shown = r.shown; orig = r.orig };
      others = apart;
      disp_pos = omega arith;
    },
  )
  | inr e ↦
      let (s', returns, at) = print_all-IsWritten (fresh s n) n (prompt n) r (prompt-keeps n) in
      (
        record s' { crt = set_cursor s'.crt ((s'.console_table n).cursor) },
        rw (greeted-other (fresh s n) n e ∙ returns) refl,
        record {
          ready = record { con = at.ready.con; shown = at.ready.shown; orig = at.ready.orig };
          others = λ m ne. at.others m ne ∙ apart m ne;
          disp_pos = omega (arith, at.disp_pos);
        },
      )
]
  where
    r : IsReady (fresh s n) n
    r = fresh-IsReady s n h

    apart : (m : ℕ) → m ≢ n → (fresh s n).console_table m ≡ s.console_table m
    apart m ne = update_ne s.console_table n m (init_console n s.disp_pos) (λ e. ne (sym e))

-- A console that is as it was
still :
    (s s' : Screens) (m : ℕ) → s'.console_table m ≡ s.console_table m → IsReady s m → IsReady s' m
still s s' m same r = record {
  con = subst IsConsole (sym same) r.con;
  shown = ap is_shown same ∙ r.shown;
  orig = ap (λ c. c.orig) same ∙ r.orig;
}

pub select_console-same :
    (s : Screens) (n m : ℕ) → (select_console s (pos n)).console_table m ≡ s.console_table m
unfolding select_console
select_console-same s n m = elim (Bool-cases (leb 3 n)) [
  | inl e ↦ rw (e, select_console) refl
  | inr e ↦
      rw (e, select_console)
        (ap (λ f. f m)
          (update-same s.console_table n _
            (sym (flush-con (video (record s { current_console = n }) n)))))
]

each-IsReady :
    (s0 s1 s2 : Screens)
    → IsReady s0 0
    → IsStarted s0 s1 1
    → IsStarted s1 s2 2
    → (n : ℕ) → n < 3
    → IsReady s2 n
each-IsReady s0 s1 s2 r0 at1 at2 zero lt =
    still s1 s2 0 (at2.others 0 (omega arith)) (still s0 s1 0 (at1.others 0 (omega arith)) r0)
each-IsReady s0 s1 s2 r0 at1 at2 (suc zero) lt =
    still s1 s2 1 (at2.others 1 (omega arith)) at1.ready
each-IsReady s0 s1 s2 r0 at1 at2 (suc (suc zero)) lt = at2.ready
each-IsReady s0 s1 s2 r0 at1 at2 (suc (suc (suc n))) lt = ground (arith, lt)

-- Where the loader has left less than 2000 characters, the start of the consoles returns, each of
-- the three consoles is in its own third of the video memory with its cursor on its screen, and
-- the first is the current one.
pub init_screens-IsReady :
    (s : Screens)
    → s.disp_pos < 4000
    → (s' : Screens) × (init_screens s ≡ ok s')
      × ((n : ℕ) → n < 3 → IsReady s' n)
      × (s'.current_console ≡ 0)
unfolding init_screens select_console
init_screens-IsReady s h =
    let (s0, ok0, at0) = init_screen-IsStarted s 0 h in
    let (s1, ok1, at1) = init_screen-IsStarted s0 1 at0.disp_pos in
    let (s2, ok2, at2) = init_screen-IsStarted s1 2 at1.disp_pos in
    (
      select_console s2 (pos 0),
      rw (ok0, ok1, ok2) refl,
      λ n lt.
          still s2 (select_console s2 (pos 0)) n (select_console-same s2 0 n)
            (each-IsReady s0 s1 s2 at0.ready at1 at2 n lt),
      refl,
    )
