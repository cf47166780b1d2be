-- ===== src/Console/Screens/Writing.antt =====
-- tty_do_write() of kernel/tty.c, and what select_console() of kernel/console.c tells the
-- controller.
use mathlib.Core.Path.{fun_ext}
use native.Mathlib.Decide.{ℕ_discrete}
use kusa_os.Base.{
  ne→==, ==_iff, update-same, ℕ, zero, suc, ◌+◌, ◌-◌, ◌*◌, ◌<◌, ◌≤◌, ◌≡◌, ◌≢◌, refl, sym, ap, ◌∙◌,
  ◌⊎◌, arith, false, List, [], ◌∷◌, ◌++◌, Result, ok, err, ◌>>=◌, ltb, leb, if◌then◌else◌,
}
use kusa_os.Kernel.Signed.{pos}
use kusa_os.Kernel.Memory.{phys_copy, phys_copy-inside, phys_copy-outside}
use kusa_os.Console.{flush, set_crt}
use kusa_os.Console.Screens.{
  Screens, print, print_all, chars, write_chunks, tty_do_write, select_console,
}
use kusa_os.Console.Screens.Ready.{IsReady}

chars_same :
    (n : ℕ) (m m' : ℕ → ℕ) (p q : ℕ)
    → ((j : ℕ) → j < n → m (p + j) ≡ m' (q + j))
    → chars n m p ≡ chars n m' q
unfolding chars
chars_same zero m m' p q h = refl
chars_same (suc n) m m' p q h =
    ap (λ c. c ∷ chars n m (p + 1)) (ap m (omega arith) ∙ h 0 (omega arith) ∙ ap m' (omega arith))
    ∙ ap (λ cs. m' q ∷ cs)
        (chars_same n m m' (p + 1) (q + 1)
          λ j lt. ap m (omega arith) ∙ h (suc j) (omega arith) ∙ ap m' (omega arith))

print_all-append :
    (s : Screens) (n : ℕ) (xs ys : List ℕ)
    → print_all s n (xs ++ ys) ≡ (print_all s n xs >>= λ s'. print_all s' n ys)
unfolding print_all
print_all-append s n [] ys = refl
print_all-append s n (x ∷ xs) ys =
    elim (print s n x)
      as (λ r.
        (r >>= λ s'. print_all s' n (xs ++ ys))
        ≡ ((r >>= λ s'. print_all s' n xs) >>= λ s'. print_all s' n ys)) [
          | err e ↦ refl
          | ok s' ↦ print_all-append s' n xs ys
        ]

chars-append : (a b : ℕ) (m : ℕ → ℕ) (p : ℕ) → chars (a + b) m p ≡ chars a m p ++ chars b m (p + a)
unfolding chars
chars-append zero b m p = ap (λ k. chars k m p) (omega arith) ∙ ap (chars b m) (omega arith)
chars-append (suc a) b m p =
    ap (λ k. chars k m p) shift
    ∙ ap (λ cs. m p ∷ cs)
        (chars-append a b m (p + 1) ∙ ap (λ q. chars a m (p + 1) ++ chars b m q) (omega arith))
  where
    shift : suc a + b ≡ suc (a + b)
    shift = omega arith

-- A chunk of b characters, and what prints the k characters after it
chunk :
    (b k buf : ℕ) (user : ℕ → ℕ) (s : Screens) (n p : ℕ) (K : Screens → Result Screens)
    → b ≤ 2
    → (buf + 2 ≤ p) ⊎ (p + (b + k) ≤ buf)
    → ((s' : Screens) → K s' ≡ print_all s' n (chars k (phys_copy b buf p user) (p + b)))
    → (print_all s n (chars b (phys_copy b buf p user) buf) >>= K)
      ≡ print_all s n (chars (b + k) user p)
chunk b k buf user s n p K le apart rest =
    ap (λ F. print_all s n (chars b (phys_copy b buf p user) buf) >>= F)
      (fun_ext λ s'.
        rest s'
        ∙ ap (print_all s' n) (
            chars_same k _ user (p + b) (p + b)
              λ j lt. phys_copy-outside b buf p user (p + b + j) (omega arith)))
    ∙ ap (λ cs. print_all s n cs >>= λ s'. print_all s' n (chars k user (p + b)))
        (chars_same b _ user buf p λ j lt. phys_copy-inside b buf p user j (omega arith) lt)
    ∙ sym (print_all-append s n (chars b user p) (chars k user (p + b)))
    ∙ ap (print_all s n) (sym (chars-append b k user p))

write_chunks-print_all :
    (f buf : ℕ) (user : ℕ → ℕ) (s : Screens) (n p i : ℕ)
    → i < f
    → (buf + 2 ≤ p) ⊎ (p + i ≤ buf)
    → write_chunks f buf user s n p i ≡ print_all s n (chars i user p)
unfolding write_chunks
write_chunks-print_all zero buf user s n p i lt apart = elim lt [ ]
write_chunks-print_all (suc f) buf user s n p i lt apart = elim (ℕ_discrete i 0) [
  | yes e ↦ rw (e, write_chunks) refl
  | no ne ↦
      rw (ne→== i 0 ne, write_chunks)
        (chunk b (i - b) buf user s n p _ small (omega (arith, whole, apart)) (λ s'.
            write_chunks-print_all f buf (phys_copy b buf p user) s' n (p + b) (i - b)
              (omega (arith, whole, some_of ne)) (omega (arith, whole, apart)))
          ∙ ap (λ k. print_all s n (chars k user p)) whole)
]
  where
    b : ℕ
    b = if ltb 2 i then 2 else i

    small : b ≤ 2
    small = ground arith

    whole : b + (i - b) ≡ i
    whole = ground arith

    some_of : i ≢ 0 → 0 < b
    some_of ne = ground (arith, ne)

-- Two bytes at a time through its buffer, tty_do_write() prints what was in the caller's memory,
-- one character after another, where the buffer and the text do not overlap.
pub tty_do_write-print_all :
    (buf : ℕ) (user : ℕ → ℕ) (s : Screens) (n p cnt : ℕ)
    → (buf + 2 ≤ p) ⊎ (p + cnt ≤ buf)
    → tty_do_write buf user s n p cnt ≡ print_all s n (chars cnt user p)
unfolding tty_do_write
tty_do_write-print_all buf user s n p cnt apart =
    write_chunks-print_all (suc cnt) buf user s n p cnt (omega arith) apart

select_console-shape :
    (s : Screens) (n : ℕ)
    → n < 3
    → select_console s (pos n) ≡ record s { current_console = n; crt = set_crt (s.console_table n) }
unfolding select_console flush
select_console-shape s n lt =
    rw (past, (==_iff n n).1 refl, select_console)
      (ap
        (λ f. record s {
          console_table = f;
          current_console = n;
          crt = set_crt (s.console_table n);
        })
        (update-same s.console_table n (s.console_table n) refl))
  where
    past : leb 3 n ≡ false
    past = ground arith

-- Selecting one of the three consoles leaves every console as it was, makes it the current one,
-- and the controller's registers, read as a high and a low byte, are its cursor and the start of
-- its screen.
pub select_console-position :
    (s : Screens) (n : ℕ)
    → n < 3
    → IsReady s n
    → ((select_console s (pos n)).current_console ≡ n)
      × ((select_console s (pos n)).console_table ≡ s.console_table)
      × ((select_console s (pos n)).crt.cursor_h * 256 + (select_console s (pos n)).crt.cursor_l
          ≡ (s.console_table n).cursor)
      × ((select_console s (pos n)).crt.start_addr_h * 256
            + (select_console s (pos n)).crt.start_addr_l
          ≡ (s.console_table n).crtc_start)
select_console-position s n lt r =
    rw (select_console-shape s n lt)
      (refl, refl, ground (arith, r.con.end, r.orig), ground (arith, r.con.high, r.orig))
