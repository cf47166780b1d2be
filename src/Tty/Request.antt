-- ===== src/Tty/Request.antt =====
-- What a terminal writes into the memory of the process that reads from it.
use native.Mathlib.Decide.{ℕ_discrete}
use kusa_os.Base.{
  ℕ, ◌+◌, ◌%◌, ◌≤◌, ◌<◌, ◌≡◌, ◌≢◌, refl, ◌∙◌, ◌⊎◌, inl, inr, arith, true, not, ◌&&◌, ◌||◌,
  Bool-cases, List, [], ◌∷◌, ◌==◌, ==_iff, update_ne, ne→==,
}
use kusa_os.Tty.{Line, is_printable, type_char, finish_line, echo_key, tty_do_read}
use kusa_os.Tty.Ring.{echo_all}

-- A request for `n` characters at `buf`: what is left and what has been given are `n` together,
-- until the request is over.
pub record IsServing (n buf : ℕ) (mem : ℕ → ℕ) (l : Line) : Type 0 where
  pub at : l.tty_req_buf ≡ buf
  pub total : (l.tty_left_cnt ≡ 0) ⊎ (l.tty_trans_cnt + l.tty_left_cnt ≡ n)
  pub outside : (x : ℕ) → (x < buf) ⊎ (buf + n ≤ x) → l.mem x ≡ mem x

type_char-IsServing :
    (n buf : ℕ) (mem : ℕ → ℕ) (l : Line) (ch : ℕ)
    → IsServing n buf mem l
    → 1 ≤ l.tty_left_cnt
    → l.tty_trans_cnt + l.tty_left_cnt ≡ n
    → IsServing n buf mem (type_char l ch)
type_char-IsServing n buf mem l ch h pos total = elim (Bool-cases (is_printable ch)) [
  | inl p ↦ rw p (record {
    at = h.at;
    total = inr (omega arith);
    outside = λ x out.
        update_ne l.mem (l.tty_req_buf + l.tty_trans_cnt) x ch (omega (arith, out, h.at))
        ∙ h.outside x out;
  })
  | inr p ↦ elim (Bool-cases ((ch == 8) && not (l.tty_trans_cnt == 0))) [
    | inl q ↦
        rw (p, q) (record { at = h.at; total = inr (omega (arith, given q)); outside = h.outside })
    | inr q ↦ rw (p, q) h
  ]
]
  where
    given : ((ch == 8) && not (l.tty_trans_cnt == 0)) ≡ true → 1 ≤ l.tty_trans_cnt
    given q = ground arith

finish_line-IsServing :
    (n buf : ℕ) (mem : ℕ → ℕ) (l : Line) (ch : ℕ)
    → IsServing n buf mem l
    → IsServing n buf mem (finish_line l ch)
finish_line-IsServing n buf mem l ch h = elim (Bool-cases ((ch == 10) || (l.tty_left_cnt == 0))) [
  | inl q ↦ rw q (record { at = h.at; total = inl refl; outside = h.outside })
  | inr q ↦ rw q h
]

echo_key-IsServing :
    (n buf : ℕ) (mem : ℕ → ℕ) (l : Line) (key : ℕ)
    → IsServing n buf mem l
    → IsServing n buf mem (echo_key l key)
unfolding echo_key
echo_key-IsServing n buf mem l key h = elim (ℕ_discrete l.tty_left_cnt 0) [
  | yes q ↦ rw ((==_iff l.tty_left_cnt 0).1 q) h
  | no ne ↦ rw (ne→== l.tty_left_cnt 0 ne) (
      finish_line-IsServing n buf mem (type_char l (key % 256)) (key % 256)
        (type_char-IsServing n buf mem l (key % 256) h (omega (arith, ne)) (counted h.total ne)))
]
  where
    counted :
        (l.tty_left_cnt ≡ 0) ⊎ (l.tty_trans_cnt + l.tty_left_cnt ≡ n)
        → l.tty_left_cnt ≢ 0
        → l.tty_trans_cnt + l.tty_left_cnt ≡ n
    counted (inl z) ne = absurd (ne z)
    counted (inr e) ne = e

echo_all-IsServing :
    (n buf : ℕ) (mem : ℕ → ℕ) (l : Line) (ks : List ℕ)
    → IsServing n buf mem l
    → IsServing n buf mem (echo_all l ks)
unfolding echo_all
echo_all-IsServing n buf mem l [] h = h
echo_all-IsServing n buf mem l (key ∷ ks) h =
    echo_all-IsServing n buf mem (echo_key l key) ks (echo_key-IsServing n buf mem l key h)

-- After tty_do_read() for `n` characters at `buf`, whatever keys are typed: no byte outside the
-- `n` bytes at `buf` is written, and while the request is not over, the characters given and
-- the characters left are `n` together.
pub tty_do_read-IsServing :
    (l : Line) (source procnr buf n : ℕ) (ks : List ℕ)
    → IsServing n buf l.mem (echo_all (tty_do_read l source procnr buf n) ks)
tty_do_read-IsServing l source procnr buf n ks =
    echo_all-IsServing n buf l.mem (tty_do_read l source procnr buf n) ks
      (record { at = refl; total = inr (omega arith); outside = λ x out. refl })
