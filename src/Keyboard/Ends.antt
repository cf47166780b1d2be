-- ===== src/Keyboard/Ends.antt =====
-- keyboard_read() of kernel/keyboard.c: each turn of its loop takes a byte.
use mathlib.Core.Path.{subst}
use kusa_os.Base.{
  ℕ, zero, suc, ◌≤◌, ◌<◌, ◌≡◌, refl, ◌∙◌, ◌⊎◌, inl, inr, arith, Bool, Bool-cases, ==_iff, true,
  false, ◌||◌, List, [], ◌∷◌, ◌==◌, if◌then◌else◌,
}
use kusa_os.Keyboard.{
  Keyboard, KbInbuf, Scan, Outcome, done, waits, out_of_fuel, ◌then◌, left_over, number,
  get_byte_from_kb_buf, wait_byte, keyboard_handler,
}
use kusa_os.Keyboard.Scancodes.{
  match_pause, pause_bytes, print_screen, after_E0, parse, classify, read_key, is_make, hold, lock,
  pausebreak, printscreen,
}
use kusa_os.Keyboard.Read.{deliver, read_from, keyboard_read}

-- A routine that does not run out of fuel, with a result of a size below `n`
abbrev EndsBelow : {A : Type 0} → (A → ℕ) → ℕ → Outcome A → Type 0
EndsBelow size n (done a) = size a < n
EndsBelow size n waits = Unit
EndsBelow size n out_of_fuel = ⊥

then-EndsBelow :
    {A B : Type 0} (size : A → ℕ) (size' : B → ℕ) (n m : ℕ) (o : Outcome A) (k : A → Outcome B)
    → EndsBelow size n o
    → ((a : A) → size a < n → EndsBelow size' m (k a))
    → EndsBelow size' m (o then k)
then-EndsBelow size size' n m (done a) k h rest = rest a h
then-EndsBelow size size' n m waits k h rest = tt
then-EndsBelow size size' n m out_of_fuel k h rest = elim h [ ]

abbrev rest_of : ℕ × Keyboard → ℕ
rest_of r = left_over r.1

handler_count : (k : KbInbuf) (c : ℕ) → k.count ≡ 0 → (keyboard_handler k c).count ≡ 1
unfolding keyboard_handler
handler_count k c e = ground (arith, e)

wait_byte-EndsBelow :
    (s : Keyboard) (cs : List ℕ)
    → s.kb_in.count ≡ 0
    → EndsBelow rest_of (number cs) (wait_byte s cs)
wait_byte-EndsBelow s [] e = tt
wait_byte-EndsBelow s (c ∷ cs) e = omega (arith, handler_count s.kb_in c e)

get-EndsBelow : (s : Keyboard) → EndsBelow rest_of (left_over s) (get_byte_from_kb_buf s)
unfolding get_byte_from_kb_buf
get-EndsBelow s = elim (Bool-cases (s.kb_in.count == 0)) [
  | inl e ↦ rw e (
      subst (λ n. EndsBelow rest_of n (wait_byte s s.arriving)) (empty e)
        (wait_byte-EndsBelow s s.arriving ((==_iff s.kb_in.count 0).0 e)))
  | inr e ↦ rw e (omega (arith, some_bytes e))
]
  where
    empty : (s.kb_in.count == 0) ≡ true → number s.arriving ≡ left_over s
    empty e = omega (arith, (==_iff s.kb_in.count 0).0 e)

    some_bytes : (s.kb_in.count == 0) ≡ false → 0 < s.kb_in.count
    some_bytes e = ground arith

weaken :
    {A : Type 0} (size : A → ℕ) (n m : ℕ) (o : Outcome A)
    → n ≤ m
    → EndsBelow size n o
    → EndsBelow size m o
weaken size n m (done a) le h = omega (arith, h)
weaken size n m waits le h = tt
weaken size n m out_of_fuel le h = h

abbrev rest_at : Bool × Keyboard → ℕ
rest_at r = left_over r.1

match_pause-EndsBelow :
    (cs : List ℕ) (s : Keyboard) → EndsBelow rest_at (suc (left_over s)) (match_pause cs s)
unfolding match_pause
match_pause-EndsBelow [] s = omega arith
match_pause-EndsBelow (c ∷ cs) s =
    then-EndsBelow rest_of rest_at (left_over s) (suc (left_over s)) (get_byte_from_kb_buf s) _
      (get-EndsBelow s)
      λ r lt. elim (Bool-cases (r.0 == c)) [
        | inl e ↦ rw e (
            weaken rest_at (suc (left_over r.1)) (suc (left_over s)) (match_pause cs r.1)
              (omega (arith, lt)) (match_pause-EndsBelow cs r.1))
        | inr e ↦ rw e (omega (arith, lt))
      ]

abbrev rest_in : Scan → ℕ
rest_in c = left_over c.board

print_screen-EndsBelow :
    (last : ℕ) (pressed : Bool) (key : ℕ) (make : Bool) (s : Keyboard)
    → EndsBelow rest_in (left_over s) (print_screen last pressed key make s)
print_screen-EndsBelow last pressed key make s =
    then-EndsBelow rest_of rest_in (left_over s) (left_over s) (get_byte_from_kb_buf s) _
      (get-EndsBelow s)
      λ r lt. elim (Bool-cases (r.0 == 0xE0)) [
        | inl e ↦ rw e (
            then-EndsBelow rest_of rest_in (left_over r.1) (left_over s) (get_byte_from_kb_buf r.1)
              _ (get-EndsBelow r.1)
              λ t below. elim (Bool-cases (t.0 == last)) [
                | inl q ↦ rw q (omega (arith, lt, below))
                | inr q ↦ rw q (omega (arith, lt, below))
              ])
        | inr e ↦ rw e lt
      ]

after_E0-EndsBelow :
    (key : ℕ) (make : Bool) (s : Keyboard) → EndsBelow rest_in (left_over s) (after_E0 key make s)
after_E0-EndsBelow key make s =
    then-EndsBelow rest_of rest_in (left_over s) (left_over s) (get_byte_from_kb_buf s) _
      (get-EndsBelow s)
      λ r lt. elim (Bool-cases (r.0 == 0x2A)) [
        | inl e ↦ rw e (
            weaken rest_in (left_over r.1) (left_over s) _ (omega (arith, lt))
              (print_screen-EndsBelow 0x37 true key make r.1))
        | inr e ↦ rw e (elim (Bool-cases (r.0 == 0xB7)) [
          | inl q ↦ rw q (
              weaken rest_in (left_over r.1) (left_over s) _ (omega (arith, lt))
                (print_screen-EndsBelow 0xAA false key make r.1))
          | inr q ↦ rw q lt
        ])
      ]

parse-EndsBelow :
    (key : ℕ) (make : Bool) (s : Keyboard) → EndsBelow rest_in (left_over s) (parse key make s)
unfolding parse
parse-EndsBelow key make s =
    then-EndsBelow rest_of rest_in (left_over s) (left_over s) (get_byte_from_kb_buf s) _
      (get-EndsBelow s)
      λ r lt. elim (Bool-cases (r.0 == 0xE1)) [
        | inl e ↦ rw e (
            then-EndsBelow rest_at rest_in (suc (left_over r.1)) (left_over s)
              (match_pause pause_bytes r.1) _ (match_pause-EndsBelow pause_bytes r.1)
              λ m below. omega (arith, lt, below))
        | inr e ↦ rw e (elim (Bool-cases (r.0 == 0xE0)) [
          | inl q ↦ rw q (
              weaken rest_in (left_over r.1) (left_over s) _ (omega (arith, lt))
                (after_E0-EndsBelow key make r.1))
          | inr q ↦ rw q lt
        ])
      ]

-- What is done with a key takes no byte.
hold-left_over : (s : Keyboard) (key : ℕ) (make : Bool) → left_over (hold s key make) ≡ left_over s
hold-left_over s key make = ground arith

lock-left_over : (s : Keyboard) (key : ℕ) (make : Bool) → left_over (lock s key make) ≡ left_over s
lock-left_over s key make = ground arith

classify-left_over : (c : Scan) → left_over (classify c).board ≡ left_over c.board
unfolding classify
classify-left_over c = elim (Bool-cases ((c.key == pausebreak) || (c.key == printscreen))) [
  | inl e ↦ rw (e, classify) refl
  | inr e ↦
      rw (e, classify)
        (lock-left_over (hold c.board (read_key c) (is_make c)) (read_key c) (is_make c)
          ∙ hold-left_over c.board (read_key c) (is_make c))
]

deliver-left_over : (c : Scan) → left_over (deliver c).board ≡ left_over c.board
unfolding deliver
deliver-left_over c = elim (Bool-cases c.make) [
  | inl e ↦ rw (e, deliver) refl
  | inr e ↦ rw (e, deliver) refl
]

read_from-EndsBelow :
    (f key : ℕ) (make : Bool) (s : Keyboard)
    → left_over s < f
    → EndsBelow left_over (suc (left_over s)) (read_from f key make s)
unfolding read_from
read_from-EndsBelow zero key make s h = elim h [ ]
read_from-EndsBelow (suc f) key make s h = elim (Bool-cases (s.kb_in.count == 0)) [
  | inl e ↦ rw (e, read_from) (omega arith)
  | inr e ↦
      rw (e, read_from)
        (then-EndsBelow rest_in left_over (left_over s) (suc (left_over s)) (parse key make s) _
          (parse-EndsBelow key make s)
          λ c lt.
            weaken left_over (suc (left_over (deliver (classify c)).board)) (suc (left_over s))
              (read_from f (deliver (classify c)).key (deliver (classify c)).make
                (deliver (classify c)).board)
              (omega (arith, lt, deliver-left_over (classify c), classify-left_over c))
              (read_from-EndsBelow f (deliver (classify c)).key (deliver (classify c)).make
                (deliver (classify c)).board
                (omega (arith, lt, h, deliver-left_over (classify c), classify-left_over c))))
]

-- keyboard_read() takes a byte in each turn of its loop: with as many turns as there are bytes in
-- the buffer and still to arrive, and one more, it either ends or waits for a byte that does not
-- come.
pub keyboard_read-ends :
    (make : Bool) (s : Keyboard)
    → ((s' : Keyboard) × (keyboard_read make s ≡ done s') × (left_over s' ≤ left_over s))
      ⊎ (keyboard_read make s ≡ waits)
unfolding keyboard_read
keyboard_read-ends make s =
    ended (keyboard_read make s) (read_from-EndsBelow (suc (left_over s)) 0 make s (omega arith))
  where
    ended :
        (o : Outcome Keyboard)
        → EndsBelow left_over (suc (left_over s)) o
        → ((s' : Keyboard) × (o ≡ done s') × (left_over s' ≤ left_over s)) ⊎ (o ≡ waits)
    ended (done a) h = inl (a, refl, omega (arith, h))
    ended waits h = inr refl
    ended out_of_fuel h = elim h [ ]
