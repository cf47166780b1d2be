-- ===== src/Strings/Format.antt =====
-- i2a() and vsprintf() of lib/vsprintf.c. A string is the list of its characters, without the 0
-- at its end; an argument is a word or the string that a word points to. What is written is the
-- result. An access outside an array or past the arguments is `wild`.
pub mod Digits
pub mod Print
use kusa_os.Base.{
  ℕ, zero, suc, ◌+◌, ◌-◌, ◌*◌, ◌/◌, ◌%◌, ◌^◌, Bool, true, false, not, ◌&&◌, ◌||◌, List, [], ◌∷◌,
  ◌++◌, Result, ok, err, Fault, ◌>>=◌, ◌>>◌, assert, ltb, leb, ◌==◌, if◌then◌else◌,
}
use kusa_os.Kernel.Signed.{ℤ, pos, negsuc}

-- '0' is 48 and 'A' is 65. The remainder of a negative number is not positive.
abbrev pub i2a_char : Bool → ℕ → ℕ
i2a_char true m = 48 - m
i2a_char false m = if ltb m 10 then m + 48 else m - 10 + 65

-- The characters for a number of magnitude `val`; `f` bounds the depth of the recursion.
unfoldable pub i2a_from : ℕ → Bool → ℕ → ℕ → List ℕ
i2a_from zero neg val base = []
i2a_from (suc f) neg val base =
    let rest = i2a_from f neg (val / base) base in
    (if val / base == 0 then [] else rest) ++ (i2a_char neg (val % base) ∷ [])

unfoldable pub i2a : ℤ → ℕ → List ℕ
unfolding i2a_from
i2a (pos n) base = i2a_from (suc n) false n base
i2a (negsuc n) base = i2a_from (suc (suc n)) true (suc n) base

pub data Arg : Type 0 where
  int : ℤ → Arg
  str : List ℕ → Arg

abbrev pub length : List ℕ → ℕ
length [] = 0
length (c ∷ cs) = suc (length cs)

-- STR_DEFAULT_LEN, the size of `inner_buf`
abbrev pub str_default_len : ℕ
str_default_len = 1024

-- A word as a char
abbrev pub low_byte : ℤ → ℕ
low_byte (pos n) = n % 256
low_byte (negsuc n) = 255 - n % 256

-- The case 'd': a negative number is multiplied by -1, which leaves the least int as it is.
abbrev pub decimal : ℤ → List ℕ
decimal (pos n) = i2a (pos n) 10
decimal (negsuc n) = 45 ∷ (if n == 2147483647 then i2a (negsuc n) 10 else i2a (pos (suc n)) 10)

-- The cases that take a word, and the case 's'
abbrev pub with_int : (ℤ → List ℕ) → List Arg → Result (List ℕ × List Arg)
with_int show [] = err Fault.wild
with_int show (int m ∷ args) = ok (show m, args)
with_int show (str s ∷ args) = err Fault.wild

abbrev pub with_str : List Arg → Result (List ℕ × List Arg)
with_str [] = err Fault.wild
with_str (int m ∷ args) = err Fault.wild
with_str (str s ∷ args) = if ltb (length s) str_default_len then ok (s, args) else err Fault.wild

-- The switch: what stands in `inner_buf`, and the arguments that are left. 'c' is 99, 'x' is 120,
-- 'd' is 100 and 's' is 115.
unfoldable pub convert : ℕ → List Arg → Result (List ℕ × List Arg)
unfolding i2a
convert c args =
    if c == 99
    then with_int (λ m. if low_byte m == 0 then [] else low_byte m ∷ []) args
    else if c == 120
    then with_int (λ m. i2a m 16) args
    else if c == 100
    then with_int decimal args
    else if c == 115
    then with_str args
    else ok ([], args)

-- `k` times the character `cs`
abbrev pub repeat : ℕ → ℕ → List ℕ
repeat zero cs = []
repeat (suc k) cs = cs ∷ repeat k cs

-- inner_buf, behind what fills it up to `align_nr` characters
abbrev pub padded : ℕ → ℕ → List ℕ → List ℕ
padded cs align_nr inner = repeat (align_nr - length inner) cs ++ inner

-- Where the loop stands in the format: between two directives, behind a '%', or in the width
-- `align_nr` of a directive that is filled up with `cs`.
pub data Mode : Type 0 where
  plain : Mode
  directive : Mode
  width : ℕ → ℕ → Mode

abbrev pub is_digit : ℕ → Bool
is_digit c = leb 48 c && leb c 57

-- One character of the format: what is written, where the loop stands then, and the arguments
abbrev pub in_width : ℕ → ℕ → ℕ → List Arg → Result (List ℕ × Mode × List Arg)
in_width cs align_nr c args =
    if is_digit c
    then ok ([], width cs (align_nr * 10 + (c - 48)), args)
    else (convert c args >>= λ done. ok (padded cs align_nr done.0, plain, done.1))

abbrev pub step : Mode → ℕ → List Arg → Result (List ℕ × Mode × List Arg)
step plain c args = if c == 37 then ok ([], directive, args) else ok (c ∷ [], plain, args)
step directive c args =
    if c == 37
    then ok (c ∷ [], plain, args)
    else if c == 48
    then ok ([], width 48 0, args)
    else in_width 32 0 c args
step (width cs align_nr) c args = in_width cs align_nr c args

-- A format that ends within a directive makes the loop go on behind its end.
unfoldable pub format_from : Mode → List ℕ → List Arg → Result (List ℕ)
unfolding convert
format_from plain [] args = ok []
format_from directive [] args = err Fault.wild
format_from (width cs align_nr) [] args = err Fault.wild
format_from mode (c ∷ fmt) args =
    step mode c args >>= λ done. format_from done.1 fmt done.2 >>= λ rest. ok (done.0 ++ rest)

unfoldable pub vsprintf : List ℕ → List Arg → Result (List ℕ)
unfolding format_from
vsprintf fmt args = format_from plain fmt args
