-- ===== src/Strings/Format/Print.antt =====
-- vsprintf() of lib/vsprintf.c on a directive that prints an integer.
use kusa_os.Base.{
  ℕ, zero, suc, ◌+◌, ◌-◌, ◌*◌, ◌<◌, ◌≤◌, ◌≡◌, refl, ap, ◌∙◌, arith, true, false, List, [], ◌∷◌,
  ◌++◌, ok, ◌==◌, ne→==, if◌then◌else◌,
}
use kusa_os.Kernel.Signed.{ℤ, pos, negsuc}
use kusa_os.Strings.Format.{i2a, i2a_from, int, length, decimal, repeat, padded, is_digit, vsprintf}
use kusa_os.Strings.Format.Digits.{read, i2a_from-read, starts, i2a_from-starts}

abbrev minus : ℕ → ℤ
minus zero = pos 0
minus (suc n) = negsuc n

-- The integer that a string of decimal digits, with a '-' before it or not, stands for
pub read_int : List ℕ → ℤ
read_int [] = pos 0
read_int (c ∷ cs) = if c == 45 then minus (read 10 0 cs) else pos (read 10 0 (c ∷ cs))

pub drop_spaces : List ℕ → List ℕ
drop_spaces [] = []
drop_spaces (c ∷ cs) = if c == 32 then drop_spaces cs else c ∷ cs

-- Every int but the least
abbrev pub IsInt : ℤ → Type 0
IsInt (pos n) = n < 2147483648
IsInt (negsuc n) = n < 2147483647

read_int-digits : (cs : List ℕ) → starts cs ≡ true → read_int cs ≡ pos (read 10 0 cs)
unfolding read_int
read_int-digits [] h = ground (arith, h)
read_int-digits (c ∷ cs) h = rw (other) refl
  where
    other : (c == 45) ≡ false
    other = ground (arith, h)

drop_spaces-digits : (cs : List ℕ) → starts cs ≡ true → drop_spaces cs ≡ cs
unfolding drop_spaces
drop_spaces-digits [] h = refl
drop_spaces-digits (c ∷ cs) h = rw (other) refl
  where
    other : (c == 32) ≡ false
    other = ground (arith, h)

drop_spaces-repeat : (k : ℕ) (cs : List ℕ) → drop_spaces (repeat k 32 ++ cs) ≡ drop_spaces cs
unfolding drop_spaces
drop_spaces-repeat zero cs = refl
drop_spaces-repeat (suc k) cs = drop_spaces-repeat k cs

decimal-negative :
    (n : ℕ) → n < 2147483647 → decimal (negsuc n) ≡ 45 ∷ i2a_from (suc (suc n)) false (suc n) 10
unfolding i2a
decimal-negative n h = rw (ne→== n 2147483647 (λ e. ground (arith, h, e))) refl

decimal-read : (m : ℤ) → IsInt m → read_int (drop_spaces (decimal m)) ≡ m
unfolding i2a read_int drop_spaces
decimal-read (pos n) h =
    ap read_int (drop_spaces-digits (i2a_from (suc n) false n 10) (i2a_from-starts n n 10))
    ∙ read_int-digits (i2a_from (suc n) false n 10) (i2a_from-starts n n 10)
    ∙ ap pos (i2a_from-read 10 (omega arith) (omega arith) (suc n) n (omega arith))
decimal-read (negsuc n) h = ap (λ cs. read_int (drop_spaces cs)) (decimal-negative n h) ∙ negative
  where
    negative : read_int (drop_spaces (45 ∷ i2a_from (suc (suc n)) false (suc n) 10)) ≡ negsuc n
    negative =
        ap minus (i2a_from-read 10 (omega arith) (omega arith) (suc (suc n)) (suc n) (omega arith))

append-nil : (cs : List ℕ) → cs ++ [] ≡ cs
append-nil [] = refl
append-nil (c ∷ cs) = ap (λ t. c ∷ t) (append-nil cs)

length-repeat : (k c : ℕ) (cs : List ℕ) → length (repeat k c ++ cs) ≡ k + length cs
length-repeat zero c cs = omega arith
length-repeat (suc k) c cs = omega (arith, length-repeat k c cs)

-- vsprintf() with the format "%<w>d", for a width w from 1 to 9, and any int but the least one:
-- it returns, what it writes is at least w characters long, and behind the spaces stands the
-- number in decimal.
pub vsprintf-read_int :
    (w : ℕ) (m : ℤ)
    → 1 ≤ w
    → w ≤ 9
    → IsInt m
    → (out : List ℕ) × (vsprintf (37 ∷ (48 + w) ∷ 100 ∷ []) (int m ∷ []) ≡ ok out)
      × (w ≤ length out)
      × (read_int (drop_spaces out) ≡ m)
unfolding vsprintf
vsprintf-read_int w m low high h = (
  padded 32 w (decimal m),
  rw (n37, n48, dig, num, append-nil (padded 32 w (decimal m))) refl,
  omega (arith, length-repeat (w - length (decimal m)) 32 (decimal m)),
  ap read_int (drop_spaces-repeat (w - length (decimal m)) (decimal m)) ∙ decimal-read m h,
)
  where
    n37 : (48 + w == 37) ≡ false
    n37 = ground arith

    n48 : (48 + w == 48) ≡ false
    n48 = ground arith

    dig : is_digit (48 + w) ≡ true
    dig = ground arith

    num : 0 * 10 + (48 + w - 48) ≡ w
    num = omega arith
