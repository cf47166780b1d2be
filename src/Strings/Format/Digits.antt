-- ===== src/Strings/Format/Digits.antt =====
-- i2a() of lib/vsprintf.c, and reading the number back.
use kusa_os.Base.{
  ℕ, zero, suc, ◌+◌, ◌-◌, ◌*◌, ◌/◌, ◌%◌, ◌<◌, ◌≤◌, ◌≡◌, ◌≢◌, refl, sym, ap, ◌∙◌, inl, inr, arith,
  Bool, Bool-cases, true, false, List, [], ◌∷◌, ◌++◌, ltb, leb, ◌==◌, ==_iff, ne→==, if◌then◌else◌,
}
use native.Mathlib.Decide.{ℕ_discrete}
use native.Mathlib.Nat.{mul-le-mul_left}
use kusa_os.Strings.Format.{i2a_from, i2a_char}

-- The digit that a character stands for
abbrev pub digit : ℕ → ℕ
digit c = if ltb c 58 then c - 48 else c - 65 + 10

-- The number that a string of digits stands for, behind the number `acc`
pub read : ℕ → ℕ → List ℕ → ℕ
read base acc [] = acc
read base acc (c ∷ cs) = read base (acc * base + digit c) cs

read-append :
    (base acc : ℕ) (cs : List ℕ) (c : ℕ)
    → read base acc (cs ++ (c ∷ [])) ≡ read base acc cs * base + digit c
unfolding read
read-append base acc [] c = refl
read-append base acc (x ∷ cs) c = read-append base (acc * base + digit x) cs c

digit-i2a_char : (m : ℕ) → m < 17 → digit (i2a_char false m) ≡ m
digit-i2a_char m h = ground arith

module _ (base : ℕ) (low : 2 ≤ base) (high : base ≤ 16) where
  back : (val : ℕ) → val / base * base + val % base ≡ val
  back val = omega arith

  quotient : (val f : ℕ) → val < suc f → val / base ≢ 0 → val / base < f
  quotient val f h ne = omega (arith, back val, mul-le-mul_left (val / base) low)

  rest_small : (val : ℕ) → val % base < base
  rest_small val = omega arith

  pub i2a_from-read : (f val : ℕ) → val < f → read base 0 (i2a_from f false val base) ≡ val
  unfolding i2a_from read
  i2a_from-read zero val h = elim h [ ]
  i2a_from-read (suc f) val h = elim (ℕ_discrete (val / base) 0) [
    | yes e ↦ rw ((==_iff (val / base) 0).1 e) (
        ap (λ x. 0 * base + x) (digit-i2a_char (val % base) (omega (arith, rest_small val)))
        ∙ whole e)
    | no ne ↦ rw (ne→== (val / base) 0 ne) (
        read-append base 0 (i2a_from f false (val / base) base) (i2a_char false (val % base))
        ∙ ap (λ x. x * base + digit (i2a_char false (val % base)))
            (i2a_from-read f (val / base) (quotient val f h ne))
        ∙ ap (λ x. val / base * base + x)
            (digit-i2a_char (val % base) (omega (arith, rest_small val)))
        ∙ back val)
  ]
    where
      whole : val / base ≡ 0 → 0 * base + val % base ≡ val
      whole e = sym (ap (λ x. x * base + val % base) e) ∙ back val

-- The first character is a digit or a letter.
abbrev pub starts : List ℕ → Bool
starts [] = false
starts (c ∷ cs) = leb 48 c

starts-append : (cs : List ℕ) (c : ℕ) → starts cs ≡ true → starts (cs ++ (c ∷ [])) ≡ true
starts-append [] c h = ground (arith, h)
starts-append (x ∷ cs) c h = h

i2a_char-starts : (m : ℕ) → leb 48 (i2a_char false m) ≡ true
i2a_char-starts m = ground arith

pub i2a_from-starts : (f val base : ℕ) → starts (i2a_from (suc f) false val base) ≡ true
unfolding i2a_from
i2a_from-starts zero val base = elim (Bool-cases (val / base == 0)) [
  | inl e ↦ rw e (i2a_char-starts (val % base))
  | inr e ↦ rw e (i2a_char-starts (val % base))
]
i2a_from-starts (suc f) val base = elim (Bool-cases (val / base == 0)) [
  | inl e ↦ rw e (i2a_char-starts (val % base))
  | inr e ↦ rw e (
      starts-append (i2a_from (suc f) false (val / base) base) (i2a_char false (val % base))
        (i2a_from-starts f (val / base) base))
]
