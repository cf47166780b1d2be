-- ===== src/Klib/Itoa.antt =====
-- itoa() of kernel/klib.c and i2a() of lib/vsprintf.c.
use mathlib.Core.Path.{subst}
use kusa_os.Base.{
  ℕ, zero, suc, ◌/◌, ◌%◌, ◌^◌, ◌<◌, ◌≡◌, ◌≢◌, refl, sym, ap, ◌∙◌, inl, inr, arith, Bool-cases, true,
  false, List, [], ◌∷◌, ◌++◌, ltb, ◌==◌, ==_iff, ne→==, lt→ltb, if◌then◌else◌,
}
use native.Mathlib.Decide.{ℕ_discrete}
use kusa_os.Kernel.Signed.{pos}
use kusa_os.Strings.Format.{i2a_from, i2a_char, i2a}
use kusa_os.Klib.{shr, itoa_char, digits_from, itoa}

-- One more digit behind those of a number; a number without digits is 0.
unfoldable with_digit : List ℕ → ℕ → List ℕ
with_digit [] d = if ltb 0 d then itoa_char d ∷ [] else []
with_digit (c ∷ cs) d = (c ∷ cs) ++ (itoa_char d ∷ [])

digits_after :
    (k num : ℕ)
    → digits_from (suc k) true num ≡ digits_from k true (num / 16) ++ (itoa_char (num % 16) ∷ [])
unfolding digits_from shr
digits_after zero num = refl
digits_after (suc k) num = ap (λ cs. itoa_char (shr k (num / 16) % 16) ∷ cs) (digits_after k num)

digits_last :
    (k num : ℕ)
    → digits_from (suc k) false num ≡ with_digit (digits_from k false (num / 16)) (num % 16)
unfolding digits_from shr with_digit
digits_last zero num = elim (Bool-cases (ltb 0 (num % 16))) [
  | inl e ↦ rw (e, digits_from) refl
  | inr e ↦ rw (e, digits_from) refl
]
digits_last (suc k) num = elim (Bool-cases (ltb 0 (shr k (num / 16) % 16))) [
  | inl e ↦
      rw (e, digits_from) (ap (λ cs. itoa_char (shr k (num / 16) % 16) ∷ cs) (digits_after k num))
  | inr e ↦ rw (e, digits_from) (digits_last k num)
]

shr-zero : (k : ℕ) → shr k 0 ≡ 0
unfolding shr
shr-zero zero = refl
shr-zero (suc k) = shr-zero k

digits-zero : (k : ℕ) → digits_from k false 0 ≡ []
unfolding digits_from
digits-zero zero = refl
digits-zero (suc k) = rw (shr-zero k, digits_from) (digits-zero k)

char-same : (d : ℕ) → d < 16 → itoa_char d ≡ i2a_char false d
char-same d lt = ground (arith, lt)

with_digit-append :
    (cs : List ℕ) (c d : ℕ) → with_digit (cs ++ (c ∷ [])) d ≡ (cs ++ (c ∷ [])) ++ (itoa_char d ∷ [])
unfolding with_digit
with_digit-append [] c d = refl
with_digit-append (x ∷ cs) c d = refl

-- With enough turns, the digits are those of i2a().
digits-i2a :
    (k f num : ℕ)
    → shr k num ≡ 0
    → num ≢ 0
    → num < f
    → digits_from k false num ≡ i2a_from f false num 16
unfolding shr i2a_from with_digit
digits-i2a zero f num small ne lt = elim (ne small) [ ]
digits-i2a (suc k) zero num small ne lt = elim lt [ ]
digits-i2a (suc k) (suc f) num small ne lt = digits_last k num ∙ elim (ℕ_discrete (num / 16) 0) [
  | yes e ↦
      ap (λ q. with_digit (digits_from k false q) (num % 16)) e
      ∙ ap (λ cs. with_digit cs (num % 16)) (digits-zero k)
      ∙ rw (lt→ltb 0 (num % 16) (omega (arith, e, ne)), (==_iff (num / 16) 0).1 e)
          (ap (λ c. c ∷ []) (char-same (num % 16) (omega arith)))
  | no more ↦
      ap (λ cs. with_digit cs (num % 16))
        (digits-i2a k f (num / 16) small more (omega (arith, lt, ne)))
      ∙ behind f (num / 16) (num % 16) (omega (arith, lt, ne))
      ∙ rw (ne→== (num / 16) 0 more) (
          ap (λ c. i2a_from f false (num / 16) 16 ++ (c ∷ [])) (char-same (num % 16) (omega arith)))
]
  where
    behind :
        (f q d : ℕ)
        → q < f
        → with_digit (i2a_from f false q 16) d ≡ i2a_from f false q 16 ++ (itoa_char d ∷ [])
    behind zero q d lt = elim lt [ ]
    behind (suc f) q d lt =
        with_digit-append (if q / 16 == 0 then [] else i2a_from f false (q / 16) 16)
          (i2a_char false (q % 16)) d

-- itoa() of kernel/klib.c and i2a() of lib/vsprintf.c with the base 16 agree: for every number of
-- 32 bits, itoa() writes "0x" and then the digits that i2a() writes.
pub itoa-i2a : (num : ℕ) → num < 2 ^ 32 → itoa num ≡ 48 ∷ 120 ∷ i2a (pos num) 16
unfolding itoa i2a shr i2a_from
itoa-i2a num lt = elim (ℕ_discrete num 0) [
  | yes e ↦ subst (λ n. itoa n ≡ 48 ∷ 120 ∷ i2a (pos n) 16) (sym e) refl
  | no ne ↦
      rw (ne→== num 0 ne)
        (ap (λ cs. 48 ∷ 120 ∷ cs) (digits-i2a 8 (suc num) num (omega (arith, lt)) ne (omega arith)))
]
