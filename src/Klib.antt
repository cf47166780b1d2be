-- ===== src/Klib.antt =====
-- itoa() of kernel/klib.c. A string is the list of its characters, without the 0 at
-- its end.
pub mod Itoa
use kusa_os.Base.{
  ℕ, zero, suc, ◌+◌, ◌/◌, ◌%◌, Bool, true, false, ◌||◌, List, [], ◌∷◌, ltb, ◌==◌, if◌then◌else◌,
}

-- `num >> (4 * k)`
unfoldable pub shr : ℕ → ℕ → ℕ
shr zero num = num
shr (suc k) num = shr k (num / 16)

-- '0' is 48 and '9' is 57.
abbrev pub itoa_char : ℕ → ℕ
itoa_char ch = if ltb 57 (ch + 48) then ch + 48 + 7 else ch + 48

-- The loop, with the number of turns that are left and the flag that a digit has been written
unfoldable pub digits_from : ℕ → Bool → ℕ → List ℕ
digits_from zero flag num = []
digits_from (suc k) flag num = elim (flag || ltb 0 (shr k num % 16)) [
  | true ↦ itoa_char (shr k num % 16) ∷ digits_from k true num
  | false ↦ digits_from k flag num
]

-- The number is the word that the int is stored in; '0' and 'x' come first.
unfoldable pub itoa : ℕ → List ℕ
itoa num = 48 ∷ 120 ∷ (if num == 0 then 48 ∷ [] else digits_from 8 false num)
