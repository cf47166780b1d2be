-- ===== src/Strings.antt =====
-- strcmp() and memcmp() of lib/misc.c and strcpy() of lib/string.asm, on memory. A char is signed:
-- a byte from 128 on is negative. strcmp() and strcpy() run on fuel, one step for each character;
-- the length of a string and one more are enough.
pub mod Compare
pub mod Format
pub mod Copy
use kusa_os.Base.{
  ℕ, zero, suc, ◌+◌, ◌-◌, Bool, true, false, not, ◌&&◌, ◌||◌, Result, ok, err, Fault, ltb, ◌==◌,
  if◌then◌else◌, update,
}
use kusa_os.Kernel.Signed.{ℤ, pos, negsuc, sub_ℕ, ◌-ℤ◌}

abbrev pub char : ℕ → ℤ
char b = if ltb b 128 then pos b else negsuc (255 - b)

abbrev pub difference : ℕ → ℕ → ℤ
difference a b = char a -ℤ char b

-- The loop of memcmp()
unfoldable pub memcmp_from : ℕ → (ℕ → ℕ) → ℕ → ℕ → ℤ
memcmp_from zero mem p1 p2 = pos 0
memcmp_from (suc n) mem p1 p2 = elim (mem p1 == mem p2) [
  | true ↦ memcmp_from n mem (p1 + 1) (p2 + 1)
  | false ↦ difference (mem p1) (mem p2)
]

unfoldable pub memcmp : (ℕ → ℕ) → ℕ → ℕ → ℕ → ℤ
unfolding memcmp_from
memcmp mem s1 s2 n = if (s1 == 0) || (s2 == 0) then sub_ℕ s1 s2 else memcmp_from n mem s1 s2

abbrev pub goes_on : ℕ → ℕ → Bool
goes_on a b = not (a == 0) && (not (b == 0) && (a == b))

-- The loop of strcmp(), and the difference that it returns.
unfoldable pub strcmp_from : ℕ → (ℕ → ℕ) → ℕ → ℕ → Result ℤ
strcmp_from zero mem p1 p2 = err Fault.spins
strcmp_from (suc f) mem p1 p2 = elim (goes_on (mem p1) (mem p2)) [
  | true ↦ strcmp_from f mem (p1 + 1) (p2 + 1)
  | false ↦ ok (difference (mem p1) (mem p2))
]

unfoldable pub strcmp : ℕ → (ℕ → ℕ) → ℕ → ℕ → Result ℤ
unfolding strcmp_from
strcmp f mem s1 s2 = if (s1 == 0) || (s2 == 0) then ok (sub_ℕ s1 s2) else strcmp_from f mem s1 s2

-- The memory after; the address that strcpy() returns is the first one.
unfoldable pub strcpy : ℕ → ℕ → ℕ → (ℕ → ℕ) → Result (ℕ → ℕ)
strcpy zero dst src mem = err Fault.spins
strcpy (suc f) dst src mem = elim (mem src == 0) [
  | true ↦ ok (update mem dst (mem src))
  | false ↦ strcpy f (dst + 1) (src + 1) (update mem dst (mem src))
]
