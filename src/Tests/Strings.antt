-- ===== src/Tests/Strings.antt =====
-- Strings and memory at concrete addresses.
use kusa_os.Base.{List, [], ◌∷◌, ◌≤◌, ℕ, ◌+◌, ◌<◌, ◌≡◌, ◌↔◌, refl, arith, ok, if◌then◌else◌, ltb}
use kusa_os.Kernel.Signed.{ℤ, pos, negsuc}
use kusa_os.Strings.Format.{int, length, vsprintf}
use kusa_os.Strings.Format.Print.{read_int, drop_spaces, vsprintf-read_int}
use kusa_os.Strings.{strcmp}
use kusa_os.Strings.Compare.{Same, strcmp_iff}

-- Two strings of bytes 200, at 10 and at 20, which end at 15 and at 25
abbrev text : ℕ → ℕ
text x = if ltb x 15 then 200 else if ltb x 20 then 0 else if ltb x 25 then 200 else 0

text_bytes : (x : ℕ) → text x < 256
text_bytes x = ground arith

strcmp_iff_example : (r : ℤ) × (strcmp (5 + 1) text 10 20 ≡ ok r) × ((r ≡ pos 0) ↔ Same text 10 20)
strcmp_iff_example = strcmp_iff text 10 20 5 text_bytes refl (omega arith) (omega arith)

-- "%5d" of -42
vsprintf-read_int_example :
    (out : List ℕ) × (vsprintf (37 ∷ 53 ∷ 100 ∷ []) (int (negsuc 41) ∷ []) ≡ ok out)
    × (5 ≤ length out)
    × (read_int (drop_spaces out) ≡ negsuc 41)
vsprintf-read_int_example =
    vsprintf-read_int 5 (negsuc 41) (omega arith) (omega arith) (omega arith)

padded_run : vsprintf (37 ∷ 53 ∷ 100 ∷ []) (int (negsuc 41) ∷ []) ≡ ok (32 ∷ 32 ∷ 45 ∷ 52 ∷ 50 ∷ [])
unfolding vsprintf
padded_run = refl

-- "%x" of -1 does not print "FFFFFFFF".
hexadecimal_run : vsprintf (37 ∷ 120 ∷ []) (int (negsuc 0) ∷ []) ≡ ok (47 ∷ [])
unfolding vsprintf
hexadecimal_run = refl
