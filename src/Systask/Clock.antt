-- ===== src/Systask/Clock.antt =====
-- get_rtc_time() of kernel/systask.c: the time that the clock shows.
use Prim.Native.Nat.{bit_and}
use kusa_os.Base.{ℕ, ◌+◌, ◌*◌, ◌/◌, ◌%◌, ◌<◌, ◌≡◌, refl, ap, ◌∙◌, Bool, true, ◌==◌, ==_iff}
use kusa_os.Base.Tests.{all_below, all_below_at}
use kusa_os.Systask.{Time, bcd_to_dec, each, registers, get_rtc_time}

-- Two decimal digits, each in four bits
abbrev pub bcd : ℕ → ℕ
bcd n = n / 10 * 16 + n % 10

good : ℕ → Bool
good n = bcd_to_dec (bcd n) == n

table : all_below 100 good ≡ true
unfolding all_below good
table = refl

bcd_to_dec-bcd : (n : ℕ) → n < 100 → bcd_to_dec (bcd n) ≡ n
unfolding good
bcd_to_dec-bcd n lt = (==_iff (bcd_to_dec (bcd n)) n).0 (all_below_at 100 good n table lt)

-- Every field has two digits.
pub record IsShort (t : Time) : Type 0 where
  pub year : t.year < 100
  pub month : t.month < 100
  pub day : t.day < 100
  pub hour : t.hour < 100
  pub minute : t.minute < 100
  pub second : t.second < 100

same_fields :
    (t u : Time)
    → t.year ≡ u.year
    → t.month ≡ u.month
    → t.day ≡ u.day
    → t.hour ≡ u.hour
    → t.minute ≡ u.minute
    → t.second ≡ u.second
    → t ≡ u
same_fields t u y mo d h mi s =
    λ i. record { year = y i; month = mo i; day = d i; hour = h i; minute = mi i; second = s i }

-- Where the clock counts in BCD, as bit 2 of its status register says, get_rtc_time() returns the
-- time whose fields, of two digits each, the registers show, with 2000 added to the year.
pub get_rtc_time-bcd :
    (read_register : ℕ → ℕ) (t : Time)
    → bit_and (read_register 0x0B) 4 ≡ 0
    → registers read_register ≡ each bcd t
    → IsShort t
    → get_rtc_time read_register ≡ record t { year = t.year + 2000 }
unfolding get_rtc_time
get_rtc_time-bcd read_register t mode shown short =
    rw ((==_iff (bit_and (read_register 0x0B) 4) 0).1 mode) (
      ap (λ r. record (each bcd_to_dec r) { year = (each bcd_to_dec r).year + 2000 }) shown
      ∙ same_fields _ (record t { year = t.year + 2000 })
          (ap (λ y. y + 2000) (bcd_to_dec-bcd t.year short.year))
          (bcd_to_dec-bcd t.month short.month) (bcd_to_dec-bcd t.day short.day)
          (bcd_to_dec-bcd t.hour short.hour) (bcd_to_dec-bcd t.minute short.minute)
          (bcd_to_dec-bcd t.second short.second))
