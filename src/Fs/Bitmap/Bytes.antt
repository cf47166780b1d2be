-- ===== src/Fs/Bitmap/Bytes.antt =====
-- The bits of a byte, checked for every byte and every position.
use kusa_os.Base.{ℕ, ◌<◌, ◌≡◌, refl, arith, Bool, true, ◌&&◌, ltb, ◌==◌}
use kusa_os.Base.Tests.{all_below, all_below_at}
use kusa_os.Fs.Bitmap.{bit, set_bit, clear_bit, skip_ones}

-- The first clear bit of a byte that has one
good : ℕ → Bool
good b =
    let k = skip_ones 8 0 b in
    ltb k 8
    && (bit b k == 0)
    && (bit (set_bit b k) k == 1)
    && (clear_bit (set_bit b k) k == b)
    && ltb (set_bit b k) 256

table : all_below 255 good ≡ true
unfolding all_below good skip_ones
table = refl

abbrev pub IsGood : ℕ → ℕ → Type 0
IsGood b k =
    (k < 8)
    × (bit b k ≡ 0)
    × (bit (set_bit b k) k ≡ 1)
    × (clear_bit (set_bit b k) k ≡ b)
    × (set_bit b k < 256)

read-IsGood :
    (b k : ℕ)
    → (ltb k 8
        && (bit b k == 0)
        && (bit (set_bit b k) k == 1)
        && (clear_bit (set_bit b k) k == b)
        && ltb (set_bit b k) 256)
      ≡ true
    → IsGood b k
read-IsGood b k h = ground arith

pub first_clear : (b : ℕ) → b < 255 → IsGood b (skip_ones 8 0 b)
unfolding good
first_clear b h = read-IsGood b (skip_ones 8 0 b) (all_below_at 255 good b table h)
