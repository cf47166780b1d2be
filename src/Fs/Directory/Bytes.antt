-- ===== src/Fs/Directory/Bytes.antt =====
-- Memory of bytes, and store_int() on it.
use kusa_os.Base.{ℕ, ◌+◌, ◌-◌, ◌/◌, ◌%◌, ◌^◌, ◌≤◌, ◌<◌, ◌≡◌, ◌⊎◌, arith, update}
use kusa_os.Kernel.Memory.{load_int, store_int}
use kusa_os.Fs.Transfer.{overlay}

abbrev pub IsBytes : (ℕ → ℕ) → Type 0
IsBytes f = (x : ℕ) → f x < 256

pub update-IsBytes : (f : ℕ → ℕ) (i a : ℕ) → IsBytes f → a < 256 → IsBytes (update f i a)
update-IsBytes f i a bytes lt x = ground (arith, bytes x, lt)

pub store_int-IsBytes : (a v : ℕ) (f : ℕ → ℕ) → IsBytes f → IsBytes (store_int a v f)
unfolding store_int
store_int-IsBytes a v f bytes =
    update-IsBytes _ (a + 3) (v / 16777216 % 256)
      (update-IsBytes _ (a + 2) (v / 65536 % 256)
        (update-IsBytes _ (a + 1) (v / 256 % 256) (update-IsBytes f a (v % 256) bytes (omega arith))
          (omega arith))
        (omega arith))
      (omega arith)

pub store_int-outside :
    (a v : ℕ) (f : ℕ → ℕ) (x : ℕ) → (x < a) ⊎ (a + 4 ≤ x) → store_int a v f x ≡ f x
unfolding store_int
store_int-outside a v f x h = ground (arith, h)

pub store_int-load : (a v : ℕ) (f : ℕ → ℕ) → v < 2 ^ 32 → load_int (store_int a v f) a ≡ v
unfolding store_int
store_int-load a v f lt = omega (arith, lt, b0, b1, b2, b3)
  where
    b0 : store_int a v f a ≡ v % 256
    b0 = ground arith

    b1 : store_int a v f (a + 1) ≡ v / 256 % 256
    b1 = ground arith

    b2 : store_int a v f (a + 2) ≡ v / 65536 % 256
    b2 = ground arith

    b3 : store_int a v f (a + 3) ≡ v / 16777216 % 256
    b3 = ground arith

pub overlay-IsBytes :
    (under over : ℕ → ℕ) (at n : ℕ)
    → IsBytes under
    → IsBytes over
    → IsBytes (overlay under at n over)
overlay-IsBytes under over at n low high x = ground (arith, low x, high (x - at))
