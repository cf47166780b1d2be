-- ===== src/Fs/Lseek.antt =====
-- do_lseek() of fs/open.c.
use kusa_os.Base.{
  ℕ, ◌≡◌, inl, inr, arith, false, ◌||◌, Bool-cases, ◌==◌, if◌then◌else◌, Option, none, some,
}
use kusa_os.Kernel.Signed.{ℤ, pos, negsuc, ◌+ℤ◌, ◌≤ℤ◌, ltb_ℤ}

-- The new position by `whence`; SEEK_SET, SEEK_CUR and SEEK_END are 1 to 3.
abbrev pub seek : ℤ → ℤ → ℤ → ℕ → Option ℤ
seek fd_pos f_size off whence =
    if whence == 1
    then some off
    else if whence == 2
    then some (fd_pos +ℤ off)
    else if whence == 3
    then some (f_size +ℤ off)
    else none

abbrev pub checked : ℤ → ℤ → Option ℤ → ℤ × ℤ
checked fd_pos f_size none = (negsuc 0, fd_pos)
checked fd_pos f_size (some p) =
    if ltb_ℤ f_size p || ltb_ℤ p (pos 0) then (negsuc 0, fd_pos) else (p, p)

-- What do_lseek() returns, and the position of the file after; -1 is `negsuc 0`.
unfoldable pub do_lseek : ℤ → ℤ → ℤ → ℕ → ℤ × ℤ
do_lseek fd_pos f_size off whence = checked fd_pos f_size (seek fd_pos f_size off whence)

checked-inside :
    (fd_pos f_size : ℤ) (o : Option ℤ)
    → pos 0 ≤ℤ fd_pos
    → fd_pos ≤ℤ f_size
    → (pos 0 ≤ℤ (checked fd_pos f_size o).1) × ((checked fd_pos f_size o).1 ≤ℤ f_size)
checked-inside fd_pos f_size none low high = (low, high)
checked-inside fd_pos f_size (some p) low high =
    elim (Bool-cases (ltb_ℤ f_size p || ltb_ℤ p (pos 0))) [
      | inl out ↦ rw out (low, high)
      | inr inside ↦ rw inside (not_below inside, not_above inside)
    ]
  where
    not_below : (ltb_ℤ f_size p || ltb_ℤ p (pos 0)) ≡ false → pos 0 ≤ℤ p
    not_below h = ground arith

    not_above : (ltb_ℤ f_size p || ltb_ℤ p (pos 0)) ≡ false → p ≤ℤ f_size
    not_above h = ground arith

-- do_lseek() never moves the position out of the file, whatever offset and whence it is given: a
-- position between 0 and the file's size stays there.
pub do_lseek-inside :
    (fd_pos f_size off : ℤ) (whence : ℕ)
    → pos 0 ≤ℤ fd_pos
    → fd_pos ≤ℤ f_size
    → (pos 0 ≤ℤ (do_lseek fd_pos f_size off whence).1)
      × ((do_lseek fd_pos f_size off whence).1 ≤ℤ f_size)
unfolding do_lseek
do_lseek-inside fd_pos f_size off whence low high =
    checked-inside fd_pos f_size (seek fd_pos f_size off whence) low high
