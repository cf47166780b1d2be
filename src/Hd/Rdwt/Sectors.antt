-- ===== src/Hd/Rdwt/Sectors.antt =====
-- The loop of hd_rdwt() in kernel/hd.c: what it moves, and when it ends.
use mathlib.Core.Path.{subst}
use kusa_os.Base.{
  ℕ, zero, suc, ◌+◌, ◌-◌, ◌*◌, ◌%◌, ◌≤◌, ◌<◌, ◌≡◌, refl, sym, ap, ◌∙◌, arith, Result, ok, err,
  Fault, true, false, leb,
}
use native.Mathlib.Decide.{dec_lt}
use kusa_os.Kernel.Signed.{pos, negsuc, sub_ℕ}
use kusa_os.Fs.Transfer.{Way, reading, writing, min}
use kusa_os.Fs.Transfer.Overlay.{overlay-chain, overlay-outside}
use kusa_os.Fs.Transfer.Moved.{moved_mem, moved_dev}
use kusa_os.Hd.Rdwt.{Moving, move_sector, move_from, is_answered}

-- `n` bytes between the buffer at `la` and the place `at` of the disk
pub record IsMoved (way : Way) (la at n : ℕ) (io io' : Moving) : Type 0 where
  pub mem : (x : ℕ) → io'.mem x ≡ moved_mem way io.mem io.dev la at n x
  pub dev : (x : ℕ) → io'.dev x ≡ moved_dev way io.mem io.dev la at n x

none_moved : (way : Way) (la at : ℕ) (io : Moving) → IsMoved way la at 0 io io
none_moved reading la at io = record {
  mem = λ x. sym (overlay-outside io.mem (λ a. io.dev (at + a)) la 0 x (omega arith));
  dev = λ x. refl;
}
none_moved writing la at io = record {
  mem = λ x. refl;
  dev = λ x. sym (overlay-outside io.dev (λ a. io.mem (la + a)) at 0 x (omega arith));
}

-- One sector, and then the rest
then_rest :
    (way : Way) (la s n : ℕ) (io io' : Moving)
    → IsMoved way (la + 512) ((s + 1) * 512) n (move_sector way la s 512 io) io'
    → IsMoved way la (s * 512) (512 + n) io io'
unfolding move_sector
then_rest reading la s n io io' rest = record {
  mem = λ x.
      overlay-chain io.mem (move_sector reading la s 512 io).mem io'.mem io.dev io.dev la (s * 512)
        512 n (la + 512) ((s + 1) * 512) (λ y. refl) (λ y. refl) refl (omega arith) x (rest.mem x);
  dev = rest.dev;
}
then_rest writing la s n io io' rest = record {
  mem = rest.mem;
  dev = λ x.
      overlay-chain io.dev (move_sector writing la s 512 io).dev io'.dev io.mem io.mem (s * 512) la
        512 n ((s + 1) * 512) (la + 512) (λ y. refl) (λ y. refl) (omega arith) refl x (rest.dev x);
}

answers : (way : Way) (l : ℕ) → 512 ≤ l → is_answered way l ≡ true
answers reading l h = refl
answers writing l h = ground (arith, h)

move_step :
    (way : Way) (b la s l : ℕ) (io : Moving)
    → 512 ≤ l
    → move_from way (suc b) la s (pos l) io
      ≡ move_from way b (la + 512) (s + 1) (pos (l - 512)) (move_sector way la s 512 io)
unfolding move_from
move_step way b la s zero io h = elim h [ ]
move_step way b la s (suc n) io h = rw (answers way (suc n) h, whole, left, move_from) refl
  where
    whole : min 512 (suc n) ≡ 512
    whole = ground (arith, h)

    left : sub_ℕ (suc n) 512 ≡ pos (suc n - 512)
    left = ground (arith, h)

-- With enough sectors from the drive, the loop ends and has moved all of them.
pub move_from-IsMoved :
    (n : ℕ) (way : Way) (b la s : ℕ) (io : Moving)
    → n ≤ b
    → (io' : Moving) × (move_from way b la s (pos (n * 512)) io ≡ ok io')
      × IsMoved way la (s * 512) (n * 512) io io'
unfolding move_from
move_from-IsMoved zero way zero la s io h = (io, refl, none_moved way la (s * 512) io)
move_from-IsMoved zero way (suc b) la s io h = (io, refl, none_moved way la (s * 512) io)
move_from-IsMoved (suc n) way zero la s io h = elim h [ ]
move_from-IsMoved (suc n) way (suc b) la s io h =
    let (io', returns, moved) =
      move_from-IsMoved n way b (la + 512) (s + 1) (move_sector way la s 512 io) (omega arith) in
    (
      io',
      move_step way b la s (suc n * 512) io (omega arith)
          ∙ ap (λ l. move_from way b (la + 512) (s + 1) (pos l) (move_sector way la s 512 io))
              (omega arith)
          ∙ returns,
      subst (λ l. IsMoved way la (s * 512) l io io') (omega arith)
          (then_rest way la s (n * 512) io io' moved),
    )

-- A part of a sector is never the end of the loop.
below_zero :
    (way : Way) (b la s n : ℕ) (io io' : Moving) → ¬ (move_from way b la s (negsuc n) io ≡ ok io')
unfolding move_from
below_zero way zero la s n io io' e = ground (arith, e)
below_zero way (suc b) la s n io io' e = ground (arith, e)

part_left :
    (way : Way) (b la s l : ℕ) (io io' : Moving)
    → l < 511
    → ¬ (move_from way (suc b) la s (pos (suc l)) io ≡ ok io')
unfolding move_from
part_left reading b la s l io io' lt e =
    below_zero reading b (la + 512) (s + 1) (512 - suc l - 1)
      (move_sector reading la s (min 512 (suc l)) io) io' (sym (rw (less, move_from) refl) ∙ e)
  where
    less : sub_ℕ (suc l) 512 ≡ negsuc (512 - suc l - 1)
    less = ground (arith, lt)
part_left writing b la s l io io' lt e = not_ok (sym (rw (short, move_from) refl) ∙ e)
  where
    short : leb 512 (suc l) ≡ false
    short = ground (arith, lt)

    not_ok : ◌≡◌ {A = Result Moving} (err Fault.spins) (ok io') → ⊥
    not_ok h = ground (arith, h)

-- Where the loop ends, there were whole sectors, and the drive had as many.
pub move_from-whole :
    (b : ℕ) (way : Way) (la s l : ℕ) (io io' : Moving)
    → move_from way b la s (pos l) io ≡ ok io'
    → (l % 512 ≡ 0) × (l ≤ b * 512)
unfolding move_from
move_from-whole b way la s zero io io' e = (refl, omega arith)
move_from-whole zero way la s (suc l) io io' e = ground (arith, e)
move_from-whole (suc b) way la s (suc l) io io' e = elim (dec_lt l 511) [
  | yes lt ↦ elim (part_left way b la s l io io' lt e) [ ]
  | no k ↦
      let (whole, most) =
        move_from-whole b way (la + 512) (s + 1) (suc l - 512) (move_sector way la s 512 io) io'
          (sym (move_step way b la s (suc l) io (omega (arith, k))) ∙ e) in
      (omega (arith, whole, k), omega (arith, most, k))
]
