-- ===== src/Fs/Transfer/Moved.antt =====
-- The loop of do_rdwt() in fs/read_write.c: what is moved between the caller and the device.
use mathlib.Core.Path.{fun_ext}
use mathlib.Core.Path.{subst}
use kusa_os.Base.{
  leb→le, ℕ, zero, suc, ◌+◌, ◌-◌, ◌*◌, ◌≤◌, ◌<◌, ◌≡◌, refl, sym, ap, ◌∙◌, ◌⊎◌, inl, inr, arith,
  Bool-cases, true, false, ok, leb,
}
use kusa_os.Fs.Transfer.{Way, reading, writing, Io, min, overlay, transfer, sectors_from, rw_sects}
use kusa_os.Fs.Transfer.Overlay.{overlay-window, overlay-chain, overlay-outside}

-- `n` bytes between the buffer of the caller at `to` and the device at `at`
abbrev pub moved_mem : Way → (ℕ → ℕ) → (ℕ → ℕ) → ℕ → ℕ → ℕ → ℕ → ℕ
moved_mem reading mem dev to at n = overlay mem to n (λ a. dev (at + a))
moved_mem writing mem dev to at n = mem

abbrev pub moved_dev : Way → (ℕ → ℕ) → (ℕ → ℕ) → ℕ → ℕ → ℕ → ℕ → ℕ
moved_dev reading mem dev to at n = dev
moved_dev writing mem dev to at n = overlay dev at n (λ a. mem (to + a))

pub record IsMoved (way : Way) (buf at n : ℕ) (io io' : Io) : Type 0 where
  pub mem : (x : ℕ) → io'.mem x ≡ moved_mem way io.mem io.dev (buf + io.bytes_rw) at n x
  pub dev : (x : ℕ) → io'.dev x ≡ moved_dev way io.mem io.dev (buf + io.bytes_rw) at n x
  pub bytes_rw : io'.bytes_rw ≡ io.bytes_rw + n
  pub fd_pos : io'.fd_pos ≡ io.fd_pos + n

-- One round moves as much as the chunk holds.
transfer-IsMoved :
    (way : Way) (buf chunk i : ℕ) (io : Io)
    → 0 < chunk
    → io.off < 512
    → IsMoved way buf
        (i * 512 + io.off)
        (min io.bytes_left (chunk * 512 - io.off))
        io
        (transfer way buf chunk i io)
unfolding transfer
transfer-IsMoved reading buf chunk i io some_sectors small = record {
  mem = λ x.
      ap (λ f. overlay io.mem (buf + io.bytes_rw) (min io.bytes_left (chunk * 512 - io.off)) f x)
        (fun_ext shifted);
  dev = λ x. refl;
  bytes_rw = refl;
  fd_pos = refl;
}
  where
    shifted : (a : ℕ) → io.dev (i * 512 + (io.off + a)) ≡ io.dev (i * 512 + io.off + a)
    shifted a = ap io.dev (omega arith)
transfer-IsMoved writing buf chunk i io some_sectors small = record {
  mem = λ x. refl;
  dev =
      overlay-window io.dev (λ a. io.mem (buf + io.bytes_rw + a)) (i * 512) (chunk * 512) io.off
        (min io.bytes_left (chunk * 512 - io.off)) (ground (arith, some_sectors, small));
  bytes_rw = refl;
  fd_pos = refl;
}

-- A round and then the rest
both :
    (way : Way) (buf at b c : ℕ) (io mid io' : Io)
    → IsMoved way buf at b io mid
    → IsMoved way buf (at + b) c mid io'
    → IsMoved way buf at (b + c) io io'
both reading buf at b c io mid io' first second = record {
  mem = λ x.
      overlay-chain io.mem mid.mem io'.mem io.dev mid.dev (buf + io.bytes_rw) at b c
        (buf + mid.bytes_rw) (at + b) first.mem first.dev (omega (arith, first.bytes_rw)) refl x
        (second.mem x);
  dev = λ x. second.dev x ∙ first.dev x;
  bytes_rw = omega (arith, first.bytes_rw, second.bytes_rw);
  fd_pos = omega (arith, first.fd_pos, second.fd_pos);
}
both writing buf at b c io mid io' first second = record {
  mem = λ x. second.mem x ∙ first.mem x;
  dev = λ x.
      overlay-chain io.dev mid.dev io'.dev io.mem mid.mem at (buf + io.bytes_rw) b c (at + b)
        (buf + mid.bytes_rw) first.dev first.mem refl (omega (arith, first.bytes_rw)) x
        (second.dev x);
  bytes_rw = omega (arith, first.bytes_rw, second.bytes_rw);
  fd_pos = omega (arith, first.fd_pos, second.fd_pos);
}

-- Nothing is left to move.
nothing : (way : Way) (buf at : ℕ) (io : Io) → IsMoved way buf at 0 io io
nothing reading buf at io = record {
  mem = λ x.
      sym (overlay-outside io.mem (λ a. io.dev (at + a)) (buf + io.bytes_rw) 0 x (omega arith));
  dev = λ x. refl;
  bytes_rw = omega arith;
  fd_pos = omega arith;
}
nothing writing buf at io = record {
  mem = λ x. refl;
  dev =
      λ x. sym (overlay-outside io.dev (λ a. io.mem (buf + io.bytes_rw + a)) at 0 x (omega arith));
  bytes_rw = omega arith;
  fd_pos = omega arith;
}

nothing_at :
    (way : Way) (buf at at' : ℕ) (io io' : Io)
    → IsMoved way buf at 0 io io'
    → IsMoved way buf at' 0 io io'
nothing_at reading buf at at' io io' h = record {
  mem = λ x.
      h.mem x
      ∙ overlay-outside io.mem (λ a. io.dev (at + a)) (buf + io.bytes_rw) 0 x (omega arith)
      ∙ (nothing reading buf at' io).mem x;
  dev = h.dev;
  bytes_rw = h.bytes_rw;
  fd_pos = h.fd_pos;
}
nothing_at writing buf at at' io io' h = record {
  mem = h.mem;
  dev = λ x.
      h.dev x
      ∙ overlay-outside io.dev (λ a. io.mem (buf + io.bytes_rw + a)) at 0 x (omega arith)
      ∙ (nothing writing buf at' io).dev x;
  bytes_rw = h.bytes_rw;
  fd_pos = h.fd_pos;
}

pub sectors_from-IsMoved :
    (f : ℕ) (way : Way) (buf chunk last i : ℕ) (io : Io)
    → 0 < chunk
    → leb chunk rw_sects ≡ true
    → io.off < 512
    → 0 < f
    → last + 1 < f + i
    → (io.bytes_left ≡ 0) ⊎ (i * 512 + io.off + io.bytes_left ≤ last * 512 + 512)
    → (io' : Io) × (sectors_from f way buf chunk last i io ≡ ok io')
      × IsMoved way buf (i * 512 + io.off) io.bytes_left io io'
unfolding sectors_from transfer
sectors_from-IsMoved zero way buf chunk last i io some_sectors few small more fuel room =
    elim more [ ]
sectors_from-IsMoved (suc f) way buf chunk last i io some_sectors few small more fuel room =
    elim (Bool-cases (leb i last)) [
      | inl e ↦
          let (io', returns, at) =
            sectors_from-IsMoved f way buf chunk last (i + chunk) mid some_sectors few (omega arith)
              (omega (arith, leb→le i last e)) (omega (arith, leb→le i last e)) room' in
          (
            io',
            rw (e, few, sectors_from) returns,
            whole io' (
                both way buf (i * 512 + io.off) b (io.bytes_left - b) io mid io'
                  (transfer-IsMoved way buf chunk i io some_sectors small) (goes_on io' at)),
          )
      | inr e ↦ (
        io,
        rw (e, sectors_from) refl,
        subst (λ n. IsMoved way buf (i * 512 + io.off) n io io) (sym (none_left e))
            (nothing way buf (i * 512 + io.off) io),
      )
    ]
  where
    b : ℕ
    b = min io.bytes_left (chunk * 512 - io.off)

    mid : Io
    mid = transfer way buf chunk i io

    cases : (io.bytes_left - b ≡ 0) ⊎ ((i + chunk) * 512 ≡ i * 512 + io.off + b)
    cases = ground (arith, some_sectors, small)

    b_le : b ≤ io.bytes_left
    b_le = ground arith

    room' : (mid.bytes_left ≡ 0) ⊎ ((i + chunk) * 512 + 0 + mid.bytes_left ≤ last * 512 + 512)
    room' = omega (arith, cases, room, b_le)

    goes_on :
        (io' : Io)
        → IsMoved way buf ((i + chunk) * 512 + 0) (io.bytes_left - b) mid io'
        → IsMoved way buf (i * 512 + io.off + b) (io.bytes_left - b) mid io'
    goes_on io' h = elim cases [
      | inl z ↦
          subst (λ n. IsMoved way buf (i * 512 + io.off + b) n mid io') (sym z)
            (nothing_at way buf ((i + chunk) * 512 + 0) (i * 512 + io.off + b) mid io'
              (subst (λ n. IsMoved way buf ((i + chunk) * 512 + 0) n mid io') z h))
      | inr q ↦ subst (λ p. IsMoved way buf p (io.bytes_left - b) mid io') (omega (arith, q)) h
    ]

    whole :
        (io' : Io)
        → IsMoved way buf (i * 512 + io.off) (b + (io.bytes_left - b)) io io'
        → IsMoved way buf (i * 512 + io.off) io.bytes_left io io'
    whole io' h = subst (λ n. IsMoved way buf (i * 512 + io.off) n io io') (omega (arith, b_le)) h

    none_left : leb i last ≡ false → io.bytes_left ≡ 0
    none_left e = omega (arith, room, not_le e)
      where
        not_le : leb i last ≡ false → last < i
        not_le e = ground arith
