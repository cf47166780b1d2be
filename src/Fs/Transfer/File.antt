-- ===== src/Fs/Transfer/File.antt =====
-- do_rdwt() of fs/read_write.c on a file: reading, writing, and what is read back.
use mathlib.Core.Path.{subst}
use kusa_os.Base.{ℕ, ◌+◌, ◌*◌, ◌/◌, ◌%◌, ◌^◌, ◌≤◌, ◌<◌, ◌≡◌, sym, ap, ◌∙◌, inr, arith, ok}
use kusa_os.Kernel.Memory.{load_int}
use kusa_os.Fs.Inodes.{DiskInode, SuperBlock, inode_blk}
use kusa_os.Fs.Directory.Stored.{inode_at}
use kusa_os.Fs.Transfer.{Way, reading, writing, Io, pos_end}
use kusa_os.Fs.Transfer.Done.{larger, IsDone, rdwt_file-IsDone}
use kusa_os.Fs.Transfer.Request.{rdwt_file}
use kusa_os.Fs.Transfer.Overlay.{overlay-inside}

-- The end of a file for reading, and for writing
abbrev pub limit : Way → DiskInode → ℕ
limit reading pin = pin.i_size
limit writing pin = pin.i_nr_sects * 512

pos_end-inside :
    (way : Way) (pin : DiskInode) (pos len : ℕ)
    → pos + len ≤ limit way pin
    → pos_end way pin pos len ≡ pos + len
pos_end-inside reading pin pos len h = ground (arith, h)
pos_end-inside writing pin pos len h = ground (arith, h)

-- A request of do_rdwt() that ends within the file, for reading within its size and for writing
-- within its sectors, whose end is less than 256 sectors behind the one it begins in, and whose
-- place on the device ends below 2 ^ 31, where no int overflows, returns.
-- It moves exactly the bytes asked for between the caller's buffer and the file's place on the
-- device, in the direction asked for, advances the position by that number, and makes the size at
-- least the new position. Where the size has become larger, the inode with it is stored at its
-- place on the device. Every other byte of the device and of the caller's memory is as it was.
pub rdwt_file-IsMoved :
    (sb : SuperBlock) (i_num : ℕ) (way : Way) (pin : DiskInode) (mem dev : ℕ → ℕ) (buf pos len : ℕ)
    → pos + len ≤ limit way pin
    → (pos + len) / 512 < pos / 512 + 256
    → pin.i_start_sect * 512 + pos + len < 2 ^ 31
    → (io : Io) × (pin' : DiskInode) × IsDone sb i_num way pin mem dev buf pos len io pin'
rdwt_file-IsMoved sb i_num way pin mem dev buf pos len h few no_overflow =
    rdwt_file-IsDone sb i_num way pin mem dev buf pos len (omega (arith, inside))
      (omega (arith, inside)) (omega (arith, inside, few))
  where
    inside : pos_end way pin pos len ≡ pos + len
    inside = pos_end-inside way pin pos len h

-- A read that begins in a file and asks for more than is left, though not for more than the last
-- sector holds, from at most 256 sectors and from a place on the device that ends below 2 ^ 31,
-- returns all it was asked for. The file's size is then the end of the request, also in the inode
-- that is stored on the device.
pub rdwt_file-overrun :
    (sb : SuperBlock) (i_num : ℕ) (pin : DiskInode) (mem dev : ℕ → ℕ) (buf pos len : ℕ)
    → pos ≤ pin.i_size
    → pin.i_size < pos + len
    → pos + len ≤ pin.i_size / 512 * 512 + 512
    → pin.i_size / 512 < pos / 512 + 256
    → pin.i_start_sect * 512 + pos + len < 2 ^ 31
    → (io : Io) × (pin' : DiskInode) × (rdwt_file sb i_num reading pin mem dev buf pos len
        ≡ ok (io, pin'))
      × (io.bytes_rw ≡ len)
      × (pin'.i_size ≡ pos + len)
      × (load_int io.dev (inode_at sb i_num + 4) ≡ pos + len)
rdwt_file-overrun sb i_num pin mem dev buf pos len low past fits few no_overflow =
    let (io, pin', done) =
      rdwt_file-IsDone sb i_num reading pin mem dev buf pos len (omega (arith, cut, low))
        (omega (arith, whole)) (omega (arith, cut, few)) in
    (
      io,
      pin',
      done.returns,
      done.bytes_rw,
      ap (λ p. p.i_size) done.inode ∙ at_end,
      (done.stored past).size
          ∙ ap (λ n. n % 2 ^ 32) (ap (λ p. p.i_size) done.inode ∙ at_end)
          ∙ omega (arith, no_overflow),
    )
  where
    cut : pos_end reading pin pos len ≡ pin.i_size
    cut = ground (arith, past)

    whole : pos + len ≤ pos_end reading pin pos len / 512 * 512 + 512
    whole = subst (λ x. pos + len ≤ x / 512 * 512 + 512) (sym cut) fits

    at_end : larger pin.i_size (pos + len) ≡ pos + len
    at_end = ground (arith, past)

-- What was written to a file within its sectors is what a read at the same place gives, with
-- another memory and buffer. The file's sectors are behind the one of its inode, the end of the
-- request is less than 256 sectors behind the one that it begins in, and its place on the device
-- ends below 2 ^ 31.
pub rdwt_file-back :
    (sb : SuperBlock) (i_num : ℕ) (pin : DiskInode) (mem mem2 dev : ℕ → ℕ) (buf buf2 pos len : ℕ)
    → pos + len ≤ pin.i_nr_sects * 512
    → (pos + len) / 512 < pos / 512 + 256
    → inode_blk sb i_num < pin.i_start_sect
    → pin.i_start_sect * 512 + pos + len < 2 ^ 31
    → (io io2 : Io) × (pin' pin2 : DiskInode) × (rdwt_file sb i_num writing pin mem dev buf pos len
        ≡ ok (io, pin'))
      × (rdwt_file sb i_num reading pin' mem2 io.dev buf2 pos len ≡ ok (io2, pin2))
      × ((a : ℕ) → a < len → io2.mem (buf2 + a) ≡ mem (buf + a))
rdwt_file-back sb i_num pin mem mem2 dev buf buf2 pos len h few layout no_overflow =
    let (io, pin', done) =
      rdwt_file-IsMoved sb i_num writing pin mem dev buf pos len h few no_overflow in
    let (io2, pin2, again) =
      rdwt_file-IsMoved sb i_num reading pin' mem2 io.dev buf2 pos len
        (omega (arith, ap (λ p. p.i_size) done.inode, enough)) few
        (omega (arith, ap (λ p. p.i_start_sect) done.inode, no_overflow)) in
    (
      io,
      io2,
      pin',
      pin2,
      done.returns,
      again.returns,
      λ a lt.
          again.mem (buf2 + a)
          ∙ overlay-inside mem2 (λ x. io.dev (pin'.i_start_sect * 512 + pos + x)) buf2 len
              (buf2 + a) (omega arith) (omega arith)
          ∙ ap io.dev (omega (arith, ap (λ p. p.i_start_sect) done.inode))
          ∙ done.dev (pin.i_start_sect * 512 + pos + a) (inr (inr (omega (arith, layout))))
          ∙ overlay-inside dev (λ x. mem (buf + x)) (pin.i_start_sect * 512 + pos) len
              (pin.i_start_sect * 512 + pos + a) (omega arith) (omega arith)
          ∙ ap mem (omega arith),
    )
  where
    enough : pos + len ≤ larger pin.i_size (pos + len)
    enough = ground arith
