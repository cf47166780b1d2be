-- ===== src/Fs/Transfer/Done.antt =====
-- do_rdwt() of fs/read_write.c on a file: what a request leaves.
use mathlib.Core.Path.{subst}
use kusa_os.Base.{
  ℕ, suc, ◌+◌, ◌-◌, ◌*◌, ◌/◌, ◌%◌, ◌≤◌, ◌<◌, ◌≡◌, refl, ap, ◌∙◌, ◌⊎◌, inl, inr, arith, Bool-cases,
  true, ok, ltb, ltb→lt, leb, if◌then◌else◌,
}
use kusa_os.Fs.Inodes.{DiskInode, SuperBlock}
use kusa_os.Fs.Directory.Stored.{inode_at, IsInode, sync_inode-outside, sync_inode-IsInode}
use kusa_os.Fs.Transfer.{Way, Io, min, pos_end, first_sector, start_io, fsbuf_sects, rw_sects}
use kusa_os.Fs.Transfer.Request.{grown, synced, rdwt_file}
use kusa_os.Fs.Transfer.Moved.{moved_mem, moved_dev, IsMoved, sectors_from-IsMoved}

abbrev pub larger : ℕ → ℕ → ℕ
larger a b = if ltb a b then b else a

-- What a request that fits in the last sector leaves: `len` bytes are moved between the buffer and
-- the place of the file on the device, and the size is at least the new position. Where it has
-- become larger, the inode is stored on the device, over what was moved there.
pub record IsDone (sb : SuperBlock) (i_num : ℕ) (way : Way) (pin : DiskInode) (m d : ℕ → ℕ)
    (buf pos len : ℕ) (io : Io) (pin' : DiskInode) : Type 0 where
  pub returns : rdwt_file sb i_num way pin m d buf pos len ≡ ok (io, pin')
  pub mem : (x : ℕ) → io.mem x ≡ moved_mem way m d buf (pin.i_start_sect * 512 + pos) len x
  pub dev :
      (x : ℕ)
      → (pos + len ≤ pin.i_size) ⊎ ((x < inode_at sb i_num) ⊎ (inode_at sb i_num + 16 ≤ x))
      → io.dev x ≡ moved_dev way m d buf (pin.i_start_sect * 512 + pos) len x
  pub bytes_rw : io.bytes_rw ≡ len
  pub fd_pos : io.fd_pos ≡ pos + len
  pub inode : pin' ≡ record pin { i_size = larger pin.i_size (pos + len) }
  pub stored : pin.i_size < pos + len → IsInode io.dev (inode_at sb i_num) pin'

grown-larger : (pin : DiskInode) (n : ℕ) → grown pin n ≡ record pin { i_size = larger pin.i_size n }
grown-larger pin n = elim (Bool-cases (ltb pin.i_size n)) [ inl e ↦ rw e refl | inr e ↦ rw e refl ]

module _ (sb : SuperBlock) (i_num : ℕ) (way : Way) (pin : DiskInode) (m d : ℕ → ℕ)
    (buf pos len : ℕ) where
  -- Storing the inode changes no more than the place of the inode.
  record IsKept (io io' : Io) : Type 0 where
    mem : (x : ℕ) → io'.mem x ≡ io.mem x
    dev :
        (x : ℕ)
        → (io.fd_pos ≤ pin.i_size) ⊎ ((x < inode_at sb i_num) ⊎ (inode_at sb i_num + 16 ≤ x))
        → io'.dev x ≡ io.dev x
    bytes_rw : io'.bytes_rw ≡ io.bytes_rw
    fd_pos : io'.fd_pos ≡ io.fd_pos

  synced-IsKept : (io : Io) → IsKept io (synced sb i_num pin io)
  synced-IsKept io = elim (Bool-cases (ltb pin.i_size io.fd_pos)) [
    | inl more ↦ record {
      mem = λ x. rw more refl;
      dev = λ x h. rw more (
          sync_inode-outside sb i_num (record pin { i_size = io.fd_pos })
            (record { mem = io.mem; dev = io.dev }) x
            (omega (arith, h, ltb→lt pin.i_size io.fd_pos more)));
      bytes_rw = rw more refl;
      fd_pos = rw more refl;
    }
    | inr same ↦ record {
      mem = λ x. rw same refl;
      dev = λ x h. rw same refl;
      bytes_rw = rw same refl;
      fd_pos = rw same refl;
    }
  ]

  synced-IsDone :
      (io : Io)
      → rdwt_file sb i_num way pin m d buf pos len
        ≡ ok (synced sb i_num pin io, grown pin io.fd_pos)
      → IsMoved way buf (pin.i_start_sect * 512 + pos) len (start_io m d pos len) io
      → IsDone sb i_num way pin m d buf pos len (synced sb i_num pin io) (grown pin io.fd_pos)
  synced-IsDone io returns at = record {
    returns = returns;
    mem = λ x.
        (synced-IsKept io).mem x ∙ at.mem x ∙ ap (λ b. moved_mem way m d b place len x) no_offset;
    dev = λ x h.
        (synced-IsKept io).dev x (omega (arith, h, at.fd_pos))
        ∙ at.dev x
        ∙ ap (λ b. moved_dev way m d b place len x) no_offset;
    bytes_rw = omega (arith, (synced-IsKept io).bytes_rw, at.bytes_rw);
    fd_pos = (synced-IsKept io).fd_pos ∙ at.fd_pos;
    inode =
        grown-larger pin io.fd_pos
        ∙ ap (λ n. record pin { i_size = larger pin.i_size n }) at.fd_pos;
    stored = λ more. rw (past more) (
        sync_inode-IsInode sb i_num (record pin { i_size = io.fd_pos })
          (record { mem = io.mem; dev = io.dev }));
  }
    where
      place : ℕ
      place = pin.i_start_sect * 512 + pos

      no_offset : buf + 0 ≡ buf
      no_offset = omega arith

      past : pin.i_size < pos + len → ltb pin.i_size io.fd_pos ≡ true
      past more = ground (arith, more, at.fd_pos)

  pub rdwt_file-IsDone :
      pos ≤ pos_end way pin pos len
      → pos + len ≤ pos_end way pin pos len / 512 * 512 + 512
      → pos_end way pin pos len / 512 < pos / 512 + 256
      → (io : Io) × (pin' : DiskInode) × IsDone sb i_num way pin m d buf pos len io pin'
  unfolding rdwt_file
  rdwt_file-IsDone before fits few =
      let (io, returns, at) =
        sectors_from-IsMoved (suc (last + 1 - first)) way buf chunk last first
          (start_io m d pos len) some_sectors not_many (omega arith) (omega arith) (omega arith)
          (inr room) in
      (
        synced sb i_num pin io,
        grown pin io.fd_pos,
        synced-IsDone io (rw returns refl)
            (subst (λ a. IsMoved way buf a len (start_io m d pos len) io) place at),
      )
    where
      e : ℕ
      e = pos_end way pin pos len

      first : ℕ
      first = first_sector pin pos

      last : ℕ
      last = first_sector pin e

      chunk : ℕ
      chunk = min (last + 1 - first) fsbuf_sects

      order : pos / 512 ≤ e / 512
      order = omega (arith, before)

      some_sectors : 0 < chunk
      some_sectors = ground (arith, order)

      not_many : leb chunk rw_sects ≡ true
      not_many = ground (arith, few)

      place : first * 512 + pos % 512 ≡ pin.i_start_sect * 512 + pos
      place = omega arith

      room : first * 512 + pos % 512 + len ≤ last * 512 + 512
      room = omega (arith, fits)
