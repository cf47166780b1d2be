-- ===== src/Fs/Transfer/Request.antt =====
-- do_rdwt() of fs/read_write.c for a regular file or a directory, as a whole. The inode has the
-- number `i_num`, and `sb` is the super block of its device.
use kusa_os.Base.{ℕ, suc, ◌+◌, ◌-◌, Result, ok, ◌>>=◌, ltb, if◌then◌else◌}
use kusa_os.Fs.Inodes.{DiskInode, SuperBlock}
use kusa_os.Fs.Transfer.{Way, Io, min, pos_end, first_sector, start_io, fsbuf_sects, sectors_from}
use kusa_os.Fs.Directory.Entry.{sync_inode}

-- The inode, and the state with the device, after the last lines: where the size of the inode
-- changes, sync_inode() writes it to the device.
abbrev pub grown : DiskInode → ℕ → DiskInode
grown pin fd_pos = if ltb pin.i_size fd_pos then record pin { i_size = fd_pos } else pin

abbrev pub synced : SuperBlock → ℕ → DiskInode → Io → Io
synced sb i_num pin io =
    if ltb pin.i_size io.fd_pos
    then record io {
      dev = (sync_inode sb i_num (grown pin io.fd_pos) (record { mem = io.mem; dev = io.dev })).dev;
    }
    else io

unfoldable pub rdwt_file :
    SuperBlock → ℕ → Way → DiskInode → (ℕ → ℕ) → (ℕ → ℕ) → ℕ → ℕ → ℕ → Result (Io × DiskInode)
unfolding sectors_from
rdwt_file sb i_num way pin mem dev buf pos len =
    let first = first_sector pin pos in
    let last = first_sector pin (pos_end way pin pos len) in
    let chunk = min (last + 1 - first) fsbuf_sects in
    sectors_from (suc (last + 1 - first)) way buf chunk last first (start_io mem dev pos len)
    >>= λ done. ok (synced sb i_num pin done, grown pin done.fd_pos)
