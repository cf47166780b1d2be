-- ===== src/Tests/Transfer.antt =====
-- Reading and writing of a file at concrete inputs.
use kusa_os.Base.{ℕ, ◌+◌, ◌<◌, ◌≡◌, arith, ok}
use kusa_os.Kernel.Memory.{load_int}
use kusa_os.Fs.Inodes.{DiskInode, SuperBlock}
use kusa_os.Fs.Directory.Stored.{inode_at}
use kusa_os.Fs.Transfer.{reading, writing, Io}
use kusa_os.Fs.Transfer.Request.{rdwt_file}
use kusa_os.Fs.Transfer.Done.{IsDone}
use kusa_os.Fs.Transfer.File.{rdwt_file-IsMoved, rdwt_file-overrun, rdwt_file-back}

-- A device with its first inodes in the sector 4
abbrev sb : SuperBlock
sb = record { nr_imap_sects = 1; nr_smap_sects = 1 }

-- A file of ten bytes in two sectors from the sector 5 on
abbrev small : DiskInode
small = record { i_mode = 32768; i_size = 10; i_start_sect = 5; i_nr_sects = 2 }

rdwt_file-IsMoved_example :
    (io : Io) × (pin' : DiskInode) × IsDone sb 2 writing small
      (λ a. a)
      (λ a. 0)
      4096
      500
      100
      io
      pin'
rdwt_file-IsMoved_example =
    rdwt_file-IsMoved sb 2 writing small (λ a. a) (λ a. 0) 4096 500 100 (omega arith) (omega arith)
      (omega arith)

-- 512 bytes are read from the file of ten.
rdwt_file-overrun_example :
    (io : Io) × (pin' : DiskInode) × (rdwt_file sb 2 reading small (λ a. a) (λ a. 0) 4096 0 512
      ≡ ok (io, pin'))
    × (io.bytes_rw ≡ 512)
    × (pin'.i_size ≡ 512)
    × (load_int io.dev (inode_at sb 2 + 4) ≡ 512)
rdwt_file-overrun_example =
    rdwt_file-overrun sb 2 small (λ a. a) (λ a. 0) 4096 0 512 (omega arith) (omega arith)
      (omega arith) (omega arith) (omega arith)

rdwt_file-back_example :
    (io io2 : Io) × (pin' pin2 : DiskInode) × (rdwt_file sb 2 writing small
        (λ a. a)
        (λ a. 0)
        4096
        500
        100
      ≡ ok (io, pin'))
    × (rdwt_file sb 2 reading pin' (λ a. 0) io.dev 8192 500 100 ≡ ok (io2, pin2))
    × ((a : ℕ) → a < 100 → io2.mem (8192 + a) ≡ 4096 + a)
rdwt_file-back_example =
    rdwt_file-back sb 2 small (λ a. a) (λ a. 0) (λ a. 0) 4096 8192 500 100 (omega arith)
      (omega arith) (omega arith) (omega arith)
