-- ===== src/Fs/Transfer.antt =====
-- do_rdwt() of fs/read_write.c for a regular file or a directory. `dev` is the device in bytes,
-- which rw_sector() reads and writes, `mem` the memory of the caller with `buf` as its linear
-- address, and fsbuf a function of its index. Positions and counts are not negative, and
-- the ints that are computed do not overflow, for which the place of the request on the device
-- has to end below 2 ^ 31.
pub mod Overlay
pub mod Moved
pub mod Request
pub mod Done
pub mod File
use kusa_os.Base.{
  ℕ, zero, suc, ◌+◌, ◌-◌, ◌*◌, ◌/◌, ◌%◌, Bool, true, false, ◌&&◌, Result, ok, err, Fault, ◌>>=◌,
  ltb, leb, if◌then◌else◌,
}
use kusa_os.Fs.Bitmap.{sector_size}
use kusa_os.Fs.Inodes.{DiskInode}

-- FSBUF_SIZE >> SECTOR_SIZE_SHIFT
abbrev pub fsbuf_sects : ℕ
fsbuf_sects = 2048

pub data Way : Type 0 where
  reading writing : Way

-- The state of the loop; `fd_pos` is the position of the file descriptor.
pub record Io : Type 0 where
  pub mem : ℕ → ℕ
  pub dev : ℕ → ℕ
  pub fd_pos : ℕ
  pub off : ℕ
  pub bytes_rw : ℕ
  pub bytes_left : ℕ

abbrev pub min : ℕ → ℕ → ℕ
min a b = if ltb a b then a else b

-- `n` bytes at `at`, the others as in `under`
abbrev pub overlay : (ℕ → ℕ) → ℕ → ℕ → (ℕ → ℕ) → ℕ → ℕ
overlay under at n over x = if leb at x && ltb x (at + n) then over (x - at) else under x

-- fsbuf after rw_sector() has read from the sector `i` on
abbrev pub fsbuf_at : (ℕ → ℕ) → ℕ → ℕ → ℕ
fsbuf_at dev i a = dev (i * sector_size + a)

-- One round: the `bytes` go from fsbuf to the caller, or into fsbuf and back to the device.
unfoldable pub transfer : Way → ℕ → ℕ → ℕ → Io → Io
transfer way buf chunk i io =
    let bytes = min io.bytes_left (chunk * sector_size - io.off) in
    let fsbuf = fsbuf_at io.dev i in
    record {
      mem = elim way [
        | reading ↦ overlay io.mem (buf + io.bytes_rw) bytes (λ a. fsbuf (io.off + a))
        | writing ↦ io.mem
      ];
      dev = elim way [
        | reading ↦ io.dev
        | writing ↦
            overlay io.dev (i * sector_size) (chunk * sector_size)
              (overlay fsbuf io.off bytes (λ a. io.mem (buf + io.bytes_rw + a)))
      ];
      fd_pos = io.fd_pos + bytes;
      off = 0;
      bytes_rw = io.bytes_rw + bytes;
      bytes_left = io.bytes_left - bytes;
    }

-- The disk driver gives no answer to a request for more sectors.
abbrev pub rw_sects : ℕ
rw_sects = 256

-- The loop, from the sector `i` to `last`
unfoldable pub sectors_from : ℕ → Way → ℕ → ℕ → ℕ → ℕ → Io → Result Io
unfolding transfer
sectors_from zero way buf chunk last i io = err Fault.spins
sectors_from (suc f) way buf chunk last i io = elim (leb i last) [
  | true ↦ elim (leb chunk rw_sects) [
    | true ↦ sectors_from f way buf chunk last (i + chunk) (transfer way buf chunk i io)
    | false ↦ err Fault.spins
  ]
  | false ↦ ok io
]

abbrev pub pos_end : Way → DiskInode → ℕ → ℕ → ℕ
pos_end reading pin pos len = min (pos + len) pin.i_size
pos_end writing pin pos len = min (pos + len) (pin.i_nr_sects * sector_size)

abbrev pub first_sector : DiskInode → ℕ → ℕ
first_sector pin pos = pin.i_start_sect + pos / sector_size

abbrev pub start_io : (ℕ → ℕ) → (ℕ → ℕ) → ℕ → ℕ → Io
start_io mem dev pos len = record {
  mem = mem;
  dev = dev;
  fd_pos = pos;
  off = pos % sector_size;
  bytes_rw = 0;
  bytes_left = len;
}
