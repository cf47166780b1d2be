-- ===== src/Fs/Bitmap.antt =====
-- The inode map of a device: alloc_imap_bit() of fs/open.c, and the lines of do_unlink() in
-- fs/link.c that free a bit of it. `disk s i` is the i-th byte of the sector `s`. A shift to the
-- right is a division, and `~(1 << k)` the mask of a byte.
pub mod Bytes
pub mod Alloc
use kusa_os.Base.{
  ℕ, zero, suc, ◌+◌, ◌-◌, ◌*◌, ◌/◌, ◌%◌, ◌^◌, Bool, true, false, Option, none, some, Result, ok,
  err, Fault, ◌>>=◌, ◌>>◌, assert, ltb, ◌==◌, update, if◌then◌else◌,
}
use Prim.Native.Nat.{bit_or, bit_and}

abbrev pub sector_size : ℕ
sector_size = 512

abbrev pub Disk : Type 0
Disk = ℕ → ℕ → ℕ

-- The first sector of the inode map
abbrev pub imap_blk0_nr : ℕ
imap_blk0_nr = 2

-- `(b >> k) & 1`, `b |= (1 << k)` and `b &= ~(1 << k)`, for a byte
abbrev pub bit : ℕ → ℕ → ℕ
bit b k = b / 2 ^ k % 2

abbrev pub set_bit : ℕ → ℕ → ℕ
set_bit b k = bit_or b (2 ^ k)

abbrev pub clear_bit : ℕ → ℕ → ℕ
clear_bit b k = bit_and b (255 - 2 ^ k)

-- The first byte with a clear bit, of `f` from `j` on
unfoldable pub find_byte : ℕ → ℕ → (ℕ → ℕ) → Option ℕ
find_byte zero j fsbuf = none
find_byte (suc f) j fsbuf = elim (fsbuf j == 255) [
  | true ↦ find_byte f (j + 1) fsbuf
  | false ↦ some j
]

-- The loop that skips the bits that are set, in a byte that is not 0xFF
unfoldable pub skip_ones : ℕ → ℕ → ℕ → ℕ
skip_ones zero k b = k
skip_ones (suc f) k b = if bit b k == 0 then k else skip_ones f (k + 1) b

-- With the number of sectors of the map, the inode that is allocated and the disk after. The first
-- sector is the only one that is looked at; if it is full, the result is 0.
unfoldable pub alloc_imap_bit : Disk → ℕ → Result (ℕ × Disk)
unfolding find_byte skip_ones
alloc_imap_bit disk zero = err Fault.panicked
alloc_imap_bit disk (suc n) = elim (find_byte sector_size 0 (disk imap_blk0_nr)) [
  | none ↦ ok (0, disk)
  | some j ↦
      let k = skip_ones 8 0 (disk imap_blk0_nr j) in
      ok (
        j * 8 + k,
        update disk imap_blk0_nr (update (disk imap_blk0_nr) j (set_bit (disk imap_blk0_nr j) k)),
      )
]

-- do_unlink() where it frees the bit
unfoldable pub free_imap_bit : Disk → ℕ → Result Disk
free_imap_bit disk inode_nr = do
  let byte_idx = inode_nr / 8
  let bit_idx = inode_nr % 8
  assert (ltb byte_idx sector_size)
  assert (bit (disk 2 (byte_idx % sector_size)) bit_idx == 1)
  ok (
      update disk 2 (
        update (disk 2) (byte_idx % sector_size)
          (clear_bit (disk 2 (byte_idx % sector_size)) bit_idx)))
