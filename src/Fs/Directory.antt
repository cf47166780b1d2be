-- ===== src/Fs/Directory.antt =====
-- Directories: the loops of find_entry() and search_file() in fs/misc.c over the entries of a
-- directory, and new_dir_entry() of fs/open.c. `dev` is the device in bytes; fsbuf stands in the
-- memory of the file system, with the name that is looked for. An entry is 16 bytes, an inode
-- number and twelve characters; 32 of them are a sector.
pub mod Search
pub mod Find
pub mod Bytes
pub mod Entry
pub mod Slot
pub mod Sync
pub mod Stored
pub mod Written
pub mod Created
pub mod Remove
pub mod Removed
pub mod Clearing
pub mod Unlinked
use kusa_os.Base.{
  ℕ, zero, suc, ◌+◌, ◌-◌, ◌*◌, ◌/◌, Bool, true, false, Option, none, some, Result, ok, err, Fault,
  ◌>>=◌, ltb, ◌==◌, if◌then◌else◌,
}
use kusa_os.Kernel.Memory.{load_int}
use kusa_os.Kernel.Signed.{ℤ, pos, eqb_ℤ}
use kusa_os.Strings.{strcmp}
use kusa_os.Fs.Bitmap.{sector_size}
use kusa_os.Fs.Inodes.{DiskInode}
use kusa_os.Fs.Transfer.{overlay}

abbrev pub fsbuf : ℕ
fsbuf = 0x600000

abbrev pub dir_entry_size : ℕ
dir_entry_size = 16

-- SECTOR_SIZE / DIR_ENTRY_SIZE
abbrev pub entries_per_sector : ℕ
entries_per_sector = 32

-- The memory, and the device
pub record Store : Type 0 where
  pub mem : ℕ → ℕ
  pub dev : ℕ → ℕ

-- RD_SECT and WR_SECT
abbrev pub rd_sect : ℕ → Store → Store
rd_sect sect_nr st = record st {
  mem = overlay st.mem fsbuf sector_size (λ a. st.dev (sect_nr * sector_size + a));
}

abbrev pub wr_sect : ℕ → Store → Store
wr_sect sect_nr st = record st {
  dev = overlay st.dev (sect_nr * sector_size) sector_size (λ a. st.mem (fsbuf + a));
}

-- What the loop over the entries of a sector ends with: the address of an entry with the name, or
-- the number of entries so far.
pub data Look : Type 0 where
  found passed : ℕ → Look

-- A name of at most twelve characters is compared in thirteen steps.
abbrev pub name_steps : ℕ
name_steps = 13

unfoldable pub search_in : ℕ → (ℕ → ℕ) → ℕ → ℕ → ℕ → ℕ → Result Look
search_in zero mem filename pde m nr_dir_entries = ok (passed m)
search_in (suc f) mem filename pde m nr_dir_entries =
    strcmp name_steps mem filename (pde + 4) >>= λ r. elim (eqb_ℤ r (pos 0)) [
      | true ↦ ok (found pde)
      | false ↦ elim (ltb nr_dir_entries (m + 1)) [
        | true ↦ ok (passed (m + 1))
        | false ↦ search_in f mem filename (pde + dir_entry_size) (m + 1) nr_dir_entries
      ]
    ]

unfoldable pub search_blocks : ℕ → ℕ → ℕ → ℕ → ℕ → Store → Result (Option ℕ × Store)
search_blocks zero filename blk m nr_dir_entries st = ok (none, st)
search_blocks (suc f) filename blk m nr_dir_entries st =
    search_in entries_per_sector (rd_sect blk st).mem filename fsbuf m nr_dir_entries >>= λ look.
    elim look [
      | found pde ↦ ok (some pde, rd_sect blk st)
      | passed m' ↦ elim (ltb nr_dir_entries m') [
        | true ↦ ok (none, rd_sect blk st)
        | false ↦ search_blocks f filename (blk + 1) m' nr_dir_entries (rd_sect blk st)
      ]
    ]

-- find_entry() in a directory: the address of the entry, in fsbuf
unfoldable pub find_entry : DiskInode → ℕ → Store → Result (Option ℕ × Store)
find_entry dir_inode filename st =
    search_blocks ((dir_inode.i_size + sector_size - 1) / sector_size) filename
      dir_inode.i_start_sect 0 (dir_inode.i_size / dir_entry_size) st

-- search_file() in a directory: the inode number, or 0
unfoldable pub search_file : DiskInode → ℕ → Store → Result ℕ
search_file dir_inode filename st =
    search_blocks ((dir_inode.i_size + sector_size - 1) / sector_size) filename
      dir_inode.i_start_sect 0 (dir_inode.i_size / dir_entry_size) st
    >>= λ (entry, st'). elim entry [ some pde ↦ ok (load_int st'.mem pde) | none ↦ ok 0 ]
