-- ===== src/Fs/Directory/Remove.antt =====
-- The last part of do_unlink() in fs/link.c, which takes the file out of its directory.
use kusa_os.Base.{
  ℕ, zero, suc, ◌+◌, ◌/◌, true, false, Result, ok, err, Fault, ◌>>=◌, ltb, ◌==◌, if◌then◌else◌,
}
use kusa_os.Kernel.Memory.{load_int, memset}
use kusa_os.Fs.Bitmap.{sector_size}
use kusa_os.Fs.Inodes.{DiskInode, SuperBlock}
use kusa_os.Fs.Directory.{Store, fsbuf, rd_sect, wr_sect, dir_entry_size, entries_per_sector}
use kusa_os.Fs.Directory.Entry.{sync_inode}

-- What the loop over the entries of a sector ends with: the address of the entry, with m and
-- dir_size; the end of the directory; or m and dir_size behind the sector.
pub data Removal : Type 0 where
  hit : ℕ → ℕ → ℕ → Removal
  over : Removal
  on : ℕ → ℕ → Removal

-- dir_size grows by the entries that are in use.
abbrev pub grown_by : (ℕ → ℕ) → ℕ → ℕ → ℕ
grown_by mem pde dir_size = if load_int mem pde == 0 then dir_size else dir_size + dir_entry_size

unfoldable pub remove_in : ℕ → (ℕ → ℕ) → ℕ → ℕ → ℕ → ℕ → ℕ → Removal
remove_in zero mem pde m nr_dir_entries inode_nr dir_size = on m dir_size
remove_in (suc f) mem pde m nr_dir_entries inode_nr dir_size = elim (ltb nr_dir_entries (m + 1)) [
  | true ↦ over
  | false ↦ elim (load_int mem pde == inode_nr) [
    | true ↦ hit pde (m + 1) dir_size
    | false ↦
        remove_in f mem (pde + dir_entry_size) (m + 1) nr_dir_entries inode_nr
          (grown_by mem pde dir_size)
  ]
]

-- The store after the entry is cleared, with m and dir_size
pub record Cleared : Type 0 where
  pub m : ℕ
  pub dir_size : ℕ
  pub store : Store

abbrev pub clear_entry : ℕ → ℕ → ℕ → ℕ → Store → Cleared
clear_entry blk pde m dir_size st = record {
  m = m;
  dir_size = dir_size;
  store = wr_sect blk (record st { mem = memset dir_entry_size pde 0 st.mem });
}

unfoldable pub remove_blocks : ℕ → ℕ → ℕ → ℕ → ℕ → ℕ → Store → Result Cleared
remove_blocks zero blk m nr_dir_entries inode_nr dir_size st = err Fault.assert_failed
remove_blocks (suc f) blk m nr_dir_entries inode_nr dir_size st =
    elim (remove_in entries_per_sector (rd_sect blk st).mem fsbuf m nr_dir_entries inode_nr
      dir_size) [
        | hit pde m' dir_size' ↦ ok (clear_entry blk pde m' dir_size' (rd_sect blk st))
        | over ↦ err Fault.assert_failed
        | on m' dir_size' ↦
            remove_blocks f (blk + 1) m' nr_dir_entries inode_nr dir_size' (rd_sect blk st)
      ]

-- The inode of the directory and the store after
unfoldable pub remove_entry : SuperBlock → ℕ → DiskInode → ℕ → Store → Result (DiskInode × Store)
remove_entry sb dir_num dir_inode inode_nr st =
    remove_blocks ((dir_inode.i_size + sector_size) / sector_size) dir_inode.i_start_sect 0
      (dir_inode.i_size / dir_entry_size) inode_nr 0 st
    >>= λ cleared.
        let dir' = record dir_inode { i_size = cleared.dir_size } in
        if cleared.m == dir_inode.i_size / dir_entry_size
        then ok (dir', sync_inode sb dir_num dir' cleared.store)
        else ok (dir_inode, cleared.store)
