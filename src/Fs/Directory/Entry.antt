-- ===== src/Fs/Directory/Entry.antt =====
-- new_dir_entry() of fs/open.c, and sync_inode() of fs/main.c for the inode of the directory.
use kusa_os.Base.{
  ℕ, zero, suc, ◌+◌, ◌-◌, ◌*◌, ◌/◌, ◌%◌, Bool, true, false, Result, ok, err, Fault, ◌>>=◌, ltb,
  ◌==◌, if◌then◌else◌,
}
use kusa_os.Kernel.Memory.{load_int, store_int}
use kusa_os.Strings.{strcpy}
use kusa_os.Fs.Bitmap.{sector_size}
use kusa_os.Fs.Inodes.{DiskInode, SuperBlock, inode_blk}
use kusa_os.Fs.Directory.{
  Store, fsbuf, rd_sect, wr_sect, dir_entry_size, entries_per_sector, name_steps,
}

-- What the loop over the entries of a sector ends with: a free entry, the place behind the last
-- entry, or the number of entries so far.
pub data Slot : Type 0 where
  free end later : ℕ → Slot

unfoldable pub slot_in : ℕ → (ℕ → ℕ) → ℕ → ℕ → ℕ → Slot
slot_in zero mem pde m nr_dir_entries = later m
slot_in (suc f) mem pde m nr_dir_entries = elim (ltb nr_dir_entries (m + 1)) [
  | true ↦ end pde
  | false ↦ elim (load_int mem pde == 0) [
    | true ↦ free pde
    | false ↦ slot_in f mem (pde + dir_entry_size) (m + 1) nr_dir_entries
  ]
]

-- The sector, the address of the slot in fsbuf, and whether it is behind the last entry
pub record Place : Type 0 where
  pub sector : ℕ
  pub pde : ℕ
  pub is_end : Bool
  pub store : Store

abbrev pub place_at : ℕ → ℕ → Bool → Store → Place
place_at blk pde is_end st = record { sector = blk; pde = pde; is_end = is_end; store = st }

-- Behind the last sector there is no slot.
unfoldable pub slot_blocks : ℕ → ℕ → ℕ → ℕ → Store → Result Place
slot_blocks zero blk m nr_dir_entries st = err Fault.wild
slot_blocks (suc f) blk m nr_dir_entries st =
    elim (slot_in entries_per_sector (rd_sect blk st).mem fsbuf m nr_dir_entries) [
      | free pde ↦ ok (place_at blk pde false (rd_sect blk st))
      | end pde ↦ ok (place_at blk pde true (rd_sect blk st))
      | later m' ↦ slot_blocks f (blk + 1) m' nr_dir_entries (rd_sect blk st)
    ]

-- The four fields of an inode that are on the device
abbrev pub store_inode : ℕ → DiskInode → (ℕ → ℕ) → ℕ → ℕ
store_inode a p mem =
    store_int (a + 12) p.i_nr_sects
      (store_int (a + 8) p.i_start_sect (store_int (a + 4) p.i_size (store_int a p.i_mode mem)))

-- INODE_SIZE is 32.
unfoldable pub sync_inode : SuperBlock → ℕ → DiskInode → Store → Store
sync_inode sb i_num p st =
    let blk_nr = inode_blk sb i_num in
    let read = rd_sect blk_nr st in
    wr_sect blk_nr (record read { mem = store_inode (fsbuf + (i_num - 1) % 16 * 32) p read.mem })

-- With the inode of the directory, its number and the super block of its device
unfoldable pub new_dir_entry :
    SuperBlock → ℕ → DiskInode → ℕ → ℕ → Store → Result (DiskInode × Store)
new_dir_entry sb dir_num dir_inode inode_nr filename st =
    slot_blocks ((dir_inode.i_size + sector_size) / sector_size) dir_inode.i_start_sect 0
      (dir_inode.i_size / dir_entry_size) st
    >>= λ place.
        strcpy name_steps (place.pde + 4) filename (store_int place.pde inode_nr (place.store).mem)
        >>= λ mem'.
            let dir' = record dir_inode {
              i_size = if place.is_end then dir_inode.i_size + dir_entry_size else dir_inode.i_size;
            } in
            let written = wr_sect place.sector (record place.store { mem = mem' }) in
            ok (dir', sync_inode sb dir_num dir' written)
