-- ===== src/Tests/Fs.antt =====
-- The file system at concrete inputs.
use kusa_os.Base.{
  ℕ, ◌+◌, ◌≡◌, ◌<◌, ◌≢◌, ◌⊎◌, arith, none, some, ok, err, Fault, refl, false, ◌==◌, if◌then◌else◌,
}
use kusa_os.Fs.Inodes.{DiskInode, Inode, SuperBlock, get_inode, holds, nr_inode}
use kusa_os.Fs.Inodes.Cache.{IsCache, IsGot, get_inode-IsGot}
use kusa_os.Fs.Bitmap.{Disk, alloc_imap_bit}
use kusa_os.Fs.Bitmap.Alloc.{IsAllocated, alloc_imap_bit-IsAllocated}

-- A device whose inodes are files of one sector
abbrev read : ℕ → ℕ → ℕ → DiskInode
read dev blk i = record { i_mode = 32768; i_size = 512; i_start_sect = blk + i; i_nr_sects = 1 }

abbrev super : ℕ → SuperBlock
super dev = record { nr_imap_sects = 1; nr_smap_sects = 2 }

abbrev empty : ℕ → Inode
empty _ = record { i_dev = 0; i_cnt = 0; i_num = 0; disk = read 0 0 0 }

empty-IsCache : IsCache empty
empty-IsCache = record { once = λ i j lt lt' used. absurd (used refl) }

get_inode-IsGot_example :
    (◌≡◌ {A = ℕ} 17 0 → get_inode read super empty 800 17 ≡ ok (none, empty))
    × (◌≢◌ {A = ℕ} 17 0
        → ((get_inode read super empty 800 17 ≡ err Fault.panicked)
            × ((i : ℕ) → i < nr_inode → ((empty i).i_cnt ≢ 0) × (holds (empty i) 800 17 ≡ false)))
          ⊎ ((p : ℕ) × (table' : ℕ → Inode) × (get_inode read super empty 800 17
                ≡ ok (some p, table'))
              × IsGot read super empty 800 17 p table'))
get_inode-IsGot_example = get_inode-IsGot read super empty 800 17 empty-IsCache

-- A map whose first byte is full
abbrev sectors : Disk
sectors s i = if i == 0 then 255 else 5

alloc_imap_bit-IsAllocated_example :
    ((alloc_imap_bit sectors 1 ≡ ok (0, sectors)) × ((i : ℕ) → i < 512 → sectors 2 i ≡ 255))
    ⊎ ((nr : ℕ) × (disk' : Disk) × (alloc_imap_bit sectors 1 ≡ ok (nr, disk'))
        × IsAllocated sectors disk' nr)
alloc_imap_bit-IsAllocated_example = alloc_imap_bit-IsAllocated sectors 0 (λ i. ground arith)
