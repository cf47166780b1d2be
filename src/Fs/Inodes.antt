-- ===== src/Fs/Inodes.antt =====
-- get_inode() and put_inode() of fs/main.c, on inode_table. `read dev blk i` is the i-th inode of
-- the sector `blk`, which the driver reads.
pub mod Search
pub mod Cache
use kusa_os.Base.{
  ℕ, zero, suc, ◌+◌, ◌-◌, ◌/◌, ◌%◌, Bool, true, false, ◌&&◌, Option, none, some, Result, ok, err,
  Fault, ◌>>◌, assert, ltb, ◌==◌, update, if◌then◌else◌,
}

-- NR_INODE
abbrev pub nr_inode : ℕ
nr_inode = 64

-- The part of an inode that is on the disk
pub record DiskInode : Type 0 where
  pub i_mode : ℕ
  pub i_size : ℕ
  pub i_start_sect : ℕ
  pub i_nr_sects : ℕ

pub record Inode : Type 0 where
  pub i_dev : ℕ
  pub i_cnt : ℕ
  pub i_num : ℕ
  pub disk : DiskInode

pub record SuperBlock : Type 0 where
  pub nr_imap_sects : ℕ
  pub nr_smap_sects : ℕ

-- What the loop of get_inode() ends with: an entry that holds the inode, or the first free one.
pub data Lookup : Type 0 where
  hit : ℕ → Lookup
  miss : Option ℕ → Lookup

abbrev pub holds : Inode → ℕ → ℕ → Bool
holds p dev num = (p.i_dev == dev) && (p.i_num == num)

abbrev pub first_free : Option ℕ → ℕ → Option ℕ
first_free none p = some p
first_free (some q) p = some q

-- `f` entries from `p` on, with the first free one so far
unfoldable pub lookup : ℕ → (ℕ → Inode) → ℕ → ℕ → ℕ → Option ℕ → Lookup
lookup zero table dev num p q = miss q
lookup (suc f) table dev num p q = elim ((table p).i_cnt == 0) [
  | true ↦ lookup f table dev num (p + 1) (first_free q p)
  | false ↦ elim (holds (table p) dev num) [
    | true ↦ hit p
    | false ↦ lookup f table dev num (p + 1) q
  ]
]

-- SECTOR_SIZE / INODE_SIZE is 16.
abbrev pub inode_blk : SuperBlock → ℕ → ℕ
inode_blk sb num = 1 + 1 + sb.nr_imap_sects + sb.nr_smap_sects + (num - 1) / 16

module _ (read : ℕ → ℕ → ℕ → DiskInode) (super_block : ℕ → SuperBlock) where
  abbrev pub loaded : ℕ → ℕ → Inode
  loaded dev num = record {
    i_dev = dev;
    i_cnt = 1;
    i_num = num;
    disk = read dev (inode_blk (super_block dev) num) ((num - 1) % 16);
  }

  abbrev pub taken : (ℕ → Inode) → ℕ → ℕ → Lookup → Result (Option ℕ × (ℕ → Inode))
  taken table dev num (hit p) =
      ok (some p, update table p (record (table p) { i_cnt = (table p).i_cnt + 1 }))
  taken table dev num (miss (some q)) = ok (some q, update table q (loaded dev num))
  taken table dev num (miss none) = err Fault.panicked

  -- The entry and the table after; no entry is a null pointer.
  unfoldable pub get_inode : (ℕ → Inode) → ℕ → ℕ → Result (Option ℕ × (ℕ → Inode))
  unfolding lookup
  get_inode table dev num =
      if num == 0
      then ok (none, table)
      else taken table dev num (lookup nr_inode table dev num 0 none)

unfoldable pub put_inode : (ℕ → Inode) → ℕ → Result (ℕ → Inode)
put_inode table p = do
  assert (ltb 0 (table p).i_cnt)
  ok (update table p (record (table p) { i_cnt = (table p).i_cnt - 1 }))
