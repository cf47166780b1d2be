-- ===== src/Fs/Directory/Sync.antt =====
-- sync_inode() of fs/main.c: what it leaves as it was.
use kusa_os.Base.{ℕ, ◌+◌, ◌-◌, ◌*◌, ◌%◌, ◌≤◌, ◌<◌, ◌≡◌, ◌∙◌, inl, inr, arith}
use kusa_os.Fs.Inodes.{DiskInode, SuperBlock, inode_blk}
use kusa_os.Fs.Transfer.Overlay.{overlay-outside}
use kusa_os.Fs.Directory.{Store, fsbuf, rd_sect}
use kusa_os.Fs.Directory.Bytes.{IsBytes, store_int-IsBytes, store_int-outside, overlay-IsBytes}
use kusa_os.Fs.Directory.Entry.{store_inode, sync_inode}

-- The memory below fsbuf and the sectors behind the one of the inode
pub record IsSynced (sb : SuperBlock) (num : ℕ) (st st' : Store) : Type 0 where
  pub mem_bytes : IsBytes st'.mem
  pub dev_bytes : IsBytes st'.dev
  pub below : (x : ℕ) → x < fsbuf → st'.mem x ≡ st.mem x
  pub behind : (x : ℕ) → (inode_blk sb num + 1) * 512 ≤ x → st'.dev x ≡ st.dev x

store_inode-IsBytes : (a : ℕ) (p : DiskInode) (f : ℕ → ℕ) → IsBytes f → IsBytes (store_inode a p f)
store_inode-IsBytes a p f bytes = store_int-IsBytes (a + 12) p.i_nr_sects _ (
    store_int-IsBytes (a + 8) p.i_start_sect _
      (store_int-IsBytes (a + 4) p.i_size _ (store_int-IsBytes a p.i_mode f bytes)))

store_inode-below : (a : ℕ) (p : DiskInode) (f : ℕ → ℕ) (x : ℕ) → x < a → store_inode a p f x ≡ f x
store_inode-below a p f x lt =
    store_int-outside (a + 12) p.i_nr_sects _ x (inl (omega arith))
    ∙ store_int-outside (a + 8) p.i_start_sect _ x (inl (omega arith))
    ∙ store_int-outside (a + 4) p.i_size _ x (inl (omega arith))
    ∙ store_int-outside a p.i_mode f x (inl lt)

pub sync_inode-behind :
    (sb : SuperBlock) (num : ℕ) (p : DiskInode) (st : Store) (x : ℕ)
    → (inode_blk sb num + 1) * 512 ≤ x
    → (sync_inode sb num p st).dev x ≡ st.dev x
unfolding sync_inode
sync_inode-behind sb num p st x le =
    overlay-outside st.dev
      (λ a.
        store_inode (fsbuf + (num - 1) % 16 * 32) p (rd_sect (inode_blk sb num) st).mem (fsbuf + a))
      (inode_blk sb num * 512) 512 x (inr (omega (arith, le)))

pub sync_inode-IsSynced :
    (sb : SuperBlock) (num : ℕ) (p : DiskInode) (st : Store)
    → IsBytes st.mem
    → IsBytes st.dev
    → IsSynced sb num st (sync_inode sb num p st)
unfolding sync_inode
sync_inode-IsSynced sb num p st bytes disk = record {
  mem_bytes = stored;
  dev_bytes =
      overlay-IsBytes st.dev
        (λ a. store_inode (fsbuf + (num - 1) % 16 * 32) p (rd_sect blk st).mem (fsbuf + a))
        (blk * 512) 512 disk (λ a. stored (fsbuf + a));
  below = λ x lt.
      store_inode-below (fsbuf + (num - 1) % 16 * 32) p (rd_sect blk st).mem x (omega arith)
      ∙ overlay-outside st.mem (λ a. st.dev (blk * 512 + a)) fsbuf 512 x (inl lt);
  behind = λ x le. sync_inode-behind sb num p st x le;
}
  where
    blk : ℕ
    blk = inode_blk sb num

    stored : IsBytes (store_inode (fsbuf + (num - 1) % 16 * 32) p (rd_sect blk st).mem)
    stored = store_inode-IsBytes (fsbuf + (num - 1) % 16 * 32) p (rd_sect blk st).mem (
        overlay-IsBytes st.mem (λ a. st.dev (blk * 512 + a)) fsbuf 512 bytes
          (λ a. disk (blk * 512 + a)))
