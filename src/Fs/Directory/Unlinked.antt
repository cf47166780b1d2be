-- ===== src/Fs/Directory/Unlinked.antt =====
-- do_unlink() of fs/link.c: the directory on the device after a file is taken out of it.
use native.Mathlib.Decide.{ℕ_discrete}
use kusa_os.Base.{
  ℕ, ◌+◌, ◌*◌, ◌/◌, ◌≤◌, ◌<◌, ◌≡◌, ◌≢◌, ◌⊎◌, refl, ap, ◌∙◌, arith, ok, ==_iff, ne→==,
}
use kusa_os.Fs.Inodes.{DiskInode, SuperBlock, inode_blk}
use kusa_os.Fs.Directory.{Store}
use kusa_os.Fs.Directory.Sync.{sync_inode-behind}
use kusa_os.Fs.Directory.Entry.{sync_inode}
use kusa_os.Fs.Directory.Remove.{remove_blocks, remove_entry}
use kusa_os.Fs.Directory.Clearing.{IsEntryOf, remove_blocks-IsCleared}
use kusa_os.Fs.Directory.Removed.{used}

-- What the removal of the entry `e` leaves: from the first sector of the directory on, only the
-- entry has changed, and it is 0. The size is the same, unless the entry was the last one; it is
-- then as if only the entries in use before it were there, one behind the other.
pub record IsRemoved (dir dir' : DiskInode) (e : ℕ) (dev dev' : ℕ → ℕ) : Type 0 where
  pub entry : (x : ℕ) → x < 16 → dev' (dir.i_start_sect * 512 + 16 * e + x) ≡ 0
  pub rest :
      (x : ℕ)
      → dir.i_start_sect * 512 ≤ x
      → (x < dir.i_start_sect * 512 + 16 * e) ⊎ (dir.i_start_sect * 512 + 16 * e + 16 ≤ x)
      → dev' x ≡ dev x
  pub not_last : e + 1 ≢ dir.i_size / 16 → dir' ≡ dir
  pub last : e + 1 ≡ dir.i_size / 16 → dir'.i_size ≡ 16 * used dev (dir.i_start_sect * 512) e

-- do_unlink() finds the first entry of a directory with the inode number and clears it, and no other
-- byte of the directory. Where it was not the last, the inode of the directory stays as it
-- is. Where it was, the size becomes 16 times the number of the entries before it that are in
-- use, however far apart they are. The inodes are stored before the sectors of the directory.
pub remove_entry-IsRemoved :
    (sb : SuperBlock) (num : ℕ) (dir : DiskInode) (nr e : ℕ) (st : Store)
    → IsEntryOf st.dev dir.i_start_sect (dir.i_size / 16) nr e
    → inode_blk sb num < dir.i_start_sect
    → (dir' : DiskInode) × (st' : Store) × (remove_entry sb num dir nr st ≡ ok (dir', st'))
      × IsRemoved dir dir' e st.dev st'.dev
unfolding remove_entry used
remove_entry-IsRemoved sb num dir nr e st is layout =
    let (cleared, found, at) =
      remove_blocks-IsCleared st.dev dir.i_start_sect (dir.i_size / 16) nr e is
        ((dir.i_size + 512) / 512) 0 0 st refl (omega arith) (omega (arith, is.range)) no_size in
    let returns =
      ap (λ b. remove_blocks ((dir.i_size + 512) / 512) b 0 (dir.i_size / 16) nr 0 st)
        {x = dir.i_start_sect} {y = dir.i_start_sect + 0} (omega arith)
      ∙ found in
    elim (ℕ_discrete (e + 1) (dir.i_size / 16)) [
      | no more ↦ (
        dir,
        cleared.store,
        rw returns (rw (at.m, ne→== (e + 1) (dir.i_size / 16) more) refl),
        record {
          entry = (at.zeroed).entry;
          rest = λ x le h. (at.zeroed).rest x h;
          not_last = λ ne. refl;
          last = λ q. absurd (more q);
        },
      )
      | yes end ↦ (
        record dir { i_size = cleared.dir_size },
        sync_inode sb num (record dir { i_size = cleared.dir_size }) cleared.store,
        rw returns (rw (at.m, (==_iff (e + 1) (dir.i_size / 16)).1 end) refl),
        record {
          entry = λ x lt.
              sync_inode-behind sb num (record dir { i_size = cleared.dir_size }) cleared.store
                (dir.i_start_sect * 512 + 16 * e + x) (omega (arith, layout))
              ∙ (at.zeroed).entry x lt;
          rest = λ x le h.
              sync_inode-behind sb num (record dir { i_size = cleared.dir_size }) cleared.store x
                (omega (arith, layout, le))
              ∙ (at.zeroed).rest x h;
          not_last = λ ne. absurd (ne end);
          last = λ q. at.dir_size;
        },
      )
    ]
  where
    no_size : 0 ≡ 16 * used st.dev (dir.i_start_sect * 512) (32 * 0)
    no_size = refl
