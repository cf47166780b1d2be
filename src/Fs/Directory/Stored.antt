-- ===== src/Fs/Directory/Stored.antt =====
-- sync_inode() of fs/main.c: what it makes of the device.
use kusa_os.Base.{ℕ, ◌+◌, ◌-◌, ◌*◌, ◌/◌, ◌%◌, ◌^◌, ◌≤◌, ◌<◌, ◌≡◌, ap, ◌∙◌, ◌⊎◌, inl, inr, arith}
use kusa_os.Kernel.Memory.{load_int, store_int, load_int-same}
use kusa_os.Fs.Inodes.{DiskInode, SuperBlock, inode_blk}
use kusa_os.Fs.Transfer.Overlay.{overlay-inside, overlay-outside, where_is}
use kusa_os.Fs.Directory.{Store, fsbuf, rd_sect}
use kusa_os.Fs.Directory.Bytes.{store_int-outside}
use kusa_os.Fs.Directory.Entry.{store_inode, sync_inode}

-- Where the inode `num` is on the device; its four fields are the first 16 bytes there.
abbrev pub inode_at : SuperBlock → ℕ → ℕ
inode_at sb num = inode_blk sb num * 512 + (num - 1) % 16 * 32

-- The fields of an inode, in four bytes each
pub record IsInode (f : ℕ → ℕ) (a : ℕ) (p : DiskInode) : Type 0 where
  pub mode : load_int f a ≡ p.i_mode % 2 ^ 32
  pub size : load_int f (a + 4) ≡ p.i_size % 2 ^ 32
  pub start_sect : load_int f (a + 8) ≡ p.i_start_sect % 2 ^ 32
  pub nr_sects : load_int f (a + 12) ≡ p.i_nr_sects % 2 ^ 32

store_int-load_low : (a v : ℕ) (f : ℕ → ℕ) → load_int (store_int a v f) a ≡ v % 2 ^ 32
unfolding store_int
store_int-load_low a v f = omega (arith, b0, b1, b2, b3)
  where
    b0 : store_int a v f a ≡ v % 256
    b0 = ground arith

    b1 : store_int a v f (a + 1) ≡ v / 256 % 256
    b1 = ground arith

    b2 : store_int a v f (a + 2) ≡ v / 65536 % 256
    b2 = ground arith

    b3 : store_int a v f (a + 3) ≡ v / 16777216 % 256
    b3 = ground arith

-- Another int is stored behind.
kept : (a b v w : ℕ) (f : ℕ → ℕ) → b + 4 ≤ a → load_int f b ≡ w → load_int (store_int a v f) b ≡ w
kept a b v w f le e =
    load_int-same (store_int a v f) f b b
      (λ k lt. store_int-outside a v f (b + k) (inl (omega (arith, le, lt))))
    ∙ e

store_inode-IsInode : (a : ℕ) (p : DiskInode) (f : ℕ → ℕ) → IsInode (store_inode a p f) a p
store_inode-IsInode a p f = record {
  mode = kept (a + 12) a p.i_nr_sects _ f2 (omega arith) (
      kept (a + 8) a p.i_start_sect _ f1 (omega arith)
        (kept (a + 4) a p.i_size _ f0 (omega arith) (store_int-load_low a p.i_mode f)));
  size = kept (a + 12) (a + 4) p.i_nr_sects _ f2 (omega arith) (
      kept (a + 8) (a + 4) p.i_start_sect _ f1 (omega arith)
        (store_int-load_low (a + 4) p.i_size f0));
  start_sect =
      kept (a + 12) (a + 8) p.i_nr_sects _ f2 (omega arith)
        (store_int-load_low (a + 8) p.i_start_sect f1);
  nr_sects = store_int-load_low (a + 12) p.i_nr_sects f2;
}
  where
    f0 : ℕ → ℕ
    f0 = store_int a p.i_mode f

    f1 : ℕ → ℕ
    f1 = store_int (a + 4) p.i_size f0

    f2 : ℕ → ℕ
    f2 = store_int (a + 8) p.i_start_sect f1

store_inode-outside :
    (a : ℕ) (p : DiskInode) (f : ℕ → ℕ) (x : ℕ) → (x < a) ⊎ (a + 16 ≤ x) → store_inode a p f x ≡ f x
store_inode-outside a p f x h =
    store_int-outside (a + 12) p.i_nr_sects _ x (omega (arith, h))
    ∙ store_int-outside (a + 8) p.i_start_sect _ x (omega (arith, h))
    ∙ store_int-outside (a + 4) p.i_size _ x (omega (arith, h))
    ∙ store_int-outside a p.i_mode f x (omega (arith, h))

module _ (sb : SuperBlock) (num : ℕ) (p : DiskInode) (st : Store) where
  sector : ℕ
  sector = inode_blk sb num * 512

  slot : ℕ
  slot = fsbuf + (num - 1) % 16 * 32

  buffer : ℕ → ℕ
  buffer = store_inode slot p (rd_sect (inode_blk sb num) st).mem

  pub sync_inode-outside :
      (x : ℕ)
      → (x < inode_at sb num) ⊎ (inode_at sb num + 16 ≤ x)
      → (sync_inode sb num p st).dev x ≡ st.dev x
  unfolding sync_inode sector slot buffer
  sync_inode-outside x h = elim (where_is x sector 512) [
    | inl before ↦ overlay-outside st.dev (λ a. buffer (fsbuf + a)) sector 512 x (inl before)
    | inr (inl (le, lt)) ↦
        overlay-inside st.dev (λ a. buffer (fsbuf + a)) sector 512 x le lt
        ∙ store_inode-outside slot p (rd_sect (inode_blk sb num) st).mem (fsbuf + (x - sector))
            (omega (arith, h, le))
        ∙ overlay-inside st.mem (λ a. st.dev (inode_blk sb num * 512 + a)) fsbuf 512
            (fsbuf + (x - sector)) (omega arith) (omega (arith, le, lt))
        ∙ ap st.dev (omega (arith, le))
    | inr (inr behind) ↦ overlay-outside st.dev (λ a. buffer (fsbuf + a)) sector 512 x (inr behind)
  ]

  written :
      (c w : ℕ)
      → c + 4 ≤ 16
      → load_int buffer (slot + c) ≡ w
      → load_int (sync_inode sb num p st).dev (inode_at sb num + c) ≡ w
  unfolding sync_inode sector slot buffer
  written c w le e =
      load_int-same (sync_inode sb num p st).dev buffer (inode_at sb num + c) (slot + c) (λ k lt.
        overlay-inside st.dev (λ a. buffer (fsbuf + a)) sector 512 (inode_at sb num + c + k)
          (omega arith) (omega (arith, le, lt))
        ∙ ap buffer (omega arith))
      ∙ e

  pub sync_inode-IsInode : IsInode (sync_inode sb num p st).dev (inode_at sb num) p
  unfolding slot buffer
  sync_inode-IsInode =
      let stored = store_inode-IsInode slot p (rd_sect (inode_blk sb num) st).mem in
      record {
        mode =
            ap (load_int (sync_inode sb num p st).dev) (omega arith)
            ∙ written 0 _ (omega arith) (ap (load_int buffer) (omega arith) ∙ stored.mode);
        size = written 4 _ (omega arith) stored.size;
        start_sect = written 8 _ (omega arith) stored.start_sect;
        nr_sects = written 12 _ (omega arith) stored.nr_sects;
      }
