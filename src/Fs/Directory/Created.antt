-- ===== src/Fs/Directory/Created.antt =====
-- new_dir_entry() of fs/open.c, and what search_file() of fs/misc.c finds after it.
use mathlib.Core.Path.{subst}
use native.Mathlib.Decide.{dec_lt}
use kusa_os.Base.{
  ℕ, ◌+◌, ◌*◌, ◌/◌, ◌^◌, ◌<◌, ◌≡◌, inl, inr, refl, sym, ap, ◌∙◌, arith, Bool, Bool-cases, ok,
  if◌then◌else◌,
}
use native.Mathlib.Decide.{ℕ_discrete}
use kusa_os.Kernel.Memory.{load_int, load_int-same}
use kusa_os.Strings.Copy.{IsCopied}
use kusa_os.Fs.Inodes.{DiskInode, SuperBlock, inode_blk}
use kusa_os.Fs.Directory.{Store, search_file}
use kusa_os.Fs.Directory.Search.{NamedEntry, IsReady, IsName}
use kusa_os.Fs.Directory.Find.{IsLooked, IsFound, first, missing, search_file-IsFound}
use kusa_os.Fs.Directory.Entry.{Place, slot_blocks, sync_inode, new_dir_entry}
use kusa_os.Fs.Directory.Sync.{IsSynced, sync_inode-IsSynced}
use kusa_os.Fs.Directory.Written.{
  numbered, numbered-other, named, written, before_slot, slot_number, slot_named, copied-IsBytes,
  written-IsBytes,
}
use kusa_os.Fs.Directory.Slot.{IsSlot, slot_blocks-IsSlot}

-- Only one entry is the first with the name.
found_first :
    (dev name : ℕ → ℕ) (l : ℕ) (dir : DiskInode) (e nr : ℕ)
    → IsLooked dir e
    → NamedEntry dev name l dir.i_start_sect e
    → ((c : ℕ) → c < e → ¬ NamedEntry dev name l dir.i_start_sect c)
    → IsFound dev name l dir nr
    → nr ≡ load_int dev (dir.i_start_sect * 512 + 16 * e)
found_first dev name l dir e nr looked named before (first e' looked' named' before') =
    elim (ℕ_discrete e' e) [
      | yes q ↦ ap (λ x. load_int dev (dir.i_start_sect * 512 + 16 * x)) q
      | no ne ↦ elim (dec_lt e' e) [
        | yes lt ↦ absurd (before e' lt named')
        | no k ↦ absurd (before' e (omega (arith, ne, k)) named)
      ]
    ]
found_first dev name l dir e nr looked named before (missing none_is) =
    absurd (none_is e looked named)

-- The inode of the directory after
abbrev with_entry : DiskInode → Bool → DiskInode
with_entry dir is_end = record dir { i_size = if is_end then dir.i_size + 16 else dir.i_size }

module _ (dev name : ℕ → ℕ) (l filename : ℕ) (is : IsName dev name l filename) (sb : SuperBlock)
    (num : ℕ) (dir : DiskInode) (e nr : ℕ) (st : Store) (ready : IsReady dev name l filename st)
    (place : Place) (slot : IsSlot dir.i_start_sect (dir.i_size / 16) e st place)
    (small : nr < 2 ^ 32) (mem' : ℕ → ℕ)
    (copied : IsCopied name l
      (place.pde + 4)
      (numbered dev name l filename is dir.i_start_sect
        (dir.i_size / 16)
        e
        nr
        st
        ready
        place
        slot
        small)
      mem')
    (layout : inode_blk sb num < dir.i_start_sect)
    (unused : (c : ℕ) → IsLooked dir c → ¬ NamedEntry dev name l dir.i_start_sect c) where
  put : Store
  put =
      written dev name l filename is dir.i_start_sect (dir.i_size / 16) e nr st ready place slot
        small mem' copied

  after : Store
  after = sync_inode sb num (with_entry dir place.is_end) put

  synced : IsSynced sb num put after
  unfolding after put written
  synced =
      sync_inode-IsSynced sb num (with_entry dir place.is_end) put
        (copied-IsBytes dev name l filename is dir.i_start_sect (dir.i_size / 16) e nr st ready
          place slot small mem' copied)
        (written-IsBytes dev name l filename is dir.i_start_sect (dir.i_size / 16) e nr st ready
          place slot small mem' copied)

  looked : IsLooked (with_entry dir place.is_end) e
  looked = elim (Bool-cases place.is_end) [
    | inl t ↦
        subst (λ b. IsLooked (with_entry dir b) e) (sym t)
          (omega (arith, slot.at_end t), omega (arith, slot.at_end t))
    | inr f ↦
        subst (λ b. IsLooked (with_entry dir b) e) (sym f)
          (omega (arith, (slot.inside f).0), omega (arith, (slot.inside f).0))
  ]

  named_after : NamedEntry after.dev name l dir.i_start_sect e
  unfolding put
  named_after k lt =
      synced.behind (dir.i_start_sect * 512 + 16 * e + 4 + k) (omega (arith, layout))
      ∙ slot_named dev name l filename is dir.i_start_sect (dir.i_size / 16) e nr st ready place
          slot small mem' copied k lt

  not_before : (c : ℕ) → c < e → ¬ NamedEntry after.dev name l dir.i_start_sect c
  unfolding put
  not_before c lt h =
      unused c (omega (arith, lt, slot.range), omega (arith, lt, slot.range))
        (λ k small_k.
          sym (
            before_slot dev name l filename is dir.i_start_sect (dir.i_size / 16) e nr st ready
              place slot small mem' copied (dir.i_start_sect * 512 + 16 * c + 4 + k)
              (omega (arith, lt, small_k, is.short)))
          ∙ sym (synced.behind (dir.i_start_sect * 512 + 16 * c + 4 + k) (omega (arith, layout)))
          ∙ h k small_k)

  number_after : load_int after.dev (dir.i_start_sect * 512 + 16 * e) ≡ nr
  unfolding put
  number_after =
      load_int-same after.dev put.dev (dir.i_start_sect * 512 + 16 * e)
        (dir.i_start_sect * 512 + 16 * e)
        (λ k lt. synced.behind (dir.i_start_sect * 512 + 16 * e + k) (omega (arith, layout)))
      ∙ slot_number dev name l filename is dir.i_start_sect (dir.i_size / 16) e nr st ready place
          slot small mem' copied

  after-IsName : IsName after.dev name l filename
  after-IsName = record {
    disk = synced.dev_bytes;
    full = is.full;
    end = is.end;
    short = is.short;
    place = is.place;
    apart = is.apart;
  }

  after-IsReady : IsReady after.dev name l filename after
  unfolding put written
  after-IsReady = record {
    device = refl;
    bytes = synced.mem_bytes;
    stored = λ k lt.
        synced.below (filename + k) (omega (arith, lt, is.apart))
        ∙ copied.below (filename + k) (omega (arith, lt, is.apart, slot.address))
        ∙ numbered-other dev name l filename is dir.i_start_sect (dir.i_size / 16) e nr st ready
            place slot small (filename + k) (inl (omega (arith, lt, is.apart, slot.address)))
        ∙ slot.outside (filename + k) (inl (omega (arith, lt, is.apart)))
        ∙ ready.stored k lt;
  }

  finds : search_file (with_entry dir place.is_end) filename after ≡ ok nr
  finds =
      let (nr', returns, found) =
        search_file-IsFound after.dev name l filename after-IsName (with_entry dir place.is_end)
          after after-IsReady in
      returns
      ∙ ap ok (
          found_first after.dev name l (with_entry dir place.is_end) e nr' looked named_after
            not_before found
          ∙ number_after)

-- new_dir_entry() puts a name of at most eleven characters and an inode number into a directory
-- that has no entry of that name, and search_file() then finds that inode number under the name.
-- The device and the memory are bytes, the name is in the memory below fsbuf, and the inodes
-- are stored on the device before the sectors of the directory.
pub new_dir_entry-search_file :
    (dev name : ℕ → ℕ) (l filename : ℕ)
    → IsName dev name l filename
    → (sb : SuperBlock) (num : ℕ) (dir : DiskInode) (nr : ℕ) (st : Store)
    → IsReady dev name l filename st
    → nr < 2 ^ 32
    → inode_blk sb num < dir.i_start_sect
    → ((c : ℕ) → IsLooked dir c → ¬ NamedEntry dev name l dir.i_start_sect c)
    → (dir' : DiskInode) × (st' : Store) × (new_dir_entry sb num dir nr filename st
        ≡ ok (dir', st'))
      × (search_file dir' filename st' ≡ ok nr)
unfolding new_dir_entry numbered after put written
new_dir_entry-search_file dev name l filename is sb num dir nr st ready small layout unused =
    let (e, place, returns, slot) =
      slot_blocks-IsSlot ((dir.i_size + 512) / 512) 0 dir.i_start_sect (dir.i_size / 16) st
        (omega arith) (omega arith) in
    let (mem', copies, copied) =
      named dev name l filename is dir.i_start_sect (dir.i_size / 16) e nr st ready place slot
        small in
    (
      with_entry dir place.is_end,
      after dev name l filename is sb num dir e nr st ready place slot small mem' copied layout
          unused,
      rw
          (ap (λ b. slot_blocks ((dir.i_size + 512) / 512) b 0 (dir.i_size / 16) st)
              {x = dir.i_start_sect} {y = dir.i_start_sect + 0} (omega arith)
            ∙ returns)
          (rw copies refl),
      finds dev name l filename is sb num dir e nr st ready place slot small mem' copied layout
          unused,
    )
