-- ===== src/Tests/Directory.antt =====
-- Directories at concrete inputs.
use kusa_os.Base.{ℕ, ◌+◌, ◌*◌, ◌≡◌, refl, arith, ok, update}
use kusa_os.Fs.Inodes.{DiskInode, Inode}
use kusa_os.Fs.Directory.{Store, search_file}
use kusa_os.Fs.Directory.Search.{IsReady, IsName, NamedEntry}
use kusa_os.Fs.Directory.Find.{IsFound, IsLooked}
use kusa_os.Fs.Path.{Walk, search_path}
use kusa_os.Fs.Path.Flat.{IsPath, search_path-IsFound}
use kusa_os.Fs.Directory.Entry.{new_dir_entry}
use kusa_os.Fs.Directory.Remove.{remove_entry}
use kusa_os.Fs.Directory.Clearing.{IsEntryOf}
use kusa_os.Fs.Directory.Unlinked.{IsRemoved, remove_entry-IsRemoved}
use kusa_os.Fs.Directory.Created.{new_dir_entry-search_file}

abbrev foo : ℕ → ℕ
foo = update (update (update (λ a. 0) 0 102) 1 111) 2 111

-- A directory in the sector 300 with one entry, the inode 1 with the name "."
abbrev device : ℕ → ℕ
device = update (update (λ a. 0) 153600 1) 153604 46

abbrev root : DiskInode
root = record { i_mode = 0x4000; i_size = 16; i_start_sect = 300; i_nr_sects = 2048 }

abbrev store : Store
store = record { mem = update (update (update (λ a. 0) 4096 102) 4097 111) 4098 111; dev = device }

foo-IsName : IsName device foo 3 4096
foo-IsName = record {
  disk = λ x. ground arith;
  full = λ k lt. ground (arith, lt);
  end = refl;
  short = omega arith;
  place = omega arith;
  apart = omega arith;
}

store-IsReady : IsReady device foo 3 4096 store
store-IsReady = record {
  device = refl;
  bytes = λ x. ground arith;
  stored = λ k lt. ground (arith, lt);
}

-- The path "/foo" at 100
abbrev with_path : Walk
with_path = record {
  store = record {
    mem = update (update (update (update (λ a. 0) 100 47) 101 102) 102 111) 103 111;
    dev = device;
  };
  table = λ p. record { i_dev = 0; i_cnt = 0; i_num = 0; disk = root };
}

foo-IsPath : IsPath foo 3 100 4096 with_path.store.mem
foo-IsPath = record {
  bytes = λ x. ground arith;
  place = omega arith;
  apart = omega arith;
  slash = refl;
  stored = λ k lt. ground (arith, lt);
  not_empty = omega arith;
  no_slash = λ k lt. ground (arith, lt);
}

abbrev root_inode : Inode
root_inode = record { i_dev = 0; i_cnt = 1; i_num = 1; disk = root }

search_path-IsFound_example :
    (nr : ℕ) × (search_path 4
        (record { nr_imap_sects = 1; nr_smap_sects = 1 })
        4096
        100
        root_inode
        with_path
      ≡ ok nr)
    × IsFound device foo 3 root nr
search_path-IsFound_example =
    search_path-IsFound device foo 3 4096 foo-IsName 4 100
      (record { nr_imap_sects = 1; nr_smap_sects = 1 }) root_inode with_path foo-IsPath refl
      (omega arith)

not_named : (c : ℕ) → IsLooked root c → ¬ NamedEntry device foo 3 300 c
not_named c looked named = other (named 0 (omega arith))
  where
    other : device (300 * 512 + 16 * c + 4 + 0) ≡ 102 → ⊥
    other h = ground (arith, h)

new_dir_entry-search_file_example :
    (dir' : DiskInode) × (st' : Store) × (new_dir_entry
        (record { nr_imap_sects = 1; nr_smap_sects = 1 })
        1
        root
        7
        4096
        store
      ≡ ok (dir', st'))
    × (search_file dir' 4096 st' ≡ ok 7)
new_dir_entry-search_file_example =
    new_dir_entry-search_file device foo 3 4096 foo-IsName
      (record { nr_imap_sects = 1; nr_smap_sects = 1 }) 1 root 7 store store-IsReady (omega arith)
      (omega arith) not_named

-- The root with a second entry, the inode 7
abbrev two_files : Store
two_files = record { mem = λ a. 0; dev = update device 153616 7 }

abbrev root_of_two : DiskInode
root_of_two = record { i_mode = 0x4000; i_size = 32; i_start_sect = 300; i_nr_sects = 2048 }

second-IsEntryOf : IsEntryOf two_files.dev 300 2 7 1
second-IsEntryOf = record {
  range = omega arith;
  here = refl;
  before = λ c lt e. ground (arith, lt, e);
}

remove_entry-IsRemoved_example :
    (dir' : DiskInode) × (st' : Store) × (remove_entry
        (record { nr_imap_sects = 1; nr_smap_sects = 1 })
        1
        root_of_two
        7
        two_files
      ≡ ok (dir', st'))
    × IsRemoved root_of_two dir' 1 two_files.dev st'.dev
remove_entry-IsRemoved_example =
    remove_entry-IsRemoved (record { nr_imap_sects = 1; nr_smap_sects = 1 }) 1 root_of_two 7 1
      two_files second-IsEntryOf (omega arith)
