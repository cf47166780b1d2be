-- ===== src/Fs/Path.antt =====
-- strip_path() and search_file() of fs/misc.c for a path. The inodes are those of inode_table; the
-- device has one super block. The loop over the characters runs on fuel, one step for each of them
-- and one for the end of the path.
pub mod Flat
use kusa_os.Base.{
  ℕ, zero, suc, ◌+◌, ◌-◌, ◌*◌, ◌/◌, Bool, true, false, Option, none, some, Result, ok, err, Fault,
  ◌>>=◌, ltb, leb, ◌==◌, update, if◌then◌else◌,
}
use kusa_os.Kernel.Memory.{load_int, memset}
use kusa_os.Kernel.Signed.{ℤ, pos, eqb_ℤ}
use kusa_os.Strings.{strcmp}
use kusa_os.Fs.Bitmap.{sector_size}
use kusa_os.Fs.Inodes.{
  nr_inode, DiskInode, Inode, SuperBlock, Lookup, hit, miss, lookup, inode_blk, get_inode,
}
use kusa_os.Fs.Directory.{
  Store, fsbuf, rd_sect, dir_entry_size, entries_per_sector, name_steps, search_file,
}

-- The memory and the device, and inode_table
pub record Walk : Type 0 where
  pub store : Store
  pub table : ℕ → Inode

-- The inode `i` of a sector of inodes
abbrev pub inode_on : (ℕ → ℕ) → ℕ → ℕ → DiskInode
inode_on dev blk i =
    let a = blk * sector_size + i * 32 in
    record {
      i_mode = load_int dev a;
      i_size = load_int dev (a + 4);
      i_start_sect = load_int dev (a + 8);
      i_nr_sects = load_int dev (a + 12);
    }

-- get_inode() reads the sector of an inode that is not in the table into fsbuf.
abbrev pub fsbuf_after : SuperBlock → Walk → ℕ → ℕ → Store
fsbuf_after sb w dev num = elim (lookup nr_inode w.table dev num 0 none) [
  | hit p ↦ w.store
  | miss q ↦ rd_sect (inode_blk sb num) w.store
]

-- strip_path() reads through the pointer, also through a null pointer.
unfoldable pub fetch : SuperBlock → Walk → ℕ → ℕ → Result (ℕ × Walk)
fetch sb w dev num =
    get_inode (λ d. inode_on (w.store).dev) (λ d. sb) w.table dev num >>= λ (inode, table').
    elim inode [
      | none ↦ err Fault.wild
      | some p ↦ ok (p, record { store = fsbuf_after sb w dev num; table = table' })
    ]

abbrev pub i_directory : ℕ
i_directory = 0x4000

-- What the loop over the entries ends with: the entry of inode_table that holds the directory, or
-- nothing
unfoldable pub enter_in : SuperBlock → ℕ → ℕ → ℕ → ℕ → ℕ → ℕ → Walk → Result (Option ℕ × Walk)
enter_in sb dev zero filename pde m nr_dir_entries w = ok (none, w)
enter_in sb dev (suc f) filename pde m nr_dir_entries w =
    strcmp name_steps (w.store).mem filename (pde + 4) >>= λ r. elim (eqb_ℤ r (pos 0)) [
      | true ↦ fetch sb w dev (load_int (w.store).mem pde) >>= λ (p, w').
          elim (((w'.table p).disk).i_mode == i_directory) [
            | true ↦ ok (some p, w')
            | false ↦ elim (ltb nr_dir_entries (m + 1)) [
              | true ↦ ok (none, w')
              | false ↦ enter_in sb dev f filename (pde + dir_entry_size) (m + 1) nr_dir_entries w'
            ]
          ]
      | false ↦ elim (ltb nr_dir_entries (m + 1)) [
        | true ↦ ok (none, w)
        | false ↦ enter_in sb dev f filename (pde + dir_entry_size) (m + 1) nr_dir_entries w
      ]
    ]

-- The directory with the name at `filename`, in another one. The loop over the sectors has at most
-- one turn: if the first sector does not have the name, strip_path() returns -1.
unfoldable pub enter : SuperBlock → ℕ → Inode → Walk → Result (Option ℕ × Walk)
enter sb filename dir w = elim ((dir.disk).i_size == 0) [
  | true ↦ ok (none, w)
  | false ↦
      enter_in sb dir.i_dev entries_per_sector filename fsbuf 0 ((dir.disk).i_size / dir_entry_size)
        (record w { store = rd_sect (dir.disk).i_start_sect w.store })
]

abbrev pub put : ℕ → ℕ → Walk → Walk
put a c w = record w { store = record w.store { mem = update (w.store).mem a c } }

-- The loop over the path, with the directory so far; '/' is 47. The result is -1, or the directory,
-- with the last name at `filename`.
unfoldable pub strip_from : ℕ → SuperBlock → ℕ → ℕ → ℕ → Inode → Walk → Result (Option Inode × Walk)
strip_from zero sb filename s t dir w = err Fault.spins
strip_from (suc f) sb filename s t dir w = elim ((w.store).mem s == 0) [
  | true ↦ ok (some dir, put t 0 w)
  | false ↦ elim ((w.store).mem s == 47) [
    | true ↦ enter sb filename dir (put t 0 w) >>= λ (found, w'). elim found [
      | none ↦ ok (none, w')
      | some p ↦ strip_from f sb filename (s + 1) filename (w'.table p) w'
    ]
    | false ↦ elim (leb 12 (t + 1 - filename)) [
      | true ↦ ok (some dir, put (t + 1) 0 (put t ((w.store).mem s) w))
      | false ↦ strip_from f sb filename (s + 1) (t + 1) dir (put t ((w.store).mem s) w)
    ]
  ]
]

-- A slash at the start is skipped.
abbrev pub path_start : (ℕ → ℕ) → ℕ → ℕ
path_start mem pathname = if mem pathname == 47 then pathname + 1 else pathname

unfoldable pub strip_path : ℕ → SuperBlock → ℕ → ℕ → Inode → Walk → Result (Option Inode × Walk)
strip_path f sb filename pathname root_inode w =
    if pathname == 0
    then ok (none, w)
    else strip_from f sb filename (path_start (w.store).mem pathname) filename root_inode w

-- The first twelve characters of the name are cleared_name.
abbrev pub cleared_name : ℕ → Walk → Walk
cleared_name filename w = record w {
  store = record w.store { mem = memset 12 filename 0 (w.store).mem };
}

-- search_file() for a path; the name is empty for "/".
unfoldable pub search_path : ℕ → SuperBlock → ℕ → ℕ → Inode → Walk → Result ℕ
search_path f sb filename pathname root_inode w =
    strip_path f sb filename pathname root_inode (cleared_name filename w) >>= λ (stripped, w').
    elim stripped [
      | none ↦ ok 0
      | some dir ↦
          if (w'.store).mem filename == 0
          then ok dir.i_num
          else search_file dir.disk filename w'.store
    ]
