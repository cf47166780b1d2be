-- ===== src/Fs/Files.antt =====
-- The files that processes have open: do_open() from the free slot on, and do_close(), of
-- fs/open.c, fs_fork() and fs_exit() of fs/main.c. A pointer into f_desc_table or inode_table is
-- an index, and a null pointer `none`. A count that would get below 0 is `wild`.
pub mod Share
pub mod Exit
pub mod Close
use kusa_os.Base.{
  ℕ, zero, suc, ◌+◌, ◌-◌, Bool, true, false, Option, none, some, Result, ok, err, Fault, ◌>>=◌,
  ◌>>◌, assert, ltb, ◌==◌, update, if◌then◌else◌,
}
use kusa_os.Fs.Inodes.{Inode, put_inode}

-- NR_FILES, the slots of a process, and NR_FILE_DESC
abbrev pub nr_files : ℕ
nr_files = 64

abbrev pub nr_file_desc : ℕ
nr_file_desc = 64

pub record FileDesc : Type 0 where
  pub fd_mode : ℕ
  pub fd_pos : ℕ
  pub fd_cnt : ℕ
  pub fd_inode : Option ℕ

-- `filp pid` is the `filp` of the process `pid`.
pub record Files : Type 0 where
  pub filp : ℕ → ℕ → Option ℕ
  pub f_desc_table : ℕ → FileDesc
  pub inode_table : ℕ → Inode

abbrev pub set_filp : Files → ℕ → ℕ → Option ℕ → Files
set_filp s pid fd d = record s { filp = update s.filp pid (update (s.filp pid) fd d) }

abbrev pub set_desc : Files → ℕ → FileDesc → Files
set_desc s d desc = record s { f_desc_table = update s.f_desc_table d desc }

-- `i_cnt++` and `i_cnt--`
abbrev pub more : (ℕ → Inode) → ℕ → ℕ → Inode
more table n = update table n (record (table n) { i_cnt = (table n).i_cnt + 1 })

abbrev pub fewer : (ℕ → Inode) → ℕ → ℕ → Inode
fewer table n = update table n (record (table n) { i_cnt = (table n).i_cnt - 1 })

-- The first slot without a file, of `f` from `i` on
unfoldable pub find_slot_from : ℕ → ℕ → (ℕ → Option ℕ) → Result ℕ
find_slot_from zero i slots = err Fault.panicked
find_slot_from (suc f) i slots = elim (slots i) [
  | none ↦ ok i
  | some d ↦ find_slot_from f (i + 1) slots
]

-- What the two searches of do_open() find
unfoldable pub find_fd : Files → ℕ → Result (ℕ × ℕ)
unfolding find_slot_from
find_fd s pid = do
  fd ← find_slot_from nr_files 0 (s.filp pid)
  i ← find_slot_from nr_file_desc 0 (λ d. (s.f_desc_table d).fd_inode)
  ok (fd, i)

-- The inode `pin`, counted already, is connected with a descriptor and a slot of the caller.
unfoldable pub connect : Files → ℕ → ℕ → ℕ → ℕ → ℕ → Files
connect s pid fd i pin flags =
    set_desc (set_filp s pid fd (some i)) i
      (record { fd_mode = flags; fd_pos = 0; fd_cnt = 1; fd_inode = some pin })

-- The last lines of do_close(): a descriptor without users forgets its inode.
abbrev pub release : FileDesc → FileDesc
release desc =
    if desc.fd_cnt == 1
    then record desc { fd_cnt = 0; fd_inode = none }
    else record desc { fd_cnt = desc.fd_cnt - 1 }

-- `table` is inode_table after the count of the inode is taken down.
abbrev pub dropped : Files → ℕ → ℕ → ℕ → (ℕ → Inode) → Result Files
dropped s pid fd d table =
    if (s.f_desc_table d).fd_cnt == 0
    then err Fault.wild
    else ok (record (set_desc (set_filp s pid fd none) d (release (s.f_desc_table d))) {
      inode_table = table;
    })

unfoldable pub do_close : Files → ℕ → ℕ → Result Files
unfolding put_inode
do_close s pid fd = elim (s.filp pid fd) [
  | none ↦ err Fault.wild
  | some d ↦ elim ((s.f_desc_table d).fd_inode) [
    | none ↦ err Fault.wild
    | some n ↦ put_inode s.inode_table n >>= dropped s pid fd d
  ]
]

-- One round of the loop of fs_fork(), for the descriptor `d`
abbrev pub share : Files → ℕ → Result Files
share s d = elim ((s.f_desc_table d).fd_inode) [
  | none ↦ err Fault.wild
  | some n ↦
      ok
        (record (set_desc s d
          (record (s.f_desc_table d) { fd_cnt = (s.f_desc_table d).fd_cnt + 1 })) {
            inode_table = more s.inode_table n;
          })
]

unfoldable pub fork_from : ℕ → ℕ → Files → ℕ → Result Files
fork_from zero i s pid = ok s
fork_from (suc f) i s pid = elim (s.filp pid i) [
  | none ↦ fork_from f (i + 1) s pid
  | some d ↦ share s d >>= λ s'. fork_from f (i + 1) s' pid
]

-- `pid` is the child, whose slots are a copy of its parent's.
unfoldable pub fs_fork : Files → ℕ → Result Files
unfolding fork_from
fs_fork s pid = fork_from nr_files 0 s pid

-- One round of the loop of fs_exit()
abbrev pub drop : Files → ℕ → ℕ → ℕ → Result Files
drop s pid i d = elim ((s.f_desc_table d).fd_inode) [
  | none ↦ err Fault.wild
  | some n ↦
      if (s.inode_table n).i_cnt == 0
      then err Fault.wild
      else dropped s pid i d (fewer s.inode_table n)
]

unfoldable pub exit_from : ℕ → ℕ → Files → ℕ → Result Files
exit_from zero i s pid = ok s
exit_from (suc f) i s pid = elim (s.filp pid i) [
  | none ↦ exit_from f (i + 1) s pid
  | some d ↦ drop s pid i d >>= λ s'. exit_from f (i + 1) s' pid
]

unfoldable pub fs_exit : Files → ℕ → Result Files
unfolding exit_from
fs_exit s pid = exit_from nr_files 0 s pid
