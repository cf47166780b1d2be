-- ===== src/Tests/Files.antt =====
-- The open files at concrete inputs.
use kusa_os.Base.{ℕ, ◌≡◌, refl, arith, Option, none, some, ok, ◌==◌, if◌then◌else◌}
use kusa_os.Fs.Inodes.{Inode}
use kusa_os.Fs.Files.{Files, fs_fork, fs_exit, find_fd, connect, do_close}
use kusa_os.Fs.Files.Share.{IsShared, fs_fork-IsShared, holders, users, IsOpen}
use kusa_os.Fs.Files.Exit.{IsDropped, IsHeld, fs_exit-IsDropped}
use kusa_os.Fs.Files.Close.{IsBack, do_close-connect}

abbrev some_inode : ℕ → Inode
some_inode n = record {
  i_dev = 0;
  i_cnt = 2;
  i_num = n;
  disk = record { i_mode = 0; i_size = 0; i_start_sect = 0; i_nr_sects = 0 };
}

abbrev shell : ℕ → Option ℕ
shell j = if j == 0 then some 4 else none

-- Each process has the descriptor 4 in its first slot.
abbrev files : Files
files = record {
  filp = λ pid. shell;
  f_desc_table = λ d. record { fd_mode = 2; fd_pos = 0; fd_cnt = 2; fd_inode = some 1 };
  inode_table = some_inode;
}

fs_fork-IsShared_example :
    (s' : Files) × (fs_fork files 12 ≡ ok s') × IsShared 64 0 12 (λ d. some 1) files s'
unfolding IsOpen
fs_fork-IsShared_example = fs_fork-IsShared files 12 (λ j d le lt e. (1, refl))

shell-IsHeld : IsHeld 64 0 12 (λ d. some 1) files
unfolding IsOpen holders users
shell-IsHeld = record {
  same = λ d lt. refl;
  has_inode = λ j d le lt e. (1, refl);
  enough = λ d. ground arith;
  enough_inodes = λ n. ground arith;
}

fs_exit-IsDropped_example :
    (s' : Files) × (fs_exit files 12 ≡ ok s') × IsDropped 64 0 12 (λ d. some 1) files s'
fs_exit-IsDropped_example = fs_exit-IsDropped files 12 (λ d. some 1) shell-IsHeld

abbrev closed : Files
closed = record {
  filp = λ pid j. none;
  f_desc_table = λ d. record { fd_mode = 0; fd_pos = 0; fd_cnt = 0; fd_inode = none };
  inode_table = some_inode;
}

do_close-connect_example :
    (s' : Files) × (do_close (connect closed 12 0 0 5 2) 12 0 ≡ ok s') × IsBack closed s' 0 5
unfolding find_fd
do_close-connect_example = do_close-connect closed 12 0 0 5 2 refl (omega arith)
