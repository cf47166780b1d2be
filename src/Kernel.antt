-- ===== src/Kernel.antt =====
-- The kernel's shared state: include/sys/proc.h (struct proc), include/sys/global.h, and the
-- constants of include/sys/const.h and include/sys/proc.h. `p_flags` is the record of its five
-- bits, a pointer into proc_table is an index of it, and memory is a function from addresses to
-- bytes. An `int` that holds a pid, ANY, INTERRUPT or NO_TASK is a `Peer`.
pub mod Signed
pub mod Memory
use kusa_os.Base.{ℕ, ◌+◌, ◌^◌, Bool, true, false, not, ◌&&◌, Option, ◌==◌}
use Signed.{ℤ}

abbrev pub nr_tasks : ℕ
nr_tasks = 5

abbrev pub nr_procs : ℕ
nr_procs = 32

abbrev pub nr_native_procs : ℕ
nr_native_procs = 4

abbrev pub nr_consoles : ℕ
nr_consoles = 3

-- NR_TASKS + NR_PROCS, the number of entries of proc_table
abbrev pub nr_entries : ℕ
nr_entries = nr_tasks + nr_procs

abbrev pub task_tty : ℕ
task_tty = 0

abbrev pub task_fs : ℕ
task_fs = 3

abbrev pub init_pid : ℕ
init_pid = 5

abbrev pub u32_mod : ℕ
u32_mod = 2 ^ 32

-- sizeof(MESSAGE) on i386: two ints and the largest member of the union, struct mess3
abbrev pub message_size : ℕ
message_size = 56

pub record Flags : Type 0 where
  pub sending : Bool
  pub receiving : Bool
  pub waiting : Bool
  pub hanging : Bool
  pub free_slot : Bool

-- `p_flags == 0`
abbrev pub is_clear : Flags → Bool
is_clear f =
    not f.sending && (not f.receiving && (not f.waiting && (not f.hanging && not f.free_slot)))

-- `p_flags == SENDING`
abbrev pub only_sending : Flags → Bool
only_sending f =
    f.sending && (not f.receiving && (not f.waiting && (not f.hanging && not f.free_slot)))

-- `p_flags == RECEIVING`
abbrev pub only_receiving : Flags → Bool
only_receiving f =
    f.receiving && (not f.sending && (not f.waiting && (not f.hanging && not f.free_slot)))

-- `p_flags == FREE_SLOT`
abbrev pub only_free : Flags → Bool
only_free f =
    f.free_slot && (not f.sending && (not f.receiving && (not f.waiting && not f.hanging)))

abbrev pub no_flags : Flags
no_flags = record {
  sending = false;
  receiving = false;
  waiting = false;
  hanging = false;
  free_slot = false;
}

pub data Peer : Type 0 where
  from : ℕ → Peer
  any interrupt no_task : Peer

-- `x == pid`, for an `x` of the four kinds
abbrev pub peer_is : Peer → ℕ → Bool
peer_is (from p) pid = p == pid
peer_is _ pid = false

abbrev pub is_any : Peer → Bool
is_any any = true
is_any _ = false

abbrev pub is_interrupt : Peer → Bool
is_interrupt interrupt = true
is_interrupt _ = false

abbrev pub is_no_task : Peer → Bool
is_no_task no_task = true
is_no_task _ = false

-- `base` is the base of the data segment in the process's LDT; `p_msg` is 0 for a null pointer.
pub record Proc : Type 0 where
  pub base : ℕ
  pub flags : Flags
  pub p_msg : ℕ
  pub recvfrom : Peer
  pub sendto : Peer
  pub has_int_msg : Bool
  pub q_sending : Option ℕ
  pub next_sending : Option ℕ
  pub parent : Peer
  pub exit_status : ℤ
  pub priority : ℤ
  pub ticks : ℤ

-- `before` is what the memory at proc_table[INTERRUPT], in front of the table, reads as.
pub record Kernel : Type 0 where
  pub procs : ℕ → Proc
  pub before : Proc
  pub ready : ℕ
  pub mem : ℕ → ℕ
  pub k_reenter : ℤ
  pub ticks : ℕ
  pub key_pressed : Bool
  pub policy : ℤ
