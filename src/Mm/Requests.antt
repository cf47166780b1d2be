-- ===== src/Mm/Requests.antt =====
-- The requests of mm/main.c that only read or change proc_table and the scheduling policy, and
-- alloc_mem(). A pid and a priority come from a message, so they may be any `int`. A test that
-- reads proc_table[pid] of a pid outside the table is joined to the others by `|`, with the same
-- outcome whatever it reads.
use kusa_os.Base.{
  ℕ, zero, suc, ◌+◌, ◌-◌, ◌*◌, Bool, false, not, ◌&&◌, Result, ok, err, Fault, assert, ◌>>◌, ltb,
  leb, update, if◌then◌else◌,
}
use kusa_os.Kernel.{Kernel, nr_tasks, nr_native_procs, nr_entries, only_free}
use kusa_os.Kernel.Signed.{ℤ, pos, negsuc, leb_ℤ}

-- PROCS_BASE
abbrev pub procs_base : ℕ
procs_base = 10485760

-- PROC_IMAGE_SIZE_DEFAULT
abbrev pub image_size : ℕ
image_size = 1048576

-- The address of a process's memory, for a pid behind the native processes.
abbrev pub get_proc_memory : ℕ → ℕ
get_proc_memory pid = procs_base + (pid - (nr_tasks + nr_native_procs)) * image_size

-- alloc_mem() for a pid; for a negative one it is `Buddy.alloc`.
unfoldable pub alloc_mem : ℕ → ℕ → ℕ → Result ℕ
alloc_mem memory_size pid memsize = do
  assert (leb (nr_tasks + nr_native_procs) pid)
  if ltb image_size memsize then err Fault.panicked else ok tt
  if leb memory_size (get_proc_memory pid + memsize) then err Fault.panicked else ok tt
  ok (get_proc_memory pid)

-- An entry from `least` on that is in use.
abbrev pub is_target : Kernel → ℕ → ℤ → Bool
is_target k least (pos pid) =
    leb least pid && (ltb pid nr_entries && not (only_free (k.procs pid).flags))
is_target k least (negsuc _) = false

abbrev pub pid_of : ℤ → ℕ
pid_of (pos pid) = pid
pid_of (negsuc _) = 0

-- The priority is stored as it comes; the local variable that is put in bounds is not used.
unfoldable pub try_change_proc_priority : Kernel → ℤ → ℤ → ℤ × Kernel
try_change_proc_priority k pid pri =
    if is_target k nr_tasks pid
    then (
      pos 0,
      record k {
        procs = update k.procs (pid_of pid) (record (k.procs (pid_of pid)) { priority = pri });
      },
    )
    else (negsuc 0, k)

-- SCHED_RR, SCHED_PRI, SCHED_FIFO and SCHED_PRI_DY are 1 to 4.
unfoldable pub try_change_schedule_policy : Kernel → ℤ → ℤ × Kernel
try_change_schedule_policy k policy =
    if leb_ℤ (pos 1) policy && leb_ℤ policy (pos 4)
    then (policy, record k { policy = policy })
    else (k.policy, k)

-- The loop of do_monitor(): `flag` is the bit of the entry `i`, in a u64.
unfoldable pub monitor_from : ℕ → Kernel → ℕ → ℕ → ℕ → ℕ
monitor_from zero k i flag long = long
monitor_from (suc f) k i flag long =
    monitor_from f k (i + 1) (flag + flag)
      (if not (only_free (k.procs i).flags) then long + flag else long)

unfoldable pub do_monitor : Kernel → ℕ
unfolding monitor_from
do_monitor k = monitor_from nr_entries k 0 1 0
