-- ===== src/Mm/Life.antt =====
-- The life of a process, mm/forkexit.c and do_kill() of mm/main.c: do_fork(), do_exit(),
-- do_exit_by_mm(), cleanup() and do_wait(). A message that the memory manager sends is put in the
-- list `sent`; that it reaches its receiver is the work of the kernel (Ipc), and what the file
-- system does with its own is not modelled. `caller_size` is what do_fork() reads from the
-- caller's descriptors; that the two of them agree, which do_fork() asserts, is left out.
pub mod Fork
pub mod Exit
use kusa_os.Base.{
  ℕ, zero, suc, ◌+◌, ◌<◌, Bool, true, false, ◌&&◌, Option, none, some, Result, ok, err, Fault,
  assert, ◌>>=◌, ◌>>◌, List, [], ◌∷◌, ◌++◌, leb, ltb, ◌==◌, update, if◌then◌else◌,
}
use kusa_os.Kernel.{
  Kernel, Proc, Flags, Peer, from, no_flags, peer_is, only_free, nr_tasks, nr_native_procs,
  nr_consoles, nr_entries, init_pid,
}
use kusa_os.Kernel.Signed.{ℤ, pos, negsuc}
use kusa_os.Kernel.Memory.{phys_copy}
use kusa_os.Mm.Requests.{alloc_mem, is_target, pid_of}

-- What the memory manager sends: to the file system, to a child, to a parent.
pub data Sent : Type 0 where
  fork_notice exit_notice child_born no_children : ℕ → Sent
  child_done : Peer → ℕ → ℤ → Sent

pub record Mm : Type 0 where
  pub kernel : Kernel
  pub sent : List Sent
  pub memory_size : ℕ

abbrev pub put : Mm → ℕ → Proc → Mm
put m i p = record m { kernel = record (m.kernel) { procs = update m.kernel.procs i p } }

abbrev pub send : Mm → Sent → Mm
send m x = record m { sent = m.sent ++ (x ∷ []) }

abbrev pub entry : Mm → ℕ → Proc
entry m i = m.kernel.procs i

-- The loop of do_fork(): the first free entry, or the number of entries.
unfoldable pub find_slot : ℕ → Kernel → ℕ → ℕ
find_slot zero k i = i
find_slot (suc f) k i = elim (only_free (k.procs i).flags) [
  | true ↦ i
  | false ↦ find_slot f k (i + 1)
]

-- The child's entry
abbrev pub child_of : Proc → ℕ → ℤ → ℕ → Proc
child_of p pid priority base = record p {
  parent = from pid;
  priority = priority;
  ticks = priority;
  base = base;
}

-- do_fork() once a free entry has been found
unfoldable pub fork_into : Mm → ℕ → ℕ → ℕ → ℤ → Result Mm
fork_into m child pid caller_size priority = do
  assert (ltb child nr_entries)
  base ← alloc_mem m.memory_size child caller_size
  let m1 = put m child (child_of (entry m pid) pid priority base)
  let m2 = record m1 {
    kernel = record (m1.kernel) {
      mem = phys_copy caller_size base (entry m pid).base m1.kernel.mem;
    };
  }
  ok (send (send m2 (fork_notice child)) (child_born child))

-- `none` stands for the return value -1; the child's pid is given otherwise.
unfoldable pub do_fork : Mm → ℕ → ℕ → ℤ → Result (Option ℕ × Mm)
do_fork m pid caller_size priority = do
  let child = find_slot nr_entries m.kernel 0
  assert (leb (nr_tasks + nr_native_procs) child)
  if child == nr_entries
      then ok (none, m)
      else (fork_into m child pid caller_size priority >>= λ m'. ok (some child, m'))

abbrev pub free_flags : Flags
free_flags = record no_flags { free_slot = true }

abbrev pub cleanup : Mm → ℕ → Mm
cleanup m i =
    put (send m (child_done (entry m i).parent i (entry m i).exit_status)) i
      (record (entry m i) { flags = free_flags })

abbrev pub not_waiting : Proc → Proc
not_waiting p = record p { flags = record (p.flags) { waiting = false } }

-- A child of the process that exits
unfoldable pub adopt_child : Mm → ℕ → Mm
adopt_child m i =
    let m1 = put m i (record (entry m i) { parent = from init_pid }) in
    if (entry m1 init_pid).flags.waiting && (entry m1 i).flags.hanging
    then cleanup (put m1 init_pid (not_waiting (entry m1 init_pid))) i
    else m1

abbrev pub adopt : Mm → ℕ → ℕ → Mm
adopt m pid i = if peer_is (entry m i).parent pid then adopt_child m i else m

-- The last loop of do_exit(), `f` entries from `i` on.
unfoldable pub adopt_from : ℕ → Mm → ℕ → ℕ → Mm
adopt_from zero m pid i = m
adopt_from (suc f) m pid i = adopt_from f (adopt m pid i) pid (i + 1)

-- The process's own entry, when it exits
unfoldable pub leave : Mm → ℕ → ℕ → Mm
leave m pid parent_pid =
    if (entry m parent_pid).flags.waiting
    then cleanup (put m parent_pid (not_waiting (entry m parent_pid))) pid
    else put m pid (record (entry m pid) { flags = free_flags })

unfoldable pub exit_with : Mm → ℕ → ℤ → Peer → Result Mm
unfolding leave adopt_from
exit_with m pid status (from parent_pid) =
    let m1 = send m (exit_notice pid) in
    let m2 = put m1 pid (record (entry m1 pid) { exit_status = status }) in
    ok (adopt_from nr_entries (leave m2 pid parent_pid) pid 0)
exit_with m pid status _ = err Fault.wild

unfoldable pub do_exit : Mm → ℕ → ℤ → Result Mm
do_exit m pid status = exit_with m pid status (entry m pid).parent

-- The exit status of a killed process is its pid.
unfoldable pub do_exit_by_mm : Mm → ℕ → Result Mm
do_exit_by_mm m pid = exit_with m pid (pos pid) (entry m pid).parent

-- `true` stands for the return value 0.
unfoldable pub do_kill : Mm → ℤ → Result (Bool × Mm)
do_kill m pid =
    if is_target m.kernel (nr_tasks + nr_native_procs + nr_consoles) pid
    then (do_exit_by_mm m (pid_of pid) >>= λ m'. ok (true, m'))
    else ok (false, m)

-- The loop of do_wait(): the first hanging child, or the number of children seen.
unfoldable pub find_hanging : ℕ → Mm → ℕ → ℕ → ℕ → (Option ℕ) × ℕ
find_hanging zero m pid i children = (none, children)
find_hanging (suc f) m pid i children =
    elim (peer_is (entry m i).parent pid && (entry m i).flags.hanging) [
      | true ↦ (some i, children + 1)
      | false ↦
          find_hanging f m pid (i + 1)
            (if peer_is (entry m i).parent pid then children + 1 else children)
    ]

abbrev pub wait_for : Mm → ℕ → (Option ℕ) × ℕ → Mm
wait_for m pid (some i, children) = cleanup m i
wait_for m pid (none, zero) = send m (no_children pid)
wait_for m pid (none, suc n) =
    put m pid (record (entry m pid) { flags = record ((entry m pid).flags) { waiting = true } })

unfoldable pub do_wait : Mm → ℕ → Mm
unfolding find_hanging
do_wait m pid = wait_for m pid (find_hanging nr_entries m pid 0 0)
