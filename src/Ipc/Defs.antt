-- ===== src/Ipc/Defs.antt =====
-- deadlock(), block(), unblock(), msg_send(), msg_receive(), inform_int() and sys_sendrec() of
-- kernel/proc.c. A null or foreign pointer that the code would follow is `wild`; the loops take
-- as much fuel as the table has entries.
use kusa_os.Base.{
  ℕ, zero, suc, Bool, true, false, ◌&&◌, ◌||◌, not, none, some, Result, ok, err, Fault, assert,
  ◌>>=◌, ◌>>◌, ◌==◌, if◌then◌else◌, update,
}
use kusa_os.Kernel.{
  Kernel, Proc, from, no_task, is_clear, only_sending, peer_is, is_any, is_no_task, nr_entries,
  message_size,
}
use kusa_os.Kernel.Memory.{phys_copy, va2la}
use kusa_os.Sched.{rr_schedule}

abbrev pub not_null : ℕ → Bool
not_null p = not (p == 0)

-- `proc_table[i] = p`
abbrev pub put : Kernel → ℕ → Proc → Kernel
put k i p = record k { procs = update k.procs i p }

-- The names that deadlock() prints, from `p` on until the chain is back at `src`.
unfoldable pub print_chain : Kernel → ℕ → ℕ → ℕ → Result (Unit {0})
print_chain k src zero p = err Fault.spins
print_chain k src (suc f) p = assert (not_null (k.procs p).p_msg) >>= λ _. elim (k.procs p).sendto [
  | from d ↦ elim (d == src) [ true ↦ ok tt | false ↦ print_chain k src f d ]
  | _ ↦ err Fault.wild
]

-- The loop of deadlock(): `dest` is where it began, `p` where it is.
unfoldable pub deadlock_from : Kernel → ℕ → ℕ → ℕ → ℕ → Result Bool
deadlock_from k src dest zero p = err Fault.spins
deadlock_from k src dest (suc f) p = elim (k.procs p).flags.sending [
  | false ↦ ok false
  | true ↦ elim (k.procs p).sendto [
    | from d ↦ elim (d == src) [
      | true ↦ print_chain k src nr_entries dest >>= λ _. ok true
      | false ↦ deadlock_from k src dest f d
    ]
    | _ ↦ err Fault.wild
  ]
]

unfoldable pub deadlock : Kernel → ℕ → ℕ → Result Bool
unfolding deadlock_from
deadlock k src dest = deadlock_from k src dest nr_entries dest

unfoldable pub block : Kernel → ℕ → Result Kernel
block k p = do assert (not (is_clear (k.procs p).flags)); rr_schedule k

unfoldable pub unblock : Kernel → ℕ → Result (Unit {0})
unblock k p = assert (is_clear (k.procs p).flags)

-- The last process of a sending queue, by `next_sending`.
unfoldable pub last_of : Kernel → ℕ → ℕ → Result ℕ
last_of k zero p = err Fault.spins
last_of k (suc f) p = elim (k.procs p).next_sending [ none ↦ ok p | some q ↦ last_of k f q ]

-- `p_dest` waits for a message of `sender`, or of anybody.
abbrev pub willing : Kernel → ℕ → ℕ → Bool
willing k sender dest =
    (k.procs dest).flags.receiving
    && (peer_is (k.procs dest).recvfrom sender || is_any (k.procs dest).recvfrom)

-- The asserts on a process that takes no part in any exchange.
abbrev pub is_idle : Proc → Bool
is_idle p =
    is_clear p.flags && (not (not_null p.p_msg) && (is_no_task p.recvfrom && is_no_task p.sendto))

-- p_dest after it has received
abbrev pub received : Proc → Proc
received p = record p {
  p_msg = 0;
  flags = record (p.flags) { receiving = false };
  recvfrom = no_task;
}

-- msg_send() where `p_dest` is waiting for the message
unfoldable pub hand_over : Kernel → ℕ → ℕ → ℕ → Result Kernel
unfolding unblock
hand_over k sender dest m = do
  assert (not_null (k.procs dest).p_msg)
  assert (not_null m)
  to ← va2la k dest (k.procs dest).p_msg
  src ← va2la k sender m
  let k1 = record k { mem = phys_copy message_size to src k.mem }
  let k2 = put k1 dest (received (k.procs dest))
  unblock k2 dest
  assert (is_idle (k2.procs dest))
  assert (is_idle (k2.procs sender))
  ok k2

-- the sender's entry when it begins to wait
abbrev pub sending_to : Proc → ℕ → ℕ → Proc
sending_to p dest m = record p {
  flags = record (p.flags) { sending = true };
  sendto = from dest;
  p_msg = m;
}

-- Appends the sender to the queue of `p_dest`.
unfoldable pub append_sender : Kernel → ℕ → ℕ → Result Kernel
append_sender k sender dest =
    (elim (k.procs dest).q_sending [
      | some q ↦ last_of k nr_entries q >>= λ p.
          ok (put k p (record (k.procs p) { next_sending = some sender }))
      | none ↦ ok (put k dest (record (k.procs dest) { q_sending = some sender }))
    ])
    >>= λ k'. ok (put k' sender (record (k'.procs sender) { next_sending = none }))

-- msg_send() where the sender has to wait
unfoldable pub wait_to_send : Kernel → ℕ → ℕ → ℕ → Result Kernel
unfolding block
wait_to_send k sender dest m = do
  let k1 = put k sender (sending_to (k.procs sender) dest m)
  assert (only_sending (k1.procs sender).flags)
  k2 ← append_sender k1 sender dest
  k3 ← block k2 sender
  assert (only_sending (k3.procs sender).flags)
  assert (not_null (k3.procs sender).p_msg)
  assert (is_no_task (k3.procs sender).recvfrom)
  assert (peer_is (k3.procs sender).sendto dest)
  ok k3

unfoldable pub msg_send : Kernel → ℕ → ℕ → ℕ → Result Kernel
msg_send k sender dest m = do
  assert (not (sender == dest))
  cyclic ← deadlock k sender dest
  if cyclic
      then err Fault.panicked
      else if willing k sender dest
      then hand_over k sender dest m
      else wait_to_send k sender dest m
