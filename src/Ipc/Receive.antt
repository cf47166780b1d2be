-- ===== src/Ipc/Receive.antt =====
-- msg_receive(), inform_int() and sys_sendrec() of kernel/proc.c.
pub mod Unlink
pub mod Serve
pub mod Take
pub mod Wait
pub mod Refine
use kusa_os.Base.{
  ℕ, zero, suc, ◌+◌, ◌-◌, Bool, true, false, ◌&&◌, ◌||◌, not, Option, none, some, Result, ok, err,
  Fault, assert, ◌>>=◌, ◌>>◌, ◌==◌, ltb, if◌then◌else◌,
}
use kusa_os.Kernel.{
  Kernel, Proc, Peer, from, any, interrupt, no_task, is_clear, only_sending, only_receiving,
  peer_is, is_any, is_interrupt, is_no_task, nr_entries, message_size, u32_mod,
}
use kusa_os.Kernel.Signed.{pos, eqb_ℤ}
use kusa_os.Kernel.Memory.{phys_copy, memset, store_int, va2la}
use kusa_os.Ipc.Defs.{not_null, put, is_idle, block, unblock, received, msg_send}

abbrev pub is_some {ℓ} : {A : Type ℓ} → Option A → Bool
is_some none = false
is_some (some _) = true

-- The bytes of a message from INTERRUPT (-10) of type HARD_INT (1), all else zero.
unfoldable pub write_hard_int : ℕ → (ℕ → ℕ) → ℕ → ℕ
write_hard_int la mem =
    store_int (la + 4) 1 (store_int la (u32_mod - 10) (memset message_size la 0 mem))

-- The asserts on a process that is about to be served.
abbrev pub waits_for : Proc → ℕ → Bool
waits_for p me =
    only_sending p.flags && (not_null p.p_msg && (is_no_task p.recvfrom && peer_is p.sendto me))

-- The walk along the queue to `src`: what `prev` is when it ends. The assert of the loop repeats
-- the test that led to it.
unfoldable pub find_prev : Kernel → ℕ → ℕ → Option ℕ → Option ℕ → Result (Option ℕ)
find_prev k src zero p prev = err Fault.spins
find_prev k src (suc f) none prev = ok prev
find_prev k src (suc f) (some p) prev = elim (p == src) [
  | true ↦ ok prev
  | false ↦ find_prev k src f (k.procs p).next_sending (some p)
]

abbrev pub points_to : Option ℕ → ℕ → Bool
points_to none s = false
points_to (some q) s = q == s

-- p_from is the first of the queue.
unfoldable pub unlink_head : Kernel → ℕ → ℕ → Option ℕ → Result Kernel
unlink_head k me src prev = do
  assert (not (is_some prev))
  ok (put k me (record (k.procs me) { q_sending = (k.procs src).next_sending }))

-- p_from is further back, behind `prev`.
unfoldable pub unlink_after : Kernel → ℕ → Option ℕ → Result Kernel
unlink_after k src none = err Fault.assert_failed
unlink_after k src (some q) =
    ok (put k q (record (k.procs q) { next_sending = (k.procs src).next_sending }))

-- Takes `p_from` out of the queue of `me`.
unfoldable pub unlink_sender : Kernel → ℕ → ℕ → Option ℕ → Result Kernel
unfolding unlink_head unlink_after
unlink_sender k me src prev = do
  k' ←
      if points_to (k.procs me).q_sending src
      then unlink_head k me src prev
      else unlink_after k src prev
  ok (put k' src (record (k'.procs src) { next_sending = none }))

-- p_from after its message has been taken
abbrev pub served : Proc → Proc
served p = record p { p_msg = 0; sendto = no_task; flags = record (p.flags) { sending = false } }

-- msg_receive() where copyok is set: `prev` stands before `src` in the queue.
unfoldable pub take_from : Kernel → ℕ → ℕ → ℕ → Option ℕ → Result Kernel
unfolding unblock
take_from k me src m prev = do
  k1 ← unlink_sender k me src prev
  assert (not_null m)
  assert (not_null (k1.procs src).p_msg)
  to ← va2la k1 me m
  at ← va2la k1 src (k1.procs src).p_msg
  let k2 = record k1 { mem = phys_copy message_size to at k1.mem }
  let k3 = put k2 src (served (k2.procs src))
  unblock k3 src
  ok k3

-- the receiver's entry when it begins to wait
abbrev pub receiving_from : Proc → Peer → ℕ → Proc
receiving_from p src m = record p {
  flags = record (p.flags) { receiving = true };
  p_msg = m;
  recvfrom = src;
}

-- msg_receive() where nobody has a message for the caller
unfoldable pub wait_to_receive : Kernel → ℕ → Peer → ℕ → Result Kernel
unfolding block
wait_to_receive k me src m = do
  k' ← block (put k me (receiving_from (k.procs me) src m)) me
  assert (only_receiving (k'.procs me).flags)
  assert (not_null (k'.procs me).p_msg)
  assert (not (is_no_task (k'.procs me).recvfrom))
  assert (is_no_task (k'.procs me).sendto)
  assert (not (k'.procs me).has_int_msg)
  ok k'

-- msg_receive() where an interrupt has been kept for the caller
unfoldable pub take_interrupt : Kernel → ℕ → ℕ → Result Kernel
take_interrupt k me m = do
  assert (not_null m)
  la ← va2la k me m
  let p = record (k.procs me) { has_int_msg = false }
  assert (is_clear p.flags)
  assert (not (not_null p.p_msg))
  assert (is_no_task p.sendto)
  ok (put (record k { mem = write_hard_int la k.mem }) me p)

-- msg_receive() from ANY, where `src` is the first of the queue
unfoldable pub receive_first : Kernel → ℕ → ℕ → ℕ → Result Kernel
receive_first k me src m = do
  assert (is_idle (k.procs me))
  assert (waits_for (k.procs src) me)
  take_from k me src m none

-- msg_receive() from `src`, which is sending to the caller
unfoldable pub receive_from : Kernel → ℕ → ℕ → ℕ → Result Kernel
receive_from k me src m = do
  assert (is_some (k.procs me).q_sending)
  prev ← find_prev k src (suc nr_entries) (k.procs me).q_sending none
  assert (is_idle (k.procs me))
  assert (waits_for (k.procs src) me)
  take_from k me src m prev

-- msg_receive() past the test for an interrupt. For INTERRUPT the code reads the entry at
-- proc_table[-10], and would go on with it if it held a sender's flags.
unfoldable pub receive_message : Kernel → ℕ → Peer → ℕ → Result Kernel
receive_message k me any m = elim (k.procs me).q_sending [
  | none ↦ wait_to_receive k me any m
  | some src ↦ receive_first k me src m
]
receive_message k me (from src) m =
    if (k.procs src).flags.sending && peer_is (k.procs src).sendto me
    then receive_from k me src m
    else wait_to_receive k me (from src) m
receive_message k me interrupt m =
    if k.before.flags.sending && peer_is k.before.sendto me
    then err Fault.wild
    else wait_to_receive k me interrupt m
receive_message k me no_task m = err Fault.wild

unfoldable pub msg_receive : Kernel → ℕ → Peer → ℕ → Result Kernel
msg_receive k me src m = do
  assert (not (peer_is src me))
  if (k.procs me).has_int_msg && (is_any src || is_interrupt src)
      then take_interrupt k me m
      else receive_message k me src m

-- inform_int() where the process waits for an interrupt
unfoldable pub notify : Kernel → ℕ → Result Kernel
unfolding unblock
notify k p = do
  let at = (k.procs p).p_msg
  let k1 = record k { mem = store_int (at + 4) 1 (store_int at (u32_mod - 10) k.mem) }
  let k2 = put k1 p (record (received (k.procs p)) { has_int_msg = false })
  unblock k2 p
  assert (is_idle (k2.procs p))
  ok k2

-- The interrupt is written through `p_msg` as it is, with no translation of the address.
unfoldable pub inform_int : Kernel → ℕ → Result Kernel
inform_int k p =
    if (k.procs p).flags.receiving
      && (is_interrupt (k.procs p).recvfrom || is_any (k.procs p).recvfrom)
    then notify k p
    else ok (put k p (record (k.procs p) { has_int_msg = true }))

abbrev pub is_valid_peer : Peer → Bool
is_valid_peer (from p) = ltb p nr_entries
is_valid_peer no_task = false
is_valid_peer _ = true

-- The message goes to an entry of the table: ANY and INTERRUPT name none.
unfoldable pub send_to : Kernel → ℕ → Peer → ℕ → Result Kernel
send_to k caller (from dest) m = msg_send k caller dest m
send_to k caller _ m = err Fault.wild

-- SEND is 1 and RECEIVE 2.
unfoldable pub sys_sendrec : Kernel → ℕ → Peer → ℕ → ℕ → Result Kernel
sys_sendrec k function src_dest m caller = do
  assert (eqb_ℤ k.k_reenter (pos 0))
  assert (is_valid_peer src_dest)
  la ← va2la k caller m
  let k1 = record k { mem = store_int la caller k.mem }
  assert (not (peer_is src_dest caller))
  if function == 1
      then send_to k1 caller src_dest m
      else if function == 2
      then msg_receive k1 caller src_dest m
      else err Fault.panicked
