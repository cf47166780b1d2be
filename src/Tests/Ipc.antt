-- ===== src/Tests/Ipc.antt =====
-- Message passing on the table that kernel_main() leaves.
use mathlib.Core.Path.{subst}
use kusa_os.Base.{
  ℕ, ◌≡◌, ◌≤◌, sym, ap, ◌∙◌, Result, ◌+◌, refl, inr, arith, ok, err, Fault, true, false, update,
  ◌⊎◌,
}
use kusa_os.Kernel.{Kernel, any, message_size}
use kusa_os.Boot.{kernel_main, boot_entry}
use kusa_os.Boot.Laws.{boot_net, kernel_main-Holds}
use kusa_os.Ipc.Abstract.{Net, idle, receiving, send, receive, notify}
use kusa_os.Ipc.Defs.{msg_send, deadlock, block}
use kusa_os.Ipc.Receive.{msg_receive, receive_message, wait_to_receive, receiving_from, inform_int}
use kusa_os.Ipc.Graph.{Reaches, last, step}
use kusa_os.Ipc.Deadlock.{deadlock_iff}
use kusa_os.Ipc.Invariant.{Holds, linear}
use kusa_os.Sched.{rr_schedule, runnable}
use kusa_os.Ipc.Send.{msg_send-Holds, msg_send-panics, msg_send-copies}
use kusa_os.Ipc.Receive.Refine.{msg_receive-Holds}
use kusa_os.Ipc.Inform.{inform_int-Holds}

abbrev booted : Kernel
booted = kernel_main (boot_entry 0) (λ _. 0)

booted-Holds : Holds booted boot_net
booted-Holds = kernel_main-Holds (boot_entry 0) (λ _. 0)

kernel_main-Holds_example : Holds (kernel_main (boot_entry 0) (λ _. 0)) boot_net
kernel_main-Holds_example = kernel_main-Holds (boot_entry 0) (λ _. 0)

no_way_at_boot : (s d : ℕ) → Reaches boot_net.status s d → ⊥
no_way_at_boot s d (last e) = ground arith
no_way_at_boot s d (step e r) = ground arith

-- INIT (5) sends to FS (3), which is not waiting: it is put into the queue.
sent : (k' : Kernel) × (msg_send booted 5 3 4096 ≡ ok k') × Holds k' (send boot_net 5 3)
sent =
    msg_send-Holds booted-Holds 5 3 4096 6 (omega arith) (omega arith) (omega arith) refl
      (omega arith) (no_way_at_boot 5 3) (omega arith) (omega arith) refl

msg_send-Holds_example :
    (k' : Kernel) × (msg_send booted 5 3 4096 ≡ ok k') × Holds k' (send boot_net 5 3)
msg_send-Holds_example =
    msg_send-Holds booted-Holds 5 3 4096 6 (omega arith) (omega arith) (omega arith) refl
      (omega arith) (no_way_at_boot 5 3) (omega arith) (omega arith) refl

-- the table after that call, and the net that it holds
sent_kernel : Kernel
sent_kernel = sent.0

sent_net : Net
sent_net = send boot_net 5 3

sent_kernel-Holds : Holds sent_kernel sent_net
unfolding sent_kernel sent_net
sent_kernel-Holds = sent.2

-- FS asks for any message and is given that of INIT.
msg_receive-Holds_example :
    (k' : Kernel) × (msg_receive sent_kernel 3 any 8192 ≡ ok k') × Holds k' (receive sent_net 3 any)
unfolding sent_net send
msg_receive-Holds_example =
    msg_receive-Holds sent_kernel-Holds 3 8192 (omega arith) refl (omega arith) 6 (omega arith)
      (omega arith) refl any tt (λ e. refl)

-- FS would close a cycle by sending to INIT, which waits for FS.
chain_to_fs : Reaches sent_net.status 3 5
unfolding sent_net send
chain_to_fs = last refl

deadlock_iff_example :
    ((deadlock sent_kernel 3 5 ≡ ok true) × Reaches sent_net.status 3 5)
    ⊎ ((deadlock sent_kernel 3 5 ≡ ok false) × ¬ Reaches sent_net.status 3 5)
deadlock_iff_example = deadlock_iff sent_kernel-Holds 3 5 (omega arith)

msg_send-panics_example : msg_send sent_kernel 3 5 8192 ≡ err Fault.panicked
msg_send-panics_example =
    msg_send-panics 3 5 8192 sent_kernel-Holds (omega arith) (omega arith) chain_to_fs

inform_int-Holds_example :
    (k' : Kernel) × (inform_int booted 0 ≡ ok k') × Holds k' (notify boot_net 0)
inform_int-Holds_example = inform_int-Holds booted-Holds 0 (omega arith)

-- FS waits for anybody, and INIT sends to it.
listening :
    (k' : Kernel) × (msg_receive booted 3 any 8192 ≡ ok k') × Holds k' (receive boot_net 3 any)
listening =
    msg_receive-Holds booted-Holds 3 8192 (omega arith) refl (omega arith) 6 (omega arith)
      (omega arith) refl any tt (λ e. refl)

abbrev heard : Kernel
heard = record booted {
  procs = update booted.procs 3 (receiving_from (booted.procs 3) any 8192);
  ready = 1;
}

abbrev heard_net : Net
heard_net = receive boot_net 3 any

heard_run : msg_receive booted 3 any 8192 ≡ ok heard
unfolding msg_receive receive_message wait_to_receive kernel_main boot_entry block rr_schedule
    runnable
heard_run = refl

abbrev from_ok : Result Kernel → Kernel
from_ok (ok k) = k
from_ok (err _) = booted

heard-Holds : Holds heard heard_net
heard-Holds = subst (λ k. Holds k heard_net) (ap from_ok (sym listening.1 ∙ heard_run)) listening.2

heard_idle : heard_net.status 5 ≡ idle
unfolding receive
heard_idle = refl

heard_waits : heard_net.status 3 ≡ receiving any
unfolding receive
heard_waits = refl

not_sending_to_fs : ¬ Reaches heard_net.status 5 3
unfolding receive
not_sending_to_fs (last e) = cc
not_sending_to_fs (step e r) = cc

heard_apart : linear heard 5 4096 + message_size ≤ linear heard 3 (heard.procs 3).p_msg
unfolding kernel_main boot_entry
heard_apart = omega arith

msg_send-copies_example :
    (k' : Kernel) × (msg_send heard 5 3 4096 ≡ ok k')
    × (k'.mem (linear heard 3 (heard.procs 3).p_msg + 7) ≡ heard.mem (linear heard 5 4096 + 7))
msg_send-copies_example =
    msg_send-copies 5 3 4096 7 heard-Holds (omega arith) (omega arith) (omega arith) heard_idle
      heard_waits refl (omega arith) not_sending_to_fs (inr heard_apart) (omega arith)
