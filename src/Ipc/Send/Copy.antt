-- ===== src/Ipc/Send/Copy.antt =====
-- What msg_send() writes into the buffer of a receiver that waits for the message.
use kusa_os.Base.{ℕ, ◌+◌, ◌≤◌, ◌<◌, ◌≡◌, ◌≢◌, ap, ◌∙◌, inl, inr, ◌⊎◌, true, false, ok, ne→==}
use kusa_os.Kernel.{Kernel, Peer, nr_entries, message_size}
use kusa_os.Kernel.Memory.{phys_copy-inside}
use kusa_os.Ipc.Abstract.{idle, receiving, Net, accepts}
use kusa_os.Ipc.Defs.{msg_send, willing, deadlock}
use kusa_os.Ipc.Deadlock.{deadlock_iff}
use kusa_os.Ipc.Graph.{Reaches}
use kusa_os.Ipc.Fields.{Fits-willing}
use kusa_os.Ipc.Invariant.{Holds, IsAddress, linear}
use kusa_os.Ipc.Send.Deliver.{delivered, hand_over-ok}

-- In a table that holds a net: when the sender is idle and its message not at null, the receiver,
-- another process, waits for it or for anybody and no chain of waiting senders leads back, each
-- byte of the sender's message is in the receiver's buffer after msg_send(), if the two regions
-- do not overlap.
pub msg_send-copies :
    {k : Kernel} {a : Net} (s d m i : ℕ) {e : Peer}
    → Holds k a
    → s < nr_entries
    → d < nr_entries
    → s ≢ d
    → a.status s ≡ idle
    → a.status d ≡ receiving e
    → accepts (receiving e) s ≡ true
    → IsAddress m
    → ¬ Reaches a.status s d
    → (linear k d (k.procs d).p_msg + message_size ≤ linear k s m)
      ⊎ (linear k s m + message_size ≤ linear k d (k.procs d).p_msg)
    → i < message_size
    → (k' : Kernel) × (msg_send k s d m ≡ ok k')
      × (k'.mem (linear k d (k.procs d).p_msg + i) ≡ k.mem (linear k s m + i))
unfolding msg_send
msg_send-copies {k} {a} s d m i {e} h s_lt d_lt ne s_idle d_waits acc addr no_way apart lt = (
  delivered k s d m,
  rw (ne→== s d ne, no_cycle, test) (hand_over-ok h s d m s_lt d_lt ne s_idle d_waits addr),
  phys_copy-inside message_size (linear k d (k.procs d).p_msg) (linear k s m) k.mem i apart lt,
)
  where
    no_cycle : deadlock k s d ≡ ok false
    no_cycle = elim (deadlock_iff h s d d_lt) [ inl (_, r) ↦ absurd (no_way r) | inr (eq, _) ↦ eq ]

    test : willing k s d ≡ true
    test =
        Fits-willing (a.status d) (k.procs d) s (h.fits d d_lt)
        ∙ ap (λ st. accepts st s) d_waits
        ∙ acc
