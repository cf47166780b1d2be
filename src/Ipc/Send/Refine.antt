-- ===== src/Ipc/Send/Refine.antt =====
-- msg_send() does what the abstract net says, on every branch.
use mathlib.Core.Path.{subst}
use kusa_os.Base.{
  ℕ, ◌<◌, ◌≡◌, ◌≢◌, refl, ap, ◌∙◌, inl, inr, arith, true, false, ok, err, Fault, ne→==, Bool-cases,
  update, update_self, update_ne,
}
use kusa_os.Kernel.{Kernel, Proc, nr_entries, only_sending}
use kusa_os.Sched.Laws.{rr_schedule-Found}
use kusa_os.Ipc.Abstract.{Status, idle, sending, receiving, Net, accepts, send}
use kusa_os.Ipc.Defs.{msg_send, deadlock, willing, wait_to_send, sending_to}
use kusa_os.Ipc.Graph.{Reaches}
use kusa_os.Ipc.Fields.{runnable_of_idle, Fits-willing, Fits-IsWaiting}
use kusa_os.Ipc.Invariant.{Holds, Fits, IsAddress}
use kusa_os.Ipc.Deadlock.{deadlock_iff}
use kusa_os.Ipc.Send.Deliver.{delivered, delivered-Holds, hand_over-ok}
use kusa_os.Ipc.Send.Enqueue.{appended}
use kusa_os.Ipc.Send.Wait.{appended-Holds, waiting_net}

module _ {k : Kernel} {a : Net} (h : Holds k a) (s d m q : ℕ) (s_lt : s < nr_entries)
    (d_lt : d < nr_entries) (ne : s ≢ d) (s_idle : a.status s ≡ idle) (addr : IsAddress m)
    (no_way : ¬ Reaches a.status s d) (q_lt : q < nr_entries) (q_ne : s ≢ q)
    (q_idle : a.status q ≡ idle) where
  wait_to_send-ok : (k' : Kernel) × (wait_to_send k s d m ≡ ok k') × Holds k' (waiting_net a s d)
  unfolding wait_to_send
  wait_to_send-ok =
      let (table, e, t) = appended h s d m s_lt d_lt ne s_idle (a.queue d) refl in
      let held = appended-Holds h s d m s_lt d_lt ne s_idle addr no_way table t in
      let k2 = record k { procs = table } in
      let next = rr_schedule-Found k2 q h.current q_lt (
        runnable_of_idle q (held k.ready h.current) q_lt
          (update_ne a.status s q (sending d) q_ne ∙ q_idle)) in
      let r_lt : next.0 < nr_entries = rw next.2.place (omega arith) in
      let k3 = record k2 { ready = next.0 } in
      let w = Fits-IsWaiting (table s) d (
        subst (λ st. Fits st (table s)) (update_self a.status s (sending d))
          ((held k.ready h.current).fits s s_lt)) in
      (k3, rw (own, e, w.busy, next.1, w.flags, w.body, w.no_source, w.target), held next.0 r_lt)
    where
      own : only_sending (update k.procs s (sending_to (k.procs s) d m) s).flags ≡ true
      own =
          ap (λ (p : Proc). only_sending p.flags)
            (update_self k.procs s (sending_to (k.procs s) d m))
          ∙ rw (subst (λ t. Fits t (k.procs s)) s_idle (h.fits s s_lt)).0

  willing-accepts : willing k s d ≡ accepts (a.status d) s
  willing-accepts = Fits-willing (a.status d) (k.procs d) s (h.fits d d_lt)

  no_cycle : deadlock k s d ≡ ok false
  no_cycle = elim (deadlock_iff h s d d_lt) [ inl (e, r) ↦ absurd (no_way r) | inr (e, r) ↦ e ]

  sent :
      (st : Status)
      → a.status d ≡ st
      → (k' : Kernel) × (msg_send k s d m ≡ ok k') × Holds k' (send a s d)
  unfolding msg_send send
  sent (receiving e) q_st = elim (Bool-cases (accepts (receiving e) s)) [
    | inl acc ↦ (
      delivered k s d m,
      rw (ne→== s d ne, no_cycle, willing-accepts, q_st, acc)
          (hand_over-ok h s d m s_lt d_lt ne s_idle q_st addr),
      rw (q_st, acc) (delivered-Holds h s d m s_lt d_lt ne s_idle q_st addr),
    )
    | inr acc ↦
        let (k', e', held) = wait_to_send-ok in
        (k', rw (ne→== s d ne, no_cycle, willing-accepts, q_st, acc) e', rw (q_st, acc) held)
  ]
  sent st q_st =
      let (k', e', held) = wait_to_send-ok in
      (k', rw (ne→== s d ne, no_cycle, willing-accepts, q_st) e', rw q_st held)

  -- In a table that holds a net, msg_send() of an idle process, to another process of the table
  -- from which no chain of waiting senders leads back, returns with no failed assert, and leaves
  -- the table holding the net after `send`: the message is delivered at once, or the sender waits
  -- last in the queue. The address is not null, and another process can run meanwhile.
  pub msg_send-Holds : (k' : Kernel) × (msg_send k s d m ≡ ok k') × Holds k' (send a s d)
  msg_send-Holds = sent (a.status d) refl

-- In a table that holds a net, msg_send() panics where a chain of waiting senders leads from
-- another process, the receiver, back to the sender.
pub msg_send-panics :
    {k : Kernel} {a : Net} (s d m : ℕ)
    → Holds k a
    → d < nr_entries
    → s ≢ d
    → Reaches a.status s d
    → msg_send k s d m ≡ err Fault.panicked
unfolding msg_send
msg_send-panics {k} s d m h d_lt ne r = elim (deadlock_iff h s d d_lt) [
  | inl (e, _) ↦ rw (ne→== s d ne, e)
  | inr (e, no_way) ↦ absurd (no_way r)
]
