-- ===== src/Ipc/Send/Deliver.antt =====
-- The branch of msg_send() in which the receiver waits for the message.
use mathlib.Core.Path.{subst}
use kusa_os.Base.{ℕ, ◌<◌, ◌≡◌, ◌≢◌, refl, sym, ap, ◌∙◌, true, ok, update, update_ne, update_self}
use kusa_os.Kernel.{Kernel, Proc, Peer, nr_entries, message_size, is_clear}
use kusa_os.Kernel.Memory.{phys_copy}
use kusa_os.Ipc.Abstract.{idle, receiving, Net, set_status}
use kusa_os.Ipc.Defs.{hand_over, received, is_idle}
use kusa_os.Ipc.Fields.{not_null-lem, Fits-is_idle}
use kusa_os.Ipc.Invariant.{Holds, Fits, IsAddress, linear, va2la_lem}
use kusa_os.Ipc.Change.{Holds-change, update-field}
use kusa_os.Ipc.Graph.{is_quiet}

-- The kernel once `d` has taken the message that lies at `m` in the space of `s`.
abbrev pub delivered : Kernel → ℕ → ℕ → ℕ → Kernel
delivered k s d m = record k {
  mem = phys_copy message_size (linear k d (k.procs d).p_msg) (linear k s m) k.mem;
  procs = update k.procs d (received (k.procs d));
}

Fits-received : (p : Proc) {e : Peer} → Fits (receiving e) p → Fits idle (received p)
Fits-received p f = (rw f.0, refl, refl, f.4)

module _ {k : Kernel} {a : Net} (h : Holds k a) (s d m : ℕ) {e : Peer} (s_lt : s < nr_entries)
    (d_lt : d < nr_entries) (ne : s ≢ d) (s_idle : a.status s ≡ idle)
    (d_waits : a.status d ≡ receiving e) (addr : IsAddress m) where
  sender-Fits : Fits idle (k.procs s)
  sender-Fits = subst (λ t. Fits t (k.procs s)) s_idle (h.fits s s_lt)

  receiver-Fits : Fits (receiving e) (k.procs d)
  receiver-Fits = subst (λ t. Fits t (k.procs d)) d_waits (h.fits d d_lt)

  at_receiver : update k.procs d (received (k.procs d)) d ≡ received (k.procs d)
  at_receiver = update_self k.procs d (received (k.procs d))

  at_sender : update k.procs d (received (k.procs d)) s ≡ k.procs s
  at_sender = update_ne k.procs d s (received (k.procs d)) (λ q. ne (sym q))

  cleared : is_clear (update k.procs d (received (k.procs d)) d).flags ≡ true
  cleared = ap (λ (p : Proc). is_clear p.flags) at_receiver ∙ rw receiver-Fits.0

  receiver_idle : is_idle (update k.procs d (received (k.procs d)) d) ≡ true
  receiver_idle =
      ap is_idle at_receiver
      ∙ Fits-is_idle (received (k.procs d)) (Fits-received (k.procs d) receiver-Fits)

  sender_idle : is_idle (update k.procs d (received (k.procs d)) s) ≡ true
  sender_idle = ap is_idle at_sender ∙ Fits-is_idle (k.procs s) sender-Fits

  pub hand_over-ok : hand_over k s d m ≡ ok (delivered k s d m)
  unfolding hand_over
  hand_over-ok = rw (
    not_null-lem (k.procs d).p_msg receiver-Fits.1.0,
    not_null-lem m addr.0,
    va2la_lem d (k.procs d).p_msg h receiver-Fits.1.1,
    va2la_lem s m h addr.1,
    receiver_idle,
    sender_idle,
    cleared,
  )

  -- After the delivery the table holds the net in which the receiver is idle.
  pub delivered-Holds : Holds (delivered k s d m) (set_status a d idle)
  delivered-Holds =
      Holds-change h d (received (k.procs d)) idle a.pending
        (record { base = refl; head = refl; next = refl }) (Fits-received (k.procs d) receiver-Fits)
        (ap is_quiet d_waits) refl k.ready
        (phys_copy message_size (linear k d (k.procs d).p_msg) (linear k s m) k.mem) h.current
        (λ x lt.
          update-field (λ (p : Proc). p.has_int_msg) k.procs d x (received (k.procs d)) refl
          ∙ h.kept x lt)
