-- ===== src/Ipc/Receive/Wait.antt =====
-- msg_receive() where the caller has to wait, or takes a kept interrupt.
use mathlib.Core.Path.{subst}
use native.Mathlib.Decide.{ℕ_discrete}
use kusa_os.Base.{
  ℕ, ◌<◌, ◌≡◌, ◌≢◌, refl, ap, ◌∙◌, arith, true, false, not, ok, update, update_self, update_ne,
  update-same, ==_iff, ne→==,
}
use kusa_os.Kernel.{Kernel, Proc, Peer, nr_entries, is_clear, no_task}
use kusa_os.Sched.{rr_schedule, next_entry}
use kusa_os.Sched.Laws.{rr_schedule-Found, Found}
use kusa_os.Ipc.Abstract.{idle, receiving, Net, set_status}
use kusa_os.Ipc.Receive.{wait_to_receive, receiving_from, take_interrupt, write_hard_int}
use kusa_os.Ipc.Receive.Take.{me-Fits}
use kusa_os.Ipc.Fields.{not_null-lem, runnable_of_idle, IsListening, Fits-IsListening}
use kusa_os.Ipc.Invariant.{Holds, Fits, IsAddress, linear, va2la_lem}
use kusa_os.Ipc.Graph.{is_quiet}
use kusa_os.Ipc.Change.{Holds-change, update-field}

Fits-receiving :
    (p : Proc) (e : Peer) (m : ℕ)
    → e ≢ no_task
    → IsAddress m
    → Fits idle p
    → Fits (receiving e) (receiving_from p e m)
Fits-receiving p e m ne addr f = (rw f.0, addr, refl, ne, f.3)

module _ {k : Kernel} {a : Net} (h : Holds k a) (me m : ℕ) (me_lt : me < nr_entries)
    (me_idle : a.status me ≡ idle) (addr : IsAddress m) where
  module _ (e : Peer) (q : ℕ) (e_ne : e ≢ no_task) (quiet : a.pending me ≡ false)
      (q_lt : q < nr_entries) (q_ne : me ≢ q) (q_idle : a.status q ≡ idle) where
    listener : Proc
    listener = receiving_from (k.procs me) e m

    -- The caller waits, and another process runs.
    pub wait_to_receive-ok :
        (k' : Kernel) × (wait_to_receive k me e m ≡ ok k')
        × Holds k' (set_status a me (receiving e))
    unfolding wait_to_receive listener
    wait_to_receive-ok = (
      record k { procs = table; ready = next.0 },
      rw (busy, next.1, w.flags, w.body, w.source, w.target, no_int),
      held next.0 r_lt,
    )
      where
        table : ℕ → Proc
        table = update k.procs me listener

        held :
            (r : ℕ)
            → r < nr_entries
            → Holds (record k { procs = table; ready = r }) (set_status a me (receiving e))
        held r lt =
            Holds-change h me listener (receiving e) a.pending
              (record { base = refl; head = refl; next = refl })
              (Fits-receiving (k.procs me) e m e_ne addr (me-Fits h me m me_lt me_idle addr))
              (ap is_quiet me_idle) refl r k.mem lt
              (λ x lt.
                update-field (λ (p : Proc). p.has_int_msg) k.procs me x listener refl ∙ h.kept x lt)

        next :
            (r : ℕ) × (rr_schedule (record k { procs = table })
              ≡ ok (record k { procs = table; ready = r }))
            × Found (record k { procs = table }) (next_entry k.ready) nr_entries r
        next =
            rr_schedule-Found (record k { procs = table }) q h.current q_lt
              (runnable_of_idle q (held k.ready h.current) q_lt
                (update_ne a.status me q (receiving e) q_ne ∙ q_idle))

        r_lt : next.0 < nr_entries
        r_lt = rw next.2.place (omega arith)

        w : IsListening (table me)
        w = Fits-IsListening (table me) e (
            subst (λ st. Fits st (table me)) (update_self a.status me (receiving e))
              ((held k.ready h.current).fits me me_lt))

        busy : not (is_clear (table me).flags) ≡ true
        busy = w.busy

        no_int : not (table me).has_int_msg ≡ true
        no_int = ap not (
            update-field (λ (p : Proc). p.has_int_msg) k.procs me me listener refl
            ∙ h.kept me me_lt
            ∙ quiet)

  freed_of_int : Proc
  freed_of_int = record (k.procs me) { has_int_msg = false }

  -- A kept interrupt is taken: the message of HARD_INT is written, and no other field changes.
  taken : Kernel
  taken = record k {
    mem = write_hard_int (linear k me m) k.mem;
    procs = update k.procs me freed_of_int;
  }

  pub take_interrupt-ok :
      (k' : Kernel) × (take_interrupt k me m ≡ ok k')
      × Holds k' (record a { pending = update a.pending me false })
  unfolding take_interrupt freed_of_int taken
  take_interrupt-ok = (
    record k { mem = write_hard_int (linear k me m) k.mem; procs = update k.procs me freed_of_int },
    rw (not_null-lem m addr.0, va2la_lem me m h addr.1, f.0, f.1, f.3),
    subst (λ st. Holds taken (record a { status = st; pending = update a.pending me false }))
        (update-same a.status me idle me_idle)
        (Holds-change h me freed_of_int idle (update a.pending me false)
          (record { base = refl; head = refl; next = refl }) (f.0, f.1, f.2, f.3)
          (ap is_quiet me_idle) refl k.ready (write_hard_int (linear k me m) k.mem) h.current kept),
  )
    where
      f : Fits idle (k.procs me)
      f = me-Fits h me m me_lt me_idle addr

      kept :
          (x : ℕ)
          → x < nr_entries
          → (update k.procs me freed_of_int x).has_int_msg ≡ update a.pending me false x
      kept x lt = elim (ℕ_discrete me x) [
        | yes e ↦ rw ((==_iff me x).1 e)
        | no ne ↦ rw (ne→== me x ne) (h.kept x lt)
      ]
