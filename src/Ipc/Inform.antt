-- ===== src/Ipc/Inform.antt =====
-- inform_int() of kernel/proc.c and `notify` of the abstract net.
use native.Mathlib.Decide.{ℕ_discrete}
use mathlib.Core.Path.{subst}
use kusa_os.Base.{
  ℕ, ◌+◌, ◌-◌, ◌<◌, ◌≡◌, refl, sym, ap, ◌∙◌, inl, inr, Option, Bool, ◌&&◌, ◌||◌, true, false, ok,
  update, update_self, ==_iff, ne→==, Bool-cases,
}
use kusa_os.Kernel.{Kernel, Proc, Peer, is_interrupt, is_any, nr_entries, is_clear, u32_mod}
use kusa_os.Kernel.Memory.{store_int}
use kusa_os.Ipc.Abstract.{Status, idle, unused, sending, receiving, Net, awaits_interrupt}
use kusa_os.Ipc.Abstract
use kusa_os.Ipc.Defs.{received, is_idle}
use kusa_os.Ipc.Receive.{inform_int, notify}
use kusa_os.Ipc.Graph.{is_quiet}
use kusa_os.Ipc.Fields.{Fits-is_idle, Fits-awaits}
use kusa_os.Ipc.Invariant.{Holds, Fits, links}
use kusa_os.Ipc.Queue.{Chain, Chain-frame}
use kusa_os.Ipc.Change.{Holds-change, update-field}

Fits-received : (p : Proc) (e : Peer) → Fits (receiving e) p → Fits idle (received p)
Fits-received p e f = (rw f.0, refl, refl, f.4)

Fits-mark : (st : Status) (p : Proc) → Fits st p → Fits st (record p { has_int_msg = true })
Fits-mark idle p f = f
Fits-mark unused p f = f
Fits-mark (sending d) p f = f
Fits-mark (receiving e) p f = f

module _ {k : Kernel} {a : Net} (h : Holds k a) (p : ℕ) (p_lt : p < nr_entries) where
  woken : Proc
  woken = record (received (k.procs p)) { has_int_msg = false }

  notified : Kernel
  notified = record k {
    mem = store_int ((k.procs p).p_msg + 4) 1 (store_int (k.procs p).p_msg (u32_mod - 10) k.mem);
    procs = update k.procs p woken;
  }

  kept_as :
      (P : Proc) (b : Bool)
      → P.has_int_msg ≡ b
      → (x : ℕ) → x < nr_entries
      → (update k.procs p P x).has_int_msg ≡ update a.pending p b x
  kept_as P b e x lt = elim (ℕ_discrete p x) [
    | yes q ↦ rw ((==_iff p x).1 q) e
    | no ne ↦ rw (ne→== p x ne) (h.kept x lt)
  ]

  notify-ok :
      (e : Peer)
      → a.status p ≡ receiving e
      → (notify k p ≡ ok notified)
        × Holds notified
            (record a { status = update a.status p idle; pending = update a.pending p false })
  unfolding notify notified woken
  notify-ok e q = (
    rw (idle_now, clear_now),
    Holds-change h p woken idle (update a.pending p false)
        (record { base = refl; head = refl; next = refl }) woken-Fits (ap is_quiet q) refl k.ready
        notified.mem h.current (kept_as woken false refl),
  )
    where
      woken-Fits : Fits idle woken
      woken-Fits = Fits-received (k.procs p) e (subst (λ t. Fits t (k.procs p)) q (h.fits p p_lt))

      clear_now : is_clear (update k.procs p woken p).flags ≡ true
      clear_now =
          ap (λ (r : Proc). is_clear r.flags) (update_self k.procs p woken)
          ∙ ap is_clear woken-Fits.0

      idle_now : is_idle (update k.procs p woken p) ≡ true
      idle_now = ap is_idle (update_self k.procs p woken) ∙ Fits-is_idle woken woken-Fits

  marked : Proc
  marked = record (k.procs p) { has_int_msg = true }

  marked-Holds :
      Holds
        (record k { procs = update k.procs p marked })
        (record a { pending = update a.pending p true })
  unfolding marked
  marked-Holds = record {
    current = h.current;
    flat = λ x lt. update-field (λ (r : Proc). r.base) k.procs p x marked refl ∙ h.flat x lt;
    fits = marked_fits;
    kept = kept_as marked true refl;
    chain = λ x lt.
        subst (λ ptr. Chain links' ptr (a.queue x))
          (sym (update-field (λ (r : Proc). r.q_sending) k.procs p x marked refl))
          (Chain-frame (links k) links' (k.procs x).q_sending (a.queue x)
            (λ y i. update-field (λ (r : Proc). r.next_sending) k.procs p y marked refl)
            (h.chain x lt));
    queued = h.queued;
    waiting = h.waiting;
    distinct = h.distinct;
    ends = h.ends;
    bounded = h.bounded;
  }
    where
      links' : ℕ → Option ℕ
      links' y = (update k.procs p marked y).next_sending

      marked_fits : (x : ℕ) → x < nr_entries → Fits (a.status x) (update k.procs p marked x)
      marked_fits x lt = elim (ℕ_discrete p x) [
        | yes q ↦ rw ((==_iff p x).1 q) (
            Fits-mark (a.status x) (k.procs p)
              (subst (λ y. Fits (a.status x) (k.procs y)) (sym q) (h.fits x lt)))
        | no ne ↦ rw (ne→== p x ne) (h.fits x lt)
      ]

  code_test :
      ((k.procs p).flags.receiving
        && (is_interrupt (k.procs p).recvfrom || is_any (k.procs p).recvfrom))
      ≡ awaits_interrupt (a.status p)
  code_test = Fits-awaits (a.status p) (k.procs p) (h.fits p p_lt)

  informed :
      (st : Status)
      → a.status p ≡ st
      → (k' : Kernel) × (inform_int k p ≡ ok k') × Holds k' (Abstract.notify a p)
  unfolding inform_int Abstract.notify marked
  informed (receiving e) q = elim (Bool-cases (awaits_interrupt (receiving e))) [
    | inl wakes ↦
        (notified, rw (code_test, q, wakes) (notify-ok e q).0, rw (q, wakes) (notify-ok e q).1)
    | inr not_now ↦ (
      record k { procs = update k.procs p marked },
      rw (code_test, q, not_now),
      rw (q, not_now) marked-Holds,
    )
  ]
  informed st q =
      (record k { procs = update k.procs p marked }, rw (code_test, q), rw q marked-Holds)

  -- In a table that holds a net, inform_int() for any process of the table returns with no failed
  -- assert, and leaves the table holding the net after `notify`: a process that waits for an
  -- interrupt or for anybody becomes idle, and for any other process the interrupt is kept.
  pub inform_int-Holds : (k' : Kernel) × (inform_int k p ≡ ok k') × Holds k' (Abstract.notify a p)
  inform_int-Holds = informed (a.status p) refl
