-- ===== src/Ipc/Receive/Refine.antt =====
-- msg_receive() of kernel/proc.c and `receive` of the abstract net.
use mathlib.Core.Path.{subst}
use kusa_os.Base.{
  ℕ, suc, ◌≤◌, ◌<◌, ◌≡◌, ◌≢◌, refl, sym, ap, ◌∙◌, inl, inr, arith, true, false, not, ◌||◌, ◌&&◌, ok,
  ne→==, ==_iff, Bool-cases, List, [], ◌∷◌, Option, none,
}
use kusa_os.Kernel.{
  Kernel, Peer, nr_entries, peer_is, is_any, is_interrupt, from, any, interrupt, no_task,
}
use kusa_os.Ipc.Abstract.{
  Status, idle, sending, unused, receiving, Net, In, is_sending_to, receive, receive_queued,
}
use kusa_os.Ipc.Defs.{is_idle}
use kusa_os.Ipc.Receive.{
  take_from, receive_first, receive_from, receive_message, msg_receive, is_some,
}
use kusa_os.Ipc.Receive.Unlink.{find_prev-before}
use kusa_os.Ipc.Receive.Take.{me-Fits, take_from-ok}
use kusa_os.Ipc.Receive.Wait.{wait_to_receive-ok, take_interrupt-ok}
use kusa_os.Ipc.Fields.{Fits-is_idle, Fits-waits_for, Fits-sends}
use kusa_os.Ipc.Invariant.{Holds, Fits, IsAddress, links}
use kusa_os.Ipc.Queue.{Chain, before, before_here, length, length-le}

-- What a caller may ask for: anybody, an interrupt, or another process of the table. For an
-- interrupt, the words in front of the table are not those of a process that sends to it.
abbrev pub IsAskable : Kernel → ℕ → Peer → Type 0
IsAskable k me any = Unit
IsAskable k me interrupt = (k.before.flags.sending && peer_is k.before.sendto me) ≡ false
IsAskable k me (from p) = (p < nr_entries) × (me ≢ p)
IsAskable k me no_task = ⊥

some_of_Chain :
    (next : ℕ → Option ℕ) (ptr : Option ℕ) (src : ℕ) (qs : List ℕ)
    → In src qs
    → Chain next ptr qs
    → is_some ptr ≡ true
some_of_Chain next ptr src [] i c = absurd i
some_of_Chain next ptr src (p ∷ ps) i c = rw c.0

is_sending_to-eq : (st : Status) (me : ℕ) → is_sending_to st me ≡ true → st ≡ sending me
is_sending_to-eq (sending d) me e = ap sending ((==_iff d me).0 e)
is_sending_to-eq idle me e = cc
is_sending_to-eq unused me e = cc
is_sending_to-eq (receiving x) me e = cc

module _ {k : Kernel} {a : Net} (h : Holds k a) (me m : ℕ) (me_lt : me < nr_entries)
    (me_idle : a.status me ≡ idle) (addr : IsAddress m) (q : ℕ) (q_lt : q < nr_entries)
    (q_ne : me ≢ q) (q_idle : a.status q ≡ idle) where
  abbrev Received : Peer → Type 0
  Received e = (k' : Kernel) × (receive_message k me e m ≡ ok k') × Holds k' (receive_queued a me e)

  sender-Fits : (src : ℕ) → In src (a.queue me) → Fits (sending me) (k.procs src)
  sender-Fits src i =
      let (lt, e) = h.queued me src me_lt i in subst (λ t. Fits t (k.procs src)) e (h.fits src lt)

  idle_me : is_idle (k.procs me) ≡ true
  idle_me = Fits-is_idle (k.procs me) (me-Fits h me m me_lt me_idle addr)

  from_any : (qs : List ℕ) → a.queue me ≡ qs → a.pending me ≡ false → Received any
  unfolding receive_message receive_queued receive_first
  from_any [] e quiet =
      let (k', e', held) =
        wait_to_receive-ok h me m me_lt me_idle addr any q (λ x. cc) quiet q_lt q_ne q_idle in
      (
        k',
        rw (subst (Chain (links k) (k.procs me).q_sending) e (h.chain me me_lt), receive_message)
            e',
        rw (e, receive_queued) held,
      )
  from_any (p ∷ ps) e quiet =
      let (k', e', held, _) =
        take_from-ok h me m me_lt me_idle addr p (h.queued me p me_lt i).0 i in
      (
        k',
        rw
            (
              (subst (Chain (links k) (k.procs me).q_sending) e (h.chain me me_lt)).0,
              receive_message,
              idle_me,
              Fits-waits_for (k.procs p) me (sender-Fits p i),
            )
            (ap (take_from k me p m) (sym (ap (before p none) e ∙ before_here p p none ps refl))
              ∙ e'),
        rw (e, receive_queued) held,
      )
    where
      i : In p (a.queue me)
      i = subst (In p) (sym e) (inl refl)

  from_one : (p : ℕ) → p < nr_entries → a.pending me ≡ false → Received (from p)
  unfolding receive_message receive_queued receive_from
  from_one p lt quiet = elim (Bool-cases (is_sending_to (a.status p) me)) [
    | inl sends ↦
        let i = (h.waiting me p lt (is_sending_to-eq (a.status p) me sends)).1 in
        let (k', e', held, _) = take_from-ok h me m me_lt me_idle addr p lt i in
        (
          k',
          rw
              (
                code_test,
                sends,
                some_of_Chain (links k) (k.procs me).q_sending p (a.queue me) i (h.chain me me_lt),
                find_prev-before k p (suc nr_entries) (k.procs me).q_sending none (a.queue me)
                    (omega (arith, short)) i (h.chain me me_lt),
                idle_me,
                Fits-waits_for (k.procs p) me (sender-Fits p i),
              )
              e',
          rw sends held,
        )
    | inr silent ↦
        let (k', e', held) =
          wait_to_receive-ok h me m me_lt me_idle addr (from p) q (λ x. cc) quiet q_lt q_ne
            q_idle in
        (k', rw (code_test, silent) e', rw silent held)
  ]
    where
      code_test :
          ((k.procs p).flags.sending && peer_is (k.procs p).sendto me)
          ≡ is_sending_to (a.status p) me
      code_test = Fits-sends (a.status p) (k.procs p) me (h.fits p lt)

      short : length (a.queue me) ≤ nr_entries
      short =
          length-le nr_entries (a.queue me) (λ x i. (h.queued me x me_lt i).0) (h.distinct me me_lt)

  from_interrupt : IsAskable k me interrupt → a.pending me ≡ false → Received interrupt
  unfolding receive_message receive_queued
  from_interrupt no_stray quiet =
      let (k', e', held) =
        wait_to_receive-ok h me m me_lt me_idle addr interrupt q (λ x. cc) quiet q_lt q_ne q_idle in
      (k', rw no_stray e', held)

  received : (e : Peer) → IsAskable k me e → a.pending me ≡ false → Received e
  received any ask quiet = from_any (a.queue me) refl quiet
  received interrupt ask quiet = from_interrupt ask quiet
  received (from p) ask quiet = from_one p ask.0 quiet
  received no_task ask quiet = absurd ask

  not_self : (e : Peer) → IsAskable k me e → not (peer_is e me) ≡ true
  not_self any ask = refl
  not_self interrupt ask = refl
  not_self no_task ask = refl
  not_self (from p) ask = rw (ne→== p me (λ x. ask.1 (sym x)))

  -- In a table that holds a net, msg_receive() of an idle process returns with no failed assert,
  -- and leaves the table holding the net after `receive`: it takes a kept interrupt if it asks
  -- for one, else the message of the oldest waiting sender or of the one it names, else it waits.
  -- The address is not null, another process can run meanwhile, and an interrupt is kept only for
  -- a caller that asks for one. What is asked for is any message, an interrupt, or the message of
  -- another process of the table. Where an interrupt is asked for, what the code reads in front of
  -- the table, as proc_table[INTERRUPT], does not look like a process that sends to the caller.
  pub msg_receive-Holds :
      (e : Peer)
      → IsAskable k me e
      → (a.pending me ≡ true → (is_any e || is_interrupt e) ≡ true)
      → (k' : Kernel) × (msg_receive k me e m ≡ ok k') × Holds k' (receive a me e)
  unfolding msg_receive receive
  msg_receive-Holds e ask asked = elim (Bool-cases (a.pending me)) [
    | inl kept ↦
        let (k', e', held) = take_interrupt-ok h me m me_lt me_idle addr in
        (k', rw (not_self e ask, h.kept me me_lt, kept, asked kept) e', rw (kept, asked kept) held)
    | inr quiet ↦
        let (k', e', held) = received e ask quiet in
        (k', rw (not_self e ask, h.kept me me_lt, quiet) e', rw quiet held)
  ]
