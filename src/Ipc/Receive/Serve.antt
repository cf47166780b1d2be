-- ===== src/Ipc/Receive/Serve.antt =====
-- msg_receive() where a sender waits: its message is copied, it leaves the queue and is idle.
use native.Mathlib.Decide.{ℕ_discrete}
use mathlib.Core.Path.{subst}
use kusa_os.Base.{
  ℕ, ◌<◌, ◌≡◌, ◌≢◌, refl, sym, ap, ◌∙◌, update, update_eq, update_ne, ne→==, ==_iff, List,
}
use kusa_os.Kernel.{Kernel, Proc, nr_entries}
use kusa_os.Ipc.Abstract.{Status, idle, sending, Net, In, IsDistinct, erase, serve}
use kusa_os.Ipc.Graph.{Ends-quiet}
use kusa_os.Ipc.Receive.{served}
use kusa_os.Ipc.Receive.Unlink.{IsUnlinked}
use kusa_os.Ipc.Invariant.{Holds, Fits, links}
use kusa_os.Ipc.Change.{update-field}
use kusa_os.Ipc.Core.{Core, Fits-core}
use kusa_os.Ipc.Queue.{
  Chain, Chain-frame, In-subst, In-erase, erase-In, IsDistinct-erase, not-In-erase,
}

Fits-served : (p : Proc) (d : ℕ) → Fits (sending d) p → Fits idle (served p)
Fits-served p d f = (rw f.0, refl, f.2, refl)

module _ {k : Kernel} {a : Net} (h : Holds k a) (me src : ℕ) (me_lt : me < nr_entries)
    (src_lt : src < nr_entries) (ne : me ≢ src) (i : In src (a.queue me)) (table : ℕ → Proc)
    (t : IsUnlinked h me src me_lt ne i table) where
  open t use {cores, heads, others, reduced}

  src_sends : a.status src ≡ sending me
  src_sends = (h.queued me src me_lt i).1

  -- the table at the end
  abbrev pub ended : ℕ → Proc
  ended = update table src (served (table src))

  abbrev status' : ℕ → Status
  status' = update a.status src idle

  abbrev queue' : ℕ → List ℕ
  queue' = update a.queue me (erase src (a.queue me))

  pub unlinked-Fits : (x : ℕ) → x < nr_entries → Fits (a.status x) (table x)
  unlinked-Fits x lt = Fits-core (a.status x) (k.procs x) (table x) (cores x) (h.fits x lt)

  pub src-Fits : Fits (sending me) (table src)
  src-Fits = subst (λ st. Fits st (table src)) src_sends (unlinked-Fits src src_lt)

  ended-Fits : (x : ℕ) → x < nr_entries → Fits (status' x) (ended x)
  ended-Fits x lt = elim (ℕ_discrete src x) [
    | yes e ↦ rw ((==_iff src x).1 e) (Fits-served (table src) me src-Fits)
    | no q ↦ rw (ne→== src x q) (unlinked-Fits x lt)
  ]

  kept_field :
      {B : Type 0} (g : Proc → B)
      → g (served (table src)) ≡ g (table src)
      → (x : ℕ) → g (ended x) ≡ g (table x)
  kept_field g e x = update-field g table src x (served (table src)) e

  chains :
      (x : ℕ) → x < nr_entries → Chain (λ y. (ended y).next_sending) (ended x).q_sending (queue' x)
  chains x lt =
      subst (λ ptr. Chain (λ y. (ended y).next_sending) ptr (queue' x))
        (sym (kept_field (λ (p : Proc). p.q_sending) refl x))
        (Chain-frame (λ y. (table y).next_sending) (λ y. (ended y).next_sending) (table x).q_sending
          (queue' x) (λ y j. kept_field (λ (p : Proc). p.next_sending) refl y) (table_chain x lt))
    where
      table_chain :
          (x : ℕ)
          → x < nr_entries
          → Chain (λ y. (table y).next_sending) (table x).q_sending (queue' x)
      table_chain x lt = elim (ℕ_discrete me x) [
        | yes e ↦
            subst (λ y. Chain (λ z. (table z).next_sending) (table y).q_sending (queue' y)) e
              (rw (update_eq a.queue me me (erase src (a.queue me)) refl) reduced)
        | no q ↦
            rw (update_ne a.queue me x (erase src (a.queue me)) q, heads x (λ e. q (sym e)))
              (Chain-frame (links k) (λ y. (table y).next_sending) (k.procs x).q_sending (a.queue x)
                (λ y j. others x y lt (λ e. q (sym e)) j) (h.chain x lt))
      ]

  -- Who is in a queue now: those who were, but for `src`.
  In-queue' : (x y : ℕ) → x < nr_entries → In y (queue' x) → (src ≢ y) × In y (a.queue x)
  In-queue' x y lt j = elim (ℕ_discrete me x) [
    | yes e ↦
        let j' = subst (In y) (update_eq a.queue me x (erase src (a.queue me)) e) j in
        (
          (λ q.
              not-In-erase src (a.queue me) (h.distinct me me_lt)
                (In-subst (erase src (a.queue me)) (sym q) j')),
          subst (λ z. In y (a.queue z)) e (In-erase src y (a.queue me) j'),
        )
    | no q ↦
        let j' = subst (In y) (update_ne a.queue me x (erase src (a.queue me)) q) j in
        ((λ r. q (sending_inj (sym src_sends ∙ ap a.status r ∙ (h.queued x y lt j').1))), j')
  ]
    where
      sending_inj : {p q : ℕ} → sending p ≡ sending q → p ≡ q
      sending_inj e = cc

  queue'-In : (x y : ℕ) → src ≢ y → In y (a.queue x) → In y (queue' x)
  queue'-In x y q j = elim (ℕ_discrete me x) [
    | yes e ↦
        subst (In y) (sym (update_eq a.queue me x (erase src (a.queue me)) e))
          (erase-In src y (a.queue me) (λ r. q (sym r)) (subst (λ z. In y (a.queue z)) (sym e) j))
    | no r ↦ subst (In y) (sym (update_ne a.queue me x (erase src (a.queue me)) r)) j
  ]

  status'-sending : (x y : ℕ) → status' y ≡ sending x → (src ≢ y) × (a.status y ≡ sending x)
  status'-sending x y e = elim (ℕ_discrete src y) [
    | yes q ↦ cc (sym (update_eq a.status src y idle q) ∙ e)
    | no q ↦ (q, sym (update_ne a.status src y idle q) ∙ e)
  ]

  distinct' : (x : ℕ) → x < nr_entries → IsDistinct (queue' x)
  distinct' x lt = elim (ℕ_discrete me x) [
    | yes e ↦
        subst IsDistinct (sym (update_eq a.queue me x (erase src (a.queue me)) e))
          (IsDistinct-erase src (a.queue me) (h.distinct me me_lt))
    | no q ↦
        subst IsDistinct (sym (update_ne a.queue me x (erase src (a.queue me)) q)) (h.distinct x lt)
  ]

  pub served-Holds : (mem : ℕ → ℕ) → Holds (record k { procs = ended; mem = mem }) (serve a me src)
  served-Holds mem = record {
    current = h.current;
    flat = λ x lt.
        kept_field (λ (p : Proc). p.base) refl x ∙ ap (λ (c : Core). c.0) (cores x) ∙ h.flat x lt;
    fits = ended-Fits;
    kept = λ x lt.
        kept_field (λ (p : Proc). p.has_int_msg) refl x
        ∙ ap (λ (c : Core). c.5) (cores x)
        ∙ h.kept x lt;
    chain = chains;
    queued = λ x y lt j.
        let (q, j') = In-queue' x y lt j in
        ((h.queued x y lt j').0, update_ne a.status src y idle q ∙ (h.queued x y lt j').1);
    waiting = λ x y lt e.
        let (q, e') = status'-sending x y e in
        ((h.waiting x y lt e').0, queue'-In x y q (h.waiting x y lt e').1);
    distinct = distinct';
    ends = λ x lt. Ends-quiet src idle refl (h.ends x lt);
    bounded = λ y x e. h.bounded y x (status'-sending x y e).1;
  }
