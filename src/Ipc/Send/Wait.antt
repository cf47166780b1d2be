-- ===== src/Ipc/Send/Wait.antt =====
-- The table after append_sender() holds the net in which the sender waits, last in its queue.
use native.Mathlib.Decide.{ℕ_discrete}
use mathlib.Core.Path.{subst}
use kusa_os.Base.{
  ℕ, ◌<◌, ◌≡◌, ◌≢◌, refl, sym, ap, ◌∙◌, ◌⊎◌, inl, inr, update, update_eq, update_ne, ==_iff, ne→==,
  List, [], ◌∷◌, ◌++◌,
}
use kusa_os.Kernel.{Kernel, Proc, nr_entries}
use kusa_os.Ipc.Abstract.{Status, idle, sending, Net, In, IsDistinct}
use kusa_os.Ipc.Defs.{sending_to}
use kusa_os.Ipc.Graph.{Reaches, Ends-send, is_quiet}
use kusa_os.Ipc.Invariant.{Holds, Fits, IsAddress, links}
use kusa_os.Ipc.Change.{update-field}
use kusa_os.Ipc.Core.{Core, core, Fits-core}
use kusa_os.Ipc.Queue.{
  Chain, Chain-frame, In-append, In-append_left, In-append_last, IsDistinct-append, In-subst,
}
use kusa_os.Ipc.Send.Enqueue.{IsAppended, not_queued}

sending_inj : {p q : ℕ} → sending p ≡ sending q → p ≡ q
sending_inj e = cc

Fits-sending_to :
    (p : Proc) (d m : ℕ) → IsAddress m → Fits idle p → Fits (sending d) (sending_to p d m)
Fits-sending_to p d m addr f = (rw f.0, addr, f.2, refl)

-- `s` waits to send to `d`, behind all who waited before.
abbrev pub waiting_net : Net → ℕ → ℕ → Net
waiting_net a s d = record a {
  status = update a.status s (sending d);
  queue = update a.queue d (a.queue d ++ (s ∷ []));
}

module _ {k : Kernel} {a : Net} (h : Holds k a) (s d m : ℕ) (s_lt : s < nr_entries)
    (d_lt : d < nr_entries) (ne : s ≢ d) (s_idle : a.status s ≡ idle) (addr : IsAddress m)
    (no_way : ¬ Reaches a.status s d) (table : ℕ → Proc)
    (t : IsAppended h s d m s_lt d_lt ne s_idle table) where
  open t use {cores, heads, others, extended}

  abbrev status' : ℕ → Status
  status' = update a.status s (sending d)

  abbrev queue' : ℕ → List ℕ
  queue' = update a.queue d (a.queue d ++ (s ∷ []))

  abbrev written : ℕ → Proc
  written = update k.procs s (sending_to (k.procs s) d m)

  field :
      {B : Type 0} (g : Core → B)
      → g (core (sending_to (k.procs s) d m)) ≡ g (core (k.procs s))
      → (x : ℕ) → g (core (table x)) ≡ g (core (k.procs x))
  field g e x =
      ap g (cores x)
      ∙ update-field (λ (p : Proc). g (core p)) k.procs s x (sending_to (k.procs s) d m) e

  written-Fits : (x : ℕ) → x < nr_entries → Fits (status' x) (written x)
  written-Fits x lt = elim (ℕ_discrete s x) [
    | yes e ↦ rw ((==_iff s x).1 e) (
        Fits-sending_to (k.procs s) d m addr
          (subst (λ t. Fits t (k.procs s)) s_idle (h.fits s s_lt)))
    | no q ↦ rw (ne→== s x q) (h.fits x lt)
  ]

  chains :
      (x : ℕ) → x < nr_entries → Chain (λ y. (table y).next_sending) (table x).q_sending (queue' x)
  chains x lt = elim (ℕ_discrete d x) [
    | yes e ↦
        subst (λ y. Chain (λ z. (table z).next_sending) (table y).q_sending (queue' y)) e
          (rw (update_eq a.queue d d (a.queue d ++ (s ∷ [])) refl) extended)
    | no q ↦
        rw (update_ne a.queue d x (a.queue d ++ (s ∷ [])) q, heads x (λ e. q (sym e)))
          (Chain-frame (links k) (λ y. (table y).next_sending) (k.procs x).q_sending (a.queue x)
            (λ y i. others x y lt (λ e. q (sym e)) i) (h.chain x lt))
  ]

  -- Who is in a queue now: those who were, and `s` in that of `d`.
  In-queue' : (x y : ℕ) → In y (queue' x) → In y (a.queue x) ⊎ ((x ≡ d) × (y ≡ s))
  In-queue' x y i = elim (ℕ_discrete d x) [
    | yes e ↦ elim (In-append (a.queue d) y s (In-at e i)) [
      | inl j ↦ inl (subst (λ z. In y (a.queue z)) e j)
      | inr q ↦ inr (sym e, q)
    ]
    | no q ↦ inl (subst (In y) (update_ne a.queue d x (a.queue d ++ (s ∷ [])) q) i)
  ]
    where
      In-at : d ≡ x → In y (queue' x) → In y (a.queue d ++ (s ∷ []))
      In-at e j = subst (In y) (update_eq a.queue d x (a.queue d ++ (s ∷ [])) e) j

  queue'-In : (x y : ℕ) → In y (a.queue x) → In y (queue' x)
  queue'-In x y i = elim (ℕ_discrete d x) [
    | yes e ↦
        subst (In y) (sym (update_eq a.queue d x (a.queue d ++ (s ∷ [])) e))
          (In-append_left (a.queue d) y s (subst (λ z. In y (a.queue z)) (sym e) i))
    | no q ↦ subst (In y) (sym (update_ne a.queue d x (a.queue d ++ (s ∷ [])) q)) i
  ]

  status'-sending :
      (x y : ℕ) → status' y ≡ sending x → (s ≡ y) × (d ≡ x) ⊎ (s ≢ y) × (a.status y ≡ sending x)
  status'-sending x y e = elim (ℕ_discrete s y) [
    | yes q ↦ inl (q, sending_inj (sym (update_eq a.status s y (sending d) q) ∙ e))
    | no q ↦ inr (q, sym (update_ne a.status s y (sending d) q) ∙ e)
  ]

  queued' :
      (x y : ℕ) → x < nr_entries → In y (queue' x) → (y < nr_entries) × (status' y ≡ sending x)
  queued' x y lt i = elim (In-queue' x y i) [
    | inl j ↦ (
      (h.queued x y lt j).0,
      update_ne a.status s y (sending d)
            (λ e. not_queued h s d m s_lt d_lt ne s_idle x lt (In-subst (a.queue x) (sym e) j))
          ∙ (h.queued x y lt j).1,
    )
    | inr (ex, ey) ↦ (
      subst (λ z. z < nr_entries) (sym ey) s_lt,
      update_eq a.status s y (sending d) (sym ey) ∙ ap sending (sym ex),
    )
  ]

  waiting' : (x y : ℕ) → y < nr_entries → status' y ≡ sending x → (x < nr_entries) × In y (queue' x)
  waiting' x y lt e = elim (status'-sending x y e) [
    | inl (ey, ex) ↦ (
      subst (λ z. z < nr_entries) ex d_lt,
      subst (In y) (sym (update_eq a.queue d x (a.queue d ++ (s ∷ [])) ex))
          (In-subst (a.queue d ++ (s ∷ [])) ey (In-append_last (a.queue d) s)),
    )
    | inr (q, old) ↦ let (xlt, i) = h.waiting x y lt old in (xlt, queue'-In x y i)
  ]

  distinct' : (x : ℕ) → x < nr_entries → IsDistinct (queue' x)
  distinct' x lt = elim (ℕ_discrete d x) [
    | yes e ↦ subst IsDistinct (sym (update_eq a.queue d x (a.queue d ++ (s ∷ [])) e)) (
        IsDistinct-append (a.queue d) s (h.distinct d d_lt)
          (not_queued h s d m s_lt d_lt ne s_idle d d_lt))
    | no q ↦
        subst IsDistinct (sym (update_ne a.queue d x (a.queue d ++ (s ∷ [])) q)) (h.distinct x lt)
  ]

  bounded' : (x y : ℕ) → status' x ≡ sending y → y < nr_entries
  bounded' x y e = elim (status'-sending y x e) [
    | inl (ex, ey) ↦ subst (λ z. z < nr_entries) ey d_lt
    | inr (q, old) ↦ h.bounded x y old
  ]

  pub appended-Holds :
      (r : ℕ) → r < nr_entries → Holds (record k { procs = table; ready = r }) (waiting_net a s d)
  appended-Holds r r_lt = record {
    current = r_lt;
    flat = λ x lt. field (λ c. c.0) refl x ∙ h.flat x lt;
    fits = λ x lt. Fits-core (status' x) (written x) (table x) (cores x) (written-Fits x lt);
    kept = λ x lt. field (λ c. c.5) refl x ∙ h.kept x lt;
    chain = chains;
    queued = queued';
    waiting = waiting';
    distinct = distinct';
    ends = λ x lt.
        Ends-send s d (ap is_quiet s_idle) (λ e. ne (sym e)) no_way (h.ends d d_lt) (h.ends x lt);
    bounded = bounded';
  }
