-- ===== src/Ipc/Change.antt =====
-- Changing one entry of the table, where neither the old status nor the new one sends and the
-- entry's links stay: the table holds the net with that status.
use native.Mathlib.Decide.{ℕ_discrete}
use kusa_os.Base.{
  ℕ, ◌<◌, ◌≡◌, ◌≢◌, sym, ap, ◌∙◌, Bool, true, update, update_eq, update_ne, ==_iff, ne→==,
}
use kusa_os.Kernel.{Kernel, Proc, nr_entries}
use kusa_os.Ipc.Abstract.{Status, sending, Net}
use kusa_os.Ipc.Graph.{Ends-quiet, is_quiet}
use kusa_os.Ipc.Queue.{Chain, Chain-frame}
use kusa_os.Ipc.Invariant.{Holds, Fits, links}

-- The two entries have the same segment and the same links.
pub record SameLinks (p q : Proc) : Type 0 where
  pub base : q.base ≡ p.base
  pub head : q.q_sending ≡ p.q_sending
  pub next : q.next_sending ≡ p.next_sending

pub update-field {ℓ κ} :
    {A : Type ℓ} {B : Type κ} (g : A → B) (f : ℕ → A) (p x : ℕ) (P : A)
    → g P ≡ g (f p)
    → g (update f p P x) ≡ g (f x)
update-field g f p x P e = elim (ℕ_discrete p x) [
  | yes q ↦ ap g (update_eq f p x P q) ∙ e ∙ ap (λ y. g (f y)) q
  | no ne ↦ ap g (update_ne f p x P ne)
]

module _ {k : Kernel} {a : Net} (h : Holds k a) (p : ℕ) (P : Proc) (s : Status) (pending : ℕ → Bool)
    (same : SameLinks (k.procs p) P) (fit : Fits s P) (was : is_quiet (a.status p) ≡ true)
    (is : is_quiet s ≡ true) where
  abbrev changed : ℕ → Proc
  changed = update k.procs p P

  abbrev status' : ℕ → Status
  status' = update a.status p s

  changed-Fits : (x : ℕ) → x < nr_entries → Fits (status' x) (changed x)
  changed-Fits x lt = elim (ℕ_discrete p x) [
    | yes e ↦ rw ((==_iff p x).1 e) fit
    | no ne ↦ rw (ne→== p x ne) (h.fits x lt)
  ]

  -- The entry that changed is in no queue.
  not_sending : (x d : ℕ) → a.status x ≡ sending d → p ≢ x
  not_sending x d q e = cc (ap is_quiet (ap a.status e ∙ q))

  not_sending' : (x d : ℕ) → status' x ≡ sending d → p ≢ x
  not_sending' x d q e = cc (ap is_quiet (sym (update_eq a.status p x s e) ∙ q))

  old_status : (x d : ℕ) → status' x ≡ sending d → a.status x ≡ sending d
  old_status x d q = sym (update_ne a.status p x s (not_sending' x d q)) ∙ q

  pub Holds-change :
      (r : ℕ) (mem : ℕ → ℕ)
      → r < nr_entries
      → ((x : ℕ) → x < nr_entries → (changed x).has_int_msg ≡ pending x)
      → Holds
          (record k { procs = changed; mem = mem; ready = r })
          (record a { status = status'; pending = pending })
  Holds-change r mem rlt kept = record {
    current = rlt;
    flat = λ x lt. update-field (λ (q : Proc). q.base) k.procs p x P same.base ∙ h.flat x lt;
    fits = changed-Fits;
    kept = kept;
    chain = chains;
    queued = λ d x lt i.
        let (xlt, e) = h.queued d x lt i in (xlt, update_ne a.status p x s (not_sending x d e) ∙ e);
    waiting = λ d x lt e. h.waiting d x lt (old_status x d e);
    distinct = h.distinct;
    ends = λ x lt. Ends-quiet p s is (h.ends x lt);
    bounded = λ x d e. h.bounded x d (old_status x d e);
  }
    where
      chains :
          (d : ℕ)
          → d < nr_entries
          → Chain (λ x. (changed x).next_sending) (changed d).q_sending (a.queue d)
      chains d lt = rw (update-field (λ (q : Proc). q.q_sending) k.procs p d P same.head) (
          Chain-frame (links k) (λ x. (changed x).next_sending) (k.procs d).q_sending (a.queue d)
            (λ x i. update-field (λ (q : Proc). q.next_sending) k.procs p x P same.next)
            (h.chain d lt))
