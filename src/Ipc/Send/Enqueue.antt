-- ===== src/Ipc/Send/Enqueue.antt =====
-- The branch of msg_send() in which the sender has to wait: it is put at the end of the queue.
use mathlib.Core.Path.{subst}
use kusa_os.Base.{
  ℕ, zero, suc, ◌≤◌, ◌<◌, ◌≡◌, ◌≢◌, refl, sym, ap, ◌∙◌, arith, ok, update, update_ne, update_self,
  List, [], ◌∷◌, ◌++◌, none, some,
}
use kusa_os.Kernel.{Kernel, Proc, nr_entries}
use kusa_os.Ipc.Abstract.{idle, sending, Net, In, IsDistinct}
use kusa_os.Ipc.Defs.{append_sender, last_of, sending_to, put}
use kusa_os.Ipc.Invariant.{Holds, links}
use kusa_os.Ipc.Change.{update-field}
use kusa_os.Ipc.Core.{core}
use kusa_os.Ipc.Queue.{
  Chain, Chain-frame, Chain-append, last_entry, last_entry-In, In-subst, length, length-le,
}

-- The walk ends at the last entry of the queue.
last_of-lem :
    (k : Kernel) (f p : ℕ) (ps : List ℕ)
    → length ps < f
    → Chain (links k) (links k p) ps
    → last_of k f p ≡ ok (last_entry p ps)
unfolding last_of
last_of-lem k zero p ps lt c = absurd (omega arith)
last_of-lem k (suc f) p [] lt c = rw (c, last_of)
last_of-lem k (suc f) p (q ∷ qs) lt c = rw (c.0, last_of) (last_of-lem k f q qs (omega arith) c.1)

module _ {k : Kernel} {a : Net} (h : Holds k a) (s d m : ℕ) (s_lt : s < nr_entries)
    (d_lt : d < nr_entries) (ne : s ≢ d) (s_idle : a.status s ≡ idle) where
  -- the table once the sender's own entry is written
  abbrev pub first : ℕ → Proc
  first = update k.procs s (sending_to (k.procs s) d m)

  -- What append_sender() has done to the table: the sender is at the end of the queue of `d`.
  pub record IsAppended (table : ℕ → Proc) : Type 0 where
    pub cores : (x : ℕ) → core (table x) ≡ core (first x)
    pub heads : (x : ℕ) → x ≢ d → (table x).q_sending ≡ (k.procs x).q_sending
    pub others :
        (x y : ℕ) → x < nr_entries → x ≢ d → In y (a.queue x) → (table y).next_sending ≡ links k y
    pub extended : Chain (λ x. (table x).next_sending) (table d).q_sending (a.queue d ++ (s ∷ []))

  pub not_queued : (x : ℕ) → x < nr_entries → ¬ In s (a.queue x)
  not_queued x lt i = cc (s_idle, (h.queued x s lt i).1)

  not_queued-ne : (x y : ℕ) → x < nr_entries → In y (a.queue x) → s ≢ y
  not_queued-ne x y lt i e = not_queued x lt (In-subst (a.queue x) (sym e) i)

  first-links : (y : ℕ) → (first y).next_sending ≡ links k y
  first-links y =
      update-field (λ (q : Proc). q.next_sending) k.procs s y (sending_to (k.procs s) d m) refl

  first-head : (y : ℕ) → (first y).q_sending ≡ (k.procs y).q_sending
  first-head y =
      update-field (λ (q : Proc). q.q_sending) k.procs s y (sending_to (k.procs s) d m) refl

  -- One entry's links are written, then the sender's own link is cleared.
  module _ (l : ℕ) (L : Proc) (l_core : core L ≡ core (first l)) (l_ne : l ≢ s) where
    abbrev linked : ℕ → Proc
    linked = update first l L

    abbrev cleared_link : Proc
    cleared_link = record (linked s) { next_sending = none }

    abbrev final : ℕ → Proc
    final = update linked s cleared_link

    final-core : (x : ℕ) → core (final x) ≡ core (first x)
    final-core x =
        update-field core linked s x cleared_link refl ∙ update-field core first l x L l_core

    final-link : (x : ℕ) → s ≢ x → (final x).next_sending ≡ (linked x).next_sending
    final-link x q = ap (λ (p : Proc). p.next_sending) (update_ne linked s x cleared_link q)

    final-own : (final s).next_sending ≡ none
    final-own = ap (λ (p : Proc). p.next_sending) (update_self linked s cleared_link)

    final-head : (x : ℕ) → (final x).q_sending ≡ (linked x).q_sending
    final-head x = update-field (λ (p : Proc). p.q_sending) linked s x cleared_link refl

  in_table : (x : ℕ) → In x (a.queue d) → x < nr_entries
  in_table x i = (h.queued d x d_lt i).0

  in_one_queue : (x y : ℕ) → x < nr_entries → In y (a.queue x) → In y (a.queue d) → x ≡ d
  in_one_queue x y lt i j = sending_inj (sym (h.queued x y lt i).1 ∙ (h.queued d y d_lt j).1)
    where
      sending_inj : {p q : ℕ} → sending p ≡ sending q → p ≡ q
      sending_inj e = cc

  abbrev pub k1 : Kernel
  k1 = put k s (sending_to (k.procs s) d m)

  -- append_sender() puts the sender at the end of the queue, whatever the queue holds.
  pub appended :
      (qs : List ℕ)
      → a.queue d ≡ qs
      → (table : ℕ → Proc) × (append_sender k1 s d ≡ ok (record k { procs = table }))
        × IsAppended table
  unfolding append_sender
  appended [] e = (
    final d L refl (λ q. ne (sym q)),
    rw (empty, append_sender),
    record {
      cores = final-core d L refl (λ q. ne (sym q));
      heads = λ x q.
          final-head d L refl (λ q. ne (sym q)) x
          ∙ ap (λ (p : Proc). p.q_sending) (update_ne first d x L (λ r. q (sym r)))
          ∙ first-head x;
      others = λ x y lt q i.
          final-link d L refl (λ q. ne (sym q)) y (not_queued-ne x y lt i)
          ∙ update-field (λ (p : Proc). p.next_sending) first d y L refl
          ∙ first-links y;
      extended =
          subst
            (λ qs.
              Chain (λ x. (final d L refl (λ q. ne (sym q)) x).next_sending)
                (final d L refl (λ q. ne (sym q)) d).q_sending (qs ++ (s ∷ [])))
            (sym e)
            (
              final-head d L refl (λ q. ne (sym q)) d
                  ∙ ap (λ (p : Proc). p.q_sending) (update_self first d L),
              final-own d L refl (λ q. ne (sym q)),
            );
    },
  )
    where
      L : Proc
      L = record (first d) { q_sending = some s }

      empty : (first d).q_sending ≡ none
      empty = first-head d ∙ subst (Chain (links k) (k.procs d).q_sending) e (h.chain d d_lt)
  appended (p ∷ ps) e = (
    final l L refl l_ne,
    rw (some_first, append_sender, walked),
    record {
      cores = final-core l L refl l_ne;
      heads = λ x q.
          final-head l L refl l_ne x
          ∙ update-field (λ (r : Proc). r.q_sending) first l x L refl
          ∙ first-head x;
      others = λ x y lt q i.
          final-link l L refl l_ne y (not_queued-ne x y lt i)
          ∙ ap (λ (r : Proc). r.next_sending)
              (update_ne first l y L (λ r. q (in_one_queue x y lt i (In-subst (a.queue d) r l_in))))
          ∙ first-links y;
      extended =
          subst
            (λ qs.
              Chain (λ x. (final l L refl l_ne x).next_sending) (final l L refl l_ne d).q_sending
                (qs ++ (s ∷ [])))
            (sym e)
            (subst (λ t. Chain (λ x. (final l L refl l_ne x).next_sending) t (p ∷ (ps ++ (s ∷ []))))
              (sym head_kept)
              (Chain-append (links k) (λ x. (final l L refl l_ne x).next_sending)
                (k.procs d).q_sending s p ps (subst IsDistinct e (h.distinct d d_lt)) rest_kept
                (final-link l L refl l_ne l (λ q. l_ne (sym q))
                  ∙ ap (λ (r : Proc). r.next_sending) (update_self first l L))
                (final-own l L refl l_ne) old));
    },
  )
    where
      l : ℕ
      l = last_entry p ps

      L : Proc
      L = record (first l) { next_sending = some s }

      l_in : In l (a.queue d)
      l_in = subst (In l) (sym e) (last_entry-In p ps)

      l_ne : l ≢ s
      l_ne q = not_queued-ne d l d_lt l_in (sym q)

      old : Chain (links k) (k.procs d).q_sending (p ∷ ps)
      old = subst (Chain (links k) (k.procs d).q_sending) e (h.chain d d_lt)

      some_first : (first d).q_sending ≡ some p
      some_first = first-head d ∙ old.0

      short : length (p ∷ ps) ≤ nr_entries
      short =
          length-le nr_entries (p ∷ ps) (λ x i. in_table x (subst (In x) (sym e) i))
            (subst IsDistinct e (h.distinct d d_lt))

      walked : last_of k1 nr_entries p ≡ ok l
      walked = last_of-lem k1 nr_entries p ps (omega (arith, short)) (
          rw (first-links p)
            (Chain-frame (links k) (links k1) (links k p) ps (λ x i. first-links x) old.1))

      head_kept : (final l L refl l_ne d).q_sending ≡ (k.procs d).q_sending
      head_kept =
          final-head l L refl l_ne d
          ∙ update-field (λ (r : Proc). r.q_sending) first l d L refl
          ∙ first-head d

      rest_kept : (x : ℕ) → In x (p ∷ ps) → x ≢ l → (final l L refl l_ne x).next_sending ≡ links k x
      rest_kept x i q =
          final-link l L refl l_ne x (not_queued-ne d x d_lt (subst (In x) (sym e) i))
          ∙ ap (λ (r : Proc). r.next_sending) (update_ne first l x L (λ r. q (sym r)))
          ∙ first-links x
