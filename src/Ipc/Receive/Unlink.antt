-- ===== src/Ipc/Receive/Unlink.antt =====
-- The table after msg_receive() has taken a waiting sender out of the caller's queue.
use native.Mathlib.Decide.{ℕ_discrete}
use mathlib.Core.Path.{subst}
use kusa_os.Base.{
  ℕ, zero, suc, ◌≤◌, ◌<◌, ◌≡◌, ◌≢◌, refl, sym, ap, ◌∙◌, arith, ok, update, update_ne, update_self,
  ne→==, ==_iff, List, [], ◌∷◌, Option, none, some,
}
use kusa_os.Kernel.{Kernel, Proc, nr_entries}
use kusa_os.Ipc.Abstract.{sending, Net, In, IsDistinct, erase}
use kusa_os.Ipc.Receive.{find_prev, unlink_sender}
use kusa_os.Ipc.Invariant.{Holds, links}
use kusa_os.Ipc.Change.{update-field}
use kusa_os.Ipc.Core.{core}
use kusa_os.Ipc.Queue.{
  Chain, Chain-frame, Chain-erase, before, before-In, before-ne, In-subst, In-tail, length,
  erase_here, erase_later, some_inj,
}

-- The walk along the queue stops behind the entry in front of `src`.
pub find_prev-before :
    (k : Kernel) (src f : ℕ) (ptr prev : Option ℕ) (ps : List ℕ)
    → length ps ≤ f
    → In src ps
    → Chain (links k) ptr ps
    → find_prev k src f ptr prev ≡ ok (before src prev ps)
unfolding find_prev
find_prev-before k src zero ptr prev (p ∷ ps) le i c = absurd (omega arith)
find_prev-before k src (suc f) ptr prev (p ∷ ps) le i c = elim (ℕ_discrete p src) [
  | yes e ↦ rw (c.0, find_prev, (==_iff p src).1 e)
  | no ne ↦
      rw (c.0, find_prev, ne→== p src ne)
        (find_prev-before k src f (links k p) (some p) ps (omega arith) (In-tail ps ne i) c.1)
]
find_prev-before k src f ptr prev [] le i c = absurd i

module _ {k : Kernel} {a : Net} (h : Holds k a) (me src : ℕ) (me_lt : me < nr_entries)
    (ne : me ≢ src) (i : In src (a.queue me)) where
  -- `src` has left the queue of `me`, and nothing else of the table has changed but its own link.
  pub record IsUnlinked (table : ℕ → Proc) : Type 0 where
    pub cores : (x : ℕ) → core (table x) ≡ core (k.procs x)
    pub heads : (x : ℕ) → x ≢ me → (table x).q_sending ≡ (k.procs x).q_sending
    pub others :
        (x y : ℕ) → x < nr_entries → x ≢ me → In y (a.queue x) → (table y).next_sending ≡ links k y
    pub reduced : Chain (λ x. (table x).next_sending) (table me).q_sending (erase src (a.queue me))

  in_one_queue : (x y : ℕ) → x < nr_entries → In y (a.queue x) → In y (a.queue me) → x ≡ me
  in_one_queue x y lt j j' = sending_inj (sym (h.queued x y lt j).1 ∙ (h.queued me y me_lt j').1)
    where
      sending_inj : {p q : ℕ} → sending p ≡ sending q → p ≡ q
      sending_inj e = cc

  -- One entry's link is written, then the link of `src` is cleared.
  module _ (l : ℕ) (L : Proc) (l_core : core L ≡ core (k.procs l)) (l_ne : l ≢ src) where
    abbrev linked : ℕ → Proc
    linked = update k.procs l L

    abbrev cleared_link : Proc
    cleared_link = record (linked src) { next_sending = none }

    abbrev final : ℕ → Proc
    final = update linked src cleared_link

    final-core : (x : ℕ) → core (final x) ≡ core (k.procs x)
    final-core x =
        update-field core linked src x cleared_link refl ∙ update-field core k.procs l x L l_core

    final-link : (x : ℕ) → src ≢ x → (final x).next_sending ≡ (linked x).next_sending
    final-link x q = ap (λ (p : Proc). p.next_sending) (update_ne linked src x cleared_link q)

    final-head : (x : ℕ) → (final x).q_sending ≡ (linked x).q_sending
    final-head x = update-field (λ (p : Proc). p.q_sending) linked src x cleared_link refl

  elsewhere : (x y : ℕ) → x < nr_entries → x ≢ me → In y (a.queue x) → src ≢ y
  elsewhere x y lt q j e = q (in_one_queue x src lt (In-subst (a.queue x) (sym e) j) i)

  -- a table that the removal may leave, with what the code returns
  abbrev pub Unlinked : List ℕ → Type 0
  Unlinked qs =
      (table : ℕ → Proc) × (unlink_sender k me src (before src none qs)
        ≡ ok (record k { procs = table }))
      × IsUnlinked table

  Unlinked-head : (p : ℕ) (ps : List ℕ) → a.queue me ≡ p ∷ ps → p ≡ src → Unlinked (p ∷ ps)
  unfolding unlink_sender
  Unlinked-head p ps e is_src = (
    final me L refl ne,
    rw (old.0, (==_iff p src).1 is_src),
    record {
      cores = final-core me L refl ne;
      heads = λ x q.
          final-head me L refl ne x
          ∙ ap (λ (r : Proc). r.q_sending) (update_ne k.procs me x L (λ r. q (sym r)));
      others = λ x y lt q j.
          final-link me L refl ne y (elsewhere x y lt q j)
          ∙ update-field (λ (r : Proc). r.next_sending) k.procs me y L refl;
      reduced =
          subst
            (λ qs.
              Chain (λ x. (final me L refl ne x).next_sending) (final me L refl ne me).q_sending qs)
            (sym (ap (erase src) e ∙ erase_here src p ps is_src))
            (subst (λ t. Chain (λ x. (final me L refl ne x).next_sending) t ps) (sym new_head)
              (Chain-frame (links k) (λ x. (final me L refl ne x).next_sending) (links k p) ps rest
                old.1));
    },
  )
    where
      L : Proc
      L = record (k.procs me) { q_sending = (k.procs src).next_sending }

      old : Chain (links k) (k.procs me).q_sending (p ∷ ps)
      old = subst (Chain (links k) (k.procs me).q_sending) e (h.chain me me_lt)

      apart : IsDistinct (p ∷ ps)
      apart = subst IsDistinct e (h.distinct me me_lt)

      new_head : (final me L refl ne me).q_sending ≡ links k p
      new_head =
          final-head me L refl ne me
          ∙ ap (λ (r : Proc). r.q_sending) (update_self k.procs me L)
          ∙ ap (links k) (sym is_src)

      rest : (x : ℕ) → In x ps → (final me L refl ne x).next_sending ≡ links k x
      rest x j =
          final-link me L refl ne x (λ q. apart.0 (In-subst ps (sym q ∙ sym is_src) j))
          ∙ update-field (λ (r : Proc). r.next_sending) k.procs me x L refl

  Unlinked-after : (p : ℕ) (ps : List ℕ) → a.queue me ≡ p ∷ ps → p ≢ src → Unlinked (p ∷ ps)
  unfolding unlink_sender
  Unlinked-after p ps e not_src = (
    final l L refl l_ne,
    rw (old.0, ne→== p src not_src, before_l),
    record {
      cores = final-core l L refl l_ne;
      heads = λ x q.
          final-head l L refl l_ne x ∙ update-field (λ (r : Proc). r.q_sending) k.procs l x L refl;
      others = λ x y lt q j.
          final-link l L refl l_ne y (elsewhere x y lt q j)
          ∙ ap (λ (r : Proc). r.next_sending)
              (update_ne k.procs l y L
                (λ r. q (in_one_queue x y lt j (In-subst (a.queue me) r l_in))));
      reduced =
          subst
            (λ qs.
              Chain (λ x. (final l L refl l_ne x).next_sending) (final l L refl l_ne me).q_sending
                qs)
            (sym (ap (erase src) e ∙ erase_later src p ps not_src))
            (subst (λ t. Chain (λ x. (final l L refl l_ne x).next_sending) t (p ∷ erase src ps))
              (sym head_kept)
              (Chain-erase (links k) (λ x. (final l L refl l_ne x).next_sending)
                (k.procs me).q_sending src p ps (subst IsDistinct e (h.distinct me me_lt)) not_src
                (In-tail ps not_src (subst (In src) e i)) same at_prev old));
    },
  )
    where
      found : (l : ℕ) × (before src (some p) ps ≡ some l) × (l ≢ src)
      found = before-ne src p ps not_src

      l : ℕ
      l = found.0

      before_l : before src (some p) ps ≡ some l
      before_l = found.1

      l_ne : l ≢ src
      l_ne = found.2

      L : Proc
      L = record (k.procs l) { next_sending = (k.procs src).next_sending }

      l_in : In l (a.queue me)
      l_in = subst (In l) (sym e) (before-In src p l ps before_l)

      old : Chain (links k) (k.procs me).q_sending (p ∷ ps)
      old = subst (Chain (links k) (k.procs me).q_sending) e (h.chain me me_lt)

      head_kept : (final l L refl l_ne me).q_sending ≡ (k.procs me).q_sending
      head_kept =
          final-head l L refl l_ne me ∙ update-field (λ (r : Proc). r.q_sending) k.procs l me L refl

      same :
          (x : ℕ)
          → In x (p ∷ ps)
          → some x ≢ before src (some p) ps
          → x ≢ src
          → (final l L refl l_ne x).next_sending ≡ links k x
      same x j nb ns =
          final-link l L refl l_ne x (λ q. ns (sym q))
          ∙ ap (λ (r : Proc). r.next_sending)
              (update_ne k.procs l x L (λ r. nb (ap some (sym r) ∙ sym before_l)))

      at_prev :
          (q : ℕ)
          → before src (some p) ps ≡ some q
          → (final l L refl l_ne q).next_sending ≡ links k src
      at_prev q eq =
          ap (λ x. (final l L refl l_ne x).next_sending) (some_inj (sym eq ∙ before_l))
          ∙ final-link l L refl l_ne l (λ r. l_ne (sym r))
          ∙ ap (λ (r : Proc). r.next_sending) (update_self k.procs l L)

  -- unlink_sender() takes `src` out of the queue, wherever in it it stands.
  pub unlinked : (qs : List ℕ) → a.queue me ≡ qs → Unlinked qs
  unlinked [] e = absurd (subst (In src) e i)
  unlinked (p ∷ ps) e = elim (ℕ_discrete p src) [
    | yes is_src ↦ Unlinked-head p ps e is_src
    | no not_src ↦ Unlinked-after p ps e not_src
  ]
