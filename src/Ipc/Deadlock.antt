-- ===== src/Ipc/Deadlock.antt =====
-- deadlock() of kernel/proc.c: the walk along the chain of senders.
use native.Mathlib.Decide.{ℕ_discrete}
use mathlib.Core.Path.{subst}
use kusa_os.Base.{
  ℕ, zero, suc, ◌≤◌, ◌<◌, ◌≡◌, ◌≢◌, sym, ap, ◌∙◌, ◌⊎◌, inl, inr, arith, true, false, ok, ==_iff,
  ne→==,
}
use kusa_os.Kernel.{Kernel, Proc, from, nr_entries}
use kusa_os.Ipc.Abstract.{Status, idle, unused, sending, receiving, Net}
use kusa_os.Ipc.Defs.{deadlock, deadlock_from, print_chain, not_null}
use kusa_os.Ipc.Graph.{Ends, stop, go, Reaches, last, step, visits, visits-le, is_quiet}
use kusa_os.Ipc.Invariant.{Holds, Fits}

-- What the flags and fields of an entry say of its status.
Fits-quiet : (s : Status) (p : Proc) → is_quiet s ≡ true → Fits s p → p.flags.sending ≡ false
Fits-quiet idle p h f = rw f.0
Fits-quiet unused p h f = rw f
Fits-quiet (receiving e) p h f = rw f.0
Fits-quiet (sending d) p h f = cc

record IsSender (p : Proc) (d : ℕ) : Type 0 where
  flag : p.flags.sending ≡ true
  target : p.sendto ≡ from d
  body : not_null p.p_msg ≡ true

Fits-IsSender : (d : ℕ) (p : Proc) → Fits (sending d) p → IsSender p d
Fits-IsSender d p f = record { flag = rw f.0; target = f.3; body = ground arith }

-- A chain to `s` from `p` goes on from where `p` sends to, unless it ends there.
Reaches-next :
    {st : ℕ → Status} {s p d : ℕ} → st p ≡ sending d → d ≢ s → Reaches st s p → Reaches st s d
Reaches-next {st} {s} {p} {d} e ne (last q) = absurd (ne (sending_inj (sym e ∙ q)))
  where
    sending_inj : {a b : ℕ} → sending a ≡ sending b → a ≡ b
    sending_inj h = cc
Reaches-next {st} {s} {p} {d} e ne (step {d = c} q r) =
    subst (Reaches st s) (sending_inj (sym q ∙ e)) r
  where
    sending_inj : {a b : ℕ} → sending a ≡ sending b → a ≡ b
    sending_inj h = cc

Reaches-ne-quiet : {st : ℕ → Status} {s p : ℕ} → is_quiet (st p) ≡ true → Reaches st s p → ⊥
Reaches-ne-quiet h (last q) = cc (ap is_quiet q)
Reaches-ne-quiet h (step q r) = cc (ap is_quiet q)

-- A chain that ends leads to `s` or does not.
reaches? : {st : ℕ → Status} (s : ℕ) {p : ℕ} → Ends st p → Reaches st s p ⊎ ¬ Reaches st s p
reaches? s (stop h) = inr (Reaches-ne-quiet h)
reaches? s (go {d = d} q e) = elim (ℕ_discrete d s) [
  | yes h ↦ inl (last (q ∙ ap sending h))
  | no ne ↦ elim (reaches? s e) [
    | inl r ↦ inl (step q r)
    | inr out ↦ inr (λ r. out (Reaches-next q ne r))
  ]
]

module _ {k : Kernel} {a : Net} (h : Holds k a) (s : ℕ) where
  quiet-flag :
      (p : ℕ) → p < nr_entries → is_quiet (a.status p) ≡ true → (k.procs p).flags.sending ≡ false
  quiet-flag p lt q = Fits-quiet (a.status p) (k.procs p) q (h.fits p lt)

  sender : (p d : ℕ) → p < nr_entries → a.status p ≡ sending d → IsSender (k.procs p) d
  sender p d lt q = Fits-IsSender d (k.procs p) (subst (λ t. Fits t (k.procs p)) q (h.fits p lt))

  -- Printing a chain that leads back to `s` ends.
  print_chain-ok :
      {p : ℕ} (f : ℕ) (e : Ends a.status p)
      → p < nr_entries
      → visits e ≤ f
      → Reaches a.status s p
      → print_chain k s f p ≡ ok tt
  unfolding print_chain visits
  print_chain-ok zero (stop q) lt le r = absurd (omega arith)
  print_chain-ok zero (go q e) lt le r = absurd (omega arith)
  print_chain-ok (suc f) (stop q) lt le r = absurd (Reaches-ne-quiet q r)
  print_chain-ok {p} (suc f) (go {d = d} q e) lt le r = elim (ℕ_discrete d s) [
    | yes eq ↦ rw (body, target, (==_iff d s).1 eq)
    | no ne ↦
        rw (body, target, ne→== d s ne)
          (print_chain-ok f e (h.bounded p d q) (omega arith) (Reaches-next q ne r))
  ]
    where
      open (sender p d lt q) use {body, target}

  deadlock_from-false :
      {p : ℕ} (dest f : ℕ) (e : Ends a.status p)
      → p < nr_entries
      → visits e ≤ f
      → ¬ Reaches a.status s p
      → deadlock_from k s dest f p ≡ ok false
  unfolding deadlock_from visits
  deadlock_from-false dest zero (stop q) lt le r = absurd (omega arith)
  deadlock_from-false dest zero (go q e) lt le r = absurd (omega arith)
  deadlock_from-false {p} dest (suc f) (stop q) lt le r = rw (quiet-flag p lt q, deadlock_from)
  deadlock_from-false {p} dest (suc f) (go {d = d} q e) lt le r =
      rw (flag, deadlock_from, target, ne→== d s (λ eq. r (last (q ∙ ap sending eq))))
        (deadlock_from-false dest f e (h.bounded p d q) (omega arith) (λ w. r (step q w)))
    where
      open (sender p d lt q) use {flag, target}

  deadlock_from-true :
      {p : ℕ} (dest f : ℕ) (e : Ends a.status p)
      → p < nr_entries
      → visits e ≤ f
      → print_chain k s nr_entries dest ≡ ok tt
      → Reaches a.status s p
      → deadlock_from k s dest f p ≡ ok true
  unfolding deadlock_from visits
  deadlock_from-true dest zero (stop q) lt le pr r = absurd (omega arith)
  deadlock_from-true dest zero (go q e) lt le pr r = absurd (omega arith)
  deadlock_from-true {p} dest (suc f) (stop q) lt le pr r = absurd (Reaches-ne-quiet q r)
  deadlock_from-true {p} dest (suc f) (go {d = d} q e) lt le pr r = elim (ℕ_discrete d s) [
    | yes eq ↦ rw (flag, deadlock_from, target, (==_iff d s).1 eq, pr)
    | no ne ↦
        rw (flag, deadlock_from, target, ne→== d s ne)
          (deadlock_from-true dest f e (h.bounded p d q) (omega arith) pr (Reaches-next q ne r))
  ]
    where
      open (sender p d lt q) use {flag, target}

  -- In a table that holds a net, deadlock() answers whether a chain of waiting senders leads from
  -- `dest` back to `s`; it always ends.
  pub deadlock_iff :
      (dest : ℕ)
      → dest < nr_entries
      → ((deadlock k s dest ≡ ok true) × Reaches a.status s dest)
        ⊎ ((deadlock k s dest ≡ ok false) × ¬ Reaches a.status s dest)
  unfolding deadlock
  deadlock_iff dest lt = elim (reaches? s e) [
    | inl r ↦
        inl
          (deadlock_from-true dest nr_entries e lt few (print_chain-ok nr_entries e lt few r) r, r)
    | inr out ↦ inr (deadlock_from-false dest nr_entries e lt few out, out)
  ]
    where
      e : Ends a.status dest
      e = h.ends dest lt

      few : visits e ≤ nr_entries
      few = visits-le nr_entries h.bounded lt e
