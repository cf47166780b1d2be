-- ===== src/Sched/Laws.antt =====
-- rr_schedule() of kernel/proc.c: which entry it comes to.
use kusa_os.Base.{
  ℕ, zero, suc, ◌+◌, ◌%◌, ◌-◌, ◌<◌, ◌≡◌, refl, ap, sym, ◌∙◌, inl, inr, arith, true, false, ok, err,
  Fault, Bool-cases,
}
use kusa_os.Kernel.{Kernel, nr_entries}
use kusa_os.Sched.{runnable, next_entry, rr_from, rr_schedule}

-- the entry `i` places after `p`
abbrev pub after : ℕ → ℕ → ℕ
after p i = (p + i) % nr_entries

after-next : (p i : ℕ) → p < nr_entries → after (next_entry p) i ≡ after p (suc i)
after-next p i h = ground arith

after-round :
    (p q : ℕ) → p < nr_entries → q < nr_entries → after p ((q + nr_entries - p) % nr_entries) ≡ q
after-round p q h lt = omega arith

next_entry-lt : (p : ℕ) → p < nr_entries → next_entry p < nr_entries
next_entry-lt p h = ground arith

-- `r` is the first runnable entry from `p` on, less than `bound` places away.
pub record Found (k : Kernel) (p bound r : ℕ) : Type 0 where
  pub steps : ℕ
  pub place : r ≡ after p steps
  pub near : steps < bound
  pub able : runnable k r ≡ true
  pub first : (i : ℕ) → i < steps → runnable k (after p i) ≡ false

-- One place further: what is first after `p`'s successor is first after `p`, if `p` is not able.
Found-next :
    (k : Kernel) (p f r : ℕ)
    → p < nr_entries
    → runnable k p ≡ false
    → Found k (next_entry p) f r
    → Found k p (suc f) r
Found-next k p f r h no_run found = record {
  steps = suc found.steps;
  place = found.place ∙ after-next p found.steps h;
  near = omega arith;
  able = found.able;
  first = earlier;
}
  where
    open found use {steps}

    earlier : (i : ℕ) → i < suc steps → runnable k (after p i) ≡ false
    earlier zero lt = ap (runnable k) (omega arith) ∙ no_run
    earlier (suc i) lt = ap (runnable k) (sym (after-next p i h)) ∙ found.first i (omega arith)

rr_from-lem :
    (k : Kernel) (f p i : ℕ)
    → p < nr_entries
    → i < f
    → runnable k (after p i) ≡ true
    → (r : ℕ) × (rr_from k f p ≡ ok r) × Found k p f r
unfolding rr_from
rr_from-lem k zero p i h lt run = absurd (omega arith)
rr_from-lem k (suc f) p zero h lt run = (
  p,
  rw (able, rr_from),
  record {
    steps = 0;
    place = omega arith;
    near = omega arith;
    able = able;
    first = λ j q. absurd (omega arith);
  },
)
  where
    able : runnable k p ≡ true
    able = ap (runnable k) (omega arith) ∙ run
rr_from-lem k (suc f) p (suc i) h lt run = elim (Bool-cases (runnable k p)) [
  | inl able ↦ (
    p,
    rw (able, rr_from),
    record {
      steps = 0;
      place = omega arith;
      near = omega arith;
      able = able;
      first = λ j q. absurd (omega arith);
    },
  )
  | inr unable ↦
      let (r, e, found) =
        rr_from-lem k f (next_entry p) i (next_entry-lt p h) (omega arith)
          (ap (runnable k) (after-next p i h) ∙ run) in
      (r, rw (unable, rr_from) e, Found-next k p f r h unable found)
]

-- rr_schedule() makes the first runnable entry after the current one the current one, if any
-- entry of the table is runnable: it does not spin, and passes over no runnable process.
pub rr_schedule-Found :
    (k : Kernel) (q : ℕ)
    → k.ready < nr_entries
    → q < nr_entries
    → runnable k q ≡ true
    → (r : ℕ) × (rr_schedule k ≡ ok (record k { ready = r }))
      × Found k (next_entry k.ready) nr_entries r
unfolding rr_schedule
rr_schedule-Found k q h lt run =
    let (r, e, found) =
      rr_from-lem k nr_entries (next_entry k.ready)
        ((q + nr_entries - next_entry k.ready) % nr_entries) (next_entry-lt k.ready h) (omega arith)
        (ap (runnable k) (after-round (next_entry k.ready) q (next_entry-lt k.ready h) lt) ∙ run) in
    (r, rw e, found)

rr_from-spins :
    (k : Kernel) (f p : ℕ)
    → p < nr_entries
    → ((q : ℕ) → q < nr_entries → runnable k q ≡ false)
    → rr_from k f p ≡ err Fault.spins
unfolding rr_from
rr_from-spins k zero p h none_able = refl
rr_from-spins k (suc f) p h none_able =
    rw (none_able p h, rr_from) (rr_from-spins k f (next_entry p) (next_entry-lt p h) none_able)

-- With no runnable entry rr_schedule() never returns.
pub rr_schedule-spins :
    (k : Kernel)
    → k.ready < nr_entries
    → ((q : ℕ) → q < nr_entries → runnable k q ≡ false)
    → rr_schedule k ≡ err Fault.spins
unfolding rr_schedule
rr_schedule-spins k h none_able =
    rw (rr_from-spins k nr_entries (next_entry k.ready) (next_entry-lt k.ready h) none_able)
