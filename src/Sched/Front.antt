-- ===== src/Sched/Front.antt =====
-- The round of priority_schedule() over the first twelve entries.
use kusa_os.Base.{
  ℕ, zero, suc, ◌+◌, ◌*◌, ◌%◌, ◌-◌, ◌<◌, ◌≡◌, refl, ap, ◌∙◌, inl, inr, arith, true, ok, Bool-cases,
}
use kusa_os.Kernel.{Kernel}
use kusa_os.Sched.{runnable, nr_front, next_front, front_from, front_schedule}

next_front-lt : (p : ℕ) → p < nr_front → next_front p < nr_front
next_front-lt p h = ground arith

next_front-mod : (p i : ℕ) → p < nr_front → (next_front p + i) % nr_front ≡ (p + suc i) % nr_front
next_front-mod p i h = ground arith

front_from-lem :
    (k : Kernel) (f p i : ℕ)
    → p < nr_front
    → i < f
    → runnable k ((p + i) % nr_front) ≡ true
    → (r : ℕ) × (front_from k f p ≡ ok r) × (r < nr_front) × (runnable k r ≡ true)
unfolding front_from
front_from-lem k zero p i h lt run = absurd (omega arith)
front_from-lem k (suc f) p zero h lt run = (p, rw (able, front_from) refl, h, able)
  where
    able : runnable k p ≡ true
    able = ap (runnable k) (omega arith) ∙ run
front_from-lem k (suc f) p (suc i) h lt run = elim (Bool-cases (runnable k p)) [
  | inl able ↦ (p, rw (able, front_from) refl, h, able)
  | inr unable ↦
      let (r, e, near, able) =
        front_from-lem k f (next_front p) i (next_front-lt p h) (omega arith)
          (ap (runnable k) (next_front-mod p i h) ∙ run) in
      (r, rw (unable, front_from) e, near, able)
]

pub front_schedule-lem :
    (k : Kernel) (q : ℕ)
    → q < nr_front
    → runnable k q ≡ true
    → (r : ℕ) × (front_schedule k ≡ ok (record k { ready = r }))
      × (r < nr_front)
      × (runnable k r ≡ true)
unfolding front_schedule
front_schedule-lem k q lt run =
    let (r, e, near, able) =
      front_from-lem k nr_front start ((q + nr_front - start) % nr_front) (omega arith)
        (omega arith) (ap (runnable k) (omega arith) ∙ run) in
    (r, rw e refl, near, able)
  where
    start : ℕ
    start = k.ticks % (2 * nr_front) % nr_front
