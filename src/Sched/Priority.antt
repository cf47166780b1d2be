-- ===== src/Sched/Priority.antt =====
-- priority_schedule() and schedule() of kernel/proc.c: which entry they come to.
use mathlib.Core.Path.{subst}
use native.Mathlib.Decide.{ℕ_discrete}
use kusa_os.Base.{
  Result, ◌≢◌, ℕ, zero, suc, ◌+◌, ◌*◌, ◌%◌, ◌≤◌, ◌<◌, ◌≡◌, refl, sym, ap, ◌∙◌, inl, inr, arith,
  Bool, true, false, ok, Bool-cases, Option, none, some, leb, ◌&&◌, not, if◌then◌else◌,
}
use kusa_os.Kernel.{Kernel, nr_entries, only_free}
use kusa_os.Kernel.Signed.{ℤ, pos, ◌≤ℤ◌, leb_ℤ, eqb_ℤ}
use kusa_os.Sched.{
  runnable, nr_front, Choice, better, consider, choose_from, choose, front_schedule, run_choice,
  priority_schedule, schedule, rr_schedule,
}
use kusa_os.Sched.Front.{front_schedule-lem}
use kusa_os.Sched.Laws.{rr_schedule-Found}

-- `p` is not free, and every other entry behind the first ones that is not free has less
-- priority.
pub record IsHighest (k : Kernel) (p : ℕ) : Type 0 where
  pub behind : nr_front ≤ p
  pub inside : p < nr_entries
  pub used : only_free (k.procs p).flags ≡ false
  pub valid : pos 1 ≤ℤ (k.procs p).priority
  pub less :
      (q : ℕ)
      → p ≢ q
      → nr_front ≤ q
      → q < nr_entries
      → only_free (k.procs q).flags ≡ false
      → ¬ ((k.procs p).priority ≤ℤ (k.procs q).priority)

leb_ℤ-true : (a b : ℤ) → a ≤ℤ b → leb_ℤ a b ≡ true
leb_ℤ-true a b h = ground arith

leb_ℤ-false : (a b : ℤ) → ¬ (a ≤ℤ b) → leb_ℤ a b ≡ false
leb_ℤ-false a b h = ground arith

leb_ℤ-or : (a b : ℤ) → leb_ℤ a b ≡ false → ¬ (a ≤ℤ b)
leb_ℤ-or a b h q = cc (leb_ℤ-true a b q, h)

abbrev the_choice : Kernel → ℕ → Choice
the_choice k p = record { max_priority = (k.procs p).priority; p_wanna_run = some p }

not_better :
    (k : Kernel) (p q : ℕ)
    → IsHighest k p
    → p ≢ q
    → nr_front ≤ q
    → q < nr_entries
    → better k (the_choice k p) q ≡ false
not_better k p q hi ne le lt = elim (Bool-cases (only_free (k.procs q).flags)) [
  | inl free ↦
      rw free
        (ap (λ t. t && false) refl ∙ and_false (leb_ℤ (k.procs p).priority (k.procs q).priority))
  | inr used ↦
      rw (leb_ℤ-false (k.procs p).priority (k.procs q).priority (hi.less q ne le lt used)) refl
]
  where
    and_false : (b : Bool) → (b && false) ≡ false
    and_false true = refl
    and_false false = refl

-- Behind `p` the choice stays.
choose_from-stays :
    (k : Kernel) (p f x : ℕ)
    → IsHighest k p
    → p < x
    → x + f ≤ nr_entries
    → choose_from k f x (the_choice k p) ≡ the_choice k p
unfolding choose_from
choose_from-stays k p zero x hi lt le = refl
choose_from-stays k p (suc f) x hi lt le =
    rw (not_better k p x hi (omega (arith, hi.behind)) (omega (arith, hi.behind)) (omega arith))
      (choose_from-stays k p f (x + 1) hi (omega arith) (omega arith))

and_not : (b f : Bool) → (b && not f) ≡ true → f ≡ false
and_not true false e = refl
and_not true true e = sym e
and_not false f e = cc

≤ℤ-of-not : (a b : ℤ) → ¬ (a ≤ℤ b) → b ≤ℤ a
≤ℤ-of-not a b h = omega (arith, h)

consider-le :
    (k : Kernel) (p x : ℕ) (c : Choice)
    → IsHighest k p
    → p ≢ x
    → nr_front ≤ x
    → x < nr_entries
    → c.max_priority ≤ℤ (k.procs p).priority
    → (consider k c x).max_priority ≤ℤ (k.procs p).priority
consider-le k p x c hi ne le lt h = kept (better k c x) better_used
  where
    better_used : better k c x ≡ true → only_free (k.procs x).flags ≡ false
    better_used e =
        and_not (leb_ℤ c.max_priority (k.procs x).priority) (only_free (k.procs x).flags) e

    kept :
        (b : Bool)
        → (b ≡ true → only_free (k.procs x).flags ≡ false)
        → (if b then the_choice k x else c).max_priority ≤ℤ (k.procs p).priority
    kept true used =
        ≤ℤ-of-not (k.procs p).priority (k.procs x).priority (hi.less x ne le lt (used refl))
    kept false used = h

choose_from-finds :
    (k : Kernel) (p f x : ℕ) (c : Choice)
    → IsHighest k p
    → nr_front ≤ x
    → x ≤ p
    → p < x + f
    → x + f ≤ nr_entries
    → c.max_priority ≤ℤ (k.procs p).priority
    → choose_from k f x c ≡ the_choice k p
unfolding choose_from
choose_from-finds k p zero x c hi low le lt in_table h = absurd (omega arith)
choose_from-finds k p (suc f) x c hi low le lt in_table h = elim (ℕ_discrete p x) [
  | yes eq ↦ rw (found (sym eq)) (choose_from-stays k p f (x + 1) hi (omega arith) (omega arith))
  | no ne ↦
      choose_from-finds k p f (x + 1) (consider k c x) hi (omega arith) (omega arith) (omega arith)
        (omega arith) (consider-le k p x c hi ne low (omega arith) h)
]
  where
    found_here : consider k c p ≡ the_choice k p
    found_here = rw (leb_ℤ-true c.max_priority (k.procs p).priority h, hi.used) refl

    found : x ≡ p → consider k c x ≡ the_choice k p
    found eq = ap (consider k c) eq ∙ found_here

choose-highest : (k : Kernel) (p : ℕ) → IsHighest k p → choose k ≡ the_choice k p
unfolding choose
choose-highest k p hi =
    choose_from-finds k p 25 12 (record { max_priority = pos 1; p_wanna_run = none }) hi
      (omega arith) (omega (arith, hi.behind)) (omega (arith, hi.inside)) (omega arith) hi.valid

-- On the second half of the turns, the forked process whose priority is above that of all other
-- forked processes, and is at least 1, is made the current one, if it is runnable. The forked
-- processes are here the used entries from the twelfth on.
pub priority_schedule-highest :
    (k : Kernel) (p : ℕ)
    → IsHighest k p
    → nr_front ≤ k.ticks % (2 * nr_front)
    → runnable k p ≡ true
    → priority_schedule k ≡ ok (record k { ready = p })
unfolding priority_schedule run_choice
priority_schedule-highest k p hi turn run = rw (is_turn, choose-highest k p hi, run) refl
  where
    is_turn : leb 12 (k.ticks % 24) ≡ true
    is_turn = ground arith

-- While the process whose priority is above that of all other used entries from the twelfth on,
-- and is at least 1, is not runnable, priority_schedule() makes one of the first twelve entries
-- the current one, if one of them is runnable, and so no entry from the twelfth on.
pub priority_schedule-starves :
    (k : Kernel) (p q : ℕ)
    → IsHighest k p
    → runnable k p ≡ false
    → q < nr_front
    → runnable k q ≡ true
    → (r : ℕ) × (priority_schedule k ≡ ok (record k { ready = r }))
      × (r < nr_front)
      × (runnable k r ≡ true)
unfolding priority_schedule run_choice
priority_schedule-starves k p q hi waits lt run =
    let (r, e, near, able) = front_schedule-lem k q lt run in
    (r, either (leb 12 (k.ticks % 24)) ∙ e, near, able)
  where
    either :
        (b : Bool)
        → (if b then run_choice k (choose k).p_wanna_run else front_schedule k) ≡ front_schedule k
    either true = rw (choose-highest k p hi, waits) refl
    either false = refl

abbrev get_or : ℕ → Option ℕ → ℕ
get_or d none = d
get_or d (some n) = n

choose_from-inside :
    (k : Kernel) (f x r : ℕ) (c : Choice)
    → x + f ≤ nr_entries
    → ((w : ℕ) → c.p_wanna_run ≡ some w → w < nr_entries)
    → (choose_from k f x c).p_wanna_run ≡ some r
    → r < nr_entries
unfolding choose_from
choose_from-inside k zero x r c le inside e = inside r e
choose_from-inside k (suc f) x r c le inside e =
    choose_from-inside k f (x + 1) r (consider k c x) (omega arith) next e
  where
    next : (w : ℕ) → (consider k c x).p_wanna_run ≡ some w → w < nr_entries
    next w q = pick (better k c x) w q
      where
        pick :
            (b : Bool) (w : ℕ)
            → (if b then the_choice k x else c).p_wanna_run ≡ some w
            → w < nr_entries
        pick true w q = omega (arith, ap (get_or x) q)
        pick false w q = inside w q

-- schedule() under every policy: when one of the first twelve entries is runnable, it returns,
-- and the entry that it makes the current one is a runnable entry of the table; nothing else
-- changes.
pub schedule-runnable :
    (k : Kernel) (q : ℕ)
    → k.ready < nr_entries
    → q < nr_front
    → runnable k q ≡ true
    → (r : ℕ) × (schedule k ≡ ok (record k { ready = r }))
      × (r < nr_entries)
      × (runnable k r ≡ true)
unfolding schedule priority_schedule run_choice choose
schedule-runnable k q cur lt run = by_policy (eqb_ℤ k.policy (pos 2))
  where
    Picked : Result Kernel → Type 0
    Picked res =
        (r : ℕ) × (res ≡ ok (record k { ready = r })) × (r < nr_entries) × (runnable k r ≡ true)

    front : Picked (front_schedule k)
    front = let (r, e, near, able) = front_schedule-lem k q lt run in (r, e, omega arith, able)

    by_choice : (o : Option ℕ) → (choose k).p_wanna_run ≡ o → Picked (run_choice k o)
    by_choice none e = front
    by_choice (some p) e = elim (Bool-cases (runnable k p)) [
      | inl able ↦ (
        p,
        rw (able, run_choice) refl,
        choose_from-inside k 25 12 p (record { max_priority = pos 1; p_wanna_run = none })
            (omega arith) (λ w q. absurd (cc q)) e,
        able,
      )
      | inr unable ↦ subst Picked (rw (unable, run_choice) refl) front
    ]

    by_turn :
        (b : Bool) → Picked (if b then run_choice k (choose k).p_wanna_run else front_schedule k)
    by_turn true = by_choice (choose k).p_wanna_run refl
    by_turn false = front

    round : Picked (rr_schedule k)
    round =
        let (r, e, found) = rr_schedule-Found k q cur (omega arith) run in
        (r, e, omega (arith, found.place), found.able)

    by_policy : (b : Bool) → Picked (if b then priority_schedule k else rr_schedule k)
    by_policy true = by_turn (leb 12 (k.ticks % 24))
    by_policy false = round
