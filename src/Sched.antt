-- ===== src/Sched.antt =====
-- rr_schedule(), priority_schedule() and schedule() of kernel/proc.c. A loop that passes every
-- entry of its range in vain goes on for ever: the table does not change in ring 0.
pub mod Laws
pub mod Front
pub mod Priority
use kusa_os.Base.{
  ℕ, zero, suc, ◌+◌, ◌-◌, Bool, true, false, Result, ok, err, Fault, ◌>>=◌, ◌==◌, ◌%◌, ◌*◌, ◌&&◌,
  leb, not, Option, none, some, if◌then◌else◌,
}
use kusa_os.Kernel.{Kernel, is_clear, only_free, nr_entries, nr_tasks, nr_native_procs, nr_consoles}
use kusa_os.Kernel.Signed.{ℤ, pos, leb_ℤ, eqb_ℤ}

unfoldable pub runnable : Kernel → ℕ → Bool
runnable k p = is_clear (k.procs p).flags

-- The entry after `p`, round the table.
abbrev pub next_entry : ℕ → ℕ
next_entry p = if p == nr_entries - 1 then 0 else p + 1

unfoldable pub rr_from : Kernel → ℕ → ℕ → Result ℕ
rr_from k zero p = err Fault.spins
rr_from k (suc f) p = elim (runnable k p) [ true ↦ ok p | false ↦ rr_from k f (next_entry p) ]

unfoldable pub rr_schedule : Kernel → Result Kernel
unfolding rr_from
rr_schedule k = rr_from k nr_entries (next_entry k.ready) >>= λ p. ok (record k { ready = p })

-- The local `nr_tasks` of priority_schedule(): tasks, native processes and the shells.
abbrev pub nr_front : ℕ
nr_front = nr_tasks + nr_native_procs + nr_consoles

-- The best entry so far, with its priority.
pub record Choice : Type 0 where
  pub max_priority : ℤ
  pub p_wanna_run : Option ℕ

abbrev pub better : Kernel → Choice → ℕ → Bool
better k c p = leb_ℤ c.max_priority (k.procs p).priority && not (only_free (k.procs p).flags)

abbrev pub consider : Kernel → Choice → ℕ → Choice
consider k c p =
    if better k c p then record { max_priority = (k.procs p).priority; p_wanna_run = some p } else c

-- The loop over `f` entries from `p` on.
unfoldable pub choose_from : Kernel → ℕ → ℕ → Choice → Choice
choose_from k zero p c = c
choose_from k (suc f) p c = choose_from k f (p + 1) (consider k c p)

-- 1 is MIN_PRIORITY.
unfoldable pub choose : Kernel → Choice
unfolding choose_from
choose k =
    choose_from k (nr_entries - nr_front) nr_front
      (record { max_priority = pos 1; p_wanna_run = none })

abbrev pub next_front : ℕ → ℕ
next_front p = if p + 1 == nr_front then 0 else p + 1

unfoldable pub front_from : Kernel → ℕ → ℕ → Result ℕ
front_from k zero p = err Fault.spins
front_from k (suc f) p = elim (runnable k p) [ true ↦ ok p | false ↦ front_from k f (next_front p) ]

-- The round of the first entries, begun at `ticks`.
unfoldable pub front_schedule : Kernel → Result Kernel
unfolding front_from
front_schedule k =
    front_from k nr_front (k.ticks % (2 * nr_front) % nr_front) >>= λ p. ok (record k { ready = p })

unfoldable pub run_choice : Kernel → Option ℕ → Result Kernel
run_choice k none = front_schedule k
run_choice k (some p) = if runnable k p then ok (record k { ready = p }) else front_schedule k

unfoldable pub priority_schedule : Kernel → Result Kernel
priority_schedule k =
    if leb nr_front (k.ticks % (2 * nr_front))
    then run_choice k (choose k).p_wanna_run
    else front_schedule k

-- 2 is SCHED_PRI.
unfoldable pub schedule : Kernel → Result Kernel
schedule k = if eqb_ℤ k.policy (pos 2) then priority_schedule k else rr_schedule k
