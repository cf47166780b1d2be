-- ===== src/Tests/Sched.antt =====
-- Scheduling on the table that kernel_main() leaves.
use kusa_os.Base.{ℕ, ◌≡◌, ◌≢◌, ◌≤◌, ◌<◌, refl, arith, ok, true, update}
use kusa_os.Kernel.{Kernel, nr_entries, only_free, no_flags}
use kusa_os.Kernel.Signed.{pos}
use kusa_os.Boot.{kernel_main, boot_entry}
use kusa_os.Sched.{runnable, next_entry, rr_schedule, schedule, priority_schedule, nr_front}
use kusa_os.Sched.Laws.{Found, rr_schedule-Found}
use kusa_os.Sched.Priority.{
  IsHighest, schedule-runnable, priority_schedule-highest, priority_schedule-starves,
}
use kusa_os.Clock.{clock_handler}
use kusa_os.Clock.Quantum.{interrupts, ticked, interrupts-quantum}

abbrev booted : Kernel
booted = kernel_main (boot_entry 0) (λ _. 0)

init_able : runnable booted 5 ≡ true
unfolding kernel_main boot_entry runnable
init_able = refl

rr_schedule-Found_example :
    (r : ℕ) × (rr_schedule booted ≡ ok (record booted { ready = r }))
    × Found booted (next_entry booted.ready) nr_entries r
unfolding kernel_main
rr_schedule-Found_example = rr_schedule-Found booted 5 (omega arith) (omega arith) init_able

-- The priority policy, in the second half of its turns, with one forked process.
abbrev forked : Kernel
forked = record booted {
  procs = update booted.procs 12 (record (boot_entry 5) { priority = pos 5 });
  ticks = 12;
  policy = pos 2;
}

forked_able : runnable forked 12 ≡ true
unfolding kernel_main boot_entry runnable
forked_able = refl

init_able_forked : runnable forked 5 ≡ true
unfolding kernel_main boot_entry runnable
init_able_forked = refl

other_free : (q : ℕ) → 12 ≢ q → 12 ≤ q → q < 37 → only_free (forked.procs q).flags ≡ true
unfolding kernel_main boot_entry
other_free q ne le lt = ground arith

forked-IsHighest : IsHighest forked 12
unfolding kernel_main boot_entry
forked-IsHighest = record {
  behind = omega arith;
  inside = omega arith;
  used = refl;
  valid = omega arith;
  less = λ q ne le lt used. absurd (cc (other_free q ne le lt, used));
}

schedule-runnable_example :
    (r : ℕ) × (schedule forked ≡ ok (record forked { ready = r }))
    × (r < nr_entries)
    × (runnable forked r ≡ true)
unfolding kernel_main
schedule-runnable_example = schedule-runnable forked 5 (omega arith) (omega arith) init_able_forked

priority_schedule-highest_example : priority_schedule forked ≡ ok (record forked { ready = 12 })
priority_schedule-highest_example =
    priority_schedule-highest forked 12 forked-IsHighest (omega arith) forked_able

-- The same with the forked process waiting for a message.
abbrev waiting : Kernel
waiting = record booted {
  procs =
      update booted.procs 12
        (record (boot_entry 5) { priority = pos 5; flags = record no_flags { receiving = true } });
  ticks = 12;
  policy = pos 2;
}

others_free : (q : ℕ) → 12 ≢ q → 12 ≤ q → q < 37 → only_free (waiting.procs q).flags ≡ true
unfolding kernel_main boot_entry
others_free q ne le lt = ground arith

waiting-IsHighest : IsHighest waiting 12
unfolding kernel_main boot_entry
waiting-IsHighest = record {
  behind = omega arith;
  inside = omega arith;
  used = refl;
  valid = omega arith;
  less = λ q ne le lt used. absurd (cc (others_free q ne le lt, used));
}

priority_schedule-starves_example :
    (r : ℕ) × (priority_schedule waiting ≡ ok (record waiting { ready = r }))
    × (r < nr_front)
    × (runnable waiting r ≡ true)
unfolding kernel_main boot_entry runnable
priority_schedule-starves_example =
    priority_schedule-starves waiting 12 5 waiting-IsHighest refl (omega arith) refl

interrupts-quantum_example :
    (k' : Kernel) × (interrupts 14 booted ≡ ok k')
    × (k'.ready ≡ booted.ready)
    × ((p : ℕ) → (k'.procs p).flags ≡ (booted.procs p).flags)
    × (clock_handler k' ≡ schedule (ticked k'))
unfolding kernel_main boot_entry
interrupts-quantum_example =
    interrupts-quantum 14 booted (record { default = refl; user = refl; no_key = refl }) refl
