-- ===== src/Boot/Laws.antt =====
-- The table that kernel_main() leaves, and the net of idle processes.
use kusa_os.Base.{
  ℕ, ◌+◌, ◌≡◌, refl, ap, inl, inr, Bool-cases, arith, true, false, [], ltb, if◌then◌else◌,
}
use kusa_os.Kernel.{Proc, nr_tasks, nr_native_procs}
use kusa_os.Boot.{kernel_main, boot_entry}
use kusa_os.Ipc.Abstract.{Status, idle, unused, sending, Net}
use kusa_os.Ipc.Graph.{stop, is_quiet}
use kusa_os.Ipc.Invariant.{Holds, Fits}

abbrev pub boot_status : ℕ → Status
boot_status p = if ltb p (nr_tasks + nr_native_procs) then idle else unused

abbrev pub boot_net : Net
boot_net = record { status = boot_status; queue = λ _. []; pending = λ _. false }

boot_quiet : (p : ℕ) → is_quiet (boot_status p) ≡ true
boot_quiet p = ground arith

boot_Fits : (p : ℕ) → Fits (boot_status p) (boot_entry p)
unfolding boot_entry
boot_Fits p = elim (Bool-cases (ltb p 9)) [
  | inl native ↦ rw native (refl, refl, refl, refl)
  | inr free ↦ rw free refl
]

boot_not_sending : (p d : ℕ) → boot_status p ≡ sending d → ⊥
boot_not_sending p d e = cc (boot_quiet p, ap is_quiet e)

-- After kernel_main() the process table holds the net in which the tasks and native processes are
-- idle, all other entries are free, no queue has a member and no interrupt is kept.
pub kernel_main-Holds : (before : Proc) (mem : ℕ → ℕ) → Holds (kernel_main before mem) boot_net
unfolding kernel_main
kernel_main-Holds before mem = record {
  current = omega arith;
  flat = λ p lt. ground arith;
  fits = λ p lt. boot_Fits p;
  kept = λ p lt. ground arith;
  chain = λ d lt. ground arith;
  queued = λ d p lt i. absurd i;
  waiting = λ d p lt e. absurd (boot_not_sending p d e);
  distinct = λ d lt. tt;
  ends = λ p lt. stop (boot_quiet p);
  bounded = λ p d e. absurd (boot_not_sending p d e);
}
