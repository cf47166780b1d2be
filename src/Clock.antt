-- ===== src/Clock.antt =====
-- clock_handler() of kernel/clock.c.
pub mod Quantum
use kusa_os.Base.{
  ℕ, zero, suc, ◌+◌, ◌-◌, Bool, true, false, not, Result, ok, ◌>>=◌, leb, update, if◌then◌else◌,
}
use kusa_os.Kernel.{Kernel, task_tty}
use kusa_os.Kernel.Signed.{ℤ, pos, negsuc, ltb_ℤ, eqb_ℤ}
use kusa_os.Ipc.Receive.{inform_int}
use kusa_os.Sched.{schedule}

-- MAX_TICKS
abbrev pub max_ticks : ℕ
max_ticks = 2147462093

abbrev pub tick : ℕ → ℕ
tick t = if leb max_ticks (t + 1) then 0 else t + 1

-- `if (p_proc_ready->ticks) p_proc_ready->ticks--`
abbrev pub count_down : ℤ → ℤ
count_down (pos zero) = pos 0
count_down (pos (suc n)) = pos n
count_down (negsuc n) = negsuc (suc n)

unfoldable pub wake_tty : Kernel → Result Kernel
wake_tty k = if k.key_pressed then inform_int k task_tty else ok k

abbrev pub take_tick : Kernel → Kernel
take_tick k = record k {
  procs =
      update k.procs k.ready
        (record (k.procs k.ready) { ticks = count_down (k.procs k.ready).ticks });
}

-- The end of the handler under the default policy.
unfoldable pub end_of_quantum : Kernel → Result Kernel
end_of_quantum k =
    if not (eqb_ℤ k.k_reenter (pos 0))
    then ok k
    else if ltb_ℤ (pos 0) (k.procs k.ready).ticks
    then ok k
    else schedule k

-- The end of the handler under any other policy.
unfoldable pub reschedule : Kernel → Result Kernel
reschedule k = if not (eqb_ℤ k.k_reenter (pos 0)) then ok k else schedule k

-- 1 is SCHED_DEFAULT.
unfoldable pub clock_handler : Kernel → Result Kernel
unfolding wake_tty end_of_quantum reschedule
clock_handler k = do
  let k1 = record k { ticks = tick k.ticks }
  if not (eqb_ℤ k.policy (pos 1))
      then wake_tty k1 >>= reschedule
      else wake_tty (take_tick k1) >>= end_of_quantum
