-- ===== src/Clock/Quantum.antt =====
-- How long a process keeps the processor under the default policy.
use kusa_os.Base.{
  ℕ, zero, suc, ◌≡◌, refl, ap, ◌∙◌, arith, true, false, ok, Result, ◌>>=◌, update_self,
  if◌then◌else◌,
}
use kusa_os.Kernel.{Kernel, Proc}
use kusa_os.Kernel.Signed.{ℤ, pos, ltb_ℤ}
use kusa_os.Clock.{clock_handler, wake_tty, take_tick, end_of_quantum, tick, count_down}
use kusa_os.Ipc.Change.{update-field}
use kusa_os.Sched.{schedule}

-- `n` clock interrupts, one after the other
unfoldable pub interrupts : ℕ → Kernel → Result Kernel
interrupts zero k = ok k
interrupts (suc n) k = clock_handler k >>= interrupts n

-- A process runs outside the kernel, under the default policy, and no key has been pressed.
pub record IsQuiet (k : Kernel) : Type 0 where
  pub default : k.policy ≡ pos 1
  pub user : k.k_reenter ≡ pos 0
  pub no_key : k.key_pressed ≡ false

-- What one interrupt leaves when the quantum is not over.
abbrev pub ticked : Kernel → Kernel
ticked k = take_tick (record k { ticks = tick k.ticks })

ticked-left :
    (k : Kernel) (z : ℤ)
    → (k.procs k.ready).ticks ≡ z
    → ((ticked k).procs k.ready).ticks ≡ count_down z
ticked-left k z left =
    ap (λ (p : Proc). p.ticks)
      (update_self k.procs k.ready
        (record (k.procs k.ready) { ticks = count_down (k.procs k.ready).ticks }))
    ∙ ap count_down left

-- The handler under the default policy, by what is left of the quantum after this interrupt.
clock_handler-quiet :
    (k : Kernel) (n : ℕ)
    → IsQuiet k
    → (k.procs k.ready).ticks ≡ pos (suc n)
    → clock_handler k ≡ (if ltb_ℤ (pos 0) (pos n) then ok (ticked k) else schedule (ticked k))
unfolding clock_handler wake_tty end_of_quantum
clock_handler-quiet k n quiet left =
    rw (quiet.default, quiet.no_key, quiet.user, ticked-left k (pos (suc n)) left) refl

ticked-IsQuiet : (k : Kernel) → IsQuiet k → IsQuiet (ticked k)
ticked-IsQuiet k quiet = record {
  default = quiet.default;
  user = quiet.user;
  no_key = quiet.no_key;
}

ticked-flags : (k : Kernel) (p : ℕ) → ((ticked k).procs p).flags ≡ (k.procs p).flags
ticked-flags k p =
    update-field (λ q. q.flags) k.procs k.ready p
      (record (k.procs k.ready) { ticks = count_down (k.procs k.ready).ticks }) refl

-- Under the default policy, with no key pressed and no interrupt nested, a process with n + 1
-- ticks left keeps the processor for n clock interrupts, in which no process is blocked or woken,
-- and the one after them calls schedule().
pub interrupts-quantum :
    (n : ℕ) (k : Kernel)
    → IsQuiet k
    → (k.procs k.ready).ticks ≡ pos (suc n)
    → (k' : Kernel) × (interrupts n k ≡ ok k')
      × (k'.ready ≡ k.ready)
      × ((p : ℕ) → (k'.procs p).flags ≡ (k.procs p).flags)
      × (clock_handler k' ≡ schedule (ticked k'))
unfolding interrupts
interrupts-quantum zero k quiet left =
    (k, refl, refl, λ p. refl, clock_handler-quiet k 0 quiet left)
interrupts-quantum (suc n) k quiet left =
    let (k', e, same, flags, over) =
      interrupts-quantum n (ticked k) (ticked-IsQuiet k quiet)
        (ticked-left k (pos (suc (suc n))) left) in
    (
      k',
      rw (clock_handler-quiet k (suc n) quiet left, is_left) e,
      same,
      λ p. flags p ∙ ticked-flags k p,
      over,
    )
  where
    is_left : ltb_ℤ (pos 0) (pos (suc n)) ≡ true
    is_left = ground arith
