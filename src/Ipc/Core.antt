-- ===== src/Ipc/Core.antt =====
-- The fields of an entry of the table that its status is about.
use mathlib.Core.Path.{subst}
use kusa_os.Base.{ℕ, ◌≡◌, ◌≢◌, sym, Bool}
use kusa_os.Kernel.{Proc, Flags, Peer, from, no_task, no_flags}
use kusa_os.Ipc.Abstract.{Status, idle, unused, sending, receiving}
use kusa_os.Ipc.Invariant.{Fits, IsAddress, sending_flags, receiving_flags, unused_flags}

-- The fields of an entry that its status is about.
abbrev pub Core : Type 0
Core = ℕ × Flags × ℕ × Peer × Peer × Bool

abbrev pub core : Proc → Core
core p = (p.base, p.flags, p.p_msg, p.recvfrom, p.sendto, p.has_int_msg)

abbrev FitsCore : Status → Core → Type 0
FitsCore idle c = (c.1 ≡ no_flags) × (c.2 ≡ 0) × (c.3 ≡ no_task) × (c.4 ≡ no_task)
FitsCore (sending d) c = (c.1 ≡ sending_flags) × IsAddress c.2 × (c.3 ≡ no_task) × (c.4 ≡ from d)
FitsCore (receiving e) c =
    (c.1 ≡ receiving_flags) × IsAddress c.2 × (c.3 ≡ e) × (e ≢ no_task) × (c.4 ≡ no_task)
FitsCore unused c = c.1 ≡ unused_flags

to_core : (st : Status) (p : Proc) → Fits st p → FitsCore st (core p)
to_core idle p f = f
to_core (sending d) p f = f
to_core (receiving e) p f = f
to_core unused p f = f

of_core : (st : Status) (p : Proc) → FitsCore st (core p) → Fits st p
of_core idle p f = f
of_core (sending d) p f = f
of_core (receiving e) p f = f
of_core unused p f = f

pub Fits-core : (st : Status) (p q : Proc) → core q ≡ core p → Fits st p → Fits st q
Fits-core st p q e f = of_core st q (subst (FitsCore st) (sym e) (to_core st p f))
