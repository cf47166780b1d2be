-- ===== src/Ipc/Invariant.antt =====
-- When the process table holds an abstract net: each entry has the flags and fields of its
-- status, each queue's links spell its list, and every chain of senders ends.
use kusa_os.Base.{ℕ, ◌+◌, ◌%◌, ◌<◌, ◌≡◌, ◌≢◌, arith, true, Option, ok}
use kusa_os.Kernel.{
  Kernel, Proc, Flags, from, no_task, no_flags, nr_entries, nr_tasks, nr_native_procs, u32_mod,
}
use kusa_os.Kernel.Memory.{va2la}
use kusa_os.Ipc.Abstract.{Status, idle, unused, sending, receiving, Net, In, IsDistinct}
use kusa_os.Ipc.Graph.{Ends}
use kusa_os.Ipc.Queue.{Chain}

abbrev pub sending_flags : Flags
sending_flags = record no_flags { sending = true }

abbrev pub receiving_flags : Flags
receiving_flags = record no_flags { receiving = true }

abbrev pub unused_flags : Flags
unused_flags = record no_flags { free_slot = true }

abbrev pub IsAddress : ℕ → Type 0
IsAddress m = (0 < m) × (m < u32_mod)

-- The fields of an entry with the given status.
abbrev pub Fits : Status → Proc → Type 0
Fits idle p = (p.flags ≡ no_flags) × (p.p_msg ≡ 0) × (p.recvfrom ≡ no_task) × (p.sendto ≡ no_task)
Fits (sending d) p =
    (p.flags ≡ sending_flags) × IsAddress p.p_msg × (p.recvfrom ≡ no_task) × (p.sendto ≡ from d)
Fits (receiving e) p =
    (p.flags ≡ receiving_flags)
    × IsAddress p.p_msg
    × (p.recvfrom ≡ e)
    × (e ≢ no_task)
    × (p.sendto ≡ no_task)
Fits unused p = p.flags ≡ unused_flags

abbrev pub links : Kernel → ℕ → Option ℕ
links k p = (k.procs p).next_sending

pub record Holds (k : Kernel) (a : Net) : Type 0 where
  pub current : k.ready < nr_entries
  pub flat : (p : ℕ) → p < nr_tasks + nr_native_procs → (k.procs p).base ≡ 0
  pub fits : (p : ℕ) → p < nr_entries → Fits (a.status p) (k.procs p)
  pub kept : (p : ℕ) → p < nr_entries → (k.procs p).has_int_msg ≡ a.pending p
  pub chain : (d : ℕ) → d < nr_entries → Chain (links k) (k.procs d).q_sending (a.queue d)
  pub queued :
      (d p : ℕ) → d < nr_entries → In p (a.queue d) → (p < nr_entries) × (a.status p ≡ sending d)
  pub waiting :
      (d p : ℕ) → p < nr_entries → a.status p ≡ sending d → (d < nr_entries) × In p (a.queue d)
  pub distinct : (d : ℕ) → d < nr_entries → IsDistinct (a.queue d)
  pub ends : (p : ℕ) → p < nr_entries → Ends a.status p
  pub bounded : (p d : ℕ) → a.status p ≡ sending d → d < nr_entries

-- The address that va2la() gives.
abbrev pub linear : Kernel → ℕ → ℕ → ℕ
linear k p va = ((k.procs p).base + va) % u32_mod

pub va2la_flat :
    (k : Kernel) (p va : ℕ)
    → (p < nr_tasks + nr_native_procs → (k.procs p).base ≡ 0)
    → va < u32_mod
    → va2la k p va ≡ ok (linear k p va)
unfolding va2la
va2la_flat k p va flat lt = ground arith

pub va2la_lem :
    {k : Kernel} {a : Net} (p va : ℕ) → Holds k a → va < u32_mod → va2la k p va ≡ ok (linear k p va)
va2la_lem {k} p va h lt = va2la_flat k p va (h.flat p) lt
