-- ===== src/Ipc/Fields.antt =====
-- What the tests and asserts of the code find in an entry with a given status.
use mathlib.Core.Path.{subst}
use kusa_os.Base.{ℕ, ◌<◌, ◌≡◌, refl, ap, arith, true, not, ◌||◌, ◌&&◌, ==_iff}
use kusa_os.Kernel.{
  Kernel, Proc, Peer, nr_entries, is_clear, only_sending, only_receiving, is_no_task, peer_is,
  is_any, is_interrupt, from, any, interrupt, no_task,
}
use kusa_os.Sched.{runnable}
use kusa_os.Ipc.Abstract.{
  Status, idle, unused, sending, receiving, Net, accepts, is_sending_to, awaits_interrupt,
}
use kusa_os.Ipc.Defs.{not_null, is_idle}
use kusa_os.Ipc.Receive.{waits_for}
use kusa_os.Ipc.Invariant.{Holds, Fits}

pub not_null-lem : (m : ℕ) → 0 < m → not_null m ≡ true
not_null-lem m lt = ground arith

pub Fits-is_idle : (p : Proc) → Fits idle p → is_idle p ≡ true
Fits-is_idle p f = rw (f.0, f.1, f.2, f.3)

peer_is_self : (p : ℕ) → peer_is (from p) p ≡ true
peer_is_self p = (==_iff p p).1 refl

pub Fits-waits_for : (p : Proc) (me : ℕ) → Fits (sending me) p → waits_for p me ≡ true
Fits-waits_for p me f = rw (f.0, not_null-lem p.p_msg f.1.0, f.2, f.3, peer_is_self me)

-- The code's test of a sender is the abstract one.
pub Fits-sends :
    (st : Status) (p : Proc) (me : ℕ)
    → Fits st p
    → (p.flags.sending && peer_is p.sendto me) ≡ is_sending_to st me
Fits-sends idle p me f = rw f.0
Fits-sends unused p me f = rw f
Fits-sends (receiving e) p me f = rw f.0
Fits-sends (sending d) p me f = rw (f.0, f.3)

-- So is that of a receiver,
pub Fits-willing :
    (st : Status) (p : Proc) (s : ℕ)
    → Fits st p
    → (p.flags.receiving && (peer_is p.recvfrom s || is_any p.recvfrom)) ≡ accepts st s
Fits-willing idle p s f = rw f.0
Fits-willing unused p s f = rw f
Fits-willing (sending d) p s f = rw f.0
Fits-willing (receiving e) p s f = rw (f.0, f.2)

-- and of one that an interrupt wakes.
pub Fits-awaits :
    (st : Status) (p : Proc)
    → Fits st p
    → (p.flags.receiving && (is_interrupt p.recvfrom || is_any p.recvfrom)) ≡ awaits_interrupt st
Fits-awaits idle p f = rw f.0
Fits-awaits unused p f = rw f
Fits-awaits (sending d) p f = rw f.0
Fits-awaits (receiving e) p f = rw (f.0, f.2)

pub runnable_of_idle :
    {k : Kernel} {a : Net} (q : ℕ)
    → Holds k a
    → q < nr_entries
    → a.status q ≡ idle
    → runnable k q ≡ true
unfolding runnable
runnable_of_idle {k} {a} q h lt e = ap is_clear (subst (λ t. Fits t (k.procs q)) e (h.fits q lt)).0

-- What the asserts behind block() ask of a sender.
pub record IsWaiting (p : Proc) (d : ℕ) : Type 0 where
  pub flags : only_sending p.flags ≡ true
  pub busy : not (is_clear p.flags) ≡ true
  pub body : not_null p.p_msg ≡ true
  pub no_source : is_no_task p.recvfrom ≡ true
  pub target : peer_is p.sendto d ≡ true

pub Fits-IsWaiting : (p : Proc) (d : ℕ) → Fits (sending d) p → IsWaiting p d
Fits-IsWaiting p d f = record {
  flags = rw f.0;
  busy = rw f.0;
  body = not_null-lem p.p_msg f.1.0;
  no_source = rw f.2;
  target = rw f.3 (peer_is_self d);
}

-- And of a receiver.
pub record IsListening (p : Proc) : Type 0 where
  pub flags : only_receiving p.flags ≡ true
  pub busy : not (is_clear p.flags) ≡ true
  pub body : not_null p.p_msg ≡ true
  pub source : not (is_no_task p.recvfrom) ≡ true
  pub target : is_no_task p.sendto ≡ true

source_lem : (e : Peer) → ¬ (e ≡ no_task) → not (is_no_task e) ≡ true
source_lem any ne = refl
source_lem interrupt ne = refl
source_lem (from p) ne = refl
source_lem no_task ne = absurd (ne refl)

pub Fits-IsListening : (p : Proc) (e : Peer) → Fits (receiving e) p → IsListening p
Fits-IsListening p e f = record {
  flags = rw f.0;
  busy = rw f.0;
  body = not_null-lem p.p_msg f.1.0;
  source = rw f.2 (source_lem e f.3);
  target = rw f.4;
}
