-- ===== src/Mm/Life/Exit/Hanging.antt =====
-- do_exit() and do_wait() of mm/forkexit.c, and the flag HANGING.
use mathlib.Core.Path.{subst}
use native.Mathlib.Decide.{ℕ_discrete}
use kusa_os.Base.{
  ℕ, zero, suc, ◌+◌, ◌≡◌, refl, sym, ap, ◌∙◌, inl, inr, Bool, true, false, ◌&&◌, ok, Bool-cases,
  update_eq, update_ne, if◌then◌else◌, none,
}
use kusa_os.Kernel.{Proc, from, nr_entries, init_pid, peer_is}
use kusa_os.Kernel.Signed.{ℤ}
use kusa_os.Mm.Life.{
  Mm, put, entry, adopt, adopt_child, adopt_from, leave, exit_with, do_exit, cleanup, not_waiting,
  free_flags, send, exit_notice, find_hanging,
}
use kusa_os.Mm.Life.Exit.{exited, exit_with-ok}

-- What every entry of the table is, if writing an entry keeps it.
abbrev All : (Proc → Type 0) → Mm → Type 0
All P m = (x : ℕ) → P (entry m x)

put-All : (P : Proc → Type 0) (m : Mm) (i : ℕ) (p : Proc) → All P m → P p → All P (put m i p)
put-All P m i p h q x = elim (ℕ_discrete i x) [
  | yes e ↦ subst P (sym (update_eq m.kernel.procs i x p e)) q
  | no ne ↦ subst P (sym (update_ne m.kernel.procs i x p ne)) (h x)
]

abbrev IsNotHanging : Proc → Type 0
IsNotHanging p = p.flags.hanging ≡ false

adopt_child-All : (m : Mm) (i : ℕ) → All IsNotHanging m → All IsNotHanging (adopt_child m i)
unfolding adopt_child
adopt_child-All m i h =
    elim (Bool-cases ((entry m1 init_pid).flags.waiting && (entry m1 i).flags.hanging)) [
      | inl t ↦
          rw (t, adopt_child)
            (put-All IsNotHanging (put m1 init_pid (not_waiting (entry m1 init_pid))) i
              (record (entry (put m1 init_pid (not_waiting (entry m1 init_pid))) i) {
                flags = free_flags;
              })
              (put-All IsNotHanging m1 init_pid (not_waiting (entry m1 init_pid)) first
                (first init_pid))
              refl)
      | inr t ↦ rw (t, adopt_child) first
    ]
  where
    m1 : Mm
    m1 = put m i (record (entry m i) { parent = from init_pid })

    first : All IsNotHanging m1
    first = put-All IsNotHanging m i (record (entry m i) { parent = from init_pid }) h (h i)

adopt_from-All :
    (f : ℕ) (m : Mm) (pid i : ℕ) → All IsNotHanging m → All IsNotHanging (adopt_from f m pid i)
unfolding adopt_from
adopt_from-All zero m pid i h = h
adopt_from-All (suc f) m pid i h =
    adopt_from-All f (adopt m pid i) pid (i + 1) (one (peer_is (entry m i).parent pid))
  where
    one : (b : Bool) → All IsNotHanging (if b then adopt_child m i else m)
    one true = adopt_child-All m i h
    one false = h

leave-All : (m : Mm) (pid pp : ℕ) → All IsNotHanging m → All IsNotHanging (leave m pid pp)
unfolding leave
leave-All m pid pp h = one (entry m pp).flags.waiting
  where
    one :
        (b : Bool)
        → All IsNotHanging (
            if b
            then cleanup (put m pp (not_waiting (entry m pp))) pid
            else put m pid (record (entry m pid) { flags = free_flags }))
    one true =
        put-All IsNotHanging (put m pp (not_waiting (entry m pp))) pid
          (record (entry (put m pp (not_waiting (entry m pp))) pid) { flags = free_flags })
          (put-All IsNotHanging m pp (not_waiting (entry m pp)) h (h pp)) refl
    one false = put-All IsNotHanging m pid (record (entry m pid) { flags = free_flags }) h refl

and_false : (b : Bool) → (b && false) ≡ false
and_false true = refl
and_false false = refl

find_hanging-none :
    (f : ℕ) (m : Mm) (pid i n : ℕ) → All IsNotHanging m → (find_hanging f m pid i n).0 ≡ none
unfolding find_hanging
find_hanging-none zero m pid i n h = refl
find_hanging-none (suc f) m pid i n h =
    rw (no_child, find_hanging)
      (find_hanging-none f m pid (i + 1) (if peer_is (entry m i).parent pid then n + 1 else n) h)
  where
    no_child : (peer_is (entry m i).parent pid && (entry m i).flags.hanging) ≡ false
    no_child = rw (h i) (and_false (peer_is (entry m i).parent pid))

-- In a table with no hanging process, do_exit() of a process with a parent leaves none, and
-- do_wait() finds no child that has exited, whichever process calls it.
pub do_exit-forgets :
    (m : Mm) (pid pp : ℕ) (status : ℤ)
    → ((x : ℕ) → (entry m x).flags.hanging ≡ false)
    → (entry m pid).parent ≡ from pp
    → (m' : Mm) × (do_exit m pid status ≡ ok m')
      × ((x : ℕ) → (entry m' x).flags.hanging ≡ false)
      × ((q : ℕ) → (find_hanging nr_entries m' q 0 0).0 ≡ none)
unfolding do_exit
do_exit-forgets m pid pp status h has = (
  exited m pid status pp,
  ap (exit_with m pid status) has ∙ exit_with-ok m pid status pp,
  after,
  λ q. find_hanging-none nr_entries (exited m pid status pp) q 0 0 after,
)
  where
    m1 : Mm
    m1 = send m (exit_notice pid)

    m2 : Mm
    m2 = put m1 pid (record (entry m pid) { exit_status = status })

    after : All IsNotHanging (exited m pid status pp)
    after = adopt_from-All nr_entries (leave m2 pid pp) pid 0 (
        leave-All m2 pid pp
          (put-All IsNotHanging m1 pid (record (entry m pid) { exit_status = status }) h (h pid)))
