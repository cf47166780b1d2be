-- ===== src/Mm/Life/Exit.antt =====
-- do_exit() of mm/forkexit.c and the parents of processes.
pub mod Hanging
use mathlib.Core.Path.{subst}
use native.Mathlib.Decide.{ℕ_discrete, dec_lt}
use kusa_os.Base.{
  ℕ, zero, suc, ◌+◌, ◌≤◌, ◌<◌, ◌≡◌, ◌≢◌, refl, sym, ap, ◌∙◌, inl, inr, arith, Bool, true, false,
  ◌&&◌, ok, ==_iff, ne→==, Bool-cases, ◌==◌, update, update_eq, update_ne, if◌then◌else◌, Result,
  none, Option,
}
use kusa_os.Kernel.{Proc, Peer, from, nr_entries, init_pid, peer_is}
use kusa_os.Kernel.Signed.{ℤ}
use kusa_os.Ipc.Change.{update-field}
use kusa_os.Mm.Life.{
  Mm, put, entry, adopt, adopt_child, adopt_from, leave, exit_with, do_exit, cleanup, not_waiting,
  free_flags, send, Sent, exit_notice, find_hanging,
}

put-parent :
    (m : Mm) (i : ℕ) (p : Proc) (x : ℕ)
    → p.parent ≡ (entry m i).parent
    → (entry (put m i p) x).parent ≡ (entry m x).parent
put-parent m i p x e = update-field (λ q. q.parent) m.kernel.procs i x p e

cleanup-parent : (m : Mm) (i x : ℕ) → (entry (cleanup m i) x).parent ≡ (entry m x).parent
cleanup-parent m i x = put-parent m i (record (entry m i) { flags = free_flags }) x refl

-- The parent of a process after `pid` has exited.
abbrev pub adopted : ℕ → Peer → Peer
adopted pid e = if peer_is e pid then from init_pid else e

adopt_child-parent :
    (m : Mm) (i x : ℕ)
    → (entry (adopt_child m i) x).parent ≡ update (λ y. (entry m y).parent) i (from init_pid) x
unfolding adopt_child
adopt_child-parent m i x =
    elim (Bool-cases ((entry m1 init_pid).flags.waiting && (entry m1 i).flags.hanging)) [
      | inl t ↦
          rw (t, adopt_child)
            (cleanup-parent (put m1 init_pid (not_waiting (entry m1 init_pid))) i x
              ∙ put-parent m1 init_pid (not_waiting (entry m1 init_pid)) x refl
              ∙ first)
      | inr t ↦ rw (t, adopt_child) first
    ]
  where
    m1 : Mm
    m1 = put m i (record (entry m i) { parent = from init_pid })

    first : (entry m1 x).parent ≡ update (λ y. (entry m y).parent) i (from init_pid) x
    first = elim (ℕ_discrete i x) [
      | yes q ↦
          ap (λ (p : Proc). p.parent)
            (update_eq m.kernel.procs i x (record (entry m i) { parent = from init_pid }) q)
          ∙ sym (update_eq (λ y. (entry m y).parent) i x (from init_pid) q)
      | no ne ↦
          ap (λ (p : Proc). p.parent)
            (update_ne m.kernel.procs i x (record (entry m i) { parent = from init_pid }) ne)
          ∙ sym (update_ne (λ y. (entry m y).parent) i x (from init_pid) ne)
    ]

adopt-parent :
    (m : Mm) (pid i x : ℕ)
    → (entry (adopt m pid i) x).parent
      ≡ (if i == x then adopted pid (entry m x).parent else (entry m x).parent)
adopt-parent m pid i x = elim (Bool-cases (peer_is (entry m i).parent pid)) [
  | inl child ↦ elim (ℕ_discrete i x) [
    | yes q ↦
        rw (child, (==_iff i x).1 q, ap (λ y. peer_is (entry m y).parent pid) (sym q) ∙ child)
          (adopt_child-parent m i x ∙ update_eq (λ y. (entry m y).parent) i x (from init_pid) q)
    | no ne ↦
        rw (child, ne→== i x ne)
          (adopt_child-parent m i x ∙ update_ne (λ y. (entry m y).parent) i x (from init_pid) ne)
  ]
  | inr other ↦ elim (ℕ_discrete i x) [
    | yes q ↦
        rw (other, (==_iff i x).1 q, ap (λ y. peer_is (entry m y).parent pid) (sym q) ∙ other) refl
    | no ne ↦ rw (other, ne→== i x ne) refl
  ]
]

adopt-other : (m : Mm) (pid i x : ℕ) → i ≢ x → (entry (adopt m pid i) x).parent ≡ (entry m x).parent
adopt-other m pid i x ne = adopt-parent m pid i x ∙ rw (ne→== i x ne) refl

-- The loop passes each entry of its range once.
adopt_from-parent :
    (f : ℕ) (m : Mm) (pid i x : ℕ)
    → ((i ≤ x)
        → x < i + f
        → (entry (adopt_from f m pid i) x).parent ≡ adopted pid (entry m x).parent)
      × ((x < i) → (entry (adopt_from f m pid i) x).parent ≡ (entry m x).parent)
unfolding adopt_from
adopt_from-parent zero m pid i x = (λ le lt. absurd (omega arith), λ lt. refl)
adopt_from-parent (suc f) m pid i x = (
  λ le lt. elim (ℕ_discrete i x) [
    | yes q ↦
        (adopt_from-parent f (adopt m pid i) pid (i + 1) x).1 (omega arith)
        ∙ adopt-parent m pid i x
        ∙ rw ((==_iff i x).1 q) refl
    | no ne ↦
        (adopt_from-parent f (adopt m pid i) pid (i + 1) x).0 (omega arith) (omega arith)
        ∙ ap (adopted pid) (adopt-other m pid i x ne)
  ],
  λ lt.
      (adopt_from-parent f (adopt m pid i) pid (i + 1) x).1 (omega arith)
      ∙ adopt-parent m pid i x
      ∙ rw (ne→== i x (omega arith)) refl,
)

leave-parent : (m : Mm) (pid pp x : ℕ) → (entry (leave m pid pp) x).parent ≡ (entry m x).parent
unfolding leave
leave-parent m pid pp x = elim (Bool-cases (entry m pp).flags.waiting) [
  | inl t ↦
      rw (t, leave)
        (cleanup-parent (put m pp (not_waiting (entry m pp))) pid x
          ∙ put-parent m pp (not_waiting (entry m pp)) x refl)
  | inr t ↦ rw (t, leave) (put-parent m pid (record (entry m pid) { flags = free_flags }) x refl)
]

-- What exit_with() leaves, where the process has a parent.
abbrev pub exited : Mm → ℕ → ℤ → ℕ → Mm
exited m pid status pp =
    let m1 = send m (exit_notice pid) in
    let m2 = put m1 pid (record (entry m1 pid) { exit_status = status }) in
    adopt_from nr_entries (leave m2 pid pp) pid 0

pub exit_with-ok :
    (m : Mm) (pid : ℕ) (status : ℤ) (pp : ℕ)
    → exit_with m pid status (from pp) ≡ ok (exited m pid status pp)
unfolding exit_with
exit_with-ok m pid status pp = refl

-- When a process with a parent exits, do_exit() returns, and the parent of every process of the
-- table whose parent it was is INIT; every other process keeps its parent.
pub do_exit-orphans :
    (m : Mm) (pid pp : ℕ) (status : ℤ)
    → (entry m pid).parent ≡ from pp
    → (m' : Mm) × (do_exit m pid status ≡ ok m')
      × ((x : ℕ) → x < nr_entries → (entry m' x).parent ≡ adopted pid (entry m x).parent)
unfolding do_exit
do_exit-orphans m pid pp status has = (
  exited m pid status pp,
  ap (exit_with m pid status) has ∙ exit_with-ok m pid status pp,
  λ x lt.
      (adopt_from-parent nr_entries (leave m2 pid pp) pid 0 x).0 (omega arith) (omega arith)
      ∙ ap (adopted pid) (
          leave-parent m2 pid pp x
          ∙ put-parent (send m (exit_notice pid)) pid
              (record (entry m pid) { exit_status = status }) x refl),
)
  where
    m2 : Mm
    m2 = put (send m (exit_notice pid)) pid (record (entry m pid) { exit_status = status })
