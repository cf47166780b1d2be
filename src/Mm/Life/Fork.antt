-- ===== src/Mm/Life/Fork.antt =====
-- What do_fork() makes of a free entry.
use native.Mathlib.Decide.{dec_lt}
use kusa_os.Base.{
  ℕ, zero, suc, ◌+◌, ◌≤◌, ◌<◌, ◌≡◌, ◌≢◌, refl, ap, ◌⊎◌, inl, inr, arith, true, false, Bool-cases,
  some, ok, leb, ltb, lt→ltb, ne→==, update_eq, update_ne,
}
use kusa_os.Kernel.{Kernel, nr_entries, only_free}
use kusa_os.Kernel.Signed.{ℤ}
use kusa_os.Kernel.Memory.{phys_copy, phys_copy-inside}
use kusa_os.Mm.Requests.{alloc_mem, get_proc_memory, image_size}
use kusa_os.Mm.Life.{
  Mm, entry, put, send, fork_notice, child_born, find_slot, child_of, fork_into, do_fork,
}

-- The first free entry from `i` on, if `j` is one.
find_slot-lem :
    (f : ℕ) (k : Kernel) (i j : ℕ)
    → i ≤ j
    → j < i + f
    → only_free (k.procs j).flags ≡ true
    → (i ≤ find_slot f k i)
      × (find_slot f k i ≤ j)
      × (only_free (k.procs (find_slot f k i)).flags ≡ true)
unfolding find_slot
find_slot-lem zero k i j le lt free = absurd (omega arith)
find_slot-lem (suc f) k i j le lt free = elim (Bool-cases (only_free (k.procs i).flags)) [
  | inl here ↦ rw (here, find_slot) (omega arith, le, here)
  | inr used ↦
      let (low, high, found) = find_slot-lem f k (i + 1) j (later used) (omega arith) free in
      (
        rw (used, find_slot) (omega (arith, low)),
        rw (used, find_slot) high,
        rw (used, find_slot) found,
      )
]
  where
    later : only_free (k.procs i).flags ≡ false → i + 1 ≤ j
    later used = omega (arith, differ)
      where
        differ : i ≢ j
        differ q = absurd (cc (used, free, ap (λ x. only_free (k.procs x).flags) q))

alloc_mem-ok :
    (memory_size pid size : ℕ)
    → 9 ≤ pid
    → size ≤ image_size
    → get_proc_memory pid + size < memory_size
    → alloc_mem memory_size pid size ≡ ok (get_proc_memory pid)
unfolding alloc_mem
alloc_mem-ok memory_size pid size low fits room = rw (a, b, c) refl
  where
    a : leb 9 pid ≡ true
    a = ground arith

    b : ltb image_size size ≡ false
    b = ground arith

    c : leb memory_size (get_proc_memory pid + size) ≡ false
    c = ground arith

-- The entry `child` of `m'` is the child of `pid`, with a copy of its memory.
pub record IsForked (m : Mm) (pid size : ℕ) (priority : ℤ) (child : ℕ) (m' : Mm) : Type 0 where
  pub behind : 9 ≤ child
  pub inside : child < nr_entries
  pub was_free : only_free (entry m child).flags ≡ true
  pub made : entry m' child ≡ child_of (entry m pid) pid priority (get_proc_memory child)
  pub others : (i : ℕ) → child ≢ i → entry m' i ≡ entry m i
  pub copied :
      (i : ℕ)
      → i < size
      → (get_proc_memory child + size ≤ (entry m pid).base)
        ⊎ ((entry m pid).base + size ≤ get_proc_memory child)
      → m'.kernel.mem (get_proc_memory child + i) ≡ m.kernel.mem ((entry m pid).base + i)

abbrev forked : Mm → ℕ → ℕ → ℤ → ℕ → Mm
forked m pid size priority child =
    let base = get_proc_memory child in
    let m1 = put m child (child_of (entry m pid) pid priority base) in
    let m2 = record m1 {
      kernel = record (m1.kernel) { mem = phys_copy size base (entry m pid).base m1.kernel.mem };
    } in
    send (send m2 (fork_notice child)) (child_born child)

fork_into-ok :
    (m : Mm) (child pid size : ℕ) (priority : ℤ)
    → 9 ≤ child
    → child < nr_entries
    → size ≤ image_size
    → get_proc_memory child + size < m.memory_size
    → fork_into m child pid size priority ≡ ok (forked m pid size priority child)
unfolding fork_into
fork_into-ok m child pid size priority low lt fits room =
    rw (lt→ltb child nr_entries lt, alloc_mem-ok m.memory_size child size low fits room) refl

do_fork-ok :
    (m : Mm) (child pid size : ℕ) (priority : ℤ)
    → find_slot nr_entries m.kernel 0 ≡ child
    → 9 ≤ child
    → child < nr_entries
    → size ≤ image_size
    → get_proc_memory child + size < m.memory_size
    → do_fork m pid size priority ≡ ok (some child, forked m pid size priority child)
unfolding do_fork
do_fork-ok m child pid size priority e low lt fits room =
    rw
      (
        e,
        is_behind,
        ne→== child 37 (omega arith),
        fork_into-ok m child pid size priority low lt fits room,
      )
      refl
  where
    is_behind : leb 9 child ≡ true
    is_behind = ground arith

-- Where the tasks and native processes are in use, some entry is free, and the memory reaches
-- beyond the end of the last entry's image, do_fork() of an image of at most 1 MB succeeds: it
-- fills a free entry behind the native processes as the caller's child, changes no other entry,
-- and the child's memory is a copy of the caller's, if the two regions do not overlap.
pub do_fork-IsForked :
    (m : Mm) (pid size j : ℕ) (priority : ℤ)
    → ((i : ℕ) → i < 9 → only_free (entry m i).flags ≡ false)
    → j < nr_entries
    → only_free (entry m j).flags ≡ true
    → size ≤ image_size
    → get_proc_memory 37 < m.memory_size
    → (child : ℕ) × (m' : Mm) × (do_fork m pid size priority ≡ ok (some child, m'))
      × IsForked m pid size priority child m'
do_fork-IsForked m pid size j priority native lt free fits room =
    let (low, high, found) =
      find_slot-lem nr_entries m.kernel 0 j (omega arith) (omega arith) free in
    (
      slot,
      forked m pid size priority slot,
      do_fork-ok m slot pid size priority refl (late found) (omega (arith, high)) fits
          (omega (arith, high, late found)),
      record {
        behind = late found;
        inside = omega (arith, high);
        was_free = found;
        made =
            update_eq m.kernel.procs slot slot
              (child_of (entry m pid) pid priority (get_proc_memory slot)) refl;
        others = λ i ne.
            update_ne m.kernel.procs slot i
              (child_of (entry m pid) pid priority (get_proc_memory slot)) ne;
        copied = λ i near apart.
            phys_copy-inside size (get_proc_memory slot) (entry m pid).base m.kernel.mem i apart
              near;
      },
    )
  where
    slot : ℕ
    slot = find_slot nr_entries m.kernel 0

    late : only_free (entry m slot).flags ≡ true → 9 ≤ slot
    late found = elim (dec_lt slot 9) [
      | yes early ↦ absurd (cc (native slot early, found))
      | no behind ↦ omega (arith, behind)
    ]
