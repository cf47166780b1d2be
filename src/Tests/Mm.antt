-- ===== src/Tests/Mm.antt =====
-- Memory management at concrete inputs.
use kusa_os.Base.{ℕ, ◌≡◌, ◌+◌, ◌≤◌, ◌<◌, ◌⊎◌, refl, arith, ok, true, false, update, none, some, []}
use kusa_os.Kernel.{only_free, from, nr_entries}
use kusa_os.Kernel.Signed.{pos}
use kusa_os.Boot.{kernel_main, boot_entry}
use kusa_os.Mm.Buddy.{Marks, alloc}
use kusa_os.Mm.Buddy.Blocks.{Level, IsBlock, alloc-IsBlock}
use kusa_os.Mm.Life.{Mm, entry, do_exit, do_fork, find_hanging}
use kusa_os.Mm.Life.Fork.{IsForked, do_fork-IsForked}
use kusa_os.Mm.Life.Exit.Hanging.{do_exit-forgets}

abbrev clear : Marks
clear _ = false

alloc-IsBlock_example :
    ((cur_sz : ℕ) × (index : ℕ) × Level 5 cur_sz index
      × (alloc clear 5 ≡ ok none)
      × ((j : ℕ) → index ≤ j → j < index + (index + 1) → clear j ≡ true))
    ⊎ ((addr : ℕ) × (after : Marks) × (cur_sz : ℕ) × (alloc clear 5 ≡ ok (some (addr, after)))
        × IsBlock clear after 5 addr cur_sz)
alloc-IsBlock_example =
    alloc-IsBlock clear 5 (λ x low lt marked. marked) (omega arith) (omega arith)

-- Process 12 is a child of INIT, and 13 of 12.
abbrev family : Mm
family = record {
  kernel = record (kernel_main (boot_entry 0) (λ _. 0)) {
    procs =
        update (update boot_entry 12 (record (boot_entry 5) { parent = from 5 })) 13
          (record (boot_entry 5) { parent = from 12 });
  };
  sent = [];
  memory_size = 33554432;
}

none_hanging : (x : ℕ) → (entry family x).flags.hanging ≡ false
unfolding boot_entry
none_hanging x = ground arith

do_exit-forgets_example :
    (m' : Mm) × (do_exit family 12 (pos 3) ≡ ok m')
    × ((x : ℕ) → (entry m' x).flags.hanging ≡ false)
    × ((q : ℕ) → (find_hanging nr_entries m' q 0 0).0 ≡ none)
do_exit-forgets_example = do_exit-forgets family 12 5 (pos 3) none_hanging refl

-- Process 12 forks, in 64 MB of memory.
abbrev before_fork : Mm
before_fork = record family { memory_size = 67108864 }

natives_used : (i : ℕ) → i < 9 → only_free (entry before_fork i).flags ≡ false
unfolding boot_entry
natives_used i lt = ground arith

slot_free : only_free (entry before_fork 20).flags ≡ true
unfolding boot_entry
slot_free = refl

do_fork-IsForked_example :
    (child : ℕ) × (m' : Mm) × (do_fork before_fork 12 4096 (pos 5) ≡ ok (some child, m'))
    × IsForked before_fork 12 4096 (pos 5) child m'
do_fork-IsForked_example =
    do_fork-IsForked before_fork 12 4096 20 (pos 5) natives_used (omega arith) slot_free
      (omega arith) (omega arith)
