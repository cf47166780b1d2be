-- ===== src/Mm/Buddy.antt =====
-- The buddy allocator of mm/main.c: mem_buf, set_child(), set_parent() and alloc(). `mem_buf` is a
-- complete binary tree of 2047 nodes over 1024 units, node i above 2 i + 1 and 2 i + 2; `true` is a
-- mark. A node's number more than doubles from a level to the next, so twelve levels of fuel are
-- enough for set_child(); set_parent() halves it.
pub mod Tree
pub mod Marks
pub mod Leaves
pub mod Blocks
use kusa_os.Base.{
  ℕ, zero, suc, ◌+◌, ◌-◌, ◌*◌, ◌/◌, Bool, true, false, Option, none, some, Result, ok, err, Fault,
  ◌>>=◌, ◌==◌, ltb, leb, update, if◌then◌else◌,
}

abbrev pub buddy_size : ℕ
buddy_size = 1024

abbrev pub Marks : Type 0
Marks = ℕ → Bool

unfoldable pub set_child_from : ℕ → Marks → ℕ → Marks
set_child_from zero mem_buf i = mem_buf
set_child_from (suc f) mem_buf i = elim (ltb i (buddy_size * 2 - 1)) [
  | true ↦ set_child_from f (set_child_from f (update mem_buf i true) (2 * i + 1)) (2 * i + 2)
  | false ↦ mem_buf
]

abbrev pub set_child : Marks → ℕ → Marks
set_child mem_buf i = set_child_from 12 mem_buf i

-- The loop of set_parent(), at the node `p`.
unfoldable pub set_parent_from : ℕ → Marks → ℕ → Marks
set_parent_from zero mem_buf p = mem_buf
set_parent_from (suc f) mem_buf p = elim (p == 0) [
  | true ↦ update mem_buf p true
  | false ↦ set_parent_from f (update mem_buf p true) ((p - 1) / 2)
]

-- (i - 1) / 2 is 0 for i = 0 in the source, too.
abbrev pub set_parent : Marks → ℕ → Marks
set_parent mem_buf i = set_parent_from (suc i) mem_buf ((i - 1) / 2)

-- The first loop of alloc(): the size of the block, and the first node of its level. For `sz` 0 it
-- goes on for ever.
unfoldable pub size_from : ℕ → ℕ → ℕ → ℕ → Result (ℕ × ℕ)
size_from zero sz cur_sz index = err Fault.spins
size_from (suc f) sz cur_sz index = elim (leb sz (cur_sz / 2)) [
  | true ↦ size_from f sz (cur_sz / 2) (2 * index + 1)
  | false ↦ ok (cur_sz, index)
]

-- The second loop, `n` nodes before its end: the node found and its address.
unfoldable pub find_free : ℕ → Marks → ℕ → ℕ → ℕ → Option (ℕ × ℕ)
find_free zero mem_buf cur_sz i addr = none
find_free (suc n) mem_buf cur_sz i addr = elim (mem_buf i) [
  | false ↦ some (i, addr)
  | true ↦ find_free n mem_buf cur_sz (i + 1) (addr + cur_sz)
]

-- What alloc() does with the node that it has found.
abbrev pub take_block : Marks → Option (ℕ × ℕ) → Option (ℕ × Marks)
take_block mem_buf none = none
take_block mem_buf (some (i, addr)) = some (addr, set_parent (set_child mem_buf i) i)

-- The address and the marks after, or `none` where alloc() ends with no return.
unfoldable pub alloc : Marks → ℕ → Result (Option (ℕ × Marks))
alloc mem_buf sz = do
  (cur_sz, index) ← size_from 12 sz buddy_size 0
  ok (take_block mem_buf (find_free (index + 1) mem_buf cur_sz index 0))
