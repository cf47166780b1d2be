-- ===== src/Mm/Buddy/Blocks.antt =====
-- alloc() of mm/main.c: the loops, and the block that is handed out.
use native.Mathlib.Decide.{dec_lt}
use kusa_os.Base.{
  ℕ, zero, suc, ◌+◌, ◌-◌, ◌*◌, ◌/◌, ◌≤◌, ◌<◌, ◌≡◌, refl, ap, ◌∙◌, ◌⊎◌, inl, inr, arith, true, false,
  Bool-cases, leb, leb→le, none, some, ok,
}
use kusa_os.Mm.Buddy.{Marks, set_child, set_parent, size_from, find_free, alloc, take_block}
use kusa_os.Mm.Buddy.Tree.{lo, lo-left, lo-suc, lo-le-lo, width_top, lo_top, lo_end, width}
use kusa_os.Mm.Buddy.Leaves.{
  IsAbove, IsAbove-lt, set_child_from-under, set_child_from-beside, set_parent_from-leaf,
}
use kusa_os.Mm.Buddy.Marks.{
  IsClosed, IsClosed-under, set_child_from-IsClosedBut, set_parent_from-IsClosed,
}

-- A level of the tree: its blocks have 2 to the power `d` units, its first node is `index`.
pub record Level (sz cur_sz index : ℕ) : Type 0 where
  pub d : ℕ
  pub low : d < 11
  pub size : cur_sz ≡ width d
  pub first : lo index d ≡ 1024
  pub end : lo (2 * index + 1) d ≡ 2048
  pub enough : sz ≤ cur_sz

size_from-Level :
    (d f sz cur_sz index : ℕ)
    → d < f
    → d < 11
    → 1 ≤ sz
    → sz ≤ cur_sz
    → cur_sz ≡ width d
    → lo index d ≡ 1024
    → lo (2 * index + 1) d ≡ 2048
    → (c : ℕ) × (i : ℕ) × (size_from f sz cur_sz index ≡ ok (c, i)) × Level sz c i
unfolding size_from width
size_from-Level d zero sz cur_sz index lt low pos le size first last = absurd (omega arith)
size_from-Level zero (suc f) sz cur_sz index lt low pos le size first last = (
  cur_sz,
  index,
  rw (stop, size_from) refl,
  record { d = 0; low = low; size = size; first = first; end = last; enough = le },
)
  where
    stop : leb sz (cur_sz / 2) ≡ false
    stop = ground arith
size_from-Level (suc d) (suc f) sz cur_sz index lt low pos le size first last =
    elim (Bool-cases (leb sz (cur_sz / 2))) [
      | inr stop ↦ (
        cur_sz,
        index,
        rw (stop, size_from) refl,
        record { d = suc d; low = low; size = size; first = first; end = last; enough = le },
      )
      | inl go ↦
          let (c, i, e, level) =
            size_from-Level d f sz (cur_sz / 2) (2 * index + 1) (omega arith) (omega arith) pos
              (leb→le sz (cur_sz / 2) go) (omega arith) (lo-left index d ∙ first)
              (ap (λ n. lo n d) (omega arith) ∙ lo-left (2 * index + 1) d ∙ last) in
          (c, i, rw (go, size_from) e, level)
    ]

all_marked :
    (b : Marks) (i n : ℕ)
    → b i ≡ true
    → ((j : ℕ) → i + 1 ≤ j → j < i + 1 + n → b j ≡ true)
    → (j : ℕ) → i ≤ j
    → j < i + suc n
    → b j ≡ true
all_marked b i n here all j le lt = elim (dec_lt i j) [
  | yes above ↦ all j (omega arith) (omega arith)
  | no same ↦ ap b (omega (arith, same)) ∙ here
]

-- What find_free() answers: no free node, or the first free one and its address.
find_free-none-or :
    (n : ℕ) (b : Marks) (cur_sz d i addr : ℕ)
    → cur_sz ≡ width d
    → 1024 + addr ≡ lo i d
    → ((find_free n b cur_sz i addr ≡ none) × ((j : ℕ) → i ≤ j → j < i + n → b j ≡ true))
      ⊎ ((j : ℕ) × (at : ℕ) × (find_free n b cur_sz i addr ≡ some (j, at))
          × (i ≤ j)
          × (j < i + n)
          × (b j ≡ false)
          × (1024 + at ≡ lo j d))
unfolding find_free
find_free-none-or zero b cur_sz d i addr size at = inl (refl, λ j le lt. absurd (omega arith))
find_free-none-or (suc n) b cur_sz d i addr size at = elim (Bool-cases (b i)) [
  | inr free ↦ inr (i, addr, rw (free, find_free) refl, omega arith, omega arith, free, at)
  | inl marked ↦
      elim (find_free-none-or n b cur_sz d (i + 1) (addr + cur_sz) size
        (omega (arith, lo-suc i d))) [
          | inl (e, all) ↦ inl (rw (marked, find_free) e, all_marked b i n marked all)
          | inr (j, at', e, le, lt, free, eq) ↦
              inr (j, at', rw (marked, find_free) e, omega arith, omega arith, free, eq)
        ]
]

-- What alloc() promises for a free node `i`: the units of its block were free, and they and no
-- others are marked after.
pub record IsBlock (b after : Marks) (sz at cur_sz : ℕ) : Type 0 where
  pub enough : sz ≤ cur_sz
  pub inside : at + cur_sz ≤ 1024
  pub free : (u : ℕ) → at ≤ u → u < at + cur_sz → b (1023 + u) ≡ false
  pub taken : (u : ℕ) → at ≤ u → u < at + cur_sz → after (1023 + u) ≡ true
  pub kept : (u : ℕ) → u < 1024 → (u < at) ⊎ (at + cur_sz ≤ u) → after (1023 + u) ≡ b (1023 + u)
  pub closed : IsClosed after

module _ (b : Marks) (h : IsClosed b) (sz cur_sz index : ℕ) (level : Level sz cur_sz index)
    (i addr : ℕ) (le : index ≤ i) (near : i < index + (index + 1)) (free : b i ≡ false)
    (place : 1024 + addr ≡ lo i level.d) where
  found-IsAbove : IsAbove i level.d
  found-IsAbove = record {
    first = omega (arith, place);
    behind = omega (arith, lo-le-lo (i + 1) (2 * index + 1) level.d (omega arith), level.end);
  }

  abbrev after : Marks
  after = set_parent (set_child b i) i

  behind_eq : lo (i + 1) level.d ≡ 1024 + addr + cur_sz
  behind_eq = omega (arith, lo-suc i level.d, place, level.size)

  parent_lt : (i - 1) / 2 < 1023
  parent_lt = omega (arith, IsAbove-lt i level.d found-IsAbove)

  after-IsClosed : IsClosed after
  after-IsClosed =
      set_parent_from-IsClosed (suc i) i (set_child b i) (omega arith)
        (set_child_from-IsClosedBut 12 i b i (λ x pos lt ne marked. h x pos lt marked) (inl refl))

  leaf_same : (x : ℕ) → 1023 ≤ x → after x ≡ set_child b i x
  leaf_same x leaf = set_parent_from-leaf (suc i) (set_child b i) ((i - 1) / 2) x parent_lt leaf

  found-IsBlock : IsBlock b after sz addr cur_sz
  found-IsBlock = record {
    enough = level.enough;
    inside = omega (arith, behind_eq, found-IsAbove.behind);
    free = λ u low high.
        IsClosed-under level.d b i (1023 + u) h found-IsAbove free (omega (arith, place))
          (omega (arith, behind_eq));
    taken = λ u low high.
        leaf_same (1023 + u) (omega arith)
        ∙ set_child_from-under level.d 12 b i (1023 + u) (omega (arith, level.low)) found-IsAbove
            (omega (arith, place)) (omega (arith, behind_eq));
    kept = λ u lt out.
        leaf_same (1023 + u) (omega arith)
        ∙ set_child_from-beside level.d 12 b i (1023 + u) found-IsAbove (omega arith)
            (omega (arith, place, behind_eq, out));
    closed = after-IsClosed;
  }

alloc-lem :
    (b : Marks) (sz c i : ℕ)
    → size_from 12 sz 1024 0 ≡ ok (c, i)
    → alloc b sz ≡ ok (take_block b (find_free (i + 1) b c i 0))
unfolding alloc
alloc-lem b sz c i e = rw e refl

-- alloc() of 1 to 1024 units always ends its loops. It returns no address only where every block
-- of the size it looks for carries a mark; otherwise the block that it returns is large enough
-- and lies in the region, its units were free and are marked after, no other unit's mark
-- changes, and the nodes above marked ones stay marked.
pub alloc-IsBlock :
    (b : Marks) (sz : ℕ)
    → IsClosed b
    → 1 ≤ sz
    → sz ≤ 1024
    → ((cur_sz : ℕ) × (index : ℕ) × Level sz cur_sz index
        × (alloc b sz ≡ ok none)
        × ((j : ℕ) → index ≤ j → j < index + (index + 1) → b j ≡ true))
      ⊎ ((addr : ℕ) × (after : Marks) × (cur_sz : ℕ) × (alloc b sz ≡ ok (some (addr, after)))
          × IsBlock b after sz addr cur_sz)
alloc-IsBlock b sz h pos le =
    let (cur_sz, index, e, level) =
      size_from-Level 10 12 sz 1024 0 (omega arith) (omega arith) pos le width_top lo_top lo_end in
    elim (find_free-none-or (index + 1) b cur_sz level.d index 0 level.size
      (omega (arith, level.first))) [
        | inl (found, all) ↦ inl (
          cur_sz,
          index,
          level,
          alloc-lem b sz cur_sz index e ∙ ap (λ o. ok (take_block b o)) found,
          all,
        )
        | inr (i, addr, found, low, near, free, place) ↦ inr (
          addr,
          set_parent (set_child b i) i,
          cur_sz,
          alloc-lem b sz cur_sz index e ∙ ap (λ o. ok (take_block b o)) found,
          found-IsBlock b h sz cur_sz index level i addr low near free place,
        )
      ]
