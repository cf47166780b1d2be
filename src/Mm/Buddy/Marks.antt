-- ===== src/Mm/Buddy/Marks.antt =====
-- The invariant of mem_buf: above a marked node all nodes are marked.
use native.Mathlib.Decide.{dec_lt, ℕ_discrete}
use kusa_os.Base.{
  ℕ, zero, suc, ◌+◌, ◌-◌, ◌*◌, ◌/◌, ◌≤◌, ◌<◌, ◌≡◌, ◌≢◌, sym, ap, ◌∙◌, ◌⊎◌, inl, inr, arith, true,
  false, Bool-cases, ◌==◌, ==_iff, update, update_ne, update_eq,
}
use kusa_os.Mm.Buddy.{Marks, set_child_from, set_parent_from}
use kusa_os.Mm.Buddy.Tree.{lo, lo-zero, lo-left, lo-right, lo-middle}
use kusa_os.Mm.Buddy.Leaves.{
  set_child_from-outside, set_child_from-inside, set_child_from-marked, IsAbove, IsAbove-lt,
  IsAbove-left, IsAbove-right,
}

-- Above each marked node, other than `e`, a marked one.
abbrev pub IsClosedBut : ℕ → Marks → Type 0
IsClosedBut e b = (x : ℕ) → 1 ≤ x → x < 2047 → x ≢ e → b x ≡ true → b ((x - 1) / 2) ≡ true

abbrev pub IsClosed : Marks → Type 0
IsClosed b = (x : ℕ) → 1 ≤ x → x < 2047 → b x ≡ true → b ((x - 1) / 2) ≡ true

update-IsClosedBut :
    (e : ℕ) (b : Marks) (i : ℕ)
    → IsClosedBut e b
    → (i ≡ e) ⊎ (b ((i - 1) / 2) ≡ true)
    → IsClosedBut e (update b i true)
update-IsClosedBut e b i h above x pos lt ne marked = elim (ℕ_discrete i ((x - 1) / 2)) [
  | yes q ↦ update_eq b i ((x - 1) / 2) true q
  | no far ↦ update_ne b i ((x - 1) / 2) true far ∙ elim (ℕ_discrete i x) [
    | yes same ↦ elim above [
      | inl q ↦ absurd (ne (sym same ∙ q))
      | inr over ↦ ap (λ y. b ((y - 1) / 2)) (sym same) ∙ over
    ]
    | no other ↦ h x pos lt ne (sym (update_ne b i x true other) ∙ marked)
  ]
]

-- set_child() of `i` closes all but the way from `i` upwards.
pub set_child_from-IsClosedBut :
    (f e : ℕ) (b : Marks) (i : ℕ)
    → IsClosedBut e b
    → (i ≡ e) ⊎ (b ((i - 1) / 2) ≡ true)
    → IsClosedBut e (set_child_from f b i)
unfolding set_child_from
set_child_from-IsClosedBut zero e b i h above = h
set_child_from-IsClosedBut (suc f) e b i h above = elim (dec_lt i 2047) [
  | yes lt ↦ rw (set_child_from-inside f b i lt) (
      set_child_from-IsClosedBut f e (set_child_from f (update b i true) (2 * i + 1)) (2 * i + 2)
        (set_child_from-IsClosedBut f e (update b i true) (2 * i + 1)
          (update-IsClosedBut e b i h above)
          (inr (update_eq b i ((2 * i + 1 - 1) / 2) true (omega arith))))
        (inr (
          set_child_from-marked f (update b i true) (2 * i + 1) ((2 * i + 2 - 1) / 2)
            (update_eq b i ((2 * i + 2 - 1) / 2) true (omega arith)))))
  | no ge ↦ rw (set_child_from-outside (suc f) b i (omega (arith, ge))) h
]

positive : (n : ℕ) → (n == 0) ≡ false → 1 ≤ n
positive n h = ground arith

-- set_parent(), from the node above `e`, closes that way.
pub set_parent_from-IsClosed :
    (f e : ℕ) (b : Marks)
    → (e - 1) / 2 < f
    → IsClosedBut e b
    → IsClosed (set_parent_from f b ((e - 1) / 2))
unfolding set_parent_from
set_parent_from-IsClosed zero e b lt h = absurd (omega arith)
set_parent_from-IsClosed (suc f) e b lt h = elim (Bool-cases ((e - 1) / 2 == 0)) [
  | inl root ↦
      rw (root, set_parent_from)
        λ x pos x_lt marked.
          moved x pos x_lt (omega (arith, (==_iff ((e - 1) / 2) 0).0 root)) marked
  | inr further ↦
      rw (further, set_parent_from)
        (set_parent_from-IsClosed f ((e - 1) / 2) (update b ((e - 1) / 2) true)
          (omega (arith, positive ((e - 1) / 2) further)) moved)
]
  where
    moved : IsClosedBut ((e - 1) / 2) (update b ((e - 1) / 2) true)
    moved x pos x_lt ne marked = elim (ℕ_discrete x e) [
      | yes same ↦ update_eq b ((e - 1) / 2) ((x - 1) / 2) true (ap (λ y. (y - 1) / 2) (sym same))
      | no other ↦ elim (ℕ_discrete ((e - 1) / 2) ((x - 1) / 2)) [
        | yes q ↦ update_eq b ((e - 1) / 2) ((x - 1) / 2) true q
        | no far ↦
            update_ne b ((e - 1) / 2) ((x - 1) / 2) true far
            ∙ h x pos x_lt other (sym (update_ne b ((e - 1) / 2) x true (λ q. ne (sym q))) ∙ marked)
      ]
    ]

unmarked :
    (b : Marks) (i c : ℕ)
    → IsClosed b
    → 1 ≤ c
    → c < 2047
    → (c - 1) / 2 ≡ i
    → b i ≡ false
    → b c ≡ false
unmarked b i c h pos lt above free = elim (Bool-cases (b c)) [
  | inl marked ↦ absurd (cc (h c pos lt marked, ap b above, free))
  | inr un ↦ un
]

-- Below an unmarked node no leaf is marked.
pub IsClosed-under :
    (d : ℕ) (b : Marks) (i x : ℕ)
    → IsClosed b
    → IsAbove i d
    → b i ≡ false
    → lo i d ≤ x + 1
    → x + 1 < lo (i + 1) d
    → b x ≡ false
IsClosed-under zero b i x h above free le near =
    ap b (omega (arith, le, near, lo-zero i, lo-zero (i + 1))) ∙ free
IsClosed-under (suc d) b i x h above free le near = elim (dec_lt (x + 1) (lo (2 * i + 2) d)) [
  | yes left ↦
      IsClosed-under d b (2 * i + 1) x h (IsAbove-left i d above)
        (unmarked b i (2 * i + 1) h (omega arith)
          (IsAbove-lt (2 * i + 1) d (IsAbove-left i d above)) (omega arith) free)
        (omega (arith, le, lo-left i d)) (omega (arith, left, lo-middle i d))
  | no right ↦
      IsClosed-under d b (2 * i + 2) x h (IsAbove-right i d above)
        (unmarked b i (2 * i + 2) h (omega arith)
          (IsAbove-lt (2 * i + 2) d (IsAbove-right i d above)) (omega arith) free)
        (omega (arith, right)) (omega (arith, near, lo-right i d))
]
