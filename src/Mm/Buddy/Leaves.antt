-- ===== src/Mm/Buddy/Leaves.antt =====
-- What set_child() and set_parent() do to the leaves of the tree.
use native.Mathlib.Decide.{dec_lt}
use kusa_os.Base.{
  ℕ, zero, suc, ◌+◌, ◌-◌, ◌*◌, ◌/◌, ◌≤◌, ◌<◌, ◌≡◌, refl, ◌∙◌, ◌⊎◌, inl, inr, arith, true, false,
  Bool-cases, ltb, ◌==◌, update, update_ne, update_eq,
}
use kusa_os.Mm.Buddy.{Marks, set_child_from, set_parent_from}
use kusa_os.Mm.Buddy.Tree.{lo, lo-zero, lo-suc, lo-le, lo-left, lo-right, lo-middle, width-lt}

-- Outside the tree nothing is marked.
pub set_child_from-outside : (f : ℕ) (b : Marks) (i : ℕ) → 2047 ≤ i → set_child_from f b i ≡ b
unfolding set_child_from
set_child_from-outside zero b i h = refl
set_child_from-outside (suc f) b i h = rw (out, set_child_from) refl
  where
    out : ltb i 2047 ≡ false
    out = ground arith

-- Inside it, i is marked, then the subtrees of its children.
pub set_child_from-inside :
    (f : ℕ) (b : Marks) (i : ℕ)
    → i < 2047
    → set_child_from (suc f) b i
      ≡ set_child_from f (set_child_from f (update b i true) (2 * i + 1)) (2 * i + 2)
unfolding set_child_from
set_child_from-inside f b i h = rw (inside, set_child_from) refl
  where
    inside : ltb i 2047 ≡ true
    inside = ground arith

pub update-marked : (b : Marks) (i x : ℕ) → b x ≡ true → update b i true x ≡ true
update-marked b i x h = ground arith

-- A mark stays.
pub set_child_from-marked :
    (f : ℕ) (b : Marks) (i x : ℕ) → b x ≡ true → set_child_from f b i x ≡ true
unfolding set_child_from
set_child_from-marked zero b i x h = h
set_child_from-marked (suc f) b i x h = elim (dec_lt i 2047) [
  | yes lt ↦ rw (set_child_from-inside f b i lt) (
      set_child_from-marked f (set_child_from f (update b i true) (2 * i + 1)) (2 * i + 2) x
        (set_child_from-marked f (update b i true) (2 * i + 1) x (update-marked b i x h)))
  | no ge ↦ rw (set_child_from-outside (suc f) b i (omega (arith, ge))) h
]

-- The subtree of i has its leaves, `d` levels below, in the last level.
pub record IsAbove (i d : ℕ) : Type 0 where
  pub first : 1024 ≤ lo i d
  pub behind : lo (i + 1) d ≤ 2048

pub IsAbove-left : (i d : ℕ) → IsAbove i (suc d) → IsAbove (2 * i + 1) d
IsAbove-left i d h = record {
  first = omega (arith, h.first, lo-left i d);
  behind = omega (arith, h.behind, lo-middle i d, lo-right i d, lo-suc (2 * i + 2) d);
}

pub IsAbove-right : (i d : ℕ) → IsAbove i (suc d) → IsAbove (2 * i + 2) d
IsAbove-right i d h = record {
  first = omega (arith, h.first, lo-left i d, lo-middle i d, lo-suc (2 * i + 1) d);
  behind = omega (arith, h.behind, lo-right i d);
}

pub IsAbove-lt : (i d : ℕ) → IsAbove i d → i < 2047
IsAbove-lt i d h = omega (arith, h.behind, lo-le (i + 1) d)

pub IsAbove-suc-lt : (i d : ℕ) → IsAbove i (suc d) → i < 1023
IsAbove-suc-lt i d h =
    omega (arith, h.behind, lo-left i d, lo-le (2 * i + 1) d, lo-suc i (suc d), width-lt (suc d))

-- set_child() marks the leaves below i,
pub set_child_from-under :
    (d f : ℕ) (b : Marks) (i x : ℕ)
    → d < f
    → IsAbove i d
    → lo i d ≤ x + 1
    → x + 1 < lo (i + 1) d
    → set_child_from f b i x ≡ true
set_child_from-under d zero b i x lt above le near = absurd (omega arith)
set_child_from-under zero (suc f) b i x lt above le near =
    rw (set_child_from-inside f b i (IsAbove-lt i 0 above)) (
      set_child_from-marked f (set_child_from f (update b i true) (2 * i + 1)) (2 * i + 2) x (
        set_child_from-marked f (update b i true) (2 * i + 1) x
          (update_eq b i x true (omega (arith, le, near, lo-zero i, lo-zero (i + 1))))))
set_child_from-under (suc d) (suc f) b i x lt above le near =
    rw (set_child_from-inside f b i (IsAbove-lt i (suc d) above))
      (elim (dec_lt (x + 1) (lo (2 * i + 2) d)) [
        | yes left ↦
            set_child_from-marked f (set_child_from f (update b i true) (2 * i + 1)) (2 * i + 2) x (
              set_child_from-under d f (update b i true) (2 * i + 1) x (omega arith)
                (IsAbove-left i d above) (omega (arith, le, lo-left i d))
                (omega (arith, left, lo-middle i d)))
        | no right ↦
            set_child_from-under d f (set_child_from f (update b i true) (2 * i + 1)) (2 * i + 2) x
              (omega arith) (IsAbove-right i d above) (omega (arith, right))
              (omega (arith, near, lo-right i d))
      ])

-- and no other leaf.
pub set_child_from-beside :
    (d f : ℕ) (b : Marks) (i x : ℕ)
    → IsAbove i d
    → 1023 ≤ x
    → (x + 1 < lo i d) ⊎ (lo (i + 1) d ≤ x + 1)
    → set_child_from f b i x ≡ b x
unfolding set_child_from
set_child_from-beside d zero b i x above leaf out = refl
set_child_from-beside zero (suc f) b i x above leaf out =
    rw
      (
        set_child_from-inside f b i (IsAbove-lt i 0 above),
        set_child_from-outside f (update b i true) (2 * i + 1)
            (omega (arith, above.first, lo-zero i)),
        set_child_from-outside f (update b i true) (2 * i + 2)
            (omega (arith, above.first, lo-zero i)),
      )
      (update_ne b i x true (omega (arith, out, lo-zero i, lo-zero (i + 1))))
set_child_from-beside (suc d) (suc f) b i x above leaf out =
    rw (set_child_from-inside f b i (IsAbove-lt i (suc d) above)) (
      set_child_from-beside d f (set_child_from f (update b i true) (2 * i + 1)) (2 * i + 2) x
        (IsAbove-right i d above) leaf
        (omega (arith, out, lo-left i d, lo-middle i d, lo-right i d, lo-suc (2 * i + 1) d))
      ∙ set_child_from-beside d f (update b i true) (2 * i + 1) x (IsAbove-left i d above) leaf
          (omega (arith, out, lo-left i d, lo-middle i d, lo-right i d, lo-suc (2 * i + 2) d))
      ∙ update_ne b i x true (omega (arith, IsAbove-suc-lt i d above)))

-- set_parent() marks no leaf.
pub set_parent_from-leaf :
    (f : ℕ) (b : Marks) (p x : ℕ) → p < 1023 → 1023 ≤ x → set_parent_from f b p x ≡ b x
unfolding set_parent_from
set_parent_from-leaf zero b p x lt leaf = refl
set_parent_from-leaf (suc f) b p x lt leaf = elim (Bool-cases (p == 0)) [
  | inl root ↦ rw (root, set_parent_from) (update_ne b p x true (omega arith))
  | inr further ↦
      rw (further, set_parent_from)
        (set_parent_from-leaf f (update b p true) ((p - 1) / 2) x (omega arith) leaf
          ∙ update_ne b p x true (omega arith))
]
