-- ===== src/Mm/Buddy/Tree.antt =====
-- The subtree of a node, and the levels of the tree.
use kusa_os.Base.{ℕ, zero, suc, ◌+◌, ◌*◌, ◌≤◌, ◌≡◌, refl, arith, ap}

-- The leaves `d` levels below the node i are the nodes x with lo i d ≤ x + 1 < lo (i + 1) d.
unfoldable pub lo : ℕ → ℕ → ℕ
lo i zero = i + 1
lo i (suc d) = lo (2 * i + 1) d

-- 2 to the power d
unfoldable pub width : ℕ → ℕ
width zero = 1
width (suc d) = width d + width d

-- The leaves of the next node follow.
pub lo-suc : (i d : ℕ) → lo (i + 1) d ≡ lo i d + width d
unfolding lo width
lo-suc i zero = omega arith
lo-suc i (suc d) =
    omega (
      arith,
      lo-suc (2 * i + 1) d,
      lo-suc (2 * i + 2) d,
      ap (λ n. lo n d) odd,
      ap (λ n. lo n d) even,
    )
  where
    odd : 2 * (i + 1) + 1 ≡ 2 * i + 2 + 1
    odd = omega arith

    even : 2 * i + 1 + 1 ≡ 2 * i + 2
    even = omega arith

pub width-lt : (d : ℕ) → 1 ≤ width d
unfolding width
width-lt zero = omega arith
width-lt (suc d) = omega (arith, width-lt d)

-- A node above the last level has a subtree that begins behind it.
pub lo-le : (i d : ℕ) → i + 1 ≤ lo i d
unfolding lo
lo-le i zero = omega arith
lo-le i (suc d) = omega (arith, lo-le (2 * i + 1) d)

-- The children of i share its leaves.
pub lo-left : (i d : ℕ) → lo (2 * i + 1) d ≡ lo i (suc d)
unfolding lo
lo-left i d = refl

pub lo-right : (i d : ℕ) → lo (2 * i + 2 + 1) d ≡ lo (i + 1) (suc d)
unfolding lo
lo-right i d = ap (λ n. lo n d) (omega arith)

pub lo-middle : (i d : ℕ) → lo (2 * i + 1 + 1) d ≡ lo (2 * i + 2) d
lo-middle i d = ap (λ n. lo n d) (omega arith)

pub lo-zero : (i : ℕ) → lo i 0 ≡ i + 1
unfolding lo
lo-zero i = refl

pub lo-le-lo : (i j d : ℕ) → i ≤ j → lo i d ≤ lo j d
unfolding lo
lo-le-lo i j zero h = omega arith
lo-le-lo i j (suc d) h = lo-le-lo (2 * i + 1) (2 * j + 1) d (omega arith)

pub width_top : 1024 ≡ width 10
unfolding width
width_top = refl

-- The whole tree
pub lo_top : lo 0 10 ≡ 1024
unfolding lo
lo_top = refl

pub lo_end : lo 1 10 ≡ 2048
unfolding lo
lo_end = refl
