-- ===== src/Strings/Compare.antt =====
-- strcmp() and memcmp() of lib/misc.c, and equality of strings and of regions.
use kusa_os.Base.{
  ℕ, zero, suc, ◌+◌, ◌-◌, ◌<◌, ◌≡◌, ◌≢◌, ◌↔◌, refl, sym, ap, ◌∙◌, inl, inr, arith, true, false,
  Bool-cases, Result, ok, ◌==◌, ==_iff, ne→==,
}
use kusa_os.Kernel.Signed.{ℤ, pos, ◌-ℤ◌}
use kusa_os.Strings.{difference, memcmp_from, memcmp, goes_on, strcmp_from, strcmp}

difference_zero : (a b : ℕ) → a < 256 → b < 256 → difference a b ≡ pos 0 → a ≡ b
unfolding ◌-ℤ◌
difference_zero a b h q e = ground arith

difference_self : (a b : ℕ) → a ≡ b → difference a b ≡ pos 0
unfolding ◌-ℤ◌
difference_self a b e = ground arith

goes_on-true : (a b : ℕ) → goes_on a b ≡ true → (a ≢ 0) × (a ≡ b)
goes_on-true a b h = (ground arith, ground arith)

goes_on-false : (a b : ℕ) → goes_on a b ≡ false → a ≡ b → a ≡ 0
goes_on-false a b h e = ground arith

-- The strings at the two addresses are the same.
pub data Same (mem : ℕ → ℕ) : ℕ → ℕ → Type 0 where
  over : {p1 p2 : ℕ} → mem p1 ≡ 0 → mem p2 ≡ 0 → Same mem p1 p2
  next : {p1 p2 : ℕ} → mem p1 ≢ 0 → mem p1 ≡ mem p2 → Same mem (p1 + 1) (p2 + 1) → Same mem p1 p2

abbrev Decides : (ℕ → ℕ) → ℕ → ℕ → Result ℤ → Type 0
Decides mem p1 p2 res = (r : ℤ) × (res ≡ ok r) × ((r ≡ pos 0) ↔ Same mem p1 p2)

strcmp_from-lem :
    (f : ℕ) (mem : ℕ → ℕ) (p1 p2 l : ℕ)
    → ((x : ℕ) → mem x < 256)
    → mem (p1 + l) ≡ 0
    → l < f
    → Decides mem p1 p2 (strcmp_from f mem p1 p2)
unfolding strcmp_from
strcmp_from-lem zero mem p1 p2 l bytes end lt = absurd (omega arith)
strcmp_from-lem (suc f) mem p1 p2 l bytes end lt = elim (Bool-cases (goes_on (mem p1) (mem p2))) [
  | inr stop ↦ (
    difference (mem p1) (mem p2),
    rw (stop, strcmp_from) refl,
    (λ z. ended stop (difference_zero (mem p1) (mem p2) (bytes p1) (bytes p2) z), same_zero stop),
  )
  | inl on ↦
      let (r, e, decides) =
        strcmp_from-lem f mem (p1 + 1) (p2 + 1) (l - 1) bytes
          (ap mem (omega (arith, further on)) ∙ end) (omega (arith, further on)) in
      (
        r,
        rw (on, strcmp_from) e,
        (
          λ z.
              next (goes_on-true (mem p1) (mem p2) on).0 (goes_on-true (mem p1) (mem p2) on).1
                (decides.0 z),
          λ s. decides.1 (tail on s),
        ),
      )
]
  where
    further : goes_on (mem p1) (mem p2) ≡ true → l ≢ 0
    further on z = (goes_on-true (mem p1) (mem p2) on).0 (ap mem (omega (arith, z)) ∙ end)

    ended : goes_on (mem p1) (mem p2) ≡ false → mem p1 ≡ mem p2 → Same mem p1 p2
    ended stop e =
        over (goes_on-false (mem p1) (mem p2) stop e)
          (sym e ∙ goes_on-false (mem p1) (mem p2) stop e)

    same_zero :
        goes_on (mem p1) (mem p2) ≡ false → Same mem p1 p2 → difference (mem p1) (mem p2) ≡ pos 0
    same_zero stop (over z1 z2) = difference_self (mem p1) (mem p2) (z1 ∙ sym z2)
    same_zero stop (next ne e s) = difference_self (mem p1) (mem p2) e

    tail : goes_on (mem p1) (mem p2) ≡ true → Same mem p1 p2 → Same mem (p1 + 1) (p2 + 1)
    tail on (over z1 z2) = absurd ((goes_on-true (mem p1) (mem p2) on).0 z1)
    tail on (next ne e s) = s

-- With more steps than the first string has characters
pub strcmp-decides :
    (f : ℕ) (mem : ℕ → ℕ) (s1 s2 l : ℕ)
    → ((x : ℕ) → mem x < 256)
    → mem (s1 + l) ≡ 0
    → l < f
    → s1 ≢ 0
    → s2 ≢ 0
    → (r : ℤ) × (strcmp f mem s1 s2 ≡ ok r) × ((r ≡ pos 0) ↔ Same mem s1 s2)
unfolding strcmp
strcmp-decides f mem s1 s2 l bytes end lt ne1 ne2 =
    let (r, e, decides) = strcmp_from-lem f mem s1 s2 l bytes end lt in
    (r, rw (ne→== s1 0 ne1, ne→== s2 0 ne2) e, decides)

-- strcmp() of two strings, the first of at most `l` characters, ends within l + 1 steps, and
-- returns 0 exactly where the strings are the same. The pointers are not null.
pub strcmp_iff :
    (mem : ℕ → ℕ) (s1 s2 l : ℕ)
    → ((x : ℕ) → mem x < 256)
    → mem (s1 + l) ≡ 0
    → s1 ≢ 0
    → s2 ≢ 0
    → (r : ℤ) × (strcmp (l + 1) mem s1 s2 ≡ ok r) × ((r ≡ pos 0) ↔ Same mem s1 s2)
strcmp_iff mem s1 s2 l bytes end ne1 ne2 =
    strcmp-decides (l + 1) mem s1 s2 l bytes end (omega arith) ne1 ne2

-- A string of `l` characters is the same as another exactly where the bytes up to its end are.
pub same_iff :
    (l : ℕ) (mem : ℕ → ℕ) (p1 p2 : ℕ)
    → ((k : ℕ) → k < l → mem (p1 + k) ≢ 0)
    → mem (p1 + l) ≡ 0
    → Same mem p1 p2 ↔ ((k : ℕ) → k < suc l → mem (p2 + k) ≡ mem (p1 + k))
same_iff l mem p1 p2 full end = (bytes_of l p1 p2 full end, same_of l p1 p2 full end)
  where
    bytes_of :
        (l p1 p2 : ℕ)
        → ((k : ℕ) → k < l → mem (p1 + k) ≢ 0)
        → mem (p1 + l) ≡ 0
        → Same mem p1 p2
        → (k : ℕ) → k < suc l
        → mem (p2 + k) ≡ mem (p1 + k)
    bytes_of zero p1 p2 full end (over z1 z2) k lt =
        ap mem (omega (arith, lt)) ∙ z2 ∙ sym z1 ∙ ap mem (omega (arith, lt))
    bytes_of zero p1 p2 full end (next ne e s) k lt = absurd (ne (ap mem (omega arith) ∙ end))
    bytes_of (suc l) p1 p2 full end (over z1 z2) k lt =
        absurd (full 0 (omega arith) (ap mem (omega arith) ∙ z1))
    bytes_of (suc l) p1 p2 full end (next ne e s) zero lt =
        ap mem (omega arith) ∙ sym e ∙ ap mem (omega arith)
    bytes_of (suc l) p1 p2 full end (next ne e s) (suc k) lt =
        ap mem (omega arith)
        ∙ bytes_of l (p1 + 1) (p2 + 1)
            (λ i small z. full (suc i) (omega (arith, small)) (ap mem (omega arith) ∙ z))
            (ap mem (omega arith) ∙ end) s k (omega (arith, lt))
        ∙ ap mem (omega arith)

    same_of :
        (l p1 p2 : ℕ)
        → ((k : ℕ) → k < l → mem (p1 + k) ≢ 0)
        → mem (p1 + l) ≡ 0
        → ((k : ℕ) → k < suc l → mem (p2 + k) ≡ mem (p1 + k))
        → Same mem p1 p2
    same_of zero p1 p2 full end all =
        over (ap mem (omega arith) ∙ end) (ap mem (omega arith) ∙ all 0 (omega arith) ∙ end)
    same_of (suc l) p1 p2 full end all =
        next (λ z. full 0 (omega arith) (ap mem (omega arith) ∙ z))
          (ap mem (omega arith) ∙ sym (all 0 (omega arith)) ∙ ap mem (omega arith))
          (same_of l (p1 + 1) (p2 + 1)
            (λ i small z. full (suc i) (omega (arith, small)) (ap mem (omega arith) ∙ z))
            (ap mem (omega arith) ∙ end)
            (λ k lt. ap mem (omega arith) ∙ all (suc k) (omega (arith, lt)) ∙ ap mem (omega arith)))

memcmp_from_iff :
    (n : ℕ) (mem : ℕ → ℕ) (p1 p2 : ℕ)
    → ((x : ℕ) → mem x < 256)
    → (memcmp_from n mem p1 p2 ≡ pos 0) ↔ ((i : ℕ) → i < n → mem (p1 + i) ≡ mem (p2 + i))
unfolding memcmp_from
memcmp_from_iff zero mem p1 p2 bytes = (λ _ i lt. absurd (omega arith), λ _. refl)
memcmp_from_iff (suc n) mem p1 p2 bytes = elim (Bool-cases (mem p1 == mem p2)) [
  | inl same ↦ (
    λ z.
        first ((==_iff (mem p1) (mem p2)).0 same)
          ((memcmp_from_iff n mem (p1 + 1) (p2 + 1) bytes).0 (rw (same, memcmp_from) at z)),
    λ all. rw (same, memcmp_from) ((memcmp_from_iff n mem (p1 + 1) (p2 + 1) bytes).1 (later all)),
  )
  | inr differ ↦ (
    λ z. absurd (
        unequal differ (
          difference_zero (mem p1) (mem p2) (bytes p1) (bytes p2) (rw (differ, memcmp_from) at z))),
    λ all.
        absurd (unequal differ (ap mem (omega arith) ∙ all 0 (omega arith) ∙ ap mem (omega arith))),
  )
]
  where
    first :
        mem p1 ≡ mem p2
        → ((i : ℕ) → i < n → mem (p1 + 1 + i) ≡ mem (p2 + 1 + i))
        → (i : ℕ) → i < suc n
        → mem (p1 + i) ≡ mem (p2 + i)
    first e rest zero lt = ap mem (omega arith) ∙ e ∙ ap mem (omega arith)
    first e rest (suc i) lt = ap mem (omega arith) ∙ rest i (omega arith) ∙ ap mem (omega arith)

    unequal : (mem p1 == mem p2) ≡ false → mem p1 ≢ mem p2
    unequal differ e = cc (differ, (==_iff (mem p1) (mem p2)).1 e)

    later :
        ((i : ℕ) → i < suc n → mem (p1 + i) ≡ mem (p2 + i))
        → (i : ℕ) → i < n
        → mem (p1 + 1 + i) ≡ mem (p2 + 1 + i)
    later all i lt = ap mem (omega arith) ∙ all (suc i) (omega arith) ∙ ap mem (omega arith)

-- memcmp() of two regions of n bytes returns 0 exactly where they hold the same bytes. The
-- pointers are not null.
pub memcmp_iff :
    (mem : ℕ → ℕ) (s1 s2 n : ℕ)
    → ((x : ℕ) → mem x < 256)
    → s1 ≢ 0
    → s2 ≢ 0
    → (memcmp mem s1 s2 n ≡ pos 0) ↔ ((i : ℕ) → i < n → mem (s1 + i) ≡ mem (s2 + i))
unfolding memcmp
memcmp_iff mem s1 s2 n bytes ne1 ne2 =
    rw (ne→== s1 0 ne1, ne→== s2 0 ne2) (memcmp_from_iff n mem s1 s2 bytes)
