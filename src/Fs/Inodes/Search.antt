-- ===== src/Fs/Inodes/Search.antt =====
-- What the loop of get_inode() finds.
use native.Mathlib.Decide.{ℕ_discrete}
use kusa_os.Base.{
  range_suc, ℕ, zero, suc, ◌+◌, ◌≤◌, ◌<◌, ◌≡◌, ◌≢◌, refl, sym, ap, ◌∙◌, ◌⊎◌, inl, inr, arith, true,
  false, Bool-cases, Option, none, some, ==_iff, ne→==,
}
use kusa_os.Fs.Inodes.{Inode, Lookup, hit, miss, holds, first_free, lookup}

abbrev pub IsHit : (ℕ → Inode) → ℕ → ℕ → ℕ → ℕ → Lookup → Type 0
IsHit table dev num p f l =
    (r : ℕ) × (l ≡ hit r)
    × (p ≤ r)
    × (r < p + f)
    × ((table r).i_cnt ≢ 0)
    × (holds (table r) dev num ≡ true)

abbrev pub IsMiss : (ℕ → Inode) → ℕ → ℕ → ℕ → ℕ → Option ℕ → Lookup → Type 0
IsMiss table dev num p f q l =
    (o : Option ℕ) × (l ≡ miss o)
    × ((i : ℕ) → p ≤ i → i < p + f → (table i).i_cnt ≢ 0 → holds (table i) dev num ≡ false)
    × ((r : ℕ) → o ≡ some r → (q ≡ some r) ⊎ ((p ≤ r) × (r < p + f) × ((table r).i_cnt ≡ 0)))
    × (o ≡ none → (q ≡ none) × ((i : ℕ) → p ≤ i → i < p + f → (table i).i_cnt ≢ 0))

first_free-some : (q : Option ℕ) (p r : ℕ) → first_free q p ≡ some r → (q ≡ some r) ⊎ (p ≡ r)
first_free-some none p r e = inr (cc e)
first_free-some (some x) p r e = inl e

first_free-not_none : (q : Option ℕ) (p : ℕ) → first_free q p ≢ none
first_free-not_none none p e = cc e
first_free-not_none (some x) p e = cc e

pub lookup-lem :
    (f : ℕ) (table : ℕ → Inode) (dev num p : ℕ) (q : Option ℕ)
    → IsHit table dev num p f (lookup f table dev num p q)
      ⊎ IsMiss table dev num p f q (lookup f table dev num p q)
unfolding lookup
lookup-lem zero table dev num p q = inr (
  q,
  refl,
  λ i le lt. absurd (omega arith),
  λ r e. inl e,
  λ e. (e, λ i le lt. absurd (omega arith)),
)
lookup-lem (suc f) table dev num p q = elim (ℕ_discrete (table p).i_cnt 0) [
  | yes unused ↦ elim (lookup-lem f table dev num (p + 1) (first_free q p)) [
    | inl (r, e, le, lt, used, found) ↦ inl (
      r,
      rw ((==_iff (table p).i_cnt 0).1 unused, lookup) e,
      omega arith,
      omega arith,
      used,
      found,
    )
    | inr (o, e, no_match, at, full) ↦ inr (
      o,
      rw ((==_iff (table p).i_cnt 0).1 unused, lookup) e,
      range_suc (λ i. (table i).i_cnt ≢ 0 → holds (table i) dev num ≡ false) p f
          (λ used. absurd (used unused)) no_match,
      λ r eq. behind r unused (at r eq),
      λ none_free. absurd (first_free-not_none q p (full none_free).0),
    )
  ]
  | no used ↦ elim (Bool-cases (holds (table p) dev num)) [
    | inl found ↦ inl (
      p,
      rw (ne→== (table p).i_cnt 0 used, found, lookup) refl,
      omega arith,
      omega arith,
      used,
      found,
    )
    | inr other ↦ elim (lookup-lem f table dev num (p + 1) q) [
      | inl (r, e, le, lt, used', found) ↦ inl (
        r,
        rw (ne→== (table p).i_cnt 0 used, other, lookup) e,
        omega arith,
        omega arith,
        used',
        found,
      )
      | inr (o, e, no_match, at, full) ↦ inr (
        o,
        rw (ne→== (table p).i_cnt 0 used, other, lookup) e,
        range_suc (λ i. (table i).i_cnt ≢ 0 → holds (table i) dev num ≡ false) p f (λ _. other)
            no_match,
        λ r eq. further r (at r eq),
        λ none_free.
            ((full none_free).0, range_suc (λ i. (table i).i_cnt ≢ 0) p f used (full none_free).1),
      )
    ]
  ]
]
  where
    further :
        (r : ℕ)
        → (q ≡ some r) ⊎ ((p + 1 ≤ r) × (r < p + 1 + f) × ((table r).i_cnt ≡ 0))
        → (q ≡ some r) ⊎ ((p ≤ r) × (r < p + suc f) × ((table r).i_cnt ≡ 0))
    further r (inl e) = inl e
    further r (inr (le, lt, z)) = inr (omega arith, omega arith, z)

    behind :
        (r : ℕ)
        → (table p).i_cnt ≡ 0
        → (first_free q p ≡ some r) ⊎ ((p + 1 ≤ r) × (r < p + 1 + f) × ((table r).i_cnt ≡ 0))
        → (q ≡ some r) ⊎ ((p ≤ r) × (r < p + suc f) × ((table r).i_cnt ≡ 0))
    behind r unused (inr rest) = further r (inr rest)
    behind r unused (inl e) = elim (first_free-some q p r e) [
      | inl same ↦ inl same
      | inr here ↦ inr (omega arith, omega arith, ap (λ i. (table i).i_cnt) (sym here) ∙ unused)
    ]
