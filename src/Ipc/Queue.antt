-- ===== src/Ipc/Queue.antt =====
-- A sending queue: the list of pids that the links of the table spell.
use native.Mathlib.Decide.{ℕ_discrete}
use mathlib.Core.Path.{subst}
use kusa_os.Base.{
  ℕ, suc, ◌≤◌, ◌<◌, ◌≡◌, ◌≢◌, refl, sym, ◌∙◌, ◌⊎◌, inl, inr, arith, Bool, true, false, ◌||◌, ◌==◌,
  ==_iff, ne→==, Bool-cases, List, [], ◌∷◌, ◌++◌, Option, none, some, count, count-le, count-lt,
  if◌then◌else◌,
}
use kusa_os.Ipc.Abstract.{erase, In, IsDistinct}

-- From the link `ptr` the links `next` pass the entries of the list, and end.
abbrev pub Chain : (ℕ → Option ℕ) → Option ℕ → List ℕ → Type 0
Chain next ptr [] = ptr ≡ none
Chain next ptr (p ∷ ps) = (ptr ≡ some p) × Chain next (next p) ps

abbrev pub last_entry : ℕ → List ℕ → ℕ
last_entry p [] = p
last_entry p (q ∷ qs) = last_entry q qs

abbrev pub length : List ℕ → ℕ
length [] = 0
length (x ∷ xs) = suc (length xs)

-- The entry before `src` in the list, `prev` if it is the first.
abbrev pub before : ℕ → Option ℕ → List ℕ → Option ℕ
before src prev [] = prev
before src prev (x ∷ xs) = if x == src then prev else before src (some x) xs

pub last_entry-In : (p : ℕ) (ps : List ℕ) → In (last_entry p ps) (p ∷ ps)
last_entry-In p [] = inl refl
last_entry-In p (q ∷ qs) = inr (last_entry-In q qs)

pub some_inj : {a b : ℕ} → some a ≡ some b → a ≡ b
some_inj e = cc

pub In-subst : (xs : List ℕ) {x y : ℕ} → x ≡ y → In x xs → In y xs
In-subst xs e i = subst (λ y. In y xs) e i

pub before_here :
    (src q : ℕ) (prev : Option ℕ) (qs : List ℕ) → q ≡ src → before src prev (q ∷ qs) ≡ prev
before_here src q prev qs e = rw ((==_iff q src).1 e)

pub before_later :
    (src q : ℕ) (prev : Option ℕ) (qs : List ℕ)
    → q ≢ src
    → before src prev (q ∷ qs) ≡ before src (some q) qs
before_later src q prev qs e = rw (ne→== q src e)

pub erase_here : (src q : ℕ) (qs : List ℕ) → q ≡ src → erase src (q ∷ qs) ≡ qs
erase_here src q qs e = rw ((==_iff q src).1 e)

pub erase_later : (src q : ℕ) (qs : List ℕ) → q ≢ src → erase src (q ∷ qs) ≡ q ∷ erase src qs
erase_later src q qs e = rw (ne→== q src e)

pub In-tail : {src q : ℕ} (qs : List ℕ) → q ≢ src → In src (q ∷ qs) → In src qs
In-tail qs ne (inl e) = absurd (ne (sym e))
In-tail qs ne (inr i) = i

pub before-In : (src q x : ℕ) (qs : List ℕ) → before src (some q) qs ≡ some x → In x (q ∷ qs)
before-In src q x [] e = inl (sym (some_inj e))
before-In src q x (r ∷ rs) e = elim (ℕ_discrete r src) [
  | yes h ↦ inl (sym (some_inj (sym (before_here src r (some q) rs h) ∙ e)))
  | no h ↦ inr (before-In src r x rs (sym (before_later src r (some q) rs h) ∙ e))
]

module _ (next next' : ℕ → Option ℕ) where
  -- Links that change outside the list leave the chain alone.
  pub Chain-frame :
      (ptr : Option ℕ) (ps : List ℕ)
      → ((x : ℕ) → In x ps → next' x ≡ next x)
      → Chain next ptr ps
      → Chain next' ptr ps
  Chain-frame ptr [] same c = c
  Chain-frame ptr (p ∷ ps) same c =
      (c.0, rw (same p (inl refl)) (Chain-frame (next p) ps (λ x i. same x (inr i)) c.1))

  -- Appending: the last entry links to the new one, whose own link is cleared.
  pub Chain-append :
      (ptr : Option ℕ) (s p : ℕ) (ps : List ℕ)
      → IsDistinct (p ∷ ps)
      → ((x : ℕ) → In x (p ∷ ps) → x ≢ last_entry p ps → next' x ≡ next x)
      → next' (last_entry p ps) ≡ some s
      → next' s ≡ none
      → Chain next ptr (p ∷ ps)
      → Chain next' ptr (p ∷ (ps ++ (s ∷ [])))
  Chain-append ptr s p [] d same at_last at_s c = (c.0, (at_last, at_s))
  Chain-append ptr s p (q ∷ qs) d same at_last at_s c = (
    c.0,
    rw (same p (inl refl) (λ e. d.0 (subst_In e)))
        (Chain-append (next p) s q qs d.1 (λ x i. same x (inr i)) at_last at_s c.1),
  )
    where
      subst_In : p ≡ last_entry q qs → In p (q ∷ qs)
      subst_In e = In-subst (q ∷ qs) (sym e) (last_entry-In q qs)

  -- Taking `src` out: the entry before it takes over its link.
  pub Chain-erase :
      (ptr : Option ℕ) (src p : ℕ) (ps : List ℕ)
      → IsDistinct (p ∷ ps)
      → p ≢ src
      → In src ps
      → ((x : ℕ) → In x (p ∷ ps) → some x ≢ before src (some p) ps → x ≢ src → next' x ≡ next x)
      → ((q : ℕ) → before src (some p) ps ≡ some q → next' q ≡ next src)
      → Chain next ptr (p ∷ ps)
      → Chain next' ptr (p ∷ erase src ps)
  Chain-erase ptr src p [] d ne i same at_prev c = absurd i
  Chain-erase ptr src p (q ∷ qs) d ne i same at_prev c = elim (ℕ_discrete q src) [
    | yes e ↦ rw (erase_here src q qs e) (
      c.0,
      rw (at_prev p (before_here src q (some p) qs e), ← e)
          (Chain-frame (next q) qs (λ x ix. same x (inr (inr ix)) (apart e x ix) (behind e x ix))
            c.1.1),
    )
    | no ne' ↦ rw (erase_later src q qs ne') (
      c.0,
      rw (same p (inl refl) (early ne') ne) (
          Chain-erase (next p) src q qs d.1 ne' (In-tail qs ne' i)
            (λ x ix nb. same x (inr ix) (rw (before_later src q (some p) qs ne') nb))
            (λ x e. at_prev x (rw (before_later src q (some p) qs ne') e)) c.1),
    )
  ]
    where
      behind : q ≡ src → (x : ℕ) → In x qs → x ≢ src
      behind e x ix es = d.1.0 (In-subst qs (es ∙ sym e) ix)

      apart : q ≡ src → (x : ℕ) → In x qs → some x ≢ before src (some p) (q ∷ qs)
      apart e x ix eb = d.0 (inr (In-subst qs (some_inj (eb ∙ before_here src q (some p) qs e)) ix))

      early : q ≢ src → some p ≢ before src (some p) (q ∷ qs)
      early ne' eb = d.0 (before-In src q p qs (sym (eb ∙ before_later src q (some p) qs ne')))

in_list : List ℕ → ℕ → Bool
in_list [] q = false
in_list (x ∷ xs) q = x == q || in_list xs q

in_list_sound : (xs : List ℕ) (q : ℕ) → in_list xs q ≡ true → In q xs
unfolding in_list
in_list_sound [] q h = cc
in_list_sound (x ∷ xs) q h = ground (arith, in_list_sound xs q)

in_list_rest : (x : ℕ) (xs : List ℕ) (q : ℕ) → in_list xs q ≡ true → in_list (x ∷ xs) q ≡ true
unfolding in_list
in_list_rest x xs q h = ground arith

in_list_self : (x : ℕ) (xs : List ℕ) → in_list (x ∷ xs) x ≡ true
unfolding in_list
in_list_self x xs = rw ((==_iff x x).1 refl)

in_list_not : (x : ℕ) (xs : List ℕ) → ¬ In x xs → in_list xs x ≡ false
in_list_not x xs out = elim (Bool-cases (in_list xs x)) [
  | inl h ↦ absurd (out (in_list_sound xs x h))
  | inr h ↦ h
]

len-le-count :
    (n : ℕ) (xs : List ℕ)
    → ((x : ℕ) → In x xs → x < n)
    → IsDistinct xs
    → length xs ≤ count n (in_list xs)
len-le-count n [] near d = omega arith
len-le-count n (x ∷ xs) near d = omega (
  arith,
  len-le-count n xs (λ y i. near y (inr i)) d.1,
  count-lt (in_list xs) (in_list (x ∷ xs)) (in_list_rest x xs) n x (near x (inl refl))
      (in_list_not x xs d.0) (in_list_self x xs),
)

-- A list of different entries is no longer than the table.
pub length-le : (n : ℕ) (xs : List ℕ) → ((x : ℕ) → In x xs → x < n) → IsDistinct xs → length xs ≤ n
length-le n xs near d = omega (arith, len-le-count n xs near d, count-le n (in_list xs))

pub In-append : (xs : List ℕ) (y s : ℕ) → In y (xs ++ (s ∷ [])) → In y xs ⊎ (y ≡ s)
In-append [] y s (inl e) = inr e
In-append [] y s (inr i) = absurd i
In-append (x ∷ xs) y s (inl e) = inl (inl e)
In-append (x ∷ xs) y s (inr i) = elim (In-append xs y s i) [ inl j ↦ inl (inr j) | inr e ↦ inr e ]

pub In-append_left : (xs : List ℕ) (y s : ℕ) → In y xs → In y (xs ++ (s ∷ []))
In-append_left (x ∷ xs) y s (inl e) = inl e
In-append_left (x ∷ xs) y s (inr i) = inr (In-append_left xs y s i)
In-append_left [] y s i = absurd i

pub In-append_last : (xs : List ℕ) (s : ℕ) → In s (xs ++ (s ∷ []))
In-append_last [] s = inl refl
In-append_last (x ∷ xs) s = inr (In-append_last xs s)

pub IsDistinct-append :
    (xs : List ℕ) (s : ℕ) → IsDistinct xs → ¬ In s xs → IsDistinct (xs ++ (s ∷ []))
IsDistinct-append [] s d out = ((λ i. i), tt)
IsDistinct-append (x ∷ xs) s d out = (
  λ i. elim (In-append xs x s i) [ inl j ↦ d.0 j | inr e ↦ out (inl (sym e)) ],
  IsDistinct-append xs s d.1 (λ i. out (inr i)),
)

-- In front of `src`, which is not the first, stands an entry that is not `src`.
pub before-ne :
    (src p : ℕ) (ps : List ℕ) → p ≢ src → (l : ℕ) × (before src (some p) ps ≡ some l) × (l ≢ src)
before-ne src p [] ne = (p, refl, ne)
before-ne src p (q ∷ qs) ne = elim (ℕ_discrete q src) [
  | yes e ↦ (p, before_here src q (some p) qs e, ne)
  | no ne' ↦
      let (l, e, ne_l) = before-ne src q qs ne' in (l, before_later src q (some p) qs ne' ∙ e, ne_l)
]

pub In-erase : (src y : ℕ) (xs : List ℕ) → In y (erase src xs) → In y xs
In-erase src y [] i = i
In-erase src y (x ∷ xs) i = elim (ℕ_discrete x src) [
  | yes e ↦ inr (subst (In y) (erase_here src x xs e) i)
  | no ne ↦ elim (In-cons (subst (In y) (erase_later src x xs ne) i)) [
    | inl e ↦ inl e
    | inr j ↦ inr (In-erase src y xs j)
  ]
]
  where
    In-cons : In y (x ∷ erase src xs) → (y ≡ x) ⊎ In y (erase src xs)
    In-cons j = j

pub erase-In : (src y : ℕ) (xs : List ℕ) → y ≢ src → In y xs → In y (erase src xs)
erase-In src y [] ne i = i
erase-In src y (x ∷ xs) ne (inl q) = elim (ℕ_discrete x src) [
  | yes e ↦ absurd (ne (q ∙ e))
  | no ne' ↦ subst (In y) (sym (erase_later src x xs ne')) (inl q)
]
erase-In src y (x ∷ xs) ne (inr j) = elim (ℕ_discrete x src) [
  | yes e ↦ subst (In y) (sym (erase_here src x xs e)) j
  | no ne' ↦ subst (In y) (sym (erase_later src x xs ne')) (inr (erase-In src y xs ne j))
]

pub IsDistinct-erase : (src : ℕ) (xs : List ℕ) → IsDistinct xs → IsDistinct (erase src xs)
IsDistinct-erase src [] d = d
IsDistinct-erase src (x ∷ xs) d = elim (ℕ_discrete x src) [
  | yes e ↦ subst IsDistinct (sym (erase_here src x xs e)) d.1
  | no ne ↦
      subst IsDistinct (sym (erase_later src x xs ne))
        ((λ i. d.0 (In-erase src x xs i)), IsDistinct-erase src xs d.1)
]

pub not-In-erase : (src : ℕ) (xs : List ℕ) → IsDistinct xs → ¬ In src (erase src xs)
not-In-erase src [] d i = i
not-In-erase src (x ∷ xs) d i = elim (ℕ_discrete x src) [
  | yes e ↦ d.0 (In-subst xs (sym e) (subst (In src) (erase_here src x xs e) i))
  | no ne ↦
      not-In-erase src xs d.1
        (In-tail (erase src xs) ne (subst (In src) (erase_later src x xs ne) i))
]
