-- ===== src/Fs/Directory/Removed.antt =====
-- do_unlink() of fs/link.c: the directory after a file is taken out of it.
use kusa_os.Base.{
  ℕ, zero, suc, ◌+◌, ◌*◌, ◌≤◌, ◌<◌, ◌≡◌, ◌≢◌, inl, inr, refl, ap, ◌∙◌, arith, Bool-cases, false,
  ltb, ◌==◌, ==_iff, ne→==, if◌then◌else◌,
}
use kusa_os.Kernel.Memory.{load_int, load_int-same}
use kusa_os.Fs.Directory.Remove.{hit, on, grown_by, remove_in}

-- The number of the entries in use, of `n` from `at` on
unfoldable pub used : (ℕ → ℕ) → ℕ → ℕ → ℕ
used mem at zero = 0
used mem at (suc n) = (if load_int mem at == 0 then 0 else 1) + used mem (at + 16) n

within : (n m : ℕ) → m < n → ltb n (m + 1) ≡ false
within n m lt = ground (arith, lt)

hit-same :
    (p p' m m' size size' : ℕ) → p ≡ p' → m ≡ m' → size ≡ size' → hit p m size ≡ hit p' m' size'
hit-same p p' m m' size size' e q r i = hit (e i) (q i) (r i)

on-same : (m m' size size' : ℕ) → m ≡ m' → size ≡ size' → on m size ≡ on m' size'
on-same m m' size size' e q i = on (e i) (q i)

-- One entry with another inode number
pass :
    (f : ℕ) (mem : ℕ → ℕ) (p m n nr size : ℕ)
    → m < n
    → load_int mem p ≢ nr
    → remove_in (suc f) mem p m n nr size
      ≡ remove_in f mem (p + 16) (m + 1) n nr (grown_by mem p size)
unfolding remove_in
pass f mem p m n nr size inside ne =
    rw (within n m inside, ne→== (load_int mem p) nr ne, remove_in) refl

grows :
    (mem : ℕ → ℕ) (p size k : ℕ)
    → grown_by mem p size + 16 * k ≡ size + 16 * ((if load_int mem p == 0 then 0 else 1) + k)
grows mem p size k = elim (Bool-cases (load_int mem p == 0)) [
  | inl e ↦ rw e (omega arith)
  | inr e ↦ rw e (omega arith)
]

-- The entry `d` of the rest of a sector is the first with the inode number.
pub remove_in-hit :
    (d f : ℕ) (mem : ℕ → ℕ) (p m n nr size : ℕ)
    → d < f
    → m + d < n
    → load_int mem (p + 16 * d) ≡ nr
    → ((c : ℕ) → c < d → load_int mem (p + 16 * c) ≢ nr)
    → remove_in f mem p m n nr size ≡ hit (p + 16 * d) (m + d + 1) (size + 16 * used mem p d)
unfolding remove_in used
remove_in-hit d zero mem p m n nr size lt inside here before = elim lt [ ]
remove_in-hit zero (suc f) mem p m n nr size lt inside here before =
    rw
      (
        within n m (omega (arith, inside)),
        (==_iff (load_int mem p) nr).1
            (ap (load_int mem) {x = p} {y = p + 16 * 0} (omega arith) ∙ here),
        remove_in,
      )
      (hit-same p (p + 0) (m + 1) (m + 0 + 1) size (size + 0) (omega arith) (omega arith)
        (omega arith))
remove_in-hit (suc d) (suc f) mem p m n nr size lt inside here before =
    pass f mem p m n nr size (omega (arith, inside))
      (λ e. before 0 (omega arith) (ap (load_int mem) {x = p + 16 * 0} {y = p} (omega arith) ∙ e))
    ∙ remove_in-hit d f mem (p + 16) (m + 1) n nr (grown_by mem p size) (omega arith)
        (omega (arith, inside))
        (ap (load_int mem) {x = p + 16 + 16 * d} {y = p + 16 * suc d} (omega arith) ∙ here)
        (λ c small e.
          before (suc c) (omega (arith, small))
            (ap (load_int mem) {x = p + 16 * suc c} {y = p + 16 + 16 * c} (omega arith) ∙ e))
    ∙ hit-same (p + 16 + 16 * d) (p + 16 * suc d) (m + 1 + d + 1) (m + suc d + 1) _ _ (omega arith)
        (omega arith) (grows mem p size (used mem (p + 16) d))

-- A sector without the inode number
pub remove_in-on :
    (f : ℕ) (mem : ℕ → ℕ) (p m n nr size : ℕ)
    → m + f ≤ n
    → ((c : ℕ) → c < f → load_int mem (p + 16 * c) ≢ nr)
    → remove_in f mem p m n nr size ≡ on (m + f) (size + 16 * used mem p f)
unfolding remove_in used
remove_in-on zero mem p m n nr size inside before =
    on-same m (m + 0) size (size + 0) (omega arith) (omega arith)
remove_in-on (suc f) mem p m n nr size inside before =
    pass f mem p m n nr size (omega (arith, inside))
      (λ e. before 0 (omega arith) (ap (load_int mem) {x = p + 16 * 0} {y = p} (omega arith) ∙ e))
    ∙ remove_in-on f mem (p + 16) (m + 1) n nr (grown_by mem p size) (omega (arith, inside))
        (λ c small e.
          before (suc c) (omega (arith, small))
            (ap (load_int mem) {x = p + 16 * suc c} {y = p + 16 + 16 * c} (omega arith) ∙ e))
    ∙ on-same (m + 1 + f) (m + suc f) _ _ (omega arith) (grows mem p size (used mem (p + 16) f))

pub used-same :
    (k : ℕ) (f g : ℕ → ℕ) (a b : ℕ)
    → ((x : ℕ) → x < 16 * k → f (a + x) ≡ g (b + x))
    → used f a k ≡ used g b k
unfolding used
used-same zero f g a b same = refl
used-same (suc k) f g a b same =
    ap (λ v. (if v == 0 then 0 else 1) + used f (a + 16) k)
      (load_int-same f g a b (λ x lt. same x (omega (arith, lt))))
    ∙ ap (λ u. (if load_int g b == 0 then 0 else 1) + u)
        (used-same k f g (a + 16) (b + 16) (λ x lt.
          ap f {x = a + 16 + x} {y = a + (16 + x)} (omega arith)
          ∙ same (16 + x) (omega (arith, lt))
          ∙ ap g {x = b + (16 + x)} {y = b + 16 + x} (omega arith)))

pub used-append :
    (k j : ℕ) (f : ℕ → ℕ) (a : ℕ) → used f a (k + j) ≡ used f a k + used f (a + 16 * k) j
unfolding used
used-append zero j f a =
    ap (used f a) {x = 0 + j} {y = j} (omega arith)
    ∙ ap (λ x. used f x j) {x = a} {y = a + 16 * 0} (omega arith)
    ∙ omega arith
used-append (suc k) j f a =
    ap (used f a) {x = suc k + j} {y = suc (k + j)} (omega arith)
    ∙ ap (λ u. (if load_int f a == 0 then 0 else 1) + u)
        (used-append k j f (a + 16)
          ∙ ap (λ x. used f (a + 16) k + used f x j) {x = a + 16 + 16 * k} {y = a + 16 * suc k}
              (omega arith))
    ∙ omega arith
