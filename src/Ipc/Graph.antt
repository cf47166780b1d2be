-- ===== src/Ipc/Graph.antt =====
-- The graph of who waits to send to whom: `p` points to `d` where its status is `sending d`.
-- A walk along it ends, and within as many entries as the table has.
use native.Mathlib.Decide.{ℕ_discrete}
use kusa_os.Base.{
  ℕ, zero, suc, ◌≤◌, ◌<◌, ◌≡◌, ◌≢◌, ap, arith, Bool, true, false, ◌&&◌, leb, update, ◌∙◌, sym,
  update_eq, update_ne, count, count-le, count-lt,
}
use kusa_os.Ipc.Abstract.{Status, sending}

-- The process does not wait to send.
abbrev pub is_quiet : Status → Bool
is_quiet (sending d) = false
is_quiet _ = true

-- A chain of processes that wait to send leads from `p` to `s`.
pub data Reaches (st : ℕ → Status) (s : ℕ) : ℕ → Type 0 where
  last : {p : ℕ} → st p ≡ sending s → Reaches st s p
  step : {p d : ℕ} → st p ≡ sending d → Reaches st s d → Reaches st s p

-- The chain from `p` comes to a process that does not wait to send.
pub data Ends (st : ℕ → Status) : ℕ → Type 0 where
  stop : {p : ℕ} → is_quiet (st p) ≡ true → Ends st p
  go : {p d : ℕ} → st p ≡ sending d → Ends st d → Ends st p

-- How many entries the chain visits.
unfoldable pub visits : {st : ℕ → Status} {p : ℕ} → Ends st p → ℕ
visits (stop h) = 1
visits (go e h) = suc (visits h)

-- The same number, found by walking.
abbrev walk : (ℕ → Status) → ℕ → ℕ → ℕ
walk st zero p = 0
walk st (suc f) p = elim (st p) [ sending d ↦ suc (walk st f d) | _ ↦ 1 ]

walk-visits :
    {st : ℕ → Status} {p : ℕ} (f : ℕ) (e : Ends st p) → visits e ≤ f → walk st f p ≡ visits e
unfolding visits
walk-visits zero (stop h) le = absurd (omega arith)
walk-visits zero (go q e) le = absurd (omega arith)
walk-visits {st} {p} (suc f) (stop h) le = ground arith
walk-visits {st} {p} (suc f) (go q e) le = rw (q, walk) (ap suc (walk-visits f e (omega arith)))

-- `q` has a chain of at most `m` entries.
abbrev within : (ℕ → Status) → ℕ → ℕ → ℕ → Bool
within st f m q = leb 1 (walk st f q) && leb (walk st f q) m

within_mono : (st : ℕ → Status) (f m q : ℕ) → within st f m q ≡ true → within st f (suc m) q ≡ true
within_mono st f m q h = ground arith

-- The entries of a chain have chains of different lengths, so there are as many of them.
visits-le-count :
    {st : ℕ → Status} {p : ℕ} (n f : ℕ)
    → ((a b : ℕ) → st a ≡ sending b → b < n)
    → p < n
    → (e : Ends st p) → visits e ≤ f
    → visits e ≤ count n (within st f (visits e))
unfolding visits
visits-le-count {st} {p} n f near lt (stop h) le =
    omega (arith, count-lt (within st f 0) (within st f 1) (within_mono st f 0) n p lt first second)
  where
    here : walk st f p ≡ 1
    here = walk-visits f (stop h) le

    first : within st f 0 p ≡ false
    first = rw here

    second : within st f 1 p ≡ true
    second = rw here
visits-le-count {st} {p} n f near lt (go {d = d} q e) le = omega (
  arith,
  visits-le-count n f near (near p d q) e (omega arith),
  count-lt (within st f (visits e)) (within st f (suc (visits e))) (within_mono st f (visits e)) n p
      lt first second,
)
  where
    here : walk st f p ≡ suc (visits e)
    here = walk-visits f (go q e) le

    first : within st f (visits e) p ≡ false
    first = rw here (ground arith)

    second : within st f (suc (visits e)) p ≡ true
    second = rw here (ground arith)

-- A chain that ends visits no entry twice: it is no longer than the table.
pub visits-le :
    {st : ℕ → Status} {p : ℕ} (n : ℕ)
    → ((a b : ℕ) → st a ≡ sending b → b < n)
    → p < n
    → (e : Ends st p) → visits e ≤ n
visits-le {st} n near lt e = omega (
  arith,
  visits-le-count n (visits e) near lt e (omega arith),
  count-le n (within st (visits e) (visits e)),
)

-- A status that is replaced by one that does not send leaves every chain ending.
pub Ends-quiet :
    {st : ℕ → Status} {p : ℕ} (q : ℕ) (s : Status)
    → is_quiet s ≡ true
    → Ends st p
    → Ends (update st q s) p
Ends-quiet {st} {p} q s h (stop e) = elim (ℕ_discrete q p) [
  | yes eq ↦ stop (rw (update_eq st q p s eq) h)
  | no ne ↦ stop (rw (update_ne st q p s ne) e)
]
Ends-quiet {st} {p} q s h (go e r) = elim (ℕ_discrete q p) [
  | yes eq ↦ stop (rw (update_eq st q p s eq) h)
  | no ne ↦ go (rw (update_ne st q p s ne) e) (Ends-quiet q s h r)
]

-- So does a new edge from a process that did not send to one that no chain leads back from.
Ends-avoiding :
    {st : ℕ → Status} {p : ℕ} (s d : ℕ)
    → is_quiet (st s) ≡ true
    → p ≢ s
    → ¬ Reaches st s p
    → Ends st p
    → Ends (update st s (sending d)) p
Ends-avoiding {st} {p} s d h ne no_way (stop e) =
    stop (rw (update_ne st s p (sending d) (λ q. ne (sym q))) e)
Ends-avoiding {st} {p} s d h ne no_way (go {d = c} e r) =
    go (rw (update_ne st s p (sending d) (λ q. ne (sym q))) e)
      (Ends-avoiding s d h (λ q. no_way (last (e ∙ ap sending q))) (λ w. no_way (step e w)) r)

pub Ends-send :
    {st : ℕ → Status} {p : ℕ} (s d : ℕ)
    → is_quiet (st s) ≡ true
    → d ≢ s
    → ¬ Reaches st s d
    → Ends st d
    → Ends st p
    → Ends (update st s (sending d)) p
Ends-send {st} {p} s d h ne no_way end_d (stop e) = elim (ℕ_discrete s p) [
  | yes eq ↦ go (update_eq st s p (sending d) eq) (Ends-avoiding s d h ne no_way end_d)
  | no ne' ↦ stop (rw (update_ne st s p (sending d) ne') e)
]
Ends-send {st} {p} s d h ne no_way end_d (go e r) = elim (ℕ_discrete s p) [
  | yes eq ↦ go (update_eq st s p (sending d) eq) (Ends-avoiding s d h ne no_way end_d)
  | no ne' ↦ go (rw (update_ne st s p (sending d) ne') e) (Ends-send s d h ne no_way end_d r)
]
