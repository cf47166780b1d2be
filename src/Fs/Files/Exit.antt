-- ===== src/Fs/Files/Exit.antt =====
-- fs_exit() of fs/main.c: what a process that ends gives back.
use kusa_os.Base.{
  ℕ, zero, suc, ◌+◌, ◌≤◌, ◌<◌, ◌≡◌, ◌≢◌, refl, sym, ap, ◌∙◌, inl, inr, arith, ==_iff, Option, none,
  some, Option-cases, Fault, ok, err, ◌>>=◌, ◌==◌, update, update_ne, update_self, range_suc,
  if◌then◌else◌,
}
use native.Mathlib.Decide.{ℕ_discrete}
use kusa_os.Fs.Files.{Files, exit_from, fs_exit, drop, dropped, release, fewer, set_desc, set_filp}
use kusa_os.Fs.Files.Share.{
  is_at, holders, users, inode_of, IsOpen, holders-none, holders-some, users-none, users-some,
}

-- What the loop needs: each slot holds a descriptor with an inode, and no count is too low.
pub record IsHeld (f i pid : ℕ) (inode : ℕ → Option ℕ) (s : Files) : Type 0 where
  pub same : (d : ℕ) → 0 < (s.f_desc_table d).fd_cnt → (s.f_desc_table d).fd_inode ≡ inode d
  pub has_inode : IsOpen f i (s.filp pid) inode
  pub enough : (d : ℕ) → holders f i (s.filp pid) d ≤ (s.f_desc_table d).fd_cnt
  pub enough_inodes : (n : ℕ) → users f i (s.filp pid) inode n ≤ (s.inode_table n).i_cnt

-- What it leaves
pub record IsDropped (f i pid : ℕ) (inode : ℕ → Option ℕ) (s s' : Files) : Type 0 where
  pub gone : (j : ℕ) → i ≤ j → j < i + f → s'.filp pid j ≡ none
  pub before : (j : ℕ) → j < i → s'.filp pid j ≡ s.filp pid j
  pub others : (p : ℕ) → p ≢ pid → s'.filp p ≡ s.filp p
  pub counts :
      (d : ℕ) → (s'.f_desc_table d).fd_cnt + holders f i (s.filp pid) d ≡ (s.f_desc_table d).fd_cnt
  pub kept :
      (d : ℕ)
      → 0 < (s'.f_desc_table d).fd_cnt
      → (s'.f_desc_table d).fd_inode ≡ (s.f_desc_table d).fd_inode
  pub freed :
      (d : ℕ)
      → 0 < holders f i (s.filp pid) d
      → (s'.f_desc_table d).fd_cnt ≡ 0
      → (s'.f_desc_table d).fd_inode ≡ none
  pub untouched : (d : ℕ) → holders f i (s.filp pid) d ≡ 0 → s'.f_desc_table d ≡ s.f_desc_table d
  pub inodes :
      (n : ℕ) → (s'.inode_table n).i_cnt + users f i (s.filp pid) inode n ≡ (s.inode_table n).i_cnt

eqb_refl : (d : ℕ) → ◌≡◌ {A = ℕ} (if d == d then 1 else 0) 1
eqb_refl d = rw ((==_iff d d).1 refl) refl

-- After one round
abbrev after : Files → ℕ → ℕ → ℕ → ℕ → Files
after s pid i d n = record (set_desc (set_filp s pid i none) d (release (s.f_desc_table d))) {
  inode_table = fewer s.inode_table n;
}

drop-after :
    (s : Files) (pid i d n : ℕ)
    → (s.f_desc_table d).fd_inode ≡ some n
    → 0 < (s.f_desc_table d).fd_cnt
    → 0 < (s.inode_table n).i_cnt
    → drop s pid i d ≡ ok (after s pid i d n)
drop-after s pid i d n h k l =
    ap
      (λ o. elim o [
        | none ↦ err Fault.wild
        | some m ↦
            if (s.inode_table m).i_cnt == 0
            then err Fault.wild
            else dropped s pid i d (fewer s.inode_table m)
      ])
      h
    ∙ ground (arith, k, l)

module _ (s : Files) (pid i d n : ℕ) where
  after-count :
      (x : ℕ)
      → 0 < (s.f_desc_table d).fd_cnt
      → ((after s pid i d n).f_desc_table x).fd_cnt + (if d == x then 1 else 0)
        ≡ (s.f_desc_table x).fd_cnt
  after-count x h = ground arith

  after-kept :
      (x : ℕ)
      → 0 < ((after s pid i d n).f_desc_table x).fd_cnt
      → ((after s pid i d n).f_desc_table x).fd_inode ≡ (s.f_desc_table x).fd_inode
  after-kept x h = ground arith

  after-freed :
      0 < (s.f_desc_table d).fd_cnt
      → ((after s pid i d n).f_desc_table d).fd_cnt ≡ 0
      → ((after s pid i d n).f_desc_table d).fd_inode ≡ none
  after-freed k h = ground arith

  after-inode :
      (m : ℕ)
      → 0 < (s.inode_table n).i_cnt
      → ((after s pid i d n).inode_table m).i_cnt + (if n == m then 1 else 0)
        ≡ (s.inode_table m).i_cnt
  after-inode m h = ground arith

  after-slots : (j : ℕ) → j ≢ i → (after s pid i d n).filp pid j ≡ s.filp pid j
  after-slots j h =
      ap (λ t. t j) (update_self s.filp pid (update (s.filp pid) i none))
      ∙ update_ne (s.filp pid) i j none (λ e. h (sym e))

  after-empty : (after s pid i d n).filp pid i ≡ none
  after-empty =
      ap (λ t. t i) (update_self s.filp pid (update (s.filp pid) i none))
      ∙ update_self (s.filp pid) i none

  after-others : (p : ℕ) → p ≢ pid → (after s pid i d n).filp p ≡ s.filp p
  after-others p h = update_ne s.filp pid p (update (s.filp pid) i none) (λ e. h (sym e))

holders_same :
    (f i : ℕ) (slots slots' : ℕ → Option ℕ) (d : ℕ)
    → ((j : ℕ) → i ≤ j → slots' j ≡ slots j)
    → holders f i slots' d ≡ holders f i slots d
unfolding holders
holders_same zero i slots slots' d h = refl
holders_same (suc f) i slots slots' d h =
    ap (λ o. (if is_at o d then 1 else 0) + holders f (i + 1) slots' d) (h i (omega arith))
    ∙ ap (λ k. (if is_at (slots i) d then 1 else 0) + k)
        (holders_same f (i + 1) slots slots' d λ j le. h j (omega arith))

users_same :
    (f i : ℕ) (slots slots' inode : ℕ → Option ℕ) (n : ℕ)
    → ((j : ℕ) → i ≤ j → slots' j ≡ slots j)
    → users f i slots' inode n ≡ users f i slots inode n
unfolding users
users_same zero i slots slots' inode n h = refl
users_same (suc f) i slots slots' inode n h =
    ap (λ o. (if is_at (inode_of inode o) n then 1 else 0) + users f (i + 1) slots' inode n)
      (h i (omega arith))
    ∙ ap (λ k. (if is_at (inode_of inode (slots i)) n then 1 else 0) + k)
        (users_same f (i + 1) slots slots' inode n λ j le. h j (omega arith))

exit_from-after :
    (f i pid d n : ℕ) (s : Files)
    → s.filp pid i ≡ some d
    → (s.f_desc_table d).fd_inode ≡ some n
    → 0 < (s.f_desc_table d).fd_cnt
    → 0 < (s.inode_table n).i_cnt
    → exit_from (suc f) i s pid ≡ exit_from f (i + 1) (after s pid i d n) pid
unfolding exit_from
exit_from-after f i pid d n s h k l m =
    rw (h, exit_from)
      (ap (λ r. r >>= λ t. exit_from f (i + 1) t pid) (drop-after s pid i d n k l m))

exit_from-none :
    (f i pid : ℕ) (s : Files)
    → s.filp pid i ≡ none
    → exit_from (suc f) i s pid ≡ exit_from f (i + 1) s pid
unfolding exit_from
exit_from-none f i pid s h = rw (h, exit_from) refl

module _ (f i pid : ℕ) (inode : ℕ → Option ℕ) (s s' : Files) where
  -- A round for an empty slot
  none-IsDropped :
      s.filp pid i ≡ none → IsDropped f (i + 1) pid inode s s' → IsDropped (suc f) i pid inode s s'
  none-IsDropped e at = record {
    gone = range_suc (λ j. s'.filp pid j ≡ none) i f (at.before i (omega arith) ∙ e) at.gone;
    before = λ j lt. at.before j (omega arith);
    others = at.others;
    counts = λ d.
        ap (λ k. (s'.f_desc_table d).fd_cnt + k) (holders-none f i (s.filp pid) d e) ∙ at.counts d;
    kept = at.kept;
    freed = λ d lt. at.freed d (omega (arith, holders-none f i (s.filp pid) d e));
    untouched = λ d eq. at.untouched d (sym (holders-none f i (s.filp pid) d e) ∙ eq);
    inodes = λ n.
        ap (λ k. (s'.inode_table n).i_cnt + k) (users-none f i (s.filp pid) inode n e)
        ∙ at.inodes n;
  }

module _ (f i pid d n : ℕ) (inode : ℕ → Option ℕ) (s : Files) (h : IsHeld (suc f) i pid inode s)
    (e : s.filp pid i ≡ some d) (k : inode d ≡ some n) where
  a : Files
  a = after s pid i d n

  positive : 0 < (s.f_desc_table d).fd_cnt
  positive = omega (arith, h.enough d, holders-some f i (s.filp pid) d d e, eqb_refl d)

  inode_positive : 0 < (s.inode_table n).i_cnt
  inode_positive =
      omega (arith, h.enough_inodes n, users-some f i (s.filp pid) inode n d n e k, eqb_refl n)

  rest : (x : ℕ) → holders f (i + 1) (a.filp pid) x ≡ holders f (i + 1) (s.filp pid) x
  unfolding a
  rest x =
      holders_same f (i + 1) (s.filp pid) (a.filp pid) x
        λ j le. after-slots s pid i d n j (omega arith)

  rest_users : (m : ℕ) → users f (i + 1) (a.filp pid) inode m ≡ users f (i + 1) (s.filp pid) inode m
  unfolding a
  rest_users m =
      users_same f (i + 1) (s.filp pid) (a.filp pid) inode m
        λ j le. after-slots s pid i d n j (omega arith)

  only :
      (x : ℕ) → 0 < holders (suc f) i (s.filp pid) x → holders f (i + 1) (s.filp pid) x ≡ 0 → d ≡ x
  only x lt q = ground (arith, lt, q, holders-some f i (s.filp pid) x d e)

  after-IsHeld : IsHeld f (i + 1) pid inode a
  unfolding a IsOpen
  after-IsHeld = record {
    same = λ x lt.
        after-kept s pid i d n x lt ∙ h.same x (omega (arith, after-count s pid i d n x positive));
    has_inode = λ j x le lt eq.
        h.has_inode j x (omega arith) (omega arith)
          (sym (after-slots s pid i d n j (omega arith)) ∙ eq);
    enough = λ x. omega (
      arith,
      rest x,
      h.enough x,
      holders-some f i (s.filp pid) x d e,
      after-count s pid i d n x positive,
    );
    enough_inodes = λ m. omega (
      arith,
      rest_users m,
      h.enough_inodes m,
      users-some f i (s.filp pid) inode m d n e k,
      after-inode s pid i d n m inode_positive,
    );
  }

  some-IsDropped :
      (s' : Files) → IsDropped f (i + 1) pid inode a s' → IsDropped (suc f) i pid inode s s'
  unfolding a
  some-IsDropped s' at = record {
    gone =
        range_suc (λ j. s'.filp pid j ≡ none) i f
          (at.before i (omega arith) ∙ after-empty s pid i d n) at.gone;
    before = λ j lt. at.before j (omega arith) ∙ after-slots s pid i d n j (omega arith);
    others = λ p ne. at.others p ne ∙ after-others s pid i d n p ne;
    counts = λ x. omega (
      arith,
      at.counts x,
      rest x,
      holders-some f i (s.filp pid) x d e,
      after-count s pid i d n x positive,
    );
    kept = λ x lt. at.kept x lt ∙ after-kept s pid i d n x (omega (arith, at.counts x));
    freed = λ x lt zero_left. elim (ℕ_discrete (holders f (i + 1) (s.filp pid) x) 0) [
      | yes q ↦
          ap (λ t. t.fd_inode) (at.untouched x (rest x ∙ q))
          ∙ ap (λ y. (a.f_desc_table y).fd_inode) (sym (only x lt q))
          ∙ after-freed s pid i d n positive (
              ap (λ y. (a.f_desc_table y).fd_cnt) (only x lt q)
              ∙ ap (λ t. t.fd_cnt) (sym (at.untouched x (rest x ∙ q)))
              ∙ zero_left)
      | no q ↦ at.freed x (omega (arith, rest x, q)) zero_left
    ];
    untouched = λ x eq.
        at.untouched x (omega (arith, rest x, eq, holders-some f i (s.filp pid) x d e))
        ∙ update_ne s.f_desc_table d x (release (s.f_desc_table d))
            (λ q. ground (arith, q, eq, holders-some f i (s.filp pid) x d e));
    inodes = λ m. omega (
      arith,
      at.inodes m,
      rest_users m,
      users-some f i (s.filp pid) inode m d n e k,
      after-inode s pid i d n m inode_positive,
    );
  }

none-IsHeld :
    (f i pid : ℕ) (inode : ℕ → Option ℕ) (s : Files)
    → s.filp pid i ≡ none
    → IsHeld (suc f) i pid inode s
    → IsHeld f (i + 1) pid inode s
unfolding IsOpen
none-IsHeld f i pid inode s e h = record {
  same = h.same;
  has_inode = λ j d le lt. h.has_inode j d (omega arith) (omega arith);
  enough = λ d. omega (arith, h.enough d, holders-none f i (s.filp pid) d e);
  enough_inodes = λ n. omega (arith, h.enough_inodes n, users-none f i (s.filp pid) inode n e);
}

exit_from-IsDropped :
    (f i pid : ℕ) (inode : ℕ → Option ℕ) (s : Files)
    → IsHeld f i pid inode s
    → (s' : Files) × (exit_from f i s pid ≡ ok s') × IsDropped f i pid inode s s'
unfolding exit_from holders users IsOpen a
exit_from-IsDropped zero i pid inode s h = (
  s,
  refl,
  record {
    gone = λ j le lt. ground (arith, le, lt);
    before = λ j lt. refl;
    others = λ p ne. refl;
    counts = λ d. omega arith;
    kept = λ d lt. refl;
    freed = λ d lt. elim lt [ ];
    untouched = λ d e. refl;
    inodes = λ n. omega arith;
  },
)
exit_from-IsDropped (suc f) i pid inode s h = elim (Option-cases (s.filp pid i)) [
  | inl e ↦
      let (s', returns, at) =
        exit_from-IsDropped f (i + 1) pid inode s (none-IsHeld f i pid inode s e h) in
      (s', exit_from-none f i pid s e ∙ returns, none-IsDropped f i pid inode s s' e at)
  | inr (d, e) ↦
      let (n, k) = h.has_inode i d (omega arith) (omega arith) e in
      let held = after-IsHeld f i pid d n inode s h e k in
      let (s', returns, at) = exit_from-IsDropped f (i + 1) pid inode (after s pid i d n) held in
      (
        s',
        exit_from-after f i pid d n s e (h.same d (positive f i pid d n inode s h e k) ∙ k)
              (positive f i pid d n inode s h e k) (inode_positive f i pid d n inode s h e k)
            ∙ returns,
        some-IsDropped f i pid d n inode s h e k s' at,
      )
]

-- A process that ends gives back its files: where each of its slots holds a descriptor with an
-- inode, and the counts of descriptors and inodes are not below the number of its slots, fs_exit()
-- returns. Its slots are empty, those of the others are as they were, each count is lower by the
-- number of its slots, and a descriptor that it was the last to hold has no inode any more.
pub fs_exit-IsDropped :
    (s : Files) (pid : ℕ) (inode : ℕ → Option ℕ)
    → IsHeld 64 0 pid inode s
    → (s' : Files) × (fs_exit s pid ≡ ok s') × IsDropped 64 0 pid inode s s'
unfolding fs_exit
fs_exit-IsDropped s pid inode h = exit_from-IsDropped 64 0 pid inode s h
