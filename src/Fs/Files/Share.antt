-- ===== src/Fs/Files/Share.antt =====
-- fs_fork() of fs/main.c: the counts of descriptors and inodes.
use kusa_os.Base.{
  ℕ, zero, suc, ◌+◌, ◌≤◌, ◌<◌, ◌≡◌, refl, sym, ap, ◌∙◌, inl, inr, arith, Bool, Bool-cases, ==_iff,
  false, Option, none, some, Option-cases, Fault, ok, err, ◌>>=◌, ◌==◌, update, if◌then◌else◌,
}
use kusa_os.Fs.Inodes.{Inode}
use kusa_os.Fs.Files.{Files, FileDesc, fork_from, fs_fork, share, more, set_desc}

abbrev pub is_at : Option ℕ → ℕ → Bool
is_at none d = false
is_at (some e) d = e == d

-- How many of `f` slots from `i` on hold the descriptor `d`
unfoldable pub holders : ℕ → ℕ → (ℕ → Option ℕ) → ℕ → ℕ
holders zero i slots d = 0
holders (suc f) i slots d = (if is_at (slots i) d then 1 else 0) + holders f (i + 1) slots d

-- The inode of a slot, where `inode d` is the inode of the descriptor `d`
abbrev pub inode_of : (ℕ → Option ℕ) → Option ℕ → Option ℕ
inode_of inode none = none
inode_of inode (some d) = inode d

-- How many of `f` slots from `i` on have the inode `n` open
unfoldable pub users : ℕ → ℕ → (ℕ → Option ℕ) → (ℕ → Option ℕ) → ℕ → ℕ
users zero i slots inode n = 0
users (suc f) i slots inode n =
    (if is_at (inode_of inode (slots i)) n then 1 else 0) + users f (i + 1) slots inode n

-- The first slot empty, or with the descriptor `e` of the inode `n`
module _ (f i : ℕ) (slots : ℕ → Option ℕ) where
  pub holders-none :
      (d : ℕ) → slots i ≡ none → holders (suc f) i slots d ≡ holders f (i + 1) slots d
  unfolding holders
  holders-none d h = rw (h, holders) (omega arith)

  pub holders-some :
      (d e : ℕ)
      → slots i ≡ some e
      → (if e == d then 1 else 0) + holders f (i + 1) slots d ≡ holders (suc f) i slots d
  unfolding holders
  holders-some d e h = rw (h, holders) refl

  pub users-none :
      (inode : ℕ → Option ℕ) (m : ℕ)
      → slots i ≡ none
      → users (suc f) i slots inode m ≡ users f (i + 1) slots inode m
  unfolding users
  users-none inode m h = rw (h, users) (omega arith)

  pub users-some :
      (inode : ℕ → Option ℕ) (m e n : ℕ)
      → slots i ≡ some e
      → inode e ≡ some n
      → (if n == m then 1 else 0) + users f (i + 1) slots inode m ≡ users (suc f) i slots inode m
  unfolding users
  users-some inode m e n h k = rw (h, k, users) refl

-- What the loop leaves: the slots, and each count higher by the number of slots
pub record IsShared (f i pid : ℕ) (inode : ℕ → Option ℕ) (s s' : Files) : Type 0 where
  pub filp : s'.filp ≡ s.filp
  pub descs :
      (d : ℕ)
      → s'.f_desc_table d ≡ record (s.f_desc_table d) {
        fd_cnt = (s.f_desc_table d).fd_cnt + holders f i (s.filp pid) d;
      }
  pub inodes :
      (n : ℕ)
      → s'.inode_table n ≡ record (s.inode_table n) {
        i_cnt = (s.inode_table n).i_cnt + users f i (s.filp pid) inode n;
      }

-- The descriptors in `f` slots from `i` on have an inode.
unfoldable pub IsOpen : ℕ → ℕ → (ℕ → Option ℕ) → (ℕ → Option ℕ) → Type 0
IsOpen f i slots inode =
    (j d : ℕ) → i ≤ j → j < i + f → slots j ≡ some d → (n : ℕ) × (inode d ≡ some n)

-- The count of a descriptor, and of an inode
abbrev pub raised : FileDesc → ℕ → FileDesc
raised desc k = record desc { fd_cnt = desc.fd_cnt + k }

abbrev pub counted : Inode → ℕ → Inode
counted inode k = record inode { i_cnt = inode.i_cnt + k }

raised_two : (desc : FileDesc) (j k l : ℕ) → j + k ≡ l → raised (raised desc j) k ≡ raised desc l
raised_two desc j k l e = ap (λ c. record desc { fd_cnt = c }) (omega (arith, e))

counted_two :
    (inode : Inode) (j k l : ℕ) → j + k ≡ l → counted (counted inode j) k ≡ counted inode l
counted_two inode j k l e = ap (λ c. record inode { i_cnt = c }) (omega (arith, e))

raised_at :
    (table : ℕ → FileDesc) (d e : ℕ)
    → update table d (raised (table d) 1) e ≡ raised (table e) (if d == e then 1 else 0)
raised_at table d e = elim (Bool-cases (d == e)) [
  | inl y ↦ rw y (ap (λ x. raised (table x) 1) ((==_iff d e).0 y))
  | inr n ↦ rw n (ap (λ c. record (table e) { fd_cnt = c }) (omega arith))
]

counted_at :
    (table : ℕ → Inode) (n m : ℕ) → more table n m ≡ counted (table m) (if n == m then 1 else 0)
counted_at table n m = elim (Bool-cases (n == m)) [
  | inl y ↦ rw y (ap (λ x. counted (table x) 1) ((==_iff n m).0 y))
  | inr o ↦ rw o (ap (λ c. record (table m) { i_cnt = c }) (omega arith))
]

-- After one round
abbrev next : Files → ℕ → ℕ → Files
next s d n = record (set_desc s d (raised (s.f_desc_table d) 1)) {
  inode_table = more s.inode_table n;
}

share-next :
    (s : Files) (d n : ℕ) → (s.f_desc_table d).fd_inode ≡ some n → share s d ≡ ok (next s d n)
share-next s d n h = ap (λ o. elim o [ none ↦ err Fault.wild | some m ↦ ok (next s d m) ]) h

fork_from-next :
    (f i pid d n : ℕ) (s : Files)
    → s.filp pid i ≡ some d
    → (s.f_desc_table d).fd_inode ≡ some n
    → fork_from (suc f) i s pid ≡ fork_from f (i + 1) (next s d n) pid
unfolding fork_from
fork_from-next f i pid d n s h k =
    rw (h, fork_from) (ap (λ r. r >>= λ t. fork_from f (i + 1) t pid) (share-next s d n k))

next-same :
    (s : Files) (d n : ℕ) (inode : ℕ → Option ℕ)
    → ((x : ℕ) → (s.f_desc_table x).fd_inode ≡ inode x)
    → (x : ℕ) → ((next s d n).f_desc_table x).fd_inode ≡ inode x
next-same s d n inode same x = ap (λ t. t.fd_inode) (raised_at s.f_desc_table d x) ∙ same x

pub fork_from-IsShared :
    (f i pid : ℕ) (inode : ℕ → Option ℕ) (s : Files)
    → ((d : ℕ) → (s.f_desc_table d).fd_inode ≡ inode d)
    → IsOpen f i (s.filp pid) inode
    → (s' : Files) × (fork_from f i s pid ≡ ok s') × IsShared f i pid inode s s'
unfolding fork_from holders users IsOpen
fork_from-IsShared zero i pid inode s same h = (
  s,
  refl,
  record {
    filp = refl;
    descs = λ d. ap (λ c. record (s.f_desc_table d) { fd_cnt = c }) (omega arith);
    inodes = λ n. ap (λ c. record (s.inode_table n) { i_cnt = c }) (omega arith);
  },
)
fork_from-IsShared (suc f) i pid inode s same h = elim (Option-cases (s.filp pid i)) [
  | inl e ↦
      let (s', returns, at) =
        fork_from-IsShared f (i + 1) pid inode s same
          (λ j d le lt. h j d (omega arith) (omega arith)) in
      (
        s',
        rw (e, fork_from) returns,
        record {
          filp = at.filp;
          descs = λ x.
              at.descs x ∙ ap (raised (s.f_desc_table x)) (sym (holders-none f i (s.filp pid) x e));
          inodes = λ m.
              at.inodes m
              ∙ ap (counted (s.inode_table m)) (sym (users-none f i (s.filp pid) inode m e));
        },
      )
  | inr (d, e) ↦
      let (n, k) = h i d (omega arith) (omega arith) e in
      let (s', returns, at) =
        fork_from-IsShared f (i + 1) pid inode (next s d n) (next-same s d n inode same)
          (λ j x le lt. h j x (omega arith) (omega arith)) in
      (
        s',
        fork_from-next f i pid d n s e (same d ∙ k) ∙ returns,
        record {
          filp = at.filp;
          descs = λ x.
              at.descs x
              ∙ ap (λ t. raised t (holders f (i + 1) (s.filp pid) x)) (raised_at s.f_desc_table d x)
              ∙ raised_two (s.f_desc_table x) _ _ _ (holders-some f i (s.filp pid) x d e);
          inodes = λ m.
              at.inodes m
              ∙ ap (λ t. counted t (users f (i + 1) (s.filp pid) inode m))
                  (counted_at s.inode_table n m)
              ∙ counted_two (s.inode_table m) _ _ _ (users-some f i (s.filp pid) inode m d n e k);
        },
      )
]

-- fs_fork() returns where each slot of the child holds a descriptor with an inode. It leaves every
-- slot as it was, and raises the count of each descriptor and of each inode by the number of the
-- child's slots that hold it.
pub fs_fork-IsShared :
    (s : Files) (pid : ℕ)
    → IsOpen 64 0 (s.filp pid) (λ d. (s.f_desc_table d).fd_inode)
    → (s' : Files) × (fs_fork s pid ≡ ok s')
      × IsShared 64 0 pid (λ d. (s.f_desc_table d).fd_inode) s s'
unfolding fs_fork
fs_fork-IsShared s pid h = fork_from-IsShared 64 0 pid _ s (λ d. refl) h
