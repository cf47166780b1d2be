-- ===== src/Fs/Files/Close.antt =====
-- do_close() of fs/open.c on what do_open() has connected.
use kusa_os.Base.{
  ℕ, zero, suc, ◌+◌, ◌≤◌, ◌<◌, ◌≡◌, ◌≢◌, refl, sym, ap, ◌∙◌, inl, inr, arith, ==_iff, Option, none,
  some, Option-cases, Result, Fault, ok, err, ◌>>=◌, lt→ltb, ne→==, update, update_ne, update_self,
}
use native.Mathlib.Decide.{ℕ_discrete}
use kusa_os.Fs.Inodes.{put_inode}
use kusa_os.Fs.Files.{
  Files, find_slot_from, find_fd, connect, do_close, dropped, release, fewer, set_desc, set_filp,
}

ok_same : (i j : ℕ) → ◌≡◌ {A = Result ℕ} (ok i) (ok j) → i ≡ j
ok_same i j h = ground (arith, h)

pub find_slot_from-first :
    (f i : ℕ) (slots : ℕ → Option ℕ) (j : ℕ)
    → find_slot_from f i slots ≡ ok j
    → (slots j ≡ none) × (i ≤ j) × (j < i + f) × ((k : ℕ) → i ≤ k → k < j → slots k ≢ none)
unfolding find_slot_from
find_slot_from-first zero i slots j h = ground (arith, h)
find_slot_from-first (suc f) i slots j h = elim (Option-cases (slots i)) [
  | inl e ↦
      let at = ok_same i j (sym (found e) ∙ h) in
      (
        ap slots (sym at) ∙ e,
        omega (arith, at),
        omega (arith, at),
        λ k le lt. ground (arith, le, lt, at),
      )
  | inr (d, e) ↦
      let (empty, le, lt, first) = find_slot_from-first f (i + 1) slots j (sym (passed d e) ∙ h) in
      (
        empty,
        omega arith,
        omega arith,
        λ k low below. elim (ℕ_discrete i k) [
          | yes q ↦ ground (arith, ap slots q, e)
          | no q ↦ first k (omega (arith, q)) below
        ],
      )
]
  where
    found : slots i ≡ none → find_slot_from (suc f) i slots ≡ ok i
    found e = rw (e, find_slot_from) refl

    passed :
        (d : ℕ) → slots i ≡ some d → find_slot_from (suc f) i slots ≡ find_slot_from f (i + 1) slots
    passed d e = rw (e, find_slot_from) refl

-- A close that does not fail
do_close-run :
    (s : Files) (pid fd d n : ℕ)
    → s.filp pid fd ≡ some d
    → (s.f_desc_table d).fd_inode ≡ some n
    → 0 < (s.inode_table n).i_cnt
    → 0 < (s.f_desc_table d).fd_cnt
    → do_close s pid fd
      ≡ ok (record (set_desc (set_filp s pid fd none) d (release (s.f_desc_table d))) {
        inode_table = fewer s.inode_table n;
      })
unfolding do_close put_inode
do_close-run s pid fd d n h k l m =
    rw (h, do_close)
      (ap
          (λ o. elim o [
            | none ↦ err Fault.wild
            | some x ↦ put_inode s.inode_table x >>= dropped s pid fd d
          ])
          k
        ∙ rw (lt→ltb 0 (s.inode_table n).i_cnt l) (ground (arith, m)))

filp_back :
    (F : ℕ → ℕ → Option ℕ) (pid fd i p j : ℕ)
    → F pid fd ≡ none
    → update
        (update F pid (update (F pid) fd (some i)))
        pid
        (update (update F pid (update (F pid) fd (some i)) pid) fd none)
        p
        j
      ≡ F p j
filp_back F pid fd i p j h = elim (ℕ_discrete pid p) [
  | yes y ↦
      rw ((==_iff pid p).1 y, (==_iff pid pid).1 refl)
        (elim (ℕ_discrete fd j) [
          | yes z ↦ rw ((==_iff fd j).1 z) (sym h ∙ ap (F pid) z ∙ ap (λ q. F q j) y)
          | no z ↦ rw (ne→== fd j z) (ap (λ q. F q j) y)
        ])
  | no y ↦ rw (ne→== pid p y) refl
]

abbrev both : Result ℕ → Result ℕ → Result (ℕ × ℕ)
both r q = r >>= λ x. q >>= λ y. ok (x, y)

fst_of : Result (ℕ × ℕ) → Result ℕ
fst_of (ok (x, y)) = ok x
fst_of (err e) = err e

both_ok : (r q : Result ℕ) (a b : ℕ) → both r q ≡ ok (a, b) → r ≡ ok a
unfolding fst_of
both_ok (err e) q a b h = ground (arith, h)
both_ok (ok x) (err e) a b h = ground (arith, h)
both_ok (ok x) (ok y) a b h = ap fst_of h

-- What do_close() of the file leaves
pub record IsBack (s s' : Files) (i pin : ℕ) : Type 0 where
  pub filp : (p j : ℕ) → s'.filp p j ≡ s.filp p j
  pub others : (d : ℕ) → d ≢ i → s'.f_desc_table d ≡ s.f_desc_table d
  pub free : (s'.f_desc_table i).fd_inode ≡ none
  pub inodes : (n : ℕ) → n ≢ pin → s'.inode_table n ≡ s.inode_table n
  pub count : (s'.inode_table pin).i_cnt + 1 ≡ (s.inode_table pin).i_cnt

-- Closing a file that do_open() has just connected returns and undoes it: the slot and the
-- descriptor were the free ones that the searches found, every slot and every other descriptor is
-- as it was before, the descriptor is free again, and the inode's count is one lower than get_inode() left it.
pub do_close-connect :
    (s : Files) (pid fd i pin flags : ℕ)
    → find_fd s pid ≡ ok (fd, i)
    → 0 < (s.inode_table pin).i_cnt
    → (s' : Files) × (do_close (connect s pid fd i pin flags) pid fd ≡ ok s') × IsBack s s' i pin
unfolding connect find_fd
do_close-connect s pid fd i pin flags h l = (
  _,
  do_close-run c pid fd i pin c-filp c-inode l c-count,
  record {
    filp = λ p j. filp_back s.filp pid fd i p j empty;
    others = λ d ne.
        update_ne c.f_desc_table i d (release (c.f_desc_table i)) (λ e. ne (sym e))
        ∙ update_ne s.f_desc_table i d _ (λ e. ne (sym e));
    free =
        ap (λ t. t.fd_inode) (update_self c.f_desc_table i (release (c.f_desc_table i)))
        ∙ ap (λ t. (release t).fd_inode) c-desc;
    inodes = λ n ne. update_ne s.inode_table pin n _ (λ e. ne (sym e));
    count = ground (arith, l);
  },
)
  where
    c : Files
    c = connect s pid fd i pin flags

    c-filp : c.filp pid fd ≡ some i
    c-filp =
        ap (λ t. t fd) (update_self s.filp pid (update (s.filp pid) fd (some i)))
        ∙ update_self (s.filp pid) fd (some i)

    c-desc :
        c.f_desc_table i ≡ record { fd_mode = flags; fd_pos = 0; fd_cnt = 1; fd_inode = some pin }
    c-desc =
        update_self s.f_desc_table i
          (record { fd_mode = flags; fd_pos = 0; fd_cnt = 1; fd_inode = some pin })

    c-inode : (c.f_desc_table i).fd_inode ≡ some pin
    c-inode = ap (λ t. t.fd_inode) c-desc

    c-count : 0 < (c.f_desc_table i).fd_cnt
    c-count = omega (arith, ap (λ t. t.fd_cnt) c-desc)

    empty : s.filp pid fd ≡ none
    empty = (find_slot_from-first 64 0 (s.filp pid) fd (both_ok _ _ fd i h)).0
