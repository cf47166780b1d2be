-- ===== src/Fs/Inodes/Cache.antt =====
-- get_inode() of fs/main.c and the use of the entries of inode_table.
use native.Mathlib.Decide.{ℕ_discrete}
use kusa_os.Base.{
  ℕ, ◌+◌, ◌<◌, ◌≡◌, ◌≢◌, refl, sym, ap, ◌∙◌, ◌⊎◌, inl, inr, arith, true, false, none, some, ok, err,
  Fault, update, update_eq, update_ne, ne→==, ==_iff,
}
use kusa_os.Fs.Inodes.Search.{lookup-lem}
use kusa_os.Fs.Inodes.{
  DiskInode, Inode, SuperBlock, Lookup, hit, miss, holds, lookup, loaded, taken, get_inode,
  nr_inode,
}

-- No inode is in two entries that are in use.
pub record IsCache (table : ℕ → Inode) : Type 0 where
  pub once :
      (i j : ℕ)
      → i < nr_inode
      → j < nr_inode
      → (table i).i_cnt ≢ 0
      → (table j).i_cnt ≢ 0
      → (table i).i_dev ≡ (table j).i_dev
      → (table i).i_num ≡ (table j).i_num
      → i ≡ j

module _ (read : ℕ → ℕ → ℕ → DiskInode) (super_block : ℕ → SuperBlock) (table : ℕ → Inode)
    (dev num : ℕ) where
  -- The result of get_inode(): entry `p` of `table'` holds the inode for one user more.
  pub record IsGot (p : ℕ) (table' : ℕ → Inode) : Type 0 where
    pub near : p < nr_inode
    pub dev_eq : (table' p).i_dev ≡ dev
    pub num_eq : (table' p).i_num ≡ num
    pub users : (table' p).i_cnt ≡ (table p).i_cnt + 1
    pub others : (i : ℕ) → p ≢ i → table' i ≡ table i
    pub cache : IsCache table'

  -- Writing an entry for the inode keeps the cache, if no other entry holds it.
  put-IsGot :
      (p : ℕ) (e : Inode)
      → IsCache table
      → p < nr_inode
      → e.i_dev ≡ dev
      → e.i_num ≡ num
      → e.i_cnt ≡ (table p).i_cnt + 1
      → ((i : ℕ)
          → i < nr_inode
          → p ≢ i
          → (table i).i_cnt ≢ 0
          → (table i).i_dev ≡ dev
          → (table i).i_num ≢ num)
      → IsGot p (update table p e)
  put-IsGot p e h near d n c alone = record {
    near = near;
    dev_eq = ap (λ (x : Inode). x.i_dev) (update_eq table p p e refl) ∙ d;
    num_eq = ap (λ (x : Inode). x.i_num) (update_eq table p p e refl) ∙ n;
    users = ap (λ (x : Inode). x.i_cnt) (update_eq table p p e refl) ∙ c;
    others = λ i ne. update_ne table p i e ne;
    cache = record { once = once };
  }
    where
      T : ℕ → Inode
      T = update table p e

      dev_of : (i : ℕ) → p ≡ i → (T i).i_dev ≡ dev
      dev_of i q = ap (λ (x : Inode). x.i_dev) (update_eq table p i e q) ∙ d

      num_of : (i : ℕ) → p ≡ i → (T i).i_num ≡ num
      num_of i q = ap (λ (x : Inode). x.i_num) (update_eq table p i e q) ∙ n

      off : (i : ℕ) → p ≢ i → T i ≡ table i
      off i ne = update_ne table p i e ne

      clash :
          (i j : ℕ)
          → p ≡ i
          → p ≢ j
          → j < nr_inode
          → (T j).i_cnt ≢ 0
          → (T i).i_dev ≡ (T j).i_dev
          → (T i).i_num ≡ (T j).i_num
          → ⊥
      clash i j q ne lt used same_dev same_num =
          alone j lt ne (λ z. used (ap (λ (x : Inode). x.i_cnt) (off j ne) ∙ z))
            (ap (λ (x : Inode). x.i_dev) (sym (off j ne)) ∙ sym same_dev ∙ dev_of i q)
            (ap (λ (x : Inode). x.i_num) (sym (off j ne)) ∙ sym same_num ∙ num_of i q)

      once :
          (i j : ℕ)
          → i < nr_inode
          → j < nr_inode
          → (T i).i_cnt ≢ 0
          → (T j).i_cnt ≢ 0
          → (T i).i_dev ≡ (T j).i_dev
          → (T i).i_num ≡ (T j).i_num
          → i ≡ j
      once i j i_lt j_lt i_used j_used same_dev same_num = elim (ℕ_discrete p i) [
        | yes q ↦ elim (ℕ_discrete p j) [
          | yes r ↦ sym q ∙ r
          | no ne ↦ absurd (clash i j q ne j_lt j_used same_dev same_num)
        ]
        | no ne ↦ elim (ℕ_discrete p j) [
          | yes r ↦ absurd (clash j i r ne i_lt i_used (sym same_dev) (sym same_num))
          | no ne' ↦
              h.once i j i_lt j_lt (λ z. i_used (ap (λ (x : Inode). x.i_cnt) (off i ne) ∙ z))
                (λ z. j_used (ap (λ (x : Inode). x.i_cnt) (off j ne') ∙ z))
                (ap (λ (x : Inode). x.i_dev) (sym (off i ne))
                  ∙ same_dev
                  ∙ ap (λ (x : Inode). x.i_dev) (off j ne'))
                (ap (λ (x : Inode). x.i_num) (sym (off i ne))
                  ∙ same_num
                  ∙ ap (λ (x : Inode). x.i_num) (off j ne'))
        ]
      ]

  holds-eq : (x : Inode) → holds x dev num ≡ true → (x.i_dev ≡ dev) × (x.i_num ≡ num)
  holds-eq x h = (ground arith, ground arith)

  holds-ne : (x : Inode) → holds x dev num ≡ false → x.i_dev ≡ dev → x.i_num ≢ num
  holds-ne x h d n = ground arith

  get_inode-lem :
      (l : Lookup)
      → num ≢ 0
      → lookup nr_inode table dev num 0 none ≡ l
      → get_inode read super_block table dev num ≡ taken read super_block table dev num l
  unfolding get_inode
  get_inode-lem l ne e = rw (ne→== num 0 ne) (ap (taken read super_block table dev num) e)

  got :
      num ≢ 0
      → IsCache table
      → ((get_inode read super_block table dev num ≡ err Fault.panicked)
          × ((i : ℕ) → i < nr_inode → ((table i).i_cnt ≢ 0) × (holds (table i) dev num ≡ false)))
        ⊎ ((p : ℕ) × (table' : ℕ → Inode) × (get_inode read super_block table dev num
              ≡ ok (some p, table'))
            × IsGot p table')
  got ne h = elim (lookup-lem nr_inode table dev num 0 none) [
    | inl (r, e, le, lt, used, found) ↦ inr (
      r,
      update table r (grown r),
      get_inode-lem (hit r) ne e,
      put-IsGot r (grown r) h lt (holds-eq (table r) found).0 (holds-eq (table r) found).1 refl
          λ i i_lt off i_used d n. off (
            h.once r i lt i_lt used i_used ((holds-eq (table r) found).0 ∙ sym d)
              ((holds-eq (table r) found).1 ∙ sym n)),
    )
    | inr (none, e, no_match, at, full) ↦ inl (
      get_inode-lem (miss none) ne e,
      λ i lt. (
        (full refl).1 i (omega arith) lt,
        no_match i (omega arith) lt ((full refl).1 i (omega arith) lt),
      ),
    )
    | inr (some r, e, no_match, at, full) ↦ elim (at r refl) [
      | inl eq ↦ absurd (cc eq)
      | inr (le, lt, z) ↦ inr (
        r,
        update table r (loaded read super_block dev num),
        get_inode-lem (miss (some r)) ne e,
        put-IsGot r (loaded read super_block dev num) h lt refl refl (omega arith)
            λ i i_lt off i_used d. holds-ne (table i) (no_match i (omega arith) i_lt i_used) d,
      )
    ]
  ]
    where
      grown : ℕ → Inode
      grown r = record (table r) { i_cnt = (table r).i_cnt + 1 }

  -- get_inode() of a number that is not 0, from a cache that holds no inode twice: it panics only
  -- where all 64 entries are in use, by other inodes; otherwise it returns an entry of the table
  -- that holds the inode and counts one user more, no other entry is changed, and no inode is held
  -- twice. For the number 0 it returns a null pointer and leaves the table as it was.
  pub get_inode-IsGot :
      IsCache table
      → (num ≡ 0 → get_inode read super_block table dev num ≡ ok (none, table))
        × (num ≢ 0
            → ((get_inode read super_block table dev num ≡ err Fault.panicked)
                × ((i : ℕ)
                    → i < nr_inode
                    → ((table i).i_cnt ≢ 0) × (holds (table i) dev num ≡ false)))
              ⊎ ((p : ℕ) × (table' : ℕ → Inode) × (get_inode read super_block table dev num
                    ≡ ok (some p, table'))
                  × IsGot p table'))
  unfolding get_inode
  get_inode-IsGot h = (λ z. rw ((==_iff num 0).1 z) refl, λ ne. got ne h)
