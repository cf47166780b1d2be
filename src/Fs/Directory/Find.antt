-- ===== src/Fs/Directory/Find.antt =====
-- search_file() of fs/misc.c in a directory of several sectors.
use mathlib.Core.Path.{subst}
use native.Mathlib.Decide.{dec_lt}
use kusa_os.Base.{
  ℕ, zero, suc, ◌+◌, ◌-◌, ◌*◌, ◌/◌, ◌≤◌, ◌<◌, ◌≡◌, inl, inr, refl, ap, ◌∙◌, arith, Bool-cases, true,
  false, Option, none, some, ok, ltb, ltb→lt,
}
use kusa_os.Kernel.Memory.{load_int, load_int-same}
use kusa_os.Fs.Inodes.{DiskInode}
use kusa_os.Fs.Transfer.Overlay.{overlay-inside}
use kusa_os.Fs.Directory.{
  Store, fsbuf, rd_sect, Look, found, passed, search_in, search_blocks, search_file,
}
use kusa_os.Fs.Directory.Search.{
  NamedEntry, IsReady, IsName, LookIs, rd_sect-IsReady, search_in-LookIs,
}

-- What the loop over the sectors ends with, `f` of them from the i-th on
abbrev BlocksAre : (ℕ → ℕ) → (ℕ → ℕ) → ℕ → ℕ → ℕ → ℕ → ℕ → Option ℕ × Store → Type 0
BlocksAre dev name l start i f n (none, st) =
    (c : ℕ) → 32 * i ≤ c → c < 32 * (i + f) → c ≤ n → ¬ NamedEntry dev name l start c
BlocksAre dev name l start i f n (some pde, st) =
    (e : ℕ) × (32 * i ≤ e)
    × (e < 32 * (i + f))
    × (e ≤ n)
    × (load_int st.mem pde ≡ load_int dev (start * 512 + 16 * e))
    × NamedEntry dev name l start e
    × ((c : ℕ) → 32 * i ≤ c → c < e → ¬ NamedEntry dev name l start c)

-- The entries of the i-th sector are those of the directory from 32 * i on.
in_sector :
    (dev name : ℕ → ℕ) (l start i j : ℕ)
    → NamedEntry dev name l (start + i) j
    → NamedEntry dev name l start (32 * i + j)
in_sector dev name l start i j named k lt = ap dev (omega arith) ∙ named k lt

of_sector :
    (dev name : ℕ → ℕ) (l start i j : ℕ)
    → NamedEntry dev name l start (32 * i + j)
    → NamedEntry dev name l (start + i) j
of_sector dev name l start i j named k lt = ap dev (omega arith) ∙ named k lt

module _ (dev name : ℕ → ℕ) (l filename : ℕ) (is : IsName dev name l filename) (start n : ℕ) where
  -- The bytes of fsbuf are those of the device.
  in_fsbuf :
      (st : Store) (s x : ℕ)
      → IsReady dev name l filename st
      → x < 512
      → (rd_sect s st).mem (fsbuf + x) ≡ dev (s * 512 + x)
  in_fsbuf st s x ready lt =
      overlay-inside st.mem (λ a. st.dev (s * 512 + a)) fsbuf 512 (fsbuf + x) (omega arith)
        (omega arith)
      ∙ ap (λ f. f (s * 512 + (fsbuf + x - fsbuf))) ready.device
      ∙ ap dev (omega arith)

  number_read :
      (st : Store) (i d : ℕ)
      → IsReady dev name l filename st
      → d < 32
      → load_int (rd_sect (start + i) st).mem (fsbuf + 16 * (0 + d))
        ≡ load_int dev (start * 512 + 16 * (32 * i + d))
  number_read st i d ready lt =
      load_int-same (rd_sect (start + i) st).mem dev (fsbuf + 16 * (0 + d))
        (start * 512 + 16 * (32 * i + d))
        (λ k small.
          ap (rd_sect (start + i) st).mem {x = fsbuf + 16 * (0 + d) + k} {y = fsbuf + (16 * d + k)}
            (omega arith)
          ∙ in_fsbuf st (start + i) (16 * d + k) ready (omega arith)
          ∙ ap dev (omega arith))

  after_sector :
      (f i : ℕ) (res : Option ℕ × Store)
      → ((c : ℕ) → c < 32 → ¬ NamedEntry dev name l (start + i) c)
      → BlocksAre dev name l start (i + 1) f n res
      → BlocksAre dev name l start i (suc f) n res
  after_sector f i (none, st) differ rest = λ c low high le named. elim (dec_lt c (32 * (i + 1))) [
    | yes lt ↦ differ (c - 32 * i) (omega (arith, low, lt)) (
        of_sector dev name l start i (c - 32 * i)
          (subst (NamedEntry dev name l start) (omega (arith, low)) named))
    | no k ↦ rest c (omega (arith, k)) (omega (arith, high)) le named
  ]
  after_sector f i (some pde, st) differ (e, low, high, le, number, here, before) = (
    e,
    omega (arith, low),
    omega (arith, high),
    le,
    number,
    here,
    λ c least lt named. elim (dec_lt c (32 * (i + 1))) [
      | yes small ↦ differ (c - 32 * i) (omega (arith, least, small)) (
          of_sector dev name l start i (c - 32 * i)
            (subst (NamedEntry dev name l start) (omega (arith, least)) named))
      | no k ↦ before c (omega (arith, k)) lt named
    ],
  )

  not_over : (m' : ℕ) → ltb n m' ≡ false → m' ≤ n
  not_over m' e = ground arith

  -- A sector without the name
  passed-run :
      (f blk m m' : ℕ) (st : Store)
      → search_in 32 (rd_sect blk st).mem filename (fsbuf + 16 * 0) m n ≡ ok (passed m')
      → search_blocks (suc f) filename blk m n st ≡ elim (ltb n m') [
        | true ↦ ok (none, rd_sect blk st)
        | false ↦ search_blocks f filename (blk + 1) m' n (rd_sect blk st)
      ]
  unfolding search_blocks
  passed-run f blk m m' st returns = rw (returns, search_blocks) refl

  search_blocks-BlocksAre :
      (f i : ℕ) (st : Store)
      → IsReady dev name l filename st
      → 32 * i ≤ n
      → (res : Option ℕ × Store) × (search_blocks f filename (start + i) (32 * i) n st ≡ ok res)
        × BlocksAre dev name l start i f n res
  unfolding search_blocks
  search_blocks-BlocksAre zero i st ready le =
      ((none, st), refl, λ c low high small. ground (arith, low, high))
  search_blocks-BlocksAre (suc f) i st ready le =
      let (look, returns, is_look) =
        search_in-LookIs dev name l filename is 32 0 (32 * i) n (start + i) st ready (omega arith)
          le in
      looked look returns is_look (
        search_blocks-BlocksAre f (i + 1) (rd_sect (start + i) st)
          (rd_sect-IsReady dev name l filename is st (start + i) ready))
    where
      looked :
          (look : Look)
          → search_in 32 (rd_sect (start + i) st).mem filename (fsbuf + 16 * 0) (32 * i) n ≡ ok look
          → LookIs dev name l (start + i) 0 32 (32 * i) n look
          → (32 * (i + 1) ≤ n
              → (res : Option ℕ × Store) × (search_blocks f filename
                    (start + (i + 1))
                    (32 * (i + 1))
                    n
                    (rd_sect (start + i) st)
                  ≡ ok res)
                × BlocksAre dev name l start (i + 1) f n res)
          → (res : Option ℕ × Store) × (search_blocks (suc f) filename (start + i) (32 * i) n st
              ≡ ok res)
            × BlocksAre dev name l start i (suc f) n res
      looked (found pde) returns (d, lt, small, e, here, before) next = (
        (some pde, rd_sect (start + i) st),
        rw (returns, search_blocks) refl,
        (
          32 * i + d,
          omega arith,
          omega (arith, lt),
          small,
          ap (load_int (rd_sect (start + i) st).mem) e ∙ number_read st i d ready lt,
          in_sector dev name l start i d
              (subst (NamedEntry dev name l (start + i)) (omega arith) here),
          λ c low high named. before (c - 32 * i) (omega (arith, low, high)) (
              of_sector dev name l start i (0 + (c - 32 * i))
                (subst (NamedEntry dev name l start) (omega (arith, low)) named)),
        ),
      )
      looked (passed m') returns (most, why, least, before) next = elim (Bool-cases (ltb n m')) [
        | inl over ↦ (
          (none, rd_sect (start + i) st),
          passed-run f (start + i) (32 * i) m' st returns ∙ rw over refl,
          λ c low high small named.
              before (c - 32 * i) (omega (arith, low, small, ltb→lt n m' over)) (
                of_sector dev name l start i (0 + (c - 32 * i))
                  (subst (NamedEntry dev name l start) (omega (arith, low)) named)),
        )
        | inr more ↦
            let (res, rest, blocks) = next (omega (arith, why, not_over m' more)) in
            (
              res,
              passed-run f (start + i) (32 * i) m' st returns
                  ∙ rw more (
                      ap
                        (λ b. search_blocks f filename (start + i + 1) b n (rd_sect (start + i) st))
                        (omega (arith, why, not_over m' more))
                      ∙ ap
                          (λ b.
                            search_blocks f filename b (32 * (i + 1)) n (rd_sect (start + i) st))
                          (omega arith)
                      ∙ rest),
              after_sector f i res
                  (λ c lt named.
                    before c (omega (arith, lt, why, not_over m' more))
                      (subst (NamedEntry dev name l (start + i)) (omega arith) named))
                  blocks,
            )
      ]

-- The entries that search_file() looks at: as many as the size of the directory tells, and the one
-- behind them where it is in the last sector.
abbrev pub IsLooked : DiskInode → ℕ → Type 0
IsLooked dir e = (e ≤ dir.i_size / 16) × (e < 32 * ((dir.i_size + 511) / 512))

-- What search_file() finds: the inode number of the first entry with the name, or 0 where no
-- entry has it
pub data IsFound (dev name : ℕ → ℕ) (l : ℕ) (dir : DiskInode) : ℕ → Type 0 where
  first :
      (e : ℕ)
      → IsLooked dir e
      → NamedEntry dev name l dir.i_start_sect e
      → ((c : ℕ) → c < e → ¬ NamedEntry dev name l dir.i_start_sect c)
      → IsFound dev name l dir (load_int dev (dir.i_start_sect * 512 + 16 * e))
  missing :
      ((c : ℕ) → IsLooked dir c → ¬ NamedEntry dev name l dir.i_start_sect c)
      → IsFound dev name l dir 0

-- In a directory, search_file() returns for every name of at most eleven characters. It finds the
-- inode number of the first entry with exactly that name, or 0 where none of the entries that
-- it looks at has it; the first entry behind the end of the directory is one of those, where the
-- last sector has room for it. The memory and the device are bytes, and the name is not in fsbuf.
pub search_file-IsFound :
    (dev name : ℕ → ℕ) (l filename : ℕ)
    → IsName dev name l filename
    → (dir : DiskInode) (st : Store) → IsReady dev name l filename st
    → (nr : ℕ) × (search_file dir filename st ≡ ok nr) × IsFound dev name l dir nr
unfolding search_file
search_file-IsFound dev name l filename is dir st ready =
    let (res, returns, blocks) =
      search_blocks-BlocksAre dev name l filename is dir.i_start_sect (dir.i_size / 16)
        ((dir.i_size + 512 - 1) / 512) 0 st ready (omega arith) in
    finish res
      (ap (λ b. search_blocks ((dir.i_size + 512 - 1) / 512) filename b 0 (dir.i_size / 16) st)
          {y = dir.i_start_sect + 0} (omega arith)
        ∙ returns)
      blocks
  where
    finish :
        (res : Option ℕ × Store)
        → search_blocks
            ((dir.i_size + 512 - 1) / 512)
            filename
            dir.i_start_sect
            0
            (dir.i_size / 16)
            st
          ≡ ok res
        → BlocksAre dev name l dir.i_start_sect 0
            ((dir.i_size + 512 - 1) / 512)
            (dir.i_size / 16)
            res
        → (nr : ℕ) × (search_file dir filename st ≡ ok nr) × IsFound dev name l dir nr
    finish (none, st') returns differ = (
      0,
      rw (returns, search_file) refl,
      missing (λ c looked. differ c (omega arith) (omega (arith, looked.1)) looked.0),
    )
    finish (some pde, st') returns (e, low, high, le, number, here, before) = (
      load_int dev (dir.i_start_sect * 512 + 16 * e),
      rw (returns, search_file) (ap ok number),
      first e (le, omega (arith, high)) here (λ c lt. before c (omega arith) lt),
    )
