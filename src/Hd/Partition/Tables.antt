-- ===== src/Hd/Partition/Tables.antt =====
-- The partition tables on a disk, and the loop of partition() in kernel/hd.c over an extended
-- partition.
use kusa_os.Base.{
  ℕ, zero, suc, ◌+◌, ◌-◌, ◌*◌, ◌%◌, ◌^◌, ◌≤◌, ◌<◌, ◌≡◌, refl, ap, ◌∙◌, ◌⊎◌, inl, inr, arith, Bool,
  Bool-cases, true, false, List, [], ◌∷◌, ok, update, update_ne, update_self, ◌==◌,
}
use kusa_os.Fs.Transfer.{reading}
use kusa_os.Hd.{
  Hd, HdInfo, PartInfo, PartEnt, Drive, gives_sectors, gives_identity, load_cmd, rdwt_cmd,
}
use kusa_os.Hd.Command.{IsAta, hd_cmd_out-IsStarted}
use kusa_os.Hd.Partition.{
  part_ent, data_in, get_part_table, logical_of, next_sect, is_last, set_logical, logicals_from,
}

-- The partition table in the sector `s` of the disk
abbrev pub table_at : (ℕ → ℕ) → ℕ → ℕ → PartEnt
table_at dev s = part_ent (λ a. dev (s * 512 + a))

-- The logical partitions of an extended partition. The first entry of the table in `s` is one of
-- them, relative to `s`; the second one leads to the sector of the next table, relative to `ext`,
-- unless its type is 0. At most `n` are listed.
unfoldable pub logicals : (ℕ → ℕ) → ℕ → ℕ → ℕ → List PartInfo
logicals dev ext zero s = []
logicals dev ext (suc n) s =
    record {
      base = (s + (table_at dev s 0).start_sect) % 2 ^ 32;
      size = (table_at dev s 0).nr_sects;
    }
    ∷ elim ((table_at dev s 1).sys_id == 0) [
      | true ↦ []
      | false ↦ logicals dev ext n ((ext + (table_at dev s 1).start_sect) % 2 ^ 32)
    ]

abbrev pub Unless : Bool → Type 0 → Type 0
Unless true P = Unit
Unless false P = P

-- Each of the tables that are read for that list is in a sector whose number has 28 bits.
unfoldable pub InRange : (ℕ → ℕ) → ℕ → ℕ → ℕ → Type 0
InRange dev ext zero s = Unit
InRange dev ext (suc n) s =
    (s < 2 ^ 28)
    × Unless ((table_at dev s 1).sys_id == 0)
        (InRange dev ext n ((ext + (table_at dev s 1).start_sect) % 2 ^ 32))

pub data_in-gives_sectors :
    (drive : Drive) (dev regs : ℕ → ℕ)
    → drive.action regs ≡ gives_sectors
    → data_in drive dev regs ≡ ok (λ a. dev (drive.first regs * 512 + a))
data_in-gives_sectors drive dev regs e = rw (e, data_in) refl

pub data_in-gives_identity :
    (drive : Drive) (dev regs : ℕ → ℕ)
    → drive.action regs ≡ gives_identity
    → data_in drive dev regs ≡ ok drive.identify
data_in-gives_identity drive dev regs e = rw (e, data_in) refl

Unless-false : (b : Bool) (P : Type 0) → Unless b P → b ≡ false → P
Unless-false true P h e = absurd (cc e)
Unless-false false P h e = h

-- A table with the members of a list in it, from `at` on
unfoldable pub listed : (ℕ → PartInfo) → ℕ → List PartInfo → ℕ → PartInfo
listed f at [] = f
listed f at (p ∷ l) = listed (update f at p) (at + 1) l

abbrev pub with_logical : HdInfo → (ℕ → PartInfo) → HdInfo
with_logical info f = record info { logical = f }

module _ (drive : Drive) (ata : IsAta drive) (dev : ℕ → ℕ) where
  pub get_part_table-reads :
      (regs : ℕ → ℕ) (s : ℕ)
      → s < 2 ^ 28
      → get_part_table drive dev regs 0 s
        ≡ ok (load_cmd (rdwt_cmd reading 0 1 s) regs, table_at dev s)
  unfolding get_part_table
  get_part_table-reads regs s lt =
      let started = hd_cmd_out-IsStarted drive ata reading 1 s regs in
      rw (started.returns) (
        rw (data_in-gives_sectors drive dev (load_cmd (rdwt_cmd reading 0 1 s) regs) started.action)
          (ap (λ f. ok (load_cmd (rdwt_cmd reading 0 1 s) regs, part_ent (λ a. dev (f * 512 + a))))
            (started.first ∙ omega (arith, lt))))

  after_table : Hd → ℕ → ℕ → Hd
  after_table hd dev_nr s =
      set_logical (record hd { regs = load_cmd (rdwt_cmd reading 0 1 s) hd.regs }) dev_nr
        (logical_of s (table_at dev s))

  logicals_step :
      (n ext dev_nr s : ℕ) (hd : Hd)
      → s < 2 ^ 28
      → logicals_from drive dev 0 (suc n) ext dev_nr s hd ≡ elim (is_last (table_at dev s)) [
        | true ↦ ok (after_table hd dev_nr s)
        | false ↦
            logicals_from drive dev 0 n ext
              (dev_nr + 1)
              (next_sect ext (table_at dev s))
              (after_table hd dev_nr s)
      ]
  unfolding logicals_from after_table
  logicals_step n ext dev_nr s hd lt = rw (get_part_table-reads hd.regs s lt, logicals_from) refl

  -- The loop writes the list.
  pub logicals_from-listed :
      (n ext dev_nr s : ℕ) (hd : Hd)
      → InRange dev ext n s
      → (hd' : Hd) × (logicals_from drive dev 0 n ext dev_nr s hd ≡ ok hd')
        × (hd'.info ≡ with_logical hd.info (listed (hd.info).logical dev_nr (logicals dev ext n s)))
  unfolding logicals_from logicals listed after_table InRange
  logicals_from-listed zero ext dev_nr s hd range = (hd, refl, refl)
  logicals_from-listed (suc n) ext dev_nr s hd range =
      elim (Bool-cases (is_last (table_at dev s))) [
        | inl e ↦ (
          after_table hd dev_nr s,
          logicals_step n ext dev_nr s hd range.0 ∙ rw e refl,
          rw (e, logicals) refl,
        )
        | inr e ↦
            let (hd', returns, same) =
              logicals_from-listed n ext (dev_nr + 1) (next_sect ext (table_at dev s))
                (after_table hd dev_nr s)
                (Unless-false (is_last (table_at dev s))
                  (InRange dev ext n (next_sect ext (table_at dev s))) range.1 e) in
            (
              hd',
              logicals_step n ext dev_nr s hd range.0 ∙ rw e returns,
              same ∙ rw (e, logicals) refl,
            )
      ]

-- The k-th member of a list, and where there is none `d`
unfoldable pub entry_or : PartInfo → List PartInfo → ℕ → PartInfo
entry_or d [] k = d
entry_or d (p ∷ l) zero = p
entry_or d (p ∷ l) (suc k) = entry_or d l k

pub listed-before :
    (l : List PartInfo) (f : ℕ → PartInfo) (at x : ℕ) → x < at → listed f at l x ≡ f x
unfolding listed
listed-before [] f at x lt = refl
listed-before (p ∷ l) f at x lt =
    listed-before l (update f at p) (at + 1) x (omega arith) ∙ update_ne f at x p (omega arith)

pub listed-at :
    (l : List PartInfo) (f : ℕ → PartInfo) (at k : ℕ)
    → listed f at l (at + k) ≡ entry_or (f (at + k)) l k
unfolding listed entry_or
listed-at [] f at k = refl
listed-at (p ∷ l) f at zero =
    ap (listed (update f at p) (at + 1) l) (omega arith)
    ∙ listed-before l (update f at p) (at + 1) at (omega arith)
    ∙ update_self f at p
listed-at (p ∷ l) f at (suc k) =
    ap (listed (update f at p) (at + 1) l) (omega arith)
    ∙ listed-at l (update f at p) (at + 1) k
    ∙ ap (λ d. entry_or d l k) (update_ne f at (at + 1 + k) p (omega arith) ∙ ap f (omega arith))

logicals-entry_or :
    (dev : ℕ → ℕ) (ext n s k : ℕ) (d : PartInfo) → n ≤ k → entry_or d (logicals dev ext n s) k ≡ d
unfolding logicals entry_or
logicals-entry_or dev ext zero s k d h = refl
logicals-entry_or dev ext (suc n) s zero d h = elim h [ ]
logicals-entry_or dev ext (suc n) s (suc k) d h = elim (Bool-cases (is_last (table_at dev s))) [
  | inl e ↦ rw e refl
  | inr e ↦ rw e (logicals-entry_or dev ext n (next_sect ext (table_at dev s)) k d (omega arith))
]

pub logicals-outside :
    (dev : ℕ → ℕ) (ext n s : ℕ) (f : ℕ → PartInfo) (at x : ℕ)
    → (x < at) ⊎ (at + n ≤ x)
    → listed f at (logicals dev ext n s) x ≡ f x
logicals-outside dev ext n s f at x (inl lt) = listed-before (logicals dev ext n s) f at x lt
logicals-outside dev ext n s f at x (inr le) =
    ap (listed f at (logicals dev ext n s)) (omega (arith, le))
    ∙ listed-at (logicals dev ext n s) f at (x - at)
    ∙ ap (λ d. entry_or d (logicals dev ext n s) (x - at)) (ap f (omega (arith, le)))
    ∙ logicals-entry_or dev ext n s (x - at) (f x) (omega (arith, le))
