-- ===== src/Hd/Partition/Places.antt =====
-- partition() of kernel/hd.c: what each entry of the first table makes of the tables of the driver.
use mathlib.Core.Path.{subst}
use kusa_os.Base.{
  ℕ, zero, suc, ◌+◌, ◌*◌, ◌≤◌, ◌<◌, ◌≡◌, ◌≢◌, refl, sym, ap, ◌∙◌, inl, inr, arith, Bool-cases, ◌==◌,
  ==_iff, update_ne, update_self, ne→==,
}
use native.Mathlib.Decide.{ℕ_discrete}
use kusa_os.Hd.{HdInfo, PartEnt}
use kusa_os.Hd.Partition.{primary_of}
use kusa_os.Hd.Partition.Tables.{logicals, listed-at, logicals-outside, entry_or}
use kusa_os.Hd.Partition.Entries.{after_entry, after_entries}

-- What the entry `i` of the partition table `t` makes of the tables of the driver: a used entry is
-- the primary partition i + 1; an extended one fills its sixteen places with the logical
-- partitions that its tables list, as far as they go.
pub record IsEntry (dev : ℕ → ℕ) (t : ℕ → PartEnt) (i : ℕ) (old new : HdInfo) : Type 0 where
  pub used :
      (t i).sys_id ≢ 0
      → new.primary (i + 1) ≡ record { base = (t i).start_sect; size = (t i).nr_sects }
  pub unused : (t i).sys_id ≡ 0 → new.primary (i + 1) ≡ old.primary (i + 1)
  pub extended :
      (t i).sys_id ≡ 5
      → (k : ℕ) → k < 16
      → new.logical (i * 16 + k)
        ≡ entry_or (old.logical (i * 16 + k)) (logicals dev (t i).start_sect 16 (t i).start_sect) k
  pub plain :
      (t i).sys_id ≢ 5 → (k : ℕ) → k < 16 → new.logical (i * 16 + k) ≡ old.logical (i * 16 + k)

-- The places of the entry `m` are as they were.
record IsKept (m : ℕ) (old new : HdInfo) : Type 0 where
  primary : new.primary (m + 1) ≡ old.primary (m + 1)
  logical : (k : ℕ) → k < 16 → new.logical (m * 16 + k) ≡ old.logical (m * 16 + k)

module _ (dev : ℕ → ℕ) (t : ℕ → PartEnt) where
  after_entry-IsKept : (i m : ℕ) (info : HdInfo) → m ≢ i → IsKept m info (after_entry dev t i info)
  after_entry-IsKept i m info ne = elim (Bool-cases ((t i).sys_id == 0)) [
    | inl e ↦ record { primary = rw e refl; logical = λ k lt. rw e refl }
    | inr used ↦ record {
      primary =
          rw used (update_ne info.primary (i + 1) (m + 1) (primary_of (t i)) (omega (arith, ne)));
      logical = λ k lt. elim (Bool-cases ((t i).sys_id == 5)) [
        | inl ext ↦
            rw (used, ext)
              (logicals-outside dev (t i).start_sect 16 (t i).start_sect info.logical (i * 16)
                (m * 16 + k) (omega (arith, ne, lt)))
        | inr plain ↦ rw (used, plain) refl
      ];
    }
  ]

  after_entry-IsEntry : (i : ℕ) (info : HdInfo) → IsEntry dev t i info (after_entry dev t i info)
  after_entry-IsEntry i info = record {
    used = λ ne. rw (ne→== (t i).sys_id 0 ne) (update_self info.primary (i + 1) (primary_of (t i)));
    unused = λ e. rw ((==_iff (t i).sys_id 0).1 e) refl;
    extended = λ e k lt.
        rw (ne→== (t i).sys_id 0 (omega (arith, e)), (==_iff (t i).sys_id 5).1 e)
          (listed-at (logicals dev (t i).start_sect 16 (t i).start_sect) info.logical (i * 16) k);
    plain = λ ne k lt. elim (Bool-cases ((t i).sys_id == 0)) [
      | inl e ↦ rw e refl
      | inr used ↦ rw (used, ne→== (t i).sys_id 5 ne) refl
    ];
  }

  -- The later entries keep what an entry has made, and an entry what it finds for the later ones.
  later :
      (i : ℕ) (old mid new : HdInfo)
      → IsEntry dev t i old mid
      → IsKept i mid new
      → IsEntry dev t i old new
  later i old mid new entry kept = record {
    used = λ ne. kept.primary ∙ entry.used ne;
    unused = λ e. kept.primary ∙ entry.unused e;
    extended = λ e k lt. kept.logical k lt ∙ entry.extended e k lt;
    plain = λ ne k lt. kept.logical k lt ∙ entry.plain ne k lt;
  }

  earlier :
      (i : ℕ) (old mid new : HdInfo)
      → IsKept i old mid
      → IsEntry dev t i mid new
      → IsEntry dev t i old new
  earlier i old mid new kept entry = record {
    used = entry.used;
    unused = λ e. entry.unused e ∙ kept.primary;
    extended = λ e k lt.
        entry.extended e k lt
        ∙ ap (λ d. entry_or d (logicals dev (t i).start_sect 16 (t i).start_sect) k)
            (kept.logical k lt);
    plain = λ ne k lt. entry.plain ne k lt ∙ kept.logical k lt;
  }

  after_entries-IsKept :
      (n i m : ℕ) (info : HdInfo) → m < i → IsKept m info (after_entries dev t n i info)
  unfolding after_entries
  after_entries-IsKept zero i m info lt = record { primary = refl; logical = λ k small. refl }
  after_entries-IsKept (suc n) i m info lt =
      let first = after_entry-IsKept i m info (omega (arith, lt)) in
      let rest = after_entries-IsKept n (i + 1) m (after_entry dev t i info) (omega arith) in
      record {
        primary = rest.primary ∙ first.primary;
        logical = λ k small. rest.logical k small ∙ first.logical k small;
      }

  pub after_entries-IsEntry :
      (n i m : ℕ) (info : HdInfo)
      → i ≤ m
      → m < i + n
      → IsEntry dev t m info (after_entries dev t n i info)
  unfolding after_entries
  after_entries-IsEntry zero i m info le lt = ground (arith, le, lt)
  after_entries-IsEntry (suc n) i m info le lt = elim (ℕ_discrete i m) [
    | yes q ↦
        subst (λ m. IsEntry dev t m info (after_entries dev t n (i + 1) (after_entry dev t i info)))
          q
          (later i info (after_entry dev t i info)
            (after_entries dev t n (i + 1) (after_entry dev t i info)) (after_entry-IsEntry i info)
            (after_entries-IsKept n (i + 1) i (after_entry dev t i info) (omega arith)))
    | no ne ↦
        earlier m info (after_entry dev t i info)
          (after_entries dev t n (i + 1) (after_entry dev t i info))
          (after_entry-IsKept i m info (λ e. ne (sym e)))
          (after_entries-IsEntry n (i + 1) m (after_entry dev t i info) (omega (arith, le, ne))
            (omega (arith, lt)))
  ]

  -- The whole disk and the count of opens are not touched.
  pub after_entries-first :
      (n i : ℕ) (info : HdInfo)
      → ((after_entries dev t n i info).primary 0 ≡ info.primary 0)
        × ((after_entries dev t n i info).open_cnt ≡ info.open_cnt)
  unfolding after_entries
  after_entries-first zero i info = (refl, refl)
  after_entries-first (suc n) i info =
      let (whole, count) = after_entries-first n (i + 1) (after_entry dev t i info) in
      (whole ∙ entry.0, count ∙ entry.1)
    where
      entry :
          ((after_entry dev t i info).primary 0 ≡ info.primary 0)
          × ((after_entry dev t i info).open_cnt ≡ info.open_cnt)
      entry = elim (Bool-cases ((t i).sys_id == 0)) [
        | inl e ↦ (rw e refl, rw e refl)
        | inr used ↦ (
          rw used (update_ne info.primary (i + 1) 0 (primary_of (t i)) (omega arith)),
          rw used refl,
        )
      ]
