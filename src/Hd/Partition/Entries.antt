-- ===== src/Hd/Partition/Entries.antt =====
-- The loop of partition() in kernel/hd.c over the primary partitions.
use kusa_os.Base.{
  ℕ, zero, suc, ◌+◌, ◌-◌, ◌*◌, ◌%◌, ◌≤◌, ◌<◌, ◌≡◌, ◌≢◌, refl, sym, ap, ◌∙◌, inl, inr, arith,
  Bool-cases, true, false, ok, ◌==◌, ==_iff, update, update_self, if◌then◌else◌,
}
use native.Mathlib.Decide.{ℕ_discrete}
use mathlib.Core.Path.{subst}
use kusa_os.Hd.{Hd, PartInfo, HdInfo, PartEnt, Drive, drv_of_dev}
use kusa_os.Hd.Command.{IsAta}
use kusa_os.Hd.Partition.{set_primary, primary_of, partition_extended, primaries_from}
use kusa_os.Hd.Partition.Tables.{InRange, logicals, listed, with_logical, logicals_from-listed}

-- What the entry `i` of the first table makes of the driver's tables
abbrev pub after_entry : (ℕ → ℕ) → (ℕ → PartEnt) → ℕ → HdInfo → HdInfo
after_entry dev t i info = if (t i).sys_id == 0 then info else record info {
  primary = update info.primary (i + 1) (primary_of (t i));
  logical =
      if (t i).sys_id == 5
      then listed info.logical (i * 16) (logicals dev (t i).start_sect 16 (t i).start_sect)
      else info.logical;
}

unfoldable pub after_entries : (ℕ → ℕ) → (ℕ → PartEnt) → ℕ → ℕ → HdInfo → HdInfo
after_entries dev t zero i info = info
after_entries dev t (suc n) i info = after_entries dev t n (i + 1) (after_entry dev t i info)

module _ (drive : Drive) (ata : IsAta drive) (dev : ℕ → ℕ) (t : ℕ → PartEnt)
    (in_range : (i : ℕ)
      → i < 4
      → (t i).sys_id ≡ 5
      → InRange dev (t i).start_sect 16 (t i).start_sect) where
  extended :
      (i : ℕ) (hd : Hd)
      → i < 4
      → InRange dev ((hd.info).primary (i + 1)).base 16 ((hd.info).primary (i + 1)).base
      → (hd' : Hd) × (partition_extended drive dev (0 + (i + 1)) hd ≡ ok hd')
        × (hd'.info
            ≡ with_logical hd.info (
                listed (hd.info).logical (i * 16) (
                  logicals dev
                    ((hd.info).primary (i + 1)).base
                    16
                    ((hd.info).primary (i + 1)).base)))
  unfolding partition_extended
  extended i hd lt range =
      let (hd', returns, same) =
        logicals_from-listed drive ata dev 16 ((hd.info).primary (i + 1)).base (i * 16)
          ((hd.info).primary (i + 1)).base hd range in
      (hd', rw (j, drv, place, nonzero, partition_extended) returns, same)
    where
      j : (0 + (i + 1)) % 5 ≡ i + 1
      j = omega (arith, lt)

      drv : drv_of_dev (0 + (i + 1)) ≡ 0
      drv = ground (arith, lt)

      place : (i + 1 - 1) * 16 ≡ i * 16
      place = omega arith

      nonzero : (i + 1 == 0) ≡ false
      nonzero = ground arith

  -- What the rest of the loop makes of a state and of the count of partitions
  pub record IsRead (n i nr : ℕ) (hd hd' : Hd) (nr' : ℕ) : Type 0 where
    pub returns : primaries_from drive dev 0 t n i nr hd ≡ ok (nr', hd')
    pub info : hd'.info ≡ after_entries dev t n i hd.info
    pub counted : nr ≤ nr'
    pub partition : (m : ℕ) → i ≤ m → m < i + n → (t m).sys_id ≢ 0 → nr < nr'

  -- One entry: it is not used, or the loop goes on in the state `mid`.
  skipped :
      (n i nr : ℕ) (hd hd' : Hd) (nr' : ℕ)
      → ((t i).sys_id == 0) ≡ true
      → IsRead n (i + 1) nr hd hd' nr'
      → IsRead (suc n) i nr hd hd' nr'
  unfolding primaries_from after_entries
  skipped n i nr hd hd' nr' e rest = record {
    returns = rw (e, primaries_from) rest.returns;
    info = rest.info ∙ rw (e, after_entries) refl;
    counted = rest.counted;
    partition = λ m le lt used. elim (ℕ_discrete i m) [
      | yes q ↦ elim (used (ap (λ x. (t x).sys_id) (sym q) ∙ (==_iff (t i).sys_id 0).0 e)) [ ]
      | no ne ↦ rest.partition m (omega (arith, le, ne)) (omega (arith, lt)) used
    ];
  }

  taken :
      (n i nr : ℕ) (hd mid hd' : Hd) (nr' : ℕ)
      → primaries_from drive dev 0 t (suc n) i nr hd
        ≡ primaries_from drive dev 0 t n (i + 1) (nr + 1) mid
      → mid.info ≡ after_entry dev t i hd.info
      → IsRead n (i + 1) (nr + 1) mid hd' nr'
      → IsRead (suc n) i nr hd hd' nr'
  unfolding after_entries
  taken n i nr hd mid hd' nr' step same rest = record {
    returns = step ∙ rest.returns;
    info = rest.info ∙ ap (after_entries dev t n (i + 1)) same;
    counted = omega (arith, rest.counted);
    partition = λ m le lt used. omega (arith, rest.counted);
  }

  extended_entry :
      (n i nr : ℕ) (hd : Hd)
      → i < 4
      → ((t i).sys_id == 0) ≡ false
      → ((t i).sys_id == 5) ≡ true
      → (mid : Hd) × (primaries_from drive dev 0 t (suc n) i nr hd
          ≡ primaries_from drive dev 0 t n (i + 1) (nr + 1) mid)
        × (mid.info ≡ after_entry dev t i hd.info)
  unfolding primaries_from
  extended_entry n i nr hd lt used ext =
      let (mid, returns, same) = extended i (set_primary hd (i + 1) (primary_of (t i))) lt range in
      (
        mid,
        rw (used, ext, returns, primaries_from) refl,
        same
            ∙ ap
                (λ b.
                  with_logical (set_primary hd (i + 1) (primary_of (t i))).info
                    (listed (hd.info).logical (i * 16) (logicals dev b 16 b)))
                (ap (λ p. p.base) (update_self (hd.info).primary (i + 1) (primary_of (t i))))
            ∙ rw (used, ext) refl,
      )
    where
      range :
          InRange dev
            (update (hd.info).primary (i + 1) (primary_of (t i)) (i + 1)).base
            16
            (update (hd.info).primary (i + 1) (primary_of (t i)) (i + 1)).base
      range =
          subst (λ (p : PartInfo). InRange dev p.base 16 p.base)
            (sym (update_self (hd.info).primary (i + 1) (primary_of (t i))))
            (in_range i lt ((==_iff (t i).sys_id 5).0 ext))

  plain_entry :
      (n i nr : ℕ) (hd : Hd)
      → ((t i).sys_id == 0) ≡ false
      → ((t i).sys_id == 5) ≡ false
      → (primaries_from drive dev 0 t (suc n) i nr hd
          ≡ primaries_from drive dev 0 t n
              (i + 1)
              (nr + 1)
              (set_primary hd (i + 1) (primary_of (t i))))
        × ((set_primary hd (i + 1) (primary_of (t i))).info ≡ after_entry dev t i hd.info)
  unfolding primaries_from
  plain_entry n i nr hd used plain = (rw (used, plain, primaries_from) refl, rw (used, plain) refl)

  pub primaries_from-IsRead :
      (n i nr : ℕ) (hd : Hd) → i + n ≤ 4 → (hd' : Hd) × (nr' : ℕ) × IsRead n i nr hd hd' nr'
  unfolding primaries_from after_entries
  primaries_from-IsRead zero i nr hd le = (
    hd,
    nr,
    record {
      returns = refl;
      info = refl;
      counted = omega arith;
      partition = λ m low high used. ground (arith, low, high);
    },
  )
  primaries_from-IsRead (suc n) i nr hd le = elim (Bool-cases ((t i).sys_id == 0)) [
    | inl e ↦
        let (hd', nr', rest) = primaries_from-IsRead n (i + 1) nr hd (omega arith) in
        (hd', nr', skipped n i nr hd hd' nr' e rest)
    | inr used ↦ elim (Bool-cases ((t i).sys_id == 5)) [
      | inl ext ↦
          let (mid, step, same) = extended_entry n i nr hd (omega arith) used ext in
          let (hd', nr', rest) = primaries_from-IsRead n (i + 1) (nr + 1) mid (omega arith) in
          (hd', nr', taken n i nr hd mid hd' nr' step same rest)
      | inr plain ↦
          let mid = set_primary hd (i + 1) (primary_of (t i)) in
          let (step, same) = plain_entry n i nr hd used plain in
          let (hd', nr', rest) = primaries_from-IsRead n (i + 1) (nr + 1) mid (omega arith) in
          (hd', nr', taken n i nr hd mid hd' nr' step same rest)
    ]
  ]
