-- ===== src/Hd/Partition/Open.antt =====
-- hd_open() and hd_close() of kernel/hd.c.
use mathlib.Core.Path.{subst}
use kusa_os.Fs.Transfer.{reading}
use kusa_os.Base.{
  ℕ, ◌+◌, ◌-◌, ◌*◌, ◌%◌, ◌^◌, ◌<◌, ◌≡◌, ◌≢◌, refl, sym, ap, ◌∙◌, arith, ok, update, update_ne,
  update_self, ne→==,
}
use kusa_os.Hd.{Hd, HdInfo, HdCmd, PartInfo, Drive, drv_of_dev, hd_cmd_out, load_cmd, rdwt_cmd}
use kusa_os.Hd.Command.{IsAta}
use kusa_os.Hd.Partition.{
  identify_cmd, u16_at, partition_primary, hd_identify, hd_open, hd_close, set_primary,
}
use kusa_os.Hd.Partition.Tables.{data_in-gives_identity, InRange, table_at, get_part_table-reads}
use kusa_os.Hd.Partition.Entries.{primaries_from-IsRead}
use kusa_os.Hd.Partition.Places.{IsEntry, after_entries-IsEntry, after_entries-first}

-- The size that a drive gives of itself, in sectors
abbrev pub identified : Drive → PartInfo
identified drive = record {
  base = 0;
  size = (u16_at drive.identify 61 * 65536 + u16_at drive.identify 60) % 2 ^ 32;
}

pub record IsOpened (drive : Drive) (dev : ℕ → ℕ) (old new : HdInfo) : Type 0 where
  pub counted : new.open_cnt ≡ 1
  pub whole : new.primary 0 ≡ identified drive
  pub entries : (i : ℕ) → i < 4 → IsEntry dev (table_at dev 0) i old new

-- The tables of the extended partitions of the first table are in sectors whose numbers have 28
-- bits.
abbrev pub IsInRange : (ℕ → ℕ) → Type 0
IsInRange dev =
    (i : ℕ)
    → i < 4
    → (table_at dev 0 i).sys_id ≡ 5
    → InRange dev (table_at dev 0 i).start_sect 16 (table_at dev 0 i).start_sect

module _ (drive : Drive) (ata : IsAta drive) (dev : ℕ → ℕ) where
  identified_hd : HdCmd → Hd → Hd
  identified_hd junk hd =
      set_primary (record hd { regs = load_cmd (identify_cmd junk 0) hd.regs }) 0 (identified drive)

  -- The count goes up by one.
  counted_from : Hd → Hd
  counted_from hd = record hd {
    info = record hd.info { open_cnt = ((hd.info).open_cnt + 1) % 2 ^ 32 };
  }

  hd_identify-run :
      (junk : HdCmd) (hd : Hd) → hd_identify drive dev junk 0 hd ≡ ok (identified_hd junk hd)
  unfolding hd_identify hd_cmd_out identified_hd
  hd_identify-run junk hd = rw (ata.ready) (
      rw
        (data_in-gives_identity drive dev (load_cmd (identify_cmd junk 0) hd.regs)
          (ata.identifies (load_cmd (identify_cmd junk 0) hd.regs) refl refl))
        refl)

  -- What partition() does to the tables
  record IsPartitioned (old new : HdInfo) : Type 0 where
    entries : (i : ℕ) → i < 4 → IsEntry dev (table_at dev 0) i old new
    whole : new.primary 0 ≡ old.primary 0
    counted : new.open_cnt ≡ old.open_cnt

  partition_primary-run :
      (m : ℕ) (hd : Hd)
      → m < 4
      → (table_at dev 0 m).sys_id ≢ 0
      → IsInRange dev
      → (hd' : Hd) × (partition_primary drive dev 0 hd ≡ ok hd') × IsPartitioned hd.info hd'.info
  unfolding partition_primary
  partition_primary-run m hd lt used in_range =
      let (hd', nr, read) =
        primaries_from-IsRead drive ata dev (table_at dev 0) in_range 4 0 0
          (record hd { regs = load_cmd (rdwt_cmd reading 0 1 0) hd.regs }) (omega arith) in
      (
        hd',
        rw (get_part_table-reads drive ata dev hd.regs 0 (omega arith)) (
            rw (read.returns)
              (rw (ne→== nr 0 (omega (arith, read.partition m (omega arith) lt used))) refl)),
        record {
          entries = λ i small.
              subst (IsEntry dev (table_at dev 0) i hd.info) (sym read.info)
                (after_entries-IsEntry dev (table_at dev 0) 4 0 i hd.info (omega arith) small);
          whole =
              ap (λ info. info.primary 0) read.info
              ∙ (after_entries-first dev (table_at dev 0) 4 0 hd.info).0;
          counted =
              ap (λ info. info.open_cnt) read.info
              ∙ (after_entries-first dev (table_at dev 0) 4 0 hd.info).1;
        },
      )

  hd_open-first :
      (junk : HdCmd) (device : ℕ) (hd : Hd)
      → drv_of_dev device ≡ 0
      → (hd.info).open_cnt ≡ 0
      → hd_open drive dev junk device hd
        ≡ partition_primary drive dev 0 (counted_from (identified_hd junk hd))
  unfolding hd_open identified_hd counted_from
  hd_open-first junk device hd zero_drive closed =
      rw zero_drive (rw (hd_identify-run junk hd) (rw closed refl))

  hd_open-later :
      (junk : HdCmd) (device : ℕ) (hd : Hd)
      → drv_of_dev device ≡ 0
      → (hd.info).open_cnt ≢ 0
      → hd_open drive dev junk device hd ≡ ok (counted_from (identified_hd junk hd))
  unfolding hd_open identified_hd counted_from
  hd_open-later junk device hd zero_drive opened =
      rw zero_drive (rw (hd_identify-run junk hd) (rw (ne→== (hd.info).open_cnt 0 opened) refl))

-- The first open of a device of drive 0, an ATA drive that gets ready in time, whose first
-- partition table has a used entry, and whose tables of logical partitions are in sectors below
-- 2 ^ 28, returns.
-- The count of opens is then 1, the partition 0 is the whole disk as the drive identifies itself,
-- and the primary and logical partitions are the ones that the partition tables on the disk
-- describe; the places that the tables leave out keep what they held.
pub hd_open-IsOpened :
    (drive : Drive)
    → IsAta drive
    → (dev : ℕ → ℕ) (junk : HdCmd) (device m : ℕ) (hd : Hd) → drv_of_dev device ≡ 0
    → (hd.info).open_cnt ≡ 0
    → m < 4
    → (table_at dev 0 m).sys_id ≢ 0
    → IsInRange dev
    → (hd' : Hd) × (hd_open drive dev junk device hd ≡ ok hd') × IsOpened drive dev hd.info hd'.info
unfolding identified_hd counted_from
hd_open-IsOpened drive ata dev junk device m hd zero_drive closed lt used in_range =
    let (hd', returns, read) =
      partition_primary-run drive ata dev m
        (counted_from drive ata dev (identified_hd drive ata dev junk hd)) lt used in_range in
    (
      hd',
      hd_open-first drive ata dev junk device hd zero_drive closed ∙ returns,
      record {
        counted = read.counted ∙ rw closed refl;
        whole = read.whole ∙ update_self (hd.info).primary 0 (identified drive);
        entries = λ i small.
            let entry = read.entries i small in
            record {
              used = entry.used;
              unused = λ e.
                  entry.unused e
                  ∙ update_ne (hd.info).primary 0 (i + 1) (identified drive) (omega arith);
              extended = entry.extended;
              plain = entry.plain;
            };
      },
    )

-- A later open and the close that belongs to it leave the count of opens and the logical
-- partitions as they were, and every primary one but the whole disk, which the drive gives again.
pub hd_open-hd_close :
    (drive : Drive)
    → IsAta drive
    → (dev : ℕ → ℕ) (junk : HdCmd) (device : ℕ) (hd : Hd) → drv_of_dev device ≡ 0
    → (hd.info).open_cnt ≢ 0
    → (hd.info).open_cnt < 2 ^ 32
    → (hd' : Hd) × (hd'' : Hd) × (hd_open drive dev junk device hd ≡ ok hd')
      × (hd_close device hd' ≡ ok hd'')
      × ((hd''.info).open_cnt ≡ (hd.info).open_cnt)
      × ((hd''.info).logical ≡ (hd.info).logical)
      × ((hd''.info).primary ≡ update (hd.info).primary 0 (identified drive))
unfolding identified_hd counted_from hd_close
hd_open-hd_close drive ata dev junk device hd zero_drive opened small = (
  counted_from drive ata dev (identified_hd drive ata dev junk hd),
  record (counted_from drive ata dev (identified_hd drive ata dev junk hd)) {
    info = record (identified_hd drive ata dev junk hd).info {
      open_cnt = ((((hd.info).open_cnt + 1) % 2 ^ 32) + (2 ^ 32 - 1)) % 2 ^ 32;
    };
  },
  hd_open-later drive ata dev junk device hd zero_drive opened,
  rw zero_drive refl,
  omega (arith, small),
  refl,
  refl,
)
