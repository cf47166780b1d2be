-- ===== src/Tests/Disk.antt =====
-- The disk driver at concrete inputs.
use kusa_os.Base.{
  ℕ, ◌+◌, ◌*◌, ◌/◌, ◌%◌, ◌≤◌, ◌<◌, ◌≡◌, ◌↔◌, refl, sym, arith, [], ◌∷◌, ok, ◌==◌, if◌then◌else◌,
  update,
}
use kusa_os.Fs.Transfer.{reading, writing}
use kusa_os.Hd.{
  Hd, HdCmd, Drive, gives_sectors, takes_sectors, gives_identity, no_data, reg_cmd, waitfor,
  reg_nsector, reg_lba_low, reg_lba_mid, reg_lba_high, reg_device, hd_cmd_out,
}
use kusa_os.Hd.Command.{IsAta}
use kusa_os.Hd.Partition.{
  part_of, init_hd, hd_open, hd_identify, partition_primary, partition_extended, logicals_from,
  primaries_from, get_part_table,
}
use mathlib.Core.Path.{subst}
use native.Mathlib.Decide.{ℕ_discrete}
use kusa_os.Hd.Partition.Tables.{InRange, table_at}
use kusa_os.Hd.Partition.Open.{IsInRange, IsOpened, hd_open-IsOpened}
use kusa_os.Hd.Task.{task_hd, rdwt_message, task_hd-back}
use kusa_os.Hd.Rdwt.{Moving, hd_rdwt}
use kusa_os.Hd.Rdwt.Sectors.{IsMoved}
use kusa_os.Hd.Rdwt.Request.{IsRequest, hd_rdwt-IsMoved, hd_rdwt_iff}

-- A drive that is ready at once
abbrev ata_drive : Drive
ata_drive = record {
  started = 100;
  readings = (100, 0x50) ∷ [];
  action = λ regs.
      if regs reg_device / 16 % 2 == 0
      then (if regs reg_cmd == 0x20
          then gives_sectors
          else if regs reg_cmd == 0x30
          then takes_sectors
          else if regs reg_cmd == 0xEC
          then gives_identity
          else no_data)
      else no_data;
  first = λ regs.
      regs reg_lba_low
      + 256 * regs reg_lba_mid
      + 65536 * regs reg_lba_high
      + 16777216 * (regs reg_device % 16);
  blocks = λ regs. if regs reg_nsector == 0 then 256 else regs reg_nsector;
  identify = λ a. if a == 121 then 2 else 0;
}

ata_drive-IsAta : IsAta ata_drive
unfolding waitfor
ata_drive-IsAta = record {
  ready = refl;
  reads = λ regs master e. rw (master, e) refl;
  writes = λ regs master e. rw (master, e) refl;
  identifies = λ regs master e. rw (master, e) refl;
  first = λ regs lba. refl;
  blocks = λ regs. refl;
}

-- The second entry of the first table is an extended partition at the sector 8, with one logical
-- partition of four sectors behind its table.
abbrev disk : ℕ → ℕ
disk = update (update (update (update (λ a. 0) 466 5) 470 8) 4550 1) 4554 4

abbrev nothing_open : Hd
nothing_open = record {
  info = record {
    open_cnt = 0;
    primary = λ i. record { base = 0; size = 0 };
    logical = λ i. record { base = 0; size = 0 };
  };
  regs = λ p. 0;
}

started : (hd : Hd) → init_hd 1 hd ≡ ok (record nothing_open { regs = hd.regs })
started hd = refl

abbrev on_stack : HdCmd
on_stack = record {
  features = 7;
  count = 7;
  lba_low = 7;
  lba_mid = 7;
  lba_high = 7;
  device = 7;
  command = 7;
}

-- Its one table of logical partitions is in the sector 8.
disk-IsInRange : IsInRange disk
unfolding InRange
disk-IsInRange i lt e = elim (ℕ_discrete i 1) [
  | yes q ↦ subst Place (sym q) (omega arith, tt)
  | no ne ↦ absurd (ground (arith, lt, e, ne))
]
  where
    Place : ℕ → Type 0
    Place i = InRange disk (table_at disk 0 i).start_sect 16 (table_at disk 0 i).start_sect

hd_open-IsOpened_example :
    (hd' : Hd) × (hd_open ata_drive disk on_stack 32 nothing_open ≡ ok hd')
    × IsOpened ata_drive disk nothing_open.info hd'.info
hd_open-IsOpened_example =
    hd_open-IsOpened ata_drive ata_drive-IsAta disk on_stack 32 1 nothing_open refl refl
      (omega arith) (λ e. ground (arith, e)) disk-IsInRange

-- The first logical partition of the second entry is the device hd2a, number 32.
abbrev opened : Hd
opened = record {
  info = record {
    open_cnt = 1;
    primary = update nothing_open.info.primary 2 (record { base = 8; size = 0 });
    logical = update nothing_open.info.logical 16 (record { base = 9; size = 4 });
  };
  regs = λ p. 0;
}

hd2a :
    (hd' : Hd) × (hd_open ata_drive disk on_stack 32 nothing_open ≡ ok hd')
    × (part_of hd'.info 32 ≡ ok (record { base = 9; size = 4 }))
unfolding hd_open hd_identify hd_cmd_out waitfor partition_primary get_part_table primaries_from
    partition_extended logicals_from part_of
hd2a = (_, refl, refl)

abbrev moving : Moving
moving = record { mem = λ a. 0; dev = λ a. a % 251 }

hd2a-IsRequest : IsRequest opened.info 32 1024 2 (record { base = 9; size = 4 })
unfolding part_of
hd2a-IsRequest = record { partition = refl; sector = refl; range = omega arith }

hd_rdwt-IsMoved_example :
    (hd' : Hd) × (io' : Moving) × (hd_rdwt ata_drive reading 32 1024 (2 * 512) 4096 opened moving
      ≡ ok (hd', io'))
    × IsMoved reading 4096 ((9 + 2) * 512) (2 * 512) moving io'
    × (hd'.info ≡ opened.info)
hd_rdwt-IsMoved_example =
    hd_rdwt-IsMoved ata_drive ata_drive-IsAta reading 32 1024 2 2 4096 opened moving
      (record { base = 9; size = 4 }) hd2a-IsRequest (omega arith)

hd_rdwt_iff_example :
    ((hd' : Hd) × (io' : Moving) × (hd_rdwt ata_drive writing 32 1024 1000000 4096 opened moving
        ≡ ok (hd', io')))
    ↔ ((1000000 % 512 ≡ 0) × (1000000 ≤ 256 * 512))
hd_rdwt_iff_example =
    hd_rdwt_iff ata_drive ata_drive-IsAta writing 32 1024 2 1000000 4096 opened moving
      (record { base = 9; size = 4 }) hd2a-IsRequest

task_hd-back_example :
    (hd1 hd2 : Hd) × (io1 io2 : Moving) × (task_hd ata_drive on_stack
        (rdwt_message writing 32 1024 (1 * 512) 4096)
        opened
        moving
      ≡ ok (hd1, io1))
    × (task_hd ata_drive on_stack
          (rdwt_message reading 32 1024 (1 * 512) 8192)
          hd1
          (record io1 { mem = λ a. 7 })
        ≡ ok (hd2, io2))
    × ((a : ℕ) → a < 1 * 512 → io2.mem (8192 + a) ≡ 0)
task_hd-back_example =
    task_hd-back ata_drive ata_drive-IsAta on_stack 32 1024 2 1 4096 8192 opened moving (λ a. 7)
      (record { base = 9; size = 4 }) hd2a-IsRequest (omega arith)
