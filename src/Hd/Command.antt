-- ===== src/Hd/Command.antt =====
-- The commands of kernel/hd.c as the drive reads them.
use kusa_os.Base.{
  ℕ, ◌+◌, ◌*◌, ◌/◌, ◌%◌, ◌^◌, ◌<◌, ◌≡◌, refl, ◌∙◌, ap, arith, Bool, true, ◌&&◌, ok, ◌==◌,
  if◌then◌else◌,
}
use kusa_os.Base.Tests.{all_below, all_below_at}
use kusa_os.Fs.Transfer.{Way, reading, writing}
use kusa_os.Hd.{
  Drive, Action, gives_sectors, takes_sectors, gives_identity, reg_cmd, make_device_reg, waitfor,
  load_cmd, hd_cmd_out, rdwt_cmd, reg_nsector, reg_lba_low, reg_lba_mid, reg_lba_high, reg_device,
}

-- A drive that becomes ready in time, and reads its registers as ATA lays down. It is the master,
-- which bit 4 of the device register selects with 0: then the command 0x20 reads sectors, 0x30
-- writes sectors, and 0xEC makes it describe itself. With bit 6 of the device register set, the
-- sector has 28 bits, four of them in that register; a count of 0 is 256.
pub record IsAta (drive : Drive) : Type 0 where
  pub ready : waitfor 128 0 10000 drive.started drive.readings ≡ ok true
  pub reads :
      (regs : ℕ → ℕ)
      → regs reg_device / 16 % 2 ≡ 0
      → regs reg_cmd ≡ 0x20
      → drive.action regs ≡ gives_sectors
  pub writes :
      (regs : ℕ → ℕ)
      → regs reg_device / 16 % 2 ≡ 0
      → regs reg_cmd ≡ 0x30
      → drive.action regs ≡ takes_sectors
  pub identifies :
      (regs : ℕ → ℕ)
      → regs reg_device / 16 % 2 ≡ 0
      → regs reg_cmd ≡ 0xEC
      → drive.action regs ≡ gives_identity
  pub first :
      (regs : ℕ → ℕ)
      → regs reg_device / 64 % 2 ≡ 1
      → drive.first regs
        ≡ regs reg_lba_low
          + 256 * regs reg_lba_mid
          + 65536 * regs reg_lba_high
          + 16777216 * (regs reg_device % 16)
  pub blocks :
      (regs : ℕ → ℕ) → drive.blocks regs ≡ (if regs reg_nsector == 0 then 256 else regs reg_nsector)

-- The device register for drive 0, checked for every value of its four bits
good_device : ℕ → Bool
good_device n =
    let d = make_device_reg 1 0 n % 256 in (d % 16 == n) && (d / 64 % 2 == 1) && (d / 16 % 2 == 0)

devices : all_below 16 good_device ≡ true
unfolding all_below good_device
devices = refl

device_reg :
    (n : ℕ)
    → n < 16
    → (make_device_reg 1 0 n % 256 % 16 ≡ n)
      × (make_device_reg 1 0 n % 256 / 64 % 2 ≡ 1)
      × (make_device_reg 1 0 n % 256 / 16 % 2 ≡ 0)
unfolding good_device
device_reg n lt = read (make_device_reg 1 0 n % 256) (all_below_at 16 good_device n devices lt)
  where
    read :
        (d : ℕ)
        → ((d % 16 == n) && (d / 64 % 2 == 1) && (d / 16 % 2 == 0)) ≡ true
        → (d % 16 ≡ n) × (d / 64 % 2 ≡ 1) × (d / 16 % 2 ≡ 0)
    read d h = (ground arith, ground arith, ground arith)

-- What a drive has to do for a request
abbrev pub wanted : Way → Action
wanted reading = gives_sectors
wanted writing = takes_sectors

-- hd_cmd_out() with a command that reads or writes loads it, and the drive then does what is wanted
-- of it, and takes the sector and the count from its registers.
pub record IsStarted (drive : Drive) (way : Way) (count s : ℕ) (regs regs' : ℕ → ℕ) : Type 0 where
  pub returns : hd_cmd_out drive (rdwt_cmd way 0 count s) regs ≡ ok regs'
  pub action : drive.action regs' ≡ wanted way
  pub first : drive.first regs' ≡ s % 2 ^ 28
  pub blocks : drive.blocks regs' ≡ (if count % 256 == 0 then 256 else count % 256)

pub hd_cmd_out-IsStarted :
    (drive : Drive)
    → IsAta drive
    → (way : Way) (count s : ℕ) (regs : ℕ → ℕ)
    → IsStarted drive way count s regs (load_cmd (rdwt_cmd way 0 count s) regs)
unfolding hd_cmd_out
hd_cmd_out-IsStarted drive ata way count s regs = record {
  returns = rw ata.ready refl;
  action = obeyed way;
  first = ata.first (load_cmd (rdwt_cmd way 0 count s) regs) lba ∙ sector;
  blocks = ata.blocks (load_cmd (rdwt_cmd way 0 count s) regs);
}
  where
    top : ℕ
    top = s / 16777216 % 16

    master : make_device_reg 1 0 top % 256 / 16 % 2 ≡ 0
    master = (device_reg top (omega arith)).2

    obeyed : (way : Way) → drive.action (load_cmd (rdwt_cmd way 0 count s) regs) ≡ wanted way
    obeyed reading = ata.reads (load_cmd (rdwt_cmd reading 0 count s) regs) master refl
    obeyed writing = ata.writes (load_cmd (rdwt_cmd writing 0 count s) regs) master refl

    lba : make_device_reg 1 0 top % 256 / 64 % 2 ≡ 1
    lba = (device_reg top (omega arith)).1

    sector :
        s % 256
          + 256 * (s / 256 % 256)
          + 65536 * (s / 65536 % 256)
          + 16777216 * (make_device_reg 1 0 top % 256 % 16)
        ≡ s % 2 ^ 28
    sector =
        ap (λ d. s % 256 + 256 * (s / 256 % 256) + 65536 * (s / 65536 % 256) + 16777216 * d)
          ((device_reg top (omega arith)).0)
        ∙ omega arith
