-- ===== src/Hd.antt =====
-- The disk driver, kernel/hd.c and include/sys/hd.h: its data, and the commands that it gives to
-- the drive. The drive is a parameter. A u8 and a u32 are kept modulo their widths; open_cnt is an
-- int modulo 2 ^ 32. Only drive 0 has an entry of hd_info.
pub mod Partition
pub mod Rdwt
pub mod Task
pub mod Command
use kusa_os.Base.{
  ℕ, ◌+◌, ◌-◌, ◌*◌, ◌/◌, ◌%◌, Bool, true, false, ◌&&◌, List, [], ◌∷◌, Result, ok, err, Fault, ◌>>=◌,
  ltb, leb, ◌==◌, if◌then◌else◌, update,
}
use Prim.Native.Nat.{bit_or, bit_and}
use kusa_os.Fs.Transfer.{Way, reading, writing}

abbrev pub nr_part_per_drive : ℕ
nr_part_per_drive = 4

abbrev pub nr_sub_per_part : ℕ
nr_sub_per_part = 16

abbrev pub nr_sub_per_drive : ℕ
nr_sub_per_drive = 64

abbrev pub nr_prim_per_drive : ℕ
nr_prim_per_drive = 5

abbrev pub max_prim : ℕ
max_prim = 9

abbrev pub minor_hd1a : ℕ
minor_hd1a = 16

abbrev pub no_part : ℕ
no_part = 0

abbrev pub ext_part : ℕ
ext_part = 5

pub record HdCmd : Type 0 where
  pub features : ℕ
  pub count : ℕ
  pub lba_low : ℕ
  pub lba_mid : ℕ
  pub lba_high : ℕ
  pub device : ℕ
  pub command : ℕ

pub record PartInfo : Type 0 where
  pub base : ℕ
  pub size : ℕ

pub record HdInfo : Type 0 where
  pub open_cnt : ℕ
  pub primary : ℕ → PartInfo
  pub logical : ℕ → PartInfo

-- An entry of a partition table, as far as it is used
pub record PartEnt : Type 0 where
  pub sys_id : ℕ
  pub start_sect : ℕ
  pub nr_sects : ℕ

-- The driver's state: hd_info[0], and what the registers of the drive hold.
pub record Hd : Type 0 where
  pub info : HdInfo
  pub regs : ℕ → ℕ

-- What a drive does with a command: it gives the data of sectors, it takes data for sectors, it
-- gives the sector that describes it, or it moves no data.
pub data Action : Type 0 where
  gives_sectors takes_sectors gives_identity no_data : Action

-- What the hardware does with a command, by the registers that it has been given: the times and
-- the values of the status register that the wait before it reads, with the time that it starts
-- at, what the command makes it do, the first sector and the number of sectors. `identify` is the sector that
-- the drive describes itself with.
pub record Drive : Type 0 where
  pub started : ℕ
  pub readings : List (ℕ × ℕ)
  pub action : (ℕ → ℕ) → Action
  pub first : (ℕ → ℕ) → ℕ
  pub blocks : (ℕ → ℕ) → ℕ
  pub identify : ℕ → ℕ

-- DRV_OF_DEV
abbrev pub drv_of_dev : ℕ → ℕ
drv_of_dev dev =
    if leb dev max_prim then dev / nr_prim_per_drive else (dev - minor_hd1a) / nr_sub_per_drive

-- MAKE_DEVICE_REG
abbrev pub make_device_reg : ℕ → ℕ → ℕ → ℕ
make_device_reg lba drv lba_highest =
    bit_or (bit_or (bit_or (lba * 64) (drv * 16)) (bit_and lba_highest 15)) 160

abbrev pub reg_features : ℕ
reg_features = 0x1F1

abbrev pub reg_nsector : ℕ
reg_nsector = 0x1F2

abbrev pub reg_lba_low : ℕ
reg_lba_low = 0x1F3

abbrev pub reg_lba_mid : ℕ
reg_lba_mid = 0x1F4

abbrev pub reg_lba_high : ℕ
reg_lba_high = 0x1F5

abbrev pub reg_device : ℕ
reg_device = 0x1F6

abbrev pub reg_cmd : ℕ
reg_cmd = 0x1F7

abbrev pub reg_dev_ctrl : ℕ
reg_dev_ctrl = 0x3F6

-- waitfor(), on the pairs of get_ticks() and the status register that its turns read
unfoldable pub waitfor : ℕ → ℕ → ℕ → ℕ → List (ℕ × ℕ) → Result Bool
waitfor mask val timeout t [] = err Fault.spins
waitfor mask val timeout t ((now, status) ∷ rest) = elim (ltb ((now - t) * 1000 / 100) timeout) [
  | false ↦ ok false
  | true ↦ elim (bit_and status mask == val) [
    | true ↦ ok true
    | false ↦ waitfor mask val timeout t rest
  ]
]

-- The registers after the out_byte() calls
abbrev pub load_cmd : HdCmd → (ℕ → ℕ) → ℕ → ℕ
load_cmd cmd regs0 =
    let regs1 = update regs0 reg_dev_ctrl 0 in
    let regs2 = update regs1 reg_features cmd.features in
    let regs3 = update regs2 reg_nsector cmd.count in
    let regs4 = update regs3 reg_lba_low cmd.lba_low in
    let regs5 = update regs4 reg_lba_mid cmd.lba_mid in
    let regs6 = update regs5 reg_lba_high cmd.lba_high in
    let regs7 = update regs6 reg_device cmd.device in update regs7 reg_cmd cmd.command

unfoldable pub hd_cmd_out : Drive → HdCmd → (ℕ → ℕ) → Result (ℕ → ℕ)
unfolding waitfor
hd_cmd_out drive cmd regs = waitfor 128 0 10000 drive.started drive.readings >>= λ idle.
    if idle then ok (load_cmd cmd regs) else err Fault.panicked

abbrev pub ata_command : Way → ℕ
ata_command reading = 0x20
ata_command writing = 0x30

-- The command of hd_rdwt(), and with a count of 1 and ATA_READ the one of get_part_table()
abbrev pub rdwt_cmd : Way → ℕ → ℕ → ℕ → HdCmd
rdwt_cmd way drive count sect_nr = record {
  features = 0;
  count = count % 256;
  lba_low = sect_nr % 256;
  lba_mid = sect_nr / 256 % 256;
  lba_high = sect_nr / 65536 % 256;
  device = make_device_reg 1 drive (sect_nr / 16777216 % 16) % 256;
  command = ata_command way;
}
