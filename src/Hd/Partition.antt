-- ===== src/Hd/Partition.antt =====
-- hd_open(), hd_close(), hd_ioctl(), hd_identify(), get_part_table() and partition() of
-- kernel/hd.c. `dev` is the disk in bytes, which the drive reads from the sector on that its
-- registers name. print_hdinfo() and print_identify_info() only print.
pub mod Tables
pub mod Entries
pub mod Places
pub mod Open
use kusa_os.Base.{
  ℕ, zero, suc, ◌+◌, ◌-◌, ◌*◌, ◌/◌, ◌%◌, ◌^◌, Bool, true, false, Result, ok, err, Fault, ◌>>=◌,
  ◌>>◌, assert, ltb, ◌==◌, not, if◌then◌else◌, update,
}
use kusa_os.Kernel.{u32_mod}
use kusa_os.Kernel.Memory.{load_int}
use kusa_os.Fs.Bitmap.{sector_size}
use kusa_os.Fs.Transfer.{reading}
use kusa_os.Hd.{
  Hd, HdInfo, HdCmd, PartInfo, PartEnt, Drive, gives_sectors, gives_identity, takes_sectors,
  no_data, drv_of_dev, make_device_reg, hd_cmd_out, rdwt_cmd, nr_part_per_drive, nr_sub_per_part,
  nr_sub_per_drive, nr_prim_per_drive, max_prim, minor_hd1a, no_part, ext_part,
}

-- The i-th entry of the partition table in a sector
abbrev pub part_ent : (ℕ → ℕ) → ℕ → PartEnt
part_ent hdbuf i = record {
  sys_id = hdbuf (446 + 16 * i + 4);
  start_sect = load_int hdbuf (446 + 16 * i + 8);
  nr_sects = load_int hdbuf (446 + 16 * i + 12);
}

-- What the interrupt_wait() and port_read() after a command bring into hdbuf. The drive has no
-- interrupt for data after a command that gives none.
abbrev pub data_in : Drive → (ℕ → ℕ) → (ℕ → ℕ) → Result (ℕ → ℕ)
data_in drive dev regs = elim (drive.action regs) [
  | gives_sectors ↦ ok (λ a. dev (drive.first regs * sector_size + a))
  | gives_identity ↦ ok drive.identify
  | takes_sectors ↦ err Fault.spins
  | no_data ↦ err Fault.spins
]

-- The registers after, and the table
unfoldable pub get_part_table : Drive → (ℕ → ℕ) → (ℕ → ℕ) → ℕ → ℕ → Result ((ℕ → ℕ) × (ℕ → PartEnt))
get_part_table drive dev regs drv sect_nr =
    hd_cmd_out drive (rdwt_cmd reading drv 1 sect_nr) regs >>= λ regs'.
    data_in drive dev regs' >>= λ hdbuf. ok (regs', part_ent hdbuf)

abbrev pub set_logical : Hd → ℕ → PartInfo → Hd
set_logical hd i p = record hd { info = record hd.info { logical = update (hd.info).logical i p } }

abbrev pub set_primary : Hd → ℕ → PartInfo → Hd
set_primary hd i p = record hd { info = record hd.info { primary = update (hd.info).primary i p } }

-- The logical partition that a table describes, and the sector of the next table
abbrev pub logical_of : ℕ → (ℕ → PartEnt) → PartInfo
logical_of s part_tbl = record {
  base = (s + (part_tbl 0).start_sect) % u32_mod;
  size = (part_tbl 0).nr_sects;
}

abbrev pub next_sect : ℕ → (ℕ → PartEnt) → ℕ
next_sect ext_start_sect part_tbl = (ext_start_sect + (part_tbl 1).start_sect) % u32_mod

abbrev pub is_last : (ℕ → PartEnt) → Bool
is_last part_tbl = (part_tbl 1).sys_id == no_part

-- The loop over an extended partition, with the number of turns that are left
unfoldable pub logicals_from : Drive → (ℕ → ℕ) → ℕ → ℕ → ℕ → ℕ → ℕ → Hd → Result Hd
logicals_from drive dev drv zero ext dev_nr s hd = ok hd
logicals_from drive dev drv (suc n) ext dev_nr s hd =
    get_part_table drive dev hd.regs drv s >>= λ (regs', part_tbl).
    let hd' = set_logical (record hd { regs = regs' }) dev_nr (logical_of s part_tbl) in
    elim (is_last part_tbl) [
      | true ↦ ok hd'
      | false ↦ logicals_from drive dev drv n ext (dev_nr + 1) (next_sect ext part_tbl) hd'
    ]

-- partition() with P_EXTENDED; device 0 of a drive is no partition.
unfoldable pub partition_extended : Drive → (ℕ → ℕ) → ℕ → Hd → Result Hd
partition_extended drive dev device hd =
    let j = device % nr_prim_per_drive in
    let ext_start_sect = ((hd.info).primary j).base in
    if j == 0
    then err Fault.wild
    else logicals_from drive dev (drv_of_dev device) nr_sub_per_part ext_start_sect
        ((j - 1) * nr_sub_per_part) ext_start_sect hd

abbrev pub primary_of : PartEnt → PartInfo
primary_of entry = record { base = entry.start_sect; size = entry.nr_sects }

-- The loop over the primary partitions: the entries that are left, the index, the number of
-- partitions so far
unfoldable pub primaries_from :
    Drive → (ℕ → ℕ) → ℕ → (ℕ → PartEnt) → ℕ → ℕ → ℕ → Hd → Result (ℕ × Hd)
primaries_from drive dev device part_tbl zero i nr_prim_parts hd = ok (nr_prim_parts, hd)
primaries_from drive dev device part_tbl (suc n) i nr_prim_parts hd =
    elim ((part_tbl i).sys_id == no_part) [
      | true ↦ primaries_from drive dev device part_tbl n (i + 1) nr_prim_parts hd
      | false ↦
          let hd' = set_primary hd (i + 1) (primary_of (part_tbl i)) in
          (if (part_tbl i).sys_id == ext_part
            then partition_extended drive dev (device + (i + 1)) hd'
            else ok hd')
          >>= λ hd2. primaries_from drive dev device part_tbl n (i + 1) (nr_prim_parts + 1) hd2
    ]

-- partition() with P_PRIMARY
unfoldable pub partition_primary : Drive → (ℕ → ℕ) → ℕ → Hd → Result Hd
partition_primary drive dev device hd =
    get_part_table drive dev hd.regs (drv_of_dev device) (drv_of_dev device)
    >>= λ (regs', part_tbl).
        primaries_from drive dev device part_tbl nr_part_per_drive 0 0 (record hd { regs = regs' })
        >>= λ (nr_prim_parts, hd'). assert (not (nr_prim_parts == 0)) >> ok hd'

-- hd_identify(); the registers that it does not set keep what they hold on the stack, `junk`.
abbrev pub identify_cmd : HdCmd → ℕ → HdCmd
identify_cmd junk drv = record junk { device = make_device_reg 0 drv 0 % 256; command = 0xEC }

abbrev pub u16_at : (ℕ → ℕ) → ℕ → ℕ
u16_at buf i = buf (2 * i) + 256 * buf (2 * i + 1)

unfoldable pub hd_identify : Drive → (ℕ → ℕ) → HdCmd → ℕ → Hd → Result Hd
hd_identify drive dev junk drv hd = do
  regs' ← hd_cmd_out drive (identify_cmd junk drv) hd.regs
  hdbuf ← data_in drive dev regs'
  let sectors = (u16_at hdbuf 61 * 65536 + u16_at hdbuf 60) % u32_mod
  ok (set_primary (record hd { regs = regs' }) 0 (record { base = 0; size = sectors }))

-- The driver's state before the first open. The number of drives is what the BIOS has found; the
-- handler that is installed is hd_handler().
abbrev pub init_hd : ℕ → Hd → Result Hd
init_hd nr_drives hd =
    assert (not (nr_drives == 0))
    >> ok (record hd {
      info = record {
        open_cnt = 0;
        primary = λ i. record { base = 0; size = 0 };
        logical = λ i. record { base = 0; size = 0 };
      };
    })

unfoldable pub hd_open : Drive → (ℕ → ℕ) → HdCmd → ℕ → Hd → Result Hd
hd_open drive dev junk device hd =
    let drv = drv_of_dev device in
    assert (drv == 0) >> hd_identify drive dev junk drv hd >>= λ hd1.
    let counted = record hd1 {
      info = record hd1.info { open_cnt = ((hd1.info).open_cnt + 1) % u32_mod };
    } in
    if (hd1.info).open_cnt == 0
    then partition_primary drive dev (drv * (nr_part_per_drive + 1)) counted
    else ok counted

unfoldable pub hd_close : ℕ → Hd → Result Hd
hd_close device hd = do
  assert (drv_of_dev device == 0)
  ok (record hd {
    info = record hd.info { open_cnt = ((hd.info).open_cnt + (u32_mod - 1)) % u32_mod };
  })

-- The partition that a device number names; another drive, or a number before the first logical
-- partition, is outside hd_info.
unfoldable pub part_of : HdInfo → ℕ → Result PartInfo
part_of info device =
    if drv_of_dev device == 0
    then (if ltb device max_prim
        then ok (info.primary device)
        else if ltb device minor_hd1a
        then err Fault.wild
        else ok (info.logical ((device - minor_hd1a) % nr_sub_per_drive)))
    else err Fault.wild

-- hd_ioctl(): what is copied to the caller, for DIOCTL_GET_GEO
unfoldable pub hd_ioctl : HdInfo → ℕ → ℕ → Result PartInfo
hd_ioctl info request device =
    if request == 1 then part_of info device else assert false >> err Fault.assert_failed
