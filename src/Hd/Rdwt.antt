-- ===== src/Hd/Rdwt.antt =====
-- hd_rdwt() of kernel/hd.c. `mem` is the memory and `la` the linear address of the caller's buffer,
-- `dev` the disk in bytes. Each round waits for the drive, which has as many interrupts and data
-- requests for a command as it has sectors.
pub mod Sectors
pub mod Request
use kusa_os.Base.{
  ℕ, zero, suc, ◌+◌, ◌-◌, ◌*◌, ◌/◌, ◌%◌, ◌^◌, Bool, true, false, Result, ok, err, Fault, ◌>>=◌,
  ◌>>◌, assert, ltb, leb, ◌==◌,
}
use kusa_os.Kernel.Signed.{ℤ, pos, negsuc, sub_ℕ}
use kusa_os.Fs.Transfer.{Way, reading, writing, min, overlay}
use kusa_os.Hd.{
  Hd, Drive, Action, gives_sectors, takes_sectors, gives_identity, no_data, PartInfo, drv_of_dev,
  hd_cmd_out, rdwt_cmd,
}
use kusa_os.Hd.Partition.{part_of}
use kusa_os.Kernel.{u32_mod}
use kusa_os.Fs.Bitmap.{sector_size}

-- The memory, and the disk
pub record Moving : Type 0 where
  pub mem : ℕ → ℕ
  pub dev : ℕ → ℕ

-- The sector `s` is read into hdbuf, and `bytes` of it are copied; or `bytes` are given to the
-- drive for it.
unfoldable pub move_sector : Way → ℕ → ℕ → ℕ → Moving → Moving
move_sector reading la s bytes io = record io {
  mem = overlay io.mem la bytes (λ a. io.dev (s * sector_size + a));
}
move_sector writing la s bytes io = record io {
  dev = overlay io.dev (s * sector_size) bytes (λ a. io.mem (la + a));
}

-- A wait that is not answered: interrupt_wait() blocks, waitfor() runs out of time.
abbrev pub no_answer : Way → Fault
no_answer reading = Fault.spins
no_answer writing = Fault.panicked

-- The drive's interrupt comes when it has given or got a whole sector.
abbrev pub is_answered : Way → ℕ → Bool
is_answered reading n = true
is_answered writing n = leb sector_size n

-- The loop, with the number of sectors that the drive still has. A count below 0 is
-- the size of a copy that has no end.
unfoldable pub move_from : Way → ℕ → ℕ → ℕ → ℤ → Moving → Result Moving
unfolding move_sector
move_from way zero la s (pos zero) io = ok io
move_from way zero la s (pos (suc n)) io = err (no_answer way)
move_from way zero la s (negsuc n) io = err (no_answer way)
move_from way (suc b) la s (pos zero) io = ok io
move_from way (suc b) la s (pos (suc n)) io = elim (is_answered way (suc n)) [
  | true ↦
      move_from way b (la + sector_size) (s + 1) (sub_ℕ (suc n) sector_size)
        (move_sector way la s (min sector_size (suc n)) io)
  | false ↦ err Fault.spins
]
move_from way (suc b) la s (negsuc n) io = err Fault.wild

-- The sectors that the drive moves in the direction of the loop; a drive that does something else
-- gives the loop no answer.
abbrev pub served : Way → Action → ℕ → ℕ
served reading gives_sectors n = n
served writing takes_sectors n = n
served reading takes_sectors n = 0
served reading gives_identity n = 0
served reading no_data n = 0
served writing gives_sectors n = 0
served writing gives_identity n = 0
served writing no_data n = 0

abbrev pub sect_of : PartInfo → ℕ → ℕ
sect_of part position = (position / sector_size % u32_mod + part.base) % u32_mod

-- `1 << 31` is negative, and as a u64 it is 2 ^ 64 - 2 ^ 31.
unfoldable pub hd_rdwt : Drive → Way → ℕ → ℕ → ℕ → ℕ → Hd → Moving → Result (Hd × Moving)
unfolding move_from
hd_rdwt drive way device position cnt la hd io =
    assert (ltb (position / sector_size) (2 ^ 64 - 2 ^ 31))
    >> assert (position % sector_size == 0)
    >> part_of hd.info device
    >>= λ part.
        hd_cmd_out drive
          (rdwt_cmd way (drv_of_dev device) ((cnt + sector_size - 1) / sector_size)
            (sect_of part position))
          hd.regs
        >>= λ regs'.
            move_from way (served way (drive.action regs') (drive.blocks regs')) la
              (drive.first regs') (pos cnt) io
            >>= λ done. ok (record hd { regs = regs' }, done)
