-- ===== src/Hd/Task.antt =====
-- task_hd() of kernel/hd.c: one turn of its loop, and what a write and a later read have in common.
use mathlib.Core.Path.{subst}
use kusa_os.Base.{
  ℕ, ◌+◌, ◌-◌, ◌*◌, ◌≤◌, ◌<◌, ◌≡◌, sym, ap, ◌∙◌, arith, Result, ok, err, Fault, ◌>>=◌,
}
use kusa_os.Kernel.Memory.{store_int}
use kusa_os.Fs.Transfer.{Way, reading, writing}
use kusa_os.Fs.Transfer.Overlay.{overlay-inside}
use kusa_os.Hd.{Hd, HdCmd, PartInfo, Drive}
use kusa_os.Hd.Command.{IsAta}
use kusa_os.Hd.Partition.{hd_open, hd_close, hd_ioctl}
use kusa_os.Hd.Rdwt.{Moving, hd_rdwt}
use kusa_os.Hd.Rdwt.Request.{IsRequest, hd_rdwt-IsMoved}

-- The type of a message
pub data Kind : Type 0 where
  dev_open dev_close dev_ioctl unknown : Kind
  dev_rdwt : Way → Kind

-- A message, with the linear address of its buffer
pub record HdMessage : Type 0 where
  pub kind : Kind
  pub device : ℕ
  pub position : ℕ
  -- CNT, or REQUEST: one field of MESSAGE
  pub cnt : ℕ
  pub la : ℕ

-- hd_ioctl() copies a struct part_info to the caller.
unfoldable pub copy_part_info : ℕ → PartInfo → (ℕ → ℕ) → ℕ → ℕ
copy_part_info la part mem = store_int (la + 4) part.size (store_int la part.base mem)

-- A type that the driver does not know ends in spin().
unfoldable pub task_hd : Drive → HdCmd → HdMessage → Hd → Moving → Result (Hd × Moving)
task_hd drive junk msg hd io = elim msg.kind [
  | dev_open ↦ hd_open drive io.dev junk msg.device hd >>= λ hd'. ok (hd', io)
  | dev_close ↦ hd_close msg.device hd >>= λ hd'. ok (hd', io)
  | dev_rdwt way ↦ hd_rdwt drive way msg.device msg.position msg.cnt msg.la hd io
  | dev_ioctl ↦ hd_ioctl hd.info msg.cnt msg.device >>= λ part.
      ok (hd, record io { mem = copy_part_info msg.la part io.mem })
  | unknown ↦ err Fault.spins
]

abbrev pub rdwt_message : Way → ℕ → ℕ → ℕ → ℕ → HdMessage
rdwt_message way device position cnt la = record {
  kind = Kind.dev_rdwt way;
  device = device;
  position = position;
  cnt = cnt;
  la = la;
}

-- With an ATA drive that gets ready in time: after a write of at most 256 whole sectors of a
-- partition, the first of them below the sector 2 ^ 28 of the disk, a read of the same sectors, to another
-- memory and buffer, returns the bytes that were written; the driver answers both messages.
pub task_hd-back :
    (drive : Drive)
    → IsAta drive
    → (junk : HdCmd) (device position p n la la2 : ℕ) (hd : Hd) (io : Moving) (mem2 : ℕ → ℕ)
      (part : PartInfo)
    → IsRequest hd.info device position p part
    → n ≤ 256
    → (hd1 hd2 : Hd) × (io1 io2 : Moving) × (task_hd drive junk
          (rdwt_message writing device position (n * 512) la)
          hd
          io
        ≡ ok (hd1, io1))
      × (task_hd drive junk
            (rdwt_message reading device position (n * 512) la2)
            hd1
            (record io1 { mem = mem2 })
          ≡ ok (hd2, io2))
      × ((a : ℕ) → a < n * 512 → io2.mem (la2 + a) ≡ io.mem (la + a))
unfolding task_hd
task_hd-back drive ata junk device position p n la la2 hd io mem2 part request few =
    let (hd1, io1, written, wrote, same) =
      hd_rdwt-IsMoved drive ata writing device position p n la hd io part request few in
    let (hd2, io2, returns, got, kept) =
      hd_rdwt-IsMoved drive ata reading device position p n la2 hd1 (record io1 { mem = mem2 }) part
        (subst (λ info. IsRequest info device position p part) (sym same) request) few in
    (
      hd1,
      hd2,
      io1,
      io2,
      written,
      returns,
      λ a lt.
          got.mem (la2 + a)
          ∙ overlay-inside mem2 (λ x. io1.dev ((part.base + p) * 512 + x)) la2 (n * 512) (la2 + a)
              (omega arith) (omega arith)
          ∙ wrote.dev ((part.base + p) * 512 + (la2 + a - la2))
          ∙ overlay-inside io.dev (λ x. io.mem (la + x)) ((part.base + p) * 512) (n * 512)
              ((part.base + p) * 512 + (la2 + a - la2)) (omega arith) (omega arith)
          ∙ ap io.mem (omega arith),
    )
