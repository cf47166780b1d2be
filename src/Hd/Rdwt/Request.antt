-- ===== src/Hd/Rdwt/Request.antt =====
-- hd_rdwt() of kernel/hd.c on a partition.
use mathlib.Core.Logic.{◌↔◌}
use kusa_os.Base.{
  ℕ, ◌+◌, ◌-◌, ◌*◌, ◌/◌, ◌%◌, ◌^◌, ◌≤◌, ◌<◌, ◌≡◌, refl, sym, ap, ◌∙◌, arith, Result, ok, err, Fault,
  ◌>>=◌, ◌==◌, ==_iff, if◌then◌else◌, ne→==, lt→ltb,
}
use native.Mathlib.Decide.{ℕ_discrete}
use kusa_os.Kernel.Signed.{pos}
use kusa_os.Fs.Transfer.{Way, reading, writing}
use kusa_os.Hd.{Hd, HdInfo, PartInfo, Drive, drv_of_dev, load_cmd, rdwt_cmd}
use kusa_os.Hd.Partition.{part_of}
use kusa_os.Hd.Command.{IsAta, wanted, IsStarted, hd_cmd_out-IsStarted}
use kusa_os.Hd.Rdwt.{Moving, sect_of, served, move_from, hd_rdwt}
use kusa_os.Hd.Rdwt.Sectors.{IsMoved, move_from-IsMoved, move_from-whole}

-- Only drive 0 has partitions.
part_of-drive :
    (info : HdInfo) (device : ℕ) (part : PartInfo)
    → part_of info device ≡ ok part
    → drv_of_dev device ≡ 0
unfolding part_of
part_of-drive info device part e = elim (ℕ_discrete (drv_of_dev device) 0) [
  | yes q ↦ q
  | no ne ↦ elim (wild (sym (rw (ne→== (drv_of_dev device) 0 ne, part_of) refl) ∙ e)) [ ]
]
  where
    wild : ◌≡◌ {A = Result PartInfo} (err Fault.wild) (ok part) → ⊥
    wild h = ground (arith, h)

-- A request for a partition, at the start of one of its sectors
pub record IsRequest (info : HdInfo) (device position p : ℕ) (part : PartInfo) : Type 0 where
  pub partition : part_of info device ≡ ok part
  pub sector : position ≡ p * 512
  pub range : part.base + p < 2 ^ 28

abbrev count_of : ℕ → ℕ
count_of cnt = (cnt + 512 - 1) / 512

abbrev blocks_of : ℕ → ℕ
blocks_of cnt = if count_of cnt % 256 == 0 then 256 else count_of cnt % 256

served-wanted : (way : Way) (n : ℕ) → served way (wanted way) n ≡ n
served-wanted reading n = refl
served-wanted writing n = refl

module _ (drive : Drive) (ata : IsAta drive) (way : Way) (device position p cnt la : ℕ) (hd : Hd)
    (io : Moving) (part : PartInfo) (request : IsRequest hd.info device position p part) where
  loaded : ℕ → ℕ
  loaded = load_cmd (rdwt_cmd way 0 (count_of cnt) (sect_of part position)) hd.regs

  finish : Moving → Result (Hd × Moving)
  finish done = ok (record hd { regs = loaded }, done)

  hd_rdwt-run :
      hd_rdwt drive way device position cnt la hd io
      ≡ (move_from way (blocks_of cnt) la (part.base + p) (pos cnt) io >>= finish)
  unfolding hd_rdwt loaded finish
  hd_rdwt-run =
      rw
        (
          lt→ltb (position / 512) (2 ^ 64 - 2 ^ 31) low,
          (==_iff (position % 512) 0).1 aligned,
          request.partition,
          part_of-drive hd.info device part request.partition,
          started.returns,
          started.action,
          started.first,
          started.blocks,
          place,
          served-wanted way (blocks_of cnt),
          hd_rdwt,
        )
        refl
    where
      low : position / 512 < 2 ^ 64 - 2 ^ 31
      low = omega (arith, request.sector, request.range)

      aligned : position % 512 ≡ 0
      aligned = omega (arith, request.sector)

      started :
          IsStarted drive way
            (count_of cnt)
            (sect_of part position)
            hd.regs
            (load_cmd (rdwt_cmd way 0 (count_of cnt) (sect_of part position)) hd.regs)
      started = hd_cmd_out-IsStarted drive ata way (count_of cnt) (sect_of part position) hd.regs

      place : sect_of part position % 2 ^ 28 ≡ part.base + p
      place = omega (arith, request.sector, request.range)

-- How many sectors the drive has for a request of `n`
enough : (n : ℕ) → n ≤ 256 → n ≤ blocks_of (n * 512)
enough n h = ground (arith, h)

no_more : (cnt : ℕ) → blocks_of cnt ≤ 256
no_more cnt = ground arith

-- With an ATA drive that gets ready in time: a request of at most 256 whole sectors, from the
-- start of a sector of a partition on, where that sector's number on the disk is below 2 ^ 28,
-- returns. It moves exactly those sectors between the caller's buffer and the place that the
-- partition has on the disk, in the direction asked for, leaves every other byte of both as it
-- was, and keeps the partition table of the driver.
pub hd_rdwt-IsMoved :
    (drive : Drive)
    → IsAta drive
    → (way : Way) (device position p n la : ℕ) (hd : Hd) (io : Moving) (part : PartInfo)
    → IsRequest hd.info device position p part
    → n ≤ 256
    → (hd' : Hd) × (io' : Moving) × (hd_rdwt drive way device position (n * 512) la hd io
        ≡ ok (hd', io'))
      × IsMoved way la ((part.base + p) * 512) (n * 512) io io'
      × (hd'.info ≡ hd.info)
unfolding finish
hd_rdwt-IsMoved drive ata way device position p n la hd io part request few =
    let (io', returns, moved) =
      move_from-IsMoved n way (blocks_of (n * 512)) la (part.base + p) io (enough n few) in
    (
      record hd { regs = loaded drive ata way device position p (n * 512) la hd io part request },
      io',
      hd_rdwt-run drive ata way device position p (n * 512) la hd io part request
          ∙ ap (λ r. r >>= finish drive ata way device position p (n * 512) la hd io part request)
              returns,
      moved,
      refl,
    )

first_ok {ℓ κ} :
    {A : Type ℓ} {B : Type κ} (first : Result A) (rest : A → Result B) (b : B)
    → (first >>= rest) ≡ ok b
    → (a : A) × (first ≡ ok a)
first_ok (err fault) rest b e = ground (arith, e)
first_ok (ok a) rest b e = (a, refl)

whole_cnt : (cnt : ℕ) → cnt % 512 ≡ 0 → cnt / 512 * 512 ≡ cnt
whole_cnt cnt h = omega (arith, h)

-- With an ATA drive that gets ready in time: a request from the start of a sector of a
-- partition on, where that sector's number on the disk is below 2 ^ 28, returns exactly
-- where it asks for whole sectors, and for no more than 256 of them.
pub hd_rdwt_iff :
    (drive : Drive)
    → IsAta drive
    → (way : Way) (device position p cnt la : ℕ) (hd : Hd) (io : Moving) (part : PartInfo)
    → IsRequest hd.info device position p part
    → ((hd' : Hd) × (io' : Moving) × (hd_rdwt drive way device position cnt la hd io
          ≡ ok (hd', io')))
      ↔ ((cnt % 512 ≡ 0) × (cnt ≤ 256 * 512))
hd_rdwt_iff drive ata way device position p cnt la hd io part request = (
  λ (hd', io', e).
      let (done, moved) =
        first_ok (move_from way (blocks_of cnt) la (part.base + p) (pos cnt) io)
          (finish drive ata way device position p cnt la hd io part request) (hd', io')
          (sym (hd_rdwt-run drive ata way device position p cnt la hd io part request) ∙ e) in
      let (whole, most) =
        move_from-whole (blocks_of cnt) way la (part.base + p) cnt io done moved in
      (whole, omega (arith, most, no_more cnt)),
  λ (whole, few).
      let (hd', io', e, moved, same) =
        hd_rdwt-IsMoved drive ata way device position p (cnt / 512) la hd io part request
          (omega (arith, few)) in
      (
        hd',
        io',
        ap (λ c. hd_rdwt drive way device position c la hd io) (sym (whole_cnt cnt whole)) ∙ e,
      ),
)
