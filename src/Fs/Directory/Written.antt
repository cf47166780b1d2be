-- ===== src/Fs/Directory/Written.antt =====
-- new_dir_entry() of fs/open.c: the device after the entry is written.
use mathlib.Core.Path.{subst}
use kusa_os.Base.{ℕ, suc, ◌+◌, ◌-◌, ◌*◌, ◌^◌, ◌≤◌, ◌<◌, ◌≡◌, ◌⊎◌, inl, inr, sym, ap, ◌∙◌, arith, ok}
use kusa_os.Kernel.Memory.{load_int, load_int-same, store_int}
use kusa_os.Strings.{strcpy}
use kusa_os.Strings.Copy.{IsCopied, strcpy-IsCopied}
use kusa_os.Fs.Transfer.Overlay.{overlay-inside, overlay-outside, where_is}
use kusa_os.Fs.Directory.{Store, fsbuf, wr_sect}
use kusa_os.Fs.Directory.Search.{NamedEntry, IsReady, IsName}
use kusa_os.Fs.Directory.Entry.{Place}
use kusa_os.Fs.Directory.Bytes.{
  IsBytes, store_int-IsBytes, store_int-outside, store_int-load, overlay-IsBytes,
}
use kusa_os.Fs.Directory.Slot.{IsSlot}

-- The parts of an entry are written into fsbuf, and its sector back to the device.
module _ (dev name : ℕ → ℕ) (l filename : ℕ) (is : IsName dev name l filename) (start n e nr : ℕ)
    (st : Store) (ready : IsReady dev name l filename st) (place : Place)
    (slot : IsSlot start n e st place) (small : nr < 2 ^ 32) where
  unfoldable pub numbered : ℕ → ℕ
  numbered = store_int place.pde nr (place.store).mem

  pub numbered-other :
      (x : ℕ) → (x < place.pde) ⊎ (place.pde + 4 ≤ x) → numbered x ≡ (place.store).mem x
  unfolding numbered
  numbered-other x h = store_int-outside place.pde nr (place.store).mem x h

  pub named :
      (mem' : ℕ → ℕ) × (strcpy 13 (place.pde + 4) filename numbered ≡ ok mem')
      × IsCopied name l (place.pde + 4) numbered mem'
  named =
      strcpy-IsCopied l 13 (place.pde + 4) filename name numbered (omega (arith, is.short))
        (omega (arith, is.apart, slot.address)) is.full is.end
        (λ k lt.
          numbered-other (filename + k) (inl (omega (arith, lt, is.apart, slot.address)))
          ∙ slot.outside (filename + k) (inl (omega (arith, lt, is.apart)))
          ∙ ready.stored k lt)

  numbered-IsBytes : IsBytes numbered
  unfolding numbered
  numbered-IsBytes = store_int-IsBytes place.pde nr (place.store).mem (λ x.
      elim (where_is x fsbuf 512) [
        | inl below ↦ subst (λ b. b < 256) (sym (slot.outside x (inl below))) (ready.bytes x)
        | inr (inl (low, high)) ↦
            subst (λ b. b < 256)
              (sym (
                ap (place.store).mem {y = fsbuf + (x - fsbuf)} (omega (arith, low))
                ∙ slot.buffer (x - fsbuf) (omega (arith, low, high))
                ∙ ap (λ f. f (place.sector * 512 + (x - fsbuf))) ready.device))
              (is.disk (place.sector * 512 + (x - fsbuf)))
        | inr (inr above) ↦ subst (λ b. b < 256) (sym (slot.outside x (inr above))) (ready.bytes x)
      ])

  module _ (mem' : ℕ → ℕ) (copied : IsCopied name l (place.pde + 4) numbered mem') where
    unfoldable pub written : Store
    written = wr_sect place.sector (record place.store { mem = mem' })

    -- A byte of the sector
    in_sector :
        (x : ℕ)
        → place.sector * 512 ≤ x
        → x < place.sector * 512 + 512
        → written.dev x ≡ mem' (fsbuf + (x - place.sector * 512))
    unfolding written
    in_sector x low high =
        overlay-inside (place.store).dev (λ a. mem' (fsbuf + a)) (place.sector * 512) 512 x low high

    -- The entries before the slot
    pub before_slot : (x : ℕ) → x < start * 512 + 16 * e → written.dev x ≡ dev x
    unfolding written
    before_slot x lt = elim (where_is x (place.sector * 512) 512) [
      | inl h ↦
          overlay-outside (place.store).dev (λ a. mem' (fsbuf + a)) (place.sector * 512) 512 x
            (inl h)
          ∙ ap (λ f. f x) (slot.device ∙ ready.device)
      | inr (inr h) ↦
          overlay-outside (place.store).dev (λ a. mem' (fsbuf + a)) (place.sector * 512) 512 x
            (inr h)
          ∙ ap (λ f. f x) (slot.device ∙ ready.device)
      | inr (inl (low, high)) ↦
          in_sector x low high
          ∙ copied.below (fsbuf + (x - place.sector * 512))
              (omega (arith, low, lt, slot.address, slot.sector))
          ∙ numbered-other (fsbuf + (x - place.sector * 512))
              (inl (omega (arith, low, lt, slot.address, slot.sector)))
          ∙ slot.buffer (x - place.sector * 512) (omega (arith, low, high))
          ∙ ap st.dev (omega (arith, low))
          ∙ ap (λ f. f x) ready.device
    ]

    pub slot_number : load_int written.dev (start * 512 + 16 * e) ≡ nr
    unfolding numbered
    slot_number =
        load_int-same written.dev numbered (start * 512 + 16 * e) place.pde (λ k lt.
          in_sector (start * 512 + 16 * e + k) (omega (arith, slot.sector))
            (omega (arith, slot.sector, lt))
          ∙ copied.below (fsbuf + (start * 512 + 16 * e + k - place.sector * 512))
              (omega (arith, slot.sector, slot.address, lt))
          ∙ ap numbered (omega (arith, slot.sector, slot.address, lt)))
        ∙ store_int-load place.pde nr (place.store).mem small

    pub slot_named : NamedEntry written.dev name l start e
    slot_named k lt =
        in_sector (start * 512 + 16 * e + 4 + k) (omega (arith, slot.sector))
          (omega (arith, slot.sector, lt, is.short))
        ∙ ap mem' {y = place.pde + 4 + k} (omega (arith, slot.sector, slot.address))
        ∙ copied.inside k lt

    pub copied-IsBytes : IsBytes mem'
    copied-IsBytes x = elim (where_is x (place.pde + 4) (suc l)) [
      | inl below ↦ subst (λ b. b < 256) (sym (copied.below x below)) (numbered-IsBytes x)
      | inr (inr above) ↦
          subst (λ b. b < 256) (sym (copied.above x (omega (arith, above)))) (numbered-IsBytes x)
      | inr (inl (low, high)) ↦
          subst (λ b. b < 256)
            (sym (
              ap mem' {y = place.pde + 4 + (x - (place.pde + 4))} (omega (arith, low))
              ∙ copied.inside (x - (place.pde + 4)) (omega (arith, low, high))
              ∙ sym (ready.stored (x - (place.pde + 4)) (omega (arith, low, high)))))
            (ready.bytes (filename + (x - (place.pde + 4))))
    ]

    pub written-IsBytes : IsBytes written.dev
    unfolding written
    written-IsBytes =
        overlay-IsBytes (place.store).dev (λ a. mem' (fsbuf + a)) (place.sector * 512) 512
          (λ x. subst (λ f. f x < 256) (sym (slot.device ∙ ready.device)) (is.disk x))
          (λ a. copied-IsBytes (fsbuf + a))
