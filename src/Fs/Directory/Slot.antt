-- ===== src/Fs/Directory/Slot.antt =====
-- new_dir_entry() of fs/open.c: the slot that it finds.
use kusa_os.Base.{
  ℕ, zero, suc, ◌+◌, ◌*◌, ◌/◌, ◌%◌, ◌≤◌, ◌<◌, ◌≡◌, refl, sym, ap, ◌∙◌, ◌⊎◌, inl, inr, arith, Bool,
  Bool-cases, true, false, ok, ltb, ltb→lt, ◌==◌, ==_iff,
}
use kusa_os.Kernel.Memory.{load_int, load_int-same}
use kusa_os.Fs.Transfer.Overlay.{overlay-inside, overlay-outside}
use kusa_os.Fs.Directory.{Store, fsbuf, rd_sect}
use kusa_os.Fs.Directory.Entry.{Slot, free, end, later, slot_in, slot_blocks, Place}

-- What the loop over a sector ends with, `f` entries from the address `p` on, with `m` behind it
SlotIs : ℕ → (ℕ → ℕ) → ℕ → ℕ → ℕ → Slot → Type 0
SlotIs f mem p m n (free pde) =
    (d : ℕ) × (d < f) × (m + d < n) × (pde ≡ p + 16 * d) × (load_int mem pde ≡ 0)
SlotIs f mem p m n (end pde) = (d : ℕ) × (d < f) × (m + d ≡ n) × (pde ≡ p + 16 * d)
SlotIs f mem p m n (later m') = (m' ≡ m + f) × (m' ≤ n)

more_left : (n m : ℕ) → ltb n (m + 1) ≡ false → m + 1 ≤ n
more_left n m e = ground arith

one_more :
    (f : ℕ) (mem : ℕ → ℕ) (p m n : ℕ) (slot : Slot)
    → SlotIs f mem (p + 16) (m + 1) n slot
    → SlotIs (suc f) mem p m n slot
unfolding SlotIs
one_more f mem p m n (free pde) (d, lt, le, e, zeros) =
    (suc d, omega (arith, lt), omega (arith, le), omega (arith, e), zeros)
one_more f mem p m n (end pde) (d, lt, q, e) =
    (suc d, omega (arith, lt), omega (arith, q), omega (arith, e))
one_more f mem p m n (later m') (e, le) = (omega (arith, e), le)

slot_in-SlotIs :
    (f : ℕ) (mem : ℕ → ℕ) (p m n : ℕ) → m ≤ n → SlotIs f mem p m n (slot_in f mem p m n)
unfolding slot_in SlotIs
slot_in-SlotIs zero mem p m n le = (omega arith, le)
slot_in-SlotIs (suc f) mem p m n le = elim (Bool-cases (ltb n (m + 1))) [
  | inl last ↦
      rw (last, slot_in) (0, omega arith, omega (arith, le, ltb→lt n (m + 1) last), omega arith)
  | inr more ↦ elim (Bool-cases (load_int mem p == 0)) [
    | inl zeros ↦
        rw (more, zeros, slot_in)
          (
            0,
            omega arith,
            omega (arith, more_left n m more),
            omega arith,
            (==_iff (load_int mem p) 0).0 zeros,
          )
    | inr used ↦
        rw (more, used, slot_in)
          (one_more f mem p m n (slot_in f mem (p + 16) (m + 1) n)
            (slot_in-SlotIs f mem (p + 16) (m + 1) n (more_left n m more)))
  ]
]

-- The slot of the entry `e`: it is the first one behind the end of the directory, or it is in use
-- by no file. Its sector is in fsbuf.
pub record IsSlot (start n e : ℕ) (st : Store) (place : Place) : Type 0 where
  pub range : e ≤ n
  pub sector : place.sector ≡ start + e / 32
  pub address : place.pde ≡ fsbuf + 16 * (e % 32)
  pub at_end : place.is_end ≡ true → e ≡ n
  pub inside : place.is_end ≡ false → (e < n) × (load_int st.dev (start * 512 + 16 * e) ≡ 0)
  pub device : (place.store).dev ≡ st.dev
  pub buffer : (x : ℕ) → x < 512 → (place.store).mem (fsbuf + x) ≡ st.dev (place.sector * 512 + x)
  pub outside : (x : ℕ) → (x < fsbuf) ⊎ (fsbuf + 512 ≤ x) → (place.store).mem x ≡ st.mem x

pub in_buffer :
    (st : Store) (s x : ℕ) → x < 512 → (rd_sect s st).mem (fsbuf + x) ≡ st.dev (s * 512 + x)
in_buffer st s x lt =
    overlay-inside st.mem (λ a. st.dev (s * 512 + a)) fsbuf 512 (fsbuf + x) (omega arith)
      (omega arith)
    ∙ ap st.dev (omega arith)

pub not_buffer :
    (st : Store) (s x : ℕ) → (x < fsbuf) ⊎ (fsbuf + 512 ≤ x) → (rd_sect s st).mem x ≡ st.mem x
not_buffer st s x h = overlay-outside st.mem (λ a. st.dev (s * 512 + a)) fsbuf 512 x h

-- The same with the sector read before
before_read :
    (start n e s : ℕ) (st : Store) (place : Place)
    → IsSlot start n e (rd_sect s st) place
    → IsSlot start n e st place
before_read start n e s st place slot = record {
  range = slot.range;
  sector = slot.sector;
  address = slot.address;
  at_end = slot.at_end;
  inside = slot.inside;
  device = slot.device;
  buffer = slot.buffer;
  outside = λ x lt. slot.outside x lt ∙ not_buffer st s x lt;
}

found_here :
    (start n i d : ℕ) (st : Store) (is_end : Bool)
    → d < 32
    → 32 * i + d ≤ n
    → (is_end ≡ true → 32 * i + d ≡ n)
    → (is_end ≡ false
        → (32 * i + d < n) × (load_int (rd_sect (start + i) st).mem (fsbuf + 16 * d) ≡ 0))
    → IsSlot start n (32 * i + d) st (record {
      sector = start + i;
      pde = fsbuf + 16 * d;
      is_end = is_end;
      store = rd_sect (start + i) st;
    })
found_here start n i d st is_end small le ends frees = record {
  range = le;
  sector = omega (arith, small);
  address = omega (arith, small);
  at_end = ends;
  inside = λ e. (
    (frees e).0,
    sym (
          load_int-same (rd_sect (start + i) st).mem st.dev (fsbuf + 16 * d)
            (start * 512 + 16 * (32 * i + d))
            (λ k lt.
              ap (rd_sect (start + i) st).mem {x = fsbuf + 16 * d + k} {y = fsbuf + (16 * d + k)}
                (omega arith)
              ∙ in_buffer st (start + i) (16 * d + k) (omega arith)
              ∙ ap st.dev (omega arith)))
        ∙ (frees e).1,
  );
  device = refl;
  buffer = in_buffer st (start + i);
  outside = not_buffer st (start + i);
}

pub slot_blocks-IsSlot :
    (f i start n : ℕ) (st : Store)
    → 32 * i ≤ n
    → n < 32 * (i + f)
    → (e : ℕ) × (place : Place) × (slot_blocks f (start + i) (32 * i) n st ≡ ok place)
      × IsSlot start n e st place
unfolding slot_blocks SlotIs
slot_blocks-IsSlot zero i start n st le lt = ground (arith, le, lt)
slot_blocks-IsSlot (suc f) i start n st le lt =
    cases (slot_in 32 (rd_sect (start + i) st).mem fsbuf (32 * i) n) refl
      (slot_in-SlotIs 32 (rd_sect (start + i) st).mem fsbuf (32 * i) n le)
      (λ more. slot_blocks-IsSlot f (i + 1) start n (rd_sect (start + i) st) more (omega arith))
  where
    cases :
        (slot : Slot)
        → slot_in 32 (rd_sect (start + i) st).mem fsbuf (32 * i) n ≡ slot
        → SlotIs 32 (rd_sect (start + i) st).mem fsbuf (32 * i) n slot
        → (32 * (i + 1) ≤ n
            → (e : ℕ) × (place : Place) × (slot_blocks f
                  (start + (i + 1))
                  (32 * (i + 1))
                  n
                  (rd_sect (start + i) st)
                ≡ ok place)
              × IsSlot start n e (rd_sect (start + i) st) place)
        → (e : ℕ) × (place : Place) × (slot_blocks (suc f) (start + i) (32 * i) n st ≡ ok place)
          × IsSlot start n e st place
    cases (free pde) returns (d, small, less, e, zeros) next = (
      32 * i + d,
      _,
      rw (returns, slot_blocks)
          (ap
            (λ p. ok (record {
              sector = start + i;
              pde = p;
              is_end = false;
              store = rd_sect (start + i) st;
            }))
            e),
      found_here start n i d st false small (omega (arith, less)) (λ q. ground (arith, q))
          (λ q. (less, ap (load_int (rd_sect (start + i) st).mem) (sym e) ∙ zeros)),
    )
    cases (end pde) returns (d, small, same, e) next = (
      32 * i + d,
      _,
      rw (returns, slot_blocks)
          (ap
            (λ p. ok (record {
              sector = start + i;
              pde = p;
              is_end = true;
              store = rd_sect (start + i) st;
            }))
            e),
      found_here start n i d st true small (omega (arith, same)) (λ q. same)
          (λ q. ground (arith, q)),
    )
    cases (later m') returns (e, less) next =
        let (entry, place, rest, slot) = next (omega (arith, e, less)) in
        (
          entry,
          place,
          rw (returns, slot_blocks)
              (ap (λ b. slot_blocks f (start + i + 1) b n (rd_sect (start + i) st))
                  (omega (arith, e))
                ∙ ap (λ b. slot_blocks f b (32 * (i + 1)) n (rd_sect (start + i) st)) (omega arith)
                ∙ rest),
          before_read start n entry (start + i) st place slot,
        )
