-- ===== src/Fs/Directory/Clearing.antt =====
-- do_unlink() of fs/link.c: the loop over the sectors of the directory, and the cleared entry.
use native.Mathlib.Decide.{dec_lt}
use kusa_os.Base.{
  ℕ, zero, suc, ◌+◌, ◌-◌, ◌*◌, ◌≤◌, ◌<◌, ◌≡◌, ◌≢◌, ◌⊎◌, inl, inr, refl, sym, ap, ◌∙◌, arith, ok,
}
use kusa_os.Kernel.Memory.{load_int, load_int-same, memset, memset-inside, memset-outside}
use kusa_os.Fs.Transfer.Overlay.{overlay-inside, overlay-outside, where_is}
use kusa_os.Fs.Directory.{Store, fsbuf, rd_sect}
use kusa_os.Fs.Directory.Slot.{in_buffer}
use kusa_os.Fs.Directory.Remove.{remove_in, hit, on, Cleared, clear_entry, remove_blocks}
use kusa_os.Fs.Directory.Removed.{used, used-same, used-append, remove_in-hit, remove_in-on}

-- The entry `e` of a directory is the first with the inode number.
pub record IsEntryOf (dev : ℕ → ℕ) (start n nr e : ℕ) : Type 0 where
  pub range : e < n
  pub here : load_int dev (start * 512 + 16 * e) ≡ nr
  pub before : (c : ℕ) → c < e → load_int dev (start * 512 + 16 * c) ≢ nr

-- Its sixteen bytes are 0, and the other bytes of the device are as they were.
pub record IsZeroed (at : ℕ) (dev dev' : ℕ → ℕ) : Type 0 where
  pub entry : (x : ℕ) → x < 16 → dev' (at + x) ≡ 0
  pub rest : (x : ℕ) → (x < at) ⊎ (at + 16 ≤ x) → dev' x ≡ dev x

clear_entry-IsZeroed :
    (s d m size : ℕ) (st : Store)
    → d < 32
    → IsZeroed
        (s * 512 + 16 * d)
        st.dev
        (clear_entry s (fsbuf + 16 * d) m size (rd_sect s st)).store.dev
clear_entry-IsZeroed s d m size st lt = record {
  entry = λ x small.
      at (s * 512 + 16 * d + x) (omega arith) (omega arith)
      ∙ ap after {y = fsbuf + 16 * d + x} (omega arith)
      ∙ memset-inside 16 (fsbuf + 16 * d) 0 (rd_sect s st).mem x small;
  rest = λ x h. elim (where_is x (s * 512) 512) [
    | inl k ↦ overlay-outside st.dev (λ a. after (fsbuf + a)) (s * 512) 512 x (inl k)
    | inr (inr k) ↦ overlay-outside st.dev (λ a. after (fsbuf + a)) (s * 512) 512 x (inr k)
    | inr (inl (low, high)) ↦
        at x low high
        ∙ memset-outside 16 (fsbuf + 16 * d) 0 (rd_sect s st).mem (fsbuf + (x - s * 512))
            (omega (arith, h, low))
        ∙ in_buffer st s (x - s * 512) (omega (arith, low, high))
        ∙ ap st.dev (omega (arith, low))
  ];
}
  where
    after : ℕ → ℕ
    after = memset 16 (fsbuf + 16 * d) 0 (rd_sect s st).mem

    at :
        (x : ℕ)
        → s * 512 ≤ x
        → x < s * 512 + 512
        → (clear_entry s (fsbuf + 16 * d) m size (rd_sect s st)).store.dev x
          ≡ after (fsbuf + (x - s * 512))
    at x low high = overlay-inside st.dev (λ a. after (fsbuf + a)) (s * 512) 512 x low high

at_entry :
    (at at' : ℕ) (old old' new : ℕ → ℕ)
    → at ≡ at'
    → old ≡ old'
    → IsZeroed at old new
    → IsZeroed at' old' new
at_entry at at' old old' new e same zeroed = record {
  entry = λ x lt. ap new (omega (arith, e)) ∙ zeroed.entry x lt;
  rest = λ x h. zeroed.rest x (omega (arith, e, h)) ∙ ap (λ f. f x) same;
}

module _ (dev : ℕ → ℕ) (start n nr e : ℕ) (is : IsEntryOf dev start n nr e) where
  -- The number of an entry of the sector that is in fsbuf
  number_in :
      (st : Store) (i c : ℕ)
      → st.dev ≡ dev
      → c < 32
      → load_int (rd_sect (start + i) st).mem (fsbuf + 16 * c)
        ≡ load_int dev (start * 512 + 16 * (32 * i + c))
  number_in st i c same lt =
      load_int-same (rd_sect (start + i) st).mem dev (fsbuf + 16 * c)
        (start * 512 + 16 * (32 * i + c))
        (λ k small.
          ap (rd_sect (start + i) st).mem {x = fsbuf + 16 * c + k} {y = fsbuf + (16 * c + k)}
            (omega arith)
          ∙ in_buffer st (start + i) (16 * c + k) (omega arith)
          ∙ ap (λ f. f ((start + i) * 512 + (16 * c + k))) same
          ∙ ap dev (omega arith))

  used_in :
      (st : Store) (i k : ℕ)
      → st.dev ≡ dev
      → k ≤ 32
      → used (rd_sect (start + i) st).mem fsbuf k ≡ used dev (start * 512 + 16 * (32 * i)) k
  used_in st i k same le =
      used-same k (rd_sect (start + i) st).mem dev fsbuf (start * 512 + 16 * (32 * i)) (λ x lt.
        in_buffer st (start + i) x (omega (arith, lt, le))
        ∙ ap (λ f. f ((start + i) * 512 + x)) same
        ∙ ap dev (omega arith))

  pub record IsCleared (cleared : Cleared) : Type 0 where
    pub m : cleared.m ≡ e + 1
    pub dir_size : cleared.dir_size ≡ 16 * used dev (start * 512) e
    pub zeroed : IsZeroed (start * 512 + 16 * e) dev (cleared.store).dev

  -- The size so far, and the entries behind it
  grown_to :
      (size a b c : ℕ)
      → size ≡ 16 * used dev (start * 512) a
      → a + b ≡ c
      → size + 16 * used dev (start * 512 + 16 * a) b ≡ 16 * used dev (start * 512) c
  grown_to size a b c sum e =
      omega (arith, sum, used-append a b dev (start * 512))
      ∙ ap (λ j. 16 * used dev (start * 512) j) e

  -- The sector that has the entry, and one that is before it
  in_this :
      (i size : ℕ) (st : Store)
      → st.dev ≡ dev
      → 32 * i ≤ e
      → e < 32 * (i + 1)
      → remove_in 32 (rd_sect (start + i) st).mem fsbuf (32 * i) n nr size
        ≡ hit
            (fsbuf + 16 * (e - 32 * i))
            (32 * i + (e - 32 * i) + 1)
            (size + 16 * used (rd_sect (start + i) st).mem fsbuf (e - 32 * i))
  in_this i size st same low here =
      remove_in-hit (e - 32 * i) 32 (rd_sect (start + i) st).mem fsbuf (32 * i) n nr size
        (omega (arith, here, low)) (omega (arith, is.range, low))
        (number_in st i (e - 32 * i) same (omega (arith, here, low))
          ∙ ap (load_int dev) {y = start * 512 + 16 * e} (omega (arith, low))
          ∙ is.here)
        (λ c lt q.
          is.before (32 * i + c) (omega (arith, lt, low))
            (sym (number_in st i c same (omega (arith, lt, here, low))) ∙ q))

  not_this :
      (i size : ℕ) (st : Store)
      → st.dev ≡ dev
      → 32 * (i + 1) ≤ e
      → remove_in 32 (rd_sect (start + i) st).mem fsbuf (32 * i) n nr size
        ≡ on (32 * i + 32) (size + 16 * used (rd_sect (start + i) st).mem fsbuf 32)
  not_this i size st same le =
      remove_in-on 32 (rd_sect (start + i) st).mem fsbuf (32 * i) n nr size
        (omega (arith, le, is.range))
        (λ c lt q.
          is.before (32 * i + c) (omega (arith, lt, le)) (sym (number_in st i c same lt) ∙ q))

  clear_entry-IsCleared :
      (i size : ℕ) (st : Store)
      → st.dev ≡ dev
      → 32 * i ≤ e
      → e < 32 * (i + 1)
      → size ≡ 16 * used dev (start * 512) (32 * i)
      → IsCleared (
          clear_entry
            (start + i)
            (fsbuf + 16 * (e - 32 * i))
            (32 * i + (e - 32 * i) + 1)
            (size + 16 * used (rd_sect (start + i) st).mem fsbuf (e - 32 * i))
            (rd_sect (start + i) st))
  clear_entry-IsCleared i size st same low here sum = record {
    m = omega (arith, low);
    dir_size =
        ap (λ u. size + 16 * u) (used_in st i (e - 32 * i) same (omega (arith, here, low)))
        ∙ grown_to size (32 * i) (e - 32 * i) e sum (omega (arith, low));
    zeroed =
        at_entry ((start + i) * 512 + 16 * (e - 32 * i)) (start * 512 + 16 * e) st.dev dev _
          (omega (arith, low)) same
          (clear_entry-IsZeroed (start + i) (e - 32 * i) (32 * i + (e - 32 * i) + 1)
            (size + 16 * used (rd_sect (start + i) st).mem fsbuf (e - 32 * i)) st
            (omega (arith, here, low)));
  }

  pub remove_blocks-IsCleared :
      (f i size : ℕ) (st : Store)
      → st.dev ≡ dev
      → 32 * i ≤ e
      → e < 32 * (i + f)
      → size ≡ 16 * used dev (start * 512) (32 * i)
      → (cleared : Cleared) × (remove_blocks f (start + i) (32 * i) n nr size st ≡ ok cleared)
        × IsCleared cleared
  unfolding remove_blocks
  remove_blocks-IsCleared zero i size st same low high sum = ground (arith, low, high)
  remove_blocks-IsCleared (suc f) i size st same low high sum = elim (dec_lt e (32 * (i + 1))) [
    | yes here ↦ (
      clear_entry (start + i) (fsbuf + 16 * (e - 32 * i)) (32 * i + (e - 32 * i) + 1)
          (size + 16 * used (rd_sect (start + i) st).mem fsbuf (e - 32 * i))
          (rd_sect (start + i) st),
      rw (in_this i size st same low here, remove_blocks) refl,
      clear_entry-IsCleared i size st same low here sum,
    )
    | no k ↦
        let size' = size + 16 * used (rd_sect (start + i) st).mem fsbuf 32 in
        let (cleared, rest, is_cleared) =
          remove_blocks-IsCleared f (i + 1) size' (rd_sect (start + i) st) same (omega (arith, k))
            (omega (arith, high))
            (ap (λ u. size + 16 * u) (used_in st i 32 same (omega arith))
              ∙ grown_to size (32 * i) 32 (32 * (i + 1)) sum (omega arith)) in
        (
          cleared,
          rw (not_this i size st same (omega (arith, k)), remove_blocks)
              (ap (λ b. remove_blocks f (start + i + 1) b n nr size' (rd_sect (start + i) st))
                  {y = 32 * (i + 1)} (omega arith)
                ∙ ap (λ b. remove_blocks f b (32 * (i + 1)) n nr size' (rd_sect (start + i) st))
                    {x = start + i + 1} {y = start + (i + 1)} (omega arith)
                ∙ rest),
          is_cleared,
        )
  ]
