-- ===== src/Fs/Bitmap/Alloc.antt =====
-- alloc_imap_bit() of fs/open.c, and the lines of do_unlink() in fs/link.c that free the bit.
use native.Mathlib.Decide.{ℕ_discrete}
use kusa_os.Base.{
  ne→==, ℕ, zero, suc, ◌+◌, ◌*◌, ◌/◌, ◌%◌, ◌<◌, ◌≤◌, ◌≡◌, ◌≢◌, refl, sym, ap, ◌∙◌, ◌⊎◌, inl, inr,
  arith, Option, Option-cases, none, some, ok, lt→ltb, ==_iff, update, update_self, update_eq,
  update_ne, range_suc,
}
use kusa_os.Fs.Bitmap.{
  Disk, bit, set_bit, clear_bit, find_byte, skip_ones, alloc_imap_bit, free_imap_bit,
}
use kusa_os.Fs.Bitmap.Bytes.{IsGood, first_clear}

-- One step of the search for a byte with a clear bit
find_byte-full :
    (f j : ℕ) (fsbuf : ℕ → ℕ)
    → fsbuf j ≡ 255
    → find_byte (suc f) j fsbuf ≡ find_byte f (j + 1) fsbuf
unfolding find_byte
find_byte-full f j fsbuf e = rw ((==_iff (fsbuf j) 255).1 e, find_byte) refl

find_byte-here : (f j : ℕ) (fsbuf : ℕ → ℕ) → fsbuf j ≢ 255 → find_byte (suc f) j fsbuf ≡ some j
unfolding find_byte
find_byte-here f j fsbuf e = rw (ne→== (fsbuf j) 255 e, find_byte) refl

some_same : (i j : ℕ) → ◌≡◌ {A = Option ℕ} (some i) (some j) → i ≡ j
some_same i j h = ground (arith, h)

find_byte-some :
    (f j : ℕ) (fsbuf : ℕ → ℕ) (i : ℕ) → find_byte f j fsbuf ≡ some i → (fsbuf i ≢ 255) × (i < j + f)
unfolding find_byte
find_byte-some zero j fsbuf i h = ground (arith, h)
find_byte-some (suc f) j fsbuf i h = elim (ℕ_discrete (fsbuf j) 255) [
  | yes e ↦
      let (other, lt) = find_byte-some f (j + 1) fsbuf i (sym (find_byte-full f j fsbuf e) ∙ h) in
      (other, omega arith)
  | no e ↦
      let at = some_same j i (sym (find_byte-here f j fsbuf e) ∙ h) in
      (λ q. e (ap fsbuf at ∙ q), omega (arith, at))
]

find_byte-none :
    (f j : ℕ) (fsbuf : ℕ → ℕ)
    → find_byte f j fsbuf ≡ none
    → (i : ℕ) → j ≤ i
    → i < j + f
    → fsbuf i ≡ 255
find_byte-none zero j fsbuf h = λ i le lt. ground (arith, le, lt)
find_byte-none (suc f) j fsbuf h = elim (ℕ_discrete (fsbuf j) 255) [
  | yes e ↦
      range_suc (λ i. fsbuf i ≡ 255) j f e
        (find_byte-none f (j + 1) fsbuf (sym (find_byte-full f j fsbuf e) ∙ h))
  | no e ↦ ground (arith, find_byte-here f j fsbuf e, h)
]

-- What alloc_imap_bit() and then the freeing of the bit do
pub record IsAllocated (disk disk' : Disk) (nr : ℕ) : Type 0 where
  pub range : nr < 4096
  pub clear : bit (disk 2 (nr / 8)) (nr % 8) ≡ 0
  pub set : bit (disk' 2 (nr / 8)) (nr % 8) ≡ 1
  pub sectors : (s : ℕ) → s ≢ 2 → disk' s ≡ disk s
  pub bytes : (i : ℕ) → i ≢ nr / 8 → disk' 2 i ≡ disk 2 i
  pub freed : (back : Disk) × (free_imap_bit disk' nr ≡ ok back) × ((s i : ℕ) → back s i ≡ disk s i)

free_imap_bit-run :
    (t : Disk) (nr j k : ℕ)
    → nr / 8 ≡ j
    → nr % 8 ≡ k
    → j < 512
    → bit (t 2 j) k ≡ 1
    → free_imap_bit t nr ≡ ok (update t 2 (update (t 2) j (clear_bit (t 2 j) k)))
unfolding free_imap_bit
free_imap_bit-run t nr j k q r lt set = rw (q, r, lt→ltb j 512 lt, small, (==_iff _ _).1 set) refl
  where
    small : j % 512 ≡ j
    small = omega arith

-- Setting and then clearing a bit of one byte
abbrev taken : Disk → ℕ → ℕ → Disk
taken disk j k = update disk 2 (update (disk 2) j (set_bit (disk 2 j) k))

abbrev cleared : Disk → ℕ → ℕ → Disk
cleared t j k = update t 2 (update (t 2) j (clear_bit (t 2 j) k))

module _ (disk : Disk) (j k : ℕ) (back : clear_bit (set_bit (disk 2 j) k) k ≡ disk 2 j) where
  taken-at : taken disk j k 2 j ≡ set_bit (disk 2 j) k
  taken-at =
      ap (λ g. g j) (update_self disk 2 (update (disk 2) j (set_bit (disk 2 j) k)))
      ∙ update_self (disk 2) j (set_bit (disk 2 j) k)

  taken-other : (i : ℕ) → i ≢ j → taken disk j k 2 i ≡ disk 2 i
  taken-other i ne =
      ap (λ g. g i) (update_self disk 2 (update (disk 2) j (set_bit (disk 2 j) k)))
      ∙ update_ne (disk 2) j i (set_bit (disk 2 j) k) (λ e. ne (sym e))

  taken-sector : (s : ℕ) → s ≢ 2 → taken disk j k s ≡ disk s
  taken-sector s ne = update_ne disk 2 s _ (λ e. ne (sym e))

  cleared-two : (i : ℕ) → cleared (taken disk j k) j k 2 i ≡ disk 2 i
  cleared-two i =
      ap (λ g. g i)
        (update_self (taken disk j k) 2
          (update (taken disk j k 2) j (clear_bit (taken disk j k 2 j) k)))
      ∙ elim (ℕ_discrete i j) [
        | yes e ↦
            update_eq (taken disk j k 2) j i (clear_bit (taken disk j k 2 j) k) (sym e)
            ∙ ap (λ x. clear_bit x k) taken-at
            ∙ back
            ∙ ap (disk 2) (sym e)
        | no e ↦
            update_ne (taken disk j k 2) j i (clear_bit (taken disk j k 2 j) k) (λ q. e (sym q))
            ∙ taken-other i e
      ]

  cleared-same : (s i : ℕ) → cleared (taken disk j k) j k s i ≡ disk s i
  cleared-same s i = elim (ℕ_discrete s 2) [
    | yes e ↦
        ap (λ x. cleared (taken disk j k) j k x i) e ∙ cleared-two i ∙ ap (λ x. disk x i) (sym e)
    | no e ↦ ap (λ g. g i) (update_ne (taken disk j k) 2 s _ (λ q. e (sym q)) ∙ taken-sector s e)
  ]

taken-IsAllocated :
    (disk : Disk) (j k : ℕ)
    → j < 512
    → IsGood (disk 2 j) k
    → IsAllocated disk (taken disk j k) (j * 8 + k)
taken-IsAllocated disk j k lt (small, clear, set, back, bound) = record {
  range = omega arith;
  clear = rw (q, r) clear;
  set = rw (q, r) holds;
  sectors = taken-sector disk j k back;
  bytes = λ i ne. taken-other disk j k back i (λ e. ne (e ∙ sym q));
  freed = (
    cleared (taken disk j k) j k,
    free_imap_bit-run (taken disk j k) (j * 8 + k) j k q r lt holds,
    cleared-same disk j k back,
  );
}
  where
    q : (j * 8 + k) / 8 ≡ j
    q = omega arith

    r : (j * 8 + k) % 8 ≡ k
    r = omega arith

    holds : bit (taken disk j k 2 j) k ≡ 1
    holds = ap (λ x. bit x k) (taken-at disk j k back) ∙ set

-- Where the inode map has a sector, alloc_imap_bit() returns. Either the first sector of the map
-- is full, and it returns 0 and changes nothing, or the inode it returns was free, its bit is the
-- only one of the disk that has changed, and freeing it as do_unlink() does restores the disk.
pub alloc_imap_bit-IsAllocated :
    (disk : Disk) (n : ℕ)
    → ((i : ℕ) → disk 2 i < 256)
    → ((alloc_imap_bit disk (suc n) ≡ ok (0, disk)) × ((i : ℕ) → i < 512 → disk 2 i ≡ 255))
      ⊎ ((nr : ℕ) × (disk' : Disk) × (alloc_imap_bit disk (suc n) ≡ ok (nr, disk'))
          × IsAllocated disk disk' nr)
unfolding alloc_imap_bit
alloc_imap_bit-IsAllocated disk n bytes = elim (Option-cases (find_byte 512 0 (disk 2))) [
  | inl e ↦
      inl (rw (e, alloc_imap_bit) refl, λ i lt. find_byte-none 512 0 (disk 2) e i (omega arith) lt)
  | inr (j, e) ↦
      let (other, lt) = find_byte-some 512 0 (disk 2) j e in
      inr (
        j * 8 + skip_ones 8 0 (disk 2 j),
        taken disk j (skip_ones 8 0 (disk 2 j)),
        rw (e, alloc_imap_bit) refl,
        taken-IsAllocated disk j (skip_ones 8 0 (disk 2 j)) lt
            (first_clear (disk 2 j) (omega (arith, bytes j, other))),
      )
]
