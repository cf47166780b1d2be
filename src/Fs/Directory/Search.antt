-- ===== src/Fs/Directory/Search.antt =====
-- search_file() of fs/misc.c in a directory: which entry it finds.
use mathlib.Core.Path.{subst}
use kusa_os.Base.{
  ℕ, zero, suc, ◌+◌, ◌-◌, ◌*◌, ◌≤◌, ◌<◌, ◌≡◌, ◌≢◌, ◌↔◌, ◌⊎◌, inl, inr, refl, sym, ap, ◌∙◌, arith,
  Bool, Bool-cases, true, false, ok, ltb, ltb→lt,
}
use kusa_os.Kernel.Signed.{ℤ, pos, negsuc, eqb_ℤ}
use kusa_os.Strings.{strcmp}
use kusa_os.Strings.Compare.{strcmp-decides, same_iff}
use kusa_os.Fs.Transfer.Overlay.{overlay-inside, overlay-outside, where_is}
use kusa_os.Fs.Directory.{Store, fsbuf, rd_sect, Look, found, passed, search_in}

-- The bytes of an entry at `at` of the device, behind its inode number, are the name and its end.
abbrev pub Named : (ℕ → ℕ) → (ℕ → ℕ) → ℕ → ℕ → Type 0
Named dev name l at = (k : ℕ) → k < suc l → dev (at + 4 + k) ≡ name k

-- A name of `l` characters at `filename`, outside fsbuf, and a device, both in bytes. It is shorter
-- than the place of a name in an entry.
pub record IsReady (dev name : ℕ → ℕ) (l filename : ℕ) (st : Store) : Type 0 where
  pub device : st.dev ≡ dev
  pub bytes : (x : ℕ) → st.mem x < 256
  pub stored : (k : ℕ) → k < suc l → st.mem (filename + k) ≡ name k

pub record IsName (dev name : ℕ → ℕ) (l filename : ℕ) : Type 0 where
  pub disk : (x : ℕ) → dev x < 256
  pub full : (k : ℕ) → k < l → name k ≢ 0
  pub end : name l ≡ 0
  pub short : l < 12
  pub place : 0 < filename
  pub apart : filename + l < fsbuf

-- The entry `j` of the sector `s`
abbrev pub NamedEntry : (ℕ → ℕ) → (ℕ → ℕ) → ℕ → ℕ → ℕ → Type 0
NamedEntry dev name l s j = Named dev name l (s * 512 + 16 * j)

-- What the loop over a sector ends with, `f` entries from `j` on, with `m` behind it
abbrev pub LookIs : (ℕ → ℕ) → (ℕ → ℕ) → ℕ → ℕ → ℕ → ℕ → ℕ → ℕ → Look → Type 0
LookIs dev name l s j f m n (found pde) =
    (d : ℕ) × (d < f)
    × (m + d ≤ n)
    × (pde ≡ fsbuf + 16 * (j + d))
    × NamedEntry dev name l s (j + d)
    × ((c : ℕ) → c < d → ¬ NamedEntry dev name l s (j + c))
LookIs dev name l s j f m n (passed m') =
    (m' ≤ m + f)
    × ((m' ≡ m + f) ⊎ (n < m'))
    × (m ≤ m')
    × ((c : ℕ) → m + c < m' → ¬ NamedEntry dev name l s (j + c))

eqb-zero : (r : ℤ) → (eqb_ℤ r (pos 0) ≡ true) ↔ (r ≡ pos 0)
eqb-zero (pos n) = (ground arith, ground arith)
eqb-zero (negsuc n) = (ground arith, ground arith)

module _ (dev name : ℕ → ℕ) (l filename : ℕ) (is : IsName dev name l filename) where
  pub rd_sect-IsReady :
      (st : Store) (s : ℕ)
      → IsReady dev name l filename st
      → IsReady dev name l filename (rd_sect s st)
  rd_sect-IsReady st s ready = record {
    device = ready.device;
    bytes = λ x. elim (where_is x fsbuf 512) [
      | inl h ↦ subst (λ b. b < 256) (sym (out x (inl h))) (ready.bytes x)
      | inr (inr h) ↦ subst (λ b. b < 256) (sym (out x (inr h))) (ready.bytes x)
      | inr (inl (le, lt)) ↦
          subst (λ b. b < 256)
            (sym (
              overlay-inside st.mem (λ a. st.dev (s * 512 + a)) fsbuf 512 x le lt
              ∙ ap (λ f. f (s * 512 + (x - fsbuf))) ready.device))
            (is.disk (s * 512 + (x - fsbuf)))
    ];
    stored = λ k lt. out (filename + k) (inl (omega (arith, lt, is.apart))) ∙ ready.stored k lt;
  }
    where
      out : (x : ℕ) → (x < fsbuf) ⊎ (fsbuf + 512 ≤ x) → (rd_sect s st).mem x ≡ st.mem x
      out x h = overlay-outside st.mem (λ a. st.dev (s * 512 + a)) fsbuf 512 x h

  -- strcmp() with the entry at `i` of the sector
  compared :
      (st : Store) (s i : ℕ)
      → IsReady dev name l filename st
      → i + 16 ≤ 512
      → (r : ℤ) × (strcmp 13 (rd_sect s st).mem filename (fsbuf + i + 4) ≡ ok r)
        × ((eqb_ℤ r (pos 0) ≡ true) ↔ Named dev name l (s * 512 + i))
  compared st s i ready fits =
      let now = rd_sect-IsReady st s ready in
      let (r, e, decides) =
        strcmp-decides 13 (rd_sect s st).mem filename (fsbuf + i + 4) l now.bytes
          (now.stored l (omega arith) ∙ is.end) (omega (arith, is.short)) (omega (arith, is.place))
          (omega arith) in
      let strings =
        same_iff l (rd_sect s st).mem filename (fsbuf + i + 4)
          (λ k lt z. is.full k lt (sym (now.stored k (omega (arith, lt))) ∙ z))
          (now.stored l (omega arith) ∙ is.end) in
      (
        r,
        e,
        (
          λ t k lt.
              sym (on_disk k lt) ∙ strings.0 (decides.0 ((eqb-zero r).0 t)) k lt ∙ now.stored k lt,
          λ named.
              (eqb-zero r).1
                (decides.1 (strings.1 (λ k lt. on_disk k lt ∙ named k lt ∙ sym (now.stored k lt)))),
        ),
      )
    where
      on_disk :
          (k : ℕ) → k < suc l → (rd_sect s st).mem (fsbuf + i + 4 + k) ≡ dev (s * 512 + i + 4 + k)
      on_disk k lt =
          overlay-inside st.mem (λ a. st.dev (s * 512 + a)) fsbuf 512 (fsbuf + i + 4 + k)
            (omega arith) (omega (arith, fits, lt, is.short))
          ∙ ap (λ f. f (s * 512 + (fsbuf + i + 4 + k - fsbuf))) ready.device
          ∙ ap dev (omega arith)

  not_here :
      (s j : ℕ) (r : ℤ)
      → eqb_ℤ r (pos 0) ≡ false
      → ((eqb_ℤ r (pos 0) ≡ true) ↔ Named dev name l (s * 512 + 16 * j))
      → ¬ NamedEntry dev name l s j
  not_here s j r e decides named = false_true (sym e ∙ decides.1 named)
    where
      false_true : ◌≡◌ {A = Bool} false true → ⊥
      false_true h = ground (arith, h)

  not_last : (n m : ℕ) → ltb n (m + 1) ≡ false → m + 1 ≤ n
  not_last n m e = ground arith

  -- The search up to its first decision
  search_in-run :
      (st : Store) (s j f m n : ℕ) (r : ℤ)
      → strcmp 13 (rd_sect s st).mem filename (fsbuf + 16 * j + 4) ≡ ok r
      → search_in (suc f) (rd_sect s st).mem filename (fsbuf + 16 * j) m n
        ≡ elim (eqb_ℤ r (pos 0)) [
          | true ↦ ok (found (fsbuf + 16 * j))
          | false ↦ elim (ltb n (m + 1)) [
            | true ↦ ok (passed (m + 1))
            | false ↦ search_in f (rd_sect s st).mem filename (fsbuf + 16 * j + 16) (m + 1) n
          ]
        ]
  unfolding search_in
  search_in-run st s j f m n r e = rw (e, search_in) refl

  one_more :
      (s j f m n : ℕ) (look : Look)
      → ¬ NamedEntry dev name l s j
      → LookIs dev name l s (j + 1) f (m + 1) n look
      → LookIs dev name l s j (suc f) m n look
  one_more s j f m n (found pde) differ (d, lt, le, e, here, before) = (
    suc d,
    omega (arith, lt),
    omega (arith, le),
    e ∙ ap (λ x. fsbuf + 16 * x) (omega arith),
    subst (NamedEntry dev name l s) (omega arith) here,
    shifted,
  )
    where
      shifted : (c : ℕ) → c < suc d → ¬ NamedEntry dev name l s (j + c)
      shifted zero small named = differ (subst (NamedEntry dev name l s) (omega arith) named)
      shifted (suc c) small named =
          before c (omega (arith, small)) (subst (NamedEntry dev name l s) (omega arith) named)
  one_more s j f m n (passed m') differ (most, why, least, before) =
      (omega (arith, most), omega (arith, why), omega (arith, least), shifted)
    where
      shifted : (c : ℕ) → m + c < m' → ¬ NamedEntry dev name l s (j + c)
      shifted zero small named = differ (subst (NamedEntry dev name l s) (omega arith) named)
      shifted (suc c) small named =
          before c (omega (arith, small)) (subst (NamedEntry dev name l s) (omega arith) named)

  pub search_in-LookIs :
      (f j m n s : ℕ) (st : Store)
      → IsReady dev name l filename st
      → j + f ≤ 32
      → m ≤ n
      → (look : Look) × (search_in f (rd_sect s st).mem filename (fsbuf + 16 * j) m n ≡ ok look)
        × LookIs dev name l s j f m n look
  unfolding search_in
  search_in-LookIs zero j m n s st ready fits more =
      (passed m, refl, (omega arith, inl (omega arith), omega arith, λ c lt. ground (arith, lt)))
  search_in-LookIs (suc f) j m n s st ready fits more =
      let (r, e, decides) = compared st s (16 * j) ready (omega (arith, fits)) in
      elim (Bool-cases (eqb_ℤ r (pos 0))) [
        | inl same ↦ (
          found (fsbuf + 16 * j),
          search_in-run st s j f m n r e ∙ rw same refl,
          (
            0,
            omega arith,
            omega (arith, more),
            ap (λ x. fsbuf + 16 * x) (omega arith),
            subst (NamedEntry dev name l s) (omega arith) (decides.0 same),
            λ c lt. ground (arith, lt),
          ),
        )
        | inr other ↦ elim (Bool-cases (ltb n (m + 1))) [
          | inl last ↦ (
            passed (m + 1),
            search_in-run st s j f m n r e ∙ rw (other, last) refl,
            (
              omega arith,
              inr (ltb→lt n (m + 1) last),
              omega arith,
              λ c lt named.
                  not_here s j r other decides
                    (subst (NamedEntry dev name l s) (omega (arith, lt)) named),
            ),
          )
          | inr goes ↦
              let (look, returns, is_look) =
                search_in-LookIs f (j + 1) (m + 1) n s st ready (omega (arith, fits))
                  (not_last n m goes) in
              (
                look,
                search_in-run st s j f m n r e
                    ∙ rw (other, goes)
                        (ap (λ p. search_in f (rd_sect s st).mem filename p (m + 1) n)
                          (omega arith))
                    ∙ returns,
                one_more s j f m n look (not_here s j r other decides) is_look,
              )
        ]
      ]
