-- ===== src/Fs/Path/Flat.antt =====
-- search_file() of fs/misc.c for a path of one name.
use mathlib.Core.Path.{subst}
use kusa_os.Base.{
  ℕ, zero, suc, ◌+◌, ◌-◌, ◌<◌, ◌≡◌, ◌≢◌, refl, sym, ap, ◌∙◌, inl, inr, arith, true, false, some, ok,
  ◌==◌, ==_iff, ne→==, leb, update, update_ne, update_self,
}
use kusa_os.Kernel.Memory.{memset, memset-inside, memset-outside}
use kusa_os.Strings.Copy.{IsCopied}
use kusa_os.Fs.Inodes.{Inode, SuperBlock}
use kusa_os.Fs.Transfer.Overlay.{where_is}
use kusa_os.Fs.Directory.Search.{IsName}
use kusa_os.Fs.Directory.Find.{IsFound, search_file-IsFound}
use kusa_os.Fs.Path.{Walk, put, strip_from, strip_path, cleared_name, search_path}

-- A name of `l` characters without a slash
record IsPart (name : ℕ → ℕ) (l : ℕ) : Type 0 where
  full : (k : ℕ) → k < l → name k ≢ 0
  no_slash : (k : ℕ) → k < l → name k ≢ 47
  end : name l ≡ 0

-- The name is at `t`, and nothing else of the state has changed.
record IsStripped (name : ℕ → ℕ) (l t : ℕ) (w w' : Walk) : Type 0 where
  copied : IsCopied name l t (w.store).mem (w'.store).mem
  device : (w'.store).dev ≡ (w.store).dev

not_long : (t filename l : ℕ) → t + suc l < filename + 12 → leb 12 (t + 1 - filename) ≡ false
not_long t filename l lt = ground (arith, lt)

strip_from-IsStripped :
    (l f : ℕ) (sb : SuperBlock) (filename s t : ℕ) (dir : Inode) (name : ℕ → ℕ) (w : Walk)
    → l < f
    → s + l < t
    → t + l < filename + 12
    → IsPart name l
    → ((k : ℕ) → k < suc l → (w.store).mem (s + k) ≡ name k)
    → (w' : Walk) × (strip_from f sb filename s t dir w ≡ ok (some dir, w'))
      × IsStripped name l t w w'
unfolding strip_from
strip_from-IsStripped l zero sb filename s t dir name w lt apart fits part at = absurd (omega arith)
strip_from-IsStripped zero (suc f) sb filename s t dir name w lt apart fits part at = (
  put t 0 w,
  rw ((==_iff ((w.store).mem s) 0).1 (here ∙ part.end), strip_from) refl,
  record {
    copied = record {
      inside = λ k small.
          ap (update (w.store).mem t 0) {y = t} (omega (arith, small))
          ∙ update_self (w.store).mem t 0
          ∙ sym part.end
          ∙ ap name (omega (arith, small));
      below = λ x small. update_ne (w.store).mem t x 0 (omega (arith, small));
      above = λ x large. update_ne (w.store).mem t x 0 (omega (arith, large));
    };
    device = refl;
  },
)
  where
    here : (w.store).mem s ≡ name 0
    here = ap (w.store).mem (omega arith) ∙ at 0 (omega arith)
strip_from-IsStripped (suc l) (suc f) sb filename s t dir name w lt apart fits part at =
    let (w', returns, stripped) =
      strip_from-IsStripped l f sb filename (s + 1) (t + 1) dir (λ k. name (suc k)) next
        (omega arith) (omega arith) (omega (arith, fits))
        (record {
          full = λ k small. part.full (suc k) (omega arith);
          no_slash = λ k small. part.no_slash (suc k) (omega arith);
          end = part.end;
        })
        (λ k small.
          update_ne (w.store).mem t (s + 1 + k) ((w.store).mem s) (omega arith)
          ∙ ap (w.store).mem (omega arith)
          ∙ at (suc k) (omega arith)) in
    (
      w',
      rw
          (
            ne→== ((w.store).mem s) 0 (λ z. part.full 0 (omega arith) (sym here ∙ z)),
            ne→== ((w.store).mem s) 47 (λ z. part.no_slash 0 (omega arith) (sym here ∙ z)),
            not_long t filename l fits,
            strip_from,
          )
          returns,
      record {
        copied = record {
          inside = rest w' stripped.copied;
          below = λ x small.
              (stripped.copied).below x (omega arith)
              ∙ update_ne (w.store).mem t x ((w.store).mem s) (omega (arith, small));
          above = λ x large.
              (stripped.copied).above x (omega (arith, large))
              ∙ update_ne (w.store).mem t x ((w.store).mem s) (omega (arith, large));
        };
        device = stripped.device;
      },
    )
  where
    next : Walk
    next = put t ((w.store).mem s) w

    here : (w.store).mem s ≡ name 0
    here = ap (w.store).mem (omega arith) ∙ at 0 (omega arith)

    rest :
        (w' : Walk)
        → IsCopied (λ k. name (suc k)) l (t + 1) (next.store).mem (w'.store).mem
        → (k : ℕ) → k < suc (suc l)
        → (w'.store).mem (t + k) ≡ name k
    rest w' copied zero small =
        copied.below (t + 0) (omega arith)
        ∙ ap (update (w.store).mem t ((w.store).mem s)) {y = t} (omega arith)
        ∙ update_self (w.store).mem t ((w.store).mem s)
        ∙ here
    rest w' copied (suc k) small =
        ap (w'.store).mem {y = t + 1 + k} (omega arith) ∙ copied.inside k (omega arith)

copied-bytes :
    (name mem mem' : ℕ → ℕ) (l t : ℕ)
    → IsCopied name l t mem mem'
    → ((x : ℕ) → mem x < 256)
    → ((k : ℕ) → k < suc l → name k < 256)
    → (x : ℕ) → mem' x < 256
copied-bytes name mem mem' l t copied bytes small x = elim (where_is x t (suc l)) [
  | inl below ↦ subst (λ b. b < 256) (sym (copied.below x below)) (bytes x)
  | inr (inr above) ↦ subst (λ b. b < 256) (sym (copied.above x (omega (arith, above)))) (bytes x)
  | inr (inl (low, high)) ↦
      subst (λ b. b < 256)
        (sym (
          ap mem' {x = x} {y = t + (x - t)} (omega (arith, low))
          ∙ copied.inside (x - t) (omega (arith, low, high))))
        (small (x - t) (omega (arith, low, high)))
]

-- A path in the memory of the file system: a slash and a name, below the buffer for the name
pub record IsPath (name : ℕ → ℕ) (l pathname filename : ℕ) (mem : ℕ → ℕ) : Type 0 where
  pub bytes : (x : ℕ) → mem x < 256
  pub place : 0 < pathname
  pub apart : pathname + 1 + l < filename
  pub slash : mem pathname ≡ 47
  pub stored : (k : ℕ) → k < suc l → mem (pathname + 1 + k) ≡ name k
  pub not_empty : 0 < l
  pub no_slash : (k : ℕ) → k < l → name k ≢ 47

module _ (dev name : ℕ → ℕ) (l filename : ℕ) (is : IsName dev name l filename) (f pathname : ℕ)
    (sb : SuperBlock) (root : Inode) (w : Walk)
    (path : IsPath name l pathname filename (w.store).mem) (enough : l < f) where
  mem0 : ℕ → ℕ
  mem0 = memset 12 filename 0 (w.store).mem

  kept : (x : ℕ) → x < filename → mem0 x ≡ (w.store).mem x
  unfolding mem0
  kept x lt = memset-outside 12 filename 0 (w.store).mem x (inl lt)

  mem0-bytes : (x : ℕ) → mem0 x < 256
  unfolding mem0
  mem0-bytes x = elim (where_is x filename 12) [
    | inl h ↦
        subst (λ b. b < 256) (sym (memset-outside 12 filename 0 (w.store).mem x (inl h)))
          (path.bytes x)
    | inr (inr h) ↦
        subst (λ b. b < 256) (sym (memset-outside 12 filename 0 (w.store).mem x (inr h)))
          (path.bytes x)
    | inr (inl (low, high)) ↦
        subst (λ b. b < 256)
          (sym (
            ap (memset 12 filename 0 (w.store).mem) {x = x} {y = filename + (x - filename)}
              (omega (arith, low))
            ∙ memset-inside 12 filename 0 (w.store).mem (x - filename) (omega (arith, low, high))))
          (omega arith)
  ]

  stripped :
      (w' : Walk) × (strip_path f sb filename pathname root (cleared_name filename w)
        ≡ ok (some root, w'))
      × IsStripped name l filename (cleared_name filename w) w'
  unfolding strip_path mem0
  stripped =
      let (w', returns, result) =
        strip_from-IsStripped l f sb filename (pathname + 1) filename root name
          (cleared_name filename w) enough path.apart (omega (arith, is.short))
          (record { full = is.full; no_slash = path.no_slash; end = is.end })
          (λ k lt. kept (pathname + 1 + k) (omega (arith, lt, path.apart)) ∙ path.stored k lt) in
      (w', rw (ne→== pathname 0 (omega (arith, path.place))) (rw (starts) returns), result)
    where
      starts : (memset 12 filename 0 (w.store).mem pathname == 47) ≡ true
      starts =
          (==_iff (memset 12 filename 0 (w.store).mem pathname) 47).1
            (kept pathname (omega (arith, path.apart)) ∙ path.slash)

-- For a path of a slash and a name of at most eleven characters, search_file() returns the inode
-- number of the first entry with exactly the name among those that it looks at, or 0. It looks at
-- the entries of the root directory and, where the last sector has room for it, also at the one
-- behind the end of the directory, so that what it returns may be a stale entry's number, which is
-- not in the directory. The memory and the device are bytes; the path is in the memory below the buffer for the
-- name, which is below fsbuf; the steps are more than the characters of the name.
pub search_path-IsFound :
    (dev name : ℕ → ℕ) (l filename : ℕ)
    → IsName dev name l filename
    → (f pathname : ℕ) (sb : SuperBlock) (root : Inode) (w : Walk)
    → IsPath name l pathname filename (w.store).mem
    → (w.store).dev ≡ dev
    → l < f
    → (nr : ℕ) × (search_path f sb filename pathname root w ≡ ok nr)
      × IsFound dev name l root.disk nr
unfolding search_path mem0
search_path-IsFound dev name l filename is f pathname sb root w path device enough =
    let (w', returns, result) = stripped dev name l filename is f pathname sb root w path enough in
    let (nr, found, is_found) =
      search_file-IsFound dev name l filename is root.disk w'.store (record {
        device = result.device ∙ device;
        bytes =
            copied-bytes name (memset 12 filename 0 (w.store).mem) (w'.store).mem l filename
              result.copied (mem0-bytes dev name l filename is f pathname sb root w path enough)
              (λ k lt. subst (λ b. b < 256) (path.stored k lt) (path.bytes (pathname + 1 + k)));
        stored = (result.copied).inside;
      }) in
    (
      nr,
      rw returns (
          rw
            (ne→== ((w'.store).mem filename) 0 (λ z. is.full 0 path.not_empty (
              sym (
                ap (w'.store).mem {x = filename} {y = filename + 0} (omega arith)
                ∙ (result.copied).inside 0 (omega arith))
              ∙ z)))
            found),
      is_found,
    )
