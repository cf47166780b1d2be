-- ===== src/Kernel/Memory.antt =====
-- Copying between address spaces: phys_copy() (memcpy of lib/string.asm), reset_msg() and va2la()
-- of kernel/proc.c.
use kusa_os.Base.{
  ℕ, zero, suc, ◌+◌, ◌*◌, ◌/◌, ◌%◌, ◌≤◌, ◌<◌, ◌≡◌, refl, ◌⊎◌, ◌∙◌, ap, arith, Result, ok, assert,
  ◌>>◌, ◌==◌, ltb, if◌then◌else◌, update, update_self, update_ne,
}
use native.Mathlib.Nat.{add-zero}
use kusa_os.Kernel.{Kernel, nr_tasks, nr_native_procs, u32_mod}

-- `n` bytes, the first address first
unfoldable pub phys_copy : ℕ → ℕ → ℕ → (ℕ → ℕ) → ℕ → ℕ
phys_copy zero dst src mem = mem
phys_copy (suc n) dst src mem = phys_copy n (dst + 1) (src + 1) (update mem dst (mem src))

unfoldable pub memset : ℕ → ℕ → ℕ → (ℕ → ℕ) → ℕ → ℕ
memset zero dst c mem = mem
memset (suc n) dst c mem = memset n (dst + 1) c (update mem dst c)

-- An int is stored as four bytes, the lowest first.
unfoldable pub store_int : ℕ → ℕ → (ℕ → ℕ) → ℕ → ℕ
store_int a v mem =
    update
      (update (update (update mem a (v % 256)) (a + 1) (v / 256 % 256)) (a + 2) (v / 65536 % 256))
      (a + 3) (v / 16777216 % 256)

-- The int that four bytes hold, without its sign
abbrev pub load_int : (ℕ → ℕ) → ℕ → ℕ
load_int mem a = mem a + 256 * mem (a + 1) + 65536 * mem (a + 2) + 16777216 * mem (a + 3)

pub load_int-same :
    (f g : ℕ → ℕ) (a b : ℕ)
    → ((k : ℕ) → k < 4 → f (a + k) ≡ g (b + k))
    → load_int f a ≡ load_int g b
load_int-same f g a b same =
    omega (arith, first, same 1 (omega arith), same 2 (omega arith), same 3 (omega arith))
  where
    first : f a ≡ g b
    first = ap f (omega arith) ∙ same 0 (omega arith) ∙ ap g (omega arith)

-- The address wraps at 32 bits. Tasks and native processes have a flat segment.
unfoldable pub va2la : Kernel → ℕ → ℕ → Result ℕ
va2la k pid va = do
  let la = ((k.procs pid).base + va) % u32_mod
  if ltb pid (nr_tasks + nr_native_procs) then assert (la == va) else ok tt
  ok la

pub phys_copy-outside :
    (n dst src : ℕ) (mem : ℕ → ℕ) (x : ℕ)
    → (x < dst) ⊎ (dst + n ≤ x)
    → phys_copy n dst src mem x ≡ mem x
unfolding phys_copy
phys_copy-outside zero dst src mem x h = refl
phys_copy-outside (suc n) dst src mem x h =
    phys_copy-outside n (dst + 1) (src + 1) (update mem dst (mem src)) x (omega arith)
    ∙ update_ne mem dst x (mem src) (omega arith)

-- A copy between regions that do not overlap makes the destination equal to the source.
pub phys_copy-inside :
    (n dst src : ℕ) (mem : ℕ → ℕ) (i : ℕ)
    → (dst + n ≤ src) ⊎ (src + n ≤ dst)
    → i < n
    → phys_copy n dst src mem (dst + i) ≡ mem (src + i)
unfolding phys_copy
phys_copy-inside zero dst src mem i h lt = elim lt [ ]
phys_copy-inside (suc n) dst src mem zero h lt = simp add-zero (
    phys_copy-outside n (dst + 1) (src + 1) (update mem dst (mem src)) dst (omega arith)
    ∙ update_self mem dst (mem src))
phys_copy-inside (suc n) dst src mem (suc i) h lt =
    ap (phys_copy n (dst + 1) (src + 1) (update mem dst (mem src))) (omega arith)
    ∙ phys_copy-inside n (dst + 1) (src + 1) (update mem dst (mem src)) i (omega arith)
        (omega arith)
    ∙ update_ne mem dst (src + 1 + i) (mem src) (omega arith)
    ∙ ap mem (omega arith)

pub memset-outside :
    (n dst c : ℕ) (mem : ℕ → ℕ) (x : ℕ) → (x < dst) ⊎ (dst + n ≤ x) → memset n dst c mem x ≡ mem x
unfolding memset
memset-outside zero dst c mem x h = refl
memset-outside (suc n) dst c mem x h =
    memset-outside n (dst + 1) c (update mem dst c) x (omega arith)
    ∙ update_ne mem dst x c (omega arith)

pub memset-inside : (n dst c : ℕ) (mem : ℕ → ℕ) (i : ℕ) → i < n → memset n dst c mem (dst + i) ≡ c
unfolding memset
memset-inside zero dst c mem i lt = elim lt [ ]
memset-inside (suc n) dst c mem zero lt =
    simp add-zero
      (memset-outside n (dst + 1) c (update mem dst c) dst (omega arith) ∙ update_self mem dst c)
memset-inside (suc n) dst c mem (suc i) lt =
    ap (memset n (dst + 1) c (update mem dst c)) {x = dst + suc i} {y = dst + 1 + i} (omega arith)
    ∙ memset-inside n (dst + 1) c (update mem dst c) i (omega arith)
