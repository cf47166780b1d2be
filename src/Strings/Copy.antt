-- ===== src/Strings/Copy.antt =====
-- strcpy() of lib/string.asm: what it copies.
use kusa_os.Base.{
  ℕ, zero, suc, ◌+◌, ◌<◌, ◌≡◌, ◌≢◌, refl, sym, ap, ◌∙◌, arith, ok, ==_iff, ne→==, update, update_ne,
  update_self,
}
use kusa_os.Strings.{strcpy}

-- The string `name` of `l` characters, with its end, is at `dst`, and the rest is as it was.
pub record IsCopied (name : ℕ → ℕ) (l dst : ℕ) (mem mem' : ℕ → ℕ) : Type 0 where
  pub inside : (k : ℕ) → k < suc l → mem' (dst + k) ≡ name k
  pub below : (x : ℕ) → x < dst → mem' x ≡ mem x
  pub above : (x : ℕ) → dst + l < x → mem' x ≡ mem x

-- A string that ends before the place of the copy
pub strcpy-IsCopied :
    (l f dst src : ℕ) (name mem : ℕ → ℕ)
    → l < f
    → src + l < dst
    → ((k : ℕ) → k < l → name k ≢ 0)
    → name l ≡ 0
    → ((k : ℕ) → k < suc l → mem (src + k) ≡ name k)
    → (mem' : ℕ → ℕ) × (strcpy f dst src mem ≡ ok mem') × IsCopied name l dst mem mem'
unfolding strcpy
strcpy-IsCopied l zero dst src name mem lt apart full end at = absurd (omega arith)
strcpy-IsCopied zero (suc f) dst src name mem lt apart full end at = (
  update mem dst (mem src),
  rw ((==_iff (mem src) 0).1 (here ∙ end), strcpy) refl,
  record {
    inside = λ k small.
        ap (update mem dst (mem src)) {y = dst} (omega (arith, small))
        ∙ update_self mem dst (mem src)
        ∙ here
        ∙ ap name (omega (arith, small));
    below = λ x small. update_ne mem dst x (mem src) (omega (arith, small));
    above = λ x large. update_ne mem dst x (mem src) (omega (arith, large));
  },
)
  where
    here : mem src ≡ name 0
    here = ap mem (omega arith) ∙ at 0 (omega arith)
strcpy-IsCopied (suc l) (suc f) dst src name mem lt apart full end at =
    let (mem', returns, copied) =
      strcpy-IsCopied l f (dst + 1) (src + 1) (λ k. name (suc k)) (update mem dst (mem src))
        (omega arith) (omega arith) (λ k small. full (suc k) (omega arith)) end
        (λ k small.
          update_ne mem dst (src + 1 + k) (mem src) (omega arith)
          ∙ ap mem (omega arith)
          ∙ at (suc k) (omega arith)) in
    (
      mem',
      rw (ne→== (mem src) 0 (λ z. full 0 (omega arith) (sym here ∙ z)), strcpy) returns,
      record {
        inside = rest mem' copied;
        below = λ x small.
            copied.below x (omega arith) ∙ update_ne mem dst x (mem src) (omega (arith, small));
        above = λ x large.
            copied.above x (omega (arith, large))
            ∙ update_ne mem dst x (mem src) (omega (arith, large));
      },
    )
  where
    here : mem src ≡ name 0
    here = ap mem (omega arith) ∙ at 0 (omega arith)

    rest :
        (mem' : ℕ → ℕ)
        → IsCopied (λ k. name (suc k)) l (dst + 1) (update mem dst (mem src)) mem'
        → (k : ℕ) → k < suc (suc l)
        → mem' (dst + k) ≡ name k
    rest mem' copied zero small =
        copied.below (dst + 0) (omega arith)
        ∙ ap (update mem dst (mem src)) {y = dst} (omega arith)
        ∙ update_self mem dst (mem src)
        ∙ here
    rest mem' copied (suc k) small =
        ap mem' {y = dst + 1 + k} (omega arith) ∙ copied.inside k (omega arith)
