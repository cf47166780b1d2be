-- ===== src/Fs/Transfer/Overlay.antt =====
-- Parts of memory that are written one after another.
use mathlib.Core.Path.{fun_ext}
use kusa_os.Base.{ℕ, ◌+◌, ◌-◌, ◌≤◌, ◌<◌, ◌≡◌, refl, sym, ap, ◌∙◌, ◌⊎◌, inl, inr, arith}
use native.Mathlib.Decide.{dec_lt}
use kusa_os.Fs.Transfer.{overlay}

pub overlay-inside :
    (under over : ℕ → ℕ) (at n x : ℕ)
    → at ≤ x
    → x < at + n
    → overlay under at n over x ≡ over (x - at)
overlay-inside under over at n x h k = ground (arith, h, k)

pub overlay-outside :
    (under over : ℕ → ℕ) (at n x : ℕ)
    → (x < at) ⊎ (at + n ≤ x)
    → overlay under at n over x ≡ under x
overlay-outside under over at n x h = ground (arith, h)

-- Before, in or behind `n` bytes at `at`
pub where_is : (x at n : ℕ) → (x < at) ⊎ (((at ≤ x) × (x < at + n)) ⊎ (at + n ≤ x))
where_is x at n = elim (dec_lt x at) [
  | yes h ↦ inl h
  | no h ↦ elim (dec_lt x (at + n)) [
    | yes k ↦ inr (inl (omega (arith, h), k))
    | no k ↦ inr (inr (omega (arith, k)))
  ]
]

-- Two parts, one behind the other, are one.
pub overlay-joined :
    (m f g h : ℕ → ℕ) (at b c : ℕ)
    → ((y : ℕ) → y < b → f y ≡ h y)
    → ((y : ℕ) → y < c → g y ≡ h (b + y))
    → (x : ℕ) → overlay (overlay m at b f) (at + b) c g x ≡ overlay m at (b + c) h x
overlay-joined m f g h at b c low high x = elim (where_is x (at + b) c) [
  | inl before ↦ overlay-outside (overlay m at b f) g (at + b) c x (inl before) ∙ first before
  | inr (inl (le, lt)) ↦
      overlay-inside (overlay m at b f) g (at + b) c x le lt
      ∙ high (x - (at + b)) (omega arith)
      ∙ ap h (omega arith)
      ∙ sym (overlay-inside m h at (b + c) x (omega arith) (omega arith))
  | inr (inr after) ↦
      overlay-outside (overlay m at b f) g (at + b) c x (inr after)
      ∙ overlay-outside m f at b x (inr (omega arith))
      ∙ sym (overlay-outside m h at (b + c) x (inr (omega arith)))
]
  where
    first : x < at + b → overlay m at b f x ≡ overlay m at (b + c) h x
    first lt = elim (dec_lt x at) [
      | yes k ↦ overlay-outside m f at b x (inl k) ∙ sym (overlay-outside m h at (b + c) x (inl k))
      | no k ↦
          overlay-inside m f at b x (omega (arith, k)) lt
          ∙ low (x - at) (omega (arith, k))
          ∙ sym (overlay-inside m h at (b + c) x (omega (arith, k)) (omega arith))
    ]

-- Bytes written into a copy of a window, which is written back
pub overlay-window :
    (dev f : ℕ → ℕ) (at n off b : ℕ)
    → off + b ≤ n
    → (x : ℕ)
    → overlay dev at n (overlay (λ a. dev (at + a)) off b f) x ≡ overlay dev (at + off) b f x
overlay-window dev f at n off b fits x = elim (where_is x (at + off) b) [
  | inl before ↦ unchanged (inl before) ∙ sym (overlay-outside dev f (at + off) b x (inl before))
  | inr (inl (le, lt)) ↦
      overlay-inside dev (overlay (λ a. dev (at + a)) off b f) at n x (omega arith) (omega arith)
      ∙ overlay-inside (λ a. dev (at + a)) f off b (x - at) (omega arith) (omega arith)
      ∙ ap f (omega arith)
      ∙ sym (overlay-inside dev f (at + off) b x le lt)
  | inr (inr after) ↦ unchanged (inr after) ∙ sym (overlay-outside dev f (at + off) b x (inr after))
]
  where
    unchanged :
        (x < at + off) ⊎ (at + off + b ≤ x)
        → overlay dev at n (overlay (λ a. dev (at + a)) off b f) x ≡ dev x
    unchanged apart = elim (where_is x at n) [
      | inl before ↦ overlay-outside dev (overlay (λ a. dev (at + a)) off b f) at n x (inl before)
      | inr (inl (le, lt)) ↦
          overlay-inside dev (overlay (λ a. dev (at + a)) off b f) at n x le lt
          ∙ overlay-outside (λ a. dev (at + a)) f off b (x - at) (omega arith)
          ∙ ap dev (omega arith)
      | inr (inr after) ↦
          overlay-outside dev (overlay (λ a. dev (at + a)) off b f) at n x (inr after)
    ]

-- The second of two moves goes on where the first has ended.
pub overlay-chain :
    (base base1 base2 src src1 : ℕ → ℕ) (to p b c to1 p1 : ℕ)
    → ((x : ℕ) → base1 x ≡ overlay base to b (λ a. src (p + a)) x)
    → ((x : ℕ) → src1 x ≡ src x)
    → to1 ≡ to + b
    → p1 ≡ p + b
    → (x : ℕ) → base2 x ≡ overlay base1 to1 c (λ a. src1 (p1 + a)) x
    → base2 x ≡ overlay base to (b + c) (λ a. src (p + a)) x
overlay-chain base base1 base2 src src1 to p b c to1 p1 first same e q x second =
    second
    ∙ ap (λ m. overlay m to1 c (λ a. src1 (p1 + a)) x) (fun_ext first)
    ∙ ap (λ t. overlay (overlay base to b (λ a. src (p + a))) t c (λ a. src1 (p1 + a)) x) e
    ∙ overlay-joined base (λ a. src (p + a)) (λ a. src1 (p1 + a)) (λ a. src (p + a)) to b c
        (λ y lt. refl) (λ y lt. same (p1 + y) ∙ ap src (omega arith)) x
