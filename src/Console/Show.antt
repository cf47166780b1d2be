-- ===== src/Console/Show.antt =====
-- The loop of out_char() in kernel/console.c.
use mathlib.Core.Path.{subst}
use kusa_os.Base.{
  ℕ, zero, suc, ◌+◌, ◌-◌, ◌*◌, ◌/◌, ◌≤◌, ◌<◌, ◌≡◌, refl, sym, ap, ◌∙◌, ◌⊎◌, inl, inr, arith, true,
  false, Bool-cases, ok, ltb, update, update_ne, if◌then◌else◌,
}
use kusa_os.Console.{
  Console, Video, scr_up, scroll_up, scroll_screen, flush, show_cursor, is_shown, clear_screen,
  set_crt,
}
use kusa_os.Console.Scroll.{IsConsole, scroll_up-IsConsole}

clear_screen-before :
    (len pos : ℕ) (mem : ℕ → ℕ) (i : ℕ) → i < pos * 2 → clear_screen len pos mem i ≡ mem i
unfolding clear_screen
clear_screen-before zero pos mem i h = refl
clear_screen-before (suc len) pos mem i h =
    clear_screen-before len (pos + 1) _ i (omega arith)
    ∙ update_ne (update mem (pos * 2) 32) (pos * 2 + 1) i 7 (omega arith)
    ∙ update_ne mem (pos * 2) i 32 (omega arith)

clear_screen-after :
    (len pos : ℕ) (mem : ℕ → ℕ) (i : ℕ) → (pos + len) * 2 ≤ i → clear_screen len pos mem i ≡ mem i
unfolding clear_screen
clear_screen-after zero pos mem i h = refl
clear_screen-after (suc len) pos mem i h =
    clear_screen-after len (pos + 1) _ i (omega arith)
    ∙ update_ne (update mem (pos * 2) 32) (pos * 2 + 1) i 7 (omega arith)
    ∙ update_ne mem (pos * 2) i 32 (omega arith)

pub clear_screen-outside :
    (len pos : ℕ) (mem : ℕ → ℕ) (i : ℕ)
    → (i < pos * 2) ⊎ ((pos * 2) + len * 2 ≤ i)
    → clear_screen len pos mem i ≡ mem i
clear_screen-outside len pos mem i (inl h) = clear_screen-before len pos mem i h
clear_screen-outside len pos mem i (inr h) = clear_screen-after len pos mem i (omega arith)

-- A bound on the steps to the cursor
pub to_go : Console → ℕ
to_go c =
    if ltb c.cursor c.crtc_start
    then (c.orig + 3440 - c.crtc_start) / 80 + 1 + (c.cursor - c.orig) / 80
    else (c.cursor - c.crtc_start) / 80

pub to_go-bound : (c : Console) → IsConsole c → to_go c < 120
unfolding to_go
to_go-bound c h = ground arith

to_go-less : (c : Console) → IsConsole c → is_shown c ≡ false → to_go (scroll_up c) < to_go c
unfolding to_go scroll_up
to_go-less c h e = ground arith

pub flush-con : (v : Video) → (flush v).con ≡ v.con
unfolding flush
flush-con v = ground arith

pub flush-mem : (v : Video) → (flush v).mem ≡ v.mem
unfolding flush
flush-mem v = ground arith

pub flush-current : (v : Video) → (flush v).is_current ≡ v.is_current
unfolding flush
flush-current v = ground arith

-- One round of the loop
abbrev pub round : Video → Video
round v =
    let v' = scroll_screen v scr_up in record v' { mem = clear_screen 80 v'.con.cursor v'.mem }

scroll_up-fields :
    (c : Console)
    → ((scroll_up c).cursor ≡ c.cursor)
      × ((scroll_up c).orig ≡ c.orig)
      × ((scroll_up c).is_full ≡ c.is_full)
unfolding scroll_up
scroll_up-fields c = ground arith

pub round-con : (v : Video) → (round v).con ≡ scroll_up v.con
unfolding scroll_screen
round-con v = flush-con (record v { con = scroll_up v.con })

round-mem : (v : Video) → (round v).mem ≡ clear_screen 80 v.con.cursor v.mem
unfolding scroll_screen
round-mem v =
    ap (λ c. clear_screen 80 c.cursor (flush moved).mem) (flush-con moved)
    ∙ ap (clear_screen 80 (scroll_up v.con).cursor) (flush-mem moved)
    ∙ ap (λ x. clear_screen 80 x v.mem) (scroll_up-fields v.con).0
  where
    moved : Video
    moved = record v { con = scroll_up v.con }

round-current : (v : Video) → (round v).is_current ≡ v.is_current
unfolding scroll_screen
round-current v = flush-current (record v { con = scroll_up v.con })

-- What the loop ends with: the cursor, where it was, is on the screen, and only the 80 words from
-- the cursor on may have changed.
pub record IsShown (v v' : Video) : Type 0 where
  pub con : IsConsole v'.con
  pub shown : is_shown v'.con ≡ true
  pub cursor : v'.con.cursor ≡ v.con.cursor
  pub orig : v'.con.orig ≡ v.con.orig
  pub is_full : v'.con.is_full ≡ v.con.is_full
  pub is_current : v'.is_current ≡ v.is_current
  pub kept : (i : ℕ) → (i < v.con.cursor * 2) ⊎ (v.con.cursor * 2 + 160 ≤ i) → v'.mem i ≡ v.mem i

round-IsShown : (v v' : Video) → IsShown (round v) v' → IsShown v v'
round-IsShown v v' h = record {
  con = h.con;
  shown = h.shown;
  cursor = h.cursor ∙ same;
  orig = h.orig ∙ ap (λ c. c.orig) (round-con v) ∙ (scroll_up-fields v.con).1;
  is_full = h.is_full ∙ ap (λ c. c.is_full) (round-con v) ∙ (scroll_up-fields v.con).2;
  is_current = h.is_current ∙ round-current v;
  kept = λ i apart.
      h.kept i (subst (λ x. (i < x * 2) ⊎ (x * 2 + 160 ≤ i)) (sym same) apart)
      ∙ ap (λ m. m i) (round-mem v)
      ∙ clear_screen-outside 80 v.con.cursor v.mem i apart;
}
  where
    same : (round v).con.cursor ≡ v.con.cursor
    same = ap (λ c. c.cursor) (round-con v) ∙ (scroll_up-fields v.con).0

pub show_cursor-IsShown :
    (f : ℕ) (v : Video)
    → IsConsole v.con
    → to_go v.con < f
    → (v' : Video) × (show_cursor f v ≡ ok v') × IsShown v v'
unfolding show_cursor
show_cursor-IsShown zero v h lt = elim lt [ ]
show_cursor-IsShown (suc f) v h lt = elim (Bool-cases (is_shown v.con)) [
  | inl e ↦ (
    v,
    rw (e, show_cursor) refl,
    record {
      con = h;
      shown = e;
      cursor = refl;
      orig = refl;
      is_full = refl;
      is_current = refl;
      kept = λ _ _. refl;
    },
  )
  | inr e ↦
      let (v', returns, at) =
        show_cursor-IsShown f (round v)
          (subst IsConsole (sym (round-con v)) (scroll_up-IsConsole v.con h)) (fewer e) in
      (v', rw (e, show_cursor) returns, round-IsShown v v' at)
]
  where
    fewer : is_shown v.con ≡ false → to_go (round v).con < f
    fewer e = subst (λ c. to_go c < f) (sym (round-con v)) (omega (arith, to_go-less v.con h e))

pub show_cursor-still : (f : ℕ) (v : Video) → is_shown v.con ≡ true → show_cursor (suc f) v ≡ ok v
unfolding show_cursor
show_cursor-still f v e = rw (e, show_cursor) refl

pub flush-registers : (v : Video) → v.is_current ≡ true → (flush v).crt ≡ set_crt (flush v).con
unfolding flush
flush-registers v e = ground arith
