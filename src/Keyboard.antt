-- ===== src/Keyboard.antt =====
-- The keyboard driver of kernel/keyboard.c: keyboard_handler(), init_keyboard(),
-- get_byte_from_kb_buf() and keyboard_read(), as far as the keys that it hands to in_process() of
-- kernel/tty.c. The pointers into the buffer are indices. `arriving` is what the interrupts bring
-- while the reader waits, `leds` what set_leds() has sent and `keys` what in_process() is given,
-- each in order.
pub mod Keymap
pub mod Scancodes
pub mod Read
pub mod Ends
pub mod Plain
use Prim.Native.Nat.{bit_or}
use kusa_os.Base.{
  ℕ, zero, suc, ◌+◌, ◌-◌, ◌*◌, ◌/◌, ◌%◌, Bool, true, false, not, ◌&&◌, ◌||◌, List, [], ◌∷◌, ◌++◌,
  ltb, leb, ◌==◌, update, if◌then◌else◌,
}
use Keymap.{keymap, keyrow}

-- KB_IN_BYTES
abbrev pub kb_in_bytes : ℕ
kb_in_bytes = 32

pub record KbInbuf : Type 0 where
  pub p_head : ℕ
  pub p_tail : ℕ
  pub count : ℕ
  pub buf : ℕ → ℕ

pub record Locks : Type 0 where
  pub caps_lock : Bool
  pub num_lock : Bool
  pub scroll_lock : Bool

pub record Held : Type 0 where
  pub shift_l : Bool
  pub shift_r : Bool
  pub alt_l : Bool
  pub alt_r : Bool
  pub ctrl_l : Bool
  pub ctrl_r : Bool

pub record Keyboard : Type 0 where
  pub kb_in : KbInbuf
  pub arriving : List ℕ
  pub locks : Locks
  pub held : Held
  pub leds : List ℕ
  pub keys : List ℕ

abbrev pub number : List ℕ → ℕ
number [] = 0
number (c ∷ cs) = suc (number cs)

-- The bytes that are there to be read
abbrev pub left_over : Keyboard → ℕ
left_over s = s.kb_in.count + number s.arriving

-- What a routine that waits for bytes comes to
pub data Outcome (A : Type 0) : Type 0 where
  done : A → Outcome A
  waits : Outcome A
  out_of_fuel : Outcome A

infixl 5 ◌then◌
abbrev pub ◌then◌ : {A B : Type 0} → Outcome A → (A → Outcome B) → Outcome B
done a then rest = rest a
waits then rest = waits
out_of_fuel then rest = out_of_fuel

abbrev pub next_byte : ℕ → ℕ
next_byte p = if p + 1 == kb_in_bytes then 0 else p + 1

unfoldable pub keyboard_handler : KbInbuf → ℕ → KbInbuf
keyboard_handler k scan_code =
    if ltb k.count kb_in_bytes
    then record k {
      buf = update k.buf k.p_head scan_code;
      p_head = next_byte k.p_head;
      count = k.count + 1;
    }
    else k

-- The byte at the tail
abbrev pub take_byte : Keyboard → ℕ × Keyboard
take_byte s = (
  s.kb_in.buf s.kb_in.p_tail,
  record s {
    kb_in = record (s.kb_in) { p_tail = next_byte s.kb_in.p_tail; count = s.kb_in.count - 1 };
  },
)

-- The first byte that an interrupt brings ends the wait.
abbrev pub wait_byte : Keyboard → List ℕ → Outcome (ℕ × Keyboard)
wait_byte s [] = waits
wait_byte s (c ∷ cs) =
    done (take_byte (record s { kb_in = keyboard_handler s.kb_in c; arriving = cs }))

unfoldable pub get_byte_from_kb_buf : Keyboard → Outcome (ℕ × Keyboard)
unfolding keyboard_handler
get_byte_from_kb_buf s = if s.kb_in.count == 0 then wait_byte s s.arriving else done (take_byte s)

abbrev pub bit_of : Bool → ℕ
bit_of b = if b then 1 else 0

-- The byte that set_leds() sends
abbrev pub led_byte : Locks → ℕ
led_byte l = bit_of l.caps_lock * 4 + bit_of l.num_lock * 2 + bit_of l.scroll_lock

abbrev pub set_locks : Keyboard → Locks → Keyboard
set_locks s l = record s { locks = l; leds = s.leds ++ (led_byte l ∷ []) }

abbrev pub init_keyboard : (ℕ → ℕ) → List ℕ → Keyboard
init_keyboard buf arriving = record {
  kb_in = record { p_head = 0; p_tail = 0; count = 0; buf = buf };
  arriving = arriving;
  locks = record { caps_lock = false; num_lock = true; scroll_lock = false };
  held = record {
    shift_l = false;
    shift_r = false;
    alt_l = false;
    alt_r = false;
    ctrl_l = false;
    ctrl_r = false;
  };
  leds = 2 ∷ [];
  keys = [];
}

-- What a turn of the loop has found: the local variables, and the keyboard
pub record Scan : Type 0 where
  pub scan_code : ℕ
  pub code_with_E0 : Bool
  pub key : ℕ
  pub make : Bool
  pub board : Keyboard
