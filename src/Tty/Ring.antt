-- ===== src/Tty/Ring.antt =====
-- The input buffer of a terminal of kernel/tty.c, as a bounded queue of keys.
use kusa_os.Base.{
  ℕ, zero, suc, ◌+◌, ◌%◌, ◌≤◌, ◌<◌, ◌≡◌, refl, sym, ap, ◌∙◌, inl, inr, arith, true, false,
  Bool-cases, List, [], ◌∷◌, ◌++◌, ltb, ◌==◌, update, update_ne, update_eq, ne→==, ltb→lt,
  if◌then◌else◌,
}
use kusa_os.Tty.{
  Tty, Buffer, Line, tty_in_bytes, next_slot, put_key, drop_key, echo_key, write_from,
  tty_dev_write,
}

pub record IsBuffer (b : Buffer) : Type 0 where
  pub tail : b.ibuf_tail < tty_in_bytes
  pub head : b.ibuf_head ≡ (b.ibuf_tail + b.ibuf_cnt) % tty_in_bytes
  pub bound : b.ibuf_cnt ≤ tty_in_bytes

-- The `n` keys from the index `i` on
unfoldable pub keys_from : (ℕ → ℕ) → ℕ → ℕ → List ℕ
keys_from ibuf i zero = []
keys_from ibuf i (suc n) = ibuf i ∷ keys_from ibuf (next_slot i) n

abbrev pub keys : Buffer → List ℕ
keys b = keys_from b.ibuf b.ibuf_tail b.ibuf_cnt

next_slot-mod : (i n : ℕ) → i < 256 → (next_slot i + n) % 256 ≡ (i + suc n) % 256
next_slot-mod i n h = ground arith

next_slot-lt : (i : ℕ) → i < 256 → next_slot i < 256
next_slot-lt i h = ground arith

-- A key behind the last of `n`, in a buffer that is not full
keys_from-put :
    (ibuf : ℕ → ℕ) (i n key : ℕ)
    → i < 256
    → n < 256
    → keys_from (update ibuf ((i + n) % 256) key) i (suc n) ≡ keys_from ibuf i n ++ (key ∷ [])
unfolding keys_from
keys_from-put ibuf i zero key lt near =
    ap (λ k. k ∷ []) (update_eq ibuf ((i + 0) % 256) i key (omega arith))
keys_from-put ibuf i (suc n) key lt near =
    ap (λ v. v ∷ keys_from (update ibuf ((i + suc n) % 256) key) (next_slot i) (suc n))
      (update_ne ibuf ((i + suc n) % 256) i key (omega arith))
    ∙ ap (λ ks. ibuf i ∷ ks)
        (ap (λ s. keys_from (update ibuf s key) (next_slot i) (suc n)) (sym (next_slot-mod i n lt))
          ∙ keys_from-put ibuf (next_slot i) n key (next_slot-lt i lt) (omega arith))

-- The consumer of a queue of keys
unfoldable pub echo_all : Line → List ℕ → Line
echo_all l [] = l
echo_all l (key ∷ ks) = echo_all (echo_key l key) ks

-- put_key() appends the key to the buffer's queue, or drops it if 256 keys are there.
pub put_key-keys :
    (b : Buffer) (key : ℕ)
    → IsBuffer b
    → IsBuffer (put_key b key)
      × (keys (put_key b key)
          ≡ (if ltb b.ibuf_cnt tty_in_bytes then keys b ++ (key ∷ []) else keys b))
unfolding put_key
put_key-keys b key h = elim (Bool-cases (ltb b.ibuf_cnt 256)) [
  | inl room ↦ (
    rw room (record {
      tail = h.tail;
      head = put_head room;
      bound = omega (arith, ltb→lt b.ibuf_cnt 256 room);
    }),
    rw (room, h.head)
        (ap (keys_from (update b.ibuf ((b.ibuf_tail + b.ibuf_cnt) % 256) key) b.ibuf_tail)
            (omega arith)
          ∙ keys_from-put b.ibuf b.ibuf_tail b.ibuf_cnt key h.tail (ltb→lt b.ibuf_cnt 256 room)),
  )
  | inr full ↦ (rw full h, rw full refl)
]
  where
    slot_after : (t n : ℕ) → t < 256 → next_slot ((t + n) % 256) ≡ (t + (n + 1)) % 256
    slot_after t n lt = ground arith

    put_head :
        ltb b.ibuf_cnt 256 ≡ true → next_slot b.ibuf_head ≡ (b.ibuf_tail + (b.ibuf_cnt + 1)) % 256
    put_head room = ap next_slot h.head ∙ slot_after b.ibuf_tail b.ibuf_cnt h.tail

drop_key-IsBuffer : (b : Buffer) (f : ℕ) → IsBuffer b → b.ibuf_cnt ≡ suc f → IsBuffer (drop_key b)
drop_key-IsBuffer b f h left = record {
  tail = next_slot-lt b.ibuf_tail h.tail;
  head =
      h.head
      ∙ ap (λ n. (b.ibuf_tail + n) % 256) left
      ∙ sym (next_slot-mod b.ibuf_tail f h.tail)
      ∙ ap (λ n. (next_slot b.ibuf_tail + n) % 256) (omega arith);
  bound = omega (arith, h.bound);
}

write_from-lem :
    (f : ℕ) (t : Tty)
    → IsBuffer t.buffer
    → t.buffer.ibuf_cnt ≡ f
    → ((write_from f t).line ≡ echo_all t.line (keys_from t.buffer.ibuf t.buffer.ibuf_tail f))
      × ((write_from f t).buffer.ibuf_cnt ≡ 0)
      × IsBuffer (write_from f t).buffer
unfolding write_from keys_from echo_all
write_from-lem zero t h left = (refl, left, h)
write_from-lem (suc f) t h left =
    rw (some_left, write_from)
      (write_from-lem f
        (record {
          buffer = drop_key t.buffer;
          line = echo_key t.line (t.buffer.ibuf t.buffer.ibuf_tail);
        })
        (drop_key-IsBuffer t.buffer f h left) (omega arith))
  where
    some_left : (t.buffer.ibuf_cnt == 0) ≡ false
    some_left = ne→== t.buffer.ibuf_cnt 0 (omega arith)

-- tty_dev_write() ends with an empty buffer, and has handled the keys that were in it one by
-- one, the oldest first.
pub tty_dev_write-keys :
    (t : Tty)
    → IsBuffer t.buffer
    → ((tty_dev_write t).line ≡ echo_all t.line (keys t.buffer))
      × ((tty_dev_write t).buffer.ibuf_cnt ≡ 0)
      × IsBuffer (tty_dev_write t).buffer
unfolding tty_dev_write
tty_dev_write-keys t h = write_from-lem t.buffer.ibuf_cnt t h refl
