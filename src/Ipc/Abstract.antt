-- ===== src/Ipc/Abstract.antt =====
-- What message passing promises, with no flags and no links: who waits for whom, and in which
-- order. `status` says what each process does, `queue` who waits to send to it, oldest first,
-- and `pending` whether an interrupt is kept for it.
use kusa_os.Base.{
  ℕ, ◌≡◌, ◌⊎◌, Bool, true, false, ◌&&◌, ◌||◌, List, [], ◌∷◌, ◌++◌, ◌==◌, if◌then◌else◌, update,
}
use kusa_os.Kernel.{Peer, from, any, peer_is, is_any, is_interrupt}

pub data Status : Type 0 where
  idle unused : Status
  sending : ℕ → Status
  receiving : Peer → Status

pub record Net : Type 0 where
  pub status : ℕ → Status
  pub queue : ℕ → List ℕ
  pub pending : ℕ → Bool

-- The process named waits for a message that `s` may give.
abbrev pub accepts : Status → ℕ → Bool
accepts (receiving e) s = peer_is e s || is_any e
accepts _ s = false

abbrev pub is_sending_to : Status → ℕ → Bool
is_sending_to (sending d) r = d == r
is_sending_to _ r = false

abbrev pub erase : ℕ → List ℕ → List ℕ
erase a [] = []
erase a (x ∷ xs) = if x == a then xs else x ∷ erase a xs

abbrev pub In : ℕ → List ℕ → Type 0
In a [] = ⊥
In a (x ∷ xs) = (a ≡ x) ⊎ In a xs

abbrev pub IsDistinct : List ℕ → Type 0
IsDistinct [] = Unit
IsDistinct (x ∷ xs) = ¬ In x xs × IsDistinct xs

abbrev pub set_status : Net → ℕ → Status → Net
set_status a p s = record a { status = update a.status p s }

-- A message from `s` to `d`: delivered at once, or `s` waits at the end of the queue.
unfoldable pub send : Net → ℕ → ℕ → Net
send a s d = if accepts (a.status d) s then set_status a d idle else record a {
  status = update a.status s (sending d);
  queue = update a.queue d (a.queue d ++ (s ∷ []));
}

-- The waiting sender `p` is served.
abbrev pub serve : Net → ℕ → ℕ → Net
serve a r p = record a {
  status = update a.status p idle;
  queue = update a.queue r (erase p (a.queue r));
}

-- `r` asks for a message: a kept interrupt, a waiting sender, or `r` waits.
unfoldable pub receive_queued : Net → ℕ → Peer → Net
receive_queued a r any = elim (a.queue r) [
  | [] ↦ set_status a r (receiving any)
  | p ∷ ps ↦ serve a r p
]
receive_queued a r (from p) =
    if is_sending_to (a.status p) r then serve a r p else set_status a r (receiving (from p))
receive_queued a r e = set_status a r (receiving e)

unfoldable pub receive : Net → ℕ → Peer → Net
unfolding receive_queued
receive a r e =
    if a.pending r && (is_any e || is_interrupt e)
    then record a { pending = update a.pending r false }
    else receive_queued a r e

-- An interrupt for `p` wakes it if it waits for one, and is kept otherwise.
abbrev pub awaits_interrupt : Status → Bool
awaits_interrupt (receiving e) = is_interrupt e || is_any e
awaits_interrupt _ = false

unfoldable pub notify : Net → ℕ → Net
notify a p =
    if awaits_interrupt (a.status p)
    then record a { status = update a.status p idle; pending = update a.pending p false }
    else record a { pending = update a.pending p true }
