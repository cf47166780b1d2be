-- ===== src/Ipc/Receive/Take.antt =====
-- take_from(): the message is copied and the net serves the sender.
use mathlib.Core.Path.{subst}
use kusa_os.Base.{ℕ, ◌+◌, ◌%◌, ◌<◌, ◌≡◌, ◌≢◌, refl, sym, ap, ◌∙◌, true, ok, update_self, none}
use kusa_os.Kernel.{Kernel, Proc, nr_entries, message_size, is_clear, u32_mod}
use kusa_os.Kernel.Memory.{phys_copy, va2la}
use kusa_os.Ipc.Abstract.{idle, sending, Net, In, serve}
use kusa_os.Ipc.Receive.{take_from, unlink_sender, served}
use kusa_os.Ipc.Receive.Unlink.{IsUnlinked, unlinked}
use kusa_os.Ipc.Receive.Serve.{ended, served-Holds, src-Fits}
use kusa_os.Ipc.Fields.{not_null-lem}
use kusa_os.Ipc.Invariant.{Holds, Fits, IsAddress, linear, va2la_flat}
use kusa_os.Ipc.Core.{Core}
use kusa_os.Ipc.Queue.{before}

module _ {k : Kernel} {a : Net} (h : Holds k a) (me m : ℕ) (me_lt : me < nr_entries)
    (me_idle : a.status me ≡ idle) (addr : IsAddress m) where
  pub me-Fits : Fits idle (k.procs me)
  me-Fits = subst (λ t. Fits t (k.procs me)) me_idle (h.fits me me_lt)

  -- The memory once the message of `src` is in the caller's buffer.
  abbrev pub copied : ℕ → ℕ → ℕ
  copied src = phys_copy message_size (linear k me m) (linear k src (k.procs src).p_msg) k.mem

  ne-src : (src : ℕ) → In src (a.queue me) → me ≢ src
  ne-src src i q = cc (sym me_idle ∙ ap a.status q ∙ (h.queued me src me_lt i).1)

  pub take_from-ok :
      (src : ℕ)
      → src < nr_entries
      → In src (a.queue me)
      → (k' : Kernel) × (take_from k me src m (before src none (a.queue me)) ≡ ok k')
        × Holds k' (serve a me src)
        × (k'.mem ≡ copied src)
  unfolding take_from
  take_from-ok src src_lt i = (
    record k { procs = last_table; mem = copied src },
    rw (e, not_null-lem m addr.0, not_null-lem (table src).p_msg f.1.0, to, at, clear),
    served-Holds h me src me_lt src_lt ne i table t (copied src),
    refl,
  )
    where
      ne : me ≢ src
      ne = ne-src src i

      table : ℕ → Proc
      table = (unlinked h me src me_lt ne i (a.queue me) refl).0

      e : unlink_sender k me src (before src none (a.queue me)) ≡ ok (record k { procs = table })
      e = (unlinked h me src me_lt ne i (a.queue me) refl).1

      t : IsUnlinked h me src me_lt ne i table
      t = (unlinked h me src me_lt ne i (a.queue me) refl).2

      f : Fits (sending me) (table src)
      f = src-Fits h me src me_lt src_lt ne i table t

      last_table : ℕ → Proc
      last_table = ended h me src me_lt src_lt ne i table t

      k1 : Kernel
      k1 = record k { procs = table }

      flat : (x : ℕ) → x < 9 → (table x).base ≡ 0
      flat x lt = ap (λ (c : Core). c.0) (t.cores x) ∙ h.flat x lt

      to : va2la k1 me m ≡ ok (linear k me m)
      to =
          va2la_flat k1 me m (flat me) addr.1
          ∙ ap (λ (c : Core). ok ((c.0 + m) % u32_mod)) (t.cores me)

      at : va2la k1 src (table src).p_msg ≡ ok (linear k src (k.procs src).p_msg)
      at =
          va2la_flat k1 src (table src).p_msg (flat src) f.1.1
          ∙ ap (λ (c : Core). ok ((c.0 + c.2) % u32_mod)) (t.cores src)

      clear : is_clear (last_table src).flags ≡ true
      clear =
          ap (λ (p : Proc). is_clear p.flags) (update_self table src (served (table src))) ∙ rw f.0
