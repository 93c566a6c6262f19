-- ===== src/Conn/Status.antt =====
-- The status of a connection of core/include/conn.h, and its requests to be closed.
use conv_event.Base.{
  ℕ, zero, suc, ◌≡◌, refl, ◌⊎◌, Bool, true, false, [], ◌∷◌, ◌++◌, arith, if◌then◌else◌,
}
use conv_event.Queue
use conv_event.Queue.{LockQueue}
use conv_event.Socket.State.{Fd, fd, no_fd}
use conv_event.Conn.State.{
  in_, out, closed, Conn, Shared, notify_close, close, Methods, process_in_base, process_out_base,
  process, is_closed,
}

-- `n` calls of notify_close, one after the other.
abbrev pub notify_times : ℕ → Conn → Shared → Conn × Shared
notify_times zero c w = (c, w)
notify_times (suc n) c w = let r = notify_close c w in notify_times n r.0 r.1

notify_times-closed :
    (n : ℕ) (c : Conn) (w : Shared) → c.status ≡ closed → notify_times n c w ≡ (c, w)
unfolding notify_close
notify_times-closed zero c w h = refl
notify_times-closed (suc n) c w h = ground (arith, notify_times-closed n c w h)

abbrev pub queued : Shared → Fd → Shared
queued w f = record w { to_close = record { items = w.to_close.items ++ (f ∷ []) } }

notify_close_live :
    (c : Conn) (w : Shared)
    → is_closed c.status ≡ false
    → c.close_queue ≡ true
    → notify_close c w ≡ (record c { status = closed }, queued w c.socket_fd)
unfolding notify_close Queue.push
notify_close_live c w h q = ground arith

-- However often a live connection is asked to be closed, it has the status CLOSE afterwards, and its
-- descriptor has entered the queue of the loop once, behind those that wait there.
pub notify_times_lem :
    (n : ℕ) (c : Conn) (w : Shared)
    → is_closed c.status ≡ false
    → c.close_queue ≡ true
    → notify_times (suc n) c w ≡ (record c { status = closed }, queued w c.socket_fd)
notify_times_lem n c w h q =
    rw (notify_close_live c w h q)
      (notify_times-closed n (record c { status = closed }) (queued w c.socket_fd) refl)

close_cases :
    (f : Fd) (c : Conn) (w : Shared)
    → c.socket_fd ≡ f
    → ((close c w).0.socket_fd ≡ no_fd) × (close (close c w).0 (close c w).1 ≡ close c w)
unfolding close
close_cases no_fd c w e = ground arith
close_cases (fd n) c w e = ground arith

-- A connection is closed once: afterwards it has no descriptor, and a second close, as by its
-- destructor, changes nothing and makes no system call.
pub close-close :
    (c : Conn) (w : Shared)
    → ((close c w).0.socket_fd ≡ no_fd) × (close (close c w).0 (close c w).1 ≡ close c w)
close-close c w = close_cases c.socket_fd c w refl

-- When the virtual method for a readable or a writable socket fails, and has not asked for the close
-- itself, `process` returns false, and the connection is closed and queued once; when the method
-- succeeds, `process` adds nothing to what it did.
pub process_in_out :
    (m : Methods) (c c' : Conn) (w w' : Shared) (b : Bool)
    → is_closed c'.status ≡ false
    → c'.close_queue ≡ true
    → ((c.status ≡ in_) × (m.process_in c w ≡ (b, c', w')))
      ⊎ ((c.status ≡ out) × (m.process_out c w ≡ (b, c', w')))
    → process m c w ≡ (
        if b
        then (true, c', w')
        else (false, record c' { status = closed }, queued w' c'.socket_fd))
unfolding process process_in_base process_out_base
process_in_out m c c' w w' b h q e = ground (arith, notify_close_live c' w' h q)
