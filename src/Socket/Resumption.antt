-- ===== src/Socket/Resumption.antt =====
-- `send` of core/include/socket_io.h over several calls: what was not taken is sent by the next call.
use conv_event.Base.{
  ℕ, ◌-◌, ◌≤◌, ◌<◌, ◌≡◌, refl, sym, ap, ◌∙◌, inl, inr, true, false, List, [], ◌∷◌, ◌++◌, append-nil,
  append_assoc, Bool, arith, Bytes, length, take, ltb, leb, Bool-cases, take-append-take,
}
use conv_event.Socket.State.{SocketIo, Net, SendAnswer, size_t_mod, at_most_buffer}
use conv_event.Socket.Sending.{
  SendRun, returned, waiting, transmit, chunk_of, need_to_send, advance, send_base, latch,
  start_write, send,
}
use conv_event.Socket.Delivery.{
  Honest, Gains, RunGains, send_base-RunGains, advance_cursor, at_most_buffer-le,
}

-- The wire holds what it held before the message, and the first bytes of the message.
abbrev pub SentUpTo : Bytes → ℕ → Bytes → SendRun → Type 0
SentUpTo bytes size before (returned ok io net answers) =
    (net.wire ≡ before ++ take io.write_cursor bytes)
    × (io.write_cursor ≤ size)
    × (ok ≡ true → io.write_cursor ≡ size)
    × (io.write_total_bytes ≡ size)
    × (io.already ≡ ok)
SentUpTo bytes size before (waiting io net) =
    (net.wire ≡ before ++ take io.write_cursor bytes) × (io.write_cursor ≤ size)

-- A message of `size` bytes is on its way.
abbrev pub Sending : Bytes → ℕ → Bytes → SocketIo → Net → Type 0
Sending bytes size before io net =
    (io.already ≡ false)
    × (io.write_total_bytes ≡ size)
    × (io.write_cursor ≤ size)
    × (net.wire ≡ before ++ take io.write_cursor bytes)

Gains-SentUpTo :
    (bytes before : Bytes) (io io' : SocketIo) (net net' : Net)
    → net.wire ≡ before ++ take io.write_cursor bytes
    → Gains bytes io net io' net'
    → net'.wire ≡ before ++ take io'.write_cursor bytes
Gains-SentUpTo bytes before io io' net net' h g =
    g.0
    ∙ rw (h, append_assoc)
        (ap (◌++◌ before) (
          take-append-take io.write_cursor (io'.write_cursor - io.write_cursor) io'.write_cursor
            bytes (omega arith)))

RunGains-SentUpTo :
    (bytes before : Bytes) (size : ℕ) (io : SocketIo) (net : Net) (r : SendRun)
    → net.wire ≡ before ++ take io.write_cursor bytes
    → io.write_total_bytes ≡ size
    → RunGains bytes io net r
    → SentUpTo bytes size before (latch r)
RunGains-SentUpTo bytes before size io net (returned ok io' net' answers) h t g = (
  Gains-SentUpTo bytes before io io' net net' h g.0,
  omega arith,
  λ e. g.1 e ∙ t,
  omega arith,
  refl,
)
RunGains-SentUpTo bytes before size io net (waiting io' net') h t g =
    (Gains-SentUpTo bytes before io io' net net' h g, omega arith)

Honest-start :
    (size : ℕ) (answers : List SendAnswer) → Honest size answers → Honest (size - 0) answers
Honest-start size answers h = let e : size - 0 ≡ size = omega arith in rw e h

pub send_fresh :
    (bytes : Bytes) (size : ℕ) (answers : List SendAnswer) (io : SocketIo) (net : Net)
    → io.already ≡ true
    → 0 < size
    → send bytes size answers io net ≡ latch (send_base bytes answers (start_write io size) net)
unfolding send
send_fresh bytes size answers io net a pos = ground arith

send_resumed :
    (bytes : Bytes) (size : ℕ) (answers : List SendAnswer) (io : SocketIo) (net : Net)
    → io.already ≡ false
    → send bytes size answers io net ≡ latch (send_base bytes answers io net)
unfolding send
send_resumed bytes size answers io net a = ground arith

-- A first call of `send` whose system calls meet no error puts exactly the bytes that its cursor
-- counts behind what the wire held, whatever counts they answer; it returns true only when that is
-- the whole message, and else keeps total, cursor and `already` for the next call.
pub send-SentUpTo :
    (bytes : Bytes) (size : ℕ) (answers : List SendAnswer) (io : SocketIo) (net : Net)
    → io.already ≡ true
    → 0 < size
    → size < size_t_mod
    → Honest size answers
    → SentUpTo bytes size net.wire (send bytes size answers io net)
send-SentUpTo bytes size answers io net a pos w honest =
    rw (send_fresh bytes size answers io net a pos) (
      RunGains-SentUpTo bytes net.wire size (start_write io size) net
        (send_base bytes answers (start_write io size) net) (sym (append-nil net.wire)) refl
        (send_base-RunGains bytes answers (start_write io size) net (omega arith) w
          (Honest-start size answers honest)))

-- A call of `send` with a message on its way goes on where the last call stopped, whatever size it is
-- given: the wire again holds exactly the counted bytes of the message, none twice.
pub send_again-SentUpTo :
    (bytes before : Bytes) (size size' : ℕ) (answers : List SendAnswer) (io : SocketIo) (net : Net)
    → Sending bytes size before io net
    → size < size_t_mod
    → Honest (need_to_send io) answers
    → SentUpTo bytes size before (send bytes size' answers io net)
send_again-SentUpTo bytes before size size' answers io net going w honest =
    rw (send_resumed bytes size' answers io net going.0) (
      RunGains-SentUpTo bytes before size io net (send_base bytes answers io net) going.3 going.1
        (send_base-RunGains bytes answers io net (omega arith) (omega arith) honest))

-- Every call takes at least one byte.
abbrev pub Progress : List SendAnswer → Type 0
Progress [] = Unit {0}
Progress (SendAnswer.sent n ∷ answers) = (0 < n) × Progress answers
Progress (SendAnswer.failed e ∷ answers) = ⊥

abbrev pub Returns : Bool → SendRun → Type 0
Returns b (returned ok io net answers) = ok ≡ b
Returns b (waiting io net) = ⊥

pub send_base-Returns :
    (bytes : Bytes) (answers : List SendAnswer) (io : SocketIo) (net : Net)
    → io.write_cursor ≤ io.write_total_bytes
    → io.write_total_bytes < size_t_mod
    → Honest (need_to_send io) answers
    → Progress answers
    → need_to_send io ≤ length answers
    → Returns true (send_base bytes answers io net)
unfolding send_base
send_base-Returns bytes [] io net h w honest p enough = ground arith
send_base-Returns bytes (SendAnswer.failed e ∷ answers) io net h w honest p enough = absurd p
send_base-Returns bytes (SendAnswer.sent n ∷ answers) io net h w honest p enough =
    elim (Bool-cases (ltb io.write_cursor io.write_total_bytes)) [
      | inr done ↦ rw done refl
      | inl more ↦
          let fits : n ≤ at_most_buffer (need_to_send io) = honest.0 (ground arith) in
          let moved = advance_cursor io n fits h w in
          let bound = at_most_buffer-le (need_to_send io) in
          let left : need_to_send (advance io n) ≡ need_to_send io - n = omega arith in
          let net' = transmit (chunk_of bytes io) (SendAnswer.sent n) net in
          let go : leb n 0 ≡ false = ground arith in
          rw (more, go)
            (send_base-Returns bytes answers (advance io n) net' (omega arith) w (rw left honest.1)
              p.1 (omega arith))
    ]

SentUpTo-all :
    (bytes before : Bytes) (size : ℕ) (r : SendRun)
    → SentUpTo bytes size before r
    → Returns true r
    → (io : SocketIo) × (net : Net) × (rest : List SendAnswer) × (r ≡ returned true io net rest)
      × (net.wire ≡ before ++ take size bytes)
      × (io.already ≡ true)
SentUpTo-all bytes before size (returned ok io net rest) s t =
    (io, net, rest, rw t, s.0 ∙ ap (λ (k : ℕ). before ++ take k bytes) (s.2 t), s.4 ∙ t)
SentUpTo-all bytes before size (waiting io net) s t = absurd t

latch-Returns : (b : Bool) (r : SendRun) → Returns b r → Returns b (latch r)
latch-Returns b (returned ok io net rest) h = h
latch-Returns b (waiting io net) h = h

pub send_base_completes :
    (bytes : Bytes) (size : ℕ) (answers : List SendAnswer) (io : SocketIo) (net : Net)
    → size < size_t_mod
    → Honest size answers
    → Progress answers
    → size ≤ length answers
    → (io' : SocketIo) × (net' : Net) × (rest : List SendAnswer) × (latch
          (send_base bytes answers (start_write io size) net)
        ≡ returned true io' net' rest)
      × (net'.wire ≡ net.wire ++ take size bytes)
      × (io'.already ≡ true)
send_base_completes bytes size answers io net w honest p enough =
    let io' = start_write io size in
    let honest' = Honest-start size answers honest in
    SentUpTo-all bytes net.wire size (latch (send_base bytes answers io' net))
      (RunGains-SentUpTo bytes net.wire size io' net (send_base bytes answers io' net)
        (sym (append-nil net.wire)) refl
        (send_base-RunGains bytes answers io' net (omega arith) w honest'))
      (latch-Returns true (send_base bytes answers io' net)
        (send_base-Returns bytes answers io' net (omega arith) w honest' p (omega arith)))

-- If each of at least `size` system calls takes a byte or more, `send` returns true, has put exactly
-- the first `size` bytes of the message behind what the wire held, and is ready for a new message.
pub send_completes :
    (bytes : Bytes) (size : ℕ) (answers : List SendAnswer) (io : SocketIo) (net : Net)
    → io.already ≡ true
    → 0 < size
    → size < size_t_mod
    → Honest size answers
    → Progress answers
    → size ≤ length answers
    → (io' : SocketIo) × (net' : Net) × (rest : List SendAnswer) × (send bytes size answers io net
        ≡ returned true io' net' rest)
      × (net'.wire ≡ net.wire ++ take size bytes)
      × (io'.already ≡ true)
send_completes bytes size answers io net a pos w honest p enough =
    rw (send_fresh bytes size answers io net a pos)
      (send_base_completes bytes size answers io net w honest p enough)
