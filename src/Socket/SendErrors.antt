-- ===== src/Socket/SendErrors.antt =====
-- What the sending code of core/include/socket_io.h makes of a failing system call. The loop keeps
-- the result in a `size_t`, where -1 passes the test for an error.
use conv_event.Base.{
  ℕ, ◌+◌, ◌-◌, ◌≤◌, ◌<◌, ◌≡◌, ap, ◌∙◌, true, List, [], ◌∷◌, ◌++◌, arith, Bytes, length, take, drop,
}
use conv_event.Socket.State.{SocketIo, Net, SendAnswer, Errno, size_t_mod, size_max}
use conv_event.Socket.Sending.{
  SendRun, returned, waiting, need_to_send, advance, send_base, latch, start_write, send,
}
use conv_event.Socket.Delivery.{Honest, RunGains, send_base-RunGains}
use conv_event.Socket.Resumption.{Returns, Progress, send_base-Returns, send_fresh}

send_base_done :
    (bytes : Bytes) (answers : List SendAnswer) (io : SocketIo) (net : Net)
    → io.write_total_bytes ≤ io.write_cursor
    → send_base bytes answers io net ≡ returned true io net answers
unfolding send_base
send_base_done bytes [] io net h = ground arith
send_base_done bytes (a ∷ answers) io net h = ground arith

send_base_failed :
    (bytes : Bytes) (answers : List SendAnswer) (e : Errno) (io : SocketIo) (net : Net)
    → io.write_cursor < io.write_total_bytes
    → send_base bytes (SendAnswer.failed e ∷ answers) io net
      ≡ send_base bytes answers (advance io size_max) (record net { errno = e })
unfolding send_base
send_base_failed bytes answers e io net h = ground arith

-- The error of the first system call of a message, "would block" included, is reported as success:
-- `send` returns true, nothing is on the wire, and the socket stands ready for the next message.
pub send_failure_at_start :
    (bytes : Bytes) (size : ℕ) (e : Errno) (answers : List SendAnswer) (io : SocketIo) (net : Net)
    → io.already ≡ true
    → 0 < size
    → size < size_t_mod
    → send bytes size (SendAnswer.failed e ∷ answers) io net
      ≡ returned true
          (record io { write_total_bytes = size; write_cursor = size_max; already = true })
          (record net { errno = e })
          answers
send_failure_at_start bytes size e answers io net a pos w =
    send_fresh bytes size (SendAnswer.failed e ∷ answers) io net a pos
    ∙ ap latch (send_base_failed bytes answers e (start_write io size) net pos)
    ∙ ap latch (
        send_base_done bytes answers (advance (start_write io size) size_max)
          (record net { errno = e }) (omega arith))

RunGains-all :
    (bytes : Bytes) (io : SocketIo) (net : Net) (k d : ℕ) (r : SendRun)
    → need_to_send io ≡ k
    → io.write_cursor ≡ d
    → RunGains bytes io net r
    → Returns true r
    → (io' : SocketIo) × (net' : Net) × (rest : List SendAnswer) × (r ≡ returned true io' net' rest)
      × (net'.wire ≡ net.wire ++ take k (drop d bytes))
RunGains-all bytes io net k d (returned ok io' net' rest) p q g t =
    let end : io'.write_cursor - io.write_cursor ≡ k = omega (arith, g.1 t) in
    (io', net', rest, rw t, rw (← end, ← q) g.0.0)
RunGains-all bytes io net k d (waiting io' net') p q g t = absurd t

-- An error after `c > 0` bytes of a message moves the cursor back by one. When the system calls that
-- follow each take a byte or more, and are enough, `send_base` returns true having sent the message
-- again from byte `c - 1` on: that byte is on the wire twice.
pub send_failure_repeats_byte :
    (bytes : Bytes) (e : Errno) (answers : List SendAnswer) (io : SocketIo) (net : Net)
    → 0 < io.write_cursor
    → io.write_cursor < io.write_total_bytes
    → io.write_total_bytes < size_t_mod
    → Honest (need_to_send io + 1) answers
    → Progress answers
    → need_to_send io + 1 ≤ length answers
    → (io' : SocketIo) × (net' : Net) × (rest : List SendAnswer) × (send_base bytes
          (SendAnswer.failed e ∷ answers)
          io
          net
        ≡ returned true io' net' rest)
      × (net'.wire ≡ net.wire ++ take (need_to_send io + 1) (drop (io.write_cursor - 1) bytes))
send_failure_repeats_byte bytes e answers io net pos h w honest p enough =
    let back = advance io size_max in
    let net' = record net { errno = e } in
    let moved : back.write_cursor ≡ io.write_cursor - 1 = omega arith in
    let need : need_to_send back ≡ need_to_send io + 1 = omega arith in
    let honest' : Honest (need_to_send back) answers = rw need honest in
    let (io', net'', rest, run, wire) =
      RunGains-all bytes back net' (need_to_send io + 1) (io.write_cursor - 1)
        (send_base bytes answers back net') need moved
        (send_base-RunGains bytes answers back net' (omega arith) w honest')
        (send_base-Returns bytes answers back net' (omega arith) w honest' p (omega arith)) in
    (io', net'', rest, send_base_failed bytes answers e io net h ∙ run, wire)
