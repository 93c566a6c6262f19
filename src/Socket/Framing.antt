-- ===== src/Socket/Framing.antt =====
-- Messages with the header of core/include/utils.h, sent and received by core/include/socket_io.h.
use native.Mathlib.Nat.{pow-suc}
use conv_event.Base.{
  ℕ, zero, suc, ◌+◌, ◌*◌, ◌/◌, ◌%◌, ◌^◌, ◌≤◌, ◌<◌, ◌≡◌, refl, ap, ◌∙◌, true, List, [], ◌∷◌, ◌++◌,
  append_assoc, arith, Bytes, length, take, drop, length-append, take-all, take-append, drop-append,
}
use conv_event.Socket.State.{
  SocketIo, Net, SendAnswer, RecvAnswer, size_t_mod, header_bytes, little_endian,
  from_little_endian, c_str,
}
use conv_event.Socket.Sending
use conv_event.Socket.Sending.{SendRun, send_base, start_write, send_with_header}
use conv_event.Socket.Delivery
use conv_event.Socket.Resumption.{Progress, send_base_completes}
use conv_event.Socket.Receiving
use conv_event.Socket.Receiving.{RecvRun, recv_base, recv_loop, start_read, recv_with_header}
use conv_event.Socket.Reception
use conv_event.Socket.Reception.{arrived, recv_loop_completes}

pub length-little_endian : (k n : ℕ) → length (little_endian k n) ≡ k
unfolding little_endian
length-little_endian zero n = refl
length-little_endian (suc k) n = ap suc (length-little_endian k (n / 256))

pub from_little_endian-little_endian :
    (k n : ℕ) → n < 256 ^ k → from_little_endian (little_endian k n) ≡ n
unfolding little_endian from_little_endian
from_little_endian-little_endian zero n h = omega arith
from_little_endian-little_endian (suc k) n h =
    let grow : 256 ^ suc k ≡ 256 ^ k * 256 = pow-suc 256 k in
    omega (arith, from_little_endian-little_endian k (n / 256) (omega arith))

-- The bytes of one message: its header, the text and the closing zero.
abbrev pub frame : Bytes → Bytes
frame text = header_bytes (length text + 1) ++ c_str text

pub length-header_bytes : (n : ℕ) → length (header_bytes n) ≡ 8
unfolding header_bytes
length-header_bytes n = length-little_endian 8 n

pub decoded : (n : ℕ) → n < size_t_mod → from_little_endian (header_bytes n) ≡ n
unfolding header_bytes
decoded n h = from_little_endian-little_endian 8 n h

send_with_header_fresh :
    (text : Bytes) (answers : List SendAnswer) (io : SocketIo) (net : Net) (size : ℕ)
    → io.already ≡ true
    → 1 < size
    → (length text + 1) % size_t_mod ≡ size
    → send_with_header text (SendAnswer.sent 8 ∷ answers) io net
      ≡ Sending.latch (
          send_base
            (c_str text)
            answers
            (start_write io size)
            (record net { wire = net.wire ++ take 8 (header_bytes size) }))
unfolding send_with_header
send_with_header_fresh text answers io net size a pos e = ground arith

pub length-c_str : (text : Bytes) → length (c_str text) ≡ length text + 1
length-c_str text = length-append text (0 ∷ [])

-- Once the header has gone out in one call, and each later call takes a byte or more, the calls being
-- enough, `send_with_header` returns true with exactly the frame of a non-empty text on the wire.
pub send_with_header_completes :
    (text : Bytes) (answers : List SendAnswer) (io : SocketIo) (net : Net)
    → io.already ≡ true
    → 0 < length text
    → length text + 1 < size_t_mod
    → Delivery.Honest (length text + 1) answers
    → Progress answers
    → length text + 1 ≤ length answers
    → (io' : SocketIo) × (net' : Net) × (rest : List SendAnswer) × (send_with_header text
          (SendAnswer.sent 8 ∷ answers)
          io
          net
        ≡ Sending.returned true io' net' rest)
      × (net'.wire ≡ net.wire ++ frame text)
      × (io'.already ≡ true)
send_with_header_completes text answers io net a pos w honest p enough =
    let size = length text + 1 in
    let net0 = record net { wire = net.wire ++ take 8 (header_bytes size) } in
    let (io', net', rest, run, wire, ready) =
      send_base_completes (c_str text) size answers io net0 w honest p enough in
    let whole : take size (c_str text) ≡ c_str text =
      take-all size (c_str text) (omega (arith, length-c_str text)) in
    let header : take 8 (header_bytes size) ≡ header_bytes size =
      take-all 8 (header_bytes size) (omega (arith, length-header_bytes size)) in
    (
      io',
      net',
      rest,
      send_with_header_fresh text answers io net size a (omega arith) (omega arith) ∙ run,
      wire ∙ rw (header, whole, append_assoc),
      ready,
    )

pub recv_with_header_fresh :
    (text head : Bytes) (answers : List RecvAnswer) (io : SocketIo) (net : Net) (size : ℕ)
    → io.already ≡ true
    → length head ≡ 8
    → from_little_endian head ≡ size
    → 0 < size
    → recv_with_header text (RecvAnswer.received head ∷ answers) io net
      ≡ Receiving.latch (recv_loop text answers (start_read io size) net)
unfolding recv_with_header
recv_with_header_fresh text head answers io net size a e d pos = rw (← d) (ground arith)

append-injective :
    (xs xs' ys ys' : Bytes)
    → length xs ≡ length xs'
    → xs ++ ys ≡ xs' ++ ys'
    → (xs ≡ xs') × (ys ≡ ys')
append-injective [] [] ys ys' h e = (refl, e)
append-injective [] (x' ∷ xs') ys ys' h e = absurd (omega arith)
append-injective (x ∷ xs) [] ys ys' h e = absurd (omega arith)
append-injective (x ∷ xs) (x' ∷ xs') ys ys' h e = ground (arith, append-injective xs xs' ys ys')

-- A receiver whose first call yields eight bytes, and whose stream begins with the frame of a text,
-- gets that text and the closing zero from `recv_with_header`, however the rest of the stream is cut,
-- and leaves what follows the frame to be read.
pub recv_with_header_completes :
    (text head more : Bytes) (answers : List RecvAnswer) (io : SocketIo) (net : Net)
    → io.already ≡ true
    → length text + 1 < size_t_mod
    → length head ≡ 8
    → head ++ arrived answers ≡ frame text ++ more
    → Reception.Honest (length text + 1) answers
    → (io' : SocketIo) × (rest : List RecvAnswer) × (recv_with_header []
          (RecvAnswer.received head ∷ answers)
          io
          net
        ≡ Receiving.returned true (c_str text) io' net rest)
      × (arrived rest ≡ more)
      × (io'.already ≡ true)
recv_with_header_completes text head more answers io net a w h stream honest =
    let size = length text + 1 in
    let (same, body) =
      append-injective head (header_bytes size) (arrived answers) (c_str text ++ more)
        (omega (arith, length-header_bytes size))
        (stream ∙ append_assoc (header_bytes size) (c_str text) more) in
    let long = ap length body in
    let (io', rest, run, left, ready) =
      recv_loop_completes [] size answers io net w honest
        (omega (arith, long, length-append (c_str text) more, length-c_str text)) in
    let whole = length-c_str text in
    let size_pos : 0 < size = omega arith in
    let value : from_little_endian head ≡ size = ap from_little_endian same ∙ decoded size w in
    (
      io',
      rest,
      recv_with_header_fresh [] head answers io net size a h value size_pos
          ∙ run
          ∙ ap (λ (t : Bytes). Receiving.returned true t io' net rest)
              (ap (take size) body ∙ take-append size (c_str text) more whole),
      left ∙ ap (drop size) body ∙ drop-append size (c_str text) more whole,
      ready,
    )
