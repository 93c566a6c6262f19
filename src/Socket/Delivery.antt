-- ===== src/Socket/Delivery.antt =====
-- What the sending loop of core/include/socket_io.h puts on the wire.
use conv_event.Base.{
  ℕ, zero, suc, ◌+◌, ◌-◌, ◌≤◌, ◌<◌, ◌≡◌, refl, ap, ◌∙◌, inl, inr, true, false, List, [], ◌∷◌, ◌++◌,
  append-nil, append_assoc, arith, Bytes, take, drop, ltb, leb, Bool-cases, take-append-take,
  drop-drop,
}
use conv_event.Socket.State.{SocketIo, Net, SendAnswer, size_t_mod, at_most_buffer}
use conv_event.Socket.Sending.{
  SendRun, returned, waiting, transmit, chunk_of, need_to_send, advance, send_base,
}

-- The documented contract of send, of the answers that a loop with `need` bytes to go meets: the
-- count is at most the length that was asked for. None of them is an error.
abbrev pub Honest : ℕ → List SendAnswer → Type 0
Honest need [] = Unit {0}
Honest need (SendAnswer.sent n ∷ answers) =
    (0 < need → n ≤ at_most_buffer need) × Honest (need - n) answers
Honest need (SendAnswer.failed e ∷ answers) = 0 < need → ⊥

take-take-min : (m n : ℕ) (xs : Bytes) → m ≤ n → take m (take n xs) ≡ take m xs
take-take-min zero n xs h = refl
take-take-min (suc m) zero xs h = absurd (omega arith)
take-take-min (suc m) (suc n) [] h = refl
take-take-min (suc m) (suc n) (x ∷ xs) h = ap (◌∷◌ x) (take-take-min m n xs (omega arith))

-- After any run that meets no error, the wire has gained the bytes that the cursor passed.
abbrev pub Gains : Bytes → SocketIo → Net → SocketIo → Net → Type 0
Gains bytes io net io' net' =
    (net'.wire ≡ net.wire ++ take (io'.write_cursor - io.write_cursor) (drop io.write_cursor bytes))
    × (io.write_cursor ≤ io'.write_cursor)
    × (io'.write_cursor ≤ io.write_total_bytes)
    × (io'.write_total_bytes ≡ io.write_total_bytes)

abbrev pub RunGains : Bytes → SocketIo → Net → SendRun → Type 0
RunGains bytes io net (returned ok io' net' answers) =
    Gains bytes io net io' net' × (ok ≡ true → io'.write_cursor ≡ io.write_total_bytes)
RunGains bytes io net (waiting io' net') = Gains bytes io net io' net'

slice-append-slice :
    (bytes : Bytes) (c n d m k cap : ℕ)
    → c + n ≡ d
    → n + m ≡ k
    → n ≤ cap
    → take n (take cap (drop c bytes)) ++ take m (drop d bytes) ≡ take k (drop c bytes)
slice-append-slice bytes c n d m k cap p q h =
    rw (take-take-min n cap (drop c bytes) h, ← drop-drop c n d bytes p)
      (take-append-take n m k (drop c bytes) q)

pub at_most_buffer-le : (n : ℕ) → at_most_buffer n ≤ n
unfolding at_most_buffer
at_most_buffer-le n = ground arith

-- Below the total the cursor does not wrap.
pub advance_cursor :
    (io : SocketIo) (n : ℕ)
    → n ≤ at_most_buffer (need_to_send io)
    → io.write_cursor ≤ io.write_total_bytes
    → io.write_total_bytes < size_t_mod
    → (advance io n).write_cursor ≡ io.write_cursor + n
advance_cursor io n h k w = omega (arith, at_most_buffer-le (need_to_send io))

Gains-refl :
    (bytes : Bytes) (io : SocketIo) (net : Net)
    → io.write_cursor ≤ io.write_total_bytes
    → Gains bytes io net io net
Gains-refl bytes io net h =
    let zero_gain : io.write_cursor - io.write_cursor ≡ 0 = omega arith in
    (rw (zero_gain, append-nil), omega arith, h, refl)

Gains-step :
    (bytes : Bytes) (n : ℕ) (io io' : SocketIo) (net net' : Net)
    → n ≤ at_most_buffer (need_to_send io)
    → io.write_cursor ≤ io.write_total_bytes
    → io.write_total_bytes < size_t_mod
    → Gains bytes (advance io n) (transmit (chunk_of bytes io) (SendAnswer.sent n) net) io' net'
    → Gains bytes io net io' net'
Gains-step bytes n io io' net net' h k w g =
    let moved = advance_cursor io n h k w in
    (
      g.0
          ∙ rw append_assoc (
              ap (◌++◌ net.wire) (
                slice-append-slice bytes io.write_cursor n (advance io n).write_cursor
                  (io'.write_cursor - (advance io n).write_cursor)
                  (io'.write_cursor - io.write_cursor) (at_most_buffer (need_to_send io))
                  (omega arith) (omega arith) h)),
      omega arith,
      g.2,
      g.3,
    )

RunGains-step :
    (bytes : Bytes) (n : ℕ) (io : SocketIo) (net : Net) (r : SendRun)
    → n ≤ at_most_buffer (need_to_send io)
    → io.write_cursor ≤ io.write_total_bytes
    → io.write_total_bytes < size_t_mod
    → RunGains bytes (advance io n) (transmit (chunk_of bytes io) (SendAnswer.sent n) net) r
    → RunGains bytes io net r
RunGains-step bytes n io net (returned ok io' net' rest) h k w g =
    (Gains-step bytes n io io' net net' h k w g.0, g.1)
RunGains-step bytes n io net (waiting io' net') h k w g = Gains-step bytes n io io' net net' h k w g

RunGains-zero :
    (bytes : Bytes) (n : ℕ) (io : SocketIo) (net : Net) (rest : List SendAnswer)
    → n ≤ 0
    → io.write_cursor ≤ io.write_total_bytes
    → RunGains bytes io net
        (returned false io (transmit (chunk_of bytes io) (SendAnswer.sent n) net) rest)
RunGains-zero bytes zero io net rest h k = (rw append-nil (Gains-refl bytes io net k), λ e. cc)
RunGains-zero bytes (suc n) io net rest h k = absurd (omega arith)

pub send_base-RunGains :
    (bytes : Bytes) (answers : List SendAnswer) (io : SocketIo) (net : Net)
    → io.write_cursor ≤ io.write_total_bytes
    → io.write_total_bytes < size_t_mod
    → Honest (need_to_send io) answers
    → RunGains bytes io net (send_base bytes answers io net)
unfolding send_base
send_base-RunGains bytes [] io net h w honest =
    elim (Bool-cases (ltb io.write_cursor io.write_total_bytes)) [
      | inl more ↦ rw more (Gains-refl bytes io net h)
      | inr done ↦ rw done (Gains-refl bytes io net h, λ e. ground arith)
    ]
send_base-RunGains bytes (SendAnswer.failed e ∷ answers) io net h w honest =
    elim (Bool-cases (ltb io.write_cursor io.write_total_bytes)) [
      | inl more ↦ absurd (honest (ground arith))
      | inr done ↦ rw done (Gains-refl bytes io net h, λ t. ground arith)
    ]
send_base-RunGains bytes (SendAnswer.sent n ∷ answers) io net h w honest =
    elim (Bool-cases (ltb io.write_cursor io.write_total_bytes)) [
      | inr done ↦ rw done (Gains-refl bytes io net h, λ t. ground arith)
      | inl more ↦
          let fits : n ≤ at_most_buffer (need_to_send io) = honest.0 (ground arith) in
          let moved = advance_cursor io n fits h w in
          let left : need_to_send (advance io n) ≡ need_to_send io - n = omega arith in
          let net' = transmit (chunk_of bytes io) (SendAnswer.sent n) net in
          let bound = at_most_buffer-le (need_to_send io) in
          elim (Bool-cases (leb n 0)) [
            | inl stop ↦ rw (more, stop) (RunGains-zero bytes n io net answers (ground arith) h)
            | inr go ↦
                rw (more, go)
                  (RunGains-step bytes n io net (send_base bytes answers (advance io n) net') fits h
                    w
                    (send_base-RunGains bytes answers (advance io n) net' (omega arith) w
                      (rw left honest.1)))
          ]
    ]
