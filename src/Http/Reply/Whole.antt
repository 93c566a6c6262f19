-- ===== src/Http/Reply/Whole.antt =====
-- One message of http/http_conn.h, when each system call takes what it is handed.
use conv_event.Base.{
  ℕ, suc, ◌+◌, ◌-◌, ◌%◌, ◌≡◌, refl, ap, ◌∙◌, ◌≤◌, ◌<◌, true, false, List, [], ◌∷◌, ◌++◌, none, some,
  arith, Bytes, length, take, take-all, ltb, leb,
}
use conv_event.Http.Reply.{
  text_answered, body_answered, send_body_of, base_answered, send_text, send_response_body_base,
  send_response_body, body_sent, next_in,
}
use conv_event.Http.Response.{HttpConn, World}
use conv_event.Socket.State.{SocketIo, Net, SendAnswer, buffer_size, size_t_mod, at_most_buffer}
use conv_event.Socket.Sending
use conv_event.Socket.Sending.{
  SendRun, returned, waiting, send_base, start_write, chunk_of, advance, latch,
}
use conv_event.Socket.Resumption.{send_fresh}

send_base_end :
    (text : Bytes) (answers : List SendAnswer) (io : SocketIo) (net : Net)
    → io.write_total_bytes ≤ io.write_cursor
    → send_base text answers io net ≡ returned true io net answers
unfolding send_base
send_base_end text [] io net h = ground arith
send_base_end text (a ∷ answers) io net h = ground arith

-- What the first call is handed is the whole text.
first_chunk :
    (text : Bytes) (n : ℕ) (io : SocketIo)
    → length text ≡ n
    → n ≤ buffer_size
    → take n (chunk_of text (start_write io n)) ≡ text
unfolding at_most_buffer
first_chunk text n io e fits =
    let whole : at_most_buffer (n - 0) ≡ n = ground arith in
    rw (whole, take-all n text (omega arith), take-all n text (omega arith))

send_base_once :
    (text : Bytes) (n : ℕ) (rest : List SendAnswer) (io : SocketIo) (net : Net)
    → length text ≡ n
    → 0 < n
    → n ≤ buffer_size
    → send_base text (SendAnswer.sent n ∷ rest) (start_write io n) net
      ≡ returned true
          (record io { write_total_bytes = n; write_cursor = n })
          (record net { wire = net.wire ++ text })
          rest
unfolding send_base
send_base_once text n rest io net e pos fits =
    let more : ltb 0 n ≡ true = ground arith in
    let some_taken : leb n 0 ≡ false = ground arith in
    let moved : (0 + n) % size_t_mod ≡ n = omega arith in
    rw (more, some_taken)
      (send_base_end text rest (advance (start_write io n) n)
          (record net { wire = net.wire ++ take n (chunk_of text (start_write io n)) })
          (omega arith)
        ∙ rw (first_chunk text n io e fits, moved) refl)

-- The sockets of the connection after a message of `n` bytes.
abbrev pub after_message : ℕ → SocketIo → SocketIo
after_message n io = record io { write_total_bytes = n; write_cursor = n; already = true }

send_once :
    (text : Bytes) (n : ℕ) (rest : List SendAnswer) (io : SocketIo) (net : Net)
    → length text ≡ n
    → io.already ≡ true
    → 0 < n
    → n ≤ buffer_size
    → Sending.send text n (SendAnswer.sent n ∷ rest) io net
      ≡ returned true (after_message n io) (record net { wire = net.wire ++ text }) rest
send_once text n rest io net e a pos fits =
    send_fresh text n (SendAnswer.sent n ∷ rest) io net a pos
    ∙ ap latch (send_base_once text n rest io net e pos fits)

-- The world in which the next answer takes a text whole, and the one after it.
abbrev pub taking : Bytes → List SendAnswer → World → World
taking text rest w = record w { answers = SendAnswer.sent (length text) ∷ rest }

abbrev pub taken : Bytes → List SendAnswer → World → World
taken text rest w = record w { answers = rest; net = record w.net { wire = w.net.wire ++ text } }

pub send_text_once :
    (fuel : ℕ) (text : Bytes) (rest : List SendAnswer) (c : HttpConn) (w : World)
    → c.io.already ≡ true
    → 0 < length text
    → length text ≤ buffer_size
    → send_text (suc fuel) text c (taking text rest w)
      ≡ some (true, record c { io = after_message (length text) c.io }, taken text rest w)
unfolding send_text
send_text_once fuel text rest c w a pos fits =
    ap (text_answered (send_text fuel text) c (taking text rest w))
      (send_once text (length text) rest c.io w.net refl a pos fits)

pub body_once :
    (fuel : ℕ) (rest : List SendAnswer) (c : HttpConn) (w : World)
    → c.res_body.file_fd ≡ none
    → c.io.already ≡ true
    → 0 < length c.res_body.body_text
    → length c.res_body.body_text ≤ buffer_size
    → send_response_body (suc fuel) c (taking c.res_body.body_text rest w)
      ≡ some (
        true,
        record c { io = after_message (length c.res_body.body_text) c.io },
        next_in c (taken c.res_body.body_text rest w),
      )
unfolding send_response_body send_response_body_base send_body_of body_sent next_in
body_once fuel rest c w no_file a pos fits =
    let text = c.res_body.body_text in
    let w' = taking text rest w in
    ap (λ f. base_answered (send_response_body fuel) (send_body_of f c w')) no_file
    ∙ ap (λ r. base_answered (send_response_body fuel) (body_answered c w' r))
        (send_once text (length text) rest c.io w.net refl a pos fits)
