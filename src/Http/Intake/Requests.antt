-- ===== src/Http/Intake/Requests.antt =====
-- `process_in` of http/http_conn.h on requests that arrive whole.
use conv_event.Base.{
  ℕ, suc, ◌<◌, ◌≡◌, ◌≢◌, refl, ap, ◌∙◌, true, List, [], ◌∷◌, ◌++◌, arith, Bytes, length,
  length-append, NoneOf, npos, add_size, find, take,
}
use conv_event.Conn.State
use conv_event.Conn.State.{epollout}
use conv_event.Http.HeaderLines.{is_space}
use conv_event.Http.HeaderLines.Fields.{Field, AreFields, assign_all}
use conv_event.Http.Intake.{
  Intake, end_of_head, process_in, after_recv, read_request, after_header, by_method, await,
  clear_in,
}
use conv_event.Http.Intake.Ends.{print_head, print_request, head_taken}
use conv_event.Http.Request.{RequestHeader, Parsed, clear, parse_header, is_question}
use conv_event.Http.Request.Line.{is_cr, print_line, line_plain}
use conv_event.Http.Request.Parameters.{Pair, Plain, print_pairs, emplace_all}
use conv_event.Http.Request.Whole.{parse_header_parameters}
use conv_event.Http.Response.{HttpConn, World}
use conv_event.Http.Words.{
  HttpMethods, HttpVersion, get, post, put, patch, delete, trace, head, options, connect,
}
use conv_event.Socket.ReceiveErrors.{chunks, joined, NonEmpty, recv_all_drains}
use conv_event.Socket.State.{SocketIo, RecvAnswer, again, size_max}

-- The cursors after `recv_all` has taken `n` bytes, and the error that ended it.
abbrev pub drained : ℕ → SocketIo → SocketIo
drained n io = record io { read_total_bytes = size_max; read_cursor = n; already = true }

abbrev pub until_again : HttpConn → ℕ → HttpConn
until_again c n = record c { io = drained n c.io }

abbrev pub at_again : World → World
at_again w = record w { net = record w.net { errno = again } }

read_request-cons :
    (fuel : ℕ) (text : Bytes) (c : HttpConn) (w : World) (answers : List RecvAnswer)
    → 0 < length text
    → read_request fuel text c w answers
      ≡ after_header
          (parse_header fuel (take (add_size (find end_of_head text 0) 2) text) c.req_header)
          fuel
          text
          c
          w
          answers
unfolding read_request
read_request-cons fuel [] c w answers h = absurd (omega arith)
read_request-cons fuel (b ∷ text) c w answers h = refl

process_in-drains :
    (fuel : ℕ) (cs : List Bytes) (text : Bytes) (answers : List RecvAnswer) (c : HttpConn)
    (w : World)
    → c.io.already ≡ true
    → NonEmpty cs
    → joined cs ≡ text
    → length text < size_max
    → process_in fuel (chunks cs (RecvAnswer.failed again ∷ answers)) c w
      ≡ read_request fuel text (clear_in (until_again c (length text))) (at_again w) answers
unfolding process_in after_recv clear_in
process_in-drains fuel cs text answers c w a n e h =
    let h' : length (joined cs) < size_max = rw e h in
    ap (λ r. after_recv fuel r (clear_in c) w) (recv_all_drains [] cs answers c.io w.net a n h')
    ∙ ap
        (λ (t : Bytes).
          read_request fuel t (clear_in (until_again c (length t))) (at_again w) answers)
        e

-- What the handler does with a whole request whose head is read.
pub process_in-head :
    (fuel : ℕ) (line body : Bytes) (fields : List Field) (cs : List Bytes)
    (answers : List RecvAnswer) (c : HttpConn) (w : World) (h : RequestHeader)
    → c.io.already ≡ true
    → NonEmpty cs
    → joined cs ≡ print_request line fields body
    → length (print_request line fields body) < npos
    → NoneOf is_cr line
    → AreFields fields
    → parse_header fuel (print_head line fields) (clear c.req_header) ≡ Parsed.done h
    → process_in fuel (chunks cs (RecvAnswer.failed again ∷ answers)) c w
      ≡ by_method h.method fuel
          (print_request line fields body)
          (record (until_again c (length (print_request line fields body))) { req_header = h })
          (at_again w)
          answers
unfolding after_header clear_in
process_in-head fuel line body fields cs answers c w h a n e size hc hf parsed =
    let text = print_request line fields body in
    let c' = until_again c (length text) in
    process_in-drains fuel cs text answers c w a n e size
    ∙ read_request-cons fuel text (clear_in c') (at_again w) answers
        (omega (arith, length-append (print_head line fields) (13 ∷ 10 ∷ body)))
    ∙ ap
        (λ t.
          after_header (parse_header fuel t (clear c.req_header)) fuel text (clear_in c')
            (at_again w) answers)
        (head_taken line body fields hc hf size)
    ∙ ap (λ p. after_header p fuel text (clear_in c') (at_again w) answers) parsed

by_method-other :
    (m : HttpMethods) (fuel : ℕ) (text : Bytes) (c : HttpConn) (w : World)
    (answers : List RecvAnswer)
    → m ≢ post
    → by_method m fuel text c w answers ≡ await epollout c w answers
unfolding by_method
by_method-other post fuel text c w answers h = absurd (h refl)
by_method-other get fuel text c w answers h = refl
by_method-other put fuel text c w answers h = refl
by_method-other patch fuel text c w answers h = refl
by_method-other delete fuel text c w answers h = refl
by_method-other trace fuel text c w answers h = refl
by_method-other head fuel text c w answers h = refl
by_method-other options fuel text c w answers h = refl
by_method-other connect fuel text c w answers h = refl

-- A request with parameters that is no POST and arrives in any pieces is taken in as it was sent: method,
-- path, version, parameters and headers are stored, the body is left alone, and the connection waits until it
-- can be written to. The url has no space or carriage return, the path no question mark, a key no `&` or `=`,
-- a value no `&`; the headers have names without colon that begin with no blank, and values without comma that
-- are not empty and neither begin nor end with a space, none of them with a line feed. The text is shorter
-- than the greatest `size_t`.
pub process_in_parameters :
    (m : HttpMethods) (path : Bytes) (p : Pair) (rest : List Pair) (v : HttpVersion)
    (fields : List Field) (body : Bytes) (cs : List Bytes) (answers : List RecvAnswer)
    (c : HttpConn) (w : World)
    → m ≢ post
    → c.io.already ≡ true
    → NonEmpty cs
    → joined cs ≡ print_request (print_line m (path ++ (63 ∷ print_pairs p rest)) v) fields body
    → length (print_request (print_line m (path ++ (63 ∷ print_pairs p rest)) v) fields body) < npos
    → NoneOf is_space (path ++ (63 ∷ print_pairs p rest))
    → NoneOf is_cr (path ++ (63 ∷ print_pairs p rest))
    → NoneOf is_question path
    → Plain (p ∷ rest)
    → AreFields fields
    → process_in (suc (length rest)) (chunks cs (RecvAnswer.failed again ∷ answers)) c w
      ≡ Intake.done true
          (record (until_again c (
            length
              (print_request (print_line m (path ++ (63 ∷ print_pairs p rest)) v) fields body))) {
                req_header = record {
                  method = m;
                  url = path;
                  version = v;
                  parameters = emplace_all (p ∷ rest) [];
                  request_headers = assign_all fields [];
                };
              })
          (record (at_again w) { shared = State.next c.conn epollout w.shared })
          answers
unfolding await
process_in_parameters m path p rest v fields body cs answers c w other a n e size hs hc hq hp hf =
    let url = path ++ (63 ∷ print_pairs p rest) in
    process_in-head (suc (length rest)) (print_line m url v) body fields cs answers c w _ a n e size
      (line_plain m url v hc) hf
      (parse_header_parameters m path p rest v fields c.req_header hs hc hq hp hf)
    ∙ by_method-other m (suc (length rest)) _ _ _ answers other
