-- ===== src/Http/Reply/Pages.antt =====
-- What a page of http/http_conn.h puts on the wire, when each system call takes what it is handed.
use conv_event.Base.{
  ℕ, suc, ◌≡◌, refl, ap, ◌∙◌, ◌≤◌, ◌<◌, true, List, ◌∷◌, ◌++◌, append_assoc, length-append, none,
  some, arith, Bytes, codes, length, lookup, lookup-assign, assign, subst,
}
use conv_event.Http.Reply.{
  ◌>>=◌, finish, send_response_header, send_response_body, next_in, notify, close_by, send_page,
  send_status, http_1_0_close,
}
use conv_event.Http.Response.{
  HttpConn, ResponseHeader, World, Reply, to_string, status_page, set_status, set_response_header,
  build_body_text, decimal, crlf,
}
use conv_event.Http.Reply.Lines.{
  status_line, page_body, header_line, header_block, to_string-text, Among, header_block-Among,
}
use conv_event.Http.Words.{HttpVersion, http_version_map, http_1_0, http_1_1, http_2_0}
use conv_event.Http.Status.{HttpStatus}
use conv_event.Socket.State.{Net, SendAnswer, buffer_size}
use conv_event.Http.Reply.Whole.{after_message, taking, taken, send_text_once, body_once}

length-pos : (xs : Bytes) (y : ℕ) (ys : Bytes) → 0 < length (xs ++ (y ∷ ys))
length-pos xs y ys = omega (arith, length-append xs (y ∷ ys))

to_string-pos : (h : ResponseHeader) → 0 < length (to_string h)
unfolding to_string
to_string-pos h = length-pos (http_version_map h.version) 32 _

close_by-same :
    (v : HttpVersion) (c : HttpConn) (w : World)
    → ((close_by v c w).1.net ≡ w.net) × ((close_by v c w).1.answers ≡ w.answers)
unfolding close_by next_in notify
close_by-same http_1_0 c w = (refl, refl)
close_by-same http_1_1 c w = (refl, refl)
close_by-same http_2_0 c w = (refl, refl)

pub http_1_0_close-same :
    (c : HttpConn) (w : World)
    → ((http_1_0_close c w).1.net ≡ w.net) × ((http_1_0_close c w).1.answers ≡ w.answers)
unfolding http_1_0_close
http_1_0_close-same c w = close_by-same c.res_header.version c w

-- The next two answers take a header and a body whole.
abbrev pub taking_page : HttpConn → List SendAnswer → World → World
taking_page c rest w =
    taking (to_string c.res_header) (SendAnswer.sent (length c.res_body.body_text) ∷ rest) w

-- A run that ends with true has put the text on the wire and used the answers up to `rest`.
abbrev pub Puts : Bytes → List SendAnswer → World → Reply → Type 0
Puts text rest w r =
    (c' : HttpConn) × (w' : World) × (r ≡ some (true, c', w'))
    × (w'.net.wire ≡ w.net.wire ++ text)
    × (w'.answers ≡ rest)

-- The connection once the header is sent.
abbrev pub headed : HttpConn → HttpConn
headed c = record c {
  res_header = record c.res_header { header_text = to_string c.res_header };
  io = after_message (length (to_string c.res_header)) c.io;
}

pub header_once :
    (fuel : ℕ) (rest : List SendAnswer) (c : HttpConn) (w : World)
    → c.io.already ≡ true
    → length (to_string c.res_header) ≤ buffer_size
    → send_response_header (suc fuel) c (taking (to_string c.res_header) rest w)
      ≡ some (true, headed c, taken (to_string c.res_header) rest w)
unfolding send_response_header
header_once fuel rest c w a fits =
    let c' = record c {
      res_header = record c.res_header { header_text = to_string c.res_header };
    } in
    send_text_once fuel (to_string c.res_header) rest c' w a (to_string-pos c.res_header) fits

pub send_page-Puts :
    (fuel : ℕ) (rest : List SendAnswer) (c : HttpConn) (w : World)
    → c.res_body.file_fd ≡ none
    → c.io.already ≡ true
    → 0 < length c.res_body.body_text
    → length c.res_body.body_text ≤ buffer_size
    → length (to_string c.res_header) ≤ buffer_size
    → Puts
        (to_string c.res_header ++ c.res_body.body_text)
        rest
        w
        (send_page (suc fuel) c (taking_page c rest w))
unfolding send_page next_in
send_page-Puts fuel rest c w no_file a pos fits fits' =
    let body = c.res_body.body_text in
    let text = to_string c.res_header in
    let w1 = taken text (SendAnswer.sent (length body) ∷ rest) w in
    let c2 = record (headed c) { io = after_message (length body) (headed c).io } in
    let w2 = next_in (headed c) (taken body rest w1) in
    let same = http_1_0_close-same c2 w2 in
    (
      (http_1_0_close c2 w2).0,
      (http_1_0_close c2 w2).1,
      ap (λ r. r >>= send_response_body (suc fuel) >>= finish)
            (header_once fuel (SendAnswer.sent (length body) ∷ rest) c w a fits')
          ∙ ap (λ r. r >>= finish) (body_once fuel rest (headed c) w1 no_file refl pos fits),
      ap (λ (n : Net). n.wire) same.0 ∙ append_assoc w.net.wire text body,
      same.1,
    )

pub page-pos : (s : HttpStatus) (c : HttpConn) → 0 < length (status_page s c).res_body.body_text
unfolding status_page build_body_text set_response_header
page-pos s c = omega arith

pub send_status-Puts :
    (fuel : ℕ) (s : HttpStatus) (rest : List SendAnswer) (c : HttpConn) (w : World)
    → c.res_body.file_fd ≡ none
    → c.io.already ≡ true
    → length (status_page s c).res_body.body_text ≤ buffer_size
    → length (to_string (status_page s c).res_header) ≤ buffer_size
    → Puts
        (to_string (status_page s c).res_header ++ (status_page s c).res_body.body_text)
        rest
        w
        (send_status (suc fuel) s c (taking_page (status_page s c) rest w))
unfolding send_status status_page set_response_header build_body_text set_status
send_status-Puts fuel s rest c w no_file a fits fits' =
    send_page-Puts fuel rest (status_page s c) w no_file a (page-pos s c) fits fits'

-- The headers of a page: those that are set, and the length of its body.
abbrev pub page_headers : HttpStatus → HttpConn → List (Bytes × Bytes)
page_headers s c =
    assign (codes "Content-Length") (decimal (length (page_body s))) c.res_header.response_headers

-- A page for a status, sent while no file is open and no message is on its way: the wire gains the line with the
-- version, the code and the reason, a line for each header that is set, in order, among them one with the length
-- of the body as it is sent, an empty line, and the body, which is the code and the reason between `<h1> ` and
-- `</h1>`; nothing else. Header and body fit the write buffer, and the system calls take each whole.
pub send_status_lem :
    (fuel : ℕ) (s : HttpStatus) (rest : List SendAnswer) (c : HttpConn) (w : World)
    → c.res_body.file_fd ≡ none
    → c.io.already ≡ true
    → length (status_page s c).res_body.body_text ≤ buffer_size
    → length (to_string (status_page s c).res_header) ≤ buffer_size
    → Puts
        ((status_line c.res_header.version s ++ (header_block (page_headers s c) ++ crlf))
          ++ page_body s)
        rest
        w
        (send_status (suc fuel) s c (taking_page (status_page s c) rest w))
      × Among
          (header_line (codes "Content-Length") (decimal (length (page_body s))))
          (header_block (page_headers s c))
      × (lookup (codes "Content-Length") (status_page s c).res_header.response_headers
          ≡ some (decimal (length (status_page s c).res_body.body_text)))
      × ((status_page s c).res_header.status ≡ s)
unfolding status_page set_response_header build_body_text set_status
send_status_lem fuel s rest c w no_file a fits fits' = (
  subst
      (λ text.
        Puts (text ++ page_body s) rest w
          (send_status (suc fuel) s c (taking_page (status_page s c) rest w)))
      (to_string-text (status_page s c).res_header)
      (send_status-Puts fuel s rest c w no_file a fits fits'),
  header_block-Among _ _ (page_headers s c) (lookup-assign _ _ _),
  lookup-assign _ _ _,
  refl,
)
