-- ===== src/Http/Reply.antt =====
-- How http/http_conn.h sends a response. The loops that try again after EAGAIN run on fuel.
pub mod Lines
pub mod Whole
pub mod Pages
use conv_event.Base.{
  ℕ, zero, suc, ◌-◌, Bool, true, false, List, [], ◌∷◌, ◌++◌, Option, none, some, Bytes, codes,
  length, if◌then◌else◌,
}
use conv_event.Conn.State
use conv_event.Conn.State.{Conn, Shared, epollin}
use conv_event.Http.Response.{
  HttpConn, World, Reply, to_string, status_page, set_status, set_response_header, decimal,
}
use conv_event.Http.Status.{HttpStatus, ok, see_other, method_not_allowed}
use conv_event.Http.Words.{http_1_0, http_1_1, http_2_0, HttpVersion}
use conv_event.Socket.State.{SocketIo, Net, SendAnswer, is_again}
use conv_event.Socket.Sending
use conv_event.Socket.Sending.{SendRun, returned, waiting, sendfile_loop, close_file}

-- `::close(res_body.file_fd); res_body.file_fd = -1;`
abbrev pub drop_file : HttpConn → HttpConn
drop_file c = record c { res_body = record c.res_body { file_fd = none } }

abbrev close_open_file : Option Bytes → Net → Net
close_open_file none net = net
close_open_file (some content) net = close_file net

unfoldable pub notify : HttpConn → World → HttpConn × World
notify c w =
    let (conn, shared) = State.notify_close c.conn w.shared in
    (record c { conn = conn }, record w { shared = shared })

unfoldable pub next_in : HttpConn → World → World
next_in c w = record w { shared = State.next c.conn epollin w.shared }

abbrev pub returning : Bool → HttpConn × World → Reply
returning b (c, w) = some (b, c, w)

-- A failure that is not EAGAIN closes the file and gives the connection up.
unfoldable pub give_up : HttpConn → World → Reply
unfolding notify
give_up c w =
    let w' = record w { net = close_open_file c.res_body.file_fd w.net } in
    returning false (notify (drop_file c) w')

-- What the loop around `send` does with a run; `again` is the next round.
unfoldable pub text_answered : (HttpConn → World → Reply) → HttpConn → World → SendRun → Reply
unfolding give_up
text_answered again c w (waiting io net) = none
text_answered again c w (returned true io net answers) =
    some (true, record c { io = io }, record w { net = net; answers = answers })
text_answered again c w (returned false io net answers) =
    let c' = record c { io = io } in
    let w' = record w { net = net; answers = answers } in
    if is_again net.errno then again c' w' else give_up c' w'

-- `while(!send(text,text.size()))`
unfoldable pub send_text : ℕ → Bytes → HttpConn → World → Reply
unfolding text_answered
send_text zero text c w = none
send_text (suc fuel) text c w =
    text_answered (send_text fuel text) c w (Sending.send text (length text) w.answers c.io w.net)

unfoldable pub send_response_header : ℕ → HttpConn → World → Reply
unfolding send_text
send_response_header fuel c w =
    let text = to_string c.res_header in
    send_text fuel text (record c { res_header = record c.res_header { header_text = text } }) w

-- What the sending of the body makes of a run: after it the descriptor waits for input.
unfoldable pub body_sent :
    Bool → HttpConn → World → SocketIo → Net → List SendAnswer → Bool × HttpConn × World
unfolding next_in
body_sent closed c w io net answers =
    let c' = record c { io = io } in
    let w' = record w { net = net; answers = answers } in
    (true, (if closed then drop_file c' else c'), next_in c' w')

unfoldable pub file_answered : HttpConn → World → SendRun → Reply
unfolding body_sent
file_answered c w (waiting io net) = none
file_answered c w (returned true io net answers) = some (body_sent true c w io net answers)
file_answered c w (returned false io net answers) =
    let c' = record c { io = io } in
    some (
      false,
      (if is_again net.errno then c' else drop_file c'),
      record w { net = net; answers = answers },
    )

-- The result of `send` is not looked at.
unfoldable pub body_answered : HttpConn → World → SendRun → Reply
unfolding body_sent
body_answered c w (waiting io net) = none
body_answered c w (returned b io net answers) = some (body_sent false c w io net answers)

unfoldable pub send_body_of : Option Bytes → HttpConn → World → Reply
unfolding file_answered body_answered
send_body_of (some content) c w = file_answered c w (sendfile_loop content w.answers c.io w.net)
send_body_of none c w =
    let text = c.res_body.body_text in
    body_answered c w (Sending.send text (length text) w.answers c.io w.net)

unfoldable pub send_response_body_base : HttpConn → World → Reply
unfolding send_body_of
send_response_body_base c w = send_body_of c.res_body.file_fd c w

unfoldable pub base_answered : (HttpConn → World → Reply) → Reply → Reply
unfolding notify
base_answered again none = none
base_answered again (some (true, c, w)) = some (true, c, w)
base_answered again (some (false, c, w)) =
    if is_again w.net.errno then again c w else returning false (notify c w)

-- `while(!send_response_body_base())`
unfoldable pub send_response_body : ℕ → HttpConn → World → Reply
unfolding send_response_body_base base_answered
send_response_body zero c w = none
send_response_body (suc fuel) c w =
    base_answered (send_response_body fuel) (send_response_body_base c w)

-- HTTP/1.0 closes the connection, later versions wait for the next request.
unfoldable pub close_by : HttpVersion → HttpConn → World → HttpConn × World
unfolding notify next_in
close_by http_1_0 c w = notify c w
close_by http_1_1 c w = (c, next_in c w)
close_by http_2_0 c w = (c, next_in c w)

unfoldable pub http_1_0_close : HttpConn → World → HttpConn × World
unfolding close_by
http_1_0_close c w = close_by c.res_header.version c w

infixl 5 ◌>>=◌
abbrev pub ◌>>=◌ : Reply → (HttpConn → World → Reply) → Reply
none >>= f = none
(some (true, c, w)) >>= f = f c w
(some (false, c, w)) >>= f = some (false, c, w)

abbrev pub finish : HttpConn → World → Reply
finish c w = returning true (http_1_0_close c w)

-- `if(!send_response_header()) return false; if(!send_response_body()) return false;
-- http_1_0_close(); return true;`
unfoldable pub send_page : ℕ → HttpConn → World → Reply
unfolding send_response_header send_response_body http_1_0_close
send_page fuel c w = send_response_header fuel c w >>= send_response_body fuel >>= finish

unfoldable pub send_status : ℕ → HttpStatus → HttpConn → World → Reply
unfolding send_page
send_status fuel s c w = send_page fuel (status_page s c) w

unfoldable pub method_not_allow : ℕ → HttpConn → World → Reply
unfolding send_page
method_not_allow fuel c w = send_page fuel (status_page method_not_allowed c) w

unfoldable pub redirect : ℕ → Bytes → HttpConn → World → Reply
unfolding send_response_header http_1_0_close
redirect fuel url c w =
    send_response_header fuel (set_response_header (codes "Location") url (set_status see_other c))
      w
    >>= finish

unfoldable pub send_str : ℕ → Bytes → Bytes → HttpConn → World → Reply
unfolding send_response_header send_text http_1_0_close
send_str fuel text type c w =
    let c' = set_response_header (codes "Content-Length") (decimal (length text)) c in
    let c'' = set_status ok (set_response_header (codes "Content-Type") type c') in
    send_response_header fuel c'' w >>= send_text fuel text >>= finish
