-- ===== src/Http/Intake.antt =====
-- `process_in` of http/http_conn.h: a request is received, read, and then waits for the socket to take the
-- response. `fuel` bounds the loops on the parameters and on the body.
mod Ends
pub mod Requests
mod Forms
mod Outcomes
mod Examples
use conv_event.Base.{
  [], ◌∷◌, ℕ, Bool, true, false, List, Option, none, some, Bytes, codes, npos, add_size, find,
  substr, take,
}
use conv_event.Conn.State
use conv_event.Conn.State.{epollin, epollout}
use conv_event.Http.Body.{RequestBody, parse_body}
use conv_event.Http.ContentLength.{BodyRun, complete, incomplete, read_post_body}
use conv_event.Http.Request
use conv_event.Http.Request.{RequestHeader, Parsed, parse_header}
use conv_event.Http.Response.{HttpConn, World}
use conv_event.Http.Reply.{notify}
use conv_event.Http.Words.{HttpMethods, post}
use conv_event.Socket.Receiving
use conv_event.Socket.Receiving.{RecvRun}
use conv_event.Socket.State.{RecvAnswer}

-- The handler returns, or it throws or reads what is not there, or it is still in a loop or in a call.
pub data Intake : Type 0 where
  done : Bool → HttpConn → World → List RecvAnswer → Intake
  fault running : Intake

abbrev pub end_of_head : Bytes
end_of_head = codes "\r\n\r\n"

unfoldable pub clear_in : HttpConn → HttpConn
unfolding Request.clear
clear_in c = record c { req_header = Request.clear c.req_header }

-- `notify_close(); return false;`
unfoldable pub refuse : HttpConn → World → List RecvAnswer → Intake
refuse c w answers = let (c', w') = notify c w in done false c' w' answers

-- `next(event); return true;`
unfoldable pub await : ℕ → HttpConn → World → List RecvAnswer → Intake
await event c w answers =
    done true c (record w { shared = State.next c.conn event w.shared }) answers

-- The result of `parse_body` is not looked at.
abbrev pub with_body : Option (Bool × RequestBody) → HttpConn → World → List RecvAnswer → Intake
with_body none c w answers = fault
with_body (some (ok, body)) c w answers = await epollout (record c { req_body = body }) w answers

abbrev pub after_body : Option BodyRun → HttpConn → World → Intake
after_body none c w = fault
after_body (some incomplete) c w = running
after_body (some (complete body io net answers)) c w =
    with_body (parse_body c.req_header.request_headers body) (record c { io = io })
      (record w { net = net }) answers

abbrev pub read_rest : ℕ → Option Bytes → HttpConn → World → List RecvAnswer → Intake
read_rest fuel none c w answers = fault
read_rest fuel (some body) c w answers =
    after_body (read_post_body fuel c.req_header.request_headers body answers c.io w.net) c w

-- `body = data.substr(divide+4)`, for a POST only.
unfoldable pub by_method : HttpMethods → ℕ → Bytes → HttpConn → World → List RecvAnswer → Intake
unfolding read_post_body parse_body await
by_method post fuel text c w answers =
    read_rest fuel (substr text (add_size (find end_of_head text 0) 4) npos) c w answers
by_method m fuel text c w answers = await epollout c w answers

unfoldable pub after_header : Parsed → ℕ → Bytes → HttpConn → World → List RecvAnswer → Intake
unfolding by_method refuse
after_header (Parsed.done h) fuel text c w answers =
    by_method h.method fuel text (record c { req_header = h }) w answers
after_header (Parsed.rejected h) fuel text c w answers =
    refuse (record c { req_header = h }) w answers
after_header Parsed.fault fuel text c w answers = fault
after_header Parsed.running fuel text c w answers = running

-- The head is `data.substr(0,divide + 2)`: one character where no empty line is found.
unfoldable pub read_request : ℕ → Bytes → HttpConn → World → List RecvAnswer → Intake
unfolding after_header parse_header
read_request fuel [] c w answers = await epollin c w answers
read_request fuel (b ∷ text) c w answers =
    after_header
      (parse_header fuel (take (add_size (find end_of_head (b ∷ text) 0) 2) (b ∷ text))
        c.req_header)
      fuel (b ∷ text) c w answers

unfoldable pub after_recv : ℕ → RecvRun → HttpConn → World → Intake
unfolding read_request refuse
after_recv fuel (RecvRun.waiting text io net) c w = running
after_recv fuel (RecvRun.returned false text io net answers) c w =
    refuse (record c { io = io }) (record w { net = net }) answers
after_recv fuel (RecvRun.returned true text io net answers) c w =
    read_request fuel text (record c { io = io }) (record w { net = net }) answers

unfoldable pub process_in : ℕ → List RecvAnswer → HttpConn → World → Intake
unfolding after_recv clear_in Receiving.recv_all
process_in fuel answers c w =
    after_recv fuel (Receiving.recv_all [] answers c.io w.net) (clear_in c) w
