-- ===== src/Http/Intake/Outcomes.antt =====
-- What `process_in` of http/http_conn.h leaves behind, on every path.
use conv_event.Base.{
  ℕ, ◌≡◌, refl, ◌⊎◌, inl, inr, Bool, true, false, List, [], ◌∷◌, Option, none, some, Bytes,
}
use conv_event.Conn.State
use conv_event.Conn.State.{Conn, Shared, Status, is_closed, epollin, epollout, epoll_ctl_mod}
use conv_event.Http.Body.{RequestBody}
use conv_event.Http.ContentLength.{BodyRun, complete, incomplete}
use conv_event.Http.Intake.{
  Intake, process_in, after_recv, read_request, after_header, by_method, read_rest, after_body,
  with_body, await, refuse, clear_in,
}
use conv_event.Http.Reply.{notify}
use conv_event.Http.Request.{Parsed}
use conv_event.Http.Response.{HttpConn, World}
use conv_event.Http.Words.{
  HttpMethods, post, get, put, patch, delete, trace, head, options, connect,
}
use conv_event.Socket.Receiving.{RecvRun}
use conv_event.Socket.State.{RecvAnswer}

-- The handler keeps the connection and waits for one event, or it gives the connection up.
abbrev pub Settles : Conn → Shared → Intake → Type 0
Settles conn shared (Intake.done true c w answers) =
    (c.conn ≡ conn)
    × ((w.shared ≡ State.next conn epollin shared) ⊎ (w.shared ≡ State.next conn epollout shared))
Settles conn shared (Intake.done false c w answers) =
    (c.conn, w.shared) ≡ State.notify_close conn shared
Settles conn shared Intake.fault = Unit {0}
Settles conn shared Intake.running = Unit {0}

await-Settles_out :
    (c : HttpConn) (w : World) (answers : List RecvAnswer)
    → Settles c.conn w.shared (await epollout c w answers)
unfolding await
await-Settles_out c w answers = (refl, inr refl)

refuse-Settles :
    (c : HttpConn) (w : World) (answers : List RecvAnswer)
    → Settles c.conn w.shared (refuse c w answers)
unfolding refuse notify
refuse-Settles c w answers = refl

with_body-Settles :
    (o : Option (Bool × RequestBody)) (c : HttpConn) (w : World) (answers : List RecvAnswer)
    → Settles c.conn w.shared (with_body o c w answers)
with_body-Settles none c w answers = tt
with_body-Settles (some (ok, body)) c w answers =
    await-Settles_out (record c { req_body = body }) w answers

after_body-Settles :
    (r : Option BodyRun) (c : HttpConn) (w : World) → Settles c.conn w.shared (after_body r c w)
after_body-Settles none c w = tt
after_body-Settles (some incomplete) c w = tt
after_body-Settles (some (complete body io net answers)) c w =
    with_body-Settles _ (record c { io = io }) (record w { net = net }) answers

read_rest-Settles :
    (fuel : ℕ) (body : Option Bytes) (c : HttpConn) (w : World) (answers : List RecvAnswer)
    → Settles c.conn w.shared (read_rest fuel body c w answers)
read_rest-Settles fuel none c w answers = tt
read_rest-Settles fuel (some body) c w answers = after_body-Settles _ c w

by_method-Settles :
    (m : HttpMethods) (fuel : ℕ) (text : Bytes) (c : HttpConn) (w : World)
    (answers : List RecvAnswer)
    → Settles c.conn w.shared (by_method m fuel text c w answers)
unfolding by_method
by_method-Settles post fuel text c w answers = read_rest-Settles fuel _ c w answers
by_method-Settles get fuel text c w answers = await-Settles_out c w answers
by_method-Settles put fuel text c w answers = await-Settles_out c w answers
by_method-Settles patch fuel text c w answers = await-Settles_out c w answers
by_method-Settles delete fuel text c w answers = await-Settles_out c w answers
by_method-Settles trace fuel text c w answers = await-Settles_out c w answers
by_method-Settles head fuel text c w answers = await-Settles_out c w answers
by_method-Settles options fuel text c w answers = await-Settles_out c w answers
by_method-Settles connect fuel text c w answers = await-Settles_out c w answers

after_header-Settles :
    (p : Parsed) (fuel : ℕ) (text : Bytes) (c : HttpConn) (w : World) (answers : List RecvAnswer)
    → Settles c.conn w.shared (after_header p fuel text c w answers)
unfolding after_header
after_header-Settles (Parsed.done h) fuel text c w answers =
    by_method-Settles h.method fuel text (record c { req_header = h }) w answers
after_header-Settles (Parsed.rejected h) fuel text c w answers =
    refuse-Settles (record c { req_header = h }) w answers
after_header-Settles Parsed.fault fuel text c w answers = tt
after_header-Settles Parsed.running fuel text c w answers = tt

read_request-Settles :
    (fuel : ℕ) (text : Bytes) (c : HttpConn) (w : World) (answers : List RecvAnswer)
    → Settles c.conn w.shared (read_request fuel text c w answers)
unfolding read_request await
read_request-Settles fuel [] c w answers = (refl, inl refl)
read_request-Settles fuel (b ∷ text) c w answers =
    after_header-Settles _ fuel (b ∷ text) c w answers

after_recv-Settles :
    (fuel : ℕ) (r : RecvRun) (c : HttpConn) (w : World)
    → Settles c.conn w.shared (after_recv fuel r c w)
unfolding after_recv
after_recv-Settles fuel (RecvRun.waiting text io net) c w = tt
after_recv-Settles fuel (RecvRun.returned false text io net answers) c w =
    refuse-Settles (record c { io = io }) (record w { net = net }) answers
after_recv-Settles fuel (RecvRun.returned true text io net answers) c w =
    read_request-Settles fuel text (record c { io = io }) (record w { net = net }) answers

-- Whatever arrives, the handler that returns true has left the connection as it was and asked for one event,
-- to read or to write; the handler that returns false has given the connection up with `notify_close`.
pub process_in-Settles :
    (fuel : ℕ) (answers : List RecvAnswer) (c : HttpConn) (w : World)
    → Settles c.conn w.shared (process_in fuel answers c w)
unfolding process_in clear_in
process_in-Settles fuel answers c w = after_recv-Settles fuel _ (clear_in c) w
