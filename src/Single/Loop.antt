-- ===== src/Single/Loop.antt =====
-- The loop `wait` of core/conv_single.h.
use conv_event.Base.{ℕ, Bool, true, false, List, [], ◌∷◌, ◌++◌, Option, none, some, if◌then◌else◌}
use conv_event.Conn.State.{close_fd, Methods, rdhup, error, out, in_}
use conv_event.Single.Server.{Server, remove_fd, accept_conn, dispatch}
use conv_event.Socket.State.{Fd, fd, no_fd}
use conv_event.Table.{at, touch, fd_eq}

-- An element of the array that epoll_wait fills: the descriptor and the tested bits. For the
-- listening socket's event, `client_fd` and `client_addr` are what `accept` answers.
pub record Event : Type 0 where
  pub data_fd : Fd
  pub is_rdhup : Bool
  pub is_err : Bool
  pub is_out : Bool
  pub is_in : Bool
  pub client_fd : Fd
  pub client_addr : ℕ

unfoldable pub handle : Methods → Event → Server → Option Server
handle m e s =
    if fd_eq e.data_fd s.socket_fd
    then some (accept_conn e.client_fd e.client_addr s)
    else if e.is_rdhup
    then dispatch m rdhup true e.data_fd s
    else if e.is_err
    then dispatch m error true e.data_fd s
    else if e.is_out
    then dispatch m out false e.data_fd s
    else if e.is_in
    then dispatch m in_ false e.data_fd s
    else remove_fd e.data_fd s

infixl 5 ◌>>=◌
abbrev pub ◌>>=◌ : Option Server → (Server → Option Server) → Option Server
none >>= f = none
some s >>= f = f s

unfoldable pub handle_all : Methods → List Event → Server → Option Server
handle_all m [] s = some s
handle_all m (e ∷ events) s = do s' ← handle m e s; handle_all m events s'

abbrev pub with_queue : Server → List Fd → Server
with_queue s rest = record s { shared = record s.shared { to_close = record { items = rest } } }

unfoldable pub close_one : Fd → Option ℕ → Server → Option Server
close_one no_fd p s = some s
close_one (fd n) none s = some (record s { connects = touch (fd n) s.connects })
close_one (fd n) (some p) s = remove_fd (fd n) s

-- `while(!close_queue->empty())`. The queue is popped before each removal, which adds nothing to it.
unfoldable pub drain : List Fd → Server → Option Server
unfolding close_one
drain [] s = some s
drain (cur_fd ∷ rest) s = do
  s' ← close_one cur_fd (at cur_fd s.connects) (with_queue s rest)
  drain rest s'

-- What epoll_wait answers: events, none at a time-out, or an error.
pub data Wait : Type 0 where
  ready : List Event → Wait
  interrupted broken : Wait

unfoldable pub respond : Methods → Wait → Server → Option Server
respond m (ready events) s = handle_all m events s
respond m interrupted s = some s
respond m broken s = some s

-- One round of the loop.
unfoldable pub round : Methods → Wait → Server → Option Server
unfolding respond
round m w s = do s' ← drain s.shared.to_close.items s; respond m w s'

unfoldable pub close_listed : Fd → Server → Server
close_listed no_fd s = s
close_listed (fd n) s = record s {
  shared = record s.shared { calls = s.shared.calls ++ (close_fd (fd n) ∷ []) };
}

-- `close`: the listening and the epoll descriptor, the table and the pools. The connections that the
-- table still holds are not closed.
unfoldable pub close : Server → Server
unfolding close_listed
close s = record (close_listed s.epoll_fd (close_listed s.socket_fd s)) {
  socket_fd = no_fd;
  epoll_fd = no_fd;
  connects = [];
  thread_pool = none;
  conn_pool = none;
}

-- The loop over the answers of epoll_wait. It ends after an error other than EINTR, and where the
-- answers end, since `run` has become false.
unfoldable pub rounds : Methods → List Wait → Server → Option Server
rounds m [] s = some s
rounds m (broken ∷ waits) s = round m broken s
rounds m (interrupted ∷ waits) s = do s' ← round m interrupted s; rounds m waits s'
rounds m (ready events ∷ waits) s = do s' ← round m (ready events) s; rounds m waits s'

unfoldable pub wait : Methods → List Wait → Server → Option Server
wait m waits s = do s' ← rounds m waits s; some (close s')
