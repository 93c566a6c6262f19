-- ===== src/Conn/State.antt =====
-- The class conn and the epoll helpers of core/include/conn.h. What they do outside the program is a
-- log of system calls; `process_in` and its like are virtual, so they are parameters.
use Prim.Native.Nat.{bit_or}
use conv_event.Base.{ℕ, ◌^◌, Bool, true, false, List, [], ◌∷◌, ◌++◌, if◌then◌else◌}
use conv_event.Queue
use conv_event.Queue.{LockQueue}
use conv_event.Socket.State.{Fd, fd, no_fd}

-- The system calls, in the order in which they are made.
pub data Call : Type 0 where
  set_nonblocking : Fd → Call
  epoll_ctl_add : Fd → Fd → ℕ → Call
  epoll_ctl_mod : Fd → Fd → ℕ → Call
  epoll_ctl_del : Fd → Fd → Call
  close_fd : Fd → Call

-- The values of sys/epoll.h.
abbrev pub epollin : ℕ
epollin = 0x1

abbrev pub epollout : ℕ
epollout = 0x4

abbrev pub epollrdhup : ℕ
epollrdhup = 0x2000

abbrev pub epolloneshot : ℕ
epolloneshot = 2 ^ 30

abbrev pub epollet : ℕ
epollet = 2 ^ 31

-- `if(et) …; if(one_shot) …;`
unfoldable pub with_flags : ℕ → Bool → Bool → ℕ
with_flags events et one_shot =
    let ev = if et then bit_or events epollet else events in
    if one_shot then bit_or ev epolloneshot else ev

unfoldable pub epoll_add : Fd → Fd → Bool → Bool → Bool → List Call → List Call
unfolding with_flags
epoll_add epoll_fd socket_fd et one_shot none_block calls =
    let events = with_flags (bit_or epollin epollrdhup) et one_shot in
    let calls' = if none_block then calls ++ (set_nonblocking socket_fd ∷ []) else calls in
    calls' ++ (epoll_ctl_add epoll_fd socket_fd events ∷ [])

unfoldable pub epoll_mod : Fd → Fd → ℕ → Bool → Bool → List Call → List Call
unfolding with_flags
epoll_mod epoll_fd socket_fd ev et one_shot calls =
    calls ++ (epoll_ctl_mod epoll_fd socket_fd (with_flags (bit_or ev epollrdhup) et one_shot) ∷ [])

unfoldable pub epoll_del : Fd → Fd → List Call → List Call
epoll_del epoll_fd socket_fd calls =
    calls ++ (epoll_ctl_del epoll_fd socket_fd ∷ close_fd socket_fd ∷ [])

pub data Status : Type 0 where
  ok bad in_ out rdhup error closed : Status

-- The members of conn that the loops read; the cursors of socket_io belong to its handlers.
-- `close_queue` tells whether the pointer is set; it then leads to the queue of the loop.
pub record Conn : Type 0 where
  pub et : Bool
  pub one_shot : Bool
  pub epoll_fd : Fd
  pub socket_fd : Fd
  pub sock_addr : ℕ
  pub close_queue : Bool
  pub status : Status

-- `new T`
abbrev pub new_conn : Conn
new_conn = record {
  et = false;
  one_shot = true;
  epoll_fd = fd 0;
  socket_fd = no_fd;
  sock_addr = 0;
  close_queue = false;
  status = ok;
}

-- What a connection shares with its loop.
pub record Shared : Type 0 where
  pub to_close : LockQueue Fd
  pub calls : List Call

abbrev pub is_closed : Status → Bool
is_closed closed = true
is_closed _ = false

unfoldable pub notify_close : Conn → Shared → Conn × Shared
notify_close c w = if is_closed c.status then (c, w) else (
  record c { status = closed },
  (if c.close_queue then record w { to_close = Queue.push w.to_close c.socket_fd } else w),
)

unfoldable pub next : Conn → ℕ → Shared → Shared
next c event w = record w { calls = epoll_mod c.epoll_fd c.socket_fd event c.et c.one_shot w.calls }

unfoldable pub init : Conn → Fd → ℕ → Fd → Bool → Bool → Bool → Bool → Shared → Conn × Shared
init c socket_fd addr epoll_fd et one_shot has_queue add w = (
  record {
    et = et;
    one_shot = one_shot;
    epoll_fd = epoll_fd;
    socket_fd = socket_fd;
    sock_addr = addr;
    close_queue = has_queue;
    status = ok;
  },
  (if add then record w { calls = epoll_add epoll_fd socket_fd et one_shot true w.calls } else w),
)

close_open : Fd → Conn → Shared → Conn × Shared
close_open no_fd c w = (c, w)
close_open (fd n) c w = (
  record c { epoll_fd = no_fd; socket_fd = no_fd; status = ok },
  record w { calls = epoll_del c.epoll_fd (fd n) w.calls },
)

unfoldable pub close : Conn → Shared → Conn × Shared
unfolding close_open
close c w = close_open c.socket_fd c w

-- A virtual method works on its connection and on what that shares with the loop.
abbrev pub Method : Type 0
Method = Conn → Shared → Bool × Conn × Shared

pub record Methods : Type 0 where
  pub process_in : Method
  pub process_out : Method
  pub process_rdhup : Method
  pub process_error : Method

abbrev returning : Bool → Conn × Shared → Bool × Conn × Shared
returning b (c, w) = (b, c, w)

-- The methods that conn itself gives for hang-up and error.
unfoldable pub default_close : Method
unfolding notify_close
default_close c w = returning true (notify_close c w)

-- `if(!ret) notify_close(); return ret;`
close_unless : Bool × Conn × Shared → Bool × Conn × Shared
close_unless (true, c, w) = (true, c, w)
close_unless (false, c, w) = returning false (notify_close c w)

unfoldable pub process_in_base : Methods → Method
unfolding close_unless
process_in_base m c w = close_unless (m.process_in c w)

unfoldable pub process_out_base : Methods → Method
unfolding close_unless
process_out_base m c w = close_unless (m.process_out c w)

process_as : Status → Methods → Method
process_as closed m c w = (false, c, w)
process_as in_ m c w = process_in_base m c w
process_as out m c w = process_out_base m c w
process_as rdhup m c w = m.process_rdhup c w
process_as error m c w = m.process_error c w
process_as bad m c w = (false, c, w)
process_as ok m c w = (true, record c { status = ok }, w)

unfoldable pub process : Methods → Method
unfolding process_as
process m c w = process_as c.status m c w
