-- ===== src/Single/Startup.antt =====
-- How conv_single (core/conv_single.h) is configured and started, up to its loop. What the system calls
-- answer is a parameter; console output and the handlers of signals are left out.
use conv_event.Start.{Start, running, exited, thrown, ◌>>=◌}
use conv_event.Base.{
  ℕ, Bool, true, false, List, [], ◌∷◌, ◌++◌, Option, none, some, Bytes, if◌then◌else◌, ℤ, pos,
  is_nonneg,
}
use conv_event.Conn.State.{new_conn, epoll_add}
use conv_event.Queue
use conv_event.Single.Loop
use conv_event.Single.Server.{Server}
use conv_event.Socket.State.{Fd, fd, no_fd}

pub data SocketOption : Type 0 where
  reuse_addr reuse_port : SocketOption

-- The members besides those that the loop works on. `options` logs the calls of setsockopt, `opened` the
-- descriptors that `socket` and `epoll_create` returned.
pub record Single : Type 0 where
  pub server : Server
  pub ip : Bytes
  pub port : ℤ
  pub my_addr : Option (Bytes × ℤ)
  pub listen_queue_count : ℤ
  pub max_events_count : ℤ
  pub events : Bool
  pub close_queue : Bool
  pub options : List (Fd × SocketOption × Bool)
  pub opened : List ℕ

-- The members as they are declared. `max_connect_count` is kept as the limit that it sets.
abbrev pub members : Single
members = record {
  server = record {
    socket_fd = no_fd;
    epoll_fd = no_fd;
    et = false;
    one_shot = true;
    max_connect_count = 200000;
    current_connect_count = 0;
    connects = [];
    conn_pool = none;
    thread_pool = none;
    memory = record { conns = λ p. new_conn; fresh = 0; deleted = [] };
    shared = record { to_close = Queue.new_queue; calls = [] };
  };
  ip = [];
  port = pos 0;
  my_addr = none;
  listen_queue_count = pos 1024;
  max_events_count = pos 4096;
  events = false;
  close_queue = false;
  options = [];
  opened = [];
}

-- What the system calls of the start-up answer: a descriptor, or none on failure.
pub record System : Type 0 where
  pub socket : Option ℕ
  pub bind : Bool
  pub epoll_create : Option ℕ
  pub listen : Bool
  pub epoll_ctl : Bool

unfoldable pub close : Single → Single
unfolding Loop.close
close s = record s { server = Loop.close s.server; events = false; close_queue = false }

-- `close(); exit(-1);` where the call has failed.
unfoldable pub check : Bool → Single → Start Single
unfolding close
check ok s = if ok then running s else exited (close s)

unfoldable pub create_socket : System → Single → Start Single
unfolding close
create_socket os s = elim os.socket [
  | none ↦ exited (close s)
  | some n ↦
      running
        (record s { server = record s.server { socket_fd = fd n }; opened = s.opened ++ (n ∷ []) })
]

abbrev pub prepare_socket_address : Single → Single
prepare_socket_address s = record s { my_addr = some (s.ip, s.port) }

-- `if(!events) events = new epoll_event[max_events_count];`, which throws on a negative count.
unfoldable pub make_events : Single → Start Single
make_events s =
    if s.events
    then running s
    else if is_nonneg s.max_events_count
    then running (record s { events = true })
    else thrown

unfoldable pub make_epoll : Fd → System → Single → Start Single
unfolding close
make_epoll (fd n) os s = running s
make_epoll no_fd os s = elim os.epoll_create [
  | none ↦ exited (close s)
  | some n ↦
      running
        (record s { server = record s.server { epoll_fd = fd n }; opened = s.opened ++ (n ∷ []) })
]

unfoldable pub prepare_epoll_event : System → Single → Start Single
unfolding make_events make_epoll
prepare_epoll_event os s = do s' ← make_events s; make_epoll s'.server.epoll_fd os s'

unfoldable pub bind : System → Single → Start Single
unfolding check
bind os s = check os.bind s

unfoldable pub listen : System → Single → Start Single
unfolding check
listen os s = check os.listen s

unfoldable pub register_listen_fd : System → Single → Start Single
unfolding check
register_listen_fd os s = check os.epoll_ctl (record s {
  server = record s.server {
    shared = record s.server.shared {
      calls =
          epoll_add s.server.epoll_fd s.server.socket_fd s.server.et false false
            s.server.shared.calls;
    };
  };
})

-- `wait` up to its loop.
unfoldable pub start : System → Single → Start Single
unfolding bind prepare_epoll_event listen register_listen_fd
start os s = do
  s1 ← bind os s
  s2 ← prepare_epoll_event os s1
  s3 ← listen os s2
  register_listen_fd os s3
