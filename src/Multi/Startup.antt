-- ===== src/Multi/Startup.antt =====
-- How conv_multi (core/conv_multi.h) is configured and started, with its acceptor
-- (core/include/acceptor.h) and its reactors (core/include/reactor.h), up to their loops. What the system
-- calls answer is a parameter; console output and the handlers of signals are left out.
use conv_event.Base.{
  ℕ, zero, suc, Bool, true, false, List, [], ◌∷◌, ◌++◌, Option, none, some, Bytes, codes,
  if◌then◌else◌, ℤ, pos, negsuc, is_nonneg,
}
use conv_event.Configure.{Json, int_or}
use conv_event.Conn.State.{Call, close_fd, new_conn, epoll_add}
use conv_event.Memory.{Memory, ConnPool}
use conv_event.Single.Startup.{SocketOption, System}
use conv_event.Socket.State.{Fd, fd, no_fd}
use conv_event.Start.{Start, running, exited, thrown, ◌>>=◌}
use conv_event.ThreadPool.Pool.{ThreadPool}

-- The members of a reactor that its start sets. `conn_pool` tells whether the pointer to the pool of the
-- whole server is set, `events` and `close_queue` whether they are allocated.
pub record ReactorSetup : Type 0 where
  pub et : Bool
  pub one_shot : Bool
  pub epoll_fd : Fd
  pub events : Bool
  pub max_events_count : ℤ
  pub thread_pool : Option ThreadPool
  pub conn_pool : Bool
  pub parent : Bool
  pub close_queue : Bool

pub record AcceptorSetup : Type 0 where
  pub ip : Bytes
  pub port : ℤ
  pub socket_fd : Fd
  pub my_addr : Option (Bytes × ℤ)
  pub listen_queue_count : ℤ
  pub epoll_fd : Fd
  pub max_event_count : ℤ
  pub event : Bool
  pub parent : Bool
  pub conn_pool : Bool

-- `run` of the reactors and of the acceptor are static members.
pub record Multi : Type 0 where
  pub et : Bool
  pub one_shot : Bool
  pub ip : Bytes
  pub port : ℤ
  pub max_connect_count : ℕ
  pub thread_pool : Bool
  pub acceptor : AcceptorSetup
  pub conn_pool : Option ConnPool
  pub memory : Memory
  pub reactors : List ReactorSetup
  pub reactors_run : Bool
  pub acceptor_run : Bool
  pub calls : List Call
  pub options : List (Fd × SocketOption × Bool)

abbrev pub new_acceptor : AcceptorSetup
new_acceptor = record {
  ip = [];
  port = pos 0;
  socket_fd = no_fd;
  my_addr = none;
  listen_queue_count = pos 1024;
  epoll_fd = no_fd;
  max_event_count = pos 4096;
  event = false;
  parent = false;
  conn_pool = false;
}

abbrev pub multi_members : Multi
multi_members = record {
  et = false;
  one_shot = true;
  ip = [];
  port = pos 0;
  max_connect_count = 200000;
  thread_pool = false;
  acceptor = new_acceptor;
  conn_pool = none;
  memory = record { conns = λ p. new_conn; fresh = 0; deleted = [] };
  reactors = [];
  reactors_run = false;
  acceptor_run = false;
  calls = [];
  options = [];
}

abbrev pub set_acceptor : AcceptorSetup → Multi → Multi
set_acceptor a s = record s { acceptor = a }

abbrev pub log_close : Fd → List Call → List Call
log_close no_fd calls = calls
log_close (fd n) calls = calls ++ (close_fd (fd n) ∷ [])

-- `acceptor::close`
unfoldable pub close_acceptor : Multi → Multi
close_acceptor s = record s {
  acceptor = record s.acceptor {
    socket_fd = no_fd;
    epoll_fd = no_fd;
    event = false;
    parent = false;
  };
  reactors_run = false;
  calls = log_close s.acceptor.epoll_fd (log_close s.acceptor.socket_fd s.calls);
}

-- `close(); exit(-1);` of the acceptor where the call has failed.
unfoldable pub check_acceptor : Bool → Multi → Start Multi
unfolding close_acceptor
check_acceptor ok s = if ok then running s else exited (close_acceptor s)

unfoldable pub create_acceptor_socket : Option ℕ → Multi → Start Multi
unfolding close_acceptor
create_acceptor_socket none s = exited (close_acceptor s)
create_acceptor_socket (some n) s =
    running (set_acceptor (record s.acceptor { socket_fd = fd n }) s)

-- Whether the pointer to the pool is set.
abbrev pub has_pool : Option ConnPool → Bool
has_pool none = false
has_pool (some pool) = true

-- `acceptor::init`
unfoldable pub init_acceptor : System → Json → Multi → Start Multi
unfolding create_acceptor_socket int_or
init_acceptor os conf s = do
  s' ← create_acceptor_socket os.socket (
      set_acceptor
        (record s.acceptor {
          parent = true;
          conn_pool = has_pool s.conn_pool;
          ip = s.ip;
          port = s.port;
          listen_queue_count = int_or conf (codes "listen_queue_count") (pos 1024);
          max_event_count = int_or conf (codes "max_events_count") (pos 4096);
        })
        s)
  running
      (set_acceptor (record s'.acceptor { my_addr = some (s'.acceptor.ip, s'.acceptor.port) }) s')

unfoldable pub acceptor_event : Multi → Start Multi
acceptor_event s =
    if s.acceptor.event
    then running s
    else if is_nonneg s.acceptor.max_event_count
    then running (set_acceptor (record s.acceptor { event = true }) s)
    else thrown

unfoldable pub acceptor_epoll : Fd → Option ℕ → Multi → Start Multi
unfolding close_acceptor
acceptor_epoll (fd n) o s = running s
acceptor_epoll no_fd none s = exited (close_acceptor s)
acceptor_epoll no_fd (some n) s = running (set_acceptor (record s.acceptor { epoll_fd = fd n }) s)

unfoldable pub register_acceptor : System → Multi → Start Multi
unfolding check_acceptor
register_acceptor os s = check_acceptor os.epoll_ctl (record s {
  calls = epoll_add s.acceptor.epoll_fd s.acceptor.socket_fd false false false s.calls;
})

-- `acceptor::work` up to its loop. Here the listening socket is registered before it listens.
unfoldable pub acceptor_start : System → Multi → Start Multi
unfolding check_acceptor acceptor_event acceptor_epoll register_acceptor
acceptor_start os s = do
  s1 ← check_acceptor os.bind s
  s2 ← acceptor_event s1
  s3 ← acceptor_epoll s2.acceptor.epoll_fd os.epoll_create s2
  s4 ← register_acceptor os s3
  s5 ← check_acceptor os.listen s4
  running (record s5 { acceptor_run = true })

-- `reactor()`, with what `epoll_create` answers; it ends the program where that fails.
unfoldable pub new_reactor : Option ℕ → Multi → Start Multi
new_reactor none s = exited s
new_reactor (some n) s = running (record s {
  reactors =
      s.reactors
      ++ (record {
        et = false;
        one_shot = true;
        epoll_fd = fd n;
        events = true;
        max_events_count = pos 4096;
        thread_pool = none;
        conn_pool = false;
        parent = false;
        close_queue = false;
      }
          ∷ []);
})

-- `count` reactors, the first with the answer at `i`.
unfoldable pub new_reactors : ℕ → ℕ → (ℕ → Option ℕ) → Multi → Start Multi
unfolding new_reactor
new_reactors zero i answers s = running s
new_reactors (suc count) i answers s = do
  s' ← new_reactor (answers i) s
  new_reactors count (suc i) answers s'

-- `reactors.resize(reactor_count)`, which throws on a negative count.
unfoldable pub resize : ℤ → (ℕ → Option ℕ) → Multi → Start Multi
unfolding new_reactors
resize (pos n) answers s = new_reactors n 0 answers s
resize (negsuc n) answers s = thrown
