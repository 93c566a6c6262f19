-- ===== src/Single/Server.antt =====
-- The members of conv_single (core/conv_single.h), and what the loop does with one connection. A read
-- through a null pointer is `none`. Counters do not overflow an `int`.
use conv_event.Base.{ℕ, suc, ◌-◌, Bool, true, [], ◌∷◌, ◌++◌, Option, none, some, leb, if◌then◌else◌}
use conv_event.Conn.State
use conv_event.Conn.State.{
  Call, close_fd, Conn, Shared, Methods, Status, rdhup, error, out, in_, process,
}
use conv_event.Memory.{Memory, store, new, delete, ConnPool, acquire, release}
use conv_event.Socket.State.{Fd}
use conv_event.Table.{Table, at, put, touch, erase}
use conv_event.ThreadPool.Pool
use conv_event.ThreadPool.Pool.{ThreadPool}

pub record Server : Type 0 where
  pub socket_fd : Fd
  pub epoll_fd : Fd
  pub et : Bool
  pub one_shot : Bool
  pub max_connect_count : ℕ
  pub current_connect_count : ℕ
  pub connects : Table
  pub conn_pool : Option ConnPool
  pub thread_pool : Option ThreadPool
  pub memory : Memory
  pub shared : Shared

abbrev log : Server → Call → Server
log s call = record s { shared = record s.shared { calls = s.shared.calls ++ (call ∷ []) } }

-- A connection that is no longer in the table goes back to the pool, or is deleted; its destructor
-- closes it once more, which does nothing.
unfoldable pub give_back : Option ConnPool → ℕ → Server → Server
give_back (some pool) p s = record s { conn_pool = some (release pool p) }
give_back none p s = record s { memory = delete s.memory p }

unfoldable pub remove_at : Option ℕ → Fd → Server → Option Server
unfolding give_back
remove_at none cur_fd s = none
remove_at (some p) cur_fd s =
    let (c, shared) = State.close (s.memory.conns p) s.shared in
    some (
      give_back s.conn_pool p (record s {
        memory = store s.memory p c;
        shared = shared;
        current_connect_count = s.current_connect_count - 1;
        connects = erase cur_fd s.connects;
      }))

-- CONNECTS_REMOVE_FD
unfoldable pub remove_fd : Fd → Server → Option Server
unfolding remove_at
remove_fd cur_fd s = remove_at (at cur_fd s.connects) cur_fd s

-- What the listening socket's event makes of the descriptor that `accept` returns, -1 included.
unfoldable pub enter : Fd → ℕ → ℕ → Server → Server
enter client_fd addr p s =
    let (c, shared) =
      State.init (s.memory.conns p) client_fd addr s.epoll_fd s.et s.one_shot true true s.shared in
    record s {
      memory = store s.memory p c;
      shared = shared;
      connects = put client_fd (some p) s.connects;
      current_connect_count = suc s.current_connect_count;
    }

-- `connects[client_fd] != nullptr`
unfoldable pub refuse : Fd → Option ConnPool → Server → Server
refuse client_fd pool s =
    log (record s { conn_pool = pool; connects = touch client_fd s.connects }) (close_fd client_fd)

unfoldable pub accept_pooled : Option ConnPool → Option ℕ → Fd → ℕ → Server → Server
unfolding enter refuse
accept_pooled (some pool) found client_fd addr s =
    let (p, pool', memory) = acquire pool s.memory in
    let s' = record s { memory = memory } in
    elim found [
      | some q ↦ refuse client_fd (some (release pool' p)) s'
      | none ↦ enter client_fd addr p (record s' { conn_pool = some pool' })
    ]
accept_pooled none found client_fd addr s =
    let (p, memory) = new s.memory in
    elim found [
      | some q ↦ refuse client_fd none s
      | none ↦ enter client_fd addr p (record s { memory = memory })
    ]

unfoldable pub accept_conn : Fd → ℕ → Server → Server
unfolding accept_pooled
accept_conn client_fd addr s =
    if leb s.max_connect_count s.current_connect_count
    then log s (close_fd client_fd)
    else accept_pooled s.conn_pool (at client_fd s.connects) client_fd addr s

-- `connects[cur_fd]->process()`, which reports whether to keep the connection.
unfoldable pub run_process : Methods → ℕ → Server → Bool × Server
run_process m p s =
    let (b, c, shared) = process m (s.memory.conns p) s.shared in
    (b, record s { memory = store s.memory p c; shared = shared })

-- After the call: hang-up and error remove the connection whatever it returned.
unfoldable pub after_process : Bool → Fd → Bool × Server → Option Server
after_process always cur_fd (b, s) =
    if always then remove_fd cur_fd s else if b then some s else remove_fd cur_fd s

unfoldable pub after_add : ThreadPool → Fd → Server → Bool × ThreadPool → Option Server
after_add old cur_fd s (b, pool) =
    let s' = record s { thread_pool = some pool } in if b then some s' else remove_fd cur_fd s'

-- A thread pool takes the task in its queue; its workers are in Single.Workers.
unfoldable pub hand_to : Option ThreadPool → Methods → Bool → ℕ → Fd → Server → Option Server
unfolding after_add after_process run_process
hand_to (some pool) m always p cur_fd s = after_add pool cur_fd s (Pool.add pool p)
hand_to none m always p cur_fd s = after_process always cur_fd (run_process m p s)

unfoldable pub dispatch_at : Option ℕ → Methods → Status → Bool → Fd → Server → Option Server
unfolding hand_to
dispatch_at none m status always cur_fd s = none
dispatch_at (some p) m status always cur_fd s =
    hand_to s.thread_pool m always p cur_fd
      (record s { memory = store s.memory p (record (s.memory.conns p) { status = status }) })

-- One of the four branches on an event's bits: set the status, then hand the connection to the pool
-- or process it here. `always` marks hang-up and error.
unfoldable pub dispatch : Methods → Status → Bool → Fd → Server → Option Server
unfolding dispatch_at
dispatch m status always cur_fd s = dispatch_at (at cur_fd s.connects) m status always cur_fd s
