-- ===== src/Multi/Reactor.antt =====
-- The members of reactor (core/include/reactor.h), and what its loop does with one connection. A read
-- through a null pointer is `none`.
use conv_event.Base.{ℕ, suc, ◌-◌, Bool, true, false, Option, none, some}
use conv_event.Conn.State
use conv_event.Conn.State.{Conn, Shared, Methods, Status, rdhup, error, out, in_, process}
use conv_event.Memory.{Memory, store, new, delete, ConnPool, acquire, release}
use conv_event.Socket.State.{Fd}
use conv_event.Table.{Table, at, put}
use conv_event.ThreadPool.Pool
use conv_event.ThreadPool.Pool.{ThreadPool}

-- `current_connect_count` is the parent's, which the reactors share; here it is one reactor's part.
pub record Reactor : Type 0 where
  pub epoll_fd : Fd
  pub et : Bool
  pub one_shot : Bool
  pub connects : Table
  pub conn_pool : Option ConnPool
  pub thread_pool : Option ThreadPool
  pub current_connect_count : ℕ
  pub memory : Memory
  pub shared : Shared

unfoldable pub return_conn : Option ConnPool → ℕ → Reactor → Reactor
return_conn (some pool) p r = record r { conn_pool = some (release pool p) }
return_conn none p r = record r { memory = delete r.memory p }

-- CONNECTS_REMOVE_FD_REACTOR. The key stays in the table, with null under it.
unfoldable pub clear_at : Option ℕ → Fd → Reactor → Option Reactor
unfolding return_conn
clear_at none cur_fd r = none
clear_at (some p) cur_fd r =
    let (c, shared) = State.close (r.memory.conns p) r.shared in
    some (
      return_conn r.conn_pool p (record r {
        memory = store r.memory p c;
        shared = shared;
        current_connect_count = r.current_connect_count - 1;
        connects = put cur_fd none r.connects;
      }))

unfoldable pub clear_fd : Fd → Reactor → Option Reactor
unfolding clear_at
clear_fd cur_fd r = clear_at (at cur_fd r.connects) cur_fd r

-- A connection for a descriptor that has none: the acceptor has registered it already.
unfoldable pub adopt_at : ℕ → Fd → ℕ → Reactor → Reactor
adopt_at p cur_fd addr r =
    let (c, shared) =
      State.init (r.memory.conns p) cur_fd addr r.epoll_fd r.et r.one_shot true false r.shared in
    record r {
      memory = store r.memory p c;
      shared = shared;
      connects = put cur_fd (some p) r.connects;
      current_connect_count = suc r.current_connect_count;
    }

unfoldable pub adopt : Option ConnPool → Fd → ℕ → Reactor → Reactor
unfolding adopt_at
adopt (some pool) cur_fd addr r =
    let (p, pool', memory) = acquire pool r.memory in
    adopt_at p cur_fd addr (record r { memory = memory; conn_pool = some pool' })
adopt none cur_fd addr r =
    let (p, memory) = new r.memory in adopt_at p cur_fd addr (record r { memory = memory })

unfoldable pub ensure : Option ℕ → Fd → ℕ → Reactor → Reactor
unfolding adopt
ensure (some p) cur_fd addr r = r
ensure none cur_fd addr r = adopt r.conn_pool cur_fd addr r

unfoldable pub run_conn : Methods → ℕ → Reactor → Bool × Reactor
run_conn m p r =
    let (b, c, shared) = process m (r.memory.conns p) r.shared in
    (b, record r { memory = store r.memory p c; shared = shared })

-- After the call: hang-up and error remove the connection whatever it returned.
unfoldable pub after_run : Bool → Fd → Bool × Reactor → Option Reactor
unfolding clear_fd
after_run true cur_fd (b, r) = clear_fd cur_fd r
after_run false cur_fd (true, r) = some r
after_run false cur_fd (false, r) = clear_fd cur_fd r

unfoldable pub after_queueing : Fd → Reactor → Bool × ThreadPool → Option Reactor
unfolding clear_fd
after_queueing cur_fd r (true, pool) = some (record r { thread_pool = some pool })
after_queueing cur_fd r (false, pool) = clear_fd cur_fd (record r { thread_pool = some pool })

-- A thread pool takes the task in its queue; its workers are in Multi.Workers.
unfoldable pub pass_on : Option ThreadPool → Methods → Bool → ℕ → Fd → Reactor → Option Reactor
unfolding after_queueing after_run run_conn
pass_on (some pool) m always p cur_fd r = after_queueing cur_fd r (Pool.add pool p)
pass_on none m always p cur_fd r = after_run always cur_fd (run_conn m p r)

unfoldable pub serve_at : Option ℕ → Methods → Status → Bool → Fd → Reactor → Option Reactor
unfolding pass_on
serve_at none m status always cur_fd r = none
serve_at (some p) m status always cur_fd r =
    pass_on r.thread_pool m always p cur_fd
      (record r { memory = store r.memory p (record (r.memory.conns p) { status = status }) })

-- One of the four branches on an event's bits.
unfoldable pub serve : Methods → Status → Bool → Fd → Reactor → Option Reactor
unfolding serve_at
serve m status always cur_fd r = serve_at (at cur_fd r.connects) m status always cur_fd r
