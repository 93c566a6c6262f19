-- ===== src/Multi/Work.antt =====
-- The loop `work` of core/include/reactor.h.
use conv_event.Base.{ℕ, Bool, true, false, List, [], ◌∷◌, ◌++◌, Option, none, some, if◌then◌else◌}
use conv_event.Conn.State.{close_fd, Methods, rdhup, error, out, in_}
use conv_event.Multi.Reactor.{Reactor, clear_fd, ensure, serve}
use conv_event.Socket.State.{Fd, fd, no_fd}
use conv_event.Table.{at, touch}

-- An element of the array that epoll_wait fills, and what getsockname tells of its descriptor.
pub record ReactorEvent : Type 0 where
  pub data_fd : Fd
  pub is_rdhup : Bool
  pub is_err : Bool
  pub is_out : Bool
  pub is_in : Bool
  pub addr : ℕ

unfoldable pub by_bits : Methods → ReactorEvent → Reactor → Option Reactor
by_bits m e r =
    if e.is_rdhup
    then serve m rdhup true e.data_fd r
    else if e.is_err
    then serve m error true e.data_fd r
    else if e.is_out
    then serve m out false e.data_fd r
    else if e.is_in
    then serve m in_ false e.data_fd r
    else clear_fd e.data_fd r

-- One event: a connection is made for a descriptor that has none.
unfoldable pub work_event : Methods → ReactorEvent → Reactor → Option Reactor
unfolding by_bits
work_event m e r = by_bits m e (ensure (at e.data_fd r.connects) e.data_fd e.addr r)

infixl 5 ◌>>=◌
abbrev pub ◌>>=◌ : Option Reactor → (Reactor → Option Reactor) → Option Reactor
none >>= f = none
some r >>= f = f r

unfoldable pub work_events : Methods → List ReactorEvent → Reactor → Option Reactor
unfolding work_event
work_events m [] r = some r
work_events m (e ∷ events) r = do r' ← work_event m e r; work_events m events r'

abbrev pub with_rest : Reactor → List Fd → Reactor
with_rest r rest = record r { shared = record r.shared { to_close = record { items = rest } } }

-- `if(cur_fd == -1) continue; if(connects[cur_fd] == nullptr) continue;`
unfoldable pub close_queued : Fd → Option ℕ → Reactor → Option Reactor
close_queued no_fd p r = some r
close_queued (fd n) none r = some (record r { connects = touch (fd n) r.connects })
close_queued (fd n) (some p) r = clear_fd (fd n) r

-- `while(!close_queue->empty())`
unfoldable pub close_all : List Fd → Reactor → Option Reactor
unfolding close_queued
close_all [] r = some r
close_all (cur_fd ∷ rest) r = do
  r' ← close_queued cur_fd (at cur_fd r.connects) (with_rest r rest)
  close_all rest r'

-- What epoll_wait answers.
pub data Polled : Type 0 where
  events_ready : List ReactorEvent → Polled
  timed_out signalled failed_poll : Polled

unfoldable pub close_reactor : Reactor → Reactor
close_reactor r = record r {
  epoll_fd = no_fd;
  thread_pool = none;
  shared = record r.shared {
    calls = elim r.epoll_fd [
      | no_fd ↦ r.shared.calls
      | fd n ↦ r.shared.calls ++ (close_fd (fd n) ∷ [])
    ];
  };
}

-- The loop over the answers of epoll_wait. It ends after an error other than EINTR, and where the
-- answers end, since `run` has become false.
unfoldable pub work : Methods → List Polled → Reactor → Option Reactor
unfolding close_all work_events close_reactor
work m [] r = some (close_reactor r)
work m (events_ready events ∷ answers) r = do
  r' ← close_all r.shared.to_close.items r
  r'' ← work_events m events r'
  work m answers r''
work m (timed_out ∷ answers) r = do r' ← close_all r.shared.to_close.items r; work m answers r'
work m (signalled ∷ answers) r = do r' ← close_all r.shared.to_close.items r; work m answers r'
work m (failed_poll ∷ answers) r = do
  r' ← close_all r.shared.to_close.items r
  some (close_reactor r')
