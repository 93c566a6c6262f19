-- ===== src/Multi/Workers.antt =====
-- The loop of core/include/reactor.h with the threads of its pool (core/include/threadpool.h), as turns that are
-- taken in any order: the reactor's thread closes a connection from the close queue, waits, or handles one event;
-- a worker takes a task and processes it. A whole `process()` is one turn.
use conv_event.Base.{List, [], ◌∷◌, Option, none, some}
use conv_event.Conn.State.{Methods}
use conv_event.Multi.Reactor.{Reactor}
use conv_event.Multi.Work.{
  ReactorEvent, work_event, with_rest, close_queued, Polled, events_ready, timed_out, signalled,
  failed_poll, close_reactor,
}
use conv_event.Socket.State.{Fd}
use conv_event.Table.{at}
use conv_event.ThreadPool.Passes.{Passed, worker_pass}

-- Where the loop stands: in the loop over the close queue, before epoll_wait, in the loop over the events that
-- are left, or out of it.
pub data Phase : Type 0 where
  draining polling : Phase
  handling : List ReactorEvent → Phase
  ended : Phase

-- A turn leads to a state, or uses a null pointer or a deleted connection.
pub data Turned : Type 0 where
  at_phase : Phase → Reactor → Turned
  null_read deleted_use : Turned

abbrev pub loop_at : Phase → Option Reactor → Turned
loop_at phase none = null_read
loop_at phase (some r) = at_phase phase r

abbrev pub drain_turn : List Fd → Reactor → Turned
drain_turn [] r = at_phase polling r
drain_turn (cur_fd ∷ rest) r =
    loop_at draining (close_queued cur_fd (at cur_fd r.connects) (with_rest r rest))

-- One step of the reactor's thread; the answer is that of epoll_wait, if it is called.
unfoldable pub loop_turn : Methods → Polled → Phase → Reactor → Turned
unfolding close_queued work_event close_reactor
loop_turn m answer draining r = drain_turn r.shared.to_close.items r
loop_turn m (events_ready events) polling r = at_phase (handling events) r
loop_turn m timed_out polling r = at_phase draining r
loop_turn m signalled polling r = at_phase draining r
loop_turn m failed_poll polling r = at_phase ended (close_reactor r)
loop_turn m answer (handling []) r = at_phase draining r
loop_turn m answer (handling (e ∷ events)) r = loop_at (handling events) (work_event m e r)
loop_turn m answer ended r = at_phase ended r

abbrev pub passed_of : Reactor → Passed
passed_of r = record { thread_pool = r.thread_pool; memory = r.memory; shared = r.shared }

abbrev pub with_passed : Passed → Reactor → Reactor
with_passed p r = record r { thread_pool = p.thread_pool; memory = p.memory; shared = p.shared }

abbrev pub after_pass : Phase → Option Passed → Reactor → Turned
after_pass phase none r = deleted_use
after_pass phase (some p) r = at_phase phase (with_passed p r)

pub data Turn : Type 0 where
  loop : Polled → Turn
  worker : Turn

unfoldable pub take_turn : Methods → Turn → Phase → Reactor → Turned
unfolding loop_turn worker_pass
take_turn m (loop answer) phase r = loop_turn m answer phase r
take_turn m worker phase r = after_pass phase (worker_pass m r.thread_pool (passed_of r)) r

infixl 5 ◌>>=◌
abbrev pub ◌>>=◌ : Turned → (Phase → Reactor → Turned) → Turned
at_phase phase r >>= f = f phase r
null_read >>= f = null_read
deleted_use >>= f = deleted_use

unfoldable pub turns : Methods → List Turn → Phase → Reactor → Turned
unfolding take_turn
turns m [] phase r = at_phase phase r
turns m (t ∷ ts) phase r = take_turn m t phase r >>= turns m ts
