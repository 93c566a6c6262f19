-- ===== src/Single/Workers.antt =====
-- The loop of core/conv_single.h with the threads of its pool (core/include/threadpool.h), as turns that are
-- taken in any order: the loop's thread closes a connection from the close queue, waits, or handles one event; a
-- worker takes a task and processes it. A whole `process()` is one turn.
use conv_event.Base.{List, [], ◌∷◌, Option, none, some}
use conv_event.Conn.State.{Methods}
use conv_event.Single.Loop.{Event, handle, with_queue, close_one, Wait, ready, interrupted, broken}
use conv_event.Single.Server.{Server}
use conv_event.Socket.State.{Fd}
use conv_event.Table.{at}
use conv_event.ThreadPool.Passes.{Passed, worker_pass}

-- Where the loop stands: in the loop over the close queue, before epoll_wait, in the loop over the events that
-- are left, or out of it.
pub data Phase : Type 0 where
  draining polling : Phase
  handling : List Event → Phase
  ended : Phase

-- The use of a pointer that is null or deleted is `none`.
abbrev pub then_at : Phase → Option Server → Option (Phase × Server)
then_at phase none = none
then_at phase (some s) = some (phase, s)

abbrev pub drain_turn : List Fd → Server → Option (Phase × Server)
drain_turn [] s = some (polling, s)
drain_turn (cur_fd ∷ rest) s =
    then_at draining (close_one cur_fd (at cur_fd s.connects) (with_queue s rest))

-- One step of the loop's thread; `w` is what epoll_wait answers, if it is called.
unfoldable pub loop_turn : Methods → Wait → Phase × Server → Option (Phase × Server)
unfolding handle close_one
loop_turn m w (draining, s) = drain_turn s.shared.to_close.items s
loop_turn m (ready events) (polling, s) = some (handling events, s)
loop_turn m interrupted (polling, s) = some (draining, s)
loop_turn m broken (polling, s) = some (ended, s)
loop_turn m w (handling [], s) = some (draining, s)
loop_turn m w (handling (e ∷ events), s) = then_at (handling events) (handle m e s)
loop_turn m w (ended, s) = some (ended, s)

abbrev pub passed_of : Server → Passed
passed_of s = record { thread_pool = s.thread_pool; memory = s.memory; shared = s.shared }

abbrev pub with_passed : Passed → Server → Server
with_passed r s = record s { thread_pool = r.thread_pool; memory = r.memory; shared = r.shared }

abbrev pub after_pass : Phase → Option Passed → Server → Option (Phase × Server)
after_pass phase none s = none
after_pass phase (some r) s = some (phase, with_passed r s)

pub data Turn : Type 0 where
  loop : Wait → Turn
  worker : Turn

unfoldable pub take_turn : Methods → Turn → Phase × Server → Option (Phase × Server)
unfolding loop_turn worker_pass
take_turn m (loop w) (phase, s) = loop_turn m w (phase, s)
take_turn m worker (phase, s) = after_pass phase (worker_pass m s.thread_pool (passed_of s)) s

infixl 5 ◌>>=◌
abbrev pub ◌>>=◌ :
    Option (Phase × Server) → (Phase × Server → Option (Phase × Server)) → Option (Phase × Server)
none >>= f = none
some r >>= f = f r

unfoldable pub turns : Methods → List Turn → Phase × Server → Option (Phase × Server)
unfolding take_turn
turns m [] r = some r
turns m (t ∷ ts) r = do r' ← take_turn m t r; turns m ts r'
