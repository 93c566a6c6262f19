-- ===== src/Multi/Turns.antt =====
-- The loop of core/include/reactor.h, alone and with the threads of its pool.
use conv_event.Base.{refl, List, [], ◌∷◌, Option, none, some}
use conv_event.Conn.State.{Methods}
use conv_event.Multi.Count.{
  Counted, Works, by_bits-Works, ensure-Has, close_queued-Works, work-Works,
}
use conv_event.Multi.Reactor.{Reactor}
use conv_event.Multi.Work.{
  work_event, with_rest, Polled, events_ready, timed_out, signalled, failed_poll, close_reactor,
  work,
}
use conv_event.Multi.Workers.{
  Phase, draining, polling, handling, ended, Turned, at_phase, null_read, deleted_use, loop_at,
  drain_turn, loop_turn, passed_of, with_passed, after_pass, Turn, loop, worker, take_turn, ◌>>=◌,
  turns,
}
use conv_event.Socket.State.{Fd}
use conv_event.Table.{at}
use conv_event.ThreadPool.Passes.{Passed, AfterPass, worker_pass-AfterPass}

-- No null pointer is read, and a state that is reached counts its connections.
abbrev pub Counts : Turned → Type 0
Counts (at_phase phase r) = Counted r
Counts null_read = ⊥
Counts deleted_use = Unit {0}

loop_at-Counts : (phase : Phase) (o : Option Reactor) → Works Counted o → Counts (loop_at phase o)
loop_at-Counts phase none h = h
loop_at-Counts phase (some r) h = h

drain_turn-Counts : (queue : List Fd) (r : Reactor) → Counted r → Counts (drain_turn queue r)
drain_turn-Counts [] r v = v
drain_turn-Counts (f ∷ rest) r v =
    loop_at-Counts draining _ (close_queued-Works f (at f r.connects) (with_rest r rest) refl v)

loop_turn-Counts :
    (m : Methods) (answer : Polled) (phase : Phase) (r : Reactor)
    → Counted r
    → Counts (loop_turn m answer phase r)
unfolding loop_turn work_event close_reactor
loop_turn-Counts m answer draining r v = drain_turn-Counts r.shared.to_close.items r v
loop_turn-Counts m (events_ready events) polling r v = v
loop_turn-Counts m timed_out polling r v = v
loop_turn-Counts m signalled polling r v = v
loop_turn-Counts m failed_poll polling r v = v
loop_turn-Counts m answer (handling []) r v = v
loop_turn-Counts m answer (handling (e ∷ events)) r v =
    loop_at-Counts (handling events) _
      (by_bits-Works m e _ (ensure-Has (at e.data_fd r.connects) e.data_fd e.addr r refl v))
loop_turn-Counts m answer ended r v = v

after_pass-Counts :
    (phase : Phase) (o : Option Passed) (r : Reactor)
    → AfterPass (λ p. Counted (with_passed p r)) o
    → Counts (after_pass phase o r)
after_pass-Counts phase none r h = tt
after_pass-Counts phase (some p) r h = h

take_turn-Counts :
    (m : Methods) (t : Turn) (phase : Phase) (r : Reactor)
    → Counted r
    → Counts (take_turn m t phase r)
unfolding take_turn
take_turn-Counts m (loop answer) phase r v = loop_turn-Counts m answer phase r v
take_turn-Counts m worker phase r v =
    after_pass-Counts phase _ r
      (worker_pass-AfterPass (λ p c shared s h. h) (λ pool s h. h) m r.thread_pool (passed_of r) v)

bind-Counts :
    (t : Turned) (f : Phase → Reactor → Turned)
    → Counts t
    → ((phase : Phase) (r : Reactor) → Counted r → Counts (f phase r))
    → Counts (t >>= f)
bind-Counts (at_phase phase r) f h k = k phase r h
bind-Counts null_read f h k = h
bind-Counts deleted_use f h k = h

turns-Counts :
    (m : Methods) (ts : List Turn) (phase : Phase) (r : Reactor)
    → Counted r
    → Counts (turns m ts phase r)
unfolding turns
turns-Counts m [] phase r v = v
turns-Counts m (t ∷ ts) phase r v =
    bind-Counts (take_turn m t phase r) (turns m ts) (take_turn-Counts m t phase r v)
      (turns-Counts m ts)

-- If the count of connections is the number of pointers in the table at the start, then the loop alone reads no
-- null pointer, whatever epoll_wait answers, whatever the handlers do and whatever the close queue holds at
-- first: it ends with a state, in which the count is again the number of pointers. With the workers of the
-- reactor's thread pool, in any order of turns, the loop reads no null pointer either, and the count is right in
-- each state that is reached; runs in which a worker uses a deleted connection stop there.
pub work-turns-Counts :
    (m : Methods) (answers : List Polled) (ts : List Turn) (r : Reactor)
    → Counted r
    → Works Counted (work m answers r) × Counts (turns m ts draining r)
work-turns-Counts m answers ts r v = (work-Works m answers r v, turns-Counts m ts draining r v)
