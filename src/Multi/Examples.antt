-- ===== src/Multi/Examples.antt =====
-- The theorems on the multi-reactor model at concrete inputs.
use conv_event.Multi.Load.{work_never_shrinks}
use conv_event.Base.{
  ℕ, ◌≡◌, List, Option, some, take, ◌≤◌, length, refl, ◌<◌, true, false, [], ◌∷◌, none, arith,
}
use conv_event.Conn.State.{Methods, default_close, process, process_in_base, init}
use conv_event.Conn.State.{new_conn}
use conv_event.Multi.Reactor.{Reactor, serve, ensure}
use conv_event.Multi.Work.{ReactorEvent, events_ready, timed_out, work}
use conv_event.Multi.Acceptor.{least_loaded}
use conv_event.Multi.Count.{Works, Counted}
use conv_event.Multi.Turns.{Counts, work-turns-Counts}
use conv_event.Multi.Workers.{draining, Turned, at_phase, null_read, deleted_use, Turn, turns}
use conv_event.Queue
use conv_event.Queue.{new_queue}
use conv_event.Table.{at, touch, fd_eq, put}
use conv_event.ThreadPool.Pool.{add}
use conv_event.Memory.{new}
use conv_event.Multi.Choice.{AllFrom, size_at, least_loaded_lem}
use conv_event.Socket.State.{fd}

-- Handlers that close at once.
abbrev closing : Methods
closing = record {
  process_in = λ c w. (false, c, w);
  process_out = λ c w. (true, c, w);
  process_rdhup = default_close;
  process_error = default_close;
}

abbrev idle : Reactor
idle = record {
  epoll_fd = fd 4;
  et = false;
  one_shot = true;
  connects = [];
  conn_pool = none;
  thread_pool = none;
  current_connect_count = 0;
  memory = record { conns = λ p. new_conn; fresh = 0; deleted = [] };
  shared = record { to_close = record { items = fd 9 ∷ [] }; calls = [] };
}

abbrev readable : ReactorEvent
readable = record {
  data_fd = fd 7;
  is_rdhup = false;
  is_err = false;
  is_out = false;
  is_in = true;
  addr = 1;
}

-- The same with a thread pool.
abbrev pooled : Reactor
pooled = record idle {
  thread_pool = some (record { max_process_count = 2; process_pool = new_queue; sem = 0 });
}

-- The handler closes in a worker's turn, which comes after the event that queues the task.
abbrev a_task : List Turn
a_task =
    Turn.loop timed_out
    ∷ Turn.loop timed_out
    ∷ Turn.worker
    ∷ Turn.loop (events_ready (readable ∷ []))
    ∷ Turn.loop timed_out
    ∷ Turn.worker
    ∷ []

abbrev semaphore_of : Turned → Option ℕ
semaphore_of (at_phase phase r) = elim r.thread_pool [ none ↦ none | some pool ↦ some pool.sem ]
semaphore_of null_read = none
semaphore_of deleted_use = none

task_taken : semaphore_of (turns closing a_task draining pooled) ≡ some 0
unfolding turns new_queue at serve ensure touch fd_eq put add Queue.size Queue.pop Queue.push new
task_taken = refl

task_queued : semaphore_of (turns closing (take 5 a_task) draining pooled) ≡ some 1
unfolding turns new_queue at serve ensure touch fd_eq put add Queue.size
task_queued = refl

-- Without one_shot, two events of a connection are queued; the first worker's handler asks for its closing, the loop deletes it, and
-- the second worker uses it.
abbrev two_tasks : List Turn
two_tasks =
    Turn.loop timed_out
    ∷ Turn.loop (events_ready (readable ∷ []))
    ∷ Turn.loop timed_out
    ∷ Turn.loop timed_out
    ∷ Turn.loop timed_out
    ∷ Turn.loop (events_ready (readable ∷ []))
    ∷ Turn.loop timed_out
    ∷ Turn.worker
    ∷ Turn.loop timed_out
    ∷ Turn.loop timed_out
    ∷ Turn.worker
    ∷ []

abbrev unqueued : Reactor
unqueued = record pooled {
  one_shot = false;
  shared = record { to_close = record { items = [] }; calls = [] };
}

used_after_delete :
    turns (record closing { process_in = default_close }) two_tasks draining unqueued ≡ deleted_use
unfolding turns new_queue at serve ensure touch fd_eq put add Queue.size Queue.pop Queue.push new
    process process_in_base default_close init
used_after_delete = refl

work-turns-Counts_example :
    Works Counted (work closing (events_ready (readable ∷ []) ∷ timed_out ∷ []) pooled)
    × Counts (turns closing a_task draining pooled)
work-turns-Counts_example =
    work-turns-Counts closing (events_ready (readable ∷ []) ∷ timed_out ∷ []) a_task pooled refl

least_loaded_lem_example :
    (least_loaded (3 ∷ 1 ∷ 2 ∷ []) < 3)
    × AllFrom (size_at (least_loaded (3 ∷ 1 ∷ 2 ∷ [])) (3 ∷ 1 ∷ 2 ∷ [])) (3 ∷ 1 ∷ 2 ∷ [])
least_loaded_lem_example = least_loaded_lem 3 (1 ∷ 2 ∷ []) (omega arith)

work_never_shrinks_example :
    Works
      (λ r. 0 ≤ length r.connects)
      (work closing (events_ready (readable ∷ []) ∷ timed_out ∷ []) idle)
work_never_shrinks_example =
    work_never_shrinks closing (events_ready (readable ∷ []) ∷ timed_out ∷ []) idle refl
