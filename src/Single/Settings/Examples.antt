-- ===== src/Single/Settings/Examples.antt =====
-- The theorems on the start of conv_single (core/conv_single.h) at concrete inputs.
use conv_event.Conn.State
use conv_event.Conn.State.{Methods, default_close, process, process_in_base, init}
use conv_event.Table.{fd_eq, at, put}
use conv_event.ThreadPool.Pool.{add}
use conv_event.Memory.{acquire, new_pool}
use conv_event.Single.Invariants.{After}
use conv_event.Single.Loop.{Event, Wait, rounds}
use conv_event.Single.Server.{Server, accept_conn, dispatch, remove_fd}
use conv_event.Single.Workers.{Phase, draining, Turn, turns}
use conv_event.Single.Turns.{AfterTurns}
use conv_event.Socket.State.{fd}
use conv_event.Queue
use conv_event.Single.Settings.Service.{Sound, launch-turns-Sound}
use conv_event.Single.Startup.{Single}
use conv_event.Base.{
  ℕ, ◌≡◌, refl, true, false, List, [], ◌∷◌, ◌++◌, Option, none, some, codes, pos, negsuc,
}
use conv_event.Configure.{Json, JsonVal, given, index, int_or, bool_or}
use conv_event.Single.Settings.{launch}
use conv_event.Single.Settings.Held.{Held, Ends}
use conv_event.Single.Settings.Launch.{launched, launch_runs}
use conv_event.Single.Settings.Leaks.{launch-Ends}
use conv_event.Single.Settings.Limits.{Setter, apply_all, InRange, Runs, apply_all-start-Runs}
use conv_event.Single.Settings.Pools.{Complete}
use conv_event.Single.Startup.{members, System, start}
use conv_event.Start.{running, ◌>>=◌}

abbrev idle : Methods
idle = record {
  process_in = default_close;
  process_out = default_close;
  process_rdhup = default_close;
  process_error = default_close;
}

abbrev four : JsonVal
four = record {
  is_null = false;
  as_int32 = pos 4;
  as_short = pos 4;
  as_bool = false;
  as_text = codes "4";
}

abbrev all_four : Json
all_four = record {
  has_key = λ key. true;
  value = λ key. four;
  null_val = record four { is_null = true };
}

abbrev working : System
working = record {
  socket = some 3;
  bind = true;
  epoll_create = some 4;
  listen = true;
  epoll_ctl = true;
}

all_four-Complete : Complete all_four
all_four-Complete = record {
  ip = refl;
  port = refl;
  limit = refl;
  thread_count = λ e. refl;
  some_threads = λ e. (3, refl);
  object_pool_size = λ e. refl;
  some_objects = λ e. refl;
}

launch_runs_example : launch working (some all_four) ≡ running (launched all_four 3 4)
unfolding int_or given index
launch_runs_example =
    launch_runs working all_four 3 4 all_four-Complete
      (record { socket = refl; bind = refl; epoll_create = refl; listen = refl; epoll_ctl = refl })
      refl

launch-Ends_example : Ends Held (launch (record working { listen = false }) (some all_four))
launch-Ends_example = launch-Ends (record working { listen = false }) (some all_four)

apply_all-start-Runs_example : Runs InRange (
    apply_all
      (Setter.max_events_count (negsuc 0) ∷ Setter.multi_thread (pos 2) (pos 9) ∷ [])
      members
    >>= start working)
apply_all-start-Runs_example =
    apply_all-start-Runs working
      (Setter.max_events_count (negsuc 0) ∷ Setter.multi_thread (pos 2) (pos 9) ∷ []) members
      (record { events_nonneg = refl; listen_nonneg = refl })

abbrev accepting : Event
accepting = record {
  data_fd = fd 3;
  is_rdhup = false;
  is_err = false;
  is_out = false;
  is_in = true;
  client_fd = fd 9;
  client_addr = 1;
}

abbrev readable : Event
readable = record accepting { data_fd = fd 9 }

-- A connection comes, its request is a task that a worker takes while the loop still handles its events, the
-- handler asks for its closing, and the loop closes it.
abbrev a_request : List Turn
a_request =
    Turn.loop Wait.interrupted
    ∷ Turn.loop (Wait.ready (accepting ∷ readable ∷ []))
    ∷ Turn.loop Wait.interrupted
    ∷ Turn.worker
    ∷ Turn.loop Wait.interrupted
    ∷ Turn.worker
    ∷ Turn.loop Wait.interrupted
    ∷ []

abbrev connections : Option (Phase × Server) → Option (ℕ × ℕ)
connections none = none
connections (some (phase, s)) = some (s.current_connect_count, Queue.size s.shared.to_close)

connection_processed :
    connections (turns idle a_request (draining, (launched all_four 3 4).server)) ≡ some (1, 1)
unfolding turns int_or bool_or given index Queue.size Queue.push Queue.new_queue fd_eq accept_conn
    at dispatch put add acquire new_pool process process_in_base default_close init Queue.pop
connection_processed = refl

connection_closed :
    connections (
      turns idle
        (a_request ++ (Turn.loop Wait.interrupted ∷ []))
        (draining, (launched all_four 3 4).server))
    ≡ some (0, 0)
unfolding turns int_or bool_or given index Queue.size Queue.push Queue.new_queue fd_eq accept_conn
    at dispatch put add acquire new_pool process process_in_base default_close init remove_fd
    State.close Queue.pop
connection_closed = refl

launch-turns-Sound_example :
    (s : Single) × (launch working (some all_four) ≡ running s)
    × AfterTurns Sound (turns idle a_request (draining, s.server))
    × After Sound (rounds idle (Wait.ready (accepting ∷ readable ∷ []) ∷ []) s.server)
unfolding int_or given index
launch-turns-Sound_example =
    launch-turns-Sound working all_four 3 4 idle a_request
      (Wait.ready (accepting ∷ readable ∷ []) ∷ []) all_four-Complete
      (record { socket = refl; bind = refl; epoll_create = refl; listen = refl; epoll_ctl = refl })
      refl
