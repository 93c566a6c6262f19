-- ===== src/Single/Examples.antt =====
-- Runs of the single-reactor loop (core/conv_single.h) at concrete inputs.
use conv_event.Single.Ownership.{Owned, rounds-Owned}
use conv_event.Base.{ℕ, ◌≡◌, refl, true, false, List, [], ◌∷◌, Option, inl, inr, none, some, arith}
use conv_event.Conn.State
use conv_event.Conn.State.{Call, Conn, Shared, Methods, Method, new_conn, default_close}
use conv_event.Memory.{new}
use conv_event.Queue
use mathlib.Core.Option
use conv_event.Single.AcceptFailure.{accept_failure_stays}
use conv_event.Single.Invariants.{After}
use conv_event.Single.Counting.{Inv, rounds-Inv}
use conv_event.Single.Loop.{Event, handle, handle_all, drain, ready, rounds, round}
use conv_event.Single.Safety.{handle_all_total}
use conv_event.Single.Server.{Server, accept_conn, remove_fd, dispatch, give_back}
use conv_event.Socket.State.{Fd, fd, no_fd}
use conv_event.Table.{fd_eq, at, put, erase}

abbrev failing : Method
failing c w = (false, c, w)

abbrev methods : Methods
methods = record {
  process_in = failing;
  process_out = failing;
  process_rdhup = default_close;
  process_error = default_close;
}

abbrev started : Server
started = record {
  socket_fd = fd 3;
  epoll_fd = fd 4;
  et = false;
  one_shot = true;
  max_connect_count = 2;
  current_connect_count = 0;
  connects = [];
  conn_pool = none;
  thread_pool = none;
  memory = record { conns = λ p. new_conn; fresh = 0; deleted = [] };
  shared = record { to_close = record { items = [] }; calls = [] };
}

abbrev event : Fd → Event
event f = record {
  data_fd = f;
  is_rdhup = false;
  is_err = false;
  is_out = false;
  is_in = true;
  client_fd = fd 7;
  client_addr = 0;
}

-- A connection comes in, and its first readable event fails: it is taken out and deleted.
first_request :
    Option.map {B = ℕ × List (Fd × Option ℕ) × List ℕ}
      (λ (s : Server). (s.current_connect_count, s.connects, s.memory.deleted))
      (rounds methods (ready (event (fd 3) ∷ []) ∷ ready (event (fd 7) ∷ []) ∷ []) started)
    ≡ some (0, [], 0 ∷ [])
unfolding rounds round drain handle_all handle accept_conn new fd_eq at put erase dispatch
    State.init State.process State.close remove_fd give_back State.process_in_base State.epoll_add
    State.epoll_del State.notify_close Queue.push
first_request = refl

started-Inv : Inv started
started-Inv = omega arith

rounds-Inv_example :
    After Inv (rounds methods (ready (event (fd 3) ∷ event (fd 3) ∷ []) ∷ []) started)
rounds-Inv_example =
    rounds-Inv methods (ready (event (fd 3) ∷ event (fd 3) ∷ []) ∷ []) started started-Inv

abbrev one_connected : Server
one_connected = record started { connects = (fd 7, some 0) ∷ []; current_connect_count = 1 }

handle_all_total_example :
    (s' : Server) × (handle_all methods (event (fd 7) ∷ event (fd 3) ∷ []) one_connected ≡ some s')
unfolding fd_eq at
handle_all_total_example =
    handle_all_total methods (event (fd 7) ∷ event (fd 3) ∷ []) one_connected
      (inr (0, refl), (refl, tt), (inl refl, tt, tt))

accept_failure_stays_example :
    (s' : Server) × (p : ℕ) × (drain (no_fd ∷ fd 7 ∷ []) (accept_conn no_fd 0 started) ≡ some s')
    × (at no_fd s'.connects ≡ some p)
unfolding at
accept_failure_stays_example = accept_failure_stays 0 started (no_fd ∷ fd 7 ∷ []) refl (omega arith)

started-Owned : Owned started
started-Owned = record { once = λ p. ground arith }

rounds-Owned_example :
    After Owned
      (rounds methods (ready (event (fd 3) ∷ []) ∷ ready (event (fd 7) ∷ []) ∷ []) started)
rounds-Owned_example =
    rounds-Owned methods (ready (event (fd 3) ∷ []) ∷ ready (event (fd 7) ∷ []) ∷ []) started
      started-Owned
