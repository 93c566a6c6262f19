-- ===== src/Multi/Acceptor.antt =====
-- `_accept_` of core/include/acceptor.h: the reactor with the fewest entries takes the descriptor.
use conv_event.Base.{ℕ, zero, suc, ◌-◌, ◌^◌, true, List, [], ◌∷◌, length, ltb, if◌then◌else◌}
use conv_event.Conn.State.{epoll_add}
use conv_event.Multi.Reactor.{Reactor}
use conv_event.Socket.State.{Fd, fd, no_fd}

-- `for(int i=0;…)` from the index `i` on; the sizes are those of the reactors' tables, below 2^31.
unfoldable pub least_from : ℕ → List ℕ → ℕ → ℕ → ℕ
least_from i [] least least_index = least_index
least_from i (size ∷ sizes) least least_index =
    let taken = least_from (suc i) sizes size i in
    let kept = least_from (suc i) sizes least least_index in if ltb size least then taken else kept

-- `int least = INT32_MAX; int least_index = 0;`
unfoldable pub least_loaded : List ℕ → ℕ
unfolding least_from
least_loaded sizes = least_from 0 sizes (2 ^ 31 - 1) 0

abbrev pub sizes_of : List Reactor → List ℕ
sizes_of [] = []
sizes_of (r ∷ reactors) = length r.connects ∷ sizes_of reactors

-- `parent->reactors[index].add_conn(fd)`
unfoldable pub add_conn_at : ℕ → Fd → List Reactor → List Reactor
add_conn_at i f [] = []
add_conn_at zero f (r ∷ reactors) =
    record r {
      shared = record r.shared {
        calls = epoll_add r.epoll_fd f r.et r.one_shot true r.shared.calls;
      };
    }
    ∷ reactors
add_conn_at (suc i) f (r ∷ reactors) = r ∷ add_conn_at i f reactors

-- A failing `accept` is left alone.
unfoldable pub accept_to : Fd → List Reactor → List Reactor
unfolding least_loaded add_conn_at
accept_to no_fd reactors = reactors
accept_to (fd n) reactors = add_conn_at (least_loaded (sizes_of reactors)) (fd n) reactors

-- What epoll_wait answers the acceptor: for each of its events a result of `accept`, or an error.
-- `meanwhile` is what the threads of the reactors have done since the last answer.
pub record Arrival : Type 0 where
  pub meanwhile : List Reactor → List Reactor
  pub client_fd : Fd

pub data Accepting : Type 0 where
  arrivals : List Arrival → Accepting
  signalled failed_wait : Accepting

unfoldable pub accept_each : List Arrival → List Reactor → List Reactor
unfolding accept_to
accept_each [] reactors = reactors
accept_each (a ∷ more) reactors = accept_each more (accept_to a.client_fd (a.meanwhile reactors))

-- The loop of `acceptor::work`, which ends after an error other than EINTR, and where the answers end, since
-- `run` has become false.
unfoldable pub accept_work : List Accepting → List Reactor → List Reactor
unfolding accept_each
accept_work [] reactors = reactors
accept_work (arrivals more ∷ answers) reactors = accept_work answers (accept_each more reactors)
accept_work (signalled ∷ answers) reactors = accept_work answers reactors
accept_work (failed_wait ∷ answers) reactors = reactors
