-- ===== src/Single/AcceptFailure.antt =====
-- What core/conv_single.h makes of a failing `accept`: its result is not tested for -1.
use conv_event.Base.{ℕ, ◌<◌, ◌≡◌, refl, ◌∙◌, false, List, [], ◌∷◌, Option, none, some, arith, leb}
use conv_event.Single.Loop.{drain, close_one, with_queue}
use conv_event.Single.Safety.{Keeps, Runs, Runs-bind, Runs-weaken, remove_fd-Runs}
use conv_event.Single.Server.{Server, remove_fd, accept_pooled, accept_conn, enter}
use conv_event.Socket.State.{Fd, fd, no_fd}
use conv_event.Table.{fd_eq, at, at-put, at-touch}
use conv_event.Memory.{ConnPool}

abbrev Entered : Server → Type 0
Entered s = (p : ℕ) × (at no_fd s.connects ≡ some p)

accept_pooled-Entered :
    (pool : Option ConnPool) (addr : ℕ) (s : Server)
    → Entered (accept_pooled pool none no_fd addr s)
unfolding accept_pooled enter fd_eq
accept_pooled-Entered (some pool) addr s = (_, at-put no_fd no_fd _ s.connects)
accept_pooled-Entered none addr s = (_, at-put no_fd no_fd _ s.connects)

close_one-Entered :
    (f : Fd) (o : Option ℕ) (s : Server)
    → at f s.connects ≡ o
    → Entered s
    → Runs Entered (close_one f o s)
unfolding close_one fd_eq
close_one-Entered no_fd o s e h = h
close_one-Entered (fd n) none s e (p, h) = (p, at-touch (fd n) no_fd s.connects ∙ h)
close_one-Entered (fd n) (some q) s e (p, h) =
    Runs-weaken (Keeps (fd n) s) Entered (remove_fd (fd n) s) (λ s' k. (p, k.1 no_fd p refl h))
      (remove_fd-Runs q (fd n) s e)

drain-Entered : (queue : List Fd) (s : Server) → Entered s → Runs Entered (drain queue s)
unfolding drain
drain-Entered [] s h = h
drain-Entered (f ∷ rest) s h =
    Runs-bind Entered Entered (close_one f (at f s.connects) (with_queue s rest)) (drain rest)
      (close_one-Entered f (at f s.connects) (with_queue s rest) refl h) (drain-Entered rest)

Runs-exists :
    (r : Option Server)
    → Runs Entered r
    → (s' : Server) × (p : ℕ) × (r ≡ some s') × (at no_fd s'.connects ≡ some p)
Runs-exists none h = absurd h
Runs-exists (some s) (p, h) = (s, p, refl, h)

accept_conn-Entered :
    (addr : ℕ) (s : Server)
    → at no_fd s.connects ≡ none
    → s.current_connect_count < s.max_connect_count
    → Entered (accept_conn no_fd addr s)
unfolding accept_conn
accept_conn-Entered addr s e room =
    let open_ : leb s.max_connect_count s.current_connect_count ≡ false = ground arith in
    rw (open_, e) (accept_pooled-Entered s.conn_pool addr s)

-- A failing `accept`, below the limit, enters a connection under the descriptor -1, and emptying the
-- queue of connections to close, whatever it holds, does not take it out again.
pub accept_failure_stays :
    (addr : ℕ) (s : Server) (queue : List Fd)
    → at no_fd s.connects ≡ none
    → s.current_connect_count < s.max_connect_count
    → (s' : Server) × (p : ℕ) × (drain queue (accept_conn no_fd addr s) ≡ some s')
      × (at no_fd s'.connects ≡ some p)
accept_failure_stays addr s queue e room =
    Runs-exists (drain queue (accept_conn no_fd addr s))
      (drain-Entered queue (accept_conn no_fd addr s) (accept_conn-Entered addr s e room))
