-- ===== src/Single/Invariants.antt =====
-- From the operations of conv_single (core/conv_single.h) to its loop.
use conv_event.Base.{ℕ, Bool, true, false, List, [], ◌∷◌, Option, none, some, if◌then◌else◌}
use conv_event.Conn.State.{Conn, Shared, Methods, Status, rdhup, error, out, in_, process}
use conv_event.Memory.{store}
use conv_event.Single.Loop.{
  Event, handle, handle_all, ◌>>=◌, with_queue, close_one, drain, Wait, ready, interrupted, broken,
  respond, round, rounds,
}
use conv_event.Single.Server.{
  Server, remove_fd, accept_conn, run_process, after_process, after_add, hand_to, dispatch_at,
  dispatch,
}
use conv_event.Socket.State.{Fd, fd, no_fd}
use conv_event.Table.{at, touch, fd_eq}
use conv_event.ThreadPool.Pool
use conv_event.ThreadPool.Pool.{ThreadPool}

-- What holds of the state, if there was no fault.
abbrev pub After : (Server → Type 0) → Option Server → Type 0
After P none = Unit {0}
After P (some s) = P s

-- The operations keep `P`, and it does not depend on the state of a connection, on the thread pool, or on the
-- queue and the calls.
pub record Preserved (P : Server → Type 0) : Type 0 where
  pub by_process :
      (p : ℕ) (c : Conn) (shared : Shared) (s : Server)
      → P s
      → P (record s { memory = store s.memory p c; shared = shared })
  pub by_add : (pool : Option ThreadPool) (s : Server) → P s → P (record s { thread_pool = pool })
  pub by_pop : (queue : List Fd) (s : Server) → P s → P (with_queue s queue)
  pub by_touch : (f : Fd) (s : Server) → P s → P (record s { connects = touch f s.connects })
  pub by_remove : (f : Fd) (s : Server) → P s → After P (remove_fd f s)
  pub by_accept : (f : Fd) (addr : ℕ) (s : Server) → P s → P (accept_conn f addr s)

pub After-if :
    (P : Server → Type 0) (b : Bool) (x y : Option Server)
    → After P x
    → After P y
    → After P (if b then x else y)
After-if P true x y hx hy = hx
After-if P false x y hx hy = hy

After-bind :
    (P : Server → Type 0) (r : Option Server) (f : Server → Option Server)
    → After P r
    → ((s : Server) → P s → After P (f s))
    → After P (r >>= f)
After-bind P none f h k = tt
After-bind P (some s) f h k = k s h

module _ {P : Server → Type 0} (kept : Preserved P) where
  after_process-After :
      (always b : Bool) (f : Fd) (s : Server) → P s → After P (after_process always f (b, s))
  unfolding after_process
  after_process-After true b f s v = kept.by_remove f s v
  after_process-After false true f s v = v
  after_process-After false false f s v = kept.by_remove f s v

  after_add-After :
      (pool : ThreadPool) (f : Fd) (s : Server) (b : Bool) (new : ThreadPool)
      → P s
      → After P (after_add pool f s (b, new))
  unfolding after_add
  after_add-After pool f s true new v = kept.by_add (some new) s v
  after_add-After pool f s false new v = kept.by_remove f _ (kept.by_add (some new) s v)

  hand_to-After :
      (pool : Option ThreadPool) (m : Methods) (always : Bool) (p : ℕ) (f : Fd) (s : Server)
      → P s
      → After P (hand_to pool m always p f s)
  unfolding hand_to run_process
  hand_to-After (some pool) m always p f s v =
      let (b, pool') = Pool.add pool p in after_add-After pool f s b pool' v
  hand_to-After none m always p f s v =
      let (b, c, shared) = process m (s.memory.conns p) s.shared in
      after_process-After always b f _ (kept.by_process p c shared s v)

  dispatch_at-After :
      (o : Option ℕ) (m : Methods) (status : Status) (always : Bool) (f : Fd) (s : Server)
      → P s
      → After P (dispatch_at o m status always f s)
  unfolding dispatch_at
  dispatch_at-After none m status always f s v = tt
  dispatch_at-After (some p) m status always f s v =
      hand_to-After s.thread_pool m always p f _
        (kept.by_process p (record (s.memory.conns p) { status = status }) s.shared s v)

  pub handle-After : (m : Methods) (e : Event) (s : Server) → P s → After P (handle m e s)
  unfolding handle dispatch
  handle-After m e s v =
      let on_in =
        After-if P e.is_in (dispatch m in_ false e.data_fd s) (remove_fd e.data_fd s)
          (dispatch_at-After (at e.data_fd s.connects) m in_ false e.data_fd s v)
          (kept.by_remove e.data_fd s v) in
      let on_out =
        After-if P e.is_out (dispatch m out false e.data_fd s) _
          (dispatch_at-After (at e.data_fd s.connects) m out false e.data_fd s v) on_in in
      let on_err =
        After-if P e.is_err (dispatch m error true e.data_fd s) _
          (dispatch_at-After (at e.data_fd s.connects) m error true e.data_fd s v) on_out in
      let on_rdhup =
        After-if P e.is_rdhup (dispatch m rdhup true e.data_fd s) _
          (dispatch_at-After (at e.data_fd s.connects) m rdhup true e.data_fd s v) on_err in
      After-if P (fd_eq e.data_fd s.socket_fd) (some (accept_conn e.client_fd e.client_addr s)) _
        (kept.by_accept e.client_fd e.client_addr s v) on_rdhup

  handle_all-After :
      (m : Methods) (events : List Event) (s : Server) → P s → After P (handle_all m events s)
  unfolding handle_all
  handle_all-After m [] s v = v
  handle_all-After m (e ∷ events) s v =
      After-bind P (handle m e s) (handle_all m events) (handle-After m e s v)
        (handle_all-After m events)

  pub close_one-After : (f : Fd) (o : Option ℕ) (s : Server) → P s → After P (close_one f o s)
  unfolding close_one
  close_one-After no_fd o s v = v
  close_one-After (fd n) none s v = kept.by_touch (fd n) s v
  close_one-After (fd n) (some p) s v = kept.by_remove (fd n) s v

  drain-After : (queue : List Fd) (s : Server) → P s → After P (drain queue s)
  unfolding drain
  drain-After [] s v = v
  drain-After (f ∷ rest) s v =
      After-bind P (close_one f (at f s.connects) (with_queue s rest)) (drain rest)
        (close_one-After f (at f s.connects) (with_queue s rest) (kept.by_pop rest s v))
        (drain-After rest)

  respond-After : (m : Methods) (w : Wait) (s : Server) → P s → After P (respond m w s)
  unfolding respond
  respond-After m (ready events) s v = handle_all-After m events s v
  respond-After m interrupted s v = v
  respond-After m broken s v = v

  round-After : (m : Methods) (w : Wait) (s : Server) → P s → After P (round m w s)
  unfolding round
  round-After m w s v =
      After-bind P (drain s.shared.to_close.items s) (respond m w)
        (drain-After s.shared.to_close.items s v) (respond-After m w)

  pub rounds-After :
      (m : Methods) (waits : List Wait) (s : Server) → P s → After P (rounds m waits s)
  unfolding rounds
  rounds-After m [] s v = v
  rounds-After m (broken ∷ waits) s v = round-After m broken s v
  rounds-After m (interrupted ∷ waits) s v =
      After-bind P (round m interrupted s) (rounds m waits) (round-After m interrupted s v)
        (rounds-After m waits)
  rounds-After m (ready events ∷ waits) s v =
      After-bind P (round m (ready events) s) (rounds m waits) (round-After m (ready events) s v)
        (rounds-After m waits)
