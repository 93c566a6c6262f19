-- ===== src/Multi/Count.antt =====
-- The loop of core/include/reactor.h reads no null pointer and counts its connections.
use conv_event.Base.{
  ℕ, ◌≡◌, refl, ◌∙◌, Bool, true, false, List, [], ◌∷◌, Option, none, some, arith, if◌then◌else◌,
}
use conv_event.Conn.State.{Methods, Status, rdhup, error, out, in_, process}
use conv_event.Memory.{ConnPool, acquire, new, store}
use conv_event.Multi.Reactor.{
  Reactor, return_conn, clear_at, clear_fd, adopt_at, adopt, ensure, run_conn, after_run,
  after_queueing, pass_on, serve_at, serve,
}
use conv_event.Multi.Work.{
  ReactorEvent, by_bits, work_event, ◌>>=◌, work_events, with_rest, close_queued, close_all, Polled,
  events_ready, timed_out, signalled, failed_poll, close_reactor, work,
}
use conv_event.Socket.State.{Fd, fd, no_fd}
use conv_event.Table.{Table, at, put, live, live-put, live-touch, fd_eq_refl, at-put}
use conv_event.ThreadPool.Pool
use conv_event.ThreadPool.Pool.{ThreadPool}

-- The pointers in the table are counted.
abbrev pub Counted : Reactor → Type 0
Counted r = live r.connects ≡ r.current_connect_count

-- There is a result, and it has the property.
abbrev pub Works : (Reactor → Type 0) → Option Reactor → Type 0
Works P none = ⊥
Works P (some r) = P r

return_conn-Counted :
    (pool : Option ConnPool) (p : ℕ) (r : Reactor) → Counted r → Counted (return_conn pool p r)
unfolding return_conn
return_conn-Counted none p r h = h
return_conn-Counted (some pool) p r h = h

clear_at-Works :
    (o : Option ℕ) (p : ℕ) (f : Fd) (r : Reactor)
    → at f r.connects ≡ o
    → o ≡ some p
    → Counted r
    → Works Counted (clear_at o f r)
unfolding clear_at
clear_at-Works none p f r e h v = cc
clear_at-Works (some q) p f r e h v =
    return_conn-Counted r.conn_pool q _ (ground (arith, live-put f none r.connects))

clear_fd-Works :
    (p : ℕ) (f : Fd) (r : Reactor)
    → at f r.connects ≡ some p
    → Counted r
    → Works Counted (clear_fd f r)
unfolding clear_fd
clear_fd-Works p f r e v = clear_at-Works (at f r.connects) p f r refl e v

-- A reactor that counts its connections and has one for the descriptor.
abbrev pub Has : Fd → Reactor → Type 0
Has f r = Counted r × ((p : ℕ) × (at f r.connects ≡ some p))

at-put_same : (f : Fd) (p : Option ℕ) (t : Table) → at f (put f p t) ≡ p
at-put_same f p t = ground (arith, at-put f f p t, fd_eq_refl f)

adopt_at-Has :
    (p : ℕ) (f : Fd) (addr : ℕ) (r : Reactor)
    → at f r.connects ≡ none
    → Counted r
    → Has f (adopt_at p f addr r)
unfolding adopt_at
adopt_at-Has p f addr r e v =
    (ground (arith, live-put f (some p) r.connects), (p, at-put_same f (some p) r.connects))

adopt-Has :
    (pool : Option ConnPool) (f : Fd) (addr : ℕ) (r : Reactor)
    → at f r.connects ≡ none
    → Counted r
    → Has f (adopt pool f addr r)
unfolding adopt
adopt-Has (some pool) f addr r e v =
    let (p, pool', memory) = acquire pool r.memory in
    adopt_at-Has p f addr (record r { memory = memory; conn_pool = some pool' }) e v
adopt-Has none f addr r e v =
    let (p, memory) = new r.memory in adopt_at-Has p f addr (record r { memory = memory }) e v

pub ensure-Has :
    (o : Option ℕ) (f : Fd) (addr : ℕ) (r : Reactor)
    → at f r.connects ≡ o
    → Counted r
    → Has f (ensure o f addr r)
unfolding ensure
ensure-Has (some p) f addr r e v = (v, (p, e))
ensure-Has none f addr r e v = adopt-Has r.conn_pool f addr r e v

after_run-Works :
    (always b : Bool) (p : ℕ) (f : Fd) (r : Reactor)
    → at f r.connects ≡ some p
    → Counted r
    → Works Counted (after_run always f (b, r))
unfolding after_run
after_run-Works true b p f r e v = clear_fd-Works p f r e v
after_run-Works false true p f r e v = v
after_run-Works false false p f r e v = clear_fd-Works p f r e v

after_queueing-Works :
    (b : Bool) (pool : ThreadPool) (p : ℕ) (f : Fd) (r : Reactor)
    → at f r.connects ≡ some p
    → Counted r
    → Works Counted (after_queueing f r (b, pool))
unfolding after_queueing
after_queueing-Works true pool p f r e v = v
after_queueing-Works false pool p f r e v =
    clear_fd-Works p f (record r { thread_pool = some pool }) e v

pass_on-Works :
    (pool : Option ThreadPool) (m : Methods) (always : Bool) (q p : ℕ) (f : Fd) (r : Reactor)
    → at f r.connects ≡ some p
    → Counted r
    → Works Counted (pass_on pool m always q f r)
unfolding pass_on run_conn
pass_on-Works (some pool) m always q p f r e v =
    let (b, pool') = Pool.add pool q in after_queueing-Works b pool' p f r e v
pass_on-Works none m always q p f r e v =
    let (b, c, shared) = process m (r.memory.conns q) r.shared in
    after_run-Works always b p f (record r { memory = store r.memory q c; shared = shared }) e v

serve_at-Works :
    (o : Option ℕ) (m : Methods) (status : Status) (always : Bool) (p : ℕ) (f : Fd) (r : Reactor)
    → at f r.connects ≡ o
    → o ≡ some p
    → Counted r
    → Works Counted (serve_at o m status always f r)
unfolding serve_at
serve_at-Works none m status always p f r e h v = cc
serve_at-Works (some q) m status always p f r e h v =
    pass_on-Works r.thread_pool m always q q f _ e v

serve-Works :
    (m : Methods) (status : Status) (always : Bool) (f : Fd) (r : Reactor)
    → Has f r
    → Works Counted (serve m status always f r)
unfolding serve
serve-Works m status always f r (v, (p, e)) =
    serve_at-Works (at f r.connects) m status always p f r refl e v

Works-if :
    (b : Bool) (x y : Option Reactor)
    → Works Counted x
    → Works Counted y
    → Works Counted (if b then x else y)
Works-if true x y hx hy = hx
Works-if false x y hx hy = hy

Works-bind :
    (o : Option Reactor) (k : Reactor → Option Reactor)
    → Works Counted o
    → ((r : Reactor) → Counted r → Works Counted (k r))
    → Works Counted (o >>= k)
Works-bind none k h g = absurd h
Works-bind (some r) k h g = g r h

pub by_bits-Works :
    (m : Methods) (e : ReactorEvent) (r : Reactor) → Has e.data_fd r → Works Counted (by_bits m e r)
unfolding by_bits
by_bits-Works m e r h = Works-if e.is_rdhup _ _ (serve-Works m rdhup true e.data_fd r h) (
    Works-if e.is_err _ _ (serve-Works m error true e.data_fd r h) (
      Works-if e.is_out _ _ (serve-Works m out false e.data_fd r h) (
        Works-if e.is_in _ _ (serve-Works m in_ false e.data_fd r h)
          (clear_fd-Works (h.1.0) e.data_fd r (h.1.1) h.0))))

work_events-Works :
    (m : Methods) (events : List ReactorEvent) (r : Reactor)
    → Counted r
    → Works Counted (work_events m events r)
unfolding work_events work_event
work_events-Works m [] r v = v
work_events-Works m (e ∷ events) r v =
    Works-bind (work_event m e r) (work_events m events)
      (by_bits-Works m e _ (ensure-Has (at e.data_fd r.connects) e.data_fd e.addr r refl v))
      (work_events-Works m events)

pub close_queued-Works :
    (f : Fd) (o : Option ℕ) (r : Reactor)
    → at f r.connects ≡ o
    → Counted r
    → Works Counted (close_queued f o r)
unfolding close_queued
close_queued-Works no_fd o r e v = v
close_queued-Works (fd n) none r e v = live-touch (fd n) r.connects ∙ v
close_queued-Works (fd n) (some p) r e v = clear_fd-Works p (fd n) r e v

close_all-Works : (q : List Fd) (r : Reactor) → Counted r → Works Counted (close_all q r)
unfolding close_all
close_all-Works [] r v = v
close_all-Works (f ∷ rest) r v =
    Works-bind (close_queued f (at f r.connects) (with_rest r rest)) (close_all rest)
      (close_queued-Works f (at f r.connects) (with_rest r rest) refl v) (close_all-Works rest)

-- If the count of connections is the number of pointers in the table at the start, then the loop reads
-- no null pointer, whatever epoll_wait answers, whatever the handlers do and whatever the close queue
-- holds at first: it ends with a state, in which the count is again the number of pointers.
pub work-Works :
    (m : Methods) (answers : List Polled) (r : Reactor)
    → Counted r
    → Works Counted (work m answers r)
unfolding work close_reactor
work-Works m [] r v = v
work-Works m (events_ready events ∷ answers) r v =
    Works-bind (close_all r.shared.to_close.items r) _ (close_all-Works r.shared.to_close.items r v)
      (λ r' v'.
        Works-bind (work_events m events r') (work m answers) (work_events-Works m events r' v')
          (work-Works m answers))
work-Works m (timed_out ∷ answers) r v =
    Works-bind (close_all r.shared.to_close.items r) _ (close_all-Works r.shared.to_close.items r v)
      (work-Works m answers)
work-Works m (signalled ∷ answers) r v =
    Works-bind (close_all r.shared.to_close.items r) _ (close_all-Works r.shared.to_close.items r v)
      (work-Works m answers)
work-Works m (failed_poll ∷ answers) r v =
    Works-bind (close_all r.shared.to_close.items r) _ (close_all-Works r.shared.to_close.items r v)
      (λ r' v'. v')
