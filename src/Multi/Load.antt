-- ===== src/Multi/Load.antt =====
-- The tables of the reactors (core/include/reactor.h), by whose sizes the acceptor measures their load.
use conv_event.Base.{
  ℕ, ◌≤◌, Bool, true, false, List, [], ◌∷◌, Option, none, some, arith, length, if◌then◌else◌,
}
use conv_event.Conn.State.{process, Methods, Status, rdhup, error, out, in_}
use conv_event.Memory.{ConnPool, acquire, new, store}
use conv_event.Multi.Count.{Works, Counted, work-Works}
use conv_event.Multi.Reactor.{
  Reactor, return_conn, clear_at, clear_fd, adopt_at, adopt, ensure, run_conn, after_run,
  after_queueing, pass_on, serve_at, serve,
}
use conv_event.Multi.Work.{
  ReactorEvent, by_bits, work_event, work_events, with_rest, close_queued, close_all, Polled,
  events_ready, timed_out, signalled, failed_poll, close_reactor, work, ◌>>=◌,
}
use conv_event.Socket.State.{Fd, fd, no_fd}
use conv_event.Table.{Table, at, put, touch}
use conv_event.ThreadPool.Pool
use conv_event.ThreadPool.Pool.{ThreadPool}

-- The table has not become smaller; a fault is left out.
Grows : ℕ → Option Reactor → Type 0
Grows n none = Unit {0}
Grows n (some r) = n ≤ length r.connects

length-put : (f : Fd) (p : Option ℕ) (t : Table) → length t ≤ length (put f p t)
unfolding put
length-put f p [] = omega arith
length-put f p ((g, q) ∷ t) = ground (arith, length-put f p t)

length-touch : (f : Fd) (t : Table) → length t ≤ length (touch f t)
unfolding touch
length-touch f [] = omega arith
length-touch f ((g, q) ∷ t) = ground (arith, length-touch f t)

return_conn-Grows :
    (n : ℕ) (pool : Option ConnPool) (p : ℕ) (r : Reactor)
    → n ≤ length r.connects
    → n ≤ length (return_conn pool p r).connects
unfolding return_conn
return_conn-Grows n none p r h = h
return_conn-Grows n (some pool) p r h = h

clear_at-Grows :
    (n : ℕ) (o : Option ℕ) (f : Fd) (r : Reactor) → n ≤ length r.connects → Grows n (clear_at o f r)
unfolding clear_at Grows
clear_at-Grows n none f r h = tt
clear_at-Grows n (some p) f r h =
    return_conn-Grows n r.conn_pool p _ (omega (arith, length-put f none r.connects))

clear_fd-Grows : (n : ℕ) (f : Fd) (r : Reactor) → n ≤ length r.connects → Grows n (clear_fd f r)
unfolding clear_fd
clear_fd-Grows n f r h = clear_at-Grows n (at f r.connects) f r h

after_run-Grows :
    (n : ℕ) (always b : Bool) (f : Fd) (r : Reactor)
    → n ≤ length r.connects
    → Grows n (after_run always f (b, r))
unfolding after_run Grows
after_run-Grows n true b f r h = clear_fd-Grows n f r h
after_run-Grows n false true f r h = h
after_run-Grows n false false f r h = clear_fd-Grows n f r h

after_queueing-Grows :
    (n : ℕ) (b : Bool) (pool : ThreadPool) (f : Fd) (r : Reactor)
    → n ≤ length r.connects
    → Grows n (after_queueing f r (b, pool))
unfolding after_queueing Grows
after_queueing-Grows n true pool f r h = h
after_queueing-Grows n false pool f r h =
    clear_fd-Grows n f (record r { thread_pool = some pool }) h

pass_on-Grows :
    (n : ℕ) (pool : Option ThreadPool) (m : Methods) (always : Bool) (p : ℕ) (f : Fd) (r : Reactor)
    → n ≤ length r.connects
    → Grows n (pass_on pool m always p f r)
unfolding pass_on run_conn
pass_on-Grows n (some pool) m always p f r h =
    let (b, pool') = Pool.add pool p in after_queueing-Grows n b pool' f r h
pass_on-Grows n none m always p f r h =
    let (b, c, shared) = process m (r.memory.conns p) r.shared in
    after_run-Grows n always b f (record r { memory = store r.memory p c; shared = shared }) h

serve-Grows :
    (n : ℕ) (o : Option ℕ) (m : Methods) (status : Status) (always : Bool) (f : Fd) (r : Reactor)
    → n ≤ length r.connects
    → Grows n (serve_at o m status always f r)
unfolding serve_at Grows
serve-Grows n none m status always f r h = tt
serve-Grows n (some p) m status always f r h = pass_on-Grows n r.thread_pool m always p f _ h

if-Grows :
    (n : ℕ) (b : Bool) (x y : Option Reactor) → Grows n x → Grows n y → Grows n (if b then x else y)
if-Grows n true x y h h' = h
if-Grows n false x y h h' = h'

bind-Grows :
    (n : ℕ) (o : Option Reactor) (k : Reactor → Option Reactor)
    → Grows n o
    → ((r : Reactor) → n ≤ length r.connects → Grows n (k r))
    → Grows n (o >>= k)
unfolding Grows
bind-Grows n none k h g = tt
bind-Grows n (some r) k h g = g r h

by_bits-Grows :
    (n : ℕ) (m : Methods) (e : ReactorEvent) (r : Reactor)
    → n ≤ length r.connects
    → Grows n (by_bits m e r)
unfolding by_bits serve
by_bits-Grows n m e r h =
    let kept = λ (status : Status) (always : Bool).
      serve-Grows n (at e.data_fd r.connects) m status always e.data_fd r h in
    if-Grows n e.is_rdhup _ _ (kept rdhup true) (
      if-Grows n e.is_err _ _ (kept error true) (
        if-Grows n e.is_out _ _ (kept out false)
          (if-Grows n e.is_in _ _ (kept in_ false) (clear_fd-Grows n e.data_fd r h))))

adopt-Grows :
    (n : ℕ) (pool : Option ConnPool) (f : Fd) (addr : ℕ) (r : Reactor)
    → n ≤ length r.connects
    → n ≤ length (adopt pool f addr r).connects
unfolding adopt adopt_at
adopt-Grows n none f addr r h =
    let (p, memory) = new r.memory in omega (arith, length-put f (some p) r.connects)
adopt-Grows n (some pool) f addr r h =
    let (p, pool', memory) = acquire pool r.memory in
    omega (arith, length-put f (some p) r.connects)

ensure-Grows :
    (n : ℕ) (o : Option ℕ) (f : Fd) (addr : ℕ) (r : Reactor)
    → n ≤ length r.connects
    → n ≤ length (ensure o f addr r).connects
unfolding ensure
ensure-Grows n none f addr r h = adopt-Grows n r.conn_pool f addr r h
ensure-Grows n (some p) f addr r h = h

work_events-Grows :
    (n : ℕ) (m : Methods) (events : List ReactorEvent) (r : Reactor)
    → n ≤ length r.connects
    → Grows n (work_events m events r)
unfolding work_events work_event Grows
work_events-Grows n m [] r h = h
work_events-Grows n m (e ∷ events) r h =
    bind-Grows n (work_event m e r) (work_events m events)
      (by_bits-Grows n m e _ (ensure-Grows n (at e.data_fd r.connects) e.data_fd e.addr r h))
      (work_events-Grows n m events)

close_queued-Grows :
    (n : ℕ) (f : Fd) (o : Option ℕ) (r : Reactor)
    → n ≤ length r.connects
    → Grows n (close_queued f o r)
unfolding close_queued Grows
close_queued-Grows n no_fd o r h = h
close_queued-Grows n (fd k) none r h = omega (arith, length-touch (fd k) r.connects)
close_queued-Grows n (fd k) (some p) r h = clear_fd-Grows n (fd k) r h

close_all-Grows :
    (n : ℕ) (queue : List Fd) (r : Reactor) → n ≤ length r.connects → Grows n (close_all queue r)
unfolding close_all Grows
close_all-Grows n [] r h = h
close_all-Grows n (f ∷ rest) r h =
    bind-Grows n (close_queued f (at f r.connects) (with_rest r rest)) (close_all rest)
      (close_queued-Grows n f (at f r.connects) (with_rest r rest) h) (close_all-Grows n rest)

close_reactor-Grows :
    (n : ℕ) (r : Reactor) → n ≤ length r.connects → n ≤ length (close_reactor r).connects
unfolding close_reactor
close_reactor-Grows n r h = h

work-Grows :
    (n : ℕ) (m : Methods) (answers : List Polled) (r : Reactor)
    → n ≤ length r.connects
    → Grows n (work m answers r)
unfolding work Grows
work-Grows n m [] r h = close_reactor-Grows n r h
work-Grows n m (events_ready events ∷ answers) r h =
    bind-Grows n (close_all r.shared.to_close.items r) _
      (close_all-Grows n r.shared.to_close.items r h)
      (λ r' h'.
        bind-Grows n (work_events m events r') (work m answers) (work_events-Grows n m events r' h')
          (work-Grows n m answers))
work-Grows n m (timed_out ∷ answers) r h =
    bind-Grows n (close_all r.shared.to_close.items r) (work m answers)
      (close_all-Grows n r.shared.to_close.items r h) (work-Grows n m answers)
work-Grows n m (signalled ∷ answers) r h =
    bind-Grows n (close_all r.shared.to_close.items r) (work m answers)
      (close_all-Grows n r.shared.to_close.items r h) (work-Grows n m answers)
work-Grows n m (failed_poll ∷ answers) r h =
    bind-Grows n (close_all r.shared.to_close.items r) (λ r'. some (close_reactor r'))
      (close_all-Grows n r.shared.to_close.items r h) (λ r' h'. close_reactor-Grows n r' h')

both :
    (n : ℕ) (o : Option Reactor)
    → Works Counted o
    → Grows n o
    → Works (λ r. n ≤ length r.connects) o
unfolding Grows
both n none v h = absurd v
both n (some r) v h = h

-- The table of a reactor never gets shorter, however many connections are closed; its size is what the
-- acceptor compares. The reactor counts its connections rightly at first, and its loop ends with a state.
pub work_never_shrinks :
    (m : Methods) (answers : List Polled) (r : Reactor)
    → Counted r
    → Works (λ r'. length r.connects ≤ length r'.connects) (work m answers r)
work_never_shrinks m answers r v =
    both (length r.connects) (work m answers r) (work-Works m answers r v)
      (work-Grows (length r.connects) m answers r (omega arith))
