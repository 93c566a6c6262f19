-- ===== src/ThreadPool/Passes.antt =====
-- A worker of core/include/threadpool.h in one pass through `run`, on the connections of a loop that other turns of
-- its own thread and of the workers come before and after.
use conv_event.Base.{ℕ, zero, suc, Bool, true, false, Option, none, some, ltb, count}
use conv_event.Conn.State.{Conn, Shared, Methods, process}
use conv_event.Memory.{Memory, store}
use conv_event.Queue
use conv_event.Queue.{LockQueue}
use conv_event.ThreadPool.Pool.{ThreadPool}

-- What a pass changes.
pub record Passed : Type 0 where
  pub thread_pool : Option ThreadPool
  pub memory : Memory
  pub shared : Shared

-- `con->process()`, whose result `run` ignores. The use of a deleted connection is `none`.
abbrev pub process_unless : Bool → Methods → ℕ → Passed → Option Passed
process_unless true m p s = none
process_unless false m p s =
    let (b, c, shared) = process m (s.memory.conns p) s.shared in
    some (record s { memory = store s.memory p c; shared = shared })

unfoldable pub process_task : Methods → ℕ → Passed → Option Passed
process_task m p s = process_unless (ltb 0 (count p s.memory.deleted)) m p s

unfoldable pub take_task : Methods → ℕ × Bool × LockQueue ℕ → ThreadPool → Passed → Option Passed
unfolding process_task
take_task m (p, false, rest) pool s = some (record s { thread_pool = some pool })
take_task m (p, true, rest) pool s =
    process_task m p (record s { thread_pool = some (record pool { process_pool = rest }) })

-- `sem.acquire()` waits where the semaphore is 0.
unfoldable pub acquire_task : Methods → ℕ → ThreadPool → Passed → Option Passed
unfolding take_task
acquire_task m zero pool s = some s
acquire_task m (suc k) pool s =
    take_task m (Queue.pop 0 pool.process_pool) (record pool { sem = k }) s

unfoldable pub worker_pass : Methods → Option ThreadPool → Passed → Option Passed
unfolding acquire_task
worker_pass m none s = some s
worker_pass m (some pool) s = acquire_task m pool.sem pool s

-- What holds after a pass, if it uses no deleted connection.
abbrev pub AfterPass : (Passed → Type 0) → Option Passed → Type 0
AfterPass P none = Unit {0}
AfterPass P (some s) = P s

module _ {P : Passed → Type 0}
    (by_process : (p : ℕ) (c : Conn) (shared : Shared) (s : Passed)
      → P s
      → P (record s { memory = store s.memory p c; shared = shared }))
    (by_pool : (pool : ThreadPool) (s : Passed)
      → P s
      → P (record s { thread_pool = some pool })) where
  process_unless-AfterPass :
      (b : Bool) (m : Methods) (p : ℕ) (s : Passed) → P s → AfterPass P (process_unless b m p s)
  process_unless-AfterPass true m p s v = tt
  process_unless-AfterPass false m p s v =
      let (b, c, shared) = process m (s.memory.conns p) s.shared in by_process p c shared s v

  take_task-AfterPass :
      (m : Methods) (p : ℕ) (found : Bool) (rest : LockQueue ℕ) (pool : ThreadPool) (s : Passed)
      → P s
      → AfterPass P (take_task m (p, found, rest) pool s)
  unfolding take_task process_task
  take_task-AfterPass m p false rest pool s v = by_pool pool s v
  take_task-AfterPass m p true rest pool s v =
      process_unless-AfterPass (ltb 0 (count p s.memory.deleted)) m p _ (by_pool _ s v)

  acquire_task-AfterPass :
      (m : Methods) (sem : ℕ) (pool : ThreadPool) (s : Passed)
      → P s
      → AfterPass P (acquire_task m sem pool s)
  unfolding acquire_task
  acquire_task-AfterPass m zero pool s v = v
  acquire_task-AfterPass m (suc k) pool s v =
      let (p, found, rest) = Queue.pop 0 pool.process_pool in
      take_task-AfterPass m p found rest (record pool { sem = k }) s v

  pub worker_pass-AfterPass :
      (m : Methods) (pool : Option ThreadPool) (s : Passed)
      → P s
      → AfterPass P (worker_pass m pool s)
  unfolding worker_pass
  worker_pass-AfterPass m none s v = v
  worker_pass-AfterPass m (some pool) s v = acquire_task-AfterPass m pool.sem pool s v
