-- ===== src/ThreadPool/Pool.antt =====
-- The members of threadpool and of counting_semaphore (core/include/threadpool.h), and `add`.
use conv_event.Base.{
  zero, Option, none, some, ℤ, pos, negsuc, ℕ, suc, Bool, true, false, leb, if◌then◌else◌,
}
use conv_event.Queue
use conv_event.Queue.{LockQueue}

-- The tasks are pointers to connections.
pub record ThreadPool : Type 0 where
  pub max_process_count : ℕ
  pub process_pool : LockQueue ℕ
  pub sem : ℕ

-- `release` of the semaphore.
abbrev pub release : ThreadPool → ThreadPool
release pool = record pool { sem = suc pool.sem }

-- The caller learns whether the task was taken.
unfoldable pub add : ThreadPool → ℕ → Bool × ThreadPool
add pool t =
    if leb pool.max_process_count (Queue.size pool.process_pool)
    then (false, pool)
    else (true, release (record pool { process_pool = Queue.push pool.process_pool t }))

-- The constructor, which ends the program where a count is not positive. The threads are in
-- ThreadPool.Workers.
unfoldable pub new_threadpool : ℤ → ℤ → Option ThreadPool
new_threadpool (pos (suc thread_count)) (pos (suc max_process_count)) =
    some (record {
      max_process_count = suc max_process_count;
      process_pool = Queue.new_queue;
      sem = 0;
    })
new_threadpool (pos (suc thread_count)) _ = none
new_threadpool (pos zero) _ = none
new_threadpool (negsuc n) _ = none
