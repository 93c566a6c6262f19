-- ===== src/ThreadPool.antt =====
-- core/include/threadpool.h: tasks go through a queue to worker threads, which a semaphore wakes.
-- Pool holds the members and `add`, Workers the threads as single steps, Passes a worker's pass
-- on the connections of a loop; Wakeups proves.
pub mod Pool
pub mod Workers
pub mod Passes
pub mod Wakeups
mod Examples
