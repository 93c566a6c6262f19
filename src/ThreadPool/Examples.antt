-- ===== src/ThreadPool/Examples.antt =====
-- Interleavings of the thread pool (core/include/threadpool.h) at concrete inputs.
use conv_event.Base.{ℕ, ◌≡◌, ◌≤◌, ◌<◌, ◌⊎◌, refl, inl, true, false, [], ◌∷◌, ◌++◌, arith, length}
use conv_event.Queue
use conv_event.Queue.{LockQueue}
use conv_event.ThreadPool.Pool.{ThreadPool, add}
use conv_event.ThreadPool.Workers.{
  at_test, ready, outside, System, Reach, here, next, admit, push, post, enter, acquire, initial,
}
use conv_event.ThreadPool.Wakeups.{accepted-started, ready_finds_task, add-Reach}

-- Two workers; a task is added, and the second worker has its permit.
abbrev woken : System
woken = record (initial 2 8) {
  pool = record { max_process_count = 8; process_pool = record { items = 40 ∷ [] }; sem = 0 };
  workers = at_test ∷ ready ∷ [];
  accepted = 40 ∷ [];
}

woken-Reach : Reach (initial 2 8) woken
unfolding Queue.size Queue.push
woken-Reach =
    next
      (next
        (next
          (next (next here (enter (at_test ∷ []) [] refl refl refl))
            (admit 40 refl (omega arith) refl))
          (push 40 refl refl))
        (post refl refl))
      (acquire (at_test ∷ []) [] 0 refl refl refl)

accepted-started_example :
    (woken.accepted ≡ woken.started ++ woken.pool.process_pool.items)
    × (length woken.pool.process_pool.items ≤ 8)
accepted-started_example = accepted-started 2 8 woken woken-Reach

ready_finds_task_example :
    (p : ℕ) × (rest : LockQueue ℕ) × (Queue.pop 0 woken.pool.process_pool ≡ (p, true, rest))
    × (Queue.empty woken.pool.process_pool ≡ false)
ready_finds_task_example =
    ready_finds_task 2 8 woken (at_test ∷ []) [] ready woken-Reach refl (inl refl)

add-Reach_example :
    ((add woken.pool 41 ≡ (false, woken.pool)) × (8 ≤ length woken.pool.process_pool.items))
    ⊎ ((pool : ThreadPool) × (add woken.pool 41 ≡ (true, pool))
        × (length woken.pool.process_pool.items < 8)
        × Reach woken (record woken { adder = outside; pool = pool; accepted = 40 ∷ 41 ∷ [] }))
add-Reach_example = add-Reach woken 41 refl
