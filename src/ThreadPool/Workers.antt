-- ===== src/ThreadPool/Workers.antt =====
-- The threads of core/include/threadpool.h as interleaved steps: one thread that adds tasks, the
-- thread of the loop that owns the pool, and any number of workers in `run`.
use conv_event.Base.{ℕ, zero, suc, ◌≡◌, ◌≤◌, ◌<◌, Bool, true, false, List, [], ◌∷◌, ◌++◌}
use conv_event.Queue
use conv_event.Queue.{LockQueue}
use conv_event.ThreadPool.Pool.{ThreadPool, release}

-- Where a worker stands in `run`: at the loop's test, in `sem.acquire()`, past it, past the test for
-- an empty queue, in `con->process()`, or out of the loop.
pub data Worker : Type 0 where
  at_test waiting ready found : Worker
  running : ℕ → Worker
  left : Worker

-- Where the adding thread stands in `add`: outside, past the test of the size, past the push.
pub data Adder : Type 0 where
  outside : Adder
  admitted : ℕ → Adder
  pushed : Adder

-- `accepted` and `started` log the tasks pushed, and those whose processing has begun.
pub record System : Type 0 where
  pub pool : ThreadPool
  pub stop : Bool
  pub workers : List Worker
  pub adder : Adder
  pub accepted : List ℕ
  pub started : List ℕ

abbrev pub with_tasks : ThreadPool → LockQueue ℕ → ThreadPool
with_tasks pool q = record pool { process_pool = q }

pub data Step (s t : System) : Type 0 where
  admit :
      (p : ℕ)
      → s.adder ≡ outside
      → Queue.size s.pool.process_pool < s.pool.max_process_count
      → t ≡ record s { adder = admitted p }
      → Step s t
  refuse :
      (p : ℕ)
      → s.adder ≡ outside
      → s.pool.max_process_count ≤ Queue.size s.pool.process_pool
      → t ≡ s
      → Step s t
  push :
      (p : ℕ)
      → s.adder ≡ admitted p
      → t ≡ record s {
        adder = pushed;
        pool = with_tasks s.pool (Queue.push s.pool.process_pool p);
        accepted = s.accepted ++ (p ∷ []);
      }
      → Step s t
  post : s.adder ≡ pushed → t ≡ record s { adder = outside; pool = release s.pool } → Step s t
  enter :
      (before after : List Worker)
      → s.workers ≡ before ++ (at_test ∷ after)
      → s.stop ≡ false
      → t ≡ record s { workers = before ++ (waiting ∷ after) }
      → Step s t
  leave :
      (before after : List Worker)
      → s.workers ≡ before ++ (at_test ∷ after)
      → s.stop ≡ true
      → t ≡ record s { workers = before ++ (left ∷ after) }
      → Step s t
  acquire :
      (before after : List Worker) (k : ℕ)
      → s.workers ≡ before ++ (waiting ∷ after)
      → s.pool.sem ≡ suc k
      → t ≡ record s { workers = before ++ (ready ∷ after); pool = record s.pool { sem = k } }
      → Step s t
  find_none :
      (before after : List Worker)
      → s.workers ≡ before ++ (ready ∷ after)
      → Queue.empty s.pool.process_pool ≡ true
      → t ≡ record s { workers = before ++ (at_test ∷ after) }
      → Step s t
  find_some :
      (before after : List Worker)
      → s.workers ≡ before ++ (ready ∷ after)
      → Queue.empty s.pool.process_pool ≡ false
      → t ≡ record s { workers = before ++ (found ∷ after) }
      → Step s t
  take :
      (before after : List Worker) (p : ℕ) (rest : LockQueue ℕ)
      → s.workers ≡ before ++ (found ∷ after)
      → Queue.pop 0 s.pool.process_pool ≡ (p, true, rest)
      → t ≡ record s {
        workers = before ++ (running p ∷ after);
        pool = with_tasks s.pool rest;
        started = s.started ++ (p ∷ []);
      }
      → Step s t
  take_none :
      (before after : List Worker) (rest : LockQueue ℕ)
      → s.workers ≡ before ++ (found ∷ after)
      → Queue.pop 0 s.pool.process_pool ≡ (0, false, rest)
      → t ≡ record s { workers = before ++ (at_test ∷ after); pool = with_tasks s.pool rest }
      → Step s t
  finish :
      (before after : List Worker) (p : ℕ)
      → s.workers ≡ before ++ (running p ∷ after)
      → t ≡ record s { workers = before ++ (at_test ∷ after) }
      → Step s t
  stop_all : t ≡ record s { stop = true } → Step s t

-- Any interleaving of such steps.
pub data Reach (s : System) : System → Type 0 where
  here : Reach s s
  next : {t u : System} → Reach s t → Step t u → Reach s u

abbrev pub all_at_test : ℕ → List Worker
all_at_test zero = []
all_at_test (suc n) = at_test ∷ all_at_test n

-- A new pool with `n` workers.
abbrev pub initial : ℕ → ℕ → System
initial n limit = record {
  pool = record { max_process_count = limit; process_pool = record { items = [] }; sem = 0 };
  stop = false;
  workers = all_at_test n;
  adder = outside;
  accepted = [];
  started = [];
}
