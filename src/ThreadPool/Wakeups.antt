-- ===== src/ThreadPool/Wakeups.antt =====
-- No wakeup of a worker of core/include/threadpool.h is lost, and no task.
use conv_event.Base.{
  ℕ, zero, suc, ◌+◌, ◌≤◌, ◌<◌, ◌≡◌, refl, sym, ap, ◌∙◌, ◌⊎◌, inl, inr, true, false, List, [], ◌∷◌,
  ◌++◌, append_assoc, arith, length, length-append, leb, Bool-cases,
}
use conv_event.Queue
use conv_event.Queue.{LockQueue}
use conv_event.ThreadPool.Pool.{ThreadPool, add}
use conv_event.ThreadPool.Workers.{
  Worker, at_test, waiting, ready, found, running, left, Adder, outside, admitted, pushed, System,
  Step, admit, refuse, push, post, enter, leave, acquire, find_none, find_some, take, take_none,
  finish, stop_all, Reach, here, next, all_at_test, initial,
}

-- A worker that has a permit, and has not taken a task for it.
abbrev pub holds : Worker → ℕ
holds ready = 1
holds found = 1
holds _ = 0

abbrev pub holders : List Worker → ℕ
holders [] = 0
holders (w ∷ ws) = holds w + holders ws

abbrev pub is_pushed : Adder → ℕ
is_pushed pushed = 1
is_pushed _ = 0

abbrev pub is_admitted : Adder → ℕ
is_admitted (admitted p) = 1
is_admitted _ = 0

-- Each waiting task has its permit: in the semaphore, with a worker, or about to be given; no task is
-- lost or reordered; the queue stays within its limit.
pub record Inv (limit : ℕ) (s : System) : Type 0 where
  pub permits :
      length s.pool.process_pool.items ≡ s.pool.sem + holders s.workers + is_pushed s.adder
  pub order : s.accepted ≡ s.started ++ s.pool.process_pool.items
  pub bounded : length s.pool.process_pool.items + is_admitted s.adder ≤ limit
  pub capped : s.pool.max_process_count ≡ limit

holders-append :
    (before after : List Worker) (w : Worker)
    → holders (before ++ (w ∷ after)) ≡ holders before + holds w + holders after
holders-append [] after w = omega arith
holders-append (v ∷ before) after w = omega (arith, holders-append before after w)

module _ (before after : List Worker) where
  swapped :
      (v w : Worker) (ws : List Worker)
      → ws ≡ before ++ (v ∷ after)
      → holders (before ++ (w ∷ after)) + holds v ≡ holders ws + holds w
  swapped v w ws e =
      omega (arith, ap holders e, holders-append before after v, holders-append before after w)

empty-true :
    (q : LockQueue ℕ) (items : List ℕ) → q.items ≡ items → Queue.empty q ≡ true → items ≡ []
unfolding Queue.empty
empty-true q [] e h = refl
empty-true q (p ∷ items) e h = ground arith

pop-true :
    (q rest : LockQueue ℕ) (p : ℕ) (items : List ℕ)
    → q.items ≡ items
    → Queue.pop 0 q ≡ (p, true, rest)
    → items ≡ p ∷ rest.items
unfolding Queue.pop
pop-true q rest p [] e h = ground arith
pop-true q rest p (x ∷ items) e h = ground arith

pop-false :
    (q rest : LockQueue ℕ) (items : List ℕ)
    → q.items ≡ items
    → Queue.pop 0 q ≡ (0, false, rest)
    → items ≡ []
unfolding Queue.pop
pop-false q rest [] e h = refl
pop-false q rest (x ∷ items) e h = ground arith

-- A worker with a permit has a task to take.
held_task :
    {limit : ℕ} (s : System) (before after : List Worker) (w : Worker)
    → s.workers ≡ before ++ (w ∷ after)
    → holds w ≡ 1
    → Inv limit s
    → 0 < length s.pool.process_pool.items
held_task s before after w e h v =
    omega (arith, v.permits, ap holders e, holders-append before after w)

Step-Inv : {limit : ℕ} {s t : System} → Step s t → Inv limit s → Inv limit t
unfolding Queue.size Queue.push Queue.empty Queue.pop
Step-Inv {s} (admit p a h e) v = rw e (ground arith)
Step-Inv {s} (refuse p a h e) v = rw e v
Step-Inv {s} (push p a e) v = rw e (
    ground (
      arith,
      length-append s.pool.process_pool.items (p ∷ []),
      append_assoc s.started s.pool.process_pool.items (p ∷ []),
    ))
Step-Inv {s} (post a e) v = rw e (ground arith)
Step-Inv {s} (enter b c w h e) v = rw e (ground (arith, swapped b c at_test waiting s.workers w))
Step-Inv {s} (leave b c w h e) v = rw e (ground (arith, swapped b c at_test left s.workers w))
Step-Inv {s} (acquire b c k w h e) v = rw e (ground (arith, swapped b c waiting ready s.workers w))
Step-Inv {s} (find_none b c w h e) v =
    let gone = empty-true s.pool.process_pool s.pool.process_pool.items refl h in
    absurd (omega (arith, ap length gone, held_task s b c ready w refl v))
Step-Inv {s} (find_some b c w h e) v = rw e (ground (arith, swapped b c ready found s.workers w))
Step-Inv {s} (take b c p rest w h e) v =
    let split = pop-true s.pool.process_pool rest p s.pool.process_pool.items refl h in
    let long = ap length split in
    let moved = swapped b c found (running p) s.workers w in
    rw e (record {
      permits = omega (arith, v.permits);
      order =
          v.order ∙ ap (◌++◌ s.started) split ∙ sym (append_assoc s.started (p ∷ []) rest.items);
      bounded = omega (arith, v.bounded);
      capped = v.capped;
    })
Step-Inv {s} (take_none b c rest w h e) v =
    let gone = pop-false s.pool.process_pool rest s.pool.process_pool.items refl h in
    absurd (omega (arith, ap length gone, held_task s b c found w refl v))
Step-Inv {s} (finish b c p w e) v =
    rw e (ground (arith, swapped b c (running p) at_test s.workers w))
Step-Inv {s} (stop_all e) v = rw e (ground arith)

Reach-Inv : {limit : ℕ} {s t : System} → Reach s t → Inv limit s → Inv limit t
Reach-Inv here v = v
Reach-Inv (next r st) v = Step-Inv st (Reach-Inv r v)

holders-all_at_test : (n : ℕ) → holders (all_at_test n) ≡ 0
holders-all_at_test zero = omega arith
holders-all_at_test (suc n) = omega (arith, holders-all_at_test n)

initial-Inv : (n limit : ℕ) → Inv limit (initial n limit)
initial-Inv n limit = record {
  permits = omega (arith, holders-all_at_test n);
  order = refl;
  bounded = omega arith;
  capped = refl;
}

-- In every interleaving of the adding thread and any number of workers, the tasks accepted are those
-- whose processing has begun, then those still queued, in the order in which they were added: no task
-- is lost, run twice or overtaken by the queue. The queue stays within max_process_count.
pub accepted-started :
    (n limit : ℕ) (s : System)
    → Reach (initial n limit) s
    → (s.accepted ≡ s.started ++ s.pool.process_pool.items)
      × (length s.pool.process_pool.items ≤ limit)
accepted-started n limit s r =
    let v = Reach-Inv r (initial-Inv n limit) in (v.order, omega (arith, v.bounded))

pop_some :
    (q : LockQueue ℕ) (items : List ℕ)
    → q.items ≡ items
    → 0 < length items
    → (p : ℕ) × (rest : LockQueue ℕ) × (Queue.pop 0 q ≡ (p, true, rest)) × (Queue.empty q ≡ false)
unfolding Queue.pop Queue.empty
pop_some q [] e h = absurd (omega arith)
pop_some q (p ∷ items) e h = (p, record { items = items }, ground arith, ground arith)

-- In every interleaving, a worker that has come through the semaphore finds a task: neither the test
-- for an empty queue nor that for a null task ever sends it back.
pub ready_finds_task :
    (n limit : ℕ) (s : System) (before after : List Worker) (w : Worker)
    → Reach (initial n limit) s
    → s.workers ≡ before ++ (w ∷ after)
    → (w ≡ ready) ⊎ (w ≡ found)
    → (p : ℕ) × (rest : LockQueue ℕ) × (Queue.pop 0 s.pool.process_pool ≡ (p, true, rest))
      × (Queue.empty s.pool.process_pool ≡ false)
ready_finds_task n limit s before after w r e h =
    let v = Reach-Inv r (initial-Inv n limit) in
    let one : holds w ≡ 1 = ground arith in
    pop_some s.pool.process_pool s.pool.process_pool.items refl (held_task s before after w e one v)

-- `add` is what its steps come to when no other thread moves between them: it refuses exactly when the
-- queue is full, and then changes nothing; else it reaches the state with the task queued and a permit.
pub add-Reach :
    (s : System) (p : ℕ)
    → s.adder ≡ outside
    → ((add s.pool p ≡ (false, s.pool))
        × (s.pool.max_process_count ≤ length s.pool.process_pool.items))
      ⊎ ((pool : ThreadPool) × (add s.pool p ≡ (true, pool))
          × (length s.pool.process_pool.items < s.pool.max_process_count)
          × Reach s (record s { adder = outside; pool = pool; accepted = s.accepted ++ (p ∷ []) }))
unfolding add Queue.size
add-Reach s p a =
    elim (Bool-cases (leb s.pool.max_process_count (length s.pool.process_pool.items))) [
      | inl full ↦ inl (rw full, ground arith)
      | inr room ↦
          let open_ : length s.pool.process_pool.items < s.pool.max_process_count = ground arith in
          inr (
            (add s.pool p).1,
            rw room,
            open_,
            rw room (
                next (next (next here (admit p a open_ refl)) (push p refl refl)) (post refl refl)),
          )
    ]
