-- ===== src/Single/Ownership.antt =====
-- Who owns a connection of core/conv_single.h: the table, the pool (core/include/conn.h), or nobody any more.
use conv_event.Base.{
  count, count-append, zero, ℕ, suc, ◌+◌, ◌≡◌, refl, sym, ap, ◌∙◌, inl, inr, List, [], ◌∷◌, Option,
  none, some, arith, ltb, leb, ◌==◌, if◌then◌else◌, Bool-cases,
}
use conv_event.Conn.State.{Methods}
use conv_event.Queue.{LockQueue}
use conv_event.Memory.{fill, new_pool, Memory, ConnPool, acquire, take_or_new, release, new}
use conv_event.Queue
use conv_event.Single.Invariants.{After, Preserved, rounds-After}
use conv_event.Single.Loop.{Wait, rounds}
use conv_event.Single.Server.{
  Server, give_back, remove_at, remove_fd, enter, refuse, accept_pooled, accept_conn,
}
use conv_event.Socket.State.{Fd}
use conv_event.Table.{Table, at, put, touch, erase}

-- How often a pointer stands under an entry, in a table and in a pool.
abbrev pub count_at : ℕ → Option ℕ → ℕ
count_at p none = 0
count_at p (some q) = if p == q then 1 else 0

abbrev pub count_table : ℕ → Table → ℕ
count_table p [] = 0
count_table p ((f, q) ∷ t) = count_at p q + count_table p t

abbrev pub count_pool : ℕ → Option ConnPool → ℕ
count_pool p none = 0
count_pool p (some pool) = count p pool.q.items

-- Each pointer that `new` has returned is owned once: by one entry of the table, by the pool, or it has been
-- deleted; no other pointer is anywhere.
abbrev pub owners : ℕ → Server → ℕ
owners p s = count_table p s.connects + count_pool p s.conn_pool + count p s.memory.deleted

abbrev pub allocated : ℕ → Memory → ℕ
allocated p m = if ltb p m.fresh then 1 else 0

pub record Owned (s : Server) : Type 0 where
  pub once : (p : ℕ) → owners p s ≡ allocated p s.memory

count_table-touch : (p : ℕ) (f : Fd) (t : Table) → count_table p (touch f t) ≡ count_table p t
unfolding touch
count_table-touch p f [] = refl
count_table-touch p f ((g, q) ∷ t) = ground (arith, count_table-touch p f t)

count_table-put :
    (p : ℕ) (f : Fd) (q : Option ℕ) (t : Table)
    → count_table p (put f q t) + count_at p (at f t) ≡ count_table p t + count_at p q
unfolding put at
count_table-put p f q [] = omega arith
count_table-put p f q ((g, r) ∷ t) = ground (arith, count_table-put p f q t)

count_table-erase :
    (p : ℕ) (f : Fd) (t : Table) → count_table p (erase f t) + count_at p (at f t) ≡ count_table p t
unfolding erase at
count_table-erase p f [] = refl
count_table-erase p f ((g, r) ∷ t) = ground (arith, count_table-erase p f t)

-- A connection that leaves the table is the pool's, or deleted.
owners-give_back :
    (p q : ℕ) (pool : Option ConnPool) (s : Server)
    → s.conn_pool ≡ pool
    → owners p (give_back pool q s) ≡ owners p s + count_at p (some q)
unfolding give_back release Queue.push
owners-give_back p q none s e = omega arith
owners-give_back p q (some pool) s e =
    let pooled : count_pool p s.conn_pool ≡ count p pool.q.items = ap (count_pool p) e in
    omega (arith, pooled, count-append p pool.q.items (q ∷ []))

fresh-give_back :
    (q : ℕ) (pool : Option ConnPool) (s : Server)
    → (give_back pool q s).memory.fresh ≡ s.memory.fresh
unfolding give_back
fresh-give_back q none s = refl
fresh-give_back q (some pool) s = refl

give_back-Owned :
    (q : ℕ) (pool : Option ConnPool) (s : Server)
    → s.conn_pool ≡ pool
    → ((p : ℕ) → owners p s + count_at p (some q) ≡ allocated p s.memory)
    → Owned (give_back pool q s)
give_back-Owned q pool s e h = record {
  once = λ p.
      owners-give_back p q pool s e
      ∙ h p
      ∙ ap (λ n. if ltb p n then 1 else 0) (sym (fresh-give_back q pool s));
}

remove_at-Owned :
    (o : Option ℕ) (f : Fd) (s : Server)
    → at f s.connects ≡ o
    → Owned s
    → After Owned (remove_at o f s)
unfolding remove_at
remove_at-Owned none f s e v = tt
remove_at-Owned (some q) f s e v = give_back-Owned q s.conn_pool _ refl (λ p.
    let entry : count_at p (at f s.connects) ≡ count_at p (some q) = ap (count_at p) e in
    omega (arith, entry, count_table-erase p f s.connects, v.once p))

remove_fd-Owned : (f : Fd) (s : Server) → Owned s → After Owned (remove_fd f s)
unfolding remove_fd
remove_fd-Owned f s v = remove_at-Owned (at f s.connects) f s refl v

new_lem :
    (p : ℕ) (m : Memory)
    → count_at p (some m.fresh) + allocated p m ≡ (if ltb p (suc m.fresh) then 1 else 0)
new_lem p m = ground arith

-- `acquire` takes a pointer from the pool, or a new one.
acquire_lem :
    (p : ℕ) (items : List ℕ) (pool : ConnPool) (m : Memory)
    → let (q, pool', m') = take_or_new (Queue.pop 0 (record { items = items })) pool m in
      (count p pool'.q.items + count_at p (some q) + allocated p m ≡ count p items + allocated p m')
      × (count p m'.deleted ≡ count p m.deleted)
unfolding take_or_new new Queue.pop
acquire_lem p [] pool m = (omega (arith, new_lem p m), refl)
acquire_lem p (q ∷ rest) pool m = (omega arith, refl)

-- A connection that enters the table comes from the pool or is new.
enter-Owned :
    (f : Fd) (addr q : ℕ) (s : Server)
    → at f s.connects ≡ none
    → ((p : ℕ) → owners p s + count_at p (some q) ≡ allocated p s.memory)
    → Owned (enter f addr q s)
unfolding enter
enter-Owned f addr q s e h = record {
  once = λ p.
      let entry : count_at p (at f s.connects) ≡ 0 = ap (count_at p) e in
      omega (arith, entry, count_table-put p f (some q) s.connects, h p);
}

refuse-Owned :
    (f : Fd) (pool : Option ConnPool) (s : Server)
    → ((p : ℕ)
        → count_table p s.connects + count_pool p pool + count p s.memory.deleted
          ≡ allocated p s.memory)
    → Owned (refuse f pool s)
unfolding refuse
refuse-Owned f pool s h = record {
  once = λ p. omega (arith, count_table-touch p f s.connects, h p);
}

accept_pooled-Owned :
    (pool : Option ConnPool) (o : Option ℕ) (f : Fd) (addr : ℕ) (s : Server)
    → s.conn_pool ≡ pool
    → at f s.connects ≡ o
    → Owned s
    → Owned (accept_pooled pool o f addr s)
unfolding accept_pooled acquire release new Queue.push
accept_pooled-Owned (some pool) (some r) f addr s e e' v =
    let (q, pool', m') = take_or_new (Queue.pop 0 pool.q) pool s.memory in
    refuse-Owned f (some (release pool' q)) (record s { memory = m' })
      (λ p.
        let (taken, same) = acquire_lem p pool.q.items pool s.memory in
        let pooled : count_pool p s.conn_pool ≡ count p pool.q.items = ap (count_pool p) e in
        omega (arith, taken, same, pooled, v.once p, count-append p pool'.q.items (q ∷ [])))
accept_pooled-Owned (some pool) none f addr s e e' v =
    let (q, pool', m') = take_or_new (Queue.pop 0 pool.q) pool s.memory in
    enter-Owned f addr q (record s { memory = m'; conn_pool = some pool' }) e'
      (λ p.
        let (taken, same) = acquire_lem p pool.q.items pool s.memory in
        let pooled : count_pool p s.conn_pool ≡ count p pool.q.items = ap (count_pool p) e in
        omega (arith, taken, same, pooled, v.once p))
accept_pooled-Owned none (some r) f addr s e e' v = refuse-Owned f none s (λ p.
    let pooled : count_pool p s.conn_pool ≡ 0 = ap (count_pool p) e in
    omega (arith, pooled, v.once p))
accept_pooled-Owned none none f addr s e e' v =
    let (q, m') = new s.memory in
    enter-Owned f addr q (record s { memory = m' }) e'
      (λ p. omega (arith, new_lem p s.memory, v.once p))

accept_conn-Owned : (f : Fd) (addr : ℕ) (s : Server) → Owned s → Owned (accept_conn f addr s)
unfolding accept_conn
accept_conn-Owned f addr s v = elim (Bool-cases (leb s.max_connect_count s.current_connect_count)) [
  | inl full ↦ rw full (record { once = v.once })
  | inr room ↦ rw room (accept_pooled-Owned s.conn_pool (at f s.connects) f addr s refl refl v)
]

pub Owned-Preserved : Preserved Owned
Owned-Preserved = record {
  by_process = λ p c shared s v. record { once = v.once };
  by_add = λ pool s v. record { once = v.once };
  by_pop = λ queue s v. record { once = v.once };
  by_touch =
      λ f s v. record { once = λ p. omega (arith, count_table-touch p f s.connects, v.once p) };
  by_remove = remove_fd-Owned;
  by_accept = accept_conn-Owned;
}

-- The connections of a new pool are all in its queue.
fill_lem :
    (p n : ℕ) (q : LockQueue ℕ) (m : Memory)
    → let (q', m') = fill n q m in
      (count p q'.items + allocated p m ≡ count p q.items + allocated p m')
      × (count p m'.deleted ≡ count p m.deleted)
unfolding fill new Queue.push
fill_lem p zero q m = (refl, refl)
fill_lem p (suc n) q m =
    let (r, m') = new m in
    let (filled, same) = fill_lem p n (Queue.push q r) m' in
    (omega (arith, filled, new_lem p m, count-append p q.items (r ∷ [])), same)

pub new_pool-Owned :
    (p n : ℕ) (m : Memory)
    → let (pool, m') = new_pool n m in
      (count_pool p (some pool) + allocated p m ≡ allocated p m')
      × (count p m'.deleted ≡ count p m.deleted)
unfolding new_pool Queue.new_queue
new_pool-Owned p n m =
    let (filled, same) = fill_lem p n Queue.new_queue m in (omega (arith, filled), same)

-- No connection is lost, and none is given to two owners, through any number of rounds, whatever epoll_wait,
-- `accept` and the handlers answer: each pointer that was ever allocated stands exactly once in the table, in the
-- pool or among those that were deleted, and no other stands there. It is so at first; rounds that read a null
-- pointer are left out.
pub rounds-Owned :
    (m : Methods) (waits : List Wait) (s : Server) → Owned s → After Owned (rounds m waits s)
rounds-Owned m waits s v = rounds-After Owned-Preserved m waits s v
