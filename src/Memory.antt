-- ===== src/Memory.antt =====
-- The connections in memory, and the pool of unused ones (connpool, core/include/conn.h). A pointer
-- is a number; 0 is not special, since null is `none` of an Option.
use conv_event.Base.{ℕ, zero, suc, Bool, true, false, List, ◌∷◌, ◌==◌, if◌then◌else◌}
use conv_event.Queue
use conv_event.Queue.{LockQueue}
use conv_event.Conn.State.{Conn, new_conn}

-- `fresh` is the next pointer that `new` returns; `deleted` lists those given to `delete`.
pub record Memory : Type 0 where
  pub conns : ℕ → Conn
  pub fresh : ℕ
  pub deleted : List ℕ

abbrev pub store : Memory → ℕ → Conn → Memory
store m p c = record m { conns = λ q. if p == q then c else m.conns q }

unfoldable pub new : Memory → ℕ × Memory
new m = (m.fresh, record (store m m.fresh new_conn) { fresh = suc m.fresh })

abbrev pub delete : Memory → ℕ → Memory
delete m p = record m { deleted = p ∷ m.deleted }

pub record ConnPool : Type 0 where
  pub q : LockQueue ℕ
  pub size : ℕ

-- The constructor: `size` new connections.
unfoldable pub fill : ℕ → LockQueue ℕ → Memory → LockQueue ℕ × Memory
unfolding new
fill zero q m = (q, m)
fill (suc n) q m = let (p, m') = new m in fill n (Queue.push q p) m'

unfoldable pub new_pool : ℕ → Memory → ConnPool × Memory
unfolding fill
new_pool n m = let (q, m') = fill n Queue.new_queue m in (record { q = q; size = n }, m')

unfoldable pub take_or_new : ℕ × Bool × LockQueue ℕ → ConnPool → Memory → ℕ × ConnPool × Memory
take_or_new (p, true, rest) pool m = (p, record pool { q = rest }, m)
take_or_new (_, false, rest) pool m =
    let (p, m') = new m in (p, record { q = rest; size = suc pool.size }, m')

unfoldable pub acquire : ConnPool → Memory → ℕ × ConnPool × Memory
unfolding take_or_new new
acquire pool m = take_or_new (Queue.pop 0 pool.q) pool m

unfoldable pub release : ConnPool → ℕ → ConnPool
release pool p = record pool { q = Queue.push pool.q p }

-- The destructor deletes as many connections as the pool has made, as far as they are back.
unfoldable pub destroy : ℕ → LockQueue ℕ → Memory → LockQueue ℕ × Memory
destroy zero q m = (q, m)
destroy (suc n) q m =
    let (p, found, rest) = Queue.pop 0 q in destroy n rest (if found then delete m p else m)
