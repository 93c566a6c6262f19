-- ===== src/SafeQueue.antt =====
-- core/include/safe_queue.h: a linked queue whose nodes are used again. Each operation is modelled as one
-- thread runs it, with no other between its atomic steps, so a compare_exchange succeeds at once. Only a push
-- also comes in two parts, before and after its last line.
pub mod Links
pub mod Order
pub mod Fifo
pub mod Stall
pub mod Hidden
mod Examples
use conv_event.Base.{ℕ, zero, suc, Bool, true, false, Option, none, some, ◌==◌, if◌then◌else◌}

-- The nodes, under addresses that are numbers; `fresh` is the next one that `new` returns. The items are
-- numbers, and T() is 0.
pub record Nodes : Type 0 where
  pub data_of : ℕ → ℕ
  pub next : ℕ → Option ℕ
  pub fresh : ℕ

pub record SafeQueue : Type 0 where
  pub nodes : Nodes
  pub head : ℕ
  pub tail : ℕ
  pub node_pool : Option ℕ

abbrev pub set_next : ℕ → Option ℕ → Nodes → Nodes
set_next a n h = record h { next = λ b. if b == a then n else h.next b }

abbrev pub set_data : ℕ → ℕ → Nodes → Nodes
set_data a x h = record h { data_of = λ b. if b == a then x else h.data_of b }

-- `new Node()` and `new Node(T())`
abbrev pub new_node : Nodes → ℕ × Nodes
new_node h =
    (h.fresh, record (set_next h.fresh none (set_data h.fresh 0 h)) { fresh = suc h.fresh })

-- `new Node[pool_size]` and the loop of the constructor: each node leads to the next, the last to null. The
-- data that `new` leaves unset are 0 here; no operation reads them before it has set them.
unfoldable pub array_nodes : ℕ → Nodes → Nodes
array_nodes zero h = h
array_nodes (suc zero) h = let (n, h') = new_node h in h'
array_nodes (suc (suc count)) h =
    let (n, h') = new_node h in array_nodes (suc count) (set_next n (some h'.fresh) h')

-- `safe_queue(pool_size)`, for a size above 0.
unfoldable pub new_safe_queue : ℕ → SafeQueue
unfolding array_nodes
new_safe_queue pool_size =
    let (head, h) = new_node (record { data_of = λ a. 0; next = λ a. none; fresh = 0 }) in
    record { nodes = array_nodes pool_size h; head = head; tail = head; node_pool = some h.fresh }

abbrev pub take_node : Option ℕ → SafeQueue → ℕ × SafeQueue
take_node none q = let (n, h) = new_node q.nodes in (n, record q { nodes = h })
take_node (some n) q = (n, record q { node_pool = q.nodes.next n })

unfoldable pub acquire_node : SafeQueue → ℕ × SafeQueue
acquire_node q = take_node q.node_pool q

unfoldable pub release_node : ℕ → SafeQueue → SafeQueue
release_node n q = record q { nodes = set_next n q.node_pool q.nodes; node_pool = some n }

-- `push` up to `tail.exchange`, with prevTail and newNode, and its last line, which another thread may come before.
abbrev pub swing_tail : ℕ → ℕ → SafeQueue → SafeQueue
swing_tail x n q = record q { nodes = set_next n none (set_data n x q.nodes); tail = n }

abbrev pub link_tail : ℕ → ℕ → SafeQueue → SafeQueue
link_tail p n q = record q { nodes = set_next p (some n) q.nodes }

abbrev pub link_node : ℕ → ℕ → SafeQueue → SafeQueue
link_node x n q = link_tail q.tail n (swing_tail x n q)

unfoldable pub begin_push : ℕ → SafeQueue → ℕ × ℕ × SafeQueue
unfolding acquire_node
begin_push x q = let (n, q') = acquire_node q in (q'.tail, n, swing_tail x n q')

unfoldable pub push : ℕ → SafeQueue → SafeQueue
unfolding acquire_node
push x q = let (n, q') = acquire_node q in link_node x n q'

abbrev pub pop_to : ℕ → Option ℕ → SafeQueue → ℕ × Bool × SafeQueue
pop_to sentinel none q = (sentinel, false, q)
pop_to sentinel (some n) q = (q.nodes.data_of n, true, release_node q.head (record q { head = n }))

-- The result on the empty queue is null, or -1 for numbers.
unfoldable pub pop : ℕ → SafeQueue → ℕ × Bool × SafeQueue
unfolding release_node
pop sentinel q = pop_to sentinel (q.nodes.next q.head) q

unfoldable pub is_empty : SafeQueue → Bool
is_empty q = q.head == q.tail
