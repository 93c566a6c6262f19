-- ===== src/Queue.antt =====
-- core/include/lock_queue.h: a queue under a lock. Each operation holds the lock for its whole body,
-- so it is one step; `size` alone reads without it.
use conv_event.Base.{ℕ, Bool, true, false, List, [], ◌∷◌, ◌++◌, length}

pub record LockQueue {ℓ} (A : Type ℓ) : Type ℓ where
  pub items : List A

module _ {ℓ} {A : Type ℓ} where
  unfoldable pub new_queue : LockQueue A
  new_queue = record { items = [] }

  unfoldable pub push : LockQueue A → A → LockQueue A
  push q t = record { items = q.items ++ (t ∷ []) }

  pop_front : A → List A → A × Bool × LockQueue A
  pop_front sentinel [] = (sentinel, false, record { items = [] })
  pop_front sentinel (t ∷ rest) = (t, true, record { items = rest })

  -- On the empty queue the result is the sentinel: the null pointer, or -1 for numbers.
  unfoldable pub pop : A → LockQueue A → A × Bool × LockQueue A
  unfolding pop_front
  pop sentinel q = pop_front sentinel q.items

  is_nil : List A → Bool
  is_nil [] = true
  is_nil (t ∷ rest) = false

  unfoldable pub empty : LockQueue A → Bool
  unfolding is_nil
  empty q = is_nil q.items

  unfoldable pub size : LockQueue A → ℕ
  size q = length q.items
