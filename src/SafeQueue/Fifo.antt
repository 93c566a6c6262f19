-- ===== src/SafeQueue/Fifo.antt =====
-- One thread's calls on the queue of core/include/safe_queue.h against a list.
use conv_event.Base.{
  inl, inr, Bool-cases, ==_iff, ℕ, zero, suc, ◌+◌, ◌≤◌, ◌<◌, ◌≡◌, refl, sym, ap, subst, ◌∙◌, Bool,
  true, false, List, [], ◌∷◌, ◌++◌, none, some, arith, count, ◌==◌,
}
use conv_event.SafeQueue.{
  is_empty, Nodes, SafeQueue, set_next, new_node, array_nodes, new_safe_queue, push, pop,
}
use conv_event.SafeQueue.Links.{Spare, redirect}
use conv_event.SafeQueue.Order.{
  Holds, push-Holds, pop-Holds, pop_nothing, is_empty_nothing, is_empty_something,
}

-- The calls of a thread that owns the queue.
pub data Call : Type 0 where
  put : ℕ → Call
  take : Call
  ask_empty : Call

-- What the calls of `pop` and `empty` answer.
unfoldable pub answers : ℕ → List Call → SafeQueue → List (ℕ × Bool)
unfolding pop push is_empty
answers sentinel [] q = []
answers sentinel (put x ∷ calls) q = answers sentinel calls (push x q)
answers sentinel (take ∷ calls) q =
    let (x, found, q') = pop sentinel q in (x, found) ∷ answers sentinel calls q'
answers sentinel (ask_empty ∷ calls) q = (sentinel, is_empty q) ∷ answers sentinel calls q

-- The same with a list of the items in order.
unfoldable pub list_answers : ℕ → List Call → List ℕ → List (ℕ × Bool)
list_answers sentinel [] items = []
list_answers sentinel (put x ∷ calls) items = list_answers sentinel calls (items ++ (x ∷ []))
list_answers sentinel (take ∷ calls) [] = (sentinel, false) ∷ list_answers sentinel calls []
list_answers sentinel (take ∷ calls) (x ∷ items) = (x, true) ∷ list_answers sentinel calls items
list_answers sentinel (ask_empty ∷ calls) [] = (sentinel, true) ∷ list_answers sentinel calls []
list_answers sentinel (ask_empty ∷ calls) (x ∷ items) =
    (sentinel, false) ∷ list_answers sentinel calls (x ∷ items)

pub answers_list :
    (sentinel : ℕ) (calls : List Call) (q : SafeQueue) (items ns ps : List ℕ)
    → Holds q items ns ps
    → answers sentinel calls q ≡ list_answers sentinel calls items
unfolding answers list_answers
answers_list sentinel [] q items ns ps h = refl
answers_list sentinel (put x ∷ calls) q items ns ps h =
    let (ns', ps', h') = push-Holds x q items ns ps h in
    answers_list sentinel calls (push x q) (items ++ (x ∷ [])) ns' ps' h'
answers_list sentinel (take ∷ calls) q [] ns ps h =
    ap (λ r. let (x, found, q') = r in (x, found) ∷ answers sentinel calls q')
      (pop_nothing sentinel q ns ps h)
    ∙ ap (λ rest. (sentinel, false) ∷ rest) (answers_list sentinel calls q [] ns ps h)
answers_list sentinel (take ∷ calls) q (x ∷ items) [] ps h = absurd h.values
answers_list sentinel (take ∷ calls) q (x ∷ items) (n ∷ ns) ps h =
    let (y, found, q') = pop sentinel q in
    let (same, there, h') = pop-Holds sentinel q x items n ns ps h in
    ap (λ a. (a, found) ∷ answers sentinel calls q') same
    ∙ ap (λ b. (x, b) ∷ answers sentinel calls q') there
    ∙ ap (λ rest. (x, true) ∷ rest) (answers_list sentinel calls q' items ns (q.head ∷ ps) h')
answers_list sentinel (ask_empty ∷ calls) q [] ns ps h =
    ap (λ b. (sentinel, b) ∷ answers sentinel calls q) (is_empty_nothing q ns ps h)
    ∙ ap (λ rest. (sentinel, true) ∷ rest) (answers_list sentinel calls q [] ns ps h)
answers_list sentinel (ask_empty ∷ calls) q (x ∷ items) ns ps h =
    ap (λ b. (sentinel, b) ∷ answers sentinel calls q) (is_empty_something q x items ns ps h)
    ∙ ap (λ rest. (sentinel, false) ∷ rest) (answers_list sentinel calls q (x ∷ items) ns ps h)

-- The addresses that `new` returns from `a` on.
abbrev pub upward : ℕ → ℕ → List ℕ
upward a zero = []
upward a (suc n) = a ∷ upward (suc a) n

count-upward_outside : (p a n : ℕ) → p < a → count p (upward a n) ≡ 0
count-upward_outside p a zero l = refl
count-upward_outside p a (suc n) l =
    let rest = count-upward_outside p (suc a) n (omega arith) in ground arith

count-upward_beyond : (p a n : ℕ) → a + n ≤ p → count p (upward a n) ≡ 0
count-upward_beyond p a zero l = refl
count-upward_beyond p a (suc n) l =
    let rest = count-upward_beyond p (suc a) n (omega arith) in ground arith

count-upward : (p a n : ℕ) → count p (upward a n) ≤ 1
count-upward p a zero = ground arith
count-upward p a (suc n) = elim (Bool-cases (p == a)) [
  | inl e ↦
      let rest = count-upward_outside p (suc a) n (let same = (==_iff p a).0 e in omega arith) in
      rw e (omega (arith, rest))
  | inr e ↦ rw e (omega (arith, count-upward p (suc a) n))
]

-- The array stands as a chain of spare nodes, and nothing older has changed.
Array : ℕ → Nodes → Nodes → Type 0
Array k h h' =
    Spare h'.next (some h.fresh) (upward h.fresh (suc k))
    × (h'.fresh ≡ h.fresh + suc k)
    × ((a : ℕ) → a < h.fresh → h'.next a ≡ h.next a)

array_nodes-Array : (k : ℕ) (h : Nodes) → Array k h (array_nodes (suc k) h)
unfolding Array array_nodes
array_nodes-Array zero h = (
  (refl, subst (λ o. Spare (redirect h.fresh none h.next) o []) (sym at_none) tt),
  omega arith,
  λ a l. ground arith,
)
  where
    at_none : redirect h.fresh none h.next h.fresh ≡ none
    at_none = ground arith
array_nodes-Array (suc k) h =
    let (n, h1) = new_node h in
    let h2 = set_next n (some h1.fresh) h1 in
    let (spare, size, old) = array_nodes-Array k h2 in
    let linked : h2.next n ≡ some h1.fresh = ground arith in
    (
      (
        refl,
        subst (λ o. Spare (array_nodes (suc k) h2).next o (upward h1.fresh (suc k)))
            (sym (old n (omega arith) ∙ linked)) spare,
      ),
      omega (arith, size),
      λ a l. old a (omega (arith, l)) ∙ ground arith,
    )

pub new_safe_queue-Holds : (k : ℕ) → Holds (new_safe_queue (suc k)) [] [] (upward 1 (suc k))
unfolding new_safe_queue Array
new_safe_queue-Holds k =
    let (n, h) = new_node (record { data_of = λ a. 0; next = λ a. none; fresh = 0 }) in
    let (spare, size, old) = array_nodes-Array k h in
    record {
      chain = old 0 (omega arith);
      at_end = refl;
      spare = spare;
      values = tt;
      distinct = λ p. once p;
      below = λ p l. beyond p (omega (arith, size, l));
    }
  where
    once : (p : ℕ) → count p (0 ∷ []) + count p (upward 1 (suc k)) ≤ 1
    once p = elim (Bool-cases (p == 0)) [
      | inl e ↦
          let rest =
            count-upward_outside p 1 (suc k) (let same = (==_iff p 0).0 e in omega arith) in
          rw e (omega (arith, rest))
      | inr e ↦ rw e (omega (arith, count-upward p 1 (suc k)))
    ]

    beyond : (p : ℕ) → 2 + k ≤ p → count p (0 ∷ []) + count p (upward 1 (suc k)) ≡ 0
    beyond p l = let rest = count-upward_beyond p 1 (suc k) (omega arith) in ground arith

-- Whatever calls one thread makes on a new safe_queue of any size above 0, the calls of pop and empty answer as on
-- a list: pop the items in the order of the pushes, and false with the null value where nothing is left; empty
-- whether nothing is left.
pub answers_fifo :
    (sentinel k : ℕ) (calls : List Call)
    → answers sentinel calls (new_safe_queue (suc k)) ≡ list_answers sentinel calls []
answers_fifo sentinel k calls =
    answers_list sentinel calls (new_safe_queue (suc k)) [] [] (upward 1 (suc k))
      (new_safe_queue-Holds k)
