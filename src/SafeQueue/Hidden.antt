-- ===== src/SafeQueue/Hidden.antt =====
-- The calls of other threads while a push of core/include/safe_queue.h has not linked its node.
use conv_event.Base.{
  ℕ, suc, ◌≡◌, refl, sym, ap, subst, ◌∙◌, Bool, false, List, [], ◌∷◌, ◌++◌, none, arith,
}
use conv_event.SafeQueue.{
  SafeQueue, take_node, link_tail, swing_tail, acquire_node, begin_push, push, is_empty,
  new_safe_queue, pop_to, pop,
}
use conv_event.SafeQueue.Order.{Holds, push-Holds, is_empty_something, pop_nothing, pop-Holds}
use conv_event.SafeQueue.Fifo.{
  Call, put, take, ask_empty, answers, list_answers, answers_list, new_safe_queue-Holds, upward,
}
use conv_event.SafeQueue.Stall.{
  Stalled, push-Stalled, push_head, take_node_tail, take_node_next, take_node_head,
}

-- The queue after the calls, and the items in it as a list.
unfoldable pub after : ℕ → List Call → SafeQueue → SafeQueue
unfolding push pop
after sentinel [] q = q
after sentinel (put x ∷ calls) q = after sentinel calls (push x q)
after sentinel (take ∷ calls) q = after sentinel calls (pop sentinel q).2
after sentinel (ask_empty ∷ calls) q = after sentinel calls q

unfoldable pub list_after : List Call → List ℕ → List ℕ
list_after [] items = items
list_after (put x ∷ calls) items = list_after calls (items ++ (x ∷ []))
list_after (take ∷ calls) [] = list_after calls []
list_after (take ∷ calls) (x ∷ items) = list_after calls items
list_after (ask_empty ∷ calls) items = list_after calls items

-- The items with those that the calls push behind them, none taken.
unfoldable pub with_pushed : List ℕ → List Call → List ℕ
with_pushed items [] = items
with_pushed items (put x ∷ calls) = with_pushed (items ++ (x ∷ [])) calls
with_pushed items (take ∷ calls) = with_pushed items calls
with_pushed items (ask_empty ∷ calls) = with_pushed items calls

-- Every pop finds nothing, and yet the queue is not empty.
unfoldable pub hidden_answers : ℕ → List Call → List (ℕ × Bool)
hidden_answers sentinel [] = []
hidden_answers sentinel (put x ∷ calls) = hidden_answers sentinel calls
hidden_answers sentinel (take ∷ calls) = (sentinel, false) ∷ hidden_answers sentinel calls
hidden_answers sentinel (ask_empty ∷ calls) = (sentinel, false) ∷ hidden_answers sentinel calls

after-Holds :
    (sentinel : ℕ) (calls : List Call) (q : SafeQueue) (items ns ps : List ℕ)
    → Holds q items ns ps
    → (ns' : List ℕ) × (ps' : List ℕ) × Holds
        (after sentinel calls q)
        (list_after calls items)
        ns'
        ps'
unfolding after list_after
after-Holds sentinel [] q items ns ps h = (ns, ps, h)
after-Holds sentinel (put x ∷ calls) q items ns ps h =
    let (ns', ps', h') = push-Holds x q items ns ps h in
    after-Holds sentinel calls (push x q) (items ++ (x ∷ [])) ns' ps' h'
after-Holds sentinel (take ∷ calls) q [] ns ps h =
    subst
      (λ r.
        (ns' : List ℕ) × (ps' : List ℕ) × Holds (after sentinel calls r.2) (list_after calls []) ns'
          ps')
      (sym (pop_nothing sentinel q ns ps h)) (after-Holds sentinel calls q [] ns ps h)
after-Holds sentinel (take ∷ calls) q (x ∷ items) [] ps h = absurd h.values
after-Holds sentinel (take ∷ calls) q (x ∷ items) (n ∷ ns) ps h =
    let (same, there, h') = pop-Holds sentinel q x items n ns ps h in
    after-Holds sentinel calls (pop sentinel q).2 items ns (q.head ∷ ps) h'
after-Holds sentinel (ask_empty ∷ calls) q items ns ps h =
    after-Holds sentinel calls q items ns ps h

pop-Stalled :
    (sentinel n : ℕ) (q : SafeQueue) (items ns ps : List ℕ)
    → Stalled n q items ns ps
    → pop sentinel q ≡ (sentinel, false, q)
unfolding pop
pop-Stalled sentinel n q items ns ps h = ap (λ o. pop_to sentinel o q) h.nothing

abbrev Hidden : ℕ → ℕ → List Call → SafeQueue → List ℕ → Type 0
Hidden sentinel n calls q items =
    let q' = after sentinel calls q in
    (answers sentinel calls q ≡ hidden_answers sentinel calls)
    × (q'.head ≡ q.head)
    × ((ns : List ℕ) × (ps : List ℕ) × Stalled n q' (with_pushed items calls) ns ps)

after-Stalled :
    (sentinel n : ℕ) (calls : List Call) (q : SafeQueue) (x : ℕ) (items ns ps : List ℕ)
    → Stalled n q (x ∷ items) ns ps
    → Hidden sentinel n calls q (x ∷ items)
unfolding after answers with_pushed hidden_answers is_empty
after-Stalled sentinel n [] q x items ns ps h = (refl, refl, (ns, ps, h))
after-Stalled sentinel n (put y ∷ calls) q x items ns ps h =
    let (ns', ps', h') = push-Stalled n y x q items ns ps h in
    let (said, head, rest) =
      after-Stalled sentinel n calls (push y q) x (items ++ (y ∷ [])) ns' ps' h' in
    (said, head ∙ push_head y q, rest)
after-Stalled sentinel n (take ∷ calls) q x items ns ps h =
    let (said, head, rest) = after-Stalled sentinel n calls q x items ns ps h in
    subst
      (λ r.
        ((r.0, r.1) ∷ answers sentinel calls r.2 ≡ hidden_answers sentinel (take ∷ calls))
        × ((after sentinel calls r.2).head ≡ q.head)
        × ((ns' : List ℕ) × (ps' : List ℕ) × Stalled n (after sentinel calls r.2)
              (with_pushed (x ∷ items) calls) ns' ps'))
      (sym (pop-Stalled sentinel n q (x ∷ items) ns ps h))
      (ap (λ more. (sentinel, false) ∷ more) said, head, rest)
after-Stalled sentinel n (ask_empty ∷ calls) q x items ns ps h =
    let (said, head, rest) = after-Stalled sentinel n calls q x items ns ps h in
    let there = is_empty_something (link_tail q.head n q) x items ns ps h.linked in
    (
      ap (λ b. (sentinel, b) ∷ answers sentinel calls q) there
          ∙ ap (λ more. (sentinel, false) ∷ more) said,
      head,
      rest,
    )

begin_push-Stalled :
    (x : ℕ) (q : SafeQueue) (ns ps : List ℕ)
    → Holds q [] ns ps
    → let (p, n, q') = begin_push x q in
      (p ≡ q'.head) × ((ns' : List ℕ) × (ps' : List ℕ) × Stalled n q' (x ∷ []) ns' ps')
unfolding begin_push acquire_node push
begin_push-Stalled x q (n ∷ ns) ps h = absurd h.values
begin_push-Stalled x q [] ps h =
    let r = take_node q.node_pool q in
    let here : r.1.tail ≡ r.1.head =
      take_node_tail q.node_pool q ∙ h.at_end ∙ sym (take_node_head q.node_pool q) in
    let old = take_node_next q.node_pool q q.head h.chain in
    let old' : r.1.nodes.next r.1.head ≡ none =
      ap r.1.nodes.next (take_node_head q.node_pool q) ∙ old in
    let (ns', ps', h') = push-Holds x q [] [] ps h in
    (
      here,
      (
        ns',
        ps',
        record {
          nothing = ground arith;
          linked =
              subst (λ p. Holds (link_tail p r.0 (swing_tail x r.0 r.1)) (x ∷ []) ns' ps') here h';
        },
      ),
    )

-- Where a queue whose items are all taken has a push that stopped before it links its node, whatever other
-- threads call then, one call after another, each pop of theirs finds nothing and empty answers false, also after pushes of theirs that
-- are complete. Once the push has linked its node, all the items are there, its own first.
pub stalled_push :
    (sentinel k x : ℕ) (before calls more : List Call)
    → list_after before [] ≡ []
    → let (p, n, q) = begin_push x (after sentinel before (new_safe_queue (suc k))) in
      (answers sentinel calls q ≡ hidden_answers sentinel calls)
      × (answers sentinel more (link_tail p n (after sentinel calls q))
          ≡ list_answers sentinel more (with_pushed (x ∷ []) calls))
stalled_push sentinel k x before calls more e =
    let q0 = after sentinel before (new_safe_queue (suc k)) in
    let (ns, ps, h) =
      after-Holds sentinel before (new_safe_queue (suc k)) [] [] (upward 1 (suc k))
        (new_safe_queue-Holds k) in
    let (here, (ns1, ps1, h1)) =
      begin_push-Stalled x q0 ns ps (subst (λ items. Holds q0 items ns ps) e h) in
    let (p, n, q) = begin_push x q0 in
    let (said, head, (ns2, ps2, h2)) = after-Stalled sentinel n calls q x [] ns1 ps1 h1 in
    let q' = after sentinel calls q in
    (
      said,
      ap (λ a. answers sentinel more (link_tail a n q')) (here ∙ sym head)
          ∙ answers_list sentinel more (link_tail q'.head n q') (with_pushed (x ∷ []) calls) ns2 ps2
              h2.linked,
    )
