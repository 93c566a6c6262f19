-- ===== src/SafeQueue/Examples.antt =====
-- Runs of core/include/safe_queue.h.
use conv_event.Base.{◌≡◌, refl, List, [], ◌∷◌, true, false}
use conv_event.SafeQueue.{new_safe_queue, begin_push, link_tail}
use conv_event.SafeQueue.Hidden.{after, list_after, with_pushed, hidden_answers, stalled_push}
use conv_event.SafeQueue.Fifo.{Call, put, take, ask_empty, answers, list_answers, answers_fifo}

-- A node is used again, and the array is not enough.
abbrev calls : List Call
calls = take ∷ ask_empty ∷ put 4 ∷ ask_empty ∷ put 5 ∷ take ∷ put 6 ∷ take ∷ take ∷ take ∷ []

answers_calls :
    answers 99 calls (new_safe_queue 1)
    ≡ (99, false) ∷ (99, true) ∷ (99, false) ∷ (4, true) ∷ (5, true) ∷ (6, true) ∷ (99, false) ∷ []
unfolding answers new_safe_queue
answers_calls = refl

answers_fifo_example : answers 99 calls (new_safe_queue 1) ≡ list_answers 99 calls []
answers_fifo_example = answers_fifo 99 0 calls

abbrev emptied : List Call
emptied = put 1 ∷ take ∷ take ∷ []

abbrev others : List Call
others = take ∷ put 8 ∷ ask_empty ∷ take ∷ []

abbrev all_taken : List Call
all_taken = take ∷ take ∷ take ∷ []

list_after-emptied : list_after emptied [] ≡ []
unfolding list_after
list_after-emptied = refl

stalled_push_example :
    let (p, n, q) = begin_push 7 (after 99 emptied (new_safe_queue 2)) in
    (answers 99 others q ≡ hidden_answers 99 others)
    × (answers 99 all_taken (link_tail p n (after 99 others q))
        ≡ list_answers 99 all_taken (with_pushed (7 ∷ []) others))
stalled_push_example = stalled_push 99 1 7 emptied others all_taken list_after-emptied

answers_all_taken :
    list_answers 99 all_taken (with_pushed (7 ∷ []) others)
    ≡ (7, true) ∷ (8, true) ∷ (99, false) ∷ []
unfolding list_answers with_pushed
answers_all_taken = refl
