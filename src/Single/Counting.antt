-- ===== src/Single/Counting.antt =====
-- The number of connections that core/conv_single.h keeps.
use conv_event.Single.Invariants.{After, Preserved, rounds-After}
use conv_event.Base.{
  sym, ◌∙◌, ℕ, ◌≤◌, ◌<◌, ◌≡◌, refl, inl, inr, List, Option, none, some, arith, leb, Bool-cases,
}
use conv_event.Conn.State.{Methods}
use conv_event.Memory.{ConnPool, acquire, release, new}
use conv_event.Single.Loop.{Wait, rounds}
use conv_event.Single.Server.{
  Server, give_back, remove_at, remove_fd, enter, refuse, accept_pooled, accept_conn,
}
use conv_event.Socket.State.{Fd}
use conv_event.Table.{at, live, live-touch, live-put, live-erase}

-- The counter is the number of connections in the table, and within the limit.
pub record Inv (s : Server) : Type 0 where
  pub counted : s.current_connect_count ≡ live s.connects
  pub bounded : s.current_connect_count ≤ s.max_connect_count

give_back-Inv : (pool : Option ConnPool) (p : ℕ) (s : Server) → Inv s → Inv (give_back pool p s)
unfolding give_back
give_back-Inv none p s v = ground arith
give_back-Inv (some pool) p s v = ground arith

remove_at-Inv :
    (o : Option ℕ) (f : Fd) (s : Server) → at f s.connects ≡ o → Inv s → After Inv (remove_at o f s)
unfolding remove_at
remove_at-Inv none f s e v = tt
remove_at-Inv (some p) f s e v =
    give_back-Inv s.conn_pool p _ (ground (arith, live-erase f s.connects))

remove_fd-Inv : (f : Fd) (s : Server) → Inv s → After Inv (remove_fd f s)
unfolding remove_fd
remove_fd-Inv f s v = remove_at-Inv (at f s.connects) f s refl v

enter-Inv :
    (f : Fd) (addr p : ℕ) (s : Server)
    → at f s.connects ≡ none
    → s.current_connect_count < s.max_connect_count
    → Inv s
    → Inv (enter f addr p s)
unfolding enter
enter-Inv f addr p s e room v = ground (arith, live-put f (some p) s.connects)

refuse-Inv : (f : Fd) (pool : Option ConnPool) (s : Server) → Inv s → Inv (refuse f pool s)
unfolding refuse
refuse-Inv f pool s v = ground (arith, live-touch f s.connects)

accept_pooled-Inv :
    (pool : Option ConnPool) (o : Option ℕ) (f : Fd) (addr : ℕ) (s : Server)
    → at f s.connects ≡ o
    → s.current_connect_count < s.max_connect_count
    → Inv s
    → Inv (accept_pooled pool o f addr s)
unfolding accept_pooled
accept_pooled-Inv (some pool) (some q) f addr s e room v =
    let (p, pool', memory) = acquire pool s.memory in
    let s' = record s { memory = memory } in
    let v' : Inv s' = ground arith in refuse-Inv f (some (release pool' p)) s' v'
accept_pooled-Inv (some pool) none f addr s e room v =
    let (p, pool', memory) = acquire pool s.memory in
    let s' = record s { memory = memory; conn_pool = some pool' } in
    let v' : Inv s' = ground arith in enter-Inv f addr p s' e room v'
accept_pooled-Inv none (some q) f addr s e room v = refuse-Inv f none s v
accept_pooled-Inv none none f addr s e room v =
    let (p, memory) = new s.memory in
    let s' = record s { memory = memory } in
    let v' : Inv s' = ground arith in enter-Inv f addr p s' e room v'

accept_conn-Inv : (f : Fd) (addr : ℕ) (s : Server) → Inv s → Inv (accept_conn f addr s)
unfolding accept_conn
accept_conn-Inv f addr s v = elim (Bool-cases (leb s.max_connect_count s.current_connect_count)) [
  | inl full ↦ rw full (ground arith)
  | inr room ↦
      rw room (accept_pooled-Inv s.conn_pool (at f s.connects) f addr s refl (ground arith) v)
]

pub Inv-Preserved : Preserved Inv
Inv-Preserved = record {
  by_process = λ p c shared s v. record { counted = v.counted; bounded = v.bounded };
  by_add = λ pool s v. record { counted = v.counted; bounded = v.bounded };
  by_pop = λ queue s v. record { counted = v.counted; bounded = v.bounded };
  by_touch =
      λ f s v. record { counted = v.counted ∙ sym (live-touch f s.connects); bounded = v.bounded };
  by_remove = remove_fd-Inv;
  by_accept = accept_conn-Inv;
}

-- Whatever epoll_wait, `accept` and the handlers answer, through any number of rounds the loop keeps
-- its counter equal to the number of connections in the table, and within max_connect_count. It is so at
-- first; rounds that read a null pointer are left out.
pub rounds-Inv :
    (m : Methods) (waits : List Wait) (s : Server) → Inv s → After Inv (rounds m waits s)
rounds-Inv m waits s v = rounds-After Inv-Preserved m waits s v
