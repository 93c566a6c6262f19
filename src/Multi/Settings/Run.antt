-- ===== src/Multi/Settings/Run.antt =====
-- The steps of the start of conv_multi (core/conv_multi.h) where the system calls succeed.
use conv_event.Base.{
  append_assoc, append-nil, sym, ℕ, zero, suc, ◌≡◌, refl, ap, ◌∙◌, Bool, true, false, List, [], ◌∷◌,
  ◌++◌, Option, none, some, codes, if◌then◌else◌, ℤ, pos,
}
use conv_event.Configure.{Json, given, int_or, bool_or}
use conv_event.Multi.Startup.{ReactorSetup, Multi, new_reactor, new_reactors, has_pool}
use conv_event.Multi.Settings.{
  set_acceptor_option, reuse_multi, init_reactor, init_reactors, with_reactor_threads,
  reactor_threads, add_ready,
}
use conv_event.Single.Settings.Pools.{IsPositive, threads, reuse_options}
use conv_event.Single.Startup.{reuse_addr, reuse_port}
use conv_event.Start.{running, ◌>>=◌}
use conv_event.ThreadPool.Pool.{new_threadpool}
use conv_event.Socket.State.{fd}
use conv_event.Queue

-- A reactor as it is constructed, over the descriptor `n`.
abbrev pub fresh_reactor : ℕ → ReactorSetup
fresh_reactor n = record {
  et = false;
  one_shot = true;
  epoll_fd = fd n;
  events = true;
  max_events_count = pos 4096;
  thread_pool = none;
  conn_pool = false;
  parent = false;
  close_queue = false;
}

-- `count` of them, over the descriptors from the `i`-th on.
abbrev pub fresh_reactors : (ℕ → ℕ) → ℕ → ℕ → List ReactorSetup
fresh_reactors fds zero i = []
fresh_reactors fds (suc count) i = fresh_reactor (fds i) ∷ fresh_reactors fds count (suc i)

pub new_reactors_run :
    (count i : ℕ) (answers : ℕ → Option ℕ) (fds : ℕ → ℕ) (s : Multi)
    → ((j : ℕ) → answers j ≡ some (fds j))
    → new_reactors count i answers s
      ≡ running (record s { reactors = s.reactors ++ fresh_reactors fds count i })
unfolding new_reactors new_reactor
new_reactors_run zero i answers fds s h =
    ap (λ l. running (record s { reactors = l })) (sym (append-nil s.reactors))
new_reactors_run (suc count) i answers fds s h =
    ap (λ o. new_reactor o s >>= new_reactors count (suc i) answers) (h i)
    ∙ new_reactors_run count (suc i) answers fds
        (record s { reactors = s.reactors ++ (fresh_reactor (fds i) ∷ []) }) h
    ∙ ap (λ l. running (record s { reactors = l }))
        (append_assoc s.reactors (fresh_reactor (fds i) ∷ []) (fresh_reactors fds count (suc i)))

-- The reactor once `wait` has given it the settings of the server.
abbrev pub ready_reactor : Bool → Bool → Bool → Bool → ℕ → ReactorSetup
ready_reactor et one_shot threaded pooled n = record {
  et = et;
  one_shot = one_shot;
  epoll_fd = fd n;
  events = true;
  max_events_count = pos 4096;
  thread_pool = if threaded then threads else none;
  conn_pool = pooled;
  parent = true;
  close_queue = true;
}

abbrev pub ready_reactors : Bool → Bool → Bool → Bool → (ℕ → ℕ) → ℕ → ℕ → List ReactorSetup
ready_reactors et one_shot threaded pooled fds zero i = []
ready_reactors et one_shot threaded pooled fds (suc count) i =
    ready_reactor et one_shot threaded pooled (fds i)
    ∷ ready_reactors et one_shot threaded pooled fds count (suc i)

same_limit : (b : Bool) → (if b then pos 4096 else pos 4096) ≡ pos 4096
same_limit true = refl
same_limit false = refl

reactor_threads_run :
    (b : Bool) (count : ℤ)
    → (b ≡ true → IsPositive count)
    → reactor_threads b none count ≡ some (if b then threads else none)
unfolding new_threadpool Queue.new_queue
reactor_threads_run false count h = refl
reactor_threads_run true count h = let (k, e) = h refl in ap (λ c. reactor_threads true none c) e

init_reactor_run :
    (conf : Json) (s : Multi) (n : ℕ)
    → (s.thread_pool ≡ true → IsPositive (int_or conf (codes "thread_count") (pos 8)))
    → init_reactor conf s (fresh_reactor n)
      ≡ some (ready_reactor s.et s.one_shot s.thread_pool (has_pool s.conn_pool) n)
unfolding init_reactor
init_reactor_run conf s n h =
    ap (with_reactor_threads conf s (fresh_reactor n)) (reactor_threads_run s.thread_pool _ h)
    ∙ ap
        (λ limit.
          some (record (ready_reactor s.et s.one_shot s.thread_pool (has_pool s.conn_pool) n) {
            max_events_count = limit;
          }))
        (same_limit (given conf (codes "max_events_count")))

pub init_reactors_run :
    (conf : Json) (s : Multi) (fds : ℕ → ℕ) (count i : ℕ)
    → (s.thread_pool ≡ true → IsPositive (int_or conf (codes "thread_count") (pos 8)))
    → init_reactors conf s (fresh_reactors fds count i)
      ≡ some (ready_reactors s.et s.one_shot s.thread_pool (has_pool s.conn_pool) fds count i)
unfolding init_reactors
init_reactors_run conf s fds zero i h = refl
init_reactors_run conf s fds (suc count) i h =
    ap (λ o. add_ready o (init_reactors conf s (fresh_reactors fds count (suc i))))
      (init_reactor_run conf s (fds i) h)
    ∙ ap
        (add_ready
          (some (ready_reactor s.et s.one_shot s.thread_pool (has_pool s.conn_pool) (fds i))))
        (init_reactors_run conf s fds count (suc i) h)

pub reuse_multi_run :
    (conf : Json) (s : Multi)
    → reuse_multi conf s
      ≡ record s { options = s.options ++ reuse_options conf s.acceptor.socket_fd }
unfolding reuse_multi set_acceptor_option
reuse_multi_run conf s =
    by_flags (bool_or conf (codes "port_reuse") false) (bool_or conf (codes "address_reuse") false)
  where
    by_flags :
        (p a : Bool)
        → (if a
            then set_acceptor_option reuse_addr true
                (if p then set_acceptor_option reuse_port true s else s)
            else (if p then set_acceptor_option reuse_port true s else s))
          ≡ record s {
            options =
                s.options
                ++ ((if p then (s.acceptor.socket_fd, reuse_port, true) ∷ [] else [])
                    ++ (if a then (s.acceptor.socket_fd, reuse_addr, true) ∷ [] else []));
          }
    by_flags true true = ap (λ o. record s { options = o }) (append_assoc s.options _ _)
    by_flags true false = refl
    by_flags false true = refl
    by_flags false false = ap (λ o. record s { options = o }) (sym (append-nil s.options))
