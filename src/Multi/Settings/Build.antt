-- ===== src/Multi/Settings/Build.antt =====
-- The constructor of conv_multi (core/conv_multi.h) on a complete configuration.
use conv_event.Base.{
  ℕ, ◌≡◌, refl, ap, ◌∙◌, Bool, true, false, Option, none, some, codes, if◌then◌else◌, ℤ, pos,
  to_limit,
}
use conv_event.Base.{is_nonneg}
use conv_event.Configure.{Json, require, given, int_or}
use conv_event.Memory.{ConnPool, Memory}
use conv_event.Multi.Startup.{
  Multi, AcceptorSetup, multi_members, set_acceptor, create_acceptor_socket, init_acceptor, resize,
  has_pool,
}
use conv_event.Multi.Settings.{
  with_keys, pool_by, enable_shared_pool, read_multi_flags, reuse_multi, construct_multi,
}
use conv_event.Multi.Settings.Run.{fresh_reactors, new_reactors_run, reuse_multi_run}
use conv_event.Single.Settings.Pools.{IsPositive, require_lem, objects, reuse_options}
use conv_event.Single.Startup.{System}
use conv_event.Socket.State.{fd}
use conv_event.Start.{Start, running, thrown, ◌>>=◌}

-- The keys that the constructor asks for are there, and the pools that are asked for have usable sizes.
pub record Usable (conf : Json) : Type 0 where
  pub ip : conf.has_key (codes "ip") ≡ true
  pub port : conf.has_key (codes "port") ≡ true
  pub limit : conf.has_key (codes "max_connect_count") ≡ true
  pub object_pool_size :
      given conf (codes "object_pool") ≡ true → conf.has_key (codes "object_pool_size") ≡ true
  pub some_objects :
      given conf (codes "object_pool") ≡ true
      → is_nonneg (conf.value (codes "object_pool_size")).as_int32 ≡ true
  pub some_threads :
      given conf (codes "multi_thread") ≡ true
      → IsPositive (int_or conf (codes "thread_count") (pos 8))

abbrev pub pool_of : Json → Option ConnPool
pool_of conf = if given conf (codes "object_pool") then some (objects conf).0 else none

abbrev pub base_multi : Json → Multi
base_multi conf = record multi_members {
  ip = (conf.value (codes "ip")).as_text;
  port = (conf.value (codes "port")).as_short;
  max_connect_count = to_limit (conf.value (codes "max_connect_count")).as_int32;
}

with_keys_run :
    (conf : Json)
    → Usable conf
    → with_keys
        (require conf (codes "ip"))
        (require conf (codes "port"))
        (require conf (codes "max_connect_count"))
        multi_members
      ≡ running (base_multi conf)
with_keys_run conf h =
    ap
      (λ o.
        with_keys o (require conf (codes "port")) (require conf (codes "max_connect_count"))
          multi_members)
      (require_lem conf (codes "ip") h.ip)
    ∙ ap
        (λ o.
          with_keys (some (conf.value (codes "ip"))) o (require conf (codes "max_connect_count"))
            multi_members)
        (require_lem conf (codes "port") h.port)
    ∙ ap
        (λ o.
          with_keys (some (conf.value (codes "ip"))) (some (conf.value (codes "port"))) o
            multi_members)
        (require_lem conf (codes "max_connect_count") h.limit)

if_pool :
    (b : Bool) (r : Start Multi) (p : ConnPool × Memory) (s : Multi)
    → s.conn_pool ≡ none
    → (b ≡ true → r ≡ running (record s { conn_pool = some p.0; memory = p.1 }))
    → (if b then r else running s)
      ≡ running (record s {
        conn_pool = if b then some p.0 else none;
        memory = if b then p.1 else s.memory;
      })
if_pool true r p s e h = h refl
if_pool false r p s e h = ap (λ o. running (record s { conn_pool = o })) e

abbrev pub pooled : Json → Multi
pooled conf = record (base_multi conf) {
  thread_pool = given conf (codes "multi_thread");
  conn_pool = pool_of conf;
  memory = if given conf (codes "object_pool") then (objects conf).1 else multi_members.memory;
}

pool_run :
    (conf : Json)
    → Usable conf
    → (if given conf (codes "object_pool")
        then pool_by
            (require conf (codes "object_pool_size"))
            (record (base_multi conf) { thread_pool = given conf (codes "multi_thread") })
        else running (record (base_multi conf) { thread_pool = given conf (codes "multi_thread") }))
      ≡ running (pooled conf)
unfolding enable_shared_pool
pool_run conf h =
    if_pool (given conf (codes "object_pool")) _ (objects conf)
      (record (base_multi conf) { thread_pool = given conf (codes "multi_thread") }) refl
      (λ g.
        ap
          (λ o.
            pool_by o
              (record (base_multi conf) { thread_pool = given conf (codes "multi_thread") }))
          (require_lem conf (codes "object_pool_size") (h.object_pool_size g))
        ∙ ap
            (λ (b : Bool).
              if b
              then running (record (base_multi conf) {
                thread_pool = given conf (codes "multi_thread");
                conn_pool = some (objects conf).0;
                memory = (objects conf).1;
              })
              else thrown)
            (h.some_objects g))

-- The acceptor after `init`.
abbrev pub initial_acceptor : Json → Multi → ℕ → AcceptorSetup
initial_acceptor conf s n = record {
  ip = s.ip;
  port = s.port;
  socket_fd = fd n;
  my_addr = some (s.ip, s.port);
  listen_queue_count = int_or conf (codes "listen_queue_count") (pos 1024);
  epoll_fd = s.acceptor.epoll_fd;
  max_event_count = int_or conf (codes "max_events_count") (pos 4096);
  event = s.acceptor.event;
  parent = true;
  conn_pool = has_pool s.conn_pool;
}

init_acceptor_run :
    (os : System) (conf : Json) (n : ℕ) (s : Multi)
    → os.socket ≡ some n
    → init_acceptor os conf s ≡ running (set_acceptor (initial_acceptor conf s n) s)
unfolding init_acceptor create_acceptor_socket
init_acceptor_run os conf n s e =
    ap
      (λ o.
        create_acceptor_socket o (
          set_acceptor
            (record s.acceptor {
              parent = true;
              conn_pool = has_pool s.conn_pool;
              ip = s.ip;
              port = s.port;
              listen_queue_count = int_or conf (codes "listen_queue_count") (pos 1024);
              max_event_count = int_or conf (codes "max_events_count") (pos 4096);
            })
            s)
        >>= λ s'. running (
            set_acceptor (record s'.acceptor { my_addr = some (s'.acceptor.ip, s'.acceptor.port) })
              s'))
      e

-- The members after the constructor.
abbrev pub built_multi : Json → (ℕ → ℕ) → ℕ → ℕ → Multi
built_multi conf fds k n =
    let s = record (read_multi_flags conf (pooled conf)) {
      reactors = fresh_reactors fds k 0;
      reactors_run = true;
    } in
    record (set_acceptor (initial_acceptor conf s n) s) { options = reuse_options conf (fd n) }

pub construct_multi_run :
    (os : System) (answers : ℕ → Option ℕ) (fds : ℕ → ℕ) (c : ℤ) (conf : Json) (n k : ℕ)
    → Usable conf
    → os.socket ≡ some n
    → ((j : ℕ) → answers j ≡ some (fds j))
    → int_or conf (codes "reactor_count") c ≡ pos k
    → construct_multi os answers c (some conf) ≡ running (built_multi conf fds k n)
unfolding construct_multi read_multi_flags resize
construct_multi_run os answers fds c conf n k h e g count =
    ap (λ r. r >>= λ s1. pool_step s1 >>= resized) (with_keys_run conf h)
    ∙ ap (λ r. r >>= resized) (pool_run conf h)
    ∙ ap (λ z. resize z answers (read_multi_flags conf (pooled conf)) >>= accepted) count
    ∙ ap (λ r. r >>= accepted)
        (new_reactors_run k 0 answers fds (read_multi_flags conf (pooled conf)) g)
    ∙ ap (λ r. r >>= λ s4. running (reuse_multi conf s4))
        (init_acceptor_run os conf n
          (record (read_multi_flags conf (pooled conf)) {
            reactors = fresh_reactors fds k 0;
            reactors_run = true;
          })
          e)
    ∙ ap running (
        reuse_multi_run conf (
          let s = record (read_multi_flags conf (pooled conf)) {
            reactors = fresh_reactors fds k 0;
            reactors_run = true;
          } in
          set_acceptor (initial_acceptor conf s n) s))
  where
    accepted : Multi → Start Multi
    accepted s3 = init_acceptor os conf (record s3 { reactors_run = true }) >>= λ s4.
        running (reuse_multi conf s4)

    resized : Multi → Start Multi
    resized s2 =
        resize (int_or conf (codes "reactor_count") c) answers (read_multi_flags conf s2)
        >>= accepted

    pool_step : Multi → Start Multi
    pool_step s1 =
        if given conf (codes "object_pool")
        then pool_by (require conf (codes "object_pool_size"))
            (record s1 { thread_pool = given conf (codes "multi_thread") })
        else running (record s1 { thread_pool = given conf (codes "multi_thread") })
