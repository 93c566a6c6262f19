-- ===== src/Single/Settings/Launch.antt =====
-- A conv_single (core/conv_single.h) whose configuration is complete starts, with the settings that it names.
use conv_event.Base.{
  ℕ, ◌≡◌, refl, ap, ◌∙◌, Bool, true, false, [], ◌∷◌, ◌++◌, Option, none, some, codes, if◌then◌else◌,
  pos, to_limit, is_nonneg,
}
use conv_event.Configure.{Json, require, given, int_or, bool_or}
use conv_event.Conn.State.{epoll_add}
use conv_event.Queue
use conv_event.Single.Settings.{make_pools, with_required, reuse, read_flags, construct, launch}
use conv_event.Single.Startup.{
  Single, members, System, close, check, create_socket, prepare_socket_address, make_events,
  make_epoll, prepare_epoll_event, bind, listen, register_listen_fd, start,
}
use conv_event.Start.{thrown, Start, running, exited, ◌>>=◌}
use conv_event.Socket.State.{fd, no_fd}
use conv_event.Single.Settings.Pools.{
  Complete, threads, objects, reuse_options, base, with_threads, with_objects, require_lem,
  make_pools_run, reuse_run,
}

with_required_run :
    (conf : Json)
    → Complete conf
    → with_required
        (require conf (codes "ip"))
        (require conf (codes "port"))
        (require conf (codes "max_connect_count"))
        members
      ≡ running (base conf)
with_required_run conf h =
    ap
      (λ o.
        with_required o (require conf (codes "port")) (require conf (codes "max_connect_count"))
          members)
      (require_lem conf (codes "ip") h.ip)
    ∙ ap
        (λ o.
          with_required (some (conf.value (codes "ip"))) o
            (require conf (codes "max_connect_count")) members)
        (require_lem conf (codes "port") h.port)
    ∙ ap
        (λ o.
          with_required (some (conf.value (codes "ip"))) (some (conf.value (codes "port"))) o
            members)
        (require_lem conf (codes "max_connect_count") h.limit)

abbrev with_socket : ℕ → Single → Single
with_socket n s = record s {
  server = record s.server { socket_fd = fd n };
  opened = s.opened ++ (n ∷ []);
}

create_socket_run :
    (os : System) (n : ℕ) (s : Single)
    → os.socket ≡ some n
    → create_socket os s ≡ running (with_socket n s)
unfolding create_socket
create_socket_run os n s e =
    ap (λ (o : Option ℕ). elim o [ none ↦ exited (close s) | some k ↦ running (with_socket k s) ]) e

abbrev with_epoll : ℕ → Single → Single
with_epoll n s = record s {
  server = record s.server { epoll_fd = fd n };
  opened = s.opened ++ (n ∷ []);
}

make_epoll_run :
    (os : System) (n : ℕ) (s : Single)
    → os.epoll_create ≡ some n
    → make_epoll no_fd os s ≡ running (with_epoll n s)
unfolding make_epoll
make_epoll_run os n s e =
    ap (λ (o : Option ℕ). elim o [ none ↦ exited (close s) | some k ↦ running (with_epoll k s) ]) e

-- The members after the constructor.
abbrev built : Json → ℕ → Single
built conf n =
    let s = with_socket n (read_flags conf (with_objects conf (with_threads conf (base conf)))) in
    record (prepare_socket_address s) { options = reuse_options conf (fd n); close_queue = true }

construct_run :
    (os : System) (conf : Json) (n : ℕ)
    → Complete conf
    → os.socket ≡ some n
    → construct os (some conf) ≡ running (built conf n)
unfolding construct read_flags
construct_run os conf n h e =
    ap (λ r. r >>= λ s1. make_pools conf s1 >>= finish) (with_required_run conf h)
    ∙ ap (λ r. r >>= finish) (make_pools_run conf h)
    ∙ ap (λ r. r >>= ready)
        (create_socket_run os n
          (read_flags conf (with_objects conf (with_threads conf (base conf)))) e)
    ∙ ap (λ (s : Single). running (record s { close_queue = true }))
        (reuse_run conf (
          prepare_socket_address
            (with_socket n (read_flags conf (with_objects conf (with_threads conf (base conf)))))))
  where
    ready : Single → Start Single
    ready s3 = running (record (reuse conf (prepare_socket_address s3)) { close_queue = true })

    finish : Single → Start Single
    finish s2 = create_socket os (read_flags conf s2) >>= ready

check_run : (b : Bool) (s : Single) → b ≡ true → check b s ≡ running s
unfolding check
check_run b s e = ap (λ (c : Bool). if c then running s else exited (close s)) e

prepare_run :
    (os : System) (m : ℕ) (s : Single)
    → s.events ≡ false
    → s.server.epoll_fd ≡ no_fd
    → is_nonneg s.max_events_count ≡ true
    → os.epoll_create ≡ some m
    → prepare_epoll_event os s ≡ running (with_epoll m (record s { events = true }))
unfolding prepare_epoll_event make_events
prepare_run os m s none_yet no_epoll nonneg e =
    ap (λ r. r >>= λ s'. make_epoll s'.server.epoll_fd os s')
      (ap
          (λ (b : Bool).
            if b
            then running s
            else if is_nonneg s.max_events_count
            then running (record s { events = true })
            else thrown)
          none_yet
        ∙ ap (λ (b : Bool). if b then running (record s { events = true }) else thrown) nonneg)
    ∙ ap (λ f. make_epoll f os (record s { events = true })) no_epoll
    ∙ make_epoll_run os m (record s { events = true }) e

-- Every system call succeeds.
pub record Succeeds (os : System) (n m : ℕ) : Type 0 where
  pub socket : os.socket ≡ some n
  pub bind : os.bind ≡ true
  pub epoll_create : os.epoll_create ≡ some m
  pub listen : os.listen ≡ true
  pub epoll_ctl : os.epoll_ctl ≡ true

abbrev pub launched : Json → ℕ → ℕ → Single
launched conf n m = record {
  server = record {
    socket_fd = fd n;
    epoll_fd = fd m;
    et = bool_or conf (codes "et") false;
    one_shot = bool_or conf (codes "one_shot") true;
    max_connect_count = to_limit (conf.value (codes "max_connect_count")).as_int32;
    current_connect_count = 0;
    connects = [];
    conn_pool = if given conf (codes "object_pool") then some (objects conf).0 else none;
    thread_pool = if given conf (codes "multi_thread") then threads else none;
    memory = if given conf (codes "object_pool") then (objects conf).1 else members.server.memory;
    shared = record {
      to_close = Queue.new_queue;
      calls = epoll_add (fd m) (fd n) (bool_or conf (codes "et") false) false false [];
    };
  };
  ip = (conf.value (codes "ip")).as_text;
  port = (conf.value (codes "port")).as_short;
  my_addr = some ((conf.value (codes "ip")).as_text, (conf.value (codes "port")).as_short);
  listen_queue_count = int_or conf (codes "listen_queue_count") (pos 1024);
  max_events_count = int_or conf (codes "max_events_count") (pos 4096);
  events = true;
  close_queue = true;
  options = reuse_options conf (fd n);
  opened = n ∷ m ∷ [];
}

-- A server starts, and listens with the settings of its configuration, if the keys that it asks for are there,
-- thread_count is positive if `multi_thread` is not null, object_pool_size is not negative if `object_pool` is not
-- null, the number of events is not negative and the system calls succeed. The keys that it asks for are ip, port,
-- max_connect_count, with `multi_thread` thread_count and with `object_pool` object_pool_size. It has a thread pool exactly if `multi_thread`
-- is not null, and a connection pool exactly if `object_pool` is not null, whatever their values are; the epoll
-- descriptor watches the listening one.
pub launch_runs :
    (os : System) (conf : Json) (n m : ℕ)
    → Complete conf
    → Succeeds os n m
    → is_nonneg (int_or conf (codes "max_events_count") (pos 4096)) ≡ true
    → launch os (some conf) ≡ running (launched conf n m)
unfolding launch start bind listen register_listen_fd
launch_runs os conf n m h ok nonneg =
    ap (λ r. r >>= start os) (construct_run os conf n h ok.socket)
    ∙ ap
        (λ r.
          r >>= λ s1. prepare_epoll_event os s1 >>= λ s2. listen os s2 >>= register_listen_fd os)
        (check_run os.bind (built conf n) ok.bind)
    ∙ ap (λ r. r >>= λ s2. listen os s2 >>= register_listen_fd os)
        (prepare_run os m (built conf n) refl refl nonneg ok.epoll_create)
    ∙ ap (λ r. r >>= register_listen_fd os) (check_run os.listen _ ok.listen)
    ∙ check_run os.epoll_ctl _ ok.epoll_ctl
