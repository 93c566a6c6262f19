-- ===== src/Multi/Settings/Launch.antt =====
-- A conv_multi (core/conv_multi.h) whose configuration is complete starts, with the settings that it names.
use conv_event.Base.{
  sym, ℕ, ◌≡◌, refl, ap, ◌∙◌, Bool, true, false, [], Option, none, some, codes, if◌then◌else◌, ℤ,
  pos, is_nonneg, to_limit,
}
use conv_event.Configure.{Json, given, int_or, bool_or}
use conv_event.Conn.State.{epoll_add}
use conv_event.Memory.{ConnPool}
use conv_event.Multi.Startup.{
  Multi, AcceptorSetup, multi_members, set_acceptor, close_acceptor, check_acceptor, acceptor_event,
  acceptor_epoll, register_acceptor, acceptor_start, has_pool,
}
use conv_event.Multi.Settings.{
  read_multi_flags, with_reactors, pass_pool, start_multi, launch_multi,
}
use conv_event.Multi.Settings.Run.{ready_reactors, init_reactors_run}
use conv_event.Single.Settings.Pools.{objects, reuse_options}
use conv_event.Single.Settings.Launch.{Succeeds}
use conv_event.Single.Startup.{System}
use conv_event.Socket.State.{fd, no_fd}
use conv_event.Start.{Start, running, exited, thrown, ◌>>=◌}
use conv_event.Multi.Settings.Build.{Usable, pool_of, built_multi, construct_multi_run}

pass_pool_run :
    (o : Option ConnPool) (s : Multi) → s.acceptor.conn_pool ≡ has_pool o → pass_pool o s ≡ s
pass_pool_run none s e = refl
pass_pool_run (some pool) s e =
    ap (λ b. set_acceptor (record s.acceptor { conn_pool = b }) s) (sym e)

check_acceptor_run : (b : Bool) (s : Multi) → b ≡ true → check_acceptor b s ≡ running s
unfolding check_acceptor
check_acceptor_run b s e = ap (λ (c : Bool). if c then running s else exited (close_acceptor s)) e

abbrev listening : AcceptorSetup → ℕ → AcceptorSetup
listening a m = record a { event = true; epoll_fd = fd m }

acceptor_event_run :
    (s : Multi)
    → s.acceptor.event ≡ false
    → is_nonneg s.acceptor.max_event_count ≡ true
    → acceptor_event s ≡ running (set_acceptor (record s.acceptor { event = true }) s)
unfolding acceptor_event
acceptor_event_run s none_yet nonneg =
    ap
      (λ (b : Bool).
        if b
        then running s
        else if is_nonneg s.acceptor.max_event_count
        then running (set_acceptor (record s.acceptor { event = true }) s)
        else thrown)
      none_yet
    ∙ ap
        (λ (b : Bool).
          if b then running (set_acceptor (record s.acceptor { event = true }) s) else thrown)
        nonneg

acceptor_start_run :
    (os : System) (n m : ℕ) (s : Multi)
    → Succeeds os n m
    → s.acceptor.event ≡ false
    → s.acceptor.epoll_fd ≡ no_fd
    → is_nonneg s.acceptor.max_event_count ≡ true
    → acceptor_start os s
      ≡ running (record s {
        acceptor = listening s.acceptor m;
        calls = epoll_add (fd m) s.acceptor.socket_fd false false false s.calls;
        acceptor_run = true;
      })
unfolding acceptor_start acceptor_epoll register_acceptor
acceptor_start_run os n m s ok none_yet no_epoll nonneg =
    ap (λ r. r >>= λ s1. acceptor_event s1 >>= watched) (check_acceptor_run os.bind s ok.bind)
    ∙ ap (λ r. r >>= watched) (acceptor_event_run s none_yet nonneg)
    ∙ ap (λ f. acceptor_epoll f os.epoll_create with_event >>= registered) no_epoll
    ∙ ap (λ o. acceptor_epoll no_fd o with_event >>= registered) ok.epoll_create
    ∙ ap (λ r. r >>= listened) (check_acceptor_run os.epoll_ctl _ ok.epoll_ctl)
    ∙ ap (λ r. r >>= λ s5. running (record s5 { acceptor_run = true }))
        (check_acceptor_run os.listen _ ok.listen)
  where
    with_event : Multi
    with_event = set_acceptor (record s.acceptor { event = true }) s

    listened : Multi → Start Multi
    listened s4 = check_acceptor os.listen s4 >>= λ s5. running (record s5 { acceptor_run = true })

    registered : Multi → Start Multi
    registered s3 = register_acceptor os s3 >>= listened

    watched : Multi → Start Multi
    watched s2 = acceptor_epoll s2.acceptor.epoll_fd os.epoll_create s2 >>= registered

abbrev pub launched_multi : Json → (ℕ → ℕ) → ℕ → ℕ → ℕ → Multi
launched_multi conf fds k n m = record {
  et = bool_or conf (codes "et") false;
  one_shot = bool_or conf (codes "one_shot") true;
  ip = (conf.value (codes "ip")).as_text;
  port = (conf.value (codes "port")).as_short;
  max_connect_count = to_limit (conf.value (codes "max_connect_count")).as_int32;
  thread_pool = given conf (codes "multi_thread");
  acceptor = record {
    ip = (conf.value (codes "ip")).as_text;
    port = (conf.value (codes "port")).as_short;
    socket_fd = fd n;
    my_addr = some ((conf.value (codes "ip")).as_text, (conf.value (codes "port")).as_short);
    listen_queue_count = int_or conf (codes "listen_queue_count") (pos 1024);
    epoll_fd = fd m;
    max_event_count = int_or conf (codes "max_events_count") (pos 4096);
    event = true;
    parent = true;
    conn_pool = has_pool (pool_of conf);
  };
  conn_pool = pool_of conf;
  memory = if given conf (codes "object_pool") then (objects conf).1 else multi_members.memory;
  reactors =
      ready_reactors (bool_or conf (codes "et") false) (bool_or conf (codes "one_shot") true)
        (given conf (codes "multi_thread")) (has_pool (pool_of conf)) fds k 0;
  reactors_run = true;
  acceptor_run = true;
  calls = epoll_add (fd m) (fd n) false false false [];
  options = reuse_options conf (fd n);
}

-- A multi-reactor server starts if the keys that it asks for are there, the numbers of reactors and of events are
-- not negative, the system calls succeed, thread_count, 8 where it is not set, is positive if `multi_thread` is not
-- null, and object_pool_size is not negative if `object_pool` is not null. It has the configured number of reactors, each with a
-- descriptor of its own, the server's flags, a thread pool exactly if `multi_thread` is not null and the shared pool
-- exactly if `object_pool` is not null; the acceptor watches its socket. A reactor takes 4096 events at a time,
-- whatever `max_events_count` is.
pub launch_multi_runs :
    (os : System) (answers : ℕ → Option ℕ) (fds : ℕ → ℕ) (c : ℤ) (conf : Json) (n m k : ℕ)
    → Usable conf
    → Succeeds os n m
    → ((j : ℕ) → answers j ≡ some (fds j))
    → int_or conf (codes "reactor_count") c ≡ pos k
    → is_nonneg (int_or conf (codes "max_events_count") (pos 4096)) ≡ true
    → launch_multi os answers c conf ≡ running (launched_multi conf fds k n m)
unfolding launch_multi start_multi read_multi_flags
launch_multi_runs os answers fds c conf n m k h ok g count nonneg =
    let s = built_multi conf fds k n in
    ap (λ r. r >>= start_multi os conf)
      (construct_multi_run os answers fds c conf n k h ok.socket g count)
    ∙ ap
        (λ o.
          with_reactors (record (pass_pool s.conn_pool s) { reactors_run = true }) o
          >>= acceptor_start os)
        (init_reactors_run conf s fds k 0 h.some_threads)
    ∙ ap
        (λ (t : Multi). acceptor_start os (record t {
          reactors_run = true;
          reactors = ready_reactors s.et s.one_shot s.thread_pool (has_pool s.conn_pool) fds k 0;
        }))
        (pass_pool_run s.conn_pool s refl)
    ∙ acceptor_start_run os n m _ ok refl refl nonneg
