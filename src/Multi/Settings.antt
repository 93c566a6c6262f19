-- ===== src/Multi/Settings.antt =====
-- The constructor of conv_multi (core/conv_multi.h), the members that set its options, and `wait` up to the
-- loops of the reactors (core/include/reactor.h) and of the acceptor.
mod Run
mod Build
mod Launch
mod Events
mod Examples
use conv_event.Multi.Startup.{has_pool}
use conv_event.Base.{
  ℕ, Bool, true, false, List, [], ◌∷◌, ◌++◌, Option, none, some, Bytes, codes, if◌then◌else◌, ℤ,
  pos, is_nonneg, to_size, to_limit,
}
use conv_event.Configure.{Json, JsonVal, require, given, int_or, bool_or}
use conv_event.Memory.{Memory, ConnPool, new_pool}
use conv_event.Multi.Startup.{
  ReactorSetup, Multi, multi_members, set_acceptor, init_acceptor, acceptor_start, resize,
}
use conv_event.Single.Startup.{SocketOption, reuse_addr, reuse_port, System}
use conv_event.Start.{Start, running, exited, thrown, ◌>>=◌}
use conv_event.ThreadPool.Pool.{ThreadPool, new_threadpool}

-- `setsockopt` of the acceptor with 1 or 0.
unfoldable pub set_acceptor_option : SocketOption → Bool → Multi → Multi
set_acceptor_option o on s = record s {
  options = s.options ++ ((s.acceptor.socket_fd, o, on) ∷ []);
}

abbrev pub keep_or_fill_pool : Option ConnPool → ConnPool × Memory → Multi → Multi
keep_or_fill_pool (some pool) made s = s
keep_or_fill_pool none (pool, memory) s = record s { conn_pool = some pool; memory = memory }

-- `enable_object_pool` and `disable_object_pool`
unfoldable pub enable_shared_pool : ℕ → Multi → Multi
unfolding new_pool
enable_shared_pool size s = keep_or_fill_pool s.conn_pool (new_pool size s.memory) s

unfoldable pub disable_shared_pool : Multi → Multi
disable_shared_pool s = record s { conn_pool = none }

abbrev pub set_threaded : Bool → Multi → Multi
set_threaded on s = record s { thread_pool = on }

abbrev pub set_multi_et : Bool → Multi → Multi
set_multi_et on s = record s { et = on }

abbrev pub set_multi_one_shot : Bool → Multi → Multi
set_multi_one_shot on s = record s { one_shot = on }

unfoldable pub set_reactor_events : ℤ → List ReactorSetup → List ReactorSetup
set_reactor_events size [] = []
set_reactor_events size (r ∷ rs) =
    (if is_nonneg size then record r { max_events_count = size } else r)
    ∷ set_reactor_events size rs

-- `set_max_events_count`, `set_max_connect_count` and `set_listen_queue_count`
unfoldable pub set_multi_events : ℤ → Multi → Multi
unfolding set_reactor_events
set_multi_events size s =
    if is_nonneg size then record s { reactors = set_reactor_events size s.reactors } else s

unfoldable pub set_multi_connects : ℤ → Multi → Multi
set_multi_connects size s =
    if is_nonneg size then record s { max_connect_count = to_limit size } else s

unfoldable pub set_multi_listen : ℤ → Multi → Multi
set_multi_listen size s =
    if is_nonneg size then set_acceptor (record s.acceptor { listen_queue_count = size }) s else s

abbrev pub with_keys : Option JsonVal → Option JsonVal → Option JsonVal → Multi → Start Multi
with_keys (some ip) (some port) (some max_connect_count) s = running (record s {
  ip = ip.as_text;
  port = port.as_short;
  max_connect_count = to_limit max_connect_count.as_int32;
})
with_keys (some ip) (some port) none s = thrown
with_keys (some ip) none _ s = thrown
with_keys none _ _ s = thrown

abbrev pub pool_by : Option JsonVal → Multi → Start Multi
pool_by none s = thrown
pool_by (some size) s =
    if is_nonneg size.as_int32
    then running (enable_shared_pool (to_size size.as_int32) s)
    else thrown

unfoldable pub read_multi_flags : Json → Multi → Multi
unfolding bool_or
read_multi_flags conf s = record s {
  one_shot = bool_or conf (codes "one_shot") s.one_shot;
  et = bool_or conf (codes "et") s.et;
}

unfoldable pub reuse_multi : Json → Multi → Multi
unfolding bool_or set_acceptor_option
reuse_multi conf s =
    let s' =
      if bool_or conf (codes "port_reuse") false
      then set_acceptor_option reuse_port true s
      else s in
    if bool_or conf (codes "address_reuse") false
    then set_acceptor_option reuse_addr true s'
    else s'

-- `conv_multi(reactor_count)`; the configuration is none where the file could not be loaded.
unfoldable pub construct_multi : System → (ℕ → Option ℕ) → ℤ → Option Json → Start Multi
unfolding given require enable_shared_pool read_multi_flags resize init_acceptor reuse_multi int_or
construct_multi os answers reactor_count none = exited multi_members
construct_multi os answers reactor_count (some conf) = do
  s1 ←
      with_keys (require conf (codes "ip")) (require conf (codes "port"))
        (require conf (codes "max_connect_count")) multi_members
  s2 ←
      if given conf (codes "object_pool")
      then pool_by (require conf (codes "object_pool_size"))
          (record s1 { thread_pool = given conf (codes "multi_thread") })
      else running (record s1 { thread_pool = given conf (codes "multi_thread") })
  s3 ← resize (int_or conf (codes "reactor_count") reactor_count) answers (read_multi_flags conf s2)
  s4 ← init_acceptor os conf (record s3 { reactors_run = true })
  running (reuse_multi conf s4)

-- The thread pool of a reactor; none where its constructor ends the program.
abbrev pub reactor_threads : Bool → Option ThreadPool → ℤ → Option (Option ThreadPool)
reactor_threads false pool count = some pool
reactor_threads true (some pool) count = some (some pool)
reactor_threads true none count = elim (new_threadpool count (pos 40000)) [
  | none ↦ none
  | some pool ↦ some (some pool)
]

-- `reactor::init`. A configured max_events_count leaves the member as it is.
abbrev pub with_reactor_threads :
    Json → Multi → ReactorSetup → Option (Option ThreadPool) → Option ReactorSetup
with_reactor_threads conf s r none = none
with_reactor_threads conf s r (some pool) = some (record {
  et = s.et;
  one_shot = s.one_shot;
  epoll_fd = r.epoll_fd;
  events = r.events;
  max_events_count = if given conf (codes "max_events_count") then r.max_events_count else pos 4096;
  thread_pool = pool;
  conn_pool = has_pool s.conn_pool;
  parent = true;
  close_queue = true;
})

unfoldable pub init_reactor : Json → Multi → ReactorSetup → Option ReactorSetup
unfolding given int_or new_threadpool
init_reactor conf s r =
    with_reactor_threads conf s r
      (reactor_threads s.thread_pool r.thread_pool (int_or conf (codes "thread_count") (pos 8)))

abbrev pub add_ready : Option ReactorSetup → Option (List ReactorSetup) → Option (List ReactorSetup)
add_ready none rs = none
add_ready (some r) none = none
add_ready (some r) (some rs) = some (r ∷ rs)

-- The loop of `wait` over the reactors, each of which then works in a thread of its own.
unfoldable pub init_reactors : Json → Multi → List ReactorSetup → Option (List ReactorSetup)
unfolding init_reactor
init_reactors conf s [] = some []
init_reactors conf s (r ∷ rs) = add_ready (init_reactor conf s r) (init_reactors conf s rs)

abbrev pub with_reactors : Multi → Option (List ReactorSetup) → Start Multi
with_reactors s none = exited s
with_reactors s (some rs) = running (record s { reactors = rs })

-- `if(conn_pool) _acceptor.set_conn_pool(conn_pool);`
abbrev pub pass_pool : Option ConnPool → Multi → Multi
pass_pool none s = s
pass_pool (some pool) s = set_acceptor (record s.acceptor { conn_pool = true }) s

-- `wait` up to the loops.
unfoldable pub start_multi : System → Json → Multi → Start Multi
unfolding init_reactors acceptor_start
start_multi os conf s = do
  s1 ←
      with_reactors (record (pass_pool s.conn_pool s) { reactors_run = true })
        (init_reactors conf s s.reactors)
  acceptor_start os s1

-- `conv_multi::close`
unfoldable pub close_multi : Multi → Multi
close_multi s = record s { acceptor_run = false; reactors_run = false; conn_pool = none }

-- The constructor, then `wait` up to the loops.
unfoldable pub launch_multi : System → (ℕ → Option ℕ) → ℤ → Json → Start Multi
unfolding construct_multi start_multi
launch_multi os answers reactor_count conf = do
  s ← construct_multi os answers reactor_count (some conf)
  start_multi os conf s
