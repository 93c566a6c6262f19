-- ===== src/Single/Settings.antt =====
-- The constructor of conv_single (core/conv_single.h), and the members that set its options.
mod Limits
mod Held
mod Leaks
pub mod Pools
pub mod Launch
mod Service
mod Examples
use conv_event.Base.{
  ℕ, Bool, true, false, ◌&&◌, List, [], ◌∷◌, ◌++◌, Option, none, some, Bytes, codes, if◌then◌else◌,
  ℤ, pos, is_nonneg, to_size, to_limit,
}
use conv_event.Configure.{Json, JsonVal, require, index, given, int_or, bool_or}
use conv_event.Memory.{Memory, ConnPool, new_pool}
use conv_event.Single.Startup.{
  SocketOption, reuse_addr, reuse_port, Single, members, System, create_socket,
  prepare_socket_address, start,
}
use conv_event.Start.{Start, running, exited, thrown, ◌>>=◌}
use conv_event.ThreadPool.Pool.{ThreadPool, new_threadpool}

-- `setsockopt` with 1 or 0.
unfoldable pub set_option : SocketOption → Bool → Single → Single
set_option o on s = record s { options = s.options ++ ((s.server.socket_fd, o, on) ∷ []) }

unfoldable pub enable_addr_reuse : Single → Single
unfolding set_option
enable_addr_reuse s = set_option reuse_addr true s

unfoldable pub disable_addr_reuse : Single → Single
unfolding set_option
disable_addr_reuse s = set_option reuse_addr false s

unfoldable pub enable_port_reuse : Single → Single
unfolding set_option
enable_port_reuse s = set_option reuse_port true s

unfoldable pub disable_port_reuse : Single → Single
unfolding set_option
disable_port_reuse s = set_option reuse_port false s

abbrev pub with_thread_pool : Option ThreadPool → Single → Single
with_thread_pool pool s = record s { server = record s.server { thread_pool = pool } }

abbrev pub keep_or_make : Option ThreadPool → Option ThreadPool → Single → Start Single
keep_or_make (some pool) made s = running s
keep_or_make none (some pool) s = running (with_thread_pool (some pool) s)
keep_or_make none none s = exited s

-- The constructor of the thread pool ends the program where a count is not positive.
unfoldable pub enable_multi_thread : ℤ → ℤ → Single → Start Single
unfolding new_threadpool
enable_multi_thread thread_count max_process_count s =
    keep_or_make s.server.thread_pool (new_threadpool thread_count max_process_count) s

unfoldable pub disable_multi_thread : Single → Single
disable_multi_thread s = with_thread_pool none s

abbrev pub with_conn_pool : ConnPool × Memory → Single → Single
with_conn_pool (pool, memory) s = record s {
  server = record s.server { conn_pool = some pool; memory = memory };
}

abbrev pub keep_or_fill : Option ConnPool → ℕ → Single → Single
keep_or_fill (some pool) size s = s
keep_or_fill none size s = with_conn_pool (new_pool size s.server.memory) s

unfoldable pub enable_object_pool : ℕ → Single → Single
unfolding new_pool
enable_object_pool size s = keep_or_fill s.server.conn_pool size s

unfoldable pub disable_object_pool : Single → Single
disable_object_pool s = record s { server = record s.server { conn_pool = none } }

abbrev pub set_et : Bool → Single → Single
set_et on s = record s { server = record s.server { et = on } }

abbrev pub set_one_shot : Bool → Single → Single
set_one_shot on s = record s { server = record s.server { one_shot = on } }

unfoldable pub set_max_events_count : ℤ → Single → Single
set_max_events_count size s = if is_nonneg size then record s { max_events_count = size } else s

unfoldable pub set_max_connect_count : ℤ → Single → Single
set_max_connect_count size s =
    if is_nonneg size
    then record s { server = record s.server { max_connect_count = to_limit size } }
    else s

unfoldable pub set_listen_queue_count : ℤ → Single → Single
set_listen_queue_count size s = if is_nonneg size then record s { listen_queue_count = size } else s

abbrev pub with_required : Option JsonVal → Option JsonVal → Option JsonVal → Single → Start Single
with_required (some ip) (some port) (some max_connect_count) s = running (record s {
  ip = ip.as_text;
  port = port.as_short;
  server = record s.server { max_connect_count = to_limit max_connect_count.as_int32 };
})
with_required (some ip) (some port) none s = thrown
with_required (some ip) none _ s = thrown
with_required none _ _ s = thrown

abbrev pub threads_by : Option JsonVal → Single → Start Single
threads_by none s = thrown
threads_by (some thread_count) s = enable_multi_thread thread_count.as_int32 (pos 40000) s

-- A negative size, as a size_t, asks for about 2 ^ 64 connections, and `new` throws.
abbrev pub objects_by : Option JsonVal → Single → Start Single
objects_by none s = thrown
objects_by (some size) s =
    if is_nonneg size.as_int32
    then running (enable_object_pool (to_size size.as_int32) s)
    else thrown

-- `if(conf["multi_thread"].type != JSON_NULL) …`, and the same for `object_pool`.
unfoldable pub make_pools : Json → Single → Start Single
unfolding given require enable_multi_thread enable_object_pool
make_pools conf s = do
  s' ←
      if given conf (codes "multi_thread")
      then threads_by (require conf (codes "thread_count")) s
      else running s
  if given conf (codes "object_pool")
      then objects_by (require conf (codes "object_pool_size")) s'
      else running s'

unfoldable pub read_flags : Json → Single → Single
unfolding int_or bool_or
read_flags conf s = record s {
  server = record s.server {
    one_shot = bool_or conf (codes "one_shot") s.server.one_shot;
    et = bool_or conf (codes "et") s.server.et;
  };
  max_events_count = int_or conf (codes "max_events_count") s.max_events_count;
  listen_queue_count = int_or conf (codes "listen_queue_count") s.listen_queue_count;
}

-- `if(conf[key].type != JSON_NULL && conf[key]) …`
abbrev pub reuse_by : Json → Bytes → (Single → Single) → Single → Single
reuse_by conf key f s = if bool_or conf key false then f s else s

unfoldable pub reuse : Json → Single → Single
unfolding bool_or enable_port_reuse enable_addr_reuse
reuse conf s =
    reuse_by conf (codes "address_reuse") enable_addr_reuse
      (reuse_by conf (codes "port_reuse") enable_port_reuse s)

-- `conv_single()`; the configuration is none where the file could not be loaded.
unfoldable pub construct : System → Option Json → Start Single
unfolding make_pools read_flags create_socket reuse require
construct os none = exited members
construct os (some conf) = do
  s1 ←
      with_required (require conf (codes "ip")) (require conf (codes "port"))
        (require conf (codes "max_connect_count")) members
  s2 ← make_pools conf s1
  s3 ← create_socket os (read_flags conf s2)
  running (record (reuse conf (prepare_socket_address s3)) { close_queue = true })

-- The constructor, then `wait` up to its loop.
unfoldable pub launch : System → Option Json → Start Single
unfolding construct start
launch os conf = do s ← construct os conf; start os s
