-- ===== src/Single/Settings/Pools.antt =====
-- The pools and options that a configuration gives a conv_single (core/conv_single.h).
use conv_event.Base.{
  append_assoc, append-nil, sym, ℕ, suc, ◌≡◌, refl, ap, ◌∙◌, Bool, true, false, List, [], ◌∷◌, ◌++◌,
  Option, none, some, Bytes, codes, if◌then◌else◌, ℤ, pos, to_size, to_limit, is_nonneg,
}
use conv_event.Configure.{Json, require, given, bool_or}
use conv_event.Memory.{ConnPool, Memory, new_pool}
use conv_event.Queue
use conv_event.Single.Settings.{
  keep_or_make, enable_multi_thread, with_conn_pool, enable_object_pool, threads_by, objects_by,
  make_pools, with_thread_pool, reuse, enable_port_reuse, enable_addr_reuse, set_option,
}
use conv_event.Single.Startup.{Single, members, SocketOption, reuse_addr, reuse_port}
use conv_event.Start.{Start, running, thrown, ◌>>=◌}
use conv_event.Socket.State.{Fd}
use conv_event.ThreadPool.Pool.{ThreadPool, new_threadpool}

abbrev pub IsPositive : ℤ → Type 0
IsPositive n = (k : ℕ) × (n ≡ pos (suc k))

-- The keys that the constructor asks for are there, and the pools that it makes have usable sizes.
pub record Complete (conf : Json) : Type 0 where
  pub ip : conf.has_key (codes "ip") ≡ true
  pub port : conf.has_key (codes "port") ≡ true
  pub limit : conf.has_key (codes "max_connect_count") ≡ true
  pub thread_count :
      given conf (codes "multi_thread") ≡ true → conf.has_key (codes "thread_count") ≡ true
  pub some_threads :
      given conf (codes "multi_thread") ≡ true
      → IsPositive (conf.value (codes "thread_count")).as_int32
  pub object_pool_size :
      given conf (codes "object_pool") ≡ true → conf.has_key (codes "object_pool_size") ≡ true
  pub some_objects :
      given conf (codes "object_pool") ≡ true
      → is_nonneg (conf.value (codes "object_pool_size")).as_int32 ≡ true

-- The pool of threads that `multi_thread` asks for, and the pool of connections that `object_pool` does.
abbrev pub threads : Option ThreadPool
threads = some (record { max_process_count = 40000; process_pool = Queue.new_queue; sem = 0 })

abbrev pub objects : Json → ConnPool × Memory
objects conf =
    new_pool (to_size (conf.value (codes "object_pool_size")).as_int32) members.server.memory

abbrev pub reuse_options : Json → Fd → List (Fd × SocketOption × Bool)
reuse_options conf f =
    (if bool_or conf (codes "port_reuse") false then (f, reuse_port, true) ∷ [] else [])
    ++ (if bool_or conf (codes "address_reuse") false then (f, reuse_addr, true) ∷ [] else [])

-- The members after the required values are read.
abbrev pub base : Json → Single
base conf = record members {
  ip = (conf.value (codes "ip")).as_text;
  port = (conf.value (codes "port")).as_short;
  server = record members.server {
    max_connect_count = to_limit (conf.value (codes "max_connect_count")).as_int32;
  };
}

abbrev pub with_threads : Json → Single → Single
with_threads conf s =
    with_thread_pool (if given conf (codes "multi_thread") then threads else none) s

abbrev pub with_objects : Json → Single → Single
with_objects conf s = record s {
  server = record s.server {
    conn_pool = if given conf (codes "object_pool") then some (objects conf).0 else none;
    memory = if given conf (codes "object_pool") then (objects conf).1 else members.server.memory;
  };
}

pub require_lem :
    (conf : Json) (key : Bytes) → conf.has_key key ≡ true → require conf key ≡ some (conf.value key)
unfolding require
require_lem conf key h = rw h refl

threads_run :
    (conf : Json)
    → IsPositive (conf.value (codes "thread_count")).as_int32
    → threads_by (some (conf.value (codes "thread_count"))) (base conf)
      ≡ running (with_thread_pool threads (base conf))
unfolding enable_multi_thread new_threadpool
threads_run conf (k, p) = ap (λ c. keep_or_make none (new_threadpool c (pos 40000)) (base conf)) p

if_threads :
    (b : Bool) (r : Start Single) (s : Single)
    → s.server.thread_pool ≡ none
    → (b ≡ true → r ≡ running (with_thread_pool threads s))
    → (if b then r else running s) ≡ running (with_thread_pool (if b then threads else none) s)
if_threads true r s e h = h refl
if_threads false r s e h = ap (λ o. running (with_thread_pool o s)) e

if_objects :
    (b : Bool) (r : Start Single) (p : ConnPool × Memory) (s : Single)
    → s.server.conn_pool ≡ none
    → (b ≡ true → r ≡ running (with_conn_pool p s))
    → (if b then r else running s)
      ≡ running (record s {
        server = record s.server {
          conn_pool = if b then some p.0 else none;
          memory = if b then p.1 else s.server.memory;
        };
      })
if_objects true r p s e h = h refl
if_objects false r p s e h =
    ap (λ o. running (record s { server = record s.server { conn_pool = o } })) e

pub make_pools_run :
    (conf : Json)
    → Complete conf
    → make_pools conf (base conf) ≡ running (with_objects conf (with_threads conf (base conf)))
unfolding make_pools enable_object_pool
make_pools_run conf h =
    ap
      (λ r. r >>= λ s'.
        if given conf (codes "object_pool")
        then objects_by (require conf (codes "object_pool_size")) s'
        else running s')
      (if_threads (given conf (codes "multi_thread")) _ (base conf) refl (λ g.
        ap (λ o. threads_by o (base conf))
          (require_lem conf (codes "thread_count") (h.thread_count g))
        ∙ threads_run conf (h.some_threads g)))
    ∙ if_objects (given conf (codes "object_pool")) _ (objects conf) (with_threads conf (base conf))
        refl
        (λ g.
          ap (λ o. objects_by o (with_threads conf (base conf)))
            (require_lem conf (codes "object_pool_size") (h.object_pool_size g))
          ∙ ap
              (λ (b : Bool).
                if b
                then running (with_conn_pool (objects conf) (with_threads conf (base conf)))
                else thrown)
              (h.some_objects g))

pub reuse_run :
    (conf : Json) (s : Single)
    → reuse conf s ≡ record s { options = s.options ++ reuse_options conf s.server.socket_fd }
unfolding reuse enable_port_reuse enable_addr_reuse set_option
reuse_run conf s =
    by_flags (bool_or conf (codes "port_reuse") false) (bool_or conf (codes "address_reuse") false)
  where
    by_flags :
        (p a : Bool)
        → (if a
            then enable_addr_reuse (if p then enable_port_reuse s else s)
            else (if p then enable_port_reuse s else s))
          ≡ record s {
            options =
                s.options
                ++ ((if p then (s.server.socket_fd, reuse_port, true) ∷ [] else [])
                    ++ (if a then (s.server.socket_fd, reuse_addr, true) ∷ [] else []));
          }
    by_flags true true = ap (λ o. record s { options = o }) (append_assoc s.options _ _)
    by_flags true false = refl
    by_flags false true = refl
    by_flags false false = ap (λ o. record s { options = o }) (sym (append-nil s.options))
