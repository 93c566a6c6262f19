-- ===== src/Single/Settings/Leaks.antt =====
-- What becomes of the descriptors that conv_single (core/conv_single.h) opens while it starts.
use conv_event.Base.{is_nonneg}
use conv_event.Base.{ℕ, refl, Bool, true, false, Option, none, some, codes, if◌then◌else◌, to_size}
use conv_event.Configure.{Json, JsonVal, require, given}
use conv_event.Memory.{ConnPool}
use conv_event.Single.Settings.{
  set_option, enable_port_reuse, enable_addr_reuse, keep_or_make, enable_multi_thread, keep_or_fill,
  enable_object_pool, with_required, threads_by, objects_by, make_pools, read_flags, reuse,
  construct, launch,
}
use conv_event.Single.Startup.{
  Single, members, System, create_socket, prepare_socket_address, start,
}
use conv_event.Start.{thrown, running}
use conv_event.ThreadPool.Pool.{ThreadPool}
use conv_event.Single.Settings.Held.{
  Held, Unopened, Ends, Ends-bind, Unopened-AllClosed, if-Ends, create_socket-Ends, start-Ends,
  closed_fds,
}

keep_or_make-Ends :
    (old made : Option ThreadPool) (s : Single)
    → Unopened s
    → Ends Unopened (keep_or_make old made s)
keep_or_make-Ends (some pool) made s h = h
keep_or_make-Ends none (some pool) s h = record {
  no_socket = h.no_socket;
  no_epoll = h.no_epoll;
  none_opened = h.none_opened;
  open_yet = h.open_yet;
}
keep_or_make-Ends none none s h = Unopened-AllClosed s h

keep_or_fill-Unopened :
    (old : Option ConnPool) (size : ℕ) (s : Single)
    → Unopened s
    → Unopened (keep_or_fill old size s)
keep_or_fill-Unopened (some pool) size s h = h
keep_or_fill-Unopened none size s h = record {
  no_socket = h.no_socket;
  no_epoll = h.no_epoll;
  none_opened = h.none_opened;
  open_yet = h.open_yet;
}

threads_by-Ends : (o : Option JsonVal) (s : Single) → Unopened s → Ends Unopened (threads_by o s)
unfolding enable_multi_thread
threads_by-Ends none s h = tt
threads_by-Ends (some v) s h = keep_or_make-Ends s.server.thread_pool _ s h

objects_by-Ends : (o : Option JsonVal) (s : Single) → Unopened s → Ends Unopened (objects_by o s)
unfolding enable_object_pool
objects_by-Ends none s h = tt
objects_by-Ends (some v) s h =
    if-Ends (is_nonneg v.as_int32) Unopened _ thrown
      (keep_or_fill-Unopened s.server.conn_pool (to_size v.as_int32) s h) tt

make_pools-Ends : (conf : Json) (s : Single) → Unopened s → Ends Unopened (make_pools conf s)
unfolding make_pools
make_pools-Ends conf s h =
    Ends-bind Unopened Unopened _ _
      (if-Ends (given conf (codes "multi_thread")) Unopened _ (running s) (threads_by-Ends _ s h) h)
      (λ s' h'.
        if-Ends (given conf (codes "object_pool")) Unopened _ (running s') (objects_by-Ends _ s' h')
          h')

with_required-Ends : (a b c : Option JsonVal) → Ends Unopened (with_required a b c members)
unfolding closed_fds
with_required-Ends (some a) (some b) (some c) = record {
  no_socket = refl;
  no_epoll = refl;
  none_opened = refl;
  open_yet = refl;
}
with_required-Ends (some a) (some b) none = tt
with_required-Ends (some a) none c = tt
with_required-Ends none b c = tt

reuse_by-Held :
    (b : Bool) (f : Single → Single) (s : Single)
    → ((t : Single) → Held t → Held (f t))
    → Held s
    → Held (if b then f s else s)
reuse_by-Held true f s g h = g s h
reuse_by-Held false f s g h = h

reuse-Held : (conf : Json) (s : Single) → Held s → Held (reuse conf s)
unfolding reuse enable_port_reuse enable_addr_reuse set_option
reuse-Held conf s h =
    reuse_by-Held _ enable_addr_reuse _ (λ t g. record { held = g.held; open_yet = g.open_yet })
      (reuse_by-Held _ enable_port_reuse s (λ t g. record { held = g.held; open_yet = g.open_yet })
        h)

construct-Ends : (os : System) (conf : Option Json) → Ends Held (construct os conf)
unfolding construct read_flags closed_fds
construct-Ends os none = refl
construct-Ends os (some conf) =
    Ends-bind Unopened Held _ _
      (with_required-Ends (require conf (codes "ip")) (require conf (codes "port"))
        (require conf (codes "max_connect_count")))
      (λ s1 h1.
        Ends-bind Unopened Held (make_pools conf s1) _ (make_pools-Ends conf s1 h1) (λ s2 h2.
          Ends-bind Held Held (create_socket os (read_flags conf s2)) _
            (create_socket-Ends os (read_flags conf s2) (record {
              no_socket = h2.no_socket;
              no_epoll = h2.no_epoll;
              none_opened = h2.none_opened;
              open_yet = h2.open_yet;
            }))
            (λ s3 h3.
              let h4 =
                reuse-Held conf (prepare_socket_address s3)
                  (record { held = h3.held; open_yet = h3.open_yet }) in
              record { held = h4.held; open_yet = h4.open_yet })))

-- Whatever the configuration is and the system calls answer, no descriptor leaks while the server starts: if
-- the program ends, each descriptor that it opened has been closed, once and in the order of opening; if it goes
-- on to its loop, the listening and the epoll descriptor are the opened ones and none is closed. A start that
-- throws is left out.
pub launch-Ends : (os : System) (conf : Option Json) → Ends Held (launch os conf)
unfolding launch
launch-Ends os conf =
    Ends-bind Held Held (construct os conf) (start os) (construct-Ends os conf) (start-Ends os)
