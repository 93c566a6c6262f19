-- ===== src/Single/Settings/Limits.antt =====
-- The setters of conv_single (core/conv_single.h) keep its counts in range.
use conv_event.Single.Startup.{close}
use conv_event.Base.{
  ◌++◌, ℕ, ◌≡◌, refl, ap, sym, ◌∙◌, Bool, true, false, List, [], ◌∷◌, Option, none, some,
  if◌then◌else◌, ℤ, is_nonneg,
}
use conv_event.Memory.{ConnPool}
use conv_event.Single.Settings.{
  enable_addr_reuse, disable_addr_reuse, enable_port_reuse, disable_port_reuse, enable_multi_thread,
  keep_or_make, disable_multi_thread, enable_object_pool, keep_or_fill, disable_object_pool, set_et,
  set_one_shot, set_max_events_count, set_max_connect_count, set_listen_queue_count, set_option,
}
use conv_event.Single.Startup.{
  Single, System, check, make_events, make_epoll, prepare_epoll_event, bind, listen,
  register_listen_fd, start,
}
use conv_event.Start.{Start, running, exited, thrown, ◌>>=◌}
use conv_event.Socket.State.{Fd, fd, no_fd}
use conv_event.ThreadPool.Pool.{ThreadPool, new_threadpool}

-- The calls of the setters.
pub data Setter : Type 0 where
  addr_reuse port_reuse : Bool → Setter
  multi_thread : ℤ → ℤ → Setter
  no_multi_thread no_object_pool : Setter
  object_pool : ℕ → Setter
  et one_shot : Bool → Setter
  max_events_count max_connect_count listen_queue_count : ℤ → Setter

unfoldable pub apply : Setter → Single → Start Single
unfolding enable_addr_reuse disable_addr_reuse enable_port_reuse disable_port_reuse
    enable_multi_thread disable_multi_thread enable_object_pool disable_object_pool
    set_max_events_count set_max_connect_count set_listen_queue_count
apply (addr_reuse true) s = running (enable_addr_reuse s)
apply (addr_reuse false) s = running (disable_addr_reuse s)
apply (port_reuse true) s = running (enable_port_reuse s)
apply (port_reuse false) s = running (disable_port_reuse s)
apply (multi_thread thread_count max_process_count) s =
    enable_multi_thread thread_count max_process_count s
apply no_multi_thread s = running (disable_multi_thread s)
apply (object_pool size) s = running (enable_object_pool size s)
apply no_object_pool s = running (disable_object_pool s)
apply (et on) s = running (set_et on s)
apply (one_shot on) s = running (set_one_shot on s)
apply (max_events_count size) s = running (set_max_events_count size s)
apply (max_connect_count size) s = running (set_max_connect_count size s)
apply (listen_queue_count size) s = running (set_listen_queue_count size s)

unfoldable pub apply_all : List Setter → Single → Start Single
unfolding apply
apply_all [] s = running s
apply_all (c ∷ cs) s = do s' ← apply c s; apply_all cs s'

-- The counts that the sources hold in an `int` and use as sizes.
pub record InRange (s : Single) : Type 0 where
  pub events_nonneg : is_nonneg s.max_events_count ≡ true
  pub listen_nonneg : is_nonneg s.listen_queue_count ≡ true

abbrev pub Runs : (Single → Type 0) → Start Single → Type 0
Runs P (running s) = P s
Runs P (exited s) = Unit {0}
Runs P thrown = ⊥

Runs-bind :
    (P Q : Single → Type 0) (r : Start Single) (f : Single → Start Single)
    → Runs P r
    → ((s : Single) → P s → Runs Q (f s))
    → Runs Q (r >>= f)
Runs-bind P Q (running s) f h g = g s h
Runs-bind P Q (exited s) f h g = tt
Runs-bind P Q thrown f h g = h

true_ne_false : true ≡ false → ⊥
true_ne_false e = cc

same_counts :
    (s t : Single)
    → t.max_events_count ≡ s.max_events_count
    → t.listen_queue_count ≡ s.listen_queue_count
    → InRange s
    → InRange t
same_counts s t e e' h = record {
  events_nonneg = ap is_nonneg e ∙ h.events_nonneg;
  listen_nonneg = ap is_nonneg e' ∙ h.listen_nonneg;
}

keep_or_make-Runs :
    (old made : Option ThreadPool) (s : Single) → InRange s → Runs InRange (keep_or_make old made s)
keep_or_make-Runs (some pool) made s h = h
keep_or_make-Runs none (some pool) s h = same_counts s _ refl refl h
keep_or_make-Runs none none s h = tt

keep_or_fill-InRange :
    (old : Option ConnPool) (size : ℕ) (s : Single) → InRange s → InRange (keep_or_fill old size s)
keep_or_fill-InRange (some pool) size s h = h
keep_or_fill-InRange none size s h = same_counts s _ refl refl h

-- A setter that tests its argument, if it keeps the range whenever the test succeeds.
tested-InRange :
    (b : Bool) (s t : Single) → (b ≡ true → InRange t) → InRange s → InRange (if b then t else s)
tested-InRange true s t g h = g refl
tested-InRange false s t g h = h

apply-Runs : (c : Setter) (s : Single) → InRange s → Runs InRange (apply c s)
unfolding apply enable_addr_reuse disable_addr_reuse enable_port_reuse disable_port_reuse set_option
    enable_multi_thread disable_multi_thread enable_object_pool disable_object_pool
    set_max_events_count set_max_connect_count set_listen_queue_count
apply-Runs (addr_reuse true) s h = same_counts s _ refl refl h
apply-Runs (addr_reuse false) s h = same_counts s _ refl refl h
apply-Runs (port_reuse true) s h = same_counts s _ refl refl h
apply-Runs (port_reuse false) s h = same_counts s _ refl refl h
apply-Runs (multi_thread a b) s h = keep_or_make-Runs s.server.thread_pool (new_threadpool a b) s h
apply-Runs no_multi_thread s h = same_counts s _ refl refl h
apply-Runs (object_pool size) s h = keep_or_fill-InRange s.server.conn_pool size s h
apply-Runs no_object_pool s h = same_counts s _ refl refl h
apply-Runs (et on) s h = same_counts s _ refl refl h
apply-Runs (one_shot on) s h = same_counts s _ refl refl h
apply-Runs (max_events_count size) s h =
    tested-InRange (is_nonneg size) s (record s { max_events_count = size })
      (λ e. record { events_nonneg = e; listen_nonneg = h.listen_nonneg }) h
apply-Runs (max_connect_count size) s h =
    tested-InRange (is_nonneg size) s _ (λ e. same_counts s _ refl refl h) h
apply-Runs (listen_queue_count size) s h =
    tested-InRange (is_nonneg size) s (record s { listen_queue_count = size })
      (λ e. record { events_nonneg = h.events_nonneg; listen_nonneg = e }) h

apply_all-Runs : (cs : List Setter) (s : Single) → InRange s → Runs InRange (apply_all cs s)
unfolding apply_all
apply_all-Runs [] s h = h
apply_all-Runs (c ∷ cs) s h =
    Runs-bind InRange InRange (apply c s) (apply_all cs) (apply-Runs c s h) (apply_all-Runs cs)

check-Runs : (b : Bool) (s : Single) → InRange s → Runs InRange (check b s)
unfolding check
check-Runs true s h = h
check-Runs false s h = tt

make_epoll-Runs : (f : Fd) (os : System) (s : Single) → InRange s → Runs InRange (make_epoll f os s)
unfolding make_epoll
make_epoll-Runs (fd n) os s h = h
make_epoll-Runs no_fd os s h =
    elim os.epoll_create
      as (λ o. Runs InRange (elim o [
        | none ↦ exited (close s)
        | some n ↦ running (record s {
          server = record s.server { epoll_fd = fd n };
          opened = s.opened ++ (n ∷ []);
        })
      ])) [ none ↦ tt | some n ↦ same_counts s _ refl refl h ]

if-Runs :
    (b : Bool) (P : Single → Type 0) (x y : Start Single)
    → Runs P x
    → (b ≡ false → Runs P y)
    → Runs P (if b then x else y)
if-Runs true P x y h g = h
if-Runs false P x y h g = g refl

make_events-Runs : (s : Single) → InRange s → Runs InRange (make_events s)
unfolding make_events
make_events-Runs s h = if-Runs s.events InRange (running s) _ h (λ _.
    if-Runs (is_nonneg s.max_events_count) InRange _ thrown (same_counts s _ refl refl h)
      (λ e. absurd (true_ne_false (sym h.events_nonneg ∙ e))))

start-Runs : (os : System) (s : Single) → InRange s → Runs InRange (start os s)
unfolding start bind prepare_epoll_event listen register_listen_fd
start-Runs os s h = Runs-bind InRange InRange (bind os s) _ (check-Runs os.bind s h) (λ s1 h1.
    Runs-bind InRange InRange (prepare_epoll_event os s1) _
      (Runs-bind InRange InRange (make_events s1) (λ s'. make_epoll s'.server.epoll_fd os s')
        (make_events-Runs s1 h1) (λ s' h'. make_epoll-Runs s'.server.epoll_fd os s' h'))
      (λ s2 h2.
        Runs-bind InRange InRange (listen os s2) (register_listen_fd os)
          (check-Runs os.listen s2 h2)
          (λ s3 h3. check-Runs os.epoll_ctl _ (same_counts s3 _ refl refl h3))))

-- After any setters, in any order and with any values, the sizes of the event array and of the listening queue
-- are not negative, so the server that starts then allocates its events without throwing: it comes to its loop,
-- with the sizes in range, or ends by `exit`. They are not negative before the setters.
pub apply_all-start-Runs :
    (os : System) (cs : List Setter) (s : Single)
    → InRange s
    → Runs InRange (apply_all cs s >>= start os)
apply_all-start-Runs os cs s h =
    Runs-bind InRange InRange (apply_all cs s) (start os) (apply_all-Runs cs s h) (start-Runs os)
