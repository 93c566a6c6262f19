-- ===== src/Multi/Settings/Events.antt =====
-- What becomes of `set_max_events_count` of conv_multi (core/conv_multi.h) when its reactors are started.
use conv_event.Base.{
  ◌≡◌, refl, ap, ◌∙◌, Bool, true, false, List, [], ◌∷◌, Option, none, some, codes, if◌then◌else◌, ℤ,
  pos, is_nonneg,
}
use conv_event.Configure.{Json, given, int_or}
use conv_event.Multi.Settings.{
  set_reactor_events, set_multi_events, init_reactor, init_reactors, add_ready,
  with_reactor_threads, reactor_threads,
}
use conv_event.Multi.Startup.{ReactorSetup, Multi, has_pool}
use conv_event.ThreadPool.Pool.{ThreadPool}

abbrev with_events : ℤ → ReactorSetup → ReactorSetup
with_events size r = record r { max_events_count = size }

either_limit :
    (b : Bool) (x y : ℤ) → b ≡ false → (if b then x else pos 4096) ≡ (if b then y else pos 4096)
either_limit false x y e = refl
either_limit true x y e = cc

threads_events :
    (conf : Json) (s : Multi) (size : ℤ) (r : ReactorSetup) (o : Option (Option ThreadPool))
    → given conf (codes "max_events_count") ≡ false
    → with_reactor_threads conf s (with_events size r) o ≡ with_reactor_threads conf s r o
threads_events conf s size r none absent = refl
threads_events conf s size r (some pool) absent =
    ap
      (λ limit. some (record {
        et = s.et;
        one_shot = s.one_shot;
        epoll_fd = r.epoll_fd;
        events = r.events;
        max_events_count = limit;
        thread_pool = pool;
        conn_pool = has_pool s.conn_pool;
        parent = true;
        close_queue = true;
      }))
      (either_limit (given conf (codes "max_events_count")) size r.max_events_count absent)

init_events :
    (b : Bool) (conf : Json) (s : Multi) (size : ℤ) (r : ReactorSetup)
    → given conf (codes "max_events_count") ≡ false
    → init_reactor conf s (if b then with_events size r else r) ≡ init_reactor conf s r
unfolding init_reactor
init_events false conf s size r absent = refl
init_events true conf s size r absent =
    threads_events conf s size r
      (reactor_threads s.thread_pool r.thread_pool (int_or conf (codes "thread_count") (pos 8)))
      absent

init_reactors_events :
    (conf : Json) (s : Multi) (size : ℤ) (rs : List ReactorSetup)
    → given conf (codes "max_events_count") ≡ false
    → init_reactors conf s (set_reactor_events size rs) ≡ init_reactors conf s rs
unfolding init_reactors set_reactor_events
init_reactors_events conf s size [] absent = refl
init_reactors_events conf s size (r ∷ rs) absent =
    ap (λ o. add_ready o (init_reactors conf s (set_reactor_events size rs)))
      (init_events (is_nonneg size) conf s size r absent)
    ∙ ap (add_ready (init_reactor conf s r)) (init_reactors_events conf s size rs absent)

-- Where the configuration has no `max_events_count`, a call of `set_max_events_count` is lost: the reactors that
-- `wait` then starts are those that it would start without the call, each taking 4096 events at a time.
pub events_lost :
    (conf : Json) (size : ℤ) (s : Multi)
    → given conf (codes "max_events_count") ≡ false
    → init_reactors conf (set_multi_events size s) (set_multi_events size s).reactors
      ≡ init_reactors conf s s.reactors
unfolding set_multi_events init_reactors
events_lost conf size s absent = tested (is_nonneg size)
  where
    changed : Bool → Multi
    changed b = if b then record s { reactors = set_reactor_events size s.reactors } else s

    tested :
        (b : Bool)
        → init_reactors conf (changed b) (changed b).reactors ≡ init_reactors conf s s.reactors
    tested true = init_reactors_events conf s size s.reactors absent
    tested false = refl
