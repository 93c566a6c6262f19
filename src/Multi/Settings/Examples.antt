-- ===== src/Multi/Settings/Examples.antt =====
-- The theorems on the start of conv_multi (core/conv_multi.h) at concrete inputs.
use conv_event.Multi.Settings.Run.{fresh_reactor}
use conv_event.Multi.Startup.{Multi, multi_members}
use conv_event.Base.{[], ◌∷◌, ◌+◌, ◌≡◌, refl, true, false, some, codes, pos}
use conv_event.Configure.{Json, JsonVal, given, index, int_or}
use conv_event.Multi.Settings.{launch_multi}
use conv_event.Multi.Settings.Build.{Usable}
use conv_event.Multi.Settings.Launch.{launched_multi, launch_multi_runs}
use conv_event.Single.Startup.{System}
use conv_event.Start.{running}

abbrev two : JsonVal
two = record {
  is_null = false;
  as_int32 = pos 2;
  as_short = pos 2;
  as_bool = false;
  as_text = codes "2";
}

abbrev all_two : Json
all_two = record {
  has_key = λ key. true;
  value = λ key. two;
  null_val = record two { is_null = true };
}

abbrev answering : System
answering = record {
  socket = some 3;
  bind = true;
  epoll_create = some 4;
  listen = true;
  epoll_ctl = true;
}

all_two-Usable : Usable all_two
unfolding int_or given index
all_two-Usable = record {
  ip = refl;
  port = refl;
  limit = refl;
  object_pool_size = λ e. refl;
  some_objects = λ e. refl;
  some_threads = λ e. (1, refl);
}

launch_multi_runs_example :
    launch_multi answering (λ i. some (i + 5)) (pos 4) all_two
    ≡ running (launched_multi all_two (λ i. i + 5) 2 3 4)
unfolding int_or given index
launch_multi_runs_example =
    launch_multi_runs answering (λ i. some (i + 5)) (λ i. i + 5) (pos 4) all_two 3 4 2
      all_two-Usable
      (record { socket = refl; bind = refl; epoll_create = refl; listen = refl; epoll_ctl = refl })
      (λ j. refl) refl refl

abbrev one_reactor : Multi
one_reactor = record multi_members { reactors = fresh_reactor 4 ∷ [] }

abbrev none_set : Json
none_set = record {
  has_key = λ key. false;
  value = λ key. two;
  null_val = record two { is_null = true };
}
