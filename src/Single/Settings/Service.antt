-- ===== src/Single/Settings/Service.antt =====
-- The loop of conv_single (core/conv_single.h) on the state that its start leaves.
use conv_event.Configure.{given}
use conv_event.Memory.{ConnPool, Memory}
use conv_event.Single.Ownership.{
  Owned, count_pool, allocated, rounds-Owned, Owned-Preserved, new_pool-Owned,
}
use conv_event.Single.Server.{Server}
use conv_event.Single.Settings.Pools.{objects}
use conv_event.Single.Startup.{members}
use conv_event.Base.{
  count, to_size, none, Option, if◌then◌else◌, Bool, false, ◌+◌, ℕ, ◌≡◌, refl, true, List, some,
  arith, codes, pos, is_nonneg,
}
use conv_event.Configure.{Json, int_or}
use conv_event.Conn.State.{Methods}
use conv_event.Single.Invariants.{After}
use conv_event.Single.Counting.{Inv, Inv-Preserved, rounds-Inv}
use conv_event.Single.Loop.{Wait, rounds}
use conv_event.Single.Settings.{launch}
use conv_event.Single.Settings.Pools.{Complete}
use conv_event.Single.Settings.Launch.{Succeeds, launched, launch_runs}
use conv_event.Single.Startup.{Single, System}
use conv_event.Start.{running}
use conv_event.Single.Workers.{Phase, draining, Turn, turns}
use conv_event.Single.Turns.{AfterTurns, turns-AfterTurns}

launched-Inv : (conf : Json) (n m : ℕ) → Inv (launched conf n m).server
launched-Inv conf n m = record { counted = refl; bounded = omega arith }

either_pool :
    (p : ℕ) (b : Bool) (pool : ConnPool) (m m' : Memory)
    → count_pool p (some pool) + allocated p m ≡ allocated p m'
    → count p m'.deleted ≡ count p m.deleted
    → count p m.deleted + allocated p m ≡ 0
    → 0 + count_pool p (if b then some pool else none) + count p (if b then m' else m).deleted
      ≡ allocated p (if b then m' else m)
either_pool p true pool m m' e same z = omega (arith, e, same, z)
either_pool p false pool m m' e same z = omega (arith, z)

launched-Owned : (conf : Json) (n m : ℕ) → Owned (launched conf n m).server
launched-Owned conf n m = record {
  once = λ p.
      let (filled, same) =
        new_pool-Owned p (to_size (conf.value (codes "object_pool_size")).as_int32)
          members.server.memory in
      either_pool p (given conf (codes "object_pool")) (objects conf).0 members.server.memory
        (objects conf).1 filled same (ground arith);
}

-- The counter is right and within the limit, and each connection has one owner.
abbrev pub Sound : Server → Type 0
Sound s = Inv s × Owned s

both-Sound : (o : Option Server) → After Inv o → After Owned o → After Sound o
both-Sound none v w = tt
both-Sound (some s) v w = (v, w)

both-AfterTurns :
    (o : Option (Phase × Server)) → AfterTurns Inv o → AfterTurns Owned o → AfterTurns Sound o
both-AfterTurns none v w = tt
both-AfterTurns (some (phase, s)) v w = (v, w)

-- A server is sound after any turns of its loop and of the workers of its thread pool, in any order, whatever
-- epoll_wait, `accept` and the handlers answer: the count of its connections is that of its table and at most
-- max_connect_count, and each connection that was allocated has one owner, the table, the pool or none any more.
-- The same holds after any rounds of the loop alone. The configuration has the keys that the constructor asks
-- for, thread_count is positive if `multi_thread` is not null, object_pool_size is not negative if `object_pool` is
-- not null, the number of events is not negative, and the system calls of the start succeed. Runs that use a null
-- or a deleted pointer are left out.
pub launch-turns-Sound :
    (os : System) (conf : Json) (n m : ℕ) (methods : Methods) (ts : List Turn) (waits : List Wait)
    → Complete conf
    → Succeeds os n m
    → is_nonneg (int_or conf (codes "max_events_count") (pos 4096)) ≡ true
    → (s : Single) × (launch os (some conf) ≡ running s)
      × AfterTurns Sound (turns methods ts (draining, s.server))
      × After Sound (rounds methods waits s.server)
launch-turns-Sound os conf n m methods ts waits h ok nonneg = (
  launched conf n m,
  launch_runs os conf n m h ok nonneg,
  both-AfterTurns (turns methods ts (draining, (launched conf n m).server))
      (turns-AfterTurns Inv-Preserved methods ts draining (launched conf n m).server
        (launched-Inv conf n m))
      (turns-AfterTurns Owned-Preserved methods ts draining (launched conf n m).server
        (launched-Owned conf n m)),
  both-Sound (rounds methods waits (launched conf n m).server)
      (rounds-Inv methods waits (launched conf n m).server (launched-Inv conf n m))
      (rounds-Owned methods waits (launched conf n m).server (launched-Owned conf n m)),
)
