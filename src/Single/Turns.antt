-- ===== src/Single/Turns.antt =====
-- From the operations of conv_single (core/conv_single.h) to its loop with the threads of its pool.
use conv_event.Base.{List, [], ◌∷◌, Option, none, some}
use conv_event.Conn.State.{Methods}
use conv_event.Single.Invariants.{After, Preserved, handle-After, close_one-After}
use conv_event.Single.Loop.{with_queue, Wait, ready, interrupted, broken}
use conv_event.Single.Server.{Server}
use conv_event.Single.Workers.{
  Phase, draining, polling, handling, ended, then_at, loop_turn, passed_of, with_passed, after_pass,
  Turn, loop, worker, take_turn, ◌>>=◌, turns, drain_turn,
}
use conv_event.ThreadPool.Passes.{Passed, AfterPass, worker_pass-AfterPass}
use conv_event.Socket.State.{Fd}
use conv_event.Table.{at}

-- What holds of the state, if there was no fault.
abbrev pub AfterTurns : (Server → Type 0) → Option (Phase × Server) → Type 0
AfterTurns P none = Unit {0}
AfterTurns P (some (phase, s)) = P s

then_at-AfterTurns :
    (P : Server → Type 0) (phase : Phase) (o : Option Server)
    → After P o
    → AfterTurns P (then_at phase o)
then_at-AfterTurns P phase none h = tt
then_at-AfterTurns P phase (some s) h = h

module _ {P : Server → Type 0} (kept : Preserved P) where
  drain_turn-AfterTurns : (queue : List Fd) (s : Server) → P s → AfterTurns P (drain_turn queue s)
  drain_turn-AfterTurns [] s v = v
  drain_turn-AfterTurns (f ∷ rest) s v =
      then_at-AfterTurns P draining _
        (close_one-After kept f (at f s.connects) (with_queue s rest) (kept.by_pop rest s v))

  loop_turn-AfterTurns :
      (m : Methods) (w : Wait) (phase : Phase) (s : Server)
      → P s
      → AfterTurns P (loop_turn m w (phase, s))
  unfolding loop_turn
  loop_turn-AfterTurns m w draining s v = drain_turn-AfterTurns s.shared.to_close.items s v
  loop_turn-AfterTurns m (ready events) polling s v = v
  loop_turn-AfterTurns m interrupted polling s v = v
  loop_turn-AfterTurns m broken polling s v = v
  loop_turn-AfterTurns m w (handling []) s v = v
  loop_turn-AfterTurns m w (handling (e ∷ events)) s v =
      then_at-AfterTurns P (handling events) _ (handle-After kept m e s v)
  loop_turn-AfterTurns m w ended s v = v

  after_pass-AfterTurns :
      (phase : Phase) (o : Option Passed) (s : Server)
      → AfterPass (λ r. P (with_passed r s)) o
      → AfterTurns P (after_pass phase o s)
  after_pass-AfterTurns phase none s h = tt
  after_pass-AfterTurns phase (some r) s h = h

  take_turn-AfterTurns :
      (m : Methods) (t : Turn) (phase : Phase) (s : Server)
      → P s
      → AfterTurns P (take_turn m t (phase, s))
  unfolding take_turn
  take_turn-AfterTurns m (loop w) phase s v = loop_turn-AfterTurns m w phase s v
  take_turn-AfterTurns m worker phase s v = after_pass-AfterTurns phase _ s (
      worker_pass-AfterPass (λ p c shared r. kept.by_process p c shared (with_passed r s))
        (λ pool r. kept.by_add (some pool) (with_passed r s)) m s.thread_pool (passed_of s) v)

  bind-AfterTurns :
      (o : Option (Phase × Server)) (f : Phase × Server → Option (Phase × Server))
      → AfterTurns P o
      → ((phase : Phase) (s : Server) → P s → AfterTurns P (f (phase, s)))
      → AfterTurns P (o >>= f)
  bind-AfterTurns none f h k = tt
  bind-AfterTurns (some (phase, s)) f h k = k phase s h

  pub turns-AfterTurns :
      (m : Methods) (ts : List Turn) (phase : Phase) (s : Server)
      → P s
      → AfterTurns P (turns m ts (phase, s))
  unfolding turns
  turns-AfterTurns m [] phase s v = v
  turns-AfterTurns m (t ∷ ts) phase s v =
      bind-AfterTurns (take_turn m t (phase, s)) (turns m ts) (take_turn-AfterTurns m t phase s v)
        (turns-AfterTurns m ts)
