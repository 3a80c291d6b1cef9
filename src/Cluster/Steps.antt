-- ===== src/Cluster/Steps.antt =====
-- Everything that happens to a member of corndogs/server/cluster: the calls of its methods in turn.
pub mod Safety
pub mod Epoch
pub mod Acked
use corndogs.Prelude.{ℕ, ◌≡◌, Bool, true, false, List, [], ◌∷◌, Option, none, some}
use corndogs.Cluster.Floats.{Floats}
use corndogs.Cluster.Node.{
  Message, Node, Position, set_applied_lsn, mark_caught_up, set_position, hold_joining_now,
  step_down, take_outbox,
}
use corndogs.Cluster.Election.{tick}
use corndogs.Cluster.Recv.{recv}

pub data Event ⦃f : Floats⦄ : Type 0 where
  on_tick : (now : ℕ) → Event
  on_message : (now : ℕ) → (m : Message) → Event
  on_applied : (lsn : ℕ) → Event
  on_caught_up : Event
  on_position : (p : Position) → Event
  on_hold : Event
  on_step_down : Event
  on_outbox : Event

module _ ⦃f : Floats⦄ where
  -- One call; `none` is a panic.
  unfoldable pub step : Event → Node → Option Node
  step (on_tick now) n = some (tick now n)
  step (on_message now m) n = recv now m n
  step (on_applied lsn) n = some (set_applied_lsn lsn n)
  step on_caught_up n = some (mark_caught_up n)
  step (on_position p) n = some (set_position p n)
  step on_hold n = some (hold_joining_now n)
  step on_step_down n = some (step_down n)
  step on_outbox n = some (take_outbox n).1

  abbrev pub and_then : Option Node → (Node → Option Node) → Option Node
  and_then none k = none
  and_then (some n) k = k n

  unfoldable pub run : List Event → Node → Option Node
  unfolding step
  run [] n = some n
  run (ev ∷ evs) n = and_then (step ev n) (run evs)
