-- ===== src/Runtime/Tasks.antt =====
-- The relay as a whole: tasks that run side by side on one shared state, in any interleaving.
use cardano_lightning_relay.Prelude.{◌≡◌, some, List, [], ◌∷◌}
use cardano_lightning_relay.Runtime.{
  Cmd, Resp, Call, Reply, Event, World, observe, perform, Prog, act, call,
}

-- One task takes one step. A statement that panics, and a task at `panic`, allow no step: the
-- process has ended.
pub data Move : Prog Unit → World → Prog Unit → World → Type 0 where
  acts :
      {c : Cmd} {k : Resp c → Prog Unit} {w w' : World} (r : Resp c)
      → perform c w ≡ some (r, w')
      → Move (act c k) w (k r) (observe (Event.acted c r) w')
  calls :
      {c : Call} {k : Reply c → Prog Unit} {w : World} (r : Reply c)
      → Move (call c k) w (k r) (observe (Event.called c r) w)

-- `Starts` says which tasks the program may start, at any time and any number of times.
pub data Step (Starts : Prog Unit → Type 0)
    : List (Prog Unit) → World → List (Prog Unit) → World → Type 0 where
  here :
      {p q : Prog Unit} {ps : List (Prog Unit)} {w w' : World}
      → Move p w q w'
      → Step Starts (p ∷ ps) w (q ∷ ps) w'
  there :
      {p : Prog Unit} {ps qs : List (Prog Unit)} {w w' : World}
      → Step Starts ps w qs w'
      → Step Starts (p ∷ ps) w (p ∷ qs) w'
  start :
      {ps : List (Prog Unit)} {w : World} (p : Prog Unit) → Starts p → Step Starts ps w (p ∷ ps) w

pub data Reach (Starts : Prog Unit → Type 0) (w₀ : World) : List (Prog Unit) → World → Type 0 where
  begin : Reach Starts w₀ [] w₀
  next :
      {ps qs : List (Prog Unit)} {w w' : World}
      → Reach Starts w₀ ps w
      → Step Starts ps w qs w'
      → Reach Starts w₀ qs w'
