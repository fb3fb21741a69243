-- ===== src/Cli/Cardano/InTime.antt =====
-- The time budget of the two cancelling commands of src/cli/cardano_cmds.rs.
use cardano_lightning_relay.Prelude.{ℕ, ◌-◌, ◌≡◌, ltb, Bool, true, false, List, [], ◌∷◌}
use cardano_lightning_relay.Runtime.{Resp, Call, Reply, Event, Prog, ret, panic, act, call}
use cardano_lightning_relay.Cli.Cardano.{cancel_budget}

-- Behind an event of some kind there is nothing more: for the events of a run, and for a task.
module _ (late : Event → Bool) where
  abbrev pub StopsAfter : List Event → Type 0
  StopsAfter [] = Unit
  StopsAfter (e ∷ es) = (late e ≡ true → es ≡ []) × StopsAfter es

  abbrev IsOver : {A : Type 0} → Prog A → Type 0
  IsOver (ret a) = Unit
  IsOver panic = Unit
  IsOver (act c k) = ⊥
  IsOver (call c k) = ⊥

  abbrev Halts : {A : Type 0} → Prog A → Type 0
  Halts (ret a) = Unit
  Halts panic = Unit
  Halts (act c k) = (r : Resp c) → (late (Event.acted c r) ≡ true → IsOver (k r)) × Halts (k r)
  Halts (call c k) = (r : Reply c) → (late (Event.called c r) ≡ true → IsOver (k r)) × Halts (k r)

-- The clock reads more than the budget past the start.
abbrev is_over_budget : ℕ → (c : Call) → Reply c → Bool
is_over_budget start Call.instant_now now = ltb cancel_budget (now - start)
is_over_budget start _ r = false

abbrev pub is_late : ℕ → Event → Bool
is_late start (Event.acted c r) = false
is_late start (Event.called c r) = is_over_budget start c r

-- The first event is that the clock is read, and behind a reading that is over the budget from then on
-- there is no event.
abbrev InBudgetFrom : (c : Call) → Reply c → List Event → Type 0
InBudgetFrom Call.instant_now start es = StopsAfter (is_late start) es
InBudgetFrom _ r es = ⊥

abbrev pub InBudget : List Event → Type 0
InBudget [] = Unit
InBudget (Event.acted c r ∷ es) = ⊥
InBudget (Event.called c r ∷ es) = InBudgetFrom c r es
