-- ===== src/Helpers/Outcome.antt =====
-- What the retry loops of src/helpers.rs keep, and what is known of their results.
use cardano_lightning_relay.Prelude.{ℕ, zero, suc, ◌-◌, ltb, ◌≡◌, refl, String, Option, none, some}
use cardano_lightning_relay.Types.{Result, State}
use cardano_lightning_relay.Runtime.{Call, Reply, Event, World, observe, Prog, ◌>>=◌}
use cardano_lightning_relay.Runtime.Logic.{Ends, Ends-bind, Ends-map, Ends-if}
use cardano_lightning_relay.Helpers.{
  is_retryable_submit_err, wait_before, after_attempt, submit_from, submit_contract_tx_with_retry,
  item_or_again, on_state, query_from, query_state_with_retry,
}

-- What is known of a result: of a value, `P`; of an error, nothing.
abbrev pub OnOk : {T : Type 0} → (T → World → Type 0) → Result T → World → Type 0
OnOk P (Result.ok t) w = P t w
OnOk P (Result.err e) w = Unit

-- An invariant is kept, and of the result that much is known.
abbrev pub Outcome :
    {T : Type 0} → (World → Type 0) → (T → World → Type 0) → Result T → World → Type 0
Outcome I P r w = I w × OnOk P r w

-- The retry loops, for any invariant `I` that calls keep and any fact `P` that one attempt gives.
module _ {T : Type 0} (I : World → Type 0) (P : T → World → Type 0)
    (calls : (c : Call) (r : Reply c) (w : World) → I w → I (observe (Event.called c r) w)) where
  -- `query_state_with_retry`, for a fact that holds of every item that the state search finds.
  module _ (max_attempts delay : ℕ) (context : String) (find_fn : State → Option T)
      (found : (state : State) (t : T) (w : World) → find_fn state ≡ some t → P t w) where
    Ends-item :
        (state : State) (attempt : ℕ) (again : Prog (Result T)) (o : Option T) (w : World)
        → find_fn state ≡ o
        → ((w : World) → I w → Ends again (Outcome I P) w)
        → I w
        → Ends (item_or_again max_attempts delay context attempt again o) (Outcome I P) w
    Ends-item state attempt again (some t) w e h i = (i, found state t w e)
    Ends-item state attempt again none w e h i =
        Ends-if (ltb attempt (max_attempts - 1)) _ again (Outcome I P) w
          (λ _ u.
            h (observe (Event.called (Call.sleep delay) u) w) (calls (Call.sleep delay) u w i))
          (λ _. h w i)

    Ends-state :
        (attempt : ℕ) (again : Prog (Result T)) (r : Result State) (w : World)
        → ((w : World) → I w → Ends again (Outcome I P) w)
        → I w
        → Ends (on_state max_attempts delay context find_fn attempt again r) (Outcome I P) w
    Ends-state attempt again (Result.ok state) w h i =
        Ends-item state attempt again (find_fn state) w refl h i
    Ends-state attempt again (Result.err e) w h i =
        Ends-if (ltb attempt (max_attempts - 1)) _ _ (Outcome I P) w
          (λ _ u.
            h (observe (Event.called (Call.sleep delay) u) w) (calls (Call.sleep delay) u w i))
          (λ _. (i, tt))

    Ends-query_from :
        (left attempt : ℕ) (w : World)
        → I w
        → Ends (query_from max_attempts delay context find_fn left attempt) (Outcome I P) w
    unfolding query_from
    Ends-query_from zero attempt w i = (i, tt)
    Ends-query_from (suc left) attempt w i = λ r.
        Ends-state attempt _ r (observe (Event.called Call.query_state r) w)
          (Ends-query_from left (suc attempt)) (calls Call.query_state r w i)

    pub Ends-query :
        (w : World)
        → I w
        → Ends (query_state_with_retry max_attempts delay context find_fn) (Outcome I P) w
    unfolding query_state_with_retry
    Ends-query w i = Ends-query_from max_attempts 0 w i

  module _ (context : String) (max_attempts delay : ℕ) (body : Prog (Result T))
      (attempt-ok : (w : World) → I w → Ends body (Outcome I P) w) where
    on_attempt :
        (again : String → Prog (Result T))
        → ((e : String) (w : World) → I w → Ends (again e) (Outcome I P) w)
        → (r : Result T) (w : World) → Outcome I P r w
        → Ends (after_attempt context max_attempts delay again r) (Outcome I P) w
    unfolding after_attempt
    on_attempt again h (Result.ok t) w o = o
    on_attempt again h (Result.err e) w o =
        Ends-if (is_retryable_submit_err e) _ _ (Outcome I P) w (λ _. h e w o.0) (λ _. (o.0, tt))

    attempt-then :
        (again : String → Prog (Result T))
        → ((e : String) (w : World) → I w → Ends (again e) (Outcome I P) w)
        → (w : World) → I w
        → Ends (body >>= after_attempt context max_attempts delay again) (Outcome I P) w
    attempt-then again h w i =
        Ends-bind body (after_attempt context max_attempts delay again) (Outcome I P) w
          (Ends-map body (Outcome I P) _ w (on_attempt again h) (attempt-ok w i))

    pub Ends-submit_from :
        (left attempt : ℕ) (e : String) (w : World)
        → I w
        → Ends (submit_from context max_attempts delay body left attempt e) (Outcome I P) w
    unfolding submit_from
    Ends-submit_from zero attempt e w i = (i, tt)
    Ends-submit_from (suc left) attempt e w i =
        let next = submit_from context max_attempts delay body left (suc attempt) in
        let round = attempt-then next (Ends-submit_from left (suc attempt)) in
        Ends-bind (wait_before delay attempt) _ (Outcome I P) w (
          Ends-if (ltb 0 attempt) _ _
            (λ _ w'. Ends (body >>= after_attempt context max_attempts delay next) (Outcome I P) w')
            w
            (λ _ u.
              round (observe (Event.called (Call.sleep delay) u) w)
                (calls (Call.sleep delay) u w i))
            (λ _. round w i))

    pub Ends-submit :
        (w : World)
        → I w
        → Ends (submit_contract_tx_with_retry context max_attempts delay body) (Outcome I P) w
    unfolding submit_contract_tx_with_retry
    Ends-submit w i = Ends-submit_from max_attempts 0 "" w i
