-- ===== src/Relay/Quiet.antt =====
-- What it means that a task writes no Pending, and that the retry loops of src/helpers.rs do not.
use cardano_lightning_relay.Prelude.{
  ℕ, zero, suc, ◌-◌, String, ltb, Bool, Option, none, some, if◌then◌else◌,
}
use cardano_lightning_relay.Types.{Result, State}
use cardano_lightning_relay.Mapping.Claims.{NotPending}
use cardano_lightning_relay.Runtime.{Cmd, Prog, ◌>>=◌, and_then}
use cardano_lightning_relay.Runtime.Only.{AllActs, AllActs-bind, AllActs-if, AllActs-and_then}
use cardano_lightning_relay.Helpers.{
  is_retryable_submit_err, wait_before, after_attempt, submit_from, submit_contract_tx_with_retry,
  query_from, query_state_with_retry, item_or_again, on_state,
}

-- What a statement writes to a swap that is there already.
abbrev pub KeepsClaims : Cmd → Type 0
KeepsClaims (Cmd.update_status h s tx) = NotPending s
KeepsClaims (Cmd.transition_status h s t tx) = NotPending t
KeepsClaims _ = Unit

abbrev pub Quiet : {A : Type 0} → Prog A → Type 0
Quiet p = AllActs KeepsClaims p

-- The rules of `Runtime/Only`, at this property.
module _ {A B : Type 0} where
  pub Quiet-bind :
      (m : Prog A) (f : A → Prog B) → Quiet m → ((a : A) → Quiet (f a)) → Quiet (m >>= f)
  Quiet-bind = AllActs-bind KeepsClaims

  pub Quiet-and_then :
      (r : Result A) (k : A → Prog (Result B)) → ((a : A) → Quiet (k a)) → Quiet (and_then r k)
  Quiet-and_then = AllActs-and_then KeepsClaims

pub Quiet-if :
    {A : Type 0} (b : Bool) (m n : Prog A) → Quiet m → Quiet n → Quiet (if b then m else n)
Quiet-if = AllActs-if KeepsClaims

module _ {T : Type 0} (context : String) (max_attempts delay : ℕ) where
  pub after_attempt-Quiet :
      (again : String → Prog (Result T)) (r : Result T)
      → ((e : String) → Quiet (again e))
      → Quiet (after_attempt context max_attempts delay again r)
  unfolding after_attempt
  after_attempt-Quiet again (Result.ok t) h = tt
  after_attempt-Quiet again (Result.err e) h = Quiet-if (is_retryable_submit_err e) _ _ (h e) tt

  pub submit_from-Quiet :
      (body : Prog (Result T)) (left attempt : ℕ) (e : String)
      → Quiet body
      → Quiet (submit_from context max_attempts delay body left attempt e)
  unfolding submit_from
  submit_from-Quiet body zero attempt e h = tt
  submit_from-Quiet body (suc left) attempt e h =
      Quiet-bind (wait_before delay attempt) _ (Quiet-if (ltb 0 attempt) _ _ (λ _. tt) tt) λ _.
        Quiet-bind body
          (after_attempt context max_attempts delay
            (submit_from context max_attempts delay body left (suc attempt)))
          h (λ r. after_attempt-Quiet _ r (λ x. submit_from-Quiet body left (suc attempt) x h))

  pub submit-Quiet :
      (body : Prog (Result T))
      → Quiet body
      → Quiet (submit_contract_tx_with_retry context max_attempts delay body)
  unfolding submit_contract_tx_with_retry
  submit-Quiet body h = submit_from-Quiet body max_attempts 0 "" h

module _ {T : Type 0} (max_attempts delay : ℕ) (context : String) (find_fn : State → Option T) where
  pub item_or_again-Quiet :
      (attempt : ℕ) (again : Prog (Result T)) (o : Option T)
      → Quiet again
      → Quiet (item_or_again max_attempts delay context attempt again o)
  item_or_again-Quiet attempt again (some item) h = tt
  item_or_again-Quiet attempt again none h =
      Quiet-if (ltb attempt (max_attempts - 1)) _ again (λ _. h) h

  pub on_state-Quiet :
      (attempt : ℕ) (again : Prog (Result T)) (r : Result State)
      → Quiet again
      → Quiet (on_state max_attempts delay context find_fn attempt again r)
  on_state-Quiet attempt again (Result.ok state) h =
      item_or_again-Quiet attempt again (find_fn state) h
  on_state-Quiet attempt again (Result.err e) h =
      Quiet-if (ltb attempt (max_attempts - 1)) _ _ (λ _. h) tt

  pub query_from-Quiet :
      (left attempt : ℕ) → Quiet (query_from max_attempts delay context find_fn left attempt)
  unfolding query_from
  query_from-Quiet zero attempt = tt
  query_from-Quiet (suc left) attempt =
      λ r. on_state-Quiet attempt _ r (query_from-Quiet left (suc attempt))

  pub query-Quiet : Quiet (query_state_with_retry max_attempts delay context find_fn)
  unfolding query_state_with_retry
  query-Quiet = query_from-Quiet max_attempts 0
