-- ===== src/Helpers.antt =====
-- src/helpers.rs: the two retry loops around the Cardano operator. A loop runs over the attempts
-- that are left, so it ends by its shape; a delay is in seconds.
pub mod Outcome
pub mod Budget
use cardano_lightning_relay.Prelude.{
  ℕ, zero, suc, ◌-◌, ltb, String, ◌<>◌, contains, show_ℕ, Bool, ◌||◌, Option, none, some,
  if◌then◌else◌,
}
use cardano_lightning_relay.Types.{Result, State}
use cardano_lightning_relay.Runtime.{Call, Prog, ret, ask, ◌>>=◌, ◌>>◌}

unfoldable pub is_retryable_submit_err : String → Bool
unfolding contains
is_retryable_submit_err err_str =
    contains err_str "BadInputs"
    || contains err_str "already been included"
    || contains err_str "ConwayMempoolFailure"

abbrev pub wait_before : ℕ → ℕ → Prog Unit
wait_before delay attempt = if ltb 0 attempt then ask (Call.sleep delay) else ret tt

module _ {T : Type 0} (context : String) (max_attempts delay : ℕ) where
  -- What one attempt came to; `again` is the next round, which keeps the error.
  unfoldable pub after_attempt : (String → Prog (Result T)) → Result T → Prog (Result T)
  unfolding is_retryable_submit_err
  after_attempt again (Result.ok result) = ret (Result.ok result)
  after_attempt again (Result.err err_str) =
      if is_retryable_submit_err err_str
      then again err_str
      else ret (Result.err (context <> ": non-retryable error: " <> err_str))

  -- The `for` loop of `submit_contract_tx_with_retry`, from one attempt on.
  unfoldable pub submit_from : Prog (Result T) → ℕ → ℕ → String → Prog (Result T)
  unfolding after_attempt
  submit_from build_and_submit zero attempt last_err = ret (
      Result.err (context <> ": failed after " <> show_ℕ max_attempts <> " attempts: " <> last_err))
  submit_from build_and_submit (suc left) attempt last_err = do
    wait_before delay attempt
    r ← build_and_submit
    after_attempt (submit_from build_and_submit left (suc attempt)) r

  unfoldable pub submit_contract_tx_with_retry : Prog (Result T) → Prog (Result T)
  unfolding submit_from
  submit_contract_tx_with_retry build_and_submit = submit_from build_and_submit max_attempts 0 ""

module _ {T : Type 0} (max_attempts delay : ℕ) (context : String) where
  -- `if let Some(item) = find_fn(&state) { return Ok(item); }`, and the wait behind it.
  abbrev pub item_or_again : ℕ → Prog (Result T) → Option T → Prog (Result T)
  item_or_again attempt again (some item) = ret (Result.ok item)
  item_or_again attempt again none =
      if ltb attempt (max_attempts - 1) then (ask (Call.sleep delay) >> again) else again

  -- The body of the `for` loop on the operator's answer; `again` is the next round.
  abbrev pub on_state : (State → Option T) → ℕ → Prog (Result T) → Result State → Prog (Result T)
  on_state find_fn attempt again (Result.ok state) = item_or_again attempt again (find_fn state)
  on_state find_fn attempt again (Result.err e) =
      if ltb attempt (max_attempts - 1)
      then (ask (Call.sleep delay) >> again)
      else ret
          (Result.err ("state query failed after " <> show_ℕ max_attempts <> " attempts: " <> e))

  -- The `for` loop of `query_state_with_retry`, from one attempt on.
  unfoldable pub query_from : (State → Option T) → ℕ → ℕ → Prog (Result T)
  query_from find_fn zero attempt = ret (
      Result.err
        (context <> ": not found in on-chain state after " <> show_ℕ max_attempts <> " attempts"))
  query_from find_fn (suc left) attempt = do
    r ← ask Call.query_state
    on_state find_fn attempt (query_from find_fn left (suc attempt)) r

  unfoldable pub query_state_with_retry : (State → Option T) → Prog (Result T)
  unfolding query_from
  query_state_with_retry find_fn = query_from find_fn max_attempts 0
