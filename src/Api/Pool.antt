-- ===== src/Api/Pool.antt =====
-- The operator's handlers of src/api.rs: cBTC into the pool and out of it.
use cardano_lightning_relay.Prelude.{ℤ, pos, leb_ℤ, String, ◌<>◌, Option, none, some, not}
use cardano_lightning_relay.Types.{Result, State}
use cardano_lightning_relay.Runtime.{Call, Prog, ret, ask, ◌>>=◌}
use cardano_lightning_relay.Api.{Response, StatusCode, reject}
use cardano_lightning_relay.Api.Auth.{verify_operator_auth}

-- `PoolDepositResponse` and `PoolWithdrawResponse`.
pub record PoolResponse : Type 0 where
  pub tx_hash : String
  pub amount : ℤ
  pub new_total_liquidity : Option ℤ

abbrev total_of : Result State → Option ℤ
total_of (Result.err e) = none
total_of (Result.ok state) = some state.total_liquidity

-- Which of the two operations: their texts differ in this word alone.
abbrev timed_out : String → Prog (Response PoolResponse)
timed_out what = ret (
    Response.error StatusCode.service_unavailable
      (what <> " timed out — script UTxO may be contended, retry later"))

abbrev refused : String → String → String → Prog (Response PoolResponse)
refused what step e =
    ret (Response.error StatusCode.bad_request (what <> " failed: " <> step <> " failed: " <> e))

unfoldable pub pool_submitted : String → ℤ → Option (Result String) → Prog (Response PoolResponse)
pool_submitted what amount none = timed_out what
pool_submitted what amount (some (Result.err e)) = refused what "submit" e
pool_submitted what amount (some (Result.ok tx_hash)) = do
  state ← ask Call.query_state
  ret (
      Response.json
        (record { tx_hash = tx_hash; amount = amount; new_total_liquidity = total_of state }))

unfoldable pub pool_built : String → ℤ → Option (Result String) → Prog (Response PoolResponse)
unfolding pool_submitted
pool_built what amount none = timed_out what
pool_built what amount (some (Result.err e)) = refused what "build" e
pool_built what amount (some (Result.ok signed_tx)) = do
  submitted ← ask (Call.submit_in_time signed_tx)
  pool_submitted what amount submitted

unfoldable pub handle_pool_deposit :
    Option String → Option String → ℤ → Prog (Response PoolResponse)
unfolding verify_operator_auth pool_built
handle_pool_deposit header auth_token amount =
    reject (not (verify_operator_auth header auth_token)) StatusCode.unauthorized
      "unauthorized: invalid or missing bearer token"
      (reject (leb_ℤ amount (pos 0)) StatusCode.bad_request "deposit amount must be positive"
        (do built ← ask (Call.deposit_in_time amount); pool_built "deposit" amount built))

unfoldable pub handle_pool_withdraw :
    Option String → Option String → ℤ → Prog (Response PoolResponse)
unfolding verify_operator_auth pool_built
handle_pool_withdraw header auth_token amount =
    reject (not (verify_operator_auth header auth_token)) StatusCode.unauthorized
      "unauthorized: invalid or missing bearer token"
      (reject (leb_ℤ amount (pos 0)) StatusCode.bad_request "withdraw amount must be positive"
        (do built ← ask (Call.withdraw_in_time amount); pool_built "withdraw" amount built))
