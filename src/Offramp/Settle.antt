-- ===== src/Offramp/Settle.antt =====
-- src/cardano_offramp.rs, second half: what follows the Lightning payment, sent or failed, and the
-- cancellation on-chain.
use cardano_lightning_relay.Prelude.{
  ℤ, ◌==ℤ◌, String, ◌<>◌, is_empty, show_ℤ, Option, none, some, find, if◌then◌else◌,
}
use cardano_lightning_relay.Types
use cardano_lightning_relay.Types.{Result, State}
use cardano_lightning_relay.Status.OfframpStatus.{OfframpStatus}
use cardano_lightning_relay.Mapping.{OfframpMapping}
use cardano_lightning_relay.Runtime.{Cmd, Call, Prog, ret, db, ask, ◌>>=◌, ◌>>◌}
use cardano_lightning_relay.Helpers.{submit_contract_tx_with_retry, query_state_with_retry}
use cardano_lightning_relay.Swap.{build_then_submit}

abbrev pub find_offramp : ℤ → State → Option Types.Offramp
find_offramp offramp_id state = find (λ o. o.offramp_id ==ℤ offramp_id) state.offramps

abbrev fail_offramp : ℤ → String → Prog Unit
fail_offramp offramp_id msg =
    db (Cmd.update_offramp_status offramp_id OfframpStatus.failed none none (some msg))

-- `match result { … }` at the end of `complete_offramp`.
unfoldable pub conclude_offramp : ℤ → Result String → Prog Unit
conclude_offramp offramp_id (Result.ok tx_hash) =
    db (Cmd.update_offramp_status offramp_id OfframpStatus.completed none (some tx_hash) none)
conclude_offramp offramp_id (Result.err e) = fail_offramp offramp_id e

-- The two retry loops of `complete_offramp`.
abbrev pub query_offramp : ℤ → Prog (Result Types.Offramp)
query_offramp offramp_id =
    query_state_with_retry 24 10 ("Offramp #" <> show_ℤ offramp_id) (find_offramp offramp_id)

abbrev pub offramp_context : ℤ → String
offramp_context offramp_id = "FulfillOfframp(#" <> show_ℤ offramp_id <> ")"

abbrev pub submit_offramp : ℤ → Types.Offramp → Prog (Result String)
submit_offramp offramp_id offramp =
    submit_contract_tx_with_retry (offramp_context offramp_id) 3 15
      (build_then_submit (ask (Call.fulfill_offramp offramp)))

unfoldable pub settle_offramp : ℤ → Result Types.Offramp → Prog Unit
unfolding conclude_offramp
settle_offramp offramp_id (Result.err e) =
    fail_offramp offramp_id ("failed to find on-chain offramp: " <> e)
settle_offramp offramp_id (Result.ok offramp) = do
  result ← submit_offramp offramp_id offramp
  conclude_offramp offramp_id result

-- `complete_offramp` once the status is DepositingToPool.
unfoldable pub deposit_to_pool : ℤ → String → Prog Unit
unfolding settle_offramp
deposit_to_pool offramp_id preimage = do
  db (
      Cmd.update_offramp_status offramp_id OfframpStatus.depositing_to_pool (some preimage) none
        none)
  offramp ← query_offramp offramp_id
  settle_offramp offramp_id offramp

-- `complete_offramp` on the row of the payment hash, if there is one.
unfoldable pub complete_found : String → Option OfframpMapping → Prog Unit
unfolding deposit_to_pool
complete_found preimage none = ret tt
complete_found preimage (some mapping) = do
  claimed ← db (
      Cmd.transition_offramp_status mapping.offramp_id OfframpStatus.paying_lightning
        OfframpStatus.depositing_to_pool)
  if claimed then deposit_to_pool mapping.offramp_id preimage else ret tt

unfoldable pub complete_offramp : String → String → Prog Unit
unfolding complete_found
complete_offramp payment_hash preimage = do
  found ← db (Cmd.get_offramp_by_payment_hash payment_hash)
  complete_found preimage found

-- `.and_then(|m| m.error_message).unwrap_or_default()`
abbrev error_of : Option OfframpMapping → String
error_of none = ""
error_of (some m) = elim m.error_message [ none ↦ "" | some msg ↦ msg ]

-- The message that a cancellation leaves, after the one that is there.
unfoldable pub cancel_message : Option OfframpMapping → String → String
unfolding is_empty
cancel_message existing tx_hash =
    let before = error_of existing in
    if is_empty before
    then "cancelled on-chain: " <> tx_hash
    else before <> "; cancelled on-chain: " <> tx_hash

unfoldable pub record_cancel : ℤ → Result String → Prog Unit
unfolding cancel_message
record_cancel offramp_id (Result.err e) = ret tt
record_cancel offramp_id (Result.ok tx_hash) = do
  existing ← db (Cmd.get_offramp_by_id offramp_id)
  fail_offramp offramp_id (cancel_message existing tx_hash)

unfoldable pub cancel_offramp_on_chain : OfframpMapping → Prog Unit
unfolding record_cancel
cancel_offramp_on_chain mapping = do
  signed_tx ← ask (Call.cancel_offramp mapping.offramp_id)
  elim signed_tx [
    | Result.err e ↦ ret tt
    | Result.ok tx ↦ do
      submitted ← ask (Call.submit_tx tx)
      record_cancel mapping.offramp_id submitted
  ]

-- The message after an attempt to send the cBTC back.
abbrev pub refund_message : Result String → String
refund_message (Result.ok tx_hash) = "Lightning payment failed, cBTC refunded: " <> tx_hash
refund_message (Result.err e) = "Lightning payment failed, refund submit failed: " <> e

unfoldable pub refund_cbtc : OfframpMapping → Prog Unit
unfolding is_empty
refund_cbtc mapping =
    if is_empty mapping.refund_address
    then fail_offramp mapping.offramp_id "Lightning payment failed, no refund address available"
    else do
      built ← ask (Call.send_cbtc mapping.refund_address mapping.amount_cbtc)
      elim built [
        | Result.err e ↦
            fail_offramp mapping.offramp_id ("Lightning payment failed, refund build failed: " <> e)
        | Result.ok signed_tx ↦ do
          submitted ← ask (Call.submit_tx signed_tx)
          fail_offramp mapping.offramp_id (refund_message submitted)
      ]

-- `handle_offramp_payment_failed` on the row of the payment hash, if there is one.
unfoldable pub fail_found : Option OfframpMapping → Prog Unit
unfolding refund_cbtc cancel_offramp_on_chain
fail_found none = ret tt
fail_found (some mapping) = do refund_cbtc mapping; cancel_offramp_on_chain mapping

unfoldable pub handle_offramp_payment_failed : String → Prog Unit
unfolding fail_found
handle_offramp_payment_failed payment_hash = do
  found ← db (Cmd.get_offramp_by_payment_hash payment_hash)
  fail_found found
