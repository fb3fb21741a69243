-- ===== src/Background.antt =====
-- src/background.rs: one tick of each of the two loops that cancel what has expired.
use cardano_lightning_relay.Prelude.{some}
use cardano_lightning_relay.Types.{Result}
use cardano_lightning_relay.Status.SwapStatus.{SwapStatus}
use cardano_lightning_relay.Mapping.{SwapMapping}
use cardano_lightning_relay.Runtime.{Cmd, Call, Prog, ret, db, ask, for_each, ◌>>=◌}
use cardano_lightning_relay.Offramp.Settle.{cancel_offramp_on_chain}

unfoldable pub cancel_expired_swap : SwapMapping → Prog Unit
cancel_expired_swap mapping = do
  built ← ask (Call.cancel_invoice mapping.invoice_id)
  elim built [
    | Result.err e ↦ ret tt
    | Result.ok signed_tx ↦ do
      submitted ← ask (Call.submit_tx signed_tx)
      elim submitted [
        | Result.err e ↦ ret tt
        | Result.ok tx_hash ↦
            db (Cmd.update_status mapping.payment_hash SwapStatus.expired (some tx_hash))
      ]
  ]

-- The body of the loop of `monitor_expired_swaps`.
unfoldable pub monitor_expired_swaps : Prog Unit
unfolding cancel_expired_swap
monitor_expired_swaps = do
  now_ms ← ask Call.current_timestamp_ms
  expired ← db (Cmd.get_expired_pending now_ms)
  for_each expired cancel_expired_swap

-- The body of the loop of `monitor_expired_offramps`.
unfoldable pub monitor_expired_offramps : Prog Unit
unfolding cancel_offramp_on_chain
monitor_expired_offramps = do
  now_ms ← ask Call.current_timestamp_ms
  expired ← db (Cmd.get_expired_offramps now_ms)
  for_each expired cancel_offramp_on_chain
