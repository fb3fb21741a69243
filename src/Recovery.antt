-- ===== src/Recovery.antt =====
-- src/recovery.rs: what a start does with the swaps and offramps that a crash left half done.
pub mod Clears
use cardano_lightning_relay.Prelude.{
  Bool, true, false, String, ℤ, ◌<>◌, show_ℤ, none, some, if◌then◌else◌,
}
use cardano_lightning_relay.Types
use cardano_lightning_relay.Types.{Result, Invoice}
use cardano_lightning_relay.Status.SwapStatus.{SwapStatus}
use cardano_lightning_relay.Status.OfframpStatus.{OfframpStatus}
use cardano_lightning_relay.Mapping.{SwapMapping, OfframpMapping}
use cardano_lightning_relay.Runtime.{Cmd, Call, Prog, ret, db, ask, for_each, ◌>>=◌, ◌>>◌}
use cardano_lightning_relay.Helpers.{query_state_with_retry}
use cardano_lightning_relay.Swap.{find_invoice}
use cardano_lightning_relay.Offramp.Settle.{find_offramp}

-- The two matches on the invoice and on the built transaction, for one stuck swap.
unfoldable pub refulfill_swap : SwapMapping → Result Invoice → Prog Unit
refulfill_swap mapping (Result.err _) =
    db (Cmd.update_status mapping.payment_hash SwapStatus.completed none)
refulfill_swap mapping (Result.ok invoice) = do
  built ← ask (Call.fulfill_invoice invoice mapping.cardano_address)
  elim built [
    | Result.err e ↦ ret tt
    | Result.ok signed_tx ↦ do
      submitted ← ask (Call.submit_tx signed_tx)
      elim submitted [
        | Result.err e ↦ ret tt
        | Result.ok tx_hash ↦
            db (Cmd.update_status mapping.payment_hash SwapStatus.completed (some tx_hash))
      ]
  ]

unfoldable pub recover_swap : SwapMapping → Prog Unit
unfolding refulfill_swap
recover_swap mapping = do
  invoice ←
      query_state_with_retry 3 5 ("recovery invoice #" <> show_ℤ mapping.invoice_id)
        (find_invoice mapping.invoice_id)
  refulfill_swap mapping invoice

unfoldable pub recover_fulfilling_swaps : Prog Unit
unfolding recover_swap
recover_fulfilling_swaps = do
  stuck ← db (Cmd.get_by_status SwapStatus.fulfilling)
  for_each stuck recover_swap

unfoldable pub recover_verifying : OfframpMapping → Prog Unit
recover_verifying mapping = do
  reset ← db (
      Cmd.transition_offramp_status mapping.offramp_id OfframpStatus.pending_verification
        OfframpStatus.awaiting_deposit)
  ret tt

abbrev pub crash_message : String
crash_message = "relay crashed during Lightning payment, awaiting expiry for on-chain cancel"

-- The error message, for an offramp that was moved to Failed.
unfoldable pub mark_crashed : OfframpMapping → Bool → Prog Unit
mark_crashed mapping false = ret tt
mark_crashed mapping true = db (
    Cmd.update_offramp_status mapping.offramp_id OfframpStatus.failed none none
      (some crash_message))

unfoldable pub recover_paying : OfframpMapping → Prog Unit
unfolding mark_crashed
recover_paying mapping = do
  moved ← db (
      Cmd.transition_offramp_status mapping.offramp_id OfframpStatus.paying_lightning
        OfframpStatus.failed)
  mark_crashed mapping moved

unfoldable pub refulfill_offramp : ℤ → Result Types.Offramp → Prog Unit
refulfill_offramp offramp_id (Result.err _) =
    db (Cmd.update_offramp_status offramp_id OfframpStatus.completed none none none)
refulfill_offramp offramp_id (Result.ok offramp) = do
  built ← ask (Call.fulfill_offramp offramp)
  elim built [
    | Result.err e ↦ ret tt
    | Result.ok signed_tx ↦ do
      submitted ← ask (Call.submit_tx signed_tx)
      elim submitted [
        | Result.err e ↦ ret tt
        | Result.ok tx_hash ↦
            db (Cmd.update_offramp_status offramp_id OfframpStatus.completed none none none)
      ]
  ]

abbrev pub query_recovery : OfframpMapping → Prog (Result Types.Offramp)
query_recovery mapping =
    query_state_with_retry 3 5 ("recovery offramp #" <> show_ℤ mapping.offramp_id)
      (find_offramp mapping.offramp_id)

unfoldable pub recover_depositing : OfframpMapping → Prog Unit
unfolding refulfill_offramp
recover_depositing mapping = do
  offramp ← query_recovery mapping
  refulfill_offramp mapping.offramp_id offramp

-- The three passes of `recover_depositing_offramps`, from the last on.
unfoldable pub recover_stuck : Prog Unit
unfolding recover_depositing
recover_stuck = do
  stuck ← db (Cmd.get_offramps_by_status OfframpStatus.depositing_to_pool)
  for_each stuck recover_depositing

unfoldable pub recover_rest : Prog Unit
unfolding recover_paying recover_stuck
recover_rest = do
  paying ← db (Cmd.get_offramps_by_status OfframpStatus.paying_lightning)
  for_each paying recover_paying
  recover_stuck

unfoldable pub recover_depositing_offramps : Prog Unit
unfolding recover_verifying recover_rest
recover_depositing_offramps = do
  verifying ← db (Cmd.get_offramps_by_status OfframpStatus.pending_verification)
  for_each verifying recover_verifying
  recover_rest
