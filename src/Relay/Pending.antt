-- ===== src/Relay/Pending.antt =====
-- No task of the relay writes the status Pending to a swap, but for the row of a new swap.
use cardano_lightning_relay.Prelude.{ℤ, true, false}
use cardano_lightning_relay.Types
use cardano_lightning_relay.Types.{Result, Invoice, State, Bolt11Invoice}
use cardano_lightning_relay.Libs.{Libs}
use cardano_lightning_relay.Mapping.{SwapMapping, OfframpMapping}
use cardano_lightning_relay.Runtime.{Prog}
use cardano_lightning_relay.Runtime.Only.{AllActs, AllActs-for_each}
use cardano_lightning_relay.Offramp.Settle.{cancel_offramp_on_chain}
use cardano_lightning_relay.Recovery.{
  recover_fulfilling_swaps, recover_swap, refulfill_swap, recover_depositing_offramps,
  recover_verifying, recover_paying, recover_depositing, refulfill_offramp, recover_rest,
  recover_stuck, mark_crashed,
}
use cardano_lightning_relay.Background.{
  monitor_expired_swaps, cancel_expired_swap, monitor_expired_offramps,
}
use cardano_lightning_relay.Relay.{
  Starts, requests_swap, stores_swap, fulfills_swap, requests_offramp, deposits, completes_offramp,
  fails_offramp, recovers_swaps, recovers_offramps, monitors_swaps, monitors_offramps,
}
use cardano_lightning_relay.Relay.Quiet.{KeepsClaims, Quiet, Quiet-bind, query-Quiet}
use cardano_lightning_relay.Relay.QuietSwaps.{
  fulfill_swap-Quiet, request_swap-Quiet, store_swap_mapping-Quiet,
}
use cardano_lightning_relay.Relay.QuietOfframps.{
  process_offramp_deposit-Quiet, request_offramp-Quiet, complete_offramp-Quiet,
  cancel_offramp_on_chain-Quiet, handle_offramp_payment_failed-Quiet,
}

refulfill_swap-Quiet : (m : SwapMapping) (r : Result Invoice) → Quiet (refulfill_swap m r)
unfolding refulfill_swap
refulfill_swap-Quiet m (Result.err _) = (tt, λ _. tt)
refulfill_swap-Quiet m (Result.ok i) = elim [
  | Result.err e ↦ tt
  | Result.ok tx ↦ elim [ Result.err e ↦ tt | Result.ok hash ↦ (tt, λ _. tt) ]
]

recover_swap-Quiet : (m : SwapMapping) → Quiet (recover_swap m)
unfolding recover_swap
recover_swap-Quiet m =
    Quiet-bind _ (refulfill_swap m) (query-Quiet 3 5 _ _) (refulfill_swap-Quiet m)

refulfill_offramp-Quiet : (i : ℤ) (r : Result Types.Offramp) → Quiet (refulfill_offramp i r)
unfolding refulfill_offramp
refulfill_offramp-Quiet i (Result.err _) = (tt, λ _. tt)
refulfill_offramp-Quiet i (Result.ok o) = elim [
  | Result.err e ↦ tt
  | Result.ok tx ↦ elim [ Result.err e ↦ tt | Result.ok hash ↦ (tt, λ _. tt) ]
]

recover_depositing-Quiet : (m : OfframpMapping) → Quiet (recover_depositing m)
unfolding recover_depositing
recover_depositing-Quiet m =
    Quiet-bind _ (refulfill_offramp m.offramp_id) (query-Quiet 3 5 _ _)
      (refulfill_offramp-Quiet m.offramp_id)

recover_paying-Quiet : (m : OfframpMapping) → Quiet (recover_paying m)
unfolding recover_paying mark_crashed
recover_paying-Quiet m = (tt, elim [ true ↦ (tt, λ _. tt) | false ↦ tt ])

recover_depositing_offramps-Quiet : Quiet recover_depositing_offramps
unfolding recover_depositing_offramps recover_rest recover_stuck recover_verifying
recover_depositing_offramps-Quiet = (
  tt,
  λ verifying.
      Quiet-bind _ _ (AllActs-for_each KeepsClaims recover_verifying (λ m. (tt, λ _. tt)) verifying)
        λ _. (
          tt,
          λ paying.
              Quiet-bind _ _
                (AllActs-for_each KeepsClaims recover_paying recover_paying-Quiet paying)
                λ _. (tt, AllActs-for_each KeepsClaims recover_depositing recover_depositing-Quiet),
        ),
)

cancel_expired_swap-Quiet : (m : SwapMapping) → Quiet (cancel_expired_swap m)
unfolding cancel_expired_swap
cancel_expired_swap-Quiet m = elim [
  | Result.err e ↦ tt
  | Result.ok tx ↦ elim [ Result.err e ↦ tt | Result.ok hash ↦ (tt, λ _. tt) ]
]

-- No task of the relay writes Pending.
pub Starts-Quiet : {libs : Libs} {p : Prog Unit} → Starts libs p → AllActs KeepsClaims p
unfolding recover_fulfilling_swaps monitor_expired_swaps monitor_expired_offramps
Starts-Quiet {libs} (requests_swap amount addr expiry) =
    Quiet-bind _ _ (request_swap-Quiet libs amount addr expiry) (λ _. tt)
Starts-Quiet (stores_swap hash id amount addr expires tx) =
    store_swap_mapping-Quiet hash id amount addr expires tx
Starts-Quiet (fulfills_swap hash) = fulfill_swap-Quiet hash
Starts-Quiet {libs} (requests_offramp bolt11 amount addr expiry) =
    Quiet-bind _ _ (request_offramp-Quiet libs bolt11 amount addr expiry) (λ _. tt)
Starts-Quiet {libs} (deposits id tx) =
    Quiet-bind _ _ (process_offramp_deposit-Quiet libs id tx) (λ _. tt)
Starts-Quiet (completes_offramp hash preimage) = complete_offramp-Quiet hash preimage
Starts-Quiet (fails_offramp hash) = handle_offramp_payment_failed-Quiet hash
Starts-Quiet recovers_swaps = (tt, AllActs-for_each KeepsClaims recover_swap recover_swap-Quiet)
Starts-Quiet recovers_offramps = recover_depositing_offramps-Quiet
Starts-Quiet monitors_swaps =
    λ now_ms. (tt, AllActs-for_each KeepsClaims cancel_expired_swap cancel_expired_swap-Quiet)
Starts-Quiet monitors_offramps = λ now_ms.
    (tt, AllActs-for_each KeepsClaims cancel_offramp_on_chain cancel_offramp_on_chain-Quiet)
