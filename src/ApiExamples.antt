-- ===== src/ApiExamples.antt =====
-- Concrete requests and amounts, and runs from a small state, on which the theorems are applied.
use cardano_lightning_relay.Prelude.{
  ◌+◌, ◌*◌, ◌^◌, ◌<◌, ◌≡◌, ◌↔◌, refl, pos, pos_part, ◌<>◌, show_ℤ, some, true, false, List, [], ◌∷◌,
  count, length, arith, ℕ, Bool, ◌==◌,
}
use cardano_lightning_relay.Types.{Result}
use cardano_lightning_relay.Events.Channels.{
  Tried, all_addrs, connection_needed, connection_needed-Tried,
}
use cardano_lightning_relay.Api.Balance.{
  SpendableOutputDescriptor, OutputSpendStatus, TrackedSpendableOutput,
}
use cardano_lightning_relay.Swap.{request_swap}
use cardano_lightning_relay.Swap.Address.{validate_address, validate_decoded}
use cardano_lightning_relay.Offramp.{request_offramp, request_parsed}
use cardano_lightning_relay.Amounts.{cbtc_to_msat}
use cardano_lightning_relay.Amounts.Bounds.{cbtc_to_msat_iff}
use cardano_lightning_relay.Status.SwapStatus.{SwapStatus}
use cardano_lightning_relay.Status.OfframpStatus.{OfframpStatus}
use cardano_lightning_relay.Mapping.{SwapDb, swap_has_status}
use cardano_lightning_relay.Mapping.Onramp.{get_swap_counts}
use cardano_lightning_relay.Mapping.Offramp
use cardano_lightning_relay.Runtime.{Cmd, Call, Event, World, Prog, ret}
use cardano_lightning_relay.Runtime.Logic.{Ends}
use cardano_lightning_relay.Runtime.Only
use cardano_lightning_relay.Runtime.Only.{Precedes, Runs}
use cardano_lightning_relay.Offramp.Settle.{handle_offramp_payment_failed}
use cardano_lightning_relay.Offramp.Refund.{Refunded, handle_offramp_payment_failed-Refunded}
use cardano_lightning_relay.Recovery.{recover_depositing_offramps}
use cardano_lightning_relay.Recovery.Clears.{Cleared, recover_depositing_offramps-Cleared}
use cardano_lightning_relay.Api.{
  Limits, Response, SwapResponse, OfframpResponse, amount_out_of_range, handle_swap_request,
  handle_offramp_request, StatusCode, liquidity_error, open_swap, offramp_created,
}
use cardano_lightning_relay.Api.Checks.{
  amount_in_range-msat, is_admitted, is_below_swaps, is_below_offramps, is_work,
  handle_swap_request-checks_first, handle_offramp_request-checks_first,
}
use cardano_lightning_relay.Api.Reports.{to_status_counts}
use cardano_lightning_relay.Api.Metrics.{to_status_counts-get_swap_counts}
use cardano_lightning_relay.Examples.{libs, swap, begun}
use cardano_lightning_relay.OfframpExamples.{offramp}

cbtc_to_msat_iff_example : (cbtc_to_msat (pos 5) ≡ some 5_000) ↔ (
    (0 < pos_part (pos 5))
    × (pos_part (pos 5) * 1_000 < 2 ^ 64)
    × (5_000 ≡ pos_part (pos 5) * 1_000))
cbtc_to_msat_iff_example = cbtc_to_msat_iff (pos 5) 5_000

in_range : amount_out_of_range (pos 5) ≡ false
unfolding amount_out_of_range
in_range = refl

amount_in_range-msat_example : cbtc_to_msat (pos 5) ≡ some (pos_part (pos 5) * 1_000)
amount_in_range-msat_example = amount_in_range-msat (pos 5) in_range

abbrev limits : Limits
limits = record {
  max_active_swaps = pos 2;
  max_active_offramps = pos 2;
  swap_expiry_ms = pos 3_600_000;
}

abbrev swap_checks : List Event
swap_checks =
    Event.called Call.instant_now 120
    ∷ Event.acted (Cmd.check_rate "10.0.0.1" 120) true
    ∷ Event.acted Cmd.count_active_swaps 1
    ∷ Event.called Call.query_state (Result.err "down")
    ∷ []

abbrev offramp_checks : List Event
offramp_checks =
    Event.called Call.instant_now 120
    ∷ Event.acted (Cmd.check_rate "10.0.0.1" 120) true
    ∷ Event.acted Cmd.count_active_offramps 1
    ∷ Event.acted (Cmd.get_offramp_by_payment_hash "ab12")
        (some (offramp OfframpStatus.awaiting_deposit))
    ∷ []

abbrev two_swaps : SwapDb
two_swaps = record {
  swaps = swap SwapStatus.completed ∷ swap SwapStatus.expired ∷ [];
  offramps = [];
}

to_status_counts-get_swap_counts_example :
    let c = to_status_counts (get_swap_counts two_swaps) in
    (c.total ≡ pos (length two_swaps.swaps))
    × (c.completed ≡ pos (count (swap_has_status SwapStatus.completed) two_swaps.swaps))
    × (c.failed
        ≡ pos (
            count (swap_has_status SwapStatus.failed) two_swaps.swaps
            + count (swap_has_status SwapStatus.expired) two_swaps.swaps))
to_status_counts-get_swap_counts_example = to_status_counts-get_swap_counts two_swaps (omega arith)

abbrev half_done : World
half_done = begun (record { swaps = []; offramps = offramp OfframpStatus.paying_lightning ∷ [] })

recover_depositing_offramps-Cleared_example :
    Ends recover_depositing_offramps (λ _ w. Cleared w) half_done
recover_depositing_offramps-Cleared_example = recover_depositing_offramps-Cleared half_done

abbrev address_refused : Prog (Response SwapResponse)
address_refused =
    ret (Response.error StatusCode.bad_request ("invalid bech32 address: " <> "not an address"))

swap_run :
    Runs
      (handle_swap_request libs limits "10.0.0.1" (pos 5) "addr_test1user")
      swap_checks
      address_refused
unfolding handle_swap_request amount_out_of_range liquidity_error open_swap request_swap
    validate_address validate_decoded
swap_run = Only.calls 120 (Only.acts true (Only.acts 1 (Only.calls (Result.err "down") Only.stop)))

handle_swap_request-checks_first_example :
    Precedes is_admitted is_work swap_checks × Precedes (is_below_swaps (pos 2)) is_work swap_checks
handle_swap_request-checks_first_example =
    handle_swap_request-checks_first libs limits "10.0.0.1" (pos 5) "addr_test1user" swap_run

abbrev already_used : Prog (Response OfframpResponse)
already_used = ret (
    Response.error StatusCode.bad_request (
      "BOLT11 invoice already used in offramp #"
      <> show_ℤ (pos 3)
      <> " (status: "
      <> "AwaitingDeposit"
      <> ")"))

offramp_run :
    Runs
      (handle_offramp_request libs limits "10.0.0.1" "lnbcrt" (pos 5) "addr_test1user")
      offramp_checks
      already_used
unfolding handle_offramp_request amount_out_of_range request_offramp request_parsed offramp_created
offramp_run = Only.calls 120 (
    Only.acts true
      (Only.acts 1 (Only.acts (some (offramp OfframpStatus.awaiting_deposit)) Only.stop)))

handle_offramp_request-checks_first_example :
    Precedes is_admitted is_work offramp_checks
    × Precedes (is_below_offramps (pos 2)) is_work offramp_checks
handle_offramp_request-checks_first_example =
    handle_offramp_request-checks_first libs limits "10.0.0.1" "lnbcrt" (pos 5) "addr_test1user"
      offramp_run

handle_offramp_payment_failed-Refunded_example :
    Ends
      (handle_offramp_payment_failed "cd34")
      (λ _ w. Refunded (Offramp.get_offramp_by_payment_hash "cd34" half_done.db) half_done w)
      half_done
handle_offramp_payment_failed-Refunded_example =
    handle_offramp_payment_failed-Refunded "cd34" half_done

-- The second of two hosts answers at its second address.
abbrev resolves : ℕ → Result (List ℕ)
resolves n = Result.ok (n ∷ (n + 1) ∷ [])

abbrev answers : ℕ → Bool
answers n = n == 21

connection_needed-Tried_example :
    Tried resolves answers
      (all_addrs resolves answers (10 ∷ 20 ∷ []))
      (connection_needed resolves answers (10 ∷ 20 ∷ []))
connection_needed-Tried_example = connection_needed-Tried resolves answers (10 ∷ 20 ∷ [])

abbrev outputs : List TrackedSpendableOutput
outputs =
    record {
      descriptor = SpendableOutputDescriptor.static_output 500;
      status = OutputSpendStatus.other;
    }
    ∷ record {
      descriptor = SpendableOutputDescriptor.delayed_payment_output 70;
      status = OutputSpendStatus.pending_threshold_confirmations;
    }
    ∷ []
