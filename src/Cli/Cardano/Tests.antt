-- ===== src/Cli/Cardano/Tests.antt =====
-- Tests of src/cli/cardano_cmds.rs: a state with one expired offramp and one expired invoice.
use cardano_lightning_relay.Prelude.{◌*◌, ◌≤◌, ◌≡◌, pos, List, [], ◌∷◌, length, count, filter}
use cardano_lightning_relay.Types.{Result, State, Offramp, Invoice}
use cardano_lightning_relay.Runtime.{Call, Event, ret}
use cardano_lightning_relay.Runtime.Only
use cardano_lightning_relay.Runtime.Only.{Runs}
use cardano_lightning_relay.Helpers.{submit_from, after_attempt, submit_contract_tx_with_retry}
use cardano_lightning_relay.Swap.Submissions.{is_submit}
use cardano_lightning_relay.Cli.Cardano.{
  cancel_each, cancel_all, cancel_expired_offramps_at, cancel_expired_at, expired_offramp,
  expired_invoice,
}
use cardano_lightning_relay.Cli.Cardano.Cancels.{
  is_call, other_than_offramp, other_than_invoice, cancel_expired_offramps_at-only_expired,
  cancel_expired_at-only_expired,
}

abbrev old : Offramp
old = record {
  offramp_id = pos 4;
  amount = pos 20;
  payment_hash = "aa";
  refund_address = "addr_test1q";
  expires_at = pos 5;
}

abbrev young : Offramp
young = record {
  offramp_id = pos 6;
  amount = pos 20;
  payment_hash = "bb";
  refund_address = "addr_test1q";
  expires_at = pos 50;
}

abbrev invoice : Invoice
invoice = record {
  invoice_id = pos 9;
  amount = pos 10;
  owner = "cc";
  timestamp = pos 1;
  expires_at = pos 5;
}

abbrev state : State
state = record {
  total_liquidity = pos 100;
  reserved = pos 0;
  available = pos 100;
  invoices = invoice ∷ [];
  offramps = young ∷ old ∷ [];
}

abbrev offramp_events : List Event
offramp_events =
    Event.called Call.instant_now 7
    ∷ Event.called Call.instant_now 8
    ∷ Event.called (Call.cancel_offramp (pos 4)) (Result.ok "raw")
    ∷ Event.called (Call.submit_tx "raw") (Result.ok "hash")
    ∷ []

offramp_run : Runs (cancel_expired_offramps_at state (pos 10)) offramp_events (ret tt)
unfolding cancel_expired_offramps_at cancel_all cancel_each submit_contract_tx_with_retry
    submit_from after_attempt
offramp_run =
    Only.calls 7
      (Only.calls 8 (Only.calls (Result.ok "raw") (Only.calls (Result.ok "hash") Only.stop)))

cancel_expired_offramps_at-only_expired_example :
    (count (is_call (other_than_offramp state (pos 10))) offramp_events ≡ 0)
    × (count is_submit offramp_events
        ≤ 3 * length (filter (expired_offramp (pos 10)) state.offramps))
cancel_expired_offramps_at-only_expired_example =
    cancel_expired_offramps_at-only_expired state (pos 10) offramp_run

abbrev invoice_events : List Event
invoice_events =
    Event.called Call.instant_now 7
    ∷ Event.called Call.instant_now 8
    ∷ Event.called (Call.cancel_invoice (pos 9)) (Result.err "no input")
    ∷ []

invoice_run : Runs (cancel_expired_at state (pos 10)) invoice_events (ret tt)
unfolding cancel_expired_at cancel_all cancel_each submit_contract_tx_with_retry submit_from
    after_attempt
invoice_run = Only.calls 7 (Only.calls 8 (Only.calls (Result.err "no input") Only.stop))

cancel_expired_at-only_expired_example :
    (count (is_call (other_than_invoice state (pos 10))) invoice_events ≡ 0)
    × (count is_submit invoice_events
        ≤ 3 * length (filter (expired_invoice (pos 10)) state.invoices))
cancel_expired_at-only_expired_example = cancel_expired_at-only_expired state (pos 10) invoice_run

-- Two expired offramps, and a first attempt that takes longer than the budget.
abbrev slow_events : List Event
slow_events =
    Event.called Call.instant_now 7
    ∷ Event.called Call.instant_now 8
    ∷ Event.called (Call.cancel_offramp (pos 6)) (Result.err "no input")
    ∷ Event.called Call.instant_now 180_000_000_008
    ∷ []
