-- ===== src/Cli/Pay/Tests.antt =====
-- A run of `keysend` of src/cli/payment_cmds.rs.
use cardano_lightning_relay.Prelude.{some, none, List, [], ◌∷◌}
use cardano_lightning_relay.Types.{Result, HtlcStatus}
use cardano_lightning_relay.Runtime.{Cmd, Call, Event, ret}
use cardano_lightning_relay.Runtime.Only
use cardano_lightning_relay.Runtime.Only.{Runs}
use cardano_lightning_relay.Cli.Pay.{record_payment, conclude_keysend, keysend}
use cardano_lightning_relay.Cli.Pay.Recorded.{IsPayment, InOrder, payments-InOrder}

abbrev keysend_events : List Event
keysend_events =
    Event.acted
      (Cmd.insert_outbound "p1" (record {
        preimage = none;
        secret = none;
        status = HtlcStatus.pending;
        amt_msat = some 900;
      }))
      tt
    ∷ Event.called Call.write_outbound_payments (Result.ok tt)
    ∷ Event.called (Call.send_spontaneous_payment "p1" 900) (Result.ok tt)
    ∷ []

keysend_run : Runs (keysend "p1" 900) keysend_events (ret tt)
unfolding keysend record_payment conclude_keysend
keysend_run = Only.acts tt (Only.calls (Result.ok tt) (Only.calls (Result.ok tt) Only.stop))

payments-InOrder_example : InOrder "p1" 900 keysend_events
payments-InOrder_example = payments-InOrder (IsPayment.spontaneous "p1" 900) keysend_run
