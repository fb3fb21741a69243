-- ===== src/Cli/Pay.antt =====
-- The payments that the terminal starts: `keysend` and `get_invoice` of src/cli/payment_cmds.rs, and
-- paying an offer or a name in src/cli/mod.rs. The random identifier of a payment is an argument.
pub mod Recorded
pub mod Tests
use cardano_lightning_relay.Prelude.{ℕ, String, Option, none, some}
use cardano_lightning_relay.Types.{Result, Bolt11Invoice, HtlcStatus}
use cardano_lightning_relay.Runtime.{Cmd, Call, Prog, ret, db, ask, unwrap, ◌>>=◌, ◌>>◌}
use cardano_lightning_relay.Payments.{write_outbound}

-- The record that is made before the node is asked to pay.
unfoldable pub record_payment : String → ℕ → Prog Unit
record_payment payment_id amt_msat = do
  db (
      Cmd.insert_outbound payment_id (record {
        preimage = none;
        secret = none;
        status = HtlcStatus.pending;
        amt_msat = some amt_msat;
      }))
  write_outbound

unfoldable pub conclude_keysend : String → Result Unit → Prog Unit
conclude_keysend payment_id (Result.ok u) = ret tt
conclude_keysend payment_id (Result.err e) = do
  db (Cmd.set_outbound_status payment_id HtlcStatus.failed)
  write_outbound

unfoldable pub keysend : String → ℕ → Prog Unit
unfolding record_payment conclude_keysend
keysend payment_id amt_msat = do
  record_payment payment_id amt_msat
  sent ← ask (Call.send_spontaneous_payment payment_id amt_msat)
  conclude_keysend payment_id sent

-- What the node answers is only printed.
unfoldable pub pay_offer : String → ℕ → Prog Unit
unfolding record_payment
pay_offer payment_id amt_msat = do
  record_payment payment_id amt_msat
  pay ← ask (Call.pay_for_offer payment_id amt_msat)
  ret tt

unfoldable pub pay_name : String → ℕ → Prog Unit
unfolding record_payment
pay_name payment_id amt_msat = do
  record_payment payment_id amt_msat
  pay ← ask (Call.pay_for_name payment_id amt_msat)
  ret tt

unfoldable pub record_invoice : ℕ → Result Bolt11Invoice → Prog Unit
record_invoice amt_msat (Result.err e) = ret tt
record_invoice amt_msat (Result.ok invoice) = db (
    Cmd.insert_inbound invoice.payment_hash (record {
      preimage = none;
      secret = some invoice.payment_secret;
      status = HtlcStatus.pending;
      amt_msat = some amt_msat;
    }))

-- `getinvoice` with its parsed arguments: `get_invoice`, and the write behind it. The invoice has no
-- description.
unfoldable pub get_invoice : ℕ → ℕ → Prog Unit
unfolding record_invoice
get_invoice amt_msat expiry_secs = do
  invoice ← ask (Call.create_bolt11_invoice amt_msat expiry_secs "")
  record_invoice amt_msat invoice
  written ← ask Call.write_inbound_payments
  unwrap written
