-- ===== src/Payments.antt =====
-- `send_payment` of src/cli/payment_cmds.rs: the amount to pay, the record of the payment, and its
-- fate when the node cannot start it. A payment's identifier is its payment hash.
use cardano_lightning_relay.Prelude.{
  ℕ, ◌==◌, String, ◌<>◌, show_ℕ, Option, none, some, if◌then◌else◌,
}
use cardano_lightning_relay.Types.{Result, Bolt11Invoice, HtlcStatus}
use cardano_lightning_relay.Runtime.{Cmd, Call, Prog, ret, db, ask, unwrap, and_then, ◌>>=◌, ◌>>◌}

-- `match (invoice.amount_milli_satoshis(), required_amount_msat)`
unfoldable pub amount_to_send : Option ℕ → Option ℕ → Result ℕ
amount_to_send (some inv_amt) (some req_amt) =
    if inv_amt == req_amt
    then Result.ok inv_amt
    else Result.err (
        "amount mismatch: invoice "
        <> show_ℕ inv_amt
        <> " msat vs required "
        <> show_ℕ req_amt
        <> " msat")
amount_to_send (some inv_amt) none = Result.ok inv_amt
amount_to_send none (some req_amt) = Result.ok req_amt
amount_to_send none none = Result.err "amountless invoice with no required amount"

-- `fs_store.write(…).await.unwrap()`
abbrev pub write_outbound : Prog Unit
write_outbound = do written ← ask Call.write_outbound_payments; unwrap written

-- What follows the node's answer to `pay_for_bolt11_invoice`.
unfoldable pub settle_send : String → Result Unit → Prog (Result Unit)
settle_send payment_id (Result.ok _) = ret (Result.ok tt)
settle_send payment_id (Result.err e) = do
  db (Cmd.set_outbound_status payment_id HtlcStatus.failed)
  write_outbound
  ret (Result.err ("failed to send payment: " <> e))

-- `send_payment` once the amount is known.
unfoldable pub start_payment : Bolt11Invoice → Option ℕ → ℕ → Prog (Result Unit)
unfolding settle_send
start_payment invoice required_amount_msat amt_msat = do
  db (
      Cmd.insert_outbound invoice.payment_hash (record {
        preimage = none;
        secret = some invoice.payment_secret;
        status = HtlcStatus.pending;
        amt_msat = some amt_msat;
      }))
  write_outbound
  started ← ask (Call.pay_for_bolt11_invoice invoice.payment_hash required_amount_msat)
  settle_send invoice.payment_hash started

unfoldable pub send_payment : Bolt11Invoice → Option ℕ → Prog (Result Unit)
unfolding amount_to_send start_payment
send_payment invoice required_amount_msat =
    and_then (amount_to_send invoice.amount_milli_satoshis required_amount_msat)
      (start_payment invoice required_amount_msat)
