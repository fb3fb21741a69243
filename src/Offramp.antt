-- ===== src/Offramp.antt =====
-- src/cardano_offramp.rs, first half: the request of an offramp and the user's deposit.
pub mod Settle
pub mod Guards
pub mod Outcome
pub mod Refund
use text.Mathlib.Text.{starts_with}
use cardano_lightning_relay.Prelude.{
  ℕ, ◌==◌, ℤ, ◌==ℤ◌, add_i64, String, ◌<>◌, show_ℕ, show_ℤ, Bool, true, false, not, Option, none,
  some, if◌then◌else◌,
}
use cardano_lightning_relay.Types.{Result, Bolt11Invoice, Currency}
use cardano_lightning_relay.Libs.{Libs}
use cardano_lightning_relay.Amounts.{cbtc_to_msat}
use cardano_lightning_relay.Status.OfframpStatus.{OfframpStatus}
use cardano_lightning_relay.Mapping.{OfframpMapping}
use cardano_lightning_relay.Runtime.{Cmd, Call, Prog, ret, db, ask, and_then, map_err, ◌>>=◌, ◌>>◌}
use cardano_lightning_relay.Helpers.{submit_contract_tx_with_retry}
use cardano_lightning_relay.Swap.{create_then_submit}
use cardano_lightning_relay.Swap.Address.{address_to_pkh}
use cardano_lightning_relay.Payments.{send_payment}

-- The derived `Debug` of `OfframpStatus`.
abbrev pub debug : OfframpStatus → String
debug OfframpStatus.awaiting_deposit = "AwaitingDeposit"
debug OfframpStatus.pending_verification = "PendingVerification"
debug OfframpStatus.paying_lightning = "PayingLightning"
debug OfframpStatus.depositing_to_pool = "DepositingToPool"
debug OfframpStatus.completed = "Completed"
debug OfframpStatus.failed = "Failed"

abbrev debug_currency : Currency → String
debug_currency Currency.bitcoin = "Bitcoin"
debug_currency Currency.bitcoin_testnet = "BitcoinTestnet"
debug_currency Currency.regtest = "Regtest"
debug_currency Currency.signet = "Signet"
debug_currency Currency.simnet = "Simnet"

abbrev debug_bool : Bool → String
debug_bool true = "true"
debug_bool false = "false"

unfoldable pub network_ok : Currency → Bool → Bool
network_ok Currency.bitcoin is_testnet_relay = not is_testnet_relay
network_ok Currency.bitcoin_testnet is_testnet_relay = is_testnet_relay
network_ok Currency.regtest is_testnet_relay = is_testnet_relay
network_ok Currency.signet is_testnet_relay = is_testnet_relay
network_ok Currency.simnet is_testnet_relay = false

abbrev amount_matches : Option ℕ → ℕ → Bool
amount_matches none required_msat = true
amount_matches (some inv_amt) required_msat = inv_amt == required_msat

abbrev shown : Option ℕ → String
shown none = ""
shown (some n) = show_ℕ n

abbrev or_err : {A : Type 0} → Option A → String → Result A
or_err none e = Result.err e
or_err (some a) e = Result.ok a

-- The checks of `request_offramp` between the lookup and the transaction: the required amount in
-- millisatoshis and the key hash for the refund.
unfoldable pub check_request : Libs → Bolt11Invoice → ℤ → String → Result (ℕ × String)
unfolding network_ok address_to_pkh
check_request libs invoice amount_cbtc cardano_address =
    let is_testnet_relay = starts_with libs.operator_address "addr_test" in
    if not (network_ok invoice.currency is_testnet_relay)
    then Result.err (
        "BOLT11 invoice network ("
        <> debug_currency invoice.currency
        <> ") does not match relay network (testnet="
        <> debug_bool is_testnet_relay
        <> ")")
    else elim (cbtc_to_msat amount_cbtc) [
      | none ↦ Result.err ("invalid cBTC amount: " <> show_ℤ amount_cbtc)
      | some required_msat ↦
          if not (amount_matches invoice.amount_milli_satoshis required_msat)
          then Result.err (
              "invoice amount "
              <> shown invoice.amount_milli_satoshis
              <> " msat does not match requested "
              <> show_ℤ amount_cbtc
              <> " cBTC ("
              <> show_ℕ required_msat
              <> " msat)")
          else elim (address_to_pkh libs cardano_address) [
            | Result.err e ↦ Result.err e
            | Result.ok refund_pkh ↦ Result.ok (required_msat, refund_pkh)
          ]
    ]

abbrev pub new_offramp : ℤ → String → String → ℤ → ℤ → String → String → ℤ → OfframpMapping
new_offramp offramp_id bolt11 payment_hash amount_cbtc now_ms create_tx_hash refund_pkh expires_at =
    record {
      offramp_id = offramp_id;
      bolt11 = bolt11;
      payment_hash = payment_hash;
      amount_cbtc = amount_cbtc;
      cbtc_tx_hash = "";
      status = OfframpStatus.awaiting_deposit;
      created_at = now_ms;
      lightning_preimage = none;
      deposit_tx_hash = none;
      error_message = none;
      cardano_offramp_tx_hash = some create_tx_hash;
      refund_address = refund_pkh;
      expires_at = expires_at;
    }

-- Step 5 of `request_offramp`: `(offramp_id, operator_address, payment_hash)`, or the error.
unfoldable pub store_offramp :
    Libs
    → String
    → String
    → ℤ
    → ℤ
    → String
    → ℤ
    → Result (ℤ × String)
    → Prog (Result (ℤ × String × String))
store_offramp libs bolt11_str payment_hash amount_cbtc now_ms refund_pkh expires_at (Result.err e) =
    ret (Result.err ("failed to create offramp on Cardano: " <> e))
store_offramp libs bolt11_str payment_hash amount_cbtc now_ms refund_pkh expires_at
      (Result.ok (offramp_id, create_tx_hash)) =
    do
      db (
          Cmd.insert_offramp (
            new_offramp offramp_id bolt11_str payment_hash amount_cbtc now_ms create_tx_hash
              refund_pkh expires_at))
      ret (Result.ok (offramp_id, libs.operator_address, payment_hash))

-- Steps 3 to 5, for the key hash that the refund goes to.
unfoldable pub create_offramp_entry :
    Libs → String → String → ℤ → ℤ → ℕ × String → Prog (Result (ℤ × String × String))
unfolding store_offramp add_i64
create_offramp_entry libs bolt11_str payment_hash amount_cbtc expiry_ms checked = do
  now_ms ← ask Call.current_timestamp_ms
  created ← submit_contract_tx_with_retry "CreateOfframp" 3 15 (
      create_then_submit
        (ask (Call.create_offramp amount_cbtc payment_hash checked.1 (add_i64 now_ms expiry_ms))))
  store_offramp libs bolt11_str payment_hash amount_cbtc now_ms checked.1 (add_i64 now_ms expiry_ms)
      created

-- `request_offramp` for an invoice that parses.
unfoldable pub request_parsed :
    Libs → String → ℤ → String → ℤ → Bolt11Invoice → Prog (Result (ℤ × String × String))
unfolding create_offramp_entry check_request
request_parsed libs bolt11_str amount_cbtc cardano_address expiry_ms invoice = do
  existing ← db (Cmd.get_offramp_by_payment_hash invoice.payment_hash)
  elim existing [
    | some m ↦ ret (
        Result.err (
          "BOLT11 invoice already used in offramp #"
          <> show_ℤ m.offramp_id
          <> " (status: "
          <> debug m.status
          <> ")"))
    | none ↦
        and_then (check_request libs invoice amount_cbtc cardano_address)
          (create_offramp_entry libs bolt11_str invoice.payment_hash amount_cbtc expiry_ms)
  ]

unfoldable pub request_offramp :
    Libs → String → ℤ → String → ℤ → Prog (Result (ℤ × String × String))
unfolding request_parsed
request_offramp libs bolt11_str amount_cbtc cardano_address expiry_ms =
    and_then (map_err (λ e. "invalid BOLT11 invoice: " <> e) (libs.bolt11_from_str bolt11_str))
      (request_parsed libs bolt11_str amount_cbtc cardano_address expiry_ms)

-- `process_offramp_deposit` after `send_payment`.
unfoldable pub conclude_deposit : ℤ → Result Unit → Prog (Result Unit)
conclude_deposit offramp_id (Result.ok _) = ret (Result.ok tt)
conclude_deposit offramp_id (Result.err e) = do
  let msg = "Lightning payment initiation failed: " <> e
  db (Cmd.update_offramp_status offramp_id OfframpStatus.failed none none (some msg))
  ret (Result.err msg)

-- `process_offramp_deposit` once the status is PayingLightning, in three steps.
unfoldable pub pay_amount : ℤ → Bolt11Invoice → ℕ → Prog (Result Unit)
unfolding conclude_deposit
pay_amount offramp_id invoice required_msat = do
  sent ← send_payment invoice (some required_msat)
  conclude_deposit offramp_id sent

unfoldable pub pay_parsed : ℤ → OfframpMapping → Bolt11Invoice → Prog (Result Unit)
unfolding pay_amount
pay_parsed offramp_id mapping invoice =
    and_then
      (or_err (cbtc_to_msat mapping.amount_cbtc)
        ("invalid cBTC amount: " <> show_ℤ mapping.amount_cbtc))
      (pay_amount offramp_id invoice)

unfoldable pub pay_offramp : Libs → ℤ → OfframpMapping → Prog (Result Unit)
unfolding pay_parsed
pay_offramp libs offramp_id mapping =
    and_then
      (map_err (λ e. "failed to re-parse bolt11: " <> e) (libs.bolt11_from_str mapping.bolt11))
      (pay_parsed offramp_id mapping)

-- `process_offramp_deposit` on the answer of the verification.
unfoldable pub verified_offramp :
    Libs → ℤ → String → OfframpMapping → Result Bool → Prog (Result Unit)
unfolding pay_offramp
verified_offramp libs offramp_id cbtc_tx_hash mapping (Result.err e) = do
  db (Cmd.update_offramp_status offramp_id OfframpStatus.awaiting_deposit none none none)
  ret (Result.err ("failed to verify cBTC receipt: " <> e))
verified_offramp libs offramp_id cbtc_tx_hash mapping (Result.ok false) = do
  db (
      Cmd.update_offramp_status offramp_id OfframpStatus.awaiting_deposit none none
        (some "cBTC not received at operator address"))
  ret (Result.err ("cBTC not found at operator address in tx " <> cbtc_tx_hash))
verified_offramp libs offramp_id cbtc_tx_hash mapping (Result.ok true) = do
  moved ← db (
      Cmd.transition_offramp_with_cbtc_tx offramp_id cbtc_tx_hash OfframpStatus.pending_verification
        OfframpStatus.paying_lightning)
  if moved
      then pay_offramp libs offramp_id mapping
      else ret (
          Result.err (
            "offramp "
            <> show_ℤ offramp_id
            <> " status changed during verification (concurrent request)"))

-- The first check of `process_offramp_deposit`: the transaction belongs to no other offramp.
abbrev pub used_by_other : ℤ → Option OfframpMapping → Option ℤ
used_by_other offramp_id none = none
used_by_other offramp_id (some m) = if m.offramp_id ==ℤ offramp_id then none else some m.offramp_id

unfoldable pub verify_deposit : Libs → ℤ → String → OfframpMapping → Prog (Result Unit)
unfolding verified_offramp
verify_deposit libs offramp_id cbtc_tx_hash mapping = do
  claimed ← db (
      Cmd.transition_offramp_status offramp_id OfframpStatus.awaiting_deposit
        OfframpStatus.pending_verification)
  if claimed
      then (do
        received ← ask (Call.verify_cbtc_received cbtc_tx_hash mapping.amount_cbtc)
        verified_offramp libs offramp_id cbtc_tx_hash mapping received)
      else ret (
          Result.err (
            "offramp "
            <> show_ℤ offramp_id
            <> " is not in AwaitingDeposit status (concurrent request or already processed)"))

-- `process_offramp_deposit` by the offramp that uses the transaction already.
unfoldable pub deposit_unless_used :
    Libs → ℤ → String → OfframpMapping → Option ℤ → Prog (Result Unit)
unfolding verify_deposit
deposit_unless_used libs offramp_id cbtc_tx_hash mapping (some other) =
    ret (Result.err ("cBTC TX " <> cbtc_tx_hash <> " already used by offramp #" <> show_ℤ other))
deposit_unless_used libs offramp_id cbtc_tx_hash mapping none =
    verify_deposit libs offramp_id cbtc_tx_hash mapping

unfoldable pub process_offramp_deposit : Libs → ℤ → String → Prog (Result Unit)
unfolding deposit_unless_used
process_offramp_deposit libs offramp_id cbtc_tx_hash = do
  found ← db (Cmd.get_offramp_by_id offramp_id)
  elim found [
    | none ↦ ret (Result.err ("offramp " <> show_ℤ offramp_id <> " not found"))
    | some mapping ↦ do
      existing ← db (Cmd.get_offramp_by_cbtc_tx cbtc_tx_hash)
      deposit_unless_used libs offramp_id cbtc_tx_hash mapping (used_by_other offramp_id existing)
  ]
