-- ===== src/Swap.antt =====
-- src/cardano_swap.rs: the onramp, Lightning BTC to cBTC. What is only printed is left out.
pub mod Address
pub mod Guards
pub mod Submissions
pub mod Outcome
use Prim.Native.String
use cardano_lightning_relay.Prelude.{
  ℕ, ◌-◌, ℤ, ◌==ℤ◌, ltb_ℤ, add_i64, String, ◌<>◌, show_ℤ, strip_prefix, Bool, true, false, not,
  Option, none, some, find, if◌then◌else◌,
}
use Prim.Native.Nat.{min}
use cardano_lightning_relay.Types.{Result, Invoice, State}
use cardano_lightning_relay.Libs.{Libs}
use cardano_lightning_relay.Status.SwapStatus.{SwapStatus}
use cardano_lightning_relay.Mapping.{SwapMapping}
use cardano_lightning_relay.Runtime.{Cmd, Call, Prog, ret, db, ask, and_then, map_err, ◌>>=◌, ◌>>◌}
use cardano_lightning_relay.Helpers.{submit_contract_tx_with_retry, query_state_with_retry}
use cardano_lightning_relay.Swap.Address.{validate_address, expected_prefix}

abbrev pub swap_prefix : String
swap_prefix = "cBTC_SWAP:"

-- Building a transaction and submitting it, in one attempt.
abbrev pub build_then_submit : Prog (Result String) → Prog (Result String)
build_then_submit build = do signed_tx ← build; and_then signed_tx λ tx. ask (Call.submit_tx tx)

abbrev pub submit_created : ℤ × String → Prog (Result (ℤ × String))
submit_created (id, tx) = do
  submitted ← ask (Call.submit_tx tx)
  and_then submitted λ hash. ret (Result.ok (id, hash))

abbrev pub create_then_submit : Prog (Result (ℤ × String)) → Prog (Result (ℤ × String))
create_then_submit create = do created ← create; and_then created submit_created

-- What `request_swap` returns: `(invoice_id, description, create_tx_hash)`, or the error.
unfoldable pub swap_created : String → Result (ℤ × String) → Prog (Result (ℤ × String × String))
swap_created cardano_address (Result.ok (invoice_id, tx_hash)) =
    ret (Result.ok (invoice_id, swap_prefix <> cardano_address, tx_hash))
swap_created cardano_address (Result.err e) =
    ret (Result.err ("failed to create invoice on Cardano: " <> e))

-- `request_swap` for an address that has been accepted.
unfoldable pub create_swap : ℤ → String → ℤ → String → Prog (Result (ℤ × String × String))
unfolding swap_created add_i64
create_swap amount_cbtc cardano_address expiry_ms owner_pkh = do
  now_ms ← ask Call.current_timestamp_ms
  created ← submit_contract_tx_with_retry "CreateInvoice" 3 15 (
      create_then_submit
        (ask (Call.create_invoice amount_cbtc owner_pkh now_ms (add_i64 now_ms expiry_ms))))
  swap_created cardano_address created

unfoldable pub request_swap : Libs → ℤ → String → ℤ → Prog (Result (ℤ × String × String))
unfolding create_swap
request_swap libs amount_cbtc cardano_address expiry_ms =
    and_then (validate_address libs cardano_address (some (expected_prefix libs.operator_address)))
      (create_swap amount_cbtc cardano_address expiry_ms)

unfoldable pub store_swap_mapping : String → ℤ → ℤ → String → ℤ → String → Prog Unit
store_swap_mapping payment_hash invoice_id amount_cbtc cardano_address expires_at create_tx_hash =
    do
      now_ms ← ask Call.current_timestamp_ms
      db (
          Cmd.insert (record {
            payment_hash = payment_hash;
            invoice_id = invoice_id;
            amount_cbtc = amount_cbtc;
            cardano_address = cardano_address;
            status = SwapStatus.pending;
            created_at = now_ms;
            expires_at = expires_at;
            cardano_tx_hash = none;
            create_tx_hash = some create_tx_hash;
          }))

abbrev pub find_invoice : ℤ → State → Option Invoice
find_invoice invoice_id state = find (λ i. i.invoice_id ==ℤ invoice_id) state.invoices

-- `match result { … }` at the end of `fulfill_swap`.
unfoldable pub conclude_swap : String → Result String → Prog Unit
conclude_swap payment_hash (Result.ok tx_hash) =
    db (Cmd.update_status payment_hash SwapStatus.completed (some tx_hash))
conclude_swap payment_hash (Result.err e) =
    db (Cmd.update_status payment_hash SwapStatus.failed none)

-- The two retry loops of `fulfill_swap`.
abbrev pub query_invoice : SwapMapping → Prog (Result Invoice)
query_invoice mapping =
    query_state_with_retry 24 10 ("LM invoice #" <> show_ℤ mapping.invoice_id)
      (find_invoice mapping.invoice_id)

abbrev pub fulfill_context : String → String
fulfill_context payment_hash =
    "FulfillInvoice(" <> String.slice payment_hash 0 (min (String.len payment_hash) 16) <> ")"

abbrev pub submit_fulfillment : SwapMapping → String → Invoice → Prog (Result String)
submit_fulfillment mapping payment_hash invoice =
    submit_contract_tx_with_retry (fulfill_context payment_hash) 3 15
      (build_then_submit (ask (Call.fulfill_invoice invoice mapping.cardano_address)))

-- `fulfill_swap` from the moment that the invoice is found on-chain, or not.
unfoldable pub settle_swap : SwapMapping → String → Result Invoice → Prog Unit
unfolding conclude_swap
settle_swap mapping payment_hash (Result.err e) =
    db (Cmd.update_status payment_hash SwapStatus.failed none)
settle_swap mapping payment_hash (Result.ok invoice) = do
  result ← submit_fulfillment mapping payment_hash invoice
  conclude_swap payment_hash result

-- `fulfill_swap` once the swap has been claimed, that is, moved from Pending to Fulfilling.
unfoldable pub fulfill_claimed : SwapMapping → String → Prog Unit
unfolding settle_swap
fulfill_claimed mapping payment_hash = do
  now_ms ← ask Call.current_timestamp_ms
  if ltb_ℤ mapping.expires_at now_ms
      then db (Cmd.update_status payment_hash SwapStatus.failed none)
      else do invoice ← query_invoice mapping; settle_swap mapping payment_hash invoice

-- `fulfill_swap` on the row of the payment hash, if there is one.
unfoldable pub fulfill_found : String → Option SwapMapping → Prog Unit
unfolding fulfill_claimed
fulfill_found payment_hash none = ret tt
fulfill_found payment_hash (some mapping) = do
  claimed ← db (Cmd.transition_status payment_hash SwapStatus.pending SwapStatus.fulfilling none)
  if claimed then fulfill_claimed mapping payment_hash else ret tt

unfoldable pub fulfill_swap : String → Prog Unit
unfolding fulfill_found
fulfill_swap payment_hash = do
  found ← db (Cmd.get_by_payment_hash payment_hash)
  fulfill_found payment_hash found

unfoldable pub extract_swap_address : String → Option String
unfolding strip_prefix
extract_swap_address description = strip_prefix description swap_prefix
