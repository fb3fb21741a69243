-- ===== src/Api.antt =====
-- The REST handlers of src/api.rs that act on swaps, offramps and the pool. A request's address and
-- the fields of its body are arguments; a reply is the body, or a status code with its error text.
pub mod Auth
pub mod Balance
pub mod Checks
pub mod Metrics
pub mod Pool
pub mod Reports
use Prim.Native.String
use cardano_lightning_relay.Prelude.{
  ℕ, suc, ◌+◌, ◌-◌, ◌/◌, ◌%◌, ◌^◌, ltb, ℤ, pos, negsuc, leb_ℤ, ltb_ℤ, add_i64, show_ℕ, show_ℤ,
  is_empty, String, ◌<>◌, Option, none, some, Bool, true, false, not, ◌||◌, if◌then◌else◌,
}
use cardano_lightning_relay.Types.{Result, State, Bolt11Invoice, HtlcStatus}
use cardano_lightning_relay.Libs.{Libs}
use cardano_lightning_relay.Amounts.{cbtc_to_msat}
use cardano_lightning_relay.Status.OfframpStatus
use cardano_lightning_relay.Mapping.{SwapMapping, OfframpMapping}
use cardano_lightning_relay.Runtime.{Cmd, Call, Prog, ret, db, ask, unwrap, ◌>>=◌, ◌>>◌}
use cardano_lightning_relay.Swap.{request_swap, store_swap_mapping}
use cardano_lightning_relay.Offramp.{request_offramp, process_offramp_deposit}

pub data StatusCode : Type 0 where
  bad_request unauthorized not_found too_many_requests internal_server_error service_unavailable :
      StatusCode

pub data Response (A : Type 0) : Type 0 where
  json : A → Response A
  error : StatusCode → String → Response A

-- `guard?`: an error reply, or the rest of the handler.
abbrev pub reject :
    {A : Type 0} → Bool → StatusCode → String → Prog (Response A) → Prog (Response A)
reject refused code msg rest = if refused then ret (Response.error code msg) else rest

abbrev pub max_bolt11_len : ℕ
max_bolt11_len = 2_048

abbrev pub max_cardano_addr_len : ℕ
max_cardano_addr_len = 256

abbrev pub max_tx_hash_len : ℕ
max_tx_hash_len = 128

-- The limits of `ApiState`.
pub record Limits : Type 0 where
  pub max_active_swaps : ℤ
  pub max_active_offramps : ℤ
  pub swap_expiry_ms : ℤ

pub record SwapResponse : Type 0 where
  pub invoice_id : ℤ
  pub bolt11 : String
  pub payment_hash : String

pub record OfframpResponse : Type 0 where
  pub offramp_id : ℤ
  pub operator_address : String
  pub payment_hash : String
  pub status : String

-- `req.amount_cbtc <= 0 || req.amount_cbtc > 10_000_000_000`
unfoldable pub amount_out_of_range : ℤ → Bool
amount_out_of_range amount = leb_ℤ amount (pos 0) || ltb_ℤ (pos 10_000_000_000) amount

-- `(expiry_ms / 1000) as u32`: the quotient is cut towards 0, the cast keeps the low 32 bits.
unfoldable pub expiry_secs : ℤ → ℕ
expiry_secs (pos ms) = (ms / 1_000) % 2 ^ 32
expiry_secs (negsuc n) = (2 ^ 64 - suc n / 1_000) % 2 ^ 32

-- `create_invoice_for_swap` of src/cli/payment_cmds.rs on the node's answer.
unfoldable pub record_invoice : Libs → ℕ → Result Bolt11Invoice → Prog (Option (String × String))
record_invoice libs amt_msat (Result.err e) = ret none
record_invoice libs amt_msat (Result.ok invoice) = do
  db (
      Cmd.insert_inbound invoice.payment_hash (record {
        preimage = none;
        secret = some invoice.payment_secret;
        status = HtlcStatus.pending;
        amt_msat = some amt_msat;
      }))
  ret (some (libs.bolt11_to_string invoice, invoice.payment_hash))

-- `create_invoice_for_swap`: the invoice's text and its payment hash.
unfoldable pub create_invoice_for_swap : Libs → ℤ → String → ℕ → Prog (Option (String × String))
unfolding record_invoice
create_invoice_for_swap libs amount_cbtc description expiry = elim (cbtc_to_msat amount_cbtc) [
  | none ↦ ret none
  | some amt_msat ↦ do
    text ← unwrap (libs.description_new description)
    made ← ask (Call.create_bolt11_invoice amt_msat expiry text)
    record_invoice libs amt_msat made
]

-- Step 3 of `handle_swap_request`, and its reply.
unfoldable pub store_swap :
    ℤ → String → ℤ → ℤ × String × String → Option (String × String) → Prog (Response SwapResponse)
unfolding add_i64
store_swap amount_cbtc address expiry_ms created none =
    ret (Response.error StatusCode.internal_server_error "failed to create BOLT11 invoice")
store_swap amount_cbtc address expiry_ms (invoice_id, description, create_tx_hash)
      (some (bolt11, payment_hash)) =
    do
      now_ms ← ask Call.current_timestamp_ms
      store_swap_mapping payment_hash invoice_id amount_cbtc address (add_i64 now_ms expiry_ms)
          create_tx_hash
      ret (
          Response.json
            (record { invoice_id = invoice_id; bolt11 = bolt11; payment_hash = payment_hash }))

-- `handle_swap_request` from the transaction on.
unfoldable pub open_swap :
    Libs → ℤ → String → ℤ → Result (ℤ × String × String) → Prog (Response SwapResponse)
unfolding create_invoice_for_swap store_swap expiry_secs
open_swap libs amount_cbtc address expiry_ms (Result.err e) =
    ret (Response.error StatusCode.bad_request e)
open_swap libs amount_cbtc address expiry_ms (Result.ok created) = do
  made ← create_invoice_for_swap libs amount_cbtc created.1 (expiry_secs expiry_ms)
  store_swap amount_cbtc address expiry_ms created made

-- The liquidity check: the error, if the pool can be read and has too little.
unfoldable pub liquidity_error : ℤ → Result State → Option String
unfolding show_ℤ
liquidity_error amount_cbtc (Result.err e) = none
liquidity_error amount_cbtc (Result.ok state) =
    if ltb_ℤ state.available amount_cbtc
    then some (
        "insufficient pool liquidity: requested "
        <> show_ℤ amount_cbtc
        <> " but only "
        <> show_ℤ state.available
        <> " available")
    else none

abbrev pub reject_with : {A : Type 0} → Option String → Prog (Response A) → Prog (Response A)
reject_with none rest = rest
reject_with (some msg) rest = ret (Response.error StatusCode.bad_request msg)

unfoldable pub handle_swap_request :
    Libs → Limits → String → ℤ → String → Prog (Response SwapResponse)
unfolding amount_out_of_range liquidity_error open_swap
handle_swap_request libs limits ip amount_cbtc address = do
  now ← ask Call.instant_now
  allowed ← db (Cmd.check_rate ip now)
  reject (not allowed) StatusCode.too_many_requests "rate limit exceeded, try again later" (
      reject (amount_out_of_range amount_cbtc) StatusCode.bad_request
        "amount must be between 1 and 10,000,000,000 cBTC"
        (reject (ltb max_cardano_addr_len (String.len address)) StatusCode.bad_request
          "cardano_address too long"
          (do
            active_swaps ← db Cmd.count_active_swaps
            reject (leb_ℤ limits.max_active_swaps (pos active_swaps)) StatusCode.service_unavailable
                ("too many active swaps (" <> show_ℕ active_swaps <> "), try again later")
                (do
                  pool_state ← ask Call.query_state
                  reject_with (liquidity_error amount_cbtc pool_state) (do
                    created ← request_swap libs amount_cbtc address limits.swap_expiry_ms
                    open_swap libs amount_cbtc address limits.swap_expiry_ms created)))))

unfoldable pub offramp_created : Result (ℤ × String × String) → Prog (Response OfframpResponse)
offramp_created (Result.err e) = ret (Response.error StatusCode.bad_request e)
offramp_created (Result.ok (offramp_id, operator_address, payment_hash)) = ret (
    Response.json (record {
      offramp_id = offramp_id;
      operator_address = operator_address;
      payment_hash = payment_hash;
      status = "AwaitingDeposit";
    }))

unfoldable pub handle_offramp_request :
    Libs → Limits → String → String → ℤ → String → Prog (Response OfframpResponse)
unfolding amount_out_of_range offramp_created
handle_offramp_request libs limits ip bolt11 amount_cbtc address = do
  now ← ask Call.instant_now
  allowed ← db (Cmd.check_rate ip now)
  reject (not allowed) StatusCode.too_many_requests "rate limit exceeded, try again later" (
      reject (amount_out_of_range amount_cbtc) StatusCode.bad_request
        "amount must be between 1 and 10,000,000,000 cBTC"
        (reject (ltb max_bolt11_len (String.len bolt11)) StatusCode.bad_request
          "bolt11 invoice too long"
          (reject (ltb max_cardano_addr_len (String.len address)) StatusCode.bad_request
            "cardano_address too long"
            (do
              active_offramps ← db Cmd.count_active_offramps
              reject (leb_ℤ limits.max_active_offramps (pos active_offramps))
                  StatusCode.service_unavailable
                  ("too many active offramps (" <> show_ℕ active_offramps <> "), try again later")
                  (do
                    created ← request_offramp libs bolt11 amount_cbtc address limits.swap_expiry_ms
                    offramp_created created)))))

unfoldable pub deposit_reply : Libs → ℤ → Option OfframpMapping → Response OfframpResponse
unfolding OfframpStatus.as_str
deposit_reply libs offramp_id none = Response.error StatusCode.not_found "offramp not found"
deposit_reply libs offramp_id (some mapping) = Response.json (record {
  offramp_id = offramp_id;
  operator_address = libs.operator_address;
  payment_hash = mapping.payment_hash;
  status = OfframpStatus.as_str mapping.status;
})

unfoldable pub deposit_processed : Libs → ℤ → Result Unit → Prog (Response OfframpResponse)
unfolding deposit_reply
deposit_processed libs offramp_id (Result.err e) = ret (Response.error StatusCode.bad_request e)
deposit_processed libs offramp_id (Result.ok _) = do
  mapping ← db (Cmd.get_offramp_by_id offramp_id)
  ret (deposit_reply libs offramp_id mapping)

unfoldable pub handle_offramp_deposit : Libs → String → ℤ → String → Prog (Response OfframpResponse)
unfolding deposit_processed is_empty
handle_offramp_deposit libs ip offramp_id cbtc_tx_hash = do
  now ← ask Call.instant_now
  allowed ← db (Cmd.check_rate ip now)
  reject (not allowed) StatusCode.too_many_requests "rate limit exceeded, try again later" (
      reject (leb_ℤ offramp_id (pos 0)) StatusCode.bad_request "invalid offramp_id" (
        reject (ltb max_tx_hash_len (String.len cbtc_tx_hash) || is_empty cbtc_tx_hash)
          StatusCode.bad_request "invalid cbtc_tx_hash"
          (do
            processed ← process_offramp_deposit libs offramp_id cbtc_tx_hash
            deposit_processed libs offramp_id processed)))
