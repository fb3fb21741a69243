-- ===== src/Chain/Bitcoind.antt =====
-- src/bitcoind_client.rs: the fees, the funding transactions and the broadcasts of the client of a
-- Bitcoin node. What the node answers at the time of a call is the record `Rpc`, a parameter, as are
-- the types and functions of the bitcoin crate. `none` is a panic.
pub mod Polling
pub mod Broadcast
pub mod Tests
use Prim.Native.Nat.{max}
use cardano_lightning_relay.Prelude.{
  ℕ, ◌+◌, ◌-◌, ◌%◌, ◌^◌, ◌==◌, String, ◌<>◌, codes, Bool, true, false, not, Option, none, some,
  List, [], ◌∷◌, if◌then◌else◌,
}
use cardano_lightning_relay.Types.{Result}
use cardano_lightning_relay.Hex.{to_vec, hex_str}
use cardano_lightning_relay.Chain.{ConfirmationTarget, Fees, store, min_feerate}
use cardano_lightning_relay.Chain.Float.{FloatOps}
use cardano_lightning_relay.Chain.Json.{JsonOps}
use cardano_lightning_relay.Chain.Esplora
use cardano_lightning_relay.Chain.Esplora.{EsploraClient}
use cardano_lightning_relay.Chain.Bdk
use cardano_lightning_relay.Chain.Bdk.{WalletOps}
use cardano_lightning_relay.Chain.Convert.{
  FundedTx, SignedTx, FeeResponse, MempoolMinFeeResponse, Reply, call_method, answered, unwrapped,
  to_funded_tx, to_raw_tx, to_signed_tx, to_new_address, to_fee_response,
  to_mempool_min_fee_response, to_wallet_balance,
}

-- The calls of the node's RPC interface, each with what it comes to.
pub record Node (F : Type 0) : Type 0 where
  pub getmempoolinfo : Reply MempoolMinFeeResponse
  pub estimatesmartfee : ℕ → String → Reply FeeResponse
  pub createrawtransaction : List (List (String × F)) → Reply String
  pub fundrawtransaction : String → F → Bool → Reply FundedTx
  pub signrawtransactionwithwallet : List ℕ → Reply SignedTx
  pub getbalance : Reply ℕ
  pub getnewaddress : String → Reply String

-- What the node sends back to each call, before src/convert.rs reads it.
pub record Rpc (J F : Type 0) : Type 0 where
  pub getmempoolinfo : Result J
  pub estimatesmartfee : ℕ → String → Result J
  pub createrawtransaction : List (List (String × F)) → Result J
  pub fundrawtransaction : String → F → Bool → Result J
  pub signrawtransactionwithwallet : List ℕ → Result J
  pub getbalance : Result J
  pub getnewaddress : String → Result J

module _ {J F : Type 0} (json : JsonOps J F) (float : FloatOps F) (from_btc : F → Result ℕ) where
  abbrev to_fee : J → Option FeeResponse
  to_fee j = some (to_fee_response json float j)

  unfoldable pub node_of : Rpc J F → Node F
  unfolding to_mempool_min_fee_response to_fee_response
  node_of rpc = record {
    getmempoolinfo = call_method (to_mempool_min_fee_response json float) rpc.getmempoolinfo;
    estimatesmartfee = λ blocks mode. call_method to_fee (rpc.estimatesmartfee blocks mode);
    createrawtransaction =
        λ outputs. call_method (to_raw_tx json float) (rpc.createrawtransaction outputs);
    fundrawtransaction = λ raw_tx fee_rate replaceable.
        call_method (to_funded_tx json float) (rpc.fundrawtransaction raw_tx fee_rate replaceable);
    signrawtransactionwithwallet =
        λ tx_hex. call_method (to_signed_tx json float) (rpc.signrawtransactionwithwallet tx_hex);
    getbalance = some (Bdk.and_then rpc.getbalance (to_wallet_balance json float from_btc));
    getnewaddress = λ label. call_method (to_new_address json float) (rpc.getnewaddress label);
  }

-- `match resp.feerate_sat_per_kw { Some(feerate) => max(feerate, MIN_FEERATE), None => default }`
abbrev pub estimate_or : ℕ → Option ℕ → ℕ
estimate_or default none = default
estimate_or default (some feerate) = max feerate min_feerate

-- The stores of one round, each `fees.get(&t).unwrap().store(…)`.
abbrev pub store_all : List (ConfirmationTarget × ℕ) → Fees → Option Fees
store_all [] fees = some fees
store_all ((t, rate) ∷ rates) fees = unwrapped (store t rate fees) (store_all rates)

-- What one round stores, in order. The subtraction is on `u32`.
abbrev pub polled_rates :
    Option ℕ → Option ℕ → Option ℕ → Option ℕ → Option ℕ → List (ConfirmationTarget × ℕ)
polled_rates mempoolmin background normal high_prio very_high_prio =
    let background_estimate = estimate_or min_feerate background in
    (ConfirmationTarget.maximum_fee_estimate, estimate_or 50000 very_high_prio)
    ∷ (ConfirmationTarget.urgent_on_chain_sweep, estimate_or 5000 high_prio)
    ∷ (ConfirmationTarget.min_allowed_anchor_channel_remote_fee, estimate_or min_feerate mempoolmin)
    ∷ (
      ConfirmationTarget.min_allowed_non_anchor_channel_remote_fee,
      (background_estimate + 2 ^ 32 - 250) % 2 ^ 32,
    )
    ∷ (ConfirmationTarget.anchor_channel_fee, background_estimate)
    ∷ (ConfirmationTarget.non_anchor_channel_fee, estimate_or 2000 normal)
    ∷ (ConfirmationTarget.channel_close_minimum, background_estimate)
    ∷ (ConfirmationTarget.output_spending_fee, background_estimate)
    ∷ []

module _ {F : Type 0} (node : Node F) where
  -- One turn of the loop in `poll_for_fee_estimates`; then it sleeps for 60 seconds.
  unfoldable pub poll_for_fee_estimates : Fees → Option Fees
  poll_for_fee_estimates fees = answered node.getmempoolinfo λ mempoolmin.
      answered (node.estimatesmartfee 144 "ECONOMICAL") λ background.
        answered (node.estimatesmartfee 18 "ECONOMICAL") λ normal.
          answered (node.estimatesmartfee 6 "CONSERVATIVE") λ high_prio.
            answered (node.estimatesmartfee 2 "CONSERVATIVE") λ very_high_prio.
              store_all
                (polled_rates mempoolmin.feerate_sat_per_kw background.feerate_sat_per_kw
                  normal.feerate_sat_per_kw high_prio.feerate_sat_per_kw
                  very_high_prio.feerate_sat_per_kw)
                fees

-- What the client is: the node's own fees, and the backends that take its place when they are set.
pub record BitcoindClient (Wallet : Type 0) : Type 0 where
  pub fees : Fees
  pub esplora : Option EsploraClient
  pub bdk_wallet : Option Wallet

module _ {Wallet Update Script Psbt Tx Address F : Type 0}
    (ops : WalletOps Wallet Update Script Psbt Tx Address) (float : FloatOps F)
    (from_script : Script → Result String) (deserialize : List ℕ → Result Tx) where
  unfoldable pub set_esplora_backend :
      EsploraClient → Wallet → BitcoindClient Wallet → BitcoindClient Wallet
  set_esplora_backend esplora bdk_wallet client = record client {
    esplora = some esplora;
    bdk_wallet = some bdk_wallet;
  }

  abbrev pub estimator : Option EsploraClient → Fees → ConfirmationTarget → Option ℕ
  estimator none fees t = fees t
  estimator (some esplora) fees t = Esplora.get_est_sat_per_1000_weight esplora t

  unfoldable pub get_est_sat_per_1000_weight : BitcoindClient Wallet → ConfirmationTarget → Option ℕ
  get_est_sat_per_1000_weight client t = estimator client.esplora client.fees t

  unfoldable pub bitcoind_funding_outputs : Script → ℕ → Result (List (List (String × F)))
  bitcoind_funding_outputs output_script value_sats =
      Bdk.and_then
        (Bdk.map_err "Lightning funding output was not a valid address: "
          (from_script output_script))
        λ addr.
          Result.ok (((addr, float.div (float.of value_sats) (float.of 100_000_000)) ∷ []) ∷ [])

  module _ (node : Node F) (client : BitcoindClient Wallet) where
    -- `fee_rate` is in sat/vB, and the transaction cannot be replaced.
    unfoldable pub try_fund_raw_transaction : String → Option (Result FundedTx)
    unfolding get_est_sat_per_1000_weight
    try_fund_raw_transaction raw_tx =
        unwrapped (get_est_sat_per_1000_weight client ConfirmationTarget.non_anchor_channel_fee)
          λ rate. node.fundrawtransaction raw_tx (float.div (float.of rate) (float.of 250)) false

    abbrev pub bytes_of : Option (List ℕ) → Result Tx
    bytes_of none = Result.err "bitcoind returned non-hex funding transaction"
    bytes_of (some bytes) =
        Bdk.map_err "Failed to decode signed funding transaction: " (deserialize bytes)

    abbrev pub checked : SignedTx → Result Tx
    checked signed_tx =
        if not signed_tx.complete
        then Result.err "bitcoind wallet did not completely sign funding transaction"
        else bytes_of (to_vec (codes signed_tx.hex))

    abbrev pub signed_of : Result SignedTx → Result Tx
    signed_of signed =
        Bdk.and_then (Bdk.map_err "Failed to sign transaction with bitcoind wallet: " signed)
          checked

    -- The call behind the funding of the raw transaction.
    abbrev pub sign_funded : Result FundedTx → Option (Result Tx)
    sign_funded (Result.err e) =
        some (Result.err ("Failed to fund transaction with bitcoind wallet: " <> e))
    sign_funded (Result.ok funded_tx) =
        unwrapped (node.signrawtransactionwithwallet (codes funded_tx.hex))
          λ signed. some (signed_of signed)

    abbrev pub from_outputs : Result (List (List (String × F))) → Option (Result Tx)
    from_outputs (Result.err e) = some (Result.err e)
    from_outputs (Result.ok outputs) =
        answered (node.createrawtransaction outputs)
          λ raw_tx. unwrapped (try_fund_raw_transaction raw_tx) sign_funded

    abbrev with_wallet : Result Tx × Wallet → Result Tx × BitcoindClient Wallet
    with_wallet (r, wallet) = (r, record client { bdk_wallet = some wallet })

    abbrev with_client : Result Tx → Option (Result Tx × BitcoindClient Wallet)
    with_client r = some (r, client)

    abbrev pub funding_by :
        Option Wallet → Result Update → Script → ℕ → Option (Result Tx × BitcoindClient Wallet)
    funding_by (some bdk) scan output_script value_sats =
        unwrapped (get_est_sat_per_1000_weight client ConfirmationTarget.non_anchor_channel_fee)
          λ fee_rate. some (
            with_wallet
              (Bdk.create_funding_transaction ops scan output_script value_sats fee_rate bdk))
    funding_by none scan output_script value_sats =
        unwrapped (from_outputs (bitcoind_funding_outputs output_script value_sats)) with_client

    -- `scan` is what the scan of the BDK wallet comes to.
    unfoldable pub create_funding_transaction :
        Result Update → Script → ℕ → Option (Result Tx × BitcoindClient Wallet)
    unfolding try_fund_raw_transaction bitcoind_funding_outputs
    create_funding_transaction scan output_script value_sats =
        funding_by client.bdk_wallet scan output_script value_sats

    abbrev balance_or_zero : Result ℕ → ℕ
    balance_or_zero (Result.ok confirmed_sats) = confirmed_sats
    balance_or_zero (Result.err e) = 0

    unfoldable pub get_wallet_balance_sats : Option ℕ
    get_wallet_balance_sats = elim client.bdk_wallet [
      | some bdk ↦ some (Bdk.balance_sats ops bdk)
      | none ↦ unwrapped node.getbalance λ balance. some (balance_or_zero balance)
    ]

    abbrev decoded : Option (List ℕ) → Option Tx
    decoded none = none
    decoded (some bytes) = elim (deserialize bytes) [ Result.ok tx ↦ some tx | Result.err e ↦ none ]

    -- `sign_psbt`: the inner `none` is `Err(())`. `encode` is the encoding of the unsigned transaction.
    unfoldable pub sign_psbt : (Psbt → List ℕ) → Psbt → Option (Option Tx)
    sign_psbt encode psbt = elim client.bdk_wallet [
      | some bdk ↦ some (Bdk.sign_psbt ops psbt bdk)
      | none ↦
          answered (node.signrawtransactionwithwallet (hex_str (encode psbt)))
            λ signed_tx. some (decoded (to_vec (codes signed_tx.hex)))
    ]
