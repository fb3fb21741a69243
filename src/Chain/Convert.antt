-- ===== src/Chain/Convert.antt =====
-- src/convert.rs: the replies of bitcoind, read out of JSON. `unwrap` and `assert_eq!` panic, which is
-- `none`; the parsers of the bitcoin crate are parameters.
use cardano_lightning_relay.Prelude.{
  ℕ, ◌%◌, ◌^◌, ◌==◌, ℤ, String, Bool, false, not, Option, none, some, List, [], ◌∷◌, if◌then◌else◌,
}
use cardano_lightning_relay.Types.{Result}
use cardano_lightning_relay.Chain.Float.{FloatOps}
use cardano_lightning_relay.Chain.Json.{JsonOps}

pub record FundedTx : Type 0 where
  pub changepos : ℤ
  pub hex : String

pub record SignedTx : Type 0 where
  pub complete : Bool
  pub hex : String

pub record FeeResponse : Type 0 where
  pub feerate_sat_per_kw : Option ℕ
  pub errored : Bool

pub record MempoolMinFeeResponse : Type 0 where
  pub feerate_sat_per_kw : Option ℕ
  pub errored : Bool

-- A hash of a block, a transaction's id and an address stay types of the bitcoin crate.
pub record BlockchainInfo (Hash : Type 0) : Type 0 where
  pub latest_height : ℕ
  pub latest_blockhash : Hash
  pub chain : String

pub record ListUnspentUtxo (Txid Address : Type 0) : Type 0 where
  pub txid : Txid
  pub vout : ℕ
  pub amount : ℕ
  pub address : Address

-- `x.unwrap()`, and what goes on from it.
abbrev pub unwrapped : {A B : Type 0} → Option A → (A → Option B) → Option B
unwrapped none f = none
unwrapped (some a) f = f a

abbrev pub unwrapped_ok : {A B : Type 0} → Result A → (A → Option B) → Option B
unwrapped_ok (Result.err e) f = none
unwrapped_ok (Result.ok a) f = f a

-- `rpc_client.call_method::<A>(…).await`: `none` when reading the reply panics.
abbrev pub Reply : Type 0 → Type 0
Reply A = Option (Result A)

abbrev read_reply : {A : Type 0} → Option A → Reply A
read_reply none = none
read_reply (some a) = some (Result.ok a)

abbrev pub call_method : {J A : Type 0} → (J → Option A) → Result J → Reply A
call_method try_into (Result.err e) = some (Result.err e)
call_method try_into (Result.ok j) = read_reply (try_into j)

-- `call_method(…).await.unwrap()`, and what goes on from it.
abbrev pub answered : {A B : Type 0} → Reply A → (A → Option B) → Option B
answered reply f = unwrapped reply λ r. unwrapped_ok r f

module _ {J F : Type 0} (json : JsonOps J F) (float : FloatOps F) where
  unfoldable pub to_funded_tx : J → Option FundedTx
  to_funded_tx j = unwrapped (json.as_i64 (json.index j "changepos")) λ changepos.
      unwrapped (json.as_str (json.index j "hex"))
        λ hex. some (record { changepos = changepos; hex = hex })

  -- `RawTx` and `NewAddress` wrap the text.
  unfoldable pub to_raw_tx : J → Option String
  to_raw_tx j = json.as_str j

  unfoldable pub to_signed_tx : J → Option SignedTx
  to_signed_tx j = unwrapped (json.as_str (json.index j "hex")) λ hex.
      unwrapped (json.as_bool (json.index j "complete"))
        λ complete. some (record { complete = complete; hex = hex })

  unfoldable pub to_new_address : J → Option String
  to_new_address j = json.as_str j

  -- BTC/kvB to sat/kW: `(feerate * 100_000_000.0 / 4.0).round() as u32`.
  abbrev pub sat_per_kw : Option F → Option ℕ
  sat_per_kw none = none
  sat_per_kw (some feerate_btc_per_kvbyte) = some (
      float.to_u32 (
        float.round
          (float.div (float.mul feerate_btc_per_kvbyte (float.of 100_000_000)) (float.of 4))))

  unfoldable pub to_fee_response : J → FeeResponse
  to_fee_response j = record {
    errored = not (json.is_null (json.index j "errors"));
    feerate_sat_per_kw = sat_per_kw (json.as_f64 (json.index j "feerate"));
  }

  abbrev is_300mb : Option ℕ → Bool
  is_300mb none = false
  is_300mb (some n) = n == 300000000

  unfoldable pub to_mempool_min_fee_response : J → Option MempoolMinFeeResponse
  to_mempool_min_fee_response j =
      if is_300mb (json.as_u64 (json.index j "maxmempool"))
      then some (record {
        errored = not (json.is_null (json.index j "errors"));
        feerate_sat_per_kw = sat_per_kw (json.as_f64 (json.index j "mempoolminfee"));
      })
      else none

  unfoldable pub to_blockchain_info :
      {Hash : Type 0} → (String → Result Hash) → J → Option (BlockchainInfo Hash)
  to_blockchain_info from_str j = unwrapped (json.as_u64 (json.index j "blocks")) λ blocks.
      unwrapped (json.as_str (json.index j "bestblockhash")) λ text.
        unwrapped_ok (from_str text) λ hash.
          unwrapped (json.as_str (json.index j "chain")) λ chain.
            some (record { latest_height = blocks; latest_blockhash = hash; chain = chain })

  module _ {Txid Address : Type 0} (txid_from_str : String → Result Txid) (from_btc : F → Result ℕ)
      (address_from_str : String → Result Address) where
    abbrev pub to_utxo : J → Option (ListUnspentUtxo Txid Address)
    to_utxo utxo = unwrapped (json.as_str (json.index utxo "txid")) λ txid_text.
        unwrapped_ok (txid_from_str txid_text) λ txid.
          unwrapped (json.as_u64 (json.index utxo "vout")) λ vout.
            unwrapped (json.as_f64 (json.index utxo "amount")) λ btc.
              unwrapped_ok (from_btc btc) λ amount.
                unwrapped (json.as_str (json.index utxo "address")) λ address_text.
                  unwrapped_ok (address_from_str address_text) λ address. some (record {
                    txid = txid;
                    vout = vout % 2 ^ 32;
                    amount = amount;
                    address = address;
                  })

    abbrev pub to_utxos : List J → Option (List (ListUnspentUtxo Txid Address))
    to_utxos [] = some []
    to_utxos (j ∷ js) = unwrapped (to_utxo j) λ u. unwrapped (to_utxos js) λ us. some (u ∷ us)

    unfoldable pub to_list_unspent_response : J → Option (List (ListUnspentUtxo Txid Address))
    to_list_unspent_response j = unwrapped (json.as_array j) to_utxos

  -- The one conversion that returns its errors.
  abbrev sats_of : (F → Result ℕ) → Option F → Result ℕ
  sats_of from_btc none = Result.err "getbalance did not return a number"
  sats_of from_btc (some btc) = from_btc btc

  unfoldable pub to_wallet_balance : (F → Result ℕ) → J → Result ℕ
  to_wallet_balance from_btc j = sats_of from_btc (json.as_f64 j)
