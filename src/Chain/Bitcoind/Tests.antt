-- ===== src/Chain/Bitcoind/Tests.antt =====
-- Tests of src/bitcoind_client.rs with a small node.
use cardano_lightning_relay.Prelude.{
  ℕ, ◌+◌, ◌*◌, ◌≡◌, ◌⊎◌, refl, leb, String, str_eq, Bool, true, false, Option, none, some, List, [],
  ◌∷◌, ℤ, pos, ◌%◌, ◌^◌, arith, if◌then◌else◌,
}
use cardano_lightning_relay.Types.{Result}
use cardano_lightning_relay.Hex.{to_vec, digit_value, shift_in}
use cardano_lightning_relay.Chain.{Fees, initial_fees}
use cardano_lightning_relay.Chain.Float.{FloatOps}
use cardano_lightning_relay.Chain.Json.{JsonOps}
use cardano_lightning_relay.Chain.Convert.{
  to_mempool_min_fee_response, to_raw_tx, to_funded_tx, to_signed_tx,
}
use cardano_lightning_relay.Chain.Bdk.{WalletOps}
use cardano_lightning_relay.Chain.Bitcoind.{
  Node, Rpc, node_of, BitcoindClient, poll_for_fee_estimates, create_funding_transaction,
}
use cardano_lightning_relay.Chain.Bitcoind.Broadcast.{Broadcast, broadcast_transactions}
use cardano_lightning_relay.Chain.Bitcoind.Polling.{
  IsPolled, Stops, IsPresent, FitsU32, poll_for_fee_estimates_total,
}
use cardano_lightning_relay.Chain.Esplora.Client.{initial_fees-IsFloored}

abbrev whole : FloatOps ℕ
whole = record {
  is_finite = λ x. true;
  le = leb;
  mul = λ x y. x * y;
  div = λ x y. x;
  ceil = λ x. x;
  round = λ x. x;
  of = λ n. n;
  to_u32 = λ x. x % 2 ^ 32;
}

abbrev wallet : WalletOps ℕ ℕ ℕ ℕ ℕ ℕ
wallet = record {
  apply_update = λ u w. Result.ok u;
  balance_confirmed = λ w. w;
  reveal_next_address = λ internal w. (w, w + 1);
  finish = λ script value rate w. (Result.ok value, w);
  sign = λ psbt w. Result.ok (true, psbt);
  extract_tx = λ psbt. Result.ok psbt;
  script_pubkey = λ address. address;
}

-- A small JSON.
data Value : Type 0 where
  null : Value
  bool : Bool → Value
  number : ℕ → Value
  text : String → Value
  object : (String → Value) → Value

abbrev index : Value → String → Value
index (object fields) key = fields key
index v key = null

abbrev is_null : Value → Bool
is_null null = true
is_null v = false

abbrev as_bool : Value → Option Bool
as_bool (bool b) = some b
as_bool v = none

abbrev as_number : Value → Option ℕ
as_number (number n) = some n
as_number v = none

abbrev as_integer : Value → Option ℤ
as_integer (number n) = some (pos n)
as_integer v = none

abbrev as_str : Value → Option String
as_str (text s) = some s
as_str v = none

abbrev json : JsonOps Value ℕ
json = record {
  get = λ v key. none;
  index = index;
  is_null = is_null;
  as_bool = as_bool;
  as_u64 = as_number;
  as_i64 = as_integer;
  as_f64 = as_number;
  as_str = as_str;
  as_array = λ v. none;
}

-- The same fields for every call, with a mempool of a given size.
abbrev fields : ℕ → String → Value
fields size key =
    if str_eq key "maxmempool"
    then number size
    else if str_eq key "feerate"
    then number 1
    else if str_eq key "hex"
    then text "0102"
    else if str_eq key "complete"
    then bool true
    else if str_eq key "changepos"
    then number 0
    else null

abbrev rpc : ℕ → Rpc Value ℕ
rpc size = record {
  getmempoolinfo = Result.ok (object (fields size));
  estimatesmartfee = λ blocks mode. Result.ok (object (fields size));
  createrawtransaction = λ outputs. Result.ok (text "00");
  fundrawtransaction = λ raw rate replaceable. Result.ok (object (fields size));
  signrawtransactionwithwallet = λ hex. Result.ok (object (fields size));
  getbalance = Result.ok (number 5);
  getnewaddress = λ label. Result.err "no wallet";
}

abbrev from_btc : ℕ → Result ℕ
from_btc n = Result.ok n

abbrev node : Node ℕ
node = node_of json whole from_btc (rpc 300000000)

-- A node with a larger mempool ends the relay.
large_pool :
    poll_for_fee_estimates (node_of json whole from_btc (rpc 400000000)) initial_fees ≡ none
unfolding poll_for_fee_estimates node_of to_mempool_min_fee_response
large_pool = refl

initial_fees-IsPresent : IsPresent initial_fees
initial_fees-IsPresent t = let floored = initial_fees-IsFloored t in (floored.0, floored.1)

whole-FitsU32 : FitsU32 json whole from_btc (rpc 300000000)
whole-FitsU32 x = omega arith

poll_for_fee_estimates_total_example :
    ((fees : Fees) × (poll_for_fee_estimates node initial_fees ≡ some fees) × IsPolled fees)
    ⊎ (Stops json whole from_btc (rpc 300000000)
        × (poll_for_fee_estimates node initial_fees ≡ none))
poll_for_fee_estimates_total_example =
    poll_for_fee_estimates_total json whole from_btc (rpc 300000000) initial_fees
      initial_fees-IsPresent whole-FitsU32

abbrev client : BitcoindClient ℕ
client = record { fees = initial_fees; esplora = none; bdk_wallet = none }

abbrev from_script : ℕ → Result String
from_script script = Result.ok "tb1q"

abbrev deserialize : List ℕ → Result ℕ
deserialize [] = Result.err "no bytes"
deserialize (b ∷ bs) = Result.ok b

funds :
    create_funding_transaction wallet whole from_script deserialize node client
      (Result.err "offline")
      7
      100000
    ≡ some (Result.ok 1, client)
unfolding create_funding_transaction to_vec initial_fees digit_value shift_in node_of to_raw_tx
    to_funded_tx to_signed_tx
funds = refl

packages :
    (broadcast_transactions (λ (tx : String). tx) client ("a" ∷ [])
      ≡ Broadcast.sendrawtransaction "a")
    × (broadcast_transactions (λ (tx : String). tx) client [] ≡ Broadcast.submitpackage [])
unfolding broadcast_transactions
packages = (refl, refl)
