-- ===== src/Api/Balance.antt =====
-- `handle_balance` and `handle_relay_info` of src/api.rs. What the node, the sweeper and the wallet
-- report is an argument, as it only is read; sums of `u64` wrap.
use cardano_lightning_relay.Prelude.{ℕ, ℤ, ◌+◌, ◌%◌, ◌^◌, String, ◌<>◌, Bool, List, [], ◌∷◌, length}
use cardano_lightning_relay.Types.{Result, State}
use cardano_lightning_relay.Runtime.{Call, Prog, ret, ask, ◌>>=◌}

-- `ChannelDetails`, as far as it is read; `ChannelBalance` has the same fields.
pub record ChannelBalance : Type 0 where
  pub channel_id : String
  pub peer_pubkey : String
  pub is_ready : Bool
  pub channel_value_sats : ℕ
  pub outbound_msat : ℕ
  pub inbound_msat : ℕ

-- The status that the source tells apart, and any other.
pub data OutputSpendStatus : Type 0 where
  pending_threshold_confirmations other : OutputSpendStatus

-- The three descriptors, each with the value of its output.
pub data SpendableOutputDescriptor : Type 0 where
  static_output delayed_payment_output static_payment_output : ℕ → SpendableOutputDescriptor

pub record TrackedSpendableOutput : Type 0 where
  pub descriptor : SpendableOutputDescriptor
  pub status : OutputSpendStatus

pub record BtcBalance : Type 0 where
  pub channels_outbound_msat : ℕ
  pub channels_inbound_msat : ℕ
  pub on_chain_sweeper_sats : ℕ
  pub sweeper_pending_sats : ℕ
  pub sweeper_confirmed_sats : ℕ
  pub channels : List ChannelBalance
  pub sweeper_outputs : ℕ
  pub wallet_sats : ℕ

pub record CbtcBalance : Type 0 where
  pub pool_total : ℤ
  pub pool_reserved : ℤ
  pub pool_available : ℤ
  pub active_invoices : ℕ
  pub active_offramps : ℕ

pub record BalanceResponse : Type 0 where
  pub btc : BtcBalance
  pub cbtc : CbtcBalance

unfoldable pub spendable_output_value_sats : SpendableOutputDescriptor → ℕ
spendable_output_value_sats (SpendableOutputDescriptor.static_output sat) = sat
spendable_output_value_sats (SpendableOutputDescriptor.delayed_payment_output sat) = sat
spendable_output_value_sats (SpendableOutputDescriptor.static_payment_output sat) = sat

-- `acc += v` on `u64`.
abbrev pub add_u64 : ℕ → ℕ → ℕ
add_u64 acc v = (acc + v) % 2 ^ 64

-- The loop over the channels, with the two sums so far: outbound and inbound.
unfoldable pub sum_channels : ℕ × ℕ → List ChannelBalance → ℕ × ℕ
sum_channels sums [] = sums
sum_channels (outbound, inbound) (c ∷ cs) =
    sum_channels (add_u64 outbound c.outbound_msat, add_u64 inbound c.inbound_msat) cs

abbrev pub add_output : OutputSpendStatus → ℕ → ℕ × ℕ → ℕ × ℕ
add_output OutputSpendStatus.pending_threshold_confirmations v (pending, confirmed) =
    (pending, add_u64 confirmed v)
add_output OutputSpendStatus.other v (pending, confirmed) = (add_u64 pending v, confirmed)

-- The loop over the tracked outputs, with the two sums so far: pending and confirmed.
unfoldable pub sum_outputs : ℕ × ℕ → List TrackedSpendableOutput → ℕ × ℕ
unfolding spendable_output_value_sats
sum_outputs sums [] = sums
sum_outputs sums (o ∷ os) =
    sum_outputs (add_output o.status (spendable_output_value_sats o.descriptor) sums) os

module _ (list_channels : List ChannelBalance) (tracked : List TrackedSpendableOutput)
    (wallet_sats : ℕ) where
  unfoldable pub btc_balance : BtcBalance
  unfolding sum_channels sum_outputs
  btc_balance =
      let sums = sum_channels (0, 0) list_channels in
      let sweeper = sum_outputs (0, 0) tracked in
      record {
        channels_outbound_msat = sums.0;
        channels_inbound_msat = sums.1;
        on_chain_sweeper_sats = add_u64 sweeper.0 sweeper.1;
        sweeper_pending_sats = sweeper.0;
        sweeper_confirmed_sats = sweeper.1;
        channels = list_channels;
        sweeper_outputs = length tracked;
        wallet_sats = wallet_sats;
      }

  abbrev balance_of : Result State → Prog (Result BalanceResponse)
  balance_of (Result.err e) = ret (Result.err ("failed to query cBTC pool: " <> e))
  balance_of (Result.ok s) = ret (
      Result.ok (record {
        btc = btc_balance;
        cbtc = record {
          pool_total = s.total_liquidity;
          pool_reserved = s.reserved;
          pool_available = s.available;
          active_invoices = length s.invoices;
          active_offramps = length s.offramps;
        };
      }))

  unfoldable pub handle_balance : Prog (Result BalanceResponse)
  unfolding btc_balance
  handle_balance = do state ← ask Call.query_state; balance_of state

-- What `handle_relay_info` copies from the configuration of the operator. The exchange rate, a
-- floating-point number, is always one.
pub record RelayInfoResponse : Type 0 where
  pub operator_address : String
  pub script_address : String
  pub cbtc_policy_id : String
  pub cbtc_asset_name : String
  pub exchange_rate : ℕ

pub record Config : Type 0 where
  pub operator_address : String
  pub cbtc_policy : String
  pub cbtc_name : String

unfoldable pub handle_relay_info : Config → String → RelayInfoResponse
handle_relay_info config script_address = record {
  operator_address = config.operator_address;
  script_address = script_address;
  cbtc_policy_id = config.cbtc_policy;
  cbtc_asset_name = config.cbtc_name;
  exchange_rate = 1;
}

abbrev value_of : TrackedSpendableOutput → ℕ
value_of o = spendable_output_value_sats o.descriptor

abbrev sum : List ℕ → ℕ
sum [] = 0
sum (n ∷ ns) = n + sum ns
