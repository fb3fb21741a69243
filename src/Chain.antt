-- ===== src/Chain.antt =====
-- The Bitcoin side: what src/esplora.rs and src/bitcoind_client.rs share. `ConfirmationTarget` is an
-- enum of the lightning crate. The fees are a `HashMap` from a target to an atomic number: here the
-- function from each target to what the map holds for it.
pub mod Float
pub mod Json
pub mod Convert
pub mod Esplora
pub mod Bdk
pub mod Bitcoind
pub mod Utxos
use cardano_lightning_relay.Prelude.{ℕ, ◌==◌, Bool, Option, none, some, if◌then◌else◌}

pub data ConfirmationTarget : Type 0 where
  maximum_fee_estimate urgent_on_chain_sweep min_allowed_anchor_channel_remote_fee
        min_allowed_non_anchor_channel_remote_fee anchor_channel_fee non_anchor_channel_fee
        channel_close_minimum output_spending_fee :
      ConfirmationTarget

abbrev pub discriminant : ConfirmationTarget → ℕ
discriminant ConfirmationTarget.maximum_fee_estimate = 0
discriminant ConfirmationTarget.urgent_on_chain_sweep = 1
discriminant ConfirmationTarget.min_allowed_anchor_channel_remote_fee = 2
discriminant ConfirmationTarget.min_allowed_non_anchor_channel_remote_fee = 3
discriminant ConfirmationTarget.anchor_channel_fee = 4
discriminant ConfirmationTarget.non_anchor_channel_fee = 5
discriminant ConfirmationTarget.channel_close_minimum = 6
discriminant ConfirmationTarget.output_spending_fee = 7

abbrev pub Fees : Type 0
Fees = ConfirmationTarget → Option ℕ

abbrev pub empty : Fees
empty t = none

-- `fees.insert(t, AtomicU32::new(rate))`
abbrev pub insert : ConfirmationTarget → ℕ → Fees → Fees
insert t rate fees u = if discriminant t == discriminant u then some rate else fees u

abbrev stored : ConfirmationTarget → ℕ → Fees → Option ℕ → Option Fees
stored t rate fees none = none
stored t rate fees (some old) = some (insert t rate fees)

-- `fees.get(&t).unwrap().store(rate)`: without an entry it panics, which is `none`.
abbrev pub store : ConfirmationTarget → ℕ → Fees → Option Fees
store t rate fees = stored t rate fees (fees t)

-- The minimum feerate that LDK allows, the same constant in both clients.
abbrev pub min_feerate : ℕ
min_feerate = 253

-- The rates that the two clients start with.
unfoldable pub initial_fees : Fees
initial_fees = insert ConfirmationTarget.output_spending_fee min_feerate (
    insert ConfirmationTarget.channel_close_minimum min_feerate (
      insert ConfirmationTarget.non_anchor_channel_fee 2000 (
        insert ConfirmationTarget.anchor_channel_fee min_feerate (
          insert ConfirmationTarget.min_allowed_non_anchor_channel_remote_fee min_feerate (
            insert ConfirmationTarget.min_allowed_anchor_channel_remote_fee min_feerate (
              insert ConfirmationTarget.urgent_on_chain_sweep 5000
                (insert ConfirmationTarget.maximum_fee_estimate 50000 empty)))))))
