-- ===== src/Chain/Bdk.antt =====
-- src/bdk_wallet.rs: the wallet on BDK. The crate's `Wallet` is a parameter with the methods that the
-- source calls; each method of ours runs under the wallet's mutex and returns the wallet behind it.
use cardano_lightning_relay.Prelude.{
  ℕ, String, ◌<>◌, Bool, true, false, not, Option, none, some, if◌then◌else◌,
}
use cardano_lightning_relay.Types.{Result}

-- `finish` is that of a builder with one recipient and a fee rate; `sign` says whether it finalized.
pub record WalletOps (Wallet Update Script Psbt Tx Address : Type 0) : Type 0 where
  pub apply_update : Update → Wallet → Result Wallet
  pub balance_confirmed : Wallet → ℕ
  pub reveal_next_address : Bool → Wallet → Address × Wallet
  pub finish : Script → ℕ → ℕ → Wallet → Result Psbt × Wallet
  pub sign : Psbt → Wallet → Result (Bool × Psbt)
  pub extract_tx : Psbt → Result Tx
  pub script_pubkey : Address → Script

-- `r.map_err(|e| format!("{}{}", context, e))`
abbrev pub map_err : {A : Type 0} → String → Result A → Result A
map_err context (Result.ok a) = Result.ok a
map_err context (Result.err e) = Result.err (context <> e)

abbrev pub and_then : {A B : Type 0} → Result A → (A → Result B) → Result B
and_then (Result.ok a) f = f a
and_then (Result.err e) f = Result.err e

module _ {Wallet Update Script Psbt Tx Address : Type 0}
    (ops : WalletOps Wallet Update Script Psbt Tx Address) where
  abbrev applied : Result Wallet → Wallet → Result Unit × Wallet
  applied (Result.ok wallet') wallet = (Result.ok tt, wallet')
  applied (Result.err e) wallet = (Result.err e, wallet)

  -- `sync`, with what the full scan came to.
  unfoldable pub sync : Result Update → Wallet → Result Unit × Wallet
  sync (Result.err e) wallet = (Result.err e, wallet)
  sync (Result.ok update) wallet = applied (ops.apply_update update wallet) wallet

  unfoldable pub balance_sats : Wallet → ℕ
  balance_sats wallet = ops.balance_confirmed wallet

  unfoldable pub new_address : Wallet → Address × Wallet
  new_address wallet = ops.reveal_next_address false wallet

  abbrev finalized_tx : Bool × Psbt → Result Tx
  finalized_tx (finalized, psbt) =
      if not finalized
      then Result.err "BDK did not finalize the funding transaction"
      else map_err "BDK failed to extract funding transaction: " (ops.extract_tx psbt)

  abbrev funded : Result Psbt × Wallet → Result Tx × Wallet
  funded (psbt, wallet) = (
    and_then (map_err "BDK failed to build funding transaction: " psbt) λ unsigned.
        and_then (map_err "BDK failed to sign funding transaction: " (ops.sign unsigned wallet))
          λ p. finalized_tx p,
    wallet,
  )

  abbrev synced : Script → ℕ → ℕ → Result Unit × Wallet → Result Tx × Wallet
  synced output_script value_sats fee_rate (Result.err e, wallet) =
      (Result.err ("BDK wallet sync failed before funding: " <> e), wallet)
  synced output_script value_sats fee_rate (Result.ok u, wallet) =
      funded (ops.finish output_script value_sats fee_rate wallet)

  unfoldable pub create_funding_transaction :
      Result Update → Script → ℕ → ℕ → Wallet → Result Tx × Wallet
  unfolding sync
  create_funding_transaction scan output_script value_sats fee_rate_sat_per_kwu wallet =
      synced output_script value_sats fee_rate_sat_per_kwu (sync scan wallet)

  abbrev change_of : Address × Wallet → Script × Wallet
  change_of (address, wallet) = (ops.script_pubkey address, wallet)

  unfoldable pub get_change_script : Wallet → Script × Wallet
  get_change_script wallet = change_of (ops.reveal_next_address true wallet)

  unfoldable pub get_change_destination_script : Wallet → Script × Wallet
  unfolding get_change_script
  get_change_destination_script wallet = get_change_script wallet

  abbrev extracted : Bool × Psbt → Option Tx
  extracted (finalized, psbt) =
      if not finalized
      then none
      else elim (ops.extract_tx psbt) [ Result.ok tx ↦ some tx | Result.err e ↦ none ]

  -- `sign_psbt`; every error is `Err(())`.
  unfoldable pub sign_psbt : Psbt → Wallet → Option Tx
  sign_psbt psbt wallet = elim (ops.sign psbt wallet) [
    | Result.err e ↦ none
    | Result.ok signed ↦ extracted signed
  ]
