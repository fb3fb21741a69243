-- ===== src/Chain/Esplora/Client.antt =====
-- The rates of an Esplora client from its creation on.
use mathlib.Core.Path.{subst}
use cardano_lightning_relay.Prelude.{
  ℕ, ◌≤◌, ◌≡◌, refl, Option, none, some, String, List, [], ◌∷◌, arith,
}
use cardano_lightning_relay.Types.{Result}
use cardano_lightning_relay.Chain.{ConfirmationTarget, Fees, min_feerate, initial_fees}
use cardano_lightning_relay.Chain.Float.{FloatOps}
use cardano_lightning_relay.Chain.Esplora.{
  Response, EsploraClient, update_fee_estimates, new, connected, get_est_sat_per_1000_weight,
  max_feerate_sat_per_kwu_from_value,
}
use cardano_lightning_relay.Chain.Esplora.Updates.{IsFloored, apply_fee_estimates_lem}

abbrev pub Replies : Type 0 → Type 0
Replies F = List (Result (Result (String → Option F)))

pub initial_fees-IsFloored : IsFloored initial_fees
unfolding initial_fees
initial_fees-IsFloored ConfirmationTarget.maximum_fee_estimate = (50000, refl, omega arith)
initial_fees-IsFloored ConfirmationTarget.urgent_on_chain_sweep = (5000, refl, omega arith)
initial_fees-IsFloored ConfirmationTarget.min_allowed_anchor_channel_remote_fee =
    (253, refl, omega arith)
initial_fees-IsFloored ConfirmationTarget.min_allowed_non_anchor_channel_remote_fee =
    (253, refl, omega arith)
initial_fees-IsFloored ConfirmationTarget.anchor_channel_fee = (253, refl, omega arith)
initial_fees-IsFloored ConfirmationTarget.non_anchor_channel_fee = (2000, refl, omega arith)
initial_fees-IsFloored ConfirmationTarget.channel_close_minimum = (253, refl, omega arith)
initial_fees-IsFloored ConfirmationTarget.output_spending_fee = (253, refl, omega arith)

abbrev pub and_then : Option Fees → (Fees → Option Fees) → Option Fees
and_then none f = none
and_then (some fees) f = f fees

module _ {F : Type 0} (float : FloatOps F) where
  -- `update_fee_estimates` once for each reply, as the task that src/main.rs spawns calls it.
  abbrev pub update_all : Replies F → ℕ → Fees → Option Fees
  update_all [] normal_max fees = some fees
  update_all (r ∷ rs) normal_max fees =
      and_then (update_fee_estimates float r normal_max fees) (update_all rs normal_max)

  abbrev Keeps : Option Fees → Type 0
  Keeps o = (fees : Fees) × (o ≡ some fees) × IsFloored fees

  update_fee_estimates-Keeps :
      (r : Result (Result (String → Option F))) (normal_max : ℕ) (fees : Fees)
      → IsFloored fees
      → Keeps (update_fee_estimates float r normal_max fees)
  unfolding update_fee_estimates
  update_fee_estimates-Keeps (Result.err e) normal_max fees h = (fees, refl, h)
  update_fee_estimates-Keeps (Result.ok (Result.err e)) normal_max fees h = (fees, refl, h)
  update_fee_estimates-Keeps (Result.ok (Result.ok estimates)) normal_max fees h =
      let (applied, is, want, low) = apply_fee_estimates_lem float fees estimates normal_max h in
      rw is (applied.0, refl, low)

  update_all-Keeps :
      (rs : Replies F) (normal_max : ℕ) (fees : Fees)
      → IsFloored fees
      → Keeps (update_all rs normal_max fees)
  update_all-Keeps [] normal_max fees h = (fees, refl, h)
  update_all-Keeps (r ∷ rs) normal_max fees h =
      let (next, is, low) = update_fee_estimates-Keeps r normal_max fees h in
      rw is (update_all-Keeps rs normal_max next low)

  abbrev Created : Option (Result EsploraClient) → Type 0
  Created none = ⊥
  Created (some (Result.err e)) = Unit
  Created (some (Result.ok client)) = IsFloored client.fees

  connected-Created :
      (url : List ℕ) (normal_max : ℕ) (r : Result (Result (String → Option F))) (tip : Result ℕ)
      → Created (connected float url normal_max r tip)
  unfolding connected
  connected-Created url normal_max r (Result.err e) = tt
  connected-Created url normal_max r (Result.ok tip_height) =
      let (fees, is, low) =
        update_fee_estimates-Keeps r normal_max initial_fees initial_fees-IsFloored in
      rw is low

  created :
      (o : Option (Result EsploraClient)) (client : EsploraClient)
      → o ≡ some (Result.ok client)
      → Created o
      → IsFloored client.fees
  created none client e h = absurd h
  created (some (Result.err err)) client e h = cc e
  created (some (Result.ok c)) client e h =
      let same : c ≡ client = cc e in subst (λ (x : EsploraClient). IsFloored x.fees) same h

  -- A client that could be created has a rate of at least 253 sat/kWU for every target, so that the
  -- estimator does not panic, and keeps one through all updates, also when a request fails.
  pub new-get_est_sat_per_1000_weight :
      (why : List ℕ → String) (base_url : List ℕ) (built : Result Unit)
      (tip_reply : Result Response) (fee_reply : Result (Result (String → Option F)))
      (env : Option String) (client : EsploraClient)
      → new float why base_url built tip_reply fee_reply env ≡ some (Result.ok client)
      → (rs : Replies F) (t : ConfirmationTarget)
      → (fees : Fees) × (update_all rs client.normal_max_feerate_sat_per_kwu client.fees
          ≡ some fees)
        × (rate : ℕ) × (get_est_sat_per_1000_weight (record client { fees = fees }) t ≡ some rate)
        × (min_feerate ≤ rate)
  new-get_est_sat_per_1000_weight why base_url built tip_reply fee_reply env client e rs t =
      let floored : IsFloored client.fees =
        created (new float why base_url built tip_reply fee_reply env) client e (
          unfold new in connected-Created _ (max_feerate_sat_per_kwu_from_value env) fee_reply _) in
      let (fees, is, low) =
        update_all-Keeps rs client.normal_max_feerate_sat_per_kwu client.fees floored in
      (fees, is, (low t).0, (low t).1, (low t).2)
