-- ===== src/Chain/Esplora/Tests.antt =====
-- Tests of src/esplora.rs, with numbers of thousandths in place of `f64`.
use cardano_lightning_relay.Prelude.{
  ℕ, ◌+◌, ◌*◌, ◌/◌, ◌≤◌, ◌<◌, ◌≡◌, ◌↔◌, refl, leb, str_eq, codes, true, false, Option, none, some,
  String, List, [], ◌∷◌, if◌then◌else◌,
}
use Prim.Native.Nat.{max}
use cardano_lightning_relay.Types.{Result}
use cardano_lightning_relay.Chain.{ConfirmationTarget, Fees, min_feerate, initial_fees}
use cardano_lightning_relay.Chain.Float.{FloatOps}
use cardano_lightning_relay.Chain.Esplora.{
  Applied, Response, EsploraClient, fee_update, sat_vb_to_sat_kwu_clamped, raw_sat_vb_to_sat_kwu,
  max_feerate_sat_per_kwu_from_value, apply_fee_estimates, new, get_est_sat_per_1000_weight,
  connected,
}
use cardano_lightning_relay.Chain.Esplora.Clamp.{fee_update_clamped}
use cardano_lightning_relay.Chain.Esplora.Updates.{
  IsFloored, expected, IsExpected, apply_fee_estimates_lem,
}
use cardano_lightning_relay.Chain.Esplora.Client.{
  update_all, initial_fees-IsFloored, new-get_est_sat_per_1000_weight,
}

abbrev thousandths : FloatOps ℕ
thousandths = record {
  is_finite = λ x. true;
  le = leb;
  mul = λ x y. x * y / 1000;
  ceil = λ x. (x + 999) / 1000 * 1000;
  of = λ n. n * 1000;
  div = λ x y. x * 1000 / y;
  round = λ x. (x + 500) / 1000 * 1000;
  to_u32 = λ x. x / 1000;
}

rounds_up : sat_vb_to_sat_kwu_clamped thousandths 4001 5000 ≡ 1001
unfolding sat_vb_to_sat_kwu_clamped
rounds_up = refl

clamps : sat_vb_to_sat_kwu_clamped thousandths 100000000 5000 ≡ 5000
unfolding sat_vb_to_sat_kwu_clamped
clamps = refl

from_env :
    (max_feerate_sat_per_kwu_from_value (some "10000") ≡ 10000)
    × (max_feerate_sat_per_kwu_from_value (some "not-a-number") ≡ 5000)
    × (max_feerate_sat_per_kwu_from_value (some "252") ≡ 5000)
    × (max_feerate_sat_per_kwu_from_value none ≡ 5000)
unfolding max_feerate_sat_per_kwu_from_value
from_env = (refl, refl, refl, refl)

-- 30 sat/vB for the next block and for six blocks.
abbrev busy : String → Option ℕ
busy blocks =
    if str_eq blocks "1" then some 30000 else if str_eq blocks "6" then some 30000 else none

apply_fee_estimates_lem_example :
    (applied : Applied thousandths) × (apply_fee_estimates thousandths initial_fees busy 5000
      ≡ some applied)
    × ((t : ConfirmationTarget) → IsExpected thousandths initial_fees busy 5000 t (applied.0 t))
    × IsFloored applied.0
apply_fee_estimates_lem_example =
    apply_fee_estimates_lem thousandths initial_fees busy 5000 initial_fees-IsFloored

high_priority_is_not_limited :
    (expected thousandths initial_fees busy 5000 ConfirmationTarget.urgent_on_chain_sweep
      ≡ some 7500)
    × (expected thousandths initial_fees busy 5000 ConfirmationTarget.non_anchor_channel_fee
        ≡ some 5000)
unfolding sat_vb_to_sat_kwu_clamped
high_priority_is_not_limited = (refl, refl)

fee_update_clamped_example :
    let u = fee_update thousandths ConfirmationTarget.anchor_channel_fee "6" 30000 5000 in
    ((u.was_clamped ≡ true) ↔ (5000 < raw_sat_vb_to_sat_kwu thousandths 30000))
    × (u.was_clamped ≡ true → u.assigned_sat_kwu ≡ 5000)
    × (u.was_clamped ≡ false
        → u.assigned_sat_kwu ≡ max (raw_sat_vb_to_sat_kwu thousandths 30000) min_feerate)
fee_update_clamped_example =
    fee_update_clamped thousandths ConfirmationTarget.anchor_channel_fee "6" 30000 5000

abbrev why : List ℕ → String
why text = "invalid digit found in string"

abbrev tip : Result Response
tip = Result.ok (record { is_success = true; text = Result.ok " 200001\n" })

abbrev client : EsploraClient
client = record {
  base_url = codes "http://localhost/api";
  fees = initial_fees;
  normal_max_feerate_sat_per_kwu = 5000;
}

created :
    new thousandths why
      (codes "http://localhost/api//")
      (Result.ok tt)
      tip
      (Result.err "timeout")
      none
    ≡ some (Result.ok client)
unfolding new connected initial_fees
created = refl

new-get_est_sat_per_1000_weight_example :
    (fees : Fees) × (update_all thousandths
        (Result.ok (Result.ok busy) ∷ Result.err "timeout" ∷ [])
        5000
        initial_fees
      ≡ some fees)
    × (rate : ℕ) × (get_est_sat_per_1000_weight
          (record client { fees = fees })
          ConfirmationTarget.output_spending_fee
        ≡ some rate)
    × (min_feerate ≤ rate)
new-get_est_sat_per_1000_weight_example =
    new-get_est_sat_per_1000_weight thousandths why (codes "http://localhost/api//") (Result.ok tt)
      tip (Result.err "timeout") none client created
      (Result.ok (Result.ok busy) ∷ Result.err "timeout" ∷ [])
      ConfirmationTarget.output_spending_fee
