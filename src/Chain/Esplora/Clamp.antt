-- ===== src/Chain/Esplora/Clamp.antt =====
-- The bounds of a single fee estimate, whatever the floating-point arithmetic does.
use Prim.Native.Nat.{max}
use cardano_lightning_relay.Prelude.{ℕ, ◌≤◌, ◌<◌, ◌≡◌, ◌↔◌, true, false, Option, String, arith}
use cardano_lightning_relay.Chain.{ConfirmationTarget, min_feerate}
use cardano_lightning_relay.Chain.Float.{FloatOps}
use cardano_lightning_relay.Chain.Esplora.{
  fee_update, sat_vb_to_sat_kwu_clamped, raw_sat_vb_to_sat_kwu, max_feerate_sat_per_kwu_from_value,
}

pub sat_vb_to_sat_kwu_clamped_bounds :
    {F : Type 0} (float : FloatOps F) (rate : F) (cap : ℕ)
    → (min_feerate ≤ sat_vb_to_sat_kwu_clamped float rate cap)
      × (sat_vb_to_sat_kwu_clamped float rate cap ≤ max cap min_feerate)
unfolding sat_vb_to_sat_kwu_clamped
sat_vb_to_sat_kwu_clamped_bounds float rate cap = (omega arith, omega arith)

pub max_feerate_sat_per_kwu_from_value_le :
    (value : Option String) → min_feerate ≤ max_feerate_sat_per_kwu_from_value value
unfolding max_feerate_sat_per_kwu_from_value
max_feerate_sat_per_kwu_from_value_le value = ground arith

-- An update is marked as clamped exactly when the estimate, converted to sat/kWU, is above the cap;
-- the assigned rate is then the cap, and otherwise the converted estimate, each raised to the floor.
pub fee_update_clamped :
    {F : Type 0} (float : FloatOps F) (t : ConfirmationTarget) (blocks : String) (rate : F)
    (cap : ℕ)
    → let u = fee_update float t blocks rate cap in
      let raw = raw_sat_vb_to_sat_kwu float rate in
      ((u.was_clamped ≡ true) ↔ (max cap min_feerate < raw))
      × (u.was_clamped ≡ true → u.assigned_sat_kwu ≡ max cap min_feerate)
      × (u.was_clamped ≡ false → u.assigned_sat_kwu ≡ max raw min_feerate)
unfolding sat_vb_to_sat_kwu_clamped
fee_update_clamped float t blocks rate cap = (ground arith, ground arith, ground arith)
