-- ===== src/Chain/Esplora/Updates.antt =====
-- What a round of estimates does to the table of fees.
use Prim.Native.Nat.{max}
use cardano_lightning_relay.Prelude.{
  ℕ, ◌≤◌, ◌<◌, ◌≡◌, refl, sym, ap, ◌∙◌, ◌==◌, Bool, true, false, Bool-cases, inl, inr, Option, none,
  some, String, [], arith, if◌then◌else◌,
}
use cardano_lightning_relay.Chain.{ConfirmationTarget, Fees, discriminant, insert, min_feerate}
use cardano_lightning_relay.Chain.Float.{FloatOps}
use cardano_lightning_relay.Chain.Esplora.{
  Applied, apply_fee, then_apply, apply_one, apply_both, apply_fee_estimates,
  sat_vb_to_sat_kwu_clamped, raw_sat_vb_to_sat_kwu, default_high_priority_max,
}
use cardano_lightning_relay.Chain.Esplora.Clamp.{sat_vb_to_sat_kwu_clamped_bounds}

-- Every target has a rate, and none is below the floor.
abbrev pub IsFloored : Fees → Type 0
IsFloored fees = (t : ConfirmationTarget) → (rate : ℕ) × (fees t ≡ some rate) × (min_feerate ≤ rate)

insert-IsFloored :
    (t : ConfirmationTarget) (rate : ℕ) (fees : Fees)
    → min_feerate ≤ rate
    → IsFloored fees
    → IsFloored (insert t rate fees)
insert-IsFloored t rate fees h all u = pick (discriminant t == discriminant u)
  where
    pick :
        (same : Bool)
        → (r : ℕ) × ((if same then some rate else fees u) ≡ some r) × (min_feerate ≤ r)
    pick true = (rate, refl, h)
    pick false = all u

-- The number of blocks whose estimate a target takes, and the cap on it.
abbrev pub source_of : ConfirmationTarget → Option String
source_of ConfirmationTarget.maximum_fee_estimate = some "1"
source_of ConfirmationTarget.urgent_on_chain_sweep = some "1"
source_of ConfirmationTarget.min_allowed_anchor_channel_remote_fee = none
source_of ConfirmationTarget.min_allowed_non_anchor_channel_remote_fee = none
source_of ConfirmationTarget.anchor_channel_fee = none
source_of ConfirmationTarget.non_anchor_channel_fee = some "6"
source_of ConfirmationTarget.channel_close_minimum = some "6"
source_of ConfirmationTarget.output_spending_fee = some "25"

abbrev pub cap_of : ℕ → ConfirmationTarget → ℕ
cap_of normal_max ConfirmationTarget.maximum_fee_estimate = max normal_max default_high_priority_max
cap_of normal_max ConfirmationTarget.urgent_on_chain_sweep =
    max normal_max default_high_priority_max
cap_of normal_max t = normal_max

module _ {F : Type 0} (float : FloatOps F) where
  abbrev pub rated : ℕ → Option F → Option ℕ → Option ℕ
  rated cap none old = old
  rated cap (some rate) old = some (sat_vb_to_sat_kwu_clamped float rate cap)

  abbrev pub from_source : (String → Option F) → ℕ → Option String → Option ℕ → Option ℕ
  from_source estimates cap none old = old
  from_source estimates cap (some blocks) old = rated cap (estimates blocks) old

  -- A target's rate after a round: the clamped estimate for its number of blocks, or the old rate.
  abbrev pub expected : Fees → (String → Option F) → ℕ → ConfirmationTarget → Option ℕ
  expected fees estimates normal_max t =
      from_source estimates (cap_of normal_max t) (source_of t) (fees t)

  -- The rate that is assigned for an estimate of `raw` sat/kWU: the estimate itself where it lies
  -- between the floor and the cap, and else the nearer of the two.
  abbrev pub IsAssigned : ℕ → ℕ → ℕ → Type 0
  IsAssigned cap raw rate =
      (min_feerate ≤ rate)
      × (rate ≤ max cap min_feerate)
      × (min_feerate ≤ raw → raw ≤ cap → rate ≡ raw)
      × (raw < min_feerate → rate ≡ min_feerate)
      × (max cap min_feerate < raw → rate ≡ max cap min_feerate)

  -- From the old rate to the new one, by the estimate, if there is one.
  abbrev pub IsRated : ℕ → Option F → Option ℕ → Option ℕ → Type 0
  IsRated cap none old new = new ≡ old
  IsRated cap (some rate) old new =
      (r : ℕ) × (new ≡ some r) × IsAssigned cap (raw_sat_vb_to_sat_kwu float rate) r

  abbrev pub IsFromSource : (String → Option F) → ℕ → Option String → Option ℕ → Option ℕ → Type 0
  IsFromSource estimates cap none old new = new ≡ old
  IsFromSource estimates cap (some blocks) old new = IsRated cap (estimates blocks) old new

  abbrev pub IsExpected : Fees → (String → Option F) → ℕ → ConfirmationTarget → Option ℕ → Type 0
  IsExpected fees estimates normal_max t new =
      IsFromSource estimates (cap_of normal_max t) (source_of t) (fees t) new

  clamped-IsAssigned :
      (rate : F) (cap : ℕ)
      → IsAssigned cap (raw_sat_vb_to_sat_kwu float rate) (sat_vb_to_sat_kwu_clamped float rate cap)
  unfolding sat_vb_to_sat_kwu_clamped
  clamped-IsAssigned rate cap = (
    omega arith,
    omega arith,
    λ low high. omega (arith, low, high),
    λ low. omega (arith, low),
    λ high. omega (arith, high),
  )

  rated-IsRated :
      (cap : ℕ) (r : Option F) (old new : Option ℕ) → new ≡ rated cap r old → IsRated cap r old new
  rated-IsRated cap none old new e = e
  rated-IsRated cap (some rate) old new e =
      (sat_vb_to_sat_kwu_clamped float rate cap, e, clamped-IsAssigned rate cap)

  expected-IsExpected :
      (fees : Fees) (estimates : String → Option F) (normal_max : ℕ) (t : ConfirmationTarget)
      (new : Option ℕ)
      → new ≡ expected fees estimates normal_max t
      → IsExpected fees estimates normal_max t new
  expected-IsExpected fees estimates normal_max t new e = by_source (source_of t) e
    where
      by_source :
          (source : Option String)
          → new ≡ from_source estimates (cap_of normal_max t) source (fees t)
          → IsFromSource estimates (cap_of normal_max t) source (fees t) new
      by_source none h = h
      by_source (some blocks) h =
          rated-IsRated (cap_of normal_max t) (estimates blocks) (fees t) new h

  -- A step came to the fees `want`.
  abbrev Yields : Option (Applied float) → Fees → Type 0
  Yields o want =
      (applied : Applied float) × (o ≡ some applied)
      × ((t : ConfirmationTarget) → applied.0 t ≡ want t)

  abbrev rate_one : ConfirmationTarget → ℕ → Option F → Fees → Fees
  rate_one t cap r fees u =
      if discriminant t == discriminant u then rated cap r (fees u) else fees u

  Yields-IsFloored :
      (o : Option (Applied float)) (want : Fees) (y : Yields o want)
      → IsFloored want
      → IsFloored y.0.0
  Yields-IsFloored o want (applied, is, same) floored t =
      let (rate, found, low) = floored t in (rate, same t ∙ found, low)

  apply_fee-Yields :
      (t : ConfirmationTarget) (blocks : String) (rate : F) (cap : ℕ) (applied : Applied float)
      → IsFloored applied.0
      → Yields
          (apply_fee float t blocks rate cap applied)
          (insert t (sat_vb_to_sat_kwu_clamped float rate cap) applied.0)
  unfolding apply_fee
  apply_fee-Yields t blocks rate cap (fees, updates) floored =
      let (old, found, low) = floored t in rw found (_, refl, λ u. refl)

  then_apply-Yields :
      (t : ConfirmationTarget) (blocks : String) (rate : F) (cap : ℕ) (o : Option (Applied float))
      (want : Fees)
      → IsFloored want
      → Yields o want
      → Yields (then_apply float t blocks rate cap o) (rate_one t cap (some rate) want)
  then_apply-Yields t blocks rate cap o want floored (applied, is, same) =
      let (next, is', same') =
        apply_fee-Yields t blocks rate cap applied
          (Yields-IsFloored o want (applied, is, same) floored) in
      rw is (
        next,
        is',
        λ u.
            same' u
            ∙ ap
                (λ (old : Option ℕ).
                  if discriminant t == discriminant u
                  then some (sat_vb_to_sat_kwu_clamped float rate cap)
                  else old)
                (same u),
      )

  rate_one-IsFloored :
      (t : ConfirmationTarget) (cap : ℕ) (r : Option F) (fees : Fees)
      → IsFloored fees
      → IsFloored (rate_one t cap r fees)
  rate_one-IsFloored t cap none fees floored u =
      elim (Bool-cases (discriminant t == discriminant u)) [
        | inl e ↦ rw e (floored u)
        | inr e ↦ rw e (floored u)
      ]
  rate_one-IsFloored t cap (some rate) fees floored u =
      insert-IsFloored t (sat_vb_to_sat_kwu_clamped float rate cap) fees
        (sat_vb_to_sat_kwu_clamped_bounds float rate cap).0 floored u

  if_same : (b : Bool) (x : Option ℕ) → (if b then x else x) ≡ x
  if_same true x = refl
  if_same false x = refl

  apply_one-Yields :
      (t : ConfirmationTarget) (blocks : String) (cap : ℕ) (r : Option F)
      (o : Option (Applied float)) (want : Fees)
      → IsFloored want
      → Yields o want
      → Yields (apply_one float t blocks cap r o) (rate_one t cap r want)
  apply_one-Yields t blocks cap none o want floored (applied, is, same) =
      (applied, is, λ u. same u ∙ sym (if_same (discriminant t == discriminant u) (want u)))
  apply_one-Yields t blocks cap (some rate) o want floored y =
      then_apply-Yields t blocks rate cap o want floored y

  apply_both-Yields :
      (t u : ConfirmationTarget) (blocks : String) (cap : ℕ) (r : Option F)
      (o : Option (Applied float)) (want : Fees)
      → IsFloored want
      → Yields o want
      → Yields (apply_both float t u blocks cap r o) (rate_one u cap r (rate_one t cap r want))
  apply_both-Yields t u blocks cap none o want floored y =
      apply_one-Yields u blocks cap none o _ (rate_one-IsFloored t cap none want floored)
        (apply_one-Yields t blocks cap none o want floored y)
  apply_both-Yields t u blocks cap (some rate) o want floored y =
      then_apply-Yields u blocks rate cap (then_apply float t blocks rate cap o) _
        (rate_one-IsFloored t cap (some rate) want floored)
        (then_apply-Yields t blocks rate cap o want floored y)

  module _ (fees : Fees) (estimates : String → Option F) (normal_max : ℕ) where
    abbrev fast : Fees
    fast =
        let high = max normal_max default_high_priority_max in
        rate_one ConfirmationTarget.urgent_on_chain_sweep high (estimates "1")
          (rate_one ConfirmationTarget.maximum_fee_estimate high (estimates "1") fees)

    abbrev normal : Fees
    normal =
        rate_one ConfirmationTarget.channel_close_minimum normal_max (estimates "6")
          (rate_one ConfirmationTarget.non_anchor_channel_fee normal_max (estimates "6") fast)

    abbrev all_rates : Fees
    all_rates = rate_one ConfirmationTarget.output_spending_fee normal_max (estimates "25") normal

    all_rates-expected :
        (t : ConfirmationTarget) → all_rates t ≡ expected fees estimates normal_max t
    all_rates-expected ConfirmationTarget.maximum_fee_estimate = refl
    all_rates-expected ConfirmationTarget.urgent_on_chain_sweep = refl
    all_rates-expected ConfirmationTarget.min_allowed_anchor_channel_remote_fee = refl
    all_rates-expected ConfirmationTarget.min_allowed_non_anchor_channel_remote_fee = refl
    all_rates-expected ConfirmationTarget.anchor_channel_fee = refl
    all_rates-expected ConfirmationTarget.non_anchor_channel_fee = refl
    all_rates-expected ConfirmationTarget.channel_close_minimum = refl
    all_rates-expected ConfirmationTarget.output_spending_fee = refl

    module _ (floored : IsFloored fees) where
      abbrev high : ℕ
      high = max normal_max default_high_priority_max

      fast-IsFloored : IsFloored fast
      fast-IsFloored =
          rate_one-IsFloored ConfirmationTarget.urgent_on_chain_sweep high (estimates "1")
            (rate_one ConfirmationTarget.maximum_fee_estimate high (estimates "1") fees)
            (rate_one-IsFloored ConfirmationTarget.maximum_fee_estimate high (estimates "1") fees
              floored)

      normal-IsFloored : IsFloored normal
      normal-IsFloored =
          rate_one-IsFloored ConfirmationTarget.channel_close_minimum normal_max (estimates "6")
            (rate_one ConfirmationTarget.non_anchor_channel_fee normal_max (estimates "6") fast)
            (rate_one-IsFloored ConfirmationTarget.non_anchor_channel_fee normal_max (estimates "6")
              fast fast-IsFloored)

      all_rates-Yields : Yields (apply_fee_estimates float fees estimates normal_max) all_rates
      unfolding apply_fee_estimates
      all_rates-Yields =
          apply_one-Yields ConfirmationTarget.output_spending_fee "25" normal_max (estimates "25") _
            normal normal-IsFloored
            (apply_both-Yields ConfirmationTarget.non_anchor_channel_fee
              ConfirmationTarget.channel_close_minimum "6" normal_max (estimates "6") _ fast
              fast-IsFloored
              (apply_both-Yields ConfirmationTarget.maximum_fee_estimate
                ConfirmationTarget.urgent_on_chain_sweep "1" high (estimates "1") (some (fees, []))
                fees floored ((fees, []), refl, λ u. refl)))

  -- From a table with a rate of at least the floor for every target, a round of estimates does not
  -- panic. A target that takes the estimate for a number of blocks, when there is one, gets the
  -- estimate in sat/kWU where this lies between the floor and the cap of the target, the floor where it
  -- lies below, and the cap, or the floor if that is higher, where it lies above; all other targets
  -- keep their rates. Every target has a rate of at least the floor again.
  pub apply_fee_estimates_lem :
      (fees : Fees) (estimates : String → Option F) (normal_max : ℕ)
      → IsFloored fees
      → (applied : Applied float) × (apply_fee_estimates float fees estimates normal_max
          ≡ some applied)
        × ((t : ConfirmationTarget) → IsExpected fees estimates normal_max t (applied.0 t))
        × IsFloored applied.0
  apply_fee_estimates_lem fees estimates normal_max floored =
      let y = all_rates-Yields fees estimates normal_max floored in
      (
        y.0,
        y.1,
        λ t.
            expected-IsExpected fees estimates normal_max t (y.0.0 t)
              (y.2 t ∙ all_rates-expected fees estimates normal_max t),
        Yields-IsFloored _ (all_rates fees estimates normal_max) y (
            rate_one-IsFloored ConfirmationTarget.output_spending_fee normal_max (estimates "25")
              (normal fees estimates normal_max)
              (normal-IsFloored fees estimates normal_max floored)),
      )
