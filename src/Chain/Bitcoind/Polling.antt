-- ===== src/Chain/Bitcoind/Polling.antt =====
-- The rates after one round of `poll_for_fee_estimates`.
use cardano_lightning_relay.Prelude.{
  ℕ, ◌-◌, ◌^◌, ◌<◌, ◌≤◌, ◌≡◌, ◌≢◌, ◌⊎◌, inl, inr, refl, ap, Option-cases, ◌==◌, Bool, true, false,
  Option, none, some, String, List, [], ◌∷◌, arith, if◌then◌else◌,
}
use cardano_lightning_relay.Types.{Result}
use cardano_lightning_relay.Chain.{ConfirmationTarget, Fees, discriminant, insert, min_feerate}
use cardano_lightning_relay.Chain.Float.{FloatOps}
use cardano_lightning_relay.Chain.Json.{JsonOps}
use cardano_lightning_relay.Chain.Convert.{
  MempoolMinFeeResponse, sat_per_kw, to_fee_response, to_mempool_min_fee_response,
}
use cardano_lightning_relay.Chain.Bitcoind.{
  Rpc, node_of, estimate_or, polled_rates, store_all, poll_for_fee_estimates,
}

-- Every target has an entry in the table.
abbrev pub IsPresent : Fees → Type 0
IsPresent fees = (t : ConfirmationTarget) → (rate : ℕ) × (fees t ≡ some rate)

insert-IsPresent :
    (t : ConfirmationTarget) (rate : ℕ) (fees : Fees)
    → IsPresent fees
    → IsPresent (insert t rate fees)
insert-IsPresent t rate fees all u = pick (discriminant t == discriminant u)
  where
    pick : (same : Bool) → (r : ℕ) × ((if same then some rate else fees u) ≡ some r)
    pick true = (rate, refl)
    pick false = all u

abbrev insert_all : List (ConfirmationTarget × ℕ) → Fees → Fees
insert_all [] fees = fees
insert_all ((t, rate) ∷ rates) fees = insert_all rates (insert t rate fees)

store_all-insert_all :
    (rates : List (ConfirmationTarget × ℕ)) (fees : Fees)
    → IsPresent fees
    → store_all rates fees ≡ some (insert_all rates fees)
store_all-insert_all [] fees all = refl
store_all-insert_all ((t, rate) ∷ rates) fees all =
    let (old, is) = all t in
    rw is (store_all-insert_all rates (insert t rate fees) (insert-IsPresent t rate fees all))

estimate_or_le :
    (default : ℕ) (o : Option ℕ) → min_feerate ≤ default → min_feerate ≤ estimate_or default o
estimate_or_le default none h = h
estimate_or_le default (some rate) h = omega arith

-- The answer's rate is a `u32`.
abbrev pub IsU32 : Option ℕ → Type 0
IsU32 none = Unit
IsU32 (some rate) = rate < 2 ^ 32

estimate_or-lt : (o : Option ℕ) → IsU32 o → estimate_or min_feerate o < 2 ^ 32
estimate_or-lt none h = omega arith
estimate_or-lt (some rate) h = omega arith

-- What a round leaves: every target has a rate of at least 253, but for the lowest fee that a channel
-- without anchors may have, which is 250 below the background estimate.
abbrev pub IsPolled : Fees → Type 0
IsPolled fees =
    (background : ℕ) × (min_feerate ≤ background)
    × (fees ConfirmationTarget.anchor_channel_fee ≡ some background)
    × (fees ConfirmationTarget.channel_close_minimum ≡ some background)
    × (fees ConfirmationTarget.output_spending_fee ≡ some background)
    × (fees ConfirmationTarget.min_allowed_non_anchor_channel_remote_fee ≡ some (background - 250))
    × ((t : ConfirmationTarget)
        → t ≢ ConfirmationTarget.min_allowed_non_anchor_channel_remote_fee
        → (rate : ℕ) × (fees t ≡ some rate) × (min_feerate ≤ rate))

module _ (fees : Fees) (mempoolmin background normal high_prio very_high_prio : Option ℕ) where
  abbrev rates_after : Fees
  rates_after = insert_all (polled_rates mempoolmin background normal high_prio very_high_prio) fees

  rates_after_le :
      (t : ConfirmationTarget)
      → t ≢ ConfirmationTarget.min_allowed_non_anchor_channel_remote_fee
      → (rate : ℕ) × (rates_after t ≡ some rate) × (min_feerate ≤ rate)
  rates_after_le ConfirmationTarget.maximum_fee_estimate ne =
      (_, refl, estimate_or_le 50000 very_high_prio (omega arith))
  rates_after_le ConfirmationTarget.urgent_on_chain_sweep ne =
      (_, refl, estimate_or_le 5000 high_prio (omega arith))
  rates_after_le ConfirmationTarget.min_allowed_anchor_channel_remote_fee ne =
      (_, refl, estimate_or_le min_feerate mempoolmin (omega arith))
  rates_after_le ConfirmationTarget.min_allowed_non_anchor_channel_remote_fee ne = absurd (ne refl)
  rates_after_le ConfirmationTarget.anchor_channel_fee ne =
      (_, refl, estimate_or_le min_feerate background (omega arith))
  rates_after_le ConfirmationTarget.non_anchor_channel_fee ne =
      (_, refl, estimate_or_le 2000 normal (omega arith))
  rates_after_le ConfirmationTarget.channel_close_minimum ne =
      (_, refl, estimate_or_le min_feerate background (omega arith))
  rates_after_le ConfirmationTarget.output_spending_fee ne =
      (_, refl, estimate_or_le min_feerate background (omega arith))

  rates_after-IsPolled : IsU32 background → IsPolled rates_after
  rates_after-IsPolled fits =
      let low : min_feerate ≤ estimate_or min_feerate background =
        estimate_or_le min_feerate background (omega arith) in
      let high = estimate_or-lt background fits in
      (
        estimate_or min_feerate background,
        low,
        refl,
        refl,
        refl,
        ap some (omega arith),
        rates_after_le,
      )

-- The node did not answer.
abbrev pub Unanswered : {J : Type 0} → Result J → Type 0
Unanswered (Result.ok j) = ⊥
Unanswered (Result.err e) = Unit

Result-cases :
    {J : Type 0} (r : Result J)
    → (Unanswered r × (e : String) × (r ≡ Result.err e)) ⊎ ((j : J) × (r ≡ Result.ok j))
Result-cases (Result.err e) = inl (tt, e, refl)
Result-cases (Result.ok j) = inr (j, refl)

module _ {J F : Type 0} (json : JsonOps J F) (float : FloatOps F) (from_btc : F → Result ℕ)
    (rpc : Rpc J F) where
  -- The node did not answer `getmempoolinfo`, or its mempool has another size than 300 MB.
  abbrev pub IsOtherPool : Result J → Type 0
  IsOtherPool (Result.err e) = Unit
  IsOtherPool (Result.ok j) = json.as_u64 (json.index j "maxmempool") ≢ some 300000000

  -- What ends a round in a panic, in the order of the calls.
  abbrev pub Stops : Type 0
  Stops =
      IsOtherPool rpc.getmempoolinfo
      ⊎ Unanswered (rpc.estimatesmartfee 144 "ECONOMICAL")
      ⊎ Unanswered (rpc.estimatesmartfee 18 "ECONOMICAL")
      ⊎ Unanswered (rpc.estimatesmartfee 6 "CONSERVATIVE")
      ⊎ Unanswered (rpc.estimatesmartfee 2 "CONSERVATIVE")

  IsOtherPool-err : (r : Result J) (e : String) → r ≡ Result.err e → IsOtherPool r
  IsOtherPool-err r e h = rw h tt

  IsOtherPool-none :
      (j : J) → to_mempool_min_fee_response json float j ≡ none → IsOtherPool (Result.ok j)
  unfolding to_mempool_min_fee_response
  IsOtherPool-none j h same = cc (rw same at h)

  -- A conversion to `u32` gives a `u32`.
  abbrev pub FitsU32 : Type 0
  FitsU32 = (x : F) → float.to_u32 x < 2 ^ 32

  sat_per_kw-IsU32 : FitsU32 → (o : Option F) → IsU32 (sat_per_kw json float o)
  sat_per_kw-IsU32 fits none = tt
  sat_per_kw-IsU32 fits (some x) = fits _

  module _ (fees : Fees) (all : IsPresent fees) (fits : FitsU32) where
    abbrev pub Polled : Type 0
    Polled =
        ((fees' : Fees) × (poll_for_fee_estimates (node_of json float from_btc rpc) fees
            ≡ some fees')
          × IsPolled fees')
        ⊎ (Stops × (poll_for_fee_estimates (node_of json float from_btc rpc) fees ≡ none))

    all_answered :
        (pool background normal high_prio very_high_prio : J) (mempoolmin : MempoolMinFeeResponse)
        → rpc.getmempoolinfo ≡ Result.ok pool
        → to_mempool_min_fee_response json float pool ≡ some mempoolmin
        → rpc.estimatesmartfee 144 "ECONOMICAL" ≡ Result.ok background
        → rpc.estimatesmartfee 18 "ECONOMICAL" ≡ Result.ok normal
        → rpc.estimatesmartfee 6 "CONSERVATIVE" ≡ Result.ok high_prio
        → rpc.estimatesmartfee 2 "CONSERVATIVE" ≡ Result.ok very_high_prio
        → Polled
    unfolding poll_for_fee_estimates node_of to_fee_response
    all_answered pool background normal high_prio very_high_prio mempoolmin e0 e1 e2 e3 e4 e5 =
        let rate = λ (j : J). (to_fee_response json float j).feerate_sat_per_kw in
        inl (
          rates_after fees mempoolmin.feerate_sat_per_kw (rate background) (rate normal)
              (rate high_prio) (rate very_high_prio),
          rw (e0, e1, e2, e3, e4, e5)
              (store_all-insert_all
                (polled_rates mempoolmin.feerate_sat_per_kw (rate background) (rate normal)
                  (rate high_prio) (rate very_high_prio))
                fees all),
          rates_after-IsPolled fees mempoolmin.feerate_sat_per_kw (rate background) (rate normal)
              (rate high_prio) (rate very_high_prio) (sat_per_kw-IsU32 fits _),
        )

    -- The estimates one after the other, once the state of the mempool is read.
    estimated :
        (pool : J) (mempoolmin : MempoolMinFeeResponse)
        → rpc.getmempoolinfo ≡ Result.ok pool
        → to_mempool_min_fee_response json float pool ≡ some mempoolmin
        → Polled
    unfolding poll_for_fee_estimates node_of to_fee_response
    estimated pool mempoolmin e0 e1 = elim (Result-cases (rpc.estimatesmartfee 144 "ECONOMICAL")) [
      | inl (u, e, h2) ↦ inr (inr (inl u), rw (e0, e1, h2) refl)
      | inr (background, h2) ↦ elim (Result-cases (rpc.estimatesmartfee 18 "ECONOMICAL")) [
        | inl (u, e, h3) ↦ inr (inr (inr (inl u)), rw (e0, e1, h2, h3) refl)
        | inr (normal, h3) ↦ elim (Result-cases (rpc.estimatesmartfee 6 "CONSERVATIVE")) [
          | inl (u, e, h4) ↦ inr (inr (inr (inr (inl u))), rw (e0, e1, h2, h3, h4) refl)
          | inr (high_prio, h4) ↦ elim (Result-cases (rpc.estimatesmartfee 2 "CONSERVATIVE")) [
            | inl (u, e, h5) ↦ inr (inr (inr (inr (inr u))), rw (e0, e1, h2, h3, h4, h5) refl)
            | inr (very_high_prio, h5) ↦
                all_answered pool background normal high_prio very_high_prio mempoolmin e0 e1 h2 h3
                  h4 h5
          ]
        ]
      ]
    ]

  -- From a table with an entry for every target, and when a conversion to `u32` gives less than 2^32, a
  -- round either ends in a panic, and then the node left one of the five calls without an answer or
  -- reported a mempool of another size than 300 MB; or it gives every target a rate: at least 253
  -- sat/kWU, but for the lowest fee that a channel without anchors may have, which is 250 below the
  -- background estimate and does not wrap.
  pub poll_for_fee_estimates_total :
      (fees : Fees)
      → IsPresent fees
      → FitsU32
      → ((fees' : Fees) × (poll_for_fee_estimates (node_of json float from_btc rpc) fees
            ≡ some fees')
          × IsPolled fees')
        ⊎ (Stops × (poll_for_fee_estimates (node_of json float from_btc rpc) fees ≡ none))
  unfolding poll_for_fee_estimates node_of
  poll_for_fee_estimates_total fees all fits = elim (Result-cases rpc.getmempoolinfo) [
    | inl (u, e, h) ↦ inr (inl (IsOtherPool-err _ e h), rw h refl)
    | inr (pool, h) ↦ elim (Option-cases (to_mempool_min_fee_response json float pool)) [
      | inl bad ↦ inr (inl (rw h (IsOtherPool-none pool bad)), rw (h, bad) refl)
      | inr (mempoolmin, read) ↦ estimated fees all fits pool mempoolmin h read
    ]
  ]
