-- ===== src/Offramp/Refund.antt =====
-- How `handle_offramp_payment_failed` (src/cardano_offramp.rs) ends when it runs alone.
use cardano_lightning_relay.Prelude.{
  ◌≡◌, refl, ap, ℤ, String, is_empty, Bool, true, false, not, ◌&&◌, Option, none, some, List, [],
  ◌∷◌, arith, count, update_where,
}
use cardano_lightning_relay.Types.{Result}
use cardano_lightning_relay.Status.OfframpStatus
use cardano_lightning_relay.Status.OfframpStatus.{OfframpStatus}
use cardano_lightning_relay.Mapping.{SwapMapping, OfframpMapping, offramp_has_status}
use cardano_lightning_relay.Mapping.Offramp
use cardano_lightning_relay.Mapping.Offramp.{has_id, set_offramp}
use cardano_lightning_relay.Runtime.{World}
use cardano_lightning_relay.Runtime.Logic.{Ends, Ends-bind, Ends-map, Ends-if}
use cardano_lightning_relay.Offramp.Settle.{
  handle_offramp_payment_failed, fail_found, refund_cbtc, cancel_offramp_on_chain, record_cancel,
}

-- A row of an offramp that is not Failed.
abbrev pub not_failed : ℤ → OfframpMapping → Bool
not_failed i r = has_id i r && not (offramp_has_status OfframpStatus.failed r)

-- The offramp is Failed, and the swaps are as they were.
abbrev pub AllFailed : ℤ → List SwapMapping → World → Type 0
AllFailed i swaps w = (count (not_failed i) w.db.offramps ≡ 0) × (w.db.swaps ≡ swaps)

and-false : (b : Bool) → (b && false) ≡ false
and-false true = refl
and-false false = refl

failed-row :
    (i : ℤ) (msg : String) (r : OfframpMapping)
    → not_failed i (set_offramp OfframpStatus.failed none none (some msg) r) ≡ false
unfolding offramp_has_status OfframpStatus.as_str
failed-row i msg r = and-false (has_id i r)

other-row : (i : ℤ) (r : OfframpMapping) → has_id i r ≡ false → not_failed i r ≡ false
other-row i r e = rw e refl

fail-sets :
    (i : ℤ) (msg : String) (rows : List OfframpMapping)
    → count
        (not_failed i)
        (update_where (has_id i) (set_offramp OfframpStatus.failed none none (some msg)) rows)
      ≡ 0
fail-sets i msg [] = refl
fail-sets i msg (r ∷ rows) = ground (arith, fail-sets i msg rows, failed-row i msg r, other-row i r)

module _ (m : OfframpMapping) (swaps : List SwapMapping) where
  refund-Ends :
      (w : World)
      → w.db.swaps ≡ swaps
      → Ends (refund_cbtc m) (λ _ w'. AllFailed m.offramp_id swaps w') w
  unfolding refund_cbtc Offramp.update_offramp_status
  refund-Ends w same =
      Ends-if (is_empty m.refund_address) _ _ (λ _ w'. AllFailed m.offramp_id swaps w') w
        (λ _. (fail-sets m.offramp_id _ w.db.offramps, same))
        (λ _. elim [
          | Result.err e ↦ (fail-sets m.offramp_id _ w.db.offramps, same)
          | Result.ok raw ↦ λ submitted. (fail-sets m.offramp_id _ w.db.offramps, same)
        ])

  cancel-Ends :
      (w : World)
      → AllFailed m.offramp_id swaps w
      → Ends (cancel_offramp_on_chain m) (λ _ w'. AllFailed m.offramp_id swaps w') w
  unfolding cancel_offramp_on_chain record_cancel Offramp.update_offramp_status
  cancel-Ends w failed = elim [
    | Result.err e ↦ failed
    | Result.ok raw ↦ elim [
      | Result.err e ↦ failed
      | Result.ok tx ↦ (fail-sets m.offramp_id _ w.db.offramps, failed.1)
    ]
  ]

-- What a failed payment comes to, from the row of the payment hash on.
abbrev pub Refunded : Option OfframpMapping → World → World → Type 0
Refunded none before w = w.db ≡ before.db
Refunded (some m) before w = AllFailed m.offramp_id before.db.swaps w

fail_found-Refunded :
    (o : Option OfframpMapping) (before w : World)
    → w.db ≡ before.db
    → Ends (fail_found o) (λ _ w'. Refunded o before w') w
unfolding fail_found
fail_found-Refunded none before w same = same
fail_found-Refunded (some m) before w same =
    Ends-bind (refund_cbtc m) (λ _. cancel_offramp_on_chain m)
      (λ _ w'. AllFailed m.offramp_id before.db.swaps w') w
      (Ends-map (refund_cbtc m) (λ _ w'. AllFailed m.offramp_id before.db.swaps w') _ w
        (λ _ w' failed. cancel-Ends m before.db.swaps w' failed)
        (refund-Ends m before.db.swaps w (ap (λ db. db.swaps) same)))

-- Run alone from any state, `handle_offramp_payment_failed` ends without a panic, whatever the
-- refund and the cancellation come to. Without an offramp for the payment hash, the database is
-- unchanged. With one, the offramp is Failed, and the swaps are unchanged.
pub handle_offramp_payment_failed-Refunded :
    (h : String) (w : World)
    → Ends
        (handle_offramp_payment_failed h)
        (λ _ w'. Refunded (Offramp.get_offramp_by_payment_hash h w.db) w w')
        w
unfolding handle_offramp_payment_failed
handle_offramp_payment_failed-Refunded h w =
    fail_found-Refunded (Offramp.get_offramp_by_payment_hash h w.db) w _ refl
