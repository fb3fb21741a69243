-- ===== src/Swap/Outcome.antt =====
-- How `fulfill_swap` (src/cardano_swap.rs) ends when it runs alone.
use cardano_lightning_relay.Prelude.{
  ltb_ℤ, ◌≡◌, refl, ap, inl, inr, ◌⊎◌, String, ◌<>◌, show_ℤ, true, false, Option, none, some, List,
  [], ◌∷◌,
}
use cardano_lightning_relay.Types.{Result, Invoice}
use cardano_lightning_relay.Status.SwapStatus.{SwapStatus}
use cardano_lightning_relay.Mapping.{SwapMapping, SwapDb}
use cardano_lightning_relay.Mapping.Onramp
use cardano_lightning_relay.Mapping.Lookup.{transition-missing, transition-refused}
use cardano_lightning_relay.Runtime.{
  Cmd, Call, Reply, Event, World, observe, ret, ask, db, and_then,
}
use cardano_lightning_relay.Runtime.Logic.{Ends, Ends-bind, Ends-map, Ends-if}
use cardano_lightning_relay.Helpers.Outcome.{Outcome, Ends-query, Ends-submit}
use cardano_lightning_relay.Swap.{
  fulfill_swap, fulfill_found, fulfill_claimed, settle_swap, conclude_swap, build_then_submit,
  find_invoice, query_invoice, fulfill_context, submit_fulfillment,
}

abbrev SubmitAnswer : String → (c : Call) → Reply c → Type 0
SubmitAnswer tx (Call.submit_tx raw) r = r ≡ Result.ok tx
SubmitAnswer tx _ r = ⊥

-- The network has accepted a transaction with this hash.
abbrev pub Submitted : String → List Event → Type 0
Submitted tx [] = ⊥
Submitted tx (Event.acted c r ∷ es) = Submitted tx es
Submitted tx (Event.called c r ∷ es) = SubmitAnswer tx c r ⊎ Submitted tx es

-- The end of a claimed swap: the row's status is Failed without a transaction, or Completed with the
-- hash of a transaction that the network has accepted; nothing else of the database is changed.
abbrev pub Settled : String → SwapDb → World → Type 0
Settled h claimed w =
    (w.db ≡ Onramp.update_status h SwapStatus.failed none claimed)
    ⊎ ((tx : String) × (w.db ≡ Onramp.update_status h SwapStatus.completed (some tx) claimed)
        × Submitted tx w.trace)

module _ (h : String) (claimed : SwapDb) where
  abbrev Kept : World → Type 0
  Kept w = w.db ≡ claimed

  abbrev Sent : String → World → Type 0
  Sent tx w = Submitted tx w.trace

  Kept-observe : (c : Call) (r : Reply c) (w : World) → Kept w → Kept (observe (Event.called c r) w)
  Kept-observe c r w k = k

  conclude-Settled :
      (r : Result String) (w : World)
      → Outcome Kept Sent r w
      → Ends (conclude_swap h r) (λ _ w'. Settled h claimed w') w
  unfolding conclude_swap
  conclude-Settled (Result.ok tx) w o =
      inr (tx, ap (Onramp.update_status h SwapStatus.completed (some tx)) o.0, o.1)
  conclude-Settled (Result.err e) w o = inl (ap (Onramp.update_status h SwapStatus.failed none) o.0)

  fail-Settled :
      (w : World)
      → Kept w
      → Ends (db (Cmd.update_status h SwapStatus.failed none)) (λ _ w'. Settled h claimed w') w
  fail-Settled w k = inl (ap (Onramp.update_status h SwapStatus.failed none) k)

  -- One attempt to build the fulfilment and to submit it.
  Sent-built :
      (built : Result String) (w : World)
      → Kept w
      → Ends (and_then built (λ tx. ask (Call.submit_tx tx))) (Outcome Kept Sent) w
  Sent-built (Result.err e) w k = (k, tt)
  Sent-built (Result.ok raw) w k = elim [ Result.ok tx ↦ (k, inl refl) | Result.err e ↦ (k, tt) ]

  settle-Settled :
      (m : SwapMapping) (r : Result Invoice) (w : World)
      → Kept w
      → Ends (settle_swap m h r) (λ _ w'. Settled h claimed w') w
  unfolding settle_swap
  settle-Settled m (Result.err e) w k = fail-Settled w k
  settle-Settled m (Result.ok invoice) w k =
      Ends-bind (submit_fulfillment m h invoice) (conclude_swap h) (λ _ w'. Settled h claimed w') w
        (Ends-map (submit_fulfillment m h invoice) (Outcome Kept Sent) _ w conclude-Settled (
          Ends-submit Kept Sent Kept-observe (fulfill_context h) 3 15
            (build_then_submit (ask (Call.fulfill_invoice invoice m.cardano_address)))
            (λ w k built. Sent-built built _ k) w k))

  claimed-Settled :
      (m : SwapMapping) (w : World)
      → Kept w
      → Ends (fulfill_claimed m h) (λ _ w'. Settled h claimed w') w
  unfolding fulfill_claimed
  claimed-Settled m w k = λ now_ms.
      let w' = observe (Event.called Call.current_timestamp_ms now_ms) w in
      Ends-if (ltb_ℤ m.expires_at now_ms) _ _ (λ _ w'. Settled h claimed w') w'
        (λ _. fail-Settled w' k)
        (λ _.
          Ends-bind (query_invoice m) (settle_swap m h) (λ _ w'. Settled h claimed w') w'
            (Ends-map (query_invoice m) (Outcome Kept (λ _ _. Unit)) _ w'
              (λ r w o. settle-Settled m r w o.0)
              (Ends-query Kept (λ _ _. Unit) Kept-observe 24 10
                ("LM invoice #" <> show_ℤ m.invoice_id) (find_invoice m.invoice_id) (λ _ _ _ _. tt)
                w' k)))

-- How `fulfill_swap` ends: with a claimed swap settled, or with nothing changed.
abbrev pub Fulfilled : String → SwapDb → World → Type 0
Fulfilled h before w =
    let (applied, claimed) =
      Onramp.transition_status h SwapStatus.pending SwapStatus.fulfilling none before in
    ((applied ≡ true) × Settled h claimed w) ⊎ ((applied ≡ false) × (w.db ≡ before))

found-Fulfilled :
    (h : String) (o : Option SwapMapping) (w : World)
    → Onramp.get_by_payment_hash h w.db ≡ o
    → Ends (fulfill_found h o) (λ _ w'. Fulfilled h w.db w') w
unfolding fulfill_found
found-Fulfilled h none w e = inr (transition-missing h _ _ none w.db e, refl)
found-Fulfilled h (some m) w e =
    let (applied, claimed) =
      Onramp.transition_status h SwapStatus.pending SwapStatus.fulfilling none w.db in
    Ends-if applied (fulfill_claimed m h) (ret tt) (λ _ w'. Fulfilled h w.db w')
      (observe
        (Event.acted (Cmd.transition_status h SwapStatus.pending SwapStatus.fulfilling none)
          applied)
        (record w { db = claimed }))
      (λ is.
        Ends-map (fulfill_claimed m h) (λ _ w'. Settled h claimed w') _ _ (λ _ w' s. inl (is, s))
          (claimed-Settled h claimed m _ refl))
      (λ isnt. inr (isnt, transition-refused h _ _ none w.db isnt))

-- Run alone from any state, `fulfill_swap` ends without a panic, in one of two ways. If the
-- transition of the payment hash from Pending to Fulfilling is not applied, the database is
-- unchanged. If it is, the database is the one after this transition with one more update of that
-- payment hash: to Failed without a transaction, or to Completed with the hash of a transaction that
-- the network accepted on a submission of this run.
pub fulfill_swap-Fulfilled :
    (h : String) (w : World)
    → Ends (fulfill_swap h) (λ _ w'. Fulfilled h w.db w') (record w { trace = [] })
unfolding fulfill_swap
fulfill_swap-Fulfilled h w =
    found-Fulfilled h (Onramp.get_by_payment_hash h w.db) (observe _ (record w { trace = [] })) refl
