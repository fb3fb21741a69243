-- ===== src/Swap/Submissions.antt =====
-- How many transactions one run of `fulfill_swap` (src/cardano_swap.rs) submits.
use mathlib.Core.Path.{subst}
use cardano_lightning_relay.Prelude.{
  ℕ, zero, suc, ◌+◌, ◌-◌, ◌≤◌, ◌≡◌, refl, arith, ltb, ltb_ℤ, String, ◌<>◌, show_ℤ, Bool, true,
  false, Option, none, some, List, count,
}
use cardano_lightning_relay.Types.{Result, Invoice, State}
use cardano_lightning_relay.Mapping.{SwapMapping}
use cardano_lightning_relay.Runtime.{Call, Event, Prog, ret, ask, and_then}
use cardano_lightning_relay.Runtime.Only.{Runs}
use cardano_lightning_relay.Runtime.Budget.{Spends, Spends-bind, Spends-map, Spends-if, Runs-Spends}
use cardano_lightning_relay.Helpers.Budget.{Leaves, submit-Leaves}
use cardano_lightning_relay.Helpers.{item_or_again, on_state, query_from, query_state_with_retry}
use cardano_lightning_relay.Swap.{
  fulfill_swap, fulfill_found, fulfill_claimed, settle_swap, conclude_swap, build_then_submit,
  query_invoice, fulfill_context, submit_fulfillment, find_invoice,
}

abbrev pub submits : Call → Bool
submits (Call.submit_tx tx) = true
submits _ = false

-- A transaction is submitted to the network.
abbrev pub is_submit : Event → Bool
is_submit (Event.acted c r) = false
is_submit (Event.called c r) = submits c

-- Whatever is left of a budget.
abbrev Any : {A : Type 0} → A → ℕ → Type 0
Any a n = Unit

pub sleeps : (secs : ℕ) (u : Unit {0}) → is_submit (Event.called (Call.sleep secs) u) ≡ false
sleeps secs u = refl

module _ {T : Type 0} (max_attempts delay : ℕ) (context : String) (find_fn : State → Option T)
    (n : ℕ) where
  abbrev Left : Result T → ℕ → Type 0
  Left r m = m ≡ n

  item-Left :
      (attempt : ℕ) (again : Prog (Result T)) (o : Option T)
      → Spends is_submit n again Left
      → Spends is_submit n (item_or_again max_attempts delay context attempt again o) Left
  item-Left attempt again (some t) h = refl
  item-Left attempt again none h =
      Spends-if is_submit (ltb attempt (max_attempts - 1)) n _ again Left (λ _. h) h

  state-Left :
      (attempt : ℕ) (again : Prog (Result T)) (r : Result State)
      → Spends is_submit n again Left
      → Spends is_submit n (on_state max_attempts delay context find_fn attempt again r) Left
  state-Left attempt again (Result.ok state) h = item-Left attempt again (find_fn state) h
  state-Left attempt again (Result.err e) h =
      Spends-if is_submit (ltb attempt (max_attempts - 1)) n _ _ Left (λ _. h) refl

  query_from-Left :
      (left attempt : ℕ)
      → Spends is_submit n (query_from max_attempts delay context find_fn left attempt) Left
  unfolding query_from
  query_from-Left zero attempt = refl
  query_from-Left (suc left) attempt =
      λ r. state-Left attempt _ r (query_from-Left left (suc attempt))

  query-Left : Spends is_submit n (query_state_with_retry max_attempts delay context find_fn) Left
  unfolding query_state_with_retry
  query-Left = query_from-Left max_attempts 0

submitted-Spends :
    (n : ℕ) (built : Result String)
    → Spends is_submit (suc n) (and_then built (λ tx. ask (Call.submit_tx tx))) (Leaves n)
submitted-Spends n (Result.ok tx) = λ r. omega arith
submitted-Spends n (Result.err e) = omega arith

pub built-Spends :
    (n : ℕ) (built : Result String)
    → Spends is_submit (1 + n) (and_then built (λ tx. ask (Call.submit_tx tx))) (Leaves n)
built-Spends n built =
    subst
      (λ (b : ℕ). Spends is_submit b (and_then built (λ tx. ask (Call.submit_tx tx))) (Leaves n))
      (omega arith) (submitted-Spends n built)

conclude-Spends :
    (h : String) (r : Result String) (n : ℕ) → Spends is_submit n (conclude_swap h r) Any
unfolding conclude_swap
conclude-Spends h (Result.ok tx) n = λ _. tt
conclude-Spends h (Result.err e) n = λ _. tt

settle-Spends :
    (m : SwapMapping) (h : String) (r : Result Invoice) → Spends is_submit 3 (settle_swap m h r) Any
unfolding settle_swap
settle-Spends m h (Result.err e) = λ _. tt
settle-Spends m h (Result.ok invoice) =
    Spends-bind is_submit 3 (submit_fulfillment m h invoice) (conclude_swap h) Any (
      Spends-map is_submit 3 (submit_fulfillment m h invoice) (Leaves 0) _
        (λ r i _. conclude-Spends h r i)
        (submit-Leaves is_submit sleeps (fulfill_context h) 3 15 1
          (build_then_submit (ask (Call.fulfill_invoice invoice m.cardano_address)))
          (λ n built. built-Spends n built) 0))

claimed-Spends : (m : SwapMapping) (h : String) → Spends is_submit 3 (fulfill_claimed m h) Any
unfolding fulfill_claimed
claimed-Spends m h = λ now_ms.
    Spends-if is_submit (ltb_ℤ m.expires_at now_ms) 3 _ _ Any (λ _. tt)
      (Spends-bind is_submit 3 (query_invoice m) (settle_swap m h) Any (
        Spends-map is_submit 3 (query_invoice m) (λ _ i. i ≡ 3) _
          (λ r i e. rw e (settle-Spends m h r))
          (query-Left 24 10 ("LM invoice #" <> show_ℤ m.invoice_id) (find_invoice m.invoice_id) 3)))

fulfill-Spends : (h : String) → Spends is_submit 3 (fulfill_swap h) Any
unfolding fulfill_swap fulfill_found
fulfill-Spends h = elim [
  | none ↦ tt
  | some m ↦ λ claimed. Spends-if is_submit claimed 3 _ (ret tt) Any (claimed-Spends m h) tt
]

-- In every run of `fulfill_swap`, whatever other tasks do in between and whatever the outside world
-- replies, at most three transactions are submitted.
pub fulfill_swap-submits_le :
    (h : String) {es : List Event} {q : Prog Unit}
    → Runs (fulfill_swap h) es q
    → count is_submit es ≤ 3
fulfill_swap-submits_le h run = Runs-Spends is_submit Any 3 run (fulfill-Spends h)
