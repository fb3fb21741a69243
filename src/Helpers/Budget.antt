-- ===== src/Helpers/Budget.antt =====
-- What the retry loop of src/helpers.rs spends of a budget, for any kind of event but a sleep.
use mathlib.Core.Path.{subst}
use cardano_lightning_relay.Prelude.{
  ℕ, zero, suc, ◌+◌, ◌-◌, ◌*◌, ◌≤◌, ◌≡◌, arith, ltb, String, Bool, true, false, if◌then◌else◌,
}
use cardano_lightning_relay.Types.{Result}
use cardano_lightning_relay.Runtime.{Call, Event, Prog, ret, ask, ◌>>=◌}
use cardano_lightning_relay.Runtime.Budget.{Spends, Spends-bind, Spends-map, Spends-if}
use cardano_lightning_relay.Helpers.{
  is_retryable_submit_err, wait_before, after_attempt, submit_from, submit_contract_tx_with_retry,
}

-- That much is left of a budget.
abbrev pub Leaves : {A : Type 0} → ℕ → A → ℕ → Type 0
Leaves n a m = n ≤ m

module _ (bad : Event → Bool)
    (sleeps : (secs : ℕ) (u : Unit {0}) → bad (Event.called (Call.sleep secs) u) ≡ false) where
  -- A wait, if there is one, spends nothing.
  pub Spends-wait :
      (waits : Bool) (secs n : ℕ) (K : Unit {0} → ℕ → Type 0)
      → K tt n
      → Spends bad n (if waits then ask (Call.sleep secs) else ret tt) K
  Spends-wait true secs n K h = λ u. rw (sleeps secs u) h
  Spends-wait false secs n K h = h

  -- A task that costs `k` whatever else the budget holds, run on a budget with at least `k + n`.
  pub Spends-rest :
      {A : Type 0} (k n m : ℕ) (p : Prog A)
      → k + n ≤ m
      → ((i : ℕ) → Spends bad (k + i) p (Leaves i))
      → Spends bad m p (Leaves n)
  Spends-rest k n m p le h =
      let split : k + (m - k) ≡ m = omega (arith, le) in
      Spends-map bad m p (Leaves (m - k)) (Leaves n) (λ r i rest. omega (arith, rest, le))
        (subst (λ (b : ℕ). Spends bad b p (Leaves (m - k))) split (h (m - k)))

  module _ {T : Type 0} (context : String) (max_attempts delay cost : ℕ) (body : Prog (Result T))
      (once : (n : ℕ) → Spends bad (cost + n) body (Leaves n)) where
    after-Leaves :
        (again : String → Prog (Result T)) (r : Result T) (n m : ℕ)
        → n ≤ m
        → ((e : String) → Spends bad m (again e) (Leaves n))
        → Spends bad m (after_attempt context max_attempts delay again r) (Leaves n)
    unfolding after_attempt
    after-Leaves again (Result.ok t) n m le h = le
    after-Leaves again (Result.err e) n m le h =
        Spends-if bad (is_retryable_submit_err e) m _ _ (Leaves n) (h e) le

    submit_from-Leaves :
        (left attempt : ℕ) (e : String) (n : ℕ)
        → Spends bad
            (left * cost + n)
            (submit_from context max_attempts delay body left attempt e)
            (Leaves n)
    unfolding submit_from
    submit_from-Leaves zero attempt e n = omega arith
    submit_from-Leaves (suc left) attempt e n =
        let next = submit_from context max_attempts delay body left (suc attempt) in
        let budget = suc left * cost + n in
        let pays : Spends bad budget body (Leaves (left * cost + n)) =
          subst (λ (b : ℕ). Spends bad b body (Leaves (left * cost + n))) (omega arith)
            (once (left * cost + n)) in
        let round : Spends bad budget (body >>= after_attempt context max_attempts delay next)
            (Leaves n) =
          Spends-bind bad budget body (after_attempt context max_attempts delay next) (Leaves n) (
            Spends-map bad budget body (Leaves (left * cost + n)) _
              (λ r m k. after-Leaves next r n m (omega (arith, k)) (λ x.
                Spends-rest (left * cost) n m (next x) k (submit_from-Leaves left (suc attempt) x)))
              pays) in
        Spends-bind bad budget (wait_before delay attempt)
          (λ _. body >>= after_attempt context max_attempts delay next) (Leaves n)
          (Spends-wait (ltb 0 attempt) delay budget
            (λ _ m.
              Spends bad m (body >>= after_attempt context max_attempts delay next) (Leaves n))
            round)

    pub submit-Leaves :
        (n : ℕ)
        → Spends bad
            (max_attempts * cost + n)
            (submit_contract_tx_with_retry context max_attempts delay body)
            (Leaves n)
    unfolding submit_contract_tx_with_retry
    submit-Leaves n = submit_from-Leaves max_attempts 0 "" n
