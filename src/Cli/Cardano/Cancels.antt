-- ===== src/Cli/Cardano/Cancels.antt =====
-- Which entries the cancelling commands of src/cli/cardano_cmds.rs touch, and how often.
use mathlib.Core.Path.{subst}
use cardano_lightning_relay.Prelude.{
  ℕ, suc, ◌+◌, ◌-◌, ◌*◌, ◌≤◌, ◌≡◌, refl, arith, ltb, String, ℤ, ◌==ℤ◌, ==ℤ_iff, Bool, true, false,
  not, ◌&&◌, List, [], ◌∷◌, All, length, count, filter, if◌then◌else◌,
}
use cardano_lightning_relay.Types.{Result, State}
use cardano_lightning_relay.Runtime.{Call, Event, Prog, ret, ask, and_then, ◌>>=◌}
use cardano_lightning_relay.Runtime.Only.{Runs}
use cardano_lightning_relay.Runtime.Budget.{Spends, Spends-bind, Spends-map, Spends-if, Runs-Spends}
use cardano_lightning_relay.Helpers.Budget.{Leaves, Spends-wait, Spends-rest, submit-Leaves}
use cardano_lightning_relay.Swap.{build_then_submit}
use cardano_lightning_relay.Swap.Submissions.{is_submit, built-Spends, sleeps}
use cardano_lightning_relay.Cli.Cardano.{
  seq_cancel_delay, cancel_budget, is_ok, cancel_one, cancel_each, cancel_all,
  cancel_expired_offramps_at, cancel_expired_at, expired_offramp, expired_invoice, offramp_context,
  invoice_context, cancel_offramp, cancel_invoice,
}

-- The two loops, for any kind of event that costs `cost` in one attempt at an entry.
module _ (bad : Event → Bool)
    (sleeps : (secs : ℕ) (u : Unit {0}) → bad (Event.called (Call.sleep secs) u) ≡ false)
    (clock : (now : ℕ) → bad (Event.called Call.instant_now now) ≡ false) (cost : ℕ) {A : Type 0}
    (context : A → String) (cancel : A → Prog (Result String)) where
  -- The attempt at an entry stays within its cost.
  abbrev pub IsWithin : A → Type 0
  IsWithin x = (n : ℕ) → Spends bad (cost + n) (build_then_submit (cancel x)) (Leaves n)

  cancel_each-Leaves :
      (xs : List A) (start : ℕ) (last_ok : Bool) (n : ℕ)
      → All IsWithin xs
      → Spends bad
          (length xs * (3 * cost) + n)
          (cancel_each context cancel xs start last_ok)
          (Leaves n)
  unfolding cancel_each
  cancel_each-Leaves [] start last_ok n h = omega arith
  cancel_each-Leaves (x ∷ xs) start last_ok n h = λ now.
      let budget = suc (length xs) * (3 * cost) + n in
      let left = length xs * (3 * cost) + n in
      let pays : Spends bad budget (cancel_one context cancel x) (Leaves left) =
        subst (λ (b : ℕ). Spends bad b (cancel_one context cancel x) (Leaves left)) (omega arith)
          (submit-Leaves bad sleeps (context x) 3 15 cost (build_then_submit (cancel x)) h.0
            left) in
      let next = λ (result : Result String). cancel_each context cancel xs start (is_ok result) in
      let attempt : Spends bad budget (cancel_one context cancel x >>= next) (Leaves n) =
        Spends-bind bad budget (cancel_one context cancel x) next (Leaves n) (
          Spends-map bad budget (cancel_one context cancel x) (Leaves left) _
            (λ r m k.
              Spends-rest bad sleeps (length xs * (3 * cost)) n m (next r) k
                (λ i. cancel_each-Leaves xs start (is_ok r) i h.1))
            pays) in
      rw (clock now) (
        Spends-if bad (ltb cancel_budget (now - start)) budget (ret tt) _ (Leaves n) (omega arith) (
          Spends-bind bad budget (if last_ok then ask (Call.sleep seq_cancel_delay) else ret tt)
            (λ _. cancel_one context cancel x >>= next) (Leaves n)
            (Spends-wait bad sleeps last_ok seq_cancel_delay budget
              (λ _ m. Spends bad m (cancel_one context cancel x >>= next) (Leaves n)) attempt)))

  cancel_all-Leaves :
      (xs : List A)
      → All IsWithin xs
      → Spends bad (length xs * (3 * cost)) (cancel_all context cancel xs) (Leaves 0)
  unfolding cancel_all
  cancel_all-Leaves [] h = omega arith
  cancel_all-Leaves (x ∷ xs) h = λ start.
      let budget = length (x ∷ xs) * (3 * cost) in
      rw (clock start) (
        subst (λ (b : ℕ). Spends bad b (cancel_each context cancel (x ∷ xs) start false) (Leaves 0))
          (omega arith) (cancel_each-Leaves (x ∷ xs) start false 0 h))

All-map :
    {A : Type 0} {P Q : A → Type 0} → ((x : A) → P x → Q x) → (xs : List A) → All P xs → All Q xs
All-map f [] h = tt
All-map f (x ∷ xs) h = (f x h.0, All-map f xs h.1)

every : {A : Type 0} {P : A → Type 0} → ((x : A) → P x) → (xs : List A) → All P xs
every f [] = tt
every f (x ∷ xs) = (f x, every f xs)

All-if :
    {A : Type 0} (b : Bool) (P : A → Type 0) (x : A) (xs : List A)
    → (b ≡ true → P x)
    → All P xs
    → All P (if b then x ∷ xs else xs)
All-if true P x xs hx h = (hx refl, h)
All-if false P x xs hx h = h

-- An entry of a list of the chain with that id has expired.
module _ {A : Type 0} (expired : A → Bool) (id : A → ℤ) where
  abbrev pub is_due : List A → ℤ → Bool
  is_due xs i = ltb 0 (count (λ x. expired x && id x ==ℤ i) xs)

  due_more : (y : A) (ys : List A) (i : ℤ) → is_due ys i ≡ true → is_due (y ∷ ys) i ≡ true
  due_more y ys i h = ground arith

  filter-is_due : (xs : List A) → All (λ x. is_due xs (id x) ≡ true) (filter expired xs)
  filter-is_due [] = tt
  filter-is_due (x ∷ xs) =
      All-if (expired x) (λ y. is_due (x ∷ xs) (id y) ≡ true) x (filter expired xs)
        (λ e. ground (arith, e, ==ℤ_iff (id x) (id x)))
        (All-map (λ y h. due_more x xs (id y) h) (filter expired xs) (filter-is_due xs))

  length-filter_le : (xs : List A) → length (filter expired xs) ≤ length xs
  length-filter_le [] = omega arith
  length-filter_le (x ∷ xs) = ground (arith, length-filter_le xs)

-- A call of some kind.
abbrev pub is_call : (Call → Bool) → Event → Bool
is_call kind (Event.acted c r) = false
is_call kind (Event.called c r) = kind c

-- A cancellation of anything but an expired offramp of the state, or of anything but an expired
-- invoice, is built.
abbrev pub other_than_offramp : State → ℤ → Call → Bool
other_than_offramp state now_ms (Call.cancel_offramp i) =
    not (is_due (expired_offramp now_ms) (λ o. o.offramp_id) state.offramps i)
other_than_offramp state now_ms (Call.cancel_invoice i) = true
other_than_offramp state now_ms _ = false

abbrev pub other_than_invoice : State → ℤ → Call → Bool
other_than_invoice state now_ms (Call.cancel_invoice i) =
    not (is_due (expired_invoice now_ms) (λ v. v.invoice_id) state.invoices i)
other_than_invoice state now_ms (Call.cancel_offramp i) = true
other_than_invoice state now_ms _ = false

-- Submitting what was built is of no such kind.
module _ (kind : Call → Bool) (submits : (tx : String) → kind (Call.submit_tx tx) ≡ false) where
  quiet-Leaves :
      (n : ℕ) (r : Result String)
      → Spends (is_call kind) n (and_then r (λ tx. ask (Call.submit_tx tx))) (Leaves n)
  quiet-Leaves n (Result.ok tx) = λ u. rw (submits tx) (omega arith)
  quiet-Leaves n (Result.err e) = omega arith

  quiet-IsWithin :
      (p : Prog (Result String))
      → ((n : ℕ) → Spends (is_call kind) n (build_then_submit p) (Leaves n))
      → (n : ℕ) → Spends (is_call kind) (0 + n) (build_then_submit p) (Leaves n)
  quiet-IsWithin p h n =
      subst (λ (b : ℕ). Spends (is_call kind) b (build_then_submit p) (Leaves n)) (omega arith)
        (h n)

-- From the state and the time that it reads on, `cancel-expired-offramps` builds cancellations of
-- offramps only that the state holds and that have expired by then, and submits at most three
-- transactions for each of them, whatever the outside world replies.
pub cancel_expired_offramps_at-only_expired :
    (state : State) (now_ms : ℤ) {es : List Event} {q : Prog Unit}
    → Runs (cancel_expired_offramps_at state now_ms) es q
    → (count (is_call (other_than_offramp state now_ms)) es ≡ 0)
      × (count is_submit es ≤ 3 * length (filter (expired_offramp now_ms) state.offramps))
unfolding cancel_expired_offramps_at
cancel_expired_offramps_at-only_expired state now_ms run =
    let other = other_than_offramp state now_ms in
    let xs = filter (expired_offramp now_ms) state.offramps in
    let none_other = Runs-Spends (is_call other) (Leaves 0) (length xs * (3 * 0)) run (
      cancel_all-Leaves (is_call other) (λ secs u. refl) (λ now. refl) 0 offramp_context
        cancel_offramp xs
        (All-map
          (λ o due.
            quiet-IsWithin other (λ tx. refl) (cancel_offramp o)
              (λ n r. rw due (quiet-Leaves other (λ tx. refl) n r)))
          xs (filter-is_due (expired_offramp now_ms) (λ o. o.offramp_id) state.offramps))) in
    let few = Runs-Spends is_submit (Leaves 0) (length xs * (3 * 1)) run (
      cancel_all-Leaves is_submit sleeps (λ now. refl) 1 offramp_context cancel_offramp xs
        (every (λ o n built. built-Spends n built) xs)) in
    (omega (arith, none_other), omega (arith, few))

-- From the state and the time that it reads on, `cancel-expired` builds cancellations of invoices only
-- that the state holds and that have expired by then, and submits at most three transactions for each
-- of them, whatever the outside world replies.
pub cancel_expired_at-only_expired :
    (state : State) (now_ms : ℤ) {es : List Event} {q : Prog Unit}
    → Runs (cancel_expired_at state now_ms) es q
    → (count (is_call (other_than_invoice state now_ms)) es ≡ 0)
      × (count is_submit es ≤ 3 * length (filter (expired_invoice now_ms) state.invoices))
unfolding cancel_expired_at
cancel_expired_at-only_expired state now_ms run =
    let other = other_than_invoice state now_ms in
    let xs = filter (expired_invoice now_ms) state.invoices in
    let none_other = Runs-Spends (is_call other) (Leaves 0) (length xs * (3 * 0)) run (
      cancel_all-Leaves (is_call other) (λ secs u. refl) (λ now. refl) 0 invoice_context
        cancel_invoice xs
        (All-map
          (λ v due.
            quiet-IsWithin other (λ tx. refl) (cancel_invoice v)
              (λ n r. rw due (quiet-Leaves other (λ tx. refl) n r)))
          xs (filter-is_due (expired_invoice now_ms) (λ v. v.invoice_id) state.invoices))) in
    let few = Runs-Spends is_submit (Leaves 0) (length xs * (3 * 1)) run (
      cancel_all-Leaves is_submit sleeps (λ now. refl) 1 invoice_context cancel_invoice xs
        (every (λ v n built. built-Spends n built) xs)) in
    (omega (arith, none_other), omega (arith, few))
