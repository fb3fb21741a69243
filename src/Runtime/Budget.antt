-- ===== src/Runtime/Budget.antt =====
-- How often a task can do something: a budget that each such event takes one from.
use cardano_lightning_relay.Prelude.{
  ℕ, zero, suc, ◌≤◌, ◌≡◌, refl, Bool, true, false, List, ◌∷◌, arith, if◌then◌else◌, count,
}
use cardano_lightning_relay.Runtime.{Resp, Reply, Event, Prog, ret, panic, act, call, ◌>>=◌}
use cardano_lightning_relay.Runtime.Only.{Runs, stop, acts, calls}

abbrev pub Spend : Bool → ℕ → (ℕ → Type 0) → Type 0
Spend false n X = X n
Spend true zero X = ⊥
Spend true (suc n) X = X n

-- On every path `p` stays within the budget `n`, and ends with `K` of what is left of it.
abbrev pub Spends : {A : Type 0} → (Event → Bool) → ℕ → Prog A → (A → ℕ → Type 0) → Type 0
Spends bad n (ret a) K = K a n
Spends bad n panic K = Unit
Spends bad n (act c k) K =
    (r : Resp c) → Spend (bad (Event.acted c r)) n (λ m. Spends bad m (k r) K)
Spends bad n (call c k) K =
    (r : Reply c) → Spend (bad (Event.called c r)) n (λ m. Spends bad m (k r) K)

Spend-map :
    (b : Bool) (n : ℕ) (X Y : ℕ → Type 0) → ((m : ℕ) → X m → Y m) → Spend b n X → Spend b n Y
Spend-map false n X Y f h = f n h
Spend-map true zero X Y f h = h
Spend-map true (suc n) X Y f h = f n h

module _ (bad : Event → Bool) where
  pub Spends-bind :
      {A B : Type 0} (n : ℕ) (m : Prog A) (f : A → Prog B) (K : B → ℕ → Type 0)
      → Spends bad n m (λ a i. Spends bad i (f a) K)
      → Spends bad n (m >>= f) K
  Spends-bind n (ret a) f K h = h
  Spends-bind n panic f K h = tt
  Spends-bind n (act c k) f K h = λ r.
      Spend-map (bad (Event.acted c r)) n _ (λ i. Spends bad i (k r >>= f) K)
        (λ i x. Spends-bind i (k r) f K x) (h r)
  Spends-bind n (call c k) f K h = λ r.
      Spend-map (bad (Event.called c r)) n _ (λ i. Spends bad i (k r >>= f) K)
        (λ i x. Spends-bind i (k r) f K x) (h r)

  pub Spends-map :
      {A : Type 0} (n : ℕ) (m : Prog A) (J K : A → ℕ → Type 0)
      → ((a : A) (i : ℕ) → J a i → K a i)
      → Spends bad n m J
      → Spends bad n m K
  Spends-map n (ret a) J K f h = f a n h
  Spends-map n panic J K f h = tt
  Spends-map n (act c k) J K f h = λ r.
      Spend-map (bad (Event.acted c r)) n _ (λ i. Spends bad i (k r) K)
        (λ i x. Spends-map i (k r) J K f x) (h r)
  Spends-map n (call c k) J K f h = λ r.
      Spend-map (bad (Event.called c r)) n _ (λ i. Spends bad i (k r) K)
        (λ i x. Spends-map i (k r) J K f x) (h r)

  pub Spends-if :
      {A : Type 0} (b : Bool) (n : ℕ) (p q : Prog A) (K : A → ℕ → Type 0)
      → Spends bad n p K
      → Spends bad n q K
      → Spends bad n (if b then p else q) K
  Spends-if true n p q K hp hq = hp
  Spends-if false n p q K hp hq = hq

  spent :
      (e : Event) (es : List Event) (n : ℕ) (X : ℕ → Type 0)
      → ((m : ℕ) → X m → count bad es ≤ m)
      → (b : Bool) → bad e ≡ b
      → Spend b n X
      → count bad (e ∷ es) ≤ n
  spent e es n X f false is h = ground (arith, is, f n h)
  spent e es zero X f true is h = elim h [ ]
  spent e es (suc n) X f true is h = ground (arith, is, f n h)

  pub Runs-Spends :
      {A : Type 0} {p q : Prog A} {es : List Event} (K : A → ℕ → Type 0) (n : ℕ)
      → Runs p es q
      → Spends bad n p K
      → count bad es ≤ n
  Runs-Spends K n stop h = omega arith
  Runs-Spends K n (acts {c} {k} {es} r run) h =
      spent (Event.acted c r) es n (λ m. Spends bad m (k r) K) (λ m x. Runs-Spends K m run x)
        (bad (Event.acted c r)) refl (h r)
  Runs-Spends K n (calls {c} {k} {es} r run) h =
      spent (Event.called c r) es n (λ m. Spends bad m (k r) K) (λ m x. Runs-Spends K m run x)
        (bad (Event.called c r)) refl (h r)
