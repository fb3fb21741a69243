-- ===== src/Offramp/Guards.antt =====
-- What stands before a payment of `process_offramp_deposit` and before the pool deposit of
-- `complete_offramp` (src/cardano_offramp.rs), on every path.
use cardano_lightning_relay.Prelude.{
  refl, inl, inr, ℤ, ◌==ℤ◌, ==ℤ_iff, String, str_eq, eq_refl, Bool, true, false, ◌&&◌, Option, none,
  some, List, arith,
}
use cardano_lightning_relay.Types.{Result}
use cardano_lightning_relay.Libs.{Libs}
use cardano_lightning_relay.Status.OfframpStatus.{OfframpStatus}
use cardano_lightning_relay.Mapping.{OfframpMapping}
use cardano_lightning_relay.Runtime.{Cmd, Resp, Call, Reply, Event, Prog}
use cardano_lightning_relay.Runtime.Only.{Precedes, Runs, Runs-Precedes, Guarded}
use cardano_lightning_relay.Offramp.{
  process_offramp_deposit, deposit_unless_used, verify_deposit, verified_offramp, used_by_other,
}
use cardano_lightning_relay.Offramp.Settle.{complete_found, complete_offramp}

abbrev pays_lightning : Call → Bool
pays_lightning (Call.pay_for_bolt11_invoice hash amount) = true
pays_lightning _ = false

-- The node is told to send a Lightning payment.
abbrev pub is_payment : Event → Bool
is_payment (Event.acted c r) = false
is_payment (Event.called c r) = pays_lightning c

abbrev verifies : String → (c : Call) → Reply c → Bool
verifies tx (Call.verify_cbtc_received t amount) (Result.ok received) = received && str_eq t tx
verifies tx _ _ = false

-- The operator is told that the cBTC of `tx` was received.
abbrev pub is_verified : String → Event → Bool
is_verified tx (Event.acted c r) = false
is_verified tx (Event.called c r) = verifies tx c r

abbrev starts_paying : ℤ → String → (c : Cmd) → Resp c → Bool
starts_paying i tx
      (Cmd.transition_offramp_with_cbtc_tx j t OfframpStatus.pending_verification
        OfframpStatus.paying_lightning)
      applied =
    applied && (j ==ℤ i && str_eq t tx)
starts_paying i tx _ _ = false

-- The offramp goes from PendingVerification to PayingLightning, and keeps the transaction.
abbrev pub is_paying : ℤ → String → Event → Bool
is_paying i tx (Event.acted c r) = starts_paying i tx c r
is_paying i tx (Event.called c r) = false

abbrev deposits_to_pool : (c : Cmd) → Resp c → Bool
deposits_to_pool
      (Cmd.transition_offramp_status i OfframpStatus.paying_lightning
        OfframpStatus.depositing_to_pool)
      applied =
    applied
deposits_to_pool _ _ = false

-- An offramp goes from PayingLightning to DepositingToPool.
abbrev pub is_depositing : Event → Bool
is_depositing (Event.acted c r) = deposits_to_pool c r
is_depositing (Event.called c r) = false

abbrev submits : Call → Bool
submits (Call.fulfill_offramp offramp) = true
submits (Call.submit_tx tx) = true
submits _ = false

-- A transaction is built for an offramp, or is submitted.
abbrev pub is_submission : Event → Bool
is_submission (Event.acted c r) = false
is_submission (Event.called c r) = submits c

module _ (libs : Libs) (i : ℤ) (tx : String) where
  verified-Guarded :
      (m : OfframpMapping) (r : Result Bool)
      → Guarded (is_paying i tx) is_payment (verified_offramp libs i tx m r)
  unfolding verified_offramp
  verified-Guarded m (Result.err e) = λ _. inr (refl, tt)
  verified-Guarded m (Result.ok false) = λ _. inr (refl, tt)
  verified-Guarded m (Result.ok true) = elim [
    | true ↦ inl (ground (arith, ==ℤ_iff i i, eq_refl tx))
    | false ↦ inr (refl, tt)
  ]

  deposit-paying :
      (m : OfframpMapping) (o : Option ℤ)
      → Guarded (is_paying i tx) is_payment (deposit_unless_used libs i tx m o)
  unfolding deposit_unless_used verify_deposit
  deposit-paying m (some other) = tt
  deposit-paying m none = elim [
    | true ↦ inr (refl, λ r. inr (refl, verified-Guarded m r))
    | false ↦ inr (refl, tt)
  ]

  deposit-verified :
      (m : OfframpMapping) (o : Option ℤ)
      → Guarded (is_verified tx) is_payment (deposit_unless_used libs i tx m o)
  unfolding deposit_unless_used verify_deposit verified_offramp
  deposit-verified m (some other) = tt
  deposit-verified m none = elim [
    | true ↦ inr (
      refl,
      elim [
        | Result.err e ↦ inr (refl, λ _. inr (refl, tt))
        | Result.ok false ↦ inr (refl, λ _. inr (refl, tt))
        | Result.ok true ↦ inl (eq_refl tx)
      ],
    )
    | false ↦ inr (refl, tt)
  ]

  process-paying : Guarded (is_paying i tx) is_payment (process_offramp_deposit libs i tx)
  unfolding process_offramp_deposit
  process-paying = elim [
    | none ↦ inr (refl, tt)
    | some m ↦ inr (refl, λ existing. inr (refl, deposit-paying m (used_by_other i existing)))
  ]

  process-verified : Guarded (is_verified tx) is_payment (process_offramp_deposit libs i tx)
  unfolding process_offramp_deposit
  process-verified = elim [
    | none ↦ inr (refl, tt)
    | some m ↦ inr (refl, λ existing. inr (refl, deposit-verified m (used_by_other i existing)))
  ]

  -- In every run of `process_offramp_deposit`, whatever other tasks do in between, the Lightning
  -- payment is sent only after this task has moved the offramp from PendingVerification to
  -- PayingLightning with this cBTC transaction.
  pub process_offramp_deposit-moves_first :
      {es : List Event} {q : Prog (Result Unit)}
      → Runs (process_offramp_deposit libs i tx) es q
      → Precedes (is_paying i tx) is_payment es
  process_offramp_deposit-moves_first run =
      Runs-Precedes (is_paying i tx) is_payment run process-paying

  -- In every run of `process_offramp_deposit` the Lightning payment is sent only after the operator
  -- has confirmed that the cBTC of this transaction was received.
  pub process_offramp_deposit-verifies_first :
      {es : List Event} {q : Prog (Result Unit)}
      → Runs (process_offramp_deposit libs i tx) es q
      → Precedes (is_verified tx) is_payment es
  process_offramp_deposit-verifies_first run =
      Runs-Precedes (is_verified tx) is_payment run process-verified

complete-Guarded : (h p : String) → Guarded is_depositing is_submission (complete_offramp h p)
unfolding complete_offramp complete_found
complete-Guarded h p = elim [
  | none ↦ inr (refl, tt)
  | some m ↦ inr (refl, elim [ true ↦ inl refl | false ↦ inr (refl, tt) ])
]

-- In every run of `complete_offramp` a transaction is built or submitted only after this task has
-- moved an offramp from PayingLightning to DepositingToPool.
pub complete_offramp-moves_first :
    (h p : String) {es : List Event} {q : Prog Unit}
    → Runs (complete_offramp h p) es q
    → Precedes is_depositing is_submission es
complete_offramp-moves_first h p run =
    Runs-Precedes is_depositing is_submission run (complete-Guarded h p)
