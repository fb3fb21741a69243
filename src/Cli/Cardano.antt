-- ===== src/Cli/Cardano.antt =====
-- src/cli/cardano_cmds.rs: the commands on the Cardano contract. An `Instant` is a number of
-- nanoseconds on the monotone clock. What is printed is left out, but for the result of a command.
pub mod Cancels
pub mod InTime
pub mod Tests
use cardano_lightning_relay.Prelude.{
  ℕ, ◌-◌, ◌*◌, ltb, ℤ, ltb_ℤ, String, ◌<>◌, show_ℤ, Bool, true, false, List, [], ◌∷◌, filter,
  if◌then◌else◌,
}
use cardano_lightning_relay.Types.{Result, State, Invoice, Offramp}
use cardano_lightning_relay.Runtime.{Call, Prog, ret, ask, ◌>>=◌, ◌>>◌}
use cardano_lightning_relay.Helpers.{submit_contract_tx_with_retry}
use cardano_lightning_relay.Swap.{build_then_submit}

abbrev pub retry_attempts : ℕ
retry_attempts = 3

-- In seconds.
abbrev pub retry_delay : ℕ
retry_delay = 15

abbrev pub seq_cancel_delay : ℕ
seq_cancel_delay = 30

-- 180 seconds.
abbrev pub cancel_budget : ℕ
cancel_budget = 180_000_000_000

-- `pool_info` prints the state that it reads.
unfoldable pub pool_info : Prog (Result State)
pool_info = ask Call.query_state

unfoldable pub cardano_deposit : ℤ → Prog (Result String)
cardano_deposit amount =
    submit_contract_tx_with_retry ("Deposit(" <> show_ℤ amount <> ")") retry_attempts retry_delay
      (build_then_submit (ask (Call.deposit amount)))

unfoldable pub cardano_withdraw : ℤ → Prog (Result String)
cardano_withdraw amount =
    submit_contract_tx_with_retry ("Withdraw(" <> show_ℤ amount <> ")") retry_attempts retry_delay
      (build_then_submit (ask (Call.withdraw amount)))

abbrev pub is_ok : {T : Type 0} → Result T → Bool
is_ok (Result.ok t) = true
is_ok (Result.err e) = false

-- The `for` loop that the two cancelling commands share, with what they call for an entry. `last_ok`
-- says whether the entry before was cancelled.
module _ {A : Type 0} (context : A → String) (cancel : A → Prog (Result String)) where
  abbrev pub cancel_one : A → Prog (Result String)
  cancel_one x =
      submit_contract_tx_with_retry (context x) retry_attempts retry_delay
        (build_then_submit (cancel x))

  unfoldable pub cancel_each : List A → ℕ → Bool → Prog Unit
  cancel_each [] start last_ok = ret tt
  cancel_each (x ∷ xs) start last_ok =
      let wait : Prog Unit = if last_ok then ask (Call.sleep seq_cancel_delay) else ret tt in
      let attempt : Prog Unit =
        wait >>= λ _. cancel_one x >>= λ result. cancel_each xs start (is_ok result) in
      ask Call.instant_now >>= λ now. if ltb cancel_budget (now - start) then ret tt else attempt

  -- `if expired.is_empty() { return }`, and the start of the clock.
  unfoldable pub cancel_all : List A → Prog Unit
  unfolding cancel_each
  cancel_all [] = ret tt
  cancel_all (x ∷ xs) = do start ← ask Call.instant_now; cancel_each (x ∷ xs) start false

abbrev pub expired_offramp : ℤ → Offramp → Bool
expired_offramp now_ms o = ltb_ℤ o.expires_at now_ms

abbrev pub offramp_context : Offramp → String
offramp_context o = "CancelOfframp(#" <> show_ℤ o.offramp_id <> ")"

abbrev pub cancel_offramp : Offramp → Prog (Result String)
cancel_offramp o = ask (Call.cancel_offramp o.offramp_id)

-- The command from the state and the time on.
unfoldable pub cancel_expired_offramps_at : State → ℤ → Prog Unit
unfolding cancel_all
cancel_expired_offramps_at state now_ms =
    cancel_all offramp_context cancel_offramp (filter (expired_offramp now_ms) state.offramps)

unfoldable pub cancel_expired_offramps_of : Result State → Prog Unit
unfolding cancel_expired_offramps_at
cancel_expired_offramps_of (Result.err e) = ret tt
cancel_expired_offramps_of (Result.ok state) =
    ask Call.current_timestamp_ms >>= cancel_expired_offramps_at state

unfoldable pub cancel_expired_offramps : Prog Unit
unfolding cancel_expired_offramps_of
cancel_expired_offramps = ask Call.query_state >>= cancel_expired_offramps_of

abbrev pub expired_invoice : ℤ → Invoice → Bool
expired_invoice now_ms i = ltb_ℤ i.expires_at now_ms

abbrev pub invoice_context : Invoice → String
invoice_context i = "CancelInvoice(#" <> show_ℤ i.invoice_id <> ")"

abbrev pub cancel_invoice : Invoice → Prog (Result String)
cancel_invoice i = ask (Call.cancel_invoice i.invoice_id)

unfoldable pub cancel_expired_at : State → ℤ → Prog Unit
unfolding cancel_all
cancel_expired_at state now_ms =
    cancel_all invoice_context cancel_invoice (filter (expired_invoice now_ms) state.invoices)

unfoldable pub cancel_expired_of : Result State → Prog Unit
unfolding cancel_expired_at
cancel_expired_of (Result.err e) = ret tt
cancel_expired_of (Result.ok state) = ask Call.current_timestamp_ms >>= cancel_expired_at state

unfoldable pub cancel_expired : Prog Unit
unfolding cancel_expired_of
cancel_expired = ask Call.query_state >>= cancel_expired_of
