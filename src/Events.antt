-- ===== src/Events.antt =====
-- The payment events of `handle_ldk_events` (src/events.rs). `configured` says whether the relay
-- was started with a swap database and an operator. A handler returns the task that it spawns, if
-- it spawns one.
pub mod Channels
use cardano_lightning_relay.Prelude.{ℕ, String, Option, none, some, Bool, true, false}
use cardano_lightning_relay.Runtime.{Cmd, Call, Prog, ret, db, ask, unwrap, ◌>>=◌, ◌>>◌}
use cardano_lightning_relay.Payments.{write_outbound}
use cardano_lightning_relay.Swap.{fulfill_swap}
use cardano_lightning_relay.Offramp.Settle.{complete_offramp, handle_offramp_payment_failed}

-- What `tokio::spawn` is called on.
pub data Spawned : Type 0 where
  fulfills : String → Spawned
  completes : String → String → Spawned
  fails : String → Spawned

unfoldable pub task_of : Spawned → Prog Unit
task_of (Spawned.fulfills h) = fulfill_swap h
task_of (Spawned.completes h p) = complete_offramp h p
task_of (Spawned.fails h) = handle_offramp_payment_failed h

-- `PaymentPurpose`: the preimage and the secret that the kinds of payment carry.
pub data Purpose : Type 0 where
  bolt11_invoice : Option String → String → Purpose
  bolt12_offer : Option String → String → Purpose
  bolt12_refund : Option String → String → Purpose
  spontaneous : String → Purpose

abbrev pub preimage_of : Purpose → Option String
preimage_of (Purpose.bolt11_invoice p s) = p
preimage_of (Purpose.bolt12_offer p s) = p
preimage_of (Purpose.bolt12_refund p s) = p
preimage_of (Purpose.spontaneous p) = some p

abbrev pub secret_of : Purpose → Option String
secret_of (Purpose.bolt11_invoice p s) = some s
secret_of (Purpose.bolt12_offer p s) = some s
secret_of (Purpose.bolt12_refund p s) = some s
secret_of (Purpose.spontaneous p) = none

abbrev spawn_if_found : {A : Type 0} → Spawned → Option A → Option Spawned
spawn_if_found task none = none
spawn_if_found task (some a) = some task

-- `PaymentClaimable`: the preimage to hand to `claim_funds`, if there is one.
unfoldable pub payment_claimable : Purpose → Option String
payment_claimable purpose = preimage_of purpose

unfoldable pub payment_claimed : Bool → String → Purpose → ℕ → Prog (Option Spawned)
payment_claimed configured payment_hash purpose amount_msat = do
  db (Cmd.claim_inbound payment_hash (preimage_of purpose) (secret_of purpose) amount_msat)
  written ← ask Call.write_inbound_payments
  _ ← unwrap written
  elim configured [
    | false ↦ ret none
    | true ↦ do
      found ← db (Cmd.get_by_payment_hash payment_hash)
      ret (spawn_if_found (Spawned.fulfills payment_hash) found)
  ]

unfoldable pub payment_sent : Bool → Option String → String → String → Prog (Option Spawned)
payment_sent configured none payment_hash preimage = ret none
payment_sent configured (some payment_id) payment_hash preimage = do
  db (Cmd.succeed_outbound payment_id preimage)
  write_outbound
  elim configured [
    | false ↦ ret none
    | true ↦ do
      found ← db (Cmd.get_offramp_by_payment_hash payment_hash)
      ret (spawn_if_found (Spawned.completes payment_hash preimage) found)
  ]

-- `(&swap_db, &payment_hash, &operator_agent)`, all three there.
abbrev spawn_failed : Bool → Option String → Option Spawned
spawn_failed true (some hash) = some (Spawned.fails hash)
spawn_failed _ _ = none

unfoldable pub payment_failed : Bool → String → Option String → Prog (Option Spawned)
payment_failed configured payment_id payment_hash = do
  db (Cmd.fail_outbound payment_id)
  write_outbound
  ret (spawn_failed configured payment_hash)
