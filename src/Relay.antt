-- ===== src/Relay.antt =====
-- The tasks of the relay on the swap database: those that the event handler, the REST handlers,
-- the start of the process and the two monitors run (src/events.rs, src/api.rs, src/main.rs). Each
-- may be started at any time and any number of times, and they interleave freely.
pub mod Quiet
pub mod QuietSwaps
pub mod QuietOfframps
pub mod Pending
pub mod Claims
pub mod Keys
use cardano_lightning_relay.Prelude.{ℤ, String}
use cardano_lightning_relay.Libs.{Libs}
use cardano_lightning_relay.Runtime.{Prog, ret, ◌>>=◌}
use cardano_lightning_relay.Swap.{request_swap, store_swap_mapping, fulfill_swap}
use cardano_lightning_relay.Offramp.{request_offramp, process_offramp_deposit}
use cardano_lightning_relay.Offramp.Settle.{complete_offramp, handle_offramp_payment_failed}
use cardano_lightning_relay.Recovery.{recover_fulfilling_swaps, recover_depositing_offramps}
use cardano_lightning_relay.Background.{monitor_expired_swaps, monitor_expired_offramps}

-- The result of a task is for the one who started it.
abbrev pub detach : {A : Type 0} → Prog A → Prog Unit
detach m = m >>= λ _. ret tt

pub data Starts (libs : Libs) : Prog Unit → Type 0 where
  requests_swap :
      (amount : ℤ) (addr : String) (expiry : ℤ)
      → Starts libs (detach (request_swap libs amount addr expiry))
  stores_swap :
      (hash : String) (id amount : ℤ) (addr : String) (expires : ℤ) (tx : String)
      → Starts libs (store_swap_mapping hash id amount addr expires tx)
  fulfills_swap : (hash : String) → Starts libs (fulfill_swap hash)
  requests_offramp :
      (bolt11 : String) (amount : ℤ) (addr : String) (expiry : ℤ)
      → Starts libs (detach (request_offramp libs bolt11 amount addr expiry))
  deposits : (id : ℤ) (tx : String) → Starts libs (detach (process_offramp_deposit libs id tx))
  completes_offramp : (hash preimage : String) → Starts libs (complete_offramp hash preimage)
  fails_offramp : (hash : String) → Starts libs (handle_offramp_payment_failed hash)
  recovers_swaps : Starts libs recover_fulfilling_swaps
  recovers_offramps : Starts libs recover_depositing_offramps
  monitors_swaps : Starts libs monitor_expired_swaps
  monitors_offramps : Starts libs monitor_expired_offramps
