-- ===== src/Offramp/Outcome.antt =====
-- How `complete_offramp` (src/cardano_offramp.rs) ends when it runs alone.
use cardano_lightning_relay.Prelude.{◌≡◌, ◌⊎◌, ℤ, String, true, false, Option, none, some}
use cardano_lightning_relay.Types
use cardano_lightning_relay.Status.OfframpStatus.{OfframpStatus}
use cardano_lightning_relay.Mapping.{OfframpMapping, SwapDb}
use cardano_lightning_relay.Mapping.Offramp
use cardano_lightning_relay.Runtime.{World}
use cardano_lightning_relay.Helpers.Outcome.{Outcome}
use cardano_lightning_relay.Swap.Outcome.{Submitted}

-- The end of an offramp whose pool deposit has begun: Completed with the hash of a transaction that
-- the network has accepted, or Failed with a message; nothing else of the database is changed.
abbrev pub Deposited : ℤ → SwapDb → World → Type 0
Deposited i begun w =
    ((tx : String) × (w.db
        ≡ Offramp.update_offramp_status i OfframpStatus.completed none (some tx) none begun)
      × Submitted tx w.trace)
    ⊎ ((msg : String) × (w.db
          ≡ Offramp.update_offramp_status i OfframpStatus.failed none none (some msg) begun))

module _ (i : ℤ) (begun : SwapDb) where
  abbrev Kept : World → Type 0
  Kept w = w.db ≡ begun

  abbrev Sent : String → World → Type 0
  Sent tx w = Submitted tx w.trace

-- What `complete_offramp` comes to, from the row of the payment hash on.
abbrev pub Finished : String → Option OfframpMapping → SwapDb → World → Type 0
Finished preimage none before w = w.db ≡ before
Finished preimage (some m) before w =
    let (applied, moved) =
      Offramp.transition_offramp_status m.offramp_id OfframpStatus.paying_lightning
        OfframpStatus.depositing_to_pool before in
    ((applied ≡ true)
      × Deposited m.offramp_id
          (Offramp.update_offramp_status m.offramp_id OfframpStatus.depositing_to_pool
            (some preimage) none none moved)
          w)
    ⊎ ((applied ≡ false) × (w.db ≡ moved))
