-- ===== src/Recovery/Clears.antt =====
-- What `recover_depositing_offramps` (src/recovery.rs) leaves behind when it runs alone, before the
-- relay serves requests.
use cardano_lightning_relay.Prelude.{
  ℕ, ◌≤◌, ◌≡◌, refl, ℤ, ==ℤ_iff, String, ◌<>◌, show_ℤ, Bool, true, false, not, ◌&&◌, ◌||◌, Option,
  none, some, List, [], ◌∷◌, map, arith, count, filter, update_where,
}
use cardano_lightning_relay.Types
use cardano_lightning_relay.Types.{Result}
use cardano_lightning_relay.Status.OfframpStatus
use cardano_lightning_relay.Status.OfframpStatus.{OfframpStatus}
use cardano_lightning_relay.Mapping.{OfframpMapping, SwapDb, offramp_has_status, row_to_offramp}
use cardano_lightning_relay.Mapping.Offramp
use cardano_lightning_relay.Mapping.Offramp.{has_id, has_id_in, set_offramp, set_offramp_status}
use cardano_lightning_relay.Runtime.{World, db, for_each, ◌>>◌}
use cardano_lightning_relay.Runtime.Logic.{Ends, Ends-bind, Ends-map, Ends-for_each}
use cardano_lightning_relay.Helpers.Outcome.{Outcome, Ends-query}
use cardano_lightning_relay.Offramp.Settle.{find_offramp}
use cardano_lightning_relay.Recovery.{
  recover_depositing_offramps, recover_verifying, recover_paying, mark_crashed, recover_depositing,
  refulfill_offramp, query_recovery, crash_message, recover_stuck, recover_rest,
}

-- One of the rows of a list has the number of this one.
abbrev listed : List OfframpMapping → OfframpMapping → Bool
listed [] r = false
listed (x ∷ xs) r = has_id x.offramp_id r || listed xs r

-- A row with the status `s` that is not in the list of those still to be handled.
abbrev missed : OfframpStatus → List OfframpMapping → OfframpMapping → Bool
missed s xs r = offramp_has_status s r && not (listed xs r)

module _ (s : OfframpStatus) where
  count-missed-[] :
      (rows : List OfframpMapping) → count (missed s []) rows ≡ count (offramp_has_status s) rows
  count-missed-[] [] = refl
  count-missed-[] (r ∷ rows) = ground (arith, count-missed-[] rows)

  count-missed-cons :
      (x : OfframpMapping) (xs rows : List OfframpMapping)
      → count (missed s (x ∷ xs)) rows ≤ count (missed s xs) rows
  count-missed-cons x xs [] = omega arith
  count-missed-cons x xs (r ∷ rows) = ground (arith, count-missed-cons x xs rows)

  -- The rows that `get_offramps_by_status` returns are all that have the status.
  none-missed :
      (rows : List OfframpMapping)
      → count (missed s (map row_to_offramp (filter (offramp_has_status s) rows))) rows ≡ 0
  unfolding row_to_offramp
  none-missed [] = refl
  none-missed (r ∷ rows) =
      let xs = map row_to_offramp (filter (offramp_has_status s) rows) in
      ground (
        arith,
        none-missed rows,
        count-missed-cons (row_to_offramp r) xs rows,
        ==ℤ_iff r.offramp_id r.offramp_id,
      )

  -- A row that is given another status does not have this one.
  module _ (p : OfframpMapping → Bool) (f : OfframpMapping → OfframpMapping)
      (leaves : (r : OfframpMapping) → offramp_has_status s (f r) ≡ false) where
    count-status-update :
        (rows : List OfframpMapping)
        → count (offramp_has_status s) (update_where p f rows) ≤ count (offramp_has_status s) rows
    count-status-update [] = omega arith
    count-status-update (r ∷ rows) = ground (arith, count-status-update rows, leaves r)

    count-missed-update :
        (xs rows : List OfframpMapping)
        → count (missed s xs) (update_where p f rows) ≤ count (missed s xs) rows
    count-missed-update xs [] = omega arith
    count-missed-update xs (r ∷ rows) = ground (arith, count-missed-update xs rows, leaves r)

  -- The transition of one listed row takes it off the list.
  count-missed-transition :
      (f : OfframpMapping → OfframpMapping)
      → ((r : OfframpMapping) → offramp_has_status s (f r) ≡ false)
      → (x : OfframpMapping) (xs rows : List OfframpMapping)
      → count (missed s xs) (update_where (has_id_in x.offramp_id s) f rows)
        ≤ count (missed s (x ∷ xs)) rows
  unfolding has_id_in
  count-missed-transition f leaves x xs [] = omega arith
  count-missed-transition f leaves x xs (r ∷ rows) =
      ground (arith, count-missed-transition f leaves x xs rows, leaves r)

-- The numbers of the rows that the passes are about.
abbrev verifying : World → ℕ
verifying w = count (offramp_has_status OfframpStatus.pending_verification) w.db.offramps

abbrev paying : World → ℕ
paying w = count (offramp_has_status OfframpStatus.paying_lightning) w.db.offramps

-- What is left to the first loop, and to the second.
abbrev LeftVerifying : List OfframpMapping → World → Type 0
LeftVerifying xs w = count (missed OfframpStatus.pending_verification xs) w.db.offramps ≡ 0

abbrev LeftPaying : List OfframpMapping → World → Type 0
LeftPaying xs w =
    (verifying w ≡ 0) × (count (missed OfframpStatus.paying_lightning xs) w.db.offramps ≡ 0)

abbrev pub Cleared : World → Type 0
Cleared w = (verifying w ≡ 0) × (paying w ≡ 0)

verifying-step :
    (x : OfframpMapping) (xs : List OfframpMapping) (w : World)
    → LeftVerifying (x ∷ xs) w
    → Ends (recover_verifying x) (λ _ w'. LeftVerifying xs w') w
unfolding recover_verifying Offramp.transition_offramp_status offramp_has_status
    OfframpStatus.as_str
verifying-step x xs w i = omega (
  arith,
  i,
  count-missed-transition OfframpStatus.pending_verification
      (set_offramp_status OfframpStatus.awaiting_deposit) (λ r. refl) x xs w.db.offramps,
)

-- The writes of Failed and of Completed.
module _ (i : ℤ) (preimage deposit error : Option String) (rows : List OfframpMapping) where
  failed-keeps :
      (xs : List OfframpMapping)
      → count (offramp_has_status OfframpStatus.pending_verification) rows ≡ 0
      → count (missed OfframpStatus.paying_lightning xs) rows ≡ 0
      → let rows' =
          update_where (has_id i) (set_offramp OfframpStatus.failed preimage deposit error) rows in
        (count (offramp_has_status OfframpStatus.pending_verification) rows' ≡ 0)
        × (count (missed OfframpStatus.paying_lightning xs) rows' ≡ 0)
  unfolding offramp_has_status OfframpStatus.as_str
  failed-keeps xs v p =
      let f = set_offramp OfframpStatus.failed preimage deposit error in
      (
        omega (
          arith,
          v,
          count-status-update OfframpStatus.pending_verification (has_id i) f (λ r. refl) rows,
        ),
        omega (
          arith,
          p,
          count-missed-update OfframpStatus.paying_lightning (has_id i) f (λ r. refl) xs rows,
        ),
      )

  completed-keeps :
      count (offramp_has_status OfframpStatus.pending_verification) rows ≡ 0
      → count (offramp_has_status OfframpStatus.paying_lightning) rows ≡ 0
      → let rows' =
          update_where
            (has_id i)
            (set_offramp OfframpStatus.completed preimage deposit error)
            rows in
        (count (offramp_has_status OfframpStatus.pending_verification) rows' ≡ 0)
        × (count (offramp_has_status OfframpStatus.paying_lightning) rows' ≡ 0)
  unfolding offramp_has_status OfframpStatus.as_str
  completed-keeps v p =
      let f = set_offramp OfframpStatus.completed preimage deposit error in
      (
        omega (
          arith,
          v,
          count-status-update OfframpStatus.pending_verification (has_id i) f (λ r. refl) rows,
        ),
        omega (
          arith,
          p,
          count-status-update OfframpStatus.paying_lightning (has_id i) f (λ r. refl) rows,
        ),
      )

moved-keeps :
    (x : OfframpMapping) (xs rows : List OfframpMapping)
    → count (offramp_has_status OfframpStatus.pending_verification) rows ≡ 0
    → count (missed OfframpStatus.paying_lightning (x ∷ xs)) rows ≡ 0
    → let rows' =
        update_where
          (has_id_in x.offramp_id OfframpStatus.paying_lightning)
          (set_offramp_status OfframpStatus.failed)
          rows in
      (count (offramp_has_status OfframpStatus.pending_verification) rows' ≡ 0)
      × (count (missed OfframpStatus.paying_lightning xs) rows' ≡ 0)
unfolding offramp_has_status OfframpStatus.as_str
moved-keeps x xs rows v p =
    let f = set_offramp_status OfframpStatus.failed in
    (
      omega (
        arith,
        v,
        count-status-update OfframpStatus.pending_verification
            (has_id_in x.offramp_id OfframpStatus.paying_lightning) f (λ r. refl) rows,
      ),
      omega (
        arith,
        p,
        count-missed-transition OfframpStatus.paying_lightning f (λ r. refl) x xs rows,
      ),
    )

mark_crashed-LeftPaying :
    (x : OfframpMapping) (xs : List OfframpMapping) (moved : Bool) (w : World)
    → LeftPaying xs w
    → Ends (mark_crashed x moved) (λ _ w'. LeftPaying xs w') w
unfolding mark_crashed Offramp.update_offramp_status
mark_crashed-LeftPaying x xs false w l = l
mark_crashed-LeftPaying x xs true w l =
    failed-keeps x.offramp_id none none (some crash_message) w.db.offramps xs l.0 l.1

paying-step :
    (x : OfframpMapping) (xs : List OfframpMapping) (w : World)
    → LeftPaying (x ∷ xs) w
    → Ends (recover_paying x) (λ _ w'. LeftPaying xs w') w
unfolding recover_paying Offramp.transition_offramp_status Offramp.update_offramp_status
paying-step x xs w i = mark_crashed-LeftPaying x xs _ _ (moved-keeps x xs w.db.offramps i.0 i.1)

-- A pass over the rows in DepositingToPool writes Completed alone.
refulfill-Cleared :
    (i : ℤ) (r : Result Types.Offramp) (w : World)
    → Cleared w
    → Ends (refulfill_offramp i r) (λ _ w'. Cleared w') w
unfolding refulfill_offramp Offramp.update_offramp_status
refulfill-Cleared i (Result.err e) w c = completed-keeps i none none none w.db.offramps c.0 c.1
refulfill-Cleared i (Result.ok o) w c = elim [
  | Result.err e ↦ c
  | Result.ok raw ↦ elim [
    | Result.err e ↦ c
    | Result.ok tx ↦ completed-keeps i none none none w.db.offramps c.0 c.1
  ]
]

depositing-step :
    (x : OfframpMapping) (w : World)
    → Cleared w
    → Ends (recover_depositing x) (λ _ w'. Cleared w') w
unfolding recover_depositing
depositing-step x w c =
    Ends-bind (query_recovery x) (refulfill_offramp x.offramp_id) (λ _ w'. Cleared w') w
      (Ends-map (query_recovery x) (Outcome Cleared (λ _ _. Unit)) _ w
        (λ r w' o. refulfill-Cleared x.offramp_id r w' o.0)
        (Ends-query Cleared (λ _ _. Unit) (λ _ _ _ kept. kept) 3 5
          ("recovery offramp #" <> show_ℤ x.offramp_id) (find_offramp x.offramp_id) (λ _ _ _ _. tt)
          w c))

all-listed :
    (s : OfframpStatus) (db : SwapDb)
    → count (missed s (Offramp.get_offramps_by_status s db)) db.offramps ≡ 0
unfolding Offramp.get_offramps_by_status
all-listed s db = none-missed s db.offramps

third_loop-Cleared :
    (stuck : List OfframpMapping) (w : World)
    → Cleared w
    → Ends (for_each stuck recover_depositing) (λ _ w'. Cleared w') w
third_loop-Cleared stuck w c =
    Ends-for_each (λ _ w'. Cleared w') recover_depositing (λ x _ w'. depositing-step x w') stuck w c

second_loop-Cleared :
    (found : List OfframpMapping) (w : World)
    → LeftPaying found w
    → Ends (for_each found recover_paying >> recover_stuck) (λ _ w'. Cleared w') w
unfolding recover_stuck
second_loop-Cleared found w left =
    Ends-bind (for_each found recover_paying) (λ _. recover_stuck) (λ _ w'. Cleared w') w
      (Ends-map (for_each found recover_paying) (λ _ w'. LeftPaying [] w') _ w
        (λ _ w' l.
          third_loop-Cleared _ _ (
            l.0,
            omega (arith, l.1, count-missed-[] OfframpStatus.paying_lightning w'.db.offramps),
          ))
        (Ends-for_each LeftPaying recover_paying paying-step found w left))

-- Run alone, before the relay serves requests, `recover_depositing_offramps` ends without a panic,
-- with no offramp left in PendingVerification and none in PayingLightning, whatever the
-- network replies.
pub recover_depositing_offramps-Cleared :
    (w : World) → Ends recover_depositing_offramps (λ _ w'. Cleared w') w
unfolding recover_depositing_offramps recover_rest
recover_depositing_offramps-Cleared w =
    let found = Offramp.get_offramps_by_status OfframpStatus.pending_verification w.db in
    Ends-bind (for_each found recover_verifying) (λ _. recover_rest) (λ _ w'. Cleared w') _
      (Ends-map (for_each found recover_verifying) (λ _ w'. LeftVerifying [] w') _ _
        (λ _ w' left. second_loop-Cleared _ _ (
          omega (arith, left, count-missed-[] OfframpStatus.pending_verification w'.db.offramps),
          all-listed OfframpStatus.paying_lightning w'.db,
        ))
        (Ends-for_each LeftVerifying recover_verifying verifying-step found _
          (all-listed OfframpStatus.pending_verification w.db)))
