-- ===== src/Mapping/Claims.antt =====
-- How the statements on `swap_mappings` move rows out of the status Pending.
use cardano_lightning_relay.Prelude.{
  ℕ, ℤ, ◌+◌, ◌≤◌, ltb, ◌≡◌, refl, String, eq_iff, Bool, true, false, Option, none, some, List, [],
  ◌∷◌, ◌++◌, arith, if◌then◌else◌, count, update_where,
}
use cardano_lightning_relay.Status.SwapStatus.{SwapStatus}
use cardano_lightning_relay.Status.OfframpStatus.{OfframpStatus}
use cardano_lightning_relay.Mapping.{SwapMapping, OfframpMapping, SwapDb}
use cardano_lightning_relay.Mapping.Offramp
use cardano_lightning_relay.Mapping.Onramp
use cardano_lightning_relay.Mapping.Onramp.{has_hash, has_hash_in, set_status}

-- A status that is not Pending.
abbrev pub NotPending : SwapStatus → Type 0
NotPending SwapStatus.pending = ⊥
NotPending _ = Unit

module _ (h : String) (s : SwapStatus) (tx : Option String) (p : SwapMapping → Bool) where
  pub count-has_hash-update :
      (rows : List SwapMapping)
      → count (has_hash h) (update_where p (set_status s tx) rows) ≡ count (has_hash h) rows
  count-has_hash-update [] = refl
  count-has_hash-update (r ∷ rows) = ground (arith, count-has_hash-update rows)

-- A row that is given another status is not pending.
set-NotPending :
    (h : String) (s : SwapStatus) (tx : Option String) (r : SwapMapping)
    → NotPending s
    → has_hash_in h SwapStatus.pending (set_status s tx r) ≡ false
unfolding has_hash_in
set-NotPending h SwapStatus.pending tx r n = elim n [ ]
set-NotPending h s tx r n = ground arith

module _ (h : String) (s : SwapStatus) (tx : Option String) (n : NotPending s) where
  pub count-pending-update :
      (p : SwapMapping → Bool) (rows : List SwapMapping)
      → count (has_hash_in h SwapStatus.pending) (update_where p (set_status s tx) rows)
        ≤ count (has_hash_in h SwapStatus.pending) rows
  count-pending-update p [] = omega arith
  count-pending-update p (r ∷ rows) =
      ground (arith, count-pending-update p rows, set-NotPending h s tx r n)

  -- After the transition of one hash no row of it is pending.
  pub count-pending-claim :
      (rows : List SwapMapping)
      → count
          (has_hash_in h SwapStatus.pending)
          (update_where (has_hash_in h SwapStatus.pending) (set_status s tx) rows)
        ≡ 0
  count-pending-claim [] = refl
  count-pending-claim (r ∷ rows) =
      ground (arith, count-pending-claim rows, set-NotPending h s tx r n)

pub count-append :
    (p : SwapMapping → Bool) (xs ys : List SwapMapping)
    → count p (xs ++ ys) ≡ count p xs + count p ys
count-append p [] ys = omega arith
count-append p (x ∷ xs) ys = ground (arith, count-append p xs ys)

-- A row of that hash and status is a row of that hash.
pub count-has_hash_in-le :
    (h : String) (s : SwapStatus) (rows : List SwapMapping)
    → count (has_hash_in h s) rows ≤ count (has_hash h) rows
unfolding has_hash_in
count-has_hash_in-le h s [] = omega arith
count-has_hash_in-le h s (r ∷ rows) = ground (arith, count-has_hash_in-le h s rows)

has_hash_in-has_hash :
    (h : String) (s : SwapStatus) (r : SwapMapping) → has_hash_in h s r ≡ true → has_hash h r ≡ true
unfolding has_hash_in
has_hash_in-has_hash h s r e = ground arith

-- How many claims of a hash are still to come at most: one, while it has no row or a pending one.
unfoldable pub claims_left : String → SwapDb → ℕ
claims_left h db =
    if ltb 0 (count (has_hash h) db.swaps)
    then (if ltb 0 (count (has_hash_in h SwapStatus.pending) db.swaps) then 1 else 0)
    else 1

pub claims_left-le-one : (h : String) (db : SwapDb) → claims_left h db ≤ 1
unfolding claims_left
claims_left-le-one h db = ground arith

-- No statement gives a claim back.
pub claims_left-insert :
    (h : String) (m : SwapMapping) (db : SwapDb) {db' : SwapDb}
    → Onramp.insert m db ≡ some db'
    → claims_left h db' ≤ claims_left h db
unfolding claims_left Onramp.insert
claims_left-insert h m db e = ground (
  arith,
  count-append (has_hash h) db.swaps (record m { cardano_tx_hash = none } ∷ []),
  count-append (has_hash_in h SwapStatus.pending) db.swaps
      (record m { cardano_tx_hash = none } ∷ []),
  eq_iff m.payment_hash h,
  count-has_hash_in-le h SwapStatus.pending db.swaps,
  has_hash_in-has_hash h SwapStatus.pending (record m { cardano_tx_hash = none }),
)

pub claims_left-update_status :
    (h k : String) (s : SwapStatus) (tx : Option String) (db : SwapDb)
    → NotPending s
    → claims_left h (Onramp.update_status k s tx db) ≤ claims_left h db
unfolding claims_left Onramp.update_status
claims_left-update_status h k s tx db n = ground (
  arith,
  count-has_hash-update h s tx (has_hash k) db.swaps,
  count-pending-update h s tx n (has_hash k) db.swaps,
)

pub claims_left-transition_status :
    (h k : String) (s t : SwapStatus) (tx : Option String) (db : SwapDb)
    → NotPending t
    → claims_left h (Onramp.transition_status k s t tx db).1 ≤ claims_left h db
unfolding claims_left Onramp.transition_status
claims_left-transition_status h k s t tx db n = ground (
  arith,
  count-has_hash-update h t tx (has_hash_in k s) db.swaps,
  count-pending-update h t tx n (has_hash_in k s) db.swaps,
)

-- A transition out of Pending that is applied uses up the claim.
pub claims_left-claim :
    (h : String) (t : SwapStatus) (tx : Option String) (db : SwapDb)
    → NotPending t
    → (Onramp.transition_status h SwapStatus.pending t tx db).0 ≡ true
    → claims_left h (Onramp.transition_status h SwapStatus.pending t tx db).1 + 1 ≡ claims_left h db
unfolding claims_left Onramp.transition_status
claims_left-claim h t tx db n e = ground (
  arith,
  count-has_hash-update h t tx (has_hash_in h SwapStatus.pending) db.swaps,
  count-pending-claim h t tx n db.swaps,
  count-has_hash_in-le h SwapStatus.pending db.swaps,
)

-- The statements on `offramp_mappings` leave the swaps alone.
module _ (h : String) (db : SwapDb) where
  pub claims_left-insert_offramp :
      (m : OfframpMapping) {db' : SwapDb}
      → Offramp.insert_offramp m db ≡ some db'
      → claims_left h db' ≡ claims_left h db
  unfolding claims_left Offramp.insert_offramp
  claims_left-insert_offramp m e = ground arith

  pub claims_left-update_offramp_status :
      (i : ℤ) (s : OfframpStatus) (p d e : Option String)
      → claims_left h (Offramp.update_offramp_status i s p d e db) ≡ claims_left h db
  unfolding claims_left Offramp.update_offramp_status
  claims_left-update_offramp_status i s p d e = refl

  pub claims_left-transition_offramp_status :
      (i : ℤ) (s t : OfframpStatus)
      → claims_left h (Offramp.transition_offramp_status i s t db).1 ≡ claims_left h db
  unfolding claims_left Offramp.transition_offramp_status
  claims_left-transition_offramp_status i s t = refl

  pub claims_left-transition_offramp_with_cbtc_tx :
      (i : ℤ) (tx : String) (s t : OfframpStatus)
      → claims_left h (Offramp.transition_offramp_with_cbtc_tx i tx s t db).1 ≡ claims_left h db
  unfolding claims_left Offramp.transition_offramp_with_cbtc_tx
  claims_left-transition_offramp_with_cbtc_tx i tx s t = refl
