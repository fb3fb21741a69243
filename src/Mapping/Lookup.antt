-- ===== src/Mapping/Lookup.antt =====
-- What a swap's row is after each statement of src/mapping.rs that writes one.
use cardano_lightning_relay.Prelude.{
  ◌≤◌, ◌≡◌, ◌≢◌, ◌∙◌, sym, ap, refl, inl, inr, String, str_eq, eq_iff, eq_refl, Bool, true, false,
  Bool-cases, Option, none, some, List, [], ◌∷◌, ◌++◌, arith, count, find, update_where,
}
use cardano_lightning_relay.Status.SwapStatus
use cardano_lightning_relay.Status.SwapStatus.{SwapStatus}
use cardano_lightning_relay.Status.RoundTrip.{from_str-as_str, as_str-inj}
use cardano_lightning_relay.Mapping.{SwapMapping, SwapDb, row_to_swap, swap_has_status}
use cardano_lightning_relay.Mapping.Onramp.{
  has_hash, has_hash_in, insert, read_row, get_by_payment_hash, set_status, update_status,
  transition_status,
}

-- A row is read back as it was written.
row_to_swap-id : (r : SwapMapping) → row_to_swap r ≡ r
unfolding row_to_swap
row_to_swap-id r = ap (λ s. record r { status = s }) (from_str-as_str r.status)

read_row-id : (o : Option SwapMapping) → read_row o ≡ o
unfolding read_row
read_row-id none = refl
read_row-id (some r) = ap some (row_to_swap-id r)

pub get-find : (h : String) (db : SwapDb) → get_by_payment_hash h db ≡ find (has_hash h) db.swaps
unfolding get_by_payment_hash
get-find h db = read_row-id (find (has_hash h) db.swaps)

find-append-new :
    (h : String) (m : SwapMapping) (rows : List SwapMapping)
    → has_hash h m ≡ true
    → count (has_hash h) rows ≡ 0
    → find (has_hash h) (rows ++ m ∷ []) ≡ some m
find-append-new h m [] e c = ground arith
find-append-new h m (r ∷ rows) e c = ground (arith, find-append-new h m rows e)

find-append-other :
    (h : String) (m : SwapMapping) (rows : List SwapMapping)
    → has_hash h m ≡ false
    → find (has_hash h) (rows ++ m ∷ []) ≡ find (has_hash h) rows
find-append-other h m [] e = ground arith
find-append-other h m (r ∷ rows) e = ground (arith, find-append-other h m rows e)

-- When `insert` goes through, the new swap is found by its payment hash, without a transaction yet,
-- and what any other payment hash finds is unchanged.
pub get_by_payment_hash-insert :
    (m : SwapMapping) (db : SwapDb) {db' : SwapDb}
    → insert m db ≡ some db'
    → (get_by_payment_hash m.payment_hash db' ≡ some (record m { cardano_tx_hash = none }))
      × ((h : String)
          → str_eq m.payment_hash h ≡ false
          → get_by_payment_hash h db' ≡ get_by_payment_hash h db)
unfolding insert
get_by_payment_hash-insert m db {db'} e =
    let new = record m { cardano_tx_hash = none } in
    (
      ground (
        arith,
        get-find m.payment_hash db',
        find-append-new m.payment_hash new db.swaps,
        eq_refl m.payment_hash,
      ),
      λ h ne. ground (arith, get-find h db', get-find h db, find-append-other h new db.swaps ne),
    )

module _ (h : String) (s : SwapStatus) (tx : Option String) where
  find-update :
      (rows : List SwapMapping) (r : SwapMapping)
      → find (has_hash h) rows ≡ some r
      → find (has_hash h) (update_where (has_hash h) (set_status s tx) rows)
        ≡ some (set_status s tx r)
  find-update [] r e = ground arith
  find-update (x ∷ rows) r e = ground (arith, find-update rows r)

  find-update-other :
      (p : SwapMapping → Bool) (k : String) (rows : List SwapMapping)
      → ((x : SwapMapping) → has_hash k x ≡ true → p x ≡ false)
      → find (has_hash k) (update_where p (set_status s tx) rows) ≡ find (has_hash k) rows
  find-update-other p k [] f = refl
  find-update-other p k (x ∷ rows) f = ground (arith, find-update-other p k rows f, f x)

  find-transition :
      (expected : SwapStatus) (rows : List SwapMapping) (r : SwapMapping)
      → find (has_hash h) rows ≡ some r
      → swap_has_status expected r ≡ true
      → find (has_hash h) (update_where (has_hash_in h expected) (set_status s tx) rows)
        ≡ some (set_status s tx r)
  unfolding has_hash_in
  find-transition expected [] r e is = ground arith
  find-transition expected (x ∷ rows) r e is = ground (arith, find-transition expected rows r)

-- A row whose hash is unique and whose status is another one is not touched by a transition.
module _ (h : String) (s t : SwapStatus) (tx : Option String) where
  update-none :
      (rows : List SwapMapping)
      → count (has_hash_in h s) rows ≡ 0
      → update_where (has_hash_in h s) (set_status t tx) rows ≡ rows
  update-none [] c = refl
  update-none (x ∷ rows) c = ground (arith, update-none rows)

  count-find :
      (rows : List SwapMapping) (r : SwapMapping)
      → find (has_hash h) rows ≡ some r
      → swap_has_status s r ≡ true
      → 1 ≤ count (has_hash_in h s) rows
  unfolding has_hash_in
  count-find [] r e is = ground arith
  count-find (x ∷ rows) r e is = ground (arith, count-find rows r)

  count-none :
      (rows : List SwapMapping) → count (has_hash h) rows ≡ 0 → count (has_hash_in h s) rows ≡ 0
  unfolding has_hash_in
  count-none [] c = refl
  count-none (x ∷ rows) c = ground (arith, count-none rows)

  count-find-not :
      (rows : List SwapMapping) (r : SwapMapping)
      → find (has_hash h) rows ≡ some r
      → count (has_hash h) rows ≤ 1
      → swap_has_status s r ≡ false
      → count (has_hash_in h s) rows ≡ 0
  unfolding has_hash_in
  count-find-not [] r e c is = refl
  count-find-not (x ∷ rows) r e c is = ground (arith, count-find-not rows r, count-none rows)

find-none :
    (h : String) (rows : List SwapMapping)
    → find (has_hash h) rows ≡ none
    → count (has_hash h) rows ≡ 0
find-none h [] e = refl
find-none h (x ∷ rows) e = ground (arith, find-none h rows)

-- A transition of a payment hash that has no row is not applied.
pub transition-missing :
    (h : String) (s t : SwapStatus) (tx : Option String) (db : SwapDb)
    → get_by_payment_hash h db ≡ none
    → (transition_status h s t tx db).0 ≡ false
unfolding transition_status
transition-missing h s t tx db e =
    ground (arith, count-none h s t tx db.swaps (find-none h db.swaps (sym (get-find h db) ∙ e)))

-- A transition that is not applied changes nothing.
pub transition-refused :
    (h : String) (s t : SwapStatus) (tx : Option String) (db : SwapDb)
    → (transition_status h s t tx db).0 ≡ false
    → (transition_status h s t tx db).1 ≡ db
unfolding transition_status
transition-refused h s t tx db e =
    ap (λ rows. record db { swaps = rows }) (update-none h s t tx db.swaps (ground arith))

status-is : (s : SwapStatus) (r : SwapMapping) → r.status ≡ s → swap_has_status s r ≡ true
unfolding swap_has_status
status-is s r e = rw e (eq_refl (SwapStatus.as_str s))

status-is-not : (s : SwapStatus) (r : SwapMapping) → r.status ≢ s → swap_has_status s r ≡ false
unfolding swap_has_status
status-is-not s r ne = elim (Bool-cases (swap_has_status s r)) [
  | inl same ↦ absurd (
      ne (
        as_str-inj r.status s ((eq_iff (SwapStatus.as_str r.status) (SwapStatus.as_str s)).0 same)))
  | inr other ↦ other
]

not-hash :
    (h k : String)
    → str_eq k h ≡ false
    → (x : SwapMapping) → has_hash k x ≡ true
    → has_hash h x ≡ false
not-hash h k ne x e = ground (arith, eq_iff x.payment_hash k)

not-hash-in :
    (h k : String) (s : SwapStatus)
    → str_eq k h ≡ false
    → (x : SwapMapping) → has_hash k x ≡ true
    → has_hash_in h s x ≡ false
unfolding has_hash_in
not-hash-in h k s ne x e = ground (arith, not-hash h k ne x e)

-- For a payment hash with one row, a transition from the row's own status is applied, and the row is
-- then the old one but for its status and its transaction, which are the new ones; a transition from any other status is not applied and
-- changes nothing at all. What another payment hash finds is unchanged.
pub transition_status-lookup :
    (h : String) (expected new : SwapStatus) (tx : Option String) (db : SwapDb) (r : SwapMapping)
    → count (has_hash h) db.swaps ≤ 1
    → get_by_payment_hash h db ≡ some r
    → let (applied, after) = transition_status h expected new tx db in
      (r.status ≡ expected
        → (applied ≡ true)
          × (get_by_payment_hash h after ≡ some (record r { status = new; cardano_tx_hash = tx })))
      × (r.status ≢ expected → (applied ≡ false) × (after ≡ db))
      × ((k : String) → str_eq k h ≡ false → get_by_payment_hash k after ≡ get_by_payment_hash k db)
unfolding transition_status
transition_status-lookup h expected new tx db r one found =
    let row = sym (get-find h db) ∙ found in
    let after = (transition_status h expected new tx db).1 in
    (
      λ is.
          let st = status-is expected r is in
          (
            ground (arith, count-find h expected new tx db.swaps r row st),
            get-find h after ∙ find-transition h new tx expected db.swaps r row st,
          ),
      λ is_not.
          let c =
            count-find-not h expected new tx db.swaps r row one (status-is-not expected r is_not) in
          (
            ground (arith, c),
            ap (λ rows. record db { swaps = rows }) (update-none h expected new tx db.swaps c),
          ),
      λ k ne.
          get-find k after
          ∙ find-update-other h new tx (has_hash_in h expected) k db.swaps
              (not-hash-in h k expected ne)
          ∙ sym (get-find k db),
    )

-- For a payment hash with a row, `update_status` writes the status and the transaction, the missing
-- one included, and leaves the rest of the row; what another payment hash finds is unchanged.
pub update_status-lookup :
    (h : String) (new : SwapStatus) (tx : Option String) (db : SwapDb) (r : SwapMapping)
    → get_by_payment_hash h db ≡ some r
    → (get_by_payment_hash h (update_status h new tx db)
        ≡ some (record r { status = new; cardano_tx_hash = tx }))
      × ((k : String)
          → str_eq k h ≡ false
          → get_by_payment_hash k (update_status h new tx db) ≡ get_by_payment_hash k db)
unfolding update_status
update_status-lookup h new tx db r found =
    let after = update_status h new tx db in
    (
      get-find h after ∙ find-update h new tx db.swaps r (sym (get-find h db) ∙ found),
      λ k ne.
          get-find k after
          ∙ find-update-other h new tx (has_hash h) k db.swaps (not-hash h k ne)
          ∙ sym (get-find k db),
    )
