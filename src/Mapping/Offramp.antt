-- ===== src/Mapping/Offramp.antt =====
-- The statements of `SwapDb` (src/mapping.rs) over `offramp_mappings`, each one step.
use cardano_lightning_relay.Prelude.{
  ℕ, ltb, ℤ, pos, negsuc, ltb_ℤ, leb_ℤ, ◌==ℤ◌, ◌+ℤ◌, String, Option, none, some, Bool, not, ◌&&◌,
  ◌||◌, List, [], ◌∷◌, ◌++◌, map, str_eq, if◌then◌else◌, find, filter, count, update_where, take,
}
use cardano_lightning_relay.Status.OfframpStatus
use cardano_lightning_relay.Status.OfframpStatus.{OfframpStatus}
use cardano_lightning_relay.Mapping.{OfframpMapping, SwapDb, row_to_offramp, offramp_has_status}
use cardano_lightning_relay.Mapping.Onramp.{group_count, as_i64}

-- `offramp_id = ?`
abbrev pub has_id : ℤ → OfframpMapping → Bool
has_id i r = r.offramp_id ==ℤ i

-- The columns that the statement does not name are NULL.
abbrev pub inserted : OfframpMapping → OfframpMapping
inserted m = record m { lightning_preimage = none; deposit_tx_hash = none; error_message = none }

unfoldable pub insert_offramp : OfframpMapping → SwapDb → Option SwapDb
insert_offramp m db =
    if ltb 0 (count (has_id m.offramp_id) db.offramps)
    then none
    else some (record db { offramps = db.offramps ++ inserted m ∷ [] })

abbrev pub first_offramp : (OfframpMapping → Bool) → SwapDb → Option OfframpMapping
unfolding row_to_offramp
first_offramp p db = elim (find p db.offramps) [ none ↦ none | some r ↦ some (row_to_offramp r) ]

unfoldable pub get_offramp_by_id : ℤ → SwapDb → Option OfframpMapping
unfolding row_to_offramp
get_offramp_by_id i db = first_offramp (has_id i) db

unfoldable pub get_offramp_by_payment_hash : String → SwapDb → Option OfframpMapping
unfolding row_to_offramp
get_offramp_by_payment_hash h db = first_offramp (λ r. str_eq r.payment_hash h) db

-- `cbtc_tx_hash = ? AND cbtc_tx_hash != ''`
abbrev pub has_cbtc_tx : String → OfframpMapping → Bool
has_cbtc_tx tx r = str_eq r.cbtc_tx_hash tx && not (str_eq r.cbtc_tx_hash "")

unfoldable pub get_offramp_by_cbtc_tx : String → SwapDb → Option OfframpMapping
unfolding row_to_offramp
get_offramp_by_cbtc_tx tx db = first_offramp (has_cbtc_tx tx) db

-- `COALESCE(?, column)`
abbrev pub coalesce : Option String → Option String → Option String
coalesce none old = old
coalesce (some new) old = some new

abbrev pub set_offramp :
    OfframpStatus → Option String → Option String → Option String → OfframpMapping → OfframpMapping
set_offramp s preimage deposit error r = record r {
  status = s;
  lightning_preimage = coalesce preimage r.lightning_preimage;
  deposit_tx_hash = coalesce deposit r.deposit_tx_hash;
  error_message = coalesce error r.error_message;
}

unfoldable pub update_offramp_status :
    ℤ → OfframpStatus → Option String → Option String → Option String → SwapDb → SwapDb
update_offramp_status i s preimage deposit error db = record db {
  offramps = update_where (has_id i) (set_offramp s preimage deposit error) db.offramps;
}

-- `offramp_id = ? AND status = ?`
unfoldable pub has_id_in : ℤ → OfframpStatus → OfframpMapping → Bool
unfolding offramp_has_status
has_id_in i s r = has_id i r && offramp_has_status s r

abbrev pub set_offramp_status : OfframpStatus → OfframpMapping → OfframpMapping
set_offramp_status s r = record r { status = s }

unfoldable pub transition_offramp_status :
    ℤ → OfframpStatus → OfframpStatus → SwapDb → Bool × SwapDb
unfolding has_id_in
transition_offramp_status i expected new db = (
  ltb 0 (count (has_id_in i expected) db.offramps),
  record db { offramps = update_where (has_id_in i expected) (set_offramp_status new) db.offramps },
)

unfoldable pub update_offramp_cbtc_tx : ℤ → String → SwapDb → SwapDb
update_offramp_cbtc_tx i tx db = record db {
  offramps = update_where (has_id i) (λ r. record r { cbtc_tx_hash = tx }) db.offramps;
}

abbrev pub set_cbtc_tx : String → OfframpStatus → OfframpMapping → OfframpMapping
set_cbtc_tx tx s r = record r { cbtc_tx_hash = tx; status = s }

unfoldable pub transition_offramp_with_cbtc_tx :
    ℤ → String → OfframpStatus → OfframpStatus → SwapDb → Bool × SwapDb
unfolding has_id_in
transition_offramp_with_cbtc_tx i tx expected new db = (
  ltb 0 (count (has_id_in i expected) db.offramps),
  record db { offramps = update_where (has_id_in i expected) (set_cbtc_tx tx new) db.offramps },
)

unfoldable pub is_expired : ℤ → OfframpMapping → Bool
unfolding OfframpStatus.as_str
is_expired now_ms r =
    let s = OfframpStatus.as_str r.status in
    (str_eq s "awaiting_deposit" || str_eq s "failed")
    && ltb_ℤ (pos 0) r.expires_at
    && ltb_ℤ r.expires_at now_ms

unfoldable pub get_expired_offramps : ℤ → SwapDb → List OfframpMapping
unfolding is_expired row_to_offramp
get_expired_offramps now_ms db = map row_to_offramp (filter (is_expired now_ms) db.offramps)

unfoldable pub insert_newest : OfframpMapping → List OfframpMapping → List OfframpMapping
insert_newest r [] = r ∷ []
insert_newest r (x ∷ xs) =
    let rest = insert_newest r xs in
    if leb_ℤ x.created_at r.created_at then r ∷ x ∷ xs else x ∷ rest

unfoldable pub sort_newest : List OfframpMapping → List OfframpMapping
unfolding insert_newest
sort_newest [] = []
sort_newest (x ∷ xs) = insert_newest x (sort_newest xs)

abbrev pub limit_rows : ℤ → List OfframpMapping → List OfframpMapping
limit_rows (pos n) rows = take n rows
limit_rows (negsuc _) rows = rows

unfoldable pub list_recent_offramps : ℤ → SwapDb → List OfframpMapping
unfolding sort_newest row_to_offramp
list_recent_offramps limit db = map row_to_offramp (limit_rows limit (sort_newest db.offramps))

unfoldable pub get_offramp_counts : SwapDb → List (String × ℤ)
unfolding group_count OfframpStatus.as_str
get_offramp_counts db = as_i64 (group_count (map (λ r. OfframpStatus.as_str r.status) db.offramps))

abbrev pub is_active : OfframpMapping → Bool
unfolding OfframpStatus.as_str
is_active r =
    let s = OfframpStatus.as_str r.status in
    str_eq s "awaiting_deposit"
    || str_eq s "pending_verification"
    || str_eq s "paying_lightning"
    || str_eq s "depositing_to_pool"

unfoldable pub count_active_offramps : SwapDb → ℕ
unfolding OfframpStatus.as_str
count_active_offramps db = count is_active db.offramps

unfoldable pub get_offramps_by_status : OfframpStatus → SwapDb → List OfframpMapping
unfolding row_to_offramp offramp_has_status
get_offramps_by_status s db = map row_to_offramp (filter (offramp_has_status s) db.offramps)

abbrev max_id : List OfframpMapping → Option ℤ
max_id [] = none
max_id (r ∷ rs) =
    let m = max_id rs in
    elim m [
      | none ↦ some r.offramp_id
      | some n ↦ some (if ltb_ℤ n r.offramp_id then r.offramp_id else n)
    ]

-- `COALESCE(MAX(offramp_id), 0) + 1`
unfoldable pub next_offramp_id : SwapDb → ℤ
unfolding ◌+ℤ◌
next_offramp_id db = elim (max_id db.offramps) [ none ↦ pos 1 | some n ↦ n +ℤ pos 1 ]
