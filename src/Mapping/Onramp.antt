-- ===== src/Mapping/Onramp.antt =====
-- The statements of `SwapDb` (src/mapping.rs) over `swap_mappings`. A statement runs under the
-- connection's mutex, so each of these is one step; `none` from an insert is the `expect` that
-- aborts the process.
use cardano_lightning_relay.Prelude.{
  ℕ, suc, ℤ, pos, negsuc, ltb, ltb_ℤ, leb_ℤ, String, Option, none, some, Bool, ◌&&◌, ◌||◌, List, [],
  ◌∷◌, ◌++◌, map, str_eq, if◌then◌else◌, find, filter, count, update_where, take,
}
use cardano_lightning_relay.Status.SwapStatus
use cardano_lightning_relay.Status.SwapStatus.{SwapStatus}
use cardano_lightning_relay.Mapping.{SwapMapping, SwapDb, row_to_swap, swap_has_status}

-- `payment_hash = ?`
abbrev pub has_hash : String → SwapMapping → Bool
has_hash h r = str_eq r.payment_hash h

unfoldable pub insert : SwapMapping → SwapDb → Option SwapDb
insert m db =
    if ltb 0 (count (has_hash m.payment_hash) db.swaps)
    then none
    else some (record db { swaps = db.swaps ++ record m { cardano_tx_hash = none } ∷ [] })

unfoldable pub read_row : Option SwapMapping → Option SwapMapping
unfolding row_to_swap
read_row none = none
read_row (some r) = some (row_to_swap r)

unfoldable pub get_by_payment_hash : String → SwapDb → Option SwapMapping
unfolding read_row
get_by_payment_hash h db = read_row (find (has_hash h) db.swaps)

-- `SET status = ?, cardano_tx_hash = ?`
abbrev pub set_status : SwapStatus → Option String → SwapMapping → SwapMapping
set_status s tx r = record r { status = s; cardano_tx_hash = tx }

unfoldable pub update_status : String → SwapStatus → Option String → SwapDb → SwapDb
update_status h s tx db = record db { swaps = update_where (has_hash h) (set_status s tx) db.swaps }

-- `payment_hash = ? AND status = ?`
unfoldable pub has_hash_in : String → SwapStatus → SwapMapping → Bool
unfolding swap_has_status
has_hash_in h s r = has_hash h r && swap_has_status s r

unfoldable pub transition_status :
    String → SwapStatus → SwapStatus → Option String → SwapDb → Bool × SwapDb
unfolding has_hash_in
transition_status h expected new tx db = (
  ltb 0 (count (has_hash_in h expected) db.swaps),
  record db { swaps = update_where (has_hash_in h expected) (set_status new tx) db.swaps },
)

unfoldable pub get_expired_pending : ℤ → SwapDb → List SwapMapping
unfolding row_to_swap SwapStatus.as_str
get_expired_pending now_ms db = map row_to_swap (
    filter (λ r. str_eq (SwapStatus.as_str r.status) "pending" && ltb_ℤ r.expires_at now_ms)
      db.swaps)

-- `ORDER BY created_at DESC`: a row goes before the first that is not newer than it.
pub insert_newest : SwapMapping → List SwapMapping → List SwapMapping
insert_newest r [] = r ∷ []
insert_newest r (x ∷ xs) =
    let rest = insert_newest r xs in
    if leb_ℤ x.created_at r.created_at then r ∷ x ∷ xs else x ∷ rest

pub sort_newest : List SwapMapping → List SwapMapping
unfolding insert_newest
sort_newest [] = []
sort_newest (x ∷ xs) = insert_newest x (sort_newest xs)

-- `LIMIT ?`: a negative limit is none.
abbrev pub limit_rows : ℤ → List SwapMapping → List SwapMapping
limit_rows (pos n) rows = take n rows
limit_rows (negsuc _) rows = rows

unfoldable pub list_recent_swaps : ℤ → SwapDb → List SwapMapping
unfolding sort_newest row_to_swap
list_recent_swaps limit db = map row_to_swap (limit_rows limit (sort_newest db.swaps))

abbrev pub is_active : SwapMapping → Bool
unfolding SwapStatus.as_str
is_active r =
    str_eq (SwapStatus.as_str r.status) "pending"
    || str_eq (SwapStatus.as_str r.status) "fulfilling"

unfoldable pub count_active_swaps : SwapDb → ℕ
unfolding SwapStatus.as_str
count_active_swaps db = count is_active db.swaps

unfoldable pub get_by_status : SwapStatus → SwapDb → List SwapMapping
unfolding row_to_swap swap_has_status
get_by_status s db = map row_to_swap (filter (swap_has_status s) db.swaps)

-- `GROUP BY status`: one entry for each text, with its number of rows.
abbrev pub bump : String → List (String × ℕ) → List (String × ℕ)
bump s [] = (s, 1) ∷ []
bump s ((t, n) ∷ rest) = if str_eq t s then (t, suc n) ∷ rest else (t, n) ∷ bump s rest

unfoldable pub group_count : List String → List (String × ℕ)
group_count [] = []
group_count (s ∷ ss) = bump s (group_count ss)

-- `COUNT(*)`, which is read as `i64`.
abbrev pub as_i64 : List (String × ℕ) → List (String × ℤ)
as_i64 counts = map (λ (e : String × ℕ). (e.0, pos e.1)) counts

unfoldable pub get_swap_counts : SwapDb → List (String × ℤ)
unfolding group_count SwapStatus.as_str
get_swap_counts db = as_i64 (group_count (map (λ r. SwapStatus.as_str r.status) db.swaps))
