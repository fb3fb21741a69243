-- ===== src/Status/OfframpStatus.antt =====
-- `OfframpStatus` of src/mapping.rs and its two conversions with the text of the column.
use cardano_lightning_relay.Prelude.{String, str_eq, if◌then◌else◌}

pub data OfframpStatus : Type 0 where
  awaiting_deposit pending_verification paying_lightning : OfframpStatus
  depositing_to_pool completed failed : OfframpStatus

unfoldable pub as_str : OfframpStatus → String
as_str OfframpStatus.awaiting_deposit = "awaiting_deposit"
as_str OfframpStatus.pending_verification = "pending_verification"
as_str OfframpStatus.paying_lightning = "paying_lightning"
as_str OfframpStatus.depositing_to_pool = "depositing_to_pool"
as_str OfframpStatus.completed = "completed"
as_str OfframpStatus.failed = "failed"

unfoldable pub from_str : String → OfframpStatus
from_str s =
    if str_eq s "awaiting_deposit"
    then OfframpStatus.awaiting_deposit
    else if str_eq s "pending_verification"
    then OfframpStatus.pending_verification
    else if str_eq s "paying_lightning"
    then OfframpStatus.paying_lightning
    else if str_eq s "depositing_to_pool"
    then OfframpStatus.depositing_to_pool
    else if str_eq s "completed"
    then OfframpStatus.completed
    else if str_eq s "failed"
    then OfframpStatus.failed
    else OfframpStatus.failed
