-- ===== src/Status/SwapStatus.antt =====
-- `SwapStatus` of src/mapping.rs and its two conversions with the text of the column.
use cardano_lightning_relay.Prelude.{String, str_eq, if◌then◌else◌}

pub data SwapStatus : Type 0 where
  pending fulfilling completed failed expired : SwapStatus

unfoldable pub as_str : SwapStatus → String
as_str SwapStatus.pending = "pending"
as_str SwapStatus.fulfilling = "fulfilling"
as_str SwapStatus.completed = "completed"
as_str SwapStatus.failed = "failed"
as_str SwapStatus.expired = "expired"

unfoldable pub from_str : String → SwapStatus
from_str s =
    if str_eq s "pending"
    then SwapStatus.pending
    else if str_eq s "fulfilling"
    then SwapStatus.fulfilling
    else if str_eq s "completed"
    then SwapStatus.completed
    else if str_eq s "failed"
    then SwapStatus.failed
    else if str_eq s "expired"
    then SwapStatus.expired
    else SwapStatus.failed
