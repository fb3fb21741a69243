-- ===== src/Status/RoundTrip.antt =====
-- The two conversions of src/mapping.rs between a status and the text of its column.
use cardano_lightning_relay.Prelude.{◌≡◌, refl}
use cardano_lightning_relay.Status.SwapStatus
use cardano_lightning_relay.Status.SwapStatus.{SwapStatus}
use cardano_lightning_relay.Status.OfframpStatus
use cardano_lightning_relay.Status.OfframpStatus.{OfframpStatus}

-- Reading back the text of a swap's status gives the status.
pub from_str-as_str : (s : SwapStatus) → SwapStatus.from_str (SwapStatus.as_str s) ≡ s
unfolding SwapStatus.from_str SwapStatus.as_str
from_str-as_str SwapStatus.pending = refl
from_str-as_str SwapStatus.fulfilling = refl
from_str-as_str SwapStatus.completed = refl
from_str-as_str SwapStatus.failed = refl
from_str-as_str SwapStatus.expired = refl

-- Reading back the text of an offramp's status gives the status.
pub offramp-from_str-as_str :
    (s : OfframpStatus) → OfframpStatus.from_str (OfframpStatus.as_str s) ≡ s
unfolding OfframpStatus.from_str OfframpStatus.as_str
offramp-from_str-as_str OfframpStatus.awaiting_deposit = refl
offramp-from_str-as_str OfframpStatus.pending_verification = refl
offramp-from_str-as_str OfframpStatus.paying_lightning = refl
offramp-from_str-as_str OfframpStatus.depositing_to_pool = refl
offramp-from_str-as_str OfframpStatus.completed = refl
offramp-from_str-as_str OfframpStatus.failed = refl

-- Two swap statuses with the same text are the same.
pub as_str-inj : (s t : SwapStatus) → SwapStatus.as_str s ≡ SwapStatus.as_str t → s ≡ t
as_str-inj s t e = cc (e, from_str-as_str s, from_str-as_str t)
