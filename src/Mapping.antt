-- ===== src/Mapping.antt =====
-- The rows and statuses of src/mapping.rs: the two tables of the swap database, and the text that
-- the `status` columns hold. A status column is only ever written with `as_str`, so a row keeps the
-- status itself, and every SQL comparison below goes through its text.
pub mod Onramp
pub mod Offramp
pub mod Claims
pub mod Lookup
use cardano_lightning_relay.Prelude.{ℤ, String, Option, Bool, List, str_eq}
use cardano_lightning_relay.Status.SwapStatus
use cardano_lightning_relay.Status.SwapStatus.{SwapStatus}
use cardano_lightning_relay.Status.OfframpStatus
use cardano_lightning_relay.Status.OfframpStatus.{OfframpStatus}

pub record SwapMapping : Type 0 where
  pub payment_hash : String
  pub invoice_id : ℤ
  pub amount_cbtc : ℤ
  pub cardano_address : String
  pub status : SwapStatus
  pub created_at : ℤ
  pub expires_at : ℤ
  pub cardano_tx_hash : Option String
  pub create_tx_hash : Option String

pub record OfframpMapping : Type 0 where
  pub offramp_id : ℤ
  pub bolt11 : String
  pub payment_hash : String
  pub amount_cbtc : ℤ
  pub cbtc_tx_hash : String
  pub status : OfframpStatus
  pub created_at : ℤ
  pub lightning_preimage : Option String
  pub deposit_tx_hash : Option String
  pub error_message : Option String
  pub cardano_offramp_tx_hash : Option String
  pub refund_address : String
  pub expires_at : ℤ

-- The connection: the rows of the two tables, in the order in which a scan meets them.
pub record SwapDb : Type 0 where
  pub swaps : List SwapMapping
  pub offramps : List OfframpMapping

-- What a row becomes on its way out: its status is read back from the column's text.
unfoldable pub row_to_swap : SwapMapping → SwapMapping
unfolding SwapStatus.as_str SwapStatus.from_str
row_to_swap r = record r { status = SwapStatus.from_str (SwapStatus.as_str r.status) }

unfoldable pub row_to_offramp : OfframpMapping → OfframpMapping
unfolding OfframpStatus.as_str OfframpStatus.from_str
row_to_offramp r = record r { status = OfframpStatus.from_str (OfframpStatus.as_str r.status) }

-- `status = ?`: a comparison of the column's text with the text of a status.
unfoldable pub swap_has_status : SwapStatus → SwapMapping → Bool
unfolding SwapStatus.as_str
swap_has_status s r = str_eq (SwapStatus.as_str r.status) (SwapStatus.as_str s)

unfoldable pub offramp_has_status : OfframpStatus → OfframpMapping → Bool
unfolding OfframpStatus.as_str
offramp_has_status s r = str_eq (OfframpStatus.as_str r.status) (OfframpStatus.as_str s)
