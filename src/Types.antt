-- ===== src/Types.antt =====
-- The payment records of src/types.rs, and the data that the relay exchanges with the crates it
-- calls: the on-chain state of the Liquidity Manager and the parts of a BOLT11 invoice that it reads.
use cardano_lightning_relay.Prelude.{
  ℕ, ℤ, String, Option, none, some, List, [], ◌∷◌, str_eq, if◌then◌else◌,
}

pub data HtlcStatus : Type 0 where
  pending succeeded failed : HtlcStatus

-- Hashes, preimages and secrets are the hexadecimal texts that stand for their bytes.
pub record PaymentInfo : Type 0 where
  pub preimage : Option String
  pub secret : Option String
  pub status : HtlcStatus
  pub amt_msat : Option ℕ

-- The `HashMap` of a payment store: at most one entry for a key is read.
abbrev pub Payments : Type 0
Payments = List (String × PaymentInfo)

abbrev pub lookup : String → Payments → Option PaymentInfo
lookup k [] = none
lookup k ((j, v) ∷ m) = if str_eq j k then some v else lookup k m

-- `payments.insert(k, v)`
abbrev pub insert : String → PaymentInfo → Payments → Payments
insert k v [] = (k, v) ∷ []
insert k v ((j, w) ∷ m) = if str_eq j k then (k, v) ∷ m else (j, w) ∷ insert k v m

-- `if let Some(v) = payments.get_mut(&k) { … }`
abbrev pub update : String → (PaymentInfo → PaymentInfo) → Payments → Payments
update k f [] = []
update k f ((j, v) ∷ m) = if str_eq j k then (j, f v) ∷ m else (j, v) ∷ update k f m

-- What a call of another crate or of the network returns: an error shows as its text.
pub data Result (A : Type 0) : Type 0 where
  ok : A → Result A
  err : String → Result A

pub record Invoice : Type 0 where
  pub invoice_id : ℤ
  pub amount : ℤ
  pub owner : String
  pub timestamp : ℤ
  pub expires_at : ℤ

pub record Offramp : Type 0 where
  pub offramp_id : ℤ
  pub amount : ℤ
  pub payment_hash : String
  pub refund_address : String
  pub expires_at : ℤ

pub record State : Type 0 where
  pub total_liquidity : ℤ
  pub reserved : ℤ
  pub available : ℤ
  pub invoices : List Invoice
  pub offramps : List Offramp

pub data Currency : Type 0 where
  bitcoin bitcoin_testnet regtest signet simnet : Currency

pub record Bolt11Invoice : Type 0 where
  pub payment_hash : String
  pub payment_secret : String
  pub currency : Currency
  pub amount_milli_satoshis : Option ℕ
