-- ===== src/Libs.antt =====
-- The third-party functions and the configured address that the swap logic uses, as a parameter:
-- `Bolt11Invoice::from_str` and
-- `to_string`, `Description::new`, `bech32::decode`, `Vec::<u8>::from_base32` and `hex::encode`.
use cardano_lightning_relay.Prelude.{ℕ, String, List}
use cardano_lightning_relay.Types.{Result, Bolt11Invoice}

pub record Libs : Type 0 where
  pub bolt11_from_str : String → Result Bolt11Invoice
  pub bolt11_to_string : Bolt11Invoice → String
  pub description_new : String → Result String
  pub bech32_decode : String → Result (String × List ℕ)
  pub from_base32 : List ℕ → Result (List ℕ)
  pub hex_encode : List ℕ → String
  pub operator_address : String
