-- ===== src/Chain/Json.antt =====
-- `serde_json::Value`, which the two clients read, as a parameter with the accessors that they use.
use cardano_lightning_relay.Prelude.{ℕ, ℤ, String, Bool, Option, List}

-- `index` is `value["key"]`, which is null where there is no such key, and `get` is `value.get("key")`.
pub record JsonOps (J F : Type 0) : Type 0 where
  pub get : J → String → Option J
  pub index : J → String → J
  pub is_null : J → Bool
  pub as_bool : J → Option Bool
  pub as_u64 : J → Option ℕ
  pub as_i64 : J → Option ℤ
  pub as_f64 : J → Option F
  pub as_str : J → Option String
  pub as_array : J → Option (List J)
