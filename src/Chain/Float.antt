-- ===== src/Chain/Float.antt =====
-- Rust's `f64` as a parameter: a type with the operations that the two clients use.
use cardano_lightning_relay.Prelude.{ℕ, Bool}

-- `to_u32` is `as u32`, and `of` is a literal or `as f64`.
pub record FloatOps (F : Type 0) : Type 0 where
  pub is_finite : F → Bool
  pub le : F → F → Bool
  pub mul : F → F → F
  pub div : F → F → F
  pub ceil : F → F
  pub round : F → F
  pub of : ℕ → F
  pub to_u32 : F → ℕ
