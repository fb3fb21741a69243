-- ===== src/Amounts/Bounds.antt =====
-- The amounts that src/amounts.rs converts, and those that the requests of src/api.rs let through.
use cardano_lightning_relay.Prelude.{ℕ, ◌*◌, ◌^◌, ◌<◌, ◌≡◌, ◌↔◌, ℤ, pos_part, some, arith}
use cardano_lightning_relay.Amounts.{cbtc_to_msat, checked_mul}

-- An amount of cBTC has a value in millisatoshis exactly when it is positive and a thousand times it
-- fits 64 bits, and the value is that product.
pub cbtc_to_msat_iff :
    (amount : ℤ) (msat : ℕ)
    → (cbtc_to_msat amount ≡ some msat) ↔ (
        (0 < pos_part amount)
        × (pos_part amount * 1_000 < 2 ^ 64)
        × (msat ≡ pos_part amount * 1_000))
unfolding cbtc_to_msat checked_mul
cbtc_to_msat_iff amount msat = ground arith
