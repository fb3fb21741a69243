-- ===== src/Amounts.antt =====
-- src/amounts.rs: cBTC base units (`i64`) to Lightning millisatoshis (`u64`).
pub mod Bounds
use cardano_lightning_relay.Prelude.{
  ℕ, ◌*◌, ◌^◌, ltb, leb_ℤ, ℤ, pos, pos_part, Option, none, some, if◌then◌else◌,
}

abbrev pub msats_per_cbtc_base_unit : ℕ
msats_per_cbtc_base_unit = 1_000

-- `u64::checked_mul`
unfoldable pub checked_mul : ℕ → ℕ → Option ℕ
checked_mul a b = if ltb (a * b) (2 ^ 64) then some (a * b) else none

unfoldable pub cbtc_to_msat : ℤ → Option ℕ
unfolding checked_mul
cbtc_to_msat amount_cbtc =
    if leb_ℤ amount_cbtc (pos 0)
    then none
    else checked_mul (pos_part amount_cbtc) msats_per_cbtc_base_unit
