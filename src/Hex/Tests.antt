-- ===== src/Hex/Tests.antt =====
-- Tests of src/hex_utils.rs at concrete texts.
use cardano_lightning_relay.Prelude.{
  ℕ, ◌≡◌, ◌⊎◌, refl, Option, none, some, List, [], ◌∷◌, arith, if◌then◌else◌, All, length, ◌==◌,
}
use cardano_lightning_relay.Hex.Nibbles.{IsHexDigit}
use cardano_lightning_relay.Hex.{digit_value, shift_in, to_vec, hex_str, to_compressed_pubkey}
use cardano_lightning_relay.Hex.Laws.{
  IsByte, to_vec-hex_str, to_vec_total, to_compressed_pubkey-hex_str,
}

abbrev two_bytes : List ℕ
two_bytes = 222 ∷ 10 ∷ []

to_vec_upper : to_vec (b'D' ∷ b'e' ∷ b'0' ∷ b'A' ∷ []) ≡ some two_bytes
unfolding to_vec digit_value shift_in
to_vec_upper = refl

to_vec_odd : to_vec (b'd' ∷ b'e' ∷ b'0' ∷ []) ≡ some (222 ∷ [])
unfolding to_vec digit_value shift_in
to_vec_odd = refl

to_vec_bad : to_vec (b'd' ∷ b'g' ∷ []) ≡ none
unfolding to_vec digit_value shift_in
to_vec_bad = refl

to_vec-hex_str_example : to_vec (hex_str two_bytes) ≡ some two_bytes
to_vec-hex_str_example = to_vec-hex_str two_bytes (omega arith)

to_vec_total_example :
    ((¬ All IsHexDigit (b'd' ∷ b'e' ∷ b'0' ∷ [])) × (to_vec (b'd' ∷ b'e' ∷ b'0' ∷ []) ≡ none))
    ⊎ (All IsHexDigit (b'd' ∷ b'e' ∷ b'0' ∷ [])
        × ((bs : List ℕ) × (to_vec (b'd' ∷ b'e' ∷ b'0' ∷ []) ≡ some bs)
            × (length bs ≡ 1)
            × All IsByte bs))
to_vec_total_example = to_vec_total (b'd' ∷ b'e' ∷ b'0' ∷ [])

-- A key parser that takes what starts with the byte 2.
abbrev from_slice : List ℕ → Option ℕ
from_slice [] = none
from_slice (b ∷ bs) = if b == 2 then some (length bs) else none

to_compressed_pubkey-hex_str_example : to_compressed_pubkey from_slice (hex_str two_bytes) ≡ none
to_compressed_pubkey-hex_str_example =
    to_compressed_pubkey-hex_str from_slice two_bytes (omega arith)
