-- ===== src/Swap/Address.antt =====
-- Cardano addresses in src/cardano_swap.rs: the network prefix, the lengths, the key hash.
use text.Mathlib.Text.{starts_with}
use cardano_lightning_relay.Prelude.{
  ℕ, ltb, ◌==◌, String, ◌<>◌, show_ℕ, Bool, not, ◌&&◌, Option, none, some, List, [], ◌∷◌, length,
  take, if◌then◌else◌,
}
use cardano_lightning_relay.Types.{Result}
use cardano_lightning_relay.Libs.{Libs}

-- The prefix that `request_swap` expects, by the operator's own address.
unfoldable pub expected_prefix : String → String
expected_prefix operator_address =
    if starts_with operator_address "addr_test" then "addr_test" else "addr"

-- The prefix, as a message shows it.
abbrev prefix_text : Option String → String
prefix_text none = ""
prefix_text (some prefix) = prefix

-- `if let Some(prefix) = expected_prefix { if !hrp.starts_with(prefix) { … } }`
unfoldable pub on_network : Option String → String → Bool
on_network none hrp = Bool.true
on_network (some prefix) hrp = starts_with hrp prefix

-- `data[1..29]`, which is in range once the length has been checked.
unfoldable pub key_hash : List ℕ → List ℕ
key_hash [] = []
key_hash (header ∷ bytes) = take 28 bytes

-- The checks of `validate_address` on the decoded bytes.
unfoldable pub pkh_of_bytes : Libs → List ℕ → Result String
unfolding key_hash
pkh_of_bytes libs bytes =
    if ltb (length bytes) 29
    then Result.err ("address too short: " <> show_ℕ (length bytes) <> " bytes")
    else if not (length bytes == 57) && not (length bytes == 29)
    then Result.err (
        "unexpected address length: "
        <> show_ℕ (length bytes)
        <> " bytes (expected 29 for enterprise or 57 for base address)")
    else Result.ok (libs.hex_encode (key_hash bytes))

abbrev pub bytes_to_pkh : Libs → Result (List ℕ) → Result String
unfolding pkh_of_bytes
bytes_to_pkh libs (Result.err e) = Result.err ("bech32 base32 decode failed: " <> e)
bytes_to_pkh libs (Result.ok bytes) = pkh_of_bytes libs bytes

unfoldable pub validate_decoded : Libs → Option String → Result (String × List ℕ) → Result String
unfolding on_network pkh_of_bytes
validate_decoded libs expected (Result.err e) = Result.err ("invalid bech32 address: " <> e)
validate_decoded libs expected (Result.ok (hrp, data5)) =
    if not (starts_with hrp "addr")
    then Result.err ("not a Cardano address (hrp: " <> hrp <> ")")
    else if not (on_network expected hrp)
    then Result.err
        ("address network mismatch: expected " <> prefix_text expected <> " prefix, got " <> hrp)
    else bytes_to_pkh libs (libs.from_base32 data5)

unfoldable pub validate_address : Libs → String → Option String → Result String
unfolding validate_decoded
validate_address libs address expected = validate_decoded libs expected (libs.bech32_decode address)

unfoldable pub address_to_pkh : Libs → String → Result String
unfolding validate_address
address_to_pkh libs address = validate_address libs address none
