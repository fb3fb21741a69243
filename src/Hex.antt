-- ===== src/Hex.antt =====
-- src/hex_utils.rs: hexadecimal text to bytes and back. A text is the list of its bytes (`as_bytes`),
-- and `PublicKey::from_slice` of the secp256k1 crate is a parameter.
pub mod Nibbles
pub mod Laws
pub mod Tests
use Prim.Native.Nat.{bit_or}
use cardano_lightning_relay.Prelude.{
  ℕ, suc, ◌+◌, ◌-◌, ◌*◌, ◌/◌, ◌%◌, leb, ltb, ◌==◌, Bool, ◌&&◌, not, Option, none, some, List, [],
  ◌∷◌, ◌++◌, length, if◌then◌else◌,
}

-- The three ranges of the `match` on a character, and what each adds.
unfoldable pub digit_value : ℕ → Option ℕ
digit_value c =
    if leb b'A' c && leb c b'F'
    then some (c - b'A' + 10)
    else if leb b'a' c && leb c b'f'
    then some (c - b'a' + 10)
    else if leb b'0' c && leb c b'9'
    then some (c - b'0')
    else none

-- The bits of the byte under construction: `b <<= 4` on `u8`, then `b |= d`.
unfoldable pub shift_in : ℕ → ℕ → ℕ
shift_in b d = bit_or (b * 16 % 256) d

-- The `for` loop, from the index `idx` on, with the mutable `b` and `out`.
unfoldable pub to_vec_from : ℕ → ℕ → List ℕ → List ℕ → Option (List ℕ)
to_vec_from idx b out [] = some out
to_vec_from idx b out (c ∷ cs) = elim (digit_value c) [
  | none ↦ none
  | some d ↦
      let odd : Bool = (idx % 2) == 1 in
      to_vec_from (suc idx) (if odd then 0 else shift_in b d)
        (if odd then out ++ (shift_in b d ∷ []) else out) cs
]

unfoldable pub to_vec : List ℕ → Option (List ℕ)
unfolding to_vec_from
to_vec hex = to_vec_from 0 0 [] hex

-- `{:02x}` of one half of a byte.
unfoldable pub hex_digit : ℕ → ℕ
hex_digit n = if ltb n 10 then n + b'0' else n - 10 + b'a'

unfoldable pub hex_str : List ℕ → List ℕ
unfolding hex_digit
hex_str [] = []
hex_str (v ∷ value) = hex_digit (v / 16) ∷ hex_digit (v % 16) ∷ hex_str value

module _ {PublicKey : Type 0} (from_slice : List ℕ → Option PublicKey) where
  abbrev parse_key : Option (List ℕ) → Option PublicKey
  parse_key none = none
  parse_key (some bytes) = from_slice bytes

  unfoldable pub to_compressed_pubkey : List ℕ → Option PublicKey
  unfolding to_vec
  to_compressed_pubkey hex = if not (length hex == 66) then none else parse_key (to_vec hex)
