-- ===== src/Hex/Nibbles.antt =====
-- The arithmetic of one byte: what the shift and the `|=` of `to_vec` do to two digits.
use Prim.Native.Nat.{bit_or}
use cardano_lightning_relay.Prelude.{
  ℕ, zero, suc, ◌+◌, ◌*◌, ◌<◌, ◌≡◌, refl, ◌==◌, ==_iff, Bool, true, false, Bool-cases, inl, inr,
  none, some, ◌⊎◌, ◌≤◌, arith, if◌then◌else◌,
}
use cardano_lightning_relay.Hex.{digit_value, shift_in, hex_digit}

module _ (p : ℕ → Bool) where
  all_below : ℕ → Bool
  all_below zero = true
  all_below (suc n) = if p n then all_below n else false

  all_below-apply : (n : ℕ) → all_below n ≡ true → (i : ℕ) → i < n → p i ≡ true
  unfolding all_below
  all_below-apply zero h i lt = absurd (omega arith)
  all_below-apply (suc n) h i lt = elim (Bool-cases (i == n)) [
    | inl e ↦ let same : i ≡ n = ground (arith, ==_iff i n) in rw same (ground arith)
    | inr e ↦ all_below-apply n (ground arith) i (ground (arith, ==_iff i n))
  ]

joins : ℕ → ℕ → Bool
joins q r = bit_or (q * 16) r == (q * 16 + r)

joins_all : all_below (λ q. all_below (joins q) 16) 16 ≡ true
unfolding all_below joins
joins_all = refl

joins_each : (b d : ℕ) → b < 16 → d < 16 → joins b d ≡ true
joins_each b d hb hd =
    all_below-apply (joins b) 16 (all_below-apply (λ q. all_below (joins q) 16) 16 joins_all b hb) d
      hd

-- `|` of two digits is their sum.
pub shift_in_sum : (b d : ℕ) → b < 16 → d < 16 → shift_in b d ≡ b * 16 + d
unfolding shift_in joins
shift_in_sum b d hb hd =
    ground (arith, joins_each b d hb hd, ==_iff (bit_or (b * 16) d) (b * 16 + d))

pub digit_value-lt : (c d : ℕ) → digit_value c ≡ some d → d < 16
unfolding digit_value
digit_value-lt c d h = ground arith

pub digit_value-hex_digit : (n : ℕ) → n < 16 → digit_value (hex_digit n) ≡ some n
unfolding digit_value hex_digit
digit_value-hex_digit n h = ground arith

-- The characters that `to_vec` reads.
abbrev pub IsHexDigit : ℕ → Type 0
IsHexDigit c = ((b'0' ≤ c) × (c ≤ b'9')) ⊎ ((b'A' ≤ c) × (c ≤ b'F')) ⊎ ((b'a' ≤ c) × (c ≤ b'f'))

pub digit_value-IsHexDigit : (c d : ℕ) → digit_value c ≡ some d → IsHexDigit c
unfolding digit_value
digit_value-IsHexDigit c d h = ground arith

pub digit_value-none : (c : ℕ) → digit_value c ≡ none → ¬ IsHexDigit c
unfolding digit_value
digit_value-none c h = ground arith
