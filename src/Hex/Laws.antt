-- ===== src/Hex/Laws.antt =====
-- What the conversions of src/hex_utils.rs do together.
use mathlib.Core.List.{append-nil, append_assoc}
use cardano_lightning_relay.Prelude.{
  ℕ, suc, ◌+◌, ◌*◌, ◌/◌, ◌%◌, ◌<◌, ◌≡◌, refl, ap, ◌∙◌, ◌==◌, Bool-cases, inl, inr, ◌⊎◌, ◌≢◌, sym,
  Option, none, some, Option-cases, List, [], ◌∷◌, ◌++◌, All, length, length-append, arith,
  if◌then◌else◌,
}
use cardano_lightning_relay.Hex.{
  digit_value, shift_in, to_vec, to_vec_from, hex_digit, hex_str, to_compressed_pubkey,
}
use cardano_lightning_relay.Hex.Nibbles.{
  shift_in_sum, digit_value-lt, digit_value-hex_digit, digit_value-IsHexDigit, digit_value-none,
  IsHexDigit,
}

abbrev pub IsByte : ℕ → Type 0
IsByte v = v < 256

-- One turn of the loop, at a digit.
to_vec_from-digit :
    (idx b c d : ℕ) (out cs : List ℕ)
    → digit_value c ≡ some d
    → to_vec_from idx b out (c ∷ cs)
      ≡ to_vec_from
          (suc idx)
          (if (idx % 2) == 1 then 0 else shift_in b d)
          (if (idx % 2) == 1 then out ++ (shift_in b d ∷ []) else out)
          cs
unfolding to_vec_from
to_vec_from-digit idx b c d out cs h = rw (h, to_vec_from) refl

to_vec_from-byte :
    (idx v : ℕ) (out cs : List ℕ)
    → idx % 2 ≡ 0
    → v < 256
    → to_vec_from idx 0 out (hex_digit (v / 16) ∷ hex_digit (v % 16) ∷ cs)
      ≡ to_vec_from (suc (suc idx)) 0 (out ++ (v ∷ [])) cs
to_vec_from-byte idx v out cs even h = ground (
  arith,
  to_vec_from-digit idx 0 (hex_digit (v / 16)) (v / 16) out (hex_digit (v % 16) ∷ cs)
      (digit_value-hex_digit (v / 16) (omega arith)),
  to_vec_from-digit (suc idx) (v / 16) (hex_digit (v % 16)) (v % 16) out cs
      (digit_value-hex_digit (v % 16) (omega arith)),
  shift_in_sum 0 (v / 16),
  shift_in_sum (v / 16) (v % 16),
)

to_vec_from-hex_str :
    (idx : ℕ) (out bs : List ℕ)
    → idx % 2 ≡ 0
    → All IsByte bs
    → to_vec_from idx 0 out (hex_str bs) ≡ some (out ++ bs)
unfolding to_vec_from hex_str
to_vec_from-hex_str idx out [] even h = simp append-nil refl
to_vec_from-hex_str idx out (v ∷ bs) even h =
    to_vec_from-byte idx v out (hex_str bs) even h.0
    ∙ to_vec_from-hex_str (suc (suc idx)) (out ++ (v ∷ [])) bs (omega arith) h.1
    ∙ ap (λ (l : List ℕ). some l) (append_assoc out (v ∷ []) bs)

-- Writing any bytes as hexadecimal text and reading the text gives the bytes back.
pub to_vec-hex_str : (bs : List ℕ) → All IsByte bs → to_vec (hex_str bs) ≡ some bs
unfolding to_vec
to_vec-hex_str bs h = to_vec_from-hex_str 0 [] bs refl h

-- What the loop returns, from any point on.
Reads : ℕ → List ℕ → List ℕ → Option (List ℕ) → Type 0
Reads idx out cs r =
    (bs : List ℕ) × (r ≡ some bs)
    × (length bs ≡ length out + (length cs + idx % 2) / 2)
    × All IsByte bs

All-snoc : (out : List ℕ) (v : ℕ) → All IsByte out → v < 256 → All IsByte (out ++ (v ∷ []))
All-snoc [] v h lt = (lt, tt)
All-snoc (x ∷ out) v h lt = (h.0, All-snoc out v h.1 lt)

-- A turn adds half a byte.
Reads-turn :
    (idx c : ℕ) (out out' cs : List ℕ) (r r' : Option (List ℕ))
    → r ≡ r'
    → length out' ≡ length out + idx % 2
    → Reads (suc idx) out' cs r'
    → Reads idx out (c ∷ cs) r
unfolding Reads
Reads-turn idx c out out' cs r r' e len (bs, is, half, bytes) = (bs, e ∙ is, omega arith, bytes)

to_vec_from-Reads :
    (idx b : ℕ) (out cs : List ℕ)
    → b < 16
    → (idx % 2 ≡ 0 → b ≡ 0)
    → All IsByte out
    → All IsHexDigit cs
    → Reads idx out cs (to_vec_from idx b out cs)
to_vec_from-Reads idx b out [] lt even bytes h =
    unfold Reads to_vec_from in (out, refl, omega arith, bytes)
to_vec_from-Reads idx b out (c ∷ cs) lt even bytes h = elim (Option-cases (digit_value c)) [
  | inl e ↦ absurd (digit_value-none c e h.0)
  | inr (d, e) ↦
      let small : d < 16 = digit_value-lt c d e in
      let sum : shift_in b d ≡ b * 16 + d = shift_in_sum b d lt small in
      elim (Bool-cases ((idx % 2) == 1)) [
        | inl odd ↦
            Reads-turn idx c out (out ++ (shift_in b d ∷ [])) cs _
              (to_vec_from (suc idx) 0 (out ++ (shift_in b d ∷ [])) cs)
              (ground (arith, to_vec_from-digit idx b c d out cs e))
              (ground (arith, length-append out (shift_in b d ∷ [])))
              (to_vec_from-Reads (suc idx) 0 (out ++ (shift_in b d ∷ [])) cs (omega arith)
                (λ _. refl) (All-snoc out (shift_in b d) bytes (omega arith)) h.1)
        | inr not_odd ↦
            Reads-turn idx c out out cs _ (to_vec_from (suc idx) (shift_in b d) out cs)
              (ground (arith, to_vec_from-digit idx b c d out cs e)) (ground arith)
              (to_vec_from-Reads (suc idx) (shift_in b d) out cs (ground (arith, even))
                (ground arith) bytes h.1)
      ]
]

to_vec_from-none :
    (idx b c : ℕ) (out cs : List ℕ) → digit_value c ≡ none → to_vec_from idx b out (c ∷ cs) ≡ none
unfolding to_vec_from
to_vec_from-none idx b c out cs h = rw (h, to_vec_from) refl

none≢some : (bs : List ℕ) → none ≢ some bs
none≢some bs h = cc h

to_vec_from-some :
    (idx b : ℕ) (out cs bs : List ℕ) → to_vec_from idx b out cs ≡ some bs → All IsHexDigit cs
to_vec_from-some idx b out [] bs h = tt
to_vec_from-some idx b out (c ∷ cs) bs h = elim (Option-cases (digit_value c)) [
  | inl e ↦ absurd (none≢some _ (sym (to_vec_from-none idx b c out cs e) ∙ h))
  | inr (d, e) ↦ (
    digit_value-IsHexDigit c d e,
    to_vec_from-some (suc idx) (if (idx % 2) == 1 then 0 else shift_in b d)
        (if (idx % 2) == 1 then out ++ (shift_in b d ∷ []) else out) cs bs
        (sym (to_vec_from-digit idx b c d out cs e) ∙ h),
  )
]

-- A text is refused exactly when it has a character that is no hexadecimal digit. Otherwise every
-- two digits are one byte, and a single digit at the end is dropped.
pub to_vec_total :
    (hex : List ℕ)
    → ((¬ All IsHexDigit hex) × (to_vec hex ≡ none))
      ⊎ (All IsHexDigit hex
          × ((bs : List ℕ) × (to_vec hex ≡ some bs) × (length bs ≡ length hex / 2) × All IsByte bs))
to_vec_total hex = elim (Option-cases (to_vec hex)) [
  | inl e ↦ inl (λ digits. let found = read digits in none≢some found.0 (sym e ∙ found.1), e)
  | inr (bs, e) ↦
      let digits = to_vec_from-some 0 0 [] hex bs (unfold to_vec in e) in inr (digits, read digits)
]
  where
    read :
        All IsHexDigit hex
        → (bs : List ℕ) × (to_vec hex ≡ some bs) × (length bs ≡ length hex / 2) × All IsByte bs
    read digits =
        unfold Reads to_vec in
        let (bs, is, half, bytes) =
          to_vec_from-Reads 0 0 [] hex (omega arith) (λ _. refl) tt digits in
        (bs, is, omega arith, bytes)

length-hex_str : (bs : List ℕ) → length (hex_str bs) ≡ 2 * length bs
unfolding hex_str
length-hex_str [] = refl
length-hex_str (v ∷ bs) = omega (arith, length-hex_str bs)

-- The text of 33 bytes is parsed as these bytes, and the text of any other number of bytes is
-- refused before it is read.
pub to_compressed_pubkey-hex_str :
    {PublicKey : Type 0} (from_slice : List ℕ → Option PublicKey) (bs : List ℕ)
    → All IsByte bs
    → to_compressed_pubkey from_slice (hex_str bs)
      ≡ (if length bs == 33 then from_slice bs else none)
unfolding to_compressed_pubkey
to_compressed_pubkey-hex_str from_slice bs h =
    rw (to_vec-hex_str bs h) (ground (arith, length-hex_str bs))
