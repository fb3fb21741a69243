-- ===== src/Args/Splits.antt =====
-- Where the texts of src/args.rs are split, when the pieces do not have the separator.
use cardano_lightning_relay.Prelude.{
  ℕ, ◌==◌, ◌≡◌, refl, Bool, true, false, none, some, [], ◌∷◌, ◌++◌, All, split_on, ==_iff,
  parse_digits, parse_unsigned, leb, ltb, ◌&&◌, ◌-◌, ◌+◌, ◌*◌, ◌^◌, ◌<◌, if◌then◌else◌, ◌⊎◌, arith,
  inl, inr,
}
use cardano_lightning_relay.Args.Text.{Text, split_once, rsplit_once}

-- A text without the character.
abbrev pub Lacks : ℕ → Text → Type 0
Lacks sep = All λ (c : ℕ). (c == sep) ≡ false

unfoldable pub around : ℕ → Text → Text → Text
around sep before after = before ++ (sep ∷ after)

same : (n : ℕ) → (n == n) ≡ true
same n = (==_iff n n).1 refl

pub split_on-Lacks : (sep : ℕ) (s : Text) → Lacks sep s → split_on sep s ≡ s ∷ []
unfolding split_on
split_on-Lacks sep [] h = refl
split_on-Lacks sep (c ∷ cs) h = rw (h.0, split_on-Lacks sep cs h.1) refl

pub split_on-around :
    (sep : ℕ) (a b : Text) → Lacks sep a → Lacks sep b → split_on sep (around sep a b) ≡ a ∷ b ∷ []
unfolding split_on around
split_on-around sep [] b ha hb = rw (same sep, split_on-Lacks sep b hb) refl
split_on-around sep (c ∷ a) b ha hb = rw (ha.0, split_on-around sep a b ha.1 hb) refl

pub split_once-around :
    (sep : ℕ) (a b : Text) → Lacks sep a → split_once sep (around sep a b) ≡ some (a, b)
unfolding split_once around
split_once-around sep [] b ha = rw (same sep) refl
split_once-around sep (c ∷ a) b ha = rw (ha.0, split_once-around sep a b ha.1) refl

rsplit_once-Lacks : (sep : ℕ) (s : Text) → Lacks sep s → rsplit_once sep s ≡ none
unfolding rsplit_once
rsplit_once-Lacks sep [] h = refl
rsplit_once-Lacks sep (c ∷ cs) h = rw (rsplit_once-Lacks sep cs h.1, h.0) refl

pub rsplit_once-around :
    (sep : ℕ) (a b : Text) → Lacks sep b → rsplit_once sep (around sep a b) ≡ some (a, b)
unfolding rsplit_once around
rsplit_once-around sep [] b hb = rw (rsplit_once-Lacks sep b hb, same sep) refl
rsplit_once-around sep (c ∷ a) b hb = rw (rsplit_once-around sep a b hb) refl

pub around-Lacks :
    (sep c : ℕ) (a b : Text) → Lacks c a → (sep == c) ≡ false → Lacks c b → Lacks c (around sep a b)
unfolding around
around-Lacks sep c [] b ha h hb = (h, hb)
around-Lacks sep c (d ∷ a) b ha h hb = (ha.0, around-Lacks sep c a b ha.1 h hb)

-- Which branch a test has taken.
if_branch :
    {A : Type 0} (b : Bool) (x y z : A)
    → (if b then x else y) ≡ z
    → ((b ≡ true) × (x ≡ z)) ⊎ ((b ≡ false) × (y ≡ z))
if_branch true x y z h = inl (refl, h)
if_branch false x y z h = inr (refl, h)

parse_digits-Lacks :
    (limit sep n : ℕ) (cs : Text) (v : ℕ)
    → b'9' < sep
    → parse_digits limit n cs ≡ some v
    → Lacks sep cs
unfolding parse_digits
parse_digits-Lacks limit sep n [] v lt h = tt
parse_digits-Lacks limit sep n (c ∷ cs) v lt h =
    let next = n * 10 + (c - b'0') in
    elim (if_branch (leb b'0' c && leb c b'9' && ltb next limit) (parse_digits limit next cs) none
      (some v) h) [
        | inl (e, h') ↦ (ground (arith, e, lt), parse_digits-Lacks limit sep next cs v lt h')
        | inr (e, h') ↦ absurd (cc h')
      ]

-- A number has no character behind the digits.
pub parse_unsigned-Lacks :
    (bits sep : ℕ) (s : Text) (v : ℕ) → b'9' < sep → parse_unsigned bits s ≡ some v → Lacks sep s
unfolding parse_unsigned
parse_unsigned-Lacks bits sep [] v lt h = tt
parse_unsigned-Lacks bits sep (c ∷ []) v lt h = parse_digits-Lacks (2 ^ bits) sep 0 (c ∷ []) v lt h
parse_unsigned-Lacks bits sep (c ∷ d ∷ cs) v lt h =
    let rest = d ∷ cs in
    elim (if_branch (c == b'+') (parse_digits (2 ^ bits) 0 rest)
      (parse_digits (2 ^ bits) 0 (c ∷ rest)) (some v) h) [
        | inl (e, h') ↦ (ground arith, parse_digits-Lacks (2 ^ bits) sep 0 rest v lt h')
        | inr (e, h') ↦ parse_digits-Lacks (2 ^ bits) sep 0 (c ∷ rest) v lt h'
      ]
