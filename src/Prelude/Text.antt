-- ===== src/Prelude/Text.antt =====
-- What the source uses of Rust's `str`: equality, `contains`, `starts_with`, `strip_prefix`, `len`,
-- and the decimal `Display` of an integer.
use Prim.Native.Nat.{ℕ, zero, suc, ◌/◌, ◌%◌}
use Prim.Native.String
use Prim.Native.String.{String}
use mathlib.Core.Bool.{Bool, true, false}
use mathlib.Core.Option.{Option, none, some}
use text.Mathlib.Text.{◌==◌, starts_with, find?}
use cardano_lightning_relay.Prelude.Tests.{◌==◌ as nat_eq, ltb, if◌then◌else◌}
use cardano_lightning_relay.Prelude.Int.{ℤ, pos, negsuc}

abbrev pub str_eq : String → String → Bool
str_eq s t = s == t

infixr 66 ◌<>◌
abbrev pub ◌<>◌ : String → String → String
s <> t = String.◌++◌ s t

abbrev is_some {ℓ} : {A : Type ℓ} → Option A → Bool
is_some none = false
is_some (some a) = true

-- `s.contains(t)`
unfoldable pub contains : String → String → Bool
contains s t = is_some (find? s t)

-- `s.strip_prefix(t)`
unfoldable pub strip_prefix : String → String → Option String
strip_prefix s t =
    if starts_with s t then some (String.slice s (String.len t) (String.len s)) else none

unfoldable pub is_empty : String → Bool
is_empty s = str_eq s ""

digit : ℕ → String
digit n =
    if nat_eq n 0
    then "0"
    else if nat_eq n 1
    then "1"
    else if nat_eq n 2
    then "2"
    else if nat_eq n 3
    then "3"
    else if nat_eq n 4
    then "4"
    else if nat_eq n 5
    then "5"
    else if nat_eq n 6
    then "6"
    else if nat_eq n 7
    then "7"
    else if nat_eq n 8
    then "8"
    else "9"

-- The digits of `n`; a fuel of `n` is enough, since `n / 10` is below a positive `n`.
show_from : ℕ → ℕ → String
show_from zero n = digit n
show_from (suc fuel) n =
    let front = show_from fuel (n / 10) in if ltb n 10 then digit n else front <> digit (n % 10)

unfoldable pub show_ℕ : ℕ → String
unfolding show_from digit
show_ℕ n = show_from n n

unfoldable pub show_ℤ : ℤ → String
unfolding show_ℕ
show_ℤ (pos n) = show_ℕ n
show_ℤ (negsuc n) = "-" <> show_ℕ (suc n)
