-- ===== src/Args/Text.antt =====
-- What src/args.rs uses of Rust's text functions, on texts as lists of code points.
use cardano_lightning_relay.Prelude.{
  ℕ, ◌+◌, ◌/◌, ◌%◌, ltb, ◌==◌, Option, none, some, List, [], ◌∷◌, ◌++◌, if◌then◌else◌,
}

abbrev pub Text : Type 0
Text = List ℕ

abbrev first_grows : ℕ → Option (Text × Text) → Option (Text × Text)
first_grows c none = none
first_grows c (some (before, after)) = some (c ∷ before, after)

-- `s.splitn(2, sep)`: the two pieces around the first separator, or `none` for the one piece `s`.
unfoldable pub split_once : ℕ → Text → Option (Text × Text)
split_once sep [] = none
split_once sep (c ∷ cs) =
    let rest = split_once sep cs in if c == sep then some ([], cs) else first_grows c rest

abbrev pub last_or : ℕ → ℕ → Text → Option (Text × Text) → Option (Text × Text)
last_or sep c cs (some (before, after)) = some (c ∷ before, after)
last_or sep c cs none = if c == sep then some ([], cs) else none

-- `s.rsplitn(2, sep)`: the pieces before and behind the last separator.
unfoldable pub rsplit_once : ℕ → Text → Option (Text × Text)
rsplit_once sep [] = none
rsplit_once sep (c ∷ cs) = last_or sep c cs (rsplit_once sep cs)

-- A line without the `\r` before its `\n`.
unfoldable pub strip_return : Text → Text
strip_return [] = []
strip_return (c ∷ []) = if c == 13 then [] else c ∷ []
strip_return (c ∷ d ∷ cs) = c ∷ strip_return (d ∷ cs)

abbrev last_line : Text → List Text
last_line [] = []
last_line (c ∷ cs) = (c ∷ cs) ∷ []

-- `s.lines()`, with the characters of the line at hand.
unfoldable pub lines_from : Text → Text → List Text
unfolding strip_return
lines_from line [] = last_line line
lines_from line (c ∷ cs) =
    let rest = lines_from (if c == 10 then [] else line ++ (c ∷ [])) cs in
    if c == 10 then strip_return line ∷ rest else rest

unfoldable pub lines : Text → List Text
unfolding lines_from
lines s = lines_from [] s

-- `s.as_bytes()`: the UTF-8 bytes.
unfoldable pub char_bytes : ℕ → List ℕ
char_bytes c =
    if ltb c 0x80
    then c ∷ []
    else if ltb c 0x800
    then (0xc0 + c / 64) ∷ (0x80 + c % 64) ∷ []
    else if ltb c 0x10000
    then (0xe0 + c / 4096) ∷ (0x80 + c / 64 % 64) ∷ (0x80 + c % 64) ∷ []
    else (0xf0 + c / 262144) ∷ (0x80 + c / 4096 % 64) ∷ (0x80 + c / 64 % 64) ∷ (0x80 + c % 64) ∷ []

unfoldable pub as_bytes : Text → List ℕ
unfolding char_bytes
as_bytes [] = []
as_bytes (c ∷ cs) = char_bytes c ++ as_bytes cs
