-- ===== src/Prelude/Parse.antt =====
-- What the source uses of Rust's text functions that look at each character: a text is the list of
-- its code points.
use Prim.Native.Char.{code}
use Prim.Native.String.{String}
use Prim.Native.Nat.{ℕ, zero, suc, ◌+◌, ◌-◌, ◌*◌, ◌^◌}
use mathlib.Core.Bool.{Bool, true, false, ◌&&◌, ◌||◌}
use mathlib.Core.Option.{Option, none, some}
use mathlib.Core.List.{List, [], ◌∷◌, ◌++◌}
use cardano_lightning_relay.Prelude.Int.{ℤ, pos, negsuc}
use cardano_lightning_relay.Prelude.Tests.{ltb, leb, ◌==◌, if◌then◌else◌}

abbrev pub codes : String → List ℕ
codes String.[] = []
codes (String.◌∷◌ c s) = code c ∷ codes s

-- The value of decimal digits, on from what has been read; a value from `limit` on is an overflow.
unfoldable pub parse_digits : ℕ → ℕ → List ℕ → Option ℕ
parse_digits limit n [] = some n
parse_digits limit n (c ∷ cs) =
    let rest = parse_digits limit (n * 10 + (c - b'0')) cs in
    if leb b'0' c && leb c b'9' && ltb (n * 10 + (c - b'0')) limit then rest else none

-- `s.parse()` to an unsigned integer of `bits` bits: digits, behind an optional `+`.
unfoldable pub parse_unsigned : ℕ → List ℕ → Option ℕ
unfolding parse_digits
parse_unsigned bits [] = none
parse_unsigned bits (c ∷ []) = parse_digits (2 ^ bits) 0 (c ∷ [])
parse_unsigned bits (c ∷ d ∷ cs) =
    if c == b'+' then parse_digits (2 ^ bits) 0 (d ∷ cs) else parse_digits (2 ^ bits) 0 (c ∷ d ∷ cs)

-- `char::is_whitespace`
unfoldable pub is_whitespace : ℕ → Bool
is_whitespace c =
    (leb 9 c && leb c 13)
    || c == 32
    || c == 0x85
    || c == 0xa0
    || c == 0x1680
    || (leb 0x2000 c && leb c 0x200a)
    || c == 0x2028
    || c == 0x2029
    || c == 0x202f
    || c == 0x205f
    || c == 0x3000

unfoldable pub drop_while : (ℕ → Bool) → List ℕ → List ℕ
drop_while p [] = []
drop_while p (c ∷ cs) = let rest = drop_while p cs in if p c then rest else c ∷ cs

-- `s.trim_end_matches(p)`
unfoldable pub trim_end : (ℕ → Bool) → List ℕ → List ℕ
trim_end p [] = []
trim_end p (c ∷ cs) = elim (trim_end p cs) [ [] ↦ if p c then [] else c ∷ [] | d ∷ ds ↦ c ∷ d ∷ ds ]

unfoldable pub trim : List ℕ → List ℕ
unfolding trim_end drop_while is_whitespace
trim s = trim_end is_whitespace (drop_while is_whitespace s)

-- `a == b` on texts.
unfoldable pub same_text : List ℕ → List ℕ → Bool
same_text [] [] = true
same_text [] (d ∷ ds) = false
same_text (c ∷ cs) [] = false
same_text (c ∷ cs) (d ∷ ds) = c == d && same_text cs ds

-- The first piece grows by a character.
abbrev pub grow : ℕ → List (List ℕ) → List (List ℕ)
grow c [] = (c ∷ []) ∷ []
grow c (piece ∷ pieces) = (c ∷ piece) ∷ pieces

-- `s.split(c)`: at least one piece, which may be empty.
unfoldable pub split_on : ℕ → List ℕ → List (List ℕ)
split_on sep [] = [] ∷ []
split_on sep (c ∷ cs) = let rest = split_on sep cs in if c == sep then [] ∷ rest else grow c rest

abbrev pub keep_word : List ℕ → List (List ℕ) → List (List ℕ)
keep_word [] words = words
keep_word (c ∷ cs) words = (c ∷ cs) ∷ words

-- `s.split_whitespace()`, with the letters of the word at hand, the last one first.
unfoldable pub words_from : List ℕ → List ℕ → List (List ℕ)
unfolding is_whitespace
words_from word [] = keep_word word []
words_from word (c ∷ cs) =
    let rest = words_from (if is_whitespace c then [] else word ++ (c ∷ [])) cs in
    if is_whitespace c then keep_word word rest else rest

unfoldable pub split_whitespace : List ℕ → List (List ℕ)
unfolding words_from
split_whitespace s = words_from [] s

abbrev negate : Option ℕ → Option ℤ
negate none = none
negate (some zero) = some (pos 0)
negate (some (suc n)) = if ltb (suc n) (2 ^ 63 + 1) then some (negsuc n) else none

abbrev positive : Option ℕ → Option ℤ
positive none = none
positive (some n) = some (pos n)

-- `s.parse::<i64>()`
unfoldable pub parse_i64 : List ℕ → Option ℤ
unfolding parse_unsigned parse_digits
parse_i64 [] = none
parse_i64 (c ∷ []) = positive (parse_unsigned 63 (c ∷ []))
parse_i64 (c ∷ d ∷ cs) =
    if c == b'-'
    then negate (parse_digits (2 ^ 63 + 1) 0 (d ∷ cs))
    else positive (parse_unsigned 63 (c ∷ d ∷ cs))
