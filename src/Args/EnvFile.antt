-- ===== src/Args/EnvFile.antt =====
-- The env file of src/args.rs: what is read back of a file that is written out of key-value pairs.
use cardano_lightning_relay.Prelude.{
  ◌≡◌, refl, ap, Option, none, some, List, [], ◌∷◌, ◌++◌, All, map, same_text, if◌then◌else◌,
}
use cardano_lightning_relay.Types.{Result}
use cardano_lightning_relay.Args.Text.{Text, strip_return, lines, lines_from}
use cardano_lightning_relay.Args.Auth.{Env, lookup, collect, file_name, parse_env_file}
use cardano_lightning_relay.Args.Splits.{Lacks, around, around-Lacks, split_once-around}

-- A pair can be written on one line: neither text has a `\n` or a `\r`, and the key has no `=`.
abbrev pub IsLine : Text × Text → Type 0
IsLine (key, value) =
    (Lacks b'=' key × (Lacks 10 key × Lacks 13 key)) × (Lacks 10 value × Lacks 13 value)

abbrev pub line_of : Text × Text → Text
line_of (key, value) = around b'=' key value

unfoldable pub written : List (Text × Text) → Text
written [] = []
written (entry ∷ entries) = around 10 (line_of entry) (written entries)

-- The value of the last pair with the key.
abbrev pub latest : Text → Option Text → List (Text × Text) → Option Text
latest key found [] = found
latest key found ((k, v) ∷ entries) = latest key (if same_text k key then some v else found) entries

strip_return-Lacks : (s : Text) → Lacks 13 s → strip_return s ≡ s
unfolding strip_return
strip_return-Lacks [] h = refl
strip_return-Lacks (c ∷ []) h = rw (h.0) refl
strip_return-Lacks (c ∷ d ∷ cs) h = ap (λ (s : Text). c ∷ s) (strip_return-Lacks (d ∷ cs) h.1)

append_assoc : (a b c : Text) → (a ++ b) ++ c ≡ a ++ (b ++ c)
append_assoc [] b c = refl
append_assoc (x ∷ a) b c = ap (λ (s : Text). x ∷ s) (append_assoc a b c)

append_nil : (a : Text) → a ++ [] ≡ a
append_nil [] = refl
append_nil (x ∷ a) = ap (λ (s : Text). x ∷ s) (append_nil a)

lines_from-around :
    (line s rest : Text)
    → Lacks 10 s
    → lines_from line (around 10 s rest) ≡ strip_return (line ++ s) ∷ lines_from [] rest
unfolding lines_from around
lines_from-around line [] rest h = rw (append_nil line) refl
lines_from-around line (c ∷ s) rest h =
    rw (h.0, lines_from-around (line ++ (c ∷ [])) s rest h.1, append_assoc line (c ∷ []) s) refl

lines-written :
    (entries : List (Text × Text))
    → All IsLine entries
    → lines_from [] (written entries) ≡ map line_of entries
unfolding lines_from written
lines-written [] h = refl
lines-written ((key, value) ∷ entries) h =
    let ((_, (key_line, key_plain)), (value_line, value_plain)) = h.0 in
    rw
      (
        lines_from-around [] (around b'=' key value) (written entries)
            (around-Lacks b'=' 10 key value key_line refl value_line),
        strip_return-Lacks (around b'=' key value)
            (around-Lacks b'=' 13 key value key_plain refl value_plain),
        lines-written entries h.1,
      )
      refl

-- The map that the loop builds, and what is found in it.
abbrev collected : List (Text × Text) → List (Text × Text) → List (Text × Text)
collected [] m = m
collected (entry ∷ entries) m = collected entries (entry ∷ m)

collect-collected :
    (entries m : List (Text × Text))
    → All IsLine entries
    → collect (map line_of entries) m ≡ some (collected entries m)
unfolding collect
collect-collected [] m h = refl
collect-collected ((key, value) ∷ entries) m h =
    rw (split_once-around b'=' key value h.0.0.0) (collect-collected entries ((key, value) ∷ m) h.1)

lookup-collected :
    (key : Text) (entries m : List (Text × Text))
    → lookup key (collected entries m) ≡ latest key (lookup key m) entries
unfolding lookup
lookup-collected key [] m = refl
lookup-collected key ((k, v) ∷ entries) m = lookup-collected key entries ((k, v) ∷ m)

-- A file that has a line for each of some pairs, whose keys have no equals sign and whose texts have no
-- line break, is read as a map in which each key has the value of its last pair, and no other key has
-- a value.
pub parse_env_file-written :
    {PathBuf Addr : Type 0} (env : Env PathBuf Addr) (name : Option Text)
    (entries : List (Text × Text))
    → All IsLine entries
    → env.read_to_string (env.path (file_name env name)) ≡ Result.ok (written entries)
    → (m : List (Text × Text)) × (parse_env_file env name ≡ some m)
      × ((key : Text) → lookup key m ≡ latest key none entries)
unfolding parse_env_file lines lookup
parse_env_file-written env name entries plain contents = (
  collected entries [],
  rw (contents, lines-written entries plain) (collect-collected entries [] plain),
  λ key. lookup-collected key entries [],
)
