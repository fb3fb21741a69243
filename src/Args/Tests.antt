-- ===== src/Args/Tests.antt =====
-- src/args.rs on a concrete environment.
use cardano_lightning_relay.Prelude.{
  ℕ, String, codes, parse_unsigned, ◌≡◌, ◌≢◌, refl, Bool, true, false, Option, none, some, List, [],
  ◌∷◌, ◌++◌, ◌==◌, arith, if◌then◌else◌, same_text,
}
use cardano_lightning_relay.Types.{Result}
use cardano_lightning_relay.Args.Text.{Text, as_bytes, split_once}
use cardano_lightning_relay.Args.Splits.{Lacks, around}
use cardano_lightning_relay.Args.Auth.{
  Env, Network, lookup, parse_env_file, get_rpc_auth_from_env_file, get_cookie_path,
}
use cardano_lightning_relay.Args.Startup.{Reading, parse_startup_args, cardano_config}
use cardano_lightning_relay.Args.CommandLine.{
  Given, IsGiven, command_line, startup_info, parse_startup_args-command_line,
}
use cardano_lightning_relay.Args.EnvFile.{IsLine, written, latest, parse_env_file-written}

abbrev given : Given Text
given = record {
  user = codes "alice";
  password = codes "s@cret";
  host = codes "127.0.0.1";
  port = codes "18443";
  dir = codes "data";
  peer_port = codes "9735";
  network = Network.regtest;
  name = codes "relay";
  addrs = (codes "a:1", codes "a:1") ∷ [];
}

abbrev entries : List (Text × Text)
entries =
    (codes "RPC_USER", codes "old")
    ∷ (codes "RPC_PASSWORD", codes "a=b")
    ∷ (codes "RPC_USER", codes "new")
    ∷ []

abbrev no_var : String → Option Text
no_var key = none

abbrev env : Env Text Text
env = record {
  args = command_line (codes "relay") given;
  var = no_var;
  home_dir = some (codes "/home/op");
  path = λ text. text;
  join = λ dir text. dir ++ codes "/" ++ text;
  read_to_string = λ path. Result.ok (written entries);
  socket_addr = λ text. some text;
}

abbrev has_none : ℕ → Text → Bool
has_none sep [] = true
has_none sep (c ∷ cs) = let rest = has_none sep cs in if c == sep then false else rest

if_not : (b r : Bool) → (if b then false else r) ≡ true → (b ≡ false) × (r ≡ true)
if_not true r h = absurd (cc h)
if_not false r h = (refl, h)

has_none-Lacks : (sep : ℕ) (s : Text) → has_none sep s ≡ true → Lacks sep s
has_none-Lacks sep [] h = tt
has_none-Lacks sep (c ∷ cs) h =
    let both = if_not (c == sep) (has_none sep cs) h in (both.0, has_none-Lacks sep cs both.1)

cookie_path :
    get_cookie_path env none (some Network.regtest) none
    ≡ some (codes "/home/op/.bitcoin/regtest/.cookie")
unfolding get_cookie_path
cookie_path = refl

from_env_file : get_rpc_auth_from_env_file env none ≡ some (codes "new", codes "a=b")
unfolding get_rpc_auth_from_env_file written around split_once same_text
from_env_file = refl

regtest≢bitcoin : Network.regtest ≢ Network.bitcoin
regtest≢bitcoin h = cc h

given-IsGiven : IsGiven env given 18443 9735
unfolding parse_unsigned as_bytes
given-IsGiven = record {
  user_plain = has_none-Lacks b':' given.user refl;
  password_plain = has_none-Lacks b':' given.password refl;
  host_plain = (has_none-Lacks b':' given.host refl, has_none-Lacks b'@' given.host refl);
  port_read = refl;
  peer_read = refl;
  supported = regtest≢bitcoin;
  short = omega arith;
  known = (refl, tt);
}

no_cardano : cardano_config env ≡ Reading.read none
unfolding cardano_config
no_cardano = refl

parse_startup_args-command_line_example :
    parse_startup_args env ≡ Reading.read (startup_info env given 18443 9735 none)
parse_startup_args-command_line_example =
    parse_startup_args-command_line env (codes "relay") given 18443 9735 none refl given-IsGiven
      no_cardano

-- A pair of texts, checked by a scan of each.
plain-IsLine :
    (key value : Text)
    → has_none b'=' key ≡ true
    → (has_none 10 key ≡ true) × (has_none 13 key ≡ true)
    → (has_none 10 value ≡ true) × (has_none 13 value ≡ true)
    → IsLine (key, value)
plain-IsLine key value no_equals key_line value_line = (
  (
    has_none-Lacks b'=' key no_equals,
    (has_none-Lacks 10 key key_line.0, has_none-Lacks 13 key key_line.1),
  ),
  (has_none-Lacks 10 value value_line.0, has_none-Lacks 13 value value_line.1),
)

parse_env_file-written_example :
    (m : List (Text × Text)) × (parse_env_file env none ≡ some m)
    × ((key : Text) → lookup key m ≡ latest key none entries)
parse_env_file-written_example =
    parse_env_file-written env none entries
      (
        plain-IsLine (codes "RPC_USER") (codes "old") refl (refl, refl) (refl, refl),
        (
          plain-IsLine (codes "RPC_PASSWORD") (codes "a=b") refl (refl, refl) (refl, refl),
          (plain-IsLine (codes "RPC_USER") (codes "new") refl (refl, refl) (refl, refl), tt),
        ),
      )
      refl
