-- ===== src/Args/Auth.antt =====
-- src/args.rs: the credentials for the Bitcoin node, from the environment, the env file or the cookie.
use cardano_lightning_relay.Prelude.{
  String, codes, same_text, split_on, Bool, true, false, Option, none, some, List, [], ◌∷◌,
  if◌then◌else◌,
}
use cardano_lightning_relay.Types.{Result}
use cardano_lightning_relay.Args.Text.{Text, split_once, lines}

-- What the process finds around it: the arguments, the variables, the home directory and the files.
pub record Env (PathBuf Addr : Type 0) : Type 0 where
  pub args : List Text
  pub var : String → Option Text
  pub home_dir : Option PathBuf
  pub path : Text → PathBuf
  pub join : PathBuf → Text → PathBuf
  pub read_to_string : PathBuf → Result Text
  pub socket_addr : Text → Option Addr

pub data Network : Type 0 where
  bitcoin : Network
  testnet : Network
  regtest : Network
  signet : Network

abbrev pub and_then : {A B : Type 0} → Option A → (A → Option B) → Option B
and_then none f = none
and_then (some a) f = f a

abbrev ok_of : {A : Type 0} → Result A → Option A
ok_of (Result.ok a) = some a
ok_of (Result.err e) = none

abbrev pub or_else : {A : Type 0} → Option A → Option A → Option A
or_else (some a) other = some a
or_else none other = other

abbrev both : {A B : Type 0} → Option A → Option B → Option (A × B)
both (some a) (some b) = some (a, b)
both (some a) none = none
both none b = none

-- The pieces, when there are two of them.
abbrev pub two_of : List Text → Option (Text × Text)
two_of [] = none
two_of (a ∷ []) = none
two_of (a ∷ b ∷ []) = some (a, b)
two_of (a ∷ b ∷ c ∷ more) = none

-- `Err(())` is `none`.
unfoldable pub parse_rpc_auth : Text → Option (Text × Text)
parse_rpc_auth rpc_auth = two_of (split_on b':' rpc_auth)

-- The map of the env file: what is inserted later stands first and is found first.
unfoldable pub lookup : Text → List (Text × Text) → Option Text
lookup key [] = none
lookup key ((k, v) ∷ entries) =
    let rest = lookup key entries in if same_text k key then some v else rest

unfoldable pub collect : List Text → List (Text × Text) → Option (List (Text × Text))
collect [] entries = some entries
collect (line ∷ more) entries =
    and_then (split_once b'=' line) λ entry. collect more (entry ∷ entries)

module _ {PathBuf Addr : Type 0} (env : Env PathBuf Addr) where
  abbrev pub file_name : Option Text → Text
  file_name none = codes ".env"
  file_name (some name) = name

  unfoldable pub parse_env_file : Option Text → Option (List (Text × Text))
  unfolding collect lines
  parse_env_file env_file_name =
      and_then (ok_of (env.read_to_string (env.path (file_name env_file_name))))
        λ contents. collect (lines contents) []

  unfoldable pub get_rpc_auth_from_env_file : Option Text → Option (Text × Text)
  unfolding parse_env_file lookup
  get_rpc_auth_from_env_file env_file_name = and_then (parse_env_file env_file_name) λ env_file_map.
      both (lookup (codes "RPC_USER") env_file_map) (lookup (codes "RPC_PASSWORD") env_file_map)

  unfoldable pub get_rpc_auth_from_env_vars : Option (Text × Text)
  get_rpc_auth_from_env_vars = both (env.var "RPC_USER") (env.var "RPC_PASSWORD")

  abbrev pub under_home : Text → Option PathBuf
  under_home dir = and_then env.home_dir λ home. some (env.join home dir)

  -- The directory of the Linux build.
  abbrev pub data_dir_path : Option (Text × Bool) → Option PathBuf
  data_dir_path (some (dir, true)) = under_home dir
  data_dir_path (some (dir, false)) = some (env.path dir)
  data_dir_path none = under_home (codes ".bitcoin")

  abbrev pub with_net : Option Network → PathBuf → PathBuf
  with_net none dir = dir
  with_net (some Network.bitcoin) dir = dir
  with_net (some Network.testnet) dir = env.join dir (codes "testnet3")
  with_net (some Network.regtest) dir = env.join dir (codes "regtest")
  with_net (some Network.signet) dir = env.join dir (codes "signet")

  abbrev pub cookie_name : Option Text → Text
  cookie_name none = codes ".cookie"
  cookie_name (some name) = name

  unfoldable pub get_cookie_path :
      Option (Text × Bool) → Option Network → Option Text → Option PathBuf
  get_cookie_path data_dir network cookie_file_name =
      and_then (data_dir_path data_dir)
        λ dir. some (env.join (with_net network dir) (cookie_name cookie_file_name))

  unfoldable pub get_rpc_auth_from_cookie :
      Option (Text × Bool) → Option Network → Option Text → Option (Text × Text)
  unfolding get_cookie_path parse_rpc_auth
  get_rpc_auth_from_cookie data_dir network cookie_file_name =
      and_then (get_cookie_path data_dir network cookie_file_name) λ cookie_path.
        and_then (ok_of (env.read_to_string cookie_path))
          λ cookie_contents. parse_rpc_auth cookie_contents
