-- ===== src/Args/Startup.antt =====
-- src/args.rs: `parse_startup_args`, and what it makes of each argument (`LdkUserInfo` of
-- src/cli/mod.rs).
use cardano_lightning_relay.Prelude.{
  ℕ, zero, suc, ◌-◌, ltb, String, codes, same_text, split_on, parse_unsigned, Bool, true, false,
  ◌||◌, Option, none, some, List, [], ◌∷◌, ◌++◌, length, if◌then◌else◌,
}
use cardano_lightning_relay.Args.Text.{Text, rsplit_once, as_bytes}
use cardano_lightning_relay.Args.Auth.{
  Env, Network, and_then, or_else, two_of, parse_rpc_auth, get_rpc_auth_from_env_vars,
  get_rpc_auth_from_env_file, get_rpc_auth_from_cookie,
}

-- A panic, `Err(())`, or a value.
pub data Reading (A : Type 0) : Type 0 where
  panics : Reading A
  refused : Reading A
  read : A → Reading A

abbrev pub reading : {A B : Type 0} → Reading A → (A → Reading B) → Reading B
reading Reading.panics f = Reading.panics
reading Reading.refused f = Reading.refused
reading (Reading.read a) f = f a

abbrev pub or_panic : {A : Type 0} → Option A → Reading A
or_panic none = Reading.panics
or_panic (some a) = Reading.read a

abbrev pub or_refuse : {A : Type 0} → Option A → Reading A
or_refuse none = Reading.refused
or_refuse (some a) = Reading.read a

pub record CardanoRelayConfig : Type 0 where
  pub blockfrost_url : Text
  pub blockfrost_key : Text
  pub skey_path : Text
  pub script_address : Text
  pub script_cbor_path : Text
  pub cbtc_policy_id : Text
  pub cbtc_asset_name : Text
  pub operator_address : Text
  pub operator_pkh : Text

pub record LdkUserInfo (Addr : Type 0) : Type 0 where
  pub bitcoind_rpc_username : Text
  pub bitcoind_rpc_password : Text
  pub bitcoind_rpc_port : ℕ
  pub bitcoind_rpc_host : Text
  pub ldk_storage_dir_path : Text
  pub ldk_peer_listening_port : ℕ
  pub ldk_announced_listen_addr : List Addr
  pub ldk_announced_node_name : List ℕ
  pub network : Network
  pub cardano : Option CardanoRelayConfig

-- `skip(n)` on the arguments, and `next()`.
abbrev pub skip : ℕ → List Text → List Text
skip zero args = args
skip (suc n) [] = []
skip (suc n) (arg ∷ args) = skip n args

abbrev pub next : List Text → Option Text
next [] = none
next (arg ∷ args) = some arg

-- The address, and the credentials before the last `@`, if there is one.
abbrev pub rpc_parts : Text → Option (Text × Text) → Text × Option Text
rpc_parts info none = (info, none)
rpc_parts info (some (auth, address)) = (address, some auth)

abbrev port_or : Option ℕ → ℕ × Bool
port_or (some p) = (p, true)
port_or none = (9735, false)

-- The listening port, and whether it was set.
unfoldable pub peer_port : Option Text → ℕ × Bool
peer_port arg = port_or (and_then arg (parse_unsigned 16))

unfoldable pub network_of : Option Text → Reading Network
network_of none = Reading.read Network.testnet
network_of (some net) =
    if same_text net (codes "testnet")
    then Reading.read Network.testnet
    else if same_text net (codes "regtest")
    then Reading.read Network.regtest
    else if same_text net (codes "signet")
    then Reading.read Network.signet
    else Reading.panics

abbrev pub zeros : ℕ → List ℕ
zeros zero = []
zeros (suc n) = 0 ∷ zeros n

unfoldable pub announced_name : Option Text → Reading (List ℕ)
announced_name none = Reading.read (zeros 32)
announced_name (some s) =
    if ltb 32 (length (as_bytes s))
    then Reading.panics
    else Reading.read (as_bytes s ++ zeros (32 - length (as_bytes s)))

module _ {PathBuf Addr : Type 0} (env : Env PathBuf Addr) where
  unfoldable pub listen_addrs : List Text → Reading (List Addr)
  listen_addrs [] = Reading.read []
  listen_addrs (s ∷ args) =
      reading (or_panic (env.socket_addr s))
        λ sa. reading (listen_addrs args) λ others. Reading.read (sa ∷ others)

  abbrev is_on : Option Text → Bool
  is_on none = false
  is_on (some v) = same_text v (codes "1") || same_text v (codes "true")

  abbrev or_default : Option Text → String → Text
  or_default none text = codes text
  or_default (some v) text = v

  unfoldable pub cardano_config : Reading (Option CardanoRelayConfig)
  cardano_config =
      let config : Reading (Option CardanoRelayConfig) =
        reading (or_panic (env.var "CARDANO_SKEY_PATH")) λ skey_path.
          reading (or_panic (env.var "CARDANO_SCRIPT_ADDRESS")) λ script_address.
            reading (or_panic (env.var "CARDANO_SCRIPT_CBOR_PATH")) λ script_cbor_path.
              reading (or_panic (env.var "CARDANO_CBTC_POLICY_ID")) λ cbtc_policy_id.
                reading (or_panic (env.var "CARDANO_CBTC_ASSET_NAME")) λ cbtc_asset_name.
                  reading (or_panic (env.var "CARDANO_OPERATOR_ADDRESS")) λ operator_address.
                    reading (or_panic (env.var "CARDANO_OPERATOR_PKH")) λ operator_pkh.
                      Reading.read (
                        some (record {
                          blockfrost_url =
                              or_default (env.var "CARDANO_BLOCKFROST_URL")
                                "http://localhost:8080/api/v1/";
                          blockfrost_key = or_default (env.var "CARDANO_BLOCKFROST_KEY") "local";
                          skey_path = skey_path;
                          script_address = script_address;
                          script_cbor_path = script_cbor_path;
                          cbtc_policy_id = cbtc_policy_id;
                          cbtc_asset_name = cbtc_asset_name;
                          operator_address = operator_address;
                          operator_pkh = operator_pkh;
                        })) in
      if is_on (env.var "CARDANO_ENABLED") then config else Reading.read none

  -- The credentials: from the argument, or else from the first of the three sources that has them.
  unfoldable pub credentials : Network → Option Text → Option (Text × Text)
  unfolding parse_rpc_auth get_rpc_auth_from_env_vars get_rpc_auth_from_env_file
      get_rpc_auth_from_cookie
  credentials network (some auth) = parse_rpc_auth auth
  credentials network none = or_else (get_rpc_auth_from_env_vars env) (
      or_else (get_rpc_auth_from_env_file env none)
        (get_rpc_auth_from_cookie env none (some network) none))

  -- From the third argument on: `options` is `env::args().skip(3)`.
  unfoldable pub parse_options : Text → Text → List Text → Reading (LdkUserInfo Addr)
  unfolding rsplit_once peer_port network_of credentials announced_name listen_addrs cardano_config
  parse_options info dir options =
      let parts = rpc_parts info (rsplit_once b'@' info) in
      reading (or_refuse (two_of (split_on b':' parts.0))) λ path.
        reading (or_panic (parse_unsigned 16 path.1)) λ port.
          let peer = peer_port (next options) in
          let rest = if peer.1 then skip 1 options else options in
          reading (network_of (next rest)) λ network.
            reading (or_refuse (credentials network parts.1)) λ auth.
              reading (announced_name (next (skip 1 rest))) λ name.
                reading (listen_addrs (skip 2 rest)) λ addrs. reading cardano_config λ cardano.
                  Reading.read (record {
                    bitcoind_rpc_username = auth.0;
                    bitcoind_rpc_password = auth.1;
                    bitcoind_rpc_port = port;
                    bitcoind_rpc_host = path.0;
                    ldk_storage_dir_path = dir;
                    ldk_peer_listening_port = peer.0;
                    ldk_announced_listen_addr = addrs;
                    ldk_announced_node_name = name;
                    network = network;
                    cardano = cardano;
                  })

  abbrev pub by_args : List Text → Reading (LdkUserInfo Addr)
  by_args [] = Reading.refused
  by_args (program ∷ []) = Reading.refused
  by_args (program ∷ info ∷ []) = Reading.refused
  by_args (program ∷ info ∷ dir ∷ options) = parse_options info dir options

  unfoldable pub parse_startup_args : Reading (LdkUserInfo Addr)
  unfolding parse_options
  parse_startup_args = by_args env.args
