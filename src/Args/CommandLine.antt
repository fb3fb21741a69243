-- ===== src/Args/CommandLine.antt =====
-- A command line that is written out of its parts, and what `parse_startup_args` of src/args.rs reads.
use cardano_lightning_relay.Prelude.{
  ℕ, ◌-◌, ◌≤◌, ltb, ◌≡◌, ◌≢◌, refl, ap, ◌∙◌, codes, same_text, parse_unsigned, false, Option, some,
  List, [], ◌∷◌, ◌++◌, All, map, length, arith,
}
use cardano_lightning_relay.Args.Text.{Text, as_bytes}
use cardano_lightning_relay.Args.Auth.{Env, Network, parse_rpc_auth}
use cardano_lightning_relay.Args.Startup.{
  Reading, LdkUserInfo, CardanoRelayConfig, zeros, peer_port, network_of, announced_name,
  listen_addrs, cardano_config, credentials, by_args, parse_options, parse_startup_args,
}
use cardano_lightning_relay.Args.Splits.{
  Lacks, around, around-Lacks, parse_unsigned-Lacks, split_on-around, rsplit_once-around,
}

unfoldable pub network_text : Network → Text
network_text Network.bitcoin = codes "bitcoin"
network_text Network.testnet = codes "testnet"
network_text Network.regtest = codes "regtest"
network_text Network.signet = codes "signet"

network_of-text :
    (n : Network) → n ≢ Network.bitcoin → network_of (some (network_text n)) ≡ Reading.read n
unfolding network_of network_text same_text
network_of-text Network.bitcoin h = absurd (h refl)
network_of-text Network.testnet h = refl
network_of-text Network.regtest h = refl
network_of-text Network.signet h = refl

-- What a user gives: the credentials and the address of the Bitcoin node, and the options.
pub record Given (Addr : Type 0) : Type 0 where
  pub user : Text
  pub password : Text
  pub host : Text
  pub port : Text
  pub dir : Text
  pub peer_port : Text
  pub network : Network
  pub name : Text
  pub addrs : List (Text × Addr)

abbrev pub rpc_info : {Addr : Type 0} → Given Addr → Text
rpc_info g = around b'@' (around b':' g.user g.password) (around b':' g.host g.port)

abbrev pub command_line : {Addr : Type 0} → Text → Given Addr → List Text
command_line {Addr = Addr} program g =
    program
    ∷ rpc_info g
    ∷ g.dir
    ∷ g.peer_port
    ∷ network_text g.network
    ∷ g.name
    ∷ map (λ (a : Text × Addr). a.0) g.addrs

module _ {PathBuf Addr : Type 0} (env : Env PathBuf Addr) where
  -- What can be written on a command line: the separators stand in no part of the address and of the
  -- credentials but for an `@` in these, both ports are numbers of 16 bits, the network is one of the
  -- three that are supported, the name is short enough, and the node knows the addresses.
  pub record IsGiven (g : Given Addr) (port peer : ℕ) : Type 0 where
    pub user_plain : Lacks b':' g.user
    pub password_plain : Lacks b':' g.password
    pub host_plain : Lacks b':' g.host × Lacks b'@' g.host
    pub port_read : parse_unsigned 16 g.port ≡ some port
    pub peer_read : parse_unsigned 16 g.peer_port ≡ some peer
    pub supported : g.network ≢ Network.bitcoin
    pub short : length (as_bytes g.name) ≤ 32
    pub known : All (λ (a : Text × Addr). env.socket_addr a.0 ≡ some a.1) g.addrs

  abbrev pub startup_info : Given Addr → ℕ → ℕ → Option CardanoRelayConfig → LdkUserInfo Addr
  startup_info g port peer cardano = record {
    bitcoind_rpc_username = g.user;
    bitcoind_rpc_password = g.password;
    bitcoind_rpc_port = port;
    bitcoind_rpc_host = g.host;
    ldk_storage_dir_path = g.dir;
    ldk_peer_listening_port = peer;
    ldk_announced_listen_addr = map (λ (a : Text × Addr). a.1) g.addrs;
    ldk_announced_node_name = as_bytes g.name ++ zeros (32 - length (as_bytes g.name));
    network = g.network;
    cardano = cardano;
  }

  listen_addrs-known :
      (addrs : List (Text × Addr))
      → All (λ (a : Text × Addr). env.socket_addr a.0 ≡ some a.1) addrs
      → listen_addrs env (map (λ (a : Text × Addr). a.0) addrs)
        ≡ Reading.read (map (λ (a : Text × Addr). a.1) addrs)
  unfolding listen_addrs
  listen_addrs-known [] h = refl
  listen_addrs-known (a ∷ addrs) h = rw (h.0, listen_addrs-known addrs h.1) refl

  announced_name-short :
      (s : Text)
      → length (as_bytes s) ≤ 32
      → announced_name (some s) ≡ Reading.read (as_bytes s ++ zeros (32 - length (as_bytes s)))
  unfolding announced_name
  announced_name-short s h =
      let fits : ltb 32 (length (as_bytes s)) ≡ false = ground arith in rw fits refl

  parse_options-command_line :
      (g : Given Addr) (port peer : ℕ) (cardano : Option CardanoRelayConfig)
      → IsGiven g port peer
      → cardano_config env ≡ Reading.read cardano
      → parse_options env
          (rpc_info g)
          g.dir
          (g.peer_port ∷ network_text g.network ∷ g.name ∷ map (λ (a : Text × Addr). a.0) g.addrs)
        ≡ Reading.read (startup_info g port peer cardano)
  unfolding parse_options credentials parse_rpc_auth peer_port
  parse_options-command_line g port peer cardano given config =
      let address : Lacks b'@' (around b':' g.host g.port) =
        around-Lacks b':' b'@' g.host g.port (given.host_plain.1) refl
          (parse_unsigned-Lacks 16 b'@' g.port port (omega arith) given.port_read) in
      let digits : Lacks b':' g.port =
        parse_unsigned-Lacks 16 b':' g.port port (omega arith) given.port_read in
      rw
        (
          rsplit_once-around b'@' (around b':' g.user g.password) (around b':' g.host g.port)
              address,
          split_on-around b':' g.host g.port given.host_plain.0 digits,
          given.port_read,
          given.peer_read,
          network_of-text g.network given.supported,
          split_on-around b':' g.user g.password given.user_plain given.password_plain,
          announced_name-short g.name given.short,
          listen_addrs-known g.addrs given.known,
          config,
        )
        refl

  -- Take settings in which user and password have no `:`, the host has neither `:` nor `@`, both ports
  -- are numbers of 16 bits, the network is not mainnet, the name has at most 32 bytes, and the listening
  -- addresses can be parsed; and let the variables give a configuration of Cardano, or none, without a
  -- panic. Then the command line that is written out of the settings is read back as these settings,
  -- the ports as numbers and the name padded to 32 bytes, with that configuration.
  pub parse_startup_args-command_line :
      (program : Text) (g : Given Addr) (port peer : ℕ) (cardano : Option CardanoRelayConfig)
      → env.args ≡ command_line program g
      → IsGiven g port peer
      → cardano_config env ≡ Reading.read cardano
      → parse_startup_args env ≡ Reading.read (startup_info g port peer cardano)
  unfolding parse_startup_args
  parse_startup_args-command_line program g port peer cardano args given config =
      ap (by_args env) args ∙ parse_options-command_line g port peer cardano given config
