-- ===== src/Chain/Utxos.antt =====
-- `list_confirmed_utxos` of src/bitcoind_client.rs and of src/bdk_wallet.rs: which outputs can be
-- spent, and what they cost to spend. The types and functions of the bitcoin crate are parameters.
pub mod Same
pub mod Tests
use cardano_lightning_relay.Prelude.{
  ℕ, zero, suc, ◌+◌, ◌*◌, ltb, Bool, true, false, Option, none, some, List, [], ◌∷◌, length, take,
  if◌then◌else◌,
}
use cardano_lightning_relay.Types.{Result}
use cardano_lightning_relay.Chain.Convert.{ListUnspentUtxo, unwrapped}

-- An output that the node can spend; `plain` is the record that the source writes out.
pub record Utxo (Txid Script : Type 0) : Type 0 where
  pub txid : Txid
  pub vout : ℕ
  pub value : ℕ
  pub script_pubkey : Script
  pub satisfaction_weight : ℕ

-- What BDK lists.
pub record LocalOutput (Txid Script : Type 0) : Type 0 where
  pub txid : Txid
  pub vout : ℕ
  pub value : ℕ
  pub script_pubkey : Script
  pub is_confirmed : Bool

-- `ScriptBuf`, `Address`, `WitnessProgram`, `WPubkeyHash` and `XOnlyPublicKey`.
pub record Scripts (Txid Script Address Program Hash : Type 0) : Type 0 where
  pub script_pubkey : Address → Script
  pub witness_program : Address → Option Program
  pub program_is_p2wpkh : Program → Bool
  pub program_is_p2tr : Program → Bool
  pub program_bytes : Program → List ℕ
  pub hash_from_slice : List ℕ → Result Hash
  pub hash_from_byte_array : List ℕ → Hash
  pub x_only_from_slice : List ℕ → Result Unit
  pub is_p2wpkh : Script → Bool
  pub is_p2tr : Script → Bool
  pub as_bytes : Script → List ℕ
  pub new_v0_p2wpkh : Txid → ℕ → ℕ → Hash → Utxo Txid Script

abbrev witness_scale_factor : ℕ
witness_scale_factor = 4

abbrev drop : ℕ → List ℕ → List ℕ
drop zero xs = xs
drop (suc n) [] = []
drop (suc n) (x ∷ xs) = drop n xs

-- `.filter_map(f).collect()`
abbrev pub cons_some : {B : Type 0} → Option B → List B → List B
cons_some none bs = bs
cons_some (some b) bs = b ∷ bs

abbrev pub filter_map : {A B : Type 0} → (A → Option B) → List A → List B
filter_map f [] = []
filter_map f (a ∷ as') = cons_some (f a) (filter_map f as')

module _ {Txid Script Address Program Hash : Type 0}
    (lib : Scripts Txid Script Address Program Hash) where
  abbrev pub p2tr_utxo : Txid → ℕ → ℕ → Script → ℕ → Utxo Txid Script
  p2tr_utxo txid vout value script satisfaction_weight = record {
    txid = txid;
    vout = vout;
    value = value;
    script_pubkey = script;
    satisfaction_weight = satisfaction_weight;
  }

  abbrev pub wpkh_utxo : ListUnspentUtxo Txid Address → Result Hash → Option (Utxo Txid Script)
  wpkh_utxo utxo (Result.ok wpkh) = some (lib.new_v0_p2wpkh utxo.txid utxo.vout utxo.amount wpkh)
  wpkh_utxo utxo (Result.err e) = none

  abbrev pub taproot_utxo : ListUnspentUtxo Txid Address → Result Unit → Option (Utxo Txid Script)
  taproot_utxo utxo (Result.ok key) = some (
      p2tr_utxo utxo.txid utxo.vout utxo.amount (lib.script_pubkey utxo.address)
        (1 * witness_scale_factor + 1 + 1 + 64))
  taproot_utxo utxo (Result.err e) = none

  abbrev pub by_program : ListUnspentUtxo Txid Address → Option Program → Option (Utxo Txid Script)
  by_program utxo none = none
  by_program utxo (some prog) =
      if lib.program_is_p2wpkh prog
      then wpkh_utxo utxo (lib.hash_from_slice (lib.program_bytes prog))
      else if lib.program_is_p2tr prog
      then taproot_utxo utxo (lib.x_only_from_slice (lib.program_bytes prog))
      else none

  abbrev pub bitcoind_utxo : ListUnspentUtxo Txid Address → Option (Utxo Txid Script)
  bitcoind_utxo utxo = by_program utxo (lib.witness_program utxo.address)

  unfoldable pub bitcoind_list_confirmed_utxos :
      List (ListUnspentUtxo Txid Address) → List (Utxo Txid Script)
  bitcoind_list_confirmed_utxos utxos = filter_map bitcoind_utxo utxos

  -- `script.as_bytes()[2..22].try_into().ok()?`: a shorter script panics, the outer `none`.
  abbrev pub hash_bytes : Script → Option (List ℕ)
  hash_bytes script =
      if ltb (length (lib.as_bytes script)) 22
      then none
      else some (take 20 (drop 2 (lib.as_bytes script)))

  abbrev pub bdk_utxo : LocalOutput Txid Script → Option (Option (Utxo Txid Script))
  bdk_utxo u =
      if lib.is_p2wpkh u.script_pubkey
      then unwrapped (hash_bytes u.script_pubkey) (λ bytes.
        some (some (lib.new_v0_p2wpkh u.txid u.vout u.value (lib.hash_from_byte_array bytes))))
      else if lib.is_p2tr u.script_pubkey
      then some (some (p2tr_utxo u.txid u.vout u.value u.script_pubkey (1 * 4 + 1 + 1 + 64)))
      else some none

  abbrev pub bdk_collect : List (LocalOutput Txid Script) → Option (List (Utxo Txid Script))
  bdk_collect [] = some []
  bdk_collect (u ∷ us) =
      let others = bdk_collect us in
      if u.is_confirmed
      then unwrapped (bdk_utxo u) (λ o. unwrapped others (λ rest. some (cons_some o rest)))
      else others

  unfoldable pub bdk_list_confirmed_utxos :
      List (LocalOutput Txid Script) → Option (List (Utxo Txid Script))
  bdk_list_confirmed_utxos utxos = bdk_collect utxos
