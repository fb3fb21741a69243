-- ===== src/Chain/Utxos/Tests.antt =====
-- Tests of `list_confirmed_utxos`, with scripts that are their witness programs.
use cardano_lightning_relay.Prelude.{
  ℕ, ◌≡◌, refl, ap, ◌==◌, ==_iff, Bool, true, false, not, ◌&&◌, Option, none, some, List, [], ◌∷◌,
  length, map, arith, if◌then◌else◌,
}
use cardano_lightning_relay.Types.{Result}
use cardano_lightning_relay.Chain.Convert.{ListUnspentUtxo}
use cardano_lightning_relay.Chain.Utxos.{
  Utxo, Scripts, bitcoind_list_confirmed_utxos, bdk_list_confirmed_utxos,
}
use cardano_lightning_relay.Chain.Utxos.Same.{
  passes, IsDocumented, local_output, confirmed_only, bdk_list_confirmed_utxos-eq-bitcoind,
}

abbrev Program : Type 0
Program = Bool × List ℕ

abbrev key_hash : Program → Bool
key_hash (v0, bytes) = v0 && length bytes == 20

abbrev script_bytes : Option Program → List ℕ
script_bytes none = []
script_bytes (some p) = 0 ∷ 20 ∷ p.1

abbrev lib : Scripts ℕ (Option Program) (Option Program) Program (List ℕ)
lib = record {
  script_pubkey = λ a. a;
  witness_program = λ a. a;
  program_is_p2wpkh = key_hash;
  program_is_p2tr = λ p. not p.0;
  program_bytes = λ p. p.1;
  hash_from_slice = λ bs. if length bs == 20 then Result.ok bs else Result.err "length";
  hash_from_byte_array = λ bs. bs;
  x_only_from_slice = λ bs. Result.ok tt;
  is_p2wpkh = passes key_hash;
  is_p2tr = passes (λ p. not p.0);
  as_bytes = script_bytes;
  new_v0_p2wpkh = λ txid vout value hash. record {
    txid = txid;
    vout = vout;
    value = value;
    script_pubkey = some (true, hash);
    satisfaction_weight = 107;
  };
}

twenty : (p : Program) → key_hash p ≡ true → length p.1 ≡ 20
twenty (true, bytes) h = ground (arith, ==_iff (length bytes) 20)
twenty (false, bytes) h = absurd (cc h)

lib-IsDocumented : IsDocumented lib
lib-IsDocumented = record {
  p2wpkh_script = λ a. refl;
  p2tr_script = λ a. refl;
  p2wpkh_bytes = λ a p e h. (ap script_bytes e, twenty p h);
  hash_from_20_bytes = λ bs h. rw h refl;
}

abbrev taproot : ListUnspentUtxo ℕ (Option Program)
taproot = record { txid = 1; vout = 0; amount = 5000; address = some (false, 9 ∷ []) }

abbrev legacy : ListUnspentUtxo ℕ (Option Program)
legacy = record { txid = 2; vout = 1; amount = 700; address = none }

abbrev outputs : List (Bool × ListUnspentUtxo ℕ (Option Program))
outputs = (true, taproot) ∷ (false, taproot) ∷ (true, legacy) ∷ []

abbrev listed : Utxo ℕ (Option Program)
listed = record {
  txid = 1;
  vout = 0;
  value = 5000;
  script_pubkey = some (false, 9 ∷ []);
  satisfaction_weight = 70;
}

lists_taproot : bitcoind_list_confirmed_utxos lib (confirmed_only lib outputs) ≡ listed ∷ []
unfolding bitcoind_list_confirmed_utxos
lists_taproot = refl

bdk_list_confirmed_utxos-eq-bitcoind_example :
    bdk_list_confirmed_utxos lib (map (local_output lib) outputs)
    ≡ some (bitcoind_list_confirmed_utxos lib (confirmed_only lib outputs))
bdk_list_confirmed_utxos-eq-bitcoind_example =
    bdk_list_confirmed_utxos-eq-bitcoind lib lib-IsDocumented outputs
      ((λ p e h. refl), ((λ p e h. refl), tt))
