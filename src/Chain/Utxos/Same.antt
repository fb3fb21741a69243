-- ===== src/Chain/Utxos/Same.antt =====
-- The two wallets describe the same outputs in the same way.
use mathlib.Core.Path.{subst}
use cardano_lightning_relay.Prelude.{
  ℕ, ◌≡◌, refl, ap, ◌∙◌, inl, inr, Bool, true, false, Bool-cases, Option, none, some, List, [], ◌∷◌,
  length, take, All, map, if◌then◌else◌,
}
use cardano_lightning_relay.Types.{Result}
use cardano_lightning_relay.Chain.Convert.{ListUnspentUtxo}
use cardano_lightning_relay.Chain.Utxos.{
  LocalOutput, Scripts, bitcoind_utxo, by_program, bdk_utxo, bdk_collect, hash_bytes, filter_map,
  bitcoind_list_confirmed_utxos, bdk_list_confirmed_utxos,
}

abbrev pub passes : {A : Type 0} → (A → Bool) → Option A → Bool
passes p none = false
passes p (some a) = p a

take_all : (xs : List ℕ) → take (length xs) xs ≡ xs
take_all [] = refl
take_all (x ∷ xs) = ap (λ (l : List ℕ). x ∷ l) (take_all xs)

module _ {Txid Script Address Program Hash : Type 0}
    (lib : Scripts Txid Script Address Program Hash) where
  -- What the bitcoin crate documents: a script is of a kind when its address has a witness program of
  -- that kind, the script of a key hash is two bytes and the 20 bytes of the program, and 20 bytes
  -- are a hash.
  pub record IsDocumented : Type 0 where
    pub p2wpkh_script :
        (a : Address)
        → lib.is_p2wpkh (lib.script_pubkey a) ≡ passes lib.program_is_p2wpkh (lib.witness_program a)
    pub p2tr_script :
        (a : Address)
        → lib.is_p2tr (lib.script_pubkey a) ≡ passes lib.program_is_p2tr (lib.witness_program a)
    pub p2wpkh_bytes :
        (a : Address) (p : Program)
        → lib.witness_program a ≡ some p
        → lib.program_is_p2wpkh p ≡ true
        → (lib.as_bytes (lib.script_pubkey a) ≡ 0 ∷ 20 ∷ lib.program_bytes p)
          × (length (lib.program_bytes p) ≡ 20)
    pub hash_from_20_bytes :
        (bs : List ℕ)
        → length bs ≡ 20
        → lib.hash_from_slice bs ≡ Result.ok (lib.hash_from_byte_array bs)

  -- A taproot output has a valid key.
  abbrev pub HasValidKey : ListUnspentUtxo Txid Address → Type 0
  HasValidKey u =
      (p : Program)
      → lib.witness_program u.address ≡ some p
      → lib.program_is_p2tr p ≡ true
      → lib.x_only_from_slice (lib.program_bytes p) ≡ Result.ok tt

  -- An output as BDK lists it, and the ones that the node lists.
  abbrev pub local_output : Bool × ListUnspentUtxo Txid Address → LocalOutput Txid Script
  local_output (confirmed, u) = record {
    txid = u.txid;
    vout = u.vout;
    value = u.amount;
    script_pubkey = lib.script_pubkey u.address;
    is_confirmed = confirmed;
  }

  abbrev pub confirmed_only :
      List (Bool × ListUnspentUtxo Txid Address) → List (ListUnspentUtxo Txid Address)
  confirmed_only [] = []
  confirmed_only ((confirmed, u) ∷ us) =
      let rest = confirmed_only us in if confirmed then u ∷ rest else rest

  hash_bytes-some :
      (s : Script) (bs : List ℕ)
      → lib.as_bytes s ≡ 0 ∷ 20 ∷ bs
      → length bs ≡ 20
      → hash_bytes lib s ≡ some bs
  hash_bytes-some s bs e len =
      let whole : take 20 bs ≡ bs = subst (λ (n : ℕ). take n bs ≡ bs) len (take_all bs) in
      rw (e, len) (ap some whole)

  module _ (laws : IsDocumented) where
    by_kind :
        (u : ListUnspentUtxo Txid Address) (confirmed : Bool) (o : Option Program)
        → lib.witness_program u.address ≡ o
        → HasValidKey u
        → bdk_utxo lib (local_output (confirmed, u)) ≡ some (by_program lib u o)
    by_kind u confirmed none e valid =
        rw
          (
            laws.p2wpkh_script u.address ∙ ap (passes lib.program_is_p2wpkh) e,
            laws.p2tr_script u.address ∙ ap (passes lib.program_is_p2tr) e,
          )
          refl
    by_kind u confirmed (some p) e valid = elim (Bool-cases (lib.program_is_p2wpkh p)) [
      | inl h ↦
          let (bytes, len) = laws.p2wpkh_bytes u.address p e h in
          rw
            (
              laws.p2wpkh_script u.address ∙ ap (passes lib.program_is_p2wpkh) e ∙ h,
              hash_bytes-some (lib.script_pubkey u.address) (lib.program_bytes p) bytes len,
              h,
              laws.hash_from_20_bytes (lib.program_bytes p) len,
            )
            refl
      | inr h ↦ elim (Bool-cases (lib.program_is_p2tr p)) [
        | inl t ↦
            rw
              (
                laws.p2wpkh_script u.address ∙ ap (passes lib.program_is_p2wpkh) e ∙ h,
                laws.p2tr_script u.address ∙ ap (passes lib.program_is_p2tr) e ∙ t,
                h,
                t,
                valid p e t,
              )
              refl
        | inr t ↦
            rw
              (
                laws.p2wpkh_script u.address ∙ ap (passes lib.program_is_p2wpkh) e ∙ h,
                laws.p2tr_script u.address ∙ ap (passes lib.program_is_p2tr) e ∙ t,
                h,
                t,
              )
              refl
      ]
    ]

    bdk_collect-filter_map :
        (us : List (Bool × ListUnspentUtxo Txid Address))
        → All HasValidKey (confirmed_only us)
        → bdk_collect lib (map local_output us)
          ≡ some (filter_map (bitcoind_utxo lib) (confirmed_only us))
    bdk_collect-filter_map [] valid = refl
    bdk_collect-filter_map ((true, u) ∷ us) valid =
        rw
          (
            by_kind u true (lib.witness_program u.address) refl valid.0,
            bdk_collect-filter_map us valid.1,
          )
          refl
    bdk_collect-filter_map ((false, u) ∷ us) valid = bdk_collect-filter_map us valid

    -- For any outputs with valid taproot keys, the BDK wallet lists, of all of them, what the node's
    -- wallet lists of the confirmed ones: the same outputs in the same order, with the same weights,
    -- and without a panic.
    pub bdk_list_confirmed_utxos-eq-bitcoind :
        (us : List (Bool × ListUnspentUtxo Txid Address))
        → All HasValidKey (confirmed_only us)
        → bdk_list_confirmed_utxos lib (map local_output us)
          ≡ some (bitcoind_list_confirmed_utxos lib (confirmed_only us))
    unfolding bdk_list_confirmed_utxos bitcoind_list_confirmed_utxos
    bdk_list_confirmed_utxos-eq-bitcoind us valid = bdk_collect-filter_map us valid
