-- ===== src/Chain/Bitcoind/Broadcast.antt =====
-- `broadcast_transactions` of src/bitcoind_client.rs and of src/esplora.rs: how transactions leave.
use cardano_lightning_relay.Prelude.{String, Option, none, some, List, [], ◌∷◌, map}
use cardano_lightning_relay.Chain.Esplora.{EsploraClient, broadcast_transactions as post_each}
use cardano_lightning_relay.Chain.Bitcoind.{BitcoindClient}

-- Each posted to Esplora by itself, or one call of the node.
pub data Broadcast : Type 0 where
  post_to_esplora : List String → Broadcast
  sendrawtransaction : String → Broadcast
  submitpackage : List String → Broadcast

-- `if txn.len() == 1 { … } else { … }`
abbrev pub by_node : List String → Broadcast
by_node (tx ∷ []) = Broadcast.sendrawtransaction tx
by_node [] = Broadcast.submitpackage []
by_node (tx ∷ u ∷ txn) = Broadcast.submitpackage (tx ∷ u ∷ txn)

abbrev pub backend : {Tx : Type 0} → (Tx → String) → Option EsploraClient → List Tx → Broadcast
backend serialize_hex (some client) txs = Broadcast.post_to_esplora (post_each serialize_hex txs)
backend serialize_hex none txs = by_node (map serialize_hex txs)

unfoldable pub broadcast_transactions :
    {Wallet Tx : Type 0} → (Tx → String) → BitcoindClient Wallet → List Tx → Broadcast
broadcast_transactions serialize_hex client txs = backend serialize_hex client.esplora txs
