-- ===== src/Cli/Node.antt =====
-- src/cli/peer_cmds.rs and what the terminal asks of the node: the parsers of other crates and the
-- node's answers are a parameter. Keys and addresses are types of their crates.
use cardano_lightning_relay.Prelude.{ℕ, Bool, Option, none, some, List, [], ◌∷◌}

pub data OfferAmount : Type 0 where
  unspecified : OfferAmount
  bitcoin : ℕ → OfferAmount
  currency : OfferAmount

-- `to_socket_addrs` is the first address that it resolves to. `connect_outbound` says whether the peer
-- is connected in the end, and `has_channel` whether there is a channel with the key.
pub record Node (Key Addr Offer Invoice Name : Type 0) : Type 0 where
  pub from_slice : List ℕ → Option Key
  pub key_from_str : List ℕ → Option Key
  pub to_socket_addrs : List ℕ → Option Addr
  pub peer_by_node_id : Key → Bool
  pub connect_outbound : Key → Addr → Bool
  pub has_channel : Key → Bool
  pub offer_from_str : List ℕ → Option Offer
  pub offer_amount : Offer → OfferAmount
  pub name_from_encoded : List ℕ → Option Name
  pub dns_resolvers : ℕ
  pub bolt11_from_str : List ℕ → Option Invoice
  pub create_offer_builder : Bool
  pub has_operator : Bool

-- `iter.next()`, once and twice.
abbrev pub first : {A : Type 0} → List A → Option A
first [] = none
first (x ∷ xs) = some x

abbrev pub rest : {A : Type 0} → List A → List A
rest [] = []
rest (x ∷ xs) = xs
