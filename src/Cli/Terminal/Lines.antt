-- ===== src/Cli/Terminal/Lines.antt =====
-- The other commands of `poll_for_user_input` (src/cli/mod.rs), and the choice between them.
use cardano_lightning_relay.Prelude.{
  ℕ, zero, suc, ◌+◌, ◌/◌, ◌%◌, ltb, leb, ◌==◌, String, parse_unsigned, trim, Bool, true, false, not,
  Option, none, some, List, [], ◌∷◌, ◌++◌, length, if◌then◌else◌,
}
use cardano_lightning_relay.Types.{Result}
use cardano_lightning_relay.Hex.{to_vec, to_compressed_pubkey}
use cardano_lightning_relay.Cli.Node.{Node, OfferAmount, first, rest}
use cardano_lightning_relay.Cli.Terminal.{
  Effect, Effects, fails, need, parse_peer_info, connect_peer_if_necessary, after_connect,
}

-- `as_bytes` of one character.
unfoldable pub utf8 : ℕ → List ℕ
utf8 c =
    if ltb c 0x80
    then c ∷ []
    else if ltb c 0x800
    then (192 + c / 64) ∷ (128 + c % 64) ∷ []
    else if ltb c 0x10000
    then (224 + c / 4096) ∷ (128 + c / 64 % 64) ∷ (128 + c % 64) ∷ []
    else (240 + c / 262144) ∷ (128 + c / 4096 % 64) ∷ (128 + c / 64 % 64) ∷ (128 + c % 64) ∷ []

unfoldable pub as_bytes : List ℕ → List ℕ
unfolding utf8
as_bytes [] = []
as_bytes (c ∷ cs) = utf8 c ++ as_bytes cs

abbrev pub drop : ℕ → List ℕ → List ℕ
drop zero xs = xs
drop (suc n) [] = []
drop (suc n) (x ∷ xs) = drop n xs

-- What the question "Continue (Y/N)?" comes to, over the lines that follow: the end of the input
-- ends the loop.
pub data Answer : Type 0 where
  pays abandons input_ends : Answer

unfoldable pub ask_to_continue : List (List ℕ) → Answer
ask_to_continue [] = Answer.input_ends
ask_to_continue ([] ∷ lines) = ask_to_continue lines
ask_to_continue ((c ∷ cs) ∷ lines) =
    let again = ask_to_continue lines in
    if c == b'Y' then Answer.pays else if c == b'N' then Answer.abandons else again

-- The amount to pay for an offer: its own, or else the one of the command.
abbrev pub amount_of : OfferAmount → Option ℕ → Option ℕ
amount_of (OfferAmount.bitcoin amount_msats) user = some amount_msats
amount_of OfferAmount.unspecified user = user
amount_of OfferAmount.currency user = user

abbrev pub differs : Option ℕ → ℕ → Bool
differs none amt = false
differs (some user) amt = not (user == amt)

abbrev pub is_none : {A : Type 0} → Option A → Bool
is_none none = true
is_none (some a) = false

-- `while let Some(word) = words.next()` is over; an optional number.
pub data Optional : Type 0 where
  absent bad : Optional
  given : ℕ → Optional

abbrev pub optional_u64 : Option (List ℕ) → Optional
optional_u64 none = Optional.absent
optional_u64 (some text) = elim (parse_unsigned 64 text) [
  | none ↦ Optional.bad
  | some n ↦ Optional.given n
]

module _ {Key Addr Offer Invoice Name : Type 0} (node : Node Key Addr Offer Invoice Name) where
  abbrev pub one : Effect Key Addr Offer Invoice Name → Effects node
  one effect = effect ∷ []

  abbrev pub pay_offer : Offer → Option ℕ → Effects node
  pay_offer offer user =
      need node "ERROR: Cannot process non-Bitcoin-denominated offer value"
        (amount_of (node.offer_amount offer) user)
        λ amt_msat.
          if differs user amt_msat
          then fails node "Amount didn't match offer"
          else one (Effect.pay_offer offer amt_msat (is_none user))

  abbrev pub pay_name : Name → Option ℕ → Effects node
  pay_name name user =
      need node "Can't pay to a human-readable-name without an amount" user λ amt_msat.
        if node.dns_resolvers == 0
        then fails node "Failed to find any DNS resolving nodes, check your network graph is synced"
        else one (Effect.pay_name name amt_msat)

  abbrev pub pay_invoice : List ℕ → Option ℕ → Effects node
  pay_invoice text user =
      need node "ERROR: invalid invoice" (node.bolt11_from_str text)
        λ invoice. one (Effect.send_payment invoice user)

  abbrev pub pay_named : List ℕ → Option ℕ → Option Name → Effects node
  pay_named text user (some name) = pay_name name user
  pay_named text user none = pay_invoice text user

  abbrev pub pay_to : List ℕ → Option ℕ → Option Offer → Effects node
  pay_to text user (some offer) = pay_offer offer user
  pay_to text user none = pay_named text user (node.name_from_encoded text)

  abbrev pub pay_amount : List ℕ → Optional → Effects node
  pay_amount text Optional.bad = fails node "ERROR: couldn't parse amount_msat"
  pay_amount text Optional.absent = pay_to text none (node.offer_from_str text)
  pay_amount text (Optional.given amt) = pay_to text (some amt) (node.offer_from_str text)

  unfoldable pub sendpayment : List (List ℕ) → Effects node
  unfolding parse_unsigned
  sendpayment words =
      need node "ERROR: sendpayment requires an invoice: `sendpayment <invoice> [amount_msat]`"
        (first words) λ invoice_str. pay_amount invoice_str (optional_u64 (first (rest words)))

  unfoldable pub keysend : List (List ℕ) → Effects node
  unfolding to_compressed_pubkey parse_unsigned
  keysend words =
      need node "ERROR: keysend requires a destination pubkey: `keysend <dest_pubkey> <amt_msat>`"
        (first words)
        λ dest.
          need node "ERROR: couldn't parse destination pubkey"
            (to_compressed_pubkey node.from_slice dest)
            λ dest_pubkey.
              need node
                "ERROR: keysend requires an amount in millisatoshis: `keysend <dest_pubkey> <amt_msat>`"
                (first (rest words))
                λ amt_msat_str.
                  need node "ERROR: couldn't parse amount_msat" (parse_unsigned 64 amt_msat_str)
                    λ amt_msat. one (Effect.keysend dest_pubkey amt_msat)

  abbrev pub offer_for : Optional → Effects node
  offer_for Optional.bad = fails node "ERROR: getoffer provided payment amount was not a number"
  offer_for Optional.absent = one (Effect.get_offer none)
  offer_for (Optional.given amt) = one (Effect.get_offer (some amt))

  -- `create_offer_builder` says whether the node makes a builder.
  unfoldable pub getoffer : List (List ℕ) → Effects node
  unfolding parse_unsigned
  getoffer words =
      if not node.create_offer_builder
      then fails node "ERROR: Failed to initiate offer building"
      else offer_for (optional_u64 (first words))

  unfoldable pub getinvoice : List (List ℕ) → Effects node
  unfolding parse_unsigned
  getinvoice words =
      need node "ERROR: getinvoice requires an amount in millisatoshis" (first words) λ amt_str.
        need node "ERROR: getinvoice provided payment amount was not a number"
          (parse_unsigned 64 amt_str)
          λ amt_msat.
            need node "ERROR: getinvoice requires an expiry in seconds" (first (rest words))
              λ expiry_str.
                need node "ERROR: getinvoice provided expiry was not a number"
                  (parse_unsigned 32 expiry_str)
                  λ expiry_secs. one (Effect.get_invoice amt_msat expiry_secs)

  abbrev pub connect_to : Result (Key × Addr) → Effects node
  connect_to (Result.err e) = fails node e
  connect_to (Result.ok (pubkey, addr)) =
      after_connect node (connect_peer_if_necessary node pubkey addr)
        (one (Effect.connected pubkey))

  unfoldable pub connectpeer : List (List ℕ) → Effects node
  unfolding parse_peer_info connect_peer_if_necessary
  connectpeer words =
      need node "ERROR: connectpeer requires peer connection info: `connectpeer pubkey@host:port`"
        (first words) λ peer. connect_to (parse_peer_info node peer)

  unfoldable pub do_disconnect_peer : Key → Effects node
  do_disconnect_peer pubkey =
      if node.has_channel pubkey
      then fails node "Error: Node has an active channel with this peer, close any channels first"
      else if not (node.peer_by_node_id pubkey)
      then fails node "Error: Could not find peer"
      else one (Effect.disconnect pubkey)

  unfoldable pub disconnectpeer : List (List ℕ) → Effects node
  unfolding do_disconnect_peer
  disconnectpeer words =
      need node "ERROR: disconnectpeer requires peer public key: `disconnectpeer <peer_pubkey>`"
        (first words) λ text. need node "ERROR: " (node.key_from_str text) do_disconnect_peer

  abbrev pub is_32_bytes : Option (List ℕ) → Option (List ℕ)
  is_32_bytes none = none
  is_32_bytes (some bytes) = if length bytes == 32 then some bytes else none

  abbrev pub key_of : Option (List ℕ) → Option Key
  key_of none = none
  key_of (some bytes) = node.from_slice bytes

  -- `closechannel` and `forceclosechannel` differ in their name and in what they call.
  abbrev pub close_with :
      String
      → String
      → (List ℕ → Key → Effect Key Addr Offer Invoice Name)
      → List (List ℕ)
      → Effects node
  close_with no_id no_key close words = need node no_id (first words) λ channel_id_str.
      need node "ERROR: couldn't parse channel_id" (is_32_bytes (to_vec channel_id_str))
        λ channel_id. need node no_key (first (rest words)) λ peer_pubkey_str.
          need node "ERROR: couldn't parse peer_pubkey" (key_of (to_vec peer_pubkey_str))
            λ peer_pubkey. one (close channel_id peer_pubkey)

  unfoldable pub closechannel : List (List ℕ) → Effects node
  unfolding to_vec
  closechannel words =
      close_with
        "ERROR: closechannel requires a channel ID: `closechannel <channel_id> <peer_pubkey>`"
        "ERROR: closechannel requires a peer pubkey: `closechannel <channel_id> <peer_pubkey>`"
        Effect.close_channel words

  unfoldable pub forceclosechannel : List (List ℕ) → Effects node
  unfolding to_vec
  forceclosechannel words =
      close_with
        "ERROR: forceclosechannel requires a channel ID: `forceclosechannel <channel_id> <peer_pubkey>`"
        "ERROR: forceclosechannel requires a peer pubkey: `forceclosechannel <channel_id> <peer_pubkey>`"
        Effect.force_close_channel words

  -- The bytes of the trimmed line behind "signmessage" and one more.
  unfoldable pub signmessage : List ℕ → Effects node
  unfolding as_bytes trim
  signmessage line =
      let bytes = as_bytes (trim line) in
      if leb (length bytes) 12
      then fails node "ERROR: signmsg requires a message"
      else one (Effect.sign_message (drop 12 bytes))
