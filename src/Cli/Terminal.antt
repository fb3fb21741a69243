-- ===== src/Cli/Terminal.antt =====
-- `poll_for_user_input` of src/cli/mod.rs: what one line of input makes the relay do. An error's text
-- stands without the part that a library supplies, and what a command prints is left out.
pub mod Lines
pub mod Dispatch
pub mod Flags
pub mod Safety
pub mod Lawful
pub mod Tests
use cardano_lightning_relay.Prelude.{
  ℕ, ◌+◌, ◌-◌, ◌*◌, ◌/◌, ◌%◌, ltb, leb, ◌==◌, ℤ, String, codes, parse_unsigned, parse_i64, trim,
  same_text, split_on, split_whitespace, Bool, true, false, not, ◌&&◌, ◌||◌, Option, none, some,
  List, [], ◌∷◌, ◌++◌, length, if◌then◌else◌,
}
use cardano_lightning_relay.Types.{Result}
use cardano_lightning_relay.Hex.{to_vec, to_compressed_pubkey}
use cardano_lightning_relay.Cli.Node.{Node, OfferAmount, first, rest}

-- What a line leads to, in order; `quits` ends the loop.
pub data Effect (Key Addr Offer Invoice Name : Type 0) : Type 0 where
  error : String → Effect Key Addr Offer Invoice Name
  help : Effect Key Addr Offer Invoice Name
  connect : Key → Addr → Effect Key Addr Offer Invoice Name
  connected : Key → Effect Key Addr Offer Invoice Name
  open_channel : Key → ℕ → Bool → Bool → Effect Key Addr Offer Invoice Name
  pay_offer : Offer → ℕ → Bool → Effect Key Addr Offer Invoice Name
  pay_name : Name → ℕ → Effect Key Addr Offer Invoice Name
  send_payment : Invoice → Option ℕ → Effect Key Addr Offer Invoice Name
  keysend : Key → ℕ → Effect Key Addr Offer Invoice Name
  get_offer : Option ℕ → Effect Key Addr Offer Invoice Name
  get_invoice : ℕ → ℕ → Effect Key Addr Offer Invoice Name
  disconnect : Key → Effect Key Addr Offer Invoice Name
  list_channels list_payments node_info list_peers : Effect Key Addr Offer Invoice Name
  close_channel : List ℕ → Key → Effect Key Addr Offer Invoice Name
  force_close_channel : List ℕ → Key → Effect Key Addr Offer Invoice Name
  sign_message : List ℕ → Effect Key Addr Offer Invoice Name
  pool_info get_balance cancel_expired cancel_expired_offramps : Effect Key Addr Offer Invoice Name
  cardano_deposit : ℤ → Effect Key Addr Offer Invoice Name
  cardano_withdraw : ℤ → Effect Key Addr Offer Invoice Name
  quits : Effect Key Addr Offer Invoice Name

abbrev pub word_is : List ℕ → String → Bool
word_is word s = same_text word (codes s)

module _ {Key Addr Offer Invoice Name : Type 0} (node : Node Key Addr Offer Invoice Name) where
  abbrev pub Effects : Type 0
  Effects = List (Effect Key Addr Offer Invoice Name)

  abbrev pub fails : String → Effects
  fails text = Effect.error text ∷ []

  -- `let x = words.next(); if x.is_none() { … }`, and the tests like it.
  abbrev pub need : {A : Type 0} → String → Option A → (A → Effects) → Effects
  need text none f = fails text
  need text (some a) f = f a

  abbrev pub keyed : Addr → Option Key → Result (Key × Addr)
  keyed addr none = Result.err "ERROR: unable to parse given pubkey for node"
  keyed addr (some pubkey) = Result.ok (pubkey, addr)

  abbrev pub with_addr : List ℕ → Option Addr → Result (Key × Addr)
  with_addr key none = Result.err "ERROR: couldn't parse pubkey@host:port into a socket address"
  with_addr key (some addr) = keyed addr (to_compressed_pubkey node.from_slice key)

  abbrev pub peer_info_of : List (List ℕ) → Result (Key × Addr)
  peer_info_of (key ∷ addr ∷ others) = with_addr key (node.to_socket_addrs addr)
  peer_info_of other =
      Result.err
        "ERROR: incorrectly formatted peer info. Should be formatted as: `pubkey@host:port`"

  unfoldable pub parse_peer_info : List ℕ → Result (Key × Addr)
  unfolding to_compressed_pubkey split_on
  parse_peer_info peer = peer_info_of (split_on b'@' peer)

  -- `connect_peer_if_necessary`: what it does, and whether the peer is connected behind it.
  unfoldable pub connect_peer_if_necessary : Key → Addr → Effects × Bool
  connect_peer_if_necessary pubkey addr =
      if node.peer_by_node_id pubkey
      then ([], true)
      else if node.connect_outbound pubkey addr
      then (Effect.connect pubkey addr ∷ [], true)
      else (
        Effect.connect pubkey addr ∷ Effect.error "ERROR: failed to connect to peer" ∷ [],
        false,
      )

  abbrev pub after_connect : Effects × Bool → Effects → Effects
  after_connect (effects, true) then_do = effects ++ then_do
  after_connect (effects, false) then_do = effects

  abbrev pub flag_error : Effect Key Addr Offer Invoice Name
  flag_error =
      Effect.error
        "ERROR: invalid boolean flag format. Valid formats: `--option`, `--option=true` `--option=false`"

  -- The `while` loop over the flags: its `continue` goes on with the next flag.
  unfoldable pub read_flags : List (List ℕ) → Bool → Bool → Effects × Bool × Bool
  unfolding same_text
  read_flags [] public anchors = ([], public, anchors)
  read_flags (word ∷ words) public anchors =
      let is_public = word_is word "--public" || word_is word "--public=true" in
      let not_public = word_is word "--public=false" in
      let is_anchors = word_is word "--with-anchors" || word_is word "--with-anchors=true" in
      let not_anchors = word_is word "--with-anchors=false" in
      let (effects, p, a) =
        read_flags words (if is_public then true else if not_public then false else public)
          (if is_anchors then true else if not_anchors then false else anchors) in
      if is_public || not_public || is_anchors || not_anchors
      then (effects, p, a)
      else (flag_error ∷ effects, p, a)

  -- `openchannel` from the amount on.
  unfoldable pub open_with_amount : Key → List ℕ → List (List ℕ) → Effects
  unfolding read_flags parse_unsigned
  open_with_amount pubkey amount flags =
      need "ERROR: channel amount must be a number" (parse_unsigned 64 amount) λ sat.
        let (effects, public, anchors) = read_flags flags false false in
        effects ++ (Effect.open_channel pubkey sat public anchors ∷ [])

  abbrev pub open_connected : Effects → Result (Key × Addr) → Effects
  open_connected then_do (Result.err e) = fails e
  open_connected then_do (Result.ok (pubkey, addr)) =
      after_connect (connect_peer_if_necessary pubkey addr) then_do

  -- By the pieces of `pubkey@host:port`.
  abbrev pub open_at : Key → List ℕ → List (List ℕ) → List (List ℕ) → Effects
  open_at pubkey amount flags (key ∷ addr ∷ others) =
      open_connected (open_with_amount pubkey amount flags) (peer_info_of (key ∷ addr ∷ others))
  open_at pubkey amount flags other =
      if node.peer_by_node_id pubkey
      then open_with_amount pubkey amount flags
      else fails "ERROR: Peer address not provided and peer is not connected"

  abbrev pub key_text : List (List ℕ) → List ℕ
  key_text [] = []
  key_text (key ∷ others) = key

  abbrev pub open_pieces : List ℕ → List (List ℕ) → List (List ℕ) → Effects
  open_pieces amount flags pieces =
      need "ERROR: unable to parse given pubkey for node"
        (to_compressed_pubkey node.from_slice (key_text pieces))
        λ pubkey. open_at pubkey amount flags pieces

  unfoldable pub openchannel : List (List ℕ) → Effects
  unfolding open_with_amount parse_peer_info connect_peer_if_necessary
  openchannel (peer ∷ amount ∷ flags) = open_pieces amount flags (split_on b'@' peer)
  openchannel other =
      fails
        "ERROR: openchannel has 2 required arguments: `openchannel pubkey@host:port channel_amt_satoshis` [--public] [--with-anchors]"
