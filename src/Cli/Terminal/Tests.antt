-- ===== src/Cli/Terminal/Tests.antt =====
-- Tests of `poll_for_user_input` with a small node.
use cardano_lightning_relay.Prelude.{
  ℕ, ◌≡◌, refl, negsuc, codes, parse_unsigned, same_text, Bool, true, false, none, some, List, [],
  ◌∷◌, ◌++◌, length,
}
use cardano_lightning_relay.Hex.{digit_value}
use cardano_lightning_relay.Cli.Node.{Node, OfferAmount}
use cardano_lightning_relay.Cli.Terminal.{Effect, flag_error, open_with_amount}
use cardano_lightning_relay.Cli.Terminal.Lines.{Answer, ask_to_continue}
use cardano_lightning_relay.Cli.Terminal.Dispatch.{poll_for_user_input}
use cardano_lightning_relay.Cli.Terminal.Flags.{errors_of, open_with_amount-bad_flags}
use cardano_lightning_relay.Cli.Terminal.Safety.{Allowed}
use cardano_lightning_relay.Cli.Terminal.Lawful.{poll_for_user_input-Allowed}

-- Keys are the lengths of their bytes, and the peer with the key 33 is connected.
abbrev node : Node ℕ ℕ ℕ ℕ ℕ
node = record {
  from_slice = λ bytes. some (length bytes);
  key_from_str = λ text. none;
  to_socket_addrs = λ text. some 1;
  peer_by_node_id = λ key. true;
  connect_outbound = λ key addr. false;
  has_channel = λ key. false;
  offer_from_str = λ text. none;
  offer_amount = λ offer. OfferAmount.unspecified;
  name_from_encoded = λ text. none;
  dns_resolvers = 0;
  bolt11_from_str = λ text. some 7;
  create_offer_builder = true;
  has_operator = true;
}

-- The message says "a positive integer", and the command takes any.
negative_deposit :
    poll_for_user_input node (codes "cardano-deposit -5") ≡ Effect.cardano_deposit (negsuc 4) ∷ []
unfolding poll_for_user_input
negative_deposit = refl

pays_invoice :
    poll_for_user_input node (codes "  sendpayment lnbc1 2500")
    ≡ Effect.send_payment 7 (some 2500) ∷ []
unfolding poll_for_user_input
pays_invoice = refl

asks_again : ask_to_continue (codes "maybe" ∷ codes "Yes" ∷ []) ≡ Answer.pays
unfolding ask_to_continue
asks_again = refl

abbrev flags : List (List ℕ)
flags = codes "--public" ∷ codes "--privat" ∷ []

one_error : errors_of node flags ≡ flag_error node ∷ []
unfolding same_text
one_error = refl

one_hundred : parse_unsigned 64 (codes "100") ≡ some 100
unfolding parse_unsigned
one_hundred = refl

open_with_amount-bad_flags_example :
    (public anchors : Bool) × (open_with_amount node 33 (codes "100") flags
      ≡ errors_of node flags ++ (Effect.open_channel 33 100 public anchors ∷ []))
open_with_amount-bad_flags_example =
    open_with_amount-bad_flags node 33 (codes "100") 100 flags one_hundred

-- No peer is connected, and every dial succeeds.
abbrev alone : Node ℕ ℕ ℕ ℕ ℕ
alone = record node { peer_by_node_id = λ key. false; connect_outbound = λ key addr. true }

abbrev open_line : List ℕ
open_line =
    codes
      "openchannel 020202020202020202020202020202020202020202020202020202020202020202@host:9735 500 --public"

dials_first :
    poll_for_user_input alone open_line
    ≡ Effect.connect 33 1 ∷ Effect.open_channel 33 500 true false ∷ []
unfolding poll_for_user_input digit_value
dials_first = refl

poll_for_user_input-Allowed_example : Allowed alone [] (poll_for_user_input alone open_line)
poll_for_user_input-Allowed_example = poll_for_user_input-Allowed alone open_line
