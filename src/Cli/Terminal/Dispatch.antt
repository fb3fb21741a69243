-- ===== src/Cli/Terminal/Dispatch.antt =====
-- The commands on the Cardano contract, and the `match` on a line's first word in
-- `poll_for_user_input` (src/cli/mod.rs).
use cardano_lightning_relay.Prelude.{
  ℕ, ℤ, String, parse_i64, split_whitespace, List, [], ◌∷◌, if◌then◌else◌,
}
use cardano_lightning_relay.Cli.Node.{Node, first}
use cardano_lightning_relay.Cli.Terminal.{Effect, word_is, Effects, fails, need, openchannel}
use cardano_lightning_relay.Cli.Terminal.Lines.{
  sendpayment, keysend, getoffer, getinvoice, connectpeer, disconnectpeer, closechannel,
  forceclosechannel, signmessage,
}

module _ {Key Addr Offer Invoice Name : Type 0} (node : Node Key Addr Offer Invoice Name) where
  -- `if let Some(ref op) = operator_agent { … } else { … }`
  abbrev pub with_operator : Effects node → Effects node
  with_operator effects =
      if node.has_operator
      then effects
      else fails node "ERROR: Cardano not enabled. Set CARDANO_ENABLED=true with required env vars."

  -- `cardano-deposit` and `cardano-withdraw` from the operator on.
  abbrev pub with_amount :
      String → (ℤ → Effect Key Addr Offer Invoice Name) → List (List ℕ) → Effects node
  with_amount no_amount run words = need node no_amount (first words) λ amount_str.
      need node "ERROR: amount must be a positive integer" (parse_i64 amount_str)
        λ amount. run amount ∷ []

  -- The arms of the `match`, in order.
  abbrev pub arms : List ℕ → List (List ℕ) → List (String × Effects node)
  arms line words =
      ("help", Effect.help ∷ [])
      ∷ ("openchannel", openchannel node words)
      ∷ ("sendpayment", sendpayment node words)
      ∷ ("keysend", keysend node words)
      ∷ ("getoffer", getoffer node words)
      ∷ ("getinvoice", getinvoice node words)
      ∷ ("connectpeer", connectpeer node words)
      ∷ ("disconnectpeer", disconnectpeer node words)
      ∷ ("listchannels", Effect.list_channels ∷ [])
      ∷ ("listpayments", Effect.list_payments ∷ [])
      ∷ ("closechannel", closechannel node words)
      ∷ ("forceclosechannel", forceclosechannel node words)
      ∷ ("nodeinfo", Effect.node_info ∷ [])
      ∷ ("listpeers", Effect.list_peers ∷ [])
      ∷ ("signmessage", signmessage node line)
      ∷ ("pool-info", with_operator (Effect.pool_info ∷ []))
      ∷ ("getbalance", Effect.get_balance ∷ [])
      ∷ (
        "cardano-deposit",
        with_operator (
            with_amount "ERROR: cardano-deposit requires an amount: `cardano-deposit <cbtc_amount>`"
              Effect.cardano_deposit words),
      )
      ∷ (
        "cardano-withdraw",
        with_operator (
            with_amount
              "ERROR: cardano-withdraw requires an amount: `cardano-withdraw <cbtc_amount>`"
              Effect.cardano_withdraw words),
      )
      ∷ ("cancel-expired", with_operator (Effect.cancel_expired ∷ []))
      ∷ ("cancel-expired-offramps", with_operator (Effect.cancel_expired_offramps ∷ []))
      ∷ ("quit", Effect.quits ∷ [])
      ∷ ("exit", Effect.quits ∷ [])
      ∷ []

  abbrev pub choose : List ℕ → List (String × Effects node) → Effects node
  choose word [] = fails node "Unknown command. See `\"help\" for available commands."
  choose word ((name, effects) ∷ others) = if word_is word name then effects else choose word others

  abbrev pub on_words : List ℕ → List (List ℕ) → Effects node
  on_words line [] = []
  on_words line (word ∷ words) = choose word (arms line words)

  -- The body of the loop for one line.
  unfoldable pub poll_for_user_input : List ℕ → Effects node
  unfolding openchannel sendpayment keysend getoffer getinvoice connectpeer disconnectpeer
      closechannel forceclosechannel signmessage split_whitespace parse_i64
  poll_for_user_input line = on_words line (split_whitespace line)
