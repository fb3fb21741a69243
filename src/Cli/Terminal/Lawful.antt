-- ===== src/Cli/Terminal/Lawful.antt =====
-- What no line of input can make the relay do: the commands one by one, and all lines.
use mathlib.Core.Path.{subst}
use cardano_lightning_relay.Prelude.{
  ℕ, ◌≡◌, refl, ==_iff, ◌==◌, ℤ, String, Bool, true, false, not, Option, none, some, List, [], ◌∷◌,
  length, All, parse_unsigned, parse_i64, split_whitespace, arith, leb, trim, if◌then◌else◌,
}
use cardano_lightning_relay.Types.{Result}
use cardano_lightning_relay.Hex.{to_vec, to_compressed_pubkey}
use cardano_lightning_relay.Cli.Node.{Node, first, rest}
use cardano_lightning_relay.Cli.Terminal.{Effect, Effects, word_is, fails, parse_peer_info}
use cardano_lightning_relay.Cli.Terminal.Lines.{
  sendpayment, keysend, getoffer, getinvoice, connectpeer, disconnectpeer, do_disconnect_peer,
  closechannel, forceclosechannel, signmessage, is_32_bytes, key_of, close_with, optional_u64,
  pay_amount, pay_to, pay_named, pay_invoice, offer_for, connect_to, one, drop, as_bytes, amount_of,
  differs, Optional,
}
use cardano_lightning_relay.Cli.Terminal.Dispatch.{
  with_operator, with_amount, arms, choose, on_words, poll_for_user_input,
}
use cardano_lightning_relay.Cli.Terminal.Safety.{
  IsAllowed, Allowed, need-Allowed, if-Allowed, connected-Allowed, openchannel-Allowed,
}

infixr 4 ◌&◌
◌&◌ : {A B : Type 0} → A → B → A × B
a & b = (a, b)

abbrev deposit_text : String
deposit_text = "ERROR: cardano-deposit requires an amount: `cardano-deposit <cbtc_amount>`"

abbrev withdraw_text : String
withdraw_text = "ERROR: cardano-withdraw requires an amount: `cardano-withdraw <cbtc_amount>`"

module _ {Key Addr Offer Invoice Name : Type 0} (node : Node Key Addr Offer Invoice Name) where
  pay_invoice-Allowed :
      (text : List ℕ) (user : Option ℕ) → Allowed node [] (pay_invoice node text user)
  pay_invoice-Allowed text user =
      need-Allowed node [] "ERROR: invalid invoice" (node.bolt11_from_str text) _
        (λ invoice e. (tt, tt))

  pay_named-Allowed :
      (text : List ℕ) (user : Option ℕ) (o : Option Name)
      → Allowed node [] (pay_named node text user o)
  pay_named-Allowed text user none = pay_invoice-Allowed text user
  pay_named-Allowed text user (some name) =
      need-Allowed node [] "Can't pay to a human-readable-name without an amount" user _
        (λ amt e. if-Allowed node [] (node.dns_resolvers == 0) _ _ (λ _. (tt, tt)) (λ _. (tt, tt)))

  pay_to-Allowed :
      (text : List ℕ) (user : Option ℕ) (o : Option Offer)
      → Allowed node [] (pay_to node text user o)
  pay_to-Allowed text user none = pay_named-Allowed text user (node.name_from_encoded text)
  pay_to-Allowed text user (some offer) =
      need-Allowed node [] "ERROR: Cannot process non-Bitcoin-denominated offer value"
        (amount_of (node.offer_amount offer) user) _
        (λ amt e. if-Allowed node [] (differs user amt) _ _ (λ _. (tt, tt)) (λ _. (tt, tt)))

  pay_amount-Allowed : (text : List ℕ) (o : Optional) → Allowed node [] (pay_amount node text o)
  pay_amount-Allowed text Optional.bad = (tt, tt)
  pay_amount-Allowed text Optional.absent = pay_to-Allowed text none (node.offer_from_str text)
  pay_amount-Allowed text (Optional.given amt) =
      pay_to-Allowed text (some amt) (node.offer_from_str text)

  sendpayment-Allowed : (words : List (List ℕ)) → Allowed node [] (sendpayment node words)
  unfolding sendpayment
  sendpayment-Allowed words =
      need-Allowed node [] _ (first words) _
        (λ text e. pay_amount-Allowed text (optional_u64 (first (rest words))))

  keysend-Allowed : (words : List (List ℕ)) → Allowed node [] (keysend node words)
  unfolding keysend
  keysend-Allowed words = need-Allowed node [] _ (first words) _ λ dest e.
      need-Allowed node [] _ (to_compressed_pubkey node.from_slice dest) _ λ key e.
        need-Allowed node [] _ (first (rest words)) _
          λ text e. need-Allowed node [] _ (parse_unsigned 64 text) _ λ amt e. (tt, tt)

  offer_for-Allowed : (o : Optional) → Allowed node [] (offer_for node o)
  offer_for-Allowed Optional.bad = (tt, tt)
  offer_for-Allowed Optional.absent = (tt, tt)
  offer_for-Allowed (Optional.given amt) = (tt, tt)

  getoffer-Allowed : (words : List (List ℕ)) → Allowed node [] (getoffer node words)
  unfolding getoffer
  getoffer-Allowed words =
      if-Allowed node [] (not node.create_offer_builder) _ _ (λ _. (tt, tt))
        (λ _. offer_for-Allowed (optional_u64 (first words)))

  getinvoice-Allowed : (words : List (List ℕ)) → Allowed node [] (getinvoice node words)
  unfolding getinvoice
  getinvoice-Allowed words = need-Allowed node [] _ (first words) _ λ text e.
      need-Allowed node [] _ (parse_unsigned 64 text) _ λ amt e.
        need-Allowed node [] _ (first (rest words)) _
          λ expiry e. need-Allowed node [] _ (parse_unsigned 32 expiry) _ λ secs e. (tt, tt)

  connect_to-Allowed : (r : Result (Key × Addr)) → Allowed node [] (connect_to node r)
  connect_to-Allowed (Result.err e) = (tt, tt)
  connect_to-Allowed (Result.ok (key, addr)) =
      connected-Allowed node [] key addr _ (λ before r. (r, tt))

  connectpeer-Allowed : (words : List (List ℕ)) → Allowed node [] (connectpeer node words)
  unfolding connectpeer
  connectpeer-Allowed words =
      need-Allowed node [] _ (first words) _
        (λ peer e. connect_to-Allowed (parse_peer_info node peer))

  disconnectpeer-Allowed : (words : List (List ℕ)) → Allowed node [] (disconnectpeer node words)
  unfolding disconnectpeer do_disconnect_peer
  disconnectpeer-Allowed words = need-Allowed node [] _ (first words) _ λ text e.
      need-Allowed node [] _ (node.key_from_str text) _ λ key e.
        if-Allowed node [] (node.has_channel key) _ _ (λ _. (tt, tt))
          λ none_open.
            if-Allowed node [] (not (node.peer_by_node_id key)) _ _ (λ _. (tt, tt))
              λ known. ((none_open, ground (arith, known)), tt)

  is_32_bytes-length :
      (o : Option (List ℕ)) (bytes : List ℕ) → is_32_bytes node o ≡ some bytes → length bytes ≡ 32
  is_32_bytes-length none bytes h = absurd (cc h)
  is_32_bytes-length (some bs) bytes h = by_length (length bs == 32) refl h
    where
      by_length :
          (b : Bool)
          → (length bs == 32) ≡ b
          → (if b then some bs else none) ≡ some bytes
          → length bytes ≡ 32
      by_length true e h =
          let same : bs ≡ bytes = cc h in
          subst (λ (l : List ℕ). length l ≡ 32) same (ground (arith, e, ==_iff (length bs) 32))
      by_length false e h = absurd (cc h)

  close_with-Allowed :
      (no_id no_key : String) (close : List ℕ → Key → Effect Key Addr Offer Invoice Name)
      (words : List (List ℕ))
      → ((id : List ℕ) (key : Key) → length id ≡ 32 → IsAllowed node [] (close id key))
      → Allowed node [] (close_with node no_id no_key close words)
  close_with-Allowed no_id no_key close words h =
      need-Allowed node [] no_id (first words) _ λ text e.
        need-Allowed node [] _ (is_32_bytes node (to_vec text)) _ λ id is.
          need-Allowed node [] no_key (first (rest words)) _ λ key_text e.
            need-Allowed node [] _ (key_of node (to_vec key_text)) _
              λ key e. (h id key (is_32_bytes-length (to_vec text) id is), tt)

  closechannel-Allowed : (words : List (List ℕ)) → Allowed node [] (closechannel node words)
  unfolding closechannel
  closechannel-Allowed words = close_with-Allowed _ _ Effect.close_channel words (λ id key len. len)

  forceclosechannel-Allowed :
      (words : List (List ℕ)) → Allowed node [] (forceclosechannel node words)
  unfolding forceclosechannel
  forceclosechannel-Allowed words =
      close_with-Allowed _ _ Effect.force_close_channel words (λ id key len. len)

  signmessage-Allowed : (line : List ℕ) → Allowed node [] (signmessage node line)
  unfolding signmessage
  signmessage-Allowed line =
      let bytes = as_bytes (trim line) in
      if-Allowed node [] (leb (length bytes) 12) (fails node "ERROR: signmsg requires a message")
        (one node (Effect.sign_message (drop 12 bytes))) (λ _. (tt, tt)) (λ _. (tt, tt))

  with_operator-Allowed :
      (effects : Effects node)
      → (node.has_operator ≡ true → Allowed node [] effects)
      → Allowed node [] (with_operator node effects)
  with_operator-Allowed effects h = if-Allowed node [] node.has_operator effects _ h (λ _. (tt, tt))

  with_amount-Allowed :
      (text : String) (run : ℤ → Effect Key Addr Offer Invoice Name) (words : List (List ℕ))
      → ((amount : ℤ) → IsAllowed node [] (run amount))
      → Allowed node [] (with_amount node text run words)
  with_amount-Allowed text run words h =
      need-Allowed node [] text (first words) _
        λ amount_str e. need-Allowed node [] _ (parse_i64 amount_str) _ λ amount e. (h amount, tt)

  abbrev ArmAllowed : String × Effects node → Type 0
  ArmAllowed arm = Allowed node [] arm.1

  choose-Allowed :
      (word : List ℕ) (table : List (String × Effects node))
      → All ArmAllowed table
      → Allowed node [] (choose node word table)
  choose-Allowed word [] h = (tt, tt)
  choose-Allowed word ((name, effects) ∷ others) h =
      if-Allowed node [] (word_is word name) effects (choose node word others) (λ _. h.0)
        (λ _. choose-Allowed word others h.1)

  arms-Allowed : (line : List ℕ) (words : List (List ℕ)) → All ArmAllowed (arms node line words)
  arms-Allowed line words =
      (tt & tt)
      & openchannel-Allowed node [] words
      & sendpayment-Allowed words
      & keysend-Allowed words
      & getoffer-Allowed words
      & getinvoice-Allowed words
      & connectpeer-Allowed words
      & disconnectpeer-Allowed words
      & (tt & tt)
      & (tt & tt)
      & closechannel-Allowed words
      & forceclosechannel-Allowed words
      & (tt & tt)
      & (tt & tt)
      & signmessage-Allowed line
      & with_operator-Allowed (Effect.pool_info ∷ []) (λ op. op & tt)
      & (tt & tt)
      & with_operator-Allowed (with_amount node deposit_text Effect.cardano_deposit words)
          (λ op. with_amount-Allowed deposit_text Effect.cardano_deposit words (λ amount. op))
      & with_operator-Allowed (with_amount node withdraw_text Effect.cardano_withdraw words)
          (λ op. with_amount-Allowed withdraw_text Effect.cardano_withdraw words (λ amount. op))
      & with_operator-Allowed (Effect.cancel_expired ∷ []) (λ op. op & tt)
      & with_operator-Allowed (Effect.cancel_expired_offramps ∷ []) (λ op. op & tt)
      & (tt & tt)
      & (tt & tt)
      & tt

  -- For every line of input: a channel is opened only with a peer that is connected already, or that
  -- an earlier effect of the same command was to connect, with success; a peer is disconnected only
  -- while it is connected and has no channel; a channel is closed only by an id of 32 bytes; and
  -- nothing is done on the Cardano contract without an operator.
  pub poll_for_user_input-Allowed :
      (line : List ℕ) → Allowed node [] (poll_for_user_input node line)
  unfolding poll_for_user_input
  poll_for_user_input-Allowed line = by_words (split_whitespace line)
    where
      by_words : (words : List (List ℕ)) → Allowed node [] (on_words node line words)
      by_words [] = tt
      by_words (word ∷ words) = choose-Allowed word (arms node line words) (arms-Allowed line words)
