-- ===== src/Events/Channels.antt =====
-- The events of src/events.rs on channels and peers: the funding of a channel, a forwarded payment,
-- and a needed connection. The node, the wallet and the network graph are arguments.
use mathlib.Core.Path.{subst}
use cardano_lightning_relay.Prelude.{
  ℕ, ◌≡◌, ◌∙◌, refl, sym, ap, Bool-cases, inl, inr, String, ◌<>◌, show_ℕ, Bool, true, false, Option,
  none, some, List, [], ◌∷◌, ◌++◌, find, All, if◌then◌else◌,
}
use cardano_lightning_relay.Types.{Result}

-- What a `FundingGenerationReady` ends with. `generated` is what the node says of the transaction.
pub data Funding (Tx : Type 0) : Type 0 where
  not_created : String → Funding Tx
  channel_gone : Tx → Funding Tx
  funded : Tx → Funding Tx

module _ {Tx : Type 0} (generated : Tx → Result Unit) where
  abbrev handed_over : Tx → Result Unit → Funding Tx
  handed_over tx (Result.ok u) = Funding.funded tx
  handed_over tx (Result.err e) = Funding.channel_gone tx

  unfoldable pub funding_generation_ready : Result Tx → Funding Tx
  funding_generation_ready (Result.err e) = Funding.not_created e
  funding_generation_ready (Result.ok tx) = handed_over tx (generated tx)

-- A channel as it is read here, and what the graph has of a node: its alias, if it was announced.
pub record ForwardChannel : Type 0 where
  pub channel_id : String
  pub node_id : String

module _ (same_id : String → String → Bool) (nodes : String → Option (Option String))
    (channels : List ForwardChannel) where
  abbrev node_name : Option (Option String) → String
  node_name none = "private node"
  node_name (some none) = "unnamed node"
  node_name (some (some alias)) = "node " <> alias

  abbrev of_channel : Option ForwardChannel → String
  of_channel none = ""
  of_channel (some channel) = node_name (nodes channel.node_id)

  unfoldable pub node_str : Option String → String
  node_str none = ""
  node_str (some channel_id) =
      of_channel (find (λ (c : ForwardChannel). same_id c.channel_id channel_id) channels)

  unfoldable pub channel_str : Option String → String
  channel_str none = ""
  channel_str (some channel_id) = " with channel " <> channel_id

  abbrev amount_str : Option ℕ → String
  amount_str none = "?"
  amount_str (some v) = show_ℕ v

  abbrev onchain_str : Bool → String
  onchain_str true = "from onchain downstream claim"
  onchain_str false = "from HTLC fulfill message"

  abbrev gain_str : Option ℕ → String
  gain_str none = ", claiming onchain "
  gain_str (some fee_earned) = ", earning " <> show_ℕ fee_earned <> " msat "

  -- The line on a `PaymentForwarded`.
  unfoldable pub payment_forwarded :
      Option String → Option String → Option ℕ → Bool → Option ℕ → String
  unfolding node_str channel_str
  payment_forwarded prev_channel_id next_channel_id total_fee_earned_msat claim_from_onchain_tx
        amount =
      "EVENT: Forwarded payment for "
      <> amount_str amount
      <> " msat from "
      <> node_str prev_channel_id
      <> channel_str prev_channel_id
      <> " to "
      <> node_str next_channel_id
      <> channel_str next_channel_id
      <> gain_str total_fee_earned_msat
      <> onchain_str claim_from_onchain_tx

module _ {Address SocketAddr : Type 0} (to_socket_addrs : Address → Result (List SocketAddr))
    (connect : SocketAddr → Bool) where
  -- The addresses that are tried, in order, and whether one of them answered.
  unfoldable pub try_addrs : List SocketAddr → List SocketAddr × Bool
  try_addrs [] = ([], false)
  try_addrs (addr ∷ addrs) =
      let rest = try_addrs addrs in
      if connect addr then (addr ∷ [], true) else (addr ∷ rest.0, rest.1)

  abbrev pub addrs_of : Result (List SocketAddr) → List SocketAddr
  addrs_of (Result.ok sockaddrs) = sockaddrs
  addrs_of (Result.err e) = []

  abbrev go_on : List SocketAddr × Bool → List SocketAddr × Bool → List SocketAddr × Bool
  go_on (tried, true) rest = (tried, true)
  go_on (tried, false) rest = (tried ++ rest.0, rest.1)

  -- The task that a `ConnectionNeeded` spawns.
  unfoldable pub connection_needed : List Address → List SocketAddr × Bool
  unfolding try_addrs
  connection_needed [] = ([], false)
  connection_needed (address ∷ addresses) =
      go_on (try_addrs (addrs_of (to_socket_addrs address))) (connection_needed addresses)

  abbrev pub Silent : List SocketAddr → Type 0
  Silent = All λ (addr : SocketAddr). connect addr ≡ false

  abbrev pub all_addrs : List Address → List SocketAddr
  all_addrs [] = []
  all_addrs (address ∷ addresses) = addrs_of (to_socket_addrs address) ++ all_addrs addresses

  -- How the attempts at the addresses `addrs`, in this order, ended: all were tried and none answered,
  -- or they were tried up to the first that answered.
  abbrev pub Tried : List SocketAddr → List SocketAddr × Bool → Type 0
  Tried addrs (tried, false) = (tried ≡ addrs) × Silent addrs
  Tried addrs (tried, true) =
      (before : List SocketAddr) × (last : SocketAddr) × (rest : List SocketAddr) × (addrs
        ≡ before ++ (last ∷ rest))
      × (tried ≡ before ++ (last ∷ []))
      × Silent before
      × (connect last ≡ true)

  Silent-append : (a b : List SocketAddr) → Silent a → Silent b → Silent (a ++ b)
  Silent-append [] b ha hb = hb
  Silent-append (addr ∷ a) b ha hb = (ha.0, Silent-append a b ha.1 hb)

  append_assoc : (a b c : List SocketAddr) → a ++ (b ++ c) ≡ (a ++ b) ++ c
  append_assoc [] b c = refl
  append_assoc (addr ∷ a) b c = ap (λ (l : List SocketAddr). addr ∷ l) (append_assoc a b c)

  -- Attempts that all failed, and then those of `r`.
  Tried-append :
      (a addrs : List SocketAddr) (r : List SocketAddr × Bool)
      → Silent a
      → Tried addrs r
      → Tried (a ++ addrs) (a ++ r.0, r.1)
  Tried-append a addrs (tried, false) silent (e, quiet) =
      (ap (λ (l : List SocketAddr). a ++ l) e, Silent-append a addrs silent quiet)
  Tried-append a addrs (tried, true) silent (before, last, rest, e, t, quiet, answers) = (
    a ++ before,
    last,
    rest,
    ap (λ (l : List SocketAddr). a ++ l) e ∙ append_assoc a before (last ∷ rest),
    ap (λ (l : List SocketAddr). a ++ l) t ∙ append_assoc a before (last ∷ []),
    Silent-append a before silent quiet,
    answers,
  )

  try_addrs-Tried : (addrs : List SocketAddr) → Tried addrs (try_addrs addrs)
  unfolding try_addrs
  try_addrs-Tried [] = (refl, tt)
  try_addrs-Tried (addr ∷ addrs) = elim (Bool-cases (connect addr)) [
    | inl e ↦ rw e ([], addr, addrs, refl, refl, tt, e)
    | inr e ↦
        rw e (Tried-append (addr ∷ []) addrs (try_addrs addrs) (e, tt) (try_addrs-Tried addrs))
  ]

  go_on-Tried :
      (xs ys : List SocketAddr) (r s : List SocketAddr × Bool)
      → Tried xs r
      → Tried ys s
      → Tried (xs ++ ys) (go_on r s)
  go_on-Tried xs ys (tried, true) s (before, last, rest, e, t, quiet, answers) hs = (
    before,
    last,
    rest ++ ys,
    ap (λ (l : List SocketAddr). l ++ ys) e ∙ sym (append_assoc before (last ∷ rest) ys),
    t,
    quiet,
    answers,
  )
  go_on-Tried xs ys (tried, false) s (e, quiet) hs =
      subst (λ (l : List SocketAddr). Tried (xs ++ ys) (l ++ s.0, s.1)) (sym e)
        (Tried-append xs ys s quiet hs)

  -- The task on a needed connection tries what the addresses resolve to, in this order, up to the first
  -- that answers: either all were tried and none answered, or the last that was tried answered, none
  -- before it did, and the ones behind it were not tried. An address that does not resolve is skipped.
  pub connection_needed-Tried :
      (addresses : List Address) → Tried (all_addrs addresses) (connection_needed addresses)
  unfolding connection_needed
  connection_needed-Tried [] = (refl, tt)
  connection_needed-Tried (address ∷ addresses) =
      let addrs = addrs_of (to_socket_addrs address) in
      go_on-Tried addrs (all_addrs addresses) (try_addrs addrs) (connection_needed addresses)
        (try_addrs-Tried addrs) (connection_needed-Tried addresses)
