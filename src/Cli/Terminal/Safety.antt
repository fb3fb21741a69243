-- ===== src/Cli/Terminal/Safety.antt =====
-- What no line of input can make the relay do.
use mathlib.Core.Path.{subst}
use cardano_lightning_relay.Prelude.{
  ℕ, ◌≡◌, ◌⊎◌, refl, String, Bool, Bool-cases, true, false, inl, inr, Option, Option-cases, none,
  some, List, [], ◌∷◌, ◌++◌, length, parse_unsigned, split_on, if◌then◌else◌,
}
use cardano_lightning_relay.Hex.{to_compressed_pubkey}
use cardano_lightning_relay.Cli.Node.{Node}
use cardano_lightning_relay.Cli.Terminal.{
  Effect, Effects, need, after_connect, open_with_amount, open_at, open_connected, openchannel,
  flag_error, keyed, with_addr, connect_peer_if_necessary, key_text,
}
use cardano_lightning_relay.Cli.Terminal.Flags.{errors_of, is_flag, open_with_amount-bad_flags}

module _ {Key Addr Offer Invoice Name : Type 0} (node : Node Key Addr Offer Invoice Name) where
  -- The effect is among those before.
  abbrev pub IsDone : Effect Key Addr Offer Invoice Name → Effects node → Type 0
  IsDone e [] = ⊥
  IsDone e (d ∷ before) = (d ≡ e) ⊎ IsDone e before

  -- A peer is connected before the command, or an earlier effect of the command was to connect it,
  -- and it was connected then.
  abbrev pub IsReached : Effects node → Key → Type 0
  IsReached before key =
      (node.peer_by_node_id key ≡ true)
      ⊎ ((addr : Addr) × IsDone (Effect.connect key addr) before
          × (node.connect_outbound key addr ≡ true))

  -- When an effect may happen behind the effects before.
  abbrev pub IsAllowed : Effects node → Effect Key Addr Offer Invoice Name → Type 0
  IsAllowed before (Effect.open_channel key sat public anchors) = IsReached before key
  IsAllowed before (Effect.connected key) = IsReached before key
  IsAllowed before (Effect.disconnect key) =
      (node.has_channel key ≡ false) × (node.peer_by_node_id key ≡ true)
  IsAllowed before (Effect.close_channel id key) = length id ≡ 32
  IsAllowed before (Effect.force_close_channel id key) = length id ≡ 32
  IsAllowed before (Effect.cardano_deposit amount) = node.has_operator ≡ true
  IsAllowed before (Effect.cardano_withdraw amount) = node.has_operator ≡ true
  IsAllowed before Effect.pool_info = node.has_operator ≡ true
  IsAllowed before Effect.cancel_expired = node.has_operator ≡ true
  IsAllowed before Effect.cancel_expired_offramps = node.has_operator ≡ true
  IsAllowed before _ = Unit

  -- The effects one after the other, the last one before standing first in `before`.
  abbrev pub Allowed : Effects node → Effects node → Type 0
  Allowed before [] = Unit
  Allowed before (e ∷ effects) = IsAllowed before e × Allowed (e ∷ before) effects

  pub need-Allowed :
      {A : Type 0} (before : Effects node) (text : String) (o : Option A) (f : A → Effects node)
      → ((a : A) → o ≡ some a → Allowed before (f a))
      → Allowed before (need node text o f)
  need-Allowed before text none f h = (tt, tt)
  need-Allowed before text (some a) f h = h a refl

  pub if-Allowed :
      (before : Effects node) (b : Bool) (x y : Effects node)
      → (b ≡ true → Allowed before x)
      → (b ≡ false → Allowed before y)
      → Allowed before (if b then x else y)
  if-Allowed before true x y hx hy = hx refl
  if-Allowed before false x y hx hy = hy refl

  -- What was reached stays so.
  IsReached-later :
      (e : Effect Key Addr Offer Invoice Name) (before : Effects node) (key : Key)
      → IsReached before key
      → IsReached (e ∷ before) key
  IsReached-later e before key (inl c) = inl c
  IsReached-later e before key (inr (addr, done, c)) = inr (addr, inr done, c)

  -- Errors on flags, and then a channel.
  errors_of-Allowed :
      (words : List (List ℕ)) (before : Effects node) (key : Key) (sat : ℕ) (public anchors : Bool)
      → IsReached before key
      → Allowed before (errors_of node words ++ (Effect.open_channel key sat public anchors ∷ []))
  errors_of-Allowed [] before key sat public anchors reached = (reached, tt)
  errors_of-Allowed (word ∷ words) before key sat public anchors reached =
      elim (Bool-cases (is_flag word)) [
        | inl e ↦ rw e (errors_of-Allowed words before key sat public anchors reached)
        | inr e ↦ rw e (
          tt,
          errors_of-Allowed words (flag_error node ∷ before) key sat public anchors
              (IsReached-later (flag_error node) before key reached),
        )
      ]

  open_with_amount-Allowed :
      (before : Effects node) (key : Key) (amount : List ℕ) (flags : List (List ℕ))
      → IsReached before key
      → Allowed before (open_with_amount node key amount flags)
  open_with_amount-Allowed before key amount flags reached =
      elim (Option-cases (parse_unsigned 64 amount)) [
        | inl e ↦ unfold open_with_amount in rw e (tt, tt)
        | inr (sat, e) ↦
            let (public, anchors, is) = open_with_amount-bad_flags node key amount sat flags e in
            rw is (errors_of-Allowed flags before key sat public anchors reached)
      ]

  -- What follows a connection is allowed when it is so behind any effects that reached the peer.
  abbrev pub ThenAllowed : Key → Effects node → Type 0
  ThenAllowed key then_do = (before : Effects node) → IsReached before key → Allowed before then_do

  pub connected-Allowed :
      (before : Effects node) (key : Key) (addr : Addr) (then_do : Effects node)
      → ThenAllowed key then_do
      → Allowed before (after_connect node (connect_peer_if_necessary node key addr) then_do)
  unfolding connect_peer_if_necessary
  connected-Allowed before key addr then_do h = elim (Bool-cases (node.peer_by_node_id key)) [
    | inl e ↦ rw e (h before (inl e))
    | inr e ↦ elim (Bool-cases (node.connect_outbound key addr)) [
      | inl c ↦ rw (e, c) (tt, h (Effect.connect key addr ∷ before) (inr (addr, inl refl, c)))
      | inr c ↦ rw (e, c) (tt, (tt, tt))
    ]
  ]

  keyed-Allowed :
      (before : Effects node) (key : Key) (addr : Addr) (o : Option Key) (then_do : Effects node)
      → o ≡ some key
      → ThenAllowed key then_do
      → Allowed before (open_connected node then_do (keyed node addr o))
  keyed-Allowed before key addr none then_do e h = absurd (cc e)
  keyed-Allowed before key addr (some other) then_do e h =
      let same : other ≡ key = cc e in
      connected-Allowed before other addr then_do
        (λ b r. h b (subst (λ (k : Key). IsReached b k) same r))

  with_addr-Allowed :
      (before : Effects node) (key : Key) (text : List ℕ) (o : Option Addr) (then_do : Effects node)
      → to_compressed_pubkey node.from_slice text ≡ some key
      → ThenAllowed key then_do
      → Allowed before (open_connected node then_do (with_addr node text o))
  with_addr-Allowed before key text none then_do e h = (tt, tt)
  with_addr-Allowed before key text (some addr) then_do e h =
      keyed-Allowed before key addr (to_compressed_pubkey node.from_slice text) then_do e h

  open_at-Allowed :
      (before : Effects node) (key : Key) (amount : List ℕ) (flags pieces : List (List ℕ))
      → to_compressed_pubkey node.from_slice (key_text node pieces) ≡ some key
      → Allowed before (open_at node key amount flags pieces)
  open_at-Allowed before key amount flags [] e =
      if-Allowed before (node.peer_by_node_id key) _ _
        (λ c. open_with_amount-Allowed before key amount flags (inl c)) (λ c. (tt, tt))
  open_at-Allowed before key amount flags (text ∷ []) e =
      if-Allowed before (node.peer_by_node_id key) _ _
        (λ c. open_with_amount-Allowed before key amount flags (inl c)) (λ c. (tt, tt))
  open_at-Allowed before key amount flags (text ∷ addr ∷ others) e =
      with_addr-Allowed before key text (node.to_socket_addrs addr) _ e
        (λ b. open_with_amount-Allowed b key amount flags)

  pub openchannel-Allowed :
      (before : Effects node) (words : List (List ℕ)) → Allowed before (openchannel node words)
  unfolding openchannel
  openchannel-Allowed before [] = (tt, tt)
  openchannel-Allowed before (peer ∷ []) = (tt, tt)
  openchannel-Allowed before (peer ∷ amount ∷ flags) =
      need-Allowed before "ERROR: unable to parse given pubkey for node" _ _
        (λ key e. open_at-Allowed before key amount flags (split_on b'@' peer) e)
