-- ===== src/Cli/Terminal/Flags.antt =====
-- The flags of `openchannel`: an error is reported and the channel is opened all the same.
use cardano_lightning_relay.Prelude.{
  ℕ, ◌≡◌, refl, ap, Bool, Bool-cases, false, not, ◌||◌, inl, inr, some, List, [], ◌∷◌, ◌++◌,
  parse_unsigned, if◌then◌else◌,
}
use cardano_lightning_relay.Cli.Node.{Node}
use cardano_lightning_relay.Cli.Terminal.{
  Effect, Effects, word_is, flag_error, read_flags, open_with_amount,
}

-- The flags that the command knows, and those of them that set each option.
abbrev pub is_flag : List ℕ → Bool
is_flag word =
    (word_is word "--public" || word_is word "--public=true")
    || word_is word "--public=false"
    || (word_is word "--with-anchors" || word_is word "--with-anchors=true")
    || word_is word "--with-anchors=false"

abbrev pub is_no_flag : List ℕ → Bool
is_no_flag word = not (is_flag word)

module _ {Key Addr Offer Invoice Name : Type 0} (node : Node Key Addr Offer Invoice Name) where
  -- One error for each word that is no flag.
  abbrev pub errors_of : List (List ℕ) → Effects node
  errors_of [] = []
  errors_of (word ∷ words) =
      let others = errors_of words in if is_flag word then others else flag_error node ∷ others

  read_flags-errors_of :
      (words : List (List ℕ)) (public anchors : Bool)
      → (read_flags node words public anchors).0 ≡ errors_of words
  unfolding read_flags
  read_flags-errors_of [] public anchors = refl
  read_flags-errors_of (word ∷ words) public anchors = elim (Bool-cases (is_flag word)) [
    | inl e ↦ rw e (read_flags-errors_of words _ _)
    | inr e ↦ rw e (ap (λ (l : Effects node). flag_error node ∷ l) (read_flags-errors_of words _ _))
  ]

  -- With an amount that is a number, `openchannel` reports each word that is no flag and opens the
  -- channel all the same, with that amount.
  pub open_with_amount-bad_flags :
      (pubkey : Key) (amount : List ℕ) (sat : ℕ) (flags : List (List ℕ))
      → parse_unsigned 64 amount ≡ some sat
      → (public anchors : Bool) × (open_with_amount node pubkey amount flags
          ≡ errors_of flags ++ (Effect.open_channel pubkey sat public anchors ∷ []))
  unfolding open_with_amount
  open_with_amount-bad_flags pubkey amount sat flags h =
      let read = read_flags node flags false false in
      (
        read.1,
        read.2,
        rw h (
            ap (λ (l : Effects node). l ++ (Effect.open_channel pubkey sat read.1 read.2 ∷ []))
              (read_flags-errors_of flags false false)),
      )
