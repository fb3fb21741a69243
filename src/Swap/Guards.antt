-- ===== src/Swap/Guards.antt =====
-- What stands before a payout of `fulfill_swap` (src/cardano_swap.rs), on every path.
use cardano_lightning_relay.Prelude.{
  refl, inl, inr, String, str_eq, eq_refl, Bool, true, false, ◌&&◌, none, some, List,
}
use cardano_lightning_relay.Status.SwapStatus.{SwapStatus}
use cardano_lightning_relay.Runtime.{Cmd, Resp, Call, Event, Prog}
use cardano_lightning_relay.Runtime.Only.{Precedes, Runs, Runs-Precedes, Guarded}
use cardano_lightning_relay.Swap.{fulfill_swap, fulfill_found}

abbrev claims_swap : String → (c : Cmd) → Resp c → Bool
claims_swap h (Cmd.transition_status k SwapStatus.pending SwapStatus.fulfilling tx) applied =
    applied && str_eq k h
claims_swap h _ _ = false

-- The swap of `h` goes from Pending to Fulfilling.
abbrev pub is_claim : String → Event → Bool
is_claim h (Event.acted c r) = claims_swap h c r
is_claim h (Event.called c r) = false

abbrev pays_out : Call → Bool
pays_out (Call.fulfill_invoice invoice addr) = true
pays_out (Call.submit_tx tx) = true
pays_out _ = false

-- A transaction is built for an invoice, or is submitted.
abbrev pub is_payout : Event → Bool
is_payout (Event.acted c r) = false
is_payout (Event.called c r) = pays_out c

fulfill_swap-Guarded : (h : String) → Guarded (is_claim h) is_payout (fulfill_swap h)
unfolding fulfill_swap fulfill_found
fulfill_swap-Guarded h = elim [
  | none ↦ inr (refl, tt)
  | some m ↦ inr (refl, elim [ true ↦ inl (eq_refl h) | false ↦ inr (refl, tt) ])
]

-- In every run of `fulfill_swap`, whatever other tasks do in between and whatever the outside world
-- replies, building the fulfilment transaction and submitting any transaction happen only after this
-- very task has moved the swap of its payment hash from Pending to Fulfilling.
pub fulfill_swap-claims_first :
    (h : String) {es : List Event} {q : Prog Unit}
    → Runs (fulfill_swap h) es q
    → Precedes (is_claim h) is_payout es
fulfill_swap-claims_first h run = Runs-Precedes (is_claim h) is_payout run (fulfill_swap-Guarded h)
