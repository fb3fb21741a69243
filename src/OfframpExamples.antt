-- ===== src/OfframpExamples.antt =====
-- Concrete offramps, requests and rows, on which the theorems are applied.
use cardano_lightning_relay.Prelude.{
  ℕ, ◌+◌, ◌≤◌, ◌≡◌, ◌≢◌, refl, pos, String, str_eq, none, some, Bool, true, false, List, [], ◌∷◌,
  arith,
}
use cardano_lightning_relay.Types.{Result}
use cardano_lightning_relay.RateLimiter.Window.{accepted, accepted-le}
use cardano_lightning_relay.Status.SwapStatus
use cardano_lightning_relay.Status.SwapStatus.{SwapStatus}
use cardano_lightning_relay.Status.OfframpStatus
use cardano_lightning_relay.Status.OfframpStatus.{OfframpStatus}
use cardano_lightning_relay.Status.RoundTrip.{from_str-as_str, offramp-from_str-as_str}
use cardano_lightning_relay.Mapping.{OfframpMapping, SwapDb, row_to_swap}
use cardano_lightning_relay.Mapping.Onramp
use cardano_lightning_relay.Mapping.Lookup.{transition_status-lookup, update_status-lookup}
use cardano_lightning_relay.Runtime.{Cmd, Call, Event}
use cardano_lightning_relay.Runtime.Only
use cardano_lightning_relay.Runtime.Only.{Precedes, Runs}
use cardano_lightning_relay.Offramp.{
  process_offramp_deposit, deposit_unless_used, verify_deposit, verified_offramp, pay_offramp,
}
use cardano_lightning_relay.Offramp.Settle.{complete_found, complete_offramp, deposit_to_pool}
use cardano_lightning_relay.Offramp.Guards.{
  is_verified, is_payment, is_paying, is_depositing, is_submission,
  process_offramp_deposit-verifies_first, process_offramp_deposit-moves_first,
  complete_offramp-moves_first,
}
use cardano_lightning_relay.Examples.{libs, swap, stored, limiter}

abbrev pub offramp : OfframpStatus → OfframpMapping
offramp s = record {
  offramp_id = pos 3;
  bolt11 = "lnbcrt";
  payment_hash = "cd34";
  amount_cbtc = pos 5;
  cbtc_tx_hash = "";
  status = s;
  created_at = pos 1_000;
  lightning_preimage = none;
  deposit_tx_hash = none;
  error_message = none;
  cardano_offramp_tx_hash = some "c1";
  refund_address = "00";
  expires_at = pos 9_000;
}

abbrev deposit_events : List Event
deposit_events =
    Event.acted (Cmd.get_offramp_by_id (pos 3)) (some (offramp OfframpStatus.awaiting_deposit))
    ∷ Event.acted (Cmd.get_offramp_by_cbtc_tx "t9") none
    ∷ Event.acted
        (Cmd.transition_offramp_status (pos 3) OfframpStatus.awaiting_deposit
          OfframpStatus.pending_verification)
        true
    ∷ Event.called (Call.verify_cbtc_received "t9" (pos 5)) (Result.ok true)
    ∷ Event.acted
        (Cmd.transition_offramp_with_cbtc_tx (pos 3) "t9" OfframpStatus.pending_verification
          OfframpStatus.paying_lightning)
        true
    ∷ []

deposit_run :
    Runs
      (process_offramp_deposit libs (pos 3) "t9")
      deposit_events
      (pay_offramp libs (pos 3) (offramp OfframpStatus.awaiting_deposit))
unfolding process_offramp_deposit deposit_unless_used verify_deposit verified_offramp
deposit_run =
    Only.acts (some (offramp OfframpStatus.awaiting_deposit))
      (Only.acts none (Only.acts true (Only.calls (Result.ok true) (Only.acts true Only.stop))))

process_offramp_deposit-verifies_first_example :
    Precedes (is_verified "t9") is_payment deposit_events
process_offramp_deposit-verifies_first_example =
    process_offramp_deposit-verifies_first libs (pos 3) "t9" deposit_run

process_offramp_deposit-moves_first_example :
    Precedes (is_paying (pos 3) "t9") is_payment deposit_events
process_offramp_deposit-moves_first_example =
    process_offramp_deposit-moves_first libs (pos 3) "t9" deposit_run

abbrev complete_events : List Event
complete_events =
    Event.acted (Cmd.get_offramp_by_payment_hash "cd34")
      (some (offramp OfframpStatus.paying_lightning))
    ∷ Event.acted
        (Cmd.transition_offramp_status (pos 3) OfframpStatus.paying_lightning
          OfframpStatus.depositing_to_pool)
        true
    ∷ []

complete_run : Runs (complete_offramp "cd34" "ee") complete_events (deposit_to_pool (pos 3) "ee")
unfolding complete_offramp complete_found
complete_run = Only.acts (some (offramp OfframpStatus.paying_lightning)) (Only.acts true Only.stop)

complete_offramp-moves_first_example : Precedes is_depositing is_submission complete_events
complete_offramp-moves_first_example = complete_offramp-moves_first "cd34" "ee" complete_run

-- Six requests in one window, two of them from elsewhere.
abbrev six : List (String × ℕ)
six =
    ("10.0.0.1", 110)
    ∷ ("10.0.0.2", 110)
    ∷ ("10.0.0.1", 120)
    ∷ ("10.0.0.1", 130)
    ∷ ("10.0.0.2", 140)
    ∷ ("10.0.0.1", 150)
    ∷ []

accepted-le_example : accepted "10.0.0.1" six limiter + 1 ≤ 3
accepted-le_example =
    accepted-le "10.0.0.1" six limiter (record { count = 1; since = 100 }) refl (omega arith)
      (omega arith, (omega arith, (omega arith, (omega arith, (omega arith, (omega arith, tt))))))

row_found :
    Onramp.get_by_payment_hash "ab12" (stored SwapStatus.pending) ≡ some (swap SwapStatus.pending)
unfolding Onramp.get_by_payment_hash Onramp.read_row row_to_swap SwapStatus.from_str
    SwapStatus.as_str
row_found = refl

abbrev moved : Bool × SwapDb
moved =
    Onramp.transition_status "ab12" SwapStatus.pending SwapStatus.fulfilling none
      (stored SwapStatus.pending)

transition_status-lookup_example :
    (SwapStatus.pending ≡ SwapStatus.pending
      → (moved.0 ≡ true)
        × (Onramp.get_by_payment_hash "ab12" moved.1 ≡ some (swap SwapStatus.fulfilling)))
    × (SwapStatus.pending ≢ SwapStatus.pending
        → (moved.0 ≡ false) × (moved.1 ≡ stored SwapStatus.pending))
    × ((k : String)
        → str_eq k "ab12" ≡ false
        → Onramp.get_by_payment_hash k moved.1
          ≡ Onramp.get_by_payment_hash k (stored SwapStatus.pending))
transition_status-lookup_example =
    transition_status-lookup "ab12" SwapStatus.pending SwapStatus.fulfilling none
      (stored SwapStatus.pending) (swap SwapStatus.pending) (omega arith) row_found

abbrev written : SwapDb
written = Onramp.update_status "ab12" SwapStatus.failed none (stored SwapStatus.pending)

update_status-lookup_example :
    (Onramp.get_by_payment_hash "ab12" written ≡ some (swap SwapStatus.failed))
    × ((k : String)
        → str_eq k "ab12" ≡ false
        → Onramp.get_by_payment_hash k written
          ≡ Onramp.get_by_payment_hash k (stored SwapStatus.pending))
update_status-lookup_example =
    update_status-lookup "ab12" SwapStatus.failed none (stored SwapStatus.pending)
      (swap SwapStatus.pending) row_found

from_str-as_str_example :
    SwapStatus.from_str (SwapStatus.as_str SwapStatus.expired) ≡ SwapStatus.expired
from_str-as_str_example = from_str-as_str SwapStatus.expired

offramp-from_str-as_str_example :
    OfframpStatus.from_str (OfframpStatus.as_str OfframpStatus.failed) ≡ OfframpStatus.failed
offramp-from_str-as_str_example = offramp-from_str-as_str OfframpStatus.failed
