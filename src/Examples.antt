-- ===== src/Examples.antt =====
-- Concrete states and runs, on which the theorems are applied.
use cardano_lightning_relay.Prelude.{
  count, ◌≤◌, ◌≡◌, refl, pos, String, str_eq, none, some, Bool, true, false, List, [], ◌∷◌, arith,
}
use cardano_lightning_relay.Types.{Invoice, State, Result, Bolt11Invoice, Currency}
use cardano_lightning_relay.Libs.{Libs}
use cardano_lightning_relay.RateLimiter.{RateLimiter}
use cardano_lightning_relay.Status.SwapStatus
use cardano_lightning_relay.Status.SwapStatus.{SwapStatus}
use cardano_lightning_relay.Mapping.{SwapMapping, SwapDb, row_to_swap, swap_has_status}
use cardano_lightning_relay.Mapping.Onramp
use cardano_lightning_relay.Mapping.Onramp.{has_hash, has_hash_in}
use cardano_lightning_relay.Mapping.Lookup.{get_by_payment_hash-insert}
use cardano_lightning_relay.Runtime.{Call, Cmd, Event, World, Prog, ret}
use cardano_lightning_relay.Runtime.Tasks.{acts, here, start, Reach, begin, next}
use cardano_lightning_relay.Runtime.Logic.{Ends}
use cardano_lightning_relay.Runtime.Only
use cardano_lightning_relay.Runtime.Only.{Precedes, Runs}
use cardano_lightning_relay.Swap.{
  settle_swap, conclude_swap, fulfill_swap, fulfill_found, fulfill_claimed,
}
use cardano_lightning_relay.Helpers.{
  submit_from, after_attempt, submit_contract_tx_with_retry, query_from, query_state_with_retry,
}
use cardano_lightning_relay.Swap.Submissions.{is_submit, fulfill_swap-submits_le}
use cardano_lightning_relay.Swap.Guards.{is_claim, is_payout, fulfill_swap-claims_first}
use cardano_lightning_relay.Swap.Outcome.{Fulfilled, fulfill_swap-Fulfilled}
use cardano_lightning_relay.Relay.{Starts, fulfills_swap}
use cardano_lightning_relay.Relay.Claims.{claims, claims-le-one}
use cardano_lightning_relay.Relay.Keys.{KeysUnique, Reach-KeysUnique}

abbrev invoice : Bolt11Invoice
invoice = record {
  payment_hash = "ab12";
  payment_secret = "55";
  currency = Currency.regtest;
  amount_milli_satoshis = some 5_000;
}

abbrev pub libs : Libs
libs = record {
  bolt11_from_str = λ s. Result.ok invoice;
  bolt11_to_string = λ i. "lnbcrt";
  description_new = λ s. Result.ok s;
  bech32_decode = λ s. Result.err "not an address";
  from_base32 = λ ns. Result.ok ns;
  hex_encode = λ ns. "00";
  operator_address = "addr_test1operator";
}

abbrev pub swap : SwapStatus → SwapMapping
swap s = record {
  payment_hash = "ab12";
  invoice_id = pos 7;
  amount_cbtc = pos 5;
  cardano_address = "addr_test1user";
  status = s;
  created_at = pos 1_000;
  expires_at = pos 9_000;
  cardano_tx_hash = none;
  create_tx_hash = some "c0";
}

abbrev pub stored : SwapStatus → SwapDb
stored s = record { swaps = swap s ∷ []; offramps = [] }

abbrev pub limiter : RateLimiter
limiter = record {
  requests = ("10.0.0.1", record { count = 1; since = 100 }) ∷ [];
  max_per_window = 3;
  window = 60;
}

abbrev pub begun : SwapDb → World
begun db = record { db = db; inbound = []; outbound = []; limiter = limiter; trace = [] }

-- A task claims the swap, and another then fails to.
abbrev read_event : SwapStatus → Event
read_event s = Event.acted (Cmd.get_by_payment_hash "ab12") (some (swap s))

abbrev claim_event : Bool → Event
claim_event applied =
    Event.acted (Cmd.transition_status "ab12" SwapStatus.pending SwapStatus.fulfilling none) applied

abbrev two_tasks : List Event
two_tasks =
    claim_event false
    ∷ read_event SwapStatus.fulfilling
    ∷ claim_event true
    ∷ read_event SwapStatus.pending
    ∷ []

abbrev after_claims : World
after_claims = record (begun (stored SwapStatus.fulfilling)) { trace = two_tasks }

unfoldable left_over : List (Prog Unit)
unfolding fulfill_claimed
left_over = ret tt ∷ fulfill_claimed (swap SwapStatus.pending) "ab12" ∷ []

two_claims : Reach (Starts libs) (begun (stored SwapStatus.pending)) left_over after_claims
unfolding left_over fulfill_claimed fulfill_swap fulfill_found Onramp.get_by_payment_hash
    Onramp.read_row row_to_swap SwapStatus.from_str SwapStatus.as_str Onramp.transition_status
    has_hash_in swap_has_status
two_claims =
    next
      (next
        (next
          (next
            (next (next begin (start (fulfill_swap "ab12") (fulfills_swap "ab12")))
              (here (acts (some (swap SwapStatus.pending)) refl)))
            (here (acts true refl)))
          (start (fulfill_swap "ab12") (fulfills_swap "ab12")))
        (here (acts (some (swap SwapStatus.fulfilling)) refl)))
      (here (acts false refl))

claims-le-one_example : claims "ab12" two_tasks ≤ 1
claims-le-one_example =
    claims-le-one libs "ab12" (stored SwapStatus.pending) [] [] limiter two_claims

one_row : KeysUnique (stored SwapStatus.pending)
one_row = (λ h. ground arith, λ i. omega arith)

Reach-KeysUnique_example : KeysUnique (stored SwapStatus.fulfilling)
Reach-KeysUnique_example = Reach-KeysUnique libs two_claims one_row

claim_run :
    Runs
      (fulfill_swap "ab12")
      (read_event SwapStatus.pending ∷ claim_event true ∷ [])
      (fulfill_claimed (swap SwapStatus.pending) "ab12")
unfolding fulfill_swap fulfill_found
claim_run = Only.acts (some (swap SwapStatus.pending)) (Only.acts true Only.stop)

fulfill_swap-claims_first_example :
    Precedes (is_claim "ab12") is_payout (read_event SwapStatus.pending ∷ claim_event true ∷ [])
fulfill_swap-claims_first_example = fulfill_swap-claims_first "ab12" claim_run

fulfill_swap-Fulfilled_example :
    Ends
      (fulfill_swap "ab12")
      (λ _ w. Fulfilled "ab12" (stored SwapStatus.pending) w)
      (begun (stored SwapStatus.pending))
fulfill_swap-Fulfilled_example = fulfill_swap-Fulfilled "ab12" (begun (stored SwapStatus.pending))

inserts :
    Onramp.insert (swap SwapStatus.pending) (record { swaps = []; offramps = [] })
    ≡ some (stored SwapStatus.pending)
unfolding Onramp.insert
inserts = refl

get_by_payment_hash-insert_example :
    (Onramp.get_by_payment_hash "ab12" (stored SwapStatus.pending) ≡ some (swap SwapStatus.pending))
    × ((h : String)
        → str_eq "ab12" h ≡ false
        → Onramp.get_by_payment_hash h (stored SwapStatus.pending)
          ≡ Onramp.get_by_payment_hash h (record { swaps = []; offramps = [] }))
get_by_payment_hash-insert_example =
    get_by_payment_hash-insert (swap SwapStatus.pending) (record { swaps = []; offramps = [] })
      inserts

abbrev on_chain : Invoice
on_chain = record {
  invoice_id = pos 7;
  amount = pos 5;
  owner = "00";
  timestamp = pos 1_000;
  expires_at = pos 9_000;
}

abbrev state : State
state = record {
  total_liquidity = pos 100;
  reserved = pos 5;
  available = pos 95;
  invoices = on_chain ∷ [];
  offramps = [];
}

-- A whole run, up to the accepted submission.
abbrev whole_run : List Event
whole_run =
    read_event SwapStatus.pending
    ∷ claim_event true
    ∷ Event.called Call.current_timestamp_ms (pos 2_000)
    ∷ Event.called Call.query_state (Result.ok state)
    ∷ Event.called (Call.fulfill_invoice on_chain "addr_test1user") (Result.ok "raw")
    ∷ Event.called (Call.submit_tx "raw") (Result.ok "hash")
    ∷ []

submit_run : Runs (fulfill_swap "ab12") whole_run (conclude_swap "ab12" (Result.ok "hash"))
unfolding fulfill_swap fulfill_found fulfill_claimed settle_swap conclude_swap submit_from
    after_attempt submit_contract_tx_with_retry query_from query_state_with_retry
submit_run = Only.acts (some (swap SwapStatus.pending)) (
    Only.acts true (
      Only.calls (pos 2_000) (
        Only.calls (Result.ok state)
          (Only.calls (Result.ok "raw") (Only.calls (Result.ok "hash") Only.stop)))))

fulfill_swap-submits_le_example : count is_submit whole_run ≤ 3
fulfill_swap-submits_le_example = fulfill_swap-submits_le "ab12" submit_run
