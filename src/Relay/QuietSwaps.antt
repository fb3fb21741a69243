-- ===== src/Relay/QuietSwaps.antt =====
-- The tasks of src/cardano_swap.rs and of src/cli/payment_cmds.rs write no Pending.
use cardano_lightning_relay.Prelude.{ℕ, ltb_ℤ, ℤ, String, Option, none, some}
use cardano_lightning_relay.Types.{Result, Invoice, Bolt11Invoice}
use cardano_lightning_relay.Libs.{Libs}
use cardano_lightning_relay.Mapping.{SwapMapping}
use cardano_lightning_relay.Runtime.{ret, and_then}
use cardano_lightning_relay.Swap.{
  submit_created, request_swap, create_swap, swap_created, store_swap_mapping, fulfill_swap,
  fulfill_found, fulfill_claimed, settle_swap, conclude_swap,
}
use cardano_lightning_relay.Payments.{send_payment, start_payment, settle_send}
use cardano_lightning_relay.Relay.Quiet.{
  Quiet, Quiet-bind, Quiet-and_then, Quiet-if, submit-Quiet, query-Quiet,
}

pub conclude_swap-Quiet : (h : String) (r : Result String) → Quiet (conclude_swap h r)
unfolding conclude_swap
conclude_swap-Quiet h (Result.ok tx) = (tt, λ _. tt)
conclude_swap-Quiet h (Result.err e) = (tt, λ _. tt)

pub settle_swap-Quiet :
    (m : SwapMapping) (h : String) (r : Result Invoice) → Quiet (settle_swap m h r)
unfolding settle_swap
settle_swap-Quiet m h (Result.err e) = (tt, λ _. tt)
settle_swap-Quiet m h (Result.ok invoice) =
    Quiet-bind _ (conclude_swap h)
      (submit-Quiet _ 3 15 _ (elim [ Result.ok tx ↦ λ _. tt | Result.err e ↦ tt ]))
      (conclude_swap-Quiet h)

pub fulfill_claimed-Quiet : (m : SwapMapping) (h : String) → Quiet (fulfill_claimed m h)
unfolding fulfill_claimed
fulfill_claimed-Quiet m h = λ now_ms.
    Quiet-if (ltb_ℤ m.expires_at now_ms) _ _ (tt, λ _. tt)
      (Quiet-bind _ (settle_swap m h) (query-Quiet 24 10 _ _) (settle_swap-Quiet m h))

pub fulfill_swap-Quiet : (h : String) → Quiet (fulfill_swap h)
unfolding fulfill_swap fulfill_found
fulfill_swap-Quiet h = (
  tt,
  elim [
    | none ↦ tt
    | some m ↦ (tt, λ claimed. Quiet-if claimed _ (ret tt) (fulfill_claimed-Quiet m h) tt)
  ],
)

pub swap_created-Quiet : (addr : String) (r : Result (ℤ × String)) → Quiet (swap_created addr r)
unfolding swap_created
swap_created-Quiet addr (Result.ok (id, tx)) = tt
swap_created-Quiet addr (Result.err e) = tt

pub create_then_submit-Quiet :
    (created : Result (ℤ × String)) → Quiet (and_then created submit_created)
create_then_submit-Quiet (Result.ok p) = elim [ Result.ok hash ↦ tt | Result.err e ↦ tt ]
create_then_submit-Quiet (Result.err e) = tt

pub request_swap-Quiet :
    (libs : Libs) (amount : ℤ) (addr : String) (expiry : ℤ)
    → Quiet (request_swap libs amount addr expiry)
unfolding request_swap
request_swap-Quiet libs amount addr expiry =
    Quiet-and_then _ (create_swap amount addr expiry) λ pkh now_ms.
      Quiet-bind _ (swap_created addr) (submit-Quiet _ 3 15 _ create_then_submit-Quiet)
        (swap_created-Quiet addr)

pub store_swap_mapping-Quiet :
    (hash : String) (id amount : ℤ) (addr : String) (expires : ℤ) (tx : String)
    → Quiet (store_swap_mapping hash id amount addr expires tx)
unfolding store_swap_mapping
store_swap_mapping-Quiet hash id amount addr expires tx = λ now_ms. (tt, λ _. tt)

pub settle_send-Quiet : (id : String) (r : Result Unit) → Quiet (settle_send id r)
unfolding settle_send
settle_send-Quiet id (Result.ok _) = tt
settle_send-Quiet id (Result.err e) = (tt, λ _. elim [ Result.ok _ ↦ tt | Result.err x ↦ tt ])

pub send_payment-Quiet : (i : Bolt11Invoice) (req : Option ℕ) → Quiet (send_payment i req)
unfolding send_payment
send_payment-Quiet i req = Quiet-and_then _ (start_payment i req) λ amt. (
  tt,
  λ _. elim [
    | Result.ok _ ↦ λ started. settle_send-Quiet i.payment_hash started
    | Result.err x ↦ tt
  ],
)
