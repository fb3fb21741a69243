-- ===== src/Relay/QuietOfframps.antt =====
-- The tasks of src/cardano_offramp.rs write no Pending to a swap.
use cardano_lightning_relay.Prelude.{
  ℕ, add_i64, ℤ, String, is_empty, Bool, true, false, Option, none, some,
}
use cardano_lightning_relay.Types
use cardano_lightning_relay.Types.{Result, Invoice, State, Bolt11Invoice}
use cardano_lightning_relay.Libs.{Libs}
use cardano_lightning_relay.Mapping.{OfframpMapping}
use cardano_lightning_relay.Runtime.{ret}
use cardano_lightning_relay.Offramp.{
  request_offramp, request_parsed, create_offramp_entry, store_offramp, process_offramp_deposit,
  deposit_unless_used, verify_deposit, verified_offramp, pay_offramp, pay_parsed, pay_amount,
  conclude_deposit, used_by_other,
}
use cardano_lightning_relay.Offramp.Settle.{
  complete_found, complete_offramp, deposit_to_pool, settle_offramp, conclude_offramp,
  handle_offramp_payment_failed, fail_found, refund_cbtc, cancel_offramp_on_chain, record_cancel,
}
use cardano_lightning_relay.Relay.Quiet.{
  Quiet, Quiet-bind, Quiet-and_then, Quiet-if, submit-Quiet, query-Quiet,
}
use cardano_lightning_relay.Relay.QuietSwaps.{create_then_submit-Quiet, send_payment-Quiet}

pub conclude_deposit-Quiet : (i : ℤ) (r : Result Unit) → Quiet (conclude_deposit i r)
unfolding conclude_deposit
conclude_deposit-Quiet i (Result.ok _) = tt
conclude_deposit-Quiet i (Result.err e) = (tt, λ _. tt)

pub pay_offramp-Quiet : (libs : Libs) (i : ℤ) (m : OfframpMapping) → Quiet (pay_offramp libs i m)
unfolding pay_offramp
pay_offramp-Quiet libs i m = Quiet-and_then _ (pay_parsed i m) λ invoice.
    Quiet-and_then _ (pay_amount i invoice) λ msat.
      Quiet-bind _ (conclude_deposit i) (send_payment-Quiet invoice (some msat))
        (conclude_deposit-Quiet i)

pub verified_offramp-Quiet :
    (libs : Libs) (i : ℤ) (tx : String) (m : OfframpMapping) (r : Result Bool)
    → Quiet (verified_offramp libs i tx m r)
unfolding verified_offramp
verified_offramp-Quiet libs i tx m (Result.err e) = (tt, λ _. tt)
verified_offramp-Quiet libs i tx m (Result.ok false) = (tt, λ _. tt)
verified_offramp-Quiet libs i tx m (Result.ok true) =
    (tt, λ moved. Quiet-if moved _ _ (pay_offramp-Quiet libs i m) tt)

pub verify_deposit-Quiet :
    (libs : Libs) (i : ℤ) (tx : String) (m : OfframpMapping) → Quiet (verify_deposit libs i tx m)
unfolding verify_deposit
verify_deposit-Quiet libs i tx m =
    (tt, λ claimed. Quiet-if claimed _ _ (verified_offramp-Quiet libs i tx m) tt)

pub deposit_unless_used-Quiet :
    (libs : Libs) (i : ℤ) (tx : String) (m : OfframpMapping) (o : Option ℤ)
    → Quiet (deposit_unless_used libs i tx m o)
unfolding deposit_unless_used
deposit_unless_used-Quiet libs i tx m none = verify_deposit-Quiet libs i tx m
deposit_unless_used-Quiet libs i tx m (some other) = tt

pub process_offramp_deposit-Quiet :
    (libs : Libs) (i : ℤ) (tx : String) → Quiet (process_offramp_deposit libs i tx)
unfolding process_offramp_deposit
process_offramp_deposit-Quiet libs i tx = (
  tt,
  elim [
    | none ↦ tt
    | some m ↦ (tt, λ existing. deposit_unless_used-Quiet libs i tx m (used_by_other i existing))
  ],
)

pub store_offramp-Quiet :
    (libs : Libs) (bolt11 hash : String) (amount now_ms : ℤ) (pkh : String) (expires : ℤ)
    (r : Result (ℤ × String))
    → Quiet (store_offramp libs bolt11 hash amount now_ms pkh expires r)
unfolding store_offramp
store_offramp-Quiet libs bolt11 hash amount now_ms pkh expires (Result.ok (id, tx)) = (tt, λ _. tt)
store_offramp-Quiet libs bolt11 hash amount now_ms pkh expires (Result.err e) = tt

pub create_offramp_entry-Quiet :
    (libs : Libs) (bolt11 hash : String) (amount expiry : ℤ) (checked : ℕ × String)
    → Quiet (create_offramp_entry libs bolt11 hash amount expiry checked)
unfolding create_offramp_entry
create_offramp_entry-Quiet libs bolt11 hash amount expiry checked = λ now_ms.
    Quiet-bind _ _ (submit-Quiet _ 3 15 _ create_then_submit-Quiet)
      (store_offramp-Quiet libs bolt11 hash amount now_ms checked.1 (add_i64 now_ms expiry))

pub request_offramp-Quiet :
    (libs : Libs) (bolt11 : String) (amount : ℤ) (addr : String) (expiry : ℤ)
    → Quiet (request_offramp libs bolt11 amount addr expiry)
unfolding request_offramp
request_offramp-Quiet libs bolt11 amount addr expiry =
    Quiet-and_then _ (request_parsed libs bolt11 amount addr expiry) λ invoice. (
      tt,
      elim [
        | some m ↦ tt
        | none ↦
            Quiet-and_then _ (create_offramp_entry libs bolt11 invoice.payment_hash amount expiry)
              (create_offramp_entry-Quiet libs bolt11 invoice.payment_hash amount expiry)
      ],
    )

pub conclude_offramp-Quiet : (i : ℤ) (r : Result String) → Quiet (conclude_offramp i r)
unfolding conclude_offramp
conclude_offramp-Quiet i (Result.ok tx) = (tt, λ _. tt)
conclude_offramp-Quiet i (Result.err e) = (tt, λ _. tt)

pub settle_offramp-Quiet : (i : ℤ) (r : Result Types.Offramp) → Quiet (settle_offramp i r)
unfolding settle_offramp
settle_offramp-Quiet i (Result.err e) = (tt, λ _. tt)
settle_offramp-Quiet i (Result.ok o) =
    Quiet-bind _ (conclude_offramp i)
      (submit-Quiet _ 3 15 _ (elim [ Result.ok tx ↦ λ _. tt | Result.err e ↦ tt ]))
      (conclude_offramp-Quiet i)

pub complete_offramp-Quiet : (h p : String) → Quiet (complete_offramp h p)
unfolding complete_offramp complete_found deposit_to_pool
complete_offramp-Quiet h p = (
  tt,
  elim [
    | none ↦ tt
    | some m ↦ (
      tt,
      λ claimed.
          Quiet-if claimed _ (ret tt)
            (
              tt,
              λ _.
                  Quiet-bind _ (settle_offramp m.offramp_id) (query-Quiet 24 10 _ _)
                    (settle_offramp-Quiet m.offramp_id),
            )
            tt,
    )
  ],
)

pub cancel_offramp_on_chain-Quiet : (m : OfframpMapping) → Quiet (cancel_offramp_on_chain m)
unfolding cancel_offramp_on_chain record_cancel
cancel_offramp_on_chain-Quiet m = elim [
  | Result.err e ↦ tt
  | Result.ok tx ↦ elim [ Result.err e ↦ tt | Result.ok hash ↦ (tt, λ existing. (tt, λ _. tt)) ]
]

pub refund_cbtc-Quiet : (m : OfframpMapping) → Quiet (refund_cbtc m)
unfolding refund_cbtc
refund_cbtc-Quiet m =
    Quiet-if (is_empty m.refund_address) _ _ (tt, λ _. tt)
      (elim [ Result.err e ↦ (tt, λ _. tt) | Result.ok tx ↦ λ submitted. (tt, λ _. tt) ])

pub handle_offramp_payment_failed-Quiet : (h : String) → Quiet (handle_offramp_payment_failed h)
unfolding handle_offramp_payment_failed fail_found
handle_offramp_payment_failed-Quiet h = (
  tt,
  elim [
    | none ↦ tt
    | some m ↦ Quiet-bind _ _ (refund_cbtc-Quiet m) (λ _. cancel_offramp_on_chain-Quiet m)
  ],
)
