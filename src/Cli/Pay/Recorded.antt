-- ===== src/Cli/Pay/Recorded.antt =====
-- A payment is recorded, and the record is on disk, before the node is asked to send it.
use cardano_lightning_relay.Prelude.{
  ℕ, ◌≡◌, ◌==◌, ==_iff, inl, inr, refl, String, str_eq, eq_refl, Bool, true, false, ◌&&◌, Option,
  none, some, List,
}
use mathlib.Core.Path.{subst}
use cardano_lightning_relay.Types.{Result, Bolt11Invoice, HtlcStatus}
use cardano_lightning_relay.Runtime.{Cmd, Call, Reply, Event, Prog, ret, and_then, ◌>>=◌}
use cardano_lightning_relay.Runtime.Only.{Runs, Precedes, Guarded, Guarded-bind, Runs-Precedes}
use cardano_lightning_relay.Payments
use cardano_lightning_relay.Payments.{amount_to_send, start_payment, settle_send, send_payment}
use cardano_lightning_relay.Cli.Pay.{record_payment, keysend, pay_offer, pay_name}

-- The store of outbound payments has been written.
abbrev write_ok : (c : Call) → Reply c → Bool
write_ok Call.write_outbound_payments (Result.ok u) = true
write_ok Call.write_outbound_payments (Result.err e) = false
write_ok _ r = false

abbrev pub is_written : Event → Bool
is_written (Event.acted c r) = false
is_written (Event.called c r) = write_ok c r

-- The node is asked to pay.
abbrev pays : Call → Bool
pays (Call.pay_for_bolt11_invoice hash amount) = true
pays (Call.send_spontaneous_payment id amt) = true
pays (Call.pay_for_offer id amt) = true
pays (Call.pay_for_name id amt) = true
pays _ = false

abbrev pub is_paying : Event → Bool
is_paying (Event.acted c r) = false
is_paying (Event.called c r) = pays c

abbrev is_pending : HtlcStatus → Bool
is_pending HtlcStatus.pending = true
is_pending _ = false

abbrev is_amount : ℕ → Option ℕ → Bool
is_amount amt none = false
is_amount amt (some n) = n == amt

-- A statement that records a pending payment of the amount under the identifier.
abbrev records : String → ℕ → Cmd → Bool
records id amt (Cmd.insert_outbound k p) =
    str_eq k id && is_pending p.status && is_amount amt p.amt_msat
records id amt _ = false

abbrev pub is_recorded : String → ℕ → Event → Bool
is_recorded id amt (Event.acted c r) = records id amt c
is_recorded id amt (Event.called c r) = false

-- First the record, then the write, then the payment.
abbrev pub InOrder : String → ℕ → List Event → Type 0
InOrder id amt es = Precedes (is_recorded id amt) is_written es × Precedes is_written is_paying es

abbrev IsOrdered : {A : Type 0} → String → ℕ → Prog A → Type 0
IsOrdered id amt p = Guarded (is_recorded id amt) is_written p × Guarded is_written is_paying p

written :
    {A : Type 0} (k : Unit {0} → Prog A)
    → Guarded is_written is_paying (Payments.write_outbound >>= k)
written k (Result.ok u) = inl refl
written k (Result.err e) = inr (refl, tt)

records-pending :
    (id : String) (amt : ℕ) (secret : Option String)
    → records id amt (
        Cmd.insert_outbound id (record {
          preimage = none;
          secret = secret;
          status = HtlcStatus.pending;
          amt_msat = some amt;
        }))
      ≡ true
records-pending id amt secret = rw (eq_refl id, (==_iff amt amt).1 refl) refl

start_payment-IsOrdered :
    (invoice : Bolt11Invoice) (required : Option ℕ) (amt : ℕ)
    → IsOrdered invoice.payment_hash amt (start_payment invoice required amt)
unfolding start_payment
start_payment-IsOrdered invoice required amt = (
  λ u. inl (records-pending invoice.payment_hash amt (some invoice.payment_secret)),
  λ u. inr (refl, written _),
)

-- The amount that was found to be due, if one was.
abbrev pub IsDue : Result ℕ → ℕ → Type 0
IsDue (Result.err e) amt = Unit
IsDue (Result.ok n) amt = n ≡ amt

sent-IsOrdered :
    (invoice : Bolt11Invoice) (required : Option ℕ) (r : Result ℕ) (amt : ℕ)
    → IsDue r amt
    → IsOrdered invoice.payment_hash amt
        (and_then r (start_payment invoice required) >>= λ sent. ret tt)
sent-IsOrdered invoice required (Result.err e) amt due = (tt, tt)
sent-IsOrdered invoice required (Result.ok n) amt due =
    subst
      (λ (a : ℕ).
        IsOrdered invoice.payment_hash a (start_payment invoice required n >>= λ sent. ret tt))
      due
      (
        Guarded-bind (is_recorded invoice.payment_hash n) is_written
            (start_payment invoice required n) _ (start_payment-IsOrdered invoice required n).0
            (λ r. tt),
        Guarded-bind is_written is_paying (start_payment invoice required n) _
            (start_payment-IsOrdered invoice required n).1 (λ r. tt),
      )

-- The payments that the terminal starts, by identifier and amount; it drops the result of
-- `send_payment`.
pub data IsPayment : String → ℕ → Prog Unit → Type 0 where
  send :
      (invoice : Bolt11Invoice) (required : Option ℕ) (amt_msat : ℕ)
      → IsDue (amount_to_send invoice.amount_milli_satoshis required) amt_msat
      → IsPayment invoice.payment_hash amt_msat (send_payment invoice required >>= λ sent. ret tt)
  spontaneous :
      (payment_id : String) (amt_msat : ℕ)
      → IsPayment payment_id amt_msat (keysend payment_id amt_msat)
  offer :
      (payment_id : String) (amt_msat : ℕ)
      → IsPayment payment_id amt_msat (pay_offer payment_id amt_msat)
  name :
      (payment_id : String) (amt_msat : ℕ)
      → IsPayment payment_id amt_msat (pay_name payment_id amt_msat)

IsPayment-IsOrdered :
    {id : String} {amt : ℕ} {p : Prog Unit} → IsPayment id amt p → IsOrdered id amt p
unfolding send_payment keysend pay_offer pay_name record_payment
IsPayment-IsOrdered (IsPayment.send invoice required amt_msat due) =
    sent-IsOrdered invoice required (amount_to_send invoice.amount_milli_satoshis required) amt_msat
      due
IsPayment-IsOrdered (IsPayment.spontaneous payment_id amt_msat) =
    (λ u. inl (records-pending payment_id amt_msat none), λ u. inr (refl, written _))
IsPayment-IsOrdered (IsPayment.offer payment_id amt_msat) =
    (λ u. inl (records-pending payment_id amt_msat none), λ u. inr (refl, written _))
IsPayment-IsOrdered (IsPayment.name payment_id amt_msat) =
    (λ u. inl (records-pending payment_id amt_msat none), λ u. inr (refl, written _))

-- In every run of a payment that the terminal starts (`send_payment`, `keysend`, or the payment of an
-- offer or of a name), a record under the identifier of the payment, with the status Pending and with
-- the amount of the payment, is made before the store is written, and the store has been written with
-- success before the node is asked to pay.
pub payments-InOrder :
    {id : String} {amt : ℕ} {p q : Prog Unit} {es : List Event}
    → IsPayment id amt p
    → Runs p es q
    → InOrder id amt es
payments-InOrder {id} {amt} payment run =
    let ordered = IsPayment-IsOrdered payment in
    (
      Runs-Precedes (is_recorded id amt) is_written run ordered.0,
      Runs-Precedes is_written is_paying run ordered.1,
    )
