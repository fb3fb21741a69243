-- ===== src/Runtime.antt =====
-- How the asynchronous code runs. A task is a tree of actions: statements on the relay's own
-- shared state, each atomic under its mutex, and calls whose reply the outside world chooses. The
-- process is built with `panic = "abort"`, so a panic anywhere ends it.
pub mod Logic
pub mod Only
pub mod Budget
pub mod Tasks
use cardano_lightning_relay.Prelude.{ℕ, ℤ, String, Option, none, some, Bool, List, [], ◌∷◌, str_eq}
use cardano_lightning_relay.Types
use cardano_lightning_relay.Types.{
  Payments, PaymentInfo, HtlcStatus, Result, Invoice, Offramp, State, Bolt11Invoice,
}
use cardano_lightning_relay.Status.SwapStatus.{SwapStatus}
use cardano_lightning_relay.Status.OfframpStatus.{OfframpStatus}
use cardano_lightning_relay.RateLimiter.{RateLimiter, check}
use cardano_lightning_relay.Mapping.{SwapMapping, OfframpMapping, SwapDb}
use cardano_lightning_relay.Mapping.Onramp
use cardano_lightning_relay.Mapping.Offramp

-- The methods of `SwapDb` that tasks call, and the accesses to the store of outbound payments.
pub data Cmd : Type 0 where
  insert : SwapMapping → Cmd
  get_by_payment_hash : String → Cmd
  update_status : String → SwapStatus → Option String → Cmd
  transition_status : String → SwapStatus → SwapStatus → Option String → Cmd
  get_expired_pending : ℤ → Cmd
  get_by_status : SwapStatus → Cmd
  count_active_swaps : Cmd
  insert_offramp : OfframpMapping → Cmd
  get_offramp_by_id : ℤ → Cmd
  get_offramp_by_payment_hash : String → Cmd
  get_offramp_by_cbtc_tx : String → Cmd
  update_offramp_status : ℤ → OfframpStatus → Option String → Option String → Option String → Cmd
  transition_offramp_status : ℤ → OfframpStatus → OfframpStatus → Cmd
  transition_offramp_with_cbtc_tx : ℤ → String → OfframpStatus → OfframpStatus → Cmd
  get_expired_offramps : ℤ → Cmd
  get_offramps_by_status : OfframpStatus → Cmd
  count_active_offramps : Cmd
  insert_outbound : String → PaymentInfo → Cmd
  set_outbound_status : String → HtlcStatus → Cmd
  succeed_outbound : String → String → Cmd
  fail_outbound : String → Cmd
  insert_inbound : String → PaymentInfo → Cmd
  claim_inbound : String → Option String → Option String → ℕ → Cmd
  check_rate : String → ℕ → Cmd
  list_recent_swaps : ℤ → Cmd
  list_recent_offramps : ℤ → Cmd
  get_swap_counts : Cmd
  get_offramp_counts : Cmd

abbrev pub Resp : Cmd → Type 0
Resp (Cmd.insert m) = Unit
Resp (Cmd.get_by_payment_hash h) = Option SwapMapping
Resp (Cmd.update_status h s tx) = Unit
Resp (Cmd.transition_status h s t tx) = Bool
Resp (Cmd.get_expired_pending now_ms) = List SwapMapping
Resp (Cmd.get_by_status s) = List SwapMapping
Resp Cmd.count_active_swaps = ℕ
Resp (Cmd.insert_offramp m) = Unit
Resp (Cmd.get_offramp_by_id i) = Option OfframpMapping
Resp (Cmd.get_offramp_by_payment_hash h) = Option OfframpMapping
Resp (Cmd.get_offramp_by_cbtc_tx tx) = Option OfframpMapping
Resp (Cmd.update_offramp_status i s p d e) = Unit
Resp (Cmd.transition_offramp_status i s t) = Bool
Resp (Cmd.transition_offramp_with_cbtc_tx i tx s t) = Bool
Resp (Cmd.get_expired_offramps now_ms) = List OfframpMapping
Resp (Cmd.get_offramps_by_status s) = List OfframpMapping
Resp Cmd.count_active_offramps = ℕ
Resp (Cmd.insert_outbound k v) = Unit
Resp (Cmd.set_outbound_status k s) = Unit
Resp (Cmd.succeed_outbound k p) = Unit
Resp (Cmd.fail_outbound k) = Unit
Resp (Cmd.insert_inbound k v) = Unit
Resp (Cmd.claim_inbound k p s amt) = Unit
Resp (Cmd.check_rate ip now) = Bool
Resp (Cmd.list_recent_swaps limit) = List SwapMapping
Resp (Cmd.list_recent_offramps limit) = List OfframpMapping
Resp Cmd.get_swap_counts = List (String × ℤ)
Resp Cmd.get_offramp_counts = List (String × ℤ)

-- A call `…_in_time` stands under a timeout, and has no reply when the time is up.
-- The clock, the Cardano operator (src/cardano_ops.rs), the Lightning node and the disk.
pub data Call : Type 0 where
  current_timestamp_ms : Call
  sleep : ℕ → Call
  query_state : Call
  create_invoice : ℤ → String → ℤ → ℤ → Call
  fulfill_invoice : Invoice → String → Call
  cancel_invoice : ℤ → Call
  create_offramp : ℤ → String → String → ℤ → Call
  fulfill_offramp : Offramp → Call
  cancel_offramp : ℤ → Call
  send_cbtc : String → ℤ → Call
  submit_tx : String → Call
  verify_cbtc_received : String → ℤ → Call
  write_outbound_payments : Call
  pay_for_bolt11_invoice : String → Option ℕ → Call
  write_inbound_payments : Call
  create_bolt11_invoice : ℕ → ℕ → String → Call
  deposit_in_time : ℤ → Call
  withdraw_in_time : ℤ → Call
  submit_in_time : String → Call
  instant_now : Call
  deposit : ℤ → Call
  withdraw : ℤ → Call
  send_spontaneous_payment : String → ℕ → Call
  pay_for_offer : String → ℕ → Call
  pay_for_name : String → ℕ → Call

abbrev pub Reply : Call → Type 0
Reply Call.current_timestamp_ms = ℤ
Reply (Call.sleep secs) = Unit
Reply Call.query_state = Result State
Reply (Call.create_invoice amount owner ts exp) = Result (ℤ × String)
Reply (Call.fulfill_invoice invoice addr) = Result String
Reply (Call.cancel_invoice i) = Result String
Reply (Call.create_offramp amount hash refund exp) = Result (ℤ × String)
Reply (Call.fulfill_offramp offramp) = Result String
Reply (Call.cancel_offramp i) = Result String
Reply (Call.send_cbtc addr amount) = Result String
Reply (Call.submit_tx tx) = Result String
Reply (Call.verify_cbtc_received tx amount) = Result Bool
Reply Call.write_outbound_payments = Result Unit
Reply (Call.pay_for_bolt11_invoice hash amount) = Result Unit
Reply Call.write_inbound_payments = Result Unit
Reply (Call.create_bolt11_invoice amt_msat expiry_secs description) = Result Bolt11Invoice
Reply (Call.deposit_in_time amount) = Option (Result String)
Reply (Call.withdraw_in_time amount) = Option (Result String)
Reply (Call.submit_in_time tx) = Option (Result String)
Reply Call.instant_now = ℕ
Reply (Call.deposit amount) = Result String
Reply (Call.withdraw amount) = Result String
Reply (Call.send_spontaneous_payment id amt) = Result Unit
Reply (Call.pay_for_offer id amt) = Result Unit
Reply (Call.pay_for_name id amt) = Result Unit

-- What has happened: each finished action with its answer, the latest first.
pub data Event : Type 0 where
  acted : (c : Cmd) → Resp c → Event
  called : (c : Call) → Reply c → Event

pub record World : Type 0 where
  pub db : SwapDb
  pub inbound : Payments
  pub outbound : Payments
  pub limiter : RateLimiter
  pub trace : List Event

abbrev pub observe : Event → World → World
observe e w = record w { trace = e ∷ w.trace }

abbrev stored : Option SwapDb → World → Option (Unit {0} × World)
stored none w = none
stored (some db) w = some (tt, record w { db = db })

-- `get_mut(k).unwrap()`: a missing key panics.
abbrev set_payment_status :
    HtlcStatus → String → Option PaymentInfo → World → Option (Unit {0} × World)
set_payment_status s k none w = none
set_payment_status s k (some p) w =
    some (tt, record w { outbound = Types.insert k (record p { status = s }) w.outbound })

-- The writes of `handle_ldk_events` to a record of a payment.
abbrev succeed_payment : String → PaymentInfo → PaymentInfo
succeed_payment preimage p = record p { preimage = some preimage; status = HtlcStatus.succeeded }

abbrev fail_payment : PaymentInfo → PaymentInfo
fail_payment p = record p { status = HtlcStatus.failed }

abbrev claimed : Option String → Option String → ℕ → Option PaymentInfo → PaymentInfo
claimed preimage secret amount_msat none = record {
  preimage = preimage;
  secret = secret;
  status = HtlcStatus.succeeded;
  amt_msat = some amount_msat;
}
claimed preimage secret amount_msat (some p) = record p {
  preimage = preimage;
  secret = secret;
  status = HtlcStatus.succeeded;
}

-- One statement; `none` is a panic.
abbrev pub perform : (c : Cmd) → World → Option (Resp c × World)
perform (Cmd.insert m) w = stored (Onramp.insert m w.db) w
perform (Cmd.get_by_payment_hash h) w = some (Onramp.get_by_payment_hash h w.db, w)
perform (Cmd.update_status h s tx) w = some (tt, record w { db = Onramp.update_status h s tx w.db })
perform (Cmd.transition_status h s t tx) w =
    let (applied, db) = Onramp.transition_status h s t tx w.db in
    some (applied, record w { db = db })
perform (Cmd.get_expired_pending now_ms) w = some (Onramp.get_expired_pending now_ms w.db, w)
perform (Cmd.get_by_status s) w = some (Onramp.get_by_status s w.db, w)
perform Cmd.count_active_swaps w = some (Onramp.count_active_swaps w.db, w)
perform (Cmd.insert_offramp m) w = stored (Offramp.insert_offramp m w.db) w
perform (Cmd.get_offramp_by_id i) w = some (Offramp.get_offramp_by_id i w.db, w)
perform (Cmd.get_offramp_by_payment_hash h) w = some (Offramp.get_offramp_by_payment_hash h w.db, w)
perform (Cmd.get_offramp_by_cbtc_tx tx) w = some (Offramp.get_offramp_by_cbtc_tx tx w.db, w)
perform (Cmd.update_offramp_status i s p d e) w =
    some (tt, record w { db = Offramp.update_offramp_status i s p d e w.db })
perform (Cmd.transition_offramp_status i s t) w =
    let (applied, db) = Offramp.transition_offramp_status i s t w.db in
    some (applied, record w { db = db })
perform (Cmd.transition_offramp_with_cbtc_tx i tx s t) w =
    let (applied, db) = Offramp.transition_offramp_with_cbtc_tx i tx s t w.db in
    some (applied, record w { db = db })
perform (Cmd.get_expired_offramps now_ms) w = some (Offramp.get_expired_offramps now_ms w.db, w)
perform (Cmd.get_offramps_by_status s) w = some (Offramp.get_offramps_by_status s w.db, w)
perform Cmd.count_active_offramps w = some (Offramp.count_active_offramps w.db, w)
perform (Cmd.insert_outbound k v) w = some (tt, record w { outbound = Types.insert k v w.outbound })
perform (Cmd.set_outbound_status k s) w = set_payment_status s k (Types.lookup k w.outbound) w
perform (Cmd.succeed_outbound k p) w =
    some (tt, record w { outbound = Types.update k (succeed_payment p) w.outbound })
perform (Cmd.fail_outbound k) w =
    some (tt, record w { outbound = Types.update k fail_payment w.outbound })
perform (Cmd.insert_inbound k v) w = some (tt, record w { inbound = Types.insert k v w.inbound })
perform (Cmd.claim_inbound k p s amt) w = some (
  tt,
  record w { inbound = Types.insert k (claimed p s amt (Types.lookup k w.inbound)) w.inbound },
)
perform (Cmd.check_rate ip now) w =
    let (ok, limiter) = check ip now w.limiter in some (ok, record w { limiter = limiter })
perform (Cmd.list_recent_swaps limit) w = some (Onramp.list_recent_swaps limit w.db, w)
perform (Cmd.list_recent_offramps limit) w = some (Offramp.list_recent_offramps limit w.db, w)
perform Cmd.get_swap_counts w = some (Onramp.get_swap_counts w.db, w)
perform Cmd.get_offramp_counts w = some (Offramp.get_offramp_counts w.db, w)

-- A task: what it does next, and how it goes on from each answer.
pub data Prog (A : Type 0) : Type 0 where
  ret : A → Prog A
  panic : Prog A
  act : (c : Cmd) → (Resp c → Prog A) → Prog A
  call : (c : Call) → (Reply c → Prog A) → Prog A

infixl 5 ◌>>=◌ ◌>>◌
abbrev pub ◌>>=◌ : {A B : Type 0} → Prog A → (A → Prog B) → Prog B
ret a >>= f = f a
panic >>= f = panic
act c k >>= f = act c (λ r. k r >>= f)
call c k >>= f = call c (λ r. k r >>= f)

abbrev pub ◌>>◌ : {A B : Type 0} → Prog A → Prog B → Prog B
m >> n = m >>= λ _. n

abbrev pub db : (c : Cmd) → Prog (Resp c)
db c = act c (λ r. ret r)

abbrev pub ask : (c : Call) → Prog (Reply c)
ask c = call c (λ r. ret r)

-- `.expect(…)` and `.unwrap()` on a result.
abbrev pub unwrap : {A : Type 0} → Result A → Prog A
unwrap (Result.ok a) = ret a
unwrap (Result.err e) = panic

-- `r.map_err(f)?` inside a block that returns a result.
abbrev pub and_then : {A B : Type 0} → Result A → (A → Prog (Result B)) → Prog (Result B)
and_then (Result.ok a) k = k a
and_then (Result.err e) k = ret (Result.err e)

abbrev pub map_err : {A : Type 0} → (String → String) → Result A → Result A
map_err f (Result.ok a) = Result.ok a
map_err f (Result.err e) = Result.err (f e)

-- `for x in xs { body }`
abbrev pub for_each : {A : Type 0} → List A → (A → Prog Unit) → Prog Unit
for_each [] body = ret tt
for_each (x ∷ xs) body = body x >> for_each xs body
