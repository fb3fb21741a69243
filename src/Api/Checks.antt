-- ===== src/Api/Checks.antt =====
-- What the checks at the head of the handlers of src/api.rs guarantee to what comes after them.
use cardano_lightning_relay.Prelude.{
  ◌*◌, ◌≡◌, refl, inl, inr, ◌⊎◌, ltb, leb_ℤ, ℤ, pos, pos_part, String, Bool, true, false, not, some,
  List, arith,
}
use Prim.Native.String
use cardano_lightning_relay.Libs.{Libs}
use cardano_lightning_relay.Amounts.{cbtc_to_msat, checked_mul}
use cardano_lightning_relay.Runtime.{Cmd, Resp, Call, Event, Prog}
use cardano_lightning_relay.Runtime.Only.{Precedes, Runs, Runs-Precedes, Guarded}
use cardano_lightning_relay.Api.{
  Response, Limits, StatusCode, reject, amount_out_of_range, handle_swap_request,
  handle_offramp_request, SwapResponse, OfframpResponse, max_cardano_addr_len, max_bolt11_len,
}

-- Every amount that the range check of a request lets through has a value in millisatoshis, a
-- thousand times the amount: neither the conversion of an onramp's invoice nor that of an offramp's
-- overflows.
pub amount_in_range-msat :
    (amount : ℤ)
    → amount_out_of_range amount ≡ false
    → cbtc_to_msat amount ≡ some (pos_part amount * 1_000)
unfolding amount_out_of_range cbtc_to_msat checked_mul
amount_in_range-msat amount h = ground arith

abbrev rate_answer : (c : Cmd) → Resp c → Bool
rate_answer (Cmd.check_rate ip now) ok = ok
rate_answer _ _ = false

-- The limiter lets the request through.
abbrev pub is_admitted : Event → Bool
is_admitted (Event.acted c r) = rate_answer c r
is_admitted (Event.called c r) = false

abbrev swaps_answer : ℤ → (c : Cmd) → Resp c → Bool
swaps_answer limit Cmd.count_active_swaps n = not (leb_ℤ limit (pos n))
swaps_answer limit _ _ = false

-- Fewer swaps are active than the limit allows.
abbrev pub is_below_swaps : ℤ → Event → Bool
is_below_swaps limit (Event.acted c r) = swaps_answer limit c r
is_below_swaps limit (Event.called c r) = false

abbrev offramps_answer : ℤ → (c : Cmd) → Resp c → Bool
offramps_answer limit Cmd.count_active_offramps n = not (leb_ℤ limit (pos n))
offramps_answer limit _ _ = false

-- Fewer offramps are active than the limit allows.
abbrev pub is_below_offramps : ℤ → Event → Bool
is_below_offramps limit (Event.acted c r) = offramps_answer limit c r
is_below_offramps limit (Event.called c r) = false

abbrev writes : Cmd → Bool
writes (Cmd.check_rate ip now) = false
writes (Cmd.count_active_swaps) = false
writes (Cmd.count_active_offramps) = false
writes _ = true

abbrev reaches_out : Call → Bool
reaches_out Call.instant_now = false
reaches_out Call.query_state = false
reaches_out _ = true

-- Anything but the checks themselves: any other access to the database, and any call that builds,
-- submits, pays or stores.
abbrev pub is_work : Event → Bool
is_work (Event.acted c r) = writes c
is_work (Event.called c r) = reaches_out c

module _ (gate : Event → Bool) where
  reject-Guarded :
      {A : Type 0} (b : Bool) (code : StatusCode) (msg : String) (rest : Prog (Response A))
      → (b ≡ false → Guarded gate is_work rest)
      → Guarded gate is_work (reject b code msg rest)
  reject-Guarded true code msg rest h = tt
  reject-Guarded false code msg rest h = h refl

  -- A check that lets the request through is the gate itself.
  checked-Guarded :
      {A : Type 0} (e : Event) (b : Bool) (code : StatusCode) (msg : String)
      (rest : Prog (Response A))
      → gate e ≡ not b
      → (gate e ≡ true) ⊎ ((false ≡ false) × Guarded gate is_work (reject b code msg rest))
  checked-Guarded e true code msg rest g = inr (refl, tt)
  checked-Guarded e false code msg rest g = inl g

module _ (libs : Libs) (limits : Limits) (ip : String) where
  swap-admitted :
      (amount : ℤ) (address : String)
      → Guarded is_admitted is_work (handle_swap_request libs limits ip amount address)
  unfolding handle_swap_request
  swap-admitted amount address =
      λ now. inr (refl, elim [ true ↦ inl refl | false ↦ inr (refl, tt) ])

  swap-below :
      (amount : ℤ) (address : String)
      → Guarded
          (is_below_swaps limits.max_active_swaps)
          is_work
          (handle_swap_request libs limits ip amount address)
  unfolding handle_swap_request
  swap-below amount address =
      let gate = is_below_swaps limits.max_active_swaps in
      λ now. inr (
        refl,
        λ allowed. inr (
          refl,
          reject-Guarded gate (not allowed) _ _ _ λ _.
              reject-Guarded gate (amount_out_of_range amount) _ _ _ λ _.
                reject-Guarded gate (ltb max_cardano_addr_len (String.len address)) _ _ _ λ _ n.
                  checked-Guarded gate (Event.acted Cmd.count_active_swaps n)
                    (leb_ℤ limits.max_active_swaps (pos n)) _ _ _ refl,
        ),
      )

  offramp-admitted :
      (bolt11 : String) (amount : ℤ) (address : String)
      → Guarded is_admitted is_work (handle_offramp_request libs limits ip bolt11 amount address)
  unfolding handle_offramp_request
  offramp-admitted bolt11 amount address =
      λ now. inr (refl, elim [ true ↦ inl refl | false ↦ inr (refl, tt) ])

  offramp-below :
      (bolt11 : String) (amount : ℤ) (address : String)
      → Guarded
          (is_below_offramps limits.max_active_offramps)
          is_work
          (handle_offramp_request libs limits ip bolt11 amount address)
  unfolding handle_offramp_request
  offramp-below bolt11 amount address =
      let gate = is_below_offramps limits.max_active_offramps in
      λ now. inr (
        refl,
        λ allowed. inr (
          refl,
          reject-Guarded gate (not allowed) _ _ _ λ _.
              reject-Guarded gate (amount_out_of_range amount) _ _ _ λ _.
                reject-Guarded gate (ltb max_bolt11_len (String.len bolt11)) _ _ _ λ _.
                  reject-Guarded gate (ltb max_cardano_addr_len (String.len address)) _ _ _ λ _ n.
                    checked-Guarded gate (Event.acted Cmd.count_active_offramps n)
                      (leb_ℤ limits.max_active_offramps (pos n)) _ _ _ refl,
        ),
      )

  -- In every run of `handle_swap_request`, before any work is done (anything but the checks
  -- themselves), the rate limiter has let the request through and fewer swaps than the limit were
  -- counted as active.
  pub handle_swap_request-checks_first :
      (amount : ℤ) (address : String) {es : List Event} {q : Prog (Response SwapResponse)}
      → Runs (handle_swap_request libs limits ip amount address) es q
      → Precedes is_admitted is_work es
        × Precedes (is_below_swaps limits.max_active_swaps) is_work es
  handle_swap_request-checks_first amount address run = (
    Runs-Precedes is_admitted is_work run (swap-admitted amount address),
    Runs-Precedes (is_below_swaps limits.max_active_swaps) is_work run (swap-below amount address),
  )

  -- In every run of `handle_offramp_request`, before any work is done (anything but the checks
  -- themselves), the rate limiter has let the request through and fewer offramps than the limit were
  -- counted as active.
  pub handle_offramp_request-checks_first :
      (bolt11 : String) (amount : ℤ) (address : String) {es : List Event}
      {q : Prog (Response OfframpResponse)}
      → Runs (handle_offramp_request libs limits ip bolt11 amount address) es q
      → Precedes is_admitted is_work es
        × Precedes (is_below_offramps limits.max_active_offramps) is_work es
  handle_offramp_request-checks_first bolt11 amount address run = (
    Runs-Precedes is_admitted is_work run (offramp-admitted bolt11 amount address),
    Runs-Precedes (is_below_offramps limits.max_active_offramps) is_work run
        (offramp-below bolt11 amount address),
  )
