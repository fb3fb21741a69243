-- ===== src/Relay/Claims.antt =====
-- However the tasks of the relay interleave, a swap is claimed at most once.
use cardano_lightning_relay.Prelude.{
  ℕ, ◌+◌, ◌≤◌, ◌≡◌, String, str_eq, eq_iff, Bool, true, false, ◌&&◌, Option, some, List, [], ◌∷◌,
  All, arith, if◌then◌else◌, Bool-cases, Option-cases, inl, inr,
}
use cardano_lightning_relay.Types.{Payments}
use cardano_lightning_relay.RateLimiter.{RateLimiter}
use cardano_lightning_relay.Libs.{Libs}
use cardano_lightning_relay.Status.SwapStatus.{SwapStatus}
use cardano_lightning_relay.Mapping.{SwapDb}
use cardano_lightning_relay.Mapping.Onramp
use cardano_lightning_relay.Mapping.Offramp
use cardano_lightning_relay.Mapping.Claims.{
  NotPending, claims_left, claims_left-le-one, claims_left-insert, claims_left-update_status,
  claims_left-transition_status, claims_left-claim, claims_left-insert_offramp,
  claims_left-update_offramp_status, claims_left-transition_offramp_status,
  claims_left-transition_offramp_with_cbtc_tx,
}
use cardano_lightning_relay.Runtime.{Cmd, Resp, Event, World, observe, perform, Prog}
use cardano_lightning_relay.Runtime.Only.{AllActs}
use cardano_lightning_relay.Runtime.Tasks.{
  Move, acts, calls, Step, here, there, start, Reach, begin, next,
}
use cardano_lightning_relay.Relay.{Starts}
use cardano_lightning_relay.Relay.Quiet.{KeepsClaims}
use cardano_lightning_relay.Relay.Pending.{Starts-Quiet}

abbrev is_pending : SwapStatus → Bool
is_pending SwapStatus.pending = true
is_pending _ = false

-- A transition of `h` out of Pending that was applied.
abbrev claim_of : String → (c : Cmd) → Resp c → ℕ
claim_of h (Cmd.transition_status k s t tx) applied =
    if applied && is_pending s && str_eq k h then 1 else 0
claim_of h _ _ = 0

-- How often `h` has been claimed so far.
abbrev pub claims : String → List Event → ℕ
claims h [] = 0
claims h (Event.acted c r ∷ es) = claim_of h c r + claims h es
claims h (Event.called c r ∷ es) = claims h es

module _ (h : String) where
  -- The claims made and the claims still to come, at most.
  abbrev total : World → ℕ
  total w = claims h w.trace + claims_left h w.db

  transition-total :
      (k : String) (s t : SwapStatus) (tx : Option String) (db : SwapDb)
      → NotPending t
      → claim_of h (Cmd.transition_status k s t tx) (Onramp.transition_status k s t tx db).0
          + claims_left h (Onramp.transition_status k s t tx db).1
        ≤ claims_left h db
  transition-total k SwapStatus.pending t tx db n = elim (Bool-cases (str_eq k h)) [
    | inl same ↦ ground (
      arith,
      eq_iff k h,
      claims_left-claim h t tx db n,
      claims_left-transition_status h k SwapStatus.pending t tx db n,
    )
    | inr other ↦ ground (arith, claims_left-transition_status h k SwapStatus.pending t tx db n)
  ]
  transition-total k s t tx db n = ground (arith, claims_left-transition_status h k s t tx db n)

  perform-total :
      (c : Cmd) (w : World) (r : Resp c) {w' : World}
      → KeepsClaims c
      → perform c w ≡ some (r, w')
      → total (observe (Event.acted c r) w') ≤ total w
  perform-total (Cmd.insert m) w r q e = elim (Option-cases (Onramp.insert m w.db)) [
    | inl refused ↦ ground arith
    | inr (db, inserted) ↦ ground (arith, claims_left-insert h m w.db inserted)
  ]
  perform-total (Cmd.update_status k s tx) w r q e =
      ground (arith, claims_left-update_status h k s tx w.db q)
  perform-total (Cmd.transition_status k s t tx) w r q e =
      ground (arith, transition-total k s t tx w.db q)
  perform-total (Cmd.insert_offramp m) w r q e =
      elim (Option-cases (Offramp.insert_offramp m w.db)) [
        | inl refused ↦ ground arith
        | inr (db, inserted) ↦ ground (arith, claims_left-insert_offramp h w.db m inserted)
      ]
  perform-total (Cmd.update_offramp_status i s p d x) w r q e =
      ground (arith, claims_left-update_offramp_status h w.db i s p d x)
  perform-total (Cmd.transition_offramp_status i s t) w r q e =
      ground (arith, claims_left-transition_offramp_status h w.db i s t)
  perform-total (Cmd.transition_offramp_with_cbtc_tx i tx s t) w r q e =
      ground (arith, claims_left-transition_offramp_with_cbtc_tx h w.db i tx s t)
  perform-total c w r q e = ground arith

  -- One step of one task keeps the total and leaves a task that keeps claims.
  Move-total :
      {p q : Prog Unit} {w w' : World}
      → Move p w q w'
      → AllActs KeepsClaims p
      → (total w' ≤ total w) × AllActs KeepsClaims q
  Move-total (acts {c} {w} r e) h = (perform-total c w r h.0 e, h.1 r)
  Move-total (calls r) h = (omega arith, h r)

  module _ {libs : Libs} where
    Step-total :
        {ps qs : List (Prog Unit)} {w w' : World}
        → Step (Starts libs) ps w qs w'
        → All (AllActs KeepsClaims) ps
        → (total w' ≤ total w) × All (AllActs KeepsClaims) qs
    Step-total (here m) h = let (le, ok) = Move-total m h.0 in (le, (ok, h.1))
    Step-total (there s) h = let (le, ok) = Step-total s h.1 in (le, (h.0, ok))
    Step-total (start p s) h = (omega arith, (Starts-Quiet s, h))

    Reach-total :
        {w₀ w : World} {ps : List (Prog Unit)}
        → Reach (Starts libs) w₀ ps w
        → (total w ≤ total w₀) × All (AllActs KeepsClaims) ps
    Reach-total begin = (omega arith, tt)
    Reach-total (next r s) =
        let (le, ok) = Reach-total r in let (le', ok') = Step-total s ok in (omega arith, ok')

-- From a start with no history, whatever the tasks of the relay do, in any interleaving and with
-- any replies from outside, a payment hash is moved out of Pending by an applied transition at most
-- once: a Lightning payment is never claimed for fulfilment twice.
pub claims-le-one :
    (libs : Libs) (h : String) (db : SwapDb) (inbound outbound : Payments) (limiter : RateLimiter)
    {w : World} {ps : List (Prog Unit)}
    → Reach
        (Starts libs)
        (record { db = db; inbound = inbound; outbound = outbound; limiter = limiter; trace = [] })
        ps
        w
    → claims h w.trace ≤ 1
claims-le-one libs h db inbound outbound limiter r =
    omega (arith, (Reach-total h r).0, claims_left-le-one h db)
