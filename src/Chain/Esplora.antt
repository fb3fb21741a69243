-- ===== src/Chain/Esplora.antt =====
-- src/esplora.rs: the fee estimates, the broadcasts and the balance of the Esplora client. What a
-- request comes to is an argument.
pub mod Clamp
pub mod Updates
pub mod Client
pub mod Tests
use cardano_lightning_relay.Prelude.{
  ℕ, ◌+◌, ◌%◌, ◌^◌, leb, String, ◌<>◌, str_eq, codes, parse_unsigned, trim, trim_end, Bool, true,
  false, not, ◌||◌, ◌==◌, Option, none, some, List, [], ◌∷◌, ◌++◌, if◌then◌else◌,
}
use Prim.Native.Nat.{max, min}
use cardano_lightning_relay.Types.{Result}
use cardano_lightning_relay.Chain.Float.{FloatOps}
use cardano_lightning_relay.Chain.Json.{JsonOps}
use cardano_lightning_relay.Chain.{ConfirmationTarget, Fees, store, min_feerate, initial_fees}

abbrev pub default_normal_max : ℕ
default_normal_max = 5000

abbrev pub default_high_priority_max : ℕ
default_high_priority_max = 50000

abbrev at_least_min : Option ℕ → ℕ
at_least_min none = default_normal_max
at_least_min (some v) = if leb min_feerate v then v else default_normal_max

abbrev pub parse_u32 : Option String → Option ℕ
parse_u32 none = none
parse_u32 (some v) = parse_unsigned 32 (codes v)

unfoldable pub max_feerate_sat_per_kwu_from_value : Option String → ℕ
unfolding parse_unsigned
max_feerate_sat_per_kwu_from_value value = at_least_min (parse_u32 value)

unfoldable pub high_priority_max_feerate_sat_per_kwu : ℕ → ℕ
high_priority_max_feerate_sat_per_kwu normal_max_sat_kwu =
    max normal_max_sat_kwu default_high_priority_max

pub record FeeEstimateUpdate (F : Type 0) : Type 0 where
  pub target : ConfirmationTarget
  pub source_blocks : String
  pub raw_sat_vb : F
  pub converted_sat_kwu : ℕ
  pub assigned_sat_kwu : ℕ
  pub was_clamped : Bool

module _ {F : Type 0} (float : FloatOps F) where
  abbrev u32_max : ℕ
  u32_max = 4294967295

  unfoldable pub raw_sat_vb_to_sat_kwu : F → ℕ
  raw_sat_vb_to_sat_kwu sat_vb =
      if not (float.is_finite sat_vb) || float.le sat_vb (float.of 0)
      then min_feerate
      else let rounded_up = float.ceil (float.mul sat_vb (float.of 250)) in
        if float.le (float.of u32_max) rounded_up then u32_max else float.to_u32 rounded_up

  unfoldable pub sat_vb_to_sat_kwu_clamped : F → ℕ → ℕ
  unfolding raw_sat_vb_to_sat_kwu
  sat_vb_to_sat_kwu_clamped sat_vb max_sat_kwu =
      min (max (raw_sat_vb_to_sat_kwu sat_vb) min_feerate) (max max_sat_kwu min_feerate)

  -- The fees, and the updates so far.
  abbrev pub Applied : Type 0
  Applied = Fees × List (FeeEstimateUpdate F)

  abbrev pub fee_update : ConfirmationTarget → String → F → ℕ → FeeEstimateUpdate F
  fee_update target source_blocks raw_sat_vb max_sat_kwu =
      let converted = max (raw_sat_vb_to_sat_kwu raw_sat_vb) min_feerate in
      let assigned = sat_vb_to_sat_kwu_clamped raw_sat_vb max_sat_kwu in
      record {
        target = target;
        source_blocks = source_blocks;
        raw_sat_vb = raw_sat_vb;
        converted_sat_kwu = converted;
        assigned_sat_kwu = assigned;
        was_clamped = not (assigned == converted);
      }

  abbrev pushed : List (FeeEstimateUpdate F) → FeeEstimateUpdate F → Option Fees → Option Applied
  pushed updates update none = none
  pushed updates update (some fees) = some (fees, updates ++ (update ∷ []))

  -- `none` is the panic of `unwrap` on a target without an entry.
  unfoldable pub apply_fee : ConfirmationTarget → String → F → ℕ → Applied → Option Applied
  unfolding sat_vb_to_sat_kwu_clamped
  apply_fee target source_blocks raw_sat_vb max_sat_kwu (fees, updates) =
      pushed updates (fee_update target source_blocks raw_sat_vb max_sat_kwu)
        (store target (sat_vb_to_sat_kwu_clamped raw_sat_vb max_sat_kwu) fees)

  abbrev pub then_apply : ConfirmationTarget → String → F → ℕ → Option Applied → Option Applied
  then_apply target source_blocks raw_sat_vb max_sat_kwu none = none
  then_apply target source_blocks raw_sat_vb max_sat_kwu (some applied) =
      apply_fee target source_blocks raw_sat_vb max_sat_kwu applied

  -- `if let Some(rate) = estimates.get(blocks) { … }` with two targets, and with one.
  abbrev pub apply_both :
      ConfirmationTarget
      → ConfirmationTarget
      → String
      → ℕ
      → Option F
      → Option Applied
      → Option Applied
  apply_both t u blocks cap none applied = applied
  apply_both t u blocks cap (some rate) applied =
      then_apply u blocks rate cap (then_apply t blocks rate cap applied)

  abbrev pub apply_one :
      ConfirmationTarget → String → ℕ → Option F → Option Applied → Option Applied
  apply_one t blocks cap none applied = applied
  apply_one t blocks cap (some rate) applied = then_apply t blocks rate cap applied

  unfoldable pub apply_fee_estimates : Fees → (String → Option F) → ℕ → Option Applied
  unfolding apply_fee high_priority_max_feerate_sat_per_kwu
  apply_fee_estimates fees estimates normal_max_sat_kwu =
      let high_priority_max_sat_kwu = high_priority_max_feerate_sat_per_kwu normal_max_sat_kwu in
      apply_one ConfirmationTarget.output_spending_fee "25" normal_max_sat_kwu (estimates "25") (
        apply_both ConfirmationTarget.non_anchor_channel_fee
          ConfirmationTarget.channel_close_minimum "6" normal_max_sat_kwu (estimates "6")
          (apply_both ConfirmationTarget.maximum_fee_estimate
            ConfirmationTarget.urgent_on_chain_sweep "1" high_priority_max_sat_kwu (estimates "1")
            (some (fees, []))))

  abbrev fees_of : Option Applied → Option Fees
  fees_of none = none
  fees_of (some applied) = some applied.0

  -- `update_fee_estimates`: the reply to the request, and the body if it is the expected JSON. Only
  -- what is printed of the updates is left out.
  unfoldable pub update_fee_estimates : Result (Result (String → Option F)) → ℕ → Fees → Option Fees
  unfolding apply_fee_estimates
  update_fee_estimates (Result.err e) normal_max fees = some fees
  update_fee_estimates (Result.ok (Result.err e)) normal_max fees = some fees
  update_fee_estimates (Result.ok (Result.ok estimates)) normal_max fees =
      fees_of (apply_fee_estimates fees estimates normal_max)

-- A response: whether its status is a success, and its body as text.
pub record Response : Type 0 where
  pub is_success : Bool
  pub text : Result String

abbrev or_default : Result String → String
or_default (Result.ok body) = body
or_default (Result.err e) = ""

unfoldable pub broadcast_tx : Result Response → Result Unit
broadcast_tx (Result.err e) = Result.err ("broadcast failed: " <> e)
broadcast_tx (Result.ok resp) =
    if resp.is_success
    then Result.ok tt
    else Result.err ("broadcast rejected: " <> or_default resp.text)

abbrev and_then : {A B : Type 0} → Result A → (A → Result B) → Result B
and_then (Result.ok a) f = f a
and_then (Result.err e) f = Result.err e

abbrev map_err : {A : Type 0} → String → Result A → Result A
map_err context (Result.ok a) = Result.ok a
map_err context (Result.err e) = Result.err (context <> e)

abbrev parsed : (List ℕ → String) → List ℕ → Option ℕ → Result ℕ
parsed why text none = Result.err (why text)
parsed why text (some n) = Result.ok n

-- What `u64::from_str` says of a text that it refuses is a parameter.
unfoldable pub get_tip_height : (List ℕ → String) → Result (Result String) → Result ℕ
unfolding parse_unsigned trim
get_tip_height why reply = and_then (map_err "tip height query failed: " reply) λ resp.
    and_then (map_err "tip height parse failed: " resp) λ text.
      map_err "tip height not a number: "
        (parsed why (trim (codes text)) (parse_unsigned 64 (trim (codes text))))

-- `BlockHash::from_str` is a parameter.
unfoldable pub get_tip_hash : {H : Type 0} → (List ℕ → Result H) → Result (Result String) → Result H
unfolding trim
get_tip_hash from_str reply = and_then (map_err "tip hash query failed: " reply) λ resp.
    and_then (map_err "tip hash parse failed: " resp)
      λ text. map_err "tip hash parse failed: " (from_str (trim (codes text)))

module _ {J F : Type 0} (json : JsonOps J F) where
  abbrev is_true : Option Bool → Bool
  is_true none = false
  is_true (some b) = b

  abbrev confirmed_status : Option J → Option Bool
  confirmed_status none = none
  confirmed_status (some c) = json.as_bool c

  abbrev confirmed : Option J → Option Bool
  confirmed none = none
  confirmed (some s) = confirmed_status (json.get s "confirmed")

  abbrev pub is_confirmed : J → Bool
  is_confirmed u = is_true (confirmed (json.get u "status"))

  abbrev u64_value : Option J → Option ℕ
  u64_value none = none
  u64_value (some v) = json.as_u64 v

  abbrev pub value : J → ℕ
  value u = elim (u64_value (json.get u "value")) [ none ↦ 0 | some n ↦ n ]

  -- `.sum()` on `u64` wraps in the release profile.
  abbrev pub sum_values : List J → ℕ
  sum_values [] = 0
  sum_values (u ∷ us) = ((if is_confirmed u then value u else 0) + sum_values us) % 2 ^ 64

  unfoldable pub get_address_balance_sats : Result (Result (List J)) → ℕ
  get_address_balance_sats (Result.err e) = 0
  get_address_balance_sats (Result.ok (Result.err e)) = 0
  get_address_balance_sats (Result.ok (Result.ok utxos)) = sum_values utxos

pub record EsploraClient : Type 0 where
  pub base_url : List ℕ
  pub fees : Fees
  pub normal_max_feerate_sat_per_kwu : ℕ

-- `get_est_sat_per_1000_weight`: `none` is the panic of `unwrap`.
abbrev pub get_est_sat_per_1000_weight : EsploraClient → ConfirmationTarget → Option ℕ
get_est_sat_per_1000_weight client target = client.fees target

abbrev pub checked_status : List ℕ → Response → Result Response
checked_status base_url resp =
    if resp.is_success then Result.ok resp else Result.err "Esplora API unreachable"

-- `new`: the reply for the height of the tip, the one for the fees, and the environment's cap. The
-- outer `none` is a panic in the update of the fees. The error's text names the address.
module _ {F : Type 0} (float : FloatOps F) where
  abbrev with_fees : List ℕ → ℕ → Option Fees → Option (Result EsploraClient)
  with_fees base_url normal_max none = none
  with_fees base_url normal_max (some fees) = some (
      Result.ok
        (record { base_url = base_url; fees = fees; normal_max_feerate_sat_per_kwu = normal_max }))

  unfoldable pub connected :
      List ℕ → ℕ → Result (Result (String → Option F)) → Result ℕ → Option (Result EsploraClient)
  connected base_url normal_max fee_reply (Result.err e) = some (Result.err e)
  connected base_url normal_max fee_reply (Result.ok tip_height) =
      with_fees base_url normal_max (update_fee_estimates float fee_reply normal_max initial_fees)

  unfoldable pub new :
      (List ℕ → String)
      → List ℕ
      → Result Unit
      → Result Response
      → Result (Result (String → Option F))
      → Option String
      → Option (Result EsploraClient)
  unfolding update_fee_estimates max_feerate_sat_per_kwu_from_value parse_unsigned trim trim_end
      initial_fees
  new why base_url built tip_reply fee_reply env =
      let url = trim_end (λ c. c == b'/') base_url in
      connected url (max_feerate_sat_per_kwu_from_value env) fee_reply (
        and_then built λ _. and_then tip_reply λ resp. and_then (checked_status url resp) λ ok_resp.
          and_then ok_resp.text
            λ text. parsed why (trim (codes text)) (parse_unsigned 64 (trim (codes text))))

-- The task of `broadcast_transactions` posts each transaction by itself, whatever became of the others.
unfoldable pub broadcast_transactions : {T : Type 0} → (T → String) → List T → List String
broadcast_transactions serialize_hex [] = []
broadcast_transactions serialize_hex (tx ∷ txs) =
    serialize_hex tx ∷ broadcast_transactions serialize_hex txs
