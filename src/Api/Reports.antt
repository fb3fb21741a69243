-- ===== src/Api/Reports.antt =====
-- The handlers of src/api.rs that only read: health, pool, status, history and metrics.
use cardano_lightning_relay.Prelude.{
  ℕ, ℤ, pos, add_i64, String, ◌<>◌, show_ℤ, str_eq, Option, none, some, Bool, true, false, ◌||◌,
  List, [], ◌∷◌, map, length, if◌then◌else◌,
}
use cardano_lightning_relay.Types.{Result, State}
use cardano_lightning_relay.Status.SwapStatus.{SwapStatus}
use cardano_lightning_relay.Status.OfframpStatus
use cardano_lightning_relay.Mapping.{SwapMapping, OfframpMapping}
use cardano_lightning_relay.Runtime.{Cmd, Call, Prog, ret, db, ask, ◌>>=◌}

-- `format!("{:?}", mapping.status)`
abbrev pub debug_status : SwapStatus → String
debug_status SwapStatus.pending = "Pending"
debug_status SwapStatus.fulfilling = "Fulfilling"
debug_status SwapStatus.completed = "Completed"
debug_status SwapStatus.failed = "Failed"
debug_status SwapStatus.expired = "Expired"

pub record SwapStatusResponse : Type 0 where
  pub payment_hash : String
  pub invoice_id : ℤ
  pub status : String
  pub cardano_tx_hash : Option String
  pub create_tx_hash : Option String

pub record OfframpStatusResponse : Type 0 where
  pub offramp_id : ℤ
  pub payment_hash : String
  pub amount_cbtc : ℤ
  pub status : String
  pub deposit_tx_hash : Option String
  pub create_offramp_tx_hash : Option String
  pub lightning_preimage : Option String
  pub error_message : Option String

abbrev pub swap_response : SwapMapping → SwapStatusResponse
swap_response m = record {
  payment_hash = m.payment_hash;
  invoice_id = m.invoice_id;
  status = debug_status m.status;
  cardano_tx_hash = m.cardano_tx_hash;
  create_tx_hash = m.create_tx_hash;
}

unfoldable pub offramp_response : OfframpMapping → OfframpStatusResponse
unfolding OfframpStatus.as_str
offramp_response m = record {
  offramp_id = m.offramp_id;
  payment_hash = m.payment_hash;
  amount_cbtc = m.amount_cbtc;
  status = OfframpStatus.as_str m.status;
  deposit_tx_hash = m.deposit_tx_hash;
  create_offramp_tx_hash = m.cardano_offramp_tx_hash;
  lightning_preimage = m.lightning_preimage;
  error_message = m.error_message;
}

unfoldable pub handle_swap_status : String → Prog (Result SwapStatusResponse)
handle_swap_status hash = do
  found ← db (Cmd.get_by_payment_hash hash)
  elim found [
    | none ↦ ret (Result.err ("swap not found for payment hash " <> hash))
    | some m ↦ ret (Result.ok (swap_response m))
  ]

unfoldable pub handle_offramp_status : ℤ → Prog (Result OfframpStatusResponse)
unfolding offramp_response
handle_offramp_status id = do
  found ← db (Cmd.get_offramp_by_id id)
  elim found [
    | none ↦ ret (Result.err ("offramp not found for id " <> show_ℤ id))
    | some m ↦ ret (Result.ok (offramp_response m))
  ]

unfoldable pub handle_swap_history : Prog (List SwapStatusResponse)
handle_swap_history = do swaps ← db (Cmd.list_recent_swaps (pos 20)); ret (map swap_response swaps)

unfoldable pub handle_offramp_history : Prog (List OfframpStatusResponse)
unfolding offramp_response
handle_offramp_history = do
  offramps ← db (Cmd.list_recent_offramps (pos 20))
  ret (map offramp_response offramps)

pub record StatusCounts : Type 0 where
  pub completed : ℤ
  pub pending : ℤ
  pub failed : ℤ
  pub total : ℤ

-- `match status.as_str()`, for one entry; the sums are on `i64`.
unfoldable pub add_count : String → ℤ → StatusCounts → StatusCounts
unfolding add_i64
add_count status n c =
    let c' = record c { total = add_i64 c.total n } in
    if str_eq status "completed"
    then record c' { completed = add_i64 c.completed n }
    else (if str_eq status "failed" || str_eq status "expired"
        then record c' { failed = add_i64 c.failed n }
        else record c' { pending = add_i64 c.pending n })

-- The loop of `to_status_counts`, from the counts so far.
unfoldable pub count_from : List (String × ℤ) → StatusCounts → StatusCounts
unfolding add_count
count_from [] c = c
count_from ((status, n) ∷ counts) c = count_from counts (add_count status n c)

unfoldable pub to_status_counts : List (String × ℤ) → StatusCounts
unfolding count_from
to_status_counts counts =
    count_from counts (record { completed = pos 0; pending = pos 0; failed = pos 0; total = pos 0 })

unfoldable pub handle_metrics : Prog (StatusCounts × StatusCounts)
unfolding to_status_counts
handle_metrics = do
  swap_counts ← db Cmd.get_swap_counts
  offramp_counts ← db Cmd.get_offramp_counts
  ret (to_status_counts swap_counts, to_status_counts offramp_counts)

pub record HealthResponse : Type 0 where
  pub status : String
  pub cardano : Bool
  pub pending_swaps : ℕ
  pub pending_offramps : ℕ

abbrev is_ok : Result State → Bool
is_ok (Result.ok state) = true
is_ok (Result.err e) = false

unfoldable pub handle_health : Prog HealthResponse
handle_health = do
  state ← ask Call.query_state
  swaps ← db Cmd.count_active_swaps
  offramps ← db Cmd.count_active_offramps
  let ok = is_ok state
  ret (record {
    status = if ok then "ok" else "degraded";
    cardano = ok;
    pending_swaps = swaps;
    pending_offramps = offramps;
  })

pub record PoolInfoResponse : Type 0 where
  pub total_liquidity : ℤ
  pub reserved : ℤ
  pub available : ℤ
  pub active_invoices : ℕ
  pub pending_swaps : ℕ

unfoldable pub handle_pool_info : Prog (Result PoolInfoResponse)
handle_pool_info = do
  state ← ask Call.query_state
  elim state [
    | Result.err e ↦ ret (Result.err ("failed to query pool: " <> e))
    | Result.ok s ↦ do
      swaps ← db Cmd.count_active_swaps
      ret (
          Result.ok (record {
            total_liquidity = s.total_liquidity;
            reserved = s.reserved;
            available = s.available;
            active_invoices = length s.invoices;
            pending_swaps = swaps;
          }))
  ]
