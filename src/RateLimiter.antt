-- ===== src/RateLimiter.antt =====
-- `RateLimiter` of src/api.rs. An `Instant` is a number of nanoseconds on the monotone clock, so
-- `now.duration_since(t)` is the difference, which stops at 0; an address is its text. The count is
-- a `u32` that is only raised below `max_per_window`, so it does not overflow.
pub mod Window
use cardano_lightning_relay.Prelude.{
  ℕ, suc, ◌-◌, ltb, leb, String, str_eq, Bool, true, false, Option, none, some, List, [], ◌∷◌,
  if◌then◌else◌, length, filter,
}

-- `(u32, Instant)`
pub record Entry : Type 0 where
  pub count : ℕ
  pub since : ℕ

pub record RateLimiter : Type 0 where
  pub requests : List (String × Entry)
  pub max_per_window : ℕ
  pub window : ℕ

abbrev pub entry_of : String → List (String × Entry) → Option Entry
entry_of ip [] = none
entry_of ip ((k, e) ∷ rest) = if str_eq k ip then some e else entry_of ip rest

-- The entry of an address is written, or added.
abbrev pub put : String → Entry → List (String × Entry) → List (String × Entry)
put ip e [] = (ip, e) ∷ []
put ip e ((k, x) ∷ rest) = if str_eq k ip then (k, e) ∷ rest else (k, x) ∷ put ip e rest

-- `self.requests.retain(…)`, when there are more than 1000 entries.
unfoldable pub evict : ℕ → RateLimiter → List (String × Entry)
evict now l =
    if ltb 1_000 (length l.requests)
    then filter (λ p. leb (now - p.1.since) l.window) l.requests
    else l.requests

-- `entry(ip).or_insert((0, now))`
abbrev pub or_insert : ℕ → Option Entry → Entry
or_insert now none = record { count = 0; since = now }
or_insert now (some e) = e

-- The answer for an entry, and the entry afterwards.
unfoldable pub admit : ℕ → ℕ → ℕ → Entry → Bool × Entry
admit max_per_window window now e =
    if ltb window (now - e.since)
    then (true, record { count = 1; since = now })
    else (if ltb e.count max_per_window
        then (true, record e { count = suc e.count })
        else (false, e))

unfoldable pub check : String → ℕ → RateLimiter → Bool × RateLimiter
unfolding evict admit
check ip now l =
    let kept = evict now l in
    let (ok, e) = admit l.max_per_window l.window now (or_insert now (entry_of ip kept)) in
    (ok, record l { requests = put ip e kept })
