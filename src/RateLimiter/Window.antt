-- ===== src/RateLimiter/Window.antt =====
-- What `RateLimiter::check` (src/api.rs) promises over a whole window.
use cardano_lightning_relay.Prelude.{
  ℕ, ◌+◌, ◌-◌, ◌≤◌, leb, ◌≡◌, ◌∙◌, refl, inl, inr, String, str_eq, eq_iff, eq_refl, true, false,
  some, List, [], ◌∷◌, if◌then◌else◌, filter, arith, Bool-cases, All,
}
use cardano_lightning_relay.RateLimiter.{
  Entry, RateLimiter, entry_of, put, evict, or_insert, admit, check,
}

entry_of-put :
    (ip : String) (e : Entry) (xs : List (String × Entry)) → entry_of ip (put ip e xs) ≡ some e
entry_of-put ip e [] = ground (arith, eq_refl ip)
entry_of-put ip e ((k, x) ∷ xs) = ground (arith, entry_of-put ip e xs)

entry_of-put-other :
    (ip other : String) (e : Entry) (xs : List (String × Entry))
    → str_eq other ip ≡ false
    → entry_of ip (put other e xs) ≡ entry_of ip xs
entry_of-put-other ip other e [] h = ground arith
entry_of-put-other ip other e ((k, x) ∷ xs) h =
    ground (arith, entry_of-put-other ip other e xs h, eq_iff k other)

-- An entry that is not too old survives the filter, if no other entry of its address hides it.
entry_of-filter :
    (ip : String) (now window : ℕ) (e : Entry) (xs : List (String × Entry))
    → entry_of ip xs ≡ some e
    → leb (now - e.since) window ≡ true
    → entry_of ip (filter (λ p. leb (now - p.1.since) window) xs) ≡ some e
entry_of-filter ip now window e [] h keep = ground arith
entry_of-filter ip now window e ((k, x) ∷ xs) h keep = elim (Bool-cases (str_eq k ip)) [
  | inl same ↦ ground arith
  | inr other ↦ ground (arith, entry_of-filter ip now window e xs)
]

-- How many of the requests of one address are let through, of a list of requests in order, each
-- with its address and its time.
abbrev pub accepted : String → List (String × ℕ) → RateLimiter → ℕ
accepted ip [] l = 0
accepted ip ((from, now) ∷ qs) l =
    let (ok, next) = check from now l in
    (if str_eq from ip then (if ok then 1 else 0) else 0) + accepted ip qs next

module _ (ip : String) (l : RateLimiter) (e : Entry) (now : ℕ) where
  evict-keeps :
      entry_of ip l.requests ≡ some e
      → now - e.since ≤ l.window
      → entry_of ip (evict now l) ≡ some e
  unfolding evict
  evict-keeps h le = ground (arith, entry_of-filter ip now l.window e l.requests h)

  check-other :
      (other : String)
      → str_eq other ip ≡ false
      → entry_of ip l.requests ≡ some e
      → now - e.since ≤ l.window
      → entry_of ip (check other now l).1.requests ≡ some e
  unfolding check
  check-other other ne h le =
      let kept = evict now l in
      entry_of-put-other ip other
        (admit l.max_per_window l.window now (or_insert now (entry_of other kept))).1 kept ne
      ∙ evict-keeps h le

  -- A request of the address itself, while its window lasts.
  check-same :
      entry_of ip l.requests ≡ some e
      → now - e.since ≤ l.window
      → (x : Entry) × (entry_of ip (check ip now l).1.requests ≡ some x)
        × (x.since ≡ e.since)
        × (x.count ≡ e.count + (if (check ip now l).0 then 1 else 0))
        × (e.count ≤ l.max_per_window → x.count ≤ l.max_per_window)
  unfolding check admit
  check-same h le =
      let kept = evict now l in
      let x = (admit l.max_per_window l.window now (or_insert now (entry_of ip kept))).1 in
      let k = evict-keeps h le in
      (x, entry_of-put ip x kept, ground (arith, k), ground (arith, k), ground (arith, k))

check-limits :
    (ip : String) (now : ℕ) (l : RateLimiter)
    → ((check ip now l).1.max_per_window ≡ l.max_per_window)
      × ((check ip now l).1.window ≡ l.window)
unfolding check
check-limits ip now l = (refl, refl)

module _ (ip : String) (t w m : ℕ) where
  -- The bound, for an entry of the window that began at `t`.
  accepted-bound :
      (qs : List (String × ℕ)) (l : RateLimiter) (e : Entry)
      → entry_of ip l.requests ≡ some e
      → e.since ≡ t
      → l.window ≡ w
      → l.max_per_window ≡ m
      → e.count ≤ m
      → All (λ q. q.1 - t ≤ w) qs
      → accepted ip qs l + e.count ≤ m
  accepted-bound [] l e h et lw lm le within = omega (arith, le)
  accepted-bound ((from, now) ∷ qs) l e h et lw lm le within = elim (Bool-cases (str_eq from ip)) [
    | inl same ↦
        let (x, found, since, counted, fits) =
          check-same ip l e now h (omega (arith, within.0, et, lw)) in
        let limits = check-limits ip now l in
        let rest =
          accepted-bound qs (check ip now l).1 x found (since ∙ et) (limits.1 ∙ lw) (limits.0 ∙ lm)
            (omega (arith, lm, fits (omega (arith, lm, le)))) within.1 in
        rw ((eq_iff from ip).0 same) (ground (arith, rest, counted, eq_refl ip))
    | inr other ↦
        let limits = check-limits from now l in
        let rest =
          accepted-bound qs (check from now l).1 e
            (check-other ip l e now from other h (omega (arith, within.0, et, lw))) et
            (limits.1 ∙ lw) (limits.0 ∙ lm) le within.1 in
        ground (arith, rest)
  ]

-- While the window of an address lasts, `check` lets through no more of its requests than
-- `max_per_window` allows, those counted before included, whatever requests of other addresses come
-- in between and however many entries are evicted.
pub accepted-le :
    (ip : String) (qs : List (String × ℕ)) (l : RateLimiter) (e : Entry)
    → entry_of ip l.requests ≡ some e
    → e.count ≤ l.max_per_window
    → All (λ q. q.1 - e.since ≤ l.window) qs
    → accepted ip qs l + e.count ≤ l.max_per_window
accepted-le ip qs l e h le within =
    accepted-bound ip e.since l.window l.max_per_window qs l e h refl refl refl le within
