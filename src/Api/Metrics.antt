-- ===== src/Api/Metrics.antt =====
-- The metrics of src/api.rs against the rows of the tables that they count.
use cardano_lightning_relay.Prelude.{
  ℕ, ◌+◌, ◌^◌, ◌<◌, ◌≤◌, ◌≡◌, ◌∙◌, ap, refl, ℤ, pos, add_i64, add_i64-pos, Bool-cases, inl, inr,
  String, str_eq, eq_iff, Bool, true, not, ◌||◌, ◌&&◌, List, [], ◌∷◌, map, count, length, arith,
  if◌then◌else◌,
}
use cardano_lightning_relay.Status.SwapStatus
use cardano_lightning_relay.Status.SwapStatus.{SwapStatus}
use cardano_lightning_relay.Mapping.{SwapMapping, SwapDb, swap_has_status}
use cardano_lightning_relay.Mapping.Onramp.{as_i64, bump, group_count, get_swap_counts}
use cardano_lightning_relay.Api.Reports.{StatusCounts, to_status_counts, count_from, add_count}

-- The sum of the counts whose text passes a test.
abbrev sum_where : (String → Bool) → List (String × ℕ) → ℕ
sum_where b [] = 0
sum_where b ((s, n) ∷ counts) = (if b s then n else 0) + sum_where b counts

sum_where-bump :
    (b : String → Bool) (s : String) (counts : List (String × ℕ))
    → sum_where b (bump s counts) ≡ (if b s then 1 else 0) + sum_where b counts
sum_where-bump b s [] = ground arith
sum_where-bump b s ((t, n) ∷ counts) = ground (arith, sum_where-bump b s counts, eq_iff t s)

sum_where-group : (b : String → Bool) (ss : List String) → sum_where b (group_count ss) ≡ count b ss
unfolding group_count
sum_where-group b [] = refl
sum_where-group b (s ∷ ss) =
    ground (arith, sum_where-group b ss, sum_where-bump b s (group_count ss))

abbrev is_completed : String → Bool
is_completed s = str_eq s "completed"

abbrev is_failed : String → Bool
is_failed s = not (str_eq s "completed") && (str_eq s "failed" || str_eq s "expired")

abbrev any_status : String → Bool
any_status s = true

-- A sum of non-negative counts that stays in range.
add_i64-count :
    (z : ℤ) (m n s : ℕ) → z ≡ pos m → m + (n + s) < 2 ^ 63 → add_i64 z (pos n) ≡ pos (m + n)
add_i64-count z m n s e h = rw e (add_i64-pos m n (omega (arith, h)))

-- What the counts so far are, and that they stay in range with the counts to come.
record Counted (counts : List (String × ℕ)) (c : StatusCounts) (done bad all : ℕ) : Type 0 where
  is_done : c.completed ≡ pos done
  is_bad : c.failed ≡ pos bad
  is_all : c.total ≡ pos all
  done_fits : done + sum_where is_completed counts < 2 ^ 63
  bad_fits : bad + sum_where is_failed counts < 2 ^ 63
  all_fits : all + sum_where any_status counts < 2 ^ 63

-- The texts are told apart by the same tests as in `add_count`.
add_count-Counted :
    (s : String) (n : ℕ) (counts : List (String × ℕ)) (c : StatusCounts) (done bad all : ℕ)
    → Counted ((s, n) ∷ counts) c done bad all
    → Counted counts
        (add_count s (pos n) c)
        (done + (if is_completed s then n else 0))
        (bad + (if is_failed s then n else 0))
        (all + n)
unfolding add_count
add_count-Counted s n counts c done bad all h =
    let rest = sum_where any_status counts in
    let total = add_i64-count c.total all n rest h.is_all h.all_fits in
    let done_fits = h.done_fits in
    let bad_fits = h.bad_fits in
    elim (Bool-cases (str_eq s "completed")) [
      | inl e ↦ rw e (record {
        is_done =
            add_i64-count c.completed done n (sum_where is_completed counts) h.is_done
              (rw e at done_fits);
        is_bad = h.is_bad ∙ ap pos (omega arith);
        is_all = total;
        done_fits = ground (arith, done_fits, e);
        bad_fits = ground (arith, bad_fits, e);
        all_fits = omega (arith, h.all_fits);
      })
      | inr e ↦ elim (Bool-cases (str_eq s "failed" || str_eq s "expired")) [
        | inl f ↦
            rw (e, f)
              (record {
                is_done = h.is_done ∙ ap pos (omega arith);
                is_bad =
                    add_i64-count c.failed bad n (sum_where is_failed counts) h.is_bad
                      (rw (e, f) at bad_fits);
                is_all = total;
                done_fits = ground (arith, done_fits, e);
                bad_fits = ground (arith, bad_fits, e, f);
                all_fits = omega (arith, h.all_fits);
              })
        | inr f ↦
            rw (e, f)
              (record {
                is_done = h.is_done ∙ ap pos (omega arith);
                is_bad = h.is_bad ∙ ap pos (omega arith);
                is_all = total;
                done_fits = ground (arith, done_fits, e);
                bad_fits = ground (arith, bad_fits, e, f);
                all_fits = omega (arith, h.all_fits);
              })
      ]
    ]

count_from-sums :
    (counts : List (String × ℕ)) (c : StatusCounts) (done bad all : ℕ)
    → Counted counts c done bad all
    → let t = count_from (as_i64 counts) c in
      (t.completed ≡ pos (done + sum_where is_completed counts))
      × (t.failed ≡ pos (bad + sum_where is_failed counts))
      × (t.total ≡ pos (all + sum_where any_status counts))
unfolding count_from
count_from-sums [] c done bad all h = (
  h.is_done ∙ ap pos (omega arith),
  h.is_bad ∙ ap pos (omega arith),
  h.is_all ∙ ap pos (omega arith),
)
count_from-sums ((s, n) ∷ counts) c done bad all h =
    let (d, b, a) =
      count_from-sums counts (add_count s (pos n) c) _ _ _
        (add_count-Counted s n counts c done bad all h) in
    (d ∙ ap pos (omega arith), b ∙ ap pos (omega arith), a ∙ ap pos (omega arith))

count-completed :
    (rows : List SwapMapping)
    → count is_completed (map (λ r. SwapStatus.as_str r.status) rows)
      ≡ count (swap_has_status SwapStatus.completed) rows
unfolding swap_has_status SwapStatus.as_str
count-completed [] = refl
count-completed (r ∷ rows) = ground (arith, count-completed rows)

text-failed :
    (s : SwapStatus)
    → (if is_failed (SwapStatus.as_str s) then 1 else 0)
      ≡ (if str_eq (SwapStatus.as_str s) (SwapStatus.as_str SwapStatus.failed) then 1 else 0)
        + (if str_eq (SwapStatus.as_str s) (SwapStatus.as_str SwapStatus.expired) then 1 else 0)
unfolding SwapStatus.as_str
text-failed SwapStatus.pending = refl
text-failed SwapStatus.fulfilling = refl
text-failed SwapStatus.completed = refl
text-failed SwapStatus.failed = refl
text-failed SwapStatus.expired = refl

count-failed :
    (rows : List SwapMapping)
    → count is_failed (map (λ r. SwapStatus.as_str r.status) rows)
      ≡ count (swap_has_status SwapStatus.failed) rows
        + count (swap_has_status SwapStatus.expired) rows
unfolding swap_has_status
count-failed [] = refl
count-failed (r ∷ rows) = omega (arith, count-failed rows, text-failed r.status)

count-any :
    (rows : List SwapMapping)
    → count any_status (map (λ r. SwapStatus.as_str r.status) rows) ≡ length rows
count-any [] = refl
count-any (r ∷ rows) = omega (arith, count-any rows)

count-le : (b : String → Bool) (ss : List String) → count b ss ≤ length ss
count-le b [] = omega arith
count-le b (s ∷ ss) = ground (arith, count-le b ss)

length-texts :
    (rows : List SwapMapping) → length (map (λ r. SwapStatus.as_str r.status) rows) ≡ length rows
length-texts [] = refl
length-texts (r ∷ rows) = omega (arith, length-texts rows)

-- The onramp metrics are exact for a database of less than 2^63 swaps, so that no sum wraps: of the
-- swaps, `total` is how many there are, `completed` how many are Completed, and `failed` how many are
-- Failed or Expired.
pub to_status_counts-get_swap_counts :
    (db : SwapDb)
    → length db.swaps < 2 ^ 63
    → let c = to_status_counts (get_swap_counts db) in
      (c.total ≡ pos (length db.swaps))
      × (c.completed ≡ pos (count (swap_has_status SwapStatus.completed) db.swaps))
      × (c.failed
          ≡ pos (
              count (swap_has_status SwapStatus.failed) db.swaps
              + count (swap_has_status SwapStatus.expired) db.swaps))
unfolding to_status_counts get_swap_counts
to_status_counts-get_swap_counts db few =
    let texts = map (λ r. SwapStatus.as_str r.status) db.swaps in
    let done = sum_where-group is_completed texts ∙ count-completed db.swaps in
    let bad = sum_where-group is_failed texts ∙ count-failed db.swaps in
    let all = sum_where-group any_status texts ∙ count-any db.swaps in
    let (d, b, a) =
      count_from-sums (group_count texts)
        (record { completed = pos 0; pending = pos 0; failed = pos 0; total = pos 0 }) 0 0 0
        (record {
          is_done = refl;
          is_bad = refl;
          is_all = refl;
          done_fits = omega (
            arith,
            sum_where-group is_completed texts,
            count-le is_completed texts,
            length-texts db.swaps,
            few,
          );
          bad_fits = omega (
            arith,
            sum_where-group is_failed texts,
            count-le is_failed texts,
            length-texts db.swaps,
            few,
          );
          all_fits = omega (arith, all, few);
        }) in
    (
      a ∙ ap pos (omega (arith, all)),
      d ∙ ap pos (omega (arith, done)),
      b ∙ ap pos (omega (arith, bad)),
    )
