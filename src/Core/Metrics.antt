-- ===== src/Core/Metrics.antt =====
-- engraphy/core/metrics.py: usage counters by space, principal, metric and day. A day is counted
-- from the epoch, and today is at least 3,650 days after it, so that no window starts before day 0.
pub mod Totals
pub mod Bumps
pub mod Counted
use engraphy.Base.{
  ℕ, zero, suc, ◌+◌, ◌-◌, ◌/◌, String, Bool, true, false, not, ◌&&◌, ◌||◌, Option, none, some, List,
  [], ◌∷◌, ◌++◌, map, ℤ, pos, negsuc, min, max, leb, keep, ◌==◌, contains, string_eq, nat_eq,
  if◌then◌else◌,
}
use engraphy.Core.Tx.{
  Tx, Result, ok, err, value_error, pure, gets, modify, require, transaction, ◌>>=◌, ◌>>◌,
}
use engraphy.Core.Store.{Db, Session, MetricRow}

-- METRICS, in its order
abbrev pub metric_names : List String
metric_names =
    "questions_asked" ∷ "answered" ∷ "memory_reused" ∷ "facts_stored" ∷ "duplicates_prevented"
    ∷ "promotes" ∷ []

-- A number for each metric.
abbrev pub by_metric : (String → ℕ) → List (String × ℕ)
by_metric f = map (λ m. (m, f m)) metric_names

-- `write_outcome_metric`
unfoldable pub write_outcome_metric : String → Option String
write_outcome_metric outcome =
    if outcome == "inserted"
    then some "facts_stored"
    else if contains ("merged" ∷ "merged_linked" ∷ "needs_confirmation" ∷ []) outcome
    then some "duplicates_prevented"
    else none

-- `(now() AT TIME ZONE 'UTC')::date`, of a time in microseconds
unfoldable pub day_of : ℕ → ℕ
day_of now = now / 86400000000

-- `INSERT ... ON CONFLICT (space_id, principal, metric, bucket_date) DO UPDATE SET count = ...`
unfoldable pub upsert : MetricRow → List MetricRow → List MetricRow
upsert new [] = new ∷ []
upsert new (r ∷ rs) =
    let rest = upsert new rs in
    if (r.space == new.space && r.principal == new.principal)
      && (r.metric == new.metric && r.bucket_date == new.bucket_date)
    then record r { count = r.count + new.count } ∷ rs
    else r ∷ rest

unfoldable pub bump_row : Session → String → ℕ → Db → Db
unfolding upsert day_of
bump_row s metric count db = record db {
  metrics =
      upsert
        (record {
          space = s.space;
          principal = s.principal;
          metric = metric;
          bucket_date = day_of db.now;
          count = count;
        })
        db.metrics;
}

-- `bump_many`, for the day of the clock
unfoldable pub bump_many : Session → List (String × ℕ) → Tx Db Unit
unfolding bump_row
bump_many s [] = pure tt
bump_many s ((metric, count) ∷ counts) = do
  if count == 0 then pure tt else modify (bump_row s metric count)
  bump_many s counts

-- What `bump_safe` makes of a transaction that raised.
unfoldable pub swallowed : Result (Unit {0}) × Db → Db
swallowed (r, db) = db

-- `if not counts: return`, and else a transaction of its own
unfoldable pub bump_any : Session → List (String × ℕ) → Db → Db
unfolding bump_many swallowed
bump_any s [] db = db
bump_any s (c ∷ counts) db = swallowed (transaction (bump_many s (c ∷ counts)) db)

-- `bump_safe`, after the operation that it counts has committed
unfoldable pub bump_safe : Session → List (String × ℕ) → Db → Db
unfolding bump_any
bump_safe s counts db = bump_any s (keep (λ c. not (c.1 == 0)) counts) db

-- An operation in its own transaction, and the counts of what it returned.
unfoldable pub counted : {A : Type 0} → Session → (A → List (String × ℕ)) → Tx Db A → Tx Db A
unfolding bump_safe
counted s counts m = do a ← m; modify (bump_safe s (counts a)); pure a

unfoldable pub clamp_days : ℤ → ℕ
clamp_days (pos n) = max 1 (min n 3650)
clamp_days (negsuc n) = 1

-- The WHERE of `stats`, without its dates; `user` for the caller's own rows.
unfoldable pub counts_for : Session → Bool → MetricRow → Bool
counts_for s user r = r.space == s.space && (not user || r.principal == s.principal)

unfoldable pub sum_counts : List MetricRow → ℕ
sum_counts [] = 0
sum_counts (r ∷ rs) = r.count + sum_counts rs

-- `by_date.get(day, {}).get(metric, 0)`, of the sums per day and metric
unfoldable pub value_on : (MetricRow → Bool) → ℕ → String → List MetricRow → ℕ
unfolding sum_counts
value_on selects day metric rows =
    sum_counts (keep (λ r. selects r && (r.bucket_date == day && r.metric == metric)) rows)

-- `totals[metric] += value`
unfoldable pub add_total : String → ℕ → List (String × ℕ) → List (String × ℕ)
add_total metric value [] = []
add_total metric value ((m, n) ∷ rest) =
    let later = add_total metric value rest in
    if m == metric then (m, n + value) ∷ rest else (m, n) ∷ later

unfoldable pub add_totals : List (String × ℕ) → List (String × ℕ) → List (String × ℕ)
unfolding add_total
add_totals [] totals = totals
add_totals ((metric, value) ∷ entry) totals = add_totals entry (add_total metric value totals)

-- `for offset in range(range_days)`: the days left, the next day, the totals so far.
unfoldable pub daily :
    (ℕ → String → ℕ) → ℕ → ℕ → List (String × ℕ) → List (ℕ × List (String × ℕ)) × List (String × ℕ)
unfolding add_totals
daily value zero day totals = ([], totals)
daily value (suc left) day totals =
    let entry = by_metric (value day) in
    let (series, final) = daily value left (suc day) (add_totals entry totals) in
    ((day, entry) ∷ series, final)

pub record Stats : Type 0 where
  pub group_by : String
  pub principal : Option String
  pub range_days : ℕ
  pub generated_at : ℕ
  pub totals : List (String × ℕ)
  pub series : List (ℕ × List (String × ℕ))

-- The window and its sums, on the tables of the transaction.
unfoldable pub stats_of : Session → ℕ → String → Db → Stats
unfolding day_of counts_for value_on daily
stats_of s days group_by db =
    let start = day_of db.now - (days - 1) in
    let user = group_by == "user" in
    let (series, totals) =
      daily (λ day metric. value_on (counts_for s user) day metric db.metrics) days start
        (by_metric (λ m. 0)) in
    record {
      group_by = group_by;
      principal = if user then some s.principal else none;
      range_days = days;
      generated_at = db.now;
      totals = totals;
      series = series;
    }

unfoldable pub stats : Session → ℤ → String → Tx Db Stats
unfolding stats_of clamp_days
stats s range_days group_by = do
  require (contains ("space" ∷ "user" ∷ []) group_by) value_error
  gets (stats_of s (clamp_days range_days) group_by)
