-- ===== src/Core/Metrics/Totals.antt =====
-- engraphy/core/metrics.py: the totals of `stats`.
use mathlib.Core.Path.{fun_ext}
use engraphy.Base.{
  ℕ, zero, suc, ◌+◌, ◌-◌, ◌≤◌, String, ◌≡◌, refl, ◌∙◌, ap, Bool, true, false, not, ◌&&◌, ◌||◌, List,
  [], ◌∷◌, ℤ, pos, negsuc, leb, ltb, keep, ◌==◌, string_eq, nat_eq, if◌then◌else◌, arith,
}
use engraphy.Core.Tx.Leads.{Returns, Leads-require, Leads-read}
use engraphy.Core.Store.{Db, Session, MetricRow}
use engraphy.Core.Metrics.{
  by_metric, day_of, clamp_days, counts_for, sum_counts, value_on, add_total, add_totals, daily,
  Stats, stats_of, stats,
}

-- The sum over the rows that pass.
abbrev pub total : (MetricRow → Bool) → List MetricRow → ℕ
total p rows = sum_counts (keep p rows)

total-split :
    (p q r : MetricRow → Bool) (rows : List MetricRow)
    → ((x : MetricRow) → (p x && q x) ≡ false)
    → ((x : MetricRow) → r x ≡ (if p x then true else q x))
    → total p rows + total q rows ≡ total r rows
unfolding sum_counts
total-split p q r [] apart whole = refl
total-split p q r (x ∷ rows) apart whole =
    ground (arith, total-split p q r rows apart whole, apart x, whole x)

total-cong :
    (p q : MetricRow → Bool) (rows : List MetricRow)
    → ((x : MetricRow) → p x ≡ q x)
    → total p rows ≡ total q rows
total-cong p q rows h = rw (fun_ext h) refl

-- The days from `day` on, `left` of them.
within : ℕ → ℕ → ℕ → Bool
within day left d = leb day d && ltb d (day + left)

window : (ℕ → ℕ) → ℕ → ℕ → ℕ
window value zero day = 0
window value (suc left) day = value day + window value left (suc day)

none_pass :
    (p : MetricRow → Bool) (rows : List MetricRow)
    → ((x : MetricRow) → p x ≡ false)
    → total p rows ≡ 0
unfolding sum_counts
none_pass p [] h = refl
none_pass p (x ∷ rows) h = ground (arith, h x, none_pass p rows h)

-- The sums of the days make up the sum over the window.
window-total :
    (sel : MetricRow → Bool) (metric : String) (rows : List MetricRow) (left day : ℕ)
    → window (λ d. value_on sel d metric rows) left day
      ≡ total (λ r. sel r && (within day left r.bucket_date && r.metric == metric)) rows
unfolding window within value_on
window-total sel metric rows zero day =
    let all =
      none_pass (λ r. sel r && (within day 0 r.bucket_date && r.metric == metric)) rows
        (λ x. ground arith) in
    omega (arith, all)
window-total sel metric rows (suc left) day =
    let first = λ (r : MetricRow). sel r && (r.bucket_date == day && r.metric == metric) in
    let later =
      λ (r : MetricRow). sel r && (within (suc day) left r.bucket_date && r.metric == metric) in
    let all =
      λ (r : MetricRow). sel r && (within day (suc left) r.bucket_date && r.metric == metric) in
    omega (
      arith,
      window-total sel metric rows left (suc day),
      total-split first later all rows (λ x. ground arith) (λ x. ground arith),
    )

add_totals_lem :
    (f g : String → ℕ) → add_totals (by_metric g) (by_metric f) ≡ by_metric (λ m. f m + g m)
unfolding add_totals add_total string_eq
add_totals_lem f g = refl

names_cong : (f g : String → ℕ) → ((m : String) → f m ≡ g m) → by_metric f ≡ by_metric g
names_cong f g h = ap by_metric (fun_ext h)

-- The entries of `left` days from `day` on.
abbrev pub shown : (ℕ → String → ℕ) → ℕ → ℕ → List (ℕ × List (String × ℕ))
shown value zero day = []
shown value (suc left) day = (day, by_metric (value day)) ∷ shown value left (suc day)

daily_lem :
    (value : ℕ → String → ℕ) (left day : ℕ) (f : String → ℕ)
    → ((daily value left day (by_metric f)).1
        ≡ by_metric (λ m. f m + window (λ d. value d m) left day))
      × ((daily value left day (by_metric f)).0 ≡ shown value left day)
unfolding daily window
daily_lem value zero day f = (names_cong f (λ m. f m + 0) (λ m. omega arith), refl)
daily_lem value (suc left) day f =
    let (totals, days) = daily_lem value left (suc day) (λ m. f m + value day m) in
    (
      rw (add_totals_lem f (value day)) (
          totals
          ∙ names_cong (λ m. (f m + value day m) + window (λ d. value d m) left (suc day))
              (λ m. f m + (value day m + window (λ d. value d m) left (suc day)))
              (λ m. omega arith)),
      rw (add_totals_lem f (value day)) (ap (λ ds. (day, by_metric (value day)) ∷ ds) days),
    )

-- The rows that a report of `days` days is about: those of the space, for `user` of the caller, on
-- the days up to today.
abbrev pub reported : Session → Bool → ℕ → ℕ → String → MetricRow → Bool
reported s user today days metric r =
    (r.space == s.space && (not user || r.principal == s.principal))
    && ((leb (today + 1) (r.bucket_date + days) && leb r.bucket_date today) && r.metric == metric)

-- The rows of one day of the report.
abbrev pub on_day : Session → Bool → ℕ → String → MetricRow → Bool
on_day s user day metric r =
    (r.space == s.space && (not user || r.principal == s.principal))
    && (r.bucket_date == day && r.metric == metric)

abbrev pub IsReport : Session → ℕ → String → Db → Stats → Type 0
IsReport s days group_by db r =
    (r.series
      ≡ shown (λ day m. total (on_day s (group_by == "user") day m) db.metrics) days
          (day_of db.now - (days - 1)))
    × (r.totals
        ≡ by_metric
            (λ m. total (reported s (group_by == "user") (day_of db.now) days m) db.metrics))

stats_of-IsReport :
    (s : Session) (days : ℕ) (group_by : String) (db : Db)
    → 1 ≤ days
    → days ≤ day_of db.now + 1
    → IsReport s days group_by db (stats_of s days group_by db)
unfolding stats_of within counts_for value_on
stats_of-IsReport s days group_by db some_day fits =
    let sel = counts_for s (group_by == "user") in
    let start = day_of db.now - (days - 1) in
    let (totals, series) =
      daily_lem (λ day metric. value_on sel day metric db.metrics) days start (λ m. 0) in
    (
      series,
      totals
          ∙ names_cong (λ m. 0 + window (λ d. value_on sel d m db.metrics) days start)
              (λ m. total (reported s (group_by == "user") (day_of db.now) days m) db.metrics)
              (λ m. omega (
                arith,
                window-total sel m db.metrics days start,
                total-cong (λ r. sel r && (within start days r.bucket_date && r.metric == m))
                    (reported s (group_by == "user") (day_of db.now) days m) db.metrics
                    (λ r. ground arith),
              )),
    )

clamp_days_bounds : (n : ℤ) → (1 ≤ clamp_days n) × (clamp_days n ≤ 3650)
unfolding clamp_days
clamp_days_bounds (pos n) = omega arith
clamp_days_bounds (negsuc n) = omega arith

-- A report over a window that starts at day 0 or later changes no table. Its series has the days of
-- the window in order, today's last, each with every metric's sum over the rows of that day, and each
-- metric's total is the sum over the rows of all the days of the window: the rows of the space, or for
-- `user` the caller's rows in it.
pub stats-IsReport :
    (s : Session) (range_days : ℤ) (group_by : String) (db : Db)
    → clamp_days range_days ≤ day_of db.now + 1
    → Returns
        (λ r t. IsReport s (clamp_days range_days) group_by db r × (t ≡ db))
        (stats s range_days group_by db)
unfolding stats
stats-IsReport s range_days group_by db fits =
    (Leads-require {P = λ t. t ≡ db} _ _ _ (λ ok. Leads-read _ (
      stats_of-IsReport s (clamp_days range_days) group_by db (clamp_days_bounds range_days).0 fits,
      refl,
    ))).at
      db refl
