-- ===== src/Core/Metrics/Bumps.antt =====
-- engraphy/core/metrics.py: what a bump adds to the sums.
use engraphy.Base.{
  ℕ, ◌+◌, String, ◌≡◌, refl, ◌∙◌, ap, Bool, not, ◌&&◌, List, [], ◌∷◌, keep, ◌==◌, string_eq, nat_eq,
  if◌then◌else◌, arith, Bool-cases, inl, inr,
}
use engraphy.Core.Tx.{ok, pure, modify}
use engraphy.Core.Tx.Runs.{bind-ok, pure-ok, modify-ok, transaction-ok}
use engraphy.Core.Store.{Db, Session, MetricRow}
use engraphy.Core.Metrics.{
  day_of, upsert, bump_row, bump_many, bump_any, bump_safe, swallowed, sum_counts,
}
use engraphy.Core.Metrics.Totals.{total}

upsert-total :
    (p : MetricRow → Bool) (new : MetricRow) (rows : List MetricRow)
    → ((r : MetricRow) (n : ℕ) → p (record r { count = n }) ≡ p r)
    → total p (upsert new rows) ≡ total p rows + (if p new then new.count else 0)
unfolding upsert sum_counts
upsert-total p new [] key = ground arith
upsert-total p new (r ∷ rows) key =
    elim (Bool-cases (
      (r.space == new.space && r.principal == new.principal)
      && (r.metric == new.metric && r.bucket_date == new.bucket_date))) [
        | inl same ↦
            let e : new ≡ record r { count = new.count } = ground (arith, same) in
            rw same (ground (arith, ap p e, key r new.count, key r (r.count + new.count)))
        | inr other ↦ rw other (ground (arith, upsert-total p new rows key))
      ]

-- What the counts of a session add to a sum on the day of the clock.
abbrev pub added : (MetricRow → Bool) → Session → ℕ → List (String × ℕ) → ℕ
added p s today [] = 0
added p s today ((metric, n) ∷ counts) =
    (if p (record {
      space = s.space;
      principal = s.principal;
      metric = metric;
      bucket_date = today;
      count = n;
    })
      then n
      else 0)
    + added p s today counts

bump_many-total :
    (p : MetricRow → Bool) (s : Session) (counts : List (String × ℕ)) (db : Db)
    → ((r : MetricRow) (n : ℕ) → p (record r { count = n }) ≡ p r)
    → (after : List MetricRow) × (bump_many s counts db ≡ ok (tt, record db { metrics = after }))
      × (total p after ≡ total p db.metrics + added p s (day_of db.now) counts)
unfolding bump_many bump_row
bump_many-total p s [] db key = (db.metrics, pure-ok tt db, omega arith)
bump_many-total p s ((metric, n) ∷ counts) db key =
    let test = λ (b : Bool). (if b then pure tt else modify (bump_row s metric n)) db in
    elim (Bool-cases (n == 0)) [
      | inl nothing ↦
          let (after, run, sum) = bump_many-total p s counts db key in
          (after, bind-ok _ _ db (ap test nothing ∙ pure-ok _ db) run, ground (arith, sum, nothing))
      | inr some_more ↦
          let (after, run, sum) = bump_many-total p s counts (bump_row s metric n db) key in
          (
            after,
            bind-ok _ _ db (ap test some_more ∙ modify-ok _ db) run,
            omega (
              arith,
              sum,
              upsert-total p
                  (record {
                    space = s.space;
                    principal = s.principal;
                    metric = metric;
                    bucket_date = day_of db.now;
                    count = n;
                  })
                  db.metrics key,
            ),
          )
    ]

added-keep :
    (p : MetricRow → Bool) (s : Session) (today : ℕ) (counts : List (String × ℕ))
    → added p s today (keep (λ c. not (c.1 == 0)) counts) ≡ added p s today counts
added-keep p s today [] = refl
added-keep p s today ((metric, n) ∷ counts) = ground (arith, added-keep p s today counts)

-- A sum over rows is told by their keys.
abbrev pub ByKey : (MetricRow → Bool) → Type 0
ByKey p = (r : MetricRow) (n : ℕ) → p (record r { count = n }) ≡ p r

-- `db'` differs from `db` in the counters only, which add up to `n` more over the rows with `p`.
abbrev pub SumsUp : (MetricRow → Bool) → ℕ → Db → Db → Type 0
SumsUp p n db db' =
    (after : List MetricRow) × (db' ≡ record db { metrics = after })
    × (total p after ≡ total p db.metrics + n)

bump_any-SumsUp :
    (p : MetricRow → Bool) (s : Session) (counts : List (String × ℕ)) (db : Db)
    → ByKey p
    → SumsUp p (added p s (day_of db.now) counts) db (bump_any s counts db)
unfolding bump_any swallowed
bump_any-SumsUp p s [] db key = (db.metrics, refl, omega arith)
bump_any-SumsUp p s (c ∷ counts) db key =
    let (after, run, sum) = bump_many-total p s (c ∷ counts) db key in
    (after, ap swallowed (transaction-ok _ db run), sum)

-- A bump changes the counters only, and never fails: over any set of rows that is told by their
-- keys, the counts add up to what they were and, for each count given, as much if the row of the
-- session, of the metric and of today is in the set.
pub bump_safe-SumsUp :
    (p : MetricRow → Bool) (s : Session) (counts : List (String × ℕ)) (db : Db)
    → ByKey p
    → SumsUp p (added p s (day_of db.now) counts) db (bump_safe s counts db)
unfolding bump_safe
bump_safe-SumsUp p s counts db key =
    let (after, same, sum) = bump_any-SumsUp p s (keep (λ c. not (c.1 == 0)) counts) db key in
    (after, same, sum ∙ ap (λ n. total p db.metrics + n) (added-keep p s (day_of db.now) counts))
