-- ===== src/Core/Metrics/Counted.antt =====
-- engraphy/core/metrics.py: an operation is not changed by the counters that follow it.
use mathlib.Core.Path.{subst}
use engraphy.Base.{ℕ, String, ◌≡◌, refl, sym, false, List}
use engraphy.Core.Tx.{Tx, ok, err, Error}
use engraphy.Core.Tx.Keeps.{Keeps, Keeps-pure, Keeps-modify, Keeps-bind}
use engraphy.Core.Tx.Leads.{Leads, Leads-pure, Leads-bind, Leads-modify}
use engraphy.Core.Tx.Runs.{bind-ok, bind-err, modify-ok, pure-ok}
use engraphy.Core.Store.{Db, Session, MetricRow}
use engraphy.Core.Metrics.{counted, bump_safe}
use engraphy.Core.Metrics.Bumps.{bump_safe-SumsUp}

-- The counters change no other table and not the reply.
pub Leads-counted :
    {A : Type 0} {P : Db → Type 0} {Q : A → Db → Type 0} (s : Session)
    (counts : A → List (String × ℕ)) {m : Tx Db A}
    → ((a : A) (db : Db) (after : List MetricRow) → Q a db → Q a (record db { metrics = after }))
    → Leads P m Q
    → Leads P (counted s counts m) Q
unfolding counted
Leads-counted {Q = Q} s counts stays h = Leads-bind h (λ a.
    Leads-bind
      (Leads-modify {Q = λ u db. Q a db} _ (λ db q.
        let (after, same, sum) = bump_safe-SumsUp (λ r. false) s (counts a) db (λ r n. refl) in
        subst (Q a) (sym same) (stays a db after q)))
      (λ u. Leads-pure a (λ db q. q)))

pub Keeps-counted :
    {A : Type 0} {P : Db → Type 0} (s : Session) (counts : A → List (String × ℕ)) {m : Tx Db A}
    → ((after : List MetricRow) (db : Db) → P db → P (record db { metrics = after }))
    → Keeps P m
    → Keeps P (counted s counts m)
unfolding counted
Keeps-counted {P = P} s counts stays h = Keeps-bind h (λ a.
    Keeps-bind
      (Keeps-modify _ (λ db p.
        let (after, same, sum) = bump_safe-SumsUp (λ r. false) s (counts a) db (λ r n. refl) in
        subst P (sym same) (stays after db p)))
      (λ u. Keeps-pure a))

pub counted-ok :
    {A : Type 0} (s : Session) (counts : A → List (String × ℕ)) (m : Tx Db A) (db : Db) {a : A}
    {t : Db}
    → m db ≡ ok (a, t)
    → counted s counts m db ≡ ok (a, bump_safe s (counts a) t)
unfolding counted
counted-ok s counts m db h = bind-ok m _ db h (bind-ok _ _ _ (modify-ok _ _) (pure-ok _ _))

pub counted-err :
    {A : Type 0} (s : Session) (counts : A → List (String × ℕ)) (m : Tx Db A) (db : Db) {e : Error}
    → m db ≡ err e
    → counted s counts m db ≡ err e
unfolding counted
counted-err s counts m db h = bind-err m _ db h
