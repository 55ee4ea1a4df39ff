-- ===== src/Core/Search/Unseen/Rules.antt =====
-- What is the same of an action on tables without the rows that a session cannot see.
use engraphy.Base.{
  ℕ, String, ◌≡◌, refl, sym, ◌∙◌, ap, Bool, true, false, Option, none, some, List, [], ◌∷◌, ◌==◌,
  string_eq, nat_eq, if◌then◌else◌,
}
use engraphy.Core.Tx.{
  Tx, Result, ok, err, Error, pure, gets, modify, require, or_raise, transaction, ◌>>=◌, continue,
}
use engraphy.Core.Tx.Runs.{
  pure-ok, gets-ok, modify-ok, require-ok, require-err, or_raise-ok, or_raise-err, raise-err,
}
use engraphy.Core.Store.{Db, Session, visible, readable_scopes, unless_error}
use engraphy.Core.Metrics.{bump_row, bump_many, swallowed, bump_any, bump_safe, counted}
use engraphy.Core.Get.Blind.{blind}

-- What is left of an outcome if the rows that the session cannot see are taken out of its tables.
abbrev pub hidden : {A : Type 0} → Session → Result (A × Db) → Result (A × Db)
hidden s (ok (a, db)) = ok (a, blind s db)
hidden s (err e) = err e

module _ (s : Session) where
  -- The rows that the session cannot see have no part in what the action does.
  pub record Blinds {A : Type 0} (m : Tx Db A) : Type 0 where
    pub at : (db : Db) → m (blind s db) ≡ hidden s (m db)

  commits :
      {A : Type 0} (m : Tx Db A) (a : A) (db after : Db)
      → m (blind s db) ≡ ok (a, blind s after)
      → m db ≡ ok (a, after)
      → m (blind s db) ≡ hidden s (m db)
  commits m a db after h k = h ∙ sym (ap (hidden s) k)

  raises :
      {A : Type 0} (m : Tx Db A) (e : Error) (db : Db)
      → m (blind s db) ≡ err e
      → m db ≡ err e
      → m (blind s db) ≡ hidden s (m db)
  raises m e db h k = h ∙ sym (ap (hidden s) k)

  pub Blinds-pure : {A : Type 0} (a : A) → Blinds (pure a)
  Blinds-pure a = record { at = λ db. commits (pure a) a db db (pure-ok a _) (pure-ok a db) }

  pub Blinds-gets :
      {A : Type 0} (f : Db → A) → ((db : Db) → f (blind s db) ≡ f db) → Blinds (gets f)
  Blinds-gets f h = record {
    at = λ db.
        commits (gets f) (f db) db db (gets-ok f (blind s db) ∙ ap (λ a. ok (a, blind s db)) (h db))
          (gets-ok f db);
  }

  pub Blinds-modify :
      (f : Db → Db) → ((db : Db) → f (blind s db) ≡ blind s (f db)) → Blinds (modify f)
  Blinds-modify f h = record {
    at = λ db.
        commits (modify f) tt db (f db)
          (modify-ok f (blind s db) ∙ ap (λ (d : Db). ok (tt, d)) (h db)) (modify-ok f db);
  }

  pub Blinds-require : (b : Bool) (e : Error) → Blinds (require b e)
  Blinds-require true e = record {
    at = λ db.
        commits (require true e) tt db db (require-ok true e _ refl) (require-ok true e db refl);
  }
  Blinds-require false e = record {
    at = λ db.
        raises (require false e) e db (require-err false e _ refl) (require-err false e db refl);
  }

  pub Blinds-or_raise : {A : Type 0} (o : Option A) (e : Error) → Blinds (or_raise o e)
  Blinds-or_raise none e = record {
    at = λ db.
        raises (or_raise none e) e db (or_raise-err none e _ refl) (or_raise-err none e db refl);
  }
  Blinds-or_raise (some a) e = record {
    at = λ db.
        commits (or_raise (some a) e) a db db (or_raise-ok (some a) e _ refl)
          (or_raise-ok (some a) e db refl);
  }

  pub Blinds-unless_error : (o : Option Error) → Blinds (unless_error o)
  unfolding unless_error
  Blinds-unless_error none = record {
    at = λ db. commits (unless_error none) tt db db (pure-ok tt _) (pure-ok tt db);
  }
  Blinds-unless_error (some e) = record {
    at = λ db. raises (unless_error (some e)) e db (raise-err e _) (raise-err e db);
  }

  pub Blinds-bind :
      {A B : Type 0} {m : Tx Db A} {f : A → Tx Db B}
      → Blinds m
      → ((a : A) → Blinds (f a))
      → Blinds (m >>= f)
  unfolding ◌>>=◌
  Blinds-bind {A} {B} {m} {f} first rest = record {
    at = λ db. ap (λ r. continue r f) (first.at db) ∙ go (m db);
  }
    where
      go : (r : Result (A × Db)) → continue (hidden s r) f ≡ hidden s (continue r f)
      go (ok (a, db)) = (rest a).at db
      go (err e) = refl

  pub Blinds-if :
      {A : Type 0} (b : Bool) {m n : Tx Db A} → Blinds m → Blinds n → Blinds (if b then m else n)
  Blinds-if true h k = h
  Blinds-if false h k = k

  -- The counters.
  bump_row-blind :
      (metric : String) (count : ℕ) (db : Db)
      → bump_row s metric count (blind s db) ≡ blind s (bump_row s metric count db)
  unfolding bump_row blind visible readable_scopes
  bump_row-blind metric count db = refl

  Blinds-bump_many : (counts : List (String × ℕ)) → Blinds (bump_many s counts)
  unfolding bump_many
  Blinds-bump_many [] = Blinds-pure tt
  Blinds-bump_many ((metric, count) ∷ counts) =
      Blinds-bind
        (Blinds-if (count == 0) (Blinds-pure tt)
          (Blinds-modify (bump_row s metric count) (bump_row-blind metric count)))
        (λ u. Blinds-bump_many counts)

  swallowed-blind :
      (m : Tx Db Unit) (db : Db)
      → Blinds m
      → swallowed (transaction m (blind s db)) ≡ blind s (swallowed (transaction m db))
  unfolding swallowed transaction
  swallowed-blind m db h =
      ap
        (λ (r : Result (Unit × Db)).
          swallowed (elim r [ ok (a, s') ↦ (ok a, s') | err e ↦ (err e, blind s db) ]))
        (h.at db)
      ∙ go (m db)
    where
      go :
          (r : Result (Unit × Db))
          → swallowed (elim (hidden s r) [ ok (a, s') ↦ (ok a, s') | err e ↦ (err e, blind s db) ])
            ≡ blind s (swallowed (elim r [ ok (a, s') ↦ (ok a, s') | err e ↦ (err e, db) ]))
      go (ok (a, x)) = refl
      go (err e) = refl

  bump_any-blind :
      (counts : List (String × ℕ)) (db : Db)
      → bump_any s counts (blind s db) ≡ blind s (bump_any s counts db)
  unfolding bump_any
  bump_any-blind [] db = refl
  bump_any-blind (c ∷ counts) db =
      swallowed-blind (bump_many s (c ∷ counts)) db (Blinds-bump_many (c ∷ counts))

  pub Blinds-counted :
      {A : Type 0} (counts : A → List (String × ℕ)) (m : Tx Db A)
      → Blinds m
      → Blinds (counted s counts m)
  unfolding counted bump_safe
  Blinds-counted counts m h =
      Blinds-bind h (λ a. Blinds-bind (Blinds-modify _ (bump_any-blind _)) (λ u. Blinds-pure a))
