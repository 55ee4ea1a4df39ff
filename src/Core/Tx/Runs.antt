-- ===== src/Core/Tx/Runs.antt =====
-- What an action gives on tables where each of its steps commits.
use engraphy.Base.{◌≡◌, refl, Bool, true, false, Option, none, some}
use engraphy.Core.Tx.{
  Error, Result, ok, err, Tx, pure, raise, gets, or_raise, modify, require, transaction, ◌>>=◌,
}

module _ {S : Type 0} where
  pub require-ok : (b : Bool) (e : Error) (s : S) → b ≡ true → require b e s ≡ ok (tt, s)
  unfolding require
  require-ok b e s h = rw h refl

  pub require-err : (b : Bool) (e : Error) (s : S) → b ≡ false → require b e s ≡ err e
  unfolding require
  require-err b e s h = rw h refl

  pub modify-ok : (f : S → S) (s : S) → modify f s ≡ ok (tt, f s)
  unfolding modify
  modify-ok f s = refl

module _ {S A : Type 0} where
  pub pure-ok : (a : A) (s : S) → pure a s ≡ ok (a, s)
  unfolding pure
  pure-ok a s = refl

  pub raise-err : (e : Error) (s : S) → raise {A = A} e s ≡ err e
  unfolding raise
  raise-err e s = refl

  pub gets-ok : (f : S → A) (s : S) → gets f s ≡ ok (f s, s)
  unfolding gets
  gets-ok f s = refl

-- The next step runs on what the first one left.
pub bind-ok :
    {S A B : Type 0} (m : Tx S A) (f : A → Tx S B) (s : S) {a : A} {t : S} {r : Result (B × S)}
    → m s ≡ ok (a, t)
    → f a t ≡ r
    → (m >>= f) s ≡ r
unfolding ◌>>=◌
bind-ok m f s h k = rw h k

pub bind-err :
    {S A B : Type 0} (m : Tx S A) (f : A → Tx S B) (s : S) {e : Error}
    → m s ≡ err e
    → (m >>= f) s ≡ err e
unfolding ◌>>=◌
bind-err m f s h = rw h refl

pub or_raise-err :
    {S A : Type 0} (o : Option A) (e : Error) (s : S) → o ≡ none → or_raise o e s ≡ err e
unfolding or_raise
or_raise-err o e s h = rw h refl

pub transaction-ok :
    {S A : Type 0} (m : Tx S A) (s : S) {a : A} {t : S}
    → m s ≡ ok (a, t)
    → transaction m s ≡ (ok a, t)
unfolding transaction
transaction-ok m s h = rw (h, transaction) refl

pub or_raise-ok :
    {S A : Type 0} (o : Option A) (e : Error) (s : S) {a : A}
    → o ≡ some a
    → or_raise o e s ≡ ok (a, s)
unfolding or_raise
or_raise-ok o e s h = rw (h, or_raise) refl
