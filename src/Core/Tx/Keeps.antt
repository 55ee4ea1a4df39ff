-- ===== src/Core/Tx/Keeps.antt =====
-- Rules for a relation between the tables before and after an action that commits.
use engraphy.Base.{Bool, true, false, Option, none, some, if◌then◌else◌}
use engraphy.Core.Tx.{
  Error, Result, ok, err, Tx, pure, raise, gets, or_raise, modify, require, ◌>>=◌, continue,
}

-- What holds of the state of a result, if there is one.
abbrev pub Ends : {S A : Type 0} → (S → Type 0) → Result (A × S) → Type 0
Ends P (ok (a, s)) = P s
Ends P (err e) = Unit

-- `m` leads from any state that is related to `origin` to such a state.
pub record Keeps {S A : Type 0} (P : S → Type 0) (m : Tx S A) : Type 0 where
  pub at : (s : S) → P s → Ends P (m s)

module _ {S : Type 0} {P : S → Type 0} where
  pub Keeps-pure : {A : Type 0} (a : A) → Keeps P (pure a)
  unfolding pure
  Keeps-pure a = record { at = λ s h. h }

  pub Keeps-raise : {A : Type 0} (e : Error) → Keeps P (raise {A = A} e)
  unfolding raise
  Keeps-raise e = record { at = λ s h. tt }

  pub Keeps-gets : {A : Type 0} (f : S → A) → Keeps P (gets f)
  unfolding gets
  Keeps-gets f = record { at = λ s h. h }

  pub Keeps-modify : (f : S → S) → ((s : S) → P s → P (f s)) → Keeps P (modify f)
  unfolding modify
  Keeps-modify f h = record { at = h }

  pub Keeps-or_raise : {A : Type 0} (o : Option A) (e : Error) → Keeps P (or_raise o e)
  unfolding or_raise
  Keeps-or_raise none e = record { at = λ s h. tt }
  Keeps-or_raise (some a) e = record { at = λ s h. h }

  pub Keeps-require : (b : Bool) (e : Error) → Keeps P (require b e)
  unfolding require
  Keeps-require true e = record { at = λ s h. h }
  Keeps-require false e = record { at = λ s h. tt }

  pub Keeps-if :
      {A : Type 0} (b : Bool) (m n : Tx S A) → Keeps P m → Keeps P n → Keeps P (if b then m else n)
  Keeps-if true m n km kn = km
  Keeps-if false m n km kn = kn

  Keeps-continue :
      {A B : Type 0} (r : Result (A × S)) (f : A → Tx S B)
      → Ends P r
      → ((a : A) → Keeps P (f a))
      → Ends P (continue r f)
  Keeps-continue (ok (a, s)) f h kf = (kf a).at s h
  Keeps-continue (err e) f h kf = tt

  pub Keeps-bind :
      {A B : Type 0} {m : Tx S A} {f : A → Tx S B}
      → Keeps P m
      → ((a : A) → Keeps P (f a))
      → Keeps P (m >>= f)
  unfolding ◌>>=◌
  Keeps-bind {m = m} {f = f} km kf = record { at = λ s h. Keeps-continue (m s) f (km.at s h) kf }
