-- ===== src/Core/Tx/Leads.antt =====
-- Rules for what an action that commits leads to, from the tables it starts from.
use engraphy.Base.{◌≡◌, refl, sym, ◌∙◌, Bool, true, false, Option, none, some, if◌then◌else◌}
use mathlib.Core.Path.{subst}
use engraphy.Core.Tx.{
  Error, Result, ok, err, Tx, pure, raise, gets, or_raise, modify, require, ◌>>=◌, continue,
}
use engraphy.Core.Tx.Keeps.{Ends, Keeps}

-- What holds of the value and the state of a result, if there is one.
abbrev pub Returns : {S A : Type 0} → (A → S → Type 0) → Result (A × S) → Type 0
Returns Q (ok (a, s)) = Q a s
Returns Q (err e) = Unit

-- From a state with `P`, what `m` returns has `Q`.
pub record Leads {S A : Type 0} (P : S → Type 0) (m : Tx S A) (Q : A → S → Type 0) : Type 0 where
  pub at : (s : S) → P s → Returns Q (m s)

module _ {S A : Type 0} {P : S → Type 0} {Q : A → S → Type 0} where
  pub Leads-pure : (a : A) → ((s : S) → P s → Q a s) → Leads P (pure a) Q
  unfolding pure
  Leads-pure a h = record { at = h }

  pub Leads-raise : (e : Error) → Leads P (raise {A = A} e) Q
  unfolding raise
  Leads-raise e = record { at = λ s h. tt }

  pub Leads-if :
      (b : Bool) (m n : Tx S A)
      → (b ≡ true → Leads P m Q)
      → (b ≡ false → Leads P n Q)
      → Leads P (if b then m else n) Q
  Leads-if true m n h k = h refl
  Leads-if false m n h k = k refl

  pub Leads-or_raise :
      (o : Option A) (e : Error)
      → ((a : A) → o ≡ some a → (s : S) → P s → Q a s)
      → Leads P (or_raise o e) Q
  unfolding or_raise
  Leads-or_raise none e h = record { at = λ s k. tt }
  Leads-or_raise (some a) e h = record { at = h a refl }

module _ {S : Type 0} {P : S → Type 0} {Q : Unit → S → Type 0} where
  pub Leads-guard :
      (b : Bool) (e : Error) → (b ≡ true → (s : S) → P s → Q tt s) → Leads P (require b e) Q
  unfolding require
  Leads-guard true e h = record { at = h refl }
  Leads-guard false e h = record { at = λ s k. tt }

  pub Leads-modify : (f : S → S) → ((s : S) → P s → Q tt (f s)) → Leads P (modify f) Q
  unfolding modify
  Leads-modify f h = record { at = h }

module _ {S A B : Type 0} {Q : B → S → Type 0} where
  Leads-continue :
      {R : A → S → Type 0} (r : Result (A × S)) (f : A → Tx S B)
      → Returns R r
      → ((a : A) → Leads (R a) (f a) Q)
      → Returns Q (continue r f)
  Leads-continue (ok (a, s)) f h k = (k a).at s h
  Leads-continue (err e) f h k = tt

ends : {S A : Type 0} (P : S → Type 0) (r : Result (A × S)) → Ends P r → Returns (λ a s. P s) r
ends P (ok (a, s)) h = h
ends P (err e) h = tt

module _ {S A B : Type 0} {P : S → Type 0} {Q : B → S → Type 0} where
  pub Leads-bind :
      {R : A → S → Type 0} {m : Tx S A} {f : A → Tx S B}
      → Leads P m R
      → ((a : A) → Leads (R a) (f a) Q)
      → Leads P (m >>= f) Q
  unfolding ◌>>=◌
  Leads-bind {m = m} {f = f} h k = record { at = λ s p. Leads-continue (m s) f (h.at s p) k }

  -- After an action that keeps `P`.
  pub Leads-after :
      {m : Tx S A} {f : A → Tx S B} → Keeps P m → ((a : A) → Leads P (f a) Q) → Leads P (m >>= f) Q
  Leads-after {m = m} h k =
      Leads-bind {R = λ a s. P s} (record { at = λ s p. ends P (m s) (h.at s p) }) k

  pub Leads-some :
      (o : Option A) (e : Error) {f : A → Tx S B}
      → ((a : A) → o ≡ some a → Leads P (f a) Q)
      → Leads P (or_raise o e >>= f) Q
  unfolding ◌>>=◌ or_raise
  Leads-some none e h = record { at = λ s k. tt }
  Leads-some (some a) e {f = f} h = record { at = λ s k. (h a refl).at s k }

pub Leads-require :
    {S B : Type 0} {P : S → Type 0} {Q : B → S → Type 0} (b : Bool) (e : Error) (f : Unit → Tx S B)
    → (b ≡ true → Leads P (f tt) Q)
    → Leads P (require b e >>= f) Q
unfolding ◌>>=◌ require
Leads-require true e f h = record { at = λ s k. (h refl).at s k }
Leads-require false e f h = record { at = λ s k. tt }

any_result : {S A : Type 0} (r : Result (A × S)) → Returns (λ a s. Unit) r
any_result (ok (a, s)) = tt
any_result (err e) = tt

pub Leads-any : {S A : Type 0} {P : S → Type 0} (m : Tx S A) → Leads P m (λ a s. Unit)
Leads-any m = record { at = λ s p. any_result (m s) }

fact_after : {S A : Type 0} (F : Type 0) (r : Result (A × S)) → F → Ends (λ s. F) r
fact_after F (ok (a, s)) h = h
fact_after F (err e) h = tt

-- What does not speak of the tables stays.
pub Keeps-fact : {S A : Type 0} (F : Type 0) (m : Tx S A) → Keeps (λ s. F) m
Keeps-fact F m = record { at = λ s h. fact_after F (m s) h }

-- A read of tables that are known.
pub Leads-gets :
    {S A B : Type 0} {Q : B → S → Type 0} {db : S} (f : S → A) (g : A → Tx S B)
    → Leads (λ s. s ≡ db) (g (f db)) Q
    → Leads (λ s. s ≡ db) (gets f >>= g) Q
unfolding ◌>>=◌ gets
Leads-gets {Q = Q} {db = db} f g h = record {
  at = λ s e. subst (λ x. Returns Q (g (f x) x)) (sym e) (h.at db refl);
}

-- An action that only computes a value.
pub Leads-known :
    {S A B : Type 0} {Q : B → S → Type 0} {db : S} (v : A) {m : Tx S A} (f : A → Tx S B)
    → Leads (λ s. s ≡ db) m (λ a s. (a ≡ v) × (s ≡ db))
    → Leads (λ s. s ≡ db) (f v) Q
    → Leads (λ s. s ≡ db) (m >>= f) Q
Leads-known {Q = Q} v f h k =
    Leads-bind h
      (λ a. record { at = λ s (e, p). subst (λ x. Returns Q (f x s)) (sym e) (k.at s p) })

-- From each state with `P`, taken as known.
pub Leads-from :
    {S A : Type 0} {P : S → Type 0} {m : Tx S A} {Q : A → S → Type 0}
    → ((db : S) → P db → Leads (λ s. s ≡ db) m Q)
    → Leads P m Q
Leads-from h = record { at = λ s p. (h s p).at s refl }

-- A last read of tables that are known.
pub Leads-read :
    {S A : Type 0} {Q : A → S → Type 0} {db : S} (f : S → A)
    → Q (f db) db
    → Leads (λ s. s ≡ db) (gets f) Q
unfolding gets
Leads-read {Q = Q} f h = record { at = λ s e. subst (λ x. Q (f x) x) (sym e) h }

-- What an action keeps, from tables that are known.
pub Leads-kept :
    {S A : Type 0} {P : S → Type 0} {m : Tx S A} (db : S)
    → P db
    → Keeps P m
    → Leads (λ s. s ≡ db) m (λ a s. P s)
Leads-kept {P = P} {m = m} db p h = record { at = λ s e. ends P (m s) (h.at s (subst P (sym e) p)) }

pub Returns-mono :
    {S A : Type 0} (Q T : A → S → Type 0) (r : Result (A × S))
    → ((a : A) (s : S) → Q a s → T a s)
    → Returns Q r
    → Returns T r
Returns-mono Q T (ok (a, s)) h q = h a s q
Returns-mono Q T (err e) h q = tt

-- The tables are known by another name.
pub Leads-moved :
    {S A : Type 0} {Q : A → S → Type 0} {m : Tx S A} {t db : S}
    → t ≡ db
    → Leads (λ x. x ≡ db) m Q
    → Leads (λ x. x ≡ t) m Q
Leads-moved same h = record { at = λ x e. h.at x (e ∙ same) }
