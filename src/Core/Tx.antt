-- ===== src/Core/Tx.antt =====
-- engraphy/server/db.py: a transaction is an action over the tables. One that raises is rolled
-- back, so an error carries no state.
pub mod Keeps
pub mod Leads
pub mod Runs
use engraphy.Base.{◌≡◌, Bool, true, false, Option, none, some, if◌then◌else◌}

-- The exceptions of engraphy/core/dedup.py, those that PostgreSQL raises on the way
-- (`edge_rule`, `check_violation`, `unique_violation`, `privilege`), and Python's `RuntimeError`,
-- `ValueError`, `TypeError` and `KeyError`.
pub data Error : Type 0 where
  not_found scope_unknown scope_forbidden pending_expired validation config_error : Error
  edge_rule check_violation unique_violation privilege canonical_chain value_error type_error
        key_error :
      Error

pub data Result {ℓ} (A : Type ℓ) : Type ℓ where
  ok : A → Result A
  err : Error → Result A

abbrev pub Tx {ℓ} : Type ℓ → Type ℓ → Type ℓ
Tx S A = S → Result (A × S)

module _ {ℓ} {S A : Type ℓ} where
  pub pure : A → Tx S A
  pure a s = ok (a, s)

  pub raise : Error → Tx S A
  raise e s = err e

  pub gets : (S → A) → Tx S A
  gets f s = ok (f s, s)

  -- The value, or the error if there is none.
  pub or_raise : Option A → Error → Tx S A
  or_raise none e s = err e
  or_raise (some a) e s = ok (a, s)

module _ {S : Type 0} where
  pub modify : (S → S) → Tx S Unit
  modify f s = ok (tt, f s)

  -- `if not test: raise error`
  pub require : Bool → Error → Tx S Unit
  require true e s = ok (tt, s)
  require false e s = err e

module _ {ℓ} {S A B : Type ℓ} where
  abbrev pub continue : Result (A × S) → (A → Tx S B) → Result (B × S)
  continue (ok (a, s)) f = f a s
  continue (err e) f = err e

  infixl 10 ◌>>=◌ ◌>>◌
  unfoldable pub ◌>>=◌ : Tx S A → (A → Tx S B) → Tx S B
  unfolding pure raise gets or_raise modify require
  ◌>>=◌ m f s = continue (m s) f

  abbrev pub ◌>>◌ : Tx S A → Tx S B → Tx S B
  m >> n = m >>= λ _. n

-- A committed transaction, or the tables as they were.
unfoldable pub transaction {ℓ} : {S A : Type ℓ} → Tx S A → S → Result A × S
transaction m s = elim (m s) [ ok (a, s') ↦ (ok a, s') | err e ↦ (err e, s) ]
