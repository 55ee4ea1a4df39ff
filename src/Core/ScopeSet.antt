-- ===== src/Core/ScopeSet.antt =====
-- engraphy/core/scope_set.py: a caller's `scope` argument as a set of scopes, and the guard of a
-- token that may not ask for all of them.
use engraphy.Base.{
  String, ◌≡◌, refl, ap, Bool, true, false, not, ◌&&◌, ◌||◌, List, [], ◌∷◌, keep, ◌==◌, contains,
  string_eq, if◌then◌else◌, All, arith, Bool-cases, inl, inr, ==_self,
}
use engraphy.Core.Tx.{Tx, ok, scope_forbidden, pure, gets, require, ◌>>=◌, ◌>>◌}
use engraphy.Core.Tx.Runs.{bind-ok, require-ok, gets-ok, pure-ok}
use engraphy.Core.Tx.Leads.{Leads, Returns, Leads-pure, Leads-gets, Leads-require}
use engraphy.Core.Store.{Db, Session, readable_scopes, ambient_scope_set}

-- `refuse_scope_all`
unfoldable pub refuse_scope_all : String → Bool → Tx Db Unit
refuse_scope_all scope no_scope_all = require (not (scope == "all" && no_scope_all)) scope_forbidden

-- `resolve_scope_set`
unfoldable pub resolve_scope_set : Session → String → Bool → Tx Db (List String)
resolve_scope_set s scope no_scope_all = do
  refuse_scope_all scope no_scope_all
  readable ← gets (readable_scopes s)
  wide ← gets (ambient_scope_set s (scope ∷ []))
  pure (if scope == "all" then readable else keep (contains readable) wide)

-- Every scope of the list is readable.
abbrev pub AllReadable : Session → Db → List String → Type 0
AllReadable s db = All (λ scope. contains (readable_scopes s db) scope ≡ true)

keep-AllReadable :
    (s : Session) (db : Db) (ss : List String)
    → AllReadable s db (keep (contains (readable_scopes s db)) ss)
keep-AllReadable s db [] = tt
keep-AllReadable s db (x ∷ xs) = elim (Bool-cases (contains (readable_scopes s db) x)) [
  | inl there ↦ rw there (there, keep-AllReadable s db xs)
  | inr missing ↦ rw missing (keep-AllReadable s db xs)
]

contains-All :
    (xs ys : List String)
    → ((x : String) → contains ys x ≡ true → contains xs x ≡ true)
    → All (λ x. contains xs x ≡ true) ys
contains-All xs [] h = tt
contains-All xs (y ∷ ys) h =
    (h y (ground (arith, ==_self y)), contains-All xs ys (λ x k. h x (ground (arith, k))))

-- What a resolution gives: readable scopes only, and for a token that may not ask for all of them
-- only if it named one.
abbrev pub Answered : Session → String → Bool → Db → List String → Type 0
Answered s scope no_scope_all db scopes =
    AllReadable s db scopes × ((scope == "all" && no_scope_all) ≡ false)

answered :
    (s : Session) (scope : String) (no_scope_all : Bool) (db : Db) (b : Bool)
    → AllReadable s db (
        if b
        then readable_scopes s db
        else keep (contains (readable_scopes s db)) (ambient_scope_set s (scope ∷ []) db))
answered s scope no_scope_all db true = contains-All _ _ (λ x h. h)
answered s scope no_scope_all db false = keep-AllReadable s db _

Leads-resolve_scope_set :
    (s : Session) (scope : String) (no_scope_all : Bool) (db : Db)
    → Leads
        (λ t. t ≡ db)
        (resolve_scope_set s scope no_scope_all)
        (λ scopes t. Answered s scope no_scope_all db scopes × t ≡ db)
unfolding resolve_scope_set refuse_scope_all
Leads-resolve_scope_set s scope no_scope_all db = Leads-require _ _ _ (λ allowed. Leads-gets _ _ (
    Leads-gets _ _ (
      Leads-pure _ (λ t k.
        ((answered s scope no_scope_all db (scope == "all"), ground (arith, allowed)), k)))))

-- A scope argument that resolves gives scopes that the session can read, changes no table, and is
-- not `all` from a token that may not ask for it.
resolve_scope_set-Answered :
    (s : Session) (scope : String) (no_scope_all : Bool) (db : Db)
    → Returns
        (λ scopes t. Answered s scope no_scope_all db scopes × t ≡ db)
        (resolve_scope_set s scope no_scope_all db)
resolve_scope_set-Answered s scope no_scope_all db =
    (Leads-resolve_scope_set s scope no_scope_all db).at db refl

-- The set that an allowed scope argument stands for.
unfoldable pub resolved : Session → String → Db → List String
resolved s scope db =
    if scope == "all"
    then readable_scopes s db
    else keep (contains (readable_scopes s db)) (ambient_scope_set s (scope ∷ []) db)

pub Leads-resolved :
    (s : Session) (scope : String) (no_scope_all : Bool) (db : Db)
    → Leads
        (λ t. t ≡ db)
        (resolve_scope_set s scope no_scope_all)
        (λ scopes t. (scopes ≡ resolved s scope db) × (t ≡ db))
unfolding resolve_scope_set refuse_scope_all resolved
Leads-resolved s scope no_scope_all db =
    Leads-require _ _ _
      (λ allowed. Leads-gets _ _ (Leads-gets _ _ (Leads-pure _ (λ t k. (refl, k)))))

-- Without the restriction every scope argument resolves.
pub resolve_scope_set-ok :
    (s : Session) (scope : String) (no_scope_all : Bool) (db : Db)
    → (scope == "all" && no_scope_all) ≡ false
    → resolve_scope_set s scope no_scope_all db ≡ ok (resolved s scope db, db)
unfolding resolve_scope_set refuse_scope_all resolved
resolve_scope_set-ok s scope no_scope_all db allowed =
    bind-ok _ _ db (require-ok _ _ db (ap not allowed))
      (bind-ok _ _ db (gets-ok _ db) (bind-ok _ _ db (gets-ok _ db) (pure-ok _ db)))

contains-keep :
    (p : String → Bool) (xs : List String) (x : String)
    → contains (keep p xs) x ≡ true
    → contains xs x ≡ true
contains-keep p [] x h = h
contains-keep p (y ∷ xs) x h = elim (Bool-cases (p y)) [
  | inl passed ↦ ground (arith, h, passed, contains-keep p xs x)
  | inr failed ↦ ground (arith, h, failed, contains-keep p xs x)
]

-- A resolved scope is any of the readable ones for `all`, and else the one named or an ambient one.
pub resolved-named :
    (s : Session) (scope : String) (db : Db) (x : String)
    → contains (resolved s scope db) x ≡ true
    → (scope == "all" || contains (ambient_scope_set s (scope ∷ []) db) x) ≡ true
unfolding resolved
resolved-named s scope db x h = elim (Bool-cases (scope == "all")) [
  | inl all ↦ ground (arith, all)
  | inr one ↦ rw one (contains-keep (contains (readable_scopes s db)) _ x (rw one at h))
]
