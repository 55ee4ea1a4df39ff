-- ===== src/Core/Recall.antt =====
-- engraphy/core/recall.py: the recall counters of the nodes that a read surfaced.
use engraphy.Base.{
  ℕ, suc, ◌≡◌, refl, Bool, ◌&&◌, Option, none, some, List, [], ◌∷◌, map, keep, contains, nat_eq,
  if◌then◌else◌, ◌⊎◌, inl, inr, All, false, true, not, length, ap, ◌∙◌, keep-In, arith, Bool-cases,
  Option-cases, string_eq, sym, ◌==◌, In,
}
use mathlib.Core.Path.{subst}
use engraphy.Core.AttrSpec.{Dates, validate_attrs}
use engraphy.Core.Tx.{
  Tx, ok, err, Error, privilege, check_violation, pure, gets, modify, ◌>>=◌, ◌>>◌,
}
use engraphy.Core.Tx.Runs.{bind-ok, bind-err, pure-ok, gets-ok, modify-ok, raise-err}
use engraphy.Core.Tx.Keeps.{Keeps, Keeps-pure, Keeps-gets, Keeps-modify, Keeps-bind}
use engraphy.Core.Store.{
  Db, Session, Node, visible, writable_scopes, find_spec, update_error, unless_error,
}
use engraphy.Core.Store.Growth.{Kept, Grown, Grown-rewrite}
use engraphy.Core.Store.Moves.{Keeps-unless_error}

unfoldable pub recalled : ℕ → Node → Node
recalled now n = record n { recall_count = suc n.recall_count; last_recalled_at = some now }

-- The rows that `WHERE id = ANY(ids)` finds for the session.
unfoldable pub surfaced : Session → List ℕ → Db → Node → Bool
surfaced s ids db n = contains ids n.id && visible s db n

-- The first error that the triggers and the policy of an UPDATE give on the rows.
unfoldable pub first_error : Dates → Session → List Node → Db → Option Error
first_error dates s [] db = none
first_error dates s (n ∷ ns) db =
    let later = first_error dates s ns db in
    elim (update_error dates s (some n) (recalled db.now) db) [ none ↦ later | some e ↦ some e ]

-- The UPDATE, on every row that it finds.
unfoldable pub recall_rows : Session → List ℕ → Db → Db
unfolding surfaced recalled
recall_rows s ids db = record db {
  nodes = map (λ n. if surfaced s ids db n then recalled db.now n else n) db.nodes;
}

-- `bump_recall`
unfoldable pub bump_recall : Dates → Session → List ℕ → Tx Db Unit
unfolding first_error recall_rows surfaced unless_error
bump_recall dates s [] = pure tt
bump_recall dates s (id ∷ ids) = do
  e ← gets (λ db. first_error dates s (keep (surfaced s (id ∷ ids) db) db.nodes) db)
  unless_error e
  modify (recall_rows s (id ∷ ids))

Kept-recalled : (now : ℕ) (x y : Node) → Kept x y → Kept x (recalled now y)
unfolding recalled
Kept-recalled now x y (m, s) = (
  record {
    id = m.id;
    space = m.space;
    node_type = m.node_type;
    scope = m.scope;
    title = m.title;
    body = m.body;
    attrs = m.attrs;
    embedding = m.embedding;
    extra_search = m.extra_search;
    author = m.author;
  },
  s,
)

pub Keeps-bump_recall :
    {origin : Db} (dates : Dates) (s : Session) (ids : List ℕ)
    → Keeps (Grown Kept origin) (bump_recall dates s ids)
unfolding bump_recall recall_rows
Keeps-bump_recall dates s [] = Keeps-pure tt
Keeps-bump_recall dates s (id ∷ ids) = Keeps-bind (Keeps-gets _) (λ e.
    Keeps-bind (Keeps-unless_error e)
      (λ _. Keeps-modify _ (λ db. Grown-rewrite _ _ (Kept-recalled db.now) db)))

-- The errors that an UPDATE may give on a row.
abbrev pub IsRefused : Option Error → Type 0
IsRefused o = (o ≡ some privilege) ⊎ (o ≡ some check_violation)

module _ (dates : Dates) (s : Session) where
  update_error-IsRefused :
      (n : Node) (f : Node → Node) (db : Db)
      → (update_error dates s (some n) f db ≡ none) ⊎ IsRefused (update_error dates s (some n) f db)
  unfolding update_error
  update_error-IsRefused n f db = elim (Option-cases (find_spec s n.node_type db)) [
    | inl missing ↦ inr (inr (rw (missing, update_error) refl))
    | inr (spec, there) ↦
        elim (Bool-cases (not (length (validate_attrs dates spec (f n).attrs) == 0))) [
          | inl bad ↦ inr (inr (rw (there, bad, update_error) refl))
          | inr good ↦ elim (Bool-cases (contains (writable_scopes s db) n.scope)) [
            | inl may ↦ inl (rw (there, good, may, update_error) refl)
            | inr denied ↦ inr (inl (rw (there, good, denied, update_error) refl))
          ]
        ]
  ]

  update_error-denied :
      (n : Node) (f : Node → Node) (db : Db)
      → contains (writable_scopes s db) n.scope ≡ false
      → ¬ (update_error dates s (some n) f db ≡ none)
  unfolding update_error
  update_error-denied n f db denied fine = elim (Option-cases (find_spec s n.node_type db)) [
    | inl missing ↦ ground (arith, fine, missing)
    | inr (spec, there) ↦ ground (arith, fine, there, denied)
  ]

  -- One row that the session may not write refuses the whole UPDATE.
  pub first_error-denied :
      (n : Node) (ns : List Node) (db : Db)
      → In n ns
      → contains (writable_scopes s db) n.scope ≡ false
      → IsRefused (first_error dates s ns db)
  unfolding first_error
  first_error-denied n [] db h denied = elim h [ ]
  first_error-denied n (m ∷ ns) db h denied = elim (update_error-IsRefused m (recalled db.now) db) [
    | inl fine ↦ elim h [
      | inl here ↦ absurd (
          update_error-denied m (recalled db.now) db
            (subst (λ k. contains (writable_scopes s db) k.scope ≡ false) (sym here) denied) fine)
      | inr there ↦ rw (fine, first_error) (first_error-denied n ns db there denied)
    ]
    | inr (inl refused) ↦ inl (rw (refused, first_error) refl)
    | inr (inr refused) ↦ inr (rw (refused, first_error) refl)
  ]

pub first_error-none :
    (dates : Dates) (s : Session) (ns : List Node) (db : Db)
    → All (λ n. update_error dates s (some n) (recalled db.now) db ≡ none) ns
    → first_error dates s ns db ≡ none
unfolding first_error
first_error-none dates s [] db h = refl
first_error-none dates s (n ∷ ns) db (h, hs) =
    rw (h, first_error) (first_error-none dates s ns db hs)

-- The UPDATE finds its rows writable and valid, and commits.
pub bump_recall-ok :
    (dates : Dates) (s : Session) (ids : List ℕ) (db : Db)
    → All
        (λ n. update_error dates s (some n) (recalled db.now) db ≡ none)
        (keep (surfaced s ids db) db.nodes)
    → (after : Db) × (bump_recall dates s ids db ≡ ok (tt, after))
unfolding bump_recall unless_error
bump_recall-ok dates s [] db h = (db, pure-ok tt db)
bump_recall-ok dates s (id ∷ ids) db h = (
  _,
  bind-ok _ _ db (gets-ok _ db) (
      bind-ok _ _ db (ap (λ e. unless_error e db) (first_error-none dates s _ db h) ∙ pure-ok tt db)
        (modify-ok _ db)),
)

unless_error-IsRefused :
    (o : Option Error) (db : Db)
    → IsRefused o
    → (e : Error) × (unless_error o db ≡ err e) × ((e ≡ privilege) ⊎ (e ≡ check_violation))
unfolding unless_error
unless_error-IsRefused o db (inl h) = (privilege, rw h (raise-err privilege db), inl refl)
unless_error-IsRefused o db (inr h) =
    (check_violation, rw h (raise-err check_violation db), inr refl)

-- The UPDATE finds a row that the session may not write.
pub bump_recall-denied :
    (dates : Dates) (s : Session) (ids : List ℕ) (db : Db) (n : Node)
    → In n db.nodes
    → surfaced s ids db n ≡ true
    → contains (writable_scopes s db) n.scope ≡ false
    → (e : Error) × (bump_recall dates s ids db ≡ err e) × ((e ≡ privilege) ⊎ (e ≡ check_violation))
unfolding bump_recall surfaced
bump_recall-denied dates s [] db n m found denied = cc
bump_recall-denied dates s (id ∷ ids) db n m found denied =
    let (e, refused, which) = unless_error-IsRefused _ db (
      first_error-denied dates s n _ db (keep-In (surfaced s (id ∷ ids) db) n db.nodes m found)
        denied) in
    (e, bind-ok _ _ db (gets-ok _ db) (bind-err _ _ db refused), which)
