-- ===== src/Core/Search/Answers.antt =====
-- engraphy/core/search.py: when `search` answers, and when its own recall counters stop it.
use engraphy.Base.{
  ℕ, String, ◌≡◌, sym, ◌∙◌, Bool, true, false, ◌&&◌, none, some, List, [], ◌∷◌, map, keep, length,
  length-map, ◌==◌, contains, string_eq, nat_eq, if◌then◌else◌, All, ◌⊎◌, In,
}
use engraphy.Core.Tx.{pure, ok, err, Error, key_error, privilege, check_violation}
use engraphy.Core.Tx.Runs.{bind-ok, bind-err, gets-ok, pure-ok, modify-ok, or_raise-ok}
use engraphy.Core.Store.{Db, AuditRow, Node, Session, writable_scopes, update_error, log_audit}
use engraphy.Core.ScopeSet.{resolved, resolve_scope_set-ok}
use engraphy.Core.Metrics.Counted.{counted-ok, counted-err}
use engraphy.Core.Recall.{recalled, surfaced, bump_recall-ok, bump_recall-denied}
use engraphy.Core.Search.{Finder}
use engraphy.Core.Search.Query.{
  SearchReply, search_item, Search, fused_for, search_tables, search_nodes,
}
use engraphy.Core.Search.Found.{hydrated-All, hydrated-total, rows-top}
use engraphy.Core.Search.Fuse.{Scores}

-- The token may ask for the scope.
abbrev pub Allowed : Search → Type 0
Allowed a = (a.scope == "all" && a.no_scope_all) ≡ false

-- The ids that a search surfaces.
abbrev pub surfaced_ids : Finder → Session → String → Search → Db → List ℕ
surfaced_ids t s profile a db =
    map (λ e. e.0) (fused_for t s profile a (resolved s a.scope db) db).top

All-unit : (top : Scores) → All (λ e. Unit {0}) top
All-unit [] = tt
All-unit (e ∷ top) = (tt, All-unit top)

module _ (t : Finder) (s : Session) (profile : String) (a : Search) (db : Db)
    (allowed : Allowed a) where
  audit-ok :
      (b : Bool) (row : AuditRow) (x : Db)
      → (after : Db) × ((if b then log_audit row else pure tt) x ≡ ok (tt, after))
  unfolding log_audit
  audit-ok true row x = (_, modify-ok _ x)
  audit-ok false row x = (x, pure-ok tt x)

  -- A search whose scope is allowed always answers, with an item for each row that it surfaces, if every row that it surfaces can be updated by the session.
  pub search_nodes-answers :
      All
        (λ n. update_error t.env.dates s (some n) (recalled db.now) db ≡ none)
        (keep (surfaced s (surfaced_ids t s profile a db) db) db.nodes)
      → (r : SearchReply) × (after : Db) × (search_nodes t s profile a db ≡ ok (r, after))
        × (length r.results ≡ length (surfaced_ids t s profile a db))
  unfolding search_nodes search_tables
  search_nodes-answers fine =
      let scopes = resolved s a.scope db in
      let f = fused_for t s profile a scopes db in
      let item = search_item t s a.detail db f in
      let (items, shown) = hydrated-total item f.rows f.top (rows-top t s profile a scopes db) in
      let (bumped, bump) = bump_recall-ok t.env.dates s (surfaced_ids t s profile a db) db fine in
      let (after, audit) = audit-ok (a.scope == "all") _ bumped in
      (
        _,
        _,
        counted-ok s _ _ db (
            bind-ok _ _ db (resolve_scope_set-ok s a.scope a.no_scope_all db allowed) (
              bind-ok _ _ db (gets-ok _ db) (
                bind-ok _ _ db (gets-ok _ db) (
                  bind-ok _ _ db (or_raise-ok _ key_error db shown)
                    (bind-ok _ _ db bump (bind-ok _ _ bumped audit (pure-ok _ after))))))),
        (hydrated-All item f.rows (λ x. Unit) (λ e. Unit) f.top items (λ id score n q m e. tt)
              (All-unit f.top) shown).1
            ∙ sym (length-map (λ e. e.0) f.top),
      )

  -- A search whose scope is allowed fails, and answers nothing, if it surfaces a row that the session
  -- can read but not write: the UPDATE of the recall counters is refused.
  pub search_nodes-denied :
      (n : Node)
      → In n db.nodes
      → surfaced s (surfaced_ids t s profile a db) db n ≡ true
      → contains (writable_scopes s db) n.scope ≡ false
      → (e : Error) × (search_nodes t s profile a db ≡ err e)
        × ((e ≡ privilege) ⊎ (e ≡ check_violation))
  unfolding search_nodes search_tables
  search_nodes-denied n there found denied =
      let scopes = resolved s a.scope db in
      let f = fused_for t s profile a scopes db in
      let item = search_item t s a.detail db f in
      let (items, shown) = hydrated-total item f.rows f.top (rows-top t s profile a scopes db) in
      let (e, refused, which) =
        bump_recall-denied t.env.dates s (surfaced_ids t s profile a db) db n there found denied in
      (
        e,
        counted-err s _ _ db (
            bind-ok _ _ db (resolve_scope_set-ok s a.scope a.no_scope_all db allowed) (
              bind-ok _ _ db (gets-ok _ db) (
                bind-ok _ _ db (gets-ok _ db)
                  (bind-ok _ _ db (or_raise-ok _ key_error db shown) (bind-err _ _ db refused))))),
        which,
      )
