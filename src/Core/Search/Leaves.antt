-- ===== src/Core/Search/Leaves.antt =====
-- engraphy/core/search.py: what `search` leaves behind, and when it answers.
use engraphy.Base.{String, refl, Bool, string_eq, nat_eq}
use engraphy.Core.Tx.Keeps.{
  Ends, Keeps, Keeps-pure, Keeps-gets, Keeps-or_raise, Keeps-if, Keeps-bind, Keeps-require,
}
use engraphy.Core.Store.{Db, Session}
use engraphy.Core.Store.Growth.{
  Grown, Kept, Grown-log_audit, Grown-refl, SameMemory-refl, Grown-metrics,
}
use engraphy.Core.Store.Moves.{Keeps-log_audit}
use engraphy.Core.ScopeSet.{resolve_scope_set, refuse_scope_all}
use engraphy.Core.Metrics.Counted.{Keeps-counted}
use engraphy.Core.Recall.{Keeps-bump_recall}
use engraphy.Core.Search.{Finder}
use engraphy.Core.Search.Query.{Search, search_tables, search_nodes}

Keeps-resolve_scope_set :
    {P : Db → Type 0} (s : Session) (scope : String) (no_scope_all : Bool)
    → Keeps P (resolve_scope_set s scope no_scope_all)
unfolding resolve_scope_set refuse_scope_all
Keeps-resolve_scope_set s scope no_scope_all =
    Keeps-bind (Keeps-require _ _)
      (λ _. Keeps-bind (Keeps-gets _) (λ _. Keeps-bind (Keeps-gets _) (λ _. Keeps-pure _)))

Keeps-search_tables :
    {origin : Db} (t : Finder) (s : Session) (profile : String) (a : Search)
    → Keeps (Grown Kept origin) (search_tables t s profile a)
unfolding search_tables
Keeps-search_tables t s profile a = Keeps-bind (Keeps-resolve_scope_set s _ _) (λ scopes.
    Keeps-bind (Keeps-gets _) (λ f. Keeps-bind (Keeps-gets _) (λ items.
      Keeps-bind (Keeps-or_raise items _) (λ results. Keeps-bind (Keeps-bump_recall _ s _) (λ _.
        Keeps-bind (Keeps-if _ _ _ (Keeps-log_audit _ (Grown-log_audit _)) (Keeps-pure _))
          (λ _. Keeps-pure _))))))

-- A search that answers changes no memory: every row of nodes keeps its content, all its attrs and its
-- status, rows of the edges and of the logs stay in their order, and scopes, types and configuration
-- are what they were.
search_nodes-Grown :
    (t : Finder) (s : Session) (profile : String) (a : Search) (db : Db)
    → Ends (Grown Kept db) (search_nodes t s profile a db)
unfolding search_nodes
search_nodes-Grown t s profile a db =
    (Keeps-counted s _ (λ after t g. Grown-metrics after t g)
        (Keeps-search_tables t s profile a)).at
      db (Grown-refl (λ n. (SameMemory-refl n, refl)))
