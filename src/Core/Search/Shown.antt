-- ===== src/Core/Search/Shown.antt =====
-- engraphy/core/search.py: what `search` shows and leaves behind.
use mathlib.Core.Path.{subst}
use engraphy.Base.{
  ◌≤◌, String, ◌≡◌, refl, sym, ◌∙◌, true, ◌||◌, some, List, [], ◌∷◌, ℤ, pos, negsuc, length, ◌==◌,
  contains, string_eq, nat_eq, All, arith, In,
}
use engraphy.Core.Tx.{key_error}
use engraphy.Core.Tx.Leads.{
  Leads, Returns, Leads-pure, Leads-bind, Leads-gets, Leads-some, Leads-any, Leads-known,
}
use engraphy.Core.Store.{Db, Node, Session, visible, active, status_eq, ambient_scope_set}
use engraphy.Core.ScopeSet.{resolved, resolved-named, Leads-resolved}
use engraphy.Core.Metrics.Counted.{Leads-counted}
use engraphy.Core.Search.{Finder, passes, sentinel_type}
use engraphy.Core.Search.Query.{
  hydrated, SearchItem, SearchReply, search_item, node_envelope, clamp_limit, Search, query_of,
  fused_for, search_tables, search_nodes,
}
use engraphy.Core.Search.Legs.{FoundId}
use engraphy.Core.Search.Found.{UniqueIds, same_row, hydrated-All, rows-In, top-FoundId}

-- The row may be shown to the session for the arguments of a search.
pub record Shown (s : Session) (a : Search) (db : Db) (n : Node) : Type 0 where
  pub seen : visible s db n ≡ true
  pub asked : (a.scope == "all" || contains (ambient_scope_set s (a.scope ∷ []) db) n.scope) ≡ true
  pub engine : ¬ (n.node_type ≡ sentinel_type)
  pub current : (a.include_inactive || n.status == active) ≡ true
  pub typed : (length a.types == 0 || contains a.types n.node_type) ≡ true

-- An item shows a row of the table that may be shown.
abbrev pub ShownItem : Session → Search → Db → SearchItem → Type 0
ShownItem s a db item =
    (n : Node) × In n db.nodes × (item.node ≡ node_envelope a.detail n) × Shown s a db n

abbrev pub Answer : Session → Search → Db → SearchReply → Type 0
Answer s a db r = (length r.results ≤ 25) × All (ShownItem s a db) r.results

clamp_limit-le : (n : ℤ) → clamp_limit n ≤ 25
unfolding clamp_limit
clamp_limit-le (pos n) = omega arith
clamp_limit-le (negsuc n) = omega arith

module _ (t : Finder) (s : Session) (profile : String) (a : Search) (db : Db) where
  passes-Shown :
      (n : Node)
      → passes s (query_of t a (resolved s a.scope db)).filter db n ≡ true
      → Shown s a db n
  unfolding passes query_of
  passes-Shown n h = record {
    seen = ground (arith, h);
    asked = resolved-named s a.scope db n.scope (ground (arith, h));
    engine = λ e. ground (arith, h, e);
    current = ground (arith, h);
    typed = ground (arith, h);
  }

  items-Answer :
      UniqueIds db.nodes
      → (items : List SearchItem)
      → hydrated
          (search_item t s a.detail db (fused_for t s profile a (resolved s a.scope db) db))
          (fused_for t s profile a (resolved s a.scope db) db).rows
          (fused_for t s profile a (resolved s a.scope db) db).top
        ≡ some items
      → (length items ≤ 25) × All (ShownItem s a db) items
  unfolding search_item
  items-Answer unique items e =
      let scopes = resolved s a.scope db in
      let (found, within) = top-FoundId t s profile a scopes db in
      let (shown, size) =
        hydrated-All _ (fused_for t s profile a scopes db).rows (ShownItem s a db)
          (FoundId t s (query_of t a scopes) db) (fused_for t s profile a scopes db).top items
          (λ id score n ((m, there, same, passed), leg) row e.
            let here = rows-In t s profile a scopes db n row in
            let one = same_row m n db.nodes unique there here (same ∙ sym e) in
            (n, here, refl, passes-Shown n (subst (λ n. passes s _ db n ≡ true) one passed)))
          found e in
      (omega (arith, size, within, clamp_limit-le a.limit), shown)

  Leads-search_tables :
      UniqueIds db.nodes
      → Leads (λ x. x ≡ db) (search_tables t s profile a) (λ r x. Answer s a db r)
  unfolding search_tables
  Leads-search_tables unique =
      let scopes = resolved s a.scope db in
      let f = fused_for t s profile a scopes db in
      Leads-known scopes _ (Leads-resolved s a.scope a.no_scope_all db) (
        Leads-gets _ _ (
          Leads-gets _ _ (
            Leads-some _ key_error (λ items e. Leads-bind {R = λ u x. Unit} (Leads-any _) (λ u.
              Leads-bind {R = λ u x. Unit} (Leads-any _)
                (λ u. Leads-pure _ (λ x k. items-Answer unique items e)))))))

-- A search that answers shows 25 rows at most, whatever limit is asked for, and each item is the
-- envelope of a row of the table that the session may see, in the scope that was named, in an ambient
-- scope, or for `all` in any, of the types asked for, active unless inactive rows were asked for, and
-- never of the engine's sentinel type, if no two rows have one id.
pub search_nodes-Answer :
    (t : Finder) (s : Session) (profile : String) (a : Search) (db : Db)
    → UniqueIds db.nodes
    → Returns (λ r x. Answer s a db r) (search_nodes t s profile a db)
unfolding search_nodes
search_nodes-Answer t s profile a db unique =
    (Leads-counted s _ (λ r x after q. q) (Leads-search_tables t s profile a db unique)).at db refl
